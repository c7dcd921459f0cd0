-- ===== src/Prelude/Rows.antt =====
-- Tables as lists of rows: `SELECT … WHERE`, `UPDATE … WHERE` with its row count, and sums.
use Prim.Native.Nat.{ℕ, suc, ◌+◌, ◌*◌, ◌≤◌}
use mathlib.Core.Path.{◌≡◌, refl, ap}
use mathlib.Core.Logic.{inl, inr}
use mathlib.Core.Bool.{Bool, true, false}
use mathlib.Core.List.{List, [], ◌∷◌, ◌++◌}
use mathlib.Core.Option.{Option, none, some}
use native.Mathlib.Omega.{arith}
use ticket_c2c_platform.Prelude.Tests.{if◌then◌else◌, Bool-cases}

module _ {ℓ} {A : Type ℓ} where
  abbrev pub length : List A → ℕ
  length [] = 0
  length (x ∷ xs) = suc (length xs)

  -- The first row that satisfies the condition.
  unfoldable pub find_row : (A → Bool) → List A → Option A
  find_row p [] = none
  find_row p (x ∷ xs) = if p x then some x else find_row p xs

  -- All the rows that satisfy the condition.
  unfoldable pub select : (A → Bool) → List A → List A
  select p [] = []
  select p (x ∷ xs) = let rest = select p xs in if p x then x ∷ rest else rest

  unfoldable pub count_rows : (A → Bool) → List A → ℕ
  count_rows p [] = 0
  count_rows p (x ∷ xs) = let rest = count_rows p xs in if p x then suc rest else rest

  unfoldable pub update_rows : (A → Bool) → (A → A) → List A → List A
  update_rows p f [] = []
  update_rows p f (x ∷ xs) = let rest = update_rows p f xs in if p x then f x ∷ rest else x ∷ rest

  unfoldable pub sum_rows : (A → ℕ) → List A → ℕ
  sum_rows g [] = 0
  sum_rows g (x ∷ xs) = g x + sum_rows g xs

  -- An update that never changes a number leaves its sum.
  pub sum_rows-update_same :
      (p : A → Bool) (f : A → A) (g : A → ℕ) (xs : List A)
      → ((a : A) → p a ≡ true → g (f a) ≡ g a)
      → sum_rows g (update_rows p f xs) ≡ sum_rows g xs
  unfolding sum_rows update_rows
  sum_rows-update_same p f g [] h = refl
  sum_rows-update_same p f g (x ∷ xs) h = ground (arith, h x, sum_rows-update_same p f g xs h)

  -- An update that takes `n` off a number in each row that it changes.
  pub sum_rows-update_sub :
      (p : A → Bool) (f : A → A) (g : A → ℕ) (n : ℕ) (xs : List A)
      → ((a : A) → p a ≡ true → g (f a) + n ≡ g a)
      → sum_rows g (update_rows p f xs) + n * count_rows p xs ≡ sum_rows g xs
  unfolding sum_rows update_rows count_rows
  sum_rows-update_sub p f g n [] h = omega arith
  sum_rows-update_sub p f g n (x ∷ xs) h = elim (Bool-cases (p x)) [
    | inl e ↦ rw e (omega (arith, h x e, sum_rows-update_sub p f g n xs h))
    | inr e ↦ rw e (omega (arith, sum_rows-update_sub p f g n xs h))
  ]

  pub count_rows-update_same :
      (p q : A → Bool) (f : A → A) (xs : List A)
      → ((a : A) → q (f a) ≡ q a)
      → count_rows q (update_rows p f xs) ≡ count_rows q xs
  unfolding count_rows update_rows
  count_rows-update_same p q f [] h = refl
  count_rows-update_same p q f (x ∷ xs) h = ground (arith, h x, count_rows-update_same p q f xs h)

  pub update_rows_none :
      (p : A → Bool) (f : A → A) (xs : List A) → count_rows p xs ≡ 0 → update_rows p f xs ≡ xs
  unfolding count_rows update_rows
  update_rows_none p f [] h = refl
  update_rows_none p f (x ∷ xs) h = ground (arith, update_rows_none p f xs)

  pub find_row-true : (p : A → Bool) (xs : List A) {a : A} → find_row p xs ≡ some a → p a ≡ true
  unfolding find_row
  find_row-true p [] {a} h = cc
  find_row-true p (x ∷ xs) {a} h = ground (arith, find_row-true p xs {a = a})

  pub find_row-count :
      (p : A → Bool) (xs : List A) {a : A} → find_row p xs ≡ some a → 1 ≤ count_rows p xs
  unfolding find_row count_rows
  find_row-count p [] {a} h = cc
  find_row-count p (x ∷ xs) {a} h = ground (arith, find_row-count p xs {a = a})

  pub find_row-none : (p : A → Bool) (xs : List A) → find_row p xs ≡ none → count_rows p xs ≡ 0
  unfolding find_row count_rows
  find_row-none p [] h = refl
  find_row-none p (x ∷ xs) h = ground (arith, find_row-none p xs)

  pub count_rows_mono :
      (p q : A → Bool) (xs : List A)
      → ((a : A) → p a ≡ true → q a ≡ true)
      → count_rows p xs ≤ count_rows q xs
  unfolding count_rows
  count_rows_mono p q [] h = omega arith
  count_rows_mono p q (x ∷ xs) h = ground (arith, h x, count_rows_mono p q xs h)

  -- An update that leaves the condition as it is shows in the row that the condition finds.
  pub find_row-update :
      (p : A → Bool) (f : A → A) (xs : List A) {a : A}
      → ((b : A) → p (f b) ≡ p b)
      → find_row p xs ≡ some a
      → find_row p (update_rows p f xs) ≡ some (f a)
  unfolding find_row update_rows
  find_row-update p f [] {a} h e = cc
  find_row-update p f (x ∷ xs) {a} h e = ground (arith, h x, find_row-update p f xs {a = a} h)

  pub find_row-append :
      (p : A → Bool) (xs : List A) (a : A)
      → find_row p xs ≡ none
      → p a ≡ true
      → find_row p (xs ++ a ∷ []) ≡ some a
  unfolding find_row
  find_row-append p [] a h e = ground arith
  find_row-append p (x ∷ xs) a h e = ground (arith, find_row-append p xs a)

  pub sum_rows-append :
      (g : A → ℕ) (xs : List A) (a : A) → sum_rows g (xs ++ a ∷ []) ≡ sum_rows g xs + g a
  unfolding sum_rows
  sum_rows-append g [] a = omega arith
  sum_rows-append g (x ∷ xs) a = omega (arith, sum_rows-append g xs a)

  -- Where the condition implies a key, an update that finds its row changes that row alone.
  pub sum_rows-update_one :
      (p key : A → Bool) (f : A → A) (g : A → ℕ) (n : ℕ) (xs : List A) {a : A}
      → count_rows key xs ≤ 1
      → ((b : A) → p b ≡ true → key b ≡ true)
      → find_row p xs ≡ some a
      → ((b : A) → p b ≡ true → g (f b) + n ≡ g b)
      → sum_rows g (update_rows p f xs) + n ≡ sum_rows g xs
  sum_rows-update_one p key f g n xs {a} unique implied found taken =
      omega (arith, ap (λ (t : ℕ). n * t) one, sum_rows-update_sub p f g n xs taken)
    where
      one : count_rows p xs ≡ 1
      one = omega (arith, find_row-count p xs {a = a} found, count_rows_mono p key xs implied)

  -- With one row for a key, the row that a narrower condition finds is the key's row.
  pub find_row-key :
      (p key : A → Bool) (xs : List A) {a : A}
      → count_rows key xs ≤ 1
      → ((b : A) → p b ≡ true → key b ≡ true)
      → find_row p xs ≡ some a
      → find_row key xs ≡ some a
  unfolding find_row count_rows
  find_row-key p key [] {a} unique implied found = cc
  find_row-key p key (x ∷ xs) {a} unique implied found = elim (Bool-cases (key x)) [
    | inl hit ↦ ground (
      arith,
      λ (e : find_row p xs ≡ some a). find_row-count p xs {a = a} e,
      count_rows_mono p key xs implied,
    )
    | inr miss ↦ ground (arith, implied x, find_row-key p key xs {a = a})
  ]

  -- The same under another condition, which the row satisfies.
  pub find_row-update_if :
      (key p : A → Bool) (f : A → A) (xs : List A) {a : A}
      → ((b : A) → key (f b) ≡ key b)
      → find_row key xs ≡ some a
      → p a ≡ true
      → find_row key (update_rows p f xs) ≡ some (f a)
  unfolding find_row update_rows
  find_row-update_if key p f [] {a} h e pa = cc
  find_row-update_if key p f (x ∷ xs) {a} h e pa =
      ground (arith, h x, find_row-update_if key p f xs {a = a} h)

  pub find_row-update_other :
      (key p : A → Bool) (f : A → A) (xs : List A) {a : A}
      → ((b : A) → key (f b) ≡ key b)
      → find_row key xs ≡ some a
      → p a ≡ false
      → find_row key (update_rows p f xs) ≡ some a
  unfolding find_row update_rows
  find_row-update_other key p f [] {a} h e pa = cc
  find_row-update_other key p f (x ∷ xs) {a} h e pa =
      ground (arith, h x, find_row-update_other key p f xs {a = a} h)
