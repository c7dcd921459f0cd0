-- ===== src/Prelude/Pages.antt =====
-- Keyset pagination: `WHERE key > last ORDER BY key LIMIT n`, repeated from the last key of each page
-- until a page is not full.
use Prim.Native.Nat.{ℕ, zero, suc, ◌+◌, ◌≤◌, ◌<◌}
use mathlib.Core.Path.{◌≡◌, refl, ap, sym, ◌∙◌, subst}
use mathlib.Core.Logic.{inl, inr}
use mathlib.Core.Bool.{Bool, true, false, ◌&&◌, ◌||◌}
use mathlib.Core.List.{List, [], ◌∷◌, ◌++◌}
use mathlib.Core.Option.{Option, none, some}
use native.Mathlib.Omega.{arith}
use ticket_c2c_platform.Prelude.Tests.{if◌then◌else◌, ltb, ◌==◌, Bool-cases}
use ticket_c2c_platform.Prelude.Rows.{length, select}
use ticket_c2c_platform.Prelude.Texts.{Text}
use ticket_c2c_platform.Prelude.Deletes.{Every}
use ticket_c2c_platform.Prelude.Selections.{select_absorb, select_all}

-- The order of texts, and so of UUIDs of lower case.
unfoldable pub text_lt : Text → Text → Bool
text_lt s [] = false
text_lt [] (b ∷ t) = true
text_lt (a ∷ s) (b ∷ t) = ltb a b || a == b && text_lt s t

text_lt_asymm : (s t : Text) → text_lt s t ≡ true → text_lt t s ≡ false
unfolding text_lt
text_lt_asymm s [] h = cc
text_lt_asymm [] (b ∷ t) h = refl
text_lt_asymm (a ∷ s) (b ∷ t) h = ground (arith, text_lt_asymm s t)

pub text_lt_irrefl : (s : Text) → text_lt s s ≡ false
unfolding text_lt
text_lt_irrefl [] = refl
text_lt_irrefl (a ∷ s) = ground (arith, text_lt_irrefl s)

text_lt_trans : (s t u : Text) → text_lt s t ≡ true → text_lt t u ≡ true → text_lt s u ≡ true
unfolding text_lt
text_lt_trans s t [] h k = cc
text_lt_trans s [] (c ∷ u) h k = cc
text_lt_trans [] (b ∷ t) (c ∷ u) h k = refl
text_lt_trans (a ∷ s) (b ∷ t) (c ∷ u) h k = ground (arith, text_lt_trans s t u)

module _ {ℓ} {A : Type ℓ} where
  abbrev pub take : ℕ → List A → List A
  take zero xs = []
  take (suc n) [] = []
  take (suc n) (x ∷ xs) = x ∷ take n xs

  abbrev pub drop : ℕ → List A → List A
  drop zero xs = xs
  drop (suc n) [] = []
  drop (suc n) (x ∷ xs) = drop n xs

  take-drop : (n : ℕ) (xs : List A) → take n xs ++ drop n xs ≡ xs
  take-drop zero xs = refl
  take-drop (suc n) [] = refl
  take-drop (suc n) (x ∷ xs) = ap (λ ys. x ∷ ys) (take-drop n xs)

  length-drop : (n : ℕ) (xs : List A) → length (take n xs) + length (drop n xs) ≡ length xs
  length-drop zero xs = omega arith
  length-drop (suc n) [] = omega arith
  length-drop (suc n) (x ∷ xs) = omega (arith, length-drop n xs)

  short_take : (n : ℕ) (xs : List A) → length (take n xs) < n → take n xs ≡ xs
  short_take zero xs h = absurd (omega arith)
  short_take (suc n) [] h = refl
  short_take (suc n) (x ∷ xs) h = ap (λ ys. x ∷ ys) (short_take n xs (omega arith))

module _ {ℓ} {A : Type ℓ} (key : A → Text) where
  -- The condition of a page; there is no last key before the first.
  abbrev pub is_after : Option Text → A → Bool
  is_after none x = true
  is_after (some k) x = text_lt k (key x)

  abbrev pub last_key : A → List A → Text
  last_key x [] = key x
  last_key x (y ∷ ys) = last_key y ys

  abbrev pub page : ℕ → Option Text → List A → List A
  page n last rows = take n (select (is_after last) rows)

  -- The loop, on fuel
  unfoldable pub pages : ℕ → ℕ → Option Text → List A → Option (List A)
  pages zero n last rows = none
  pages (suc fuel) n last rows = elim (page n last rows) [
    | [] ↦ some []
    | x ∷ xs ↦
        let rest = pages fuel n (some (last_key x xs)) rows in
        if ltb (length (x ∷ xs)) n
        then some (x ∷ xs)
        else elim rest [ none ↦ none | some ys ↦ some ((x ∷ xs) ++ ys) ]
  ]

  -- Rows in the order of their key, which is unique.
  unfoldable pub IsSorted : List A → Type ℓ
  IsSorted [] = Unit
  IsSorted (x ∷ xs) = Every (λ y. text_lt (key x) (key y) ≡ true) xs × IsSorted xs

  all_after :
      (k : Text) (xs : List A)
      → Every (λ y. text_lt k (key y) ≡ true) xs
      → select (is_after (some k)) xs ≡ xs
  unfolding Every select
  all_after k [] h = refl
  all_after k (x ∷ xs) h = ground (arith, h.0, all_after k xs h.1)

  last_is_later :
      (k : Text) (x : A) (xs : List A)
      → text_lt k (key x) ≡ true
      → Every (λ y. text_lt k (key y) ≡ true) xs
      → text_lt k (last_key x xs) ≡ true
  unfolding Every
  last_is_later k x [] h hs = h
  last_is_later k x (y ∷ ys) h hs = last_is_later k y ys hs.0 hs.1

  Every-prefix : (P : A → Type 0) (xs ys : List A) → Every P (xs ++ ys) → Every P xs
  unfolding Every
  Every-prefix P [] ys h = tt
  Every-prefix P (x ∷ xs) ys h = (h.0, Every-prefix P xs ys h.1)

  after_page :
      (x : A) (xs rest : List A)
      → IsSorted ((x ∷ xs) ++ rest)
      → select (is_after (some (last_key x xs))) ((x ∷ xs) ++ rest) ≡ rest
  unfolding IsSorted Every select
  after_page x [] rest h = rw (text_lt_irrefl (key x)) (all_after (key x) rest h.0)
  after_page x (y ∷ ys) rest h =
      let later = Every-prefix (λ z. text_lt (key x) (key z) ≡ true) (y ∷ ys) rest h.0 in
      let out =
        text_lt_asymm (key x) (last_key y ys) (last_is_later (key x) y ys later.0 later.1) in
      rw out (after_page y ys rest h.1)

  selected : (p : A → Bool) (xs : List A) → Every (λ y. p y ≡ true) (select p xs)
  unfolding Every select
  selected p [] = tt
  selected p (x ∷ xs) = elim (Bool-cases (p x)) [
    | inl e ↦ rw e (e, selected p xs)
    | inr e ↦ rw e (selected p xs)
  ]

  IsSorted-rest : (xs ys : List A) → IsSorted (xs ++ ys) → IsSorted ys
  unfolding IsSorted
  IsSorted-rest [] ys h = h
  IsSorted-rest (x ∷ xs) ys h = IsSorted-rest xs ys h.1

  last-Every :
      (P : Text → Type 0) (x : A) (xs : List A)
      → Every (λ y. P (key y)) (x ∷ xs)
      → P (last_key x xs)
  unfolding Every
  last-Every P x [] h = h.0
  last-Every P x (y ∷ ys) h = last-Every P y ys h.1

  -- What comes after the end of a page comes after its beginning.
  later_is_after :
      (last : Option Text) (k : Text) (y : A)
      → elim last as (λ o. Type 0) [ none ↦ Unit | some l ↦ text_lt l k ≡ true ]
      → is_after (some k) y ≡ true
      → is_after last y ≡ true
  later_is_after none k y h after = refl
  later_is_after (some l) k y h after = text_lt_trans l k (key y) h after

  page_ends_later :
      (last : Option Text) (x : A) (xs : List A)
      → Every (λ y. is_after last y ≡ true) (x ∷ xs)
      → elim last as (λ o. Type 0) [ none ↦ Unit | some l ↦ text_lt l (last_key x xs) ≡ true ]
  page_ends_later none x xs h = tt
  page_ends_later (some l) x xs h = last-Every (λ k. text_lt l k ≡ true) x xs h

  -- The rows after a page are those that its rows leave.
  next_rows :
      (last : Option Text) (rows rest : List A) (x : A) (xs : List A)
      → select (is_after last) rows ≡ (x ∷ xs) ++ rest
      → IsSorted ((x ∷ xs) ++ rest)
      → select (is_after (some (last_key x xs))) rows ≡ rest
  next_rows last rows rest x xs split sorted =
      let here =
        Every-prefix (λ y. is_after last y ≡ true) (x ∷ xs) rest
          (subst (Every (λ y. is_after last y ≡ true)) split (selected (is_after last) rows)) in
      let after = is_after (some (last_key x xs)) in
      sym (
        select_absorb (is_after last) after rows
          (λ y h. later_is_after last (last_key x xs) y (page_ends_later last x xs here) h))
      ∙ ap (select after) split
      ∙ after_page x xs rest sorted

  pages-suffix :
      (fuel n : ℕ) (last : Option Text) (rows left : List A)
      → 1 ≤ n
      → select (is_after last) rows ≡ left
      → IsSorted left
      → length left < fuel
      → pages fuel n last rows ≡ some left
  unfolding pages
  pages-suffix zero n last rows left full remains sorted enough = absurd (omega arith)
  pages-suffix (suc fuel) zero last rows left full remains sorted enough = absurd (omega arith)
  pages-suffix (suc fuel) (suc n) last rows [] full remains sorted enough = rw (remains, pages) refl
  pages-suffix (suc fuel) (suc n) last rows (x ∷ xs) full remains sorted enough =
      let split : (x ∷ take n xs) ++ drop n xs ≡ x ∷ xs = ap (λ ys. x ∷ ys) (take-drop n xs) in
      let next =
        next_rows last rows (drop n xs) x (take n xs) (remains ∙ sym split)
          (subst IsSorted (sym split) sorted) in
      let rest =
        pages-suffix fuel (suc n) (some (last_key x (take n xs))) rows (drop n xs) full next
          (IsSorted-rest (x ∷ take n xs) (drop n xs) (subst IsSorted (sym split) sorted))
          (omega (arith, length-drop n xs)) in
      elim (Bool-cases (ltb (length (x ∷ take n xs)) (suc n))) [
        | inl short ↦
            rw (remains, pages, short) (ap (λ ys. some (x ∷ ys)) (short_take n xs (ground arith)))
        | inr whole ↦ rw (remains, pages, whole, rest) (ap some split)
      ]

  -- Pages of at least one row visit every row once, in order, and the loop ends.
  pub pages_complete :
      (n : ℕ) (rows : List A)
      → 1 ≤ n
      → IsSorted rows
      → pages (suc (length rows)) n none rows ≡ some rows
  pages_complete n rows full sorted =
      pages-suffix (suc (length rows)) n none rows rows full (select_all rows) sorted (omega arith)
