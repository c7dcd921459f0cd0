-- ===== src/Prelude/Selections.antt =====
-- Conditions on rows one after another.
use Prim.Native.Nat.{◌+◌}
use mathlib.Core.Path.{◌≡◌, refl}
use Prim.Native.Nat.{◌≤◌}
use mathlib.Core.Option.{none, some}
use mathlib.Core.Bool.{Bool, true, false, not, ◌&&◌}
use mathlib.Core.List.{List, [], ◌∷◌}
use native.Mathlib.Omega.{arith}
use ticket_c2c_platform.Prelude.Rows.{length, select, find_row, count_rows}

module _ {ℓ} {A : Type ℓ} where
  pub select_comm : (p q : A → Bool) (xs : List A) → select p (select q xs) ≡ select q (select p xs)
  unfolding select
  select_comm p q [] = refl
  select_comm p q (x ∷ xs) = ground (arith, select_comm p q xs)

  pub select-select :
      (p q : A → Bool) (xs : List A) → select p (select q xs) ≡ select (λ x. q x && p x) xs
  unfolding select
  select-select p q [] = refl
  select-select p q (x ∷ xs) = ground (arith, select-select p q xs)

  pub select_absorb :
      (p q : A → Bool) (xs : List A)
      → ((x : A) → q x ≡ true → p x ≡ true)
      → select q (select p xs) ≡ select q xs
  unfolding select
  select_absorb p q [] h = refl
  select_absorb p q (x ∷ xs) h = ground (arith, h x, select_absorb p q xs h)

  pub select_congr :
      (p p' q : A → Bool) (xs : List A)
      → ((x : A) → q x ≡ true → p x ≡ p' x)
      → select p (select q xs) ≡ select p' (select q xs)
  unfolding select
  select_congr p p' q [] h = refl
  select_congr p p' q (x ∷ xs) h = ground (arith, h x, select_congr p p' q xs h)

  pub select_partition :
      (p : A → Bool) (xs : List A)
      → length (select p xs) + length (select (λ x. not (p x)) xs) ≡ length xs
  unfolding select
  select_partition p [] = omega arith
  select_partition p (x ∷ xs) = ground (arith, select_partition p xs)

  pub select_all : (xs : List A) → select (λ x. true) xs ≡ xs
  unfolding select
  select_all [] = refl
  select_all (x ∷ xs) = ground (arith, select_all xs)

  -- What is found in the rows that are left.
  pub find_row-select-none :
      (p q : A → Bool) (xs : List A) → find_row p xs ≡ none → find_row p (select q xs) ≡ none
  unfolding select find_row
  find_row-select-none p q [] h = refl
  find_row-select-none p q (x ∷ xs) h = ground (arith, find_row-select-none p q xs)

  pub find_row-select_kept :
      (p q : A → Bool) (xs : List A) {a : A}
      → find_row p xs ≡ some a
      → q a ≡ true
      → find_row p (select q xs) ≡ some a
  unfolding select find_row
  find_row-select_kept p q [] {a} h kept = cc
  find_row-select_kept p q (x ∷ xs) {a} h kept = ground (arith, find_row-select_kept p q xs {a = a})

  none_counted : (p : A → Bool) (xs : List A) → count_rows p xs ≤ 0 → find_row p xs ≡ none
  unfolding find_row count_rows
  none_counted p [] h = refl
  none_counted p (x ∷ xs) h = ground (arith, none_counted p xs)

  pub find_row-select_gone :
      (p q : A → Bool) (xs : List A) {a : A}
      → find_row p xs ≡ some a
      → q a ≡ false
      → count_rows p xs ≤ 1
      → find_row p (select q xs) ≡ none
  unfolding select find_row count_rows
  find_row-select_gone p q [] {a} h gone unique = cc
  find_row-select_gone p q (x ∷ xs) {a} h gone unique =
      ground
        (arith, find_row-select_gone p q xs {a = a}, none_counted p xs, find_row-select-none p q xs)
