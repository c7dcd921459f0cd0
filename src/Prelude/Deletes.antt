-- ===== src/Prelude/Deletes.antt =====
-- A predicate on all the rows of a table, and the rows that a condition leaves.
use Prim.Native.Nat.{suc, ◌≤◌}
use mathlib.Core.Path.{◌≡◌, subst}
use mathlib.Core.Logic.{inl, inr}
use mathlib.Core.Bool.{Bool, not}
use mathlib.Core.List.{List, [], ◌∷◌, ◌++◌}
use mathlib.Core.Option.{none, some}
use native.Mathlib.Omega.{arith}
use ticket_c2c_platform.Prelude.Tests.{if◌then◌else◌, Bool-cases}
use ticket_c2c_platform.Prelude.Rows.{length, find_row, select}
use ticket_c2c_platform.Prelude.Texts.{Text, ◌=t◌, text_iff}

module _ {ℓ κ} {A : Type ℓ} where
  unfoldable pub Every : (A → Type κ) → List A → Type κ
  Every P [] = Unit
  Every P (x ∷ xs) = P x × Every P xs

  pub select-Every :
      (P : A → Type κ) (p : A → Bool) (xs : List A) → Every P xs → Every P (select p xs)
  unfolding Every select
  select-Every P p [] h = h
  select-Every P p (x ∷ xs) h = elim (Bool-cases (p x)) [
    | inl e ↦ rw e (h.0, select-Every P p xs h.1)
    | inr e ↦ rw e (select-Every P p xs h.1)
  ]

  pub append-Every :
      (P : A → Type κ) (xs ys : List A) → Every P xs → Every P ys → Every P (xs ++ ys)
  unfolding Every
  append-Every P [] ys h k = k
  append-Every P (x ∷ xs) ys h k = (h.0, append-Every P xs ys h.1 k)

  pub find_row-Every :
      (P : A → Type κ) (p : A → Bool) (xs : List A) {a : A}
      → Every P xs
      → find_row p xs ≡ some a
      → P a
  unfolding Every find_row
  find_row-Every P p [] {a} h e = cc
  find_row-Every P p (x ∷ xs) {a} h e = elim (Bool-cases (p x)) [
    | inl hit ↦ subst P (ground arith) h.0
    | inr miss ↦ find_row-Every P p xs {a = a} h.1 (ground arith)
  ]

  pub Every-mono :
      (P Q : A → Type κ) (xs : List A) → ((a : A) → P a → Q a) → Every P xs → Every Q xs
  unfolding Every
  Every-mono P Q [] f h = h
  Every-mono P Q (x ∷ xs) f h = (f x h.0, Every-mono P Q xs f h.1)

module _ {ℓ} {A : Type ℓ} where
  pub length-select-le : (p : A → Bool) (xs : List A) → length (select p xs) ≤ length xs
  unfolding select
  length-select-le p [] = omega arith
  length-select-le p (x ∷ xs) = ground (arith, length-select-le p xs)

  -- Deleting by a condition that holds of some row leaves fewer rows.
  pub length-select-lt :
      (p : A → Bool) (xs : List A) {a : A}
      → find_row p xs ≡ some a
      → suc (length (select (λ x. not (p x)) xs)) ≤ length xs
  unfolding select find_row
  length-select-lt p [] {a} h = cc
  length-select-lt p (x ∷ xs) {a} h =
      ground (arith, length-select-le (λ y. not (p y)) xs, length-select-lt p xs {a = a})

  -- What is found for one key after the rows of another key, or of the same, were deleted.
  pub find_row-delete :
      (key : A → Text) (e d : Text) (xs : List A)
      → find_row (λ x. key x =t e) (select (λ x. not (key x =t d)) xs)
        ≡ (if d =t e then none else find_row (λ x. key x =t e) xs)
  unfolding select find_row
  find_row-delete key e d [] = ground arith
  find_row-delete key e d (x ∷ xs) =
      ground
        (arith, find_row-delete key e d xs, text_iff d e, text_iff (key x) e, text_iff (key x) d)
