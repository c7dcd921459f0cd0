-- ===== src/Prelude/Texts.antt =====
-- Text as its list of code points: identifiers, keys, names and JSON field names.
use Prim.Native.Nat.{ℕ, suc, ◌+◌}
use Prim.Native.Char.{code}
use Prim.Native.String.{String}
use mathlib.Core.Path.{◌≡◌, refl}
use mathlib.Core.Logic.{◌↔◌, ◌≢◌}
use mathlib.Core.Bool.{Bool, true, false, ◌&&◌}
use mathlib.Core.List.{List, [], ◌∷◌, ◌++◌}
use mathlib.Core.Option.{Option, none, some}
use native.Mathlib.Omega.{arith}
use ticket_c2c_platform.Prelude.Tests.{◌==◌}

abbrev pub Text : Type 0
Text = List ℕ

-- The code points of a literal.
abbrev pub codes : String → Text
codes String.[] = []
codes (String.◌∷◌ c s) = code c ∷ codes s

-- `===` on strings.
infix 50 ◌=t◌
unfoldable pub ◌=t◌ : Text → Text → Bool
[] =t [] = true
[] =t (_ ∷ _) = false
(_ ∷ _) =t [] = false
(a ∷ s) =t (b ∷ t) = a == b && s =t t

text_eq_refl : (s : Text) → s =t s ≡ true
unfolding ◌=t◌
text_eq_refl [] = refl
text_eq_refl (a ∷ s) = ground (arith, text_eq_refl s)

text_eq_sound : (s t : Text) → s =t t ≡ true → s ≡ t
unfolding ◌=t◌
text_eq_sound [] [] h = refl
text_eq_sound [] (b ∷ t) h = ground arith
text_eq_sound (a ∷ s) [] h = ground arith
text_eq_sound (a ∷ s) (b ∷ t) h = ground (arith, text_eq_sound s t)

pub text_iff : (s t : Text) → (s =t t ≡ true) ↔ (s ≡ t)
text_iff s t = (text_eq_sound s t, λ e. ground (arith, text_eq_refl s))

pub text_refl : (s : Text) → s =t s ≡ true
text_refl = text_eq_refl

-- Optional texts (a nullable column, an absent property).
abbrev pub opt_eq : Option Text → Option Text → Bool
opt_eq none none = true
opt_eq (some a) (some b) = a =t b
opt_eq _ _ = false

pub text_append_eq : (p s t : Text) → (p ++ s) =t (p ++ t) ≡ s =t t
unfolding ◌=t◌
text_append_eq [] s t = refl
text_append_eq (a ∷ p) s t = ground (arith, text_append_eq p s t)

abbrev pub size : Text → ℕ
size [] = 0
size (a ∷ s) = suc (size s)

-- Texts of one length, each with a rest, agree if both parts do.
pub text_split_eq : (s t x y : Text) → size s ≡ size t → (s ++ x) =t (t ++ y) ≡ (s =t t && x =t y)
unfolding ◌=t◌
text_split_eq [] [] x y h = refl
text_split_eq [] (b ∷ t) x y h = absurd (omega arith)
text_split_eq (a ∷ s) [] x y h = absurd (omega arith)
text_split_eq (a ∷ s) (b ∷ t) x y h = ground (arith, text_split_eq s t x y)

pub text_size_ne : (s t : Text) → size s ≢ size t → s =t t ≡ false
unfolding ◌=t◌
text_size_ne [] [] h = absurd (h refl)
text_size_ne [] (b ∷ t) h = refl
text_size_ne (a ∷ s) [] h = refl
text_size_ne (a ∷ s) (b ∷ t) h = ground (arith, text_size_ne s t)

pub size-append : (s t : Text) → size (s ++ t) ≡ size s + size t
size-append [] t = omega arith
size-append (a ∷ s) t = omega (arith, size-append s t)
