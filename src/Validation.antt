-- ===== src/Validation.antt =====
-- src/common/validation-primitives.ts: the test of UUID texts and the bound of INTEGER columns.
use native.Mathlib.Nat.{zero-add, suc-add}
use ticket_c2c_platform.Prelude.{
  ℕ, zero, suc, Bool, true, false, ◌&&◌, ◌||◌, List, Text, [], ◌∷◌, leb, ◌==◌, ◌+◌, ◌++◌, size,
  Option, none, Option-cases, inl, inr, some, ◌≡◌, refl, arith, if◌then◌else◌,
}

abbrev pub postgres_int4_max : ℕ
postgres_int4_max = 2147483647

-- `[0-9a-f]` under the flag `i`
unfoldable pub is_hex : ℕ → Bool
is_hex c = (leb b'0' c && leb c b'9') || (leb b'a' c && leb c b'f') || (leb b'A' c && leb c b'F')

-- `n` more digits of the group at hand, then the groups of the list, each behind a dash, and the
-- end of the text.
unfoldable pub hex_groups : ℕ → List ℕ → Text → Bool
unfolding is_hex
hex_groups (suc n) gs [] = false
hex_groups (suc n) gs (c ∷ s) = is_hex c && hex_groups n gs s
hex_groups zero [] [] = true
hex_groups zero [] (c ∷ s) = false
hex_groups zero (g ∷ gs) [] = false
hex_groups zero (g ∷ gs) (c ∷ s) = c == b'-' && hex_groups g gs s

-- `^[0-9a-f]{8}-[0-9a-f]{4}-[0-9a-f]{4}-[0-9a-f]{4}-[0-9a-f]{12}$`
unfoldable pub is_uuid : Text → Bool
unfolding hex_groups
is_uuid = hex_groups 8 (4 ∷ 4 ∷ 4 ∷ 12 ∷ [])

-- A text as PostgreSQL reads it into a uuid column or compares it with one, and as it comes back.
abbrev lower_hex : ℕ → ℕ
lower_hex c = if leb b'A' c && leb c b'F' then c + 32 else c

unfoldable pub uuid : Text → Text
uuid [] = []
uuid (c ∷ s) = lower_hex c ∷ uuid s

pub uuid-uuid : (s : Text) → uuid (uuid s) ≡ uuid s
unfolding uuid
uuid-uuid [] = refl
uuid-uuid (c ∷ s) = ground (arith, uuid-uuid s)

-- The length of a text that the pattern accepts, from the groups that are left of it.
abbrev groups_size : List ℕ → ℕ
groups_size [] = 0
groups_size (g ∷ gs) = suc (g + groups_size gs)

hex_groups-size :
    (n : ℕ) (gs : List ℕ) (s : Text) → hex_groups n gs s ≡ true → size s ≡ n + groups_size gs
unfolding hex_groups
hex_groups-size (suc n) gs [] h = cc
hex_groups-size (suc n) gs (c ∷ s) h = ground (arith, hex_groups-size n gs s)
hex_groups-size zero [] [] h = refl
hex_groups-size zero [] (c ∷ s) h = cc
hex_groups-size zero (g ∷ gs) [] h = cc
hex_groups-size zero (g ∷ gs) (c ∷ s) h = ground (arith, hex_groups-size g gs s)

pub size-uuid : (s : Text) → is_uuid s ≡ true → size s ≡ 36
unfolding is_uuid
size-uuid s h = hex_groups-size 8 (4 ∷ 4 ∷ 4 ∷ 12 ∷ []) s h

-- `[0-9a-fA-F-]`
unfoldable pub in_class : ℕ → Bool
unfolding is_hex
in_class c = is_hex c || c == b'-'

-- `n` characters of the class, and what is behind them
unfoldable pub take_class : ℕ → Text → Option (Text × Text)
unfolding in_class
take_class zero s = some ([], s)
take_class (suc n) [] = none
take_class (suc n) (c ∷ s) =
    if in_class c
    then elim (take_class n s) [ none ↦ none | some (t, rest) ↦ some (c ∷ t, rest) ]
    else none

take_class-groups :
    (n : ℕ) (gs : List ℕ) (s rest : Text)
    → hex_groups n gs s ≡ true
    → take_class (n + groups_size gs) (s ++ rest) ≡ some (s, rest)
unfolding hex_groups take_class
take_class-groups (suc n) gs [] rest h = cc
take_class-groups (suc n) gs (c ∷ s) rest h =
    rw suc-add (ground (arith, take_class-groups n gs s rest))
take_class-groups zero [] [] rest h = refl
take_class-groups zero [] (c ∷ s) rest h = cc
take_class-groups zero (g ∷ gs) [] rest h = cc
take_class-groups zero (g ∷ gs) (c ∷ s) rest h =
    rw zero-add (ground (arith, take_class-groups g gs s rest))

-- A UUID is 36 characters of the class.
pub take_class-uuid :
    (s rest : Text) → is_uuid s ≡ true → take_class 36 (s ++ rest) ≡ some (s, rest)
unfolding is_uuid
take_class-uuid s rest h = take_class-groups 8 (4 ∷ 4 ∷ 4 ∷ 12 ∷ []) s rest h

pub take_class-append :
    (n : ℕ) (s : Text) {t rest : Text} → take_class n s ≡ some (t, rest) → s ≡ t ++ rest
unfolding take_class
take_class-append zero s {t} {rest} h = ground arith
take_class-append (suc n) [] h = cc
take_class-append (suc n) (c ∷ s) {t} {rest} h = elim (Option-cases (take_class n s)) [
  | inl miss ↦ absurd (ground arith)
  | inr ((u, r), hit) ↦ ground (arith, take_class-append n s {t = u} {rest = r} hit)
]
