-- ===== src/Examples/Tokens.antt =====
-- Runs of the refresh tokens, with a hash that marks its argument.
use ticket_c2c_platform.Prelude.{
  ℕ, ◌≡◌, ◌≤◌, refl, none, some, List, [], ◌∷◌, Text, codes, ◌=t◌, find_row, count_rows,
  update_rows, ok, arith,
}
use ticket_c2c_platform.Auth.RefreshTokens.{
  TokenRow, Chance, Rotated, has_id, new_token, consumed, rotate, refresh_token_ttl_seconds,
}
use ticket_c2c_platform.Auth.RefreshTokens.Families.{usable_tokens, rotation_keeps_usable}

abbrev marked : Text → Text
marked s = 35 ∷ s

abbrev family : Text
family = codes "f"

abbrev chance : Text → Text → ℕ → Chance
chance token id now = record {
  token = token;
  family = family;
  id = id;
  database_now = now;
  now = now;
}

abbrev first_row : TokenRow
first_row = new_token marked (chance (codes "t1") (codes "1") 100) (codes "u") family none

abbrev second_row : TokenRow
second_row =
    new_token marked (chance (codes "t2") (codes "2") 200) (codes "u") family (some (codes "1"))

abbrev rotated_rows : List TokenRow
rotated_rows = consumed 200 (codes "2") first_row ∷ second_row ∷ []

abbrev answer : Rotated
answer = record { user_id = codes "u"; token = codes "t2"; expires_in = refresh_token_ttl_seconds }

first_rotation :
    rotate marked (chance (codes "t2") (codes "2") 200) (codes "t1") (first_row ∷ [])
    ≡ (rotated_rows, ok answer)
unfolding rotate find_row update_rows ◌=t◌
first_rotation = refl

one_id : (x : Text) → count_rows (has_id x) (first_row ∷ []) ≤ 1
unfolding count_rows
one_id x = ground arith

rotation_keeps_usable_example :
    usable_tokens family rotated_rows ≡ usable_tokens family (first_row ∷ [])
unfolding count_rows ◌=t◌
rotation_keeps_usable_example =
    rotation_keeps_usable marked (chance (codes "t2") (codes "2") 200) (codes "t1") family
      (first_row ∷ []) rotated_rows answer one_id refl first_rotation
