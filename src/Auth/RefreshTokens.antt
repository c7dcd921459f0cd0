-- ===== src/Auth/RefreshTokens.antt =====
-- src/auth/refresh-tokens.service.ts: RefreshTokensService on the table refresh_tokens. Each
-- operation is one transaction under the lock of the token's row, so it is one step. The SHA-256
-- hash of node:crypto is the argument `hash`; random values and both clocks (milliseconds) come with
-- the environment. The data for investigations (address, user agent) is left out.
pub mod Families
use ticket_c2c_platform.Prelude.{
  ℕ, ◌+◌, ◌*◌, Bool, true, false, ◌&&◌, ◌||◌, not, Option, none, some, List, [], ◌∷◌, ◌++◌, Text,
  ◌=t◌, leb, is_some, if◌then◌else◌, find_row, update_rows, Result, ok, err,
}

pub data RevokeReason : Type 0 where
  logout reuse_detected : RevokeReason

pub record TokenRow : Type 0 where
  pub id : Text
  pub user_id : Text
  pub family_id : Text
  pub token_hash : Text
  pub parent_token_id : Option Text
  pub expires_at : ℕ
  pub used_at : Option ℕ
  pub revoked_at : Option ℕ
  pub revoked_reason : Option RevokeReason
  pub replaced_by_token_id : Option Text

-- generateToken, randomUUID, the id that PostgreSQL generates, now() and Date.now()
pub record Chance : Type 0 where
  pub token : Text
  pub family : Text
  pub id : Text
  pub database_now : ℕ
  pub now : ℕ

pub record Rotated : Type 0 where
  pub user_id : Text
  pub token : Text
  pub expires_in : ℕ

-- UnauthorizedException, and what the unique index on token_hash raises
pub data RefreshError : Type 0 where
  unauthorized hash_taken : RefreshError

abbrev pub refresh_token_ttl_seconds : ℕ
refresh_token_ttl_seconds = 1209600

abbrev pub has_hash : Text → TokenRow → Bool
has_hash h r = r.token_hash =t h

abbrev pub has_id : Text → TokenRow → Bool
has_id x r = r.id =t x

abbrev pub in_family : Text → TokenRow → Bool
in_family f r = r.family_id =t f

-- A token that was consumed, revoked or replaced.
abbrev pub is_spent : TokenRow → Bool
is_spent r = is_some r.used_at || is_some r.revoked_at || is_some r.replaced_by_token_id

abbrev pub new_token : (Text → Text) → Chance → Text → Text → Option Text → TokenRow
new_token hash c user family parent = record {
  id = c.id;
  user_id = user;
  family_id = family;
  token_hash = hash c.token;
  parent_token_id = parent;
  expires_at = c.database_now + refresh_token_ttl_seconds * 1000;
  used_at = none;
  revoked_at = none;
  revoked_reason = none;
  replaced_by_token_id = none;
}

unfoldable pub insert_token : TokenRow → List TokenRow → Result RefreshError (List TokenRow)
insert_token r rows =
    if is_some (find_row (has_hash r.token_hash) rows) then err hash_taken else ok (rows ++ r ∷ [])

-- issue
unfoldable pub issue :
    (Text → Text) → Chance → Text → List TokenRow → List TokenRow × Result RefreshError Text
unfolding insert_token
issue hash c user rows = elim (insert_token (new_token hash c user c.family none) rows) [
  | err e ↦ (rows, err e)
  | ok rows' ↦ (rows', ok c.token)
]

abbrev pub is_unrevoked : Text → TokenRow → Bool
is_unrevoked f r = in_family f r && not (is_some r.revoked_at)

abbrev pub revoked : ℕ → RevokeReason → TokenRow → TokenRow
revoked now reason r = record r { revoked_at = some now; revoked_reason = some reason }

-- `UPDATE refresh_tokens SET revoked_at … WHERE family_id = $1 AND revoked_at IS NULL`
unfoldable pub revoke_family : ℕ → RevokeReason → Text → List TokenRow → List TokenRow
revoke_family now reason f rows = update_rows (is_unrevoked f) (revoked now reason) rows

abbrev pub consumed : ℕ → Text → TokenRow → TokenRow
consumed now by r = record r { used_at = some now; replaced_by_token_id = some by }

-- rotate from the INSERT on
unfoldable pub replace_token :
    (Text → Text) → Chance → TokenRow → List TokenRow → List TokenRow × Result RefreshError Rotated
unfolding insert_token
replace_token hash c row rows =
    elim (insert_token (new_token hash c row.user_id row.family_id (some row.id)) rows) [
      | err e ↦ (rows, err e)
      | ok rows' ↦ (
        update_rows (has_id row.id) (consumed c.database_now c.id) rows',
        ok (record {
          user_id = row.user_id;
          token = c.token;
          expires_in = refresh_token_ttl_seconds;
        }),
      )
    ]

-- rotate
unfoldable pub rotate :
    (Text → Text) → Chance → Text → List TokenRow → List TokenRow × Result RefreshError Rotated
unfolding revoke_family replace_token
rotate hash c raw rows = elim (find_row (has_hash (hash raw)) rows) [
  | none ↦ (rows, err unauthorized)
  | some row ↦
      if is_spent row
      then (revoke_family c.database_now reuse_detected row.family_id rows, err unauthorized)
      else if leb row.expires_at c.now
      then (rows, err unauthorized)
      else replace_token hash c row rows
]

-- revokeFamilyByToken
unfoldable pub revoke_family_by_token :
    (Text → Text) → ℕ → Text → RevokeReason → List TokenRow → List TokenRow
unfolding revoke_family
revoke_family_by_token hash now raw reason rows = elim (find_row (has_hash (hash raw)) rows) [
  | none ↦ rows
  | some row ↦ revoke_family now reason row.family_id rows
]
