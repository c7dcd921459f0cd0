-- ===== src/Auth/Cleanup.antt =====
-- src/database/refresh-token-cleanup.ts: the deletion of refresh token families whose tokens all
-- expired longer ago than the retention. Times are milliseconds. `arrange` is the order in which
-- PostgreSQL returns the groups that LIMIT cuts, which no ORDER BY settles.
pub mod Deletion
pub mod Batches
pub mod Rotation
use Prim.Native.Nat.{max}
use ticket_c2c_platform.Prelude.{
  ℕ, zero, suc, ◌+◌, ◌*◌, ◌-◌, Bool, true, false, not, ◌&&◌, ◌||◌, Option, none, some, List, [],
  ◌∷◌, Text, ◌=t◌, ltb, ◌==◌, is_some, if◌then◌else◌, length, select, sum_rows, Result, ok, err,
}
use ticket_c2c_platform.Auth.RefreshTokens.{TokenRow, in_family}

abbrev pub default_retention_days : ℕ
default_retention_days = 30

abbrev pub default_batch_size : ℕ
default_batch_size = 1000

abbrev pub default_max_batches : ℕ
default_max_batches = 100

abbrev pub member : Text → List Text → Bool
member f [] = false
member f (g ∷ gs) = g =t f || member f gs

abbrev pub other_text : Text → Text → Bool
other_text f g = not (g =t f)

-- DISTINCT family_id, in the order of the rows
unfoldable pub families : List TokenRow → List Text
families [] = []
families (r ∷ rows) = r.family_id ∷ select (other_text r.family_id) (families rows)

-- max(expires_at) of a family
unfoldable pub last_expiry : Text → List TokenRow → ℕ
last_expiry f [] = 0
last_expiry f (r ∷ rows) =
    let rest = last_expiry f rows in if in_family f r then max r.expires_at rest else rest

abbrev pub days : ℕ → ℕ
days n = n * 86400000

-- The condition after HAVING, with the subtraction on the other side
abbrev pub is_due : ℕ → ℕ → List TokenRow → Text → Bool
is_due now retention rows f = ltb (last_expiry f rows + days retention) now

-- The families that the condition selects, without the LIMIT
unfoldable pub due : ℕ → ℕ → List TokenRow → List Text
unfolding families
due now retention rows = select (is_due now retention rows) (families rows)

abbrev pub first_of : ℕ → List Text → List Text
first_of zero fs = []
first_of (suc n) [] = []
first_of (suc n) (f ∷ fs) = f ∷ first_of n fs

abbrev pub Arrange : Type 0
Arrange = List Text → List Text

-- The families of `target`
unfoldable pub target : Arrange → ℕ → ℕ → ℕ → List TokenRow → List Text
unfolding due
target arrange now retention batch rows = first_of batch (arrange (due now retention rows))

abbrev pub in_target : List Text → TokenRow → Bool
in_target fs r = member r.family_id fs

-- CLEANUP_SQL: the rows that are left, and the two counts.
unfoldable pub cleanup_sql : Arrange → ℕ → ℕ → ℕ → List TokenRow → List TokenRow × ℕ × ℕ
unfolding target families
cleanup_sql arrange now retention batch rows =
    let fs = target arrange now retention batch rows in
    (
      select (λ r. not (in_target fs r)) rows,
      length (select (in_target fs) rows),
      length (families (select (in_target fs) rows)),
    )

pub record CleanupResult : Type 0 where
  pub deleted_rows : ℕ
  pub deleted_families : ℕ
  pub batches : ℕ
  pub reached_max_batches : Bool

pub data CleanupError : Type 0 where
  not_positive query_failed : CleanupError

-- When each statement runs, by its number, and which of them throw.
pub record Session : Type 0 where
  pub arrange : Arrange
  pub now : ℕ → ℕ
  pub fails : ℕ → Bool

-- The loop, for the number of statements that are still allowed
unfoldable pub delete_batches :
    Session
    → ℕ
    → ℕ
    → ℕ
    → CleanupResult
    → List TokenRow
    → List TokenRow × Result CleanupError CleanupResult
unfolding cleanup_sql
delete_batches s retention batch zero result rows =
    (rows, ok (record result { reached_max_batches = true }))
delete_batches s retention batch (suc n) result rows =
    let (left, deleted_rows, deleted_families) =
      cleanup_sql s.arrange (s.now result.batches) retention batch rows in
    let result' : CleanupResult = record result {
      deleted_rows = result.deleted_rows + deleted_rows;
      deleted_families = result.deleted_families + deleted_families;
      batches = result.batches + 1;
    } in
    let rest = delete_batches s retention batch n result' left in
    if s.fails result.batches
    then (rows, err query_failed)
    else if ltb deleted_families batch
    then (left, ok result')
    else rest

abbrev pub no_result : CleanupResult
no_result = record {
  deleted_rows = 0;
  deleted_families = 0;
  batches = 0;
  reached_max_batches = false;
}

-- cleanupExpiredRefreshTokenFamilies
unfoldable pub cleanup_expired_refresh_token_families :
    Session → ℕ → ℕ → ℕ → List TokenRow → List TokenRow × Result CleanupError CleanupResult
unfolding delete_batches
cleanup_expired_refresh_token_families s retention batch_size max_batches rows =
    if batch_size == 0 || max_batches == 0
    then (rows, err not_positive)
    else delete_batches s retention batch_size max_batches no_result rows

pub data LockedCleanup : Type 0 where
  skipped : LockedCleanup
  completed : CleanupResult → LockedCleanup

-- The database with the advisory lock REFRESH_TOKEN_CLEANUP_ADVISORY_LOCK_KEY, which a session holds.
pub record Server : Type 0 where
  pub tokens : List TokenRow
  pub lock : Option ℕ

-- runRefreshTokenCleanupWithLock in the session `own` of a connection of its own; `unlocks` says
-- whether the unlock goes through.
unfoldable pub run_refresh_token_cleanup_with_lock :
    Session → ℕ → Bool → ℕ → ℕ → ℕ → Server → Server × Result CleanupError LockedCleanup
unfolding cleanup_expired_refresh_token_families
run_refresh_token_cleanup_with_lock s own unlocks retention batch_size max_batches server =
    elim server.lock [
      | some holder ↦ (server, ok skipped)
      | none ↦
          let (rows, r) =
            cleanup_expired_refresh_token_families s retention batch_size max_batches
              server.tokens in
          (
            record { tokens = rows; lock = if unlocks then none else some own },
            elim r [ err e ↦ err e | ok result ↦ ok (completed result) ],
          )
    ]
