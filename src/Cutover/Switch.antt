-- ===== src/Cutover/Switch.antt =====
-- src/cutover/ticket-type-writer-mode-switch.ts: executeWriterModeSwitch, the verification after a COMMIT
-- whose reply was lost, and runWriterModeSwitch. The readiness checks of
-- src/cutover/ticket-type-cutover-readiness.ts are arguments. Text of messages, logging and the pool's
-- connections are left out.
pub mod Reports
use ticket_c2c_platform.Prelude.{
  ℕ, Bool, true, false, not, ◌&&◌, ◌||◌, Option, none, some, List, [], ◌∷◌, ◌++◌, Text, codes, ◌=t◌,
  ltb, leb, ◌==◌, is_some, if◌then◌else◌, select, Result, ok, err, ◌>>=◌, ◌>>◌, require,
}
use ticket_c2c_platform.Database.{
  WriterMode, legacy, ticket_type, is_legacy, is_ticket_type, Db, DbError, control_missing,
  read_inventory_writer_mode,
}

-- oppositeWriterMode
abbrev pub opposite_writer_mode : WriterMode → WriterMode
opposite_writer_mode legacy = ticket_type
opposite_writer_mode ticket_type = legacy

abbrev pub same_mode : WriterMode → WriterMode → Bool
same_mode legacy m = is_legacy m
same_mode ticket_type m = is_ticket_type m

-- `^0*[1-9][0-9]*(ms|s|min)$`: the unit, the digits after the first that is not 0, and the zeros.
abbrev is_unit : Text → Bool
is_unit s = s =t codes "ms" || s =t codes "s" || s =t codes "min"

unfoldable pub digits_then_unit : Text → Bool
digits_then_unit [] = false
digits_then_unit (c ∷ s) =
    let rest = digits_then_unit s in if leb b'0' c && leb c b'9' then rest else is_unit (c ∷ s)

unfoldable pub is_timeout_literal : Text → Bool
unfolding digits_then_unit
is_timeout_literal [] = false
is_timeout_literal (c ∷ s) =
    let rest = is_timeout_literal s in
    if c == b'0' then rest else leb b'1' c && leb c b'9' && digits_then_unit s

-- WriterModeSwitchTimeouts
pub record Timeouts : Type 0 where
  pub lock_timeout : Text
  pub statement_timeout : Text
  pub idle_in_transaction_timeout : Text

abbrev pub default_timeouts : Timeouts
default_timeouts = record {
  lock_timeout = codes "10s";
  statement_timeout = codes "60s";
  idle_in_transaction_timeout = codes "60s";
}

-- TicketTypeCutoverReadinessResult, as far as it is read
pub record CheckResult : Type 0 where
  pub category : Text
  pub violation_count : ℕ

-- What checkCutoverDatabase returns
pub record DatabaseCheck : Type 0 where
  pub writer_mode : Option WriterMode
  pub schema_revision : Text
  pub results : List CheckResult

-- The check of a database for a mode, on a revision of the schema
abbrev pub Check : Type 0
Check = WriterMode → Text → Db → DatabaseCheck

abbrev pub is_violated : CheckResult → Bool
is_violated r = ltb 0 r.violation_count

pub record SwitchResult : Type 0 where
  pub source_mode : WriterMode
  pub target_mode : WriterMode
  pub schema_revision : Text
  pub post_switch_database_results : List CheckResult

-- What is thrown before the COMMIT
pub data SwitchFailure : Type 0 where
  timeout_invalid statement_failed mode_missing mode_unexpected : SwitchFailure
  revision_changed not_converged : SwitchFailure
  violations : List CheckResult → SwitchFailure
  database : DbError → SwitchFailure

-- `commit_outcome_unknown` is WriterModeSwitchCommitOutcomeUnknownError.
pub data SwitchError : Type 0 where
  failure : SwitchFailure → SwitchError
  commit_outcome_unknown : SwitchResult → SwitchError

-- assertNoCutoverViolations
unfoldable pub assert_no_cutover_violations : List CheckResult → Result SwitchFailure (Unit {0})
assert_no_cutover_violations results = elim (select is_violated results) [
  | [] ↦ ok tt
  | r ∷ rs ↦ err (violations (r ∷ rs))
]

-- updateInventoryWriterMode
unfoldable pub update_inventory_writer_mode : WriterMode → Db → Result SwitchFailure Db
update_inventory_writer_mode mode db =
    if is_some db.control
    then ok (record db { control = some mode })
    else err (database control_missing)

-- The statements of the transaction, each of which may fail
pub data Statement : Type 0 where
  begin settings exclusive_barrier table_locks first_check mode_update second_check : Statement

-- A COMMIT is confirmed; or its reply is lost, after it took effect or without any.
pub data CommitFate : Type 0 where
  confirmed applied_unconfirmed dropped : CommitFate

-- What the transaction meets: failing statements, the commits of the writers that the barrier waits
-- for, the revision of the schema at both checks, and the fate of its COMMIT.
pub record SwitchEnv : Type 0 where
  pub fails : Statement → Bool
  pub drained : Db → Db
  pub first_revision : Text
  pub second_revision : Text
  pub commit : CommitFate

abbrev pub succeeds : SwitchEnv → Statement → Result SwitchFailure (Unit {0})
succeeds env s = require (not (env.fails s)) statement_failed

abbrev pub mode_is :
    WriterMode → Option WriterMode → SwitchFailure → Result SwitchFailure (Unit {0})
mode_is m none e = err e
mode_is m (some n) e = require (same_mode m n) e

abbrev pub expects_revision : Option Text → Text → Result SwitchFailure (Unit {0})
expects_revision none found = ok tt
expects_revision (some expected) found = require (found =t expected) revision_changed

-- executeWriterModeSwitch from the first check to the last, on the state behind the barrier: the state
-- to commit and the result.
unfoldable pub switch_body :
    Check → SwitchEnv → WriterMode → Option Text → Db → Result SwitchFailure (Db × SwitchResult)
unfolding update_inventory_writer_mode assert_no_cutover_violations
switch_body check env target expected db = do
  let source = opposite_writer_mode target
  succeeds env first_check
  let before = check source env.first_revision db
  require (is_some before.writer_mode) mode_missing
  mode_is source before.writer_mode mode_unexpected
  expects_revision expected before.schema_revision
  assert_no_cutover_violations before.results
  succeeds env mode_update
  db' ← update_inventory_writer_mode target db
  succeeds env second_check
  let after = check target env.second_revision db'
  mode_is target after.writer_mode not_converged
  require (after.schema_revision =t before.schema_revision) revision_changed
  assert_no_cutover_violations after.results
  ok (
    db',
    record {
      source_mode = source;
      target_mode = target;
      schema_revision = before.schema_revision;
      post_switch_database_results = after.results;
    },
  )

abbrev pub are_timeouts : Timeouts → Bool
are_timeouts t =
    is_timeout_literal t.lock_timeout
    && is_timeout_literal t.statement_timeout
    && is_timeout_literal t.idle_in_transaction_timeout

abbrev pub reaches_checks : SwitchEnv → Bool
reaches_checks env =
    not (env.fails settings) && not (env.fails exclusive_barrier) && not (env.fails table_locks)

-- The COMMIT, on the state before and after it
unfoldable pub commit_switch :
    CommitFate → Db → Db × SwitchResult → Db × Result SwitchError SwitchResult
commit_switch confirmed db pending = (pending.0, ok pending.1)
commit_switch applied_unconfirmed db pending = (pending.0, err (commit_outcome_unknown pending.1))
commit_switch dropped db pending = (db, err (commit_outcome_unknown pending.1))

-- executeWriterModeSwitch: the state that is committed afterwards, and the result.
unfoldable pub execute_writer_mode_switch :
    Check
    → Timeouts
    → SwitchEnv
    → WriterMode
    → Option Text
    → Db
    → Db × Result SwitchError SwitchResult
unfolding switch_body commit_switch
execute_writer_mode_switch check timeouts env target expected db =
    if not (are_timeouts timeouts)
    then (db, err (failure timeout_invalid))
    else if env.fails begin
    then (db, err (failure statement_failed))
    else if not (reaches_checks env)
    then (env.drained db, err (failure statement_failed))
    else elim (switch_body check env target expected (env.drained db)) [
      | err e ↦ (env.drained db, err (failure e))
      | ok pending ↦ commit_switch env.commit (env.drained db) pending
    ]

-- verifyWriterModeAfterAmbiguousCommit behind the barrier, if its statements go through
unfoldable pub verify_writer_mode_after_ambiguous_commit : Bool → Db → Option WriterMode
unfolding read_inventory_writer_mode
verify_writer_mode_after_ambiguous_commit works db =
    if works
    then elim (read_inventory_writer_mode db) [ err e ↦ none | ok mode ↦ some mode ]
    else none

-- What runWriterModeSwitch meets besides: whether the checks of the preflight run, what they find in
-- Valkey and OpenSearch, the commits of others between the preflight and the switch and before the
-- verification, and whether that runs.
pub record RunEnv : Type 0 where
  pub preflight_works : Bool
  pub revision : Text
  pub valkey_results : List CheckResult
  pub opensearch_works : Bool
  pub opensearch_results : List CheckResult
  pub before_switch : Db → Db
  pub switch : SwitchEnv
  pub before_verification : Db → Db
  pub verification_works : Bool

-- WriterModeSwitchOutcome; the evidence is the list of the results that it is written from.
pub data SwitchOutcome : Type 0 where
  preflight_violations : List CheckResult → SwitchOutcome
  switched : List CheckResult → SwitchResult → SwitchOutcome
  commit_ambiguous : List CheckResult → WriterMode → Option SwitchResult → SwitchOutcome

pub data RunError : Type 0 where
  preflight_failed mode_unattested already_in_target projection_check_failed : RunError
  phase_two : List CheckResult → SwitchFailure → RunError
  verification_failed : List CheckResult → SwitchResult → RunError

abbrev pub Ran : Type 0
Ran = Db × Result RunError SwitchOutcome

-- The catch block of the second phase, for a COMMIT whose outcome is unknown
unfoldable pub resolve_ambiguous_commit :
    RunEnv → WriterMode → List CheckResult → SwitchResult → Db → Ran
unfolding verify_writer_mode_after_ambiguous_commit
resolve_ambiguous_commit env target evidence pending db =
    let db' = env.before_verification db in
    elim (verify_writer_mode_after_ambiguous_commit env.verification_works db') [
      | none ↦ (db', err (verification_failed evidence pending))
      | some mode ↦ (
        db',
        ok (commit_ambiguous evidence mode (if same_mode target mode then some pending else none)),
      )
    ]

abbrev pub report_switch :
    RunEnv → WriterMode → List CheckResult → Db → Result SwitchError SwitchResult → Ran
report_switch env target evidence db (ok result) = (db, ok (switched evidence result))
report_switch env target evidence db (err (commit_outcome_unknown pending)) =
    resolve_ambiguous_commit env target evidence pending db
report_switch env target evidence db (err (failure e)) = (db, err (phase_two evidence e))

-- The second phase of runWriterModeSwitch
unfoldable pub run_switch :
    Check → Timeouts → RunEnv → WriterMode → List CheckResult → Text → Db → Ran
unfolding execute_writer_mode_switch resolve_ambiguous_commit
run_switch check timeouts env target evidence revision db =
    let (db', r) =
      execute_writer_mode_switch check timeouts env.switch target (some revision)
        (env.before_switch db) in
    report_switch env target evidence db' r

-- runWriterModeSwitch
unfoldable pub run_writer_mode_switch : Check → Timeouts → RunEnv → WriterMode → Db → Ran
unfolding run_switch
run_writer_mode_switch check timeouts env target db =
    let before = check (opposite_writer_mode target) env.revision db in
    let evidence = before.results ++ env.valkey_results ++ env.opensearch_results in
    if not env.preflight_works then (db, err preflight_failed) else elim before.writer_mode [
      | none ↦ (db, err mode_unattested)
      | some mode ↦
          if same_mode target mode
          then (db, err already_in_target)
          else if not env.opensearch_works
          then (db, err projection_check_failed)
          else elim (select is_violated evidence) [
            | r ∷ rs ↦ (db, ok (preflight_violations evidence))
            | [] ↦ run_switch check timeouts env target evidence before.schema_revision db
          ]
    ]
