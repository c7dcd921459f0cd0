-- ===== src/Cutover/Switch/Reports.antt =====
-- src/cutover/ticket-type-writer-mode-switch.ts: what the switch did, beside what it reports.
use ticket_c2c_platform.Prelude.{
  ◌≡◌, ◌∙◌, ap, refl, ◌⊎◌, inl, inr, Bool, not, Option, some, List, [], ◌∷◌, ◌++◌, Text, select,
  Result, ok, err, arith, Bool-cases, Result-cases, Option-cases, is_some,
}
use ticket_c2c_platform.Database.{WriterMode, Db, read_inventory_writer_mode}
use ticket_c2c_platform.Cutover.Switch.{
  opposite_writer_mode, same_mode, Timeouts, Check, CheckResult, is_violated, SwitchResult,
  SwitchFailure, SwitchError, failure, timeout_invalid, statement_failed, commit_outcome_unknown,
  assert_no_cutover_violations, update_inventory_writer_mode, CommitFate, confirmed,
  applied_unconfirmed, dropped, SwitchEnv, begin, switch_body, are_timeouts, reaches_checks,
  commit_switch, execute_writer_mode_switch, verify_writer_mode_after_ambiguous_commit, RunEnv,
  SwitchOutcome, preflight_violations, switched, commit_ambiguous, RunError, verification_failed,
  resolve_ambiguous_commit, report_switch, run_switch, run_writer_mode_switch,
}

-- The switch from the committed state `db` to `db'`: nothing but the mode changed, and both checks
-- found nothing.
pub record Switches (check : Check) (env : SwitchEnv) (target : WriterMode) (db db' : Db)
    : Type 0 where
  pub moved : db' ≡ record db { control = some target }
  pub clean_before :
      select is_violated (check (opposite_writer_mode target) env.first_revision db).results ≡ []
  pub clean_after : select is_violated (check target env.second_revision db').results ≡ []

no_violations :
    (results : List CheckResult) {u : Unit {0}}
    → assert_no_cutover_violations results ≡ ok u
    → select is_violated results ≡ []
unfolding assert_no_cutover_violations
no_violations results {u} h = ground arith

switch_body-Switches :
    (check : Check) (env : SwitchEnv) (target : WriterMode) (expected : Option Text) (db : Db)
    (pending : Db × SwitchResult)
    → switch_body check env target expected db ≡ ok pending
    → Switches check env target db pending.0
unfolding switch_body update_inventory_writer_mode
switch_body-Switches check env target expected db pending h = record {
  moved = ground arith;
  clean_before = ground (
    arith,
    no_violations (check (opposite_writer_mode target) env.first_revision db).results {u = tt},
  );
  clean_after = ground (
    arith,
    no_violations (check target env.second_revision (record db { control = some target })).results
        {u = tt},
  );
}

-- How executeWriterModeSwitch may end.
pub data Executed (check : Check) (env : SwitchEnv) (target : WriterMode) (db : Db)
    : Db × Result SwitchError SwitchResult → Type 0 where
  done :
      (result : SwitchResult) (db' : Db)
      → Switches check env target (env.drained db) db'
      → Executed check env target db (db', ok result)
  undone :
      (e : SwitchFailure) (db' : Db)
      → (db' ≡ db) ⊎ (db' ≡ env.drained db)
      → Executed check env target db (db', err (failure e))
  unknown :
      (pending : SwitchResult) (db' : Db)
      → Switches check env target (env.drained db) db' ⊎ (db' ≡ env.drained db)
      → Executed check env target db (db', err (commit_outcome_unknown pending))

commit_switch-Executed :
    (check : Check) (env : SwitchEnv) (target : WriterMode) (db : Db) (fate : CommitFate)
    (pending : Db × SwitchResult)
    → Switches check env target (env.drained db) pending.0
    → Executed check env target db (commit_switch fate (env.drained db) pending)
unfolding commit_switch
commit_switch-Executed check env target db confirmed pending s = done pending.1 pending.0 s
commit_switch-Executed check env target db applied_unconfirmed pending s =
    unknown pending.1 pending.0 (inl s)
commit_switch-Executed check env target db dropped pending s =
    unknown pending.1 (env.drained db) (inr refl)

-- Either the mode alone changed, between two checks without a violation, and the caller is told so; or nothing
-- changed but by the writers that were waited for; or the outcome of the COMMIT is reported as unknown.
pub execute-Executed :
    (check : Check) (timeouts : Timeouts) (env : SwitchEnv) (target : WriterMode)
    (expected : Option Text) (db : Db)
    → Executed check env target db
        (execute_writer_mode_switch check timeouts env target expected db)
unfolding execute_writer_mode_switch
execute-Executed check timeouts env target expected db =
    elim (Bool-cases (not (are_timeouts timeouts))) [
      | inl bad ↦ rw (bad, execute_writer_mode_switch) (undone timeout_invalid db (inl refl))
      | inr good ↦ elim (Bool-cases (env.fails begin)) [
        | inl failed ↦
            rw (good, failed, execute_writer_mode_switch) (undone statement_failed db (inl refl))
        | inr begun ↦ elim (Bool-cases (not (reaches_checks env))) [
          | inl failed ↦
              rw (good, begun, failed, execute_writer_mode_switch)
                (undone statement_failed (env.drained db) (inr refl))
          | inr reached ↦
              elim (Result-cases (switch_body check env target expected (env.drained db))) [
                | inl (e, r) ↦
                    rw (good, begun, reached, r, execute_writer_mode_switch)
                      (undone e (env.drained db) (inr refl))
                | inr (pending, r) ↦
                    rw (good, begun, reached, r, execute_writer_mode_switch)
                      (commit_switch-Executed check env target db env.commit pending
                        (switch_body-Switches check env target expected _ pending r))
              ]
        ]
      ]
    ]

-- The report is true of the mode that is committed when the run ends; of a verification that failed
-- nothing is said.
unfoldable pub Truthful : WriterMode → Db → Db → Result RunError SwitchOutcome → Type 0
Truthful target db db' (ok (preflight_violations evidence)) = db'.control ≡ db.control
Truthful target db db' (ok (switched evidence result)) = db'.control ≡ some target
Truthful target db db' (ok (commit_ambiguous evidence mode result)) =
    (db'.control ≡ some mode) × (is_some result ≡ same_mode target mode)
Truthful target db db' (err (verification_failed evidence pending)) = Unit
Truthful target db db' (err e) = db'.control ≡ db.control

List-cases :
    (xs : List CheckResult)
    → (xs ≡ []) ⊎ ((r : CheckResult) × (rs : List CheckResult) × (xs ≡ r ∷ rs))
List-cases [] = inl refl
List-cases (r ∷ rs) = inr (r, rs, refl)

abbrev pub KeepsMode : (Db → Db) → Type 0
KeepsMode f = (db : Db) → (f db).control ≡ db.control

read_mode_sound :
    (db : Db) (mode : WriterMode) (works : Bool)
    → verify_writer_mode_after_ambiguous_commit works db ≡ some mode
    → db.control ≡ some mode
unfolding verify_writer_mode_after_ambiguous_commit read_inventory_writer_mode
read_mode_sound db mode works h = ground arith

resolved-Truthful :
    (env : RunEnv) (target : WriterMode) (evidence : List CheckResult) (pending : SwitchResult)
    (old db : Db)
    → Truthful target old
        (resolve_ambiguous_commit env target evidence pending db).0
        (resolve_ambiguous_commit env target evidence pending db).1
unfolding resolve_ambiguous_commit Truthful
resolved-Truthful env target evidence pending old db =
    elim (Option-cases (
      verify_writer_mode_after_ambiguous_commit env.verification_works
        (env.before_verification db))) [
          | inl failed ↦ rw (failed, resolve_ambiguous_commit) tt
          | inr (mode, read) ↦
              rw (read, resolve_ambiguous_commit)
                (
                  read_mode_sound (env.before_verification db) mode env.verification_works read,
                  ground arith,
                )
        ]

reported-Truthful :
    (check : Check) (env : RunEnv) (target : WriterMode) (evidence : List CheckResult) (old db : Db)
    (r : Db × Result SwitchError SwitchResult)
    → KeepsMode env.switch.drained
    → db.control ≡ old.control
    → Executed check env.switch target db r
    → Truthful target old
        (report_switch env target evidence r.0 r.1).0
        (report_switch env target evidence r.0 r.1).1
unfolding Truthful
reported-Truthful check env target evidence old db _ drained same (done result db' s) =
    ground (arith, s.moved)
reported-Truthful check env target evidence old db _ drained same (undone e db' (inl u)) =
    ap (λ (d : Db). d.control) u ∙ same
reported-Truthful check env target evidence old db _ drained same (undone e db' (inr u)) =
    ap (λ (d : Db). d.control) u ∙ drained db ∙ same
reported-Truthful check env target evidence old db _ drained same (unknown pending db' u) =
    resolved-Truthful env target evidence pending old db'

run_switch-Truthful :
    (check : Check) (timeouts : Timeouts) (env : RunEnv) (target : WriterMode)
    (evidence : List CheckResult) (revision : Text) (db : Db)
    → KeepsMode env.before_switch
    → KeepsMode env.switch.drained
    → Truthful target db
        (run_switch check timeouts env target evidence revision db).0
        (run_switch check timeouts env target evidence revision db).1
unfolding run_switch
run_switch-Truthful check timeouts env target evidence revision db before drained =
    reported-Truthful check env target evidence db (env.before_switch db)
      (execute_writer_mode_switch check timeouts env.switch target (some revision)
        (env.before_switch db))
      drained (before db)
      (execute-Executed check timeouts env.switch target (some revision) (env.before_switch db))

-- runWriterModeSwitch never misreports the mode, while no other transaction changes it: `switched` and
-- `commit_ambiguous` name the mode that is committed, the latter with a result exactly for the target, and after
-- any other end but a failed verification the mode is what it was.
pub run-Truthful :
    (check : Check) (timeouts : Timeouts) (env : RunEnv) (target : WriterMode) (db : Db)
    → KeepsMode env.before_switch
    → KeepsMode env.switch.drained
    → Truthful target db
        (run_writer_mode_switch check timeouts env target db).0
        (run_writer_mode_switch check timeouts env target db).1
unfolding run_writer_mode_switch Truthful
run-Truthful check timeouts env target db before drained =
    let found = check (opposite_writer_mode target) env.revision db in
    let evidence = found.results ++ env.valkey_results ++ env.opensearch_results in
    elim (Bool-cases (not env.preflight_works)) [
      | inl failed ↦ rw (failed, run_writer_mode_switch) refl
      | inr checked ↦ elim (Option-cases found.writer_mode) [
        | inl missing ↦ rw (checked, missing, run_writer_mode_switch) refl
        | inr (mode, read) ↦ elim (Bool-cases (same_mode target mode)) [
          | inl already ↦ rw (checked, read, already, run_writer_mode_switch) refl
          | inr other ↦ elim (Bool-cases (not env.opensearch_works)) [
            | inl failed ↦ rw (checked, read, other, failed, run_writer_mode_switch) refl
            | inr works ↦ elim (List-cases (select is_violated evidence)) [
              | inl clean ↦
                  rw (checked, read, other, works, clean, run_writer_mode_switch)
                    (run_switch-Truthful check timeouts env target evidence found.schema_revision db
                      before drained)
              | inr (r, rs, violated) ↦
                  rw (checked, read, other, works, violated, run_writer_mode_switch) refl
            ]
          ]
        ]
      ]
    ]
