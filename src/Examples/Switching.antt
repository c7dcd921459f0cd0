-- ===== src/Examples/Switching.antt =====
-- Runs of the switch of the writer mode.
use ticket_c2c_platform.Prelude.{◌≡◌, refl, false, true, none, [], codes, ◌=t◌, select}
use ticket_c2c_platform.Database.{legacy, ticket_type}
use ticket_c2c_platform.Cutover.Switch.{
  Check, SwitchEnv, RunEnv, applied_unconfirmed, default_timeouts, is_timeout_literal,
  execute_writer_mode_switch, run_writer_mode_switch, digits_then_unit,
}
use ticket_c2c_platform.Cutover.Switch.Reports.{Executed, Truthful, execute-Executed, run-Truthful}
use ticket_c2c_platform.Examples.{market}

abbrev clean : Check
clean mode revision db = record {
  writer_mode = db.control;
  schema_revision = revision;
  results = [];
}

abbrev undisturbed : SwitchEnv
undisturbed = record {
  fails = λ s. false;
  drained = λ db. db;
  first_revision = codes "r";
  second_revision = codes "r";
  commit = applied_unconfirmed;
}

abbrev night : RunEnv
night = record {
  preflight_works = true;
  revision = codes "r";
  valkey_results = [];
  opensearch_works = true;
  opensearch_results = [];
  before_switch = λ db. db;
  switch = undisturbed;
  before_verification = λ db. db;
  verification_works = true;
}

zero_is_no_timeout : is_timeout_literal (codes "00ms") ≡ false
unfolding is_timeout_literal digits_then_unit
zero_is_no_timeout = refl

switched_unseen :
    (run_writer_mode_switch clean default_timeouts night ticket_type (market legacy)).0
    ≡ market ticket_type
unfolding run_writer_mode_switch select ◌=t◌ is_timeout_literal digits_then_unit
switched_unseen = refl

execute-Executed_example :
    Executed clean undisturbed ticket_type (market legacy) (
      execute_writer_mode_switch clean default_timeouts undisturbed ticket_type none
        (market legacy))
execute-Executed_example =
    execute-Executed clean default_timeouts undisturbed ticket_type none (market legacy)

run-Truthful_example :
    Truthful ticket_type
      (market legacy)
      (run_writer_mode_switch clean default_timeouts night ticket_type (market legacy)).0
      (run_writer_mode_switch clean default_timeouts night ticket_type (market legacy)).1
run-Truthful_example =
    run-Truthful clean default_timeouts night ticket_type (market legacy) (λ db. refl) (λ db. refl)
