-- ===== src/Examples/Recounts.antt =====
-- Runs of the counters' seed and reconciliation.
use ticket_c2c_platform.Prelude.{
  ℕ, ◌≡◌, refl, false, true, none, some, [], ◌=t◌, ok, length, select, put, IsSorted, Every, err,
}
use ticket_c2c_platform.Validation.{is_uuid}
use ticket_c2c_platform.Database.{ticket_type, legacy}
use ticket_c2c_platform.Cache.Keys.{ticket_type_counter_key, ticket_type_counter_revision_key}
use ticket_c2c_platform.Cache.Keys.Distinct.{Counter, of_type, counter_key, version_key}
use ticket_c2c_platform.Cache.Scripts.{Store, guarded_sync_script}
use ticket_c2c_platform.Cache.Scripts.Commands.{run_commands, value_of}
use ticket_c2c_platform.Cutover.Counters.{
  CounterEnv, CounterReconcileOutcome, ticket_type_namespace, seed, counter_rows, bounded_page_size,
  run_inventory_counter_reconcile, namespace_active, fresh_quantity, reconcile_row,
}
use ticket_c2c_platform.Cutover.Counters.Reconcile.{synced_counter_is_current}
use ticket_c2c_platform.Cutover.Counters.Seed.{IsSeeded, seed_initializes_counters}
use ticket_c2c_platform.Examples.{concert, seats, market}

abbrev counter : Counter
counter = of_type concert seats

abbrev full : Store
full = put (counter_key counter) 9 (λ k. none)

abbrev calm : CounterEnv
calm = record {
  page_size = 200;
  begin_succeeds = true;
  query_fails = λ p. false;
  commit_succeeds = true;
  calls_fail = λ k. false;
  before_call = λ k. [];
  before_sync = λ k. [];
  fresh = λ k. market ticket_type;
}

synced_once : (reconcile_row calm 0 counter full).1 ≡ ok true
unfolding reconcile_row select ◌=t◌ guarded_sync_script run_commands counter_key
    ticket_type_counter_key version_key ticket_type_counter_revision_key
synced_once = refl

synced_counter_is_current_example :
    (n : ℕ) × (fresh_quantity counter (market ticket_type) ≡ some n)
    × (value_of counter full ≡ value_of counter full)
    × (value_of counter (reconcile_row calm 0 counter full).0 ≡ some n)
unfolding run_commands is_uuid
synced_counter_is_current_example =
    synced_counter_is_current calm 0 counter full (refl, refl) tt synced_once

active_is_refused :
    run_inventory_counter_reconcile calm ticket_type_namespace seed (market ticket_type) full
    ≡ (full, err (namespace_active ticket_type_namespace ticket_type))
unfolding run_inventory_counter_reconcile
active_is_refused = refl

abbrev seeded_once : CounterReconcileOutcome
seeded_once = record {
  namespace = ticket_type_namespace;
  mode = seed;
  writer_mode = legacy;
  counts = record { processed = 1; initialized = 1; synced = 0; skipped = 0 };
}

seed_initializes_counters_example :
    Every
      (IsSeeded
        (run_inventory_counter_reconcile calm ticket_type_namespace seed (market legacy) full).0)
      (counter_rows ticket_type_namespace (market legacy))
    × (1 ≡ length (counter_rows ticket_type_namespace (market legacy)))
    × (1 ≡ length (counter_rows ticket_type_namespace (market legacy)))
unfolding IsSorted Every is_uuid counter_rows run_inventory_counter_reconcile bounded_page_size
    select run_commands
seed_initializes_counters_example =
    seed_initializes_counters calm ticket_type_namespace (market legacy) full
      {outcome = seeded_once} ((refl, refl), tt) ((λ k m. refl), tt) (tt, tt) refl
