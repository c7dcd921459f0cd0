-- ===== src/Cutover/Counters/Reconcile.antt =====
-- src/cutover/reconcile-inventory-counters.ts: what the reconciliation does to a counter that other
-- clients change at the same time.
use ticket_c2c_platform.Prelude.{
  ℕ, ◌≡◌, ◌∙◌, sym, ap, refl, inl, inr, Bool, true, some, ok, arith, Bool-cases, Option-cases,
}
use ticket_c2c_platform.Cache.Keys.Distinct.{
  Counter, of_event, of_type, counter_key, version_key, HasUuids,
}
use ticket_c2c_platform.Cache.Scripts.{Store, guarded_sync_script}
use ticket_c2c_platform.Cache.Scripts.Commands.{
  run_commands, AllSane, version_of, value_of, sync_on,
}
use ticket_c2c_platform.Cache.Scripts.Compare.{sync_loses_nothing}
use ticket_c2c_platform.Cutover.Counters.{CounterEnv, fresh_quantity, reconcile_row}

guarded-sync_on :
    (c : Counter) (n v : ℕ) (m : Store)
    → (guarded_sync_script (counter_key c) (version_key c) n v m).0 ≡ true
    → guarded_sync_script (counter_key c) (version_key c) n v m ≡ sync_on c n v m
unfolding guarded_sync_script sync_on counter_key version_key
guarded-sync_on (of_event e) n v m h = ground arith
guarded-sync_on (of_type e t) n v m h = refl

-- A counter that is reported as synced was not changed by anyone between the reading of its revision
-- and the write, and now holds what the table had in between.
pub synced_counter_is_current :
    (env : CounterEnv) (k : ℕ) (c : Counter) (m : Store)
    → HasUuids c
    → AllSane (env.before_sync k)
    → (reconcile_row env k c m).1 ≡ ok true
    → (n : ℕ) × (fresh_quantity c (env.fresh k) ≡ some n)
      × (value_of c (run_commands (env.before_sync k) (run_commands (env.before_call k) m))
          ≡ value_of c (run_commands (env.before_call k) m))
      × (value_of c (reconcile_row env k c m).0 ≡ some n)
unfolding reconcile_row
synced_counter_is_current env k c m uuids sane synced =
    let read = run_commands (env.before_call k) m in
    let met = run_commands (env.before_sync k) read in
    elim (Bool-cases (env.calls_fail k)) [
      | inl fails ↦ absurd (ground arith)
      | inr works ↦ elim (Option-cases (fresh_quantity c (env.fresh k))) [
        | inl missing ↦ absurd (ground arith)
        | inr (n, found) ↦
            let done : (guarded_sync_script (counter_key c) (version_key c) n (version_of c read)
                  met).0
                ≡ true =
              ground arith in
            let same = guarded-sync_on c n (version_of c read) met done in
            let (kept, written) =
              sync_loses_nothing c (env.before_sync k) n read uuids sane
                (sym (ap (λ (r : Bool × Store). r.0) same) ∙ done) in
            (
              n,
              found,
              kept,
              rw (works, found, reconcile_row)
                  (ap (λ (r : Bool × Store). value_of c r.1) same ∙ written),
            )
      ]
    ]
