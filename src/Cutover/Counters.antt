-- ===== src/Cutover/Counters.antt =====
-- src/cutover/reconcile-inventory-counters.ts: runInventoryCounterReconcile. The rows of a table are in
-- the order of its key, as the queries return them from one snapshot. Messages, pools and the exit codes
-- of the command are left out.
pub mod Reconcile
pub mod Seed
use ticket_c2c_platform.Prelude.{
  ℕ, zero, suc, ◌+◌, Bool, true, false, not, ◌&&◌, Option, none, some, List, [], ◌∷◌, ◌++◌, Text,
  ◌=t◌, ltb, if◌then◌else◌, length, map, select, page, last_key, Result, ok, err,
}
use ticket_c2c_platform.Database.{
  WriterMode, legacy, ticket_type, is_legacy, is_ticket_type, Db, DbError, InventoryRow,
  TypeInventoryRow, of_event, read_inventory_writer_mode,
}
use ticket_c2c_platform.Cache.Keys.Distinct.{Counter, counter_key, version_key}
use ticket_c2c_platform.Cache.Keys.Distinct
use ticket_c2c_platform.Cache.Scripts.{Store, init_script, guarded_sync_script}
use ticket_c2c_platform.Cache.Scripts.Commands.{Command, run_commands, version_of}

pub data CounterNamespace : Type 0 where
  ticket_type_namespace legacy_namespace : CounterNamespace

pub data CounterCliMode : Type 0 where
  seed reconcile : CounterCliMode

-- CounterReconcileCounts
pub record Counts : Type 0 where
  pub processed : ℕ
  pub initialized : ℕ
  pub synced : ℕ
  pub skipped : ℕ

pub record CounterReconcileOutcome : Type 0 where
  pub namespace : CounterNamespace
  pub mode : CounterCliMode
  pub writer_mode : WriterMode
  pub counts : Counts

-- SeedNamespaceActiveError, and what a query or a call of Valkey throws
pub data CounterError : Type 0 where
  namespace_active : CounterNamespace → WriterMode → CounterError
  database : DbError → CounterError
  transaction_failed valkey_failed pages_unfinished : CounterError

-- `writerMode === requiredMode` of assertSeedNamespaceInactive
unfoldable pub is_inactive : CounterNamespace → WriterMode → Bool
is_inactive ticket_type_namespace mode = is_legacy mode
is_inactive legacy_namespace mode = is_ticket_type mode

-- InventoryCounterRow
pub record CounterRow : Type 0 where
  pub counter : Counter
  pub remaining_quantity : ℕ

abbrev pub event_row : InventoryRow → CounterRow
event_row r = record {
  counter = Distinct.of_event r.event_id;
  remaining_quantity = r.remaining_quantity;
}

abbrev pub type_row : TypeInventoryRow → CounterRow
type_row r = record {
  counter = Distinct.of_type r.event_id r.ticket_type_id;
  remaining_quantity = r.remaining_quantity;
}

unfoldable pub counter_rows : CounterNamespace → Db → List CounterRow
counter_rows ticket_type_namespace db = map type_row db.ticket_type_inventory
counter_rows legacy_namespace db = map event_row db.ticket_inventory

-- The key of the pagination; UUIDs have one length, so a pair is compared as its texts in a row.
abbrev pub row_key : CounterRow → Text
row_key r = elim r.counter [ Distinct.of_event e ↦ e | Distinct.of_type e t ↦ e ++ t ]

-- boundedPageSize
unfoldable pub bounded_page_size : ℕ → ℕ
bounded_page_size n = if ltb n 1 then 1 else if ltb 1000 n then 1000 else n

-- What a run meets: the size of a page, whether the statements up to the reading of the writer mode, the
-- queries of the pages, COMMIT and the calls of Valkey go through, the commands that others run in Valkey,
-- and the tables when a row is read again.
pub record CounterEnv : Type 0 where
  pub page_size : ℕ
  pub begin_succeeds : Bool
  pub query_fails : ℕ → Bool
  pub commit_succeeds : Bool
  pub calls_fail : ℕ → Bool
  pub before_call : ℕ → List Command
  pub before_sync : ℕ → List Command
  pub fresh : ℕ → Db

abbrev pub no_counts : Counts
no_counts = record { processed = 0; initialized = 0; synced = 0; skipped = 0 }

abbrev pub Counted : Type 0
Counted = Store × Result CounterError Counts

abbrev pub count_seeded : Counts → Counts
count_seeded counts = record counts {
  processed = counts.processed + 1;
  initialized = counts.initialized + 1;
}

abbrev pub count_listed : Counts → Counts
count_listed counts = record counts { processed = counts.processed + 1 }

-- The counts, and reconcileTargets
abbrev pub Listed : Type 0
Listed = Counts × List Counter

abbrev pub Enumerated : Type 0
Enumerated = Store × Result CounterError Listed

-- The loop over the rows of a page: seed runs the init script, reconcile only lists the row.
unfoldable pub visit_page :
    CounterEnv → CounterCliMode → List CounterRow → Listed → Store → Enumerated
visit_page env mode [] listed m = (m, ok listed)
visit_page env seed (r ∷ rows) (counts, targets) m =
    let m' = run_commands (env.before_call counts.processed) m in
    let rest =
      visit_page env seed rows (count_seeded counts, targets)
        (init_script (counter_key r.counter) (version_key r.counter) r.remaining_quantity m') in
    if env.calls_fail counts.processed then (m', err valkey_failed) else rest
visit_page env reconcile (r ∷ rows) (counts, targets) m =
    visit_page env reconcile rows (count_listed counts, targets ++ r.counter ∷ []) m

-- What is done with a page, and then, unless it was the last, with the rest
abbrev pub after_page : Bool → Enumerated → (Listed → Store → Enumerated) → Enumerated
after_page is_last (m, err e) rest = (m, err e)
after_page true (m, ok listed) rest = (m, ok listed)
after_page false (m, ok listed) rest = rest listed m

-- The loop over the pages, of which the next is number `p`, on fuel
unfoldable pub enumerate :
    CounterEnv
    → CounterCliMode
    → ℕ
    → ℕ
    → ℕ
    → Option Text
    → List CounterRow
    → Listed
    → Store
    → Enumerated
unfolding visit_page
enumerate env mode zero n p last rows listed m = (m, err pages_unfinished)
enumerate env mode (suc fuel) n p last rows listed m =
    if env.query_fails p then (m, err transaction_failed) else elim (page row_key n last rows) [
      | [] ↦ (m, ok listed)
      | x ∷ xs ↦
          after_page (ltb (length (x ∷ xs)) n) (visit_page env mode (x ∷ xs) listed m)
            (λ listed' m'.
              enumerate env mode fuel n (p + 1) (some (last_key row_key x xs)) rows listed' m')
    ]

abbrev pub only_quantity : List CounterRow → Option ℕ
only_quantity (r ∷ []) = some r.remaining_quantity
only_quantity _ = none

abbrev pub has_pair : Text → Text → TypeInventoryRow → Bool
has_pair e t r = r.event_id =t e && r.ticket_type_id =t t

-- The row of a counter, read again; none unless there is one.
unfoldable pub fresh_quantity : Counter → Db → Option ℕ
fresh_quantity (Distinct.of_event e) db =
    only_quantity (map event_row (select (of_event e) db.ticket_inventory))
fresh_quantity (Distinct.of_type e t) db =
    only_quantity (map type_row (select (has_pair e t) db.ticket_type_inventory))

-- One round of the loop after the transaction; the result says whether the counter was synced.
unfoldable pub reconcile_row : CounterEnv → ℕ → Counter → Store → Store × Result CounterError Bool
unfolding fresh_quantity
reconcile_row env k c m =
    let read = run_commands (env.before_call k) m in
    if env.calls_fail k then (read, err valkey_failed) else elim (fresh_quantity c (env.fresh k)) [
      | none ↦ (read, ok false)
      | some n ↦
          let (synced, m') =
            guarded_sync_script (counter_key c) (version_key c) n (version_of c read)
              (run_commands (env.before_sync k) read) in
          (m', ok synced)
    ]

abbrev pub count_synced : Bool → Counts → Counts
count_synced true counts = record counts { synced = counts.synced + 1 }
count_synced false counts = record counts { skipped = counts.skipped + 1 }

unfoldable pub reconcile_rows : CounterEnv → ℕ → List Counter → Counts → Store → Counted
unfolding reconcile_row
reconcile_rows env k [] counts m = (m, ok counts)
reconcile_rows env k (c ∷ cs) counts m =
    let (m', result) = reconcile_row env k c m in
    let after_sync = reconcile_rows env (k + 1) cs (count_synced true counts) m' in
    let after_skip = reconcile_rows env (k + 1) cs (count_synced false counts) m' in
    elim result [ err e ↦ (m', err e) | ok true ↦ after_sync | ok false ↦ after_skip ]

abbrev pub may_run : CounterNamespace → CounterCliMode → WriterMode → Bool
may_run namespace seed mode = is_inactive namespace mode
may_run namespace reconcile mode = true

-- The transaction's pages on the snapshot
unfoldable pub enumerate_all : CounterEnv → CounterCliMode → List CounterRow → Store → Enumerated
unfolding enumerate
enumerate_all env mode rows m =
    enumerate env mode (suc (length rows)) (bounded_page_size env.page_size) 0 none rows
      (no_counts, []) m

-- COMMIT, and then the loop over reconcileTargets
unfoldable pub commit_and_reconcile : CounterEnv → Enumerated → Counted
unfolding reconcile_rows
commit_and_reconcile env (m, err e) = (m, err e)
commit_and_reconcile env (m, ok (counts, targets)) =
    if env.commit_succeeds
    then reconcile_rows env 0 targets counts m
    else (m, err transaction_failed)

abbrev pub outcome_of :
    CounterNamespace
    → CounterCliMode
    → WriterMode
    → Counted
    → Store × Result CounterError CounterReconcileOutcome
outcome_of namespace mode writer_mode (m, err e) = (m, err e)
outcome_of namespace mode writer_mode (m, ok counts) = (
  m,
  ok (record { namespace = namespace; mode = mode; writer_mode = writer_mode; counts = counts }),
)

-- runInventoryCounterReconcile, on the snapshot `db`
unfoldable pub run_inventory_counter_reconcile :
    CounterEnv
    → CounterNamespace
    → CounterCliMode
    → Db
    → Store
    → Store × Result CounterError CounterReconcileOutcome
unfolding is_inactive counter_rows enumerate_all commit_and_reconcile read_inventory_writer_mode
run_inventory_counter_reconcile env namespace mode db m =
    if not env.begin_succeeds
    then (m, err transaction_failed)
    else elim (read_inventory_writer_mode db) [
      | err e ↦ (m, err (database e))
      | ok writer_mode ↦
          if not (may_run namespace mode writer_mode)
          then (m, err (namespace_active namespace writer_mode))
          else outcome_of namespace mode writer_mode
              (commit_and_reconcile env (enumerate_all env mode (counter_rows namespace db) m))
    ]
