-- ===== src/Purchases/Transaction.antt =====
-- src/purchases/purchases.service.ts: executePurchaseTransaction and the functions that it calls.
pub mod Created
pub mod Conservation
pub mod Replay
pub mod Decision
use ticket_c2c_platform.Prelude.{
  ℕ, Bool, true, false, ◌&&◌, ◌||◌, not, Option, none, some, List, [], ◌∷◌, ◌++◌, Text, codes, ◌=t◌,
  leb, ◌==◌, opt_eq, is_some, if◌then◌else◌, find_row, select, Result, ok, err, ◌>>=◌, ◌>>◌,
  require,
}
use ticket_c2c_platform.Validation.{postgres_int4_max, uuid}
use ticket_c2c_platform.Database.{
  WriterMode, legacy, ticket_type, PurchaseStatus, confirmed, rejected, RejectionReason,
  insufficient_inventory, Db, DbError, PurchaseRow, TicketTypeRow, InventoryRow, TypeInventoryRow,
  unique_violation, connection_lost, read_inventory_writer_mode, is_ticket_type, of_event, of_type,
}
use ticket_c2c_platform.Database.Writes.{Taken, update_active_inventory, read_active_inventory}
use ticket_c2c_platform.Purchases.{
  PurchaseInput, PurchaseResult, PurchaseInventoryChange, Disposition, created, replayed, Outcome,
  PurchaseError, event_not_found, ticket_type_not_found, ticket_type_not_configured,
  exactly_one_type_required, ticket_type_id_required, payload_conflict, inventory_not_configured,
  compatibility_inventory_not_configured, type_state_not_configured, version_invalid, database,
}

-- What the code cannot see coming: the id that PostgreSQL generates, what other transactions commit
-- between the look at the request id and the writes, and whether ROLLBACK and COMMIT go through.
pub data CommitFate : Type 0 where
  commits lost_before_commit reply_lost : CommitFate

pub record TxEnv : Type 0 where
  pub new_id : Text
  pub race : Db → Db
  pub rollback_succeeds : Bool
  pub fate : CommitFate

unfoldable pub lift_db : {A : Type 0} → Result DbError A → Result PurchaseError A
lift_db (ok a) = ok a
lift_db (err e) = err (database e)

unfoldable pub or_fail : {A : Type 0} → Option A → PurchaseError → Result PurchaseError A
or_fail none e = err e
or_fail (some a) e = ok a

unfoldable pub contains : Text → List Text → Bool
contains e [] = false
contains e (x ∷ xs) = x =t e || contains e xs

-- `WHERE buyer_id = $1 AND event_id = $2 AND request_id = $3`
abbrev pub has_request : Text → Text → Text → PurchaseRow → Bool
has_request b e r p = p.buyer_id =t b && p.event_id =t e && opt_eq p.request_id (some r)

-- findExistingPurchase, which is only called with a request id
unfoldable pub find_existing_purchase : PurchaseInput → Db → Option PurchaseRow
find_existing_purchase i db = elim i.request_id [
  | none ↦ none
  | some r ↦ find_row (has_request (uuid i.buyer_id) (uuid i.event_id) r) db.purchases
]

-- The test of assertIdempotencyReplayPayload.
unfoldable pub same_payload : PurchaseRow → PurchaseInput → Bool
same_payload p i =
    p.quantity == i.quantity
    && elim i.ticket_type_id [ none ↦ true | some t ↦ p.ticket_type_id =t t ]

-- toPurchaseResult
unfoldable pub to_purchase_result : PurchaseRow → PurchaseResult
to_purchase_result p = record {
  purchase_id = some p.id;
  event_id = p.event_id;
  buyer_id = p.buyer_id;
  quantity = p.quantity;
  status = p.status;
  rejection_reason = p.rejection_reason;
  remaining_quantity = p.remaining_quantity_after;
}

-- assertIdempotencyReplayPayload, then replayOutcome
unfoldable pub replay_outcome :
    PurchaseRow → PurchaseInput → WriterMode → Result PurchaseError Outcome
unfolding same_payload to_purchase_result
replay_outcome p i mode = do
  require (same_payload p i) payload_conflict
  ok (record {
    result = to_purchase_result p;
    disposition = replayed;
    inventory_change = none;
    compatibility_remaining_quantity = none;
    resolved_ticket_type_id = some p.ticket_type_id;
    ticket_type_remaining_quantity = none;
    writer_mode_used = mode;
  })

-- `rowCount` of a query with LIMIT 2, as no row, one row, or more.
unfoldable pub only_type : PurchaseError → List TicketTypeRow → Result PurchaseError Text
only_type many [] = err ticket_type_not_configured
only_type many (t ∷ []) = ok t.id
only_type many (t ∷ u ∷ ts) = err many

abbrev pub type_in_event : Text → TicketTypeRow → Bool
type_in_event e t = t.event_id =t e

abbrev pub selected_type : Text → Text → TicketTypeRow → Bool
selected_type e k t = t.event_id =t e && t.id =t k

-- resolveTicketType
unfoldable pub resolve_ticket_type : WriterMode → PurchaseInput → Db → Result PurchaseError Text
unfolding only_type or_fail
resolve_ticket_type legacy i db = do
  t ← only_type exactly_one_type_required (select (type_in_event (uuid i.event_id)) db.ticket_types)
  elim i.ticket_type_id [
    | none ↦ ok t
    | some k ↦ if k =t t then ok t else err ticket_type_not_found
  ]
resolve_ticket_type ticket_type i db = elim i.ticket_type_id [
  | none ↦
      only_type ticket_type_id_required (select (type_in_event (uuid i.event_id)) db.ticket_types)
  | some k ↦ elim (find_row (selected_type (uuid i.event_id) (uuid k)) db.ticket_types) [
    | none ↦ err ticket_type_not_found
    | some t ↦ ok t.id
  ]
]

-- toTicketTypeInventoryVersion and toEventInventoryVersion on a number of the database
to_version : ℕ → Result PurchaseError ℕ
to_version v = if leb v postgres_int4_max then ok v else err version_invalid

abbrev type_by_id : Text → TicketTypeRow → Bool
type_by_id t r = r.id =t t

-- The query of the Ticket Type's state (a join on two keys), and the snapshot built from it.
inventory_change : Text → InventoryRow → Db → Result PurchaseError PurchaseInventoryChange
unfolding or_fail to_version
inventory_change t aggregate db = do
  state ← or_fail (find_row (of_type t) db.ticket_type_inventory) type_state_not_configured
  definition ← or_fail (find_row (type_by_id t) db.ticket_types) type_state_not_configured
  type_version ← to_version state.version
  event_version ← to_version aggregate.version
  ok (record {
    ticket_type_id = t;
    ticket_type_name = definition.name;
    ticket_type_total_quantity = state.total_quantity;
    ticket_type_remaining_quantity = state.remaining_quantity;
    inventory_version = type_version;
    event_total_quantity = aggregate.total_quantity;
    event_remaining_quantity = aggregate.remaining_quantity;
    event_inventory_version = event_version;
  })

-- `INSERT INTO purchases` under the unique index purchases_request_id_uq
insert_purchase : PurchaseRow → Db → Result DbError Db
insert_purchase p db = elim p.request_id [
  | none ↦ ok (record db { purchases = db.purchases ++ p ∷ [] })
  | some r ↦
      if is_some (find_row (has_request p.buyer_id p.event_id r) db.purchases)
      then err unique_violation
      else ok (record db { purchases = db.purchases ++ p ∷ [] })
]

-- Parts of the transaction for a new request: `t` is the resolved type, `k` what the UPDATE gave.
abbrev pub if_confirmed : {A : Type 0} → PurchaseStatus → A → A → A
if_confirmed confirmed a b = a
if_confirmed rejected a b = b

abbrev pub status_of : Taken → PurchaseStatus
status_of k = if k.row_count == 1 then confirmed else rejected

-- `activeInventory.remaining_quantity`
unfoldable pub active_remaining : WriterMode → Text → Text → Taken → Result PurchaseError ℕ
unfolding or_fail
active_remaining mode e t k =
    if k.row_count == 1
    then or_fail k.remaining inventory_not_configured
    else or_fail (read_active_inventory mode e t k.db) inventory_not_configured

unfoldable pub change_of :
    Text → InventoryRow → Taken → Result PurchaseError (Option PurchaseInventoryChange)
unfolding inventory_change
change_of t aggregate k =
    if k.row_count == 1
    then (do change ← inventory_change t aggregate k.db; ok (some change))
    else ok none

abbrev pub new_row : Text → PurchaseInput → Text → PurchaseStatus → Option ℕ → PurchaseRow
new_row new_id i t status after = record {
  id = new_id;
  event_id = uuid i.event_id;
  ticket_type_id = t;
  buyer_id = uuid i.buyer_id;
  request_id = i.request_id;
  quantity = i.quantity;
  status = status;
  rejection_reason = if_confirmed status none (some insufficient_inventory);
  remaining_quantity_after = after;
}

abbrev pub new_result : Text → PurchaseInput → PurchaseStatus → Option ℕ → PurchaseResult
new_result new_id i status after = record {
  purchase_id = some new_id;
  event_id = i.event_id;
  buyer_id = i.buyer_id;
  quantity = i.quantity;
  status = status;
  rejection_reason = if_confirmed status none (some insufficient_inventory);
  remaining_quantity = after;
}

-- The INSERT, and the outcome that the transaction returns once COMMIT has gone through.
unfoldable pub conclude_purchase :
    Text
    → WriterMode
    → PurchaseInput
    → Text
    → Taken
    → ℕ
    → InventoryRow
    → Option PurchaseInventoryChange
    → Result PurchaseError (Db × Outcome)
unfolding lift_db insert_purchase
conclude_purchase new_id mode i t k active aggregate change = do
  let status = status_of k
  let after = if_confirmed status (some aggregate.remaining_quantity) none
  d ← lift_db (insert_purchase (new_row new_id i t status after) k.db)
  ok (
    d,
    record {
      result = new_result new_id i status after;
      disposition = created;
      inventory_change = change;
      compatibility_remaining_quantity = some aggregate.remaining_quantity;
      resolved_ticket_type_id = some t;
      ticket_type_remaining_quantity = if is_ticket_type mode then some active else none;
      writer_mode_used = mode;
    },
  )

unfoldable pub create_purchase :
    Text → WriterMode → PurchaseInput → Db → Result PurchaseError (Db × Outcome)
unfolding lift_db or_fail active_remaining change_of
create_purchase new_id mode i db = do
  t ← resolve_ticket_type mode i db
  k ← lift_db (update_active_inventory mode (uuid i.event_id) t i.quantity db)
  active ← active_remaining mode (uuid i.event_id) t k
  aggregate ←
      or_fail (find_row (of_event (uuid i.event_id)) k.db.ticket_inventory)
        compatibility_inventory_not_configured
  change ← change_of t aggregate k
  conclude_purchase new_id mode i t k active aggregate change

with_db : {A : Type 0} → Db → Result PurchaseError A → Result PurchaseError (Db × A)
with_db d (ok a) = ok (d, a)
with_db d (err e) = err e

-- From BEGIN to the statement before COMMIT; the result holds the state that COMMIT makes visible.
unfoldable pub transaction_body : TxEnv → PurchaseInput → Db → Result PurchaseError (Db × Outcome)
unfolding lift_db contains with_db
transaction_body env i db = do
  mode ← lift_db (read_inventory_writer_mode db)
  require (contains (uuid i.event_id) db.events) event_not_found
  elim (find_existing_purchase i db) [
    | some p ↦ with_db (env.race db) (replay_outcome p i mode)
    | none ↦ create_purchase env.new_id mode i (env.race db)
  ]

unfoldable pub finish : CommitFate → Db → Db × Outcome → Db × Result PurchaseError Outcome
finish commits d (d', o) = (d', ok o)
finish lost_before_commit d (d', o) = (d, err (database connection_lost))
finish reply_lost d (d', o) = (d', err (database connection_lost))

abbrev pub is_request_violation : PurchaseError → Bool
is_request_violation (database unique_violation) = true
is_request_violation _ = false

abbrev pub mode_or_legacy : Option WriterMode → WriterMode
mode_or_legacy none = legacy
mode_or_legacy (some m) = m

-- The catch block: after ROLLBACK, a lost race for the unique index is answered by the row that won.
unfoldable pub recover :
    TxEnv → PurchaseInput → WriterMode → Db → PurchaseError → Result PurchaseError Outcome
recover env i mode d e =
    if env.rollback_succeeds && is_some i.request_id && is_request_violation e
    then elim (find_existing_purchase i d) [ none ↦ err e | some p ↦ replay_outcome p i mode ]
    else err e

-- What the try, catch and finally blocks make of the body's result.
unfoldable pub settle :
    TxEnv
    → PurchaseInput
    → Db
    → Result PurchaseError (Db × Outcome)
    → Db × Result PurchaseError Outcome
unfolding finish recover
settle env i db (ok r) = finish env.fate (env.race db) r
settle env i db (err e) = (env.race db, recover env i (mode_or_legacy db.control) (env.race db) e)

-- executePurchaseTransaction: the state that others see afterwards, and the outcome or exception.
unfoldable pub execute_purchase_transaction :
    TxEnv → PurchaseInput → Db → Db × Result PurchaseError Outcome
unfolding settle
execute_purchase_transaction env i db = settle env i db (transaction_body env i db)
