-- ===== src/Database/Writes.antt =====
-- The writes to the inventory tables with their triggers: the UPDATE statements of
-- updateActiveInventory (src/purchases/purchases.service.ts) and the two mirrors of
-- src/database/migrations/1785542400000-add-ticket-type-compatibility-writer.ts.
use ticket_c2c_platform.Prelude.{
  ℕ, ◌+◌, ◌-◌, Bool, ◌&&◌, Option, none, some, List, [], ◌∷◌, ◌++◌, Text, ◌=t◌, leb, ltb,
  if◌then◌else◌, is_some, find_row, update_rows, sum_rows, count_rows, Result, ok, err, ◌>>=◌, ◌>>◌,
  require, ◌==◌,
}
use ticket_c2c_platform.Validation.{postgres_int4_max}
use ticket_c2c_platform.Database.{
  WriterMode, legacy, ticket_type, Db, TicketTypeRow, InventoryRow, TypeInventoryRow, DbError,
  control_missing, inactive_writer, no_default_type, aggregate_out_of_range, integer_out_of_range,
  of_event, type_of_event, of_type,
}
use ticket_c2c_platform.Database.Triggers.{
  event_table, type_table, fence_inventory_statement, RowDecision, write, skip, guard_legacy_write,
  guard_ticket_type_write, forward_bridge_stops, reverse_mirror_stops,
}

abbrev default_of : Text → TicketTypeRow → Bool
default_of e t = t.event_id =t e && t.is_default

-- `INSERT … ON CONFLICT (ticket_type_id) DO UPDATE`, the row guard's answer in hand
unfoldable pub upsert_type_row : TypeInventoryRow → List TypeInventoryRow → List TypeInventoryRow
upsert_type_row r rows =
    if is_some (find_row (of_type r.ticket_type_id) rows)
    then update_rows (of_type r.ticket_type_id) (λ old. r) rows
    else rows ++ r ∷ []

unfoldable pub write_type_row : RowDecision → TypeInventoryRow → Db → Db
unfolding upsert_type_row
write_type_row skip r db = db
write_type_row write r db = record db {
  ticket_type_inventory = upsert_type_row r db.ticket_type_inventory;
}

abbrev mirrored : TicketTypeRow → InventoryRow → TypeInventoryRow
mirrored t new = record {
  ticket_type_id = t.id;
  event_id = new.event_id;
  total_quantity = new.total_quantity;
  remaining_quantity = new.remaining_quantity;
  version = new.version;
}

-- ticket_type_expand_sync_inventory, fired at `depth` for the new row of ticket_inventory. Its
-- nested statement runs at `depth + 1`, where the reverse mirror returns at once.
unfoldable pub sync_legacy_to_ticket_type :
    ℕ → Option WriterMode → InventoryRow → Db → Result DbError Db
unfolding fence_inventory_statement guard_ticket_type_write forward_bridge_stops write_type_row
sync_legacy_to_ticket_type depth origin new db =
    if forward_bridge_stops depth origin
    then ok db
    else elim (find_row (default_of new.event_id) db.ticket_types) [
      | none ↦ err no_default_type
      | some t ↦ do
        origin' ← fence_inventory_statement type_table db.control (depth + 1) origin
        decision ← guard_ticket_type_write db.control (depth + 1) origin'
        ok (write_type_row decision (mirrored t new) db)
    ]

abbrev pub placeholder : Text → InventoryRow
placeholder e = record { event_id = e; total_quantity = 0; remaining_quantity = 0; version = 0 }

-- `INSERT … ON CONFLICT (event_id) DO NOTHING`
unfoldable pub with_placeholder : Text → List InventoryRow → List InventoryRow
with_placeholder e rows =
    if is_some (find_row (of_event e) rows) then rows else rows ++ placeholder e ∷ []

abbrev pub type_total : Text → TypeInventoryRow → ℕ
type_total e r = if type_of_event e r then r.total_quantity else 0

abbrev pub type_rest : Text → TypeInventoryRow → ℕ
type_rest e r = if type_of_event e r then r.remaining_quantity else 0

-- `UPDATE ticket_inventory SET … = aggregate, version = version + 1`
abbrev pub with_aggregate : ℕ → ℕ → InventoryRow → InventoryRow
with_aggregate total remaining r = record r {
  total_quantity = total;
  remaining_quantity = remaining;
  version = r.version + 1;
}

abbrev room_for_version : Text → InventoryRow → Bool
room_for_version e r = of_event e r && leb postgres_int4_max r.version

-- inventory_compatibility_sync_ticket_type_to_legacy, fired at `depth` for a new row of
-- ticket_type_inventory. Its nested writes to ticket_inventory run at `depth + 1`, where the
-- forward bridge returns at once.
unfoldable pub sync_ticket_type_to_legacy :
    ℕ → Option WriterMode → TypeInventoryRow → Db → Result DbError Db
unfolding reverse_mirror_stops fence_inventory_statement guard_legacy_write with_placeholder
sync_ticket_type_to_legacy depth origin new db =
    if reverse_mirror_stops depth origin then ok db else elim db.control [
      | none ↦ err control_missing
      | some legacy ↦ err inactive_writer
      | some ticket_type ↦ do
        origin' ← fence_inventory_statement event_table db.control (depth + 1) origin
        decision ← guard_legacy_write db.control (depth + 1) origin'
        let total = sum_rows (type_total new.event_id) db.ticket_type_inventory
        let remaining = sum_rows (type_rest new.event_id) db.ticket_type_inventory
        require (leb total postgres_int4_max && leb remaining postgres_int4_max)
            aggregate_out_of_range
        let rows = with_placeholder new.event_id db.ticket_inventory
        require (count_rows (room_for_version new.event_id) rows == 0) integer_out_of_range
        ok (record db {
          ticket_inventory =
              update_rows (of_event new.event_id) (with_aggregate total remaining) rows;
        })
    ]

-- What an UPDATE that takes a quantity returns: its row count and first row, and the new state.
pub record Taken : Type 0 where
  pub row_count : ℕ
  pub remaining : Option ℕ
  pub db : Db

abbrev pub event_has : Text → ℕ → InventoryRow → Bool
event_has e q r = of_event e r && leb q r.remaining_quantity

abbrev pub take_event : ℕ → InventoryRow → InventoryRow
take_event q r = record r { remaining_quantity = r.remaining_quantity - q; version = r.version + 1 }

abbrev pub type_has : Text → Text → ℕ → TypeInventoryRow → Bool
type_has e t q r = type_of_event e r && of_type t r && leb q r.remaining_quantity

abbrev pub take_type : ℕ → TypeInventoryRow → TypeInventoryRow
take_type q r = record r { remaining_quantity = r.remaining_quantity - q; version = r.version + 1 }

-- The row that an UPDATE by primary key changes, with its guard and its AFTER trigger.
fire_legacy : Option WriterMode → Text → ℕ → Option InventoryRow → Db → Result DbError Taken
unfolding guard_legacy_write sync_legacy_to_ticket_type
fire_legacy origin e q none db = ok (record { row_count = 0; remaining = none; db = db })
fire_legacy origin e q (some r) db = do
  decision ← guard_legacy_write db.control 1 origin
  require (ltb r.version postgres_int4_max) integer_out_of_range
  let new = take_event q r
  let written = record db {
    ticket_inventory = update_rows (event_has e q) (take_event q) db.ticket_inventory;
  }
  mirrored_db ← sync_legacy_to_ticket_type 1 origin new written
  ok (record { row_count = 1; remaining = some new.remaining_quantity; db = mirrored_db })

fire_ticket_type :
    Option WriterMode → Text → Text → ℕ → Option TypeInventoryRow → Db → Result DbError Taken
unfolding guard_ticket_type_write sync_ticket_type_to_legacy
fire_ticket_type origin e t q none db = ok (record { row_count = 0; remaining = none; db = db })
fire_ticket_type origin e t q (some r) db = do
  decision ← guard_ticket_type_write db.control 1 origin
  require (ltb r.version postgres_int4_max) integer_out_of_range
  let new = take_type q r
  let written = record db {
    ticket_type_inventory = update_rows (type_has e t q) (take_type q) db.ticket_type_inventory;
  }
  mirrored_db ← sync_ticket_type_to_legacy 1 origin new written
  ok (record { row_count = 1; remaining = some new.remaining_quantity; db = mirrored_db })

-- `UPDATE ticket_inventory … WHERE event_id = $1 AND remaining_quantity >= $2 RETURNING …`
unfoldable pub update_ticket_inventory : Text → ℕ → Db → Result DbError Taken
unfolding fence_inventory_statement fire_legacy
update_ticket_inventory e q db = do
  origin ← fence_inventory_statement event_table db.control 1 none
  fire_legacy origin e q (find_row (event_has e q) db.ticket_inventory) db

-- `UPDATE ticket_type_inventory … WHERE event_id = $1 AND ticket_type_id = $2 AND …`
unfoldable pub update_ticket_type_inventory : Text → Text → ℕ → Db → Result DbError Taken
unfolding fence_inventory_statement fire_ticket_type
update_ticket_type_inventory e t q db = do
  origin ← fence_inventory_statement type_table db.control 1 none
  fire_ticket_type origin e t q (find_row (type_has e t q) db.ticket_type_inventory) db

-- updateActiveInventory
unfoldable pub update_active_inventory : WriterMode → Text → Text → ℕ → Db → Result DbError Taken
unfolding update_ticket_inventory update_ticket_type_inventory
update_active_inventory legacy e t q db = update_ticket_inventory e q db
update_active_inventory ticket_type e t q db = update_ticket_type_inventory e t q db

-- readActiveInventory
unfoldable pub read_active_inventory : WriterMode → Text → Text → Db → Option ℕ
read_active_inventory legacy e t db = elim (find_row (of_event e) db.ticket_inventory) [
  | none ↦ none
  | some r ↦ some r.remaining_quantity
]
read_active_inventory ticket_type e t db =
    elim (find_row (λ r. type_of_event e r && of_type t r) db.ticket_type_inventory) [
      | none ↦ none
      | some r ↦ some r.remaining_quantity
    ]
