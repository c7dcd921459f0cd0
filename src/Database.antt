-- ===== src/Database.antt =====
-- The PostgreSQL state that purchases read and write: the tables of database/schema.sql as lists
-- of rows, and the control row of inventory_writer_control (src/database/inventory-writer-control.ts).
-- The children are the triggers of the compatibility writer migration and what they keep.
pub mod Triggers
pub mod Writes
pub mod Mirror
use ticket_c2c_platform.Prelude.{
  ℕ, Bool, true, false, ◌&&◌, Option, none, some, List, Text, ◌=t◌, find_row, select, sum_rows,
  count_rows, if◌then◌else◌, Result, ok, err, ◌≤◌,
}

pub data WriterMode : Type 0 where
  legacy ticket_type : WriterMode

abbrev pub is_legacy : WriterMode → Bool
is_legacy legacy = true
is_legacy ticket_type = false

abbrev pub is_ticket_type : WriterMode → Bool
is_ticket_type legacy = false
is_ticket_type ticket_type = true

pub data PurchaseStatus : Type 0 where
  confirmed rejected : PurchaseStatus

abbrev pub is_confirmed : PurchaseStatus → Bool
is_confirmed confirmed = true
is_confirmed rejected = false

pub data RejectionReason : Type 0 where
  sold_out_precheck insufficient_inventory : RejectionReason

pub record TicketTypeRow : Type 0 where
  pub id : Text
  pub event_id : Text
  pub name : Text
  pub is_default : Bool

-- ticket_inventory, one row for each event
pub record InventoryRow : Type 0 where
  pub event_id : Text
  pub total_quantity : ℕ
  pub remaining_quantity : ℕ
  pub version : ℕ

-- ticket_type_inventory, one row for each Ticket Type
pub record TypeInventoryRow : Type 0 where
  pub ticket_type_id : Text
  pub event_id : Text
  pub total_quantity : ℕ
  pub remaining_quantity : ℕ
  pub version : ℕ

pub record PurchaseRow : Type 0 where
  pub id : Text
  pub event_id : Text
  pub ticket_type_id : Text
  pub buyer_id : Text
  pub request_id : Option Text
  pub quantity : ℕ
  pub status : PurchaseStatus
  pub rejection_reason : Option RejectionReason
  pub remaining_quantity_after : Option ℕ

-- `control` is the row of inventory_writer_control, if it is there.
pub record Db : Type 0 where
  pub control : Option WriterMode
  pub events : List Text
  pub ticket_types : List TicketTypeRow
  pub ticket_inventory : List InventoryRow
  pub ticket_type_inventory : List TypeInventoryRow
  pub purchases : List PurchaseRow

-- What a query or a trigger raises.
pub data DbError : Type 0 where
  control_missing inactive_writer unexpected_nested no_default_type aggregate_out_of_range : DbError
  integer_out_of_range unique_violation connection_lost : DbError

-- readInventoryWriterMode
unfoldable pub read_inventory_writer_mode : Db → Result DbError WriterMode
read_inventory_writer_mode db = elim db.control [ none ↦ err control_missing | some m ↦ ok m ]

-- The rows of one event or of one Ticket Type.
abbrev pub of_event : Text → InventoryRow → Bool
of_event e r = r.event_id =t e

abbrev pub type_of_event : Text → TypeInventoryRow → Bool
type_of_event e r = r.event_id =t e

abbrev pub of_type : Text → TypeInventoryRow → Bool
of_type t r = r.ticket_type_id =t t

-- Quantities as sums over rows: what is left, and what confirmed purchases took.
abbrev pub event_left : Text → InventoryRow → ℕ
event_left e r = if of_event e r then r.remaining_quantity else 0

abbrev pub type_left : Text → TypeInventoryRow → ℕ
type_left t r = if of_type t r then r.remaining_quantity else 0

abbrev pub event_sale : Text → PurchaseRow → ℕ
event_sale e p = if p.event_id =t e && is_confirmed p.status then p.quantity else 0

abbrev pub type_sale : Text → PurchaseRow → ℕ
type_sale t p = if p.ticket_type_id =t t && is_confirmed p.status then p.quantity else 0

abbrev pub event_remaining : Text → Db → ℕ
event_remaining e db = sum_rows (event_left e) db.ticket_inventory

abbrev pub event_sold : Text → Db → ℕ
event_sold e db = sum_rows (event_sale e) db.purchases

abbrev pub type_remaining : Text → Db → ℕ
type_remaining t db = sum_rows (type_left t) db.ticket_type_inventory

abbrev pub type_sold : Text → Db → ℕ
type_sold t db = sum_rows (type_sale t) db.purchases

-- The primary keys of the two inventory tables.
pub record HasKeys (db : Db) : Type 0 where
  pub event_key : (e : Text) → count_rows (of_event e) db.ticket_inventory ≤ 1
  pub type_key : (t : Text) → count_rows (of_type t) db.ticket_type_inventory ≤ 1
