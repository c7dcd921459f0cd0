-- ===== src/Search/Repair.antt =====
-- src/search/projection-repair.service.ts: the three repairs of one document, and the reading of the
-- rows in src/search/inventory-projection-source.ts that they need, in the order of the table. A
-- version beyond the safe integers, for which the reading throws, is read as it stands. What happens
-- to the document between the reading and the write is in `Attempt`; the names of indices and the
-- quantities that a diff repeats are left out of the report.
pub mod Convergence
pub mod Orphans
use ticket_c2c_platform.Prelude.{
  ℕ, Bool, true, false, not, ◌&&◌, ◌||◌, Option, none, some, List, [], ◌∷◌, ◌++◌, Text, ◌=t◌, leb,
  ◌==◌, is_some, if◌then◌else◌, find_row, select, map, Result, ok, err, ◌>>=◌, ◌>>◌,
}
use ticket_c2c_platform.Validation.{uuid, postgres_int4_max}
use ticket_c2c_platform.Json.{max_safe_integer, num, whole}
use ticket_c2c_platform.Database.{
  Db, InventoryRow, TypeInventoryRow, TicketTypeRow, of_event, type_of_event,
}
use ticket_c2c_platform.Search.Projection.{
  TypeDocument, Document, ScriptError, as_long, Operation, noop, index,
}
use ticket_c2c_platform.Search.Requests.{Attempt, Fate, through, conflict, refused, lost}

-- AuthoritativeTicketType
pub record AuthoritativeTicketType : Type 0 where
  pub ticket_type_id : Text
  pub name : Text
  pub total_quantity : ℕ
  pub remaining_quantity : ℕ
  pub inventory_version : ℕ

-- AuthoritativeEventInventory, without the metadata
pub record AuthoritativeEventInventory : Type 0 where
  pub event_id : Text
  pub event_total_quantity : ℕ
  pub event_remaining_quantity : ℕ
  pub event_inventory_version : ℕ
  pub ticket_types : List AuthoritativeTicketType

abbrev pub is_listed : Text → Text → Bool
is_listed e x = x =t e

abbrev pub has_type_id : Text → TicketTypeRow → Bool
has_type_id t r = r.id =t t

-- The join of ticket_type_inventory with ticket_types
unfoldable pub join_types : Db → List TypeInventoryRow → List AuthoritativeTicketType
join_types db [] = []
join_types db (r ∷ rows) =
    let rest = join_types db rows in
    elim (find_row (has_type_id r.ticket_type_id) db.ticket_types) [
      | none ↦ rest
      | some t ↦
          record {
            ticket_type_id = r.ticket_type_id;
            name = t.name;
            total_quantity = r.total_quantity;
            remaining_quantity = r.remaining_quantity;
            inventory_version = r.version;
          }
          ∷ rest
    ]

-- readAuthoritativeEventInventory
unfoldable pub read_authoritative_event_inventory : Text → Db → Option AuthoritativeEventInventory
unfolding join_types
read_authoritative_event_inventory event_id db =
    let e = uuid event_id in
    elim (find_row (of_event e) db.ticket_inventory) [
      | none ↦ none
      | some aggregate ↦
          if is_some (find_row (is_listed e) db.events)
          then some (record {
            event_id = aggregate.event_id;
            event_total_quantity = aggregate.total_quantity;
            event_remaining_quantity = aggregate.remaining_quantity;
            event_inventory_version = aggregate.version;
            ticket_types = join_types db (select (type_of_event e) db.ticket_type_inventory);
          })
          else none
    ]

-- existsInAuthoritative
unfoldable pub exists_in_authoritative : Text → Db → Bool
exists_in_authoritative event_id db =
    is_some (find_row (is_listed (uuid event_id)) db.events)
    || is_some (find_row (of_event (uuid event_id)) db.ticket_inventory)

-- ticketTypeBelongsToEventInAuthoritative
unfoldable pub ticket_type_belongs : Text → Text → Db → Bool
ticket_type_belongs event_id type_id db =
    is_some (
      find_row (λ (r : TicketTypeRow). r.event_id =t uuid event_id && r.id =t uuid type_id)
        db.ticket_types)
    || is_some (
        find_row
          (λ (r : TypeInventoryRow).
            r.event_id =t uuid event_id && r.ticket_type_id =t uuid type_id)
          db.ticket_type_inventory)

pub data RepairRefusalReason : Type 0 where
  event_exists_in_authoritative ticket_type_exists_in_authoritative : RepairRefusalReason
  event_missing_in_authoritative document_not_found ticket_type_not_in_document :
      RepairRefusalReason
  no_contract_corruption_detected malformed_projection_detected : RepairRefusalReason

pub data DiffField : Type 0 where
  name total_quantity remaining_quantity : DiffField

-- CorruptionDiffEntry: the Ticket Type, none for the event, and the field
pub record DiffEntry : Type 0 where
  pub ticket_type_id : Option Text
  pub field : DiffField
  pub version : ℕ

pub record RepairReport : Type 0 where
  pub refusals : List RepairRefusalReason
  pub diff : List DiffEntry
  pub applied : Bool

pub data RepairError : Type 0 where
  request_failed document_gone : RepairError
  script : ScriptError → RepairError

-- The document after a repair, and what the repair returns
abbrev pub Repaired : Type 0
Repaired = Option Document × Result RepairError RepairReport

abbrev pub has_document_type : Text → TypeDocument → Bool
has_document_type t x = x.ticket_type_id =t t

-- REMOVE_TICKET_TYPE_SCRIPT
unfoldable pub remove_ticket_type_script : Text → Document → Result ScriptError Operation
remove_ticket_type_script t d =
    if is_some (find_row (has_document_type t) d.ticket_types)
    then ok (
        index
          (record d { ticket_types = select (λ x. not (has_document_type t x)) d.ticket_types }))
    else ok noop

abbrev pub same_values : AuthoritativeTicketType → TypeDocument → Bool
same_values a t =
    t.total_quantity == a.total_quantity
    && t.remaining_quantity == a.remaining_quantity
    && t.name =t a.name

abbrev pub is_corrupt : AuthoritativeTicketType → TypeDocument → Bool
is_corrupt a t =
    t.ticket_type_id =t a.ticket_type_id
    && t.inventory_version == a.inventory_version
    && not (same_values a t)

abbrev pub with_values : AuthoritativeTicketType → TypeDocument → TypeDocument
with_values a t = record t {
  name = a.name;
  total_quantity = a.total_quantity;
  remaining_quantity = a.remaining_quantity;
}

-- The inner loop of REPAIR_CONTRACT_CORRUPTION_SCRIPT
unfoldable pub repair_against :
    AuthoritativeTicketType → List TypeDocument → Bool × List TypeDocument
repair_against a [] = (false, [])
repair_against a (t ∷ ts) =
    let (changed, ts') = repair_against a ts in
    if is_corrupt a t then (true, with_values a t ∷ ts') else (changed, t ∷ ts')

-- The outer loop
unfoldable pub repair_types :
    List AuthoritativeTicketType → List TypeDocument → Bool × List TypeDocument
unfolding repair_against
repair_types [] ts = (false, ts)
repair_types (a ∷ rest) ts =
    let (changed, ts') = repair_against a ts in
    let (later, ts'') = repair_types rest ts' in (changed || later, ts'')

abbrev pub with_event_values : AuthoritativeEventInventory → Document → Document
with_event_values a d = record d {
  event_total_quantity = some a.event_total_quantity;
  event_remaining_quantity = some a.event_remaining_quantity;
  total_quantity = some (num (whole a.event_total_quantity));
  remaining_quantity = some (num (whole a.event_remaining_quantity));
}

-- What follows the test of the total, at which `||` stops if it differs
unfoldable pub repair_numbers :
    AuthoritativeEventInventory → Document → ℕ → Result ScriptError (Bool × Document)
unfolding as_long
repair_numbers a d total =
    if total == a.event_total_quantity
    then (do
      remaining ← as_long d.event_remaining_quantity
      ok (
          if remaining == a.event_remaining_quantity
          then (false, d)
          else (true, with_event_values a d)))
    else ok (true, with_event_values a d)

-- The event's part of the script
unfoldable pub repair_event :
    AuthoritativeEventInventory → Document → Result ScriptError (Bool × Document)
unfolding as_long repair_numbers
repair_event a d = elim d.event_inventory_version [
  | none ↦ ok (false, d)
  | some v ↦
      if v == a.event_inventory_version
      then (do total ← as_long d.event_total_quantity; repair_numbers a d total)
      else ok (false, d)
]

-- REPAIR_CONTRACT_CORRUPTION_SCRIPT
unfoldable pub repair_contract_corruption_script :
    AuthoritativeEventInventory → Document → Result ScriptError Operation
unfolding repair_types repair_event
repair_contract_corruption_script a d =
    let (types_changed, types) = repair_types a.ticket_types d.ticket_types in
    (do
      (event_changed, d') ← repair_event a (record d { ticket_types = types })
      ok (if types_changed || event_changed then index d' else noop))

-- documentExists
abbrev pub document_not_found_unless : Bool → List RepairRefusalReason
document_not_found_unless found = if found then [] else document_not_found ∷ []

abbrev pub refused_when : Bool → RepairRefusalReason → List RepairRefusalReason
refused_when b r = if b then r ∷ [] else []

abbrev pub none_refused : List RepairRefusalReason → Bool
none_refused [] = true
none_refused (_ ∷ _) = false

abbrev pub report_of : List RepairRefusalReason → List DiffEntry → Bool → RepairReport
report_of refusals diff written = record { refusals = refusals; diff = diff; applied = written }

-- The document after a script
abbrev pub written : Document → Result ScriptError Operation → Document
written x (ok (index x')) = x'
written x _ = x

-- updateWasApplied of the response
abbrev pub answer :
    (Bool → RepairReport) → Result ScriptError Operation → Result RepairError RepairReport
answer report (err e) = err (script e)
answer report (ok noop) = ok (report false)
answer report (ok (index _)) = ok (report true)

unfoldable pub update_as :
    Fate
    → (Document → Result ScriptError Operation)
    → (Bool → RepairReport)
    → Option Document
    → Repaired
update_as through run report none = (none, err document_gone)
update_as through run report (some x) = (some (written x (run x)), answer report (run x))
update_as lost run report none = (none, err request_failed)
update_as lost run report (some x) = (some (written x (run x)), err request_failed)
update_as _ run report d = (d, err request_failed)

-- `opensearch.update` with a script
abbrev pub update_with :
    Attempt
    → (Document → Result ScriptError Operation)
    → (Bool → RepairReport)
    → Option Document
    → Repaired
update_with a run report stored = update_as a.fate run report (a.others stored)

-- `opensearch.delete`, which fails with a missing document
unfoldable pub delete_with : Attempt → RepairReport → Option Document → Repaired
delete_with a report stored =
    let d = a.others stored in
    elim a.fate [
      | conflict ↦ (d, err request_failed)
      | refused ↦ (d, err request_failed)
      | lost ↦ (none, err request_failed)
      | through ↦ elim d [ none ↦ (none, err document_gone) | some x ↦ (none, ok report) ]
    ]

-- deleteOrphanDocument
unfoldable pub delete_orphan_document : Text → Bool → Db → Attempt → Option Document → Repaired
unfolding exists_in_authoritative delete_with
delete_orphan_document event_id apply db a stored =
    let refusals =
      refused_when (exists_in_authoritative event_id db) event_exists_in_authoritative
      ++ document_not_found_unless (is_some stored) in
    if none_refused refusals && apply
    then delete_with a (report_of [] [] true) stored
    else (stored, ok (report_of refusals [] false))

-- documentContainsTicketType, and the absence of the document
unfoldable pub document_refusals : Text → Option Document → List RepairRefusalReason
document_refusals t none = document_not_found ∷ []
document_refusals t (some d) =
    refused_when (not (is_some (find_row (has_document_type t) d.ticket_types)))
      ticket_type_not_in_document

-- deleteOrphanTicketType
unfoldable pub delete_orphan_ticket_type :
    Text → Text → Bool → Db → Attempt → Option Document → Repaired
unfolding exists_in_authoritative ticket_type_belongs document_refusals remove_ticket_type_script
delete_orphan_ticket_type event_id t apply db a stored =
    let refusals =
      refused_when (not (exists_in_authoritative event_id db)) event_missing_in_authoritative
      ++ refused_when (ticket_type_belongs event_id t db) ticket_type_exists_in_authoritative
      ++ document_refusals t stored in
    if none_refused refusals && apply
    then update_with a (remove_ticket_type_script t) (report_of [] []) stored
    else (stored, ok (report_of refusals [] false))

-- asQuantityOrNull
abbrev pub as_quantity_or_null : ℕ → Option ℕ
as_quantity_or_null n = if leb n postgres_int4_max then some n else none

-- asVersionOrNull
abbrev pub as_version_or_null : ℕ → Option ℕ
as_version_or_null n = if leb n max_safe_integer then some n else none

-- Whether a value is malformed, and the differences
abbrev pub Found : Type 0
Found = Bool × List DiffEntry

abbrev pub entry_when : Bool → Option Text → DiffField → ℕ → List DiffEntry
entry_when b t f v = if b then record { ticket_type_id = t; field = f; version = v } ∷ [] else []

-- The differences of two quantities from those of the database
unfoldable pub diff_quantities :
    Option Text → ℕ → Option ℕ → Option ℕ → ℕ → ℕ → Option (List DiffEntry)
diff_quantities t v (some n) (some m) total' remaining' = some (
    entry_when (not (n == total')) t total_quantity v
    ++ entry_when (not (m == remaining')) t remaining_quantity v)
diff_quantities t v _ _ total' remaining' = none

-- A field of the document, read as one of the two above
abbrev pub read_field : (ℕ → Option ℕ) → Option ℕ → Option ℕ
read_field f none = none
read_field f (some n) = f n

-- The event's part of the diff
unfoldable pub diff_event : AuthoritativeEventInventory → Document → Found
unfolding diff_quantities
diff_event a d = elim (read_field as_version_or_null d.event_inventory_version) [
  | none ↦ (false, [])
  | some v ↦
      if v == a.event_inventory_version
      then elim (diff_quantities none v (read_field as_quantity_or_null d.event_total_quantity)
          (read_field as_quantity_or_null d.event_remaining_quantity) a.event_total_quantity
          a.event_remaining_quantity) [ none ↦ (true, []) | some entries ↦ (false, entries) ]
      else (false, [])
]

-- One step of the loop over the Ticket Types
unfoldable pub diff_type : AuthoritativeTicketType → List TypeDocument → Found
unfolding diff_quantities
diff_type a ts = elim (find_row (has_document_type a.ticket_type_id) ts) [
  | none ↦ (false, [])
  | some t ↦ elim (as_version_or_null t.inventory_version) [
    | none ↦ (false, [])
    | some v ↦
        if v == a.inventory_version
        then elim (diff_quantities (some a.ticket_type_id) v (as_quantity_or_null t.total_quantity)
            (as_quantity_or_null t.remaining_quantity) a.total_quantity a.remaining_quantity) [
              | none ↦ (true, [])
              | some entries ↦ (
                false,
                entries ++ entry_when (not (t.name =t a.name)) (some a.ticket_type_id) name v,
              )
            ]
        else (false, [])
  ]
]

abbrev pub both : Found → Found → Found
both (m, xs) (m', ys) = (m || m', xs ++ ys)

-- The loop
unfoldable pub diff_types : List AuthoritativeTicketType → List TypeDocument → Found
unfolding diff_type
diff_types [] ts = (false, [])
diff_types (a ∷ rest) ts = both (diff_type a ts) (diff_types rest ts)

abbrev pub is_empty : List DiffEntry → Bool
is_empty [] = true
is_empty (_ ∷ _) = false

-- repairContractCorruption
unfoldable pub repair_contract_corruption : Text → Bool → Db → Attempt → Option Document → Repaired
unfolding read_authoritative_event_inventory diff_event diff_types repair_contract_corruption_script
repair_contract_corruption event_id apply db a stored =
    elim (read_authoritative_event_inventory event_id db) [
      | none ↦ (stored, ok (report_of (event_missing_in_authoritative ∷ []) [] false))
      | some authoritative ↦ elim stored [
        | none ↦ (none, ok (report_of (document_not_found ∷ []) [] false))
        | some d ↦
            let (malformed, diff) =
              both (diff_event authoritative d)
                (diff_types authoritative.ticket_types d.ticket_types) in
            let refusals =
              refused_when malformed malformed_projection_detected
              ++ refused_when (is_empty diff) no_contract_corruption_detected in
            if none_refused refusals && apply
            then update_with a (repair_contract_corruption_script authoritative) (report_of [] diff)
                (some d)
            else (some d, ok (report_of refusals diff false))
      ]
    ]
