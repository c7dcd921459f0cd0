-- ===== src/Search/Projection.antt =====
-- src/search/events-projection.store.ts: the three Painless scripts on one document of the index
-- and the functions that send them. An update runs atomically; a missing document is created from
-- an empty one (`scripted_upsert`), unless the script ends in a no-op.
pub mod Versions
pub mod Delivery
use ticket_c2c_platform.Prelude.{
  ℕ, Bool, true, false, ◌&&◌, ◌||◌, not, Option, none, some, List, [], ◌∷◌, Text, ◌=t◌, ltb, ◌==◌,
  or_else, is_some, if◌then◌else◌, Result, ok, err, ◌>>=◌, ◌>>◌, require,
}
use ticket_c2c_platform.Json.{Json, num, whole}
use ticket_c2c_platform.Messaging.InventoryEvent.{Payload, Parsed, versioned, legacy}

-- ProjectionTicketType: an element of the nested field ticket_types
pub record TypeDocument : Type 0 where
  pub ticket_type_id : Text
  pub name : Text
  pub total_quantity : ℕ
  pub remaining_quantity : ℕ
  pub inventory_version : ℕ

-- A geo_point, by the numerals of its latitude and longitude
pub record Location : Type 0 where
  pub lat : Text
  pub lon : Text

-- The document's source; a missing field ticket_types counts as an empty one. The two quantities of
-- the old form hold whatever EventListed gave, since a document keeps the values it was sent.
pub record Document : Type 0 where
  pub event_id : Option Text
  pub title : Option Json
  pub event_type : Option Json
  pub starts_at : Option Json
  pub location : Option Location
  pub total_quantity : Option Json
  pub remaining_quantity : Option Json
  pub event_total_quantity : Option ℕ
  pub event_remaining_quantity : Option ℕ
  pub event_inventory_version : Option ℕ
  pub ticket_types : List TypeDocument

abbrev pub empty_document : Document
empty_document = record {
  event_id = none;
  title = none;
  event_type = none;
  starts_at = none;
  location = none;
  total_quantity = none;
  remaining_quantity = none;
  event_total_quantity = none;
  event_remaining_quantity = none;
  event_inventory_version = none;
  ticket_types = [];
}

-- What a script throws: the two exceptions of its own, and asLong of a missing number.
pub data ScriptError : Type 0 where
  type_corruption event_corruption not_a_number : ScriptError

abbrev pub type_of_payload : Payload → TypeDocument
type_of_payload p = record {
  ticket_type_id = p.ticket_type_id;
  name = p.ticket_type_name;
  total_quantity = p.ticket_type_total_quantity;
  remaining_quantity = p.ticket_type_remaining_quantity;
  inventory_version = p.inventory_version;
}

-- The element `target` of the versioned script; the result says whether it changed.
unfoldable pub guard_type : Payload → TypeDocument → Result ScriptError (Bool × TypeDocument)
guard_type p target =
    if ltb target.inventory_version p.inventory_version
    then ok (
      true,
      record target {
        name = p.ticket_type_name;
        total_quantity = p.ticket_type_total_quantity;
        remaining_quantity = p.ticket_type_remaining_quantity;
        inventory_version = p.inventory_version;
      },
    )
    else if p.inventory_version == target.inventory_version
        && not (
            target.total_quantity == p.ticket_type_total_quantity
            && target.remaining_quantity == p.ticket_type_remaining_quantity
            && target.name =t p.ticket_type_name)
    then err type_corruption
    else ok (false, target)

abbrev pub keep : TypeDocument → Bool × List TypeDocument → Bool × List TypeDocument
keep t (changed, ts) = (changed, t ∷ ts)

-- The search for `target` and what happens to it; a new element goes to the end.
unfoldable pub guard_types :
    Payload → List TypeDocument → Result ScriptError (Bool × List TypeDocument)
unfolding guard_type
guard_types p [] = ok (true, type_of_payload p ∷ [])
guard_types p (t ∷ ts) =
    let rest = guard_types p ts in
    if t.ticket_type_id =t p.ticket_type_id
    then (do (changed, t') ← guard_type p t; ok (changed, t' ∷ ts))
    else (do found ← rest; ok (keep t found))

abbrev pub with_event : Payload → Document → Document
with_event p d = record d {
  event_inventory_version = some p.event_inventory_version;
  event_total_quantity = some p.event_total_quantity;
  event_remaining_quantity = some p.event_remaining_quantity;
  total_quantity = some (num (whole p.event_total_quantity));
  remaining_quantity = some (num (whole p.event_remaining_quantity));
}

unfoldable pub as_long : Option ℕ → Result ScriptError ℕ
as_long none = err not_a_number
as_long (some n) = ok n

-- The event's part of the versioned script.
unfoldable pub guard_event : Payload → Document → Result ScriptError (Bool × Document)
unfolding as_long
guard_event p d = elim d.event_inventory_version [
  | none ↦ ok (true, with_event p d)
  | some stored ↦
      if ltb stored p.event_inventory_version
      then ok (true, with_event p d)
      else if p.event_inventory_version == stored
      then (do
        total ← as_long d.event_total_quantity
        require (total == p.event_total_quantity) event_corruption
        remaining ← as_long d.event_remaining_quantity
        require (remaining == p.event_remaining_quantity) event_corruption
        ok (false, d))
      else ok (false, d)
]

-- `ctx.op`, with the source that is written
pub data Operation : Type 0 where
  noop : Operation
  index : Document → Operation

-- INVENTORY_VERSION_GUARD_SCRIPT with the params of buildVersionedInventoryScriptParams
unfoldable pub inventory_version_guard_script : Payload → Document → Result ScriptError Operation
unfolding guard_types guard_event
inventory_version_guard_script p d = do
  (type_changed, types) ← guard_types p d.ticket_types
  (event_changed, d') ← guard_event p (record d { ticket_types = types })
  ok (
      if type_changed || event_changed
      then index (record d' { event_id = some p.event_id })
      else noop)

-- LEGACY_INVENTORY_SCRIPT
unfoldable pub legacy_inventory_script : Text → ℕ → Document → Operation
legacy_inventory_script event_id remaining d = elim d.event_inventory_version [
  | none ↦
      index
        (record d { remaining_quantity = some (num (whole remaining)); event_id = some event_id })
  | some stored ↦ noop
]

pub data LocationDirective : Type 0 where
  set : Location → LocationDirective
  clear preserve : LocationDirective

-- EventMetadata with its location resolved; a field that is missing or null is `none`.
pub record EventMetadata : Type 0 where
  pub event_id : Text
  pub title : Option Json
  pub event_type : Option Json
  pub starts_at : Option Json
  pub location : LocationDirective
  pub total_quantity : Option Json
  pub remaining_quantity : Option Json

abbrev pub locate : LocationDirective → Option Location → Option Location
locate (set l) old = some l
locate clear old = none
locate preserve old = old

abbrev pub seed : Option Json → Option Json → Option Json
seed none given = given
seed (some old) given = some old

-- EVENT_METADATA_SCRIPT, which is never a no-op
unfoldable pub event_metadata_script : EventMetadata → Document → Document
event_metadata_script m d =
    let described = record d {
      event_id = some m.event_id;
      title = m.title;
      event_type = m.event_type;
      starts_at = m.starts_at;
      location = locate m.location d.location;
    } in
    if is_some d.event_inventory_version then described else record described {
      total_quantity = seed d.total_quantity m.total_quantity;
      remaining_quantity = seed d.remaining_quantity m.remaining_quantity;
    }

-- `result` of the update as applyParsedInventoryChanged reports it
pub data Applied : Type 0 where
  applied stale legacy_ignore : Applied

-- The document after an update; none stands for a missing one.
abbrev pub source : Option Document → Document
source stored = or_else stored empty_document

unfoldable pub apply_versioned_inventory_changed :
    Payload → Option Document → Result ScriptError (Applied × Option Document)
unfolding inventory_version_guard_script
apply_versioned_inventory_changed p stored = do
  op ← inventory_version_guard_script p (source stored)
  elim op [ noop ↦ ok (stale, stored) | index d ↦ ok (applied, some d) ]

unfoldable pub apply_legacy_inventory_changed :
    Text → ℕ → Option Document → Applied × Option Document
unfolding legacy_inventory_script
apply_legacy_inventory_changed e n stored = elim (legacy_inventory_script e n (source stored)) [
  | noop ↦ (legacy_ignore, stored)
  | index d ↦ (applied, some d)
]

unfoldable pub apply_event_metadata : EventMetadata → Option Document → Option Document
unfolding event_metadata_script
apply_event_metadata m stored = some (event_metadata_script m (source stored))

unfoldable pub apply_parsed_inventory_changed :
    Parsed → Option Document → Result ScriptError (Applied × Option Document)
apply_parsed_inventory_changed (versioned p) stored = apply_versioned_inventory_changed p stored
apply_parsed_inventory_changed (legacy e n) stored = ok (apply_legacy_inventory_changed e n stored)
