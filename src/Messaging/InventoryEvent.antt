-- ===== src/Messaging/InventoryEvent.antt =====
-- src/messaging/inventory-event.contract.ts and src/messaging/inventory-version.ts: the payload of
-- InventoryChanged, its builder and its parser.
pub mod Contract
use ticket_c2c_platform.Prelude.{
  ℕ, Bool, true, false, ◌&&◌, ◌||◌, not, Option, none, some, List, [], ◌∷◌, Text, codes, ◌=t◌, leb,
  ◌==◌, if◌then◌else◌, Result, ok, err, ◌>>=◌, ◌>>◌, require,
}
use ticket_c2c_platform.Validation.{is_uuid, postgres_int4_max}
use ticket_c2c_platform.Json.{
  Json, JsNumber, whole, num, str, obj, undefined, Fields, end, field, get, is_undefined, is_object,
  max_safe_integer,
}

-- SUPPORTED_INVENTORY_EVENT_VERSION
abbrev pub supported_inventory_event_version : ℕ
supported_inventory_event_version = 1

-- VersionedInventoryChangedPayload
pub record Payload : Type 0 where
  pub event_id : Text
  pub remaining_quantity : ℕ
  pub inventory_event_version : ℕ
  pub ticket_type_id : Text
  pub ticket_type_name : Text
  pub ticket_type_total_quantity : ℕ
  pub ticket_type_remaining_quantity : ℕ
  pub inventory_version : ℕ
  pub event_total_quantity : ℕ
  pub event_remaining_quantity : ℕ
  pub event_inventory_version : ℕ

-- ParsedInventoryChanged
pub data Parsed : Type 0 where
  versioned : Payload → Parsed
  legacy : Text → ℕ → Parsed

-- One constructor for each InventoryEventContractError that the parser throws, in its order.
pub data ContractError : Type 0 where
  not_an_object event_id_invalid legacy_remaining_invalid version_unsupported : ContractError
  ticket_type_id_invalid ticket_type_name_invalid type_total_invalid : ContractError
  type_remaining_invalid type_remaining_above_total inventory_version_invalid : ContractError
  event_total_invalid event_remaining_invalid event_remaining_above_total : ContractError
  event_version_invalid remaining_invalid remaining_diverges : ContractError

-- isVersionValue and isNonNegativeInt, with the number that they admit
unfoldable pub as_count : ContractError → Json → Result ContractError ℕ
as_count e (num (whole n)) =
    if leb n max_safe_integer && leb n postgres_int4_max then ok n else err e
as_count e _ = err e

unfoldable pub as_uuid : ContractError → Json → Result ContractError Text
as_uuid e (str s) = if is_uuid s then ok s else err e
as_uuid e _ = err e

-- The white space and line ends that String.prototype.trim removes.
abbrev is_space : ℕ → Bool
is_space c =
    (leb 9 c && leb c 13)
    || c == 32
    || c == 160
    || c == 5760
    || (leb 8192 c && leb c 8202)
    || c == 8232
    || c == 8233
    || c == 8239
    || c == 8287
    || c == 12288
    || c == 65279

-- `value.trim().length > 0`
unfoldable pub is_non_blank : Text → Bool
is_non_blank [] = false
is_non_blank (c ∷ s) = not (is_space c) || is_non_blank s

unfoldable pub as_name : ContractError → Json → Result ContractError Text
as_name e (str s) = if is_non_blank s then ok s else err e
as_name e _ = err e

-- VERSIONED_MARKER_FIELDS
abbrev pub versioned_marker_fields : List Text
versioned_marker_fields =
    codes "inventoryEventVersion"
    ∷ codes "ticketTypeId"
    ∷ codes "ticketTypeName"
    ∷ codes "ticketTypeTotalQuantity"
    ∷ codes "ticketTypeRemainingQuantity"
    ∷ codes "inventoryVersion"
    ∷ codes "eventTotalQuantity"
    ∷ codes "eventRemainingQuantity"
    ∷ codes "eventInventoryVersion"
    ∷ []

unfoldable pub has_marker : List Text → Json → Bool
has_marker [] d = false
has_marker (k ∷ ks) d = not (is_undefined (get k d)) || has_marker ks d

is_supported : Json → Bool
is_supported (num (whole n)) = n == supported_inventory_event_version
is_supported _ = false

unfoldable pub parse_versioned : Text → Json → Result ContractError Parsed
unfolding is_supported
parse_versioned event_id d = do
  require (is_supported (get (codes "inventoryEventVersion") d)) version_unsupported
  type_id ← as_uuid ticket_type_id_invalid (get (codes "ticketTypeId") d)
  name ← as_name ticket_type_name_invalid (get (codes "ticketTypeName") d)
  type_total ← as_count type_total_invalid (get (codes "ticketTypeTotalQuantity") d)
  type_left ← as_count type_remaining_invalid (get (codes "ticketTypeRemainingQuantity") d)
  require (leb type_left type_total) type_remaining_above_total
  type_version ← as_count inventory_version_invalid (get (codes "inventoryVersion") d)
  event_total ← as_count event_total_invalid (get (codes "eventTotalQuantity") d)
  event_left ← as_count event_remaining_invalid (get (codes "eventRemainingQuantity") d)
  require (leb event_left event_total) event_remaining_above_total
  event_version ← as_count event_version_invalid (get (codes "eventInventoryVersion") d)
  left ← as_count remaining_invalid (get (codes "remainingQuantity") d)
  require (left == event_left) remaining_diverges
  ok (
      versioned (record {
        event_id = event_id;
        remaining_quantity = left;
        inventory_event_version = supported_inventory_event_version;
        ticket_type_id = type_id;
        ticket_type_name = name;
        ticket_type_total_quantity = type_total;
        ticket_type_remaining_quantity = type_left;
        inventory_version = type_version;
        event_total_quantity = event_total;
        event_remaining_quantity = event_left;
        event_inventory_version = event_version;
      }))

unfoldable pub parse_legacy : Text → Json → Result ContractError Parsed
parse_legacy event_id d = do
  left ← as_count legacy_remaining_invalid (get (codes "remainingQuantity") d)
  ok (legacy event_id left)

-- parseInventoryChangedDetail
unfoldable pub parse_inventory_changed_detail : Json → Result ContractError Parsed
parse_inventory_changed_detail d = do
  require (is_object d) not_an_object
  event_id ← as_uuid event_id_invalid (get (codes "eventId") d)
  if has_marker versioned_marker_fields d
      then parse_versioned event_id d
      else parse_legacy event_id d

-- The argument of buildVersionedInventoryChangedDetail.
pub record Snapshot : Type 0 where
  pub event_id : Text
  pub ticket_type_id : Text
  pub ticket_type_name : Text
  pub ticket_type_total_quantity : ℕ
  pub ticket_type_remaining_quantity : ℕ
  pub inventory_version : ℕ
  pub event_total_quantity : ℕ
  pub event_remaining_quantity : ℕ
  pub event_inventory_version : ℕ

-- buildVersionedInventoryChangedDetail
unfoldable pub build_versioned_inventory_changed_detail : Snapshot → Payload
build_versioned_inventory_changed_detail s = record {
  event_id = s.event_id;
  remaining_quantity = s.event_remaining_quantity;
  inventory_event_version = supported_inventory_event_version;
  ticket_type_id = s.ticket_type_id;
  ticket_type_name = s.ticket_type_name;
  ticket_type_total_quantity = s.ticket_type_total_quantity;
  ticket_type_remaining_quantity = s.ticket_type_remaining_quantity;
  inventory_version = s.inventory_version;
  event_total_quantity = s.event_total_quantity;
  event_remaining_quantity = s.event_remaining_quantity;
  event_inventory_version = s.event_inventory_version;
}

-- The payload as the object that JSON.stringify writes and JSON.parse reads back.
unfoldable pub to_detail : Payload → Json
to_detail p = obj (
    field (codes "eventId") (str p.event_id) (
      field (codes "remainingQuantity") (num (whole p.remaining_quantity)) (
        field (codes "inventoryEventVersion") (num (whole p.inventory_event_version)) (
          field (codes "ticketTypeId") (str p.ticket_type_id) (
            field (codes "ticketTypeName") (str p.ticket_type_name) (
              field (codes "ticketTypeTotalQuantity") (num (whole p.ticket_type_total_quantity)) (
                field (codes "ticketTypeRemainingQuantity")
                  (num (whole p.ticket_type_remaining_quantity))
                  (field (codes "inventoryVersion") (num (whole p.inventory_version)) (
                    field (codes "eventTotalQuantity") (num (whole p.event_total_quantity)) (
                      field (codes "eventRemainingQuantity")
                        (num (whole p.event_remaining_quantity))
                        (field (codes "eventInventoryVersion")
                          (num (whole p.event_inventory_version)) end)))))))))))

abbrev pub trace_context_field : Text
trace_context_field = codes "_traceContext"

unfoldable pub delete_field : Text → Fields → Fields
delete_field k end = end
delete_field k (field j v fs) =
    let rest = delete_field k fs in if j =t k then rest else field j v rest

-- stripTraceContext
unfoldable pub strip_trace_context : Fields → Fields
unfolding delete_field
strip_trace_context fs =
    if is_undefined (get trace_context_field (obj fs))
    then fs
    else delete_field trace_context_field fs
