-- ===== src/Messaging/InventoryEvent/Contract.antt =====
-- What the parser of InventoryChanged accepts, and that it inverts the builder.
use ticket_c2c_platform.Prelude.{
  ℕ, ◌≤◌, ◌≡◌, ◌≢◌, refl, >>=-eq-ok, require, inl, inr, Bool-cases, true, false, Text, codes, ◌=t◌,
  text_iff, ok, err, arith, if◌then◌else◌,
}
use ticket_c2c_platform.Validation.{is_uuid, postgres_int4_max}
use ticket_c2c_platform.Json.{obj, Json, Fields, end, field, get, get_field, is_object}
use ticket_c2c_platform.Messaging.InventoryEvent.{
  strip_trace_context, trace_context_field, Payload, Parsed, versioned, legacy, ContractError,
  event_id_invalid, not_an_object, legacy_remaining_invalid, ticket_type_id_invalid,
  ticket_type_name_invalid, type_total_invalid, inventory_version_invalid, event_total_invalid,
  event_version_invalid, Snapshot, as_count, as_uuid, as_name, is_non_blank, has_marker,
  versioned_marker_fields, parse_inventory_changed_detail, parse_versioned, parse_legacy,
  build_versioned_inventory_changed_detail, to_detail, delete_field,
}

-- The contract of a versioned payload.
pub record IsVersioned (p : Payload) : Type 0 where
  pub version : p.inventory_event_version ≡ 1
  pub event_uuid : is_uuid p.event_id ≡ true
  pub type_uuid : is_uuid p.ticket_type_id ≡ true
  pub named : is_non_blank p.ticket_type_name ≡ true
  pub type_total : p.ticket_type_total_quantity ≤ postgres_int4_max
  pub type_left : p.ticket_type_remaining_quantity ≤ p.ticket_type_total_quantity
  pub type_version : p.inventory_version ≤ postgres_int4_max
  pub event_total : p.event_total_quantity ≤ postgres_int4_max
  pub event_left : p.event_remaining_quantity ≤ p.event_total_quantity
  pub event_version : p.event_inventory_version ≤ postgres_int4_max
  pub compatible : p.remaining_quantity ≡ p.event_remaining_quantity

-- A payload that keeps the contract is read back as it was written.
pub parse-to_detail :
    (p : Payload) → IsVersioned p → parse_inventory_changed_detail (to_detail p) ≡ ok (versioned p)
unfolding parse_inventory_changed_detail parse_versioned to_detail as_count as_uuid as_name
    has_marker get ◌=t◌
parse-to_detail p v = ground arith

as_count-le : (e : ContractError) (j : Json) (n : ℕ) → as_count e j ≡ ok n → n ≤ postgres_int4_max
unfolding as_count
as_count-le e j n h = ground arith

as_uuid_sound : (e : ContractError) (j : Json) (s : Text) → as_uuid e j ≡ ok s → is_uuid s ≡ true
unfolding as_uuid
as_uuid_sound e j s h = ground arith

as_name_sound :
    (e : ContractError) (j : Json) (s : Text) → as_name e j ≡ ok s → is_non_blank s ≡ true
unfolding as_name
as_name_sound e j s h = ground arith

versioned_sound :
    (event_id : Text) (d : Json) (p : Payload)
    → is_uuid event_id ≡ true
    → parse_versioned event_id d ≡ ok (versioned p)
    → IsVersioned p
unfolding parse_versioned
versioned_sound event_id d p u h = ground (
  arith,
  as_uuid_sound ticket_type_id_invalid (get (codes "ticketTypeId") d) p.ticket_type_id,
  as_name_sound ticket_type_name_invalid (get (codes "ticketTypeName") d) p.ticket_type_name,
  as_count-le type_total_invalid (get (codes "ticketTypeTotalQuantity") d)
      p.ticket_type_total_quantity,
  as_count-le inventory_version_invalid (get (codes "inventoryVersion") d) p.inventory_version,
  as_count-le event_total_invalid (get (codes "eventTotalQuantity") d) p.event_total_quantity,
  as_count-le event_version_invalid (get (codes "eventInventoryVersion") d)
      p.event_inventory_version,
)

-- A detail that the parser takes for a legacy one has none of the versioned fields.
legacy-unversioned :
    (event_id : Text) (d : Json) (p : Payload) → parse_legacy event_id d ≢ ok (versioned p)
unfolding parse_legacy
legacy-unversioned event_id d p h = ground arith

versioned-not_legacy :
    (event_id : Text) (d : Json) (e : Text) (n : ℕ) → parse_versioned event_id d ≢ ok (legacy e n)
unfolding parse_versioned
versioned-not_legacy event_id d e n h = ground arith

legacy_sound :
    (event_id : Text) (d : Json) (e : Text) (n : ℕ)
    → parse_legacy event_id d ≡ ok (legacy e n)
    → (e ≡ event_id) × (n ≤ postgres_int4_max)
unfolding parse_legacy
legacy_sound event_id d e n h =
    ground (arith, as_count-le legacy_remaining_invalid (get (codes "remainingQuantity") d) n)

branch :
    (d : Json) (p : Parsed)
    → parse_inventory_changed_detail d ≡ ok p
    → (event_id : Text) × (is_uuid event_id ≡ true)
      × ((if has_marker versioned_marker_fields d
            then parse_versioned event_id d
            else parse_legacy event_id d)
          ≡ ok p)
unfolding parse_inventory_changed_detail
branch d p h =
    let (u, p₁, h₁) = >>=-eq-ok (require (is_object d) not_an_object) _ h in
    let (event_id, p₂, h₂) = >>=-eq-ok (as_uuid event_id_invalid (get (codes "eventId") d)) _ h₁ in
    (event_id, as_uuid_sound event_id_invalid (get (codes "eventId") d) event_id p₂, h₂)

-- Whatever comes in, an accepted versioned payload keeps the contract.
pub parse-IsVersioned :
    (d : Json) (p : Payload) → parse_inventory_changed_detail d ≡ ok (versioned p) → IsVersioned p
parse-IsVersioned d p h =
    let (event_id, uuid, read) = branch d (versioned p) h in
    elim (Bool-cases (has_marker versioned_marker_fields d)) [
      | inl marked ↦ versioned_sound event_id d p uuid (rw marked at read)
      | inr bare ↦ absurd (legacy-unversioned event_id d p (rw bare at read))
    ]

-- A detail is read as a legacy one only if it has none of the versioned fields; its event is then a
-- UUID and its quantity fits an INTEGER. So a damaged versioned payload is refused, and never read
-- as a legacy one.
pub parse-legacy :
    (d : Json) (e : Text) (n : ℕ)
    → parse_inventory_changed_detail d ≡ ok (legacy e n)
    → (has_marker versioned_marker_fields d ≡ false) × (is_uuid e ≡ true) × (n ≤ postgres_int4_max)
parse-legacy d e n h =
    let (event_id, uuid, read) = branch d (legacy e n) h in
    elim (Bool-cases (has_marker versioned_marker_fields d)) [
      | inl marked ↦ absurd (versioned-not_legacy event_id d e n (rw marked at read))
      | inr bare ↦
          let (same, fits) = legacy_sound event_id d e n (rw bare at read) in
          (bare, rw same uuid, fits)
    ]

-- What the keys and the checks of the columns give for a snapshot. Of the name they ask only that it is
-- not empty and has no spaces at its ends, which nothing below needs.
pub record IsSnapshot (s : Snapshot) : Type 0 where
  pub event_uuid : is_uuid s.event_id ≡ true
  pub type_uuid : is_uuid s.ticket_type_id ≡ true
  pub type_total : s.ticket_type_total_quantity ≤ postgres_int4_max
  pub type_left : s.ticket_type_remaining_quantity ≤ s.ticket_type_total_quantity
  pub type_version : s.inventory_version ≤ postgres_int4_max
  pub event_total : s.event_total_quantity ≤ postgres_int4_max
  pub event_left : s.event_remaining_quantity ≤ s.event_total_quantity
  pub event_version : s.event_inventory_version ≤ postgres_int4_max

blank_is_refused :
    (s : Snapshot)
    → IsSnapshot s
    → is_non_blank s.ticket_type_name ≡ false
    → parse_inventory_changed_detail (to_detail (build_versioned_inventory_changed_detail s))
      ≡ err ticket_type_name_invalid
unfolding parse_inventory_changed_detail parse_versioned to_detail as_count as_uuid as_name
    has_marker get ◌=t◌ build_versioned_inventory_changed_detail
blank_is_refused s v blank = ground arith

-- What the API builds from a snapshot of a database whose columns keep their constraints, the worker
-- reads back as a versioned payload if JavaScript's trim leaves something of the Ticket Type's name, and
-- refuses for its name otherwise. The event's remaining quantity stands also under its old name.
pub parse-build :
    (s : Snapshot)
    → IsSnapshot s
    → (parse_inventory_changed_detail (to_detail (build_versioned_inventory_changed_detail s)) ≡ (
        if is_non_blank s.ticket_type_name
        then ok (versioned (build_versioned_inventory_changed_detail s))
        else err ticket_type_name_invalid))
      × ((build_versioned_inventory_changed_detail s).remaining_quantity
          ≡ s.event_remaining_quantity)
unfolding build_versioned_inventory_changed_detail
parse-build s v = elim (Bool-cases (is_non_blank s.ticket_type_name)) [
  | inr blank ↦ rw blank (blank_is_refused s v blank, refl)
  | inl named ↦ rw named (
    parse-to_detail (build_versioned_inventory_changed_detail s) (record {
      version = refl;
      event_uuid = v.event_uuid;
      type_uuid = v.type_uuid;
      named = named;
      type_total = v.type_total;
      type_left = v.type_left;
      type_version = v.type_version;
      event_total = v.event_total;
      event_left = v.event_left;
      event_version = v.event_version;
      compatible = refl;
    }),
    refl,
  )
]

-- Trace context.
get-delete :
    (k j : Text) (fs : Fields) → k =t j ≡ false → get_field j (delete_field k fs) ≡ get_field j fs
unfolding get_field delete_field
get-delete k j end h = refl
get-delete k j (field i v fs) h =
    ground (arith, get-delete k j fs h, text_iff i k, text_iff i j, text_iff k j)

-- A field that the parser reads is none that is stripped.
kept :
    (j : Text) (fs : Fields)
    → trace_context_field =t j ≡ false
    → get_field j (strip_trace_context fs) ≡ get_field j fs
unfolding strip_trace_context
kept j fs h = ground (arith, get-delete trace_context_field j fs h)

-- The trace context that travels with a detail does not change how the detail is read.
pub parse-strip_trace_context :
    (fs : Fields)
    → parse_inventory_changed_detail (obj (strip_trace_context fs))
      ≡ parse_inventory_changed_detail (obj fs)
unfolding parse_inventory_changed_detail parse_versioned parse_legacy has_marker get ◌=t◌
parse-strip_trace_context fs = rw (kept (codes "eventId") fs refl) (
    rw (kept (codes "remainingQuantity") fs refl) (
      rw (kept (codes "inventoryEventVersion") fs refl) (
        rw (kept (codes "ticketTypeId") fs refl) (
          rw (kept (codes "ticketTypeName") fs refl) (
            rw (kept (codes "ticketTypeTotalQuantity") fs refl) (
              rw (kept (codes "ticketTypeRemainingQuantity") fs refl) (
                rw (kept (codes "inventoryVersion") fs refl) (
                  rw (kept (codes "eventTotalQuantity") fs refl) (
                    rw (kept (codes "eventRemainingQuantity") fs refl)
                      (rw (kept (codes "eventInventoryVersion") fs refl) refl))))))))))
