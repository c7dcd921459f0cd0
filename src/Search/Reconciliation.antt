-- ===== src/Search/Reconciliation.antt =====
-- src/search/inventory-reconciliation.service.ts: compareEvent. `listed` says that the document's
-- field ticket_types is an array, and `matches` is metadataMatches, which compares dates and
-- coordinates. Every element of the array is an object with an id that is a string.
pub mod Clean
use ticket_c2c_platform.Prelude.{
  ℕ, Bool, true, false, not, ◌&&◌, ◌||◌, Option, none, some, List, [], ◌∷◌, ◌++◌, Text, ◌=t◌, leb,
  ◌==◌, is_some, if◌then◌else◌, find_row,
}
use ticket_c2c_platform.Validation.{postgres_int4_max}
use ticket_c2c_platform.Json.{Json, str, num, whole}
use ticket_c2c_platform.Search.Projection.{TypeDocument, Document}
use ticket_c2c_platform.Search.Repair.{
  AuthoritativeTicketType, AuthoritativeEventInventory, same_values, has_document_type, read_field,
  as_quantity_or_null, as_version_or_null,
}

pub data ReconciliationCategory : Type 0 where
  missing_event_document unexpected_event_document missing_ticket_type : ReconciliationCategory
  unexpected_ticket_type ticket_type_total_mismatch : ReconciliationCategory
  ticket_type_remaining_mismatch ticket_type_version_mismatch : ReconciliationCategory
  event_total_mismatch event_remaining_mismatch event_version_mismatch : ReconciliationCategory
  metadata_mismatch contract_corruption unversioned_projection : ReconciliationCategory
  malformed_projection : ReconciliationCategory

-- ReconciliationFinding, without the event
pub record Finding : Type 0 where
  pub category : ReconciliationCategory
  pub ticket_type_id : Option Text

abbrev pub of_event_when : Bool → ReconciliationCategory → List Finding
of_event_when b c = if b then record { category = c; ticket_type_id = none } ∷ [] else []

abbrev pub of_type_when : Text → Bool → ReconciliationCategory → List Finding
of_type_when t b c = if b then record { category = c; ticket_type_id = some t } ∷ [] else []

abbrev pub last_of : Bool → TypeDocument → Option TypeDocument → Option TypeDocument
last_of b x (some y) = some y
last_of b x none = if b then some x else none

-- `docTypes.get`: of two elements with one id the later is in the map.
unfoldable pub find_last : Text → List TypeDocument → Option TypeDocument
find_last t [] = none
find_last t (x ∷ xs) = last_of (has_document_type t x) x (find_last t xs)

-- What the numbers of an element have to be
abbrev pub is_readable : TypeDocument → Bool
is_readable x =
    is_some (as_quantity_or_null x.total_quantity)
    && is_some (as_quantity_or_null x.remaining_quantity)
    && is_some (as_version_or_null x.inventory_version)

unfoldable pub compare_found : AuthoritativeTicketType → TypeDocument → List Finding
compare_found a x =
    let t = a.ticket_type_id in
    if is_readable x
    then (if x.inventory_version == a.inventory_version
        then of_type_when t (not (same_values a x)) contract_corruption
        else of_type_when t true ticket_type_version_mismatch
          ++ of_type_when t (not (x.total_quantity == a.total_quantity)) ticket_type_total_mismatch
          ++ of_type_when t (not (x.remaining_quantity == a.remaining_quantity))
              ticket_type_remaining_mismatch)
    else of_type_when t true malformed_projection

unfoldable pub compare_type : AuthoritativeTicketType → List TypeDocument → List Finding
unfolding compare_found find_last
compare_type a ts = elim (find_last a.ticket_type_id ts) [
  | none ↦ of_type_when a.ticket_type_id true missing_ticket_type
  | some x ↦ compare_found a x
]

unfoldable pub compare_types : List AuthoritativeTicketType → List TypeDocument → List Finding
unfolding compare_type
compare_types [] ts = []
compare_types (a ∷ rest) ts = compare_type a ts ++ compare_types rest ts

abbrev pub has_authoritative_id : Text → AuthoritativeTicketType → Bool
has_authoritative_id t a = a.ticket_type_id =t t

-- The keys of the map, each once, that the database does not have
unfoldable pub unexpected_types :
    List AuthoritativeTicketType → List TypeDocument → List TypeDocument → List Finding
unexpected_types known seen [] = []
unexpected_types known seen (x ∷ xs) =
    let t = x.ticket_type_id in
    of_type_when t
      (not (
        is_some (find_row (has_document_type t) seen)
        || is_some (find_row (has_authoritative_id t) known)))
      unexpected_ticket_type
    ++ unexpected_types known (x ∷ seen) xs

abbrev pub is_text : Option Json → Bool
is_text (some (str _)) = true
is_text _ = false

-- asQuantityOrNull of a field that may hold anything
abbrev pub as_quantity : Option Json → Option ℕ
as_quantity (some (num (whole n))) = as_quantity_or_null n
as_quantity _ = none

-- A document without any versioned field
unfoldable pub compare_unversioned : Document → List Finding
compare_unversioned d =
    if is_some (as_quantity d.remaining_quantity)
      || is_text d.title
      || is_text d.event_type
      || is_text d.starts_at
    then of_event_when true unversioned_projection
    else of_event_when true malformed_projection

unfoldable pub compare_numbers : AuthoritativeEventInventory → ℕ → ℕ → ℕ → List Finding
compare_numbers e v total remaining =
    if v == e.event_inventory_version
    then of_event_when
        (not (total == e.event_total_quantity && remaining == e.event_remaining_quantity))
        contract_corruption
    else of_event_when true event_version_mismatch
      ++ of_event_when (not (total == e.event_total_quantity)) event_total_mismatch
      ++ of_event_when (not (remaining == e.event_remaining_quantity)) event_remaining_mismatch

unfoldable pub compare_versioned :
    AuthoritativeEventInventory → (Document → Bool) → Document → ℕ → ℕ → ℕ → List Finding
unfolding compare_numbers compare_types unexpected_types
compare_versioned e matches d v total remaining =
    compare_numbers e v total remaining
    ++ of_event_when (not (matches d)) metadata_mismatch
    ++ compare_types e.ticket_types d.ticket_types
    ++ unexpected_types e.ticket_types [] d.ticket_types

-- The numbers of the event, where all of them can be read
unfoldable pub compare_read :
    AuthoritativeEventInventory
    → (Document → Bool)
    → Document
    → Option ℕ
    → Option ℕ
    → Option ℕ
    → List Finding
unfolding compare_versioned
compare_read e matches d (some v) (some total) (some remaining) =
    compare_versioned e matches d v total remaining
compare_read e matches d _ _ _ = of_event_when true malformed_projection

abbrev pub no_types : List TypeDocument → Bool
no_types [] = true
no_types (_ ∷ _) = false

-- compareEvent
unfoldable pub compare_event :
    AuthoritativeEventInventory → (Document → Bool) → Bool → Document → List Finding
unfolding compare_unversioned compare_read
compare_event e matches listed d =
    if not (is_some d.event_inventory_version)
      && not (is_some d.event_total_quantity)
      && not (is_some d.event_remaining_quantity)
      && no_types d.ticket_types
    then compare_unversioned d
    else if not listed
    then of_event_when true malformed_projection
    else compare_read e matches d (read_field as_version_or_null d.event_inventory_version)
        (read_field as_quantity_or_null d.event_total_quantity)
        (read_field as_quantity_or_null d.event_remaining_quantity)
