-- ===== src/Purchases.antt =====
-- src/purchases/purchase.types.ts and the types of src/purchases/purchases.service.ts: what a purchase
-- takes, returns and throws. The children are the parsing of the request, the authoritative
-- transaction, the resolver of the prefilter's scope, and the service that puts the Valkey prefilter around it.
pub mod Input
pub mod Transaction
pub mod Resolver
pub mod Service
use ticket_c2c_platform.Prelude.{ℕ, Text, Option}
use ticket_c2c_platform.Database.{WriterMode, PurchaseStatus, RejectionReason, DbError}

-- ParsedPurchaseInput
pub record PurchaseInput : Type 0 where
  pub event_id : Text
  pub buyer_id : Text
  pub quantity : ℕ
  pub request_id : Option Text
  pub ticket_type_id : Option Text

pub record PurchaseResult : Type 0 where
  pub purchase_id : Option Text
  pub event_id : Text
  pub buyer_id : Text
  pub quantity : ℕ
  pub status : PurchaseStatus
  pub rejection_reason : Option RejectionReason
  pub remaining_quantity : Option ℕ

pub record PurchaseInventoryChange : Type 0 where
  pub ticket_type_id : Text
  pub ticket_type_name : Text
  pub ticket_type_total_quantity : ℕ
  pub ticket_type_remaining_quantity : ℕ
  pub inventory_version : ℕ
  pub event_total_quantity : ℕ
  pub event_remaining_quantity : ℕ
  pub event_inventory_version : ℕ

pub data Disposition : Type 0 where
  created replayed : Disposition

-- PurchaseTransactionOutcome
pub record Outcome : Type 0 where
  pub result : PurchaseResult
  pub disposition : Disposition
  pub inventory_change : Option PurchaseInventoryChange
  pub compatibility_remaining_quantity : Option ℕ
  pub resolved_ticket_type_id : Option Text
  pub ticket_type_remaining_quantity : Option ℕ
  pub writer_mode_used : WriterMode

-- One constructor for each exception that the purchase code throws, and what the database raises.
pub data PurchaseError : Type 0 where
  event_id_not_uuid buyer_id_not_uuid body_not_object buyer_id_not_accepted : PurchaseError
  quantity_invalid request_id_invalid ticket_type_id_not_uuid : PurchaseError
  event_not_found ticket_type_not_found ticket_type_not_configured : PurchaseError
  exactly_one_type_required ticket_type_id_required payload_conflict : PurchaseError
  inventory_not_configured compatibility_inventory_not_configured : PurchaseError
  type_state_not_configured version_invalid : PurchaseError
  database : DbError → PurchaseError

-- The HTTP status of the exception classes (BadRequest, NotFound, Conflict, InternalServerError).
unfoldable pub http_status : PurchaseError → ℕ
http_status event_id_not_uuid = 400
http_status buyer_id_not_uuid = 400
http_status body_not_object = 400
http_status buyer_id_not_accepted = 400
http_status quantity_invalid = 400
http_status request_id_invalid = 400
http_status ticket_type_id_not_uuid = 400
http_status exactly_one_type_required = 400
http_status ticket_type_id_required = 400
http_status event_not_found = 404
http_status ticket_type_not_found = 404
http_status payload_conflict = 409
http_status _ = 500
