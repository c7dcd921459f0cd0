-- ===== src/Purchases/Input.antt =====
-- parsePurchaseInput of src/purchases/purchases.service.ts
use ticket_c2c_platform.Prelude.{
  ℕ, Bool, true, false, ◌&&◌, Option, none, some, [], ◌∷◌, Text, codes, leb, ltb, if◌then◌else◌,
  Result, ok, err, ◌>>=◌, ◌>>◌, require, ◌≤◌, ◌<◌, ◌≡◌, arith,
}
use ticket_c2c_platform.Validation.{is_uuid, postgres_int4_max}
use ticket_c2c_platform.Json.{Json, whole, num, str, undefined, get, is_undefined, is_object}
use ticket_c2c_platform.Purchases.{
  PurchaseInput, PurchaseError, event_id_not_uuid, buyer_id_not_uuid, body_not_object,
  buyer_id_not_accepted, quantity_invalid, request_id_invalid, ticket_type_id_not_uuid,
}

parse_quantity : Json → Result PurchaseError ℕ
parse_quantity (num (whole n)) =
    if ltb 0 n && leb n postgres_int4_max then ok n else err quantity_invalid
parse_quantity _ = err quantity_invalid

parse_request_id : Json → Result PurchaseError (Option Text)
parse_request_id undefined = ok none
parse_request_id (str []) = err request_id_invalid
parse_request_id (str (c ∷ s)) = ok (some (c ∷ s))
parse_request_id _ = err request_id_invalid

parse_ticket_type_id : Json → Result PurchaseError (Option Text)
parse_ticket_type_id undefined = ok none
parse_ticket_type_id (str s) = if is_uuid s then ok (some s) else err ticket_type_id_not_uuid
parse_ticket_type_id _ = err ticket_type_id_not_uuid

-- `selection` is the value of selection.ticketTypeId.
unfoldable pub parse_purchase_input : Text → Text → Json → Json → Result PurchaseError PurchaseInput
unfolding parse_quantity parse_request_id parse_ticket_type_id
parse_purchase_input event_id buyer_id body selection = do
  require (is_uuid event_id) event_id_not_uuid
  require (is_uuid buyer_id) buyer_id_not_uuid
  require (is_object body) body_not_object
  require (is_undefined (get (codes "buyerId") body)) buyer_id_not_accepted
  quantity ← parse_quantity (get (codes "quantity") body)
  request_id ← parse_request_id (get (codes "requestId") body)
  ticket_type_id ← parse_ticket_type_id selection
  ok (record {
    event_id = event_id;
    buyer_id = buyer_id;
    quantity = quantity;
    request_id = request_id;
    ticket_type_id = ticket_type_id;
  })

abbrev opt_uuid : Option Text → Bool
opt_uuid none = true
opt_uuid (some t) = is_uuid t

abbrev opt_nonempty : Option Text → Bool
opt_nonempty none = true
opt_nonempty (some []) = false
opt_nonempty (some (c ∷ s)) = true

-- What every accepted input satisfies.
pub record IsParsed (i : PurchaseInput) : Type 0 where
  pub event_uuid : is_uuid i.event_id ≡ true
  pub buyer_uuid : is_uuid i.buyer_id ≡ true
  pub positive : 0 < i.quantity
  pub in_integer : i.quantity ≤ postgres_int4_max
  pub request_nonempty : opt_nonempty i.request_id ≡ true
  pub type_uuid : opt_uuid i.ticket_type_id ≡ true

-- Whatever the body and the selection are, an accepted input has UUIDs where they are required, a
-- quantity that fits a positive INTEGER, and no empty request id.
pub parse_purchase_input-IsParsed :
    (event_id buyer_id : Text) (body selection : Json) {i : PurchaseInput}
    → parse_purchase_input event_id buyer_id body selection ≡ ok i
    → IsParsed i
unfolding parse_purchase_input
parse_purchase_input-IsParsed event_id buyer_id body selection h = ground arith
