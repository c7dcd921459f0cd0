-- ===== src/Search/Repair/Convergence.antt =====
-- src/search/projection-repair.service.ts: REPAIR_CONTRACT_CORRUPTION_SCRIPT beside the versioned
-- script of src/search/events-projection.store.ts, which refuses other values of the same version.
use ticket_c2c_platform.Prelude.{
  ℕ, ◌≡◌, Bool, true, false, ◌&&◌, not, Option, none, some, List, [], ◌∷◌, ◌=t◌, ◌==◌, Result, ok,
  err, Every,
}
use ticket_c2c_platform.Messaging.InventoryEvent.{Payload}
use ticket_c2c_platform.Search.Projection.{
  ScriptError, TypeDocument, Document, Operation, noop, index,
}
use ticket_c2c_platform.Search.Repair.{
  AuthoritativeTicketType, AuthoritativeEventInventory, is_corrupt, repair_types,
}

-- An element that the versioned script does not refuse
abbrev pub Agrees : AuthoritativeTicketType → TypeDocument → Type 0
Agrees a t = is_corrupt a t ≡ false

abbrev pub Distinct : List AuthoritativeTicketType → Type 0
Distinct [] = Unit
Distinct (a ∷ rest) = Every (λ b. b.ticket_type_id =t a.ticket_type_id ≡ false) rest × Distinct rest

abbrev long_is : Option ℕ → ℕ → Bool
long_is none n = false
long_is (some m) n = m == n

abbrev pub other_values : Option ℕ → ℕ → Bool → Bool
other_values none w same = false
other_values (some v) w same = v == w && not same

abbrev pub event_is_corrupt : AuthoritativeEventInventory → Document → Bool
event_is_corrupt a d = other_values d.event_inventory_version a.event_inventory_version (
    long_is d.event_total_quantity a.event_total_quantity
    && long_is d.event_remaining_quantity a.event_remaining_quantity)

abbrev pub RepairedEvent :
    AuthoritativeEventInventory → Document → Result ScriptError (Bool × Document) → Type 0
RepairedEvent a d (err e) = Unit
RepairedEvent a d (ok r) = (event_is_corrupt a r.1 ≡ false) × (r.1.ticket_types ≡ d.ticket_types)

abbrev pub is_ok : {E A : Type 0} → Result E A → Bool
is_ok (ok x) = true
is_ok (err e) = false

-- The payload of an event that says what the database says
abbrev pub current_payload : AuthoritativeEventInventory → AuthoritativeTicketType → Payload
current_payload e a = record {
  event_id = e.event_id;
  remaining_quantity = e.event_remaining_quantity;
  inventory_event_version = 1;
  ticket_type_id = a.ticket_type_id;
  ticket_type_name = a.name;
  ticket_type_total_quantity = a.total_quantity;
  ticket_type_remaining_quantity = a.remaining_quantity;
  inventory_version = a.inventory_version;
  event_total_quantity = e.event_total_quantity;
  event_remaining_quantity = e.event_remaining_quantity;
  event_inventory_version = e.event_inventory_version;
}

-- The document that the script writes, if it writes one
abbrev pub RepairedDocument :
    AuthoritativeEventInventory → List TypeDocument → Result ScriptError Operation → Type 0
RepairedDocument e ts (err x) = Unit
RepairedDocument e ts (ok noop) = Unit
RepairedDocument e ts (ok (index d)) =
    (event_is_corrupt e d ≡ false) × (d.ticket_types ≡ (repair_types e.ticket_types ts).1)
