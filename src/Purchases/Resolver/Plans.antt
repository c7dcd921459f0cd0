-- ===== src/Purchases/Resolver/Plans.antt =====
-- src/purchases/ticket-type-resolver.service.ts: loadPlanFromDatabase beside the resolution of a
-- Ticket Type in the transaction of src/purchases/purchases.service.ts.
use ticket_c2c_platform.Prelude.{◌≡◌, ◌↔◌, none, List, [], ◌∷◌, select, Text, ok, arith}
use ticket_c2c_platform.Validation.{uuid}
use ticket_c2c_platform.Database.{Db, TicketTypeRow, ticket_type, read_inventory_writer_mode}
use ticket_c2c_platform.Purchases.{PurchaseInput, PurchaseError, ticket_type_id_required}
use ticket_c2c_platform.Purchases.Transaction.{type_in_event, only_type, resolve_ticket_type}
use ticket_c2c_platform.Purchases.Resolver.{
  single, scope_of, ticket_type_plan, load_plan_from_database,
}

scope_of-only_type :
    (e : PurchaseError) (ts : List TicketTypeRow) (t : Text)
    → (scope_of ts ≡ single t) ↔ (only_type e ts ≡ ok t)
unfolding only_type
scope_of-only_type e [] t = (λ h. cc, λ h. cc)
scope_of-only_type e (x ∷ []) t = (λ h. cc, λ h. cc)
scope_of-only_type e (x ∷ y ∷ ts) t = (λ h. cc, λ h. cc)

-- For a request without a Ticket Type: the plan is scoped to a type exactly if the writer mode is
-- ticket_type and the transaction, on the same rows, resolves to that type.
pub plan-resolve :
    (i : PurchaseInput) (db : Db) (t : Text)
    → i.ticket_type_id ≡ none
    → (load_plan_from_database i.event_id db ≡ ok (ticket_type_plan (single t))) ↔ (
        (read_inventory_writer_mode db ≡ ok ticket_type)
        × (resolve_ticket_type ticket_type i db ≡ ok t))
unfolding load_plan_from_database resolve_ticket_type
plan-resolve i db t omitted =
    let agree =
      scope_of-only_type ticket_type_id_required
        (select (type_in_event (uuid i.event_id)) db.ticket_types) t in
    (λ h. ground (arith, agree.0), λ h. ground (arith, agree.1))
