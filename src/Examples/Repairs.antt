-- ===== src/Examples/Repairs.antt =====
-- Runs of the comparison and the repairs of one document.
use ticket_c2c_platform.Prelude.{
  ◌≡◌, ◌≤◌, count_rows, arith, refl, true, some, [], ◌∷◌, Text, codes, ◌=t◌, ok, Every, find_row,
  select,
}
use ticket_c2c_platform.Validation.{uuid}
use ticket_c2c_platform.Database.{Db, legacy}
use ticket_c2c_platform.Search.Projection.{
  TypeDocument, Document, empty_document, noop, inventory_version_guard_script,
}
use ticket_c2c_platform.Search.Requests.{Attempt, through}
use ticket_c2c_platform.Search.Repair.{
  AuthoritativeTicketType, AuthoritativeEventInventory, has_document_type,
  delete_orphan_ticket_type, ticket_type_belongs, update_as, report_of,
}
use ticket_c2c_platform.Search.Repair.Convergence.{current_payload}
use ticket_c2c_platform.Search.Reconciliation.{
  compare_event, contract_corruption, unexpected_ticket_type, missing_ticket_type,
}
use ticket_c2c_platform.Search.Reconciliation.Clean.{clean_document_is_current}
use ticket_c2c_platform.Search.Repair.Orphans.{element, delete_orphan_ticket_type_spares}

abbrev seats : AuthoritativeTicketType
seats = record {
  ticket_type_id = codes "a";
  name = codes "Seats";
  total_quantity = 10;
  remaining_quantity = 4;
  inventory_version = 3;
}

abbrev stands : AuthoritativeTicketType
stands = record {
  ticket_type_id = codes "b";
  name = codes "Stands";
  total_quantity = 5;
  remaining_quantity = 5;
  inventory_version = 1;
}

abbrev concert : AuthoritativeEventInventory
concert = record {
  event_id = codes "e";
  event_total_quantity = 15;
  event_remaining_quantity = 9;
  event_inventory_version = 3;
  ticket_types = seats ∷ stands ∷ [];
}

abbrev seats_with : Text → TypeDocument
seats_with n = record {
  ticket_type_id = codes "a";
  name = n;
  total_quantity = 10;
  remaining_quantity = 4;
  inventory_version = 3;
}

-- An element that the database does not have
abbrev ghost : TypeDocument
ghost = record {
  ticket_type_id = codes "c";
  name = codes "Ghost";
  total_quantity = 1;
  remaining_quantity = 1;
  inventory_version = 1;
}

abbrev indexed : Text → Document
indexed n = record empty_document {
  event_total_quantity = some 15;
  event_remaining_quantity = some 9;
  event_inventory_version = some 3;
  ticket_types = seats_with n ∷ ghost ∷ [];
}

abbrev corrupt : Document
corrupt = indexed (codes "Setas")

abbrev stored : Db
stored = record {
  control = some legacy;
  events = codes "e" ∷ [];
  ticket_types =
      record { id = codes "a"; event_id = codes "e"; name = codes "Seats"; is_default = true } ∷ [];
  ticket_inventory =
      record { event_id = codes "e"; total_quantity = 15; remaining_quantity = 9; version = 3 }
      ∷ [];
  ticket_type_inventory = [];
  purchases = [];
}

abbrev undisturbed : Attempt
undisturbed = record { others = λ d. d; fate = through }

seats_belong : ticket_type_belongs (codes "e") (codes "a") stored ≡ true
unfolding ticket_type_belongs uuid find_row ◌=t◌
seats_belong = refl

seats_indexed : element (codes "a") (some corrupt) ≡ some (seats_with (codes "Setas"))
unfolding find_row ◌=t◌
seats_indexed = refl

delete_orphan_ticket_type_spares_example :
    element
      (codes "a")
      (delete_orphan_ticket_type (codes "e") (codes "c") true stored undisturbed (some corrupt)).0
    ≡ some (seats_with (codes "Setas"))
delete_orphan_ticket_type_spares_example =
    delete_orphan_ticket_type_spares (codes "e") (codes "c") (codes "a") true stored undisturbed
      (some corrupt) (seats_with (codes "Setas")) seats_belong seats_indexed seats_indexed

-- The ghost is removed, and the report says so.
ghost_is_removed :
    delete_orphan_ticket_type (codes "e") (codes "c") true stored undisturbed (some corrupt) ≡ (
      some (record corrupt { ticket_types = seats_with (codes "Setas") ∷ [] }),
      ok (report_of [] [] true),
    )
unfolding delete_orphan_ticket_type update_as uuid find_row select ◌=t◌
ghost_is_removed = refl

-- An event with one Ticket Type, and its document
abbrev small : AuthoritativeEventInventory
small = record concert { ticket_types = seats ∷ [] }

abbrev faithful : Document
faithful = record corrupt { ticket_types = seats_with (codes "Seats") ∷ [] }

faithful_once : (t : Text) → count_rows (has_document_type t) faithful.ticket_types ≤ 1
unfolding count_rows
faithful_once t = ground (arith)

faithful_is_clean : compare_event small (λ d. true) true faithful ≡ []
unfolding compare_event find_row ◌=t◌
faithful_is_clean = refl

clean_document_is_current_example :
    Every
      (λ a. inventory_version_guard_script (current_payload small a) faithful ≡ ok noop)
      small.ticket_types
clean_document_is_current_example =
    clean_document_is_current small (λ d. true) true faithful faithful_once faithful_is_clean

-- The other name, the missing Stands and the ghost are found.
corrupt_is_found :
    compare_event concert (λ d. true) true corrupt
    ≡ record { category = contract_corruption; ticket_type_id = some (codes "a") }
      ∷ record { category = missing_ticket_type; ticket_type_id = some (codes "b") }
      ∷ record { category = unexpected_ticket_type; ticket_type_id = some (codes "c") }
      ∷ []
unfolding compare_event find_row ◌=t◌
corrupt_is_found = refl
