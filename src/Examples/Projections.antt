-- ===== src/Examples/Projections.antt =====
-- Runs of the search projection's scripts.
use ticket_c2c_platform.Prelude.{ℕ, ◌≡◌, refl, none, some, [], ◌∷◌, Text, codes, ◌=t◌, arith, ok}
use ticket_c2c_platform.Messaging.InventoryEvent.{Payload}
use ticket_c2c_platform.Search.Projection.{
  Document, empty_document, with_event, type_of_payload, applied, stale,
  apply_versioned_inventory_changed,
}
use ticket_c2c_platform.Search.Projection.Versions.{
  type_state, event_state, Joins, apply_versioned-Joins,
}
use ticket_c2c_platform.Search.Projection.Delivery.{deliveries_commute, redelivery_is_stale}

abbrev concert : Text
concert = codes "concert"

-- Versions 2 and 3 of one Ticket Type and of its event.
abbrev sale : ℕ → ℕ → Payload
sale version left = record {
  event_id = concert;
  remaining_quantity = left;
  inventory_event_version = 1;
  ticket_type_id = codes "seats";
  ticket_type_name = codes "Seats";
  ticket_type_total_quantity = 10;
  ticket_type_remaining_quantity = left;
  inventory_version = version;
  event_total_quantity = 10;
  event_remaining_quantity = left;
  event_inventory_version = version;
}

abbrev after : ℕ → ℕ → Document
after version left = record (with_event (sale version left) empty_document) {
  event_id = some concert;
  ticket_types = type_of_payload (sale version left) ∷ [];
}

first_sale : apply_versioned_inventory_changed (sale 2 7) none ≡ ok (applied, some (after 2 7))
unfolding apply_versioned_inventory_changed ◌=t◌
first_sale = refl

second_sale : apply_versioned_inventory_changed (sale 3 5) none ≡ ok (applied, some (after 3 5))
unfolding apply_versioned_inventory_changed ◌=t◌
second_sale = refl

in_order :
    apply_versioned_inventory_changed (sale 3 5) (some (after 2 7)) ≡ ok (applied, some (after 3 5))
unfolding apply_versioned_inventory_changed ◌=t◌
in_order = refl

out_of_order :
    apply_versioned_inventory_changed (sale 2 7) (some (after 3 5)) ≡ ok (stale, some (after 3 5))
unfolding apply_versioned_inventory_changed ◌=t◌
out_of_order = refl

apply_versioned-Joins_example : Joins (sale 3 5) (after 2 7) (after 3 5)
apply_versioned-Joins_example =
    apply_versioned-Joins (sale 3 5) (some (after 2 7)) (some (after 3 5)) applied in_order

deliveries_commute_example :
    ((t : Text) → type_state t (after 3 5) ≡ type_state t (after 3 5))
    × (event_state (after 3 5) ≡ event_state (after 3 5))
deliveries_commute_example =
    deliveries_commute (sale 2 7) (sale 3 5) none (some (after 2 7)) (some (after 3 5))
      (some (after 3 5)) (some (after 3 5))
      (record {
        type = λ e v. ground arith;
        event_total = λ v. refl;
        event_remaining = λ v. ground arith;
      })
      first_sale in_order second_sale out_of_order

redelivery_is_stale_example :
    apply_versioned_inventory_changed (sale 3 5) (some (after 3 5)) ≡ ok (stale, some (after 3 5))
redelivery_is_stale_example =
    redelivery_is_stale (sale 3 5) (some (after 2 7)) (some (after 3 5)) applied in_order
