-- ===== src/Examples/Events.antt =====
-- Runs of the InventoryChanged contract.
use ticket_c2c_platform.Prelude.{◌≡◌, refl, Text, codes, arith, ok}
use ticket_c2c_platform.Validation.{is_uuid}
use ticket_c2c_platform.Json.{Json, obj, field, end, str, num, whole}
use ticket_c2c_platform.Messaging.InventoryEvent.{
  Payload, versioned, Snapshot, parse_inventory_changed_detail, to_detail,
  build_versioned_inventory_changed_detail, is_non_blank,
}
use ticket_c2c_platform.Messaging.InventoryEvent.Contract.{
  IsVersioned, parse-to_detail, parse-IsVersioned, parse-build,
}

abbrev concert : Text
concert = codes "11111111-1111-1111-1111-111111111111"

abbrev seats : Text
seats = codes "aaaaaaaa-aaaa-aaaa-aaaa-aaaaaaaaaaaa"

abbrev sold_three : Snapshot
sold_three = record {
  event_id = concert;
  ticket_type_id = seats;
  ticket_type_name = codes "Seats";
  ticket_type_total_quantity = 10;
  ticket_type_remaining_quantity = 7;
  inventory_version = 2;
  event_total_quantity = 10;
  event_remaining_quantity = 7;
  event_inventory_version = 2;
}

abbrev pub payload : Payload
payload = record {
  event_id = concert;
  remaining_quantity = 7;
  inventory_event_version = 1;
  ticket_type_id = seats;
  ticket_type_name = codes "Seats";
  ticket_type_total_quantity = 10;
  ticket_type_remaining_quantity = 7;
  inventory_version = 2;
  event_total_quantity = 10;
  event_remaining_quantity = 7;
  event_inventory_version = 2;
}

parse-build_example :
    (parse_inventory_changed_detail
        (to_detail (build_versioned_inventory_changed_detail sold_three))
      ≡ ok (versioned (build_versioned_inventory_changed_detail sold_three)))
    × ((build_versioned_inventory_changed_detail sold_three).remaining_quantity ≡ 7)
unfolding is_uuid is_non_blank
parse-build_example = parse-build sold_three (record {
  event_uuid = refl;
  type_uuid = refl;
  type_total = ground arith;
  type_left = ground arith;
  type_version = ground arith;
  event_total = ground arith;
  event_left = ground arith;
  event_version = ground arith;
})

pub payload-IsVersioned : IsVersioned payload
unfolding is_uuid is_non_blank
payload-IsVersioned = record {
  version = refl;
  event_uuid = refl;
  type_uuid = refl;
  named = refl;
  type_total = ground arith;
  type_left = ground arith;
  type_version = ground arith;
  event_total = ground arith;
  event_left = ground arith;
  event_version = ground arith;
  compatible = refl;
}

parse-to_detail_example :
    parse_inventory_changed_detail (to_detail payload) ≡ ok (versioned payload)
parse-to_detail_example = parse-to_detail payload payload-IsVersioned

parse-IsVersioned_example : IsVersioned payload
parse-IsVersioned_example = parse-IsVersioned (to_detail payload) payload parse-to_detail_example

abbrev old_detail : Json
old_detail =
    obj (
      field (codes "eventId") (str concert) (field (codes "remainingQuantity") (num (whole 5)) end))

-- The old detail as it travels with a trace context.
