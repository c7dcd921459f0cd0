-- ===== src/Examples/Counters.antt =====
-- Runs of the Valkey keys and scripts.
use ticket_c2c_platform.Prelude.{◌≡◌, refl, true, none, some, List, [], ◌∷◌, Text, codes, ◌=t◌, put}
use ticket_c2c_platform.Validation.{is_uuid}
use ticket_c2c_platform.Cache.Keys.{
  ticket_type_counter_key, ticket_type_counter_revision_key, purchase_request_seen_key,
  TicketTypeCounterKeyParts, parse_ticket_type_counter_key, parse-ticket_type_counter_key,
  parse_ticket_type_counter_key_sound,
}
use ticket_c2c_platform.Cache.Keys.Distinct.{of_type, counter_key, version_key}
use ticket_c2c_platform.Cache.Scripts.{Store, guarded_sync_script}
use ticket_c2c_platform.Cache.Scripts.Commands.{
  Command, reserves, marks, run_command, run_commands, sync_on, version_of, value_of,
}
use ticket_c2c_platform.Cache.Scripts.Compare.{sync_loses_nothing}

abbrev concert : Text
concert = codes "11111111-1111-1111-1111-111111111111"

abbrev seats : Text
seats = codes "aaaaaaaa-aaaa-aaaa-aaaa-aaaaaaaaaaaa"

abbrev boxes : Text
boxes = codes "bbbbbbbb-bbbb-bbbb-bbbb-bbbbbbbbbbbb"

parse-ticket_type_counter_key_example :
    parse_ticket_type_counter_key (ticket_type_counter_key concert seats)
    ≡ some (record { event_id = concert; ticket_type_id = seats })
unfolding is_uuid
parse-ticket_type_counter_key_example = parse-ticket_type_counter_key concert seats refl refl

abbrev parts : TicketTypeCounterKeyParts
parts = record { event_id = concert; ticket_type_id = seats }

parse_ticket_type_counter_key_sound_example :
    (ticket_type_counter_key concert seats ≡ ticket_type_counter_key concert seats)
    × (is_uuid concert ≡ true)
    × (is_uuid seats ≡ true)
unfolding is_uuid
parse_ticket_type_counter_key_sound_example =
    parse_ticket_type_counter_key_sound (ticket_type_counter_key concert seats) parts
      parse-ticket_type_counter_key_example

-- Another client reserves of another type, and marks a request, between the read and the sync.
abbrev between : List Command
between = reserves (of_type concert boxes) 1 ∷ marks boxes concert (codes "r") ∷ []

abbrev shelf : Store
shelf = put (counter_key (of_type concert seats)) 4 (λ k. none)

sync_loses_nothing_example :
    (value_of (of_type concert seats) (run_commands between shelf)
      ≡ value_of (of_type concert seats) shelf)
    × (value_of
          (of_type concert seats)
          (sync_on
            (of_type concert seats)
            7
            (version_of (of_type concert seats) shelf)
            (run_commands between shelf)).1
        ≡ some 7)
unfolding is_uuid counter_key version_key run_commands run_command sync_on guarded_sync_script
    ticket_type_counter_key ticket_type_counter_revision_key purchase_request_seen_key ◌=t◌
sync_loses_nothing_example =
    sync_loses_nothing (of_type concert seats) between 7 shelf (refl, refl) ((refl, refl), (tt, tt))
      refl
