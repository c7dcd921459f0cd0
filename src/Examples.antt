-- ===== src/Examples.antt =====
-- Runs of the code on small databases; the children run the cache, the event
-- contract, the search projection and the refresh tokens.
mod Counters
mod Events
mod Projections
mod Tokens
mod Plans
mod Retention
mod Deliveries
mod Switching
mod Recounts
mod Repairs
use ticket_c2c_platform.Prelude.{
  ℕ, ◌+◌, ◌-◌, ◌≤◌, ◌<◌, ◌≡◌, ◌≢◌, refl, ◌⊎◌, inl, inr, Bool, true, false, Option, none, some, List,
  [], ◌∷◌, Text, codes, ◌=t◌, arith, find_row, sum_rows, Result, ok, err, put, count_rows, select,
  update_rows, is_some, text_refl,
}
use ticket_c2c_platform.Validation.{is_uuid, uuid, postgres_int4_max}
use ticket_c2c_platform.Json.{Json, Fields, get, obj, field, end, str, num, whole, undefined}
use ticket_c2c_platform.Database.{
  WriterMode, legacy, ticket_type, confirmed, rejected, Db, TicketTypeRow, InventoryRow,
  TypeInventoryRow, PurchaseRow, HasKeys, read_inventory_writer_mode, event_remaining, event_sold,
  type_remaining, type_sold, of_event, of_type,
}
use ticket_c2c_platform.Database.Writes.{update_active_inventory}
use ticket_c2c_platform.Purchases.{
  PurchaseInput, PurchaseResult, Outcome, PurchaseInventoryChange, created, replayed,
  payload_conflict,
}
use ticket_c2c_platform.Purchases.Transaction.Conservation.{
  execute-conserves_event, execute-conserves_type,
}
use ticket_c2c_platform.Database.Writes.{
  Taken, take_event, take_type, event_has, type_has, type_rest, update_ticket_type_inventory,
}
use ticket_c2c_platform.Database.Mirror.{IsAggregate, update_ticket_type_inventory-IsAggregate}
use ticket_c2c_platform.Cache.Keys.{ticket_type_counter_key, ticket_type_counter_revision_key}
use ticket_c2c_platform.Cache.Scripts.{Store}
use ticket_c2c_platform.Purchases.Input.{
  parse_purchase_input, IsParsed, parse_purchase_input-IsParsed,
}
use ticket_c2c_platform.Purchases.Resolver.{ticket_type_plan, single}
use ticket_c2c_platform.Purchases.Service.{World, prefilter_type, create_purchase_ticket_type}
use ticket_c2c_platform.Purchases.Service
use ticket_c2c_platform.Purchases.Service.Authority.{IsAuthorized, create_purchase-IsAuthorized}
use ticket_c2c_platform.Purchases.Service.Compensation.{
  quiet, counter_after, create_purchase_ticket_type-settles,
}
use ticket_c2c_platform.Purchases.Transaction.Decision.{
  Confirms, Rejects, SameInventory, decides_by_event, decides_by_type,
}
use ticket_c2c_platform.Purchases.Transaction.Replay.{
  Remembers, HasStoredType, repeat_is_replayed, other_quantity_conflicts, unstored_type_conflicts,
}
use ticket_c2c_platform.Purchases.Transaction.{
  contains, TxEnv, commits, execute_purchase_transaction, transaction_body, create_purchase,
  resolve_ticket_type, conclude_purchase, find_existing_purchase,
}

abbrev concert : Text
concert = codes "11111111-1111-1111-1111-111111111111"

abbrev buyer : Text
buyer = codes "22222222-2222-2222-2222-222222222222"

abbrev seats : Text
seats = codes "aaaaaaaa-aaaa-aaaa-aaaa-aaaaaaaaaaaa"

abbrev first_id : Text
first_id = codes "33333333-3333-3333-3333-333333333333"

abbrev seats_upper : Text
seats_upper = codes "AAAAAAAA-AAAA-AAAA-AAAA-AAAAAAAAAAAA"

-- One event with one Ticket Type and ten tickets.
abbrev market : WriterMode → Db
market mode = record {
  control = some mode;
  events = concert ∷ [];
  ticket_types =
      record { id = seats; event_id = concert; name = codes "Seats"; is_default = true } ∷ [];
  ticket_inventory =
      record { event_id = concert; total_quantity = 10; remaining_quantity = 10; version = 1 } ∷ [];
  ticket_type_inventory =
      record {
        ticket_type_id = seats;
        event_id = concert;
        total_quantity = 10;
        remaining_quantity = 10;
        version = 1;
      }
      ∷ [];
  purchases = [];
}

abbrev calm : TxEnv
calm = record { new_id = first_id; race = λ db. db; rollback_succeeds = true; fate = commits }

abbrev request : Option Text → PurchaseInput
request t = record {
  event_id = concert;
  buyer_id = buyer;
  quantity = 3;
  request_id = some (codes "r-1");
  ticket_type_id = t;
}

market-HasKeys : (mode : WriterMode) → HasKeys (market mode)
unfolding count_rows
market-HasKeys mode = record { event_key = λ e. ground arith; type_key = λ t. ground arith }

execute-conserves_event_example :
    event_remaining concert (execute_purchase_transaction calm (request none) (market legacy)).0
      + event_sold concert (execute_purchase_transaction calm (request none) (market legacy)).0
    ≡ 10
unfolding sum_rows ◌=t◌
execute-conserves_event_example =
    execute-conserves_event calm (request none) (market legacy) concert refl (market-HasKeys legacy)

execute-conserves_type_example :
    type_remaining seats (execute_purchase_transaction calm (request none) (market ticket_type)).0
      + type_sold seats (execute_purchase_transaction calm (request none) (market ticket_type)).0
    ≡ 10
unfolding sum_rows ◌=t◌
execute-conserves_type_example =
    execute-conserves_type calm (request none) (market ticket_type) seats refl
      (market-HasKeys ticket_type)

abbrev sold_row : PurchaseRow
sold_row = record {
  id = first_id;
  event_id = concert;
  ticket_type_id = seats;
  buyer_id = buyer;
  request_id = some (codes "r-1");
  quantity = 3;
  status = confirmed;
  rejection_reason = none;
  remaining_quantity_after = some 7;
}

abbrev market_after : WriterMode → Db
market_after mode = record {
  control = some mode;
  events = concert ∷ [];
  ticket_types =
      record { id = seats; event_id = concert; name = codes "Seats"; is_default = true } ∷ [];
  ticket_inventory =
      record { event_id = concert; total_quantity = 10; remaining_quantity = 7; version = 2 } ∷ [];
  ticket_type_inventory =
      record {
        ticket_type_id = seats;
        event_id = concert;
        total_quantity = 10;
        remaining_quantity = 7;
        version = 2;
      }
      ∷ [];
  purchases = sold_row ∷ [];
}

abbrev bought : WriterMode → Option ℕ → Outcome
bought mode left = record {
  result = record {
    purchase_id = some first_id;
    event_id = concert;
    buyer_id = buyer;
    quantity = 3;
    status = confirmed;
    rejection_reason = none;
    remaining_quantity = some 7;
  };
  disposition = created;
  inventory_change = some (record {
    ticket_type_id = seats;
    ticket_type_name = codes "Seats";
    ticket_type_total_quantity = 10;
    ticket_type_remaining_quantity = 7;
    inventory_version = 2;
    event_total_quantity = 10;
    event_remaining_quantity = 7;
    event_inventory_version = 2;
  });
  compatibility_remaining_quantity = some 7;
  resolved_ticket_type_id = some seats;
  ticket_type_remaining_quantity = left;
  writer_mode_used = mode;
}

buys_in_legacy :
    execute_purchase_transaction calm (request none) (market legacy)
    ≡ (market_after legacy, ok (bought legacy none))
unfolding execute_purchase_transaction transaction_body create_purchase resolve_ticket_type
    conclude_purchase update_active_inventory read_inventory_writer_mode ◌=t◌ uuid
    find_existing_purchase find_row select update_rows
buys_in_legacy = refl

buys_by_type :
    (t : Option Text)
    → (t ≡ none) ⊎ (t ≡ some seats_upper)
    → execute_purchase_transaction calm (request t) (market ticket_type)
      ≡ (market_after ticket_type, ok (bought ticket_type (some 7)))
unfolding execute_purchase_transaction transaction_body create_purchase resolve_ticket_type
    conclude_purchase update_active_inventory read_inventory_writer_mode ◌=t◌ uuid
    find_existing_purchase find_row select update_rows sum_rows count_rows
buys_by_type none h = refl
buys_by_type (some t) (inl h) = absurd (cc)
buys_by_type (some t) (inr h) = rw h refl

remembers :
    (mode : WriterMode) (i : PurchaseInput)
    → i.event_id ≡ concert
    → Remembers i (market_after mode) (market_after mode)
unfolding contains uuid ◌=t◌
remembers mode i h = record { mode = mode; control = refl; event = rw h refl; purchase = refl }

abbrev replay_answer : PurchaseResult
replay_answer = record {
  purchase_id = some first_id;
  event_id = concert;
  buyer_id = buyer;
  quantity = 3;
  status = confirmed;
  rejection_reason = none;
  remaining_quantity = some 7;
}

repeat_is_replayed_example :
    (o' : Outcome) × (execute_purchase_transaction calm (request none) (market_after legacy)
      ≡ (market_after legacy, ok o'))
    × (o'.disposition ≡ replayed)
    × (o'.result ≡ replay_answer)
    × (o'.inventory_change ≡ none)
unfolding uuid
repeat_is_replayed_example =
    repeat_is_replayed calm calm (request none) (market legacy) (market_after legacy)
      (market_after legacy) (bought legacy none) (codes "r-1") buys_in_legacy refl refl tt
      (remembers legacy (request none) refl) refl

other_quantity_conflicts_example :
    execute_purchase_transaction calm (record (request none) { quantity = 4 }) (market_after legacy)
    ≡ (market_after legacy, err payload_conflict)
other_quantity_conflicts_example =
    other_quantity_conflicts calm calm (request none) (market legacy) (market_after legacy)
      (market_after legacy) (bought legacy none) (codes "r-1") 4 buys_in_legacy refl refl
      (remembers legacy (request none) refl) (λ e. ground arith)

unstored_type_conflicts_example :
    execute_purchase_transaction calm (request (some seats_upper)) (market_after ticket_type)
    ≡ (market_after ticket_type, err payload_conflict)
unfolding uuid
unstored_type_conflicts_example =
    unstored_type_conflicts calm calm (request (some seats_upper)) (market ticket_type)
      (market_after ticket_type) (market_after ticket_type) (bought ticket_type (some 7))
      (codes "r-1") seats_upper refl (buys_by_type (some seats_upper) (inr refl)) refl refl refl
      (λ e. ground arith) (remembers ticket_type (request (some seats_upper)) refl)

decides_by_event_example :
    ((r : InventoryRow) × (find_row (event_has (uuid concert) 3) (market legacy).ticket_inventory
        ≡ some r)
      × Confirms (bought legacy none) (r.remaining_quantity - 3)
      × (find_row (of_event (uuid concert)) (market_after legacy).ticket_inventory
          ≡ some (take_event 3 r)))
    ⊎ ((find_row (event_has (uuid concert) 3) (market legacy).ticket_inventory ≡ none)
        × Rejects (bought legacy none)
        × SameInventory (market legacy) (market_after legacy))
decides_by_event_example =
    decides_by_event calm (request none) (market legacy) (market_after legacy) (bought legacy none)
      refl (market-HasKeys legacy) buys_in_legacy refl

decides_by_type_example :
    (t : Text) × (some seats ≡ some t)
    × (((r : TypeInventoryRow) × (find_row
              (type_has (uuid concert) t 3)
              (market ticket_type).ticket_type_inventory
            ≡ some r)
          × Confirms
              (bought ticket_type (some 7))
              (sum_rows (type_rest (uuid concert)) (market_after ticket_type).ticket_type_inventory)
          × ((market_after ticket_type).ticket_type_inventory
              ≡ update_rows
                  (type_has (uuid concert) t 3)
                  (take_type 3)
                  (market ticket_type).ticket_type_inventory)
          × IsAggregate (uuid concert) (market_after ticket_type))
        ⊎ ((find_row (type_has (uuid concert) t 3) (market ticket_type).ticket_type_inventory
              ≡ none)
            × Rejects (bought ticket_type (some 7))
            × SameInventory (market ticket_type) (market_after ticket_type)))
decides_by_type_example =
    decides_by_type calm (request none) (market ticket_type) (market_after ticket_type)
      (bought ticket_type (some 7)) refl (buys_by_type none (inl refl)) refl

-- What the UPDATE of the Ticket Type's row leaves, with the mirrored row of the event.
abbrev taken_three : Taken
taken_three = record {
  db = record (market_after ticket_type) { purchases = [] };
  row_count = 1;
  remaining = some 7;
}

update_ticket_type_inventory-IsAggregate_example : IsAggregate concert (taken_three.db)
unfolding update_ticket_type_inventory ◌=t◌ find_row update_rows sum_rows count_rows select
update_ticket_type_inventory-IsAggregate_example =
    update_ticket_type_inventory-IsAggregate concert seats 3 (market ticket_type) taken_three refl
      refl

-- Valkey holds four tickets of the type, at revision 9.
abbrev shelf : Store
shelf =
    put (ticket_type_counter_revision_key concert seats) 9
      (put (ticket_type_counter_key concert seats) 4 (λ k. none))

abbrev world : World
world = record { cache = quiet shelf []; db = market ticket_type; metrics = []; published = [] }

create_purchase-IsAuthorized_example :
    IsAuthorized calm
      (request none)
      (market ticket_type)
      (Service.create_purchase calm (some (ticket_type_plan (single seats))) (request none) world)
create_purchase-IsAuthorized_example =
    create_purchase-IsAuthorized calm (some (ticket_type_plan (single seats))) (request none) world

create_purchase_ticket_type-settles_example :
    (create_purchase_ticket_type calm (request none) (single seats) world).0.cache.store
      (ticket_type_counter_key concert seats)
    ≡ some (
        counter_after seats 4 3
          (execute_purchase_transaction calm (request none) (market ticket_type)).1)
unfolding prefilter_type ticket_type_counter_key ticket_type_counter_revision_key ◌=t◌
create_purchase_ticket_type-settles_example =
    create_purchase_ticket_type-settles calm (request none) (single seats) seats shelf [] world 4
      refl refl refl (ground arith)

parse_purchase_input-IsParsed_example : IsParsed (request none)
unfolding parse_purchase_input is_uuid get ◌=t◌
parse_purchase_input-IsParsed_example =
    parse_purchase_input-IsParsed concert buyer
      (obj (
        field (codes "quantity") (num (whole 3))
          (field (codes "requestId") (str (codes "r-1")) end)))
      undefined refl
