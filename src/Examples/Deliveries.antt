-- ===== src/Examples/Deliveries.antt =====
-- Runs of the search worker.
use ticket_c2c_platform.Prelude.{
  ℕ, ◌≡◌, ◌<◌, refl, inl, none, [], ◌∷◌, codes, ◌=t◌, arith, ok, err, false, find_row, Every, zero,
  suc, ◌+◌,
}
use ticket_c2c_platform.Json.{Json, obj, field, end, str, get}
use ticket_c2c_platform.Messaging.InventoryEvent.{
  to_detail, not_an_object, parse_inventory_changed_detail,
}
use ticket_c2c_platform.Messaging.InventoryEvent.Contract.{parse-to_detail}
use ticket_c2c_platform.Search.Projection.{apply_versioned_inventory_changed}
use ticket_c2c_platform.Search.Requests.{Fate, through, conflict}
use ticket_c2c_platform.Worker.{
  Worker, Message, Runtime, Weather, parsed, poll, run, failure, inventory_changed, contract,
  has_receipt,
}
use ticket_c2c_platform.Worker.Indexing.{Announces, IsForward, Reflected}
use ticket_c2c_platform.Worker.Queue.{IsKept, run-IsKept}
use ticket_c2c_platform.Worker.Completion.{poll_completes, broken_message_stays}
use ticket_c2c_platform.Examples.Events.{payload, payload-IsVersioned}

abbrev envelope : Json → Json
envelope detail = obj (
    field (codes "detail-type") (str (codes "InventoryChanged"))
      (field (codes "detail") detail end))

abbrev sale : Message
sale = record { receipt = codes "r1"; body = parsed (envelope (to_detail payload)) }

abbrev idle : Worker
idle = record { queue = sale ∷ []; dead_letters = []; index = λ id. none; reports = [] }

abbrev node : Runtime
node = record { numeral = λ n. none; as_id = λ j. [] }

-- The first attempt conflicts, the second goes through.
abbrev fate_of : ℕ → Fate
fate_of zero = conflict
fate_of (suc n) = through

abbrev busy : Weather
busy = record {
  redriven = λ m. false;
  meanwhile = λ k m. m;
  attempts = λ k n. record { others = λ d. d; fate = fate_of n };
  deletion = λ k. through;
}

sale-Announces : Announces sale payload
unfolding get ◌=t◌
sale-Announces = record {
  envelope = envelope (to_detail payload);
  body = refl;
  type = refl;
  payload = parse-to_detail payload payload-IsVersioned;
}

busy-IsForward : IsForward busy
busy-IsForward = record { meanwhile = λ k p m h. h; others = λ k n p d h. h }

run-IsKept_example : IsKept sale payload (run node ((busy, sale ∷ []) ∷ []) idle)
unfolding Every find_row ◌=t◌
run-IsKept_example =
    run-IsKept node sale payload ((busy, sale ∷ []) ∷ []) idle sale-Announces
      ((busy-IsForward, ((λ own. refl), tt)), tt) (inl (inl refl))

first_conflicts : (i : ℕ) → i < 1 → fate_of (0 + i) ≡ conflict
first_conflicts zero h = refl
first_conflicts (suc i) h = absurd (omega arith)

poll_completes_example :
    ((poll node busy 0 (sale ∷ []) idle).1 ≡ ok tt)
    × (find_row (has_receipt sale.receipt) (poll node busy 0 (sale ∷ []) idle).0.queue ≡ none)
    × Reflected payload (poll node busy 0 (sale ∷ []) idle).0.index
unfolding apply_versioned_inventory_changed
poll_completes_example =
    poll_completes node busy 0 sale payload idle sale-Announces
      (record {
        conflicts = 1;
        few = omega arith;
        quiet = λ i. refl;
        conflicted = first_conflicts;
        settled = refl;
      })
      refl refl

broken_message_stays_example :
    poll node busy 0
      (record { receipt = codes "r2"; body = parsed (envelope (str [])) } ∷ sale ∷ [])
      idle
    ≡ (
      record {
        queue = sale ∷ [];
        dead_letters = [];
        index = λ id. none;
        reports = failure inventory_changed ∷ [];
      },
      err (contract not_an_object),
    )
unfolding get ◌=t◌ parse_inventory_changed_detail
broken_message_stays_example =
    broken_message_stays node busy 0
      (record { receipt = codes "r2"; body = parsed (envelope (str [])) }) (sale ∷ [])
      (envelope (str [])) not_an_object idle refl refl refl
