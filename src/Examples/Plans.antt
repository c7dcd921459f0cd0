-- ===== src/Examples/Plans.antt =====
-- Runs of the Ticket Type resolver.
use ticket_c2c_platform.Prelude.{
  ℕ, ◌≡◌, ◌<◌, ◌+◌, ◌↔◌, refl, none, List, [], ◌∷◌, Text, codes, ◌=t◌, arith, ok, find_row, select,
}
use ticket_c2c_platform.Database.{ticket_type, read_inventory_writer_mode}
use ticket_c2c_platform.Examples.{concert, seats, market, request}
use ticket_c2c_platform.Purchases.Transaction.{resolve_ticket_type}
use ticket_c2c_platform.Purchases.Resolver.{
  Limits, Resolver, single, legacy_plan, ticket_type_plan, load_plan_from_database,
  resolve_prefilter_plan, prime, invalidate, evict,
}
use ticket_c2c_platform.Purchases.Resolver.Plans.{plan-resolve}
use ticket_c2c_platform.Purchases.Resolver.Interleavings.{
  Call, resolve, finish, settle, update, after, Unnoticed, stale_load_is_dropped,
}
use ticket_c2c_platform.Purchases.Resolver.Entries.{empty_resolver, Stored, fresh_plan_is_recent}

abbrev a_event : Text
a_event = codes "a"

abbrev limits : Limits
limits = record { ttl_ms = 5000; max_entries = 2 }

-- A load of event a that is in flight with token 1.
abbrev loading_a : Resolver
loading_a = after limits empty_resolver (resolve 10 a_event ∷ [])

-- Another request for it, and a full cache.
abbrev busy : List Call
busy =
    resolve 30 a_event ∷ update 25 (codes "c") legacy_plan ∷ update 24 (codes "b") legacy_plan ∷ []

stale_load_is_dropped_example :
    Unnoticed limits 40 a_event 1 legacy_plan (
      after limits (prime limits 20 a_event (ticket_type_plan (single (codes "t"))) loading_a) busy)
    × Unnoticed limits 40 a_event 1 legacy_plan (after limits (invalidate a_event loading_a) busy)
unfolding after resolve_prefilter_plan find_row ◌=t◌
stale_load_is_dropped_example =
    stale_load_is_dropped limits loading_a busy 20 40 a_event 1
      (ticket_type_plan (single (codes "t"))) legacy_plan (omega arith)

loaded_calls : List Call
loaded_calls =
    settle a_event 1
    ∷ finish 12 a_event 1 (ticket_type_plan (single (codes "t")))
    ∷ resolve 10 a_event
    ∷ []

fresh_plan_is_recent_example :
    (time : ℕ) × Stored a_event (ticket_type_plan (single (codes "t"))) time loaded_calls
    × (5000 < time + 5000)
unfolding loaded_calls after resolve_prefilter_plan find_row ◌=t◌ evict select
fresh_plan_is_recent_example =
    fresh_plan_is_recent limits loaded_calls 5000 a_event (ticket_type_plan (single (codes "t")))
      refl

plan-resolve_example :
    (load_plan_from_database concert (market ticket_type) ≡ ok (ticket_type_plan (single seats)))
    ↔ ((read_inventory_writer_mode (market ticket_type) ≡ ok ticket_type)
        × (resolve_ticket_type ticket_type (request none) (market ticket_type) ≡ ok seats))
plan-resolve_example = plan-resolve (request none) (market ticket_type) seats refl
