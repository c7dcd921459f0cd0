-- ===== src/Purchases/Resolver.antt =====
-- src/purchases/ticket-type-resolver.service.ts: TicketTypeResolverService. The Map of the cache is a
-- list with the oldest entry first. An asynchronous load is three steps, between which other calls
-- run: resolvePrefilterPlan up to its await, the end of the load, and the finally block.
pub mod Plans
pub mod Interleavings
pub mod Entries
use ticket_c2c_platform.Prelude.{
  ℕ, suc, ◌+◌, Bool, true, false, not, Option, none, some, List, [], ◌∷◌, ◌++◌, Text, ◌=t◌, ltb,
  leb, ◌==◌, if◌then◌else◌, length, find_row, select, Result, ok, err,
}
use ticket_c2c_platform.Validation.{uuid}
use ticket_c2c_platform.Database.{
  Db, DbError, TicketTypeRow, legacy, ticket_type, read_inventory_writer_mode,
}
use ticket_c2c_platform.Purchases.Transaction.{type_in_event}

-- The two levels of PrefilterPlan
pub data Scope : Type 0 where
  single : Text → Scope
  multi : Scope

pub data PrefilterPlan : Type 0 where
  legacy_plan : PrefilterPlan
  ticket_type_plan : Scope → PrefilterPlan

-- CacheEntry with its key, and an entry of the Map inflight
pub record CacheEntry : Type 0 where
  pub event_id : Text
  pub plan : PrefilterPlan
  pub expires_at : ℕ

pub record Inflight : Type 0 where
  pub event_id : Text
  pub token : ℕ

-- ttlMs and maxEntries
pub record Limits : Type 0 where
  pub ttl_ms : ℕ
  pub max_entries : ℕ

pub record Resolver : Type 0 where
  pub cache : List CacheEntry
  pub inflight : List Inflight
  pub load_token : ℕ

abbrev pub entry_of : Text → CacheEntry → Bool
entry_of e x = x.event_id =t e

abbrev pub load_of : Text → Inflight → Bool
load_of e x = x.event_id =t e

abbrev pub without_entry : Text → List CacheEntry → List CacheEntry
without_entry e = select (λ x. not (entry_of e x))

abbrev pub without_load : Text → List Inflight → List Inflight
without_load e = select (λ x. not (load_of e x))

-- The eviction loop of storeInternal: the first entry goes while there are too many.
unfoldable pub evict : ℕ → List CacheEntry → List CacheEntry
evict most [] = []
evict most (x ∷ xs) =
    let rest = evict most xs in if ltb most (length (x ∷ xs)) then rest else x ∷ xs

unfoldable pub store_internal :
    Limits → ℕ → Text → PrefilterPlan → List CacheEntry → List CacheEntry
store_internal limits now e plan cache =
    let entry : CacheEntry = record {
      event_id = e;
      plan = plan;
      expires_at = now + limits.ttl_ms;
    } in
    evict limits.max_entries (without_entry e cache ++ entry ∷ [])

-- getFresh: an expired entry goes, and a fresh one moves to the end.
unfoldable pub get_fresh : ℕ → Text → List CacheEntry → Option PrefilterPlan × List CacheEntry
get_fresh now e cache = elim (find_row (entry_of e) cache) [
  | none ↦ (none, cache)
  | some entry ↦
      if leb entry.expires_at now
      then (none, without_entry e cache)
      else (some entry.plan, without_entry e cache ++ entry ∷ [])
]

-- What a call of resolvePrefilterPlan does first: answer, wait for a load, or start one.
pub data Resolving : Type 0 where
  fresh : PrefilterPlan → Resolving
  joined loading : ℕ → Resolving

unfoldable pub start_load : Text → Resolver → Resolving × Resolver
start_load e r = elim (find_row (load_of e) r.inflight) [
  | some existing ↦ (joined existing.token, r)
  | none ↦
      let token = suc r.load_token in
      (
        loading token,
        record r {
          inflight = record { event_id = e; token = token } ∷ r.inflight;
          load_token = token;
        },
      )
]

unfoldable pub resolve_prefilter_plan : ℕ → Text → Resolver → Resolving × Resolver
unfolding get_fresh start_load
resolve_prefilter_plan now e r =
    let (answer, cache) = get_fresh now e r.cache in
    elim answer [
      | some plan ↦ (fresh plan, record r { cache = cache })
      | none ↦ start_load e (record r { cache = cache })
    ]

-- `current && current.token === token`
unfoldable pub is_current : Text → ℕ → Resolver → Bool
is_current e token r = elim (find_row (load_of e) r.inflight) [
  | none ↦ false
  | some current ↦ current.token == token
]

-- The load returned a plan.
unfoldable pub finish_load : Limits → ℕ → Text → ℕ → PrefilterPlan → Resolver → Resolver
unfolding is_current store_internal
finish_load limits now e token plan r =
    if is_current e token r
    then record r { cache = store_internal limits now e plan r.cache }
    else r

-- The finally block, also after a load that failed
unfoldable pub settle_load : Text → ℕ → Resolver → Resolver
unfolding is_current
settle_load e token r =
    if is_current e token r then record r { inflight = without_load e r.inflight } else r

unfoldable pub prime : Limits → ℕ → Text → PrefilterPlan → Resolver → Resolver
unfolding store_internal
prime limits now e plan r = record r {
  cache = store_internal limits now e plan r.cache;
  inflight = without_load e r.inflight;
}

unfoldable pub invalidate : Text → Resolver → Resolver
invalidate e r = record r { cache = without_entry e r.cache; inflight = without_load e r.inflight }

abbrev pub scope_of : List TicketTypeRow → Scope
scope_of (t ∷ []) = single t.id
scope_of _ = multi

-- loadPlanFromDatabase
unfoldable pub load_plan_from_database : Text → Db → Result DbError PrefilterPlan
unfolding read_inventory_writer_mode
load_plan_from_database e db = elim (read_inventory_writer_mode db) [
  | err thrown ↦ err thrown
  | ok legacy ↦ ok legacy_plan
  | ok ticket_type ↦
      ok (ticket_type_plan (scope_of (select (type_in_event (uuid e)) db.ticket_types)))
]
