-- ===== src/Purchases/Resolver/Entries.antt =====
-- src/purchases/ticket-type-resolver.service.ts: what the cache holds after any calls: how many entries,
-- and where each comes from.
use ticket_c2c_platform.Prelude.{
  ℕ, suc, ◌+◌, ◌≤◌, ◌<◌, ◌≡◌, refl, not, inl, inr, some, List, [], ◌∷◌, ◌++◌, Text, ltb, leb, arith,
  length, find_row, Every, select-Every, append-Every, find_row-Every, Every-mono, length-select-le,
  length-select-lt, Bool-cases, Option-cases, text_iff, find_row-true, subst,
}
use ticket_c2c_platform.Purchases.Resolver.{
  PrefilterPlan, CacheEntry, Limits, Resolver, entry_of, without_entry, evict, store_internal,
  get_fresh, fresh, start_load, resolve_prefilter_plan, is_current, finish_load, settle_load, prime,
  invalidate,
}
use ticket_c2c_platform.Purchases.Resolver.Interleavings.{
  Call, resolve, finish, settle, update, drop, step, after,
}

abbrev pub empty_resolver : Resolver
empty_resolver = record { cache = []; inflight = []; load_token = 0 }

-- What one call may do to the cache.
pub data Moves (limits : Limits) (c : Call) (old new : List CacheEntry) : Type 0 where
  kept : new ≡ old → Moves limits c old new
  deleted : (e : Text) → new ≡ without_entry e old → Moves limits c old new
  touched :
      (e : Text) (x : CacheEntry)
      → find_row (entry_of e) old ≡ some x
      → new ≡ without_entry e old ++ x ∷ []
      → Moves limits c old new
  loaded :
      (now : ℕ) (e : Text) (token : ℕ) (plan : PrefilterPlan)
      → c ≡ finish now e token plan
      → new ≡ store_internal limits now e plan old
      → Moves limits c old new
  primed :
      (now : ℕ) (e : Text) (plan : PrefilterPlan)
      → c ≡ update now e plan
      → new ≡ store_internal limits now e plan old
      → Moves limits c old new

start_load_cache : (e : Text) (r : Resolver) → (start_load e r).1.cache ≡ r.cache
unfolding start_load
start_load_cache e r = ground arith

resolve-Moves :
    (limits : Limits) (now : ℕ) (e : Text) (r : Resolver)
    → Moves limits (resolve now e) r.cache (resolve_prefilter_plan now e r).1.cache
unfolding resolve_prefilter_plan get_fresh
resolve-Moves limits now e r = elim (Option-cases (find_row (entry_of e) r.cache)) [
  | inl missing ↦ kept (ground (arith, start_load_cache e r))
  | inr (x, found) ↦ elim (Bool-cases (leb x.expires_at now)) [
    | inl expired ↦
        deleted e
          (ground (arith, start_load_cache e (record r { cache = without_entry e r.cache })))
    | inr valid ↦ touched e x found (ground arith)
  ]
]

pub step-Moves :
    (limits : Limits) (c : Call) (r : Resolver) → Moves limits c r.cache (step limits c r).cache
unfolding step finish_load settle_load prime invalidate
step-Moves limits (resolve now e) r = resolve-Moves limits now e r
step-Moves limits (finish now e token plan) r = elim (Bool-cases (is_current e token r)) [
  | inl current ↦ loaded now e token plan refl (ground arith)
  | inr other ↦ kept (ground arith)
]
step-Moves limits (settle e token) r = kept (ground arith)
step-Moves limits (update now e plan) r = primed now e plan refl refl
step-Moves limits (drop e) r = deleted e refl

length-evict : (most : ℕ) (xs : List CacheEntry) → length (evict most xs) ≤ most
unfolding evict
length-evict most [] = omega arith
length-evict most (x ∷ xs) = ground (arith, length-evict most xs)

length-append_one :
    (xs : List CacheEntry) (x : CacheEntry) → length (xs ++ x ∷ []) ≡ suc (length xs)
length-append_one [] x = omega arith
length-append_one (y ∷ xs) x = omega (arith, length-append_one xs x)

moved_length :
    (limits : Limits) (c : Call) (old new : List CacheEntry)
    → Moves limits c old new
    → length old ≤ limits.max_entries
    → length new ≤ limits.max_entries
unfolding store_internal
moved_length limits c old new (kept same) h = rw same h
moved_length limits c old new (deleted e gone) h =
    rw gone (omega (arith, length-select-le (λ x. not (entry_of e x)) old))
moved_length limits c old new (touched e x found moved) h = rw moved (
    omega (
      arith,
      length-select-lt (entry_of e) old {a = x} found,
      length-append_one (without_entry e old) x,
    ))
moved_length limits c old new (loaded now e token plan u stored) h =
    rw (stored, store_internal) (length-evict limits.max_entries _)
moved_length limits c old new (primed now e plan u stored) h =
    rw (stored, store_internal) (length-evict limits.max_entries _)

-- However the resolver is called, its cache never holds more than maxEntries entries.
pub cache_is_bounded :
    (limits : Limits) (cs : List Call)
    → length (after limits empty_resolver cs).cache ≤ limits.max_entries
unfolding after
cache_is_bounded limits [] = omega arith
cache_is_bounded limits (c ∷ cs) =
    moved_length limits c _ _ (step-Moves limits c (after limits empty_resolver cs))
      (cache_is_bounded limits cs)

-- A plan for the event was loaded or primed at a time.
pub data Stored (e : Text) (plan : PrefilterPlan) (time : ℕ) : List Call → Type 0 where
  by_load : (token : ℕ) (cs : List Call) → Stored e plan time (finish time e token plan ∷ cs)
  by_prime : (cs : List Call) → Stored e plan time (update time e plan ∷ cs)
  earlier : (c : Call) (cs : List Call) → Stored e plan time cs → Stored e plan time (c ∷ cs)

-- Where an entry of the cache comes from.
IsStored : Limits → List Call → CacheEntry → Type 0
IsStored limits cs x =
    (time : ℕ) × Stored x.event_id x.plan time cs × (x.expires_at ≡ time + limits.ttl_ms)

later-IsStored :
    (limits : Limits) (c : Call) (cs : List Call) (xs : List CacheEntry)
    → Every (IsStored limits cs) xs
    → Every (IsStored limits (c ∷ cs)) xs
unfolding IsStored
later-IsStored limits c cs xs h =
    Every-mono (IsStored limits cs) (IsStored limits (c ∷ cs)) xs
      (λ x k. (k.0, earlier c cs k.1, k.2)) h

evict-Every :
    (P : CacheEntry → Type 0) (most : ℕ) (xs : List CacheEntry)
    → Every P xs
    → Every P (evict most xs)
unfolding Every evict
evict-Every P most [] h = h
evict-Every P most (x ∷ xs) h = elim (Bool-cases (ltb most (length (x ∷ xs)))) [
  | inl more ↦ rw (more, evict) (evict-Every P most xs h.1)
  | inr fits ↦ rw (fits, evict) h
]

store-Every :
    (P : CacheEntry → Type 0) (limits : Limits) (now : ℕ) (e : Text) (plan : PrefilterPlan)
    (cache : List CacheEntry)
    → Every P cache
    → P (record { event_id = e; plan = plan; expires_at = now + limits.ttl_ms })
    → Every P (store_internal limits now e plan cache)
unfolding store_internal Every
store-Every P limits now e plan cache h new =
    evict-Every P limits.max_entries _
      (append-Every P (without_entry e cache) _ (select-Every P _ cache h) (new, tt))

moved-IsStored :
    (limits : Limits) (c : Call) (cs : List Call) (old new : List CacheEntry)
    → Moves limits c old new
    → Every (IsStored limits cs) old
    → Every (IsStored limits (c ∷ cs)) new
unfolding IsStored Every
moved-IsStored limits c cs old new (kept same) h = rw same (later-IsStored limits c cs old h)
moved-IsStored limits c cs old new (deleted e gone) h =
    rw gone (select-Every _ _ old (later-IsStored limits c cs old h))
moved-IsStored limits c cs old new (touched e x found moved) h =
    let now_stored = later-IsStored limits c cs old h in
    rw moved (
      append-Every _ (without_entry e old) (x ∷ []) (select-Every _ _ old now_stored)
        (find_row-Every _ (entry_of e) old {a = x} now_stored found, tt))
moved-IsStored limits c cs old new (loaded now e token plan is stored) h =
    rw (stored, is)
      (store-Every _ limits now e plan old (later-IsStored limits _ cs old h)
        (now, by_load token cs, refl))
moved-IsStored limits c cs old new (primed now e plan is stored) h =
    rw (stored, is)
      (store-Every _ limits now e plan old (later-IsStored limits _ cs old h)
        (now, by_prime cs, refl))

after-IsStored :
    (limits : Limits) (cs : List Call)
    → Every (IsStored limits cs) (after limits empty_resolver cs).cache
unfolding after Every
after-IsStored limits [] = tt
after-IsStored limits (c ∷ cs) =
    moved-IsStored limits c cs _ _ (step-Moves limits c (after limits empty_resolver cs))
      (after-IsStored limits cs)

fresh_from :
    (now : ℕ) (e : Text) (plan : PrefilterPlan) (r : Resolver) (x : CacheEntry)
    → (resolve_prefilter_plan now e r).0 ≡ fresh plan
    → find_row (entry_of e) r.cache ≡ some x
    → (x.event_id ≡ e) × (x.plan ≡ plan) × (now < x.expires_at)
unfolding resolve_prefilter_plan get_fresh start_load
fresh_from now e plan r x h found = (
  (text_iff x.event_id e).0 (find_row-true (entry_of e) r.cache {a = x} found),
  ground arith,
  ground arith,
)

fresh_found :
    (now : ℕ) (e : Text) (plan : PrefilterPlan) (r : Resolver)
    → (resolve_prefilter_plan now e r).0 ≡ fresh plan
    → (x : CacheEntry) × (find_row (entry_of e) r.cache ≡ some x)
unfolding resolve_prefilter_plan get_fresh start_load
fresh_found now e plan r h = elim (Option-cases (find_row (entry_of e) r.cache)) [
  | inl missing ↦ absurd (ground arith)
  | inr found ↦ found
]

-- A plan that is answered without a load was loaded or primed for the same event less than ttlMs
-- before, however the resolver was called since.
pub fresh_plan_is_recent :
    (limits : Limits) (cs : List Call) (now : ℕ) (e : Text) (plan : PrefilterPlan)
    → (resolve_prefilter_plan now e (after limits empty_resolver cs)).0 ≡ fresh plan
    → (time : ℕ) × Stored e plan time cs × (now < time + limits.ttl_ms)
unfolding IsStored
fresh_plan_is_recent limits cs now e plan h =
    let r = after limits empty_resolver cs in
    let (x, found) = fresh_found now e plan r h in
    let (same, answer, before) = fresh_from now e plan r x h found in
    let (time, stored, expiry) =
      find_row-Every (IsStored limits cs) (entry_of e) r.cache {a = x} (after-IsStored limits cs)
        found in
    (
      time,
      subst (λ p. Stored e p time cs) answer (subst (λ d. Stored d x.plan time cs) same stored),
      omega arith,
    )
