-- ===== src/Purchases/Resolver/Interleavings.antt =====
-- src/purchases/ticket-type-resolver.service.ts: calls of the resolver in any order, with the steps of
-- the loads that are in flight between them.
use ticket_c2c_platform.Prelude.{
  ℕ, ◌≤◌, ◌<◌, ◌≡◌, inl, inr, some, List, [], ◌∷◌, Text, arith, find_row, find_row-delete,
  Bool-cases, Option-cases, text_iff, text_refl,
}
use ticket_c2c_platform.Purchases.Resolver.{
  PrefilterPlan, CacheEntry, Inflight, Limits, Resolver, load_of, without_entry, without_load,
  store_internal, get_fresh, start_load, resolve_prefilter_plan, is_current, finish_load,
  settle_load, prime, invalidate,
}

-- What happens to a resolver; a load may return any plan, or none at all.
pub data Call : Type 0 where
  resolve : ℕ → Text → Call
  finish : ℕ → Text → ℕ → PrefilterPlan → Call
  settle : Text → ℕ → Call
  update : ℕ → Text → PrefilterPlan → Call
  drop : Text → Call

unfoldable pub step : Limits → Call → Resolver → Resolver
unfolding resolve_prefilter_plan finish_load settle_load prime invalidate
step limits (resolve now e) r = (resolve_prefilter_plan now e r).1
step limits (finish now e token plan) r = finish_load limits now e token plan r
step limits (settle e token) r = settle_load e token r
step limits (update now e plan) r = prime limits now e plan r
step limits (drop e) r = invalidate e r

-- The state after some calls, the latest first.
unfoldable pub after : Limits → Resolver → List Call → Resolver
unfolding step
after limits r [] = r
after limits r (c ∷ cs) = step limits c (after limits r cs)

-- No load of the event that is in flight has the token or an older one.
abbrev Superseded : Text → ℕ → Resolver → Type 0
Superseded e token r =
    ((x : Inflight) → find_row (load_of e) r.inflight ≡ some x → token < x.token)
    × (token ≤ r.load_token)

without_load-Superseded :
    (e d : Text) (token : ℕ) (r : Resolver) (cache : List CacheEntry)
    → Superseded e token r
    → Superseded e token (record r { cache = cache; inflight = without_load d r.inflight })
without_load-Superseded e d token r cache h = (
  λ x found. ground (arith, h.0 x, find_row-delete (λ (y : Inflight). y.event_id) e d r.inflight),
  h.1,
)

start_load-Superseded :
    (e d : Text) (token : ℕ) (r : Resolver)
    → Superseded e token r
    → Superseded e token (start_load d r).1
unfolding start_load find_row
start_load-Superseded e d token r h =
    (λ x found. ground (arith, h.0 x, text_iff d e), ground (arith, h.1))

step-Superseded :
    (limits : Limits) (c : Call) (e : Text) (token : ℕ) (r : Resolver)
    → Superseded e token r
    → Superseded e token (step limits c r)
unfolding step resolve_prefilter_plan finish_load settle_load prime invalidate
step-Superseded limits (resolve now d) e token r h =
    elim (Option-cases (get_fresh now d r.cache).0) [
      | inl miss ↦
          rw (miss, step, resolve_prefilter_plan)
            (start_load-Superseded e d token (record r { cache = (get_fresh now d r.cache).1 }) h)
      | inr (p, hit) ↦ rw (hit, step, resolve_prefilter_plan) h
    ]
step-Superseded limits (finish now d t plan) e token r h = elim (Bool-cases (is_current d t r)) [
  | inl current ↦ rw (current, step, finish_load) h
  | inr other ↦ rw (other, step, finish_load) h
]
step-Superseded limits (settle d t) e token r h = elim (Bool-cases (is_current d t r)) [
  | inl current ↦ rw (current, step, settle_load) (without_load-Superseded e d token r r.cache h)
  | inr other ↦ rw (other, step, settle_load) h
]
step-Superseded limits (update now d plan) e token r h =
    without_load-Superseded e d token r (store_internal limits now d plan r.cache) h
step-Superseded limits (drop d) e token r h =
    without_load-Superseded e d token r (without_entry d r.cache) h

after-Superseded :
    (limits : Limits) (cs : List Call) (e : Text) (token : ℕ) (r : Resolver)
    → Superseded e token r
    → Superseded e token (after limits r cs)
unfolding after
after-Superseded limits [] e token r h = h
after-Superseded limits (c ∷ cs) e token r h =
    step-Superseded limits c e token (after limits r cs) (after-Superseded limits cs e token r h)

outdated_load_is_dropped :
    (limits : Limits) (now : ℕ) (e : Text) (token : ℕ) (plan : PrefilterPlan) (r : Resolver)
    → Superseded e token r
    → finish_load limits now e token plan r ≡ r
unfolding finish_load is_current
outdated_load_is_dropped limits now e token plan r h =
    elim (Option-cases (find_row (load_of e) r.inflight)) [
      | inl missing ↦ ground arith
      | inr (x, found) ↦ ground (arith, h.0 x)
    ]

dropped_loads :
    (e : Text) (token : ℕ) (r : Resolver) (cache : List CacheEntry)
    → token ≤ r.load_token
    → Superseded e token (record r { cache = cache; inflight = without_load e r.inflight })
dropped_loads e token r cache h = (
  λ x found.
      ground (arith, find_row-delete (λ (y : Inflight). y.event_id) e e r.inflight, text_refl e),
  h,
)

outdated_load_settles :
    (e : Text) (token : ℕ) (r : Resolver) → Superseded e token r → settle_load e token r ≡ r
unfolding settle_load is_current
outdated_load_settles e token r h = elim (Option-cases (find_row (load_of e) r.inflight)) [
  | inl missing ↦ ground arith
  | inr (x, found) ↦ ground (arith, h.0 x)
]

-- Neither the plan that a load returns nor its finally block changes anything.
abbrev pub Unnoticed : Limits → ℕ → Text → ℕ → PrefilterPlan → Resolver → Type 0
Unnoticed limits now e token plan r =
    (finish_load limits now e token plan r ≡ r) × (settle_load e token r ≡ r)

outdated_load-Unnoticed :
    (limits : Limits) (now : ℕ) (e : Text) (token : ℕ) (plan : PrefilterPlan) (r : Resolver)
    → Superseded e token r
    → Unnoticed limits now e token plan r
outdated_load-Unnoticed limits now e token plan r h =
    (outdated_load_is_dropped limits now e token plan r h, outdated_load_settles e token r h)

-- Of a load of an event that began before prime or invalidate was called for the event, neither the
-- plan it returns nor its finally block changes anything, whatever other calls came in between.
pub stale_load_is_dropped :
    (limits : Limits) (r : Resolver) (cs : List Call) (primed now : ℕ) (e : Text) (token : ℕ)
    (new stale : PrefilterPlan)
    → token ≤ r.load_token
    → Unnoticed limits now e token stale (after limits (prime limits primed e new r) cs)
      × Unnoticed limits now e token stale (after limits (invalidate e r) cs)
unfolding prime invalidate
stale_load_is_dropped limits r cs primed now e token new stale began = (
  outdated_load-Unnoticed limits now e token stale _ (
      after-Superseded limits cs e token _
        (dropped_loads e token r (store_internal limits primed e new r.cache) began)),
  outdated_load-Unnoticed limits now e token stale _ (
      after-Superseded limits cs e token _
        (dropped_loads e token r (without_entry e r.cache) began)),
)
