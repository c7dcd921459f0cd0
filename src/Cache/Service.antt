-- ===== src/Cache/Service.antt =====
-- src/cache/inventory-cache.service.ts: InventoryCacheService over a connection that may fail. Each call
-- to Valkey is a visit: other clients' commands run first, and then the request, the reply or
-- neither is lost. A call beyond the visits given finds a quiet store and goes through.
use ticket_c2c_platform.Prelude.{
  ℕ, Bool, true, false, Option, none, some, List, [], ◌∷◌, Text, is_some, or_else, put,
  if◌then◌else◌,
}
use ticket_c2c_platform.Cache.Keys.{
  event_counter_key, event_counter_version_key, ticket_type_counter_key,
  ticket_type_counter_revision_key, purchase_request_seen_key,
}
use ticket_c2c_platform.Cache.Scripts.{
  Store, ReserveOutcome, unknown, TicketTypeReserveResult, init_script, reserve_script,
  ticket_type_reserve_script, release_script, sync_script, guarded_sync_script,
}
use ticket_c2c_platform.Cache.Scripts.Commands.{Command, run_commands}

pub data Fate : Type 0 where
  answered request_lost reply_lost : Fate

pub record Visit : Type 0 where
  pub others : List Command
  pub fate : Fate

-- The dimension `Operation` of the metric ValkeyFailOpen.
pub data Operation : Type 0 where
  reserve_op get_counter_version_op was_request_seen_op init_ticket_type_counter_op : Operation
  reserve_ticket_type_op release_ticket_type_op get_ticket_type_revision_op : Operation
  sync_ticket_type_counter_op : Operation

-- `enabled` is `client !== null`.
pub record Client : Type 0 where
  pub enabled : Bool
  pub store : Store
  pub visits : List Visit
  pub fail_opens : List Operation

deliver : {A : Type 0} → Fate → Store → A × Store → Option A × Store
deliver answered m (a, m') = (some a, m')
deliver request_lost m (a, m') = (none, m)
deliver reply_lost m (a, m') = (none, m')

-- One command on the connection; `none` is the rejection that the callers catch.
visit : {A : Type 0} → List Visit → (Store → A × Store) → Client → Option A × Client
unfolding deliver
visit [] f c = let (a, m) = f c.store in (some a, record c { store = m })
visit (v ∷ vs) f c =
    let m = run_commands v.others c.store in
    let (a, m') = deliver v.fate m (f m) in (a, record c { store = m'; visits = vs })

unfoldable pub eval : {A : Type 0} → (Store → A × Store) → Client → Option A × Client
unfolding visit
eval f c = visit c.visits f c

-- emitMetric('ValkeyFailOpen', …) in a catch block, and the answer that it falls back to
or_fail_open : {A : Type 0} → Operation → A → Option A × Client → A × Client
or_fail_open op a (some b, c) = (b, c)
or_fail_open op a (none, c) = (a, record c { fail_opens = op ∷ c.fail_opens })

or_silently : {A : Type 0} → A → Option A × Client → A × Client
or_silently a (some b, c) = (b, c)
or_silently a (none, c) = (a, c)

abbrev only : (Store → Store) → Store → Unit {0} × Store
only f m = (tt, f m)

unfoldable pub init_counter : Text → ℕ → Client → Client
unfolding eval or_silently
init_counter e n c =
    if c.enabled
    then (or_silently tt
        (eval (only (init_script (event_counter_key e) (event_counter_version_key e) n)) c)).1
    else c

unfoldable pub reserve : Text → ℕ → Client → ReserveOutcome × Client
unfolding eval or_fail_open
reserve e n c =
    if c.enabled
    then or_fail_open reserve_op unknown
        (eval (reserve_script (event_counter_key e) (event_counter_version_key e) n) c)
    else (unknown, c)

unfoldable pub release : Text → ℕ → Client → Client
unfolding eval or_silently
release e n c =
    if c.enabled
    then (or_silently tt
        (eval (only (release_script (event_counter_key e) (event_counter_version_key e) n)) c)).1
    else c

-- `(await client.get(key)) ?? '0'`
abbrev read_version : Text → Store → Option ℕ × Store
read_version key m = (some (or_else (m key) 0), m)

unfoldable pub get_counter_version : Text → Client → Option ℕ × Client
unfolding eval or_fail_open
get_counter_version e c =
    if c.enabled
    then or_fail_open get_counter_version_op none
        (eval (read_version (event_counter_version_key e)) c)
    else (none, c)

unfoldable pub sync_counter : Text → ℕ → ℕ → Client → Bool × Client
unfolding eval or_silently
sync_counter e remaining expected c =
    if c.enabled
    then or_silently false (
        eval (sync_script (event_counter_key e) (event_counter_version_key e) remaining expected) c)
    else (false, c)

-- The marker expires after REQUEST_SEEN_TTL_SECONDS, which is the server's to do.
unfoldable pub mark_request_seen : Text → Text → Text → Client → Client
unfolding eval or_silently
mark_request_seen b e r c =
    if c.enabled
    then (or_silently tt (eval (only (put (purchase_request_seen_key b e r) 1)) c)).1
    else c

abbrev exists : Text → Store → Bool × Store
exists key m = (is_some (m key), m)

unfoldable pub was_request_seen : Text → Text → Text → Client → Bool × Client
unfolding eval or_fail_open
was_request_seen b e r c =
    if c.enabled
    then or_fail_open was_request_seen_op true (eval (exists (purchase_request_seen_key b e r)) c)
    else (true, c)

unfoldable pub init_ticket_type_counter : Text → Text → ℕ → Client → Client
unfolding eval or_fail_open
init_ticket_type_counter e t n c =
    if c.enabled
    then (or_fail_open init_ticket_type_counter_op tt (
        eval
          (only
            (init_script (ticket_type_counter_key e t) (ticket_type_counter_revision_key e t) n))
          c)).1
    else c

unfoldable pub reserve_ticket_type : Text → Text → ℕ → Client → TicketTypeReserveResult × Client
unfolding eval or_fail_open
reserve_ticket_type e t n c =
    if c.enabled
    then or_fail_open reserve_ticket_type_op (record { outcome = unknown; revision = none })
        (eval
          (ticket_type_reserve_script (ticket_type_counter_key e t)
            (ticket_type_counter_revision_key e t) n)
          c)
    else (record { outcome = unknown; revision = none }, c)

abbrev done : (Store → Store) → Store → Bool × Store
done f m = (true, f m)

unfoldable pub release_ticket_type : Text → Text → ℕ → Client → Bool × Client
unfolding eval or_fail_open
release_ticket_type e t n c =
    if c.enabled
    then or_fail_open release_ticket_type_op false (
        eval
          (done
            (release_script (ticket_type_counter_key e t) (ticket_type_counter_revision_key e t) n))
          c)
    else (true, c)

unfoldable pub get_ticket_type_counter_revision : Text → Text → Client → Option ℕ × Client
unfolding eval or_fail_open
get_ticket_type_counter_revision e t c =
    if c.enabled
    then or_fail_open get_ticket_type_revision_op none
        (eval (read_version (ticket_type_counter_revision_key e t)) c)
    else (none, c)

unfoldable pub sync_ticket_type_counter : Text → Text → ℕ → ℕ → Client → Bool × Client
unfolding eval or_fail_open
sync_ticket_type_counter e t remaining expected c =
    if c.enabled
    then or_fail_open sync_ticket_type_counter_op false (
        eval
          (guarded_sync_script (ticket_type_counter_key e t) (ticket_type_counter_revision_key e t)
            remaining expected)
          c)
    else (false, c)
