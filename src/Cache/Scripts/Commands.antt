-- ===== src/Cache/Scripts/Commands.antt =====
-- Commands that the clients of one store run, in the order in which Valkey runs them: the calls of
-- src/cache/inventory-cache.service.ts that change it, by the counter that they are about.
use ticket_c2c_platform.Prelude.{ℕ, Bool, Option, List, [], ◌∷◌, Text, or_else, put}
use ticket_c2c_platform.Cache.Keys.{
  purchase_request_seen_key, event_counter_key, event_counter_version_key, ticket_type_counter_key,
  ticket_type_counter_revision_key,
}
use ticket_c2c_platform.Cache.Keys.Distinct.{
  Counter, of_event, of_type, counter_key, version_key, HasUuids,
}
use ticket_c2c_platform.Cache.Scripts.{
  Store, init_script, reserve_script, ticket_type_reserve_script, release_script, sync_script,
  guarded_sync_script,
}

-- A command that some client of the store runs: a script on a counter, or a request marker.
pub data Command : Type 0 where
  inits reserves releases : Counter → ℕ → Command
  syncs : Counter → ℕ → ℕ → Command
  marks : Text → Text → Text → Command

-- Every id that names a counter is a UUID.
abbrev pub IsSane : Command → Type 0
IsSane (inits c n) = HasUuids c
IsSane (reserves c n) = HasUuids c
IsSane (releases c n) = HasUuids c
IsSane (syncs c n v) = HasUuids c
IsSane (marks b e r) = Unit {0}

-- reserve or reserveTicketType
unfoldable pub reserve_on : Counter → ℕ → Store → Store
unfolding reserve_script ticket_type_reserve_script
reserve_on (of_event e) n m =
    (reserve_script (event_counter_key e) (event_counter_version_key e) n m).1
reserve_on (of_type e t) n m =
    (ticket_type_reserve_script (ticket_type_counter_key e t) (ticket_type_counter_revision_key e t)
      n m).1

-- syncCounter or syncTicketTypeCounter
unfoldable pub sync_on : Counter → ℕ → ℕ → Store → Bool × Store
sync_on (of_event e) n v m = sync_script (event_counter_key e) (event_counter_version_key e) n v m
sync_on (of_type e t) n v m =
    guarded_sync_script (ticket_type_counter_key e t) (ticket_type_counter_revision_key e t) n v m

unfoldable pub run_command : Command → Store → Store
unfolding init_script release_script reserve_on sync_on sync_script guarded_sync_script
run_command (inits c n) m = init_script (counter_key c) (version_key c) n m
run_command (reserves c n) m = reserve_on c n m
run_command (releases c n) m = release_script (counter_key c) (version_key c) n m
run_command (syncs c n v) m = (sync_on c n v m).1
run_command (marks b e r) m = put (purchase_request_seen_key b e r) 1 m

unfoldable pub run_commands : List Command → Store → Store
run_commands [] m = m
run_commands (x ∷ xs) m = run_commands xs (run_command x m)

abbrev pub AllSane : List Command → Type 0
AllSane [] = Unit {0}
AllSane (x ∷ xs) = IsSane x × AllSane xs

-- getCounterVersion, getTicketTypeCounterRevision
abbrev pub version_of : Counter → Store → ℕ
version_of c m = or_else (m (version_key c)) 0

abbrev pub value_of : Counter → Store → Option ℕ
value_of c m = m (counter_key c)
