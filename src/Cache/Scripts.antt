-- ===== src/Cache/Scripts.antt =====
-- The Lua scripts of src/cache/inventory-cache.scripts.ts and src/cache/inventory-cache.service.ts. A store
-- maps keys to numbers: every value that these scripts write is a decimal number, compared by
-- `==` on its text exactly when it is on the number.
pub mod Commands
pub mod Compare
use ticket_c2c_platform.Prelude.{
  ℕ, ◌+◌, ◌-◌, Bool, true, false, Option, none, some, Text, ltb, ◌==◌, is_some, or_else, Map, put,
  if◌then◌else◌,
}

abbrev pub Store : Type 0
Store = Map ℕ

-- INCR, which takes a missing key for 0
abbrev pub incr : Text → Store → Store
incr k m = put k (or_else (m k) 0 + 1) m

-- INIT_SCRIPT and TICKET_TYPE_INIT_SCRIPT
unfoldable pub init_script : Text → Text → ℕ → Store → Store
init_script counter version n m = incr version (put counter n m)

pub data ReserveOutcome : Type 0 where
  reserved sold_out unknown : ReserveOutcome

pub record TicketTypeReserveResult : Type 0 where
  pub outcome : ReserveOutcome
  pub revision : Option ℕ

-- RESERVE_SCRIPT
unfoldable pub reserve_script : Text → Text → ℕ → Store → ReserveOutcome × Store
reserve_script counter version n m = elim (m counter) [
  | none ↦ (unknown, m)
  | some current ↦
      if ltb current n
      then (sold_out, m)
      else (reserved, incr version (put counter (current - n) m))
]

-- TICKET_TYPE_RESERVE_SCRIPT, which answers with the revision too
unfoldable pub ticket_type_reserve_script :
    Text → Text → ℕ → Store → TicketTypeReserveResult × Store
ticket_type_reserve_script counter revision n m = elim (m counter) [
  | none ↦ (record { outcome = unknown; revision = none }, m)
  | some current ↦ if ltb current n then (record { outcome = sold_out; revision = none }, m) else (
    record { outcome = reserved; revision = some (or_else (m revision) 0 + 1) },
    incr revision (put counter (current - n) m),
  )
]

-- RELEASE_SCRIPT and TICKET_TYPE_RELEASE_SCRIPT
unfoldable pub release_script : Text → Text → ℕ → Store → Store
release_script counter version n m = elim (m counter) [
  | none ↦ m
  | some current ↦ incr version (put counter (current + n) m)
]

-- SYNC_SCRIPT; the answer is whether it is 'synced'
unfoldable pub sync_script : Text → Text → ℕ → ℕ → Store → Bool × Store
sync_script counter version remaining expected m =
    if or_else (m version) 0 == expected
    then (true, incr version (put counter remaining m))
    else (false, m)

-- TICKET_TYPE_SYNC_SCRIPT and CLI_LEGACY_GUARDED_SYNC_SCRIPT, which never create a counter
unfoldable pub guarded_sync_script : Text → Text → ℕ → ℕ → Store → Bool × Store
unfolding sync_script
guarded_sync_script counter version remaining expected m =
    if is_some (m counter) then sync_script counter version remaining expected m else (false, m)
