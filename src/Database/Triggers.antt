-- ===== src/Database/Triggers.antt =====
-- src/database/migrations/1785542400000-add-ticket-type-compatibility-writer.ts: the fences and guards
-- in front of writes to the two inventory tables. `depth` is pg_trigger_depth(), `origin` the
-- setting ticket_c2c.inventory_mirror_origin, which a passed fence or guard may set.
use ticket_c2c_platform.Prelude.{
  ℕ, Bool, false, ◌&&◌, ◌||◌, not, Option, none, some, ◌==◌, if◌then◌else◌, Result, ok, err,
}
use ticket_c2c_platform.Database.{
  WriterMode, legacy, ticket_type, is_legacy, is_ticket_type, DbError, control_missing,
  inactive_writer, unexpected_nested,
}

-- TG_TABLE_NAME
pub data InventoryTable : Type 0 where
  event_table type_table : InventoryTable

abbrev active_in : InventoryTable → WriterMode → Bool
active_in event_table m = is_legacy m
active_in type_table m = is_ticket_type m

abbrev origin_is : WriterMode → Option WriterMode → Bool
origin_is m none = false
origin_is legacy (some o) = is_legacy o
origin_is ticket_type (some o) = is_ticket_type o

abbrev nested_allowed : InventoryTable → WriterMode → Option WriterMode → Bool
nested_allowed event_table m o = is_ticket_type m && origin_is ticket_type o
nested_allowed type_table m o =
    (is_legacy m && origin_is legacy o) || (is_ticket_type m && origin_is ticket_type o)

-- inventory_compatibility_fence_inventory_statement; the result is the origin from there on.
unfoldable pub fence_inventory_statement :
    InventoryTable → Option WriterMode → ℕ → Option WriterMode → Result DbError (Option WriterMode)
fence_inventory_statement table none depth origin = err control_missing
fence_inventory_statement table (some m) depth origin =
    if depth == 1
    then (if not (active_in table m) then err inactive_writer else ok (some m))
    else (if nested_allowed table m origin then ok origin else err unexpected_nested)

-- What a BEFORE ROW trigger returns: NEW or NULL.
pub data RowDecision : Type 0 where
  write skip : RowDecision

-- inventory_compatibility_guard_legacy_write
unfoldable pub guard_legacy_write :
    Option WriterMode → ℕ → Option WriterMode → Result DbError RowDecision
guard_legacy_write none depth origin = err control_missing
guard_legacy_write (some m) depth origin =
    if depth == 1
    then (if not (is_legacy m) then err inactive_writer else ok write)
    else (if is_ticket_type m && origin_is ticket_type origin
        then ok write
        else err unexpected_nested)

-- inventory_compatibility_guard_ticket_type_write
unfoldable pub guard_ticket_type_write :
    Option WriterMode → ℕ → Option WriterMode → Result DbError RowDecision
guard_ticket_type_write none depth origin = err control_missing
guard_ticket_type_write (some m) depth origin =
    if depth == 1
    then (if not (is_ticket_type m) then err inactive_writer else ok write)
    else if is_legacy m && origin_is legacy origin
    then ok write
    else if is_ticket_type m && origin_is ticket_type origin
    then ok skip
    else err unexpected_nested

-- The first lines of ticket_type_expand_sync_inventory: does the bridge return at once?
unfoldable pub forward_bridge_stops : ℕ → Option WriterMode → Bool
forward_bridge_stops depth origin =
    not (depth == 0) && not (depth == 1) && origin_is ticket_type origin

-- The first lines of inventory_compatibility_sync_ticket_type_to_legacy.
unfoldable pub reverse_mirror_stops : ℕ → Option WriterMode → Bool
reverse_mirror_stops depth origin = not (depth == 1) || not (origin_is ticket_type origin)
