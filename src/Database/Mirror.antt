-- ===== src/Database/Mirror.antt =====
-- What the writes of updateActiveInventory do to the two inventory tables, trigger mirrors included.
use ticket_c2c_platform.Prelude.{
  ℕ, ◌+◌, ◌-◌, ◌≤◌, ◌≡◌, refl, subst, sym, ap, ◌∙◌, find_row-key, find_row-update_if, some_inj,
  true, Option, none, some, List, Text, ◌=t◌, text_iff, if◌then◌else◌, find_row, update_rows,
  sum_rows, count_rows, find_row-true, find_row-append, find_row-update, text_refl, ok, arith,
  Option-cases, inl, inr,
}
use ticket_c2c_platform.Database.{
  WriterMode, ticket_type, Db, InventoryRow, TypeInventoryRow, of_event, event_left, type_left,
}
use ticket_c2c_platform.Database.Writes.{
  Taken, event_has, take_event, type_has, take_type, update_ticket_inventory,
  update_ticket_type_inventory, sync_legacy_to_ticket_type, with_placeholder, with_aggregate,
  placeholder, type_total, type_rest, sync_ticket_type_to_legacy,
}

-- The share of a purchase of `q` from `e` that falls on `e'`.
abbrev pub share : Text → Text → ℕ → ℕ
share e e' q = if e =t e' then q else 0

pub event_left-take :
    (e e' : Text) (q : ℕ) (r : InventoryRow)
    → event_has e q r ≡ true
    → event_left e' (take_event q r) + share e e' q ≡ event_left e' r
event_left-take e e' q r h = ground (arith, text_iff r.event_id e)

pub type_left-take :
    (e t t' : Text) (q : ℕ) (r : TypeInventoryRow)
    → type_has e t q r ≡ true
    → type_left t' (take_type q r) + share t t' q ≡ type_left t' r
type_left-take e t t' q r h = ground (arith, text_iff r.ticket_type_id t)

-- The tables that a mirror of ticket_inventory leaves alone, and those that a mirror of
-- ticket_type_inventory does.
pub record KeepsSales (a b : Db) : Type 0 where
  pub control : b.control ≡ a.control
  pub events : b.events ≡ a.events
  pub ticket_types : b.ticket_types ≡ a.ticket_types
  pub purchases : b.purchases ≡ a.purchases

sync_legacy-keeps :
    (o : Option WriterMode) (new : InventoryRow) (db d : Db)
    → sync_legacy_to_ticket_type 1 o new db ≡ ok d
    → KeepsSales db d × (d.ticket_inventory ≡ db.ticket_inventory)
unfolding sync_legacy_to_ticket_type
sync_legacy-keeps o new db d h = ground arith

sync_ticket_type-keeps :
    (o : Option WriterMode) (new : TypeInventoryRow) (db d : Db)
    → sync_ticket_type_to_legacy 1 o new db ≡ ok d
    → KeepsSales db d × (d.ticket_type_inventory ≡ db.ticket_type_inventory)
unfolding sync_ticket_type_to_legacy
sync_ticket_type-keeps o new db d h = ground arith

-- How an UPDATE of ticket_inventory went: no row matched and nothing changed, or one row gave `q`.
pub data TakesEvent (e : Text) (q : ℕ) (db : Db) (k : Taken) : Type 0 where
  missed :
      find_row (event_has e q) db.ticket_inventory ≡ none
      → k ≡ record { row_count = 0; remaining = none; db = db }
      → TakesEvent e q db k
  took :
      (r : InventoryRow)
      → find_row (event_has e q) db.ticket_inventory ≡ some r
      → k.row_count ≡ 1
      → k.remaining ≡ some (r.remaining_quantity - q)
      → KeepsSales db k.db
      → k.db.ticket_inventory ≡ update_rows (event_has e q) (take_event q) db.ticket_inventory
      → TakesEvent e q db k

pub update_ticket_inventory-TakesEvent :
    (e : Text) (q : ℕ) (db : Db) (k : Taken)
    → update_ticket_inventory e q db ≡ ok k
    → TakesEvent e q db k
unfolding update_ticket_inventory
update_ticket_inventory-TakesEvent e q db k h =
    elim (Option-cases (find_row (event_has e q) db.ticket_inventory)) [
      | inl none_found ↦ missed none_found (ground arith)
      | inr (r, found) ↦ took r found (ground arith) (ground arith) (ground arith) (ground arith)
    ]

-- How an UPDATE of ticket_type_inventory went.
pub data TakesType (e t : Text) (q : ℕ) (db : Db) (k : Taken) : Type 0 where
  missed :
      find_row (type_has e t q) db.ticket_type_inventory ≡ none
      → k ≡ record { row_count = 0; remaining = none; db = db }
      → TakesType e t q db k
  took :
      (r : TypeInventoryRow)
      → find_row (type_has e t q) db.ticket_type_inventory ≡ some r
      → k.row_count ≡ 1
      → k.remaining ≡ some (r.remaining_quantity - q)
      → KeepsSales db k.db
      → k.db.ticket_type_inventory
        ≡ update_rows (type_has e t q) (take_type q) db.ticket_type_inventory
      → TakesType e t q db k

pub update_ticket_type_inventory-TakesType :
    (e t : Text) (q : ℕ) (db : Db) (k : Taken)
    → update_ticket_type_inventory e t q db ≡ ok k
    → TakesType e t q db k
unfolding update_ticket_type_inventory
update_ticket_type_inventory-TakesType e t q db k h =
    elim (Option-cases (find_row (type_has e t q) db.ticket_type_inventory)) [
      | inl none_found ↦ missed none_found (ground arith)
      | inr (r, found) ↦ took r found (ground arith) (ground arith) (ground arith) (ground arith)
    ]

-- The row of an event carries the sums over the event's Ticket Types.
pub record IsAggregate (e : Text) (db : Db) : Type 0 where
  pub row : InventoryRow
  pub found : find_row (of_event e) db.ticket_inventory ≡ some row
  pub total : row.total_quantity ≡ sum_rows (type_total e) db.ticket_type_inventory
  pub remaining : row.remaining_quantity ≡ sum_rows (type_rest e) db.ticket_type_inventory

with_placeholder-found :
    (e : Text) (rows : List InventoryRow)
    → (x : InventoryRow) × (find_row (of_event e) (with_placeholder e rows) ≡ some x)
unfolding with_placeholder
with_placeholder-found e rows = elim (Option-cases (find_row (of_event e) rows)) [
  | inl miss ↦ (
    placeholder e,
    ground (arith, find_row-append (of_event e) rows (placeholder e), text_refl e),
  )
  | inr (x, hit) ↦ (x, ground arith)
]

pub sync_ticket_type-IsAggregate :
    (new : TypeInventoryRow) (db d : Db)
    → sync_ticket_type_to_legacy 1 (some ticket_type) new db ≡ ok d
    → IsAggregate new.event_id d
unfolding sync_ticket_type_to_legacy
sync_ticket_type-IsAggregate new db d h =
    let (x, hit) = with_placeholder-found e db.ticket_inventory in
    record {
      row = with_aggregate total remaining x;
      found = ground (
        arith,
        hit,
        find_row-update (of_event e) (with_aggregate total remaining)
            (with_placeholder e db.ticket_inventory) {a = x} (λ b. refl),
      );
      total = ground arith;
      remaining = ground arith;
    }
  where
    e : Text
    e = new.event_id

    total : ℕ
    total = sum_rows (type_total e) db.ticket_type_inventory

    remaining : ℕ
    remaining = sum_rows (type_rest e) db.ticket_type_inventory

abbrev taken_types : Text → Text → ℕ → Db → Db
taken_types e t q db = record db {
  ticket_type_inventory = update_rows (type_has e t q) (take_type q) db.ticket_type_inventory;
}

mirror_of_take :
    (e t : Text) (q : ℕ) (db : Db) (k : Taken) (r : TypeInventoryRow)
    → update_ticket_type_inventory e t q db ≡ ok k
    → find_row (type_has e t q) db.ticket_type_inventory ≡ some r
    → sync_ticket_type_to_legacy 1 (some ticket_type) (take_type q r) (taken_types e t q db)
      ≡ ok k.db
unfolding update_ticket_type_inventory
mirror_of_take e t q db k r h found = ground arith

type_has-event :
    (e t : Text) (q : ℕ) (r : TypeInventoryRow) → type_has e t q r ≡ true → r.event_id ≡ e
type_has-event e t q r h = ground (arith, text_iff r.event_id e)

-- After a Ticket Type gave `q`, its event's row carries the sums over all Types of the event.
pub update_ticket_type_inventory-IsAggregate :
    (e t : Text) (q : ℕ) (db : Db) (k : Taken)
    → update_ticket_type_inventory e t q db ≡ ok k
    → k.row_count ≡ 1
    → IsAggregate e k.db
update_ticket_type_inventory-IsAggregate e t q db k h one =
    elim (update_ticket_type_inventory-TakesType e t q db k h) [
      | missed _ z ↦ absurd (ground arith)
      | took r found _ _ _ _ ↦
          subst (λ x. IsAggregate x k.db)
            (type_has-event e t q r (find_row-true (type_has e t q) db.ticket_type_inventory found))
            (sync_ticket_type-IsAggregate (take_type q r) (taken_types e t q db) k.db
              (mirror_of_take e t q db k r h found))
    ]

-- The event's row after an UPDATE that found it.
pub row_after_take :
    (e : Text) (q : ℕ) (rows : List InventoryRow) {r x : InventoryRow} {rows' : List InventoryRow}
    → count_rows (of_event e) rows ≤ 1
    → find_row (event_has e q) rows ≡ some r
    → rows' ≡ update_rows (event_has e q) (take_event q) rows
    → find_row (of_event e) rows' ≡ some x
    → x ≡ take_event q r
row_after_take e q rows {r} {x} {rows'} key found updated here =
    some_inj (sym here ∙ ap (find_row (of_event e)) updated ∙ after)
  where
    after :
        find_row (of_event e) (update_rows (event_has e q) (take_event q) rows)
        ≡ some (take_event q r)
    after =
        find_row-update_if (of_event e) (event_has e q) (take_event q) rows (λ b. refl)
          (find_row-key (event_has e q) (of_event e) rows key (λ b p. ground arith) found)
          (find_row-true (event_has e q) rows found)
