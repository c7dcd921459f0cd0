-- ===== src/Purchases/Transaction/Decision.antt =====
-- When a new request is confirmed, and what its outcome says.
use ticket_c2c_platform.Prelude.{
  ℕ, ◌-◌, ◌≡◌, subst, sym, ap, ◌∙◌, true, ◌⊎◌, inl, inr, Option, none, some, Text, find_row,
  update_rows, ok, arith, is_some, sum_rows, some_inj,
}
use ticket_c2c_platform.Validation.{uuid}
use ticket_c2c_platform.Database.{
  WriterMode, legacy, ticket_type, Db, InventoryRow, TypeInventoryRow, of_event, HasKeys, confirmed,
  rejected, insufficient_inventory,
}
use ticket_c2c_platform.Database.Writes.{
  Taken, update_active_inventory, event_has, type_has, take_event, take_type, type_rest, type_total,
}
use ticket_c2c_platform.Database.Mirror.{
  missed, took, update_ticket_inventory-TakesEvent, update_ticket_type_inventory-TakesType,
  row_after_take, IsAggregate, update_ticket_type_inventory-IsAggregate,
}
use ticket_c2c_platform.Purchases.{PurchaseInput, PurchaseInventoryChange, Outcome, created}
use ticket_c2c_platform.Purchases.Transaction.{TxEnv, execute_purchase_transaction, change_of}
use ticket_c2c_platform.Purchases.Transaction.Created.{
  Created, create_purchase-Created, Concluded, conclude_purchase-Concluded,
}
use ticket_c2c_platform.Purchases.Transaction.Replay.{Ran, execute-Ran}

-- The answer to a confirmed request: what is left is announced, and the change with it.
pub record Confirms (o : Outcome) (left : ℕ) : Type 0 where
  pub status : o.result.status ≡ confirmed
  pub reason : o.result.rejection_reason ≡ none
  pub remaining : o.result.remaining_quantity ≡ some left
  pub change : is_some o.inventory_change ≡ true

pub record Rejects (o : Outcome) : Type 0 where
  pub status : o.result.status ≡ rejected
  pub reason : o.result.rejection_reason ≡ some insufficient_inventory
  pub remaining : o.result.remaining_quantity ≡ none
  pub change : o.inventory_change ≡ none

change_of-known :
    (t : Text) (row : InventoryRow) (k : Taken) {c : Option PurchaseInventoryChange}
    → change_of t row k ≡ ok c
    → k.row_count ≡ 1
    → is_some c ≡ true
unfolding change_of
change_of-known t row k {c} h one = ground arith

change_of-none :
    (t : Text) (row : InventoryRow) (k : Taken) {c : Option PurchaseInventoryChange}
    → change_of t row k ≡ ok c
    → k.row_count ≡ 0
    → c ≡ none
unfolding change_of
change_of-none t row k {c} h zero = ground arith

-- The outcome, from the row count of the UPDATE.
Created-Confirms :
    {new_id : Text} {mode : WriterMode} {i : PurchaseInput} {db d : Db} {o : Outcome}
    (c : Created new_id mode i db d o)
    → c.taken.row_count ≡ 1
    → Confirms o c.aggregate.remaining_quantity
Created-Confirms {d = d} {o = o} c one =
    let z = conclude_purchase-Concluded _ _ _ _ _ _ _ _ d o c.concluded in
    record {
      status = ground (arith, z.result);
      reason = ground (arith, z.result);
      remaining = ground (arith, z.result);
      change =
          ap is_some z.inventory_change
          ∙ change_of-known c.type_id c.aggregate c.taken c.changed one;
    }

Created-Rejects :
    {new_id : Text} {mode : WriterMode} {i : PurchaseInput} {db d : Db} {o : Outcome}
    (c : Created new_id mode i db d o)
    → c.taken.row_count ≡ 0
    → Rejects o
Created-Rejects {d = d} {o = o} c zero =
    let z = conclude_purchase-Concluded _ _ _ _ _ _ _ _ d o c.concluded in
    record {
      status = ground (arith, z.result);
      reason = ground (arith, z.result);
      remaining = ground (arith, z.result);
      change = z.inventory_change ∙ change_of-none c.type_id c.aggregate c.taken c.changed zero;
    }

-- Neither inventory table was changed.
pub record SameInventory (db d : Db) : Type 0 where
  pub events : d.ticket_inventory ≡ db.ticket_inventory
  pub types : d.ticket_type_inventory ≡ db.ticket_type_inventory

-- In legacy mode a new request is confirmed exactly when the event's row has the quantity; it is
-- then told what is left in the event's row afterwards, which is what it held less the quantity.
-- Otherwise the request is rejected, and neither inventory table changes.
pub decides_by_event :
    (env : TxEnv) (i : PurchaseInput) (db d : Db) (o : Outcome)
    → db.control ≡ some legacy
    → HasKeys (env.race db)
    → execute_purchase_transaction env i db ≡ (d, ok o)
    → o.disposition ≡ created
    → ((r : InventoryRow) × (find_row
            (event_has (uuid i.event_id) i.quantity)
            (env.race db).ticket_inventory
          ≡ some r)
        × Confirms o (r.remaining_quantity - i.quantity)
        × (find_row (of_event (uuid i.event_id)) d.ticket_inventory
            ≡ some (take_event i.quantity r)))
      ⊎ ((find_row (event_has (uuid i.event_id) i.quantity) (env.race db).ticket_inventory ≡ none)
          × Rejects o
          × SameInventory (env.race db) d)
unfolding update_active_inventory
decides_by_event env i db d o mode keys h new =
    elim (update_ticket_inventory-TakesEvent e q (env.race db) c.taken updated) [
      | missed none_found same ↦ inr (
        none_found,
        Created-Rejects c (ap (λ (k : Taken). k.row_count) same),
        record {
          events =
              ap (λ (x : Db). x.ticket_inventory) z.inserted
              ∙ ap (λ (k : Taken). k.db.ticket_inventory) same;
          types =
              ap (λ (x : Db). x.ticket_type_inventory) z.inserted
              ∙ ap (λ (k : Taken). k.db.ticket_type_inventory) same;
        },
      )
      | took r found one left keeps rows ↦ inl (
        r,
        found,
        subst (Confirms o) (ap (λ (x : InventoryRow). x.remaining_quantity) (after r found rows))
            (Created-Confirms c one),
        ap (λ (x : Db). find_row (of_event e) x.ticket_inventory) z.inserted
            ∙ c.found
            ∙ ap some (after r found rows),
      )
    ]
  where
    e : Text
    e = uuid i.event_id

    q : ℕ
    q = i.quantity

    ran : Ran env i db d o
    ran = execute-Ran env i db d o h new

    c : Created env.new_id ran.mode i (env.race db) d o
    c = create_purchase-Created env.new_id ran.mode i (env.race db) d o ran.ran

    z : Concluded env.new_id ran.mode i c.type_id c.taken c.active c.aggregate c.change d o
    z = conclude_purchase-Concluded _ _ _ _ _ _ _ _ d o c.concluded

    in_mode : ran.mode ≡ legacy
    in_mode = cc (mode, ran.read)

    updated : update_active_inventory legacy e c.type_id q (env.race db) ≡ ok c.taken
    updated =
        subst (λ m. update_active_inventory m e c.type_id q (env.race db) ≡ ok c.taken) in_mode
          c.updated

    after :
        (r : InventoryRow)
        → find_row (event_has e q) (env.race db).ticket_inventory ≡ some r
        → c.taken.db.ticket_inventory
          ≡ update_rows (event_has e q) (take_event q) (env.race db).ticket_inventory
        → c.aggregate ≡ take_event q r
    after r found rows =
        row_after_take e q (env.race db).ticket_inventory (keys.event_key e) found rows c.found

-- In ticket_type mode a new request is confirmed exactly when the row of its Ticket Type has the
-- quantity. That row is then the only one of ticket_type_inventory that changes, and gives the quantity;
-- the event's row, from which the request is told what is left, carries the sums over the event's
-- Types. Otherwise the request is rejected, and neither inventory table changes.
pub decides_by_type :
    (env : TxEnv) (i : PurchaseInput) (db d : Db) (o : Outcome)
    → db.control ≡ some ticket_type
    → execute_purchase_transaction env i db ≡ (d, ok o)
    → o.disposition ≡ created
    → (t : Text) × (o.resolved_ticket_type_id ≡ some t)
      × (((r : TypeInventoryRow) × (find_row
                (type_has (uuid i.event_id) t i.quantity)
                (env.race db).ticket_type_inventory
              ≡ some r)
            × Confirms o (sum_rows (type_rest (uuid i.event_id)) d.ticket_type_inventory)
            × (d.ticket_type_inventory
                ≡ update_rows
                    (type_has (uuid i.event_id) t i.quantity)
                    (take_type i.quantity)
                    (env.race db).ticket_type_inventory)
            × IsAggregate (uuid i.event_id) d)
          ⊎ ((find_row (type_has (uuid i.event_id) t i.quantity) (env.race db).ticket_type_inventory
                ≡ none)
              × Rejects o
              × SameInventory (env.race db) d))
unfolding update_active_inventory
decides_by_type env i db d o mode h new = (
  t,
  z.resolved_type,
  elim (update_ticket_type_inventory-TakesType e t q (env.race db) c.taken updated) [
    | missed none_found same ↦ inr (
      none_found,
      Created-Rejects c (ap (λ (k : Taken). k.row_count) same),
      record {
        events =
            ap (λ (x : Db). x.ticket_inventory) z.inserted
            ∙ ap (λ (k : Taken). k.db.ticket_inventory) same;
        types =
            ap (λ (x : Db). x.ticket_type_inventory) z.inserted
            ∙ ap (λ (k : Taken). k.db.ticket_type_inventory) same;
      },
    )
    | took r found one left keeps rows ↦ inl (
      r,
      found,
      subst (Confirms o) (told (sums one)) (Created-Confirms c one),
      types ∙ rows,
      moved (sums one),
    )
  ],
)
  where
    e : Text
    e = uuid i.event_id

    q : ℕ
    q = i.quantity

    ran : Ran env i db d o
    ran = execute-Ran env i db d o h new

    c : Created env.new_id ran.mode i (env.race db) d o
    c = create_purchase-Created env.new_id ran.mode i (env.race db) d o ran.ran

    t : Text
    t = c.type_id

    z : Concluded env.new_id ran.mode i c.type_id c.taken c.active c.aggregate c.change d o
    z = conclude_purchase-Concluded _ _ _ _ _ _ _ _ d o c.concluded

    in_mode : ran.mode ≡ ticket_type
    in_mode = cc (mode, ran.read)

    updated : update_active_inventory ticket_type e t q (env.race db) ≡ ok c.taken
    updated =
        subst (λ m. update_active_inventory m e t q (env.race db) ≡ ok c.taken) in_mode c.updated

    sums : c.taken.row_count ≡ 1 → IsAggregate e c.taken.db
    sums = update_ticket_type_inventory-IsAggregate e t q (env.race db) c.taken updated

    types : d.ticket_type_inventory ≡ c.taken.db.ticket_type_inventory
    types = ap (λ (x : Db). x.ticket_type_inventory) z.inserted

    told :
        IsAggregate e c.taken.db
        → c.aggregate.remaining_quantity ≡ sum_rows (type_rest e) d.ticket_type_inventory
    told a =
        ap (λ (x : InventoryRow). x.remaining_quantity) (some_inj (sym c.found ∙ a.found))
        ∙ a.remaining
        ∙ ap (sum_rows (type_rest e)) (sym types)

    moved : IsAggregate e c.taken.db → IsAggregate e d
    moved a = record {
      row = a.row;
      found = ap (λ (x : Db). find_row (of_event e) x.ticket_inventory) z.inserted ∙ a.found;
      total = a.total ∙ ap (sum_rows (type_total e)) (sym types);
      remaining = a.remaining ∙ ap (sum_rows (type_rest e)) (sym types);
    }
