-- ===== src/Purchases/Transaction/Created.antt =====
-- A new purchase taken apart: what each query of the transaction answered.
use ticket_c2c_platform.Prelude.{
  ℕ, ◌≡◌, Option, none, some, [], ◌∷◌, ◌++◌, Text, find_row, Result, ok, err, >>=-eq-ok, arith,
  if◌then◌else◌,
}
use ticket_c2c_platform.Validation.{uuid}
use ticket_c2c_platform.Database.{WriterMode, Db, DbError, InventoryRow, of_event, is_ticket_type}
use ticket_c2c_platform.Database.Writes.{Taken, update_active_inventory}
use ticket_c2c_platform.Purchases.{
  PurchaseInput, PurchaseInventoryChange, Outcome, PurchaseError, created,
  compatibility_inventory_not_configured,
}
use ticket_c2c_platform.Purchases.Transaction.{
  create_purchase, conclude_purchase, resolve_ticket_type, new_row, new_result, if_confirmed,
  status_of, lift_db, or_fail, change_of, active_remaining,
}

pub record Created (new_id : Text) (mode : WriterMode) (i : PurchaseInput) (db d : Db) (o : Outcome)
    : Type 0 where
  pub type_id : Text
  pub taken : Taken
  pub active : ℕ
  pub aggregate : InventoryRow
  pub change : Option PurchaseInventoryChange
  pub resolved : resolve_ticket_type mode i db ≡ ok type_id
  pub updated : update_active_inventory mode (uuid i.event_id) type_id i.quantity db ≡ ok taken
  pub active_read : active_remaining mode (uuid i.event_id) type_id taken ≡ ok active
  pub found : find_row (of_event (uuid i.event_id)) taken.db.ticket_inventory ≡ some aggregate
  pub changed : change_of type_id aggregate taken ≡ ok change
  pub concluded : conclude_purchase new_id mode i type_id taken active aggregate change ≡ ok (d, o)

lift_db-ok : {A : Type 0} (r : Result DbError A) {a : A} → lift_db r ≡ ok a → r ≡ ok a
unfolding lift_db
lift_db-ok (ok b) h = cc
lift_db-ok (err e) h = cc

or_fail-ok :
    {A : Type 0} (o : Option A) (e : PurchaseError) {a : A} → or_fail o e ≡ ok a → o ≡ some a
unfolding or_fail
or_fail-ok none e h = cc
or_fail-ok (some b) e h = cc

pub create_purchase-Created :
    (new_id : Text) (mode : WriterMode) (i : PurchaseInput) (db d : Db) (o : Outcome)
    → create_purchase new_id mode i db ≡ ok (d, o)
    → Created new_id mode i db d o
unfolding create_purchase
create_purchase-Created new_id mode i db d o h =
    let (t, et, h₁) = >>=-eq-ok (resolve_ticket_type mode i db) _ h in
    let (k, ek, h₂) = >>=-eq-ok (lift_db (update_active_inventory mode e t i.quantity db)) _ h₁ in
    let (active, ea, h₃) = >>=-eq-ok (active_remaining mode e t k) _ h₂ in
    let (row, er, h₄) =
      >>=-eq-ok
        (or_fail (find_row (of_event e) k.db.ticket_inventory)
          compatibility_inventory_not_configured)
        _ h₃ in
    let (change, ec, h₅) = >>=-eq-ok (change_of t row k) _ h₄ in
    record {
      type_id = t;
      taken = k;
      active = active;
      aggregate = row;
      change = change;
      resolved = et;
      updated = lift_db-ok _ ek;
      active_read = ea;
      found = or_fail-ok _ _ er;
      changed = ec;
      concluded = h₅;
    }
  where
    e : Text
    e = uuid i.event_id

-- What the INSERT and the outcome carry, whatever the queries answered.
pub record Concluded (new_id : Text) (mode : WriterMode) (i : PurchaseInput) (t : Text) (k : Taken)
    (active : ℕ) (row : InventoryRow) (change : Option PurchaseInventoryChange) (d : Db)
    (o : Outcome) : Type 0 where
  pub inserted : d ≡ record (k.db) {
    purchases =
        k.db.purchases
        ++ new_row new_id i t
            (status_of k)
            (if_confirmed (status_of k) (some row.remaining_quantity) none)
          ∷ [];
  }
  pub result :
      o.result
      ≡ new_result new_id i
          (status_of k)
          (if_confirmed (status_of k) (some row.remaining_quantity) none)
  pub disposition : o.disposition ≡ created
  pub inventory_change : o.inventory_change ≡ change
  pub compatibility : o.compatibility_remaining_quantity ≡ some row.remaining_quantity
  pub resolved_type : o.resolved_ticket_type_id ≡ some t
  pub type_remaining :
      o.ticket_type_remaining_quantity ≡ (if is_ticket_type mode then some active else none)
  pub mode_used : o.writer_mode_used ≡ mode

pub conclude_purchase-Concluded :
    (new_id : Text) (mode : WriterMode) (i : PurchaseInput) (t : Text) (k : Taken) (active : ℕ)
    (row : InventoryRow) (change : Option PurchaseInventoryChange) (d : Db) (o : Outcome)
    → conclude_purchase new_id mode i t k active row change ≡ ok (d, o)
    → Concluded new_id mode i t k active row change d o
unfolding conclude_purchase
conclude_purchase-Concluded new_id mode i t k active row change d o h = ground arith
