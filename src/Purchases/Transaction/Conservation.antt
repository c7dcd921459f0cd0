-- ===== src/Purchases/Transaction/Conservation.antt =====
-- No ticket is sold twice and none is lost: what is left and what confirmed purchases took.
use ticket_c2c_platform.Prelude.{
  ℕ, ◌+◌, ◌≡◌, refl, subst, sym, ap, ◌⊎◌, inl, inr, none, some, [], ◌∷◌, ◌++◌, Text, sum_rows,
  Result, ok, err, arith, Option-cases, sum_rows-append, sum_rows-update_one,
}
use ticket_c2c_platform.Validation.{uuid}
use ticket_c2c_platform.Database.{
  WriterMode, legacy, ticket_type, Db, PurchaseRow, InventoryRow, of_event, of_type, HasKeys,
  event_remaining, event_sold, type_remaining, type_sold, event_left, type_left, event_sale,
  type_sale, read_inventory_writer_mode,
}
use ticket_c2c_platform.Database.Writes.{
  Taken, update_active_inventory, event_has, type_has, take_event, take_type,
}
use ticket_c2c_platform.Database.Mirror.{
  missed, took, update_ticket_inventory-TakesEvent, update_ticket_type_inventory-TakesType, share,
  event_left-take, type_left-take,
}
use ticket_c2c_platform.Purchases.{PurchaseInput, Outcome, PurchaseError}
use ticket_c2c_platform.Purchases.Transaction.{
  TxEnv, CommitFate, commits, lost_before_commit, reply_lost, finish, settle, create_purchase,
  transaction_body, execute_purchase_transaction, new_row, status_of, if_confirmed,
  find_existing_purchase,
}
use ticket_c2c_platform.Purchases.Transaction.Created.{
  Created, create_purchase-Created, Concluded, conclude_purchase-Concluded,
}

-- The state after a transaction is the state without it, or the one that a new purchase leaves.
pub data Leaves (env : TxEnv) (i : PurchaseInput) (db d : Db) : Type 0 where
  untouched : d ≡ env.race db → Leaves env i db d
  wrote :
      (m : WriterMode) (o : Outcome)
      → db.control ≡ some m
      → find_existing_purchase i db ≡ none
      → create_purchase env.new_id m i (env.race db) ≡ ok (d, o)
      → Leaves env i db d

body-Leaves :
    (env : TxEnv) (i : PurchaseInput) (db d : Db) (o : Outcome)
    → transaction_body env i db ≡ ok (d, o)
    → Leaves env i db d
unfolding transaction_body read_inventory_writer_mode
body-Leaves env i db d o h = elim (Option-cases db.control) [
  | inl no_mode ↦ absurd (ground arith)
  | inr (m, mode) ↦ elim (Option-cases (find_existing_purchase i db)) [
    | inl fresh ↦ wrote m o mode fresh (ground arith)
    | inr (p, seen) ↦ untouched (ground arith)
  ]
]

finish-db :
    (f : CommitFate) (d d' : Db) (o : Outcome)
    → ((finish f d (d', o)).0 ≡ d') ⊎ ((finish f d (d', o)).0 ≡ d)
unfolding finish
finish-db commits d d' o = inl refl
finish-db lost_before_commit d d' o = inr refl
finish-db reply_lost d d' o = inl refl

settle-Leaves :
    (env : TxEnv) (i : PurchaseInput) (db : Db) (r : Result PurchaseError (Db × Outcome))
    → transaction_body env i db ≡ r
    → Leaves env i db (settle env i db r).0
unfolding settle
settle-Leaves env i db (err x) e = untouched refl
settle-Leaves env i db (ok (d, o)) e = elim (finish-db env.fate (env.race db) d o) [
  | inl p ↦ subst (Leaves env i db) (sym p) (body-Leaves env i db d o e)
  | inr p ↦ untouched p
]

pub execute-Leaves :
    (env : TxEnv) (i : PurchaseInput) (db : Db)
    → Leaves env i db (execute_purchase_transaction env i db).0
unfolding execute_purchase_transaction
execute-Leaves env i db = settle-Leaves env i db (transaction_body env i db) refl

abbrev pub row_of : Text → PurchaseInput → Text → Taken → InventoryRow → PurchaseRow
row_of new_id i t k row =
    new_row new_id i t (status_of k) (if_confirmed (status_of k) (some row.remaining_quantity) none)

-- A new row adds its quantity to the sales of its event and of its type, if it is confirmed.
event_sale-row_of :
    (e new_id : Text) (i : PurchaseInput) (t : Text) (k : Taken) (row : InventoryRow)
    → k.row_count ≡ 1
    → event_sale e (row_of new_id i t k row) ≡ share (uuid i.event_id) e i.quantity
event_sale-row_of e new_id i t k row one = ground arith

type_sale-row_of :
    (u new_id : Text) (i : PurchaseInput) (t : Text) (k : Taken) (row : InventoryRow)
    → k.row_count ≡ 1
    → type_sale u (row_of new_id i t k row) ≡ share t u i.quantity
type_sale-row_of u new_id i t k row one = ground arith

-- A rejected row adds nothing.
no_sale-row_of :
    (e new_id : Text) (i : PurchaseInput) (t : Text) (k : Taken) (row : InventoryRow)
    → k.row_count ≡ 0
    → (event_sale e (row_of new_id i t k row) ≡ 0) × (type_sale e (row_of new_id i t k row) ≡ 0)
no_sale-row_of e new_id i t k row zero = (ground arith, ground arith)

create-event :
    (new_id : Text) (i : PurchaseInput) (db d : Db) (o : Outcome) (e : Text)
    → HasKeys db
    → create_purchase new_id legacy i db ≡ ok (d, o)
    → event_remaining e d + event_sold e d ≡ event_remaining e db + event_sold e db
unfolding update_active_inventory
create-event new_id i db d o e keys h =
    elim (update_ticket_inventory-TakesEvent x q db k c.updated) [
      | missed none_found same ↦ omega (
        arith,
        inserted,
        ap (event_remaining e) z.inserted,
        appended,
        ap (λ (j : Taken). event_remaining e j.db) same,
        ap (λ (j : Taken). event_sold e j.db) same,
        (no_sale-row_of e new_id i c.type_id k c.aggregate
            (ap (λ (j : Taken). j.row_count) same)).0,
      )
      | took r found one left keeps rows ↦ omega (
        arith,
        inserted,
        ap (event_remaining e) z.inserted,
        appended,
        ap (sum_rows (event_left e)) rows,
        ap (sum_rows (event_sale e)) keeps.purchases,
        event_sale-row_of e new_id i c.type_id k c.aggregate one,
        sum_rows-update_one (event_has x q) (of_event x) (take_event q) (event_left e) (share x e q)
            db.ticket_inventory (keys.event_key x) (λ a p. ground arith) found
            (event_left-take x e q),
      )
    ]
  where
    x : Text
    x = uuid i.event_id

    q : ℕ
    q = i.quantity

    c : Created new_id legacy i db d o
    c = create_purchase-Created new_id legacy i db d o h

    k : Taken
    k = c.taken

    z : Concluded new_id legacy i c.type_id k c.active c.aggregate c.change d o
    z = conclude_purchase-Concluded _ _ _ _ _ _ _ _ d o c.concluded

    inserted :
        event_sold e d
        ≡ sum_rows (event_sale e) (k.db.purchases ++ row_of new_id i c.type_id k c.aggregate ∷ [])
    inserted = ap (event_sold e) z.inserted

    appended :
        sum_rows (event_sale e) (k.db.purchases ++ row_of new_id i c.type_id k c.aggregate ∷ [])
        ≡ event_sold e k.db + event_sale e (row_of new_id i c.type_id k c.aggregate)
    appended = sum_rows-append (event_sale e) k.db.purchases _

create-type :
    (new_id : Text) (i : PurchaseInput) (db d : Db) (o : Outcome) (u : Text)
    → HasKeys db
    → create_purchase new_id ticket_type i db ≡ ok (d, o)
    → type_remaining u d + type_sold u d ≡ type_remaining u db + type_sold u db
unfolding update_active_inventory
create-type new_id i db d o u keys h =
    elim (update_ticket_type_inventory-TakesType (uuid i.event_id) t q db k c.updated) [
      | missed none_found same ↦ omega (
        arith,
        inserted,
        ap (type_remaining u) z.inserted,
        appended,
        ap (λ (j : Taken). type_remaining u j.db) same,
        ap (λ (j : Taken). type_sold u j.db) same,
        (no_sale-row_of u new_id i t k c.aggregate (ap (λ (j : Taken). j.row_count) same)).1,
      )
      | took r found one left keeps rows ↦ omega (
        arith,
        inserted,
        ap (type_remaining u) z.inserted,
        appended,
        ap (sum_rows (type_left u)) rows,
        ap (sum_rows (type_sale u)) keeps.purchases,
        type_sale-row_of u new_id i t k c.aggregate one,
        sum_rows-update_one (type_has (uuid i.event_id) t q) (of_type t) (take_type q) (type_left u)
            (share t u q) db.ticket_type_inventory (keys.type_key t) (λ a p. ground arith) found
            (type_left-take (uuid i.event_id) t u q),
      )
    ]
  where
    q : ℕ
    q = i.quantity

    c : Created new_id ticket_type i db d o
    c = create_purchase-Created new_id ticket_type i db d o h

    t : Text
    t = c.type_id

    k : Taken
    k = c.taken

    z : Concluded new_id ticket_type i t k c.active c.aggregate c.change d o
    z = conclude_purchase-Concluded _ _ _ _ _ _ _ _ d o c.concluded

    inserted :
        type_sold u d
        ≡ sum_rows (type_sale u) (k.db.purchases ++ row_of new_id i t k c.aggregate ∷ [])
    inserted = ap (type_sold u) z.inserted

    appended :
        sum_rows (type_sale u) (k.db.purchases ++ row_of new_id i t k c.aggregate ∷ [])
        ≡ type_sold u k.db + type_sale u (row_of new_id i t k c.aggregate)
    appended = sum_rows-append (type_sale u) k.db.purchases _

-- In legacy mode a transaction, however it ends and whatever others commit meanwhile, keeps for
-- every event the sum of what is left and what confirmed purchases took.
pub execute-conserves_event :
    (env : TxEnv) (i : PurchaseInput) (db : Db) (e : Text)
    → db.control ≡ some legacy
    → HasKeys (env.race db)
    → event_remaining e (execute_purchase_transaction env i db).0
        + event_sold e (execute_purchase_transaction env i db).0
      ≡ event_remaining e (env.race db) + event_sold e (env.race db)
execute-conserves_event env i db e mode keys = elim (execute-Leaves env i db) [
  | untouched same ↦ ap (λ (d : Db). event_remaining e d + event_sold e d) same
  | wrote legacy o _ _ h ↦ create-event env.new_id i (env.race db) _ o e keys h
  | wrote ticket_type o other _ h ↦ absurd (ground arith)
]

-- In ticket_type mode a transaction, however it ends and whatever others commit meanwhile, keeps for
-- every Ticket Type the sum of what is left and what confirmed purchases took.
pub execute-conserves_type :
    (env : TxEnv) (i : PurchaseInput) (db : Db) (t : Text)
    → db.control ≡ some ticket_type
    → HasKeys (env.race db)
    → type_remaining t (execute_purchase_transaction env i db).0
        + type_sold t (execute_purchase_transaction env i db).0
      ≡ type_remaining t (env.race db) + type_sold t (env.race db)
execute-conserves_type env i db t mode keys = elim (execute-Leaves env i db) [
  | untouched same ↦ ap (λ (d : Db). type_remaining t d + type_sold t d) same
  | wrote ticket_type o _ _ h ↦ create-type env.new_id i (env.race db) _ o t keys h
  | wrote legacy o other _ h ↦ absurd (ground arith)
]
