-- ===== src/Purchases/Transaction/Replay.antt =====
-- A request id that is sent again.
use ticket_c2c_platform.Prelude.{
  ℕ, ◌≡◌, ◌≢◌, refl, subst, sym, ◌∙◌, Bool, true, false, inl, inr, Option, none, some, Text, ◌=t◌,
  find_row, Result, ok, err, arith, Option-cases, text_iff, text_refl, find_row-append,
  find_row-true,
}
use ticket_c2c_platform.Validation.{uuid}
use ticket_c2c_platform.Database.{
  WriterMode, legacy, ticket_type, Db, PurchaseRow, InventoryRow, read_inventory_writer_mode,
}
use ticket_c2c_platform.Database.Writes.{Taken}
use ticket_c2c_platform.Purchases.{
  PurchaseInput, PurchaseInventoryChange, Outcome, PurchaseError, created, replayed,
  payload_conflict,
}
use ticket_c2c_platform.Purchases.Transaction.{
  TxEnv, commits, create_purchase, conclude_purchase, transaction_body,
  execute_purchase_transaction, resolve_ticket_type, replay_outcome, find_existing_purchase,
  contains, has_request, selected_type, settle, finish, recover, mode_or_legacy, same_payload,
  to_purchase_result,
}
use ticket_c2c_platform.Purchases.Transaction.Created.{
  Created, create_purchase-Created, Concluded, conclude_purchase-Concluded,
}
use ticket_c2c_platform.Purchases.Transaction.Conservation.{row_of}

-- The row of a concluded request is the one that its request id finds from then on.
conclude-finds :
    (new_id : Text) (mode : WriterMode) (i : PurchaseInput) (t : Text) (k : Taken) (active : ℕ)
    (row : InventoryRow) (change : Option PurchaseInventoryChange) (d : Db) (o : Outcome) (r : Text)
    → i.request_id ≡ some r
    → conclude_purchase new_id mode i t k active row change ≡ ok (d, o)
    → find_existing_purchase i d ≡ some (row_of new_id i t k row)
unfolding conclude_purchase find_existing_purchase
conclude-finds new_id mode i t k active row change d o r asked h = ground (
  arith,
  find_row-append (has_request (uuid i.buyer_id) (uuid i.event_id) r) k.db.purchases
      (row_of new_id i t k row),
  text_refl (uuid i.buyer_id),
  text_refl (uuid i.event_id),
  text_refl r,
)

-- The Ticket Type of the input, if it names one, in the form that PostgreSQL stores.
abbrev pub HasStoredType : PurchaseInput → Type 0
HasStoredType i = elim i.ticket_type_id [ none ↦ Unit {0} | some k ↦ uuid k ≡ k ]

abbrev names_type : Option Text → Text → Bool
names_type none t = true
names_type (some k) t = t =t k

-- In ticket_type mode a named type resolves to its stored form.
resolve-uuid :
    (i : PurchaseInput) (db : Db) (t k : Text)
    → resolve_ticket_type ticket_type i db ≡ ok t
    → i.ticket_type_id ≡ some k
    → t ≡ uuid k
unfolding resolve_ticket_type
resolve-uuid i db t k h named =
    elim (Option-cases (find_row (selected_type (uuid i.event_id) (uuid k)) db.ticket_types)) [
      | inl miss ↦ absurd (ground arith)
      | inr (x, hit) ↦ ground (
        arith,
        text_iff x.id (uuid k),
        find_row-true (selected_type (uuid i.event_id) (uuid k)) db.ticket_types hit,
      )
    ]

resolve_legacy-names :
    (i : PurchaseInput) (db : Db) (t k : Text)
    → resolve_ticket_type legacy i db ≡ ok t
    → i.ticket_type_id ≡ some k
    → t ≡ k
unfolding resolve_ticket_type
resolve_legacy-names i db t k h named = ground (arith, text_iff k t)

resolve-names :
    (mode : WriterMode) (i : PurchaseInput) (db : Db) (t : Text)
    → resolve_ticket_type mode i db ≡ ok t
    → HasStoredType i
    → names_type i.ticket_type_id t ≡ true
resolve-names mode i db t h stored = elim (Option-cases i.ticket_type_id) [
  | inl absent ↦ rw absent refl
  | inr (k, named) ↦ rw named (in_mode mode h k named)
]
  where
    in_mode :
        (m : WriterMode)
        → resolve_ticket_type m i db ≡ ok t
        → (k : Text) → i.ticket_type_id ≡ some k
        → t =t k ≡ true
    in_mode legacy e k named = (text_iff t k).1 (resolve_legacy-names i db t k e named)
    in_mode ticket_type e k named =
        (text_iff t k).1 (resolve-uuid i db t k e named ∙ rw named at stored)

-- The row of a request repeats the payload of its input.
row_of-same_payload :
    (new_id : Text) (i : PurchaseInput) (t : Text) (k : Taken) (row : InventoryRow)
    → names_type i.ticket_type_id t ≡ true
    → same_payload (row_of new_id i t k row) i ≡ true
unfolding same_payload
row_of-same_payload new_id i t k row h = ground arith

replay_outcome-replayed :
    (p : PurchaseRow) (i : PurchaseInput) (m : WriterMode) (o : Outcome)
    → replay_outcome p i m ≡ ok o
    → o.disposition ≡ replayed
unfolding replay_outcome
replay_outcome-replayed p i m o h = ground arith

-- The run of create_purchase behind a created outcome.
pub record Ran (env : TxEnv) (i : PurchaseInput) (db d : Db) (o : Outcome) : Type 0 where
  pub mode : WriterMode
  pub read : db.control ≡ some mode
  pub fresh : find_existing_purchase i db ≡ none
  pub ran : create_purchase env.new_id mode i (env.race db) ≡ ok (d, o)

body-Ran :
    (env : TxEnv) (i : PurchaseInput) (db d : Db) (o : Outcome)
    → transaction_body env i db ≡ ok (d, o)
    → o.disposition ≡ created
    → Ran env i db d o
unfolding transaction_body read_inventory_writer_mode
body-Ran env i db d o h new = elim (Option-cases db.control) [
  | inl no_mode ↦ absurd (ground arith)
  | inr (m, mode) ↦ elim (Option-cases (find_existing_purchase i db)) [
    | inl fresh ↦ record { mode = m; read = mode; fresh = fresh; ran = ground arith }
    | inr (p, seen) ↦ absurd (ground (arith, replay_outcome-replayed p i m o))
  ]
]

recover-not_created :
    (env : TxEnv) (i : PurchaseInput) (m : WriterMode) (d : Db) (e : PurchaseError) (o : Outcome)
    → recover env i m d e ≡ ok o
    → o.disposition ≡ replayed
unfolding recover
recover-not_created env i m d e o h = elim (Option-cases (find_existing_purchase i d)) [
  | inl miss ↦ absurd (ground arith)
  | inr (p, hit) ↦ ground (arith, replay_outcome-replayed p i m o)
]

settle-Ran :
    (env : TxEnv) (i : PurchaseInput) (db d : Db) (o : Outcome)
    (r : Result PurchaseError (Db × Outcome))
    → transaction_body env i db ≡ r
    → settle env i db r ≡ (d, ok o)
    → o.disposition ≡ created
    → Ran env i db d o
unfolding settle finish
settle-Ran env i db d o (ok (d₁, o₁)) body h new = body-Ran env i db d o (body ∙ same) new
  where
    same : ◌≡◌ {A = Result PurchaseError (Db × Outcome)} (ok (d₁, o₁)) (ok (d, o))
    same = ground arith
settle-Ran env i db d o (err e) body h new =
    absurd (ground (arith, recover-not_created env i (mode_or_legacy db.control) (env.race db) e o))

pub execute-Ran :
    (env : TxEnv) (i : PurchaseInput) (db d : Db) (o : Outcome)
    → execute_purchase_transaction env i db ≡ (d, ok o)
    → o.disposition ≡ created
    → Ran env i db d o
unfolding execute_purchase_transaction
execute-Ran env i db d o h new = settle-Ran env i db d o (transaction_body env i db) refl h new

-- A later state in which the request id still finds what it found in `d`.
pub record Remembers (i : PurchaseInput) (d later : Db) : Type 0 where
  pub mode : WriterMode
  pub control : later.control ≡ some mode
  pub event : contains (uuid i.event_id) later.events ≡ true
  pub purchase : find_existing_purchase i later ≡ find_existing_purchase i d

-- A request that was answered with a new row, sent again with the same payload, gets the same
-- result (its ids as PostgreSQL stores them), whatever happened to the inventory since; nothing is
-- written and no inventory change is announced. The input names its Ticket Type, if at all, in the
-- stored form, and the second COMMIT goes through.
pub repeat_is_replayed :
    (env again : TxEnv) (i : PurchaseInput) (db d later : Db) (o : Outcome) (r : Text)
    → execute_purchase_transaction env i db ≡ (d, ok o)
    → o.disposition ≡ created
    → i.request_id ≡ some r
    → HasStoredType i
    → Remembers i d later
    → again.fate ≡ commits
    → (o' : Outcome) × (execute_purchase_transaction again i later ≡ (again.race later, ok o'))
      × (o'.disposition ≡ replayed)
      × (o'.result ≡ record (o.result) { event_id = uuid i.event_id; buyer_id = uuid i.buyer_id })
      × (o'.inventory_change ≡ none)
unfolding execute_purchase_transaction transaction_body settle finish replay_outcome
    to_purchase_result read_inventory_writer_mode
repeat_is_replayed env again i db d later o r h new asked stored kept fate =
    (answer, ground (arith, found, payload), refl, ground (arith, z.result), refl)
  where
    ran : Ran env i db d o
    ran = execute-Ran env i db d o h new

    c : Created env.new_id ran.mode i (env.race db) d o
    c = create_purchase-Created env.new_id ran.mode i (env.race db) d o ran.ran

    z : Concluded env.new_id ran.mode i c.type_id c.taken c.active c.aggregate c.change d o
    z = conclude_purchase-Concluded _ _ _ _ _ _ _ _ d o c.concluded

    row : PurchaseRow
    row = row_of env.new_id i c.type_id c.taken c.aggregate

    found : find_existing_purchase i later ≡ some row
    found = kept.purchase ∙ conclude-finds _ _ _ _ _ _ _ _ d o r asked c.concluded

    payload : same_payload row i ≡ true
    payload =
        row_of-same_payload env.new_id i c.type_id c.taken c.aggregate
          (resolve-names ran.mode i (env.race db) c.type_id c.resolved stored)

    answer : Outcome
    answer = record {
      result = to_purchase_result row;
      disposition = replayed;
      inventory_change = none;
      compatibility_remaining_quantity = none;
      resolved_ticket_type_id = some c.type_id;
      ticket_type_remaining_quantity = none;
      writer_mode_used = kept.mode;
    }

other_quantity-payload :
    (new_id : Text) (i : PurchaseInput) (t : Text) (k : Taken) (row : InventoryRow) (q : ℕ)
    → q ≢ i.quantity
    → same_payload (row_of new_id i t k row) (record i { quantity = q }) ≡ false
unfolding same_payload
other_quantity-payload new_id i t k row q h = ground arith

other_type-payload :
    (new_id : Text) (i : PurchaseInput) (t : Text) (k : Taken) (row : InventoryRow) (named : Text)
    → i.ticket_type_id ≡ some named
    → t ≢ named
    → same_payload (row_of new_id i t k row) i ≡ false
unfolding same_payload
other_type-payload new_id i t k row named e h = ground (arith, text_iff t named)

-- A request id whose row does not carry the payload is answered with 409, and nothing is written.
conflicts :
    (again : TxEnv) (i : PurchaseInput) (d later : Db) (p : PurchaseRow)
    → Remembers i d later
    → find_existing_purchase i d ≡ some p
    → same_payload p i ≡ false
    → execute_purchase_transaction again i later ≡ (again.race later, err payload_conflict)
unfolding execute_purchase_transaction transaction_body settle recover replay_outcome
    read_inventory_writer_mode
conflicts again i d later p kept found other =
    ground (arith, kept.purchase, kept.control, kept.event)

-- The request id of an answered purchase, sent again with another quantity, is a conflict: the
-- answer is 409, and nothing is written.
pub other_quantity_conflicts :
    (env again : TxEnv) (i : PurchaseInput) (db d later : Db) (o : Outcome) (r : Text) (q : ℕ)
    → execute_purchase_transaction env i db ≡ (d, ok o)
    → o.disposition ≡ created
    → i.request_id ≡ some r
    → Remembers i d later
    → q ≢ i.quantity
    → execute_purchase_transaction again (record i { quantity = q }) later
      ≡ (again.race later, err payload_conflict)
unfolding find_existing_purchase
other_quantity_conflicts env again i db d later o r q h new asked kept other =
    let ran = execute-Ran env i db d o h new in
    let c = create_purchase-Created env.new_id ran.mode i (env.race db) d o ran.ran in
    conflicts again (record i { quantity = q }) d later _
      (record {
        mode = kept.mode;
        control = kept.control;
        event = kept.event;
        purchase = kept.purchase;
      })
      (conclude-finds _ _ _ _ _ _ _ _ d o r asked c.concluded)
      (other_quantity-payload env.new_id i c.type_id c.taken c.aggregate q other)

-- In ticket_type mode, a purchase that names its Ticket Type by a UUID which is not in the form
-- that PostgreSQL stores (one with an upper-case digit) is accepted, and then conflicts with its
-- own repetition: the same payload under the same request id is answered with 409.
pub unstored_type_conflicts :
    (env again : TxEnv) (i : PurchaseInput) (db d later : Db) (o : Outcome) (r k : Text)
    → db.control ≡ some ticket_type
    → execute_purchase_transaction env i db ≡ (d, ok o)
    → o.disposition ≡ created
    → i.request_id ≡ some r
    → i.ticket_type_id ≡ some k
    → uuid k ≢ k
    → Remembers i d later
    → execute_purchase_transaction again i later ≡ (again.race later, err payload_conflict)
unstored_type_conflicts env again i db d later o r k mode h new asked named unstored kept =
    conflicts again i d later _ kept (conclude-finds _ _ _ _ _ _ _ _ d o r asked c.concluded) (
      other_type-payload env.new_id i c.type_id c.taken c.aggregate k named
        (λ same. unstored (sym (resolve-uuid i (env.race db) c.type_id k resolved named) ∙ same)))
  where
    ran : Ran env i db d o
    ran = execute-Ran env i db d o h new

    c : Created env.new_id ran.mode i (env.race db) d o
    c = create_purchase-Created env.new_id ran.mode i (env.race db) d o ran.ran

    in_mode : ran.mode ≡ ticket_type
    in_mode = cc (mode, ran.read)

    resolved : resolve_ticket_type ticket_type i (env.race db) ≡ ok c.type_id
    resolved = subst (λ m. resolve_ticket_type m i (env.race db) ≡ ok c.type_id) in_mode c.resolved
