-- ===== src/Purchases/Service/Compensation.antt =====
-- src/purchases/purchases.service.ts: createPurchaseTicketType, reconcileTicketTypeCounter and
-- compensateTicketTypeRelease on a Valkey that answers and that nobody else uses meanwhile.
use ticket_c2c_platform.Prelude.{
  ℕ, ◌+◌, ◌-◌, ◌≤◌, true, false, Option, some, List, [], Text, ◌=t◌, codes, text_refl, ◌≡◌, refl,
  arith, if◌then◌else◌, Result, ok, err, is_some, or_else, put, Result-cases, Bool-cases,
  Option-cases, ◌∙◌, text_append_eq, inl, inr,
}
use ticket_c2c_platform.Database.{confirmed, rejected, is_ticket_type}
use ticket_c2c_platform.Cache.Keys.{
  ticket_type_counter_key, ticket_type_counter_revision_key, purchase_request_seen_key,
}
use ticket_c2c_platform.Cache.Scripts.{
  Store, reserved, release_script, sync_script, guarded_sync_script, ticket_type_reserve_script,
}
use ticket_c2c_platform.Cache.Service.{
  Client, Operation, mark_request_seen, reserve_ticket_type, release_ticket_type,
  sync_ticket_type_counter,
}
use ticket_c2c_platform.Purchases.{PurchaseInput, Outcome, PurchaseError, created, replayed}
use ticket_c2c_platform.Purchases.Transaction.{TxEnv, execute_purchase_transaction}
use ticket_c2c_platform.Purchases.Resolver.{Scope}
use ticket_c2c_platform.Purchases.Service.{
  World, emit, on_cache, ask_cache, transact, emit_purchase_outcome_metrics,
  maybe_mark_request_seen, publish_purchase_domain_events, after_commit, transact_then,
  compensate_ticket_type_release, repair_confirmed, try_sync, is_scope_mismatch, prefilter_type,
  repair_rejected, reconcile_ticket_type_counter, undo_reservation, repair_scope,
  ticket_type_scope_mismatch, writer_mode_mismatch, create_purchase_ticket_type, admit_ticket_type,
}

-- The connection of a client that no fault and no other client disturbs.
abbrev pub quiet : Store → List Operation → Client
quiet m f = record { enabled = true; store = m; visits = []; fail_opens = f }

-- What the counter of type `t` should hold after an outcome, when `n` was left before a reservation
-- of `q`: a purchase of that type keeps the reservation, a rejection under the type's own writer
-- teaches the counter what the database has left, and anything else gives the reservation back.
unfoldable pub counter_after : Text → ℕ → ℕ → Result PurchaseError Outcome → ℕ
counter_after t n q (err e) = n
counter_after t n q (ok o) = elim o.disposition [
  | replayed ↦ n
  | created ↦ if is_scope_mismatch t o.resolved_ticket_type_id then n else elim o.result.status [
    | confirmed ↦ n - q
    | rejected ↦
        if is_ticket_type o.writer_mode_used then or_else o.ticket_type_remaining_quantity n else n
  ]
]

suffixes_differ : codes "}:revision" =t codes "}:remaining" ≡ false
unfolding ◌=t◌
suffixes_differ = refl

suffixes_differ' : codes "}:remaining" =t codes "}:revision" ≡ false
unfolding ◌=t◌
suffixes_differ' = refl

module _ (i : PurchaseInput) (t : Text) where
  abbrev counter : Text
  counter = ticket_type_counter_key i.event_id t

  abbrev revision : Text
  revision = ticket_type_counter_revision_key i.event_id t

  released :
      (m : Store) (f : List Operation) (w : World) (n : ℕ)
      → w.cache ≡ quiet m f
      → m counter ≡ some (n - i.quantity)
      → i.quantity ≤ n
      → revision =t counter ≡ false
      → (compensate_ticket_type_release i.event_id t i.quantity w).cache.store counter ≡ some n
  unfolding compensate_ticket_type_release ask_cache emit release_ticket_type release_script
  released m f w n calm left fits apart = ground (arith, text_refl counter)

  synced :
      (m : Store) (f : List Operation) (w : World) (n r : ℕ) (o : Outcome)
      → w.cache ≡ quiet m f
      → m counter ≡ some (n - i.quantity)
      → m revision ≡ some r
      → i.quantity ≤ n
      → revision =t counter ≡ false
      → (repair_rejected i t true (some r) o w).cache.store counter
        ≡ some (
            if is_ticket_type o.writer_mode_used
            then or_else o.ticket_type_remaining_quantity n
            else n)
  unfolding repair_rejected try_sync ask_cache sync_ticket_type_counter guarded_sync_script
      sync_script
  synced m f w n r o calm left at fits apart =
      ground (arith, text_refl counter, released m f w n calm left fits apart)

  scope_repaired :
      (m : Store) (f : List Operation) (w : World) (n r : ℕ) (b : Option ℕ) (o : Outcome)
      → w.cache ≡ quiet m f
      → m counter ≡ some (n - i.quantity)
      → m revision ≡ some r
      → i.quantity ≤ n
      → revision =t counter ≡ false
      → (repair_scope i t true (some r) b o w).cache.store counter
        ≡ some (counter_after t n i.quantity (ok o))
  unfolding repair_confirmed counter_after emit
  scope_repaired m f w n r b o calm left at fits apart = ground (
    arith,
    released m f w n calm left fits apart,
    released m f (emit ticket_type_scope_mismatch w) n calm left fits apart,
    synced m f w n r o calm left at fits apart,
  )

  reconciled :
      (m : Store) (f : List Operation) (w : World) (n r : ℕ) (b : Option ℕ) (o : Outcome)
      → w.cache ≡ quiet m f
      → m counter ≡ some (n - i.quantity)
      → m revision ≡ some r
      → i.quantity ≤ n
      → revision =t counter ≡ false
      → (reconcile_ticket_type_counter i (some t) true (some r) b o w).cache.store counter
        ≡ some (counter_after t n i.quantity (ok o))
  unfolding reconcile_ticket_type_counter emit
  reconciled m f w n r b o calm left at fits apart =
      elim (Bool-cases (is_ticket_type o.writer_mode_used)) [
        | inl e ↦ rw e (scope_repaired m f w n r b o calm left at fits apart)
        | inr e ↦
            rw e (scope_repaired m f (emit writer_mode_mismatch w) n r b o calm left at fits apart)
      ]

  seen-counter : (b r : Text) → purchase_request_seen_key b i.event_id r =t counter ≡ false
  unfolding purchase_request_seen_key ticket_type_counter_key ◌=t◌
  seen-counter b r = refl

  seen-revision : (b r : Text) → purchase_request_seen_key b i.event_id r =t revision ≡ false
  unfolding purchase_request_seen_key ticket_type_counter_revision_key ◌=t◌
  seen-revision b r = refl

  revision-counter : revision =t counter ≡ false
  unfolding ticket_type_counter_key ticket_type_counter_revision_key
  revision-counter =
      text_append_eq (codes "inventory:ticket-type:{") _ _
      ∙ text_append_eq i.event_id _ _
      ∙ text_append_eq (codes ":") _ _
      ∙ text_append_eq t _ _
      ∙ suffixes_differ

  counter-revision : counter =t revision ≡ false
  unfolding ticket_type_counter_key ticket_type_counter_revision_key
  counter-revision =
      text_append_eq (codes "inventory:ticket-type:{") _ _
      ∙ text_append_eq i.event_id _ _
      ∙ text_append_eq (codes ":") _ _
      ∙ text_append_eq t _ _
      ∙ suffixes_differ'

  -- The shape of the world after the metrics and the marker of the request.
  abbrev marked : Outcome → World → World
  marked o w = maybe_mark_request_seen i o.result (emit_purchase_outcome_metrics o w)

  marked-cache :
      (m : Store) (f : List Operation) (w : World) (o : Outcome)
      → w.cache ≡ quiet m f
      → (m' : Store) × ((marked o w).cache ≡ quiet m' f)
        × (m' counter ≡ m counter)
        × (m' revision ≡ m revision)
  unfolding maybe_mark_request_seen emit_purchase_outcome_metrics on_cache emit mark_request_seen
  marked-cache m f w o calm = elim (Option-cases i.request_id) [
    | inl none_given ↦ (m, ground arith, refl, refl)
    | inr (r, given) ↦ elim (Bool-cases (is_some o.result.purchase_id)) [
      | inl e ↦ (
        put (purchase_request_seen_key i.buyer_id i.event_id r) 1 m,
        ground arith,
        rw (seen-counter i.buyer_id r) refl,
        rw (seen-revision i.buyer_id r) refl,
      )
      | inr e ↦ (m, ground arith, refl, refl)
    ]
  ]

  after_commit-counter :
      (m : Store) (f : List Operation) (w : World) (n r : ℕ) (b : Option ℕ) (o : Outcome)
      → w.cache ≡ quiet m f
      → m counter ≡ some (n - i.quantity)
      → m revision ≡ some r
      → i.quantity ≤ n
      → (after_commit i (reconcile_ticket_type_counter i (some t) true (some r) b) o w).cache.store
          counter
        ≡ some (counter_after t n i.quantity (ok o))
  unfolding after_commit publish_purchase_domain_events
  after_commit-counter m f w n r b o calm left at fits =
      let (m', calm', same, same') = marked-cache m f w o calm in
      ground (
        arith,
        reconciled m' f (marked o w) n r b o calm' (same ∙ left) (same' ∙ at) fits revision-counter,
      )

  transact_then-counter :
      (env : TxEnv) (m : Store) (f : List Operation) (w : World) (n r : ℕ) (b : Option ℕ)
      → w.cache ≡ quiet m f
      → m counter ≡ some (n - i.quantity)
      → m revision ≡ some r
      → i.quantity ≤ n
      → (transact_then env i
            (undo_reservation i (some t) true)
            (reconcile_ticket_type_counter i (some t) true (some r) b)
            w).0.cache.store
          counter
        ≡ some (counter_after t n i.quantity (execute_purchase_transaction env i w.db).1)
  unfolding transact_then transact undo_reservation counter_after
  transact_then-counter env m f w n r b calm left at fits =
      elim (Result-cases (execute_purchase_transaction env i w.db).1) [
        | inl (e, h) ↦
            ground (arith, released m f (transact env i w).1 n calm left fits revision-counter)
        | inr (o, h) ↦
            ground (arith, after_commit-counter m f (transact env i w).1 n r b o calm left at fits)
      ]

  abbrev version_after : Store → ℕ
  version_after m = or_else (m revision) 0 + 1

  abbrev store_after : Store → ℕ → Store
  store_after m n = put revision (version_after m) (put counter (n - i.quantity) m)

  reserve_ticket_type-quiet :
      (m : Store) (f : List Operation) (c : Client) (n : ℕ)
      → c ≡ quiet m f
      → m counter ≡ some n
      → i.quantity ≤ n
      → reserve_ticket_type i.event_id t i.quantity c ≡ (
        record { outcome = reserved; revision = some (version_after m) },
        quiet (store_after m n) f,
      )
  unfolding reserve_ticket_type ticket_type_reserve_script
  reserve_ticket_type-quiet m f c n calm left fits =
      rw calm (rw left (ground (arith, counter-revision)))

-- With a Valkey that answers and a counter that covers the request, a request of the ticket_type
-- path leaves the counter of its type as `counter_after` says for the transaction's outcome:
-- every reservation is kept by a purchase, replaced by what the database has left, or given back.
pub create_purchase_ticket_type-settles :
    (env : TxEnv) (i : PurchaseInput) (scope : Scope) (t : Text) (m : Store) (f : List Operation)
    (w : World) (n : ℕ)
    → prefilter_type i scope ≡ some t
    → w.cache ≡ quiet m f
    → m (ticket_type_counter_key i.event_id t) ≡ some n
    → i.quantity ≤ n
    → (create_purchase_ticket_type env i scope w).0.cache.store
        (ticket_type_counter_key i.event_id t)
      ≡ some (counter_after t n i.quantity (execute_purchase_transaction env i w.db).1)
unfolding create_purchase_ticket_type admit_ticket_type ask_cache reserve_ticket_type
    ticket_type_reserve_script
create_purchase_ticket_type-settles env i scope t m f w n scoped calm left fits = rw scoped (
    rw (reserve_ticket_type-quiet i t m f w.cache n calm left fits) (
      transact_then-counter i t env (store_after i t m n) f _ n (version_after i t m) _ refl
        (ground (arith, revision-counter i t, text_refl (counter i t)))
        (rw (text_refl (revision i t)) refl) fits))
