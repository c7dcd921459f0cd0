-- ===== src/Purchases/Service/Authority.antt =====
-- src/purchases/purchases.service.ts: createPurchase against the transaction alone.
use ticket_c2c_platform.Prelude.{
  ℕ, Bool, Option, none, some, Text, if◌then◌else◌, ◌≡◌, arith, refl, ◌&&◌, not, is_some, inl, inr,
  Result-cases, Result, ok, err,
}
use ticket_c2c_platform.Database.{Db}
use ticket_c2c_platform.Cache.Scripts.{ReserveOutcome, reserved, sold_out, unknown}
use ticket_c2c_platform.Purchases.{PurchaseInput, Outcome, PurchaseError}
use ticket_c2c_platform.Purchases.Transaction.{TxEnv, execute_purchase_transaction}
use ticket_c2c_platform.Purchases.Resolver.{Scope, PrefilterPlan, legacy_plan, ticket_type_plan}
use ticket_c2c_platform.Purchases.Service.{
  World, Answer, emit, on_cache, ask_cache, transact, emit_purchase_outcome_metrics,
  maybe_mark_request_seen, publish_purchase_domain_events, sold_out_answer, is_sold_out, turn_away,
  admit_legacy, admit_ticket_type, after_commit, transact_then, create_purchase_db_only,
  create_purchase_legacy, compensate_ticket_type_release, repair_confirmed, try_sync,
  repair_rejected, reconcile_ticket_type_counter, undo_reservation, create_purchase_ticket_type,
  create_purchase, prefilter_bypass,
}

abbrev pub answer_of : Result PurchaseError Outcome → Answer
answer_of (err e) = err e
answer_of (ok o) = ok o.result

-- The answer is the transaction's, or the prefilter turned a request without an id away.
pub data IsAuthorized (env : TxEnv) (i : PurchaseInput) (db : Db) (r : World × Answer)
    : Type 0 where
  by_database :
      r.0.db ≡ (execute_purchase_transaction env i db).0
      → r.1 ≡ answer_of (execute_purchase_transaction env i db).1
      → IsAuthorized env i db r
  turned_away :
      i.request_id ≡ none → r.0.db ≡ db → r.1 ≡ ok (sold_out_answer i) → IsAuthorized env i db r

compensate-db :
    (e t : Text) (n : ℕ) (w : World) → (compensate_ticket_type_release e t n w).db ≡ w.db
unfolding compensate_ticket_type_release ask_cache emit
compensate-db e t n w = ground arith

undo-db :
    (i : PurchaseInput) (p : Option Text) (g : Bool) (w : World)
    → (undo_reservation i p g w).db ≡ w.db
unfolding undo_reservation
undo-db i p g w = ground (arith, λ (t : Text). compensate-db i.event_id t i.quantity w)

reconcile-db :
    (i : PurchaseInput) (p : Option Text) (g : Bool) (r b : Option ℕ) (o : Outcome) (w : World)
    → (reconcile_ticket_type_counter i p g r b o w).db ≡ w.db
unfolding reconcile_ticket_type_counter repair_confirmed repair_rejected try_sync
    compensate_ticket_type_release ask_cache emit
reconcile-db i p g r b o w = ground arith

after_commit-db :
    (i : PurchaseInput) (repair : Outcome → World → World) (o : Outcome) (w : World)
    → ((v : World) → (repair o v).db ≡ v.db)
    → (after_commit i repair o w).db ≡ w.db
unfolding after_commit emit_purchase_outcome_metrics maybe_mark_request_seen
    publish_purchase_domain_events emit on_cache
after_commit-db i repair o w h =
    ground (arith, h (maybe_mark_request_seen i o.result (emit_purchase_outcome_metrics o w)))

transact_then-IsAuthorized :
    (env : TxEnv) (i : PurchaseInput) (undo : World → World) (repair : Outcome → World → World)
    (w : World)
    → ((v : World) → (undo v).db ≡ v.db)
    → ((o : Outcome) (v : World) → (repair o v).db ≡ v.db)
    → IsAuthorized env i w.db (transact_then env i undo repair w)
unfolding transact_then transact
transact_then-IsAuthorized env i undo repair w undone repaired =
    elim (Result-cases (execute_purchase_transaction env i w.db).1) [
      | inl (e, h) ↦ by_database (ground (arith, undone (transact env i w).1)) (ground arith)
      | inr (o, h) ↦
          by_database (ground (arith, after_commit-db i repair o (transact env i w).1 (repaired o)))
            (ground arith)
    ]

create_purchase_db_only-IsAuthorized :
    (env : TxEnv) (i : PurchaseInput) (w : World)
    → IsAuthorized env i w.db (create_purchase_db_only env i w)
unfolding create_purchase_db_only
create_purchase_db_only-IsAuthorized env i w =
    transact_then-IsAuthorized env i (λ v. v) (λ o v. v) w (λ v. refl) (λ o v. refl)

turn_away-IsAuthorized :
    (env : TxEnv) (i : PurchaseInput) (w : World) (b : World × Answer) (out : ReserveOutcome)
    (r : Option Text)
    → i.request_id ≡ r
    → IsAuthorized env i w.db b
    → IsAuthorized env i w.db (if is_sold_out out && not (is_some r) then turn_away i w else b)
unfolding turn_away emit
turn_away-IsAuthorized env i w b sold_out none h later = turned_away h refl refl
turn_away-IsAuthorized env i w b sold_out (some r) h later = later
turn_away-IsAuthorized env i w b reserved r h later = later
turn_away-IsAuthorized env i w b unknown r h later = later

admit_legacy-IsAuthorized :
    (env : TxEnv) (i : PurchaseInput) (out : ReserveOutcome) (w : World)
    → IsAuthorized env i w.db (admit_legacy env i out w)
unfolding admit_legacy ask_cache on_cache emit
admit_legacy-IsAuthorized env i sold_out w =
    transact_then-IsAuthorized env i _ _ _ (λ v. refl) (λ o v. refl)
admit_legacy-IsAuthorized env i reserved w =
    transact_then-IsAuthorized env i _ _ _ (λ v. refl) (λ o v. refl)
admit_legacy-IsAuthorized env i unknown w =
    transact_then-IsAuthorized env i _ _ _ (λ v. refl) (λ o v. refl)

admit_ticket_type-IsAuthorized :
    (env : TxEnv) (i : PurchaseInput) (p : Option Text) (out : ReserveOutcome) (r : Option ℕ)
    (w : World)
    → IsAuthorized env i w.db (admit_ticket_type env i p out r w)
unfolding admit_ticket_type ask_cache emit
admit_ticket_type-IsAuthorized env i p sold_out r w =
    transact_then-IsAuthorized env i _ _ _ (undo-db i p _) (reconcile-db i p _ r _)
admit_ticket_type-IsAuthorized env i p reserved r w =
    transact_then-IsAuthorized env i _ _ _ (undo-db i p _) (reconcile-db i p _ r _)
admit_ticket_type-IsAuthorized env i p unknown r w =
    transact_then-IsAuthorized env i _ _ _ (undo-db i p _) (reconcile-db i p _ r _)

create_purchase_legacy-IsAuthorized :
    (env : TxEnv) (i : PurchaseInput) (w : World)
    → IsAuthorized env i w.db (create_purchase_legacy env i w)
unfolding create_purchase_legacy ask_cache
create_purchase_legacy-IsAuthorized env i w =
    turn_away-IsAuthorized env i _ _ _ i.request_id refl (admit_legacy-IsAuthorized env i _ _)

create_purchase_ticket_type-IsAuthorized :
    (env : TxEnv) (i : PurchaseInput) (scope : Scope) (w : World)
    → IsAuthorized env i w.db (create_purchase_ticket_type env i scope w)
unfolding create_purchase_ticket_type ask_cache
create_purchase_ticket_type-IsAuthorized env i scope w =
    turn_away-IsAuthorized env i _ _ _ i.request_id refl
      (admit_ticket_type-IsAuthorized env i _ _ _ _)

-- For every state of Valkey, every fault and interleaving of its calls and every plan of the
-- resolver, a purchase request leaves the database as the transaction alone would and gets that
-- transaction's answer; only a request without an id may be turned away, and then the database is
-- untouched.
pub create_purchase-IsAuthorized :
    (env : TxEnv) (plan : Option PrefilterPlan) (i : PurchaseInput) (w : World)
    → IsAuthorized env i w.db (create_purchase env plan i w)
unfolding create_purchase emit
create_purchase-IsAuthorized env none i w =
    create_purchase_db_only-IsAuthorized env i (emit prefilter_bypass w)
create_purchase-IsAuthorized env (some legacy_plan) i w =
    create_purchase_legacy-IsAuthorized env i w
create_purchase-IsAuthorized env (some (ticket_type_plan scope)) i w =
    create_purchase_ticket_type-IsAuthorized env i scope w
