-- ===== src/Purchases/Service.antt =====
-- src/purchases/purchases.service.ts: PurchasesService.createPurchase, which puts the Valkey
-- prefilter before the transaction and the counters' repair, the metrics and the domain events
-- after it. The answer of the resolver is an argument: `none` stands for its exception, and any plan
-- may be given, also a stale one.
pub mod Authority
pub mod Compensation
use ticket_c2c_platform.Prelude.{
  ℕ, Bool, true, false, Option, none, some, List, [], ◌∷◌, Text, ◌=t◌, ◌&&◌, not, is_some,
  if◌then◌else◌, Result, ok, err,
}
use ticket_c2c_platform.Json.{Json}
use ticket_c2c_platform.Database.{
  WriterMode, Db, confirmed, rejected, RejectionReason, sold_out_precheck, is_ticket_type,
}
use ticket_c2c_platform.Cache.Scripts.{
  ReserveOutcome, reserved, sold_out, unknown, TicketTypeReserveResult,
}
use ticket_c2c_platform.Cache.Service.{
  Client, reserve, release, get_counter_version, sync_counter, mark_request_seen,
  reserve_ticket_type, release_ticket_type, get_ticket_type_counter_revision,
  sync_ticket_type_counter,
}
use ticket_c2c_platform.Messaging.InventoryEvent.{
  Payload, Snapshot, build_versioned_inventory_changed_detail,
}
use ticket_c2c_platform.Purchases.{
  PurchaseInput, PurchaseResult, PurchaseInventoryChange, created, replayed, Outcome, PurchaseError,
}
use ticket_c2c_platform.Purchases.Input.{parse_purchase_input}
use ticket_c2c_platform.Purchases.Resolver.{
  Scope, PrefilterPlan, single, multi, legacy_plan, ticket_type_plan,
}
use ticket_c2c_platform.Purchases.Transaction.{TxEnv, execute_purchase_transaction}

-- The calls of emitMetric
pub data Metric : Type 0 where
  prefilter_bypass purchase_confirmed purchase_rejected_persisted : Metric
  purchase_sold_out_to_postgres writer_mode_mismatch ticket_type_scope_mismatch : Metric
  compensation_failure : Metric
  purchase_rejected : Option RejectionReason → Metric

-- The calls of DomainEventsService.publish, which never throws.
pub data DomainEvent : Type 0 where
  ticket_purchased : Text → Option Text → ℕ → Option ℕ → DomainEvent
  inventory_changed : Payload → DomainEvent

-- What the service acts on; the newest metric and event stand first.
pub record World : Type 0 where
  pub cache : Client
  pub db : Db
  pub metrics : List Metric
  pub published : List DomainEvent

abbrev pub Answer : Type 0
Answer = Result PurchaseError PurchaseResult

unfoldable pub emit : Metric → World → World
emit m w = record w { metrics = m ∷ w.metrics }

unfoldable pub on_cache : (Client → Client) → World → World
on_cache f w = record w { cache = f w.cache }

unfoldable pub ask_cache : {A : Type 0} → (Client → A × Client) → World → A × World
ask_cache f w = let (a, c) = f w.cache in (a, record w { cache = c })

unfoldable pub transact : TxEnv → PurchaseInput → World → Result PurchaseError Outcome × World
transact env i w = let (d, r) = execute_purchase_transaction env i w.db in (r, record w { db = d })

unfoldable pub emit_purchase_outcome_metrics : Outcome → World → World
unfolding emit
emit_purchase_outcome_metrics o w = elim o.result.status [
  | confirmed ↦ emit purchase_confirmed w
  | rejected ↦
      let w = emit (purchase_rejected o.result.rejection_reason) w in
      elim o.disposition [ created ↦ emit purchase_rejected_persisted w | replayed ↦ w ]
]

unfoldable pub maybe_mark_request_seen : PurchaseInput → PurchaseResult → World → World
unfolding on_cache
maybe_mark_request_seen i r w = elim i.request_id [
  | none ↦ w
  | some k ↦
      if is_some r.purchase_id then on_cache (mark_request_seen i.buyer_id i.event_id k) w else w
]

abbrev pub snapshot_of : Text → PurchaseInventoryChange → Snapshot
snapshot_of e c = record {
  event_id = e;
  ticket_type_id = c.ticket_type_id;
  ticket_type_name = c.ticket_type_name;
  ticket_type_total_quantity = c.ticket_type_total_quantity;
  ticket_type_remaining_quantity = c.ticket_type_remaining_quantity;
  inventory_version = c.inventory_version;
  event_total_quantity = c.event_total_quantity;
  event_remaining_quantity = c.event_remaining_quantity;
  event_inventory_version = c.event_inventory_version;
}

-- The two calls of publish for a purchase that changed the inventory
abbrev pub announce : PurchaseResult → PurchaseInventoryChange → World → World
announce r c w = record w {
  published =
      inventory_changed (build_versioned_inventory_changed_detail (snapshot_of r.event_id c))
      ∷ ticket_purchased r.event_id r.purchase_id r.quantity r.remaining_quantity
      ∷ w.published;
}

unfoldable pub publish_purchase_domain_events : Outcome → World → World
publish_purchase_domain_events o w = elim o.result.status [
  | rejected ↦ w
  | confirmed ↦ elim o.disposition [
    | replayed ↦ w
    | created ↦ elim o.inventory_change [ none ↦ w | some c ↦ announce o.result c w ]
  ]
]

abbrev pub sold_out_answer : PurchaseInput → PurchaseResult
sold_out_answer i = record {
  purchase_id = none;
  event_id = i.event_id;
  buyer_id = i.buyer_id;
  quantity = i.quantity;
  status = rejected;
  rejection_reason = some sold_out_precheck;
  remaining_quantity = none;
}

abbrev pub is_sold_out : ReserveOutcome → Bool
is_sold_out sold_out = true
is_sold_out _ = false

-- `gate === 'reserved'`
abbrev pub is_reserved : ReserveOutcome → Bool
is_reserved reserved = true
is_reserved _ = false

-- The part that the three paths share after COMMIT, and the repair of the counters that differs.
unfoldable pub after_commit : PurchaseInput → (Outcome → World → World) → Outcome → World → World
unfolding emit_purchase_outcome_metrics maybe_mark_request_seen publish_purchase_domain_events
after_commit i repair o w =
    publish_purchase_domain_events o
      (repair o (maybe_mark_request_seen i o.result (emit_purchase_outcome_metrics o w)))

-- The transaction, what a thrown exception makes of the reservation, and the rest of the path.
unfoldable pub transact_then :
    TxEnv → PurchaseInput → (World → World) → (Outcome → World → World) → World → World × Answer
unfolding transact
transact_then env i undo repair w =
    let (r, w) = transact env i w in
    elim r [ err e ↦ (undo w, err e) | ok o ↦ (after_commit i repair o w, ok o.result) ]

unfoldable pub create_purchase_db_only : TxEnv → PurchaseInput → World → World × Answer
create_purchase_db_only env i w = transact_then env i (λ w. w) (λ o w. w) w

-- `counterVersion !== null && (await syncCounter(…))`
abbrev pub sync_counter_if : PurchaseInput → Option ℕ → ℕ → Client → Bool × Client
sync_counter_if i none left c = (false, c)
sync_counter_if i (some v) left c = sync_counter i.event_id left v c

-- The chain of conditions after the transaction of createPurchaseLegacy
unfoldable pub repair_event_counter : PurchaseInput → Bool → Option ℕ → Outcome → Client → Client
repair_event_counter i gate version o c = elim o.disposition [
  | replayed ↦ if gate then release i.event_id i.quantity c else c
  | created ↦ elim o.compatibility_remaining_quantity [
    | none ↦ c
    | some left ↦ elim o.result.status [
      | confirmed ↦
          if gate
          then c
          else elim version [ none ↦ c | some v ↦ (sync_counter i.event_id left v c).1 ]
      | rejected ↦
          if gate
          then (let (synced, c) = sync_counter_if i version left c in
              if synced then c else release i.event_id i.quantity c)
          else c
    ]
  ]
]

-- createPurchaseLegacy from the metric of a sold-out request that goes on to PostgreSQL
unfoldable pub admit_legacy : TxEnv → PurchaseInput → ReserveOutcome → World → World × Answer
unfolding ask_cache on_cache emit
admit_legacy env i outcome w =
    let w = if is_sold_out outcome then emit purchase_sold_out_to_postgres w else w in
    let gate = is_reserved outcome in
    let (version, w) = ask_cache (get_counter_version i.event_id) w in
    transact_then env i (λ w. if gate then on_cache (release i.event_id i.quantity) w else w)
      (λ o. on_cache (repair_event_counter i gate version o)) w

unfoldable pub turn_away : PurchaseInput → World → World × Answer
unfolding emit
turn_away i w = (emit (purchase_rejected (some sold_out_precheck)) w, ok (sold_out_answer i))

unfoldable pub create_purchase_legacy : TxEnv → PurchaseInput → World → World × Answer
unfolding ask_cache turn_away
create_purchase_legacy env i w =
    let (outcome, w) = ask_cache (reserve i.event_id i.quantity) w in
    if is_sold_out outcome && not (is_some i.request_id)
    then turn_away i w
    else admit_legacy env i outcome w

-- compensateTicketTypeRelease
unfoldable pub compensate_ticket_type_release : Text → Text → ℕ → World → World
unfolding ask_cache emit
compensate_ticket_type_release e t n w =
    let (released, w) = ask_cache (release_ticket_type e t n) w in
    if released then w else emit compensation_failure w

-- `scopeMismatch`, with a type that the prefilter did resolve
abbrev pub is_scope_mismatch : Text → Option Text → Bool
is_scope_mismatch t none = false
is_scope_mismatch t (some u) = not (t =t u)

-- The confirmed end of reconcileTicketTypeCounter
unfoldable pub repair_confirmed : PurchaseInput → Text → Bool → Option ℕ → Outcome → World → World
unfolding ask_cache
repair_confirmed i t gate before o w =
    if gate
    then w
    else if is_ticket_type o.writer_mode_used
    then elim o.ticket_type_remaining_quantity [
      | none ↦ w
      | some left ↦ elim before [
        | none ↦ w
        | some v ↦ (ask_cache (sync_ticket_type_counter i.event_id t left v) w).1
      ]
    ]
    else w

-- `canCasSync && (await syncTicketTypeCounter(…))`
unfoldable pub try_sync : PurchaseInput → Text → Option ℕ → Outcome → World → Bool × World
unfolding ask_cache
try_sync i t revision o w =
    if is_ticket_type o.writer_mode_used
    then elim o.ticket_type_remaining_quantity [
      | none ↦ (false, w)
      | some left ↦ elim revision [
        | none ↦ (false, w)
        | some v ↦ ask_cache (sync_ticket_type_counter i.event_id t left v) w
      ]
    ]
    else (false, w)

-- The rejected end of reconcileTicketTypeCounter
unfoldable pub repair_rejected : PurchaseInput → Text → Bool → Option ℕ → Outcome → World → World
unfolding try_sync
repair_rejected i t gate revision o w =
    if gate
    then (let (synced, w) = try_sync i t revision o w in
        if synced then w else compensate_ticket_type_release i.event_id t i.quantity w)
    else w

abbrev pub compensate_if : Bool → PurchaseInput → Text → World → World
compensate_if gate i t w =
    if gate then compensate_ticket_type_release i.event_id t i.quantity w else w

abbrev pub repair_scope :
    PurchaseInput → Text → Bool → Option ℕ → Option ℕ → Outcome → World → World
repair_scope i t gate revision before o w = elim o.disposition [
  | replayed ↦ compensate_if gate i t w
  | created ↦
      if is_scope_mismatch t o.resolved_ticket_type_id
      then compensate_if gate i t (emit ticket_type_scope_mismatch w)
      else elim o.result.status [
        | confirmed ↦ repair_confirmed i t gate before o w
        | rejected ↦ repair_rejected i t gate revision o w
      ]
]

unfoldable pub reconcile_ticket_type_counter :
    PurchaseInput → Option Text → Bool → Option ℕ → Option ℕ → Outcome → World → World
unfolding emit
reconcile_ticket_type_counter i prefilter gate revision before o w =
    let w = if is_ticket_type o.writer_mode_used then w else emit writer_mode_mismatch w in
    elim prefilter [ none ↦ w | some t ↦ repair_scope i t gate revision before o w ]

unfoldable pub prefilter_type : PurchaseInput → Scope → Option Text
prefilter_type i scope = elim i.ticket_type_id [
  | some t ↦ some t
  | none ↦ elim scope [ single t ↦ some t | multi ↦ none ]
]

abbrev pub reserve_scope : PurchaseInput → Option Text → Client → TicketTypeReserveResult × Client
reserve_scope i none c = (record { outcome = unknown; revision = none }, c)
reserve_scope i (some t) c = reserve_ticket_type i.event_id t i.quantity c

-- The revision is read before the transaction, and only without a reservation.
abbrev pub revision_before : PurchaseInput → Option Text → Bool → Client → Option ℕ × Client
revision_before i none gate c = (none, c)
revision_before i (some t) gate c =
    if gate then (none, c) else get_ticket_type_counter_revision i.event_id t c

unfoldable pub undo_reservation : PurchaseInput → Option Text → Bool → World → World
unfolding compensate_ticket_type_release
undo_reservation i none gate w = w
undo_reservation i (some t) gate w = compensate_if gate i t w

-- createPurchaseTicketType from the metric of a sold-out request that goes on to PostgreSQL
unfoldable pub admit_ticket_type :
    TxEnv → PurchaseInput → Option Text → ReserveOutcome → Option ℕ → World → World × Answer
unfolding ask_cache emit
admit_ticket_type env i prefilter outcome revision w =
    let w = if is_sold_out outcome then emit purchase_sold_out_to_postgres w else w in
    let gate = is_reserved outcome in
    let (before, w) = ask_cache (revision_before i prefilter gate) w in
    transact_then env i (undo_reservation i prefilter gate)
      (reconcile_ticket_type_counter i prefilter gate revision before) w

unfoldable pub create_purchase_ticket_type : TxEnv → PurchaseInput → Scope → World → World × Answer
unfolding ask_cache turn_away
create_purchase_ticket_type env i scope w =
    let prefilter = prefilter_type i scope in
    let (held, w) = ask_cache (reserve_scope i prefilter) w in
    if is_sold_out held.outcome && not (is_some i.request_id)
    then turn_away i w
    else admit_ticket_type env i prefilter held.outcome held.revision w

-- createPurchase after the parsing
unfoldable pub create_purchase :
    TxEnv → Option PrefilterPlan → PurchaseInput → World → World × Answer
unfolding emit
create_purchase env none i w = create_purchase_db_only env i (emit prefilter_bypass w)
create_purchase env (some legacy_plan) i w = create_purchase_legacy env i w
create_purchase env (some (ticket_type_plan scope)) i w = create_purchase_ticket_type env i scope w

-- createPurchase
unfoldable pub handle_purchase :
    TxEnv → Option PrefilterPlan → Text → Text → Json → Json → World → World × Answer
handle_purchase env plan event_id buyer_id body selection w =
    elim (parse_purchase_input event_id buyer_id body selection) [
      | err e ↦ (w, err e)
      | ok i ↦ create_purchase env plan i w
    ]
