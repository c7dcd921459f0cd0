-- ===== src/Worker.antt =====
-- src/worker/search-projection.worker.ts: SearchProjectionWorker over the queue, with the index as a map
-- from event ids to documents. SQS may deliver any messages of the queue, again and again, and between two
-- polls it may move any of them to the dead-letter queue, as the redrive policy of
-- terraform/modules/sqs/main.tf does with those received too often. Retention periods, logging, tracing and
-- the metric of the lag are left out.
pub mod Indexing
pub mod Queue
pub mod Completion
use ticket_c2c_platform.Prelude.{
  ℕ, zero, suc, ◌+◌, Bool, true, false, not, Option, none, some, List, [], ◌∷◌, ◌++◌, Text, codes,
  ◌=t◌, select, if◌then◌else◌, Result, ok, err, Map,
}
use ticket_c2c_platform.Json.{Json, JsNumber, whole, get, undefined, null, bool, num, str, arr, obj}
use ticket_c2c_platform.Messaging.InventoryEvent.{
  ContractError, Parsed, versioned, legacy, parse_inventory_changed_detail,
}
use ticket_c2c_platform.Search.Projection.{
  Document, Applied, applied, EventMetadata, LocationDirective, apply_event_metadata,
  apply_parsed_inventory_changed,
}
use ticket_c2c_platform.Search.Requests.{
  Fate, through, lost, refused, conflict, Attempt, UpdateError, update_index, Script,
  resolve_location_directive,
}

-- `message.Body`: missing or empty, no JSON, or JSON
pub data Body : Type 0 where
  empty malformed : Body
  parsed : Json → Body

pub record Message : Type 0 where
  pub receipt : Text
  pub body : Body

-- The dimensions of the metric ProjectionOutcome
pub data ProjectionOperation : Type 0 where
  inventory_changed event_metadata : ProjectionOperation

pub data Report : Type 0 where
  outcome : ProjectionOperation → Applied → Report
  failure : ProjectionOperation → Report

pub data WorkerError : Type 0 where
  not_json not_an_envelope no_detail location_invalid delete_failed : WorkerError
  contract : ContractError → WorkerError
  update : UpdateError → WorkerError

-- The newest report stands first.
pub record Worker : Type 0 where
  pub queue : List Message
  pub dead_letters : List Message
  pub index : Map Document
  pub reports : List Report

-- How JavaScript writes a finite number, and a value that is used as an id.
pub record Runtime : Type 0 where
  pub numeral : JsNumber → Option Text
  pub as_id : Json → Text

abbrev pub Outcome : Type 0
Outcome = Worker × Result WorkerError (Unit {0})

abbrev pub is_text : Text → Json → Bool
is_text t (str s) = s =t t
is_text t _ = false

abbrev pub is_nullish : Json → Bool
is_nullish undefined = true
is_nullish null = true
is_nullish _ = false

-- operationForDetailType, for detail types other than the names that every JavaScript object inherits
unfoldable pub operation_for_detail_type : Json → Option ProjectionOperation
operation_for_detail_type t =
    if is_text (codes "InventoryChanged") t
    then some inventory_changed
    else if is_text (codes "EventListed") t
    then some event_metadata
    else if is_text (codes "EventUpdated") t
    then some event_metadata
    else none

unfoldable pub emit_outcome : Report → Worker → Worker
emit_outcome r w = record w { reports = r ∷ w.reports }

abbrev pub parsed_event_id : Parsed → Text
parsed_event_id (versioned p) = p.event_id
parsed_event_id (legacy e n) = e

unfoldable pub process_parsed : (ℕ → Attempt) → Parsed → Worker → Outcome
unfolding emit_outcome
process_parsed attempts p w =
    let (index, r) =
      update_index attempts (parsed_event_id p) (apply_parsed_inventory_changed p) w.index in
    let w' : Worker = record w { index = index } in
    elim r [
      | err e ↦ (w', err (update e))
      | ok result ↦ (emit_outcome (outcome inventory_changed result) w', ok tt)
    ]

unfoldable pub process_inventory_changed : (ℕ → Attempt) → Json → Worker → Outcome
unfolding process_parsed
process_inventory_changed attempts detail w = elim (parse_inventory_changed_detail detail) [
  | err e ↦ (w, err (contract e))
  | ok p ↦ process_parsed attempts p w
]

-- `detail.eventId`, unless it is falsy
unfoldable pub event_id_of : Runtime → Json → Option Text
event_id_of runtime undefined = none
event_id_of runtime null = none
event_id_of runtime (bool false) = none
event_id_of runtime (num (whole zero)) = none
event_id_of runtime (str []) = none
event_id_of runtime (str (c ∷ s)) = some (c ∷ s)
event_id_of runtime j = some (runtime.as_id j)

-- `value ?? null`
abbrev pub or_null : Json → Option Json
or_null undefined = none
or_null null = none
or_null j = some j

-- applyEventMetadata with the body that buildEventMetadataUpdateBody makes. Whether the mapping of the
-- index takes the values that the script writes is part of how the request fares.
unfoldable pub describe_event : Runtime → Text → Json → Result WorkerError EventMetadata
describe_event runtime event_id detail =
    elim (resolve_location_directive runtime.numeral (get (codes "latitude") detail)
      (get (codes "longitude") detail)) [
        | none ↦ err location_invalid
        | some location ↦ ok (record {
          event_id = event_id;
          title = or_null (get (codes "title") detail);
          event_type = or_null (get (codes "eventType") detail);
          starts_at = or_null (get (codes "startsAt") detail);
          location = location;
          total_quantity = or_null (get (codes "totalQuantity") detail);
          remaining_quantity = or_null (get (codes "remainingQuantity") detail);
        })
      ]

abbrev pub metadata_script : EventMetadata → Script Applied
metadata_script m d = ok (applied, apply_event_metadata m d)

unfoldable pub process_metadata : Runtime → (ℕ → Attempt) → Text → Json → Worker → Outcome
unfolding describe_event emit_outcome
process_metadata runtime attempts event_id detail w =
    elim (describe_event runtime event_id detail) [
      | err e ↦ (w, err e)
      | ok m ↦
          let (index, r) = update_index attempts event_id (metadata_script m) w.index in
          let w' : Worker = record w { index = index } in
          elim r [
            | err e ↦ (w', err (update e))
            | ok result ↦ (emit_outcome (outcome event_metadata result) w', ok tt)
          ]
    ]

-- The part of processEnvelope for the other detail types
unfoldable pub process_other : Runtime → (ℕ → Attempt) → Json → Json → Worker → Outcome
unfolding event_id_of process_metadata operation_for_detail_type
process_other runtime attempts detail_type detail w =
    if is_nullish detail
    then (w, err no_detail)
    else elim (event_id_of runtime (get (codes "eventId") detail)) [
      | none ↦ (w, ok tt)
      | some event_id ↦ elim (operation_for_detail_type detail_type) [
        | none ↦ (w, ok tt)
        | some o ↦ process_metadata runtime attempts event_id detail w
      ]
    ]

-- processEnvelope
unfoldable pub process_envelope : Runtime → (ℕ → Attempt) → Json → Worker → Outcome
unfolding process_inventory_changed process_other
process_envelope runtime attempts envelope w =
    let detail_type = get (codes "detail-type") envelope in
    let detail = get (codes "detail") envelope in
    if is_text (codes "InventoryChanged") detail_type
    then process_inventory_changed attempts detail w
    else process_other runtime attempts detail_type detail w

-- The catch block of handleMessage
unfoldable pub report_failure : Json → Outcome → Outcome
unfolding operation_for_detail_type emit_outcome
report_failure detail_type o = elim o.1 [
  | ok u ↦ o
  | err e ↦ elim (operation_for_detail_type detail_type) [
    | none ↦ o
    | some operation ↦ (emit_outcome (failure operation) o.0, err e)
  ]
]

unfoldable pub handle_message : Runtime → (ℕ → Attempt) → Message → Worker → Outcome
unfolding process_envelope report_failure
handle_message runtime attempts m w = elim m.body [
  | empty ↦ (w, ok tt)
  | malformed ↦ (w, err not_json)
  | parsed envelope ↦
      if is_nullish envelope
      then (w, err not_an_envelope)
      else report_failure (get (codes "detail-type") envelope)
          (process_envelope runtime attempts envelope w)
]

abbrev pub has_receipt : Text → Message → Bool
has_receipt r m = m.receipt =t r

unfoldable pub delete_message : Text → Worker → Worker
delete_message r w = record w { queue = select (λ m. not (has_receipt r m)) w.queue }

-- The redrive of SQS: some messages leave the queue for the dead-letter queue.
unfoldable pub redrive : (Message → Bool) → Worker → Worker
redrive moved w = record w {
  queue = select (λ m. not (moved m)) w.queue;
  dead_letters = w.dead_letters ++ select moved w.queue;
}

-- What the worker meets: the messages that are redriven before a poll, and at the messages of the poll, by
-- their number, changes of the index by others, the attempts of its updates, and how the deletion fares.
pub record Weather : Type 0 where
  pub redriven : Message → Bool
  pub meanwhile : ℕ → Map Document → Map Document
  pub attempts : ℕ → ℕ → Attempt
  pub deletion : ℕ → Fate

-- DeleteMessageCommand, with the worker if it is not executed, if it is, and what comes after it
abbrev pub after_deletion : Fate → Worker → Worker → Outcome → Outcome
after_deletion through kept deleted rest = rest
after_deletion lost kept deleted rest = (deleted, err delete_failed)
after_deletion _ kept deleted rest = (kept, err delete_failed)

-- The loop of pollOnce over the messages received, of which the next is number `k`
unfoldable pub poll : Runtime → Weather → ℕ → List Message → Worker → Outcome
unfolding handle_message delete_message
poll runtime weather k [] w = (w, ok tt)
poll runtime weather k (m ∷ ms) w =
    let (w', r) =
      handle_message runtime (weather.attempts k) m
        (record w { index = weather.meanwhile k w.index }) in
    let deleted = delete_message m.receipt w' in
    let rest = poll runtime weather (k + 1) ms deleted in
    elim r [ err e ↦ (w', err e) | ok u ↦ after_deletion (weather.deletion k) w' deleted rest ]

-- The loop of start: an error of a poll is logged, and the next poll begins.
unfoldable pub run : Runtime → List (Weather × List Message) → Worker → Worker
unfolding poll redrive
run runtime [] w = w
run runtime ((weather, received) ∷ polls) w =
    run runtime polls (poll runtime weather 0 received (redrive weather.redriven w)).0

-- start: assertEventsIndexExists first; none stands for EventsIndexMissingError.
unfoldable pub start : Runtime → Bool → List (Weather × List Message) → Worker → Option Worker
unfolding run
start runtime index_exists polls w = if index_exists then some (run runtime polls w) else none
