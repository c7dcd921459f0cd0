-- ===== src/Worker/Completion.antt =====
-- src/worker/search-projection.worker.ts: messages that are done with, and messages that never are.
use ticket_c2c_platform.Prelude.{
  ℕ, ◌+◌, ◌≤◌, ◌<◌, ◌≡◌, refl, ap, ◌∙◌, true, Option, none, some, List, [], ◌∷◌, Text, codes, ok,
  err, arith, text_refl, find_row, find_row-delete,
}
use ticket_c2c_platform.Json.{Json, get}
use ticket_c2c_platform.Messaging.InventoryEvent.{
  Payload, versioned, parse_inventory_changed_detail, ContractError,
}
use ticket_c2c_platform.Search.Projection.{
  Document, Applied, apply_versioned_inventory_changed, apply_parsed_inventory_changed,
}
use ticket_c2c_platform.Search.Requests.{
  through, conflict, Attempt, update_index, run_with_conflict_retry, attempt, max_conflict_retries,
}
use ticket_c2c_platform.Search.Requests.Retries.{retry_settles}
use ticket_c2c_platform.Worker.{
  parsed, Message, WorkerError, Worker, Runtime, Outcome, is_text, emit_outcome, process_parsed,
  process_inventory_changed, process_envelope, report_failure, handle_message, has_receipt,
  delete_message, Weather, poll, operation_for_detail_type, inventory_changed, failure, contract,
}
use ticket_c2c_platform.Worker.Indexing.{
  Reflected, Announces, handle_message-ok, announced, typed_is_thing,
}

-- Fewer attempts conflict than runWithConflictRetry makes, then one goes through, and no one else writes.
pub record Settles (attempts : ℕ → Attempt) (d : Option Document) : Type 0 where
  pub conflicts : ℕ
  pub few : conflicts ≤ max_conflict_retries
  pub quiet : (i : ℕ) → (attempts i).others d ≡ d
  pub conflicted : (i : ℕ) → i < conflicts → (attempts (0 + i)).fate ≡ conflict
  pub settled : (attempts (0 + conflicts)).fate ≡ through

settled_update :
    (attempts : ℕ → Attempt) (p : Payload) (w : Worker) {a : Applied} {e : Option Document}
    → Settles attempts (w.index p.event_id)
    → apply_versioned_inventory_changed p (w.index p.event_id) ≡ ok (a, e)
    → (update_index attempts p.event_id (apply_parsed_inventory_changed (versioned p)) w.index).1
      ≡ ok a
unfolding update_index run_with_conflict_retry attempt apply_parsed_inventory_changed
settled_update attempts p w {a} {e} s ran =
    let op = apply_parsed_inventory_changed (versioned p) in
    let d = w.index p.event_id in
    let last = attempts (0 + s.conflicts) in
    let there : attempt last op d ≡ (e, ok a) =
      rw (s.settled, attempt, s.quiet (0 + s.conflicts), ran) refl in
    ap (λ r. r.1) (retry_settles op 5 0 s.conflicts attempts d s.few s.quiet s.conflicted s.settled)
    ∙ ap (λ r. r.1) there

updated_ok :
    (attempts : ℕ → Attempt) (p : Payload) (w : Worker) {a : Applied}
    → (update_index attempts p.event_id (apply_parsed_inventory_changed (versioned p)) w.index).1
      ≡ ok a
    → (process_parsed attempts (versioned p) w).1 ≡ ok tt
unfolding process_parsed
updated_ok attempts p w {a} h = rw (h, process_parsed) refl

unreported : (type : Json) (o : Outcome) → o.1 ≡ ok tt → (report_failure type o).1 ≡ ok tt
unfolding report_failure
unreported type o h = ground arith

-- A message that is announced then is handled without an error.
pub settled_message :
    (runtime : Runtime) (attempts : ℕ → Attempt) (m : Message) (p : Payload) (w : Worker)
    {a : Applied} {e : Option Document}
    → Announces m p
    → Settles attempts (w.index p.event_id)
    → apply_versioned_inventory_changed p (w.index p.event_id) ≡ ok (a, e)
    → (handle_message runtime attempts m w).1 ≡ ok tt
settled_message runtime attempts m p w {a} {e} announces settles ran =
    ap (λ o. o.1) (announced runtime attempts m p w announces)
    ∙ unreported (get (codes "detail-type") announces.envelope)
        (process_parsed attempts (versioned p) w)
        (updated_ok attempts p w {a = a} (settled_update attempts p w {a = a} {e = e} settles ran))

deleted_is_gone :
    (r : Text) (w : Worker) → find_row (has_receipt r) (delete_message r w).queue ≡ none
unfolding delete_message
deleted_is_gone r w =
    find_row-delete (λ (m : Message). m.receipt) r r w.queue ∙ rw (text_refl r) refl

-- A poll whose one message announces a versioned payload that the versioned script accepts for the stored
-- document is done with it, if no one else writes to that document, no more attempts conflict than are retried
-- before one goes through, and the deletion goes through: the poll returns without an error, the message is
-- no longer in the queue, and the index has the payload's versions or later ones.
pub poll_completes :
    (runtime : Runtime) (weather : Weather) (k : ℕ) (m : Message) (p : Payload) (w : Worker)
    {a : Applied} {e : Option Document}
    → Announces m p
    → Settles (weather.attempts k) (weather.meanwhile k w.index p.event_id)
    → apply_versioned_inventory_changed p (weather.meanwhile k w.index p.event_id) ≡ ok (a, e)
    → weather.deletion k ≡ through
    → ((poll runtime weather k (m ∷ []) w).1 ≡ ok tt)
      × (find_row (has_receipt m.receipt) (poll runtime weather k (m ∷ []) w).0.queue ≡ none)
      × Reflected p (poll runtime weather k (m ∷ []) w).0.index
unfolding poll delete_message
poll_completes runtime weather k m p w {a} {e} announces settles ran deleted =
    let met : Worker = record w { index = weather.meanwhile k w.index } in
    let done =
      settled_message runtime (weather.attempts k) m p met {a = a} {e = e} announces settles ran in
    rw (done, deleted, poll)
      (
        refl,
        deleted_is_gone m.receipt (handle_message runtime (weather.attempts k) m met).0,
        handle_message-ok runtime (weather.attempts k) m p met announces done,
      )

reported_failure :
    (type : Json) (w : Worker) (e : WorkerError)
    → is_text (codes "InventoryChanged") type ≡ true
    → report_failure type (w, err e) ≡ (emit_outcome (failure inventory_changed) w, err e)
unfolding report_failure operation_for_detail_type
reported_failure type w e own =
    let named : operation_for_detail_type type ≡ some inventory_changed =
      rw (own, operation_for_detail_type) refl in
    rw (named, report_failure) refl

rejected_message :
    (runtime : Runtime) (attempts : ℕ → Attempt) (m : Message) (envelope : Json) (e : ContractError)
    (w : Worker)
    → m.body ≡ parsed envelope
    → is_text (codes "InventoryChanged") (get (codes "detail-type") envelope) ≡ true
    → parse_inventory_changed_detail (get (codes "detail") envelope) ≡ err e
    → handle_message runtime attempts m w
      ≡ (emit_outcome (failure inventory_changed) w, err (contract e))
unfolding handle_message process_envelope process_inventory_changed
rejected_message runtime attempts m envelope e w body own broken =
    let type = get (codes "detail-type") envelope in
    let thing = typed_is_thing (codes "InventoryChanged") (codes "detail-type") envelope own in
    let processed : process_envelope runtime attempts envelope w ≡ (w, err (contract e)) =
      rw (own, process_envelope, broken, process_inventory_changed) refl in
    rw (body, thing, handle_message)
      (ap (report_failure type) processed ∙ reported_failure type w (contract e) own)

-- An InventoryChanged that breaks the contract is never acknowledged: the poll throws at it, the
-- queues stay as they are, nothing is written to the index, and the failure is reported.
pub broken_message_stays :
    (runtime : Runtime) (weather : Weather) (k : ℕ) (m : Message) (ms : List Message)
    (envelope : Json) (e : ContractError) (w : Worker)
    → m.body ≡ parsed envelope
    → is_text (codes "InventoryChanged") (get (codes "detail-type") envelope) ≡ true
    → parse_inventory_changed_detail (get (codes "detail") envelope) ≡ err e
    → poll runtime weather k (m ∷ ms) w ≡ (
      record {
        queue = w.queue;
        dead_letters = w.dead_letters;
        index = weather.meanwhile k w.index;
        reports = failure inventory_changed ∷ w.reports;
      },
      err (contract e),
    )
unfolding poll emit_outcome
broken_message_stays runtime weather k m ms envelope e w body type broken =
    let met : Worker = record w { index = weather.meanwhile k w.index } in
    let handled = rejected_message runtime (weather.attempts k) m envelope e met body type broken in
    rw (ap (λ o. o.1) handled, poll) (ap (λ o. (o.0, err (contract e))) handled)
