-- ===== src/Worker/Indexing.antt =====
-- src/worker/search-projection.worker.ts: the index under the handling of a message: no versions go back, and
-- a versioned InventoryChanged that was handled is there.

use ticket_c2c_platform.Prelude.{
  ℕ, ◌≡◌, refl, ap, sym, ◌∙◌, inl, inr, true, false, Option, some, Text, codes, ◌=t◌, ok, arith,
  Result-cases, Option-cases, text_refl, text_iff, Bool-cases, subst, Map, find_row,
}
use ticket_c2c_platform.Json.{Json, undefined, null, get}
use ticket_c2c_platform.Messaging.InventoryEvent.{
  Payload, Parsed, versioned, legacy, parse_inventory_changed_detail,
}
use ticket_c2c_platform.Search.Projection.{
  Document, source, EventMetadata, apply_event_metadata, event_metadata_script,
  apply_legacy_inventory_changed, legacy_inventory_script, apply_parsed_inventory_changed,
}
use ticket_c2c_platform.Search.Projection.Versions.{is_type, apply_versioned-Joins}
use ticket_c2c_platform.Search.Requests.{
  Attempt, update_index, Script, run_with_conflict_retry, retry,
}
use ticket_c2c_platform.Search.Requests.Retries.{
  HasType, HasEvent, has_event, Reflects, Advances, AdvancesBy, applied-Reflects, kept-Reflects,
  retry-Advances, retry-executed,
}
use ticket_c2c_platform.Worker.{
  Body, empty, malformed, parsed, Message, Worker, Runtime, Outcome, is_text, is_nullish,
  emit_outcome, parsed_event_id, process_parsed, process_inventory_changed, event_id_of,
  describe_event, metadata_script, process_metadata, process_other, process_envelope,
  report_failure, handle_message, Weather, operation_for_detail_type,
}

versioned-Advances : (q : Payload) → AdvancesBy (apply_parsed_inventory_changed (versioned q))
unfolding apply_parsed_inventory_changed
versioned-Advances q p d x e ran h =
    kept-Reflects q p (source d) (source e) (apply_versioned-Joins q d e x ran) h

known_version : (v : ℕ) (o : Option ℕ) → HasEvent v o → (w : ℕ) × (o ≡ some w)
known_version v _ (has_event w le) = (w, refl)

legacy-Advances : (id : Text) (n : ℕ) → AdvancesBy (apply_parsed_inventory_changed (legacy id n))
unfolding apply_parsed_inventory_changed apply_legacy_inventory_changed legacy_inventory_script
legacy-Advances id n p d x e ran h =
    let (w, known) = known_version _ _ h.event_known in
    let same : d ≡ e = ground arith in subst (λ z. Reflects p (source z)) same h

parsed-Advances : (q : Parsed) → AdvancesBy (apply_parsed_inventory_changed q)
parsed-Advances (versioned q) = versioned-Advances q
parsed-Advances (legacy id n) = legacy-Advances id n

same-Reflects :
    (p : Payload) (d e : Document)
    → d.ticket_types ≡ e.ticket_types
    → d.event_inventory_version ≡ e.event_inventory_version
    → Reflects p d
    → Reflects p e
same-Reflects p d e types version h = record {
  type_known =
      subst (λ ts. HasType p.inventory_version (find_row (is_type p.ticket_type_id) ts)) types
        h.type_known;
  event_known = subst (HasEvent p.event_inventory_version) version h.event_known;
}

metadata_keeps :
    (m : EventMetadata) (d : Document)
    → (d.ticket_types ≡ (event_metadata_script m d).ticket_types)
      × (d.event_inventory_version ≡ (event_metadata_script m d).event_inventory_version)
unfolding event_metadata_script
metadata_keeps m d = (ground arith, ground arith)

metadata-Advances : (m : EventMetadata) → AdvancesBy (metadata_script m)
unfolding apply_event_metadata
metadata-Advances m p d x e ran h =
    let written : some (event_metadata_script m (source d)) ≡ e = ground arith in
    let (types, version) = metadata_keeps m (source d) in
    subst (λ z. Reflects p (source z)) written (same-Reflects p (source d) _ types version h)

-- The document of a payload's event in an index.
abbrev pub Reflected : Payload → Map Document → Type 0
Reflected p m = Reflects p (source (m p.event_id))

update_index-Advances :
    {A : Type 0} (attempts : ℕ → Attempt) (id : Text) (op : Script A) (m : Map Document)
    (p : Payload)
    → ((n : ℕ) → Advances (attempts n).others)
    → AdvancesBy op
    → Reflected p m
    → Reflected p (update_index attempts id op m).0
unfolding update_index run_with_conflict_retry
update_index-Advances attempts id op m p others advances h = elim (Bool-cases (id =t p.event_id)) [
  | inl own ↦ rw own (
      retry-Advances op 5 0 attempts others advances p (m id)
        (subst (λ k. Reflects p (source (m k))) (sym ((text_iff id p.event_id).0 own)) h))
  | inr other ↦ rw other h
]

-- Changes of the index by others that take no document back before a payload that it reflects.
abbrev pub IndexAdvances : (Map Document → Map Document) → Type 0
IndexAdvances f = (p : Payload) (m : Map Document) → Reflected p m → Reflected p (f m)

pub record IsForward (weather : Weather) : Type 0 where
  pub meanwhile : (k : ℕ) → IndexAdvances (weather.meanwhile k)
  pub others : (k n : ℕ) → Advances (weather.attempts k n).others

pub report_failure_index : (type : Json) (o : Outcome) → (report_failure type o).0.index ≡ o.0.index
unfolding report_failure emit_outcome
report_failure_index type o = ground arith

module _ (runtime : Runtime) (attempts : ℕ → Attempt) (p : Payload)
    (others : (n : ℕ) → Advances (attempts n).others) where
  process_parsed-Reflected :
      (q : Parsed) (w : Worker)
      → Reflected p w.index
      → Reflected p (process_parsed attempts q w).0.index
  unfolding process_parsed emit_outcome
  process_parsed-Reflected q w h =
      let op = apply_parsed_inventory_changed q in
      let id = parsed_event_id q in
      elim (Result-cases (update_index attempts id op w.index).1) [
        | inl (e, r) ↦
            rw (r, process_parsed)
              (update_index-Advances attempts id op w.index p others (parsed-Advances q) h)
        | inr (x, r) ↦
            rw (r, process_parsed, emit_outcome)
              (update_index-Advances attempts id op w.index p others (parsed-Advances q) h)
      ]

  process_metadata-Reflected :
      (id : Text) (detail : Json) (w : Worker)
      → Reflected p w.index
      → Reflected p (process_metadata runtime attempts id detail w).0.index
  unfolding process_metadata emit_outcome
  process_metadata-Reflected id detail w h =
      elim (Result-cases (describe_event runtime id detail)) [
        | inl (e, r) ↦ rw (r, process_metadata) h
        | inr (m, r) ↦
            rw (r, process_metadata)
              (elim (Result-cases (update_index attempts id (metadata_script m) w.index).1) [
                | inl (e, u) ↦ rw u (
                    update_index-Advances attempts id (metadata_script m) w.index p others
                      (metadata-Advances m) h)
                | inr (x, u) ↦
                    rw (u, emit_outcome)
                      (update_index-Advances attempts id (metadata_script m) w.index p others
                        (metadata-Advances m) h)
              ])
      ]

  process_other-Reflected :
      (type detail : Json) (w : Worker)
      → Reflected p w.index
      → Reflected p (process_other runtime attempts type detail w).0.index
  unfolding process_other
  process_other-Reflected type detail w h = elim (Bool-cases (is_nullish detail)) [
    | inl nothing ↦ rw (nothing, process_other) h
    | inr thing ↦ elim (Option-cases (event_id_of runtime (get (codes "eventId") detail))) [
      | inl missing ↦ rw (thing, missing, process_other) h
      | inr (id, found) ↦ elim (Option-cases (operation_for_detail_type type)) [
        | inl unknown ↦ rw (thing, found, unknown, process_other) h
        | inr (o, known) ↦
            rw (thing, found, known, process_other) (process_metadata-Reflected id detail w h)
      ]
    ]
  ]

  process_inventory_changed-Reflected :
      (detail : Json) (w : Worker)
      → Reflected p w.index
      → Reflected p (process_inventory_changed attempts detail w).0.index
  unfolding process_inventory_changed
  process_inventory_changed-Reflected detail w h =
      elim (Result-cases (parse_inventory_changed_detail detail)) [
        | inl (e, r) ↦ rw (r, process_inventory_changed) h
        | inr (q, r) ↦ rw (r, process_inventory_changed) (process_parsed-Reflected q w h)
      ]

  process_envelope-Reflected :
      (envelope : Json) (w : Worker)
      → Reflected p w.index
      → Reflected p (process_envelope runtime attempts envelope w).0.index
  unfolding process_envelope
  process_envelope-Reflected envelope w h =
      let type = get (codes "detail-type") envelope in
      let detail = get (codes "detail") envelope in
      elim (Bool-cases (is_text (codes "InventoryChanged") type)) [
        | inl own ↦ rw (own, process_envelope) (process_inventory_changed-Reflected detail w h)
        | inr other ↦ rw (other, process_envelope) (process_other-Reflected type detail w h)
      ]

  pub handle_message-Reflected :
      (m : Message) (b : Body) (w : Worker)
      → m.body ≡ b
      → Reflected p w.index
      → Reflected p (handle_message runtime attempts m w).0.index
  unfolding handle_message
  handle_message-Reflected m empty w e h = rw (e, handle_message) h
  handle_message-Reflected m malformed w e h = rw (e, handle_message) h
  handle_message-Reflected m (parsed j) w e h = elim (Bool-cases (is_nullish j)) [
    | inl nothing ↦ rw (e, nothing, handle_message) h
    | inr thing ↦
        rw (e, thing, handle_message)
          (subst (Reflected p)
            (sym (
              report_failure_index (get (codes "detail-type") j)
                (process_envelope runtime attempts j w)))
            (process_envelope-Reflected j w h))
  ]

-- The message is an InventoryChanged with the versioned payload.
pub record Announces (m : Message) (p : Payload) : Type 0 where
  pub envelope : Json
  pub body : m.body ≡ parsed envelope
  pub type : is_text (codes "InventoryChanged") (get (codes "detail-type") envelope) ≡ true
  pub payload : parse_inventory_changed_detail (get (codes "detail") envelope) ≡ ok (versioned p)

pub typed_is_thing : (s k : Text) (j : Json) → is_text s (get k j) ≡ true → is_nullish j ≡ false
unfolding get
typed_is_thing s k undefined h = cc
typed_is_thing s k null h = cc
typed_is_thing s k (Json.bool b) h = refl
typed_is_thing s k (Json.num n) h = refl
typed_is_thing s k (Json.str t) h = refl
typed_is_thing s k (Json.arr ts) h = refl
typed_is_thing s k (Json.obj fs) h = refl

parsed_index :
    (attempts : ℕ → Attempt) (q : Parsed) (w : Worker)
    → (process_parsed attempts q w).0.index
      ≡ (update_index attempts (parsed_event_id q) (apply_parsed_inventory_changed q) w.index).0
unfolding process_parsed emit_outcome
parsed_index attempts q w =
    elim (Result-cases
      (update_index attempts (parsed_event_id q) (apply_parsed_inventory_changed q) w.index).1) [
        | inl (e, r) ↦ rw (r, process_parsed) refl
        | inr (x, r) ↦ rw (r, process_parsed, emit_outcome) refl
      ]

updated_document :
    {A : Type 0} (attempts : ℕ → Attempt) (id : Text) (op : Script A) (m : Map Document)
    → (update_index attempts id op m).0 id ≡ (retry 5 0 attempts op (m id)).0
unfolding update_index run_with_conflict_retry
updated_document attempts id op m = rw (text_refl id) refl

process_parsed-ok :
    (attempts : ℕ → Attempt) (p : Payload) (w : Worker)
    → (process_parsed attempts (versioned p) w).1 ≡ ok tt
    → Reflected p (process_parsed attempts (versioned p) w).0.index
unfolding process_parsed update_index run_with_conflict_retry apply_parsed_inventory_changed
process_parsed-ok attempts p w h =
    let op = apply_parsed_inventory_changed (versioned p) in
    elim (Result-cases (update_index attempts p.event_id op w.index).1) [
      | inl (e, r) ↦ absurd (ground arith)
      | inr (x, r) ↦
          let (d, ran) = retry-executed op 5 0 attempts (w.index p.event_id) x r in
          let new = applied-Reflects p (source d) _ (apply_versioned-Joins p d _ x ran) in
          subst (λ m. Reflects p (source (m p.event_id)))
            (sym (parsed_index attempts (versioned p) w))
            (subst (λ e. Reflects p (source e))
              (sym (updated_document attempts p.event_id op w.index)) new)
    ]

pub announced :
    (runtime : Runtime) (attempts : ℕ → Attempt) (m : Message) (p : Payload) (w : Worker)
    (a : Announces m p)
    → handle_message runtime attempts m w
      ≡ report_failure
          (get (codes "detail-type") a.envelope)
          (process_parsed attempts (versioned p) w)
unfolding handle_message process_envelope process_inventory_changed
announced runtime attempts m p w a =
    let thing = typed_is_thing (codes "InventoryChanged") (codes "detail-type") a.envelope a.type in
    rw
      (
        a.body, handle_message, thing, a.type, process_envelope, a.payload,
        process_inventory_changed,
      )
      refl

unfailed : (type : Json) (o : Outcome) → (report_failure type o).1 ≡ ok tt → o.1 ≡ ok tt
unfolding report_failure
unfailed type o h = ground arith

pub handle_message-ok :
    (runtime : Runtime) (attempts : ℕ → Attempt) (m : Message) (p : Payload) (w : Worker)
    → Announces m p
    → (handle_message runtime attempts m w).1 ≡ ok tt
    → Reflected p (handle_message runtime attempts m w).0.index
handle_message-ok runtime attempts m p w a h =
    let e = announced runtime attempts m p w a in
    let type = get (codes "detail-type") a.envelope in
    let o = process_parsed attempts (versioned p) w in
    let done = unfailed type o (sym (ap (λ o. o.1) e) ∙ h) in
    subst (λ o. Reflected p o.0.index) (sym e)
      (subst (Reflected p) (sym (report_failure_index type o))
        (process_parsed-ok attempts p w done))
