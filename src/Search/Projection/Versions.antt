-- ===== src/Search/Projection/Versions.antt =====
-- src/search/events-projection.store.ts: the versioned state of a document as a join by version,
-- for each Ticket Type and for the event.
use ticket_c2c_platform.Prelude.{
  ℕ, ◌≡◌, sym, ap, ◌∙◌, Bool, true, false, ◌||◌, inl, inr, Option, none, some, List, [], ◌∷◌, Text,
  ◌=t◌, ltb, if◌then◌else◌, Result, ok, arith, find_row, >>=-eq-ok, text_iff, subst, Bool-cases,
}
use ticket_c2c_platform.Json.{Json}
use ticket_c2c_platform.Messaging.InventoryEvent.{Payload}
use ticket_c2c_platform.Search.Projection.{
  TypeDocument, Document, ScriptError, type_of_payload, guard_type, guard_types, with_event,
  guard_event, Operation, noop, index, inventory_version_guard_script, Applied, applied, stale,
  source, empty_document, apply_versioned_inventory_changed,
}

abbrev pub is_type : Text → TypeDocument → Bool
is_type t x = x.ticket_type_id =t t

-- What the index says of a Ticket Type.
abbrev pub type_state : Text → Document → Option TypeDocument
type_state t d = find_row (is_type t) d.ticket_types

-- What it says of the event.
pub record EventState : Type 0 where
  pub version : Option ℕ
  pub event_total : Option ℕ
  pub event_remaining : Option ℕ
  pub total : Option Json
  pub remaining : Option Json

abbrev pub event_state : Document → EventState
event_state d = record {
  version = d.event_inventory_version;
  event_total = d.event_total_quantity;
  event_remaining = d.event_remaining_quantity;
  total = d.total_quantity;
  remaining = d.remaining_quantity;
}

-- The greater version wins, and the older state stands where the versions are equal.
unfoldable pub join_type : Payload → Option TypeDocument → TypeDocument
join_type p none = type_of_payload p
join_type p (some x) = if ltb x.inventory_version p.inventory_version then type_of_payload p else x

unfoldable pub join_event : Payload → EventState → EventState
join_event p s = elim s.version [
  | none ↦ event_state (with_event p empty_document)
  | some v ↦
      if ltb v p.event_inventory_version then event_state (with_event p empty_document) else s
]

unfoldable pub join_type_at : Payload → Text → Option TypeDocument → Option TypeDocument
unfolding join_type
join_type_at p t x = if p.ticket_type_id =t t then some (join_type p x) else x

pub guard_type-join :
    (p : Payload) (x y : TypeDocument) {c : Bool}
    → x.ticket_type_id =t p.ticket_type_id ≡ true
    → guard_type p x ≡ ok (c, y)
    → (y ≡ join_type p (some x)) × ((c ≡ false) → y ≡ x)
unfolding guard_type join_type
guard_type-join p x y same h =
    (ground (arith, text_iff x.ticket_type_id p.ticket_type_id), λ e. ground (arith))

-- The two ways in which an element is passed in the search for the payload's Ticket Type.
hit :
    (p : Payload) (t : Text) (x y : TypeDocument) (xs : List TypeDocument)
    → x.ticket_type_id =t p.ticket_type_id ≡ true
    → y ≡ join_type p (some x)
    → find_row (is_type t) (y ∷ xs) ≡ join_type_at p t (find_row (is_type t) (x ∷ xs))
unfolding find_row join_type_at
hit p t x y xs same joined = ground (
  arith,
  text_iff x.ticket_type_id p.ticket_type_id,
  text_iff x.ticket_type_id t,
  text_iff p.ticket_type_id t,
)

passed :
    (p : Payload) (t : Text) (x : TypeDocument) (xs ys : List TypeDocument)
    → x.ticket_type_id =t p.ticket_type_id ≡ false
    → find_row (is_type t) ys ≡ join_type_at p t (find_row (is_type t) xs)
    → find_row (is_type t) (x ∷ ys) ≡ join_type_at p t (find_row (is_type t) (x ∷ xs))
unfolding find_row join_type_at
passed p t x xs ys other rest = ground (
  arith,
  text_iff x.ticket_type_id p.ticket_type_id,
  text_iff x.ticket_type_id t,
  text_iff p.ticket_type_id t,
)

-- How the list of Ticket Types is walked.
pub data Walked (p : Payload) (x : TypeDocument) (xs : List TypeDocument) (c : Bool)
    (ys : List TypeDocument) : Type 0 where
  here :
      (y : TypeDocument)
      → x.ticket_type_id =t p.ticket_type_id ≡ true
      → guard_type p x ≡ ok (c, y)
      → ys ≡ y ∷ xs
      → Walked p x xs c ys
  there :
      (zs : List TypeDocument)
      → x.ticket_type_id =t p.ticket_type_id ≡ false
      → guard_types p xs ≡ ok (c, zs)
      → ys ≡ x ∷ zs
      → Walked p x xs c ys

pub walk :
    (p : Payload) (x : TypeDocument) (xs ys : List TypeDocument) (c : Bool)
    → guard_types p (x ∷ xs) ≡ ok (c, ys)
    → Walked p x xs c ys
unfolding guard_types
walk p x xs ys c h = elim (Bool-cases (x.ticket_type_id =t p.ticket_type_id)) [
  | inl same ↦
      let ((k, y), one, rest) = >>=-eq-ok (guard_type p x) _ (rw same at h) in
      here y same (ground arith) (ground arith)
  | inr other ↦
      let ((k, zs), one, rest) = >>=-eq-ok (guard_types p xs) _ (rw other at h) in
      there zs other (ground arith) (ground arith)
]

guard_types-join :
    (p : Payload) (t : Text) (xs ys : List TypeDocument) (c : Bool)
    → guard_types p xs ≡ ok (c, ys)
    → (find_row (is_type t) ys ≡ join_type_at p t (find_row (is_type t) xs))
      × ((c ≡ false) → ys ≡ xs)
unfolding guard_types find_row join_type_at
guard_types-join p t [] ys c h = (ground arith, λ e. ground arith)
guard_types-join p t (x ∷ xs) ys c h = elim (walk p x xs ys c h) [
  | here y same one written ↦
      let (joined, kept) = guard_type-join p x y same one in
      (
        ap (find_row (is_type t)) written ∙ hit p t x y xs same joined,
        λ e. written ∙ ap (λ (z : TypeDocument). z ∷ xs) (kept e),
      )
  | there zs other rest written ↦
      let (joined, kept) = guard_types-join p t xs zs c rest in
      (
        ap (find_row (is_type t)) written ∙ passed p t x xs zs other joined,
        λ e. written ∙ ap (λ (z : List TypeDocument). x ∷ z) (kept e),
      )
]

pub guard_event-join :
    (p : Payload) (d e : Document) {c : Bool}
    → guard_event p d ≡ ok (c, e)
    → (event_state e ≡ join_event p (event_state d))
      × (e.ticket_types ≡ d.ticket_types)
      × ((c ≡ false) → e ≡ d)
unfolding guard_event join_event
guard_event-join p d e h = (ground arith, ground arith, λ u. ground arith)

-- One delivery of `p`, from the document `d` to `e`.
pub record Joins (p : Payload) (d e : Document) : Type 0 where
  pub type : (t : Text) → type_state t e ≡ join_type_at p t (type_state t d)
  pub event : event_state e ≡ join_event p (event_state d)

abbrev written : Document → Operation → Document
written d noop = d
written d (index e) = e

abbrev pub outcome : Payload → Bool → Document → Operation
outcome p changed e = if changed then index (record e { event_id = some p.event_id }) else noop

outcome-Joins :
    (p : Payload) (d e : Document) (types : List TypeDocument) (tc ec : Bool)
    → guard_types p d.ticket_types ≡ ok (tc, types)
    → guard_event p (record d { ticket_types = types }) ≡ ok (ec, e)
    → Joins p d (written d (outcome p (tc || ec) e))
outcome-Joins p d e types tc ec h₁ h₂ =
    let (event, same_types, kept) = guard_event-join p (record d { ticket_types = types }) e h₂ in
    elim (Bool-cases (tc || ec)) [
      | inl changed ↦
          subst (λ c. Joins p d (written d (outcome p c e))) (sym changed)
            (record {
              type = λ t.
                  ap (find_row (is_type t)) same_types
                  ∙ (guard_types-join p t d.ticket_types types tc h₁).0;
              event = event;
            })
      | inr unchanged ↦
          subst (λ c. Joins p d (written d (outcome p c e))) (sym unchanged)
            (record {
              type = λ t.
                  ap (find_row (is_type t))
                    (sym ((guard_types-join p t d.ticket_types types tc h₁).1 (ground arith)))
                  ∙ (guard_types-join p t d.ticket_types types tc h₁).0;
              event = ap event_state (sym (kept (ground arith))) ∙ event;
            })
    ]

script-Joins :
    (p : Payload) (d : Document) (op : Operation)
    → inventory_version_guard_script p d ≡ ok op
    → Joins p d (written d op)
unfolding inventory_version_guard_script
script-Joins p d op h =
    let ((tc, types), h₁, g₁) = >>=-eq-ok (guard_types p d.ticket_types) _ h in
    let ((ec, e), h₂, g₂) = >>=-eq-ok (guard_event p (record d { ticket_types = types })) _ g₁ in
    let same : outcome p (tc || ec) e ≡ op = ground (arith, g₂) in
    subst (λ o. Joins p d (written d o)) same (outcome-Joins p d e types tc ec h₁ h₂)

-- A delivery that does not fail joins the payload into the document, by version: a greater version
-- of its Ticket Type or of its event replaces what stands there, any other leaves it; the other
-- Ticket Types keep their state.
pub apply_versioned-Joins :
    (p : Payload) (stored after : Option Document) (a : Applied)
    → apply_versioned_inventory_changed p stored ≡ ok (a, after)
    → Joins p (source stored) (source after)
unfolding apply_versioned_inventory_changed
apply_versioned-Joins p stored after a h =
    let (op, ran, rest) = >>=-eq-ok (inventory_version_guard_script p (source stored)) _ h in
    go op ran rest
  where
    go :
        (op : Operation)
        → inventory_version_guard_script p (source stored) ≡ ok op
        → (elim op as (λ o. Result ScriptError (Applied × Option Document)) [
          | noop ↦ ok (stale, stored)
          | index d ↦ ok (applied, some d)
        ])
          ≡ ok (a, after)
        → Joins p (source stored) (source after)
    go noop ran rest =
        let same : stored ≡ after = ground arith in
        subst (λ x. Joins p (source stored) (source x)) same
          (script-Joins p (source stored) noop ran)
    go (index d) ran rest =
        let same : some d ≡ after = ground arith in
        subst (λ x. Joins p (source stored) (source x)) same
          (script-Joins p (source stored) (index d) ran)
