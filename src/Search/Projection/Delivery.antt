-- ===== src/Search/Projection/Delivery.antt =====
-- src/search/events-projection.store.ts under a queue that delivers in any order and more than once.
use ticket_c2c_platform.Prelude.{
  ◌≡◌, refl, sym, ap, ◌∙◌, Bool, true, false, Option, none, some, List, [], ◌∷◌, Text, ◌=t◌, Result,
  ok, arith, >>=-eq-ok, text_iff, text_refl, subst,
}
use ticket_c2c_platform.Messaging.InventoryEvent.{Payload}
use ticket_c2c_platform.Search.Projection.{
  TypeDocument, Document, ScriptError, type_of_payload, guard_type, guard_types, guard_event,
  Operation, noop, index, inventory_version_guard_script, Applied, applied, stale, source,
  apply_versioned_inventory_changed,
}
use ticket_c2c_platform.Search.Projection.Versions.{
  type_state, EventState, event_state, join_event, join_type_at, guard_event-join, here, there,
  walk, apply_versioned-Joins,
}

-- Two payloads that carry one version carry the same values, which the API gives by numbering the
-- changes of each row.
pub record IsConsistent (p q : Payload) : Type 0 where
  pub type :
      p.ticket_type_id ≡ q.ticket_type_id
      → p.inventory_version ≡ q.inventory_version
      → type_of_payload p ≡ type_of_payload q
  pub event_total :
      p.event_inventory_version ≡ q.event_inventory_version
      → p.event_total_quantity ≡ q.event_total_quantity
  pub event_remaining :
      p.event_inventory_version ≡ q.event_inventory_version
      → p.event_remaining_quantity ≡ q.event_remaining_quantity

join_type_at-commutes :
    (p q : Payload) (t : Text) (x : Option TypeDocument)
    → IsConsistent p q
    → join_type_at p t (join_type_at q t x) ≡ join_type_at q t (join_type_at p t x)
unfolding join_type_at
join_type_at-commutes p q t none c =
    ground (arith, c.type, text_iff p.ticket_type_id t, text_iff q.ticket_type_id t)
join_type_at-commutes p q t (some x) c =
    ground (arith, c.type, text_iff p.ticket_type_id t, text_iff q.ticket_type_id t)

join_event-commutes :
    (p q : Payload) (s : EventState)
    → IsConsistent p q
    → join_event p (join_event q s) ≡ join_event q (join_event p s)
unfolding join_event
join_event-commutes p q s c = ground (arith, c.event_total, c.event_remaining)

-- Two consistent payloads, delivered in either order without a failure, leave the same state of
-- every Ticket Type and of the event.
pub deliveries_commute :
    (p q : Payload) (stored p_first q_first p_last q_last : Option Document) {a b c d : Applied}
    → IsConsistent p q
    → apply_versioned_inventory_changed p stored ≡ ok (a, p_first)
    → apply_versioned_inventory_changed q p_first ≡ ok (b, q_last)
    → apply_versioned_inventory_changed q stored ≡ ok (c, q_first)
    → apply_versioned_inventory_changed p q_first ≡ ok (d, p_last)
    → ((t : Text) → type_state t (source q_last) ≡ type_state t (source p_last))
      × (event_state (source q_last) ≡ event_state (source p_last))
deliveries_commute p q stored p_first q_first p_last q_last {a} {b} {c} {d} consistent h₁ h₂ h₃ h₄ =
    let j₁ = apply_versioned-Joins p stored p_first a h₁ in
    let j₂ = apply_versioned-Joins q p_first q_last b h₂ in
    let j₃ = apply_versioned-Joins q stored q_first c h₃ in
    let j₄ = apply_versioned-Joins p q_first p_last d h₄ in
    (
      λ t.
          j₂.type t
          ∙ ap (join_type_at q t) (j₁.type t)
          ∙ sym (join_type_at-commutes p q t (type_state t (source stored)) consistent)
          ∙ sym (j₄.type t ∙ ap (join_type_at p t) (j₃.type t)),
      j₂.event
          ∙ ap (join_event q) j₁.event
          ∙ sym (join_event-commutes p q (event_state (source stored)) consistent)
          ∙ sym (j₄.event ∙ ap (join_event p) j₃.event),
    )

guard_type-again :
    (p : Payload) (x y : TypeDocument) {c : Bool}
    → guard_type p x ≡ ok (c, y)
    → guard_type p y ≡ ok (false, y)
unfolding guard_type
guard_type-again p x y h = ground (arith, text_refl p.ticket_type_name)

kept_itself : (p : Payload) → guard_type p (type_of_payload p) ≡ ok (false, type_of_payload p)
unfolding guard_type
kept_itself p = ground (arith, text_refl p.ticket_type_name)

again_here :
    (p : Payload) (x y : TypeDocument) (xs : List TypeDocument) {c : Bool}
    → x.ticket_type_id =t p.ticket_type_id ≡ true
    → guard_type p x ≡ ok (c, y)
    → guard_types p (y ∷ xs) ≡ ok (false, y ∷ xs)
unfolding guard_types
again_here p x y xs same one =
    let named : y.ticket_type_id =t p.ticket_type_id ≡ true = unfold guard_type in ground arith in
    rw named (rw (guard_type-again p x y one) refl)

guard_types-again :
    (p : Payload) (xs ys : List TypeDocument) (c : Bool)
    → guard_types p xs ≡ ok (c, ys)
    → guard_types p ys ≡ ok (false, ys)
unfolding guard_types
guard_types-again p [] ys c h =
    let same : type_of_payload p ∷ [] ≡ ys = ground arith in
    subst (λ zs. guard_types p zs ≡ ok (false, zs)) same
      (rw (text_refl p.ticket_type_id) (
        rw (guard_type-again p (type_of_payload p) (type_of_payload p) {c = false} (kept_itself p))
          refl))
guard_types-again p (x ∷ xs) ys c h = elim (walk p x xs ys c h) [
  | here y same one put_back ↦
      subst (λ zs. guard_types p zs ≡ ok (false, zs)) (sym put_back) (again_here p x y xs same one)
  | there zs other rest put_back ↦
      subst (λ us. guard_types p us ≡ ok (false, us)) (sym put_back)
        (rw other (rw (guard_types-again p xs zs c rest) refl))
]

guard_event-again :
    (p : Payload) (d e : Document) (x : Option Text) (ts : List TypeDocument) {c : Bool}
    → guard_event p d ≡ ok (c, e)
    → guard_event p (record e { event_id = x; ticket_types = ts })
      ≡ ok (false, record e { event_id = x; ticket_types = ts })
unfolding guard_event
guard_event-again p d e x ts h = ground arith

again_written :
    (p : Payload) (d e : Document) (types : List TypeDocument) (tc ec : Bool)
    → guard_types p d.ticket_types ≡ ok (tc, types)
    → guard_event p (record d { ticket_types = types }) ≡ ok (ec, e)
    → inventory_version_guard_script p (record e { event_id = some p.event_id }) ≡ ok noop
unfolding inventory_version_guard_script
again_written p d e types tc ec h₁ h₂ =
    rw (guard_event-join p (record d { ticket_types = types }) e h₂).1 (
      rw (guard_types-again p d.ticket_types types tc h₁) (
        rw (guard_event-again p (record d { ticket_types = types }) e (some p.event_id) types h₂)
          refl))

script-again :
    (p : Payload) (d e : Document)
    → inventory_version_guard_script p d ≡ ok (index e)
    → inventory_version_guard_script p e ≡ ok noop
unfolding inventory_version_guard_script
script-again p d e h =
    let ((tc, types), h₁, g₁) = >>=-eq-ok (guard_types p d.ticket_types) _ h in
    let ((ec, e'), h₂, g₂) = >>=-eq-ok (guard_event p (record d { ticket_types = types })) _ g₁ in
    let same : record e' { event_id = some p.event_id } ≡ e = ground (arith, g₂) in
    subst (λ z. inventory_version_guard_script p z ≡ ok noop) same
      (again_written p d e' types tc ec h₁ h₂)

-- A payload that is delivered again is stale, and the document stays as it is.
pub redelivery_is_stale :
    (p : Payload) (stored after : Option Document) (a : Applied)
    → apply_versioned_inventory_changed p stored ≡ ok (a, after)
    → apply_versioned_inventory_changed p after ≡ ok (stale, after)
unfolding apply_versioned_inventory_changed
redelivery_is_stale p stored after a h =
    let (op, ran, rest) = >>=-eq-ok (inventory_version_guard_script p (source stored)) _ h in
    go op ran rest
  where
    go :
        (op : Operation)
        → inventory_version_guard_script p (source stored) ≡ ok op
        → (elim op as (λ o. Result ScriptError (Applied × Option Document)) [
          | noop ↦ ok (stale, stored)
          | index d ↦ ok (applied, some d)
        ])
          ≡ ok (a, after)
        → apply_versioned_inventory_changed p after ≡ ok (stale, after)
    go noop ran rest =
        let same : stored ≡ after = ground arith in
        subst (λ z. apply_versioned_inventory_changed p z ≡ ok (stale, z)) same (rw ran refl)
    go (index d) ran rest =
        let same : some d ≡ after = ground arith in
        subst (λ z. apply_versioned_inventory_changed p z ≡ ok (stale, z)) same
          (rw (script-again p (source stored) d ran) refl)
