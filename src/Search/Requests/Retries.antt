-- ===== src/Search/Requests/Retries.antt =====
-- src/search/events-projection.store.ts: runWithConflictRetry, with what it does to the versions of a
-- document.
use ticket_c2c_platform.Prelude.{
  ℕ, zero, suc, ◌+◌, ◌≤◌, ◌<◌, ◌≡◌, refl, ap, sym, ◌∙◌, inl, inr, Option, none, some, Text, ◌=t◌,
  Result, ok, err, arith, Result-cases, text_refl, Bool-cases, subst, ltb,
}
use ticket_c2c_platform.Messaging.InventoryEvent.{Payload}
use ticket_c2c_platform.Search.Projection.{TypeDocument, Document, ScriptError, source}
use ticket_c2c_platform.Search.Projection.Versions.{
  type_state, EventState, event_state, join_event, join_type, join_type_at, Joins,
}
use ticket_c2c_platform.Search.Requests.{
  Fate, through, conflict, refused, lost, Attempt, UpdateError, Script, Reply, attempt,
  version_conflict, unavailable, script, retry,
}

-- The index has a version of a Ticket Type, or of an event, that is at least the given one.
pub data HasType (v : ℕ) : Option TypeDocument → Type 0 where
  has_type : (x : TypeDocument) → v ≤ x.inventory_version → HasType v (some x)

pub data HasEvent (v : ℕ) : Option ℕ → Type 0 where
  has_event : (w : ℕ) → v ≤ w → HasEvent v (some w)

-- The document says of the payload's Ticket Type and of its event what the payload says, or
-- something newer.
pub record Reflects (p : Payload) (d : Document) : Type 0 where
  pub type_known : HasType p.inventory_version (type_state p.ticket_type_id d)
  pub event_known : HasEvent p.event_inventory_version (event_state d).version

join_type_at-HasType :
    (p : Payload) (x : Option TypeDocument)
    → HasType p.inventory_version (join_type_at p p.ticket_type_id x)
unfolding join_type_at join_type
join_type_at-HasType p none = rw (text_refl p.ticket_type_id) (has_type _ (omega arith))
join_type_at-HasType p (some x) = rw (text_refl p.ticket_type_id) (has_type _ (ground arith))

join_event-HasEvent :
    (p : Payload) (s : EventState) (o : Option ℕ)
    → s.version ≡ o
    → HasEvent p.event_inventory_version (join_event p s).version
unfolding join_event
join_event-HasEvent p s none e = rw e (has_event _ (omega arith))
join_event-HasEvent p s (some w) e = elim (Bool-cases (ltb w p.event_inventory_version)) [
  | inl newer ↦ rw (e, newer) (has_event _ (omega arith))
  | inr older ↦ rw (e, older) (has_event w (ground arith))
]

join_type_at_keeps :
    (p : Payload) (t : Text) (v : ℕ) (x : Option TypeDocument)
    → HasType v x
    → HasType v (join_type_at p t x)
unfolding join_type_at join_type
join_type_at_keeps p t v _ (has_type x known) = elim (Bool-cases (p.ticket_type_id =t t)) [
  | inl own ↦ rw own (has_type _ (ground arith))
  | inr other ↦ rw other (has_type x known)
]

join_event_keeps :
    (p : Payload) (s : EventState) (v : ℕ) (o : Option ℕ)
    → s.version ≡ o
    → HasEvent v o
    → HasEvent v (join_event p s).version
unfolding join_event
join_event_keeps p s v _ e (has_event w known) =
    elim (Bool-cases (ltb w p.event_inventory_version)) [
      | inl newer ↦ rw (e, newer) (has_event _ (ground arith))
      | inr older ↦ rw (e, older) (has_event w known)
    ]

pub applied-Reflects : (p : Payload) (old new : Document) → Joins p old new → Reflects p new
applied-Reflects p old new j = record {
  type_known =
      rw (j.type p.ticket_type_id) (join_type_at-HasType p (type_state p.ticket_type_id old));
  event_known =
      subst (λ s. HasEvent p.event_inventory_version s.version) (sym j.event)
        (join_event-HasEvent p (event_state old) _ refl);
}

pub kept-Reflects :
    (p q : Payload) (old new : Document) → Joins p old new → Reflects q old → Reflects q new
kept-Reflects p q old new j r = record {
  type_known =
      rw (j.type q.ticket_type_id) (join_type_at_keeps p q.ticket_type_id _ _ r.type_known);
  event_known =
      subst (λ s. HasEvent q.event_inventory_version s.version) (sym j.event)
        (join_event_keeps p (event_state old) _ _ refl r.event_known);
}

-- What other clients do to a document may not take it back before a payload that it reflects.
abbrev pub Advances : (Option Document → Option Document) → Type 0
Advances f = (p : Payload) (d : Option Document) → Reflects p (source d) → Reflects p (source (f d))

abbrev pub AdvancesBy : {A : Type 0} → Script A → Type 0
AdvancesBy {A} op =
    (p : Payload) (d : Option Document) (x : A) (e : Option Document)
    → op d ≡ ok (x, e)
    → Reflects p (source d)
    → Reflects p (source e)

-- How one request ends.
pub data Attempted {A : Type 0} (op : Script A) (d : Option Document) : Reply A → Type 0 where
  untouched : (e : UpdateError) → Attempted op d (d, err e)
  lost_reply :
      (x : A) (e : Option Document) (u : UpdateError) → op d ≡ ok (x, e) → Attempted op d (e, err u)
  executed : (x : A) (e : Option Document) → op d ≡ ok (x, e) → Attempted op d (e, ok x)

module _ {A : Type 0} (op : Script A) where
  attempt-Attempted :
      (a : Attempt) (d : Option Document) (f : Fate) (r : Result ScriptError (A × Option Document))
      → a.fate ≡ f
      → op (a.others d) ≡ r
      → Attempted op (a.others d) (attempt a op d)
  unfolding attempt
  attempt-Attempted a d through (err x) e h = rw (e, h, attempt) (untouched (script x))
  attempt-Attempted a d through (ok r) e h = rw (e, h, attempt) (executed r.0 r.1 h)
  attempt-Attempted a d conflict r e h = rw (e, attempt) (untouched version_conflict)
  attempt-Attempted a d refused r e h = rw (e, attempt) (untouched unavailable)
  attempt-Attempted a d lost (err x) e h = rw (e, h, attempt) (untouched unavailable)
  attempt-Attempted a d lost (ok r) e h = rw (e, h, attempt) (lost_reply r.0 r.1 unavailable h)

  attempted : (a : Attempt) (d : Option Document) → Attempted op (a.others d) (attempt a op d)
  attempted a d = attempt-Attempted a d a.fate (op (a.others d)) refl refl

  Attempted-Advances :
      (d : Option Document) (r : Reply A)
      → AdvancesBy op
      → Attempted op d r
      → (p : Payload) → Reflects p (source d)
      → Reflects p (source r.0)
  Attempted-Advances d _ advances (untouched e) p h = h
  Attempted-Advances d _ advances (lost_reply x e u ran) p h = advances p d x e ran h
  Attempted-Advances d _ advances (executed x e ran) p h = advances p d x e ran h

  attempt-Advances :
      (a : Attempt) → Advances a.others → AdvancesBy op → Advances (λ d. (attempt a op d).0)
  attempt-Advances a others advances p d h =
      Attempted-Advances (a.others d) _ advances (attempted a d) p (others p d h)

  Attempted-ok :
      (d : Option Document) (r : Reply A) (x : A)
      → Attempted op d r
      → r.1 ≡ ok x
      → op d ≡ ok (x, r.0)
  Attempted-ok d _ x (untouched e) h = cc
  Attempted-ok d _ x (lost_reply y e u ran) h = cc
  Attempted-ok d _ x (executed y e ran) h = cc

  -- How the first of several attempts goes on: it is the last, or there was a conflict.
  pub data Retried (left k : ℕ) (attempts : ℕ → Attempt) (d : Option Document) : Type 0 where
    ended : retry (suc left) k attempts op d ≡ attempt (attempts k) op d → Retried left k attempts d
    again :
        (attempt (attempts k) op d).1 ≡ err version_conflict
        → retry (suc left) k attempts op d
          ≡ retry left (k + 1) attempts op (attempt (attempts k) op d).0
        → Retried left k attempts d

  retried : (left k : ℕ) (attempts : ℕ → Attempt) (d : Option Document) → Retried left k attempts d
  unfolding retry
  retried left k attempts d = elim (Result-cases (attempt (attempts k) op d).1) [
    | inl (version_conflict, h) ↦ again h (rw (h, retry) refl)
    | inl (unavailable, h) ↦
        ended (rw (h, retry) (ap (λ r. ((attempt (attempts k) op d).0, r)) (sym h)))
    | inl (script e, h) ↦
        ended (rw (h, retry) (ap (λ r. ((attempt (attempts k) op d).0, r)) (sym h)))
    | inr (x, h) ↦ ended (rw (h, retry) (ap (λ r. ((attempt (attempts k) op d).0, r)) (sym h)))
  ]

  -- Retried updates may only advance a document, and an update that returns was executed on the
  -- document that it left.
  pub retry-Advances :
      (left k : ℕ) (attempts : ℕ → Attempt)
      → ((n : ℕ) → Advances (attempts n).others)
      → AdvancesBy op
      → Advances (λ d. (retry left k attempts op d).0)
  unfolding retry
  retry-Advances zero k attempts others advances p d h =
      attempt-Advances (attempts k) (others k) advances p d h
  retry-Advances (suc left) k attempts others advances p d h =
      let once = attempt-Advances (attempts k) (others k) advances p d h in
      elim (retried left k attempts d) [
        | ended e ↦ subst (λ r. Reflects p (source r.0)) (sym e) once
        | again c e ↦
            subst (λ r. Reflects p (source r.0)) (sym e)
              (retry-Advances left (k + 1) attempts others advances p _ once)
      ]

  pub retry-executed :
      (left k : ℕ) (attempts : ℕ → Attempt) (d : Option Document) (x : A)
      → (retry left k attempts op d).1 ≡ ok x
      → (e : Option Document) × (op e ≡ ok (x, (retry left k attempts op d).0))
  unfolding retry
  retry-executed zero k attempts d x h =
      ((attempts k).others d, Attempted-ok _ _ x (attempted (attempts k) d) h)
  retry-executed (suc left) k attempts d x h = elim (retried left k attempts d) [
    | ended e ↦
        let t = Attempted-ok _ _ x (attempted (attempts k) d) (sym (ap (λ r. r.1) e) ∙ h) in
        ((attempts k).others d, subst (λ r. op ((attempts k).others d) ≡ ok (x, r.0)) (sym e) t)
    | again c e ↦
        let (f, t) = retry-executed left (k + 1) attempts _ x (sym (ap (λ r. r.1) e) ∙ h) in
        (f, subst (λ r. op f ≡ ok (x, r.0)) (sym e) t)
  ]

  settled_attempt :
      (a : Attempt) (d : Option Document)
      → a.fate ≡ through
      → (attempt a op d).1 ≡ err version_conflict
      → ⊥
  unfolding attempt
  settled_attempt a d e h = elim (Result-cases (op (a.others d))) [
    | inl (x, ran) ↦ absurd (ground arith)
    | inr (r, ran) ↦ absurd (ground arith)
  ]

  conflict_attempt :
      (a : Attempt) (d : Option Document)
      → a.fate ≡ conflict
      → attempt a op d ≡ (a.others d, err version_conflict)
  unfolding attempt
  conflict_attempt a d e = rw (e, attempt) refl

  retry_first :
      (left k : ℕ) (attempts : ℕ → Attempt) (d : Option Document)
      → (attempts k).fate ≡ through
      → retry left k attempts op d ≡ attempt (attempts k) op d
  unfolding retry
  retry_first zero k attempts d settled = refl
  retry_first (suc left) k attempts d settled = elim (retried left k attempts d) [
    | ended e ↦ e
    | again c e ↦ absurd (settled_attempt (attempts k) d settled c)
  ]

  retry_next :
      (left k : ℕ) (attempts : ℕ → Attempt) (d : Option Document)
      → (attempts k).fate ≡ conflict
      → retry (suc left) k attempts op d ≡ retry left (k + 1) attempts op ((attempts k).others d)
  unfolding retry
  retry_next left k attempts d c =
      let e = conflict_attempt (attempts k) d c in
      rw (ap (λ r. r.1) e, retry) (ap (λ r. retry left (k + 1) attempts op r.0) e)

  -- If fewer attempts conflict than are made, and no one else writes, the first that does not
  -- conflict settles the update.
  pub retry_settles :
      (left k n : ℕ) (attempts : ℕ → Attempt) (d : Option Document)
      → n ≤ left
      → ((i : ℕ) → (attempts i).others d ≡ d)
      → ((i : ℕ) → i < n → (attempts (k + i)).fate ≡ conflict)
      → (attempts (k + n)).fate ≡ through
      → retry left k attempts op d ≡ attempt (attempts (k + n)) op d
  retry_settles left k zero attempts d bound quiet conflicts settled =
      let here : k + 0 ≡ k = omega arith in
      rw here
        (retry_first left k attempts d (subst (λ j. (attempts j).fate ≡ through) here settled))
  retry_settles zero k (suc n) attempts d bound quiet conflicts settled = absurd (omega arith)
  retry_settles (suc left) k (suc n) attempts d bound quiet conflicts settled =
      let here : k + 0 ≡ k = omega arith in
      let there : k + 1 + n ≡ k + suc n = omega arith in
      let first : (attempts k).fate ≡ conflict =
        subst (λ j. (attempts j).fate ≡ conflict) here (conflicts 0 (omega arith)) in
      let rest =
        retry_settles left (k + 1) n attempts d (omega arith) quiet
          (λ i below.
            subst (λ j. (attempts j).fate ≡ conflict) (omega arith)
              (conflicts (suc i) (omega arith)))
          (subst (λ j. (attempts j).fate ≡ through) (sym there) settled) in
      retry_next left k attempts d first
      ∙ ap (λ e. retry left (k + 1) attempts op e) (quiet k)
      ∙ subst (λ j. retry left (k + 1) attempts op d ≡ attempt (attempts j) op d) there rest
