-- ===== src/Cache/Keys/Distinct.antt =====
-- The counters of the two namespaces, and that no two of their keys coincide by accident.
use ticket_c2c_platform.Prelude.{
  ◌+◌, ◌≡◌, refl, sym, ◌∙◌, Bool, true, false, ◌&&◌, ◌++◌, Text, codes, ◌=t◌, text_refl,
  text_append_eq, text_split_eq, text_size_ne, size, size-append, arith,
}
use ticket_c2c_platform.Validation.{is_uuid, size-uuid}
use ticket_c2c_platform.Cache.Keys.{
  event_counter_key, event_counter_version_key, ticket_type_counter_key,
  ticket_type_counter_revision_key,
}

-- A counter: of an event, or of a Ticket Type of an event.
pub data Counter : Type 0 where
  of_event : Text → Counter
  of_type : Text → Text → Counter

unfoldable pub counter_key : Counter → Text
counter_key (of_event e) = event_counter_key e
counter_key (of_type e t) = ticket_type_counter_key e t

-- The key of the change count that stands beside a counter.
unfoldable pub version_key : Counter → Text
version_key (of_event e) = event_counter_version_key e
version_key (of_type e t) = ticket_type_counter_revision_key e t

abbrev pub same : Counter → Counter → Bool
same (of_event e) (of_event e') = e =t e'
same (of_type e t) (of_type e' t') = e =t e' && t =t t'
same _ _ = false

-- A counter whose ids are UUIDs.
abbrev pub HasUuids : Counter → Type 0
HasUuids (of_event e) = is_uuid e ≡ true
HasUuids (of_type e t) = (is_uuid e ≡ true) × (is_uuid t ≡ true)

size-event_key : (e : Text) → is_uuid e ≡ true → size (event_counter_key e) ≡ 46
unfolding event_counter_key
size-event_key e h = omega (arith, size-uuid e h)

size-event_version_key : (e : Text) → is_uuid e ≡ true → size (event_counter_version_key e) ≡ 48
unfolding event_counter_version_key
size-event_version_key e h = omega (arith, size-uuid e h, size-append e (codes ":v"))

scope_size :
    (e t suffix : Text)
    → is_uuid e ≡ true
    → is_uuid t ≡ true
    → size (e ++ (codes ":" ++ (t ++ suffix))) ≡ 73 + size suffix
scope_size e t suffix he ht = omega (
  arith,
  size-uuid e he,
  size-uuid t ht,
  size-append e (codes ":" ++ (t ++ suffix)),
  size-append t suffix,
)

size-type_key :
    (e t : Text) → is_uuid e ≡ true → is_uuid t ≡ true → size (ticket_type_counter_key e t) ≡ 107
unfolding ticket_type_counter_key
size-type_key e t he ht = omega (arith, scope_size e t (codes "}:remaining") he ht)

size-type_revision_key :
    (e t : Text)
    → is_uuid e ≡ true
    → is_uuid t ≡ true
    → size (ticket_type_counter_revision_key e t) ≡ 106
unfolding ticket_type_counter_revision_key
size-type_revision_key e t he ht = omega (arith, scope_size e t (codes "}:revision") he ht)

and_true : (b : Bool) → (b && true) ≡ b
and_true true = refl
and_true false = refl

-- Two keys of one form agree when their ids do.
scope_eq :
    (e t e' t' suffix : Text)
    → is_uuid e ≡ true
    → is_uuid t ≡ true
    → is_uuid e' ≡ true
    → is_uuid t' ≡ true
    → (e ++ (codes ":" ++ (t ++ suffix))) =t (e' ++ (codes ":" ++ (t' ++ suffix)))
      ≡ (e =t e' && t =t t')
scope_eq e t e' t' suffix he ht he' ht' = rw (
  text_split_eq e e' (codes ":" ++ (t ++ suffix)) (codes ":" ++ (t' ++ suffix))
      (size-uuid e he ∙ sym (size-uuid e' he')),
  text_append_eq (codes ":") (t ++ suffix) (t' ++ suffix),
  text_split_eq t t' suffix suffix (size-uuid t ht ∙ sym (size-uuid t' ht')),
  text_refl suffix,
  and_true (t =t t'),
)

event_key_eq : (e e' : Text) → event_counter_key e =t event_counter_key e' ≡ e =t e'
unfolding event_counter_key
event_key_eq e e' = text_append_eq (codes "inventory:") e e'

event_version_eq :
    (e e' : Text)
    → is_uuid e ≡ true
    → is_uuid e' ≡ true
    → event_counter_version_key e =t event_counter_version_key e' ≡ e =t e'
unfolding event_counter_version_key
event_version_eq e e' h h' =
    text_append_eq (codes "inventory:") (e ++ codes ":v") (e' ++ codes ":v")
    ∙ text_split_eq e e' (codes ":v") (codes ":v") (size-uuid e h ∙ sym (size-uuid e' h'))
    ∙ rw (text_refl (codes ":v"), and_true (e =t e'))

pub counter_key_eq :
    (c d : Counter) → HasUuids c → HasUuids d → counter_key c =t counter_key d ≡ same c d
unfolding counter_key
counter_key_eq (of_event e) (of_event e') h h' = event_key_eq e e'
counter_key_eq (of_type e t) (of_type e' t') h h' =
    (unfold ticket_type_counter_key in
      text_append_eq (codes "inventory:ticket-type:{") _ _
      ∙ scope_eq e t e' t' (codes "}:remaining") h.0 h.1 h'.0 h'.1)
counter_key_eq (of_event e) (of_type e' t') h h' =
    text_size_ne _ _ (omega (arith, size-event_key e h, size-type_key e' t' h'.0 h'.1))
counter_key_eq (of_type e t) (of_event e') h h' =
    text_size_ne _ _ (omega (arith, size-event_key e' h', size-type_key e t h.0 h.1))

pub version_key_eq :
    (c d : Counter) → HasUuids c → HasUuids d → version_key c =t version_key d ≡ same c d
unfolding version_key
version_key_eq (of_event e) (of_event e') h h' = event_version_eq e e' h h'
version_key_eq (of_type e t) (of_type e' t') h h' =
    (unfold ticket_type_counter_revision_key in
      text_append_eq (codes "inventory:ticket-type:{") _ _
      ∙ scope_eq e t e' t' (codes "}:revision") h.0 h.1 h'.0 h'.1)
version_key_eq (of_event e) (of_type e' t') h h' =
    text_size_ne _ _
      (omega (arith, size-event_version_key e h, size-type_revision_key e' t' h'.0 h'.1))
version_key_eq (of_type e t) (of_event e') h h' =
    text_size_ne _ _
      (omega (arith, size-event_version_key e' h', size-type_revision_key e t h.0 h.1))

-- No counter's key is a version's.
pub counter_ne_version :
    (c d : Counter) → HasUuids c → HasUuids d → counter_key c =t version_key d ≡ false
unfolding counter_key version_key
counter_ne_version (of_event e) (of_event e') h h' =
    text_size_ne _ _ (omega (arith, size-event_key e h, size-event_version_key e' h'))
counter_ne_version (of_type e t) (of_type e' t') h h' =
    text_size_ne _ _
      (omega (arith, size-type_key e t h.0 h.1, size-type_revision_key e' t' h'.0 h'.1))
counter_ne_version (of_event e) (of_type e' t') h h' =
    text_size_ne _ _ (omega (arith, size-event_key e h, size-type_revision_key e' t' h'.0 h'.1))
counter_ne_version (of_type e t) (of_event e') h h' =
    text_size_ne _ _ (omega (arith, size-type_key e t h.0 h.1, size-event_version_key e' h'))
