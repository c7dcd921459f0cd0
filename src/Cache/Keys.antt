-- ===== src/Cache/Keys.antt =====
-- src/cache/inventory-cache.keys.ts
pub mod Distinct
use ticket_c2c_platform.Prelude.{
  ℕ, ◌==◌, ◌+◌, ◌≡◌, ◌≢◌, refl, sym, ap, ◌∙◌, subst, Bool, true, false, ◌&&◌, Option, none, some,
  List, [], ◌∷◌, ◌++◌, Text, codes, ◌=t◌, text_iff, text_refl, text_append_eq, text_split_eq,
  text_size_ne, size, size-append, if◌then◌else◌, arith, Option-cases, inl, inr,
}
use ticket_c2c_platform.Validation.{
  is_uuid, size-uuid, take_class, take_class-uuid, take_class-append,
}

-- inventory:<eventId>
unfoldable pub event_counter_key : Text → Text
event_counter_key e = codes "inventory:" ++ e

-- inventory:<eventId>:v
unfoldable pub event_counter_version_key : Text → Text
event_counter_version_key e = codes "inventory:" ++ (e ++ codes ":v")

abbrev type_scope : Text → Text → Text → Text
type_scope e t suffix = codes "inventory:ticket-type:{" ++ (e ++ (codes ":" ++ (t ++ suffix)))

-- inventory:ticket-type:{<eventId>:<ticketTypeId>}:remaining
unfoldable pub ticket_type_counter_key : Text → Text → Text
ticket_type_counter_key e t = type_scope e t (codes "}:remaining")

-- inventory:ticket-type:{<eventId>:<ticketTypeId>}:revision
unfoldable pub ticket_type_counter_revision_key : Text → Text → Text
ticket_type_counter_revision_key e t = type_scope e t (codes "}:revision")

-- purchase-request:<buyerId>:<eventId>:<requestId>
unfoldable pub purchase_request_seen_key : Text → Text → Text → Text
purchase_request_seen_key b e r =
    codes "purchase-request:" ++ (b ++ (codes ":" ++ (e ++ (codes ":" ++ r))))

pub record TicketTypeCounterKeyParts : Type 0 where
  pub event_id : Text
  pub ticket_type_id : Text

unfoldable pub strip_prefix : Text → Text → Option Text
strip_prefix [] s = some s
strip_prefix (p ∷ ps) [] = none
strip_prefix (p ∷ ps) (c ∷ s) = if p == c then strip_prefix ps s else none

infixl 5 ◌>>=◌
abbrev ◌>>=◌ : {A B : Type 0} → Option A → (A → Option B) → Option B
none >>= f = none
some a >>= f = f a

-- TICKET_TYPE_COUNTER_KEY_PATTERN, with its two groups
match_counter_key : Text → Option (Text × Text)
unfolding strip_prefix
match_counter_key key = do
  s ← strip_prefix (codes "inventory:ticket-type:{") key
  (event_id, after_event) ← take_class 36 s
  u ← strip_prefix (codes ":") after_event
  (type_id, after_type) ← take_class 36 u
  end ← strip_prefix (codes "}:remaining") after_type
  if end =t [] then some (event_id, type_id) else none

-- parseTicketTypeCounterKey
unfoldable pub parse_ticket_type_counter_key : Text → Option TicketTypeCounterKeyParts
unfolding match_counter_key
parse_ticket_type_counter_key key = do
  (event_id, type_id) ← match_counter_key key
  if is_uuid event_id && is_uuid type_id
      then some (record { event_id = event_id; ticket_type_id = type_id })
      else none

strip_prefix-append : (p s : Text) → strip_prefix p (p ++ s) ≡ some s
unfolding strip_prefix
strip_prefix-append [] s = refl
strip_prefix-append (c ∷ p) s = ground (arith, strip_prefix-append p s)

strip_prefix_sound : (p s : Text) {rest : Text} → strip_prefix p s ≡ some rest → s ≡ p ++ rest
unfolding strip_prefix
strip_prefix_sound [] s h = ground arith
strip_prefix_sound (c ∷ p) [] h = cc
strip_prefix_sound (c ∷ p) (d ∷ s) {rest} h = ground (arith, strip_prefix_sound p s {rest = rest})

-- The parser inverts ticketTypeCounterKey on UUIDs.
pub parse-ticket_type_counter_key :
    (e t : Text)
    → is_uuid e ≡ true
    → is_uuid t ≡ true
    → parse_ticket_type_counter_key (ticket_type_counter_key e t)
      ≡ some (record { event_id = e; ticket_type_id = t })
unfolding parse_ticket_type_counter_key ticket_type_counter_key
parse-ticket_type_counter_key e t he ht = ground (
  arith,
  strip_prefix-append (codes "inventory:ticket-type:{")
      (e ++ (codes ":" ++ (t ++ codes "}:remaining"))),
  take_class-uuid e (codes ":" ++ (t ++ codes "}:remaining")) he,
  strip_prefix-append (codes ":") (t ++ codes "}:remaining"),
  take_class-uuid t (codes "}:remaining") ht,
  strip_prefix-append (codes "}:remaining") [],
  text_refl [],
)

bind-some :
    {A B : Type 0} (m : Option A) (f : A → Option B) {b : B}
    → (m >>= f) ≡ some b
    → (a : A) × (m ≡ some a) × (f a ≡ some b)
bind-some none f h = cc
bind-some (some a) f h = (a, refl, h)

match_sound :
    (key : Text) (m : Text × Text)
    → match_counter_key key ≡ some m
    → key ≡ ticket_type_counter_key m.0 m.1
unfolding match_counter_key ticket_type_counter_key
match_sound key m h =
    let (s, p₁, h₁) = bind-some (strip_prefix (codes "inventory:ticket-type:{") key) _ h in
    let (a, p₂, h₂) = bind-some (take_class 36 s) _ h₁ in
    let (u, p₃, h₃) = bind-some (strip_prefix (codes ":") a.1) _ h₂ in
    let (b, p₄, h₄) = bind-some (take_class 36 u) _ h₃ in
    let (end, p₅, h₅) = bind-some (strip_prefix (codes "}:remaining") b.1) _ h₄ in
    glue key s a u b end m (strip_prefix_sound (codes "inventory:ticket-type:{") key p₁)
      (take_class-append 36 s p₂) (strip_prefix_sound (codes ":") a.1 p₃)
      (take_class-append 36 u p₄) (strip_prefix_sound (codes "}:remaining") b.1 p₅) h₅
  where
    glue :
        (k s : Text) (a : Text × Text) (u : Text) (b : Text × Text) (end : Text) (m' : Text × Text)
        → k ≡ codes "inventory:ticket-type:{" ++ s
        → s ≡ a.0 ++ a.1
        → a.1 ≡ codes ":" ++ u
        → u ≡ b.0 ++ b.1
        → b.1 ≡ codes "}:remaining" ++ end
        → (if end =t [] then some (a.0, b.0) else none) ≡ some m'
        → k ≡ type_scope m'.0 m'.1 (codes "}:remaining")
    glue k s a u b end m' q₁ q₂ q₃ q₄ q₅ q₆ = ground (arith, text_iff end [])

-- What the parser accepts is the counter key of the two UUIDs that it returns, and nothing else.
pub parse_ticket_type_counter_key_sound :
    (key : Text) (p : TicketTypeCounterKeyParts)
    → parse_ticket_type_counter_key key ≡ some p
    → (key ≡ ticket_type_counter_key p.event_id p.ticket_type_id)
      × (is_uuid p.event_id ≡ true)
      × (is_uuid p.ticket_type_id ≡ true)
unfolding parse_ticket_type_counter_key
parse_ticket_type_counter_key_sound key p h = elim (Option-cases (match_counter_key key)) [
  | inl miss ↦ absurd (ground arith)
  | inr (m, hit) ↦ ground (arith, match_sound key m hit)
]
