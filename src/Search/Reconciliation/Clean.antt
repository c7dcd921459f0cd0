-- ===== src/Search/Reconciliation/Clean.antt =====
-- src/search/inventory-reconciliation.service.ts: compareEvent beside the versioned script of
-- src/search/events-projection.store.ts.
use ticket_c2c_platform.Prelude.{
  ℕ, ◌≡◌, ◌≤◌, refl, sym, ap, subst, Bool, true, false, ◌&&◌, not, inl, inr, ◌⊎◌, ◌∙◌, Option, none,
  some, List, [], ◌∷◌, ◌++◌, Text, ◌=t◌, if◌then◌else◌, ok, arith, Bool-cases, Every, Every-mono,
  Option-cases, is_some, find_row, count_rows,
}
use ticket_c2c_platform.Search.Projection.{
  TypeDocument, Document, guard_type, guard_types, guard_event, noop, as_long,
  inventory_version_guard_script,
}
use ticket_c2c_platform.Search.Repair.{
  AuthoritativeTicketType, AuthoritativeEventInventory, same_values, has_document_type, read_field,
  as_quantity_or_null, as_version_or_null,
}
use ticket_c2c_platform.Search.Repair.Convergence.{current_payload}
use ticket_c2c_platform.Search.Reconciliation.{
  Finding, find_last, last_of, compare_found, compare_types, compare_versioned, compare_unversioned,
  compare_read, compare_numbers, of_event_when, metadata_mismatch, no_types, compare_type,
  compare_event, unexpected_types,
}

nothing_appended : (xs ys : List Finding) → xs ++ ys ≡ [] → (xs ≡ []) × (ys ≡ [])
nothing_appended [] ys h = (refl, h)
nothing_appended (x ∷ xs) ys h = ground (arith)

-- The element has the values of the database at its version.
abbrev pub InStep : AuthoritativeTicketType → TypeDocument → Type 0
InStep a x = (x.inventory_version ≡ a.inventory_version) × (same_values a x ≡ true)

compare_found-InStep :
    (a : AuthoritativeTicketType) (x : TypeDocument) → compare_found a x ≡ [] → InStep a x
unfolding compare_found
compare_found-InStep a x h = (ground (arith), ground (arith))

last_of-cases :
    (b : Bool) (y : TypeDocument) (o : Option TypeDocument) (x : TypeDocument)
    → last_of b y o ≡ some x
    → (o ≡ some x) ⊎ ((b ≡ true) × (y ≡ x))
last_of-cases b y (some z) x h = inl h
last_of-cases true y none x h = inr (refl, ground (arith))
last_of-cases false y none x h = ground (arith)

find_last-count :
    (t : Text) (xs : List TypeDocument) (x : TypeDocument)
    → find_last t xs ≡ some x
    → 1 ≤ count_rows (has_document_type t) xs
unfolding find_last count_rows
find_last-count t [] x h = ground (arith)
find_last-count t (y ∷ ys) x h =
    elim (last_of-cases (has_document_type t y) y (find_last t ys) x h) [
      | inl later ↦ ground (arith, find_last-count t ys x later)
      | inr here ↦ rw here.0 (omega arith)
    ]

find_last-find_row :
    (t : Text) (xs : List TypeDocument) (x : TypeDocument)
    → count_rows (has_document_type t) xs ≤ 1
    → find_last t xs ≡ some x
    → find_row (has_document_type t) xs ≡ some x
unfolding find_last count_rows find_row
find_last-find_row t [] x one h = h
find_last-find_row t (y ∷ ys) x one h =
    elim (last_of-cases (has_document_type t y) y (find_last t ys) x h) [
      | inr here ↦ rw here.0 (ap some here.1)
      | inl later ↦ elim (Bool-cases (has_document_type t y)) [
        | inl twice ↦ ground (arith, find_last-count t ys x later)
        | inr once ↦ rw once (find_last-find_row t ys x (ground (arith)) later)
      ]
    ]

compare_types-Every :
    (as' : List AuthoritativeTicketType) (ts : List TypeDocument)
    → compare_types as' ts ≡ []
    → Every (λ a. compare_type a ts ≡ []) as'
unfolding compare_types Every
compare_types-Every [] ts h = tt
compare_types-Every (a ∷ rest) ts h =
    let (own, others) = nothing_appended (compare_type a ts) (compare_types rest ts) h in
    (own, compare_types-Every rest ts others)

guard_type-InStep :
    (e : AuthoritativeEventInventory) (a : AuthoritativeTicketType) (x : TypeDocument)
    → InStep a x
    → guard_type (current_payload e a) x ≡ ok (false, x)
unfolding guard_type
guard_type-InStep e a x same = ground (arith)

found_first :
    {t x : TypeDocument} {b : Bool} (o : Option TypeDocument)
    → b ≡ true
    → (if b then some t else o) ≡ some x
    → t ≡ x
found_first {b = true} o own h = ground (arith)
found_first {b = false} o own h = ground (arith)

guard_types-InStep :
    (e : AuthoritativeEventInventory) (a : AuthoritativeTicketType) (x : TypeDocument)
    (ts : List TypeDocument)
    → find_row (has_document_type a.ticket_type_id) ts ≡ some x
    → InStep a x
    → guard_types (current_payload e a) ts ≡ ok (false, ts)
unfolding guard_types guard_type find_row
guard_types-InStep e a x [] h same = ground (arith)
guard_types-InStep e a x (t ∷ ts) h same =
    elim (Bool-cases (t.ticket_type_id =t a.ticket_type_id)) [
      | inl own ↦
          rw (own, guard_type-InStep e a t (subst (InStep a) (sym (found_first _ own h)) same)) refl
      | inr other ↦ rw (other, guard_types-InStep e a x ts (ground (arith)) same) refl
    ]

guard_event-InStep :
    (e : AuthoritativeEventInventory) (a : AuthoritativeTicketType) (d : Document) (v n m : ℕ)
    → d.event_inventory_version ≡ some v
    → d.event_total_quantity ≡ some n
    → d.event_remaining_quantity ≡ some m
    → v ≡ e.event_inventory_version
    → n ≡ e.event_total_quantity
    → m ≡ e.event_remaining_quantity
    → guard_event (current_payload e a) d ≡ ok (false, d)
unfolding guard_event as_long
guard_event-InStep e a d v n m p q r p' q' r' = rw (p, q, r, p', q', r') (ground (arith))

read_quantity : (o : Option ℕ) (n : ℕ) → read_field as_quantity_or_null o ≡ some n → o ≡ some n
read_quantity none n h = h
read_quantity (some k) n h = ground (arith)

read_version : (o : Option ℕ) (n : ℕ) → read_field as_version_or_null o ≡ some n → o ≡ some n
read_version none n h = h
read_version (some k) n h = ground (arith)

-- What a comparison without findings says of the document
record Current (e : AuthoritativeEventInventory) (d : Document) : Type 0 where
  pub version : d.event_inventory_version ≡ some e.event_inventory_version
  pub total : d.event_total_quantity ≡ some e.event_total_quantity
  pub remaining : d.event_remaining_quantity ≡ some e.event_remaining_quantity
  pub types : compare_types e.ticket_types d.ticket_types ≡ []

compare_numbers-equal :
    (e : AuthoritativeEventInventory) (v n m : ℕ)
    → compare_numbers e v n m ≡ []
    → (v ≡ e.event_inventory_version)
      × (n ≡ e.event_total_quantity)
      × (m ≡ e.event_remaining_quantity)
unfolding compare_numbers
compare_numbers-equal e v n m h = (ground (arith), ground (arith), ground (arith))

compare_versioned-Current :
    (e : AuthoritativeEventInventory) (matches : Document → Bool) (d : Document) (v n m : ℕ)
    → d.event_inventory_version ≡ some v
    → d.event_total_quantity ≡ some n
    → d.event_remaining_quantity ≡ some m
    → compare_versioned e matches d v n m ≡ []
    → Current e d
unfolding compare_versioned
compare_versioned-Current e matches d v n m p q r h =
    let types = compare_types e.ticket_types d.ticket_types in
    let unexpected = unexpected_types e.ticket_types [] d.ticket_types in
    let metadata = of_event_when (not (matches d)) metadata_mismatch in
    let numbers = compare_numbers e v n m in
    let known = (nothing_appended (numbers ++ metadata ++ types) unexpected h).0 in
    let (before, listed) = nothing_appended (numbers ++ metadata) types known in
    let event = (nothing_appended numbers metadata before).0 in
    let (v', n', m') = compare_numbers-equal e v n m event in
    record {
      version = p ∙ ap some v';
      total = q ∙ ap some n';
      remaining = r ∙ ap some m';
      types = listed;
    }

compare_read-Current :
    (e : AuthoritativeEventInventory) (matches : Document → Bool) (d : Document)
    (o o' o'' : Option ℕ)
    → ((n : ℕ) → o ≡ some n → d.event_inventory_version ≡ some n)
    → ((n : ℕ) → o' ≡ some n → d.event_total_quantity ≡ some n)
    → ((n : ℕ) → o'' ≡ some n → d.event_remaining_quantity ≡ some n)
    → compare_read e matches d o o' o'' ≡ []
    → Current e d
unfolding compare_read
compare_read-Current e matches d (some v) (some n) (some m) p q r h =
    compare_versioned-Current e matches d v n m (p v refl) (q n refl) (r m refl) h
compare_read-Current e matches d none o' o'' p q r h = ground (arith)
compare_read-Current e matches d (some v) none o'' p q r h = ground (arith)
compare_read-Current e matches d (some v) (some n) none p q r h = ground (arith)

compare_unversioned-found : (d : Document) → compare_unversioned d ≡ [] → true ≡ false
unfolding compare_unversioned
compare_unversioned-found d h = ground (arith)

compare_event-Current :
    (e : AuthoritativeEventInventory) (matches : Document → Bool) (listed : Bool) (d : Document)
    → compare_event e matches listed d ≡ []
    → Current e d
unfolding compare_event
compare_event-Current e matches listed d h =
    elim (Bool-cases (
      not (is_some d.event_inventory_version)
      && not (is_some d.event_total_quantity)
      && not (is_some d.event_remaining_quantity)
      && no_types d.ticket_types)) [
        | inl bare ↦ ground (arith, compare_unversioned-found d)
        | inr versioned ↦ elim (Bool-cases listed) [
          | inl array ↦
              compare_read-Current e matches d
                (read_field as_version_or_null d.event_inventory_version)
                (read_field as_quantity_or_null d.event_total_quantity)
                (read_field as_quantity_or_null d.event_remaining_quantity)
                (read_version d.event_inventory_version) (read_quantity d.event_total_quantity)
                (read_quantity d.event_remaining_quantity) (ground (arith))
          | inr other ↦ ground (arith)
        ]
      ]

compare_type-InStep :
    (a : AuthoritativeTicketType) (ts : List TypeDocument)
    → compare_type a ts ≡ []
    → (x : TypeDocument) × ((find_last a.ticket_type_id ts ≡ some x) × InStep a x)
unfolding compare_type
compare_type-InStep a ts h = elim (Option-cases (find_last a.ticket_type_id ts)) [
  | inl missing ↦ ground (arith)
  | inr (x, q) ↦ (x, (q, compare_found-InStep a x (ground (arith))))
]

nothing_to_write :
    (e : AuthoritativeEventInventory) (a : AuthoritativeTicketType) (d : Document)
    → ((t : Text) → count_rows (has_document_type t) d.ticket_types ≤ 1)
    → Current e d
    → compare_type a d.ticket_types ≡ []
    → inventory_version_guard_script (current_payload e a) d ≡ ok noop
unfolding inventory_version_guard_script
nothing_to_write e a d once current clean =
    let (x, (q, same)) = compare_type-InStep a d.ticket_types clean in
    let t = a.ticket_type_id in
    rw
      (
        guard_types-InStep e a x d.ticket_types (find_last-find_row t d.ticket_types x (once t) q)
            same,
        guard_event-InStep e a d e.event_inventory_version e.event_total_quantity
            e.event_remaining_quantity current.version current.total current.remaining refl refl
            refl,
      )
      refl

-- Where no two elements of the document have one id: when compareEvent finds nothing, the versioned
-- script has nothing to write for any of the event's Ticket Types, so that the event that says what
-- the database says is stale.
pub clean_document_is_current :
    (e : AuthoritativeEventInventory) (matches : Document → Bool) (listed : Bool) (d : Document)
    → ((t : Text) → count_rows (has_document_type t) d.ticket_types ≤ 1)
    → compare_event e matches listed d ≡ []
    → Every (λ a. inventory_version_guard_script (current_payload e a) d ≡ ok noop) e.ticket_types
clean_document_is_current e matches listed d once h =
    let current = compare_event-Current e matches listed d h in
    Every-mono _ _ e.ticket_types (λ a clean. nothing_to_write e a d once current clean)
      (compare_types-Every e.ticket_types d.ticket_types current.types)
