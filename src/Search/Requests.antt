-- ===== src/Search/Requests.antt =====
-- src/search/events-projection.store.ts: the update requests to OpenSearch: their retries on a
-- conflict of versions, and the classification of a location. `Attempt` holds what the client cannot
-- see coming: what others do to the document first, and how the request fares.
pub mod Retries
use ticket_c2c_platform.Prelude.{
  ℕ, zero, suc, ◌+◌, Bool, true, false, Option, none, some, Text, ◌=t◌, if◌then◌else◌, Result, ok,
  err, Map,
}
use ticket_c2c_platform.Json.{Json, JsNumber, undefined, null, num}
use ticket_c2c_platform.Search.Projection.{
  Document, ScriptError, Location, LocationDirective, set, clear, preserve,
}

-- A request is executed, conflicts, fails before it is executed, or loses its reply.
pub data Fate : Type 0 where
  through conflict refused lost : Fate

pub record Attempt : Type 0 where
  pub others : Option Document → Option Document
  pub fate : Fate

pub data UpdateError : Type 0 where
  version_conflict unavailable : UpdateError
  script : ScriptError → UpdateError

abbrev pub Script : Type 0 → Type 0
Script A = Option Document → Result ScriptError (A × Option Document)

abbrev pub Reply : Type 0 → Type 0
Reply A = Option Document × Result UpdateError A

-- One `client.update`
unfoldable pub attempt : {A : Type 0} → Attempt → Script A → Option Document → Reply A
attempt a op stored =
    let d = a.others stored in
    elim a.fate [
      | conflict ↦ (d, err version_conflict)
      | refused ↦ (d, err unavailable)
      | through ↦ elim (op d) [ err e ↦ (d, err (script e)) | ok r ↦ (r.1, ok r.0) ]
      | lost ↦ elim (op d) [ err e ↦ (d, err unavailable) | ok r ↦ (r.1, err unavailable) ]
    ]

-- isVersionConflict
abbrev pub is_version_conflict : UpdateError → Bool
is_version_conflict version_conflict = true
is_version_conflict _ = false

abbrev pub max_conflict_retries : ℕ
max_conflict_retries = 5

-- The loop of runWithConflictRetry, with `left` attempts after this one, which is number `k`.
unfoldable pub retry : {A : Type 0} → ℕ → ℕ → (ℕ → Attempt) → Script A → Option Document → Reply A
unfolding attempt
retry zero k attempts op stored = attempt (attempts k) op stored
retry (suc left) k attempts op stored =
    let (d, r) = attempt (attempts k) op stored in
    let rest = retry left (k + 1) attempts op d in
    elim r [ ok x ↦ (d, ok x) | err e ↦ if is_version_conflict e then rest else (d, err e) ]

unfoldable pub run_with_conflict_retry :
    {A : Type 0} → (ℕ → Attempt) → Script A → Option Document → Reply A
unfolding retry
run_with_conflict_retry attempts op stored = retry max_conflict_retries 0 attempts op stored

abbrev pub set_document : Text → Option Document → Map Document → Map Document
set_document id d m j = if id =t j then d else m j

-- An update of one document of the index
unfoldable pub update_index :
    {A : Type 0}
    → (ℕ → Attempt)
    → Text
    → Script A
    → Map Document
    → Map Document × Result UpdateError A
unfolding run_with_conflict_retry
update_index attempts id op m =
    let (d, r) = run_with_conflict_retry attempts op (m id) in (set_document id d m, r)

pub data Coordinate : Type 0 where
  absent explicit_null invalid : Coordinate
  finite : Text → Coordinate

-- `typeof` and Number.isFinite; `numeral` is how JavaScript writes a finite number.
unfoldable pub coordinate : (JsNumber → Option Text) → Json → Coordinate
coordinate numeral undefined = absent
coordinate numeral null = explicit_null
coordinate numeral (num n) = elim (numeral n) [ none ↦ invalid | some t ↦ finite t ]
coordinate numeral _ = invalid

abbrev pub directive : Coordinate → Coordinate → Option LocationDirective
directive absent absent = some preserve
directive explicit_null explicit_null = some clear
directive (finite lat) (finite lon) = some (set (record { lat = lat; lon = lon }))
directive _ _ = none

-- resolveLocationDirective; none is EventMetadataContractError.
unfoldable pub resolve_location_directive :
    (JsNumber → Option Text) → Json → Json → Option LocationDirective
unfolding coordinate
resolve_location_directive numeral latitude longitude =
    directive (coordinate numeral latitude) (coordinate numeral longitude)
