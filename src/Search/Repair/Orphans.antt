-- ===== src/Search/Repair/Orphans.antt =====
-- src/search/projection-repair.service.ts: what deleteOrphanTicketType leaves in the document.
use ticket_c2c_platform.Prelude.{
  ◌≡◌, refl, sym, subst, Bool, true, false, ◌&&◌, not, inl, inr, Option, none, some, List, [], ◌++◌,
  Text, ◌=t◌, arith, text_iff, Bool-cases, is_some, find_row, find_row-delete, ◌∙◌,
}
use ticket_c2c_platform.Database.{Db}
use ticket_c2c_platform.Search.Projection.{TypeDocument, Document}
use ticket_c2c_platform.Search.Requests.{Attempt, Fate, through, conflict, refused, lost}
use ticket_c2c_platform.Search.Repair.{
  RepairReport, has_document_type, remove_ticket_type_script, delete_orphan_ticket_type,
  ticket_type_belongs, exists_in_authoritative, document_refusals, none_refused, refused_when,
  update_as, written, report_of, event_missing_in_authoritative, RepairRefusalReason,
  ticket_type_exists_in_authoritative,
}

-- The element of a Ticket Type in a document
abbrev pub element : Text → Option Document → Option TypeDocument
element u none = none
element u (some d) = find_row (has_document_type u) d.ticket_types

written-kept :
    (u : Text) (y : TypeDocument) (t : Text) (x : Document)
    → t =t u ≡ false
    → element u (some x) ≡ some y
    → element u (some (written x (remove_ticket_type_script t x))) ≡ some y
unfolding remove_ticket_type_script
written-kept u y t x other h =
    elim (Bool-cases (is_some (find_row (has_document_type t) x.ticket_types))) [
      | inr none' ↦ rw none' h
      | inl there ↦ rw there (
          find_row-delete (λ (r : TypeDocument). r.ticket_type_id) u t x.ticket_types
          ∙ (rw other h))
    ]

update_as-kept :
    (u : Text) (y : TypeDocument) (t : Text) (f : Fate) (report : Bool → RepairReport)
    (d : Option Document)
    → t =t u ≡ false
    → element u d ≡ some y
    → element u (update_as f (remove_ticket_type_script t) report d).0 ≡ some y
unfolding update_as
update_as-kept u y t through report none other h = h
update_as-kept u y t through report (some x) other h = written-kept u y t x other h
update_as-kept u y t lost report none other h = h
update_as-kept u y t lost report (some x) other h = written-kept u y t x other h
update_as-kept u y t conflict report d other h = h
update_as-kept u y t refused report d other h = h

none_refused-belongs :
    (b c : Bool) (ys : List RepairRefusalReason)
    → none_refused (
        refused_when c event_missing_in_authoritative
        ++ refused_when b ticket_type_exists_in_authoritative
        ++ ys)
      ≡ true
    → b ≡ false
none_refused-belongs false c ys h = refl
none_refused-belongs true true ys h = sym h
none_refused-belongs true false ys h = sym h

and-true-left : (b c : Bool) → b && c ≡ true → b ≡ true
and-true-left true c h = refl
and-true-left false c h = h

-- Whatever happens to the request: where the database gives a Ticket Type to the event, and nobody
-- else changes its element in the document, deleteOrphanTicketType leaves that element as it is,
-- whichever Ticket Type it is told to remove.
pub delete_orphan_ticket_type_spares :
    (event_id t u : Text) (apply : Bool) (db : Db) (a : Attempt) (stored : Option Document)
    (y : TypeDocument)
    → ticket_type_belongs event_id u db ≡ true
    → element u stored ≡ some y
    → element u (a.others stored) ≡ some y
    → element u (delete_orphan_ticket_type event_id t apply db a stored).0 ≡ some y
unfolding delete_orphan_ticket_type
delete_orphan_ticket_type_spares event_id t u apply db a stored y belongs h kept =
    let refusals =
      refused_when (not (exists_in_authoritative event_id db)) event_missing_in_authoritative
      ++ refused_when (ticket_type_belongs event_id t db) ticket_type_exists_in_authoritative
      ++ document_refusals t stored in
    elim (Bool-cases (none_refused refusals && apply)) [
      | inr stopped ↦ rw stopped h
      | inl sent ↦ rw sent (elim (Bool-cases (t =t u)) [
        | inl own ↦
            let others =
              none_refused-belongs (ticket_type_belongs event_id t db)
                (not (exists_in_authoritative event_id db)) (document_refusals t stored)
                (and-true-left (none_refused refusals) apply sent) in
            let mine =
              subst (λ v. ticket_type_belongs event_id v db ≡ true) (sym ((text_iff t u).0 own))
                belongs in
            ground (arith)
        | inr other ↦ update_as-kept u y t a.fate (report_of [] []) (a.others stored) other kept
      ])
    ]
