-- ===== src/Auth/Cleanup/Rotation.antt =====
-- src/database/refresh-token-cleanup.ts beside src/auth/refresh-tokens.service.ts: the tokens that a
-- cleanup takes away, as the rotation of a token sees them.
use ticket_c2c_platform.Prelude.{
  ℕ, zero, suc, ◌+◌, ◌≤◌, ◌≡◌, ◌∙◌, sym, ap, refl, Bool, true, false, ◌&&◌, ◌||◌, inl, inr, none,
  some, List, [], ◌∷◌, Text, ltb, arith, select, count_rows, find_row, err, Bool-cases, text_iff,
  select-select, select_absorb, select_all, find_row-select-none, find_row-select_kept,
  find_row-select_gone, leb, ◌==◌, Option-cases, text_refl,
}
use ticket_c2c_platform.Auth.RefreshTokens.{
  TokenRow, Chance, has_hash, in_family, rotate, unauthorized, replace_token, insert_token,
}
use ticket_c2c_platform.Auth.Cleanup.{
  families, last_expiry, is_due, days, due, target, Arrange, cleanup_sql, CleanupResult, Session,
  delete_batches, no_result, cleanup_expired_refresh_token_families,
}
use ticket_c2c_platform.Auth.Cleanup.Deletion.{
  of_families, last_expiry-select, times, times-member, times-first_of, outside,
}
use ticket_c2c_platform.Auth.Cleanup.Batches.{IsArrange, statement, last_batch, next_batch}

-- The rows that are left are those of some families, and the families that went were due by `finish`.
pub record Deletes (finish retention : ℕ) (rows left : List TokenRow) : Type 0 where
  pub stays : Text → Bool
  pub kept : left ≡ select (of_families stays) rows
  pub were_due : (f : Text) → stays f ≡ false → is_due finish retention rows f ≡ true

nothing_deleted : (finish retention : ℕ) (rows : List TokenRow) → Deletes finish retention rows rows
nothing_deleted finish retention rows = record {
  stays = λ f. true;
  kept = sym (select_all rows);
  were_due = λ f h. cc;
}

select-times :
    (p : Text → Bool) (f : Text) (fs : List Text) → 1 ≤ times f (select p fs) → p f ≡ true
unfolding select count_rows
select-times p f [] h = absurd (omega arith)
select-times p f (g ∷ gs) h = ground (arith, select-times p f gs, text_iff g f)

cleanup_sql-Deletes :
    (arrange : Arrange) (now finish retention batch : ℕ) (rows : List TokenRow)
    → IsArrange arrange
    → now ≤ finish
    → Deletes finish retention rows (cleanup_sql arrange now retention batch rows).0
unfolding cleanup_sql target due
cleanup_sql-Deletes arrange now finish retention batch rows v before =
    let fs = target arrange now retention batch rows in
    record {
      stays = outside fs;
      kept = refl;
      were_due = λ f h.
          let due_then : is_due now retention rows f ≡ true =
            select-times (is_due now retention rows) f (families rows) (
              omega (
                arith,
                times-member f fs (ground arith),
                times-first_of batch f (arrange (due now retention rows)),
                v.same (due now retention rows) f,
              )) in
          ground arith;
    }

Deletes-trans :
    (finish retention : ℕ) (rows middle left : List TokenRow)
    → Deletes finish retention rows middle
    → Deletes finish retention middle left
    → Deletes finish retention rows left
Deletes-trans finish retention rows middle left d e = record {
  stays = λ f. d.stays f && e.stays f;
  kept =
      e.kept
      ∙ ap (select (of_families e.stays)) d.kept
      ∙ select-select (of_families e.stays) (of_families d.stays) rows;
  were_due = λ f h. elim (Bool-cases (d.stays f)) [
    | inl stayed ↦
        ground (arith, e.were_due f, ap (last_expiry f) d.kept, last_expiry-select d.stays f rows)
    | inr went ↦ d.were_due f went
  ];
}

delete_batches-Deletes :
    (s : Session) (retention batch n finish : ℕ) (result : CleanupResult) (rows : List TokenRow)
    → IsArrange s.arrange
    → ((k : ℕ) → s.now k ≤ finish)
    → Deletes finish retention rows (delete_batches s retention batch n result rows).0
unfolding delete_batches
delete_batches-Deletes s retention batch zero finish result rows v clock =
    nothing_deleted finish retention rows
delete_batches-Deletes s retention batch (suc n) finish result rows v clock =
    let once =
      cleanup_sql-Deletes s.arrange (s.now result.batches) finish retention batch rows v
        (clock result.batches) in
    elim (Bool-cases (s.fails result.batches)) [
      | inl fails ↦ rw (fails, delete_batches) (nothing_deleted finish retention rows)
      | inr runs ↦ elim (Bool-cases (ltb (statement s retention batch result rows).2 batch)) [
        | inl few ↦ rw (last_batch s retention batch n result rows runs few) once
        | inr more ↦ rw (next_batch s retention batch n result rows runs more) (
            Deletes-trans finish retention rows _ _ once
              (delete_batches-Deletes s retention batch n finish _ _ v clock))
      ]
    ]

cleanup-Deletes :
    (s : Session) (retention batch_size max_batches finish : ℕ) (rows : List TokenRow)
    → IsArrange s.arrange
    → ((k : ℕ) → s.now k ≤ finish)
    → Deletes finish retention rows
        (cleanup_expired_refresh_token_families s retention batch_size max_batches rows).0
unfolding cleanup_expired_refresh_token_families
cleanup-Deletes s retention batch_size max_batches finish rows v clock =
    elim (Bool-cases (batch_size == 0 || max_batches == 0)) [
      | inl refused ↦
          rw (refused, cleanup_expired_refresh_token_families)
            (nothing_deleted finish retention rows)
      | inr accepted ↦
          rw (accepted, cleanup_expired_refresh_token_families)
            (delete_batches-Deletes s retention batch_size max_batches finish no_result rows v
              clock)
    ]

-- A family one of whose tokens is within the retention keeps all its tokens, in any run of the cleanup,
-- also one that fails in between.
pub retained_family_is_kept :
    (s : Session) (retention batch_size max_batches finish : ℕ) (rows : List TokenRow) (f : Text)
    → IsArrange s.arrange
    → ((k : ℕ) → s.now k ≤ finish)
    → finish ≤ last_expiry f rows + days retention
    → select
        (in_family f)
        (cleanup_expired_refresh_token_families s retention batch_size max_batches rows).0
      ≡ select (in_family f) rows
retained_family_is_kept s retention batch_size max_batches finish rows f v clock retained =
    let d = cleanup-Deletes s retention batch_size max_batches finish rows v clock in
    ap (select (in_family f)) d.kept
    ∙ select_absorb (of_families d.stays) (in_family f) rows (λ r own.
      elim (Bool-cases (d.stays f)) [
        | inl stays ↦ ground (arith, text_iff r.family_id f)
        | inr went ↦ absurd (ground (arith, d.were_due f went))
      ])

found-last_expiry :
    (p : TokenRow → Bool) (rows : List TokenRow) {row : TokenRow}
    → find_row p rows ≡ some row
    → row.expires_at ≤ last_expiry row.family_id rows
unfolding find_row last_expiry
found-last_expiry p [] {row} h = cc
found-last_expiry p (r ∷ rows) {row} h =
    ground (arith, found-last_expiry p rows {row = row}, text_refl r.family_id)

due_is_expired :
    (finish retention : ℕ) (rows : List TokenRow) (row : TokenRow) (c : Chance)
    → is_due finish retention rows row.family_id ≡ true
    → row.expires_at ≤ last_expiry row.family_id rows
    → finish ≤ c.now
    → leb row.expires_at c.now ≡ true
due_is_expired finish retention rows row c due held clock = ground arith

rotate_unknown :
    (hash : Text → Text) (c : Chance) (raw : Text) (rows : List TokenRow)
    → find_row (has_hash (hash raw)) rows ≡ none
    → (rotate hash c raw rows).1 ≡ err unauthorized
unfolding rotate
rotate_unknown hash c raw rows missing = ground arith

rotate_expired :
    (hash : Text → Text) (c : Chance) (raw : Text) (rows : List TokenRow) {row : TokenRow}
    → find_row (has_hash (hash raw)) rows ≡ some row
    → leb row.expires_at c.now ≡ true
    → (rotate hash c raw rows).1 ≡ err unauthorized
unfolding rotate
rotate_expired hash c raw rows {row} found expired = ground arith

rotate_found :
    (hash : Text → Text) (c : Chance) (raw : Text) (rows left : List TokenRow) {row : TokenRow}
    → find_row (has_hash (hash raw)) rows ≡ some row
    → find_row (has_hash (hash raw)) left ≡ some row
    → find_row (has_hash (hash c.token)) rows ≡ none
    → find_row (has_hash (hash c.token)) left ≡ none
    → (rotate hash c raw left).1 ≡ (rotate hash c raw rows).1
unfolding rotate replace_token insert_token
rotate_found hash c raw rows left {row} found found' new new' = ground arith

-- The cleanup is not seen by clients: for any token, whose hash is unique, and a new token whose hash
-- is not taken, a rotation after a cleanup answers what it would have answered without it.
pub rotate-cleanup :
    (s : Session) (retention batch_size max_batches finish : ℕ) (rows : List TokenRow)
    (hash : Text → Text) (c : Chance) (raw : Text)
    → IsArrange s.arrange
    → ((k : ℕ) → s.now k ≤ finish)
    → finish ≤ c.now
    → count_rows (has_hash (hash raw)) rows ≤ 1
    → find_row (has_hash (hash c.token)) rows ≡ none
    → (rotate hash c raw
        (cleanup_expired_refresh_token_families s retention batch_size max_batches rows).0).1
      ≡ (rotate hash c raw rows).1
rotate-cleanup s retention batch_size max_batches finish rows hash c raw v clock later unique new =
    let d = cleanup-Deletes s retention batch_size max_batches finish rows v clock in
    let mine = has_hash (hash raw) in
    let stays = of_families d.stays in
    ap (λ left. (rotate hash c raw left).1) d.kept ∙ elim (Option-cases (find_row mine rows)) [
      | inl missing ↦
          rotate_unknown hash c raw _ (find_row-select-none mine stays rows missing)
          ∙ sym (rotate_unknown hash c raw rows missing)
      | inr (row, found) ↦ elim (Bool-cases (d.stays row.family_id)) [
        | inl kept ↦
            rotate_found hash c raw rows _ {row = row} found
              (find_row-select_kept mine stays rows {a = row} found kept) new
              (find_row-select-none (has_hash (hash c.token)) stays rows new)
        | inr went ↦
            rotate_unknown hash c raw _
              (find_row-select_gone mine stays rows {a = row} found went unique)
            ∙ sym (
                rotate_expired hash c raw rows {row = row} found (
                  due_is_expired finish retention rows row c (d.were_due row.family_id went)
                    (found-last_expiry mine rows {row = row} found) later))
      ]
    ]
