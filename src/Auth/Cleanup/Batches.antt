-- ===== src/Auth/Cleanup/Batches.antt =====
-- src/database/refresh-token-cleanup.ts: the loop over the statements: which families go, and how many
-- statements it takes.
use ticket_c2c_platform.Prelude.{
  ℕ, zero, suc, ◌+◌, ◌*◌, ◌≤◌, ◌<◌, ◌≡◌, ◌∙◌, ap, refl, true, false, not, inl, inr, List, [], Text,
  ltb, ltb→lt, arith, length, select, Result, ok, Bool-cases, select_partition,
}
use ticket_c2c_platform.Auth.RefreshTokens.{TokenRow}
use ticket_c2c_platform.Auth.Cleanup.{
  member, families, due, target, in_target, Arrange, cleanup_sql, CleanupResult, CleanupError,
  Session, delete_batches, no_result, cleanup_expired_refresh_token_families,
}
use ticket_c2c_platform.Auth.Cleanup.Deletion.{
  families-select, due-select, times, times-due, times-due-le, times-due_later, times-families,
  times-first_of, first_of_all, member-times, outside, length_taken_out, select_none,
}

-- GROUP BY returns each group once, in some order.
pub record IsArrange (arrange : Arrange) : Type 0 where
  pub same : (fs : List Text) (f : Text) → times f (arrange fs) ≡ times f fs

module _ (arrange : Arrange) (now retention batch : ℕ) (rows : List TokenRow)
    (v : IsArrange arrange) where
  abbrev gone : List Text
  gone = target arrange now retention batch rows

  target_within : (f : Text) → times f gone ≤ times f (due now retention rows)
  unfolding target
  target_within f = omega (
    arith,
    times-first_of batch f (arrange (due now retention rows)),
    v.same (due now retention rows) f,
  )

  deleted_families_lem : (cleanup_sql arrange now retention batch rows).2 ≡ length gone
  unfolding cleanup_sql
  deleted_families_lem = omega (
    arith,
    ap length (families-select (λ f. member f gone) rows),
    select_partition (λ f. member f gone) (families rows),
    length_taken_out gone (families rows)
        (λ f. omega (arith, target_within f, times-due-le now retention f rows))
        (λ f. times-families f rows),
  )

  deleted_rows_lem :
      (cleanup_sql arrange now retention batch rows).1
        + length (cleanup_sql arrange now retention batch rows).0
      ≡ length rows
  unfolding cleanup_sql
  deleted_rows_lem = select_partition (in_target gone) rows

  left_due :
      (t : ℕ)
      → due t retention (cleanup_sql arrange now retention batch rows).0
        ≡ select (outside gone) (due t retention rows)
  unfolding cleanup_sql
  left_due t = due-select t retention (outside gone) rows

  -- A statement takes the families that it counts off those that are due then or later.
  fewer_due :
      (t : ℕ)
      → now ≤ t
      → length (due t retention (cleanup_sql arrange now retention batch rows).0)
          + (cleanup_sql arrange now retention batch rows).2
        ≡ length (due t retention rows)
  fewer_due t later = omega (
    arith,
    ap length (left_due t),
    deleted_families_lem,
    length_taken_out gone (due t retention rows)
        (λ f. omega (arith, target_within f, times-due_later now t retention f rows later))
        (λ f. times-due t retention f rows),
  )

  -- After a statement that found fewer families than it may take, none is due.
  none_due :
      (t : ℕ)
      → t ≤ now
      → (cleanup_sql arrange now retention batch rows).2 < batch
      → due t retention (cleanup_sql arrange now retention batch rows).0 ≡ []
  unfolding target
  none_due t before few =
      let all : gone ≡ arrange (due now retention rows) =
        first_of_all batch (arrange (due now retention rows))
          (omega (arith, deleted_families_lem)) in
      left_due t
      ∙ select_none (outside gone) (due t retention rows) (λ f at. ap not (
          member-times f gone (
            omega (
              arith,
              ap (times f) all,
              v.same (due now retention rows) f,
              times-due_later t now retention f rows before,
            ))))

-- What a run of the loop reports and leaves.
pub record Finished (start retention : ℕ) (result : CleanupResult) (rows : List TokenRow)
    (r : List TokenRow × Result CleanupError CleanupResult) : Type 0 where
  pub final : CleanupResult
  pub returned : r.1 ≡ ok final
  pub finished : final.reached_max_batches ≡ false
  pub counted : final.deleted_rows + length r.0 ≡ result.deleted_rows + length rows
  pub none_left : due start retention r.0 ≡ []

abbrev pub statement : Session → ℕ → ℕ → CleanupResult → List TokenRow → List TokenRow × ℕ × ℕ
statement s retention batch result rows =
    cleanup_sql s.arrange (s.now result.batches) retention batch rows

abbrev pub added : CleanupResult → List TokenRow × ℕ × ℕ → CleanupResult
added result sql = record result {
  deleted_rows = result.deleted_rows + sql.1;
  deleted_families = result.deleted_families + sql.2;
  batches = result.batches + 1;
}

module _ (s : Session) (retention batch n : ℕ) (result : CleanupResult) (rows : List TokenRow)
    (runs : s.fails result.batches ≡ false) where
  abbrev pub sql : List TokenRow × ℕ × ℕ
  sql = statement s retention batch result rows

  pub last_batch :
      ltb sql.2 batch ≡ true
      → delete_batches s retention batch (suc n) result rows ≡ (sql.0, ok (added result sql))
  unfolding delete_batches
  last_batch few = rw (runs, few, delete_batches) refl

  pub next_batch :
      ltb sql.2 batch ≡ false
      → delete_batches s retention batch (suc n) result rows
        ≡ delete_batches s retention batch n (added result sql) sql.0
  unfolding delete_batches
  next_batch more = rw (runs, more, delete_batches) refl

delete_batches-Finished :
    (s : Session) (retention batch n start finish : ℕ) (result : CleanupResult)
    (rows : List TokenRow)
    → IsArrange s.arrange
    → ((k : ℕ) → s.fails k ≡ false)
    → ((k : ℕ) → (start ≤ s.now k) × (s.now k ≤ finish))
    → result.reached_max_batches ≡ false
    → length (due finish retention rows) < batch * n
    → Finished start retention result rows (delete_batches s retention batch n result rows)
delete_batches-Finished s retention batch zero start finish result rows v runs clock below enough =
    absurd (omega arith)
delete_batches-Finished s retention batch (suc n) start finish result rows v runs clock below
      enough =
    let now = s.now result.batches in
    let sql = statement s retention batch result rows in
    let count = deleted_rows_lem s.arrange now retention batch rows v in
    elim (Bool-cases (ltb sql.2 batch)) [
      | inl few ↦
          rw (last_batch s retention batch n result rows (runs result.batches) few) (record {
            final = added result sql;
            returned = refl;
            finished = below;
            counted = omega (arith, count);
            none_left =
                none_due s.arrange now retention batch rows v start (clock result.batches).0
                  (ltb→lt _ _ few);
          })
      | inr more ↦ rw (next_batch s retention batch n result rows (runs result.batches) more) (
          let full : batch ≤ sql.2 = ground arith in
          let fewer =
            fewer_due s.arrange now retention batch rows v finish (clock result.batches).1 in
          let rest =
            delete_batches-Finished s retention batch n start finish (added result sql) sql.0 v runs
              clock below (omega (arith, fewer, full)) in
          record {
            final = rest.final;
            returned = rest.returned;
            finished = rest.finished;
            counted = omega (arith, count, rest.counted);
            none_left = rest.none_left;
          })
    ]

pub accepted_sizes :
    (s : Session) (retention b m : ℕ) (rows : List TokenRow)
    → cleanup_expired_refresh_token_families s retention (suc b) (suc m) rows
      ≡ delete_batches s retention (suc b) (suc m) no_result rows
unfolding cleanup_expired_refresh_token_families
accepted_sizes s retention b m rows = ground arith

-- If fewer families than batchSize * maxBatches are due by the end of the run, and no statement
-- throws, the run returns without reaching maxBatches, no family is left that was due when it began,
-- and deletedRows counts the rows that went.
pub enough_batches_finish :
    (s : Session) (retention batch_size max_batches start finish : ℕ) (rows : List TokenRow)
    → IsArrange s.arrange
    → ((k : ℕ) → s.fails k ≡ false)
    → ((k : ℕ) → (start ≤ s.now k) × (s.now k ≤ finish))
    → length (due finish retention rows) < batch_size * max_batches
    → Finished start retention no_result rows
        (cleanup_expired_refresh_token_families s retention batch_size max_batches rows)
enough_batches_finish s retention zero max_batches start finish rows v runs clock enough =
    absurd (ground arith)
enough_batches_finish s retention (suc b) zero start finish rows v runs clock enough =
    absurd (ground arith)
enough_batches_finish s retention (suc b) (suc m) start finish rows v runs clock enough =
    rw (accepted_sizes s retention b m rows) (
      delete_batches-Finished s retention (suc b) (suc m) start finish no_result rows v runs clock
        refl enough)
