-- ===== src/Examples/Retention.antt =====
-- Runs of the refresh token cleanup: one family whose tokens are past the retention, and a live one.
use ticket_c2c_platform.Prelude.{
  ℕ, ◌≡◌, refl, none, List, [], ◌∷◌, Text, codes, ◌=t◌, arith, find_row, select, false, count_rows,
}
use ticket_c2c_platform.Auth.RefreshTokens.{TokenRow, Chance, in_family, rotate}
use ticket_c2c_platform.Auth.Cleanup.{
  Session, due, families, last_expiry, no_result, cleanup_sql,
  cleanup_expired_refresh_token_families,
}
use ticket_c2c_platform.Auth.Cleanup.Batches.{IsArrange, Finished, enough_batches_finish}
use ticket_c2c_platform.Auth.Cleanup.Rotation.{retained_family_is_kept, rotate-cleanup}

abbrev row : Text → Text → ℕ → TokenRow
row id family expires_at = record {
  id = id;
  user_id = codes "u";
  family_id = family;
  token_hash = id;
  parent_token_id = none;
  expires_at = expires_at;
  used_at = none;
  revoked_at = none;
  revoked_reason = none;
  replaced_by_token_id = none;
}

abbrev tokens : List TokenRow
tokens =
    row (codes "1") (codes "old") 100
    ∷ row (codes "2") (codes "live") 9000000000
    ∷ row (codes "3") (codes "old") 200
    ∷ []

abbrev steady : Session
steady = record { arrange = λ fs. fs; now = λ k. 9000000000; fails = λ k. false }

in_order : IsArrange (λ fs. fs)
in_order = record { same = λ fs f. refl }

enough_batches_finish_example :
    Finished 9000000000 30 no_result tokens
      (cleanup_expired_refresh_token_families steady 30 1 2 tokens)
unfolding due families last_expiry select ◌=t◌
enough_batches_finish_example =
    enough_batches_finish steady 30 1 2 9000000000 9000000000 tokens in_order (λ k. refl)
      (λ k. (omega arith, omega arith)) (omega arith)

one_statement :
    cleanup_sql (λ fs. fs) 9000000000 30 1000 tokens
    ≡ (row (codes "2") (codes "live") 9000000000 ∷ [], 2, 1)
unfolding cleanup_sql select last_expiry ◌=t◌
one_statement = refl

retained_family_is_kept_example :
    select
      (in_family (codes "live"))
      (cleanup_expired_refresh_token_families steady 30 1 2 tokens).0
    ≡ row (codes "2") (codes "live") 9000000000 ∷ []
unfolding last_expiry select ◌=t◌
retained_family_is_kept_example =
    retained_family_is_kept steady 30 1 2 9000000000 tokens (codes "live") in_order
      (λ k. omega arith) (omega arith)

abbrev later : Chance
later = record {
  token = codes "4";
  family = codes "new";
  id = codes "4";
  database_now = 9000000001;
  now = 9000000001;
}

rotate-cleanup_example :
    (rotate
      (λ t. t)
      later
      (codes "3")
      (cleanup_expired_refresh_token_families steady 30 1 2 tokens).0).1
    ≡ (rotate (λ t. t) later (codes "3") tokens).1
unfolding count_rows find_row ◌=t◌
rotate-cleanup_example =
    rotate-cleanup steady 30 1 2 9000000000 tokens (λ t. t) later (codes "3") in_order
      (λ k. omega arith) (omega arith) (omega arith) refl
