-- ===== src/Auth/RefreshTokens/Families.antt =====
-- src/auth/refresh-tokens.service.ts: the usable tokens of a family, under rotation, reuse and logout.
use ticket_c2c_platform.Prelude.{
  ℕ, ◌+◌, ◌≤◌, ◌≡◌, refl, ap, Bool, true, false, ◌&&◌, not, inl, inr, some, List, [], ◌∷◌, ◌++◌,
  Text, arith, if◌then◌else◌, find_row, update_rows, sum_rows, count_rows, ok, text_iff, text_refl,
  Bool-cases, Option-cases, sum_rows-append, update_rows_none,
}
use ticket_c2c_platform.Auth.RefreshTokens.{
  RevokeReason, TokenRow, Chance, Rotated, has_hash, has_id, in_family, is_spent, new_token,
  insert_token, revoke_family, consumed, replace_token, rotate, revoke_family_by_token,
}

abbrev pub usable : Text → TokenRow → ℕ
usable f r = if in_family f r && not (is_spent r) then 1 else 0

-- How many tokens of the family `f` can still be rotated.
abbrev pub usable_tokens : Text → List TokenRow → ℕ
usable_tokens f rows = sum_rows (usable f) rows

module _ {ℓ} {A : Type ℓ} where
  found-count :
      (p q : A → Bool) (xs : List A) {a : A}
      → find_row p xs ≡ some a
      → q a ≡ true
      → 1 ≤ count_rows q xs
  unfolding find_row count_rows
  found-count p q [] {a} h e = cc
  found-count p q (x ∷ xs) {a} h e = ground (arith, found-count p q xs {a = a})

  -- An update by a key changes a sum by what it changes in the key's row.
  sum_rows-update_key :
      (p key : A → Bool) (f : A → A) (g : A → ℕ) (n : ℕ) (xs : List A) {a : A}
      → count_rows key xs ≤ 1
      → find_row p xs ≡ some a
      → key a ≡ true
      → g (f a) + n ≡ g a
      → sum_rows g (update_rows key f xs) + n ≡ sum_rows g xs
  unfolding find_row count_rows sum_rows update_rows
  sum_rows-update_key p key f g n [] {a} unique found e taken = cc
  sum_rows-update_key p key f g n (x ∷ xs) {a} unique found e taken = elim (Bool-cases (key x)) [
    | inl hit ↦ elim (Bool-cases (p x)) [
      | inl here ↦ ground (arith, update_rows_none key f xs)
      | inr later ↦ absurd (ground (arith, found-count p key xs {a = a}))
    ]
    | inr miss ↦
        ground (arith, found-count p key xs {a = a}, sum_rows-update_key p key f g n xs {a = a})
  ]

  update_rows-append :
      (p : A → Bool) (f : A → A) (xs : List A) (b : A)
      → p b ≡ false
      → update_rows p f (xs ++ b ∷ []) ≡ update_rows p f xs ++ b ∷ []
  unfolding update_rows
  update_rows-append p f [] b h = ground arith
  update_rows-append p f (x ∷ xs) b h = ground (arith, update_rows-append p f xs b h)

revoke_family-usable :
    (now : ℕ) (reason : RevokeReason) (f : Text) (rows : List TokenRow)
    → usable_tokens f (revoke_family now reason f rows) ≡ 0
unfolding revoke_family update_rows sum_rows
revoke_family-usable now reason f [] = refl
revoke_family-usable now reason f (r ∷ rows) =
    ground (arith, revoke_family-usable now reason f rows)

-- After logout no token of the presented token's family can be rotated.
pub logout_ends_family :
    (hash : Text → Text) (now : ℕ) (raw : Text) (reason : RevokeReason) (rows : List TokenRow)
    (row : TokenRow)
    → find_row (has_hash (hash raw)) rows ≡ some row
    → usable_tokens row.family_id (revoke_family_by_token hash now raw reason rows) ≡ 0
unfolding revoke_family_by_token
logout_ends_family hash now raw reason rows row found =
    ground (arith, revoke_family-usable now reason row.family_id rows)

-- What a rotation that succeeds found and wrote.
record Replaced (hash : Text → Text) (c : Chance) (raw : Text) (rows after : List TokenRow)
    : Type 0 where
  row : TokenRow
  found : find_row (has_hash (hash raw)) rows ≡ some row
  unspent : is_spent row ≡ false
  written :
      after
      ≡ update_rows
          (has_id row.id)
          (consumed c.database_now c.id)
          (rows ++ new_token hash c row.user_id row.family_id (some row.id) ∷ [])

rotate-Replaced :
    (hash : Text → Text) (c : Chance) (raw : Text) (rows after : List TokenRow) (r : Rotated)
    → rotate hash c raw rows ≡ (after, ok r)
    → Replaced hash c raw rows after
unfolding rotate replace_token insert_token
rotate-Replaced hash c raw rows after r h =
    elim (Option-cases (find_row (has_hash (hash raw)) rows)) [
      | inl missing ↦ absurd (ground arith)
      | inr (row, found) ↦ record {
        row = row;
        found = found;
        unspent = ground arith;
        written = ground arith;
      }
    ]

-- A rotation consumes one token of the family and gives it one: where ids are unique and the new
-- one is fresh, every family has as many usable tokens as before.
pub rotation_keeps_usable :
    (hash : Text → Text) (c : Chance) (raw f : Text) (rows after : List TokenRow) (r : Rotated)
    → ((x : Text) → count_rows (has_id x) rows ≤ 1)
    → count_rows (has_id c.id) rows ≡ 0
    → rotate hash c raw rows ≡ (after, ok r)
    → usable_tokens f after ≡ usable_tokens f rows
rotation_keeps_usable hash c raw f rows after r keys fresh h = omega (
  arith,
  ap (sum_rows (usable f)) z.written,
  ap (sum_rows (usable f)) (update_rows-append (has_id z.row.id) consume rows new apart),
  sum_rows-append (usable f) (update_rows (has_id z.row.id) consume rows) new,
  sum_rows-update_key (has_hash (hash raw)) (has_id z.row.id) consume (usable f) (usable f z.row)
      rows (keys z.row.id) z.found (text_refl z.row.id) taken,
  given,
)
  where
    z : Replaced hash c raw rows after
    z = rotate-Replaced hash c raw rows after r h

    consume : TokenRow → TokenRow
    consume = consumed c.database_now c.id

    new : TokenRow
    new = new_token hash c z.row.user_id z.row.family_id (some z.row.id)

    apart : has_id z.row.id new ≡ false
    apart = ground (
      arith,
      text_iff c.id z.row.id,
      text_iff z.row.id c.id,
      found-count (has_hash (hash raw)) (has_id c.id) rows {a = z.row} z.found,
    )

    taken : usable f (consume z.row) + usable f z.row ≡ usable f z.row
    taken = ground arith

    given : usable f new ≡ usable f z.row
    given = ground (arith, z.unspent)
