-- ===== src/Auth/Cleanup/Deletion.antt =====
-- src/database/refresh-token-cleanup.ts: what the deletion of some families leaves of the others.
use ticket_c2c_platform.Prelude.{
  ℕ, zero, suc, ◌+◌, ◌≤◌, ◌<◌, ◌≡◌, ◌∙◌, ap, refl, Bool, true, false, not, inl, inr, List, [], ◌∷◌,
  Text, ◌=t◌, ltb, arith, length, select, count_rows, Bool-cases, text_iff, text_refl, select_comm,
  select_absorb, select_congr,
}
use ticket_c2c_platform.Auth.RefreshTokens.{TokenRow}
use ticket_c2c_platform.Auth.Cleanup.{
  member, other_text, families, last_expiry, is_due, days, due, first_of,
}

-- The rows of the families that satisfy a condition.
abbrev pub of_families : (Text → Bool) → TokenRow → Bool
of_families q r = q r.family_id

pub families-select :
    (q : Text → Bool) (rows : List TokenRow)
    → families (select (of_families q) rows) ≡ select q (families rows)
unfolding families select
families-select q [] = refl
families-select q (r ∷ rows) = elim (Bool-cases (q r.family_id)) [
  | inl kept ↦
      ground (arith, families-select q rows, select_comm (other_text r.family_id) q (families rows))
  | inr gone ↦ ground (
    arith,
    families-select q rows,
    select_absorb (other_text r.family_id) q (families rows)
        (λ f h. ground (arith, text_iff f r.family_id)),
  )
]

pub last_expiry-select :
    (q : Text → Bool) (f : Text) (rows : List TokenRow)
    → q f ≡ true
    → last_expiry f (select (of_families q) rows) ≡ last_expiry f rows
unfolding last_expiry select
last_expiry-select q f [] kept = refl
last_expiry-select q f (r ∷ rows) kept =
    ground (arith, last_expiry-select q f rows kept, text_iff r.family_id f)

pub due-select :
    (now retention : ℕ) (q : Text → Bool) (rows : List TokenRow)
    → due now retention (select (of_families q) rows) ≡ select q (due now retention rows)
unfolding due
due-select now retention q rows =
    let left = select (of_families q) rows in
    ap (select (is_due now retention left)) (families-select q rows)
    ∙ select_congr (is_due now retention left) (is_due now retention rows) q (families rows)
        (λ f kept. ap (λ t. ltb (t + days retention) now) (last_expiry-select q f rows kept))
    ∙ select_comm (is_due now retention rows) q (families rows)

-- How often a family stands in a list.
abbrev pub times : Text → List Text → ℕ
times f fs = count_rows (λ g. g =t f) fs

pub times-select-le :
    (p : Text → Bool) (f : Text) (fs : List Text) → times f (select p fs) ≤ times f fs
unfolding select count_rows
times-select-le p f [] = omega arith
times-select-le p f (g ∷ gs) = ground (arith, times-select-le p f gs)

times-select_other : (f : Text) (fs : List Text) → times f (select (other_text f) fs) ≡ 0
unfolding select count_rows
times-select_other f [] = refl
times-select_other f (g ∷ gs) = ground (arith, times-select_other f gs)

times-select_same :
    (f g : Text) (fs : List Text) → f =t g ≡ false → times f (select (other_text g) fs) ≡ times f fs
unfolding select count_rows
times-select_same f g [] h = refl
times-select_same f g (k ∷ ks) h =
    ground (arith, times-select_same f g ks h, text_iff k g, text_iff k f, text_iff f g)

pub times-families : (f : Text) (rows : List TokenRow) → times f (families rows) ≤ 1
unfolding families count_rows
times-families f [] = omega arith
times-families f (r ∷ rows) = ground (
  arith,
  times-families f rows,
  times-select-le (other_text r.family_id) f (families rows),
  times-select_other r.family_id (families rows),
  text_iff r.family_id f,
)

pub times-due :
    (now retention : ℕ) (f : Text) (rows : List TokenRow) → times f (due now retention rows) ≤ 1
unfolding due
times-due now retention f rows =
    omega
      (arith, times-select-le (is_due now retention rows) f (families rows), times-families f rows)

pub times-due-le :
    (now retention : ℕ) (f : Text) (rows : List TokenRow)
    → times f (due now retention rows) ≤ times f (families rows)
unfolding due
times-due-le now retention f rows = times-select-le (is_due now retention rows) f (families rows)

pub times-first_of : (n : ℕ) (f : Text) (fs : List Text) → times f (first_of n fs) ≤ times f fs
unfolding count_rows
times-first_of zero f fs = omega arith
times-first_of (suc n) f [] = omega arith
times-first_of (suc n) f (g ∷ gs) = ground (arith, times-first_of n f gs)

pub length-first_of : (n : ℕ) (fs : List Text) → length (first_of n fs) ≤ n
length-first_of zero fs = omega arith
length-first_of (suc n) [] = omega arith
length-first_of (suc n) (f ∷ fs) = omega (arith, length-first_of n fs)

pub first_of_all : (n : ℕ) (fs : List Text) → length (first_of n fs) < n → first_of n fs ≡ fs
first_of_all zero fs h = absurd (omega arith)
first_of_all (suc n) [] h = refl
first_of_all (suc n) (f ∷ fs) h = ap (λ gs. f ∷ gs) (first_of_all n fs (omega arith))

pub member-times : (f : Text) (fs : List Text) → 1 ≤ times f fs → member f fs ≡ true
unfolding count_rows
member-times f [] h = absurd (omega arith)
member-times f (g ∷ gs) h = ground (arith, member-times f gs)

pub times-member : (f : Text) (fs : List Text) → member f fs ≡ true → 1 ≤ times f fs
unfolding count_rows
times-member f [] h = cc
times-member f (g ∷ gs) h = ground (arith, times-member f gs)

abbrev pub outside : List Text → Text → Bool
outside fs f = not (member f fs)

length_one_out :
    (f : Text) (fs : List Text) → length (select (other_text f) fs) + times f fs ≡ length fs
unfolding select count_rows
length_one_out f [] = omega arith
length_one_out f (g ∷ gs) = ground (arith, length_one_out f gs)

select-outside :
    (f : Text) (fs gs : List Text)
    → select (outside (f ∷ fs)) gs ≡ select (outside fs) (select (other_text f) gs)
unfolding select
select-outside f fs [] = refl
select-outside f fs (g ∷ gs) = ground (arith, select-outside f fs gs, text_iff f g, text_iff g f)

select-outside_nothing : (gs : List Text) → select (outside []) gs ≡ gs
unfolding select
select-outside_nothing [] = refl
select-outside_nothing (g ∷ gs) = ap (λ ks. g ∷ ks) (select-outside_nothing gs)

within_rest :
    (f : Text) (fs gs : List Text)
    → ((g : Text) → times g (f ∷ fs) ≤ times g gs)
    → ((g : Text) → times g gs ≤ 1)
    → (g : Text) → times g fs ≤ times g (select (other_text f) gs)
unfolding count_rows
within_rest f fs gs within distinct g = elim (Bool-cases (f =t g)) [
  | inl same ↦ ground (arith, within g, distinct g, text_iff f g)
  | inr other ↦ ground (arith, within g, text_iff f g, text_iff g f, times-select_same g f gs)
]

-- Taking out distinct families that are there leaves as many fewer.
pub length_taken_out :
    (fs gs : List Text)
    → ((f : Text) → times f fs ≤ times f gs)
    → ((f : Text) → times f gs ≤ 1)
    → length (select (outside fs) gs) + length fs ≡ length gs
unfolding count_rows
length_taken_out [] gs within distinct = omega (arith, ap length (select-outside_nothing gs))
length_taken_out (f ∷ fs) gs within distinct =
    let rest =
      length_taken_out fs (select (other_text f) gs) (within_rest f fs gs within distinct)
        (λ g. omega (arith, times-select-le (other_text f) g gs, distinct g)) in
    let once : 1 + times f fs ≤ times f gs = ground (arith, within f, text_refl f) in
    omega (arith, rest, once, distinct f, ap length (select-outside f fs gs), length_one_out f gs)

pub select_none :
    (p : Text → Bool) (fs : List Text)
    → ((f : Text) → 1 ≤ times f fs → p f ≡ false)
    → select p fs ≡ []
unfolding select count_rows
select_none p [] h = refl
select_none p (f ∷ fs) h =
    ground (arith, h f, text_refl f, select_none p fs (λ g at. h g (ground arith)))

times-select_mono :
    (p q : Text → Bool) (f : Text) (fs : List Text)
    → ((g : Text) → p g ≡ true → q g ≡ true)
    → times f (select p fs) ≤ times f (select q fs)
unfolding select count_rows
times-select_mono p q f [] h = omega arith
times-select_mono p q f (g ∷ gs) h = ground (arith, h g, times-select_mono p q f gs h)

-- A family that is due stays due.
pub times-due_later :
    (now later retention : ℕ) (f : Text) (rows : List TokenRow)
    → now ≤ later
    → times f (due now retention rows) ≤ times f (due later retention rows)
unfolding due
times-due_later now later retention f rows h =
    times-select_mono (is_due now retention rows) (is_due later retention rows) f (families rows)
      (λ g due. ground arith)
