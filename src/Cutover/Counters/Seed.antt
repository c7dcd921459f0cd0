-- ===== src/Cutover/Counters/Seed.antt =====
-- src/cutover/reconcile-inventory-counters.ts: the pages of runInventoryCounterReconcile, and the counters
-- after a seed.
use ticket_c2c_platform.Prelude.{
  ℕ, zero, suc, some_inj, text_refl, text_lt, text_lt_irrefl, ◌+◌, ◌≤◌, ◌≡◌, ◌∙◌, sym, ap, subst,
  refl, inl, inr, ◌⊎◌, Bool, true, false, Option, none, some, List, [], ◌∷◌, ◌++◌, Text, ◌=t◌, ltb,
  length, IsSorted, pages, page, last_key, pages_complete, Result, ok, err, arith, Bool-cases,
  Result-cases, Option-cases, Every, text_iff,
}
use ticket_c2c_platform.Database.{Db, WriterMode, read_inventory_writer_mode}
use ticket_c2c_platform.Cache.Keys.Distinct.{
  Counter, of_event, of_type, counter_key, version_key, HasUuids, same, counter_key_eq,
  counter_ne_version,
}
use ticket_c2c_platform.Cache.Scripts.{Store, init_script}
use ticket_c2c_platform.Cache.Scripts.Commands.{run_commands, value_of}
use ticket_c2c_platform.Cutover.Counters.{
  CounterNamespace, CounterCliMode, seed, reconcile, Counts, CounterReconcileOutcome, CounterRow,
  counter_rows, row_key, bounded_page_size, CounterEnv, CounterError, Listed, Enumerated,
  count_seeded, no_counts, visit_page, after_page, enumerate, enumerate_all, commit_and_reconcile,
  reconcile_rows, outcome_of, is_inactive, run_inventory_counter_reconcile,
}

visit_page-append :
    (env : CounterEnv) (mode : CounterCliMode) (xs ys : List CounterRow) (l : Listed) (m : Store)
    → visit_page env mode (xs ++ ys) l m
      ≡ after_page false (visit_page env mode xs l m) (visit_page env mode ys)
unfolding visit_page
visit_page-append env mode [] ys l m = refl
visit_page-append env seed (x ∷ xs) ys (counts, targets) m =
    elim (Bool-cases (env.calls_fail counts.processed)) [
      | inl fails ↦ rw (fails, visit_page) refl
      | inr works ↦ rw (works, visit_page) (visit_page-append env seed xs ys _ _)
    ]
visit_page-append env reconcile (x ∷ xs) ys (counts, targets) m =
    visit_page-append env reconcile xs ys _ _

after_page_ok :
    (is_last : Bool) (v : Enumerated) (rest : Listed → Store → Enumerated) (found : Listed)
    → (after_page is_last v rest).1 ≡ ok found
    → (l : Listed) × (v ≡ (v.0, ok l))
after_page_ok is_last (m, err e) rest found h = absurd (ground arith)
after_page_ok is_last (m, ok l) rest found h = (l, refl)

after_last_page : (v : Enumerated) (rest : Listed → Store → Enumerated) → after_page true v rest ≡ v
after_last_page (m, err e) rest = refl
after_last_page (m, ok l) rest = refl

page-cases :
    (xs : List CounterRow)
    → (xs ≡ []) ⊎ ((y : CounterRow) × ((ys : List CounterRow) × (xs ≡ y ∷ ys)))
page-cases [] = inl refl
page-cases (x ∷ xs) = inr (x, (xs, refl))

-- The pages are visited as if all rows were one page.
enumerate-visit_page :
    (env : CounterEnv) (mode : CounterCliMode) (fuel n p : ℕ) (last : Option Text)
    (rows all : List CounterRow) (l found : Listed) (m : Store)
    → pages row_key fuel n last rows ≡ some all
    → (enumerate env mode fuel n p last rows l m).1 ≡ ok found
    → enumerate env mode fuel n p last rows l m ≡ visit_page env mode all l m
unfolding enumerate pages visit_page
enumerate-visit_page env mode zero n p last rows all l found m h ran = absurd (ground arith)
enumerate-visit_page env mode (suc fuel) n p last rows all l found m h ran =
    elim (Bool-cases (env.query_fails p)) [
      | inl fails ↦ absurd (ground arith)
      | inr works ↦ elim (page-cases (page row_key n last rows)) [
        | inl empty ↦
            let nothing : pages row_key (suc fuel) n last rows ≡ some [] = rw (empty, pages) refl in
            let same : [] ≡ all = some_inj (sym nothing ∙ h) in
            rw (works, empty, enumerate)
              (subst (λ a. (m, ok l) ≡ visit_page env mode a l m) same refl)
        | inr (x, (xs, e)) ↦
            let more = λ (l' : Listed) (m' : Store).
              enumerate env mode fuel n (p + 1) (some (last_key row_key x xs)) rows l' m' in
            let visited = visit_page env mode (x ∷ xs) l m in
            let opened : enumerate env mode (suc fuel) n p last rows l m
                ≡ after_page (ltb (length (x ∷ xs)) n) visited more =
              rw (works, e, enumerate) refl in
            let (l', done) =
              after_page_ok (ltb (length (x ∷ xs)) n) visited more found
                (sym (ap (λ (z : Enumerated). z.1) opened) ∙ ran) in
            elim (Bool-cases (ltb (length (x ∷ xs)) n)) [
              | inl short ↦
                  let only : pages row_key (suc fuel) n last rows ≡ some (x ∷ xs) =
                    rw (e, pages, short) refl in
                  let same : x ∷ xs ≡ all = some_inj (sym only ∙ h) in
                  opened
                  ∙ ap (λ b. after_page b visited more) short
                  ∙ after_last_page visited more
                  ∙ ap (λ a. visit_page env mode a l m) same
              | inr whole ↦
                  elim (Option-cases (pages row_key fuel n (some (last_key row_key x xs)) rows)) [
                    | inl stuck ↦
                        let no : pages row_key (suc fuel) n last rows ≡ none =
                          rw (e, pages, whole, stuck) refl in
                        absurd (ground arith)
                    | inr (ys, rest) ↦
                        let both : pages row_key (suc fuel) n last rows ≡ some ((x ∷ xs) ++ ys) =
                          rw (e, pages, whole, rest) refl in
                        let same : (x ∷ xs) ++ ys ≡ all = some_inj (sym both ∙ h) in
                        let step : after_page (ltb (length (x ∷ xs)) n) visited more
                            ≡ more l' visited.0 =
                          ap (λ b. after_page b visited more) whole
                          ∙ ap (λ z. after_page false z more) done in
                        opened
                        ∙ step
                        ∙ enumerate-visit_page env mode fuel n (p + 1)
                            (some (last_key row_key x xs)) rows ys l' found visited.0 rest
                            (sym (ap (λ (z : Enumerated). z.1) (opened ∙ step)) ∙ ran)
                        ∙ sym (ap (λ z. after_page false z (visit_page env mode ys)) done)
                        ∙ sym (visit_page-append env mode (x ∷ xs) ys l m)
                        ∙ ap (λ a. visit_page env mode a l m) same
                  ]
            ]
      ]
    ]

-- While the counter `c` of an inactive namespace is seeded, no one else writes it.
abbrev pub IsQuiet : CounterEnv → Counter → Type 0
IsQuiet env c = (k : ℕ) (m : Store) → value_of c (run_commands (env.before_call k) m) ≡ value_of c m

abbrev pub IsSeeded : Store → CounterRow → Type 0
IsSeeded m r = value_of r.counter m ≡ some r.remaining_quantity

init_own :
    (c : Counter) (n : ℕ) (m : Store)
    → HasUuids c
    → value_of c (init_script (counter_key c) (version_key c) n m) ≡ some n
unfolding init_script
init_own c n m h = ground (
  arith,
  counter_ne_version c c h h,
  text_iff (version_key c) (counter_key c),
  text_refl (counter_key c),
)

init_other :
    (c d : Counter) (n : ℕ) (m : Store)
    → HasUuids c
    → HasUuids d
    → counter_key c =t counter_key d ≡ false
    → value_of c (init_script (counter_key d) (version_key d) n m) ≡ value_of c m
unfolding init_script
init_other c d n m h k apart = ground (
  arith,
  counter_ne_version c d h k,
  text_iff (version_key d) (counter_key c),
  text_iff (counter_key d) (counter_key c),
  text_refl (counter_key c),
)

in_order_apart :
    (c d : Counter) (n k : ℕ)
    → text_lt
        (row_key (record { counter = c; remaining_quantity = n }))
        (row_key (record { counter = d; remaining_quantity = k }))
      ≡ true
    → same c d ≡ false
in_order_apart (of_event e) (of_event e') n k h = ground (arith, text_iff e e', text_lt_irrefl e)
in_order_apart (of_type e t) (of_type e' t') n k h =
    ground (arith, text_iff e e', text_iff t t', text_lt_irrefl (e ++ t))
in_order_apart (of_event e) (of_type e' t') n k h = refl
in_order_apart (of_type e t) (of_event e') n k h = refl

-- Of two rows in order the counters have two keys.
abbrev Differs : Counter → CounterRow → Type 0
Differs c r = HasUuids r.counter × (counter_key c =t counter_key r.counter ≡ false)

sorted_differ :
    (x y : CounterRow)
    → HasUuids x.counter
    → HasUuids y.counter
    → text_lt (row_key x) (row_key y) ≡ true
    → Differs x.counter y
sorted_differ x y h k later = (
  k,
  counter_key_eq x.counter y.counter h k
      ∙ in_order_apart x.counter y.counter x.remaining_quantity y.remaining_quantity later,
)

all_differ :
    (x : CounterRow) (rows : List CounterRow)
    → HasUuids x.counter
    → Every (λ r. HasUuids r.counter) rows
    → Every (λ r. text_lt (row_key x) (row_key r) ≡ true) rows
    → Every (Differs x.counter) rows
unfolding Every
all_differ x [] h uuids later = tt
all_differ x (y ∷ rows) h uuids later =
    (sorted_differ x y h uuids.0 later.0, all_differ x rows h uuids.1 later.1)

visit_page_keeps :
    (env : CounterEnv) (c : Counter) (rows : List CounterRow) (l : Listed) (m : Store)
    → HasUuids c
    → IsQuiet env c
    → Every (Differs c) rows
    → value_of c (visit_page env seed rows l m).0 ≡ value_of c m
unfolding visit_page Every
visit_page_keeps env c [] l m h quiet apart = refl
visit_page_keeps env c (r ∷ rows) (counts, targets) m h quiet apart =
    elim (Bool-cases (env.calls_fail counts.processed)) [
      | inl fails ↦ rw (fails, visit_page) (quiet counts.processed m)
      | inr works ↦
          rw (works, visit_page)
            (visit_page_keeps env c rows _ _ h quiet apart.1
              ∙ init_other c r.counter r.remaining_quantity _ h apart.0.0 apart.0.1
              ∙ quiet counts.processed m)
    ]

visit_page-IsSeeded :
    (env : CounterEnv) (rows : List CounterRow) (l found : Listed) (m : Store)
    → Every (λ r. HasUuids r.counter) rows
    → Every (λ r. IsQuiet env r.counter) rows
    → IsSorted row_key rows
    → (visit_page env seed rows l m).1 ≡ ok found
    → Every (IsSeeded (visit_page env seed rows l m).0) rows
      × (found.0.initialized ≡ l.0.initialized + length rows)
      × (found.0.processed ≡ l.0.processed + length rows)
      × (found.1 ≡ l.1)
unfolding visit_page Every IsSorted
visit_page-IsSeeded env [] l found m uuids quiet sorted ran =
    (tt, ground arith, ground arith, ground arith)
visit_page-IsSeeded env (r ∷ rows) (counts, targets) found m uuids quiet sorted ran =
    elim (Bool-cases (env.calls_fail counts.processed)) [
      | inl fails ↦ absurd (ground arith)
      | inr works ↦
          let met = run_commands (env.before_call counts.processed) m in
          let new =
            init_script (counter_key r.counter) (version_key r.counter) r.remaining_quantity met in
          let next : visit_page env seed (r ∷ rows) (counts, targets) m
              ≡ visit_page env seed rows (count_seeded counts, targets) new =
            rw (works, visit_page) refl in
          let (seeded, initialized, processed, listed) =
            visit_page-IsSeeded env rows (count_seeded counts, targets) found new uuids.1 quiet.1
              sorted.1 (sym (ap (λ (z : Enumerated). z.1) next) ∙ ran) in
          let apart = all_differ r rows uuids.0 uuids.1 sorted.0 in
          (
            subst (λ (z : Enumerated). Every (IsSeeded z.0) (r ∷ rows)) (sym next)
                (
                  visit_page_keeps env r.counter rows (count_seeded counts, targets) new uuids.0
                        quiet.0 apart
                      ∙ init_own r.counter r.remaining_quantity met uuids.0,
                  seeded,
                ),
            omega (arith, initialized),
            omega (arith, processed),
            listed,
          )
    ]

committed :
    (env : CounterEnv) (v : Enumerated) (counts : Counts)
    → (commit_and_reconcile env v).1 ≡ ok counts
    → (l : Listed) × ((v ≡ (v.0, ok l))
        × (commit_and_reconcile env v ≡ reconcile_rows env 0 l.1 l.0 v.0))
unfolding commit_and_reconcile
committed env (m, err e) counts h = absurd (ground arith)
committed env (m, ok (c, targets)) counts h = elim (Bool-cases env.commit_succeeds) [
  | inl done ↦ ((c, targets), (refl, rw (done, commit_and_reconcile) refl))
  | inr failed ↦ absurd (ground arith)
]

bounded_page_size_pos : (n : ℕ) → 1 ≤ bounded_page_size n
unfolding bounded_page_size
bounded_page_size_pos n = ground arith

pages_in_order :
    (env : CounterEnv) (rows : List CounterRow) (l : Listed) (m : Store)
    → IsSorted row_key rows
    → (enumerate_all env seed rows m).1 ≡ ok l
    → enumerate_all env seed rows m ≡ visit_page env seed rows (no_counts, []) m
unfolding enumerate_all
pages_in_order env rows l m sorted h =
    enumerate-visit_page env seed (suc (length rows)) (bounded_page_size env.page_size) 0 none rows
      rows (no_counts, []) l m
      (pages_complete row_key (bounded_page_size env.page_size) rows
        (bounded_page_size_pos env.page_size) sorted)
      h

ok_inj : {a b : Counts} (x : Result CounterError Counts) → x ≡ ok a → x ≡ ok b → a ≡ b
ok_inj x h k = cc

commit_leaves_counts :
    (env : CounterEnv) (rows : List CounterRow) (counts : Counts) (m : Store)
    → Every (λ r. HasUuids r.counter) rows
    → Every (λ r. IsQuiet env r.counter) rows
    → IsSorted row_key rows
    → (commit_and_reconcile env (enumerate_all env seed rows m)).1 ≡ ok counts
    → Every (IsSeeded (commit_and_reconcile env (enumerate_all env seed rows m)).0) rows
      × (counts.initialized ≡ length rows)
      × (counts.processed ≡ length rows)
unfolding reconcile_rows
commit_leaves_counts env rows counts m uuids quiet sorted h =
    let v = enumerate_all env seed rows m in
    let (l, (found, done)) = committed env v counts h in
    let visited = pages_in_order env rows l m sorted (ap (λ (z : Enumerated). z.1) found) in
    let (seeded, initialized, processed, listed) =
      visit_page-IsSeeded env rows (no_counts, []) l m uuids quiet sorted
        (sym (ap (λ (z : Enumerated). z.1) visited) ∙ ap (λ (z : Enumerated). z.1) found) in
    let nothing_left : commit_and_reconcile env v ≡ (v.0, ok l.0) =
      done ∙ ap (λ ts. reconcile_rows env 0 ts l.0 v.0) listed in
    let same : l.0 ≡ counts =
      ok_inj (commit_and_reconcile env v).1
        (ap (λ (z : Store × Result CounterError Counts). z.1) nothing_left) h in
    (
      subst (λ z. Every (IsSeeded z) rows)
          (sym (ap (λ z. z.0) nothing_left ∙ ap (λ (z : Enumerated). z.0) visited)) seeded,
      omega (arith, initialized, ap (λ (c : Counts). c.initialized) same),
      omega (arith, processed, ap (λ (c : Counts). c.processed) same),
    )

counted :
    (namespace : CounterNamespace) (mode : WriterMode) (v : Store × Result CounterError Counts)
    (outcome : CounterReconcileOutcome)
    → (outcome_of namespace seed mode v).1 ≡ ok outcome
    → (v.1 ≡ ok outcome.counts) × ((outcome_of namespace seed mode v).0 ≡ v.0)
counted namespace mode (m, err e) outcome h = absurd (ground arith)
counted namespace mode (m, ok counts) outcome h = (ground arith, refl)

-- A seed that returns leaves in every counter of its namespace what the row of the table has, and counts
-- each row once as processed and initialized, whatever the page size. This assumes that the rows are in the
-- order of their keys, their ids are UUIDs, and no one else writes these counters during the seed.
pub seed_initializes_counters :
    (env : CounterEnv) (namespace : CounterNamespace) (db : Db) (m : Store)
    {outcome : CounterReconcileOutcome}
    → Every (λ r. HasUuids r.counter) (counter_rows namespace db)
    → Every (λ r. IsQuiet env r.counter) (counter_rows namespace db)
    → IsSorted row_key (counter_rows namespace db)
    → (run_inventory_counter_reconcile env namespace seed db m).1 ≡ ok outcome
    → Every
        (IsSeeded (run_inventory_counter_reconcile env namespace seed db m).0)
        (counter_rows namespace db)
      × (outcome.counts.initialized ≡ length (counter_rows namespace db))
      × (outcome.counts.processed ≡ length (counter_rows namespace db))
unfolding run_inventory_counter_reconcile
seed_initializes_counters env namespace db m {outcome} uuids quiet sorted h =
    let rows = counter_rows namespace db in
    let v = commit_and_reconcile env (enumerate_all env seed rows m) in
    elim (Bool-cases env.begin_succeeds) [
      | inr failed ↦ absurd (ground arith)
      | inl begun ↦ elim (Result-cases (read_inventory_writer_mode db)) [
        | inl (e, unread) ↦ absurd (ground arith)
        | inr (mode, read) ↦ elim (Bool-cases (is_inactive namespace mode)) [
          | inr active ↦ absurd (ground arith)
          | inl inactive ↦
              let ran : run_inventory_counter_reconcile env namespace seed db m
                  ≡ outcome_of namespace seed mode v =
                rw (begun, read, inactive, run_inventory_counter_reconcile) refl in
              let (done, store) = counted namespace mode v outcome (
                sym (ap (λ (z : Store × Result CounterError CounterReconcileOutcome). z.1) ran)
                ∙ h) in
              let (seeded, initialized, processed) =
                commit_leaves_counts env rows outcome.counts m uuids quiet sorted done in
              (
                subst (λ z. Every (IsSeeded z) rows)
                    (sym (
                      ap (λ (z : Store × Result CounterError CounterReconcileOutcome). z.0) ran
                      ∙ store))
                    seeded,
                initialized,
                processed,
              )
        ]
      ]
    ]
