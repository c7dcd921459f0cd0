-- ===== src/Cache/Scripts/Compare.antt =====
-- The compare-and-set of the sync scripts against everything else that may run on the store.
use ticket_c2c_platform.Prelude.{
  ℕ, ◌+◌, ◌-◌, ◌<◌, ◌≡◌, refl, sym, subst, ap, ◌∙◌, Bool, true, false, ◌⊎◌, inl, inr, none, some,
  List, [], ◌∷◌, Text, ◌=t◌, ltb, ◌==◌, is_some, or_else, put, arith, text_refl, text_iff,
  Option-cases, Bool-cases,
}
use ticket_c2c_platform.Cache.Keys.{
  purchase_request_seen_key, event_counter_key, event_counter_version_key, ticket_type_counter_key,
  ticket_type_counter_revision_key,
}
use ticket_c2c_platform.Cache.Keys.Distinct.{
  Counter, of_event, of_type, counter_key, version_key, HasUuids, counter_key_eq, version_key_eq,
  counter_ne_version,
}
use ticket_c2c_platform.Cache.Scripts.Commands.{
  Command, inits, reserves, releases, syncs, marks, IsSane, AllSane, reserve_on, sync_on,
  run_command, run_commands, version_of, value_of,
}
use ticket_c2c_platform.Cache.Scripts.{
  Store, incr, init_script, release_script, sync_script, guarded_sync_script,
}

-- What any command does to a counter: nothing, or a change that the version counts.
abbrev Counted : Counter → Store → Store → Type 0
Counted c m m' =
    ((value_of c m' ≡ value_of c m) × (version_of c m' ≡ version_of c m))
    ⊎ (version_of c m < version_of c m')

-- A write of a counter with its version, as every script does it.
abbrev write_both : Counter → ℕ → Store → Store
write_both d n m = incr (version_key d) (put (counter_key d) n m)

write_both-Counted :
    (c d : Counter) (n : ℕ) (m : Store) → HasUuids c → HasUuids d → Counted c m (write_both d n m)
write_both-Counted c d n m hc hd = ground (
  arith,
  counter_key_eq d c hd hc,
  version_key_eq d c hd hc,
  counter_ne_version d c hd hc,
  counter_ne_version c d hc hd,
  counter_ne_version d d hd hd,
  text_iff (version_key d) (counter_key c),
  text_iff (counter_key c) (version_key d),
  text_iff (version_key d) (version_key c),
)

reserve_on-cases :
    (d : Counter) (n : ℕ) (m : Store)
    → (reserve_on d n m ≡ m) ⊎ ((k : ℕ) × (reserve_on d n m ≡ write_both d k m))
unfolding reserve_on counter_key version_key
reserve_on-cases (of_event e) n m = elim (Option-cases (m (event_counter_key e))) [
  | inl absent ↦ inl (ground arith)
  | inr (k, here) ↦ elim (Bool-cases (ltb k n)) [
    | inl short ↦ inl (ground arith)
    | inr enough ↦ inr (k - n, ground arith)
  ]
]
reserve_on-cases (of_type e t) n m = elim (Option-cases (m (ticket_type_counter_key e t))) [
  | inl absent ↦ inl (ground arith)
  | inr (k, here) ↦ elim (Bool-cases (ltb k n)) [
    | inl short ↦ inl (ground arith)
    | inr enough ↦ inr (k - n, ground arith)
  ]
]

-- A sync either is refused and changes nothing, or found the version that it expected.
pub sync_on-cases :
    (d : Counter) (n v : ℕ) (m : Store)
    → (sync_on d n v m ≡ (false, m))
      ⊎ ((version_of d m ≡ v) × (sync_on d n v m ≡ (true, write_both d n m)))
unfolding sync_on sync_script guarded_sync_script counter_key version_key
sync_on-cases (of_event e) n v m =
    elim (Bool-cases (or_else (m (event_counter_version_key e)) 0 == v)) [
      | inl hit ↦ inr (ground arith, ground arith)
      | inr miss ↦ inl (ground arith)
    ]
sync_on-cases (of_type e t) n v m = elim (Bool-cases (is_some (m (ticket_type_counter_key e t)))) [
  | inr absent ↦ inl (ground arith)
  | inl here ↦ elim (Bool-cases (or_else (m (ticket_type_counter_revision_key e t)) 0 == v)) [
    | inl hit ↦ inr (ground arith, ground arith)
    | inr miss ↦ inl (ground arith)
  ]
]

release-cases :
    (d : Counter) (n : ℕ) (m : Store)
    → (release_script (counter_key d) (version_key d) n m ≡ m)
      ⊎ ((k : ℕ) × (release_script (counter_key d) (version_key d) n m ≡ write_both d k m))
unfolding release_script
release-cases d n m = elim (Option-cases (m (counter_key d))) [
  | inl absent ↦ inl (ground arith)
  | inr (k, here) ↦ inr (k + n, ground arith)
]

-- A marker's key begins with another letter.
marker_ne :
    (b e r : Text) (c : Counter)
    → (purchase_request_seen_key b e r =t counter_key c ≡ false)
      × (purchase_request_seen_key b e r =t version_key c ≡ false)
unfolding purchase_request_seen_key counter_key version_key event_counter_key
    event_counter_version_key ticket_type_counter_key ticket_type_counter_revision_key ◌=t◌
marker_ne b e r (of_event x) = (refl, refl)
marker_ne b e r (of_type x t) = (refl, refl)

Counted-refl : (c : Counter) (m m' : Store) → m' ≡ m → Counted c m m'
Counted-refl c m m' e = inl (ap (value_of c) e, ap (version_of c) e)

Counted-write :
    (c d : Counter) (n : ℕ) (m m' : Store)
    → HasUuids c
    → HasUuids d
    → m' ≡ write_both d n m
    → Counted c m m'
Counted-write c d n m m' hc hd e = subst (Counted c m) (sym e) (write_both-Counted c d n m hc hd)

command-Counted :
    (c : Counter) (x : Command) (m : Store) → HasUuids c → IsSane x → Counted c m (run_command x m)
unfolding run_command init_script
command-Counted c (inits d n) m hc hx = write_both-Counted c d n m hc hx
command-Counted c (reserves d n) m hc hx = elim (reserve_on-cases d n m) [
  | inl none_done ↦ Counted-refl c m _ none_done
  | inr (k, done) ↦ Counted-write c d k m _ hc hx done
]
command-Counted c (releases d n) m hc hx = elim (release-cases d n m) [
  | inl none_done ↦ Counted-refl c m _ none_done
  | inr (k, done) ↦ Counted-write c d k m _ hc hx done
]
command-Counted c (syncs d n v) m hc hx = elim (sync_on-cases d n v m) [
  | inl refused ↦ Counted-refl c m _ (ap (λ (r : Bool × Store). r.1) refused)
  | inr (_, done) ↦ Counted-write c d n m _ hc hx (ap (λ (r : Bool × Store). r.1) done)
]
command-Counted c (marks b e r) m hc hx = ground (arith, marker_ne b e r c)

commands-Counted :
    (c : Counter) (xs : List Command) (m : Store)
    → HasUuids c
    → AllSane xs
    → Counted c m (run_commands xs m)
unfolding run_commands
commands-Counted c [] m hc h = inl (refl, refl)
commands-Counted c (x ∷ xs) m hc h =
    ground (arith, command-Counted c x m hc h.0, commands-Counted c xs (run_command x m) hc h.1)

-- The version of a counter was read; then any commands ran, on this counter and on others; then a
-- sync with that version went through. So none of those commands had changed the counter, and it
-- now holds the quantity given.
pub sync_loses_nothing :
    (c : Counter) (xs : List Command) (n : ℕ) (before : Store)
    → HasUuids c
    → AllSane xs
    → (sync_on c n (version_of c before) (run_commands xs before)).0 ≡ true
    → (value_of c (run_commands xs before) ≡ value_of c before)
      × (value_of c (sync_on c n (version_of c before) (run_commands xs before)).1 ≡ some n)
sync_loses_nothing c xs n before hc h synced =
    elim (sync_on-cases c n (version_of c before) (run_commands xs before)) [
      | inl refused ↦ absurd (ground arith)
      | inr (unchanged, done) ↦ (
        ground (arith, commands-Counted c xs before hc h),
        ap (λ (r : Bool × Store). value_of c r.1) done ∙ written c n (run_commands xs before) hc,
      )
    ]
  where
    written :
        (d : Counter) (k : ℕ) (m : Store) → HasUuids d → value_of d (write_both d k m) ≡ some k
    written d k m hd = ground (
      arith,
      text_refl (counter_key d),
      counter_ne_version d d hd hd,
      text_iff (version_key d) (counter_key d),
      text_iff (counter_key d) (version_key d),
    )

-- Reserve, release and, for Ticket Types, sync never create a counter.
pub counters_not_invented :
    (e t : Text) (n v : ℕ) (m : Store)
    → value_of (of_type e t) m ≡ none
    → (reserve_on (of_type e t) n m ≡ m)
      × (release_script (counter_key (of_type e t)) (version_key (of_type e t)) n m ≡ m)
      × (sync_on (of_type e t) n v m ≡ (false, m))
unfolding reserve_on release_script sync_on guarded_sync_script counter_key version_key
counters_not_invented e t n v m h = (ground arith, ground arith, ground arith)
