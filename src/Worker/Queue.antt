-- ===== src/Worker/Queue.antt =====
-- src/worker/search-projection.worker.ts: the queue under the polls of the worker.
use mathlib.Core.List.{Memᴰ}
use mathlib.Core.List.Memᴰ
use ticket_c2c_platform.Prelude.{
  ℕ, ◌+◌, ◌≡◌, refl, ap, sym, inl, inr, true, false, not, some, List, [], ◌∷◌, Text, ◌=t◌, ok,
  arith, Result-cases, text_refl, text_iff, Bool-cases, ◌⊎◌, subst, Every, find_row,
  find_row-select_kept, Bool, select,
}
use ticket_c2c_platform.Json.{Json}
use ticket_c2c_platform.Messaging.InventoryEvent.{Payload, Parsed}
use ticket_c2c_platform.Search.Requests.{Fate, through, lost, refused, conflict, Attempt}
use ticket_c2c_platform.Search.Requests.Retries.{Advances}
use ticket_c2c_platform.Worker.{
  Message, Worker, Runtime, Outcome, emit_outcome, process_parsed, process_inventory_changed,
  process_metadata, process_other, process_envelope, report_failure, handle_message, has_receipt,
  delete_message, after_deletion, redrive, Weather, poll, run,
}
use ticket_c2c_platform.Worker.Indexing.{
  Reflected, IsForward, Announces, handle_message-Reflected, handle_message-ok,
}

-- What a worker may lose a message from: the queue and the dead-letter queue, which no handling changes.
abbrev queues : Worker → List Message × List Message
queues w = (w.queue, w.dead_letters)

module _ (runtime : Runtime) (attempts : ℕ → Attempt) where
  queues-process_parsed :
      (q : Parsed) (w : Worker) → queues ((process_parsed attempts q w).0) ≡ queues w
  unfolding process_parsed emit_outcome
  queues-process_parsed q w = ground arith

  queues-process_metadata :
      (id : Text) (detail : Json) (w : Worker)
      → queues ((process_metadata runtime attempts id detail w).0) ≡ queues w
  unfolding process_metadata emit_outcome
  queues-process_metadata id detail w = ground arith

  queues-process_other :
      (type detail : Json) (w : Worker)
      → queues ((process_other runtime attempts type detail w).0) ≡ queues w
  unfolding process_other
  queues-process_other type detail w = grind (arith, queues-process_metadata)

  queues-process_envelope :
      (envelope : Json) (w : Worker)
      → queues ((process_envelope runtime attempts envelope w).0) ≡ queues w
  unfolding process_envelope process_inventory_changed
  queues-process_envelope envelope w = grind (arith, queues-process_other, queues-process_parsed)

  queues-report_failure :
      (type : Json) (o : Outcome) → queues ((report_failure type o).0) ≡ queues o.0
  unfolding report_failure emit_outcome
  queues-report_failure type o = ground arith

  queues-handle_message :
      (m : Message) (w : Worker) → queues ((handle_message runtime attempts m w).0) ≡ queues w
  unfolding handle_message
  queues-handle_message m w = grind (arith, queues-report_failure, queues-process_envelope)

-- The message is in the queue, or in the dead-letter queue.
abbrev pub IsHeld : Message → List Message × List Message → Type 0
IsHeld m (queue, dead_letters) =
    (find_row (has_receipt m.receipt) queue ≡ some m) ⊎ Memᴰ m dead_letters

-- It is held, or the index has its versions.
abbrev pub IsKept : Message → Payload → Worker → Type 0
IsKept m p w = IsHeld m (queues w) ⊎ Reflected p w.index

found-Memᴰ :
    (p : Message → Bool) (xs : List Message) {m : Message} → find_row p xs ≡ some m → Memᴰ m xs
unfolding find_row
found-Memᴰ p [] {m} h = absurd (ground arith)
found-Memᴰ p (x ∷ xs) {m} h = elim (Bool-cases (p x)) [
  | inl hit ↦ Memᴰ.head (sym (ground arith))
  | inr miss ↦ Memᴰ.tail (found-Memᴰ p xs {m = m} (ground arith))
]

redrive-IsKept :
    (moved : Message → Bool) (m : Message) (p : Payload) (w : Worker)
    → IsKept m p w
    → IsKept m p (redrive moved w)
unfolding redrive
redrive-IsKept moved m p w (inr reflected) = inr reflected
redrive-IsKept moved m p w (inl (inr dead)) =
    inl (inr (Memᴰ.append_left (select moved w.queue) dead))
redrive-IsKept moved m p w (inl (inl queued)) = elim (Bool-cases (moved m)) [
  | inl goes ↦ inl (
      inr (
        Memᴰ.append_right w.dead_letters (
          found-Memᴰ (has_receipt m.receipt) (select moved w.queue)
            (find_row-select_kept (has_receipt m.receipt) moved w.queue {a = m} queued goes))))
  | inr stays ↦ inl (
      inl (
        find_row-select_kept (has_receipt m.receipt) (λ x. not (moved x)) w.queue {a = m} queued
          (ap not stays)))
]

-- A receipt names one message.
abbrev pub IsGenuine : Message → Message → Type 0
IsGenuine m x = x.receipt =t m.receipt ≡ true → x ≡ m

module _ (runtime : Runtime) (m : Message) (p : Payload) where
  handle_message-IsKept :
      (attempts : ℕ → Attempt) (x : Message) (w : Worker)
      → ((n : ℕ) → Advances (attempts n).others)
      → IsKept m p w
      → IsKept m p (handle_message runtime attempts x w).0
  handle_message-IsKept attempts x w others (inl held) =
      inl (subst (IsHeld m) (sym (queues-handle_message runtime attempts x w)) held)
  handle_message-IsKept attempts x w others (inr reflected) =
      inr (handle_message-Reflected runtime attempts p others x x.body w refl reflected)

  delete_message-IsKept :
      (r : Text) (w : Worker)
      → IsKept m p w
      → m.receipt =t r ≡ false
      → IsKept m p (delete_message r w)
  unfolding delete_message
  delete_message-IsKept r w (inl (inl queued)) other = inl (
      inl (
        find_row-select_kept (has_receipt m.receipt) (λ x. not (has_receipt r x)) w.queue {a = m}
          queued (ap not other)))
  delete_message-IsKept r w (inl (inr dead)) other = inl (inr dead)
  delete_message-IsKept r w (inr reflected) other = inr reflected

  handled-IsKept :
      (attempts : ℕ → Attempt) (x : Message) (w : Worker)
      → ((n : ℕ) → Advances (attempts n).others)
      → Announces m p
      → IsGenuine m x
      → (handle_message runtime attempts x w).1 ≡ ok tt
      → IsKept m p w
      → IsKept m p (delete_message x.receipt (handle_message runtime attempts x w).0)
  unfolding delete_message
  handled-IsKept attempts x w others announces genuine done kept =
      elim (Bool-cases (m.receipt =t x.receipt)) [
        | inl own ↦
            let same : x ≡ m =
              genuine (ground (arith, text_iff m.receipt x.receipt, text_refl m.receipt)) in
            inr (
              subst (λ y. Reflected p (handle_message runtime attempts y w).0.index) (sym same)
                (handle_message-ok runtime attempts m p w announces
                  (subst (λ y. (handle_message runtime attempts y w).1 ≡ ok tt) same done)))
        | inr other ↦
            delete_message-IsKept x.receipt (handle_message runtime attempts x w).0
              (handle_message-IsKept attempts x w others kept) other
      ]

  -- The worker with the changes that others made before message number `k`.
  abbrev met : Weather → ℕ → Worker → Worker
  met weather k w = record w { index = weather.meanwhile k w.index }

  met-IsKept :
      (weather : Weather) (k : ℕ) (w : Worker)
      → IsForward weather
      → IsKept m p w
      → IsKept m p (met weather k w)
  met-IsKept weather k w forward (inl held) = inl held
  met-IsKept weather k w forward (inr reflected) = inr (forward.meanwhile k p w.index reflected)

  after_deletion-IsKept :
      (f : Fate) (kept deleted : Worker) (rest : Outcome)
      → IsKept m p kept
      → IsKept m p deleted
      → IsKept m p rest.0
      → IsKept m p (after_deletion f kept deleted rest).0
  after_deletion-IsKept through kept deleted rest a b c = c
  after_deletion-IsKept lost kept deleted rest a b c = b
  after_deletion-IsKept refused kept deleted rest a b c = a
  after_deletion-IsKept conflict kept deleted rest a b c = a

  poll-IsKept :
      (weather : Weather) (k : ℕ) (received : List Message) (w : Worker)
      → IsForward weather
      → Announces m p
      → Every (IsGenuine m) received
      → IsKept m p w
      → IsKept m p (poll runtime weather k received w).0
  unfolding poll Every
  poll-IsKept weather k [] w forward announces genuine kept = kept
  poll-IsKept weather k (x ∷ xs) w forward announces genuine kept =
      let kept_met : IsKept m p (met weather k w) = met-IsKept weather k w forward kept in
      let attempts = weather.attempts k in
      let handled =
        handle_message-IsKept attempts x (met weather k w) (forward.others k) kept_met in
      elim (Result-cases (handle_message runtime attempts x (met weather k w)).1) [
        | inl (e, failed) ↦ rw (failed, poll) handled
        | inr (tt, done) ↦
            let gone =
              handled-IsKept attempts x (met weather k w) (forward.others k) announces genuine.0
                done kept_met in
            rw (done, poll)
              (after_deletion-IsKept (weather.deletion k) _ _ _ handled gone
                (poll-IsKept weather (k + 1) xs _ forward announces genuine.1 gone))
      ]

-- A message that announces a versioned payload is not lost: where a receipt names one message, and other
-- clients take no document of the index back, it is in the queue, or in the dead-letter queue, or the index has the
-- versions of its payload or later ones. This holds however requests and deletions fail, in whatever order and
-- however often messages are delivered, and whichever messages are moved to the dead-letter queue between polls.
pub run-IsKept :
    (runtime : Runtime) (m : Message) (p : Payload) (polls : List (Weather × List Message))
    (w : Worker)
    → Announces m p
    → Every (λ poll. IsForward poll.0 × Every (IsGenuine m) poll.1) polls
    → IsKept m p w
    → IsKept m p (run runtime polls w)
unfolding run Every
run-IsKept runtime m p [] w announces forward kept = kept
run-IsKept runtime m p ((weather, received) ∷ polls) w announces forward kept =
    run-IsKept runtime m p polls _ announces forward.1 (
      poll-IsKept runtime m p weather 0 received (redrive weather.redriven w) forward.0.0 announces
        forward.0.1 (redrive-IsKept weather.redriven m p w kept))
