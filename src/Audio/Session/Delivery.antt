-- ===== src/Audio/Session/Delivery.antt =====
-- crates/woof-audio/src/session.rs: no final that the service sends is lost on the way to the
-- desktop app.
use woof.Prelude.{
  ◌≤◌, true, false, ◌||◌, Option, none, some, List, [], ◌∷◌, ◌++◌, ◌≡◌, refl, arith, length,
  is_some, inl, inr, Bool-cases,
}
use woof.Prelude.Text.{Text}
use woof.Prelude.Int.{ℤ}
use woof.Audio.Queue.{TranscriptionEvent}
use woof.Audio.Queue.Finals.{count}
use woof.Audio.Queue.Push.{push-IsBounded}
use woof.Audio.Session.{
  AudioError, Result, ok, err, Session, Input, cancels, backend_sends, backend_takes,
  backend_closes, backend_ends, receives, frame_ready, begin, cancel, send_command, take_frame,
  select, wait, step, run,
}
use woof.Audio.Session.Finals.{sent_after, sent_after-append, told_after, told_after-append, sends}
use woof.Audio.Session.Linked.{
  is_ok, Linked, receive-Linked, end_with-Linked, Linked-silent, Linked-push, final-empty,
  begin-Linked,
}

module _ {L : Type 0} (normalized_level : List ℤ → L) where
  take_frame-silent :
      (j : Text) (s : Session L) (f : Result (Option (List ℤ)) AudioError) (told : Option Text)
      → s.result ≡ none
      → let (s', events) = take_frame normalized_level s f in
        (s'.queue ≡ s.queue) × (is_ok s'.result ≡ false) × (told_after j events told ≡ told)
  unfolding take_frame send_command cancel told_after
  take_frame-silent j s (ok none) told h = ground arith
  take_frame-silent j s (ok (some [])) told h = ground arith
  take_frame-silent j s (ok (some (x ∷ xs))) told h = ground arith
  take_frame-silent j s (err e) told h = ground arith

  select-Linked :
      (j : Text) (s : Session L) (i : Input L) (sent told : Option Text)
      → s.result ≡ none
      → s.waiting ≡ none
      → Linked j s sent told
      → Linked j
          (select normalized_level s i).0
          (sent_after j (sends s i) sent)
          (told_after j (select normalized_level s i).1 told)
  unfolding select sent_after told_after cancel
  select-Linked j s cancels sent told r w k = record {
    bounded = k.bounded;
    linked = k.linked;
    complete = λ done. ground arith;
  }
  select-Linked j s (backend_sends e) sent told r w k =
      rw (r, w)
        (record {
          bounded = push-IsBounded s.queue e k.bounded;
          linked = λ calm. Linked-push j s e sent told k calm;
          complete = λ done. ground arith;
        })
  select-Linked j s backend_takes sent told r w k = record {
    bounded = k.bounded;
    linked = k.linked;
    complete = k.complete;
  }
  select-Linked j s backend_closes sent told r w k = record {
    bounded = k.bounded;
    linked = k.linked;
    complete = k.complete;
  }
  select-Linked j s (backend_ends e) sent told r w k = end_with-Linked j s e sent told k
  select-Linked j s receives sent told r w k = receive-Linked j s sent told r k
  select-Linked j s (frame_ready f) sent told r w k = elim (Bool-cases s.source_finished) [
    | inl finished ↦ simp finished k
    | inr more ↦
        let next = take_frame normalized_level s f in
        let (queue, result, silent) = take_frame-silent j s f told r in
        simp more (Linked-silent j s next.0 next.1 sent told k queue result silent)
  ]

  sends-ended :
      (s : Session L) (i : Input L) → is_some s.result || is_some s.waiting ≡ true → sends s i ≡ []
  sends-ended s i h = ground arith

  wait-Linked :
      (j : Text) (s : Session L) (i : Input L) (sent told : Option Text)
      → Linked j s sent told
      → Linked j
          (wait normalized_level s i).0
          sent
          (told_after j (wait normalized_level s i).1 told)
  unfolding wait cancel told_after
  wait-Linked j s cancels sent told k = record {
    bounded = k.bounded;
    linked = k.linked;
    complete = λ done. ground arith;
  }
  wait-Linked j s (backend_sends e) sent told k = k
  wait-Linked j s backend_takes sent told k = k
  wait-Linked j s backend_closes sent told k = k
  wait-Linked j s (backend_ends r) sent told k = k
  wait-Linked j s receives sent told k = k
  wait-Linked j s (frame_ready f) sent told k = k

  step-Linked :
      (j : Text) (s : Session L) (i : Input L) (sent told : Option Text)
      → Linked j s sent told
      → Linked j
          (step normalized_level s i).0
          (sent_after j (sends s i) sent)
          (told_after j (step normalized_level s i).1 told)
  unfolding step sent_after
  step-Linked j s i sent told k = elim (Bool-cases (is_some s.result)) [
    | inl ended ↦
        let nothing = sends-ended s i (rw ended refl) in
        simp (nothing, ended) (unfold told_after in k)
    | inr running ↦ elim (Bool-cases (is_some s.waiting)) [
      | inl waits ↦
          let nothing = sends-ended s i (rw (running, waits) refl) in
          simp (nothing, running, waits) (wait-Linked j s i sent told k)
      | inr free ↦
          let selected = select-Linked j s i sent told (ground arith) (ground arith) k in
          simp (running, free) selected
    ]
  ]

  -- The events that the service sends, while the session can take them.
  unfoldable pub sends_all : Session L → List (Input L) → List (TranscriptionEvent L)
  sends_all s [] = []
  sends_all s (i ∷ is) = sends s i ++ sends_all (step normalized_level s i).0 is

  run-Linked :
      (j : Text) (s : Session L) (is : List (Input L)) (sent told : Option Text)
      → Linked j s sent told
      → Linked j
          (run normalized_level s is).0
          (sent_after j (sends_all s is) sent)
          (told_after j (run normalized_level s is).1 told)
  unfolding run sends_all
  run-Linked j s [] sent told k = unfold sent_after told_after in k
  run-Linked j s (i ∷ is) sent told k =
      let (s', events) = step normalized_level s i in
      let next = run-Linked j s' is _ _ (step-Linked j s i sent told k) in
      rw
        (
          sent_after-append j (sends s i) (sends_all s' is) sent,
          told_after-append j events (run normalized_level s' is).1 told,
        )
        next

  -- Where a session ends with a transcript, the last final of every item that the service sent is the
  -- last one that the desktop app was told, however sending and receiving took turns; an item with no
  -- final sent has none told.
  pub run_delivers :
      (j t : Text) (is : List (Input L))
      → (run normalized_level begin is).0.result ≡ some (ok t)
      → told_after j (run normalized_level begin is).1 none ≡ sent_after j (sends_all begin is) none
  run_delivers j t is h =
      let k = run-Linked j begin is none none (begin-Linked j) in
      let (empty, calm) = k.complete (rw h refl) in
      let linked = k.linked calm in
      let last =
        final-empty j (run normalized_level begin is).0.queue
          (told_after j (run normalized_level begin is).1 none) empty in
      cc

  -- After any steps the queue holds at most one event for each item, and no more events than its
  -- capacity.
  pub run_bounded :
      (is : List (Input L))
      → let q = (run normalized_level begin is).0.queue in
        ((j : Text) → count j q.events ≤ 1) × (length q.events ≤ q.capacity)
  run_bounded is =
      let k = run-Linked [] begin is none none (begin-Linked []) in
      (k.bounded.unique, k.bounded.fits)
