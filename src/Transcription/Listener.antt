-- ===== src/Transcription/Listener.antt =====
-- apps/woof/src-tauri/src/transcription.rs: what the windows are told, over whole histories.
use woof.Prelude.{
  ℕ, true, false, Option, none, some, List, [], ◌∷◌, ◌++◌, ◌≡◌, refl, arith, inl, inr, Option-cases,
  ◌∙◌,
}
use woof.Audio.Event.{AudioEvent}
use woof.Transcription.Session.{ActiveSession, TranscriptionCoordinator}
use woof.Transcription.Coordinator.{default_coordinator}
use woof.Transcription.Trace.{
  Call, reserves, attaches, finalizes, cancels, limits, hears, completes, fails, call, run, Note,
  Told, observe, observe_all, notes,
}
use woof.Transcription.Invariant.{all_good, call-good}

-- What was told of the session that is open; if there is none, the last one has ended.
abbrev pub told : Option ActiveSession → Told → Told
told none t = record t { ended = true }
told (some a) t = record {
  started = a.start_emitted;
  processed = a.processing_emitted;
  ended = a.terminal_emitted;
}

observe_all-append :
    {L : Type 0} (t : Told) (ns ms : List (Note L)) {t' : Told}
    → observe_all t ns ≡ some t'
    → observe_all t (ns ++ ms) ≡ observe_all t' ms
unfolding observe_all
observe_all-append t [] ms h = ground arith
observe_all-append t (n ∷ ns) ms h = elim (Option-cases (observe t n)) [
  | inl refused ↦ absurd (ground arith)
  | inr (u, noted) ↦ rw (noted, observe_all) (observe_all-append u ns ms (ground arith))
]

told_twice : (o : Option ActiveSession) (t : Told) → told o (told o t) ≡ told o t
told_twice none t = refl
told_twice (some a) t = refl

module _ {L : Type 0} (clamp_unit : L → L) where
  hears-told :
      (c : TranscriptionCoordinator) (id now : ℕ) (event : AudioEvent L) (t : Told)
      → all_good c.active ≡ true
      → let (c', ns) = call clamp_unit c (hears id event now) in
        observe_all (told c.active t) ns ≡ some (told c'.active (told c.active t))
  unfolding call observe_all observe notes
  hears-told c id now AudioEvent.start t g = ground arith
  hears-told c id now (AudioEvent.level normalized) t g = ground arith
  hears-told c id now AudioEvent.processing t g = ground arith
  hears-told c id now (AudioEvent.delta item_id text) t g = ground arith
  hears-told c id now (AudioEvent.done item_id text) t g = ground arith
  hears-told c id now AudioEvent.cancel t g = ground arith

  call-told :
      (c : TranscriptionCoordinator) (k : Call L) (t : Told)
      → all_good c.active ≡ true
      → let (c', ns) = call clamp_unit c k in
        observe_all (told c.active t) ns ≡ some (told c'.active (told c.active t))
  unfolding call observe_all observe notes
  call-told c (reserves trigger) t g = ground arith
  call-told c (attaches id stop) t g = ground arith
  call-told c finalizes t g = ground arith
  call-told c cancels t g = ground arith
  call-told c (limits id) t g = ground arith
  call-told c (hears id event now) t g = hears-told c id now event t g
  call-told c (completes id transcript) t g = ground arith
  call-told c (fails id failed) t g = ground arith

  run-told :
      (c : TranscriptionCoordinator) (ks : List (Call L)) (t : Told)
      → all_good c.active ≡ true
      → let (c', ns) = run clamp_unit c ks in
        (t' : Told) × (observe_all (told c.active t) ns ≡ some (told c'.active t'))
  unfolding run
  run-told c [] t g = (t, unfold observe_all in refl)
  run-told c (k ∷ ks) t g =
      let c' = (call clamp_unit c k).0 in
      let (t', rest) = run-told c' ks (told c.active t) (call-good clamp_unit c k g) in
      (
        t',
        observe_all-append (told c.active t) (call clamp_unit c k).1 (run clamp_unit c' ks).1
              (call-told c k t g)
            ∙ rest,
      )

  -- Over any history of calls from the start, a session is opened only after the end of the last
  -- one was told; after the end of a session nothing more is told of it; and its start and its
  -- processing are told at most once. What was told of a session that is still active is what it
  -- remembers, and where none is active the end of the last one has been told.
  pub run_observed :
      (ks : List (Call L))
      → let (c, ns) = run clamp_unit default_coordinator ks in
        (t : Told) × (observe_all (record { started = false; processed = false; ended = true }) ns
          ≡ some (told c.active t))
  unfolding default_coordinator
  run_observed ks =
      run-told default_coordinator ks (record { started = false; processed = false; ended = true })
        refl
