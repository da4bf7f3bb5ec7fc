-- ===== src/Audio/Session/Order.antt =====
-- crates/woof-audio/src/session.rs: the order of what a session tells the desktop app.
use woof.Prelude.{
  ℕ, zero, suc, Bool, true, false, not, ◌||◌, ◌&&◌, Option, none, some, List, [], ◌∷◌, ◌++◌, ◌≡◌,
  ◌∙◌, refl, arith, if◌then◌else◌, length, is_some, inl, inr, Option-cases, Bool-cases,
}
use woof.Prelude.Text.{Text}
use woof.Prelude.Int.{ℤ}
use woof.Prelude.Table.{contains}
use woof.Audio.Event.{AudioEvent}
use woof.Audio.Queue.{
  TranscriptionEvent, started, level, processing, partial, done, BackendEventState, try_recv,
}
use woof.Audio.Session.Drain.{drain-Round, rest_of}
use woof.Audio.Session.{
  RealtimeError, AudioError, Result, ok, err, EventTranscriptState, default_transcript,
  replace_partial, complete, Session, Input, cancels, backend_sends, backend_takes, backend_closes,
  backend_ends, receives, frame_ready, begin, publish_backend_event, cancel, receive, drain,
  outcome, end_with, send_command, take_frame, select, wait, step, run,
}

-- What a listener has heard.
pub record Heard : Type 0 where
  pub processed : Bool
  pub over : Bool  -- cancelled
  pub finals : List Text

-- What it accepts after the start: nothing after a cancellation, no level and no second `processing`
-- after `processing`, no revision of an item that is done.
unfoldable pub listen : {L : Type 0} → Heard → AudioEvent L → Option Heard
listen h AudioEvent.start = none
listen h (AudioEvent.level n) = if h.over || h.processed then none else some h
listen h AudioEvent.processing =
    if h.over || h.processed then none else some (record h { processed = true })
listen h (AudioEvent.delta i t) = if h.over || contains i h.finals then none else some h
listen h (AudioEvent.done i t) = if h.over then none else some (record h { finals = i ∷ h.finals })
listen h AudioEvent.cancel = if h.over then none else some (record h { over = true })

unfoldable pub listen_all : {L : Type 0} → Heard → List (AudioEvent L) → Option Heard
listen_all h [] = some h
listen_all h (e ∷ es) = elim (listen h e) [ none ↦ none | some h' ↦ listen_all h' es ]

listen_all-append :
    {L : Type 0} (h : Heard) (es fs : List (AudioEvent L)) {h' : Heard}
    → listen_all h es ≡ some h'
    → listen_all h (es ++ fs) ≡ listen_all h' fs
unfolding listen_all
listen_all-append h [] fs p = ground arith
listen_all-append h (e ∷ es) fs {h'} p = elim (Option-cases (listen h e)) [
  | inl refused ↦ absurd (ground arith)
  | inr (k, heard) ↦ rw (heard, listen_all) (listen_all-append k es fs (ground arith))
]

abbrev pub was_cancelled : Option (Result Text AudioError) → Bool
was_cancelled (some (err AudioError.cancelled)) = true
was_cancelled _ = false

-- What a listener has heard of a session, told whether that was processing.
abbrev pub heard_of : {L : Type 0} → Session L → Bool → Heard
heard_of s p = record { processed = p; over = was_cancelled s.result; finals = s.transcript.finals }

-- Processing is told only after the source has finished, with nothing waiting to be sent.
abbrev fits : {L : Type 0} → Session L → Bool → Bool
fits s p = not p || s.source_finished && not (is_some s.waiting)

listen-outcome :
    (L : Type 0) (p : Bool) (finals : List Text) (r : Result Text RealtimeError)
    → listen_all (record { processed = p; over = false; finals = finals }) (outcome {L = L} r).1
      ≡ some (record {
        processed = p;
        over = was_cancelled (some (outcome {L = L} r).0);
        finals = finals;
      })
unfolding listen_all listen
listen-outcome L p finals (ok t) = refl
listen-outcome L p finals (err e) = ground arith

module _ {L : Type 0} where
  listen-publish :
      (t : EventTranscriptState) (e : TranscriptionEvent L) (p : Bool)
      → let (t', events) = publish_backend_event t e in
        listen_all (record { processed = p; over = false; finals = t.finals }) events
        ≡ some (record { processed = p; over = false; finals = t'.finals })
  unfolding publish_backend_event listen listen_all replace_partial complete
  listen-publish t started p = refl
  listen-publish t (level n) p = refl
  listen-publish t processing p = refl
  listen-publish t (partial i u) p = ground arith
  listen-publish t (done i u) p = refl

  listen-drain :
      (n : ℕ) (q : BackendEventState L) (t : EventTranscriptState) (p : Bool)
      → let (q', t', events, good) = drain n q t in
        listen_all (record { processed = p; over = false; finals = t.finals }) events
        ≡ some (record { processed = p; over = false; finals = t'.finals })
  unfolding drain try_recv
  listen-drain zero q t p = unfold listen_all in refl
  listen-drain (suc n) q t p = elim (drain-Round n q t) [
    | inl (last, empty) ↦ rw last (unfold listen_all in refl)
    | inr (e, es, r) ↦
        let t' = (publish_backend_event t e).0 in
        rw (r.told, r.transcript)
          (listen_all-append (record { processed = p; over = false; finals = t.finals })
              (publish_backend_event t e).1 (drain n (rest_of q es) t').2 (listen-publish t e p)
            ∙ listen-drain n (rest_of q es) t' p)
  ]

  listen-end_with :
      (s : Session L) (r : Result Text RealtimeError) (p : Bool)
      → s.result ≡ none
      → listen_all (heard_of s p) (end_with s r).1 ≡ some (heard_of (end_with s r).0 p)
  unfolding end_with
  listen-end_with s r p h =
      let n = suc (length s.queue.events) in
      let d = drain n s.queue s.transcript in
      let before : Heard = record { processed = p; over = false; finals = s.transcript.finals } in
      let heard = listen-drain n s.queue s.transcript p in
      elim (Bool-cases d.3) [
        | inl good ↦
            rw (h, good)
              (listen_all-append before d.2 (outcome r).1 heard ∙ listen-outcome L p d.1.finals r)
        | inr full ↦ rw (h, full) heard
      ]

  fits-end_with :
      (s : Session L) (r : Result Text RealtimeError) (p : Bool)
      → fits (end_with s r).0 p ≡ fits s p
  unfolding end_with
  fits-end_with s r p =
      let d = drain (suc (length s.queue.events)) s.queue s.transcript in
      elim (Bool-cases d.3) [ inl good ↦ rw good refl | inr full ↦ rw full refl ]

  listen-receive :
      (s : Session L) (p : Bool)
      → s.result ≡ none
      → listen_all (heard_of s p) (receive s).1 ≡ some (heard_of (receive s).0 p)
  unfolding receive try_recv publish_backend_event replace_partial complete listen_all listen
  listen-receive s p h = ground arith

  fits-receive : (s : Session L) (p : Bool) → fits (receive s).0 p ≡ fits s p
  unfolding receive try_recv
  fits-receive s p = ground arith

  abbrev processed_after : Session L → Input L → List (AudioEvent L) → Bool → Bool
  processed_after s (frame_ready (ok none)) [] p = p
  processed_after s (frame_ready (ok none)) (e ∷ es) p = true
  processed_after s _ es p = p

module _ {L : Type 0} (normalized_level : List ℤ → L) where
  listen-step :
      (s : Session L) (i : Input L) (p : Bool)
      → fits s p ≡ true
      → let (s', events) = step normalized_level s i in
        let p' = processed_after s i events p in
        (listen_all (heard_of s p) events ≡ some (heard_of s' p')) × (fits s' p' ≡ true)
  unfolding step select wait cancel take_frame send_command listen_all listen
  listen-step s cancels p h = ground arith
  listen-step s (backend_sends e) p h = ground arith
  listen-step s backend_takes p h = ground arith
  listen-step s backend_closes p h = ground arith
  listen-step s (backend_ends r) p h = ground (arith, listen-end_with s r p, fits-end_with s r p)
  listen-step s receives p h = ground (arith, listen-receive s p, fits-receive s p)
  listen-step s (frame_ready (ok none)) p h = ground arith
  listen-step s (frame_ready (ok (some []))) p h = ground arith
  listen-step s (frame_ready (ok (some (x ∷ samples)))) p h = ground arith
  listen-step s (frame_ready (err e)) p h = ground arith

  listen-run :
      (s : Session L) (is : List (Input L)) (p : Bool)
      → fits s p ≡ true
      → let (s', events) = run normalized_level s is in
        (p' : Bool) × (listen_all (heard_of s p) events ≡ some (heard_of s' p'))
  unfolding run
  listen-run s [] p h = (p, unfold listen_all in refl)
  listen-run s (i ∷ is) p h =
      let (s', events) = step normalized_level s i in
      let (heard, k) = listen-step s i p h in
      let (p', rest) = listen-run s' is (processed_after s i events p) k in
      (p', listen_all-append (heard_of s p) events (run normalized_level s' is).1 heard ∙ rest)

  -- After the start, whatever happens in whatever order, the session tells of its cancellation at
  -- most once and of nothing after it, of no level and no second `processing` after `processing`,
  -- and of no revision of an item that is done. It told of a cancellation exactly when it ended with
  -- that error, and the items that it told to be done are those of its transcript.
  pub run_protocol :
      (is : List (Input L))
      → let (s, events) = run normalized_level begin is in
        (p : Bool) × (listen_all (record { processed = false; over = false; finals = [] }) events
          ≡ some (heard_of s p))
  unfolding begin default_transcript
  run_protocol is = listen-run begin is false refl
