-- ===== src/Audio/Session/Linked.antt =====
-- crates/woof-audio/src/session.rs: what links the queue of a session to the finals that were sent and
-- told, over receiving and the end.
use woof.Prelude.{
  suc, Bool, true, false, Option, none, some, List, [], ◌∷◌, ◌++◌, ◌≡◌, ◌∙◌, ◌⊎◌, refl, arith,
  length, inl, inr, Bool-cases,
}
use woof.Prelude.Text.{Text}
use woof.Audio.Event.{AudioEvent}
use woof.Audio.Queue.{TranscriptionEvent, BackendEventState, try_recv, push, channel}
use woof.Audio.Queue.Finals.{final_of, count, IsBounded, final_after}
use woof.Audio.Queue.Push.{channel-IsBounded, push-final, push-overflowed}
use woof.Audio.Session.{
  RealtimeError, AudioError, Result, ok, err, Session, begin, publish_backend_event, receive, drain,
  backend_event_capacity, outcome, end_with,
}
use woof.Audio.Session.Drain.{rest_of}
use woof.Audio.Session.Finals.{
  told_after, told_after-append, final, final-publish, rest-IsBounded, final-drain,
}

abbrev pub is_ok : Option (Result Text AudioError) → Bool
is_ok (some (ok t)) = true
is_ok _ = false

told_after-outcome :
    (L : Type 0) (j : Text) (r : Result Text RealtimeError) (o : Option Text)
    → told_after j (outcome {L = L} r).1 o ≡ o
unfolding told_after
told_after-outcome L j (ok t) o = refl
told_after-outcome L j (err e) o = ground arith

module _ {L : Type 0} where
  -- What links a session to the final of an item that was sent last and the one that was told last.
  pub record Linked (j : Text) (s : Session L) (sent told : Option Text) : Type 0 where
    pub bounded : IsBounded s.queue
    pub linked : s.queue.overflowed ≡ false → sent ≡ final j s.queue told
    pub complete : is_ok s.result ≡ true → (s.queue.events ≡ []) × (s.queue.overflowed ≡ false)

  receive_cases :
      (s : Session L)
      → ((receive s).1 ≡ [])
          × ((receive s).0.queue ≡ s.queue)
          × (is_ok s.result ≡ false → is_ok (receive s).0.result ≡ false)
        ⊎ ((e : TranscriptionEvent L) × (es : List (TranscriptionEvent L)) × (s.queue.events
              ≡ e ∷ es)
            × ((receive s).1 ≡ (publish_backend_event s.transcript e).1)
            × ((receive s).0.queue ≡ rest_of s.queue es)
            × ((receive s).0.result ≡ s.result))
  unfolding receive try_recv
  receive_cases s = go s.queue.events refl
    where
      go :
          (l : List (TranscriptionEvent L))
          → s.queue.events ≡ l
          → ((receive s).1 ≡ [])
              × ((receive s).0.queue ≡ s.queue)
              × (is_ok s.result ≡ false → is_ok (receive s).0.result ≡ false)
            ⊎ ((e : TranscriptionEvent L) × (es : List (TranscriptionEvent L)) × (s.queue.events
                  ≡ e ∷ es)
                × ((receive s).1 ≡ (publish_backend_event s.transcript e).1)
                × ((receive s).0.queue ≡ rest_of s.queue es)
                × ((receive s).0.result ≡ s.result))
      go [] h = inl (ground arith)
      go (e ∷ es) h = elim (Bool-cases s.queue.overflowed) [
        | inl o ↦ inl (rw (o, h) (refl, refl, λ k. refl))
        | inr o ↦ inr (e, es, h, rw (o, h) refl, rw (o, h) refl, rw (o, h) refl)
      ]

  pub receive-Linked :
      (j : Text) (s : Session L) (sent told : Option Text)
      → s.result ≡ none
      → Linked j s sent told
      → Linked j (receive s).0 sent (told_after j (receive s).1 told)
  receive-Linked j s sent told h w = elim (receive_cases s) [
    | inl (silent, queue, result) ↦ record {
      bounded = rw queue w.bounded;
      linked = rw (queue, silent) (unfold told_after in w.linked);
      complete = λ done. let k = result (rw h refl) in ground arith;
    }
    | inr (e, es, first, told', queue, result) ↦ record {
      bounded = rw queue (rest-IsBounded s.queue e es first w.bounded);
      linked =
          rw (queue, told')
            (λ calm.
              w.linked calm
              ∙ final-publish j s.queue s.transcript e es told (rw first at (w.bounded.unique j))
                  first);
      complete = λ done. ground arith;
    }
  ]

  end_with-overflowed :
      (s : Session L) (r : Result Text RealtimeError)
      → s.queue.overflowed ≡ true
      → ((end_with s r).0.queue ≡ s.queue) × (is_ok (end_with s r).0.result ≡ false)
  unfolding end_with drain try_recv
  end_with-overflowed s r o = (rw o refl, rw o refl)

  end_with-good :
      (s : Session L) (r : Result Text RealtimeError)
      → let (q, t, events, good) = drain (suc (length s.queue.events)) s.queue s.transcript in
        good ≡ true → ((end_with s r).0.queue ≡ q) × ((end_with s r).1 ≡ events ++ (outcome r).1)
  unfolding end_with
  end_with-good s r good = (rw good refl, rw good refl)

  empty-IsBounded : (q : BackendEventState L) → q.events ≡ [] → IsBounded q
  unfolding count
  empty-IsBounded q h = record { unique = λ j. rw h (omega arith); fits = rw h (omega arith) }

  pub end_with-Linked :
      (j : Text) (s : Session L) (r : Result Text RealtimeError) (sent told : Option Text)
      → Linked j s sent told
      → Linked j (end_with s r).0 sent (told_after j (end_with s r).1 told)
  end_with-Linked j s r sent told w = elim (Bool-cases s.queue.overflowed) [
    | inl o ↦
        let (same, failed) = end_with-overflowed s r o in
        record {
          bounded = rw same w.bounded;
          linked = rw same (λ calm. ground arith);
          complete = λ done. ground arith;
        }
    | inr o ↦
        let n = length s.queue.events in
        let (final_told, good, empty, calm) =
          final-drain j n s.queue s.transcript told w.bounded (omega arith) o in
        let (queue, events) = end_with-good s r good in
        let d = drain (suc n) s.queue s.transcript in
        record {
          bounded = rw queue (empty-IsBounded d.0 empty);
          linked =
              rw
                (
                  queue,
                  events,
                  told_after-append j d.2 (outcome r).1 told,
                  told_after-outcome L j r (told_after j d.2 told),
                  empty,
                )
                (λ c. unfold final_of in w.linked o ∙ final_told);
          complete = rw queue (λ done. (empty, calm));
        }
  ]

  pub Linked-silent :
      (j : Text) (s s' : Session L) (events : List (AudioEvent L)) (sent told : Option Text)
      → Linked j s sent told
      → s'.queue ≡ s.queue
      → is_ok s'.result ≡ false
      → told_after j events told ≡ told
      → Linked j s' sent (told_after j events told)
  Linked-silent j s s' events sent told w q r t =
      rw t (record {
        bounded = rw q w.bounded;
        linked = rw q w.linked;
        complete = λ done. ground arith;
      })

  pub Linked-push :
      (j : Text) (s : Session L) (e : TranscriptionEvent L) (sent told : Option Text)
      → Linked j s sent told
      → (push s.queue e).0.overflowed ≡ false
      → final_after j e sent ≡ final j (push s.queue e).0 told
  Linked-push j s e sent told k calm =
      let before : s.queue.overflowed ≡ false = ground (arith, push-overflowed s.queue e) in
      let link = k.linked before in
      let after = push-final s.queue e j k.bounded calm in ground arith

  pub final-empty :
      (j : Text) (q : BackendEventState L) (o : Option Text) → q.events ≡ [] → final j q o ≡ o
  unfolding final_of
  final-empty j q o h = rw h refl

  pub begin-Linked : (j : Text) → Linked j (begin {L = L}) none none
  unfolding begin channel final_of
  begin-Linked j = record {
    bounded = channel-IsBounded backend_event_capacity;
    linked = λ calm. refl;
    complete = λ done. ground arith;
  }
