-- ===== src/Audio/Session/Drain.antt =====
-- crates/woof-audio/src/session.rs: the rounds of the loop that empties the queue at the end.
use woof.Prelude.{
  ℕ, suc, false, not, List, [], ◌∷◌, ◌++◌, ◌≡◌, refl, arith, ◌⊎◌, inl, inr, Bool-cases,
}
use woof.Audio.Queue.{TranscriptionEvent, BackendEventState, try_recv}
use woof.Audio.Session.{EventTranscriptState, publish_backend_event, drain}

module _ {L : Type 0} where
  abbrev pub rest_of : BackendEventState L → List (TranscriptionEvent L) → BackendEventState L
  rest_of q es = record q { events = es }

  -- A round ends the loop, or publishes the first event.
  pub record Round (n : ℕ) (q : BackendEventState L) (t : EventTranscriptState)
      (e : TranscriptionEvent L) (es : List (TranscriptionEvent L)) : Type 0 where
    pub good : q.overflowed ≡ false
    pub first : q.events ≡ e ∷ es
    pub queue : (drain (suc n) q t).0 ≡ (drain n (rest_of q es) (publish_backend_event t e).0).0
    pub transcript :
        (drain (suc n) q t).1 ≡ (drain n (rest_of q es) (publish_backend_event t e).0).1
    pub told :
        (drain (suc n) q t).2
        ≡ (publish_backend_event t e).1 ++ (drain n (rest_of q es) (publish_backend_event t e).0).2
    pub flag : (drain (suc n) q t).3 ≡ (drain n (rest_of q es) (publish_backend_event t e).0).3

  pub drain-Round :
      (n : ℕ) (q : BackendEventState L) (t : EventTranscriptState)
      → ((drain (suc n) q t ≡ (q, t, [], not q.overflowed))
          × (q.overflowed ≡ false → q.events ≡ []))
        ⊎ ((e : TranscriptionEvent L) × (es : List (TranscriptionEvent L)) × Round n q t e es)
  unfolding drain try_recv
  drain-Round n q t = go q.events refl
    where
      go :
          (l : List (TranscriptionEvent L))
          → q.events ≡ l
          → ((drain (suc n) q t ≡ (q, t, [], not q.overflowed))
              × (q.overflowed ≡ false → q.events ≡ []))
            ⊎ ((e : TranscriptionEvent L) × (es : List (TranscriptionEvent L)) × Round n q t e es)
      go [] h = inl (ground arith, λ o. h)
      go (e ∷ es) h = elim (Bool-cases q.overflowed) [
        | inl o ↦ inl (ground arith, λ good. ground arith)
        | inr o ↦ inr (
          e,
          es,
          record {
            good = o;
            first = h;
            queue = rw (o, h) refl;
            transcript = rw (o, h) refl;
            told = rw (o, h) refl;
            flag = rw (o, h) refl;
          },
        )
      ]
