-- ===== src/Audio/Session/Finals.antt =====
-- crates/woof-audio/src/session.rs: the final of each item, from the queue to the desktop app.
use woof.Prelude.{
  ℕ, zero, suc, ◌+◌, ◌≤◌, true, false, not, ◌||◌, Option, some, List, [], ◌∷◌, ◌++◌, ◌≡◌, ◌∙◌, refl,
  arith, if◌then◌else◌, length, is_some, inl, inr,
}
use woof.Prelude.Text.{Text, text_eq}
use woof.Audio.Event.{AudioEvent}
use woof.Audio.Queue.{
  TranscriptionEvent, started, level, processing, partial, done, BackendEventState,
}
use woof.Audio.Queue.Finals.{final_of, count, count-any, occurs, IsBounded, final_after}
use woof.Audio.Session.{
  EventTranscriptState, replace_partial, complete, Session, Input, backend_sends,
  publish_backend_event, drain,
}
use woof.Audio.Session.Drain.{drain-Round, rest_of}

module _ {L : Type 0} where
  -- The final of an item after the events that were sent, and after those that were told.
  unfoldable pub sent_after : Text → List (TranscriptionEvent L) → Option Text → Option Text
  sent_after j [] o = o
  sent_after j (e ∷ es) o = sent_after j es (final_after j e o)

  unfoldable pub told_after : Text → List (AudioEvent L) → Option Text → Option Text
  told_after j [] o = o
  told_after j (AudioEvent.done i t ∷ es) o = told_after j es (if text_eq i j then some t else o)
  told_after j (e ∷ es) o = told_after j es o

  pub sent_after-append :
      (j : Text) (es fs : List (TranscriptionEvent L)) (o : Option Text)
      → sent_after j (es ++ fs) o ≡ sent_after j fs (sent_after j es o)
  unfolding sent_after
  sent_after-append j [] fs o = refl
  sent_after-append j (e ∷ es) fs o = sent_after-append j es fs (final_after j e o)

  pub told_after-append :
      (j : Text) (es fs : List (AudioEvent L)) (o : Option Text)
      → told_after j (es ++ fs) o ≡ told_after j fs (told_after j es o)
  unfolding told_after
  told_after-append j [] fs o = refl
  told_after-append j (AudioEvent.start ∷ es) fs o = told_after-append j es fs o
  told_after-append j (AudioEvent.level n ∷ es) fs o = told_after-append j es fs o
  told_after-append j (AudioEvent.processing ∷ es) fs o = told_after-append j es fs o
  told_after-append j (AudioEvent.delta i t ∷ es) fs o = told_after-append j es fs o
  told_after-append j (AudioEvent.done i t ∷ es) fs o = told_after-append j es fs _
  told_after-append j (AudioEvent.cancel ∷ es) fs o = told_after-append j es fs o

  -- The event that the service sends in a step: one at the `select!` of a session that has not ended.
  abbrev pub sends : Session L → Input L → List (TranscriptionEvent L)
  sends s (backend_sends e) = if is_some s.result || is_some s.waiting then [] else e ∷ []
  sends s _ = []

  -- The final of an item: the pending one, or the one told last.
  abbrev pub final : Text → BackendEventState L → Option Text → Option Text
  final j q o = if is_some (final_of j q.events) then final_of j q.events else o

  -- Receiving the first event leaves the final of every item.
  pub final-publish :
      (j : Text) (q : BackendEventState L) (t : EventTranscriptState) (e : TranscriptionEvent L)
      (es : List (TranscriptionEvent L)) (o : Option Text)
      → count j (e ∷ es) ≤ 1
      → q.events ≡ e ∷ es
      → final j q o ≡ final j (rest_of q es) (told_after j (publish_backend_event t e).1 o)
  unfolding publish_backend_event replace_partial complete final_of count told_after
  final-publish j q t started es o u h = ground arith
  final-publish j q t (level n) es o u h = ground arith
  final-publish j q t processing es o u h = ground arith
  final-publish j q t (partial i x) es o u h = ground arith
  final-publish j q t (done i x) es o u h = ground (arith, count-any j es)

  count_rest :
      (j : Text) (q : BackendEventState L) (e : TranscriptionEvent L)
      (es : List (TranscriptionEvent L))
      → q.events ≡ e ∷ es
      → count j q.events ≡ occurs j e + count j es
  unfolding count
  count_rest j q e es h = rw h refl

  pub rest-IsBounded :
      (q : BackendEventState L) (e : TranscriptionEvent L) (es : List (TranscriptionEvent L))
      → q.events ≡ e ∷ es
      → IsBounded q
      → IsBounded (rest_of q es)
  rest-IsBounded q e es h w = record {
    unique = λ j. let u = w.unique j in let k = count_rest j q e es h in omega arith;
    fits = let f = w.fits in ground arith;
  }

  -- A queue that is drained without an overflow has told every final that it held.
  final-last :
      (j : Text) (n : ℕ) (q : BackendEventState L) (t : EventTranscriptState) (o : Option Text)
      → q.overflowed ≡ false
      → drain (suc n) q t ≡ (q, t, [], not q.overflowed)
      → q.events ≡ []
      → let (q', t', events, good) = drain (suc n) q t in
        (final j q o ≡ told_after j events o)
        × (good ≡ true)
        × (q'.events ≡ [])
        × (q'.overflowed ≡ false)
  unfolding final_of told_after
  final-last j n q t o v last empty = rw last (rw empty refl, rw v refl, empty, v)

  pub final-drain :
      (j : Text) (n : ℕ) (q : BackendEventState L) (t : EventTranscriptState) (o : Option Text)
      → IsBounded q
      → length q.events ≤ n
      → q.overflowed ≡ false
      → let (q', t', events, good) = drain (suc n) q t in
        (final j q o ≡ told_after j events o)
        × (good ≡ true)
        × (q'.events ≡ [])
        × (q'.overflowed ≡ false)
  final-drain j zero q t o w h v = elim (drain-Round zero q t) [
    | inl (last, empty) ↦ final-last j zero q t o v last (empty v)
    | inr (e, es, r) ↦ absurd (let f = r.first in ground arith)
  ]
  final-drain j (suc n) q t o w h v = elim (drain-Round (suc n) q t) [
    | inl (last, empty) ↦ final-last j (suc n) q t o v last (empty v)
    | inr (e, es, r) ↦
        let t' = (publish_backend_event t e).0 in
        let told = (publish_backend_event t e).1 in
        let bounded = rest-IsBounded q e es r.first w in
        let short : length es ≤ n = (let f = r.first in ground arith) in
        let (same, good, empty, calm) =
          final-drain j n (rest_of q es) t' (told_after j told o) bounded short v in
        let u : count j (e ∷ es) ≤ 1 = rw r.first at (w.unique j) in
        (
          rw (r.told, told_after-append j told (drain (suc n) (rest_of q es) t').2 o)
              (final-publish j q t e es o u r.first ∙ same),
          rw r.flag good,
          rw r.queue empty,
          rw r.queue calm,
        )
  ]
