-- ===== src/Audio/Queue/Push.antt =====
-- crates/woof-audio/src/session.rs: what `push` and `try_recv` keep.
use woof.Prelude.{ℕ, ◌≤◌, true, false, none, List, [], ◌≡◌, refl, arith, length}
use woof.Prelude.Text.{Text, text_eq_iff}
use woof.Audio.Queue.{
  TranscriptionEvent, started, level, processing, partial, done, BackendEventState, channel,
  is_partial_of, any, push_content, push,
}
use woof.Audio.Queue.Finals.{
  final_of, count, count-any, replace-partial, replace_by_done, replace-done, IsBounded,
  final_after, push_content-final, push_content-count, push_content-length, push_content-cases,
}

module _ {L : Type 0} where
  pub channel-IsBounded : (n : ℕ) → IsBounded (channel {L = L} n)
  unfolding channel count
  channel-IsBounded n = record { unique = λ j. omega arith; fits = omega arith }

  item : TranscriptionEvent L → Text
  item (partial i t) = i
  item (done i t) = i
  item _ = []

  -- Where an item has a partial revision and at most one event, it has no final.
  no_final :
      (i : Text) (es : List (TranscriptionEvent L))
      → count i es ≤ 1
      → any (is_partial_of i) es ≡ true
      → final_of i es ≡ none
  no_final i es h p = ground (arith, count-any i es)

  push-count :
      (s : BackendEventState L) (e : TranscriptionEvent L) (j : Text)
      → count j s.events ≤ 1
      → count (item e) s.events ≤ 1
      → count j (push s e).0.events ≤ 1
  unfolding push item
  push-count s started j h u = h
  push-count s (level n) j h u = h
  push-count s processing j h u = h
  push-count s (partial i t) j h u = ground (
    arith,
    replace-partial i j t s.events,
    push_content-count s (partial i t) false j,
    count-any j s.events,
    text_eq_iff i j,
  )
  push-count s (done i t) j h u = ground (
    arith,
    replace_by_done i j t s.events,
    replace-done i j t s.events,
    no_final i s.events u,
    push_content-count s (done i t) true j,
    count-any j s.events,
    text_eq_iff i j,
  )

  push-length :
      (s : BackendEventState L) (e : TranscriptionEvent L)
      → length s.events ≤ s.capacity
      → count (item e) s.events ≤ 1
      → (length (push s e).0.events ≤ (push s e).0.capacity) × ((push s e).0.capacity ≡ s.capacity)
  unfolding push item
  push-length s started h u = ground arith
  push-length s (level n) h u = ground arith
  push-length s processing h u = ground arith
  push-length s (partial i t) h u =
      ground (arith, replace-partial i i t s.events, push_content-length s (partial i t) false h)
  push-length s (done i t) h u = ground (
    arith,
    replace_by_done i i t s.events,
    replace-done i i t s.events,
    no_final i s.events u,
    push_content-length s (done i t) true h,
  )

  -- Pushing keeps the bounds.
  pub push-IsBounded :
      (s : BackendEventState L) (e : TranscriptionEvent L) → IsBounded s → IsBounded (push s e).0
  push-IsBounded s e w = record {
    unique = λ j. push-count s e j (w.unique j) (w.unique (item e));
    fits = (push-length s e w.fits (w.unique (item e))).0;
  }

  -- An event that does not overflow the queue leaves the finals of all other items, and that of its
  -- own item if it is a partial one; a final becomes the final of its item.
  pub push-final :
      (s : BackendEventState L) (e : TranscriptionEvent L) (j : Text)
      → IsBounded s
      → (push s e).0.overflowed ≡ false
      → final_of j (push s e).0.events ≡ final_after j e (final_of j s.events)
  unfolding push final_of
  push-final s started j w o = refl
  push-final s (level n) j w o = refl
  push-final s processing j w o = refl
  push-final s (partial i t) j w o = ground (
    arith,
    replace-partial i j t s.events,
    push_content-final s (partial i t) false j,
    push_content-cases s (partial i t) false,
  )
  push-final s (done i t) j w o = ground (
    arith,
    replace_by_done i j t s.events,
    replace-done i j t s.events,
    no_final i s.events (w.unique i),
    push_content-final s (done i t) true j,
    push_content-cases s (done i t) true,
    count-any i s.events,
    text_eq_iff i j,
  )

  pub push-overflowed :
      (s : BackendEventState L) (e : TranscriptionEvent L)
      → s.overflowed ≡ true
      → (push s e).0.overflowed ≡ true
  unfolding push push_content
  push-overflowed s started h = h
  push-overflowed s (level n) h = h
  push-overflowed s processing h = h
  push-overflowed s (partial i t) h = ground arith
  push-overflowed s (done i t) h = ground arith
