-- ===== src/Audio/Queue/Finals.antt =====
-- crates/woof-audio/src/session.rs: what the queue keeps of every final, and its bounds.
use woof.Prelude.{
  ℕ, suc, ◌+◌, ◌≤◌, Bool, true, false, Option, none, some, List, [], ◌∷◌, ◌++◌, ◌≡◌, refl, arith,
  ◌||◌, ◌&&◌, if◌then◌else◌, length, length-append, is_some,
}
use woof.Prelude.Text.{Text, text_eq, text_eq_iff}
use woof.Audio.Queue.{
  TranscriptionEvent, started, level, processing, partial, done, queued, coalesced, superseded,
  ignored_status, overflow, BackendEventState, is_partial, is_partial_of, is_done_of, any,
  replace_first, remove_first, push_content,
}

module _ {L : Type 0} where
  -- The text of the item's final among the events.
  unfoldable pub final_of : Text → List (TranscriptionEvent L) → Option Text
  final_of j [] = none
  final_of j (done i t ∷ es) = if text_eq i j then some t else final_of j es
  final_of j (e ∷ es) = final_of j es

  -- The number of events of the item.
  abbrev pub occurs : Text → TranscriptionEvent L → ℕ
  occurs j (partial i t) = if text_eq i j then 1 else 0
  occurs j (done i t) = if text_eq i j then 1 else 0
  occurs j _ = 0

  unfoldable pub count : Text → List (TranscriptionEvent L) → ℕ
  count j [] = 0
  count j (e ∷ es) = occurs j e + count j es

  count-append :
      (j : Text) (es fs : List (TranscriptionEvent L))
      → count j (es ++ fs) ≡ count j es + count j fs
  unfolding count
  count-append j [] fs = omega arith
  count-append j (e ∷ es) fs = omega (arith, count-append j es fs)

  final_of-append :
      (j : Text) (es fs : List (TranscriptionEvent L))
      → final_of j (es ++ fs) ≡ (if is_some (final_of j es) then final_of j es else final_of j fs)
  unfolding final_of
  final_of-append j [] fs = refl
  final_of-append j (started ∷ es) fs = final_of-append j es fs
  final_of-append j (level n ∷ es) fs = final_of-append j es fs
  final_of-append j (processing ∷ es) fs = final_of-append j es fs
  final_of-append j (partial i t ∷ es) fs = final_of-append j es fs
  final_of-append j (done i t ∷ es) fs = ground (arith, final_of-append j es fs)

  -- An event that stands for an item is counted, and a final is found exactly when it stands there.
  pub count-any :
      (j : Text) (es : List (TranscriptionEvent L))
      → (any (is_done_of j) es || any (is_partial_of j) es ≡ false → count j es ≡ 0)
        × (any (is_done_of j) es ≡ is_some (final_of j es))
        × (any (is_done_of j) es && any (is_partial_of j) es ≡ true → 2 ≤ count j es)
        × (any (is_partial_of j) es ≡ true → 1 ≤ count j es)
        × (any (is_done_of j) es ≡ true → 1 ≤ count j es)
  unfolding any count final_of
  count-any j [] = ground arith
  count-any j (started ∷ es) = ground (arith, count-any j es)
  count-any j (level n ∷ es) = ground (arith, count-any j es)
  count-any j (processing ∷ es) = ground (arith, count-any j es)
  count-any j (partial i t ∷ es) = ground (arith, count-any j es)
  count-any j (done i t ∷ es) = ground (arith, count-any j es)

  pub replace-partial :
      (i j t : Text) (es : List (TranscriptionEvent L))
      → let es' = replace_first (is_partial_of i) (partial i t) es in
        (final_of j es' ≡ final_of j es) × (count j es' ≡ count j es) × (length es' ≡ length es)
  unfolding replace_first final_of count
  replace-partial i j t [] = (refl, refl, refl)
  replace-partial i j t (started ∷ es) = ground (arith, replace-partial i j t es)
  replace-partial i j t (level n ∷ es) = ground (arith, replace-partial i j t es)
  replace-partial i j t (processing ∷ es) = ground (arith, replace-partial i j t es)
  replace-partial i j t (partial k u ∷ es) =
      ground (arith, replace-partial i j t es, text_eq_iff k i, text_eq_iff k j, text_eq_iff i j)
  replace-partial i j t (done k u ∷ es) = ground (arith, replace-partial i j t es)

  -- The final that takes the place of an event of the item, where no other final of it is.
  pub replace_by_done :
      (i j t : Text) (es : List (TranscriptionEvent L))
      → any (is_partial_of i) es ≡ true
      → final_of i es ≡ none
      → let es' = replace_first (is_partial_of i) (done i t) es in
        (final_of j es' ≡ (if text_eq i j then some t else final_of j es))
        × (count j es' ≡ count j es)
        × (length es' ≡ length es)
  unfolding replace_first final_of count any
  replace_by_done i j t [] h n = absurd (ground arith)
  replace_by_done i j t (started ∷ es) h n = ground (arith, replace_by_done i j t es)
  replace_by_done i j t (level m ∷ es) h n = ground (arith, replace_by_done i j t es)
  replace_by_done i j t (processing ∷ es) h n = ground (arith, replace_by_done i j t es)
  replace_by_done i j t (partial k u ∷ es) h n =
      ground (arith, replace_by_done i j t es, text_eq_iff k i, text_eq_iff k j, text_eq_iff i j)
  replace_by_done i j t (done k u ∷ es) h n =
      ground (arith, replace_by_done i j t es, text_eq_iff k i, text_eq_iff k j, text_eq_iff i j)

  pub replace-done :
      (i j t : Text) (es : List (TranscriptionEvent L))
      → any (is_done_of i) es ≡ true
      → let es' = replace_first (is_done_of i) (done i t) es in
        (final_of j es' ≡ (if text_eq i j then some t else final_of j es))
        × (count j es' ≡ count j es)
        × (length es' ≡ length es)
  unfolding replace_first final_of count any
  replace-done i j t [] h = absurd (ground arith)
  replace-done i j t (started ∷ es) h = ground (arith, replace-done i j t es)
  replace-done i j t (level m ∷ es) h = ground (arith, replace-done i j t es)
  replace-done i j t (processing ∷ es) h = ground (arith, replace-done i j t es)
  replace-done i j t (partial k u ∷ es) h = ground (arith, replace-done i j t es)
  replace-done i j t (done k u ∷ es) h =
      ground (arith, replace-done i j t es, text_eq_iff k i, text_eq_iff k j, text_eq_iff i j)

  remove-partial :
      (j : Text) (es : List (TranscriptionEvent L))
      → let es' = remove_first is_partial es in
        (final_of j es' ≡ final_of j es)
        × (count j es' ≤ count j es)
        × (any is_partial es ≡ true → suc (length es') ≡ length es)
  unfolding remove_first final_of count any
  remove-partial j [] = ground arith
  remove-partial j (started ∷ es) = ground (arith, remove-partial j es)
  remove-partial j (level m ∷ es) = ground (arith, remove-partial j es)
  remove-partial j (processing ∷ es) = ground (arith, remove-partial j es)
  remove-partial j (partial k u ∷ es) = ground arith
  remove-partial j (done k u ∷ es) = ground (arith, remove-partial j es)

  -- What the queue promises: at most one event for each item, and at most its capacity.
  pub record IsBounded (s : BackendEventState L) : Type 0 where
    pub unique : (j : Text) → count j s.events ≤ 1
    pub fits : length s.events ≤ s.capacity

  -- The final of an item after an event.
  abbrev pub final_after : Text → TranscriptionEvent L → Option Text → Option Text
  final_after j (done i t) o = if text_eq i j then some t else o
  final_after j _ o = o

  pub push_content-final :
      (s : BackendEventState L) (e : TranscriptionEvent L) (terminal : Bool) (j : Text)
      → (push_content s e terminal).1 ≡ queued
      → final_of j (push_content s e terminal).0.events
        ≡ (if is_some (final_of j s.events) then final_of j s.events else final_of j (e ∷ []))
  unfolding push_content
  push_content-final s e terminal j h = ground (
    arith,
    remove-partial j s.events,
    final_of-append j s.events (e ∷ []),
    final_of-append j (remove_first is_partial s.events) (e ∷ []),
  )

  pub push_content-count :
      (s : BackendEventState L) (e : TranscriptionEvent L) (terminal : Bool) (j : Text)
      → count j (push_content s e terminal).0.events ≤ count j s.events + occurs j e
  unfolding push_content count
  push_content-count s e terminal j = ground (
    arith,
    remove-partial j s.events,
    count-append j s.events (e ∷ []),
    count-append j (remove_first is_partial s.events) (e ∷ []),
  )

  pub push_content-length :
      (s : BackendEventState L) (e : TranscriptionEvent L) (terminal : Bool)
      → length s.events ≤ s.capacity
      → (length (push_content s e terminal).0.events ≤ s.capacity)
        × ((push_content s e terminal).0.capacity ≡ s.capacity)
  unfolding push_content
  push_content-length s e terminal h = ground (
    arith,
    remove-partial [] s.events,
    length-append s.events (e ∷ []),
    length-append (remove_first is_partial s.events) (e ∷ []),
  )

  pub push_content-cases :
      (s : BackendEventState L) (e : TranscriptionEvent L) (terminal : Bool)
      → let (s', d) = push_content s e terminal in
        (d ≡ queued → s'.overflowed ≡ s.overflowed)
        × (d ≡ superseded → (s' ≡ s) × (terminal ≡ false))
        × (d ≡ overflow → (s'.events ≡ s.events) × (s'.overflowed ≡ true) × (terminal ≡ true))
        × (d ≡ coalesced → s' ≡ s)
        × (d ≡ ignored_status → s' ≡ s)
  unfolding push_content
  push_content-cases s e terminal = ground arith
