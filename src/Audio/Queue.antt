-- ===== src/Audio/Queue.antt =====
-- crates/woof-audio/src/session.rs: the bounded queue between the transcription service and the
-- session (`BackendEventState`).
pub mod Finals
pub mod Push
use woof.Prelude.{
  ℕ, Bool, true, false, Option, none, some, List, [], ◌∷◌, ◌++◌, ◌||◌, leb, if◌then◌else◌, length,
}
use woof.Prelude.Text.{Text, text_eq}

-- `TranscriptionEvent` of crates/woof-llm/src/realtime.rs.
pub data TranscriptionEvent (L : Type 0) : Type 0 where
  started : TranscriptionEvent L
  level : L → TranscriptionEvent L
  processing : TranscriptionEvent L
  partial : Text → Text → TranscriptionEvent L
  done : Text → Text → TranscriptionEvent L

pub data BackendEventDisposition : Type 0 where
  queued coalesced superseded ignored_status overflow : BackendEventDisposition

pub record BackendEventState (L : Type 0) : Type 0 where
  pub events : List (TranscriptionEvent L)
  pub capacity : ℕ
  pub overflowed : Bool

-- `backend_event_channel`.
unfoldable pub channel : {L : Type 0} → ℕ → BackendEventState L
channel capacity = record { events = []; capacity = capacity; overflowed = false }

module _ {L : Type 0} where
  abbrev pub is_partial : TranscriptionEvent L → Bool
  is_partial (partial i t) = true
  is_partial _ = false

  abbrev pub is_partial_of : Text → TranscriptionEvent L → Bool
  is_partial_of item_id (partial i t) = text_eq i item_id
  is_partial_of item_id _ = false

  abbrev pub is_done_of : Text → TranscriptionEvent L → Bool
  is_done_of item_id (done i t) = text_eq i item_id
  is_done_of item_id _ = false

  unfoldable pub any : (TranscriptionEvent L → Bool) → List (TranscriptionEvent L) → Bool
  any test [] = false
  any test (e ∷ es) = test e || any test es

  -- The first event with the test is replaced.
  unfoldable pub replace_first :
      (TranscriptionEvent L → Bool)
      → TranscriptionEvent L
      → List (TranscriptionEvent L)
      → List (TranscriptionEvent L)
  replace_first test e [] = []
  replace_first test e (f ∷ fs) = if test f then e ∷ fs else f ∷ replace_first test e fs

  -- The first event with the test is removed.
  unfoldable pub remove_first :
      (TranscriptionEvent L → Bool) → List (TranscriptionEvent L) → List (TranscriptionEvent L)
  remove_first test [] = []
  remove_first test (f ∷ fs) = if test f then fs else f ∷ remove_first test fs

  unfoldable pub push_content :
      BackendEventState L
      → TranscriptionEvent L
      → Bool
      → BackendEventState L × BackendEventDisposition
  unfolding any remove_first
  push_content s event terminal =
      if leb s.capacity (length s.events)
      then if any is_partial s.events
        then (record s { events = remove_first is_partial s.events ++ (event ∷ []) }, queued)
        else if terminal
        then (record s { overflowed = true }, overflow)
        else (s, superseded)
      else (record s { events = s.events ++ (event ∷ []) }, queued)

  unfoldable pub push :
      BackendEventState L → TranscriptionEvent L → BackendEventState L × BackendEventDisposition
  unfolding push_content any replace_first
  push s started = (s, ignored_status)
  push s (level n) = (s, ignored_status)
  push s processing = (s, ignored_status)
  push s (partial i t) =
      if any (is_done_of i) s.events
      then (s, superseded)
      else if any (is_partial_of i) s.events
      then (record s { events = replace_first (is_partial_of i) (partial i t) s.events }, coalesced)
      else push_content s (partial i t) false
  push s (done i t) =
      if any (is_partial_of i) s.events
      then (record s { events = replace_first (is_partial_of i) (done i t) s.events }, coalesced)
      else if any (is_done_of i) s.events
      then (record s { events = replace_first (is_done_of i) (done i t) s.events }, coalesced)
      else push_content s (done i t) true

  -- `try_recv`: `none` is the error of an overflow.
  unfoldable pub try_recv :
      BackendEventState L → BackendEventState L × Option (Option (TranscriptionEvent L))
  try_recv s = if s.overflowed then (s, none) else elim s.events [
    | [] ↦ (s, some none)
    | e ∷ es ↦ (record s { events = es }, some (some e))
  ]
