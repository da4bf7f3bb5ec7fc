-- ===== src/Transcription/Trace.antt =====
-- apps/woof/src-tauri/src/transcription.rs: what a listener sees over whole histories of calls.
use woof.Prelude.{ℕ, Bool, true, false, not, ◌||◌, Option, none, some, List, [], ◌∷◌, ◌++◌}
use woof.Prelude.Text.{Text}
use woof.Audio.Event.{AudioEvent}
use woof.Transcription.Session.{
  Result, ok, err, TranscriptionFailure, TranscriptionUiEventKind, TranscriptionUiEvent,
  TranscriptionCoordinator, ControlEffect,
}
use woof.Transcription.Coordinator.{
  reserve, attach_capture, request_finalize, request_cancel, request_limit, complete,
  terminal_failure, overflow_active,
}
use woof.Transcription.Audio.{audio_event_at}

pub data Call (L : Type 0) : Type 0 where
  reserves : Text → Call L
  attaches : ℕ → ℕ → Call L
  finalizes : Call L
  cancels : Call L
  limits : ℕ → Call L
  hears : ℕ → AudioEvent L → ℕ → Call L
  completes : ℕ → Text → Call L
  fails : ℕ → TranscriptionFailure → Call L

-- What an observer notes: a session is opened, or a window is told something.
pub data Note (L : Type 0) : Type 0 where
  opens : Note L
  tells : TranscriptionUiEventKind L → Note L

-- What the observer knows of the latest session: whether its start, its processing and its end
-- were told.
pub record Told : Type 0 where
  pub started : Bool
  pub processed : Bool
  pub ended : Bool

abbrev unless : Bool → Told → Option Told
unless true t = none
unless false t = some t

module _ {L : Type 0} where
  -- A session is opened only after the last one has ended; after the end nothing is told; the
  -- start and the processing are told at most once.
  unfoldable pub observe : Told → Note L → Option Told
  observe t opens =
      unless (not t.ended) (record { started = false; processed = false; ended = false })
  observe t (tells (TranscriptionUiEventKind.start hands_free)) =
      unless (t.started || t.ended) (record t { started = true })
  observe t (tells TranscriptionUiEventKind.processing) =
      unless (t.processed || t.ended) (record t { processed = true })
  observe t (tells TranscriptionUiEventKind.done) = unless t.ended (record t { ended = true })
  observe t (tells TranscriptionUiEventKind.cancelled) = unless t.ended (record t { ended = true })
  observe t (tells TranscriptionUiEventKind.failed) = unless t.ended (record t { ended = true })
  observe t (tells TranscriptionUiEventKind.overflow) = unless t.ended (record t { ended = true })
  observe t (tells _) = unless t.ended t

  unfoldable pub observe_all : Told → List (Note L) → Option Told
  observe_all t [] = some t
  observe_all t (n ∷ ns) = elim (observe t n) [ none ↦ none | some t' ↦ observe_all t' ns ]

  unfoldable pub notes : List (TranscriptionUiEvent L) → List (Note L)
  notes [] = []
  notes (e ∷ es) = tells e.kind ∷ notes es

  abbrev effect_notes : Result (ControlEffect L) → List (Note L)
  effect_notes (ok effect) = notes effect.events
  effect_notes (err e) = []

  abbrev reserve_notes : Result ℕ → List (Note L)
  reserve_notes (ok id) = opens ∷ []
  reserve_notes (err e) = []

  module _ (clamp_unit : L → L) where
    unfoldable pub call :
        TranscriptionCoordinator → Call L → TranscriptionCoordinator × List (Note L)
    unfolding reserve attach_capture request_finalize request_cancel request_limit complete
        terminal_failure overflow_active audio_event_at
    call c (reserves trigger) = let (c', r) = reserve c trigger in (c', reserve_notes r)
    call c (attaches id stop) = ((attach_capture c id stop).0, [])
    call c finalizes = let (c', r) = request_finalize {L = L} c in (c', effect_notes r)
    call c cancels = let (c', r) = request_cancel {L = L} c in (c', effect_notes r)
    call c (limits id) = let (c', effect) = request_limit {L = L} c id in (c', notes effect.events)
    call c (hears id event now) =
        let (c', events) = audio_event_at clamp_unit c id event now in (c', notes events)
    call c (completes id transcript) =
        let (c', events) = complete {L = L} c id transcript in (c', notes events)
    call c (fails id failed) =
        let (c', events) = terminal_failure {L = L} c id failed in (c', notes events)

    unfoldable pub run :
        TranscriptionCoordinator → List (Call L) → TranscriptionCoordinator × List (Note L)
    run c [] = (c, [])
    run c (k ∷ ks) = let (c', ns) = call c k in let (c'', rest) = run c' ks in (c'', ns ++ rest)
