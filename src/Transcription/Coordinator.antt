-- ===== src/Transcription/Coordinator.antt =====
-- apps/woof/src-tauri/src/transcription.rs: the methods of `TranscriptionCoordinator` that open,
-- control and end a session. A method returns the coordinator and its result.
use woof.Prelude.{
  ℕ, max, Bool, true, false, not, ◌&&◌, ◌||◌, Option, none, some, List, [], ◌∷◌, ◌++◌, ltb, ◌==◌,
  if◌then◌else◌, is_some,
}
use woof.Prelude.Text.{Text, byte_len, is_empty}
use woof.Prelude.Word.{wrapping_add64}
use woof.Transcription.Session.{
  already_active, none_active, being_cancelled, no_longer_active, already_attached, Result, ok, err,
  max_transcript_bytes, SessionPhase, opening, listening, finalizing, cancelling, is_finalizing,
  is_cancelling, from_trigger, TranscriptionTarget, TranscriptionFailure, failure, overflowing,
  TranscriptionUiEventKind, TranscriptionUiEvent, ActiveSession, TranscriptionCoordinator,
  ControlEffect,
}

unfoldable pub default_coordinator : TranscriptionCoordinator
default_coordinator = record { next_id = 0; active = none; cancelled_tokens = [] }

-- `active_for_mut`, without the message of its error.
abbrev pub active_for : TranscriptionCoordinator → ℕ → Option ActiveSession
active_for c id = elim c.active [ none ↦ none | some a ↦ if a.id == id then some a else none ]

-- Writes the session back.
abbrev pub put : TranscriptionCoordinator → ActiveSession → TranscriptionCoordinator
put c a = record c { active = some a }

-- `cancellation.cancel()`.
abbrev pub cancel_token : TranscriptionCoordinator → ℕ → TranscriptionCoordinator
cancel_token c token = record c { cancelled_tokens = token ∷ c.cancelled_tokens }

-- The session is taken away and its token cancelled.
abbrev closes : TranscriptionCoordinator → ActiveSession → TranscriptionCoordinator
closes c a = cancel_token (record c { active = none }) a.cancellation

opened : ℕ → TranscriptionTarget → Bool → ActiveSession
opened id target hands_free = record {
  id = id;
  target = target;
  hands_free = hands_free;
  cancellation = id;
  capture_stop = none;
  phase = opening;
  start_emitted = false;
  processing_emitted = false;
  terminal_emitted = false;
  items = [];
  item_order = [];
  last_level_emit = none;
}

-- The answer is the id of the reservation.
unfoldable pub reserve : TranscriptionCoordinator → Text → TranscriptionCoordinator × Result ℕ
unfolding opened from_trigger
reserve c trigger =
    let id = max (wrapping_add64 c.next_id 1) 1 in
    if is_some c.active then (c, err already_active) else elim (from_trigger trigger) [
      | err e ↦ (c, err e)
      | ok (target, hands_free) ↦
          (record c { next_id = id; active = some (opened id target hands_free) }, ok id)
    ]

attach_by_phase : SessionPhase → ActiveSession → ActiveSession × Result Bool
attach_by_phase opening a = (record a { phase = listening }, ok false)
attach_by_phase finalizing a = (a, ok true)
attach_by_phase cancelling a = (a, ok true)
attach_by_phase listening a = (a, err already_attached)

unfoldable pub attach_capture :
    TranscriptionCoordinator → ℕ → ℕ → TranscriptionCoordinator × Result Bool
unfolding attach_by_phase
attach_capture c id stop = elim (active_for c id) [
  | none ↦ (c, err no_longer_active)
  | some a ↦
      let (a', r) = attach_by_phase a.phase (record a { capture_stop = some stop }) in (put c a', r)
]

module _ {L : Type 0} where
  abbrev pub ui : TranscriptionTarget → TranscriptionUiEventKind L → TranscriptionUiEvent L
  ui target kind = record { target = target; kind = kind }

  abbrev pub no_effect : ControlEffect L
  no_effect = record { stop = none; cancellation = none; events = [] }

  finalize_by_phase : SessionPhase → ActiveSession → ActiveSession × Result (ControlEffect L)
  finalize_by_phase cancelling a = (a, err being_cancelled)
  finalize_by_phase finalizing a = (a, ok no_effect)
  finalize_by_phase opening a = (record a { phase = finalizing }, ok no_effect)
  finalize_by_phase listening a = (
    record a { phase = finalizing; processing_emitted = true },
    ok (record {
      stop = a.capture_stop;
      cancellation = none;
      events =
          if not a.processing_emitted
          then ui a.target TranscriptionUiEventKind.processing ∷ []
          else [];
    }),
  )

  unfoldable pub request_finalize :
      TranscriptionCoordinator → TranscriptionCoordinator × Result (ControlEffect L)
  unfolding finalize_by_phase
  request_finalize c = elim c.active [
    | none ↦ (c, err none_active)
    | some a ↦ let (a', r) = finalize_by_phase a.phase a in (put c a', r)
  ]

  unfoldable pub request_cancel :
      TranscriptionCoordinator → TranscriptionCoordinator × Result (ControlEffect L)
  request_cancel c = elim c.active [
    | none ↦ (c, err none_active)
    | some a ↦ if is_cancelling a.phase then (c, ok no_effect) else (
      put c (record a { phase = cancelling; terminal_emitted = true }),
      ok (record {
        stop = a.capture_stop;
        cancellation = some a.cancellation;
        events = ui a.target TranscriptionUiEventKind.cancelled ∷ [];
      }),
    )
  ]

  unfoldable pub request_limit :
      TranscriptionCoordinator → ℕ → TranscriptionCoordinator × ControlEffect L
  request_limit c id = elim (active_for c id) [
    | none ↦ (c, no_effect)
    | some a ↦
        if is_finalizing a.phase || is_cancelling a.phase
        then (c, no_effect)
        else let announces = a.start_emitted && not a.processing_emitted in
          (
            put c (record a {
              phase = finalizing;
              processing_emitted = announces || a.processing_emitted;
            }),
            record {
              stop = a.capture_stop;
              cancellation = none;
              events =
                  ui a.target TranscriptionUiEventKind.limit
                  ∷ (if announces
                      then ui a.target TranscriptionUiEventKind.processing ∷ []
                      else []);
            },
          )
  ]

  unfoldable pub complete :
      TranscriptionCoordinator → ℕ → Text → TranscriptionCoordinator × List (TranscriptionUiEvent L)
  complete c id transcript = elim (active_for c id) [
    | none ↦ (c, [])
    | some a ↦ (
      closes c a,
      if is_cancelling a.phase || a.terminal_emitted
          then []
          else if ltb max_transcript_bytes (byte_len transcript)
          then ui a.target TranscriptionUiEventKind.overflow ∷ []
          else (if is_empty transcript
              then []
              else ui a.target (TranscriptionUiEventKind.completed transcript) ∷ [])
            ++ (ui a.target TranscriptionUiEventKind.done ∷ []),
    )
  ]

  abbrev failure_kind : TranscriptionFailure → TranscriptionUiEventKind L
  failure_kind failure = TranscriptionUiEventKind.failed
  failure_kind overflowing = TranscriptionUiEventKind.overflow

  unfoldable pub terminal_failure :
      TranscriptionCoordinator
      → ℕ
      → TranscriptionFailure
      → TranscriptionCoordinator × List (TranscriptionUiEvent L)
  terminal_failure c id failed = elim (active_for c id) [
    | none ↦ (c, [])
    | some a ↦ (
      closes c a,
      if is_cancelling a.phase || a.terminal_emitted
          then []
          else ui a.target (failure_kind failed) ∷ [],
    )
  ]

  unfoldable pub overflow_active :
      TranscriptionCoordinator → ℕ → TranscriptionCoordinator × List (TranscriptionUiEvent L)
  overflow_active c id = elim (active_for c id) [
    | none ↦ (c, [])
    | some a ↦ if a.terminal_emitted then (c, []) else (
      cancel_token (put c (record a { phase = cancelling; terminal_emitted = true }))
          a.cancellation,
      ui a.target TranscriptionUiEventKind.overflow ∷ [],
    )
  ]
