-- ===== src/Transcription/Control.antt =====
-- apps/woof/src-tauri/src/transcription.rs: ids, late events, and the commands that end a session.
use woof.Prelude.{
  ℕ, ◌-◌, ◌<◌, Bool, false, ◌||◌, none, some, [], ◌∷◌, ◌≡◌, ◌≢◌, refl, arith, if◌then◌else◌, max,
  leb,
}
use woof.Prelude.Text.{Text}
use woof.Prelude.Word.{u64_mod, wrapping_add64}
use woof.Audio.Event.{AudioEvent}
use woof.Transcription.Session.{
  ok, err, no_longer_active, from_trigger, TranscriptionTarget, TranscriptionFailure,
  TranscriptionUiEventKind, ActiveSession, opening, TranscriptionCoordinator, ControlEffect,
  level_emit_interval, listening,
}
use woof.Transcription.Coordinator.{
  active_for, reserve, attach_capture, request_finalize, request_limit, complete, terminal_failure,
  no_effect, ui,
}
use woof.Transcription.Audio.{audio_event_at}

-- A reservation with a known trigger, while no session is active, opens a session under an id that
-- is not 0, is a 64-bit word, and differs from the id given out before; the session has told
-- nothing and has no items.
pub reserve_opens :
    (c : TranscriptionCoordinator) (trigger : Text) (target : TranscriptionTarget)
    (hands_free : Bool)
    → c.active ≡ none
    → c.next_id < u64_mod
    → from_trigger trigger ≡ ok (target, hands_free)
    → (id : ℕ) × (a : ActiveSession) × ((reserve c trigger).1 ≡ ok id)
      × ((reserve c trigger).0.active ≡ some a)
      × (a.id ≡ id)
      × (0 < id)
      × (id < u64_mod)
      × (id ≢ c.next_id)
      × (a.phase ≡ opening)
      × (a.target ≡ target)
      × (a.items ≡ [])
      × (a.start_emitted || a.processing_emitted || a.terminal_emitted ≡ false)
unfolding reserve
reserve_opens c trigger target hands_free h b t = (
  max (wrapping_add64 c.next_id 1) 1,
  record {
    id = max (wrapping_add64 c.next_id 1) 1;
    target = target;
    hands_free = hands_free;
    cancellation = max (wrapping_add64 c.next_id 1) 1;
    capture_stop = none;
    phase = opening;
    start_emitted = false;
    processing_emitted = false;
    terminal_emitted = false;
    items = [];
    item_order = [];
    last_level_emit = none;
  },
  ground arith,
  ground arith,
  refl,
  omega arith,
  omega arith,
  λ e. omega arith,
  refl,
  refl,
  refl,
  refl,
)

module _ {L : Type 0} (clamp_unit : L → L) where
  -- A call for a session that is not the active one changes nothing and tells nothing.
  pub other_session :
      (c : TranscriptionCoordinator) (id stop now : ℕ) (event : AudioEvent L) (transcript : Text)
      (failed : TranscriptionFailure)
      → active_for c id ≡ none
      → (audio_event_at clamp_unit c id event now ≡ (c, []))
        × (attach_capture c id stop ≡ (c, err no_longer_active))
        × (request_limit {L = L} c id ≡ (c, no_effect))
        × (complete {L = L} c id transcript ≡ (c, []))
        × (terminal_failure {L = L} c id failed ≡ (c, []))
  unfolding audio_event_at attach_capture request_limit complete terminal_failure
  other_session c id stop now event transcript failed h = ground arith

  -- A second finalisation has no effect: the microphone is stopped and the processing told by the
  -- first one alone.
  pub finalize_once :
      (c : TranscriptionCoordinator) (effect : ControlEffect L)
      → (request_finalize {L = L} c).1 ≡ ok effect
      → request_finalize {L = L} (request_finalize {L = L} c).0
        ≡ ((request_finalize {L = L} c).0, ok no_effect)
  unfolding request_finalize
  finalize_once c effect h = ground arith

  -- Of two levels heard while listening, the second is told exactly when it comes at least 40 ms
  -- after the first, if the first was told.
  pub level_throttled :
      (c : TranscriptionCoordinator) (a : ActiveSession) (x y : L) (first second : ℕ)
      → c.active ≡ some a
      → a.phase ≡ listening
      → a.last_level_emit ≡ none
      → let c' = (audio_event_at clamp_unit c a.id (AudioEvent.level x) first).0 in
        ((audio_event_at clamp_unit c a.id (AudioEvent.level x) first).1
          ≡ ui a.target (TranscriptionUiEventKind.level (clamp_unit x)) ∷ [])
        × ((audio_event_at clamp_unit c' a.id (AudioEvent.level y) second).1 ≡ (
            if leb level_emit_interval (second - first)
            then ui a.target (TranscriptionUiEventKind.level (clamp_unit y)) ∷ []
            else []))
  unfolding audio_event_at
  level_throttled c a x y first second h p l = ground arith
