-- ===== src/Transcription/Session.antt =====
-- apps/woof/src-tauri/src/transcription.rs: sessions, triggers, and what the windows are told. The
-- audio level, an `f32`, is a type `L`; a stop handle of the microphone is a number, and so is a
-- cancellation token.
use woof.Prelude.{ℕ, Bool, true, false, Option, List, ◌||◌, if◌then◌else◌}
use woof.Prelude.Text.{Text, codes, text_eq}

-- `Result<_, &'static str>`, with a constructor for each message.
pub data SessionError : Type 0 where
  already_active invalid_trigger none_active being_cancelled no_longer_active : SessionError
  already_attached : SessionError

pub data Result {ℓ} (A : Type ℓ) : Type ℓ where
  ok : A → Result A
  err : SessionError → Result A

abbrev pub max_transcript_bytes : ℕ
max_transcript_bytes = 65536

abbrev pub max_item_bytes : ℕ
max_item_bytes = 16384

abbrev pub max_item_id_bytes : ℕ
max_item_id_bytes = 256

abbrev pub max_transcription_items : ℕ
max_transcription_items = 256

-- 40 ms, in nanoseconds.
abbrev pub level_emit_interval : ℕ
level_emit_interval = 40000000

pub data SessionPhase : Type 0 where
  opening listening finalizing cancelling : SessionPhase

abbrev pub is_listening : SessionPhase → Bool
is_listening listening = true
is_listening _ = false

abbrev pub is_finalizing : SessionPhase → Bool
is_finalizing finalizing = true
is_finalizing _ = false

abbrev pub is_cancelling : SessionPhase → Bool
is_cancelling cancelling = true
is_cancelling _ = false

pub data TranscriptionTarget : Type 0 where
  companion inline : TranscriptionTarget

unfoldable pub from_trigger : Text → Result (TranscriptionTarget × Bool)
from_trigger trigger =
    if text_eq trigger (codes "manual")
      || text_eq trigger (codes "fn_voice_chat")
      || text_eq trigger (codes "modifier_chat")
    then ok (companion, false)
    else if text_eq trigger (codes "hands_free")
    then ok (companion, true)
    else if text_eq trigger (codes "modifier_inline")
    then ok (inline, false)
    else err invalid_trigger

pub data TranscriptionFailure : Type 0 where
  failure overflowing : TranscriptionFailure

pub data TranscriptionUiEventKind (L : Type 0) : Type 0 where
  start : Bool → TranscriptionUiEventKind L
  level : L → TranscriptionUiEventKind L
  partial : Text → Text → TranscriptionUiEventKind L
  item_completed : Text → Text → TranscriptionUiEventKind L
  processing : TranscriptionUiEventKind L
  completed : Text → TranscriptionUiEventKind L
  done : TranscriptionUiEventKind L
  cancelled : TranscriptionUiEventKind L
  failed : TranscriptionUiEventKind L
  overflow : TranscriptionUiEventKind L
  limit : TranscriptionUiEventKind L

pub record TranscriptionUiEvent (L : Type 0) : Type 0 where
  pub target : TranscriptionTarget
  pub kind : TranscriptionUiEventKind L

pub record ItemState : Type 0 where
  pub text : Text
  pub completed : Bool

pub record ActiveSession : Type 0 where
  pub id : ℕ  -- u64
  pub target : TranscriptionTarget
  pub hands_free : Bool
  pub cancellation : ℕ
  pub capture_stop : Option ℕ
  pub phase : SessionPhase
  pub start_emitted : Bool
  pub processing_emitted : Bool
  pub terminal_emitted : Bool
  pub items : List (Text × ItemState)
  pub item_order : List Text
  pub last_level_emit : Option ℕ

-- The coordinator, and the tokens that it has cancelled; a session's token is named by its id.
pub record TranscriptionCoordinator : Type 0 where
  pub next_id : ℕ  -- u64
  pub active : Option ActiveSession
  pub cancelled_tokens : List ℕ

pub record ControlEffect (L : Type 0) : Type 0 where
  pub stop : Option ℕ
  pub cancellation : Option ℕ
  pub events : List (TranscriptionUiEvent L)
