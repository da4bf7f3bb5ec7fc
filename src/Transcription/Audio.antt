-- ===== src/Transcription/Audio.antt =====
-- apps/woof/src-tauri/src/transcription.rs: `audio_event_at`, which takes the events of the audio
-- session, and `valid_item_id`. The clamping of a level to the unit interval is a parameter.
use woof.Prelude.{
  ℕ, ◌-◌, Bool, true, false, not, ◌&&◌, ◌||◌, Option, none, some, List, [], ◌∷◌, ◌++◌, ltb, leb,
  if◌then◌else◌, length,
}
use woof.Prelude.Text.{Text, byte_len, is_empty, is_control, text_eq}
use woof.Prelude.Table.{get, contains_key, insert}
use woof.Audio.Event.{AudioEvent}
use woof.Transcription.Session.{
  max_item_bytes, max_item_id_bytes, max_transcription_items, level_emit_interval, finalizing,
  cancelling, is_listening, is_finalizing, is_cancelling, TranscriptionUiEventKind,
  TranscriptionUiEvent, ItemState, ActiveSession, TranscriptionCoordinator,
}
use woof.Transcription.Coordinator.{active_for, put, cancel_token, ui, overflow_active}

abbrev any_control : Text → Bool
any_control [] = false
any_control (c ∷ s) = is_control c || any_control s

unfoldable pub valid_item_id : Text → Bool
valid_item_id item_id =
    not (is_empty item_id) && leb (byte_len item_id) max_item_id_bytes && not (any_control item_id)

-- `items.get(&item_id).is_some_and(|item| item.text == text && !item.completed)`.
abbrev unchanged : Option ItemState → Text → Bool
unchanged none text = false
unchanged (some item) text = text_eq item.text text && not item.completed

-- Whether a level was sent less than the interval ago.
abbrev too_soon : Option ℕ → ℕ → Bool
too_soon none now = false
too_soon (some last) now = ltb (now - last) level_emit_interval

module _ {L : Type 0} (clamp_unit : L → L) where
  start_event :
      TranscriptionCoordinator
      → ActiveSession
      → TranscriptionCoordinator × List (TranscriptionUiEvent L)
  start_event c a =
      let announces = is_finalizing a.phase && not a.processing_emitted in
      if a.start_emitted then (c, []) else (
        put c (record a {
          start_emitted = true;
          processing_emitted = announces || a.processing_emitted;
        }),
        ui a.target (TranscriptionUiEventKind.start a.hands_free)
            ∷ (if announces then ui a.target TranscriptionUiEventKind.processing ∷ [] else []),
      )

  level_event :
      TranscriptionCoordinator
      → ActiveSession
      → L
      → ℕ
      → TranscriptionCoordinator × List (TranscriptionUiEvent L)
  level_event c a normalized now =
      if not (is_listening a.phase) || too_soon a.last_level_emit now then (c, []) else (
        put c (record a { last_level_emit = some now }),
        ui a.target (TranscriptionUiEventKind.level (clamp_unit normalized)) ∷ [],
      )

  processing_event :
      TranscriptionCoordinator
      → ActiveSession
      → TranscriptionCoordinator × List (TranscriptionUiEvent L)
  processing_event c a = (
    put c (record a { phase = finalizing; processing_emitted = true }),
    if a.processing_emitted then [] else ui a.target TranscriptionUiEventKind.processing ∷ [],
  )

  -- The part that `Delta` and `Done` share, from the checks to the order of the items: `none` if
  -- the event overflows the session.
  accept_item : ActiveSession → Text → Text → Option ActiveSession
  accept_item a item_id text =
      let is_new = not (contains_key item_id a.items) in
      if not (valid_item_id item_id) || ltb max_item_bytes (byte_len text)
      then none
      else if is_new && leb max_transcription_items (length a.item_order)
      then none
      else some (record a {
        item_order = if is_new then a.item_order ++ (item_id ∷ []) else a.item_order;
      })

  delta_event :
      TranscriptionCoordinator
      → ActiveSession
      → Text
      → Text
      → TranscriptionCoordinator × List (TranscriptionUiEvent L)
  unfolding accept_item
  delta_event c a item_id text = elim (accept_item a item_id text) [
    | none ↦ overflow_active c a.id
    | some a' ↦ if unchanged (get item_id a'.items) text then (put c a', []) else (
      put c (record a' {
        items = insert item_id (record { text = text; completed = false }) a'.items;
      }),
      ui a.target (TranscriptionUiEventKind.partial item_id text) ∷ [],
    )
  ]

  done_event :
      TranscriptionCoordinator
      → ActiveSession
      → Text
      → Text
      → TranscriptionCoordinator × List (TranscriptionUiEvent L)
  unfolding accept_item
  done_event c a item_id text = elim (accept_item a item_id text) [
    | none ↦ overflow_active c a.id
    | some a' ↦ (
      put c (record a' {
        items = insert item_id (record { text = text; completed = true }) a'.items;
      }),
      ui a.target (TranscriptionUiEventKind.item_completed item_id text) ∷ [],
    )
  ]

  cancel_event :
      TranscriptionCoordinator
      → ActiveSession
      → TranscriptionCoordinator × List (TranscriptionUiEvent L)
  cancel_event c a = (
    cancel_token (put c (record a { phase = cancelling; terminal_emitted = true })) a.cancellation,
    ui a.target TranscriptionUiEventKind.cancelled ∷ [],
  )

  -- The `match` on the event.
  dispatch :
      AudioEvent L
      → TranscriptionCoordinator
      → ActiveSession
      → ℕ
      → TranscriptionCoordinator × List (TranscriptionUiEvent L)
  unfolding start_event level_event processing_event delta_event done_event cancel_event
  dispatch AudioEvent.start c a now = start_event c a
  dispatch (AudioEvent.level normalized) c a now = level_event c a normalized now
  dispatch AudioEvent.processing c a now = processing_event c a
  dispatch (AudioEvent.delta item_id text) c a now = delta_event c a item_id text
  dispatch (AudioEvent.done item_id text) c a now = done_event c a item_id text
  dispatch AudioEvent.cancel c a now = cancel_event c a

  unfoldable pub audio_event_at :
      TranscriptionCoordinator
      → ℕ
      → AudioEvent L
      → ℕ
      → TranscriptionCoordinator × List (TranscriptionUiEvent L)
  unfolding dispatch
  audio_event_at c id event now = elim (active_for c id) [
    | none ↦ (c, [])
    | some a ↦ if is_cancelling a.phase then (c, []) else dispatch event c a now
  ]
