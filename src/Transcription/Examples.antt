-- ===== src/Transcription/Examples.antt =====
-- Runs of the coordinator, after the tests of apps/woof/src-tauri/src/transcription.rs. The level
-- is a percentage here.
use woof.Prelude.{
  ℕ, ◌≤◌, ◌<◌, min, true, false, none, some, List, [], ◌∷◌, ◌≡◌, refl, length, is_some,
}
use woof.Prelude.Text.{codes, text_eq, byte_len, len_utf8, is_control}
use woof.Prelude.Table.{get, insert}
use woof.Audio.Event.{AudioEvent}
use woof.Transcription.Session.{
  companion, is_listening, is_cancelling, TranscriptionUiEventKind, ActiveSession, listening,
  TranscriptionCoordinator, ControlEffect, max_transcription_items,
}
use woof.Transcription.Coordinator.{default_coordinator, ui}
use woof.Transcription.Audio.{valid_item_id}
use woof.Transcription.Trace.{
  Call, reserves, attaches, hears, completes, call, run, tells, Told, observe_all, notes,
}
use woof.Transcription.Invariant.{run_session}
use woof.Transcription.Listener.{told, run_observed}

abbrev percent : ℕ → ℕ
percent = min 100

program : Unit {0}
unfolding run call default_coordinator get insert text_eq byte_len len_utf8 is_control valid_item_id
program = tt

-- A session that hears one item in two revisions, and completes.
abbrev dictated : List (Call ℕ)
dictated =
    reserves (codes "manual")
    ∷ attaches 1 7
    ∷ hears 1 AudioEvent.start 0
    ∷ hears 1 (AudioEvent.delta (codes "a") (codes "he")) 1
    ∷ hears 1 (AudioEvent.done (codes "a") (codes "hey")) 2
    ∷ []

abbrev ended : List (Call ℕ)
ended = completes 1 (codes "hey") ∷ []

ended_notes :
    (run percent (run percent default_coordinator dictated).0 ended).1
    ≡ tells (TranscriptionUiEventKind.completed (codes "hey"))
      ∷ tells TranscriptionUiEventKind.done
      ∷ []
unfolding program notes
ended_notes = refl

abbrev session : ActiveSession
session = record {
  id = 1;
  target = companion;
  hands_free = false;
  cancellation = 1;
  capture_stop = some 7;
  phase = listening;
  start_emitted = true;
  processing_emitted = false;
  terminal_emitted = false;
  items = (codes "a", record { text = codes "hey"; completed = true }) ∷ [];
  item_order = codes "a" ∷ [];
  last_level_emit = none;
}

abbrev open_session : TranscriptionCoordinator
open_session = record { next_id = 1; active = some session; cancelled_tokens = [] }

dictated_session : (run percent default_coordinator dictated).0 ≡ open_session
unfolding program
dictated_session = refl

run_observed_example :
    let (c, ns) = run percent default_coordinator dictated in
    (t : Told) × (observe_all (record { started = false; processed = false; ended = true }) ns
      ≡ some (told c.active t))
run_observed_example = run_observed percent dictated

run_session_example :
    (false ≡ is_cancelling session.phase)
    × (0 < session.id)
    × (length session.item_order ≤ max_transcription_items)
    × (is_listening session.phase ≡ true → is_some session.capture_stop ≡ true)
unfolding program
run_session_example = run_session percent dictated session refl

abbrev finalized : ControlEffect ℕ
finalized = record {
  stop = some 7;
  cancellation = none;
  events = ui companion TranscriptionUiEventKind.processing ∷ [];
}
