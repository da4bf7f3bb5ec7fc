-- ===== src/Realtime/Client.antt =====
-- crates/woof-llm/src/realtime.rs: `RealtimeTranscriptionClient::run` from the open socket on, one step for each branch of its `select!`. The socket is an input: a message comes
-- decoded, as what `message_json` and the lookups in its JSON give, and a send may fail.
use woof.Prelude.{
  ℕ, Bool, true, false, not, Option, none, some, List, [], ◌∷◌, ◌++◌, ltb, if◌then◌else◌, length,
  is_some,
}
use woof.Prelude.Text.{Text, is_empty}
use woof.Prelude.Int.{ℤ}
use woof.Audio.Queue.{TranscriptionEvent, level, processing, partial, done}
use woof.Audio.Session.{
  RealtimeError, timeout, connection, invalid_event, audio_closed, Result, ok, err, AudioCommand,
  append_pcm16, commit, clear, finish,
}
use woof.Realtime.Turn
use woof.Realtime.Turn.{TurnState, default_turn, FinishDisposition, commit_and_wait, wait}
use woof.Realtime.Reconciler.{
  TranscriptReconciler, default_reconciler, register, apply_delta, complete, final_transcript,
}

abbrev pub max_audio_samples_per_command : ℕ
max_audio_samples_per_command = 96000

pub record Client : Type 0 where
  pub reconciler : TranscriptReconciler
  pub turn_state : TurnState
  pub has_deadline : Bool  -- `final_deadline` is set
  pub result : Option (Result Text RealtimeError)

unfoldable pub begin : Client
unfolding default_reconciler default_turn
begin = record {
  reconciler = default_reconciler;
  turn_state = default_turn;
  has_deadline = false;
  result = none;
}

-- The events of the service that the client reads; a missing field is `none`.
pub data ServerEvent : Type 0 where
  item_created : Option Text → ServerEvent
  transcription_delta transcription_completed : Option Text → Option Text → ServerEvent
  failed : RealtimeError → ServerEvent
  other : ServerEvent

pub data Input : Type 0 where
  cancels deadline_passes : Input
  -- A command of the session, or the end of its channel, and whether the sends that it asks for succeed.
  command_comes : Option AudioCommand → Option RealtimeError → Input
  -- A message, a failure, or the end of the socket.
  message_comes : Option (Result (Option ServerEvent) RealtimeError) → Input

-- What the client does: it calls back, or sends on the socket.
pub data Output (L : Type 0) : Type 0 where
  tells : TranscriptionEvent L → Output L
  appended committed cleared closed : Output L

abbrev pub ends : Client → Result Text RealtimeError → Client
ends c r = record c { result = some r }

module _ {L : Type 0} where
  abbrev reconciled :
      {A : Type 0}
      → Client
      → TranscriptReconciler × Option A
      → (Client → A → Client × List (Output L))
      → Client × List (Output L)
  reconciled c (r, none) next = (ends (record c { reconciler = r }) (err invalid_event), [])
  reconciled c (r, some a) next = next (record c { reconciler = r }) a

  abbrev after_completion : Text → Client → Text → Client × List (Output L)
  after_completion item_id c text =
      let (t, over) = Turn.completed c.turn_state in
      let c' = record c { turn_state = t } in
      if over
      then (ends c' (ok (final_transcript c'.reconciler)), tells (done item_id text) ∷ closed ∷ [])
      else (c', tells (done item_id text) ∷ [])

  unfoldable pub hear : Client → ServerEvent → Client × List (Output L)
  unfolding Turn.completed
  hear c (item_created none) = (c, [])
  hear c (item_created (some i)) = reconciled c (register c.reconciler i) (λ c' _. (c', []))
  hear c (transcription_delta (some i) (some d)) =
      reconciled c (apply_delta c.reconciler i d) (λ c' text. (c', tells (partial i text) ∷ []))
  hear c (transcription_delta _ _) = (ends c (err invalid_event), [])
  hear c (transcription_completed (some i) (some t)) =
      reconciled c (complete c.reconciler i t) (after_completion i)
  hear c (transcription_completed _ _) = (ends c (err invalid_event), [])
  hear c (failed e) = (ends c (err e), [])
  hear c other = (c, [])

module _ {L : Type 0} (normalized_level : List ℤ → L) where
  -- A command whose sends succeed, or fail with an error.
  unfoldable pub obey : Client → AudioCommand → Option RealtimeError → Client × List (Output L)
  unfolding Turn.append Turn.clear Turn.commit Turn.finish
  obey c (append_pcm16 []) failure = (c, [])
  obey c (append_pcm16 (x ∷ samples)) failure =
      if ltb max_audio_samples_per_command (length (x ∷ samples))
      then (ends c (err invalid_event), [])
      else elim failure [
        | some e ↦ (ends c (err e), [])
        | none ↦ (
          record c { turn_state = Turn.append c.turn_state },
          appended ∷ tells (level (normalized_level (x ∷ samples))) ∷ [],
        )
      ]
  obey c commit failure =
      let (t, committed_now) = Turn.commit c.turn_state in
      let c' = record c { turn_state = t } in
      if not committed_now then (c', []) else elim failure [
        | some e ↦ (ends c' (err e), [])
        | none ↦ (c', committed ∷ tells processing ∷ [])
      ]
  obey c clear failure = elim failure [
    | some e ↦ (ends c (err e), [])
    | none ↦ (record c { turn_state = Turn.clear c.turn_state }, cleared ∷ [])
  ]
  obey c finish failure =
      let (t, disposition) = Turn.finish c.turn_state in
      let c' = record c { turn_state = t } in
      elim disposition [
        | commit_and_wait ↦ elim failure [
          | some e ↦ (ends c' (err e), [])
          | none ↦ (record c' { has_deadline = true }, committed ∷ tells processing ∷ [])
        ]
        | wait ↦ (record c' { has_deadline = true }, [])
        | FinishDisposition.complete ↦ (ends c' (ok (final_transcript c'.reconciler)), closed ∷ [])
      ]

  unfoldable pub select : Client → Input → Client × List (Output L)
  unfolding obey hear
  select c cancels = (ends c (err RealtimeError.cancelled), closed ∷ [])
  select c deadline_passes = if c.has_deadline then (ends c (err timeout), closed ∷ []) else (c, [])
  select c (command_comes none failure) = (ends c (err audio_closed), closed ∷ [])
  select c (command_comes (some command) failure) = obey c command failure
  select c (message_comes none) =
      let text = final_transcript c.reconciler in
      (ends c (if is_empty text then err connection else ok text), [])
  select c (message_comes (some (err e))) = (ends c (err e), [])
  select c (message_comes (some (ok none))) = (c, [])
  select c (message_comes (some (ok (some event)))) = hear c event

  unfoldable pub step : Client → Input → Client × List (Output L)
  unfolding select
  step c i = if is_some c.result then (c, []) else select c i

  unfoldable pub run : Client → List Input → Client × List (Output L)
  run c [] = (c, [])
  run c (i ∷ is) = let (c', out) = step c i in let (c'', rest) = run c' is in (c'', out ++ rest)
