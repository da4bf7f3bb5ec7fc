-- ===== src/Audio/Session.antt =====
-- crates/woof-audio/src/session.rs: `TranscriptionSession::run`, one step for each branch that its
-- `select!` takes or its body waits for. The microphone, the transcription service and the
-- cancellation are the inputs, in any order. A sample is an integer; a level is of any type L, and
-- its computation from the samples is a parameter.
pub mod Drain
pub mod Hang
pub mod Order
pub mod Finals
pub mod Linked
pub mod Delivery
use woof.Prelude.{
  ℕ, zero, suc, Bool, true, false, not, ◌||◌, ◌&&◌, Option, none, some, List, [], ◌∷◌, ◌++◌, ltb,
  if◌then◌else◌, length, drop, is_some,
}
use woof.Prelude.Text.{Text}
use woof.Prelude.Int.{ℤ}
use woof.Prelude.Table.{contains, insert, remove}
use woof.Audio.Event.{AudioEvent}
use woof.Audio.Queue.{
  TranscriptionEvent, started, level, processing, partial, done, BackendEventState, channel, push,
  try_recv,
}

pub data RealtimeError : Type 0 where
  cancelled connection authentication rate_limited : RealtimeError
  server : ℕ → RealtimeError
  timeout invalid_event rejected audio_closed : RealtimeError

pub data AudioError : Type 0 where
  unsupported_platform permission_denied permission_restricted permission_query : AudioError
  permission_request permission_request_timeout device_unavailable : AudioError
  stream_configuration stream_startup_timeout stream buffer_overflow : AudioError
  session_closed cancelled : AudioError
  realtime : RealtimeError → AudioError

pub data Result (A E : Type 0) : Type 0 where
  ok : A → Result A E
  err : E → Result A E

pub record EventTranscriptState : Type 0 where
  pub partials : List (Text × Text)
  pub finals : List Text

unfoldable pub default_transcript : EventTranscriptState
default_transcript = record { partials = []; finals = [] }

unfoldable pub replace_partial :
    EventTranscriptState → Text → Text → EventTranscriptState × Option Text
replace_partial s item_id text =
    if contains item_id s.finals
    then (s, none)
    else (record s { partials = insert item_id text s.partials }, some text)

unfoldable pub complete : EventTranscriptState → Text → Text → EventTranscriptState × Text
complete s item_id text =
    (record s { partials = remove item_id s.partials; finals = item_id ∷ s.finals }, text)

pub data AudioCommand : Type 0 where
  append_pcm16 : List ℤ → AudioCommand
  commit clear finish : AudioCommand

abbrev pub audio_command_capacity : ℕ
audio_command_capacity = 32

abbrev pub backend_event_capacity : ℕ
backend_event_capacity = 256

pub record Session (L : Type 0) : Type 0 where
  pub queue : BackendEventState L
  pub transcript : EventTranscriptState
  pub commands : List AudioCommand  -- in the channel to the service
  pub receiver_open : Bool
  pub source_finished : Bool
  pub sent_audio : Bool
  pub waiting : Option AudioCommand  -- the command that `send_command` waits to send
  pub stopped : Bool  -- `source.stop()` was called
  pub result : Option (Result Text AudioError)

-- What the session waits for. The service is a part of the session's own task: it runs only while
-- the session stands at its `select!`.
pub data Input (L : Type 0) : Type 0 where
  cancels : Input L
  backend_sends : TranscriptionEvent L → Input L
  backend_takes backend_closes : Input L
  backend_ends : Result Text RealtimeError → Input L
  receives : Input L
  frame_ready : Result (Option (List ℤ)) AudioError → Input L

module _ {L : Type 0} where
  -- The start of `run`, where the event `start` is told.
  unfoldable pub begin : Session L
  unfolding default_transcript channel
  begin = record {
    queue = channel backend_event_capacity;
    transcript = default_transcript;
    commands = [];
    receiver_open = true;
    source_finished = false;
    sent_audio = false;
    waiting = none;
    stopped = false;
    result = none;
  }

  unfoldable pub publish_backend_event :
      EventTranscriptState → TranscriptionEvent L → EventTranscriptState × List (AudioEvent L)
  unfolding replace_partial complete
  publish_backend_event s (partial i t) =
      let (s', news) = replace_partial s i t in
      (s', elim news [ none ↦ [] | some t' ↦ AudioEvent.delta i t' ∷ [] ])
  publish_backend_event s (done i t) =
      let (s', t') = complete s i t in (s', AudioEvent.done i t' ∷ [])
  publish_backend_event s started = (s, [])
  publish_backend_event s (level n) = (s, [])
  publish_backend_event s processing = (s, [])

  abbrev pub stop_with : Session L → AudioError → Session L
  stop_with s e = record s { waiting = none; stopped = true; result = some (err e) }

  unfoldable pub cancel : Session L → Session L × List (AudioEvent L)
  cancel s = (stop_with s cancelled, AudioEvent.cancel ∷ [])

  unfoldable pub receive : Session L → Session L × List (AudioEvent L)
  unfolding try_recv publish_backend_event
  receive s =
      let (q, received) = try_recv s.queue in
      elim received [
        | none ↦ (record s { result = some (err buffer_overflow) }, [])
        | some none ↦ (s, [])
        | some (some e) ↦
            let (t, events) = publish_backend_event s.transcript e in
            (record s { queue = q; transcript = t }, events)
      ]

  -- The loop after the service has ended; the fuel is the number of rounds. The flag is false after
  -- an overflow.
  unfoldable pub drain :
      ℕ
      → BackendEventState L
      → EventTranscriptState
      → BackendEventState L × EventTranscriptState × List (AudioEvent L) × Bool
  unfolding try_recv publish_backend_event
  drain zero q t = (q, t, [], not q.overflowed)
  drain (suc n) q t =
      let (q', received) = try_recv q in
      elim received [
        | none ↦ (q', t, [], false)
        | some none ↦ (q', t, [], true)
        | some (some e) ↦
            let (t', events) = publish_backend_event t e in
            let (q'', t'', rest, good) = drain n q' t' in (q'', t'', events ++ rest, good)
      ]

  abbrev pub outcome : Result Text RealtimeError → Result Text AudioError × List (AudioEvent L)
  outcome (ok transcript) = (ok transcript, [])
  outcome (err RealtimeError.cancelled) = (err AudioError.cancelled, AudioEvent.cancel ∷ [])
  outcome (err e) = (err (realtime e), [])

  -- After the loop: one round of `drain` for each pending event, and one that finds none.
  unfoldable pub end_with : Session L → Result Text RealtimeError → Session L × List (AudioEvent L)
  unfolding drain
  end_with s r =
      let (q, t, events, good) = drain (suc (length s.queue.events)) s.queue s.transcript in
      let (result, last) = outcome r in
      if good
      then (
        record s { queue = q; transcript = t; stopped = true; result = some result },
        events ++ last,
      )
      else (
        record s { queue = q; transcript = t; stopped = true; result = some (err buffer_overflow) },
        events,
      )

module _ {L : Type 0} (normalized_level : List ℤ → L) where
  -- What follows on a command that was sent.
  abbrev sent : Session L → AudioCommand → Session L × List (AudioEvent L)
  sent s (append_pcm16 samples) =
      (record s { sent_audio = true }, AudioEvent.level (normalized_level samples) ∷ [])
  sent s finish = (s, if s.sent_audio then AudioEvent.processing ∷ [] else [])
  sent s _ = (s, [])

  -- `send_command`.
  unfoldable pub send_command : Session L → AudioCommand → Session L × List (AudioEvent L)
  send_command s command =
      if not s.receiver_open
      then (stop_with s session_closed, [])
      else if ltb (length s.commands) audio_command_capacity
      then sent (record s { commands = s.commands ++ (command ∷ []); waiting = none }) command
      else (record s { waiting = some command }, [])

  unfoldable pub take_frame :
      Session L → Result (Option (List ℤ)) AudioError → Session L × List (AudioEvent L)
  unfolding send_command cancel
  take_frame s (ok (some [])) = (s, [])
  take_frame s (ok (some (x ∷ samples))) = send_command s (append_pcm16 (x ∷ samples))
  take_frame s (ok none) = send_command (record s { source_finished = true }) finish
  take_frame s (err AudioError.cancelled) = cancel s
  take_frame s (err e) = (stop_with s e, [])

  -- A step at the `select!`.
  unfoldable pub select : Session L → Input L → Session L × List (AudioEvent L)
  unfolding cancel take_frame receive end_with
  select s cancels = cancel s
  select s (backend_sends e) = (record s { queue = (push s.queue e).0 }, [])
  select s backend_takes = (record s { commands = drop 1 s.commands }, [])
  select s backend_closes = (record s { receiver_open = false }, [])
  select s (backend_ends r) = end_with s r
  select s receives = receive s
  select s (frame_ready f) = if s.source_finished then (s, []) else take_frame s f

  -- A step while `send_command` waits: the service does not run, so that only a cancellation counts.
  unfoldable pub wait : Session L → Input L → Session L × List (AudioEvent L)
  unfolding cancel
  wait s cancels = cancel s
  wait s _ = (s, [])

  unfoldable pub step : Session L → Input L → Session L × List (AudioEvent L)
  unfolding select wait
  step s i =
      if is_some s.result then (s, []) else if is_some s.waiting then wait s i else select s i

  unfoldable pub run : Session L → List (Input L) → Session L × List (AudioEvent L)
  run s [] = (s, [])
  run s (i ∷ is) =
      let (s', events) = step s i in let (s'', rest) = run s' is in (s'', events ++ rest)
