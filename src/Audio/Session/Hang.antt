-- ===== src/Audio/Session/Hang.antt =====
-- crates/woof-audio/src/session.rs: a session that waits for room in the command channel. The
-- service, which alone makes room, is a part of the same task.
use woof.Prelude.{
  ◌≤◌, Bool, true, false, not, ◌&&◌, none, some, List, [], ◌∷◌, ◌≡◌, refl, arith, length,
}
use woof.Prelude.Int.{ℤ}
use woof.Audio.Session.{
  Session, Input, cancels, backend_sends, backend_takes, backend_closes, backend_ends, receives,
  frame_ready, ok, AudioCommand, append_pcm16, audio_command_capacity, step, wait, select,
  take_frame, send_command, run,
}

module _ {L : Type 0} where
  abbrev pub is_cancel : Input L → Bool
  is_cancel cancels = true
  is_cancel _ = false

  abbrev pub no_cancel : List (Input L) → Bool
  no_cancel [] = true
  no_cancel (i ∷ is) = not (is_cancel i) && no_cancel is

module _ {L : Type 0} (normalized_level : List ℤ → L) where
  wait_idle :
      (s : Session L) (command : AudioCommand) (is : List (Input L))
      → s.result ≡ none
      → s.waiting ≡ some command
      → no_cancel is ≡ true
      → run normalized_level s is ≡ (s, [])
  unfolding run step wait
  wait_idle s command [] r w h = refl
  wait_idle s command (cancels ∷ is) r w h = absurd (ground arith)
  wait_idle s command (backend_sends e ∷ is) r w h = ground (arith, wait_idle s command is r w)
  wait_idle s command (backend_takes ∷ is) r w h = ground (arith, wait_idle s command is r w)
  wait_idle s command (backend_closes ∷ is) r w h = ground (arith, wait_idle s command is r w)
  wait_idle s command (backend_ends e ∷ is) r w h = ground (arith, wait_idle s command is r w)
  wait_idle s command (receives ∷ is) r w h = ground (arith, wait_idle s command is r w)
  wait_idle s command (frame_ready f ∷ is) r w h = ground (arith, wait_idle s command is r w)

  -- A session that takes a frame while 32 commands are in the channel to the service never ends and
  -- tells nothing more, whatever happens but a cancellation: the frame waits for the service to take
  -- a command, and the service waits for the session.
  pub full_channel_hangs :
      (s : Session L) (x : ℤ) (samples : List ℤ) (is : List (Input L))
      → s.result ≡ none
      → s.waiting ≡ none
      → s.source_finished ≡ false
      → s.receiver_open ≡ true
      → audio_command_capacity ≤ length s.commands
      → no_cancel is ≡ true
      → run normalized_level s (frame_ready (ok (some (x ∷ samples))) ∷ is)
        ≡ (record s { waiting = some (append_pcm16 (x ∷ samples)) }, [])
  unfolding run step select take_frame send_command
  full_channel_hangs s x samples is r w f o full h = ground (
    arith,
    wait_idle (record s { waiting = some (append_pcm16 (x ∷ samples)) })
        (append_pcm16 (x ∷ samples)) is r refl h,
  )
