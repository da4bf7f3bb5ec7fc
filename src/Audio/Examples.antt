-- ===== src/Audio/Examples.antt =====
-- Runs of a transcription session, after the tests of crates/woof-audio/src/session.rs. The level of
-- a frame is its number of samples.
use woof.Prelude.{
  ℕ, zero, suc, ◌≤◌, Bool, false, none, some, List, [], ◌∷◌, ◌≡◌, refl, arith, length,
}
use woof.Prelude.Text.{Text, codes, text_eq}
use woof.Prelude.Int.{ℤ, pos}
use woof.Prelude.Table.{contains, insert, remove}
use woof.Audio.Event.{AudioEvent}
use woof.Audio.Queue.{partial, done, channel, any, replace_first, remove_first, push, try_recv}
use woof.Audio.Queue.Finals.{count}
use woof.Audio.Session.{
  ok, append_pcm16, Session, Input, backend_sends, backend_ends, receives, frame_ready, begin, run,
  step, drain, end_with, receive,
}
use woof.Audio.Session.Hang.{full_channel_hangs}
use woof.Audio.Session.Order.{listen_all, heard_of, run_protocol}
use woof.Audio.Session.Finals.{sent_after, told_after}
use woof.Audio.Session.Delivery.{sends_all, run_delivers, run_bounded}

abbrev size : List ℤ → ℕ
size = length

program : Unit {0}
unfolding run begin step channel push try_recv any replace_first remove_first text_eq contains
    insert remove drain end_with receive
program = tt

-- A revision and a final of one item, and a final of another that is pending at the end.
abbrev history : List (Input ℕ)
history =
    backend_sends (partial (codes "a") (codes "Helo"))
    ∷ receives
    ∷ backend_sends (done (codes "a") (codes "Hello"))
    ∷ backend_sends (done (codes "b") (codes "dog."))
    ∷ receives
    ∷ backend_ends (ok (codes "Hello dog."))
    ∷ []

history_events :
    (run size begin history).1
    ≡ AudioEvent.delta (codes "a") (codes "Helo")
      ∷ AudioEvent.done (codes "a") (codes "Hello")
      ∷ AudioEvent.done (codes "b") (codes "dog.")
      ∷ []
unfolding program
history_events = refl

run_protocol_example :
    let (s, events) = run size begin history in
    (p : Bool) × (listen_all (record { processed = false; over = false; finals = [] }) events
      ≡ some (heard_of s p))
run_protocol_example = run_protocol size history

run_delivers_example :
    told_after (codes "b") (run size begin history).1 none
    ≡ sent_after (codes "b") (sends_all size begin history) none
unfolding program
run_delivers_example = run_delivers size (codes "b") (codes "Hello dog.") history refl

run_bounded_example :
    let q = (run size begin history).0.queue in
    ((j : Text) → count j q.events ≤ 1) × (length q.events ≤ q.capacity)
run_bounded_example = run_bounded size history

abbrev frames : ℕ → List (Input ℕ)
frames zero = []
frames (suc n) = frame_ready (ok (some (pos 1 ∷ []))) ∷ frames n

-- 32 frames before the service takes one.
abbrev full : Session ℕ
full = (run size begin (frames 32)).0

full_channel_hangs_example :
    run size full (frame_ready (ok (some (pos 1 ∷ []))) ∷ backend_ends (ok []) ∷ receives ∷ [])
    ≡ (record full { waiting = some (append_pcm16 (pos 1 ∷ [])) }, [])
unfolding program
full_channel_hangs_example =
    full_channel_hangs size full (pos 1) [] (backend_ends (ok []) ∷ receives ∷ []) refl refl refl
      refl (omega arith) refl
