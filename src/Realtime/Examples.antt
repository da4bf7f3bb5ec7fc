-- ===== src/Realtime/Examples.antt =====
-- Runs of the reconciler and the client, after the tests of crates/woof-llm/src/realtime.rs. The
-- level of a frame is its number of samples.
use woof.Prelude.{
  ℕ, ◌≤◌, true, not, ◌&&◌, ◌||◌, none, some, List, [], ◌∷◌, ◌≡◌, ◌≢◌, refl, arith, length,
}
use woof.Prelude.Text.{
  codes, text_eq, byte_len, len_utf8, is_control, is_whitespace, trim, trim_start, trim_end,
}
use woof.Prelude.Int.{ℤ, pos}
use woof.Prelude.Table.{contains, contains_key, get, insert, remove}
use woof.Audio.Queue.{done, level, processing}
use woof.Audio.Session.{ok, append_pcm16, finish}
use woof.Realtime.Reconciler.{
  default_reconciler, max_transcript_items, max_transcript_item_bytes, max_transcript_total_bytes,
  has_forbidden_control, text_len, total_bytes, stored_bytes, register, extend, apply_delta,
  finalize, complete, text_for, final_transcript,
}
use woof.Realtime.Bounds.{registers, extends, completes, changes, change, changes_bounded}
use woof.Realtime.Turn
use woof.Realtime.Turn.{usize_max, default_turn}
use woof.Realtime.Client.{
  begin, Input, command_comes, message_comes, transcription_completed, tells, appended, committed,
  closed, run, step, hear,
}
use woof.Realtime.Told.{done_ids, are_distinct, run_finals}
use woof.Realtime.Turns.{commits}

abbrev size : List ℤ → ℕ
size = length

program : Unit {0}
unfolding default_reconciler has_forbidden_control total_bytes stored_bytes register extend
    apply_delta finalize complete text_for final_transcript changes change default_turn begin run
    step hear Turn.append Turn.commit Turn.finish Turn.completed contains get insert remove text_eq
    byte_len len_utf8 is_control is_whitespace trim trim_start trim_end
program = tt

changes_bounded_example :
    let r = changes default_reconciler (
      registers (codes "a")
      ∷ extends (codes "a") (codes "he")
      ∷ completes (codes "b") (codes "x")
      ∷ []) in
    (stored_bytes r ≤ max_transcript_total_bytes)
    × (length r.order ≤ max_transcript_items)
    × (text_len (get (codes "a") r.partials) ≤ max_transcript_item_bytes)
    × (text_len (get (codes "a") r.finals) ≤ max_transcript_item_bytes)
    × (contains (codes "a") r.order
          || not (contains_key (codes "a") r.partials) && not (contains_key (codes "a") r.finals)
        ≡ true)
changes_bounded_example =
    changes_bounded
      (registers (codes "a")
        ∷ extends (codes "a") (codes "he")
        ∷ completes (codes "b") (codes "x")
        ∷ [])
      (codes "a")

a≢b : codes "a" ≢ codes "b"
a≢b h = absurd (ground arith)

-- A turn of one sample, finished, and its final.
abbrev turn : List Input
turn =
    command_comes (some (append_pcm16 (pos 1 ∷ []))) none
    ∷ command_comes (some finish) none
    ∷ message_comes
        (some (ok (some (transcription_completed (some (codes "a")) (some (codes "hey"))))))
    ∷ []

turn_output :
    (run size begin turn).1
    ≡ appended
      ∷ tells (level 1)
      ∷ committed
      ∷ tells processing
      ∷ tells (done (codes "a") (codes "hey"))
      ∷ closed
      ∷ []
unfolding program
turn_output = refl

run_finals_example :
    let out = (run size begin turn).1 in
    (commits out ≤ length (done_ids out)) × (are_distinct (done_ids out) ≡ true)
unfolding program are_distinct contains
run_finals_example = run_finals size turn (omega arith) refl refl refl
