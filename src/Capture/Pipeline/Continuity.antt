-- ===== src/Capture/Pipeline/Continuity.antt =====
-- crates/woof-capture/src/engine.rs: when an observation continues the pending snapshot.
use woof.Prelude.{
  ◌<◌, Bool, true, false, Option, none, some, ◌≡◌, inl, inr, arith, if◌then◌else◌, Option-cases,
}
use woof.Prelude.Text.{Text, text_eq}
use woof.Prelude.Int.{pos, ◌≤ℤ◌}
use woof.Prelude.Word.{u64_mod}
use woof.Capture.Pipeline.{
  RawCapture, SnapshotCandidate, PipelineOutcome, stored, deduplicated, coalesced, skipped,
  CaptureController, pause, resume, CapturePipeline, settle, same_context, elapsed, candidate,
  process, text_of, merge,
}

-- The candidate of an outcome that has one.
abbrev pub accepted : PipelineOutcome → Option SnapshotCandidate
accepted (stored s) = some s
accepted (deduplicated s) = some s
accepted (coalesced s) = some s
accepted (skipped reason) = none

abbrev pub continues : PipelineOutcome → Bool
continues (deduplicated s) = true
continues (coalesced s) = true
continues _ = false

-- How a snapshot relates to the one before it that it continues, and to the outcome.
pub record Continuation {P : Type 0} (p : CapturePipeline P) (capture : RawCapture)
    (previous next : SnapshotCandidate) (outcome : PipelineOutcome) : Type 0 where
  pub context : same_context previous next ≡ true
  pub in_window : elapsed previous next ≤ℤ p.config.coalesce_window_ms
  pub same_start : next.started_at_ms ≡ previous.started_at_ms
  pub seen_last : next.last_seen_at_ms ≡ capture.captured_at_ms
  pub longer : previous.duration_ms ≤ℤ next.duration_ms
  pub by_digest : outcome ≡ (
      if text_eq previous.content_hash next.content_hash then deduplicated next else coalesced next)

-- The same for a candidate that is settled.
settle-continues :
    {P : Type 0} (p : CapturePipeline P) (previous fresh next : SnapshotCandidate)
    → p.pending ≡ some previous
    → accepted (settle p fresh).1 ≡ some next
    → continues (settle p fresh).1 ≡ true
    → (same_context previous fresh ≡ true)
      × (elapsed previous fresh ≤ℤ p.config.coalesce_window_ms)
      × (next ≡ merge previous fresh)
      × ((settle p fresh).1 ≡ (
          if text_eq previous.content_hash next.content_hash
          then deduplicated next
          else coalesced next))
unfolding settle
settle-continues p previous fresh next e a k = ground arith

settle-none :
    {P : Type 0} (p : CapturePipeline P) (fresh : SnapshotCandidate)
    → p.pending ≡ none
    → continues (settle p fresh).1 ≡ false
unfolding settle
settle-none p fresh e = ground arith

merge_longer :
    (previous fresh : SnapshotCandidate)
    → previous.duration_ms ≤ℤ (merge previous fresh).duration_ms
merge_longer previous fresh = ground arith

module _ {P : Type 0} (is_blacklisted : P → RawCapture → Bool) (redact digest : Text → Text) where
  -- After every capture the pending snapshot is the one that was accepted, and nothing is pending
  -- after a capture that was skipped.
  pub pending-process :
      (c : CaptureController) (p : CapturePipeline P) (capture : RawCapture)
      → (process is_blacklisted redact digest c p capture).0.pending
        ≡ accepted (process is_blacklisted redact digest c p capture).1
  unfolding process
  pending-process c p capture = ground arith

  abbrev fresh : CaptureController → CapturePipeline P → RawCapture → SnapshotCandidate
  fresh c p capture =
      candidate is_blacklisted redact digest capture
        (text_of is_blacklisted redact digest p capture)

  settled :
      (c : CaptureController) (p : CapturePipeline P) (capture : RawCapture)
      → continues (process is_blacklisted redact digest c p capture).1 ≡ true
      → (process is_blacklisted redact digest c p capture).1 ≡ (settle p (fresh c p capture)).1
  unfolding process settle
  settled c p capture k = ground arith

  -- A capture that continues the pending snapshot has the same context and comes within the window;
  -- the snapshot keeps its start, is seen last at the capture's time, and its duration does not
  -- fall; it counts as a duplicate exactly when the digests agree.
  pub process-continues :
      (c : CaptureController) (p : CapturePipeline P) (capture : RawCapture)
      (next : SnapshotCandidate)
      → accepted (process is_blacklisted redact digest c p capture).1 ≡ some next
      → continues (process is_blacklisted redact digest c p capture).1 ≡ true
      → (previous : SnapshotCandidate) × (p.pending ≡ some previous)
        × Continuation p capture previous next (process is_blacklisted redact digest c p capture).1
  unfolding candidate
  process-continues c p capture next a k =
      let e = settled c p capture k in
      elim (Option-cases p.pending) [
        | inl nothing ↦ let stop = settle-none p (fresh c p capture) nothing in ground arith
        | inr (previous, h) ↦
            let (context, window, merged, by) =
              settle-continues p previous (fresh c p capture) next h (cc) (cc) in
            (
              previous,
              h,
              record {
                context = rw merged context;
                in_window = rw merged window;
                same_start = cc;
                seen_last = cc;
                longer = rw merged (merge_longer previous (fresh c p capture));
                by_digest = cc;
              },
            )
      ]

  -- Any other accepted capture starts a snapshot of its own.
  pub process_starts :
      (c : CaptureController) (p : CapturePipeline P) (capture : RawCapture)
      (next : SnapshotCandidate)
      → (process is_blacklisted redact digest c p capture).1 ≡ stored next
      → (next.started_at_ms ≡ capture.captured_at_ms)
        × (next.last_seen_at_ms ≡ capture.captured_at_ms)
        × (next.duration_ms ≡ pos 0)
  unfolding process candidate
  process_starts c p capture next h = ground arith

  -- A pause breaks the sequence even if it begins and ends between two captures: after it the next
  -- capture never continues a snapshot from before.
  pub process-pause :
      (c : CaptureController) (p : CapturePipeline P) (capture : RawCapture)
      → c.paused ≡ false
      → p.observed_continuity_epoch ≡ c.continuity_epoch
      → c.continuity_epoch < u64_mod
      → continues (process is_blacklisted redact digest (resume (pause c)) p capture).1 ≡ false
  unfolding process pause resume
  process-pause c p capture h e b = ground arith
