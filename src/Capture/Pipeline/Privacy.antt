-- ===== src/Capture/Pipeline/Privacy.antt =====
-- crates/woof-capture/src/engine.rs: what an accepted capture has passed, and its bounds.
use woof.Prelude.{ℕ, ◌≤◌, Bool, false, some, ◌≡◌, min, arith}
use woof.Prelude.Text.{Text, byte_len, is_empty, trim}
use woof.Capture.Truncate.{truncate_utf8, truncate_utf8_prefix}
use woof.Capture.Node.{has_protected_content, visible_text_bounded}
use woof.Capture.Pipeline.{
  RawCapture, SnapshotCandidate, CaptureController, CapturePipeline, process, text_of, candidate,
  hard_maximum_text_bytes,
}
use woof.Capture.Pipeline.Continuity.{accepted}

pub byte_len-truncate_le : (s : Text) (b : ℕ) → byte_len (truncate_utf8 s b) ≤ b
byte_len-truncate_le s b = (truncate_utf8_prefix s b).2

module _ {P : Type 0} (is_blacklisted : P → RawCapture → Bool) (redact digest : Text → Text) where
  -- A capture is accepted only while capture is not paused, with no secure input, no protected
  -- element in its tree, off the blacklist, and with text that is not blank. Its text is then the
  -- redacted visible text, cut to the configured maximum and the hard one.
  pub process_accepts :
      (c : CaptureController) (p : CapturePipeline P) (capture : RawCapture)
      (next : SnapshotCandidate)
      → accepted (process is_blacklisted redact digest c p capture).1 ≡ some next
      → let b = min p.config.maximum_text_bytes hard_maximum_text_bytes in
        (c.paused ≡ false)
        × (capture.secure_input ≡ false)
        × (has_protected_content capture.root ≡ false)
        × (is_blacklisted p.config.policy capture ≡ false)
        × (is_empty (trim next.text) ≡ false)
        × (next.text ≡ truncate_utf8 (redact (visible_text_bounded capture.root b)) b)
        × (byte_len next.text ≤ b)
  unfolding process text_of candidate
  process_accepts c p capture next h = ground (
    arith,
    byte_len-truncate_le
        (redact (
          visible_text_bounded capture.root
            (min p.config.maximum_text_bytes hard_maximum_text_bytes)))
        (min p.config.maximum_text_bytes hard_maximum_text_bytes),
  )
