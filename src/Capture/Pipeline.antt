-- ===== src/Capture/Pipeline.antt =====
-- crates/woof-capture/src/engine.rs: the capture pipeline, its controller, and its bounds. The
-- policy with its test, the redaction of a text and the SHA-256 digest are parameters. Wiping a
-- capture's strings has no counterpart.
pub mod Continuity
pub mod Sequence
pub mod Privacy
use woof.Prelude.{
  ℕ, ◌+◌, ◌-◌, ◌%◌, ◌≤◌, Bool, true, false, not, ◌&&◌, ◌||◌, Option, none, some, List, [], ◌∷◌,
  ◌++◌, leb, ltb, ◌==◌, min, if◌then◌else◌,
}
use woof.Prelude.Text.{Text, byte_len, is_empty, text_eq, trim}
use woof.Prelude.Int.{ℤ, pos, ◌≤ℤ◌, leb_ℤ, max_ℤ, saturating_sub}
use woof.Prelude.Word.{wrapping_add64}
use woof.Capture.Truncate.{truncate_utf8}
use woof.Capture.Node.{
  AccessibilityNode, has_protected_content, focused_breadcrumbs, focused_role, visible_text_bounded,
}

abbrev pub hard_maximum_text_bytes : ℕ
hard_maximum_text_bytes = 1048576

abbrev maximum_app_name_bytes : ℕ
maximum_app_name_bytes = 512

abbrev maximum_bundle_id_bytes : ℕ
maximum_bundle_id_bytes = 512

abbrev maximum_window_title_bytes : ℕ
maximum_window_title_bytes = 4096

abbrev maximum_browser_url_bytes : ℕ
maximum_browser_url_bytes = 8192

abbrev pub maximum_focused_path_bytes : ℕ
maximum_focused_path_bytes = 4096

abbrev pub maximum_focused_path_segment_bytes : ℕ
maximum_focused_path_segment_bytes = 512

abbrev maximum_focused_role_bytes : ℕ
maximum_focused_role_bytes = 256

pub record RawCapture : Type 0 where
  pub captured_at_ms : ℤ  -- i64
  pub pid : ℤ  -- i32
  pub app_name : Text
  pub bundle_id : Option Text
  pub window_title : Option Text
  pub browser_url : Option Text
  pub secure_input : Bool
  pub root : AccessibilityNode

pub record PipelineConfig (P : Type 0) : Type 0 where
  pub coalesce_window_ms : ℤ  -- i64
  pub maximum_text_bytes : ℕ
  pub policy : P

pub record SnapshotCandidate : Type 0 where
  pub started_at_ms : ℤ  -- i64
  pub last_seen_at_ms : ℤ  -- i64
  pub duration_ms : ℤ  -- i64
  pub pid : ℤ  -- i32
  pub app_name : Text
  pub bundle_id : Option Text
  pub window_title : Option Text
  pub browser_url : Option Text
  pub focused_breadcrumbs : List Text
  pub focused_role : Option Text
  pub text : Text
  pub content_hash : Text

pub data SkipReason : Type 0 where
  paused secure_input protected_content blacklisted empty : SkipReason

pub data PipelineOutcome : Type 0 where
  stored : SnapshotCandidate → PipelineOutcome
  deduplicated : SnapshotCandidate → PipelineOutcome
  coalesced : SnapshotCandidate → PipelineOutcome
  skipped : SkipReason → PipelineOutcome

-- `CaptureController`: two atomics that the pipeline and the user's commands share.
pub record CaptureController : Type 0 where
  pub paused : Bool
  pub continuity_epoch : ℕ  -- u64

unfoldable pub default_controller : CaptureController
default_controller = record { paused = false; continuity_epoch = 0 }

unfoldable pub pause : CaptureController → CaptureController
pause c =
    if c.paused
    then c
    else record c { paused = true; continuity_epoch = wrapping_add64 c.continuity_epoch 1 }

unfoldable pub resume : CaptureController → CaptureController
resume c = record c { paused = false }

pub record CapturePipeline (P : Type 0) : Type 0 where
  pub config : PipelineConfig P
  pub observed_continuity_epoch : ℕ  -- u64
  pub pending : Option SnapshotCandidate

unfoldable pub new : {P : Type 0} → PipelineConfig P → CaptureController → CapturePipeline P
new config c = record {
  config = config;
  observed_continuity_epoch = c.continuity_epoch;
  pending = none;
}

unfoldable pub clear_pending : {P : Type 0} → CapturePipeline P → CapturePipeline P
clear_pending p = record p { pending = none }

unfoldable pub set_policy : {P : Type 0} → CapturePipeline P → P → CapturePipeline P
set_policy p policy = record p { config = record (p.config) { policy = policy } }

clear_for_controller_discontinuity :
    {P : Type 0} → CaptureController → CapturePipeline P → CapturePipeline P
clear_for_controller_discontinuity c p =
    if c.continuity_epoch == p.observed_continuity_epoch
    then p
    else record p { pending = none; observed_continuity_epoch = c.continuity_epoch }

skip : {P : Type 0} → CapturePipeline P → SkipReason → CapturePipeline P × PipelineOutcome
skip p reason = (record p { pending = none }, skipped reason)

-- `==` on optional texts and on integers.
abbrev same_text : Option Text → Option Text → Bool
same_text none none = true
same_text (some s) (some t) = text_eq s t
same_text _ _ = false

abbrev same_int : ℤ → ℤ → Bool
same_int a b = leb_ℤ a b && leb_ℤ b a

abbrev pub same_context : SnapshotCandidate → SnapshotCandidate → Bool
same_context previous next =
    same_int previous.pid next.pid
    && same_text previous.bundle_id next.bundle_id
    && same_text previous.window_title next.window_title
    && same_text previous.browser_url next.browser_url

abbrev pub elapsed : SnapshotCandidate → SnapshotCandidate → ℤ
elapsed previous next = max_ℤ (saturating_sub next.last_seen_at_ms previous.last_seen_at_ms) (pos 0)

-- The candidate that continues the pending one.
abbrev pub merge : SnapshotCandidate → SnapshotCandidate → SnapshotCandidate
merge previous next = record next {
  started_at_ms = previous.started_at_ms;
  duration_ms =
      max_ℤ (saturating_sub next.last_seen_at_ms previous.started_at_ms) previous.duration_ms;
}

-- `process` from the finished candidate on.
unfoldable pub settle :
    {P : Type 0} → CapturePipeline P → SnapshotCandidate → CapturePipeline P × PipelineOutcome
settle p next = elim p.pending [
  | none ↦ (record p { pending = some next }, stored next)
  | some previous ↦
      if same_context previous next && leb_ℤ (elapsed previous next) p.config.coalesce_window_ms
      then (
        record p { pending = some (merge previous next) },
        if text_eq previous.content_hash next.content_hash
            then deduplicated (merge previous next)
            else coalesced (merge previous next),
      )
      else (record p { pending = some next }, stored next)
]

module _ {P : Type 0} (is_blacklisted : P → RawCapture → Bool) (redact digest : Text → Text) where
  redact_bounded : Text → ℕ → Text
  redact_bounded value maximum_bytes = truncate_utf8 (redact value) maximum_bytes

  abbrev redact_optional : Option Text → ℕ → Option Text
  redact_optional none maximum_bytes = none
  redact_optional (some value) maximum_bytes = some (redact_bounded value maximum_bytes)

  abbrev truncate_optional : Option Text → ℕ → Option Text
  truncate_optional none maximum_bytes = none
  truncate_optional (some value) maximum_bytes = some (truncate_utf8 value maximum_bytes)

  -- The loop of `bounded_redacted_breadcrumbs`; `started` says that the output is not empty.
  breadcrumbs_from : Bool → ℕ → List Text → List Text
  breadcrumbs_from started used [] = []
  breadcrumbs_from started used (value ∷ values) =
      let segment = redact_bounded value maximum_focused_path_segment_bytes in
      let next = used + (if started then 1 else 0) + byte_len segment in
      let rest = breadcrumbs_from true next values in
      if ltb maximum_focused_path_bytes next then [] else segment ∷ rest

  unfoldable pub bounded_redacted_breadcrumbs : List Text → List Text
  unfolding breadcrumbs_from redact_bounded
  bounded_redacted_breadcrumbs values = breadcrumbs_from false 0 values

  -- The text that a capture is stored with.
  unfoldable pub text_of : CapturePipeline P → RawCapture → Text
  text_of p capture =
      let maximum_bytes = min p.config.maximum_text_bytes hard_maximum_text_bytes in
      truncate_utf8 (redact (visible_text_bounded capture.root maximum_bytes)) maximum_bytes

  unfoldable pub candidate : RawCapture → Text → SnapshotCandidate
  unfolding redact_bounded
  candidate capture text = record {
    started_at_ms = capture.captured_at_ms;
    last_seen_at_ms = capture.captured_at_ms;
    duration_ms = pos 0;
    pid = capture.pid;
    app_name = truncate_utf8 capture.app_name maximum_app_name_bytes;
    bundle_id = truncate_optional capture.bundle_id maximum_bundle_id_bytes;
    window_title = redact_optional capture.window_title maximum_window_title_bytes;
    browser_url = redact_optional capture.browser_url maximum_browser_url_bytes;
    focused_breadcrumbs = bounded_redacted_breadcrumbs (focused_breadcrumbs capture.root);
    focused_role = truncate_optional (focused_role capture.root) maximum_focused_role_bytes;
    text = text;
    content_hash = digest text;
  }

  unfoldable pub process :
      CaptureController → CapturePipeline P → RawCapture → CapturePipeline P × PipelineOutcome
  unfolding clear_for_controller_discontinuity skip settle
  process c before capture =
      let p = clear_for_controller_discontinuity c before in
      let text = text_of p capture in
      if c.paused
      then skip p paused
      else if capture.secure_input
      then skip p secure_input
      else if has_protected_content capture.root
      then skip p protected_content
      else if is_blacklisted p.config.policy capture
      then skip p blacklisted
      else if is_empty (trim text)
      then skip p empty
      else settle p (candidate capture text)
