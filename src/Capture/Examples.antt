-- ===== src/Capture/Examples.antt =====
-- Captures of small trees, after the tests of crates/woof-capture/src/engine.rs and model.rs. The
-- policy here is a blacklisted name, the redaction is none, and the digest is the text.
use woof.Prelude.{
  ◌↔◌, ◌⊎◌, ℕ, ◌≤◌, min, Bool, true, false, none, some, List, [], ◌∷◌, ◌++◌, ◌≡◌, refl,
}
use woof.Prelude.Text.{
  Text, codes, byte_len, len_utf8, is_empty, is_whitespace, text_eq, trim, trim_start, trim_end,
}
use woof.Prelude.Int.{pos, saturating_sub, ◌-ℤ◌}
use woof.Capture.Truncate.{truncate_utf8, truncate_utf8_prefix, IsFull}
use woof.Capture.Node.{
  Element, AccessibilityNode, node, nil, child, has_protected_content, any_protected, focused_role,
  focused_role_among, focused_breadcrumbs, to_ascii_lowercase, starts_with, contains_text,
  normalize_bounded, visible_text_bounded, is_password_role,
}
use woof.Capture.Node.VisibleText.{visible_text-mask, mask}
use woof.Capture.Pipeline.{
  RawCapture, SnapshotCandidate, CaptureController, default_controller, CapturePipeline, process,
  settle, hard_maximum_text_bytes, candidate, text_of, bounded_redacted_breadcrumbs, deduplicated,
  stored,
}
use woof.Capture.Pipeline.Sequence.{IsCovered, run, run-IsCovered}
use woof.Capture.Pipeline.Privacy.{process_accepts}
use woof.Capture.Policy.{domain, hosts_match}
use woof.Capture.Policy.Hosts.{hosts_match_iff}

abbrev empty_element : Element
empty_element = record {
  role = codes "AXText";
  subrole = none;
  title = none;
  value = none;
  description = none;
  placeholder = none;
  identifier = none;
  url = none;
  focused = false;
  protected = false;
}

abbrev field : Text → AccessibilityNode
field s = node (record empty_element { value = some s }) nil

abbrev window : AccessibilityNode
window = node empty_element (child (field (codes "hi")) (child secret nil))
  where
    secret : AccessibilityNode
    secret = node (record empty_element { value = some (codes "pw"); protected = true }) nil

truncate_utf8_prefix_example :
    (rest : Text) × (truncate_utf8 (codes "aé!") 2 ++ rest ≡ codes "aé!")
    × (byte_len (truncate_utf8 (codes "aé!") 2) ≤ 2)
    × IsFull 2 (truncate_utf8 (codes "aé!") 2) rest
truncate_utf8_prefix_example = truncate_utf8_prefix (codes "aé!") 2

visible_text-mask_example : visible_text_bounded (mask window) 100 ≡ visible_text_bounded window 100
visible_text-mask_example = visible_text-mask window 100

abbrev at_second : ℕ → RawCapture
at_second n = record {
  captured_at_ms = pos n;
  pid = pos 7;
  app_name = codes "Notes";
  bundle_id = none;
  window_title = none;
  browser_url = none;
  secure_input = false;
  root = field (codes "hi");
}

abbrev by_name : Text → RawCapture → Bool
by_name name capture = text_eq name capture.app_name

abbrev same : Text → Text
same s = s

abbrev pipeline : CapturePipeline Text
pipeline = record {
  config = record {
    coalesce_window_ms = pos 30000;
    maximum_text_bytes = 100;
    policy = codes "Mail";
  };
  observed_continuity_epoch = 0;
  pending = none;
}

abbrev first : SnapshotCandidate
first = record {
  started_at_ms = pos 5;
  last_seen_at_ms = pos 5;
  duration_ms = pos 0;
  pid = pos 7;
  app_name = codes "Notes";
  bundle_id = none;
  window_title = none;
  browser_url = none;
  focused_breadcrumbs = [];
  focused_role = none;
  text = codes "hi";
  content_hash = codes "hi";
}

abbrev second : SnapshotCandidate
second = record first { last_seen_at_ms = pos 9; duration_ms = pos 4 }

abbrev waiting : CapturePipeline Text
waiting = record pipeline { pending = some first }

program : Unit {0}
unfolding process settle default_controller text_eq byte_len len_utf8 is_whitespace trim trim_start
    trim_end any_protected focused_role focused_role_among focused_breadcrumbs to_ascii_lowercase
    starts_with contains_text is_password_role normalize_bounded saturating_sub ◌-ℤ◌ candidate
    text_of bounded_redacted_breadcrumbs truncate_utf8 has_protected_content visible_text_bounded
program = tt

stored_first :
    (process by_name same same default_controller pipeline (at_second 5)).1 ≡ stored first
unfolding program
stored_first = refl

merged_second :
    (process by_name same same default_controller waiting (at_second 9)).1 ≡ deduplicated second
unfolding program
merged_second = refl

abbrev two_captures : List (CaptureController × RawCapture)
two_captures = (default_controller, at_second 9) ∷ (default_controller, at_second 5) ∷ []

run-IsCovered_example :
    IsCovered pipeline.config.coalesce_window_ms second
      (run by_name same same pipeline two_captures).1
unfolding program run
run-IsCovered_example = run-IsCovered by_name same same pipeline two_captures second refl refl

process_accepts_example :
    let b = min 100 hard_maximum_text_bytes in
    (false ≡ false)
    × ((at_second 5).secure_input ≡ false)
    × (has_protected_content (at_second 5).root ≡ false)
    × (by_name (codes "Mail") (at_second 5) ≡ false)
    × (is_empty (trim first.text) ≡ false)
    × (first.text ≡ truncate_utf8 (same (visible_text_bounded (at_second 5).root b)) b)
    × (byte_len first.text ≤ b)
unfolding program
process_accepts_example =
    process_accepts by_name same same default_controller pipeline (at_second 5) first refl

hosts_match_iff_example : (hosts_match (domain (codes "a.b.c")) (domain (codes "b.c")) ≡ true) ↔ (
    (codes "a.b.c" ≡ codes "b.c") ⊎ ((sub : Text) × (codes "a.b.c" ≡ sub ++ (b'.' ∷ codes "b.c"))))
hosts_match_iff_example = hosts_match_iff (codes "a.b.c") (codes "b.c")
