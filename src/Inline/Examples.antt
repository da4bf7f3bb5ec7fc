-- ===== src/Inline/Examples.antt =====
-- A clipboard in memory and an element that takes no text through Accessibility, after the tests of
-- crates/woof-inline/src/clipboard.rs and session.rs.
use woof.Prelude.{
  ◌⊎◌, ℕ, ◌+◌, ◌≤◌, Bool, true, false, not, ◌||◌, List, [], ◌∷◌, ◌==◌, ◌≡◌, refl, arith,
  if◌then◌else◌,
}
use woof.Prelude.Text.{Text, codes, byte_len, len_utf8}
use woof.Inline.Clipboard.{
  clipboard_changed, Result, ok, err, ClipboardSnapshot, Clipboard, count_representations,
  count_items, within_limits, restore, dropped, with_guard, with_temporary_text,
}
use woof.Inline.Clipboard.Restoration.{IsClipboard, IsSwallowed, with_temporary_text_restores}
use woof.Inline.Delivery.{
  unavailable, FocusedTextTarget, InputInjector, DeliveryMethod, deliver, after_replace,
  deliver_fallback, paste_text, confirm_delivery,
}
use woof.Inline.Delivery.Log.{
  Call, checks, replaces, pastes, is_ok, logged_target, logged_input, logged_clipboard, guarded,
  deliveries,
}
use woof.Inline.Delivery.Guarded.{deliver-guarded}

record Memory : Type 0 where
  current : ClipboardSnapshot
  revision : ℕ

abbrev plain : Text → ClipboardSnapshot
plain s = record {
  items =
      record { representations = record { type_identifier = codes "text"; bytes = s } ∷ [] } ∷ [];
}

abbrev memory : Clipboard Memory
memory = record {
  snapshot = λ w. (w, ok (w.current, w.revision));
  set_plain_text = λ s r w.
      if r == w.revision
      then (record { current = plain s; revision = r + 1 }, r + 1, ok tt)
      else (w, r, err clipboard_changed);
  ensure_revision = λ r w. (w, if r == w.revision then ok tt else err clipboard_changed);
  restore = λ s r w.
      if r == w.revision
      then (record { current = s; revision = r + 1 }, r + 1, ok tt)
      else (w, r, err clipboard_changed);
}

memory-IsClipboard : IsClipboard memory (λ w. w.current)
memory-IsClipboard = record {
  keeps = λ w. refl;
  takes = λ w s r h. ground arith;
  restores = λ s r w h. ground arith;
}

program : Unit {0}
unfolding byte_len len_utf8 count_representations count_items within_limits restore dropped
    with_guard with_temporary_text deliver after_replace deliver_fallback paste_text
    confirm_delivery
program = tt

abbrev before : Memory
before = record { current = plain (codes "old"); revision = 1 }

abbrev seven : Memory → Memory × Result ℕ
seven w = (w, ok 7)

with_temporary_text_restores_example :
    ((with_temporary_text memory (codes "new") seven before).0.current ≡ plain (codes "old"))
    ⊎ IsSwallowed memory
        (codes "new")
        before
        (with_temporary_text memory (codes "new") seven before).1
unfolding program
with_temporary_text_restores_example =
    with_temporary_text_restores memory (λ w. w.current) memory-IsClipboard (codes "new") seven
      before refl

abbrev element : FocusedTextTarget Memory Bool (Unit {0}) (Unit {0}) ℕ
element = record {
  validate = λ r f w. (w, ok tt);
  replace = λ r s f w. (w, ok unavailable);
  prepare_fallback = λ r h f w. (w, ok 7);
  validate_fallback = λ r p w. (w, ok tt);
  confirm_whole_draft = λ s w. (w, ok tt);
  release = λ w. w;
}

abbrev keyboard : InputInjector Memory ℕ
keyboard = record { paste = λ p w. (w, ok tt); type_unicode = λ p s w. (w, ok tt) }

-- A delivery of a whole draft to the element.
abbrev delivery : (Memory × List Call) × Result DeliveryMethod
delivery =
    deliver (λ b. b) (logged_target element) (logged_clipboard memory) (logged_input keyboard) false
      true (codes "new") tt tt (before, [])

delivery_log : delivery.0.1 ≡ pastes true ∷ checks true ∷ checks true ∷ replaces false ∷ []
unfolding program
delivery_log = refl

deliver-guarded_example :
    (guarded delivery.0.1 ≡ true)
    × (deliveries delivery.0.1 ≤ 1)
    × (not (is_ok delivery.1) || (deliveries delivery.0.1 == 1) ≡ true)
deliver-guarded_example =
    deliver-guarded (λ b. b) element memory keyboard false true (codes "new") tt tt before
