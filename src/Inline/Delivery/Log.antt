-- ===== src/Inline/Delivery/Log.antt =====
-- crates/woof-inline/src/session.rs: the element, the clipboard and the keyboard with a log of the
-- calls that a delivery makes.
use woof.Prelude.{ℕ, suc, Bool, true, false, ◌&&◌, List, [], ◌∷◌, is_some, if◌then◌else◌}
use woof.Inline.Clipboard.{Result, ok, err, Clipboard}
use woof.Inline.Delivery.{ReplacementAttempt, FocusedTextTarget, InputInjector, method_of}

-- The calls that touch the element or the keyboard, and whether they succeeded: a check of the
-- fallback, a replacement through Accessibility, a paste, and typing. The last call comes first.
pub data Call : Type 0 where
  checks replaces pastes types : Bool → Call

abbrev pub is_ok : {A : Type 0} → Result A → Bool
is_ok (ok a) = true
is_ok (err e) = false

abbrev replaced : Result ReplacementAttempt → Bool
replaced (ok attempt) = is_some (method_of attempt)
replaced (err e) = false

-- A call on a world with a log.
abbrev quietly : {W A : Type 0} → (W → W × Result A) → W × List Call → (W × List Call) × Result A
quietly act (w, l) = let (w', r) = act w in ((w', l), r)

abbrev logging :
    {W A : Type 0}
    → (Result A → Call)
    → (W → W × Result A)
    → W × List Call
    → (W × List Call) × Result A
logging note act (w, l) = let (w', r) = act w in ((w', note r ∷ l), r)

module _ {W R H F P : Type 0} where
  abbrev pub logged_target : FocusedTextTarget W R H F P → FocusedTextTarget (W × List Call) R H F P
  logged_target t = record {
    validate = λ r f. quietly (t.validate r f);
    replace = λ r s f. logging (λ x. replaces (replaced x)) (t.replace r s f);
    prepare_fallback = λ r h f. quietly (t.prepare_fallback r h f);
    validate_fallback = λ r p. logging (λ x. checks (is_ok x)) (t.validate_fallback r p);
    confirm_whole_draft = λ s. quietly (t.confirm_whole_draft s);
    release = λ x. (t.release x.0, x.1);
  }

abbrev pub logged_input : {W P : Type 0} → InputInjector W P → InputInjector (W × List Call) P
logged_input i = record {
  paste = λ p. logging (λ x. pastes (is_ok x)) (i.paste p);
  type_unicode = λ p s. logging (λ x. types (is_ok x)) (i.type_unicode p s);
}

abbrev pub logged_clipboard : {W : Type 0} → Clipboard W → Clipboard (W × List Call)
logged_clipboard c = record {
  snapshot = quietly c.snapshot;
  set_plain_text = λ s r x. let (w, r', y) = c.set_plain_text s r x.0 in ((w, x.1), r', y);
  ensure_revision = λ r. quietly (c.ensure_revision r);
  restore = λ s r x. let (w, r', y) = c.restore s r x.0 in ((w, x.1), r', y);
}

abbrev pub checked : List Call → Bool
checked (checks true ∷ l) = true
checked _ = false

-- Every paste and all typing comes directly after a check of the fallback that succeeded.
abbrev pub guarded : List Call → Bool
guarded [] = true
guarded (pastes b ∷ l) = checked l && guarded l
guarded (types b ∷ l) = checked l && guarded l
guarded (c ∷ l) = guarded l

-- The calls that delivered the text.
abbrev pub deliveries : List Call → ℕ
deliveries [] = 0
deliveries (checks b ∷ l) = deliveries l
deliveries (replaces b ∷ l) = if b then suc (deliveries l) else deliveries l
deliveries (pastes b ∷ l) = if b then suc (deliveries l) else deliveries l
deliveries (types b ∷ l) = if b then suc (deliveries l) else deliveries l
