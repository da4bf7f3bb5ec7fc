-- ===== src/Inline/Delivery/Pasting.antt =====
-- crates/woof-inline/src/session.rs: a paste through temporary text.
use woof.Prelude.{
  ℕ, Bool, true, ◌&&◌, ◌||◌, List, ◌≡◌, arith, if◌then◌else◌, Bool-cases, inl, inr, leb, ◌==◌,
}
use woof.Prelude.Text.{Text}
use woof.Inline.Clipboard.{
  InlineError, clipboard_limit, Result, ok, err, ClipboardSnapshot, Clipboard, within_limits,
  guarding, after_write_error, after_action, restore, dropped, with_guard, with_temporary_text,
}
use woof.Inline.Clipboard.Restoration.{may_be_lost, Result-cases, lost_action}
use woof.Inline.Delivery.Log.{
  Call, is_ok, logged_target, logged_input, logged_clipboard, guarded, deliveries,
}
use woof.Inline.Delivery.{FocusedTextTarget, InputInjector, paste_text}

-- What a paste through temporary text leaves: a guarded log, with the delivery that the result
-- tells of, unless the clipboard may be lost, and never more than one.
abbrev pub pasted : List Call → Result (Unit {0}) → Bool
pasted l x =
    guarded l
    && leb (deliveries l) 1
    && (may_be_lost x || (deliveries l == (if is_ok x then 1 else 0)))

after_action-pasted :
    (l : List Call) (x y : Result (Unit {0}))
    → guarded l ≡ true
    → deliveries l ≡ (if is_ok x then 1 else 0)
    → pasted l (after_action x y) ≡ true
after_action-pasted l x (ok t) g d = ground arith
after_action-pasted l x (err e) g d = let lost = lost_action x e in ground (arith, lost)

idle-pasted :
    (l : List Call) (e : InlineError)
    → guarded l ≡ true
    → deliveries l ≡ 0
    → pasted l (err e) ≡ true
idle-pasted l e g d = ground arith

module _ {W R H F P : Type 0} (whole_draft : R → Bool) (target : FocusedTextTarget W R H F P)
    (clipboard : Clipboard W) (input : InputInjector W P) where
  abbrev pub paste_it : R → P → W × List Call → (W × List Call) × Result (Unit {0})
  paste_it =
      paste_text whole_draft (logged_target target) (logged_clipboard clipboard)
        (logged_input input)

  paste_text-good :
      (r : R) (p : P) (x : W × List Call)
      → guarded x.1 ≡ true
      → deliveries x.1 ≡ 0
      → (guarded (paste_it r p x).0.1 ≡ true)
        × (deliveries (paste_it r p x).0.1 ≡ (if is_ok (paste_it r p x).1 then 1 else 0))
  unfolding paste_text
  paste_text-good r p (w, l) g d = ground arith

  drop-log :
      (s : ClipboardSnapshot) (n : ℕ) (w : W) (l : List Call)
      → (dropped (logged_clipboard clipboard) (guarding s n (w, l))).1 ≡ l
  unfolding dropped restore
  drop-log s n w l = ground arith

  restore-log :
      (s : ClipboardSnapshot) (n : ℕ) (w : W) (l : List Call)
      → (dropped
          (logged_clipboard clipboard)
          (restore (logged_clipboard clipboard) (guarding s n (w, l))).0).1
        ≡ l
  unfolding dropped restore
  restore-log s n w l = ground arith

  with_guard-pasted :
      (r : R) (t : Text) (p : P) (s : ClipboardSnapshot) (n : ℕ) (w : W) (l : List Call)
      → guarded l ≡ true
      → deliveries l ≡ 0
      → let (x, y) = with_guard (logged_clipboard clipboard) t (paste_it r p) s n (w, l) in
        pasted x.1 y ≡ true
  unfolding with_guard
  with_guard-pasted r t p s n w l g d =
      let w' = (clipboard.set_plain_text t n w).0 in
      let n' = (clipboard.set_plain_text t n w).1 in
      let w2 = (clipboard.ensure_revision n' w').0 in
      let lc = logged_clipboard clipboard in
      elim (Result-cases (clipboard.set_plain_text t n w).2) [
        | inr (e, failed) ↦
            rw (failed, with_guard, restore-log s n' w' l)
              (idle-pasted l (after_write_error e (restore lc (guarding s n' (w', l))).1) g d)
        | inl (u, written) ↦ elim (Result-cases (clipboard.ensure_revision n' w').1) [
          | inr (e, differs) ↦
              rw (written, differs, with_guard, drop-log s n' w2 l) (idle-pasted l e g d)
          | inl (u', same) ↦
              let (x, result) = paste_it r p (w2, l) in
              let (g', d') = paste_text-good r p (w2, l) g d in
              rw (written, same, with_guard, restore-log s n' x.0 x.1)
                (after_action-pasted x.1 result (restore lc (guarding s n' x)).1 g' d')
        ]
      ]

  pub with_temporary_text-pasted :
      (r : R) (t : Text) (p : P) (w : W) (l : List Call)
      → guarded l ≡ true
      → deliveries l ≡ 0
      → let (x, y) = with_temporary_text (logged_clipboard clipboard) t (paste_it r p) (w, l) in
        pasted x.1 y ≡ true
  unfolding with_temporary_text
  with_temporary_text-pasted r t p w l g d = elim (Result-cases (clipboard.snapshot w).1) [
    | inr (e, failed) ↦ rw (failed, with_temporary_text) (idle-pasted l e g d)
    | inl ((s, n), taken) ↦ elim (Bool-cases (within_limits s)) [
      | inr past ↦ rw (taken, past, with_temporary_text) (idle-pasted l clipboard_limit g d)
      | inl fits ↦
          rw (taken, fits, with_temporary_text)
            (with_guard-pasted r t p s n (clipboard.snapshot w).0 l g d)
    ]
  ]
