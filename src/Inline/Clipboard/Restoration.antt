-- ===== src/Inline/Clipboard/Restoration.antt =====
-- crates/woof-inline/src/clipboard.rs: when `with_temporary_text` has restored the clipboard.
use woof.Prelude.{ℕ, Bool, true, false, ◌≡◌, ◌∙◌, refl, arith, Bool-cases, inl, inr, ◌⊎◌}
use mathlib.Core.Path.{subst, sym}
use woof.Prelude.Text.{Text}
use woof.Inline.Clipboard.{
  InlineError, clipboard_changed, clipboard_restore, Result, ok, err, ClipboardSnapshot,
  within_limits, Clipboard, guarding, after_write_error, after_action, restore, dropped, with_guard,
  with_temporary_text,
}

-- What a clipboard promises: taking a snapshot gives the contents and leaves them, and a restoration
-- that succeeds puts the contents back. Nothing is asked of what fails.
pub record IsClipboard {W : Type 0} (c : Clipboard W) (contents : W → ClipboardSnapshot)
    : Type 0 where
  pub keeps : (w : W) → contents (c.snapshot w).0 ≡ contents w
  pub takes :
      (w : W) (s : ClipboardSnapshot) (r : ℕ) → (c.snapshot w).1 ≡ ok (s, r) → s ≡ contents w
  pub restores :
      (s : ClipboardSnapshot) (r : ℕ) (w : W)
      → (c.restore s r w).2 ≡ ok tt
      → contents (c.restore s r w).0 ≡ s

-- The results after which the original contents may be gone.
abbrev pub may_be_lost : {T : Type 0} → Result T → Bool
may_be_lost (err clipboard_changed) = true
may_be_lost (err clipboard_restore) = true
may_be_lost _ = false

pub Result-cases :
    {T : Type 0} (r : Result T) → ((t : T) × (r ≡ ok t)) ⊎ ((e : InlineError) × (r ≡ err e))
Result-cases (ok t) = inl (t, refl)
Result-cases (err e) = inr (e, refl)

pub lost_write :
    (e e' : InlineError) → may_be_lost {T = Unit {0}} (err (after_write_error e (err e'))) ≡ true
lost_write e e' = ground arith

pub lost_action :
    {T : Type 0} (result : Result T) (e : InlineError)
    → may_be_lost (after_action result (err e)) ≡ true
lost_action result e = ground arith

-- The snapshot is taken and the text written, the check of the revision after the write fails with
-- the error that is returned, and so does the restoration by `drop`, whose error is not told.
abbrev pub IsSwallowed : {W T : Type 0} → Clipboard W → Text → W → Result T → Type 0
IsSwallowed c value w result =
    (s : ClipboardSnapshot) × (r : ℕ) × (e : InlineError) × (e' : InlineError) × ((c.snapshot w).1
      ≡ ok (s, r))
    × ((c.set_plain_text value r (c.snapshot w).0).2 ≡ ok tt)
    × ((c.ensure_revision (c.set_plain_text value r (c.snapshot w).0).1
          (c.set_plain_text value r (c.snapshot w).0).0).1
        ≡ err e)
    × ((c.restore s (c.set_plain_text value r (c.snapshot w).0).1
          (c.ensure_revision (c.set_plain_text value r (c.snapshot w).0).1
            (c.set_plain_text value r (c.snapshot w).0).0).0).2
        ≡ err e')
    × (result ≡ err e)

module _ {W : Type 0} (c : Clipboard W) (contents : W → ClipboardSnapshot)
    (law : IsClipboard c contents) where
  restored_drop :
      (s : ClipboardSnapshot) (r : ℕ) (w : W)
      → (restore c (guarding s r w)).1 ≡ ok tt
      → contents (dropped c (restore c (guarding s r w)).0) ≡ s
  unfolding restore dropped
  restored_drop s r w h = rw h (law.restores s r w h)

  finish_write :
      (e : InlineError) (s : ClipboardSnapshot) (r : ℕ) (w : W)
      → let (g, restored) = restore c (guarding s r w) in
        may_be_lost {T = Unit {0}} (err (after_write_error e restored)) ≡ false
        → contents (dropped c g) ≡ s
  finish_write e s r w h = elim (Result-cases (restore c (guarding s r w)).1) [
    | inl (t, restored) ↦ restored_drop s r w restored
    | inr (e', failed) ↦
        let lost = lost_write e e' in absurd (let k = rw failed at h in ground (arith, k, lost))
  ]

  finish_action :
      {T : Type 0} (result : Result T) (s : ClipboardSnapshot) (r : ℕ) (w : W)
      → let (g, restored) = restore c (guarding s r w) in
        may_be_lost (after_action result restored) ≡ false → contents (dropped c g) ≡ s
  finish_action result s r w h = elim (Result-cases (restore c (guarding s r w)).1) [
    | inl (t, restored) ↦ restored_drop s r w restored
    | inr (e', failed) ↦
        let lost = lost_action result e' in
        absurd (let k = rw failed at h in ground (arith, k, lost))
  ]

  -- What `drop` does where the check of the revision fails.
  check_failed :
      (s : ClipboardSnapshot) (r : ℕ) (w : W)
      → (contents (dropped c (guarding s r w)) ≡ s)
        ⊎ ((e : InlineError) × ((c.restore s r w).2 ≡ err e))
  unfolding restore dropped
  check_failed s r w = elim (Result-cases (c.restore s r w).2) [
    | inl (t, restored) ↦ inl (law.restores s r w restored)
    | inr failed ↦ inr failed
  ]

  with_guard_restores :
      {T : Type 0} (value : Text) (action : W → W × Result T) (s : ClipboardSnapshot) (r : ℕ)
      (w : W)
      → (c.snapshot w).1 ≡ ok (s, r)
      → let w0 = (c.snapshot w).0 in
        may_be_lost (with_guard c value action s r w0).1 ≡ false
        → (contents (with_guard c value action s r w0).0 ≡ s)
          ⊎ IsSwallowed c value w (with_guard c value action s r w0).1
  unfolding with_guard
  with_guard_restores {T} value action s r w taken h =
      let w0 = (c.snapshot w).0 in
      let w' = (c.set_plain_text value r w0).0 in
      let r' = (c.set_plain_text value r w0).1 in
      elim (Result-cases (c.set_plain_text value r w0).2) [
        | inr (e, failed) ↦
            inl (rw (failed, with_guard) (finish_write e s r' w' (rw (failed, with_guard) at h)))
        | inl (t, written) ↦ elim (Result-cases (c.ensure_revision r' w').1) [
          | inr (e, differs) ↦ elim (check_failed s r' (c.ensure_revision r' w').0) [
            | inl back ↦ inl (rw (written, differs, with_guard) back)
            | inr (e', failed) ↦ inr (
              s,
              r,
              e,
              e',
              taken,
              written,
              differs,
              failed,
              rw (written, differs, with_guard) refl,
            )
          ]
          | inl (t', same) ↦
              let (w3, result) = action (c.ensure_revision r' w').0 in
              inl (
                rw (written, same, with_guard)
                  (finish_action result s r' w3 (rw (written, same, with_guard) at h)))
        ]
      ]

  -- Whatever the write, the action and the restoration do, the clipboard has its original contents
  -- again, unless the result says that it was changed by others or could not be restored, or the
  -- check of the revision after the write fails with another error and so does the restoration by
  -- `drop`: then the result has that error, and the loss is not told.
  pub with_temporary_text_restores :
      {T : Type 0} (value : Text) (action : W → W × Result T) (w : W)
      → may_be_lost (with_temporary_text c value action w).1 ≡ false
      → (contents (with_temporary_text c value action w).0 ≡ contents w)
        ⊎ IsSwallowed c value w (with_temporary_text c value action w).1
  unfolding with_temporary_text
  with_temporary_text_restores value action w h = elim (Result-cases (c.snapshot w).1) [
    | inr (e, failed) ↦ inl (rw (failed, with_temporary_text) (law.keeps w))
    | inl ((s, r), taken) ↦ elim (Bool-cases (within_limits s)) [
      | inr past ↦ inl (rw (taken, past, with_temporary_text) (law.keeps w))
      | inl good ↦
          let guarded : with_temporary_text c value action w
              ≡ with_guard c value action s r (c.snapshot w).0 =
            rw (taken, good, with_temporary_text) refl in
          elim (with_guard_restores value action s r w taken
            (rw (taken, good, with_temporary_text) at h)) [
              | inl back ↦
                  inl (rw (taken, good, with_temporary_text) (back ∙ law.takes w s r taken))
              | inr swallowed ↦ inr (subst (λ x. IsSwallowed c value w x.1) (sym guarded) swallowed)
            ]
    ]
  ]
