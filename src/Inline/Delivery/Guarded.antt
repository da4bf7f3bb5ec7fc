-- ===== src/Inline/Delivery/Guarded.antt =====
-- crates/woof-inline/src/session.rs: what a delivery does to the focused element and the keyboard.
use woof.Prelude.{
  ◌≤◌, Bool, true, false, not, ◌&&◌, ◌||◌, List, [], ◌∷◌, ◌≡◌, refl, arith, is_some, Bool-cases,
  inl, inr, leb, ◌==◌,
}
use woof.Prelude.Text.{Text, is_empty}
use woof.Inline.Clipboard.{Result, ok, err, Clipboard, with_temporary_text}
use woof.Inline.Clipboard.Restoration.{Result-cases}
use woof.Inline.Delivery.Log.{
  Call, checks, replaces, is_ok, logged_target, logged_input, logged_clipboard, guarded, deliveries,
}
use woof.Inline.Delivery.{
  ReplacementAttempt, selected_text, value, value_range, unavailable, after_replace,
  FocusedTextTarget, InputInjector, ◌>>=◌, method_of, DeliveryMethod, clipboard_paste,
  types_instead, confirm_delivery, type_text, after_paste, deliver_fallback, deliver,
}
use woof.Inline.Delivery.Pasting.{pasted, paste_it, with_temporary_text-pasted}

abbrev good : {A : Type 0} → List Call → Result A → Bool
good l r = guarded l && leb (deliveries l) 1 && (not (is_ok r) || (deliveries l == 1))

module _ {W R H F P : Type 0} (whole_draft : R → Bool) (target : FocusedTextTarget W R H F P)
    (clipboard : Clipboard W) (input : InputInjector W P) where
  abbrev confirm :
      R → Text → DeliveryMethod → W × List Call → (W × List Call) × Result DeliveryMethod
  confirm =
      confirm_delivery whole_draft (logged_target target) (logged_clipboard clipboard)
        (logged_input input)

  abbrev type_it : R → Text → P → W × List Call → (W × List Call) × Result DeliveryMethod
  type_it =
      type_text whole_draft (logged_target target) (logged_clipboard clipboard) (logged_input input)

  confirm-good :
      (r : R) (s : Text) (m : DeliveryMethod) (x : W × List Call)
      → guarded x.1 ≡ true
      → deliveries x.1 ≡ 1
      → good (confirm r s m x).0.1 (confirm r s m x).1 ≡ true
  unfolding confirm_delivery
  confirm-good r s m (w, l) g d = ground arith

  type_text-good :
      (r : R) (s : Text) (p : P) (x : W × List Call)
      → guarded x.1 ≡ true
      → deliveries x.1 ≡ 0
      → good (type_it r s p x).0.1 (type_it r s p x).1 ≡ true
  unfolding type_text confirm_delivery
  type_text-good r s p (w, l) g d = ground arith

  after_paste-good :
      (r : R) (t : Text) (p : P) (x : W × List Call) (y : Result (Unit {0}))
      → pasted x.1 y ≡ true
      → let (x', y') =
          after_paste whole_draft
            (logged_target target)
            (logged_clipboard clipboard)
            (logged_input input)
            r
            t
            p
            (x, y) in
        good x'.1 y' ≡ true
  after_paste-good r t p x (ok u) h =
      confirm-good r t clipboard_paste x (ground arith) (ground arith)
  after_paste-good r t p x (err e) h = elim (Bool-cases (types_instead e)) [
    | inl instead ↦ rw instead (type_text-good r t p x (ground arith) (ground arith))
    | inr other ↦ rw other (ground arith)
  ]

  deliver_fallback-good :
      (r : R) (t : Text) (p : P) (w : W) (l : List Call)
      → guarded l ≡ true
      → deliveries l ≡ 0
      → let (x, y) =
          deliver_fallback whole_draft
            (logged_target target)
            (logged_clipboard clipboard)
            (logged_input input)
            r
            t
            p
            (w, l) in
        good x.1 y ≡ true
  unfolding deliver_fallback
  deliver_fallback-good r t p w l g d =
      let w' = (target.validate_fallback r p w).0 in
      elim (Result-cases (target.validate_fallback r p w).1) [
        | inr (e, refused) ↦ rw (refused, deliver_fallback) (ground arith)
        | inl (u, valid) ↦ elim (Bool-cases (is_empty t)) [
          | inl empty ↦
              rw (valid, empty, deliver_fallback) (type_text-good r t p (w', checks true ∷ l) g d)
          | inr full ↦
              let (x, y) =
                with_temporary_text (logged_clipboard clipboard) t
                  (paste_it whole_draft target clipboard input r p) (w', checks true ∷ l) in
              rw (valid, full, deliver_fallback)
                (after_paste-good r t p x y (
                  with_temporary_text-pasted whole_draft target clipboard input r t p w'
                    (checks true ∷ l) g d))
        ]
      ]

  fallback-good :
      (r : R) (t : Text) (h : H) (f : F) (w : W)
      → let (x, y) =
          (logged_target target).prepare_fallback r h f (w, replaces false ∷ [])
          >>= deliver_fallback whole_draft
              (logged_target target)
              (logged_clipboard clipboard)
              (logged_input input)
              r
              t in
        good x.1 y ≡ true
  fallback-good r t h f w = elim (Result-cases (target.prepare_fallback r h f w).1) [
    | inr (e, failed) ↦ rw failed refl
    | inl (p, prepared) ↦ rw prepared (
        deliver_fallback-good r t p (target.prepare_fallback r h f w).0 (replaces false ∷ []) refl
          refl)
  ]

  after_replace-good :
      (r : R) (t : Text) (h : H) (f : F) (attempt : ReplacementAttempt) (w : W)
      → let (x, y) =
          after_replace whole_draft
            (logged_target target)
            (logged_clipboard clipboard)
            (logged_input input)
            r
            t
            h
            f
            attempt
            (w, replaces (is_some (method_of attempt)) ∷ []) in
        good x.1 y ≡ true
  unfolding after_replace
  after_replace-good r t h f selected_text w = confirm-good r t _ (w, replaces true ∷ []) refl refl
  after_replace-good r t h f value w = confirm-good r t _ (w, replaces true ∷ []) refl refl
  after_replace-good r t h f value_range w = confirm-good r t _ (w, replaces true ∷ []) refl refl
  after_replace-good r t h f unavailable w = fallback-good r t h f w

  deliver-good :
      (r : R) (t : Text) (h : H) (f : F) (w : W)
      → let (x, y) =
          deliver whole_draft
            (logged_target target)
            (logged_clipboard clipboard)
            (logged_input input)
            false
            r
            t
            h
            f
            (w, []) in
        good x.1 y ≡ true
  unfolding deliver
  deliver-good r t h f w =
      let w1 = (target.validate r f w).0 in
      let w2 = (target.replace r t f w1).0 in
      elim (Result-cases (target.validate r f w).1) [
        | inr (e, refused) ↦ rw (refused, deliver) refl
        | inl (u, valid) ↦ elim (Result-cases (target.replace r t f w1).1) [
          | inr (e, failed) ↦ rw (valid, failed, deliver) refl
          | inl (attempt, tried) ↦
              rw (valid, tried, deliver) (after_replace-good r t h f attempt w2)
        ]
      ]

  -- However the element, the clipboard and the keyboard answer: in a delivery every paste and all
  -- typing comes directly after a check of the fallback that succeeded, the text is delivered at most
  -- once, and exactly once if the delivery succeeds.
  pub deliver-guarded :
      (is_released : Bool) (r : R) (t : Text) (h : H) (f : F) (w : W)
      → let (x, y) =
          deliver whole_draft
            (logged_target target)
            (logged_clipboard clipboard)
            (logged_input input)
            is_released
            r
            t
            h
            f
            (w, []) in
        (guarded x.1 ≡ true)
        × (deliveries x.1 ≤ 1)
        × (not (is_ok y) || (deliveries x.1 == 1) ≡ true)
  unfolding deliver
  deliver-guarded is_released r t h f w = elim (Bool-cases is_released) [
    | inl over ↦ rw (over, deliver) (refl, omega arith, refl)
    | inr active ↦
        rw active (let k = deliver-good r t h f w in (ground arith, ground arith, ground arith))
  ]
