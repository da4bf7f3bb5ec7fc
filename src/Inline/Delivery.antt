-- ===== src/Inline/Delivery.antt =====
-- crates/woof-inline/src/session.rs: `InlineSession`, its delivery and its end. The focused element
-- and the keyboard are the traits `FocusedTextTarget` and `InputInjector`, on a world of any type W.
-- What a read of the element, a hint, a focus and a fallback hold is of any types.
pub mod Log
pub mod Pasting
pub mod Guarded
use woof.Prelude.{ℕ, Bool, true, false, Option, none, some, List, [], ◌∷◌, if◌then◌else◌}
use woof.Prelude.Text.{Text, is_empty}
use woof.Inline.Clipboard.{
  InlineError, released, clipboard_snapshot, clipboard_limit, clipboard_write, input_injection,
  Result, ok, err, Clipboard, with_temporary_text,
}

pub data ReplacementAttempt : Type 0 where
  selected_text value value_range unavailable : ReplacementAttempt

pub data DeliveryMethod : Type 0 where
  accessibility_selected_text accessibility_value accessibility_value_range : DeliveryMethod
  clipboard_paste unicode_keystrokes : DeliveryMethod

pub record FocusedTextTarget (W R H F P : Type 0) : Type 0 where
  pub validate : R → F → W → W × Result (Unit {0})
  pub replace : R → Text → F → W → W × Result ReplacementAttempt
  pub prepare_fallback : R → H → F → W → W × Result P
  pub validate_fallback : R → P → W → W × Result (Unit {0})
  pub confirm_whole_draft : Text → W → W × Result (Unit {0})
  pub release : W → W

pub record InputInjector (W P : Type 0) : Type 0 where
  pub paste : P → W → W × Result (Unit {0})
  pub type_unicode : P → Text → W → W × Result (Unit {0})

-- `?`: the next part of a body, where this one succeeded.
infixl 1 ◌>>=◌
abbrev pub ◌>>=◌ : {W A B : Type 0} → W × Result A → (A → W → W × Result B) → W × Result B
(w, ok a) >>= next = next a w
(w, err e) >>= next = (w, err e)

abbrev pub method_of : ReplacementAttempt → Option DeliveryMethod
method_of selected_text = some accessibility_selected_text
method_of value = some accessibility_value
method_of value_range = some accessibility_value_range
method_of unavailable = none

-- The errors of the clipboard or the paste after which the text is typed.
abbrev pub types_instead : InlineError → Bool
types_instead clipboard_snapshot = true
types_instead clipboard_limit = true
types_instead clipboard_write = true
types_instead input_injection = true
types_instead _ = false

module _ {W R H F P : Type 0} (whole_draft : R → Bool) (target : FocusedTextTarget W R H F P)
    (clipboard : Clipboard W) (input : InputInjector W P) where
  unfoldable pub confirm_delivery : R → Text → DeliveryMethod → W → W × Result DeliveryMethod
  confirm_delivery expected replacement method w =
      if whole_draft expected
      then (target.confirm_whole_draft replacement w >>= (λ _ w'. (w', ok method)))
      else (w, ok method)

  -- The fallback is validated, and the text is typed.
  unfoldable pub type_text : R → Text → P → W → W × Result DeliveryMethod
  unfolding confirm_delivery
  type_text expected replacement fallback w =
      target.validate_fallback expected fallback w >>= (λ _ w1.
        input.type_unicode fallback replacement w1
        >>= (λ _ w2. confirm_delivery expected replacement unicode_keystrokes w2))

  -- The fallback is validated, and the clipboard is pasted.
  unfoldable pub paste_text : R → P → W → W × Result (Unit {0})
  paste_text expected fallback w =
      target.validate_fallback expected fallback w >>= (λ _ w1. input.paste fallback w1)

  -- The `match` on the result of `with_temporary_text`.
  abbrev pub after_paste : R → Text → P → W × Result (Unit {0}) → W × Result DeliveryMethod
  after_paste expected replacement fallback (w, ok _) =
      confirm_delivery expected replacement clipboard_paste w
  after_paste expected replacement fallback (w, err e) =
      if types_instead e then type_text expected replacement fallback w else (w, err e)

  unfoldable pub deliver_fallback : R → Text → P → W → W × Result DeliveryMethod
  unfolding type_text paste_text confirm_delivery
  deliver_fallback expected replacement fallback w =
      target.validate_fallback expected fallback w >>= (λ _ w1.
        if is_empty replacement
        then type_text expected replacement fallback w1
        else after_paste expected replacement fallback
            (with_temporary_text clipboard replacement (paste_text expected fallback) w1))

  -- `deliver` from the replacement through Accessibility on.
  unfoldable pub after_replace :
      R → Text → H → F → ReplacementAttempt → W → W × Result DeliveryMethod
  unfolding confirm_delivery deliver_fallback
  after_replace expected replacement hint focus attempt w = elim (method_of attempt) [
    | some method ↦ confirm_delivery expected replacement method w
    | none ↦
        target.prepare_fallback expected hint focus w
        >>= (λ fallback w'. deliver_fallback expected replacement fallback w')
  ]

  -- `deliver`, told whether the session was released.
  unfoldable pub deliver : Bool → R → Text → H → F → W → W × Result DeliveryMethod
  unfolding after_replace
  deliver is_released expected replacement hint focus w =
      if is_released
      then (w, err released)
      else (target.validate expected focus w >>= (λ _ w1.
          target.replace expected replacement focus w1
          >>= (λ attempt w2. after_replace expected replacement hint focus attempt w2)))

  -- `cleanup`, which `cancel` and `drop` call; the flag is `released`.
  unfoldable pub cleanup : Bool → W → Bool × W
  cleanup is_released w = if is_released then (true, w) else (true, target.release w)
