-- ===== src/Inline/Modifier/Machine.antt =====
-- crates/woof-inline/src/modifier.rs: the configuration, the state and the methods of
-- `ModifierStateMachine`.
use woof.Prelude.{
  ℕ, ◌-◌, ◌*◌, Bool, true, false, not, ◌&&◌, ◌||◌, Option, none, some, List, [], ◌∷◌, leb, ltb,
  if◌then◌else◌, is_some,
}
use woof.Inline.Modifier.Keys.{ModifierKey, fn, right_option, key_eq, is_key}

pub record ModifierConfig : Type 0 where
  pub inline_key : Option ModifierKey
  pub hold_to_talk_key : Option ModifierKey
  pub double_tap_interval : ℕ
  pub maximum_tap_duration : ℕ
  pub hold_delay : ℕ

-- `Duration::from_millis`, in nanoseconds.
abbrev pub from_millis : ℕ → ℕ
from_millis n = n * 1000000

unfoldable pub default_config : ModifierConfig
default_config = record {
  inline_key = some right_option;
  hold_to_talk_key = some fn;
  double_tap_interval = from_millis 360;
  maximum_tap_duration = from_millis 210;
  hold_delay = from_millis 240;
}

pub record ModifierInput : Type 0 where
  pub key : ModifierKey
  pub pressed : Bool
  pub other_modifiers : Bool
  pub at : ℕ

pub data ModifierEvent : Type 0 where
  inline_invoked hold_to_talk_started hold_to_talk_released cancelled : ModifierEvent
  secure_input_refused permission_refused : ModifierEvent

pub record PressState : Type 0 where
  pub key : ModifierKey
  pub started_at : ℕ
  pub eligible : Bool
  pub hold_started : Bool

pub record TapState : Type 0 where
  pub key : ModifierKey
  pub released_at : ℕ

pub record ModifierStateMachine : Type 0 where
  pub config : ModifierConfig
  pub press : Option PressState
  pub last_tap : Option TapState

unfoldable pub new : ModifierConfig → ModifierStateMachine
new config = record { config = config; press = none; last_tap = none }

-- The body of `poll`, once `self.press` is there.
poll_press : PressState → ModifierStateMachine → ℕ → ModifierStateMachine × List ModifierEvent
poll_press p m now =
    if p.eligible
      && not p.hold_started
      && is_key m.config.hold_to_talk_key p.key
      && leb m.config.hold_delay (now - p.started_at)
    then (
      record m { press = some (record p { hold_started = true }); last_tap = none },
      hold_to_talk_started ∷ [],
    )
    else (m, [])

unfoldable pub poll : ModifierStateMachine → ℕ → ModifierStateMachine × List ModifierEvent
unfolding poll_press
poll m now = elim m.press [ none ↦ (m, []) | some p ↦ poll_press p m now ]

abbrev pub is_held : Option PressState → Bool
is_held none = false
is_held (some press) = press.hold_started

unfoldable pub cancel : ModifierStateMachine → ModifierStateMachine × List ModifierEvent
cancel m =
    (record m { press = none; last_tap = none }, if is_held m.press then cancelled ∷ [] else [])

abbrev pub is_press_of : Option PressState → ModifierKey → Bool
is_press_of none k = false
is_press_of (some press) k = key_eq press.key k

unfoldable pub press :
    ModifierStateMachine → ModifierInput → ModifierStateMachine × List ModifierEvent
unfolding cancel
press m input =
    if is_press_of m.press input.key
    then (m, [])
    else let r : ModifierStateMachine × List ModifierEvent =
        if is_some m.press then cancel m else (m, []) in
      let bound =
        is_key m.config.inline_key input.key || is_key m.config.hold_to_talk_key input.key in
      let last_tap = if input.other_modifiers || not bound then none else r.0.last_tap in
      let started : PressState = record {
        key = input.key;
        started_at = input.at;
        eligible = not input.other_modifiers;
        hold_started = false;
      } in
      (record (r.0) { press = if bound then some started else r.0.press; last_tap = last_tap }, r.1)

-- The end of `release`, where a short press of the inline key counts as one tap of two.
release_tap :
    PressState → ModifierStateMachine → ModifierInput → ModifierStateMachine × List ModifierEvent
release_tap p m input =
    let remember : ModifierStateMachine × List ModifierEvent =
      (record m { last_tap = some (record { key = p.key; released_at = input.at }) }, []) in
    elim m.last_tap [
      | none ↦ remember
      | some previous ↦
          if leb (input.at - previous.released_at) m.config.double_tap_interval
            && key_eq previous.key p.key
          then (record m { last_tap = none }, inline_invoked ∷ [])
          else remember
    ]

-- `release` from the taken press on; `m` has no press any more.
release_press :
    PressState → ModifierStateMachine → ModifierInput → ModifierStateMachine × List ModifierEvent
unfolding release_tap
release_press p m input =
    let held_for = input.at - p.started_at in
    let hold_starts =
      p.eligible
      && not p.hold_started
      && is_key m.config.hold_to_talk_key p.key
      && leb m.config.hold_delay held_for in
    if p.hold_started || hold_starts
    then (
      record m { last_tap = none },
      if p.hold_started
          then hold_to_talk_released ∷ []
          else hold_to_talk_started ∷ hold_to_talk_released ∷ [],
    )
    else if not p.eligible
        || input.other_modifiers
        || ltb m.config.maximum_tap_duration held_for
        || not (is_key m.config.inline_key p.key)
    then (record m { last_tap = none }, [])
    else if is_key m.config.hold_to_talk_key p.key
    then (record m { last_tap = none }, inline_invoked ∷ [])
    else release_tap p m input

unfoldable pub release :
    ModifierStateMachine → ModifierInput → ModifierStateMachine × List ModifierEvent
unfolding release_press
release m input = elim m.press [
  | none ↦ (m, [])
  | some p ↦
      if key_eq p.key input.key then release_press p (record m { press = none }) input else (m, [])
]

unfoldable pub handle :
    ModifierStateMachine → ModifierInput → ModifierStateMachine × List ModifierEvent
unfolding press release
handle m input = if input.pressed then press m input else release m input
