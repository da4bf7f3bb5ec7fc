-- ===== src/Inline/Modifier.antt =====
-- crates/woof-inline/src/modifier.rs: the state machine that turns presses and releases of a
-- modifier key into inline and hold-to-talk events. A `Duration` is a number of nanoseconds, and
-- `saturating_sub` on it is `-`. A method that mutates `self` returns the new machine and the
-- events.
mod Keys
mod Machine
pub use Keys.{
  ModifierKey, fn, left_option, right_option, left_command, right_command, left_shift, right_shift,
  left_control, right_control, key_eq, key_eq_iff, key_eq_refl, is_key,
}
pub use Machine.{
  ModifierConfig, ModifierInput, ModifierEvent, inline_invoked, hold_to_talk_started,
  hold_to_talk_released, cancelled, secure_input_refused, permission_refused, PressState, TapState,
  ModifierStateMachine, is_held,
}
unfoldable pub use Machine.{new, default_config, poll, cancel, press, release, handle}
pub mod Trace
pub mod Taps
mod Examples
