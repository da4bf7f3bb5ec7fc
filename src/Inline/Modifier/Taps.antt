-- ===== src/Inline/Modifier/Taps.antt =====
-- crates/woof-inline/src/modifier.rs: what the timing of taps and holds decides.
use woof.Prelude.{
  ℕ, ◌-◌, ◌≤◌, Bool, true, false, some, List, [], ◌∷◌, ◌++◌, leb, if◌then◌else◌, ◌≡◌, arith,
}
use woof.Inline.Modifier.Keys.{ModifierKey, key_eq_refl, is_key}
use woof.Inline.Modifier.Machine.{
  ModifierConfig, ModifierInput, ModifierEvent, inline_invoked, hold_to_talk_started,
  hold_to_talk_released, ModifierStateMachine, new, handle,
}

-- The input of one key with no other modifier.
abbrev pub plain : ModifierKey → Bool → ℕ → ModifierInput
plain k pressed at = record { key = k; pressed = pressed; other_modifiers = false; at = at }

-- A press and a release of `k` with no other modifier, as `handle` sees them.
unfoldable pub tap :
    ModifierStateMachine → ModifierKey → ℕ → ℕ → ModifierStateMachine × List ModifierEvent
unfolding handle
tap m k down up =
    let (m', es) = handle m (plain k true down) in
    let (m'', fs) = handle m' (plain k false up) in (m'', es ++ fs)

-- Where one key is bound to both actions, the length of a press from rest decides alone: from the
-- hold delay on it is a whole hold, up to the maximum tap duration it invokes inline assistance,
-- and in between it does nothing.
pub tap_shared :
    (config : ModifierConfig) (k : ModifierKey) (down up : ℕ)
    → config.inline_key ≡ some k
    → config.hold_to_talk_key ≡ some k
    → (tap (new config) k down up).1 ≡ (
        if leb config.hold_delay (up - down)
        then hold_to_talk_started ∷ hold_to_talk_released ∷ []
        else if leb (up - down) config.maximum_tap_duration
        then inline_invoked ∷ []
        else [])
unfolding tap new
tap_shared config k down up i h = ground (arith, key_eq_refl k)

-- Two short taps of a key that is bound to inline assistance alone invoke it, with the second
-- release, exactly when that release comes within the double-tap interval of the first.
pub tap_double :
    (config : ModifierConfig) (k : ModifierKey) (down up down' up' : ℕ)
    → config.inline_key ≡ some k
    → is_key config.hold_to_talk_key k ≡ false
    → up - down ≤ config.maximum_tap_duration
    → up' - down' ≤ config.maximum_tap_duration
    → ((tap (new config) k down up).1 ≡ [])
      × ((tap (tap (new config) k down up).0 k down' up').1
          ≡ (if leb (up' - up) config.double_tap_interval then inline_invoked ∷ [] else []))
unfolding tap new
tap_double config k down up down' up' i h s s' = ground (arith, key_eq_refl k)
