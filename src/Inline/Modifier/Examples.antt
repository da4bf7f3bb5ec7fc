-- ===== src/Inline/Modifier/Examples.antt =====
-- Runs of the modifier state machine, after the tests of crates/woof-inline/src/modifier.rs.
use woof.Prelude.{ℕ, ◌*◌, true, false, none, some, List, [], ◌∷◌, ◌≡◌, refl}
use woof.Prelude.Text.{codes, trim, is_whitespace, text_eq}
use woof.Inline.Modifier.Keys.{fn, right_option, key_eq, from_str}
use woof.Inline.Modifier.Machine.{
  inline_invoked, hold_to_talk_started, cancelled, is_held, new, default_config,
}
use woof.Inline.Modifier.Trace.{Call, handled, polled, cancels, call, run, listen_all, run-listen}
use woof.Inline.Modifier.Taps.{plain}

abbrev ms : ℕ → ℕ
ms n = n * 1000000

-- Two quick taps, then a hold that is cancelled.
abbrev calls : List Call
calls =
    handled (plain right_option true (ms 0))
    ∷ handled (plain right_option false (ms 60))
    ∷ handled (plain right_option true (ms 180))
    ∷ handled (plain right_option false (ms 230))
    ∷ handled (plain fn true (ms 300))
    ∷ polled (ms 540)
    ∷ cancels
    ∷ cancels
    ∷ []

calls_events :
    (run (new default_config) calls).1 ≡ inline_invoked ∷ hold_to_talk_started ∷ cancelled ∷ []
unfolding run new default_config key_eq call
calls_events = refl

run-listen_example :
    (listen_all false (run (new default_config) calls).1
      ≡ some (is_held (run (new default_config) calls).0.press))
    × ((run (new default_config) calls).0.config ≡ default_config)
run-listen_example = run-listen default_config calls

fn_spelled : from_str (codes " fn") ≡ some fn
unfolding from_str trim is_whitespace text_eq
fn_spelled = refl

hyphen_refused : from_str (codes "left-option") ≡ none
unfolding from_str trim is_whitespace text_eq
hyphen_refused = refl
