-- ===== src/Inline/Modifier/Trace.antt =====
-- crates/woof-inline/src/modifier.rs: the events of whole histories of calls of `handle`, `poll`
-- and `cancel`.
use woof.Prelude.{
  ℕ, Bool, true, false, Option, none, some, List, [], ◌∷◌, ◌++◌, ◌≡◌, ◌∙◌, inl, inr, Option-cases,
  refl, arith,
}
use woof.Inline.Modifier.Machine.{
  ModifierConfig, ModifierInput, ModifierEvent, inline_invoked, hold_to_talk_started,
  hold_to_talk_released, cancelled, ModifierStateMachine, is_held, new, poll, cancel, handle,
}

pub data Call : Type 0 where
  handled : ModifierInput → Call
  polled : ℕ → Call
  cancels : Call

unfoldable pub call : ModifierStateMachine → Call → ModifierStateMachine × List ModifierEvent
unfolding handle poll cancel
call m (handled input) = handle m input
call m (polled now) = poll m now
call m cancels = cancel m

unfoldable pub run : ModifierStateMachine → List Call → ModifierStateMachine × List ModifierEvent
run m [] = (m, [])
run m (c ∷ cs) = let (m', events) = call m c in let (m'', rest) = run m' cs in (m'', events ++ rest)

-- What a listener accepts, told whether a hold is on; the answer is whether one is on after it.
unfoldable pub listen : Bool → ModifierEvent → Option Bool
listen false hold_to_talk_started = some true
listen false inline_invoked = some false
listen true hold_to_talk_released = some false
listen true cancelled = some false
listen _ _ = none

unfoldable pub listen_all : Bool → List ModifierEvent → Option Bool
listen_all held [] = some held
listen_all held (e ∷ es) = elim (listen held e) [ none ↦ none | some held' ↦ listen_all held' es ]

listen_all-append :
    (held : Bool) (es fs : List ModifierEvent) {held' : Bool}
    → listen_all held es ≡ some held'
    → listen_all held (es ++ fs) ≡ listen_all held' fs
unfolding listen_all
listen_all-append held [] fs h = ground arith
listen_all-append held (e ∷ es) fs {held'} h = elim (Option-cases (listen held e)) [
  | inl refused ↦ absurd (ground arith)
  | inr (b, heard) ↦ rw (heard, listen_all) (listen_all-append b es fs (ground arith))
]

listen-call :
    (m : ModifierStateMachine) (c : Call)
    → listen_all (is_held m.press) (call m c).1 ≡ some (is_held (call m c).0.press)
unfolding listen_all listen call
listen-call m (handled input) = ground arith
listen-call m (polled now) = ground arith
listen-call m cancels = ground arith

listen-run :
    (m : ModifierStateMachine) (cs : List Call)
    → listen_all (is_held m.press) (run m cs).1 ≡ some (is_held (run m cs).0.press)
unfolding run
listen-run m [] = unfold listen_all in refl
listen-run m (c ∷ cs) =
    let next = (call m c).0 in
    listen_all-append (is_held m.press) (call m c).1 (run next cs).1 (listen-call m c)
    ∙ listen-run next cs

config-call : (m : ModifierStateMachine) (c : Call) → (call m c).0.config ≡ m.config
unfolding call
config-call m (handled input) = ground arith
config-call m (polled now) = ground arith
config-call m cancels = refl

config-run : (m : ModifierStateMachine) (cs : List Call) → (run m cs).0.config ≡ m.config
unfolding run
config-run m [] = refl
config-run m (c ∷ cs) = config-run (call m c).0 cs ∙ config-call m c

-- Whatever calls a new machine sees, its events form a well-bracketed history: a hold is
-- started only when none is on, released or cancelled only when one is on, no inline invocation
-- falls inside a hold, and at the end a hold is on for the listener exactly when the machine's
-- press has started one. The configuration never changes.
pub run-listen :
    (config : ModifierConfig) (cs : List Call)
    → (listen_all false (run (new config) cs).1 ≡ some (is_held (run (new config) cs).0.press))
      × ((run (new config) cs).0.config ≡ config)
unfolding new
run-listen config cs = (listen-run (new config) cs, config-run (new config) cs)
