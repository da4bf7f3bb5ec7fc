-- ===== src/Supervisor/Lifecycle.antt =====
-- apps/woof/src-tauri/src/supervisor.rs: crashes and restarts, step by step.
use woof.Prelude.{
  ℕ, suc, ◌+◌, ◌<◌, true, false, Option, none, some, [], ◌∷◌, ◌≡◌, arith, is_some, min,
}
use woof.Prelude.Int.{ℤ}
use woof.Prelude.Word.{u64_mod, u32_max}
use woof.Supervisor.Backoff.{BackoffPolicy, delay}
use woof.Supervisor.Machine.{restart_waiting, starting}
use woof.Supervisor.Inner.{SupervisorInner, handle_terminated}
use woof.Supervisor.System.{System, has, attempt_begins, attempt_ends, timer_fires, step, run}
use woof.Supervisor.Invariant.{Inv}

module _ (backoff : BackoffPolicy) where
  -- The end of the current child, while no shutdown is requested, gives the child up, waits for a
  -- restart whose delay follows from the number of failures in a row, records the exit, and moves
  -- to a new generation, which makes the watcher of the old one stale.
  pub child_crash :
      (s : SupervisorInner) (exit_code exit_signal : Option ℤ) (now : ℕ)
      → s.machine.shutdown_requested ≡ false
      → suc s.generation < u64_mod
      → let wait = delay backoff (min u32_max (s.machine.consecutive_failures + 1)) in
        let (s', scheduled) = handle_terminated backoff s s.generation exit_code exit_signal now in
        (scheduled ≡ some (suc s.generation, wait))
        × (s'.restart_deadline ≡ some (now + wait))
        × (s'.child ≡ none)
        × (s'.machine.owned_pid ≡ none)
        × (s'.machine.phase ≡ restart_waiting)
        × (s'.machine.last_exit_code ≡ exit_code)
        × (s'.machine.last_exit_signal ≡ exit_signal)
        × (s'.generation ≡ suc s.generation)
  unfolding handle_terminated
  child_crash s exit_code exit_signal now up b = ground arith

  -- From any state that waits for a restart, the timer, the attempt that it begins and a
  -- successful spawn lead to a new child, which is held and watched and whose id is claimed.
  pub restart_completes :
      (t : System) (pid now : ℕ)
      → Inv t
      → is_some t.inner.restart_deadline ≡ true
      → suc t.inner.generation < u64_mod
      → let g = suc t.inner.generation in
        let t' = run backoff t (
          timer_fires t.inner.generation
          ∷ attempt_begins true
          ∷ attempt_ends g (some pid) now
          ∷ []) in
        (t'.inner.child ≡ some pid)
        × (t'.inner.machine.owned_pid ≡ some pid)
        × (t'.inner.machine.phase ≡ starting)
        × (t'.inner.restart_deadline ≡ none)
        × (t'.inner.spawning ≡ false)
        × (has g t'.watchers ≡ true)
  unfolding run step has
  restart_completes t pid now v waits b = ground arith
