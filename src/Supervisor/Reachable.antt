-- ===== src/Supervisor/Reachable.antt =====
-- apps/woof/src-tauri/src/supervisor.rs: what holds of the supervisor after any history of steps.
use woof.Prelude.{suc, ◌+◌, ◌≤◌, ◌<◌, true, false, none, List, [], ◌∷◌, ◌≡◌, arith, is_some, length}
use woof.Prelude.Word.{u64_mod}
use woof.Supervisor.Backoff.{BackoffPolicy}
use woof.Supervisor.Machine.{
  stopped, owned_healthy, external_healthy, is_restart_waiting, unhealthy_probe_limit,
}
use woof.Supervisor.Inner.{default_inner}
use woof.Supervisor.System.{System, start, has, Event, attempt_begins, step, run}
use woof.Supervisor.Invariant.{Inv, start-Inv, step-Inv}

module _ (backoff : BackoffPolicy) where
  generation-step :
      (t : System) (e : Event)
      → suc t.inner.generation < u64_mod
      → (step backoff t e).inner.generation ≤ suc t.inner.generation
  unfolding step
  generation-step t (attempt_begins bypass) b = ground arith
  generation-step t _ b = ground arith

  run-Inv :
      (t : System) (es : List Event)
      → Inv t
      → t.inner.generation + length es < u64_mod
      → Inv (run backoff t es)
  unfolding run
  run-Inv t [] v b = v
  run-Inv t (e ∷ es) v b =
      run-Inv (step backoff t e) es (step-Inv backoff t v (omega arith) e)
        (omega (arith, generation-step t e (omega arith)))

  pub reachable : (es : List Event) → length es < u64_mod → Inv (run backoff start es)
  unfolding start default_inner
  reachable es b = run-Inv start es start-Inv (omega arith)

  -- After any fewer than 2 ^ 64 steps in any order, the process id that the machine claims is the
  -- id of the child handle that it holds; the phases that say who owns a healthy daemon are right;
  -- no attempt to spawn is under way while a child is held; the unhealthy streak is below its
  -- limit; and once a shutdown is requested the phase is stopped, with no child and no attempt.
  pub run_ownership :
      (es : List Event)
      → length es < u64_mod
      → let s = (run backoff start es).inner in
        (s.machine.owned_pid ≡ s.child)
        × (s.machine.phase ≡ owned_healthy → is_some s.child ≡ true)
        × (s.machine.phase ≡ external_healthy → s.child ≡ none)
        × (s.spawning ≡ true → s.child ≡ none)
        × (s.machine.unhealthy_probe_streak < unhealthy_probe_limit)
        × (s.machine.shutdown_requested ≡ true
            → (s.machine.phase ≡ stopped) × (s.child ≡ none) × (s.spawning ≡ false))
  run_ownership es b = ground (arith, reachable es b)

  -- After any fewer than 2 ^ 64 steps in any order no wake-up is lost: while an attempt is under
  -- way, a child is held, or a restart is waited for, the task that will end this state is there
  -- and remembers the current generation, so that it is not refused as stale. The phase says that
  -- a restart is waited for exactly when a deadline is set; then no child is held and no attempt
  -- is under way.
  pub run_no_lost_wakeup :
      (es : List Event)
      → length es < u64_mod
      → let t = run backoff start es in
        (t.inner.spawning ≡ true → has t.inner.generation t.attempts ≡ true)
        × (is_some t.inner.child ≡ true → has t.inner.generation t.watchers ≡ true)
        × (is_some t.inner.restart_deadline ≡ true
            → (has t.inner.generation t.timers ≡ true)
              × (t.inner.child ≡ none)
              × (t.inner.spawning ≡ false))
        × (is_restart_waiting t.inner.machine.phase ≡ is_some t.inner.restart_deadline)
  run_no_lost_wakeup es b = ground (arith, reachable es b)
