-- ===== src/Supervisor/Examples.antt =====
-- Runs of the supervisor, after the tests of apps/woof/src-tauri/src/supervisor.rs.
use woof.Prelude.{not, ◌<◌, true, false, ◌&&◌, none, some, List, [], ◌∷◌, ◌≡◌, refl, arith, is_some}
use woof.Prelude.Int.{pos}
use woof.Supervisor.Backoff.{delay, default_policy}
use woof.Supervisor.Machine.{
  stopped, restart_waiting, starting, owned_healthy, external_healthy, is_restart_waiting,
  unhealthy_probe_limit,
}
use woof.Supervisor.Inner.{default_inner}
use woof.Supervisor.System.{
  System, start, has, Event, attempt_begins, attempt_ends, child_ends, timer_fires, step, run,
}
use woof.Supervisor.Reachable.{run_ownership, run_no_lost_wakeup, reachable}
use woof.Supervisor.Lifecycle.{restart_completes}
use woof.Supervisor.Windows.{run_one_recovery}
use woof.Supervisor.Publish.{publish}

-- The daemon is spawned, and ends.
abbrev crash : List Event
crash = attempt_begins true ∷ attempt_ends 1 (some 42) 0 ∷ child_ends 1 (some (pos 1)) none 7 ∷ []

abbrev crashed : System
crashed = run default_policy start crash

crash_waits :
    (crashed.inner.restart_deadline ≡ some 500000007)
    × (crashed.inner.machine.phase ≡ restart_waiting)
    × (crashed.timers ≡ 2 ∷ [])
unfolding run step start default_inner default_policy delay has
crash_waits = (refl, refl, refl)

run_ownership_example :
    let s = crashed.inner in
    (s.machine.owned_pid ≡ s.child)
    × (s.machine.phase ≡ owned_healthy → is_some s.child ≡ true)
    × (s.machine.phase ≡ external_healthy → s.child ≡ none)
    × (s.spawning ≡ true → s.child ≡ none)
    × (s.machine.unhealthy_probe_streak < unhealthy_probe_limit)
    × (s.machine.shutdown_requested ≡ true
        → (s.machine.phase ≡ stopped) × (s.child ≡ none) × (s.spawning ≡ false))
run_ownership_example = run_ownership default_policy crash (omega arith)

run_no_lost_wakeup_example :
    let t = crashed in
    (t.inner.spawning ≡ true → has t.inner.generation t.attempts ≡ true)
    × (is_some t.inner.child ≡ true → has t.inner.generation t.watchers ≡ true)
    × (is_some t.inner.restart_deadline ≡ true
        → (has t.inner.generation t.timers ≡ true)
          × (t.inner.child ≡ none)
          × (t.inner.spawning ≡ false))
    × (is_restart_waiting t.inner.machine.phase ≡ is_some t.inner.restart_deadline)
run_no_lost_wakeup_example = run_no_lost_wakeup default_policy crash (omega arith)

restart_completes_example :
    let t' =
      run default_policy crashed
        (timer_fires 2 ∷ attempt_begins true ∷ attempt_ends 3 (some 43) 99 ∷ []) in
    (t'.inner.child ≡ some 43)
    × (t'.inner.machine.owned_pid ≡ some 43)
    × (t'.inner.machine.phase ≡ starting)
    × (t'.inner.restart_deadline ≡ none)
    × (t'.inner.spawning ≡ false)
    × (has 3 t'.watchers ≡ true)
unfolding run step start default_inner has
restart_completes_example =
    restart_completes default_policy crashed 43 99 (reachable default_policy crash (omega arith))
      refl (omega arith)

run_one_recovery_example :
    let s = crashed.inner in
    let shown = (publish s none true).1 in
    (s.health_recovery_visible && s.permission_recovery_visible ≡ false)
    × (shown.show_health && shown.show_permission ≡ false)
    × (shown.show_health && s.permission_recovery_visible && not shown.hide_permission ≡ false)
    × (shown.show_permission && s.health_recovery_visible && not shown.hide_health ≡ false)
run_one_recovery_example = run_one_recovery default_policy crash none true
