-- ===== src/Supervisor/Windows.antt =====
-- apps/woof/src-tauri/src/supervisor.rs: the flags of the two recovery windows, and the probes
-- that lead to them.
use woof.Prelude.{
  ℕ, zero, suc, ◌+◌, ◌≤◌, Bool, true, false, not, ◌&&◌, Option, List, [], ◌∷◌, ◌≡◌, refl, arith,
  is_some, if◌then◌else◌, leb,
}
use woof.Supervisor.Backoff.{BackoffPolicy}
use woof.Supervisor.Machine.{
  SupervisorMachine, ProbeAction, idle, spawn, restart_owned, observe_health,
  stable_health_probe_limit, is_restart_waiting, is_healthy,
}
use woof.Supervisor.Inner.{SupervisorInner, default_inner}
use woof.Supervisor.Recovery.{CaptureUiState, next_recovery_visibility}
use woof.Supervisor.Publish.{publish}
use woof.Supervisor.System.{System, start, Event, attempt_begins, step, run}

-- The machine after each of some unhealthy probes in a row, with the actions asked for.
unfoldable pub unhealthy_probes : ℕ → SupervisorMachine → SupervisorMachine × List ProbeAction
unhealthy_probes zero m = (m, [])
unhealthy_probes (suc n) m =
    let (m', action) = observe_health m false in
    let (m'', actions) = unhealthy_probes n m' in (m'', action ∷ actions)

-- Of three unhealthy probes in a row, with none before them, the first two ask for nothing. The
-- third asks to restart the daemon if the app owns it, for nothing if a restart is waited for,
-- and else to spawn one; and the count begins anew.
pub unhealthy_probes_act :
    (m : SupervisorMachine)
    → m.shutdown_requested ≡ false
    → m.unhealthy_probe_streak ≡ 0
    → let (m', actions) = unhealthy_probes 3 m in
      (actions
        ≡ idle
          ∷ idle
          ∷ (if is_some m.owned_pid
              then restart_owned
              else if is_restart_waiting m.phase
              then idle
              else spawn)
          ∷ [])
      × (m'.unhealthy_probe_streak ≡ 0)
      × (is_healthy m'.phase ≡ false)
unfolding unhealthy_probes observe_health
unhealthy_probes_act m up h = ground arith

-- The machine after some healthy probes in a row.
unfoldable pub healthy_probes : ℕ → SupervisorMachine → SupervisorMachine
healthy_probes zero m = m
healthy_probes (suc n) m = healthy_probes n (observe_health m true).0

-- Failures are forgotten exactly when the healthy streak reaches its limit: after `n` more healthy
-- probes the count of failures in a row is as before, or 0 if the streak is then long enough.
pub healthy_probes_reset :
    (n : ℕ) (m : SupervisorMachine)
    → m.shutdown_requested ≡ false
    → m.healthy_probe_streak + suc n ≤ 255
    → (healthy_probes (suc n) m).consecutive_failures ≡ (
        if leb stable_health_probe_limit (m.healthy_probe_streak + suc n)
        then 0
        else m.consecutive_failures)
unfolding healthy_probes observe_health
healthy_probes_reset zero m up b = ground arith
healthy_probes_reset (suc n) m up b =
    ground (arith, healthy_probes_reset n (observe_health m true).0)

abbrev both_visible : SupervisorInner → Bool
both_visible s = s.health_recovery_visible && s.permission_recovery_visible

publish-apart :
    (s : SupervisorInner) (observed : Option CaptureUiState) (allowed : Bool)
    → both_visible s ≡ false
    → let shown = (publish s observed allowed).1 in
      (shown.show_health && shown.show_permission ≡ false)
      × (shown.show_health && s.permission_recovery_visible && not shown.hide_permission ≡ false)
      × (shown.show_permission && s.health_recovery_visible && not shown.hide_health ≡ false)
unfolding publish next_recovery_visibility
publish-apart s observed allowed h = ground arith

module _ (backoff : BackoffPolicy) where
  windows-step :
      (t : System) (e : Event)
      → both_visible t.inner ≡ false
      → both_visible (step backoff t e).inner ≡ false
  unfolding step
  windows-step t (attempt_begins bypass) h = ground arith
  windows-step t _ h = ground arith

  windows-run :
      (t : System) (es : List Event)
      → both_visible t.inner ≡ false
      → both_visible (run backoff t es).inner ≡ false
  unfolding run
  windows-run t [] h = h
  windows-run t (e ∷ es) h = windows-run (step backoff t e) es (windows-step t e h)

  -- After any steps at all, the flags for the recovery of the daemon and of a permission are not both
  -- set; and of the two windows `publish_runtime_state` then shows one at most, and hides the other
  -- if its flag was set.
  pub run_one_recovery :
      (es : List Event) (observed : Option CaptureUiState) (allowed : Bool)
      → let s = (run backoff start es).inner in
        let shown = (publish s observed allowed).1 in
        (s.health_recovery_visible && s.permission_recovery_visible ≡ false)
        × (shown.show_health && shown.show_permission ≡ false)
        × (shown.show_health && s.permission_recovery_visible && not shown.hide_permission ≡ false)
        × (shown.show_permission && s.health_recovery_visible && not shown.hide_health ≡ false)
  unfolding start default_inner
  run_one_recovery es observed allowed =
      let apart = windows-run start es refl in
      let (one, health, permission) =
        publish-apart (run backoff start es).inner observed allowed apart in
      (apart, one, health, permission)
