-- ===== src/Supervisor/Recovery.antt =====
-- apps/woof/src-tauri/src/supervisor.rs: what the desktop app shows of the daemon's state, and the
-- two recovery windows.
use woof.Prelude.{
  ℕ, Bool, true, false, not, ◌&&◌, ◌||◌, Option, none, some, leb, ltb, ◌==◌, if◌then◌else◌,
}
use woof.Supervisor.Machine.{
  Phase, stopped, checking, owned_healthy, external_healthy, unhealthy, restart_waiting, is_healthy,
  SupervisorMachine, stable_health_probe_limit,
}

pub data HealthUiState : Type 0 where
  healthy starting degraded offline : HealthUiState

pub data CaptureUiState : Type 0 where
  active paused starting permission_revoked error : CaptureUiState

pub HealthUiState-discrete : Discrete HealthUiState
HealthUiState-discrete = hlevel

pub CaptureUiState-discrete : Discrete CaptureUiState
CaptureUiState-discrete = hlevel

abbrev pub recovery_failure_limit : ℕ
recovery_failure_limit = 3

abbrev pub recovery_unhealthy_probe_limit : ℕ
recovery_unhealthy_probe_limit = 2

pub record RecoveryVisibility : Type 0 where
  pub health : Bool
  pub permission : Bool

unfoldable pub effective_capture_state : Phase → Option CaptureUiState → CaptureUiState
effective_capture_state owned_healthy none = CaptureUiState.starting
effective_capture_state owned_healthy (some c) = c
effective_capture_state external_healthy none = CaptureUiState.starting
effective_capture_state external_healthy (some c) = c
effective_capture_state checking _ = CaptureUiState.starting
effective_capture_state Phase.starting _ = CaptureUiState.starting
effective_capture_state _ _ = error

abbrev pub is_revoked : CaptureUiState → Bool
is_revoked permission_revoked = true
is_revoked _ = false

abbrev pub is_unhealthy : Phase → Bool
is_unhealthy unhealthy = true
is_unhealthy _ = false

abbrev pub stably_restored : SupervisorMachine → Bool
stably_restored m =
    is_healthy m.phase
    && leb stable_health_probe_limit m.healthy_probe_streak
    && m.consecutive_failures == 0

abbrev pub sustained_failure : SupervisorMachine → Bool
sustained_failure m =
    not (is_healthy m.phase)
    && (leb recovery_failure_limit m.consecutive_failures
        || is_unhealthy m.phase && leb recovery_unhealthy_probe_limit m.unhealthy_probe_streak)

unfoldable pub next_recovery_visibility :
    RecoveryVisibility → SupervisorMachine → CaptureUiState → Bool → RecoveryVisibility
next_recovery_visibility current m capture_state permission_recovery_allowed =
    let health =
      if stably_restored m then false else if sustained_failure m then true else current.health in
    record {
      health = health;
      permission =
          not health
          && permission_recovery_allowed
          && (if is_healthy m.phase then is_revoked capture_state else current.permission);
    }

abbrev pub shown : CaptureUiState → HealthUiState
shown active = healthy
shown paused = healthy
shown CaptureUiState.starting = HealthUiState.starting
shown permission_revoked = degraded
shown error = degraded

-- The arm of `health_ui_state` for a healthy phase.
abbrev health_shown : SupervisorMachine → CaptureUiState → Bool → HealthUiState
health_shown m capture_state health_recovery_visible =
    if health_recovery_visible
      && (ltb m.healthy_probe_streak stable_health_probe_limit || ltb 0 m.consecutive_failures)
    then HealthUiState.starting
    else shown capture_state

-- The `match` of `health_ui_state` on the phase.
health_by_phase : Phase → SupervisorMachine → CaptureUiState → Bool → HealthUiState
health_by_phase owned_healthy m c visible = health_shown m c visible
health_by_phase external_healthy m c visible = health_shown m c visible
health_by_phase checking m c visible = HealthUiState.starting
health_by_phase Phase.starting m c visible = HealthUiState.starting
health_by_phase unhealthy m c visible = degraded
health_by_phase restart_waiting m c visible = if visible then offline else HealthUiState.starting
health_by_phase stopped m c visible = offline

unfoldable pub health_ui_state : SupervisorMachine → CaptureUiState → Bool → HealthUiState
unfolding health_by_phase
health_ui_state m c visible = health_by_phase m.phase m c visible
