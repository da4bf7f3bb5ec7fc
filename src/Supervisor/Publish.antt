-- ===== src/Supervisor/Publish.antt =====
-- apps/woof/src-tauri/src/supervisor.rs: `publish_runtime_state` and `publish_database_recovery`,
-- the parts that run while the lock is held.
use woof.Prelude.{Bool, true, false, not, ◌&&◌, Option, none, some, if◌then◌else◌, is_some}
use woof.Supervisor.Recovery.{
  HealthUiState, HealthUiState-discrete, CaptureUiState, CaptureUiState-discrete,
  RecoveryVisibility, effective_capture_state, next_recovery_visibility, health_ui_state,
}
use mathlib.Core.Bool.{decide}
use woof.Supervisor.Inner.{RecoveryReason, SupervisorInner}

-- `last != Some(state)` for the two kinds of state that are sent to the windows.
abbrev pub changed {ℓ} : {A : Type ℓ} → Discrete A → Option A → A → Bool
changed dec none a = true
changed dec (some b) a = not (decide (dec b a))

-- What `publish_runtime_state` then sends to the windows, and does to them.
pub record RuntimePublication : Type 0 where
  pub emit_capture : Option CaptureUiState
  pub emit_health : Option HealthUiState
  pub show_health : Bool
  pub hide_health : Bool
  pub show_permission : Bool
  pub hide_permission : Bool

-- The locked part of `publish_runtime_state`.
unfoldable pub publish :
    SupervisorInner → Option CaptureUiState → Bool → SupervisorInner × RuntimePublication
unfolding effective_capture_state next_recovery_visibility health_ui_state
publish s observed_capture_state permission_recovery_allowed =
    let observed =
      if is_some observed_capture_state then observed_capture_state else s.observed_capture_state in
    let capture_state = effective_capture_state s.machine.phase observed in
    let previous : RecoveryVisibility = record {
      health = s.health_recovery_visible;
      permission = s.permission_recovery_visible;
    } in
    let visibility =
      next_recovery_visibility previous s.machine capture_state permission_recovery_allowed in
    let health_state = health_ui_state s.machine capture_state visibility.health in
    (
      record s {
        observed_capture_state = observed;
        last_emitted_capture_state = some capture_state;
        last_emitted_health_state = some health_state;
        health_recovery_visible = visibility.health;
        permission_recovery_visible = visibility.permission;
      },
      record {
        emit_capture =
            if changed CaptureUiState-discrete s.last_emitted_capture_state capture_state
            then some capture_state
            else none;
        emit_health =
            if changed HealthUiState-discrete s.last_emitted_health_state health_state
            then some health_state
            else none;
        show_health = not previous.health && visibility.health;
        hide_health = previous.health && not visibility.health;
        show_permission = not previous.permission && visibility.permission;
        hide_permission = previous.permission && not visibility.permission;
      },
    )

-- What `publish_database_recovery` then does: an event to the windows, and the window for a failing
-- daemon is shown, whatever the two flags of the recovery windows are.
pub record DatabasePublication : Type 0 where
  pub emit_database_reset : Option RecoveryReason
  pub show_health_window : Bool

unfoldable pub announce : SupervisorInner → RecoveryReason → SupervisorInner × DatabasePublication
announce s reason =
    if is_some s.announced_database_recovery
    then (s, record { emit_database_reset = none; show_health_window = false })
    else (
      record s { announced_database_recovery = some reason },
      record { emit_database_reset = some reason; show_health_window = true },
    )
