-- ===== src/Supervisor/Machine.antt =====
-- apps/woof/src-tauri/src/supervisor.rs: `SupervisorMachine`, the bookkeeping of one daemon. A
-- method that mutates `self` returns the new machine, with its result if it has one.
use woof.Prelude.{ℕ, Bool, true, false, not, Option, none, some, leb, ltb, if◌then◌else◌, is_some}
use woof.Prelude.Int.{ℤ}
use woof.Prelude.Word.{saturating_add, u8_max, u32_max}
use woof.Supervisor.Backoff.{BackoffPolicy, delay}

abbrev pub unhealthy_probe_limit : ℕ
unhealthy_probe_limit = 3

abbrev pub stable_health_probe_limit : ℕ
stable_health_probe_limit = 3

pub data Phase : Type 0 where
  stopped checking starting owned_healthy external_healthy unhealthy restart_waiting : Phase

abbrev pub is_restart_waiting : Phase → Bool
is_restart_waiting restart_waiting = true
is_restart_waiting _ = false

-- `matches!(phase, OwnedHealthy | ExternalHealthy)`.
abbrev pub is_healthy : Phase → Bool
is_healthy owned_healthy = true
is_healthy external_healthy = true
is_healthy _ = false

pub data ProbeAction : Type 0 where
  idle spawn restart_owned : ProbeAction

pub record SupervisorMachine : Type 0 where
  pub phase : Phase
  pub owned_pid : Option ℕ
  pub restart_count : ℕ  -- u32
  pub consecutive_failures : ℕ  -- u32
  pub healthy_probe_streak : ℕ  -- u8
  pub unhealthy_probe_streak : ℕ  -- u8
  pub last_exit_code : Option ℤ
  pub last_exit_signal : Option ℤ
  pub shutdown_requested : Bool

unfoldable pub default_machine : SupervisorMachine
default_machine = record {
  phase = stopped;
  owned_pid = none;
  restart_count = 0;
  consecutive_failures = 0;
  healthy_probe_streak = 0;
  unhealthy_probe_streak = 0;
  last_exit_code = none;
  last_exit_signal = none;
  shutdown_requested = false;
}

unfoldable pub begin_check : SupervisorMachine → SupervisorMachine
begin_check m = if not m.shutdown_requested then record m { phase = checking } else m

unfoldable pub spawned : SupervisorMachine → ℕ → SupervisorMachine
spawned m pid = record m {
  phase = starting;
  owned_pid = some pid;
  healthy_probe_streak = 0;
  unhealthy_probe_streak = 0;
}

-- The branch of `observe_health` for a healthy probe.
observe_healthy : SupervisorMachine → SupervisorMachine
observe_healthy m =
    let streak = saturating_add u8_max m.healthy_probe_streak 1 in
    record m {
      unhealthy_probe_streak = 0;
      healthy_probe_streak = streak;
      phase = if is_some m.owned_pid then owned_healthy else external_healthy;
      consecutive_failures =
          if leb stable_health_probe_limit streak then 0 else m.consecutive_failures;
    }

-- The branch for an unhealthy probe.
observe_unhealthy : SupervisorMachine → SupervisorMachine × ProbeAction
observe_unhealthy m =
    let streak = saturating_add u8_max m.unhealthy_probe_streak 1 in
    let phase = if is_restart_waiting m.phase then m.phase else unhealthy in
    let t = record m { healthy_probe_streak = 0; unhealthy_probe_streak = streak; phase = phase } in
    if ltb streak unhealthy_probe_limit then (t, idle) else (
      record t { unhealthy_probe_streak = 0 },
      if is_some m.owned_pid
          then restart_owned
          else if is_restart_waiting phase
          then idle
          else spawn,
    )

unfoldable pub observe_health : SupervisorMachine → Bool → SupervisorMachine × ProbeAction
unfolding observe_healthy observe_unhealthy
observe_health m healthy =
    if m.shutdown_requested
    then (m, idle)
    else if healthy
    then (observe_healthy m, idle)
    else observe_unhealthy m

unfoldable pub record_failure :
    SupervisorMachine → BackoffPolicy → Option ℤ → Option ℤ → SupervisorMachine × Option ℕ
record_failure m policy exit_code exit_signal =
    let t = record m {
      owned_pid = none;
      healthy_probe_streak = 0;
      unhealthy_probe_streak = 0;
      last_exit_code = exit_code;
      last_exit_signal = exit_signal;
    } in
    let failures = saturating_add u32_max m.consecutive_failures 1 in
    if m.shutdown_requested then (record t { phase = stopped }, none) else (
      record t {
        consecutive_failures = failures;
        restart_count = saturating_add u32_max m.restart_count 1;
        phase = restart_waiting;
      },
      some (delay policy failures),
    )

unfoldable pub prepare_manual_restart : SupervisorMachine → SupervisorMachine
prepare_manual_restart m = record m {
  shutdown_requested = false;
  phase = checking;
  owned_pid = none;
  consecutive_failures = 0;
  healthy_probe_streak = 0;
  unhealthy_probe_streak = 0;
}

unfoldable pub begin_shutdown : SupervisorMachine → SupervisorMachine
begin_shutdown m = record m {
  shutdown_requested = true;
  phase = stopped;
  owned_pid = none;
  healthy_probe_streak = 0;
  unhealthy_probe_streak = 0;
}
