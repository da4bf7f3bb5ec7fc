-- ===== src/Supervisor/Inner.antt =====
-- apps/woof/src-tauri/src/supervisor.rs: `SupervisorInner`, and the parts of the methods of
-- `DaemonSupervisor` that run while its lock is held. Between two of them other tasks may run.
-- A child process is the handle's process id, and an `Instant` a number of nanoseconds.
use woof.Prelude.{
  ℕ, ◌+◌, Bool, true, false, not, ◌&&◌, ◌||◌, Option, none, some, ◌==◌, if◌then◌else◌, is_some,
}
use woof.Prelude.Int.{ℤ}
use woof.Prelude.Word.{wrapping_add64}
use woof.Supervisor.Backoff.{BackoffPolicy}
use woof.Supervisor.Machine.{
  SupervisorMachine, ProbeAction, is_restart_waiting, is_healthy, default_machine, begin_check,
  spawned, observe_health, record_failure, prepare_manual_restart, begin_shutdown,
}
use woof.Supervisor.PauseSync.{CapturePauseSync, default_sync, begin, finish}
use woof.Supervisor.Recovery.{HealthUiState, CaptureUiState}

-- The reasons that `database_recovery_reason` lets through.
pub data RecoveryReason : Type 0 where
  corrupt incompatible_schema unsupported_version : RecoveryReason

pub record SupervisorInner : Type 0 where
  pub machine : SupervisorMachine
  pub child : Option ℕ
  pub generation : ℕ  -- u64
  pub spawning : Bool
  pub restart_deadline : Option ℕ
  pub capture_pause_sync : CapturePauseSync
  pub observed_capture_state : Option CaptureUiState
  pub last_emitted_health_state : Option HealthUiState
  pub last_emitted_capture_state : Option CaptureUiState
  pub health_recovery_visible : Bool
  pub permission_recovery_visible : Bool
  pub announced_database_recovery : Option RecoveryReason

unfoldable pub default_inner : SupervisorInner
unfolding default_machine default_sync
default_inner = record {
  machine = default_machine;
  child = none;
  generation = 0;
  spawning = false;
  restart_deadline = none;
  capture_pause_sync = default_sync;
  observed_capture_state = none;
  last_emitted_health_state = none;
  last_emitted_capture_state = none;
  health_recovery_visible = false;
  permission_recovery_visible = false;
  announced_database_recovery = none;
}

-- The locked part of `restart`, and the child that it kills.
unfoldable pub restart : SupervisorInner → SupervisorInner × Option ℕ
unfolding prepare_manual_restart
restart s = (
  record s {
    generation = wrapping_add64 s.generation 1;
    spawning = false;
    restart_deadline = none;
    machine = prepare_manual_restart s.machine;
    child = none;
  },
  s.child,
)

-- The locked part of `shutdown`, and the child that it kills.
unfoldable pub shutdown : SupervisorInner → SupervisorInner × Option ℕ
unfolding begin_shutdown
shutdown s = (
  record s {
    generation = wrapping_add64 s.generation 1;
    spawning = false;
    restart_deadline = none;
    machine = begin_shutdown s.machine;
    child = none;
  },
  s.child,
)

-- The locked part of `probe_and_act`.
unfoldable pub observe_probe : SupervisorInner → Bool → SupervisorInner × ProbeAction
unfolding observe_health
observe_probe s healthy =
    let (machine, action) = observe_health s.machine healthy in
    let s' = record s { machine = machine } in
    let takes_deadline = healthy && not (is_some s.child) in
    (
      record s' {
        restart_deadline = if takes_deadline then none else s.restart_deadline;
        generation =
            if takes_deadline && is_some s.restart_deadline
            then wrapping_add64 s.generation 1
            else s.generation;
      },
      action,
    )

-- The first locked part of `ensure_running`: the generation of the attempt, if one begins.
unfoldable pub begin_attempt : SupervisorInner → Bool → SupervisorInner × Option ℕ
unfolding begin_check
begin_attempt s bypass_restart_wait =
    let generation = wrapping_add64 s.generation 1 in
    if s.machine.shutdown_requested
      || is_some s.child
      || s.spawning
      || (not bypass_restart_wait && is_restart_waiting s.machine.phase)
    then (s, none)
    else (
      record s {
        generation = generation;
        spawning = true;
        restart_deadline = none;
        machine = begin_check s.machine;
      },
      some generation,
    )

-- The locked part of `ensure_running` that accepts a daemon which is already healthy.
unfoldable pub accept_running : SupervisorInner → ℕ → SupervisorInner × Bool
unfolding observe_health
accept_running s attempt_generation =
    if s.generation == attempt_generation && s.spawning
    then (record s { spawning = false; machine = (observe_health s.machine true).0 }, true)
    else (s, false)

-- What becomes of an attempt to spawn the daemon.
pub data SpawnOutcome : Type 0 where
  -- A process was spawned for an attempt that is over; it is killed.
  stale : Option ℕ → SpawnOutcome
  -- The process with this id is adopted, and its events are watched under the generation.
  adopted : ℕ → ℕ → SpawnOutcome
  -- The spawn failed, and a restart may be scheduled under a generation, after a delay.
  failed : Option (ℕ × ℕ) → SpawnOutcome

abbrev deadline_after : ℕ → Option ℕ → Option ℕ → Option ℕ
deadline_after now none old = old
deadline_after now (some delay) old = some (now + delay)

abbrev schedule : ℕ → Option ℕ → Option (ℕ × ℕ)
schedule generation none = none
schedule generation (some delay) = some (generation, delay)

-- Takes the child away, moves to a new generation and records the failure, as three methods do.
fail_generation :
    BackoffPolicy → SupervisorInner → Option ℤ → Option ℤ → ℕ → SupervisorInner × Option (ℕ × ℕ)
unfolding record_failure
fail_generation backoff s exit_code exit_signal now =
    let generation = wrapping_add64 s.generation 1 in
    let (machine, wait) = record_failure s.machine backoff exit_code exit_signal in
    (
      record s {
        generation = generation;
        machine = machine;
        restart_deadline = deadline_after now wait s.restart_deadline;
      },
      schedule generation wait,
    )

-- The last locked part of `ensure_running`; `spawn_result` is the new process, or `none` if the
-- spawn failed.
unfoldable pub finish_attempt :
    BackoffPolicy → SupervisorInner → ℕ → Option ℕ → ℕ → SupervisorInner × SpawnOutcome
unfolding spawned fail_generation
finish_attempt backoff s attempt_generation spawn_result now =
    if not (s.generation == attempt_generation) || not s.spawning || s.machine.shutdown_requested
    then (s, stale spawn_result)
    else elim spawn_result [
      | none ↦
          let (t, wait) = fail_generation backoff (record s { spawning = false }) none none now in
          (t, failed wait)
      | some pid ↦ (
        record s { spawning = false; child = some pid; machine = spawned s.machine pid },
        adopted pid s.generation,
      )
    ]

-- The locked part of `handle_terminated`.
unfoldable pub handle_terminated :
    BackoffPolicy → SupervisorInner → ℕ → Option ℤ → Option ℤ → ℕ → SupervisorInner × Option (ℕ × ℕ)
unfolding fail_generation
handle_terminated backoff s generation exit_code exit_signal now =
    if not (s.generation == generation)
    then (s, none)
    else fail_generation backoff (record s { child = none }) exit_code exit_signal now

-- The locked part of `restart_unhealthy`, with the child that it kills.
unfoldable pub restart_unhealthy :
    BackoffPolicy → SupervisorInner → ℕ → SupervisorInner × Option ℕ × Option (ℕ × ℕ)
unfolding fail_generation
restart_unhealthy backoff s now =
    let (t, wait) = fail_generation backoff (record s { child = none }) none none now in
    if is_some s.child then (t, s.child, wait) else (s, none, none)

-- The locked part of the task that `schedule_restart` starts, after its sleep; `true` if the
-- restart goes on to `ensure_running`.
unfoldable pub restart_due : SupervisorInner → ℕ → SupervisorInner × Bool
unfolding begin_check
restart_due s generation =
    if not (s.generation == generation)
      || s.machine.shutdown_requested
      || not (is_restart_waiting s.machine.phase)
    then (s, false)
    else (record s { restart_deadline = none; machine = begin_check s.machine }, true)

-- The two locked parts of `synchronize_capture_pause`.
unfoldable pub begin_pause_sync : SupervisorInner → SupervisorInner × Option ℕ
unfolding begin
begin_pause_sync s =
    let (sync, begun) = begin s.capture_pause_sync s.generation (is_healthy s.machine.phase) in
    (record s { capture_pause_sync = sync }, if begun then some s.generation else none)

unfoldable pub finish_pause_sync : SupervisorInner → ℕ → Bool → SupervisorInner
unfolding finish
finish_pause_sync s generation succeeded =
    if s.generation == generation
    then record s { capture_pause_sync = finish s.capture_pause_sync generation succeeded }
    else s
