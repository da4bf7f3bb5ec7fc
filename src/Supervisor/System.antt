-- ===== src/Supervisor/System.antt =====
-- apps/woof/src-tauri/src/supervisor.rs: the supervisor with the tasks that it has started, as
-- steps that come in any order. A task is known by the generation that it remembers: an attempt of
-- `ensure_running` past its first lock, a watcher of a child's events, and a timer of
-- `schedule_restart`. A step that needs a task which is not there does nothing.
use woof.Prelude.{ℕ, Bool, false, ◌||◌, Option, none, some, List, [], ◌∷◌, ◌==◌, if◌then◌else◌}
use woof.Prelude.Int.{ℤ}
use woof.Supervisor.Backoff.{BackoffPolicy}
use woof.Supervisor.Recovery.{CaptureUiState}
use woof.Supervisor.Inner.{
  SupervisorInner, RecoveryReason, SpawnOutcome, stale, adopted, failed, default_inner, restart,
  shutdown, observe_probe, begin_attempt, accept_running, finish_attempt, handle_terminated,
  restart_unhealthy, restart_due, begin_pause_sync, finish_pause_sync,
}
use woof.Supervisor.Publish.{publish, announce}

pub record System : Type 0 where
  pub inner : SupervisorInner
  pub attempts : List ℕ
  pub watchers : List ℕ
  pub timers : List ℕ

unfoldable pub start : System
start = record { inner = default_inner; attempts = []; watchers = []; timers = [] }

unfoldable pub has : ℕ → List ℕ → Bool
has g [] = false
has g (x ∷ xs) = x == g || has g xs

-- Without the first task of the generation.
unfoldable pub remove : ℕ → List ℕ → List ℕ
remove g [] = []
remove g (x ∷ xs) = if x == g then xs else x ∷ remove g xs

abbrev pub add : Option ℕ → List ℕ → List ℕ
add none l = l
add (some g) l = g ∷ l

abbrev pub add_timer : Option (ℕ × ℕ) → List ℕ → List ℕ
add_timer none l = l
add_timer (some (g, delay)) l = g ∷ l

-- The tasks after an attempt's end.
abbrev after_attempt : System → SpawnOutcome → System
after_attempt t (stale killed) = t
after_attempt t (adopted pid g) = record t { watchers = g ∷ t.watchers }
after_attempt t (failed wait) = record t { timers = add_timer wait t.timers }

pub data Event : Type 0 where
  attempt_begins : Bool → Event
  attempt_accepts : ℕ → Event
  attempt_ends : ℕ → Option ℕ → ℕ → Event
  child_ends : ℕ → Option ℤ → Option ℤ → ℕ → Event
  timer_fires : ℕ → Event
  probe : Bool → Event
  unhealthy_restart : ℕ → Event
  manual_restart : Event
  shuts_down : Event
  pause_begins : Event
  pause_ends : ℕ → Bool → Event
  publishes : Option CaptureUiState → Bool → Event
  announces : RecoveryReason → Event

module _ (backoff : BackoffPolicy) where
  unfoldable pub step : System → Event → System
  unfolding restart shutdown observe_probe begin_attempt accept_running finish_attempt
      handle_terminated restart_unhealthy restart_due begin_pause_sync finish_pause_sync publish
      announce
  step t (attempt_begins bypass) =
      let (s, begun) = begin_attempt t.inner bypass in
      record t { inner = s; attempts = add begun t.attempts }
  step t (attempt_accepts g) =
      if has g t.attempts
      then record t { inner = (accept_running t.inner g).0; attempts = remove g t.attempts }
      else t
  step t (attempt_ends g spawn_result now) =
      let (s, outcome) = finish_attempt backoff t.inner g spawn_result now in
      if has g t.attempts
      then after_attempt (record t { inner = s; attempts = remove g t.attempts }) outcome
      else t
  step t (child_ends g exit_code exit_signal now) =
      let (s, wait) = handle_terminated backoff t.inner g exit_code exit_signal now in
      if has g t.watchers
      then record t { inner = s; watchers = remove g t.watchers; timers = add_timer wait t.timers }
      else t
  step t (timer_fires g) =
      if has g t.timers
      then record t { inner = (restart_due t.inner g).0; timers = remove g t.timers }
      else t
  step t (probe healthy) = record t { inner = (observe_probe t.inner healthy).0 }
  step t (unhealthy_restart now) =
      let (s, killed, wait) = restart_unhealthy backoff t.inner now in
      record t { inner = s; timers = add_timer wait t.timers }
  step t manual_restart = record t { inner = (restart t.inner).0 }
  step t shuts_down = record t { inner = (shutdown t.inner).0 }
  step t pause_begins = record t { inner = (begin_pause_sync t.inner).0 }
  step t (pause_ends g succeeded) = record t { inner = finish_pause_sync t.inner g succeeded }
  step t (publishes observed allowed) = record t { inner = (publish t.inner observed allowed).0 }
  step t (announces reason) = record t { inner = (announce t.inner reason).0 }

  unfoldable pub run : System → List Event → System
  run t [] = t
  run t (e ∷ es) = run (step t e) es
