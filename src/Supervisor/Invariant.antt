-- ===== src/Supervisor/Invariant.antt =====
-- apps/woof/src-tauri/src/supervisor.rs: what holds between any two steps of the supervisor and
-- its tasks.
use woof.Prelude.{
  ℕ, suc, leb, ◌&&◌, ◌≤◌, ◌<◌, Bool, true, false, Option, List, [], ◌∷◌, ◌==◌, ◌≡◌, refl, arith,
  is_some,
}
use woof.Prelude.Word.{u64_mod, wrapping_add64}
use woof.Supervisor.Backoff.{BackoffPolicy}
use woof.Supervisor.Machine.{stopped, owned_healthy, external_healthy, is_restart_waiting}
use woof.Supervisor.System.{
  System, start, has, remove, Event, attempt_begins, attempt_accepts, attempt_ends, child_ends,
  timer_fires, probe, unhealthy_restart, manual_restart, shuts_down, pause_begins, pause_ends,
  publishes, announces, step,
}
use woof.Supervisor.Inner.{RecoveryReason, default_inner}
use woof.Supervisor.Recovery.{CaptureUiState}
use woof.Prelude.Int.{ℤ}

-- Every generation of the list is at most `n`.
pub within : ℕ → List ℕ → Bool
within n [] = true
within n (x ∷ l) = leb x n && within n l

pub record Inv (t : System) : Type 0 where
  pub owned : t.inner.machine.owned_pid ≡ t.inner.child
  pub streak : t.inner.machine.unhealthy_probe_streak < 3
  pub healthy_owned : t.inner.machine.phase ≡ owned_healthy → is_some t.inner.child ≡ true
  pub healthy_external : t.inner.machine.phase ≡ external_healthy → is_some t.inner.child ≡ false
  pub shut : t.inner.machine.shutdown_requested ≡ true → t.inner.machine.phase ≡ stopped
  pub shut_childless : t.inner.machine.shutdown_requested ≡ true → is_some t.inner.child ≡ false
  pub shut_idle : t.inner.machine.shutdown_requested ≡ true → t.inner.spawning ≡ false
  pub waiting : is_restart_waiting t.inner.machine.phase ≡ is_some t.inner.restart_deadline
  pub spawning_childless : t.inner.spawning ≡ true → is_some t.inner.child ≡ false
  pub waiting_childless : is_some t.inner.restart_deadline ≡ true → is_some t.inner.child ≡ false
  pub waiting_idle : is_some t.inner.restart_deadline ≡ true → t.inner.spawning ≡ false
  pub attempted : t.inner.spawning ≡ true → has t.inner.generation t.attempts ≡ true
  pub watched : is_some t.inner.child ≡ true → has t.inner.generation t.watchers ≡ true
  pub timed : is_some t.inner.restart_deadline ≡ true → has t.inner.generation t.timers ≡ true
  pub watched_idle : has t.inner.generation t.watchers ≡ true → t.inner.spawning ≡ false
  pub watched_no_timer :
      has t.inner.generation t.watchers ≡ true → is_some t.inner.restart_deadline ≡ false
  pub past : within t.inner.generation t.watchers ≡ true

has_future : (n g : ℕ) (l : List ℕ) → within n l ≡ true → n < g → has g l ≡ false
unfolding has within
has_future n g [] h lt = refl
has_future n g (x ∷ l) h lt = ground (arith, has_future n g l)

has-remove : (g h : ℕ) (l : List ℕ) → (g == h) ≡ false → has h (remove g l) ≡ has h l
unfolding has remove
has-remove g h [] ne = refl
has-remove g h (x ∷ l) ne = ground (arith, has-remove g h l ne)

has_of_has-remove : (g h : ℕ) (l : List ℕ) → has h (remove g l) ≡ true → has h l ≡ true
unfolding has remove
has_of_has-remove g h [] p = p
has_of_has-remove g h (x ∷ l) p = ground (arith, has_of_has-remove g h l)

within-remove : (n g : ℕ) (l : List ℕ) → within n l ≡ true → within n (remove g l) ≡ true
unfolding remove within
within-remove n g [] h = refl
within-remove n g (x ∷ l) h = ground (arith, within-remove n g l)

within_mono : (n m : ℕ) (l : List ℕ) → n ≤ m → within n l ≡ true → within m l ≡ true
unfolding within
within_mono n m [] le h = refl
within_mono n m (x ∷ l) le h = ground (arith, within_mono n m l)

pub start-Inv : Inv start
unfolding start default_inner within
start-Inv = ground arith

-- The facts about the watchers that a step to the next generation needs.
renewed :
    (t : System)
    → Inv t
    → suc t.inner.generation < u64_mod
    → (wrapping_add64 t.inner.generation 1 ≡ suc t.inner.generation)
      × (has (suc t.inner.generation) t.watchers ≡ false)
      × (within (suc t.inner.generation) t.watchers ≡ true)
renewed t v b = (
  omega arith,
  has_future t.inner.generation (suc t.inner.generation) t.watchers v.past (omega arith),
  within_mono t.inner.generation (suc t.inner.generation) t.watchers (omega arith) v.past,
)

module _ (backoff : BackoffPolicy) (t : System) (v : Inv t)
    (b : suc t.inner.generation < u64_mod) where
  probe-Inv : (healthy : Bool) → Inv (step backoff t (probe healthy))
  unfolding step
  probe-Inv healthy = ground (arith, renewed t v b)

  attempt_begins-Inv : (bypass : Bool) → Inv (step backoff t (attempt_begins bypass))
  unfolding step has
  attempt_begins-Inv bypass = ground (arith, renewed t v b)

  attempt_accepts-Inv : (g : ℕ) → Inv (step backoff t (attempt_accepts g))
  unfolding step
  attempt_accepts-Inv g = ground (arith, has-remove g t.inner.generation t.attempts)

  attempt_ends-Inv :
      (g : ℕ) (spawn_result : Option ℕ) (now : ℕ)
      → Inv (step backoff t (attempt_ends g spawn_result now))
  unfolding step has within
  attempt_ends-Inv g spawn_result now =
      ground (arith, renewed t v b, has-remove g t.inner.generation t.attempts)

  child_ends-Inv :
      (g : ℕ) (exit_code exit_signal : Option ℤ) (now : ℕ)
      → Inv (step backoff t (child_ends g exit_code exit_signal now))
  unfolding step has
  child_ends-Inv g exit_code exit_signal now = ground (
    arith,
    renewed t v b,
    has-remove g t.inner.generation t.watchers,
    has_of_has-remove g (suc t.inner.generation) t.watchers,
    has_of_has-remove g t.inner.generation t.watchers,
    within-remove t.inner.generation g t.watchers,
    within-remove (suc t.inner.generation) g t.watchers,
  )

  timer_fires-Inv : (g : ℕ) → Inv (step backoff t (timer_fires g))
  unfolding step
  timer_fires-Inv g = ground (arith, has-remove g t.inner.generation t.timers)

  unhealthy_restart-Inv : (now : ℕ) → Inv (step backoff t (unhealthy_restart now))
  unfolding step has
  unhealthy_restart-Inv now = ground (arith, renewed t v b)

  manual_restart-Inv : Inv (step backoff t manual_restart)
  unfolding step
  manual_restart-Inv = ground (arith, renewed t v b)

  shuts_down-Inv : Inv (step backoff t shuts_down)
  unfolding step
  shuts_down-Inv = ground (arith, renewed t v b)

  pause_begins-Inv : Inv (step backoff t pause_begins)
  unfolding step
  pause_begins-Inv = ground arith

  pause_ends-Inv : (g : ℕ) (succeeded : Bool) → Inv (step backoff t (pause_ends g succeeded))
  unfolding step
  pause_ends-Inv g succeeded = ground arith

  publishes-Inv :
      (observed : Option CaptureUiState) (allowed : Bool)
      → Inv (step backoff t (publishes observed allowed))
  unfolding step
  publishes-Inv observed allowed = record {
    owned = v.owned;
    streak = v.streak;
    healthy_owned = v.healthy_owned;
    healthy_external = v.healthy_external;
    shut = v.shut;
    shut_childless = v.shut_childless;
    shut_idle = v.shut_idle;
    waiting = v.waiting;
    spawning_childless = v.spawning_childless;
    waiting_childless = v.waiting_childless;
    waiting_idle = v.waiting_idle;
    attempted = v.attempted;
    watched = v.watched;
    timed = v.timed;
    watched_idle = v.watched_idle;
    watched_no_timer = v.watched_no_timer;
    past = v.past;
  }

  announces-Inv : (reason : RecoveryReason) → Inv (step backoff t (announces reason))
  unfolding step
  announces-Inv reason = ground arith

  pub step-Inv : (e : Event) → Inv (step backoff t e)
  step-Inv (attempt_begins bypass) = attempt_begins-Inv bypass
  step-Inv (attempt_accepts g) = attempt_accepts-Inv g
  step-Inv (attempt_ends g spawn_result now) = attempt_ends-Inv g spawn_result now
  step-Inv (child_ends g exit_code exit_signal now) = child_ends-Inv g exit_code exit_signal now
  step-Inv (timer_fires g) = timer_fires-Inv g
  step-Inv (probe healthy) = probe-Inv healthy
  step-Inv (unhealthy_restart now) = unhealthy_restart-Inv now
  step-Inv manual_restart = manual_restart-Inv
  step-Inv shuts_down = shuts_down-Inv
  step-Inv pause_begins = pause_begins-Inv
  step-Inv (pause_ends g succeeded) = pause_ends-Inv g succeeded
  step-Inv (publishes observed allowed) = publishes-Inv observed allowed
  step-Inv (announces reason) = announces-Inv reason
