-- ===== src/Daemon/Gate.antt =====
-- apps/woof_d/src/memory.rs: `MemoryGenerationGate`. Runs and resets are tasks that take their steps
-- in any order, one access of the shared state at a time. A lock of tokio is free when no task holds
-- it. A run is known by its id, a reset by a number of its own.
pub mod Invariant
pub mod Reachable
pub mod Safety
mod Examples
use woof.Prelude.{ℕ, ◌+◌, ◌<◌, ◌≡◌, Bool, true, false, ◌||◌}
use woof.Prelude.Word.{u64_max}
use mathlib.Core.Logic.{ite}
use native.Mathlib.Decide.{ℕ_discrete}

abbrev pub update {ℓ} : {A : Type ℓ} → (ℕ → A) → ℕ → A → ℕ → A
update f i a j = ite (ℕ_discrete i j) a (f j)

-- Where `begin_run` stands: `marked` is on the way to the first cancellation, `serial_held` and
-- `guard_held` come before the test of the flags that follows a lock, and `running` is
-- `Some(lease)`. The drop of the lease is `stopping` until its id is removed, and then `dropping`,
-- with the guards that it still has; with none, the run is over.
pub data RunPc : Type 0 where
  unborn numbered registered marked tested serial_held serial_tested guard_held running : RunPc
  stopping dropping : (serial guard : Bool) → RunPc

-- Where `begin_reset` stands, and the drop of its lease. A pass of `cancel_active_runs` has the
-- tokens that are left to cancel. `cleared` comes after the store of `false`, with the write guard or
-- not; `last_guard` has only that guard.
pub data ResetPc : Type 0 where
  queued serial_owned requested wants_exclusive exclusive leased last_guard done : ResetPc
  first_pass second_pass : (todo : ℕ → Bool) → ResetPc
  cleared : (has_exclusive : Bool) → ResetPc

-- `MemoryGenerationGateInner` without its locks. `active` tells which ids are in the map, and
-- `cancelled` which tokens are cancelled.
pub record Shared : Type 0 where
  pub reset_requested : Bool
  pub next_run_id : ℕ
  pub active : ℕ → Bool
  pub cancelled : ℕ → Bool

pub record System : Type 0 where
  pub mem : Shared
  pub runs : ℕ → RunPc
  pub resets : ℕ → ResetPc

abbrev pub owns_serial : RunPc → Bool
owns_serial serial_held = true
owns_serial serial_tested = true
owns_serial guard_held = true
owns_serial running = true
owns_serial (stopping serial guard) = serial
owns_serial (dropping serial guard) = serial
owns_serial _ = false

-- The read guard of `run_gate`.
abbrev pub reads : RunPc → Bool
reads guard_held = true
reads running = true
reads (stopping serial guard) = guard
reads (dropping serial guard) = guard
reads _ = false

-- Past the first test of the flags, with a lease that is not dropped.
abbrev pub is_tested : RunPc → Bool
is_tested unborn = false
is_tested numbered = false
is_tested registered = false
is_tested marked = false
is_tested (stopping serial guard) = false
is_tested (dropping serial guard) = false
is_tested _ = true

abbrev pub owns_reset : ResetPc → Bool
owns_reset queued = false
owns_reset last_guard = false
owns_reset done = false
owns_reset _ = true

-- The write guard of `run_gate`.
abbrev pub writes : ResetPc → Bool
writes exclusive = true
writes (second_pass todo) = true
writes leased = true
writes (cleared has_exclusive) = has_exclusive
writes last_guard = true
writes _ = false

-- One step of `begin_run`, or of the drop of its lease. `begin_run` makes none where the shutdown
-- has come before it; later the shutdown may come between any two. A cancelled run may still take a
-- lock, since the cancellation may come between the poll of the token and that of the lock. Fewer
-- than 2 ^ 64 - 1 runs begin.
pub data RunMove (s : System) (i : ℕ) : RunPc → Shared → RunPc → Type 0 where
  number :
      s.mem.next_run_id ≡ i
      → i < u64_max
      → RunMove s i unborn (record s.mem { next_run_id = i + 1 }) numbered
  register_run :
      RunMove s i numbered (record s.mem { active = update s.mem.active i true }) registered
  test_clear :
      (shutdown : Bool)
      → (s.mem.reset_requested || shutdown) ≡ false
      → RunMove s i registered s.mem tested
  test_set :
      (shutdown : Bool)
      → (s.mem.reset_requested || shutdown) ≡ true
      → RunMove s i registered s.mem marked
  mark : RunMove s i marked (record s.mem { cancelled = update s.mem.cancelled i true }) tested
  take_serial : ((j : ℕ) → owns_serial (s.runs j) ≡ false) → RunMove s i tested s.mem serial_held
  test_serial :
      (shutdown : Bool)
      → (s.mem.reset_requested || shutdown) ≡ false
      → RunMove s i serial_held s.mem serial_tested
  take_guard : ((j : ℕ) → writes (s.resets j) ≡ false) → RunMove s i serial_tested s.mem guard_held
  test_guard :
      (shutdown : Bool)
      → (s.mem.reset_requested || shutdown) ≡ false
      → RunMove s i guard_held s.mem running
  -- The task that `begin_run` spawns for the shutdown.
  shutdown_bridge :
      {p : RunPc}
      → is_tested p ≡ true
      → RunMove s i p (record s.mem { cancelled = update s.mem.cancelled i true }) p
  -- A test that fails, a cancellation, or the end of the run.
  drop_lease :
      {p : RunPc}
      → is_tested p ≡ true
      → RunMove s i p
          (record s.mem { cancelled = update s.mem.cancelled i true })
          (stopping (owns_serial p) (reads p))
  remove_run :
      {serial guard : Bool}
      → RunMove s i
          (stopping serial guard)
          (record s.mem { active = update s.mem.active i false })
          (dropping serial guard)
  release_serial : {guard : Bool} → RunMove s i (dropping true guard) s.mem (dropping false guard)
  release_guard : RunMove s i (dropping false true) s.mem (dropping false false)

-- One step of `begin_reset`, or of the drop of its lease, which may come while it waits.
pub data ResetMove (s : System) (j : ℕ) : ResetPc → Shared → ResetPc → Type 0 where
  take_reset : ((k : ℕ) → owns_reset (s.resets k) ≡ false) → ResetMove s j queued s.mem serial_owned
  request : ResetMove s j serial_owned (record s.mem { reset_requested = true }) requested
  collect : ResetMove s j requested s.mem (first_pass s.mem.active)
  cancel_one :
      {todo : ℕ → Bool} (i : ℕ)
      → todo i ≡ true
      → ResetMove s j
          (first_pass todo)
          (record s.mem { cancelled = update s.mem.cancelled i true })
          (first_pass (update todo i false))
  passed :
      {todo : ℕ → Bool}
      → ((i : ℕ) → todo i ≡ false)
      → ResetMove s j (first_pass todo) s.mem wants_exclusive
  take_exclusive :
      ((i : ℕ) → reads (s.runs i) ≡ false)
      → ((k : ℕ) → writes (s.resets k) ≡ false)
      → ResetMove s j wants_exclusive s.mem exclusive
  collect_again : ResetMove s j exclusive s.mem (second_pass s.mem.active)
  cancel_again :
      {todo : ℕ → Bool} (i : ℕ)
      → todo i ≡ true
      → ResetMove s j
          (second_pass todo)
          (record s.mem { cancelled = update s.mem.cancelled i true })
          (second_pass (update todo i false))
  passed_again :
      {todo : ℕ → Bool} → ((i : ℕ) → todo i ≡ false) → ResetMove s j (second_pass todo) s.mem leased
  give_up : ResetMove s j wants_exclusive (record s.mem { reset_requested = false }) (cleared false)
  end_lease : ResetMove s j leased (record s.mem { reset_requested = false }) (cleared true)
  release_reset : ResetMove s j (cleared true) s.mem last_guard
  release_both : ResetMove s j (cleared false) s.mem done
  release_exclusive : ResetMove s j last_guard s.mem done

pub data Step (s : System) : System → Type 0 where
  run :
      (i : ℕ) {m : Shared} {p : RunPc}
      → RunMove s i (s.runs i) m p
      → Step s (record s { mem = m; runs = update s.runs i p })
  reset :
      (j : ℕ) {m : Shared} {p : ResetPc}
      → ResetMove s j (s.resets j) m p
      → Step s (record s { mem = m; resets = update s.resets j p })

abbrev pub start : System
start = record {
  mem = record {
    reset_requested = false;
    next_run_id = 0;
    active = λ i. false;
    cancelled = λ i. false;
  };
  runs = λ i. unborn;
  resets = λ j. queued;
}

pub data Steps (s : System) : System → Type 0 where
  here : Steps s s
  later : {t u : System} → Steps s t → Step t u → Steps s u
