-- ===== src/Daemon/Gate/Invariant.antt =====
-- apps/woof_d/src/memory.rs: what every step of a run or of a reset keeps.
pub mod Runs
pub mod Resets
use woof.Prelude.{sym, ◌∙◌, ℕ, ◌≤◌, ◌≡◌, refl, Bool, true, false, ◌||◌, arith}
use woof.Daemon.Gate.{
  update, RunPc, unborn, marked, ResetPc, leased, second_pass, cleared, queued, serial_owned,
  last_guard, done, Shared, System, owns_serial, reads, is_tested, owns_reset, writes, RunMove,
  number, register_run, test_clear, mark, remove_run, take_serial, take_guard, shutdown_bridge,
  drop_lease, ResetMove, take_reset, request, cancel_one, take_exclusive, collect_again,
  cancel_again, passed_again, give_up, end_lease, Step, run, reset, start, Steps, here, later,
}

-- In the map of the active runs.
abbrev pub is_registered : RunPc → Bool
is_registered RunPc.registered = true
is_registered marked = true
is_registered p = is_tested p

-- From the store of `true` to that of `false`.
abbrev pub is_requested : ResetPc → Bool
is_requested queued = false
is_requested serial_owned = false
is_requested (cleared has_exclusive) = false
is_requested last_guard = false
is_requested done = false
is_requested _ = true

-- Whether the token of a run may still be left to the second pass.
abbrev pub is_pending : ResetPc → ℕ → Bool
is_pending (second_pass todo) i = todo i
is_pending leased i = false
is_pending _ i = true

pub record Inv (s : System) : Type 0 where
  pub fresh : (i : ℕ) → s.mem.next_run_id ≤ i → s.runs i ≡ unborn
  pub one_run : (i j : ℕ) → owns_serial (s.runs i) ≡ true → owns_serial (s.runs j) ≡ true → i ≡ j
  pub excluded : (i j : ℕ) → reads (s.runs i) ≡ true → writes (s.resets j) ≡ false
  pub one_writer : (j k : ℕ) → writes (s.resets j) ≡ true → writes (s.resets k) ≡ true → j ≡ k
  pub one_reset :
      (j k : ℕ) → owns_reset (s.resets j) ≡ true → owns_reset (s.resets k) ≡ true → j ≡ k
  pub flagged : (j : ℕ) → is_requested (s.resets j) ≡ true → s.mem.reset_requested ≡ true
  pub unflagged : s.mem.reset_requested ≡ true → (j : ℕ) × (is_requested (s.resets j) ≡ true)
  pub listed : (i : ℕ) → is_registered (s.runs i) ≡ true → s.mem.active i ≡ true
  pub swept :
      (i j : ℕ)
      → is_tested (s.runs i) ≡ true
      → (s.mem.cancelled i || is_pending (s.resets j) i) ≡ true

pub start-Inv : Inv start
start-Inv = record {
  fresh = λ i h. refl;
  one_run = λ i j h k. ground (arith, h);
  excluded = λ i j h. ground (arith, h);
  one_writer = λ j k h l. ground (arith, h);
  one_reset = λ j k h l. ground (arith, h);
  flagged = λ j h. ground (arith, h);
  unflagged = λ h. ground (arith, h);
  listed = λ i h. ground (arith, h);
  swept = λ i j h. ground (arith, h);
}
