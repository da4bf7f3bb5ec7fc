-- ===== src/Daemon/Gate/Invariant/Runs.antt =====
-- apps/woof_d/src/memory.rs: the steps of a run keep the invariant.
use woof.Prelude.{sym, ◌∙◌, ℕ, ◌≤◌, ◌≡◌, refl, true, false, ◌||◌, arith}
use woof.Daemon.Gate.{
  update, RunPc, unborn, Shared, System, owns_serial, reads, is_tested, writes, RunMove, number,
  register_run, test_clear, mark, remove_run, take_serial, take_guard, shutdown_bridge, drop_lease,
}
use woof.Daemon.Gate.Invariant.{is_registered, is_pending, Inv}

module _ {s : System} (inv : Inv s) (i : ℕ) where
  open inv use {fresh, one_run, excluded, flagged, listed, swept}

  run-fresh :
      {p p' : RunPc} {m : Shared}
      → RunMove s i p m p'
      → s.runs i ≡ p
      → (k : ℕ) → m.next_run_id ≤ k
      → update s.runs i p' k ≡ unborn
  run-fresh (number e lt) at k h = ground (arith, fresh k)
  run-fresh (shutdown_bridge past) at k h = ground (arith, fresh k, fresh i)
  run-fresh (drop_lease past) at k h = ground (arith, fresh k, fresh i)
  run-fresh mv at k h = ground (arith, fresh k, fresh i)

  run-one_run :
      {p p' : RunPc} {m : Shared}
      → RunMove s i p m p'
      → s.runs i ≡ p
      → (k l : ℕ) → owns_serial (update s.runs i p' k) ≡ true
      → owns_serial (update s.runs i p' l) ≡ true
      → k ≡ l
  run-one_run (take_serial free) at k l h h' = ground (arith, free k, free l)
  run-one_run mv at k l h h' = ground (arith, one_run k l, one_run i k, one_run i l)

  run-excluded :
      {p p' : RunPc} {m : Shared}
      → RunMove s i p m p'
      → s.runs i ≡ p
      → (k j : ℕ) → reads (update s.runs i p' k) ≡ true
      → writes (s.resets j) ≡ false
  run-excluded (take_guard free) at k j h = free j
  run-excluded mv at k j h = ground (arith, excluded k j, excluded i j)

  run-flagged :
      {p p' : RunPc} {m : Shared} → RunMove s i p m p' → m.reset_requested ≡ s.mem.reset_requested
  run-flagged register_run = refl
  run-flagged mv = refl

  run-listed :
      {p p' : RunPc} {m : Shared}
      → RunMove s i p m p'
      → s.runs i ≡ p
      → (k : ℕ) → is_registered (update s.runs i p' k) ≡ true
      → m.active k ≡ true
  run-listed register_run at k h = ground (arith, listed k)
  run-listed (shutdown_bridge past) at k h = ground (arith, listed k, listed i)
  run-listed (drop_lease past) at k h = ground (arith, listed k)
  run-listed remove_run at k h = ground (arith, listed k)
  run-listed mv at k h = ground (arith, listed k, listed i)

  run-swept :
      {p p' : RunPc} {m : Shared}
      → RunMove s i p m p'
      → s.runs i ≡ p
      → (k j : ℕ) → is_tested (update s.runs i p' k) ≡ true
      → (m.cancelled k || is_pending (s.resets j) k) ≡ true
  run-swept (test_clear shutdown clear) at k j h = ground (arith, swept k j, flagged j, clear)
  run-swept mark at k j h = ground (arith, swept k j)
  run-swept (shutdown_bridge past) at k j h = ground (arith, swept k j)
  run-swept (drop_lease past) at k j h = ground (arith, swept k j)
  run-swept mv at k j h = ground (arith, swept k j, swept i j, flagged j)

  pub run-Inv :
      {p : RunPc} {m : Shared}
      → RunMove s i (s.runs i) m p
      → Inv (record s { mem = m; runs = update s.runs i p })
  run-Inv mv = record {
    fresh = run-fresh mv refl;
    one_run = run-one_run mv refl;
    excluded = run-excluded mv refl;
    one_writer = inv.one_writer;
    one_reset = inv.one_reset;
    flagged = λ j h. run-flagged mv ∙ flagged j h;
    unflagged = λ h. inv.unflagged (sym (run-flagged mv) ∙ h);
    listed = run-listed mv refl;
    swept = run-swept mv refl;
  }
