-- ===== src/Daemon/Gate/Invariant/Resets.antt =====
-- apps/woof_d/src/memory.rs: the steps of a reset keep the invariant.
use woof.Prelude.{◌∙◌, ℕ, ◌≤◌, ◌≡◌, refl, true, false, ◌||◌, arith}
use woof.Daemon.Gate.{
  update, ResetPc, Shared, System, reads, is_tested, owns_reset, writes, ResetMove, take_reset,
  request, cancel_one, take_exclusive, collect_again, cancel_again, passed_again, give_up,
  end_lease,
}
use woof.Daemon.Gate.Invariant.{is_requested, is_pending, Inv}

module _ {s : System} (inv : Inv s) (j : ℕ) where
  open inv use {one_run, excluded, one_writer, one_reset, flagged, unflagged, listed, swept}

  reset-excluded :
      {p p' : ResetPc} {m : Shared}
      → ResetMove s j p m p'
      → s.resets j ≡ p
      → (i k : ℕ) → reads (s.runs i) ≡ true
      → writes (update s.resets j p' k) ≡ false
  reset-excluded (take_exclusive no_run free) at i k h = ground (arith, no_run i)
  reset-excluded mv at i k h = ground (arith, excluded i k, excluded i j)

  reset-one_writer :
      {p p' : ResetPc} {m : Shared}
      → ResetMove s j p m p'
      → s.resets j ≡ p
      → (k l : ℕ) → writes (update s.resets j p' k) ≡ true
      → writes (update s.resets j p' l) ≡ true
      → k ≡ l
  reset-one_writer (take_exclusive no_run free) at k l h h' = ground (arith, free k, free l)
  reset-one_writer mv at k l h h' = ground (arith, one_writer k l, one_writer j k, one_writer j l)

  reset-one_reset :
      {p p' : ResetPc} {m : Shared}
      → ResetMove s j p m p'
      → s.resets j ≡ p
      → (k l : ℕ) → owns_reset (update s.resets j p' k) ≡ true
      → owns_reset (update s.resets j p' l) ≡ true
      → k ≡ l
  reset-one_reset (take_reset free) at k l h h' = ground (arith, free k, free l)
  reset-one_reset mv at k l h h' = ground (arith, one_reset k l, one_reset j k, one_reset j l)

  reset-flagged :
      {p p' : ResetPc} {m : Shared}
      → ResetMove s j p m p'
      → s.resets j ≡ p
      → (k : ℕ) → is_requested (update s.resets j p' k) ≡ true
      → m.reset_requested ≡ true
  reset-flagged request at k h = refl
  reset-flagged give_up at k h = ground (arith, one_reset j k)
  reset-flagged end_lease at k h = ground (arith, one_reset j k)
  reset-flagged mv at k h = ground (arith, flagged k, flagged j)

  reset-unflagged :
      {p p' : ResetPc} {m : Shared}
      → ResetMove s j p m p'
      → s.resets j ≡ p
      → m.reset_requested ≡ true
      → (k : ℕ) × (is_requested (update s.resets j p' k) ≡ true)
  reset-unflagged request at h = (j, ground arith)
  reset-unflagged give_up at h = absurd (ground (arith, h))
  reset-unflagged end_lease at h = absurd (ground (arith, h))
  reset-unflagged mv at h = let (k, held) = unflagged h in (k, ground (arith, held))

  reset-listed :
      {p p' : ResetPc} {m : Shared} → ResetMove s j p m p' → (i : ℕ) → m.active i ≡ s.mem.active i
  reset-listed request i = refl
  reset-listed mv i = refl

  reset-swept :
      {p p' : ResetPc} {m : Shared}
      → ResetMove s j p m p'
      → s.resets j ≡ p
      → (i k : ℕ) → is_tested (s.runs i) ≡ true
      → (m.cancelled i || is_pending (update s.resets j p' k) i) ≡ true
  reset-swept (cancel_one i' left) at i k h = ground (arith, swept i k)
  reset-swept (cancel_again i' left) at i k h = ground (arith, swept i k, swept i j)
  reset-swept collect_again at i k h = ground (arith, swept i k, listed i)
  reset-swept (passed_again empty) at i k h = ground (arith, swept i k, swept i j, empty i)
  reset-swept mv at i k h = ground (arith, swept i k)

  pub reset-Inv :
      {p : ResetPc} {m : Shared}
      → ResetMove s j (s.resets j) m p
      → Inv (record s { mem = m; resets = update s.resets j p })
  reset-Inv mv = record {
    fresh = λ i h. inv.fresh i (reset_next mv h);
    one_run = one_run;
    excluded = reset-excluded mv refl;
    one_writer = reset-one_writer mv refl;
    one_reset = reset-one_reset mv refl;
    flagged = reset-flagged mv refl;
    unflagged = reset-unflagged mv refl;
    listed = λ i h. reset-listed mv i ∙ listed i h;
    swept = λ i k. reset-swept mv refl i k;
  }
    where
      reset_next :
          {p p' : ResetPc} {m : Shared} {n : ℕ}
          → ResetMove s j p m p'
          → m.next_run_id ≤ n
          → s.mem.next_run_id ≤ n
      reset_next request h = h
      reset_next mv h = h
