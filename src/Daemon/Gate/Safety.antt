-- ===== src/Daemon/Gate/Safety.antt =====
-- apps/woof_d/src/memory.rs: what a reset may rely on while it holds its lease.
use woof.Prelude.{ℕ, ◌≡◌, ◌↔◌, true, false, arith}
use woof.Daemon.Gate.{
  RunPc, RunMove, register_run, shutdown_bridge, drop_lease, mark, ResetPc, leased, Shared, System,
  owns_serial, reads, is_tested, owns_reset, ResetMove, request, cancel_one, cancel_again, run,
  reset, start, Steps, here, later,
}
use woof.Daemon.Gate.Invariant.{is_requested, Inv, start-Inv}
use woof.Daemon.Gate.Reachable.{Steps-Inv}

run-cancelled :
    {s : System} {i : ℕ} {p p' : RunPc} {m : Shared}
    → RunMove s i p m p'
    → (k : ℕ) → s.mem.cancelled k ≡ true
    → m.cancelled k ≡ true
run-cancelled register_run k h = h
run-cancelled mark k h = ground (arith, h)
run-cancelled (shutdown_bridge past) k h = ground (arith, h)
run-cancelled (drop_lease past) k h = ground (arith, h)
run-cancelled mv k h = h

reset-cancelled :
    {s : System} {j : ℕ} {p p' : ResetPc} {m : Shared}
    → ResetMove s j p m p'
    → (k : ℕ) → s.mem.cancelled k ≡ true
    → m.cancelled k ≡ true
reset-cancelled request k h = h
reset-cancelled (cancel_one i left) k h = ground (arith, h)
reset-cancelled (cancel_again i left) k h = ground (arith, h)
reset-cancelled mv k h = h

Steps-cancelled :
    {s t : System} → Steps s t → (k : ℕ) → s.mem.cancelled k ≡ true → t.mem.cancelled k ≡ true
Steps-cancelled here k h = h
Steps-cancelled (later r (run i mv)) k h = run-cancelled mv k (Steps-cancelled r k h)
Steps-cancelled (later r (reset j mv)) k h = reset-cancelled mv k (Steps-cancelled r k h)

-- While a reset holds its lease, in any reachable state `s`, no run holds the read guard, so none is
-- past `begin_run`; and a run that has passed its first test by then has its token cancelled, in `s`
-- and in every later state `t`.
pub reset_quiesces :
    {s t : System} {j : ℕ}
    → Steps start s
    → s.resets j ≡ leased
    → Steps s t
    → (i : ℕ)
    → (reads (s.runs i) ≡ false) × (is_tested (s.runs i) ≡ true → t.mem.cancelled i ≡ true)
reset_quiesces {s} {t} {j} r at more i = (
  ground (arith, inv.excluded i j),
  λ past. Steps-cancelled more i (ground (arith, inv.swept i j past)),
)
  where
    inv : Inv s
    inv = Steps-Inv r start-Inv

-- In every reachable state the flag is set exactly while some reset is between its store of `true`
-- and that of `false`, only one reset is then at work, and only one run holds the serial lock.
pub gate_owners :
    {s : System}
    → Steps start s
    → (i j : ℕ)
    → ((s.mem.reset_requested ≡ true) ↔ ((k : ℕ) × (is_requested (s.resets k) ≡ true)))
      × (owns_reset (s.resets i) ≡ true → owns_reset (s.resets j) ≡ true → i ≡ j)
      × (owns_serial (s.runs i) ≡ true → owns_serial (s.runs j) ≡ true → i ≡ j)
gate_owners {s} r i j =
    ((inv.unflagged, λ held. inv.flagged held.0 held.1), inv.one_reset i j, inv.one_run i j)
  where
    inv : Inv s
    inv = Steps-Inv r start-Inv
