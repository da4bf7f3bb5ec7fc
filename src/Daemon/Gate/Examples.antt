-- ===== src/Daemon/Gate/Examples.antt =====
-- The tests of the gate of apps/woof_d/src/memory.rs.
use woof.Prelude.{ℕ, ◌≡◌, ◌↔◌, refl, true, false, arith}
use native.Mathlib.Decide.{ℕ_discrete}
use woof.Daemon.Gate.{
  number, register_run, test_clear, take_reset, request, collect, cancel_one, cancel_again, passed,
  take_exclusive, collect_again, passed_again, System, reads, is_tested, owns_reset, owns_serial,
  run, reset, start, Steps, here, later,
}
use woof.Daemon.Gate.Invariant.{is_requested}
use woof.Daemon.Gate.Safety.{reset_quiesces, gate_owners}

-- A run begins and gets as far as its first test, when a reset comes: it cancels the run, and then
-- has its lease.
abbrev quiesced : (s : System) × Steps start s
unfolding ℕ_discrete
quiesced = (
  _,
  later
      (later
        (later
          (later
            (later
              (later
                (later
                  (later
                    (later
                      (later
                        (later (later here (run 0 (number refl (omega arith))))
                          (run 0 register_run))
                        (run 0 (test_clear false refl)))
                      (reset 0 (take_reset (λ k. refl))))
                    (reset 0 request))
                  (reset 0 collect))
                (reset 0 (cancel_one 0 refl)))
              (reset 0 (passed (λ i. ground arith))))
            (reset 0 (take_exclusive (λ i. ground arith) (λ k. ground arith))))
          (reset 0 collect_again))
        (reset 0 (cancel_again 0 refl)))
      (reset 0 (passed_again (λ i. ground arith))),
)

reset_quiesces_example :
    (reads (quiesced.0.runs 0) ≡ false)
    × (is_tested (quiesced.0.runs 0) ≡ true → quiesced.0.mem.cancelled 0 ≡ true)
unfolding quiesced
reset_quiesces_example = reset_quiesces {j = 0} quiesced.1 refl here 0

gate_owners_example :
    ((quiesced.0.mem.reset_requested ≡ true)
      ↔ ((k : ℕ) × (is_requested (quiesced.0.resets k) ≡ true)))
    × (owns_reset (quiesced.0.resets 0) ≡ true
        → owns_reset (quiesced.0.resets 1) ≡ true
        → ◌≡◌ {A = ℕ} 0 1)
    × (owns_serial (quiesced.0.runs 0) ≡ true
        → owns_serial (quiesced.0.runs 1) ≡ true
        → ◌≡◌ {A = ℕ} 0 1)
gate_owners_example = gate_owners quiesced.1 0 1
