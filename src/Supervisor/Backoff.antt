-- ===== src/Supervisor/Backoff.antt =====
-- apps/woof/src-tauri/src/supervisor.rs: the delay before a restart. A `Duration` is a number of
-- nanoseconds.
use woof.Prelude.{
  ℕ, ◌-◌, ◌*◌, ◌^◌, ◌≤◌, suc, min, ◌≡◌, arith, refl, ltb, ltb→lt, if◌then◌else◌, Bool-cases, inl,
  inr,
}
use native.Mathlib.Omega.{pow_step}
use native.Mathlib.Nat.{pow-le-pow_right, mul-le-mul_left}

-- The largest `Duration`: 2 ^ 64 - 1 seconds and 999999999 nanoseconds.
abbrev pub duration_max : ℕ
duration_max = 18446744073709551615999999999

pub record BackoffPolicy : Type 0 where
  pub initial : ℕ
  pub maximum : ℕ

unfoldable pub default_policy : BackoffPolicy
default_policy = record { initial = 500000000; maximum = 30000000000 }

-- `saturating_sub(1).min(31)`.
abbrev pub exponent : ℕ → ℕ
exponent failures = min (failures - 1) 31

unfoldable pub delay : BackoffPolicy → ℕ → ℕ
delay policy failures =
    min (min (policy.initial * 2 ^ exponent failures) duration_max) policy.maximum

doubled : (a n : ℕ) → a * 2 ^ suc n ≡ 2 * (a * 2 ^ n)
doubled a n = rw (pow_step 2 n) (omega arith)

-- The first delay is the initial one, capped; each later one is twice the one before it, capped,
-- until the exponent stops at 31; and from then on the delay stays. (The cap is a `Duration`.)
pub delay_schedule :
    (policy : BackoffPolicy) (n : ℕ)
    → policy.maximum ≤ duration_max
    → (delay policy 1 ≡ min policy.initial policy.maximum)
      × (delay policy (suc (suc n)) ≡ (
          if ltb n 31 then min (2 * delay policy (suc n)) policy.maximum else delay policy (suc n)))
unfolding delay
delay_schedule policy n h = elim (Bool-cases (ltb n 31)) [
  | inl small ↦
      let short = ltb→lt n 31 small in
      (
        omega arith,
        rw small (
            rw
              (
                (let e : min (suc (suc n) - 1) 31 ≡ suc n = omega arith in e),
                (let e : min (suc n - 1) 31 ≡ n = omega arith in e),
              )
              (omega (arith, doubled policy.initial n))),
      )
  | inr large ↦
      let long : 31 ≤ n = ground arith in
      (
        omega arith,
        rw large (
            rw
              (
                (let e : min (suc (suc n) - 1) 31 ≡ 31 = omega arith in e),
                (let e : min (suc n - 1) 31 ≡ 31 = omega arith in e),
              )
              refl),
      )
]

-- More failures never shorten the delay, and it never passes the maximum.
pub delay_mono :
    (policy : BackoffPolicy) (m n : ℕ)
    → m ≤ n
    → (delay policy m ≤ delay policy n) × (delay policy n ≤ policy.maximum)
unfolding delay
delay_mono policy m n h =
    let e : exponent m ≤ exponent n = omega arith in
    let p : 2 ^ exponent m ≤ 2 ^ exponent n = pow-le-pow_right (omega arith) e in
    let q : policy.initial * 2 ^ exponent m ≤ policy.initial * 2 ^ exponent n =
      mul-le-mul_left policy.initial p in
    (omega arith, omega arith)
