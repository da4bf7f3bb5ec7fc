-- ===== src/Prelude/Decimal.antt =====
-- Numbers in decimal, as `{}` writes and `str::parse` reads them.
use Prim.Native.Nat.{ℕ, zero, suc, ◌+◌, ◌-◌, ◌*◌, ◌/◌, ◌%◌, ◌≤◌, ◌<◌}
use mathlib.Core.Path.{◌≡◌, refl, sym, ap, ◌∙◌, subst}
use mathlib.Core.Logic.{inl, inr}
use mathlib.Core.Bool.{Bool, true, false, ◌&&◌}
use mathlib.Core.Option.{Option, none, some}
use mathlib.Core.List.{[], ◌∷◌, ◌++◌}
use native.Mathlib.Omega.{arith}
use woof.Prelude.Tests.{ltb, leb, ◌==◌, if◌then◌else◌, Bool-cases}
use woof.Prelude.Lists.{length, length-append, All, All-append}
use woof.Prelude.Text.{Text}
use woof.Prelude.Word.{u64_max}

-- The digits of a number, as `{}` writes them.
unfoldable pub decimal_from : ℕ → ℕ → Text
decimal_from zero n = []
decimal_from (suc fuel) n =
    let front = decimal_from fuel (n / 10) in
    if ltb n 10 then (48 + n) ∷ [] else front ++ ((48 + n % 10) ∷ [])

unfoldable pub decimal : ℕ → Text
decimal n = decimal_from (suc n) n

-- One more digit, where it is one and the number stays within 64 bits.
abbrev pub add_digit : ℕ → Option ℕ → Option ℕ
add_digit c none = none
add_digit c (some n) =
    if leb 48 c && leb c 57 && leb (n * 10 + (c - 48)) u64_max
    then some (n * 10 + (c - 48))
    else none

unfoldable pub digits_from : Option ℕ → Text → Option ℕ
digits_from n [] = n
digits_from n (c ∷ s) = digits_from (add_digit c n) s

-- `str::parse::<usize>`
unfoldable pub parse_usize : Text → Option ℕ
parse_usize [] = none
parse_usize (c ∷ []) = digits_from (some 0) (c ∷ [])
parse_usize (c ∷ d ∷ s) =
    if c == 43 then digits_from (some 0) (d ∷ s) else digits_from (some 0) (c ∷ d ∷ s)

digits_from-append :
    (n : Option ℕ) (s : Text) (c : ℕ)
    → digits_from n (s ++ (c ∷ [])) ≡ add_digit c (digits_from n s)
unfolding digits_from
digits_from-append n [] c = refl
digits_from-append n (d ∷ s) c = digits_from-append (add_digit d n) s c

at_least : (n : ℕ) → ltb n 10 ≡ false → 10 ≤ n
at_least n large = ground (arith, large)

last_digit : (n : ℕ) → n ≤ u64_max → add_digit (48 + n % 10) (some (n / 10)) ≡ some n
last_digit n k = ground (arith, k)

digits_from-decimal_from :
    (fuel n : ℕ) → n < fuel → n ≤ u64_max → digits_from (some 0) (decimal_from fuel n) ≡ some n
unfolding digits_from decimal_from
digits_from-decimal_from zero n h k = absurd (omega arith)
digits_from-decimal_from (suc fuel) n h k = elim (Bool-cases (ltb n 10)) [
  | inl small ↦ ground (arith, small, h, k)
  | inr large ↦ rw large (
      digits_from-append (some 0) (decimal_from fuel (n / 10)) (48 + n % 10)
      ∙ ap (add_digit (48 + n % 10)) (
          digits_from-decimal_from fuel (n / 10) (omega (arith, h, at_least n large))
            (omega (arith, k)))
      ∙ last_digit n k)
]

abbrev pub IsDigit : ℕ → Type 0
IsDigit c = (48 ≤ c) × (c ≤ 57)

abbrev pub ten_to : ℕ → ℕ
ten_to zero = 1
ten_to (suc k) = 10 * ten_to k

pub decimal_from-IsDigit : (fuel n : ℕ) → All IsDigit (decimal_from fuel n)
unfolding decimal_from
decimal_from-IsDigit zero n = tt
decimal_from-IsDigit (suc fuel) n = elim (Bool-cases (ltb n 10)) [
  | inl small ↦ rw small ((omega arith, small_digit n small), tt)
  | inr large ↦ rw large (
      All-append IsDigit (decimal_from fuel (n / 10)) ((48 + n % 10) ∷ [])
        (decimal_from-IsDigit fuel (n / 10)) ((omega arith, omega arith), tt))
]
  where
    small_digit : (n : ℕ) → ltb n 10 ≡ true → 48 + n ≤ 57
    small_digit n small = ground (arith, small)

pub length-decimal_from : (fuel n k : ℕ) → n < ten_to (suc k) → length (decimal_from fuel n) ≤ suc k
unfolding decimal_from
length-decimal_from zero n k h = omega arith
length-decimal_from (suc fuel) n zero h = rw (below n h) (omega arith)
  where
    below : (n : ℕ) → n < 10 → ltb n 10 ≡ true
    below n h = ground (arith, h)
length-decimal_from (suc fuel) n (suc k) h = elim (Bool-cases (ltb n 10)) [
  | inl small ↦ rw small (omega arith)
  | inr large ↦ rw large (
      omega (
        arith,
        length-append (decimal_from fuel (n / 10)) ((48 + n % 10) ∷ []),
        length-decimal_from fuel (n / 10) k (omega (arith, h)),
      ))
]

-- There is a digit at least.
pub decimal_digit : (n : ℕ) → (c : ℕ) × (s : Text) × (decimal n ≡ c ∷ s)
unfolding decimal decimal_from
decimal_digit n = choose (ltb n 10) (decimal_from n (n / 10))
  where
    choose :
        (b : Bool) (front : Text)
        → (c : ℕ) × (s : Text) × ((if b then (48 + n) ∷ [] else front ++ ((48 + n % 10) ∷ []))
            ≡ c ∷ s)
    choose true front = (48 + n, [], refl)
    choose false [] = (48 + n % 10, [], refl)
    choose false (d ∷ front) = (d, front ++ ((48 + n % 10) ∷ []), refl)

pub decimal-IsDigit : (n : ℕ) → All IsDigit (decimal n)
unfolding decimal
decimal-IsDigit n = decimal_from-IsDigit (suc n) n

without_plus : (c : ℕ) (s : Text) → IsDigit c → parse_usize (c ∷ s) ≡ digits_from (some 0) (c ∷ s)
unfolding parse_usize
without_plus c [] h = refl
without_plus c (d ∷ s) h = ground (arith, h.0)

pub parse_usize-decimal : (n : ℕ) → n ≤ u64_max → parse_usize (decimal n) ≡ some n
unfolding decimal
parse_usize-decimal n h =
    let (c, s, e) = decimal_digit n in
    ap parse_usize e
    ∙ without_plus c s (subst (All IsDigit) e (decimal-IsDigit n)).0
    ∙ sym (ap (digits_from (some 0)) e)
    ∙ digits_from-decimal_from (suc n) n (omega arith) h
