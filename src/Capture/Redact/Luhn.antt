-- ===== src/Capture/Redact/Luhn.antt =====
-- crates/woof-capture/src/redact.rs: the check digit of payment cards.
use mathlib.Core.List.{reverse, reverse-append}
use woof.Prelude.{
  ℕ, suc, ◌+◌, ◌-◌, ◌%◌, ◌<◌, ◌≡◌, ◌≢◌, refl, sym, ap, ◌∙◌, ◌⊎◌, inl, inr, ◌&&◌, Bool, true, false,
  List, [], ◌∷◌, ◌++◌, append_assoc, length, arith,
}
use woof.Prelude.Text.{Text}
use woof.Capture.Redact.Validate.{is_ascii_digit, digits_of, weigh, luhn_sum, is_valid_card_number}

digits_of-append : (s t : Text) → digits_of (s ++ t) ≡ digits_of s ++ digits_of t
unfolding digits_of
digits_of-append [] t = refl
digits_of-append (c ∷ s) t = ground (arith, digits_of-append s t)

plus_zero : (n : ℕ) → n ≡ n + 0
plus_zero n = omega arith

zero_plus : (n : ℕ) → n ≡ 0 + n
zero_plus n = omega arith

plus_suc : (n m : ℕ) → n + 1 + m ≡ n + suc m
plus_suc n m = omega arith

luhn_sum-append :
    (index : ℕ) (xs ys : List ℕ)
    → luhn_sum index (xs ++ ys) ≡ luhn_sum index xs + luhn_sum (index + length xs) ys
unfolding luhn_sum
luhn_sum-append index [] ys = omega (arith, ap (λ n. luhn_sum n ys) (plus_zero index))
luhn_sum-append index (x ∷ xs) ys =
    omega (
      arith,
      luhn_sum-append (index + 1) xs ys,
      ap (λ n. luhn_sum n ys) (plus_suc index (length xs)),
    )

-- Two digits have different summands at one place, by the last digit.
weigh_differs : (index d e : ℕ) → d < 10 → e < 10 → d ≢ e → weigh index d % 10 ≢ weigh index e % 10
weigh_differs index d e h k differ = ground arith

-- So have two neighbours that change places, except 0 and 9.
swap_differs :
    (index d e : ℕ)
    → d < 10
    → e < 10
    → d ≢ e
    → (¬ ((d ≡ 0) × (e ≡ 9)))
    → (¬ ((d ≡ 9) × (e ≡ 0)))
    → (weigh index d + weigh (index + 1) e) % 10 ≢ (weigh index e + weigh (index + 1) d) % 10
swap_differs index d e h k differ first second = ground arith

around :
    (xs ms ys : List ℕ)
    → luhn_sum 0 (reverse (xs ++ (ms ++ ys)))
      ≡ luhn_sum 0 (reverse ys)
        + (luhn_sum (length (reverse ys)) (reverse ms)
            + luhn_sum (length (reverse ys) + length (reverse ms)) (reverse xs))
around xs ms ys =
    ap (luhn_sum 0) (
      reverse-append xs (ms ++ ys)
      ∙ ap (λ l. l ++ reverse xs) (reverse-append ms ys)
      ∙ append_assoc (reverse ys) (reverse ms) (reverse xs))
    ∙ luhn_sum-append 0 (reverse ys) (reverse ms ++ reverse xs)
    ∙ ap (λ n. luhn_sum 0 (reverse ys) + n)
        (ap (λ n. luhn_sum n (reverse ms ++ reverse xs)) (sym (zero_plus (length (reverse ys))))
          ∙ luhn_sum-append (length (reverse ys)) (reverse ms) (reverse xs))

card_sum : Text → ℕ
card_sum s = luhn_sum 0 (reverse (digits_of s))

valid_sum : (s : Text) → is_valid_card_number s ≡ true → card_sum s % 10 ≡ 0
unfolding is_valid_card_number card_sum
valid_sum s h = ground arith

invalid_sum : (s : Text) → card_sum s % 10 ≢ 0 → is_valid_card_number s ≡ false
unfolding is_valid_card_number card_sum
invalid_sum s h = ground arith

-- The sum by the digits of the middle part.
card_sum-around :
    (s m t : Text)
    → card_sum (s ++ (m ++ t))
      ≡ luhn_sum 0 (reverse (digits_of t))
        + (luhn_sum (length (reverse (digits_of t))) (reverse (digits_of m))
            + luhn_sum
                (length (reverse (digits_of t)) + length (reverse (digits_of m)))
                (reverse (digits_of s)))
unfolding card_sum
card_sum-around s m t =
    ap (λ l. luhn_sum 0 (reverse l))
      (digits_of-append s (m ++ t) ∙ ap (λ l. digits_of s ++ l) (digits_of-append m t))
    ∙ around (digits_of s) (digits_of m) (digits_of t)

one_digit : (c : ℕ) → is_ascii_digit c ≡ true → digits_of (c ∷ []) ≡ (c - 48) ∷ []
unfolding digits_of
one_digit c h = ground arith

two_digits :
    (c e : ℕ)
    → is_ascii_digit c ≡ true
    → is_ascii_digit e ≡ true
    → digits_of (c ∷ e ∷ []) ≡ (c - 48) ∷ (e - 48) ∷ []
unfolding digits_of
two_digits c e h k = ground arith

abbrev pub IsZeroAndNine : ℕ → ℕ → Type 0
IsZeroAndNine c e = ((c ≡ 48) × (e ≡ 57)) ⊎ ((c ≡ 57) × (e ≡ 48))

IsZeroAndNine-cases : (c e : ℕ) → IsZeroAndNine c e ⊎ (¬ IsZeroAndNine c e)
IsZeroAndNine-cases c e = ground arith

module _ (s t : Text) (c e : ℕ) (h : is_ascii_digit c ≡ true) (k : is_ascii_digit e ≡ true)
    (differ : c ≢ e) where
  place : ℕ
  place = length (reverse (digits_of t))

  sum_of_one :
      (d : ℕ)
      → is_ascii_digit d ≡ true
      → card_sum (s ++ (d ∷ t))
        ≡ luhn_sum 0 (reverse (digits_of t))
          + (weigh place (d - 48) + luhn_sum (place + 1) (reverse (digits_of s)))
  unfolding place luhn_sum
  sum_of_one d g = card_sum-around s (d ∷ []) t ∙ rw (one_digit d g) (omega arith)

  sum_of_two :
      (d f : ℕ)
      → is_ascii_digit d ≡ true
      → is_ascii_digit f ≡ true
      → card_sum (s ++ (d ∷ f ∷ t))
        ≡ luhn_sum 0 (reverse (digits_of t))
          + (weigh place (f - 48)
              + weigh (place + 1) (d - 48)
              + luhn_sum (place + 2) (reverse (digits_of s)))
  unfolding place luhn_sum
  sum_of_two d f g g' = card_sum-around s (d ∷ f ∷ []) t ∙ rw (two_digits d f g g') (omega arith)

  card_digit :
      is_valid_card_number (s ++ (c ∷ t)) ≡ true → is_valid_card_number (s ++ (e ∷ t)) ≡ false
  card_digit valid = invalid_sum (s ++ (e ∷ t)) (λ even. ground (
    arith,
    even,
    valid_sum (s ++ (c ∷ t)) valid,
    sum_of_one c h,
    sum_of_one e k,
    weigh_differs place (c - 48) (e - 48) (ground arith) (ground arith) (ground arith),
  ))

  card_swap :
      ¬ IsZeroAndNine c e
      → is_valid_card_number (s ++ (c ∷ e ∷ t)) ≡ true
      → is_valid_card_number (s ++ (e ∷ c ∷ t)) ≡ false
  card_swap other valid = invalid_sum (s ++ (e ∷ c ∷ t)) (λ even. ground (
    arith,
    other,
    even,
    valid_sum (s ++ (c ∷ e ∷ t)) valid,
    sum_of_two c e h k,
    sum_of_two e c k h,
    swap_differs place (c - 48) (e - 48) (ground arith) (ground arith) (ground arith)
        (λ p. other (inl (ground (arith, p)))) (λ p. other (inr (ground (arith, p)))),
  ))

both_false : (a b : Bool) → (a ≡ true → b ≡ false) → (a && b) ≡ false
both_false a b h = ground (arith, h)

-- A card number that passes does not pass any more when one digit is another, or when two different
-- neighbours change places, unless they are 0 and 9.
pub card_detects :
    (s t : Text) (c e : ℕ)
    → is_ascii_digit c ≡ true
    → is_ascii_digit e ≡ true
    → c ≢ e
    → ((is_valid_card_number (s ++ (c ∷ t)) && is_valid_card_number (s ++ (e ∷ t))) ≡ false)
      × (IsZeroAndNine c e
          ⊎ ((is_valid_card_number (s ++ (c ∷ e ∷ t)) && is_valid_card_number (s ++ (e ∷ c ∷ t)))
              ≡ false))
card_detects s t c e h k differ = (
  both_false _ _ (card_digit s t c e h k differ),
  elim (IsZeroAndNine-cases c e) [
    | inl special ↦ inl special
    | inr other ↦ inr (both_false _ _ (card_swap s t c e h k differ other))
  ],
)
