-- ===== src/Capture/Redact/Iban.antt =====
-- crates/woof-capture/src/redact.rs: the check digits of an IBAN.
use woof.Prelude.{
  ℕ, ◌+◌, ◌-◌, ◌*◌, ◌%◌, ◌≤◌, ◌≡◌, refl, sym, ap, ◌∙◌, ◌↔◌, zero, suc, All-append, Bool, true,
  false, ◌||◌, [], ◌∷◌, ◌++◌, Bool-cases, inl, inr, if◌then◌else◌, take, drop, All, arith,
}
use woof.Prelude.Text.{Text, byte_len}
use woof.Capture.Redact.Validate.{
  all, is_ascii_digit, is_ascii_alphabetic, compacted, add_character, iban_remainder, is_valid_iban,
}

-- The whole number that ISO 13616 reads: two decimal digits for each letter.
unfoldable pub number : ℕ → Text → ℕ
number n [] = n
number n (c ∷ s) =
    if is_ascii_digit c then number (n * 10 + (c - 48)) s else number (n * 100 + (c - 55)) s

abbrev IsAlphanumeric : ℕ → Type 0
IsAlphanumeric c = (is_ascii_alphabetic c || is_ascii_digit c) ≡ true

add_digit :
    (n c : ℕ) → is_ascii_digit c ≡ true → add_character (n % 97) c ≡ (n * 10 + (c - 48)) % 97
add_digit n c h = ground arith

add_letter :
    (n c : ℕ)
    → IsAlphanumeric c
    → is_ascii_digit c ≡ false
    → add_character (n % 97) c ≡ (n * 100 + (c - 55)) % 97
add_letter n c h k = ground arith

-- The remainder that is kept below 97 is the number's.
iban_remainder-number :
    (n : ℕ) (s : Text) → All IsAlphanumeric s → iban_remainder (n % 97) s ≡ number n s % 97
unfolding iban_remainder number
iban_remainder-number n [] h = refl
iban_remainder-number n (c ∷ s) h = elim (Bool-cases (is_ascii_digit c)) [
  | inl digit ↦
      ap (λ r. iban_remainder r s) (add_digit n c digit)
      ∙ iban_remainder-number (n * 10 + (c - 48)) s h.1
      ∙ rw digit refl
  | inr letter ↦
      ap (λ r. iban_remainder r s) (add_letter n c h.0 letter)
      ∙ iban_remainder-number (n * 100 + (c - 55)) s h.1
      ∙ rw letter refl
]

all-All : (p : ℕ → Bool) (s : Text) → (all p s ≡ true) ↔ All (λ c. p c ≡ true) s
all-All p [] = (λ h. tt, λ h. refl)
all-All p (c ∷ s) = ground (arith, all-All p s)

All-rotated : (s : Text) → All IsAlphanumeric s → All IsAlphanumeric (drop 4 s ++ take 4 s)
All-rotated s h =
    let (front, back) = All-split 4 s h in
    All-append IsAlphanumeric (drop 4 s) (take 4 s) back front
  where
    All-split :
        (n : ℕ) (s : Text)
        → All IsAlphanumeric s
        → All IsAlphanumeric (take n s) × All IsAlphanumeric (drop n s)
    All-split zero s h = (tt, h)
    All-split (suc n) [] h = (tt, tt)
    All-split (suc n) (c ∷ s) h = let (front, back) = All-split n s h.1 in ((h.0, front), back)

-- Two letters, two digits, and 15 to 34 letters and digits in all.
abbrev pub IsIbanShape : Text → Type 0
IsIbanShape s =
    (15 ≤ byte_len s)
    × (byte_len s ≤ 34)
    × All (λ c. is_ascii_alphabetic c ≡ true) (take 2 s)
    × All (λ c. is_ascii_digit c ≡ true) (take 2 (drop 2 s))
    × All IsAlphanumeric s

abbrev pub LeavesOne : Text → Type 0
LeavesOne s = number 0 (drop 4 s ++ take 4 s) % 97 ≡ 1

-- The tests of the code.
abbrev Tested : Text → Type 0
Tested s =
    (15 ≤ byte_len s)
    × (byte_len s ≤ 34)
    × (all is_ascii_alphabetic (take 2 s) ≡ true)
    × (all is_ascii_digit (take 2 (drop 2 s)) ≡ true)
    × (all (λ c. is_ascii_alphabetic c || is_ascii_digit c) s ≡ true)
    × (iban_remainder 0 (drop 4 s ++ take 4 s) ≡ 1)

tested : (s : Text) → (is_valid_iban s ≡ true) ↔ Tested (compacted s)
unfolding is_valid_iban
tested s = ground arith

-- A text passes exactly if it has the shape of an IBAN, without its white space and in capitals, and
-- the number that it reads as, with its first four characters moved to the end, leaves 1 when
-- divided by 97.
pub is_valid_iban_iff :
    (s : Text) → (is_valid_iban s ≡ true) ↔ (IsIbanShape (compacted s) × LeavesOne (compacted s))
is_valid_iban_iff s = (passed, λ h. (tested s).1 (back h.0 h.1))
  where
    passed : is_valid_iban s ≡ true → IsIbanShape (compacted s) × LeavesOne (compacted s)
    passed h =
        let (few, many, letters, digits, others, one) = (tested s).0 h in
        let whole =
          (all-All (λ c. is_ascii_alphabetic c || is_ascii_digit c) (compacted s)).0 others in
        (
          (
            few,
            many,
            (all-All is_ascii_alphabetic (take 2 (compacted s))).0 letters,
            (all-All is_ascii_digit (take 2 (drop 2 (compacted s)))).0 digits,
            whole,
          ),
          sym (iban_remainder-number 0 _ (All-rotated (compacted s) whole)) ∙ one,
        )

    back : IsIbanShape (compacted s) → LeavesOne (compacted s) → Tested (compacted s)
    back (few, many, letters, digits, whole) one = (
      few,
      many,
      (all-All is_ascii_alphabetic (take 2 (compacted s))).1 letters,
      (all-All is_ascii_digit (take 2 (drop 2 (compacted s)))).1 digits,
      (all-All (λ c. is_ascii_alphabetic c || is_ascii_digit c) (compacted s)).1 whole,
      iban_remainder-number 0 _ (All-rotated (compacted s) whole) ∙ one,
    )
