-- ===== src/Capture/Redact/Validate.antt =====
-- crates/woof-capture/src/redact.rs: the tests on what the patterns find.
use mathlib.Core.List.{reverse}
use woof.Prelude.{
  ℕ, ◌+◌, ◌-◌, ◌*◌, ◌%◌, Bool, true, false, not, ◌&&◌, ◌||◌, List, [], ◌∷◌, ◌++◌, ltb, leb, ◌==◌,
  if◌then◌else◌, length, take, drop,
}
use woof.Prelude.Text.{Text, codes, is_empty, text_eq, byte_len, trim}

abbrev pub is_ascii_digit : ℕ → Bool
is_ascii_digit c = leb 48 c && leb c 57

abbrev pub is_ascii_alphabetic : ℕ → Bool
is_ascii_alphabetic c = leb 65 c && leb c 90 || leb 97 c && leb c 122

abbrev pub is_ascii_whitespace : ℕ → Bool
is_ascii_whitespace c = c == 32 || c == 9 || c == 10 || c == 12 || c == 13

abbrev pub to_ascii_uppercase : ℕ → ℕ
to_ascii_uppercase c = if leb 97 c && leb c 122 then c - 32 else c

abbrev pub to_ascii_lowercase : ℕ → ℕ
to_ascii_lowercase c = if leb 65 c && leb c 90 then c + 32 else c

abbrev pub all : (ℕ → Bool) → List ℕ → Bool
all p [] = true
all p (c ∷ s) = p c && all p s

-- `.chars().filter_map(|value| value.to_digit(10))`
unfoldable pub digits_of : Text → List ℕ
digits_of [] = []
digits_of (c ∷ s) = let rest = digits_of s in if is_ascii_digit c then (c - 48) ∷ rest else rest

-- The summand of the digit at an index from the right.
abbrev pub weigh : ℕ → ℕ → ℕ
weigh index digit =
    if index % 2 == 1 then if ltb 9 (digit * 2) then digit * 2 - 9 else digit * 2 else digit

unfoldable pub luhn_sum : ℕ → List ℕ → ℕ
luhn_sum index [] = 0
luhn_sum index (digit ∷ digits) = weigh index digit + luhn_sum (index + 1) digits

abbrev pub all_same : List ℕ → Bool
all_same [] = true
all_same (digit ∷ digits) = all (λ d. d == digit) (digit ∷ digits)

unfoldable pub is_valid_card_number : Text → Bool
is_valid_card_number candidate =
    let digits = digits_of candidate in
    if not (leb 13 (length digits) && leb (length digits) 19) || all_same digits
    then false
    else luhn_sum 0 (reverse digits) % 10 == 0

-- `.chars().filter(char::is_ascii_digit)`
unfoldable pub only_digits : Text → Text
only_digits [] = []
only_digits (c ∷ s) = let rest = only_digits s in if is_ascii_digit c then c ∷ rest else rest

abbrev pub starts_with_nine : Text → Bool
starts_with_nine [] = false
starts_with_nine (c ∷ s) = c == 57

unfoldable pub is_valid_ssn : Text → Bool
is_valid_ssn candidate =
    let digits = only_digits candidate in
    let area = take 3 digits in
    let group = take 2 (drop 3 digits) in
    let serial = drop 5 digits in
    if length digits == 9
    then not (text_eq area (codes "000"))
      && not (text_eq area (codes "666"))
      && not (starts_with_nine area)
      && not (text_eq group (codes "00"))
      && not (text_eq serial (codes "0000"))
    else false

-- Without white space, in capitals.
unfoldable pub compacted : Text → Text
compacted [] = []
compacted (c ∷ s) =
    let rest = compacted s in if is_ascii_whitespace c then rest else to_ascii_uppercase c ∷ rest

abbrev pub add_character : ℕ → ℕ → ℕ
add_character remainder c =
    if is_ascii_digit c
    then (remainder * 10 + (c - 48)) % 97
    else (remainder * 100 + (c - 65 + 10)) % 97

unfoldable pub iban_remainder : ℕ → Text → ℕ
iban_remainder remainder [] = remainder
iban_remainder remainder (c ∷ s) = iban_remainder (add_character remainder c) s

unfoldable pub is_valid_iban : Text → Bool
is_valid_iban candidate =
    let compact = compacted candidate in
    if not (leb 15 (byte_len compact) && leb (byte_len compact) 34)
      || not (all is_ascii_alphabetic (take 2 compact))
      || not (all is_ascii_digit (take 2 (drop 2 compact)))
      || not (all (λ c. is_ascii_alphabetic c || is_ascii_digit c) compact)
    then false
    else iban_remainder 0 (drop 4 compact ++ take 4 compact) == 1

abbrev pub placeholders : List Text
placeholders =
    codes "changeme"
    ∷ codes "change-me"
    ∷ codes "change_me"
    ∷ codes "not-a-secret"
    ∷ codes "not_a_secret"
    ∷ codes "redacted"
    ∷ codes "[redacted]"
    ∷ codes "<redacted>"
    ∷ codes "example"
    ∷ codes "placeholder"
    ∷ codes "replace-me"
    ∷ codes "replace_me"
    ∷ codes "your password here"
    ∷ codes "your-password-here"
    ∷ codes "your_password_here"
    ∷ codes "your api key here"
    ∷ codes "your-api-key-here"
    ∷ codes "your_api_key_here"
    ∷ codes "akiaiosfodnn7example"
    ∷ []

abbrev pub lowercase : Text → Text
lowercase [] = []
lowercase (c ∷ s) = to_ascii_lowercase c ∷ lowercase s

abbrev pub is_one_of : List Text → Text → Bool
is_one_of [] s = false
is_one_of (t ∷ texts) s = text_eq s t || is_one_of texts s

unfoldable pub is_plausible_labeled_secret : Text → Bool
is_plausible_labeled_secret candidate =
    let normalized = lowercase (trim candidate) in
    if is_empty normalized then false else not (is_one_of placeholders normalized)
