-- ===== src/Capture/Redact/Marker.antt =====
-- crates/woof-capture/src/redact.rs: the shape of a placeholder, by which it is told from the text
-- around it and from the other placeholders.
use woof.Prelude.{
  ℕ, zero, suc, ◌+◌, ◌-◌, ◌*◌, ◌/◌, ◌%◌, ◌≤◌, ◌<◌, ◌≡◌, refl, sym, ap, ◌∙◌, true, false, [], ◌∷◌,
  ◌++◌, append_assoc, ltb, ◌==◌, if◌then◌else◌, All, All-append, arith, Bool-cases, inl, inr,
}
use woof.Prelude.Text.{Text, codes}
use woof.Prelude.Decimal.{decimal_from, decimal}
use woof.Capture.Redact.{
  RedactionKind, credential, email, iban, social_security_number, payment_card, card_security_code,
  phone, marker_name, starts_with, marker_prefix, marker_text,
}

abbrev pub Lacks : ℕ → Text → Type 0
Lacks c = All (λ d. (d == c) ≡ false)

-- The number behind the last `_`.
abbrev scan_char : ℕ → ℕ → ℕ
scan_char acc c = if c == 95 then 0 else if c == 93 then acc else acc * 10 + (c - 48)

scan : ℕ → Text → ℕ
scan acc [] = acc
scan acc (c ∷ s) = scan (scan_char acc c) s

scan-append : (acc : ℕ) (s t : Text) → scan acc (s ++ t) ≡ scan (scan acc s) t
unfolding scan
scan-append acc [] t = refl
scan-append acc (c ∷ s) t = scan-append (scan_char acc c) s t

scan-decimal_from : (fuel n : ℕ) → n < fuel → scan 0 (decimal_from fuel n) ≡ n
unfolding scan decimal_from
scan-decimal_from zero n h = absurd (omega arith)
scan-decimal_from (suc fuel) n h = ground (
  arith,
  scan-decimal_from fuel (n / 10),
  scan-append 0 (decimal_from fuel (n / 10)) ((48 + n % 10) ∷ []),
)

scan-marker_text :
    (nonce : Text) (kind : RedactionKind) (i : ℕ) → scan 0 (marker_text nonce kind i) ≡ i
unfolding scan marker_text decimal
scan-marker_text nonce kind i =
    scan-append 0 (marker_prefix nonce) _
    ∙ scan-append _ (marker_name kind) _
    ∙ scan-append 0 (decimal_from (suc i) i) (codes "]")
    ∙ scan-decimal_from (suc i) i (omega arith)

-- Two placeholders of different numbers are different.
pub marker_text-injective :
    (nonce : Text) (k k' : RedactionKind) (i j : ℕ)
    → marker_text nonce k i ≡ marker_text nonce k' j
    → i ≡ j
marker_text-injective nonce k k' i j h =
    sym (scan-marker_text nonce k i) ∙ ap (scan 0) h ∙ scan-marker_text nonce k' j

decimal_from-Lacks : (c fuel n : ℕ) → 58 ≤ c → Lacks c (decimal_from fuel n)
unfolding decimal_from
decimal_from-Lacks c zero n h = tt
decimal_from-Lacks c (suc fuel) n h = elim (Bool-cases (ltb n 10)) [
  | inl small ↦ rw small (ground arith, tt)
  | inr large ↦ rw large (
      All-append (λ d. (d == c) ≡ false) (decimal_from fuel (n / 10)) ((48 + n % 10) ∷ [])
        (decimal_from-Lacks c fuel (n / 10) h) (ground arith, tt))
]

marker_name-Lacks :
    (c : ℕ) (kind : RedactionKind) → 91 ≤ c → (c == 95) ≡ false → Lacks c (marker_name kind)
unfolding marker_name
marker_name-Lacks c kind h k = elim kind [
  | credential ↦ ground arith
  | email ↦ ground arith
  | iban ↦ ground arith
  | social_security_number ↦ ground arith
  | payment_card ↦ ground arith
  | card_security_code ↦ ground arith
  | phone ↦ ground arith
]

-- What stands before the last character.
abbrev body : Text → RedactionKind → ℕ → Text
body nonce kind i = marker_prefix nonce ++ (marker_name kind ++ (codes "_" ++ decimal i))

abbrev pub prefix_tail : Text → Text
prefix_tail nonce = codes "WOOF_REDACTED_" ++ (nonce ++ codes "_")

-- What stands after the first character.
abbrev pub marker_tail : Text → RedactionKind → ℕ → Text
marker_tail nonce kind i =
    prefix_tail nonce ++ (marker_name kind ++ (codes "_" ++ (decimal i ++ codes "]")))

abbrev pub label : RedactionKind → ℕ → Text
label kind i = marker_name kind ++ (codes "_" ++ (decimal i ++ codes "]"))

pub marker_text-label :
    (nonce : Text) (kind : RedactionKind) (i : ℕ)
    → marker_text nonce kind i ≡ marker_prefix nonce ++ label kind i
unfolding marker_text
marker_text-label nonce kind i = refl

pub marker_text-head :
    (nonce : Text) (kind : RedactionKind) (i : ℕ)
    → marker_text nonce kind i ≡ 91 ∷ marker_tail nonce kind i
unfolding marker_text marker_prefix
marker_text-head nonce kind i = refl

marker_text-last :
    (nonce : Text) (kind : RedactionKind) (i : ℕ)
    → marker_text nonce kind i ≡ body nonce kind i ++ (93 ∷ [])
unfolding marker_text
marker_text-last nonce kind i = simp append_assoc

-- The nonce is made of other characters than brackets.
abbrev pub IsNonce : Text → Type 0
IsNonce nonce = Lacks 91 nonce × Lacks 93 nonce

joined-Lacks : (c : ℕ) (s t : Text) → Lacks c s → Lacks c t → Lacks c (s ++ t)
joined-Lacks c = All-append (λ d. (d == c) ≡ false)

pub prefix_tail-Lacks : (nonce : Text) → Lacks 91 nonce → Lacks 91 (prefix_tail nonce)
prefix_tail-Lacks nonce h =
    joined-Lacks 91 (codes "WOOF_REDACTED_") (nonce ++ codes "_") (ground arith)
      (joined-Lacks 91 nonce (codes "_") h (ground arith))

pub marker_tail-Lacks :
    (nonce : Text) (kind : RedactionKind) (i : ℕ)
    → IsNonce nonce
    → Lacks 91 (marker_tail nonce kind i)
unfolding decimal
marker_tail-Lacks nonce kind i h =
    joined-Lacks 91 (prefix_tail nonce) (label kind i) (prefix_tail-Lacks nonce h.0) (
      joined-Lacks 91 (marker_name kind) _ (marker_name-Lacks 91 kind (omega arith) refl) (
        joined-Lacks 91 (codes "_") (decimal i ++ codes "]") (ground arith) (
          joined-Lacks 91 (decimal i) (codes "]") (decimal_from-Lacks 91 (suc i) i (omega arith))
            (ground arith))))

body-Lacks :
    (nonce : Text) (kind : RedactionKind) (i : ℕ) → IsNonce nonce → Lacks 93 (body nonce kind i)
unfolding decimal marker_prefix
body-Lacks nonce kind i h =
    joined-Lacks 93 (marker_prefix nonce) _
      (joined-Lacks 93 (codes "[WOOF_REDACTED_") (nonce ++ codes "_") (ground arith)
        (joined-Lacks 93 nonce (codes "_") h.1 (ground arith)))
      (joined-Lacks 93 (marker_name kind) _ (marker_name-Lacks 93 kind (omega arith) refl) (
        joined-Lacks 93 (codes "_") (decimal i) (ground arith)
          (decimal_from-Lacks 93 (suc i) i (omega arith))))

starts_with-closed :
    (u v s : Text)
    → Lacks 93 u
    → Lacks 93 v
    → starts_with (u ++ (93 ∷ [])) (v ++ (93 ∷ s)) ≡ true
    → u ≡ v
unfolding starts_with
starts_with-closed [] [] s h k e = refl
starts_with-closed [] (d ∷ v) s h k e = ground arith
starts_with-closed (c ∷ u) [] s h k e = ground arith
starts_with-closed (c ∷ u) (d ∷ v) s h k e = ground (arith, starts_with-closed u v s)

-- Where a text begins with one placeholder, it begins with no other.
pub starts_with-marker :
    (nonce : Text) (k k' : RedactionKind) (i j : ℕ) (s : Text)
    → IsNonce nonce
    → starts_with (marker_text nonce k i) (marker_text nonce k' j ++ s) ≡ true
    → i ≡ j
starts_with-marker nonce k k' i j s h e = marker_text-injective nonce k k' i j (
    marker_text-last nonce k i
    ∙ ap (λ u. u ++ (93 ∷ []))
        (starts_with-closed (body nonce k i) (body nonce k' j) s (body-Lacks nonce k i h)
          (body-Lacks nonce k' j h)
          (rw
            (
              ← marker_text-last nonce k i,
              ← append_assoc (body nonce k' j) (93 ∷ []) s,
              ← marker_text-last nonce k' j,
            )
            e))
    ∙ sym (marker_text-last nonce k' j))

pub starts_with_self : (m s : Text) → starts_with m (m ++ s) ≡ true
unfolding starts_with
starts_with_self [] s = refl
starts_with_self (c ∷ m) s = ground (arith, starts_with_self m s)

pub starts_with-part : (m n s : Text) → starts_with (m ++ n) s ≡ true → starts_with m s ≡ true
unfolding starts_with
starts_with-part [] n s e = refl
starts_with-part (c ∷ m) n [] e = ground arith
starts_with-part (c ∷ m) n (d ∷ s) e = ground (arith, starts_with-part m n s)
