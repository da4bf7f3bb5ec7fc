-- ===== src/Inline/Utf16/Boundary.antt =====
-- crates/woof-inline/src/utf16.rs: the places that split no surrogate pair are the ends of
-- characters.
use woof.Prelude.{
  ℕ, zero, suc, ◌+◌, ◌-◌, ◌≤◌, ◌<◌, ◌≡◌, refl, sym, true, false, some, List, [], ◌∷◌, ◌++◌,
  append_assoc, length, length-append, All, arith, ap, ◌∙◌,
}
use native.Mathlib.Decide.{dec_lt}
use woof.Prelude.Text.{Text}
use woof.Inline.Utf16.{
  IsScalar, encode_char, encode_utf16, followed_by, from_utf16, splits_surrogate_pair,
}

pub encode_utf16-append : (s t : Text) → encode_utf16 (s ++ t) ≡ encode_utf16 s ++ encode_utf16 t
unfolding encode_utf16
encode_utf16-append [] t = refl
encode_utf16-append (c ∷ s) t = simp (encode_utf16-append s t, append_assoc)

from_utf16-encode_char :
    (c : ℕ) (us : List ℕ)
    → IsScalar c
    → from_utf16 (encode_char c ++ us) ≡ followed_by c (from_utf16 us)
unfolding from_utf16 encode_char
from_utf16-encode_char c [] h = ground arith
from_utf16-encode_char c (u ∷ us) h = ground arith

-- Decoding undoes encoding.
pub from_utf16-encode_utf16 : (s : Text) → All IsScalar s → from_utf16 (encode_utf16 s) ≡ some s
unfolding encode_utf16 from_utf16
from_utf16-encode_utf16 [] h = refl
from_utf16-encode_utf16 (c ∷ s) h =
    rw (from_utf16-encode_char c (encode_utf16 s) h.0, from_utf16-encode_utf16 s h.1) refl

-- At the end of a character no pair is split, and past it the rest of the text decides.
splits-char :
    (c : ℕ) (us : List ℕ) (i : ℕ)
    → IsScalar c
    → splits_surrogate_pair (encode_char c ++ us) (length (encode_char c) + i)
      ≡ splits_surrogate_pair us i
unfolding splits_surrogate_pair encode_char
splits-char c us zero h = ground arith
splits-char c us (suc i) h = ground arith

-- Within a character, a pair is split.
splits-inside :
    (c : ℕ) (us : List ℕ) (i : ℕ)
    → IsScalar c
    → 0 < i
    → i < length (encode_char c)
    → splits_surrogate_pair (encode_char c ++ us) i ≡ true
unfolding splits_surrogate_pair encode_char
splits-inside c us zero h p q = absurd (omega arith)
splits-inside c us (suc i) h p q = ground arith

-- An index that is the end of a part of the text, in characters.
abbrev pub IsBoundary : Text → ℕ → Type 0
IsBoundary s i = (a : Text) × (c : Text) × (s ≡ a ++ c) × (length (encode_utf16 a) ≡ i)

pub splits-append :
    (a c : Text) (i : ℕ)
    → All IsScalar (a ++ c)
    → splits_surrogate_pair (encode_utf16 (a ++ c)) (length (encode_utf16 a) + i)
      ≡ splits_surrogate_pair (encode_utf16 c) i
unfolding encode_utf16
splits-append [] c i h = ap (splits_surrogate_pair (encode_utf16 c)) (omega arith)
splits-append (d ∷ a) c i h =
    ap (splits_surrogate_pair (encode_char d ++ encode_utf16 (a ++ c)))
      (omega (arith, length-append (encode_char d) (encode_utf16 a)))
    ∙ splits-char d (encode_utf16 (a ++ c)) (length (encode_utf16 a) + i) h.0
    ∙ splits-append a c i h.1

pub boundary :
    (s : Text) (i : ℕ)
    → All IsScalar s
    → i ≤ length (encode_utf16 s)
    → splits_surrogate_pair (encode_utf16 s) i ≡ false
    → IsBoundary s i
unfolding encode_utf16
boundary s zero h p q = ([], s, refl, refl)
boundary [] (suc i) h p q = absurd (omega arith)
boundary (c ∷ s) (suc i) h p q = elim (dec_lt (suc i) (length (encode_char c))) [
  | yes inside ↦
      absurd (grind (arith, splits-inside c (encode_utf16 s) (suc i) h.0 (omega arith) inside))
  | no outside ↦
      let k = suc i - length (encode_char c) in
      let e : length (encode_char c) + k ≡ suc i = omega arith in
      let (a, d, f, g) =
        boundary s k h.1 (omega (arith, p, length-append (encode_char c) (encode_utf16 s)))
          (sym (splits-char c (encode_utf16 s) k h.0) ∙ rw e q) in
      (
        c ∷ a,
        d,
        ap (λ t. c ∷ t) f,
        length-append (encode_char c) (encode_utf16 a) ∙ omega (arith, g, e),
      )
]
