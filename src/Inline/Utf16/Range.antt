-- ===== src/Inline/Utf16/Range.antt =====
-- crates/woof-inline/src/utf16.rs: what `slice_utf16_range` and `replace_utf16_range` do with any
-- range.
use woof.Prelude.{
  ℕ, ◌+◌, ◌≤◌, ◌≡◌, refl, sym, ◌⊎◌, inl, inr, false, ◌∙◌, List, [], ◌∷◌, ◌++◌, append_assoc, length,
  length-append, All, arith, ap, take, drop, take-append, drop-append, All-append,
}
use woof.Prelude.Text.{Text}
use woof.Prelude.Word.{u64_max}
use woof.Inline.Clipboard.{InlineError, invalid_range, Result, ok, err}
use woof.Inline.Utf16.{
  IsScalar, encode_utf16, splits_surrogate_pair, Utf16Range, validate_range, range_end,
  slice_utf16_range, replace_utf16_range,
}
use woof.Inline.Utf16.Boundary.{
  encode_utf16-append, from_utf16-encode_utf16, splits-append, IsBoundary, boundary,
}

-- The range covers `b`, between `a` and `c`.
abbrev pub IsCut : Text → Utf16Range → Text → Text → Text → Type 0
IsCut s range a b c =
    (s ≡ a ++ (b ++ c))
    × (range.location ≡ length (encode_utf16 a))
    × (range.length ≡ length (encode_utf16 b))

pub All-suffix : (a s : Text) → All IsScalar (a ++ s) → All IsScalar s
All-suffix [] s h = h
All-suffix (c ∷ a) s h = All-suffix a s h.1

pub All-prefix : (a s : Text) → All IsScalar (a ++ s) → All IsScalar a
All-prefix [] s h = tt
All-prefix (c ∷ a) s h = (h.0, All-prefix a s h.1)

splits-start : (us : List ℕ) → splits_surrogate_pair us 0 ≡ false
unfolding splits_surrogate_pair
splits-start us = refl

abbrev covering : Text → Text → Utf16Range
covering a b = record { location = length (encode_utf16 a); length = length (encode_utf16 b) }

module _ (a b c r : Text) (scalars : All IsScalar (a ++ (b ++ c))) (replaced : All IsScalar r) where
  abbrev pub whole : List ℕ
  whole = encode_utf16 (a ++ (b ++ c))

  whole_units : whole ≡ encode_utf16 a ++ (encode_utf16 b ++ encode_utf16 c)
  whole_units =
      encode_utf16-append a (b ++ c) ∙ ap (λ us. encode_utf16 a ++ us) (encode_utf16-append b c)

  pub whole_length :
      length whole ≡ length (encode_utf16 a) + (length (encode_utf16 b) + length (encode_utf16 c))
  whole_length =
      ap length whole_units
      ∙ length-append (encode_utf16 a) (encode_utf16 b ++ encode_utf16 c)
      ∙ ap (λ n. length (encode_utf16 a) + n) (length-append (encode_utf16 b) (encode_utf16 c))

  splits_at_start : splits_surrogate_pair whole (length (encode_utf16 a)) ≡ false
  splits_at_start =
      ap (splits_surrogate_pair whole) (omega arith)
      ∙ splits-append a (b ++ c) 0 scalars
      ∙ splits-start (encode_utf16 (b ++ c))

  splits_at_end :
      splits_surrogate_pair whole (length (encode_utf16 a) + length (encode_utf16 b)) ≡ false
  splits_at_end =
      splits-append a (b ++ c) (length (encode_utf16 b)) scalars
      ∙ ap (splits_surrogate_pair (encode_utf16 (b ++ c))) (omega arith)
      ∙ splits-append b c 0 (All-suffix a (b ++ c) scalars)
      ∙ splits-start (encode_utf16 c)

  validate_cut :
      length whole ≤ u64_max
      → validate_range whole (covering a b) ≡ ok (length (encode_utf16 a) + length (encode_utf16 b))
  unfolding validate_range range_end
  validate_cut fits = ground (arith, whole_length, splits_at_start, splits_at_end)

  regrouped : whole ≡ (encode_utf16 a ++ encode_utf16 b) ++ encode_utf16 c
  regrouped = whole_units ∙ sym (append_assoc (encode_utf16 a) (encode_utf16 b) (encode_utf16 c))

  abbrev pub before : List ℕ
  before = encode_utf16 a ++ encode_utf16 b

  pub up_to_end : take (length (encode_utf16 a) + length (encode_utf16 b)) whole ≡ before
  up_to_end =
      rw (regrouped, ← length-append (encode_utf16 a) (encode_utf16 b))
        (take-append before (encode_utf16 c))

  after_end : drop (length (encode_utf16 a) + length (encode_utf16 b)) whole ≡ encode_utf16 c
  after_end =
      rw (regrouped, ← length-append (encode_utf16 a) (encode_utf16 b))
        (drop-append before (encode_utf16 c))

  up_to_start : take (length (encode_utf16 a)) whole ≡ encode_utf16 a
  up_to_start = rw whole_units (take-append (encode_utf16 a) (encode_utf16 b ++ encode_utf16 c))

  slice_cut : length whole ≤ u64_max → slice_utf16_range (a ++ (b ++ c)) (covering a b) ≡ ok b
  unfolding slice_utf16_range
  slice_cut fits =
      rw
        (
          validate_cut fits,
          up_to_end,
          drop-append (encode_utf16 a) (encode_utf16 b),
          from_utf16-encode_utf16 b (All-prefix b c (All-suffix a (b ++ c) scalars)),
        )
        refl

  replace_cut :
      length whole ≤ u64_max
      → replace_utf16_range (a ++ (b ++ c)) (covering a b) r ≡ ok (a ++ (r ++ c))
  unfolding replace_utf16_range
  replace_cut fits =
      rw
        (
          validate_cut fits,
          up_to_start,
          after_end,
          ← encode_utf16-append r c,
          ← encode_utf16-append a (r ++ c),
          from_utf16-encode_utf16 (a ++ (r ++ c)) new_scalars,
        )
        refl
    where
      new_scalars : All IsScalar (a ++ (r ++ c))
      new_scalars =
          All-append IsScalar a (r ++ c) (All-prefix a (b ++ c) scalars)
            (All-append IsScalar r c replaced (All-suffix b c (All-suffix a (b ++ c) scalars)))

pub tail-IsBoundary :
    (a d : Text) (n : ℕ)
    → All IsScalar (a ++ d)
    → length (encode_utf16 a) + n ≤ length (encode_utf16 (a ++ d))
    → splits_surrogate_pair (encode_utf16 (a ++ d)) (length (encode_utf16 a) + n) ≡ false
    → IsBoundary d n
tail-IsBoundary a d n h p q =
    boundary d n (All-suffix a d h)
      (omega (
        arith,
        p,
        ap length (encode_utf16-append a d),
        length-append (encode_utf16 a) (encode_utf16 d),
      ))
      (sym (splits-append a d n h) ∙ q)

checked :
    (units : List ℕ) (range : Utf16Range) (end : ℕ)
    → validate_range units range ≡ ok end
    → (range.location + range.length ≤ length units)
      × (splits_surrogate_pair units range.location ≡ false)
      × (splits_surrogate_pair units (range.location + range.length) ≡ false)
unfolding validate_range range_end
checked units range end e = ground arith

-- A range that passes the checks covers whole characters.
validated :
    (s : Text) (range : Utf16Range) (end : ℕ)
    → All IsScalar s
    → validate_range (encode_utf16 s) range ≡ ok end
    → (a : Text) × (b : Text) × (c : Text) × IsCut s range a b c
validated s range end h e =
    let (p, q, r) = checked (encode_utf16 s) range end e in
    let (a, d, f, g) = boundary s range.location h (omega arith) q in
    let at : length (encode_utf16 a) + range.length ≡ range.location + range.length =
      omega (arith, g) in
    let (b, c, f', g') =
      tail-IsBoundary a d range.length (rw (← f) h) (rw (← f, at) p) (rw (← f, at) r) in
    (a, b, c, (f ∙ ap (λ t. a ++ t) f', sym g, sym g'))

range-of-cut :
    (s a b c : Text) (range : Utf16Range) (cut_out : IsCut s range a b c) → range ≡ covering a b
range-of-cut s a b c range (f, g, g') = λ i. record { location = g i; length = g' i }

module _ (s r : Text) (range : Utf16Range) where
  -- Both refuse the range, and it covers no whole characters of the text.
  abbrev pub IsRefused : Type 0
  IsRefused =
      (slice_utf16_range s range ≡ err invalid_range)
      × (replace_utf16_range s range r ≡ err invalid_range)
      × ((a b c : Text) → ¬ IsCut s range a b c)

  -- The range covers whole characters: those are the slice, and they are replaced.
  abbrev pub IsAnswered : Type 0
  IsAnswered =
      (a : Text) × (b : Text) × (c : Text) × IsCut s range a b c
      × (slice_utf16_range s range ≡ ok b)
      × (replace_utf16_range s range r ≡ ok (a ++ (r ++ c)))

Result-cases :
    {A : Type 0} (x : Result A) → ((e : InlineError) × (x ≡ err e)) ⊎ ((a : A) × (x ≡ ok a))
Result-cases (err e) = inl (e, refl)
Result-cases (ok a) = inr (a, refl)

refused :
    (s r : Text) (range : Utf16Range) (e : InlineError)
    → validate_range (encode_utf16 s) range ≡ err e
    → (slice_utf16_range s range ≡ err invalid_range)
      × (replace_utf16_range s range r ≡ err invalid_range)
unfolding validate_range range_end slice_utf16_range replace_utf16_range
refused s r range e h = ground arith

validated-of-cut :
    (s a b c : Text) (range : Utf16Range)
    → All IsScalar s
    → length (encode_utf16 s) ≤ u64_max
    → IsCut s range a b c
    → (n : ℕ) × (validate_range (encode_utf16 s) range ≡ ok n)
validated-of-cut s a b c range h fits p = (
  _,
  ap (validate_range (encode_utf16 s)) (range-of-cut s a b c range p)
      ∙ ap (λ t. validate_range (encode_utf16 t) (covering a b)) p.0
      ∙ validate_cut a b c [] (rw (← p.0) h) tt (rw (← p.0) fits),
)

-- A range in UTF-16 coordinates is refused exactly where it covers no whole characters of the text;
-- otherwise the slice is those characters, and the replacement puts the new text in their place.
pub range_answers :
    (s r : Text) (range : Utf16Range)
    → All IsScalar s
    → All IsScalar r
    → length (encode_utf16 s) ≤ u64_max
    → IsRefused s r range ⊎ IsAnswered s r range
range_answers s r range h k fits = elim (Result-cases (validate_range (encode_utf16 s) range)) [
  | inl (e, x) ↦
      let (y, z) = refused s r range e x in
      inl (
        y,
        z,
        λ a b c p. let (n, o) = validated-of-cut s a b c range h fits p in grind (arith, x, o),
      )
  | inr (n, x) ↦
      let (a, b, c, p) = validated s range n h x in
      inr (
        a,
        b,
        c,
        p,
        ap (slice_utf16_range s) (range-of-cut s a b c range p)
            ∙ ap (λ t. slice_utf16_range t (covering a b)) p.0
            ∙ slice_cut a b c r (rw (← p.0) h) k (rw (← p.0) fits),
        ap (λ x. replace_utf16_range s x r) (range-of-cut s a b c range p)
            ∙ ap (λ t. replace_utf16_range t (covering a b) r) p.0
            ∙ replace_cut a b c r (rw (← p.0) h) k (rw (← p.0) fits),
      )
]
