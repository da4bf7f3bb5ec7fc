-- ===== src/Capture/Truncate.antt =====
-- crates/woof-capture/src/engine.rs: `truncate_utf8`, and `truncate_owned_utf8`, which is the same
-- function on an owned string.
use woof.Prelude.{
  ℕ, zero, suc, ◌+◌, ◌-◌, ◌≤◌, ◌<◌, Bool, true, false, [], ◌∷◌, ◌++◌, leb, ◌==◌, if◌then◌else◌, ◌≡◌,
  refl, ap, arith, Bool-cases, inl, inr, ◌⊎◌, append-nil, ◌||◌, ◌&&◌, leb→le,
}
use woof.Prelude.Text.{Text, byte_len, len_utf8, len_utf8_bounds}

-- `str::is_char_boundary`.
unfoldable pub is_char_boundary : Text → ℕ → Bool
is_char_boundary [] b = b == 0
is_char_boundary (c ∷ s) b = b == 0 || leb (len_utf8 c) b && is_char_boundary s (b - len_utf8 c)

-- `&value[..b]`, at a boundary.
slice_to : Text → ℕ → Text
slice_to [] b = []
slice_to (c ∷ s) b = if leb (len_utf8 c) b then c ∷ slice_to s (b - len_utf8 c) else []

-- The loop that lowers the boundary to one between characters.
lower_boundary : Text → ℕ → ℕ
lower_boundary s zero = zero
lower_boundary s (suc b) =
    let lower = lower_boundary s b in if is_char_boundary s (suc b) then suc b else lower

unfoldable pub truncate_utf8 : Text → ℕ → Text
unfolding lower_boundary slice_to
truncate_utf8 value maximum_bytes =
    if leb (byte_len value) maximum_bytes
    then value
    else slice_to value (lower_boundary value maximum_bytes)

boundary_zero : (s : Text) → is_char_boundary s 0 ≡ true
unfolding is_char_boundary
boundary_zero [] = refl
boundary_zero (c ∷ s) = refl

leb_cases : (a b : ℕ) → (a ≤ b) ⊎ (b < a)
leb_cases a b = omega arith

slice_to-lower :
    (s : Text) (b : ℕ) → is_char_boundary s (suc b) ≡ false → slice_to s (suc b) ≡ slice_to s b
unfolding is_char_boundary slice_to
slice_to-lower [] b h = refl
slice_to-lower (c ∷ s) b h = elim (leb_cases (len_utf8 c) b) [
  | inl short ↦
      let e : suc b - len_utf8 c ≡ suc (b - len_utf8 c) = omega arith in
      rw e
        (ground (arith, slice_to-lower s (b - len_utf8 c), boundary_zero s, len_utf8_bounds c, e))
  | inr long ↦ ground (arith, boundary_zero s, len_utf8_bounds c)
]

slice_to-lower_boundary : (s : Text) (b : ℕ) → slice_to s (lower_boundary s b) ≡ slice_to s b
unfolding lower_boundary
slice_to-lower_boundary s zero = refl
slice_to-lower_boundary s (suc b) = ground (arith, slice_to-lower_boundary s b, slice_to-lower s b)

byte_len-slice_to-le : (s : Text) (b : ℕ) → byte_len (slice_to s b) ≤ b
unfolding slice_to byte_len
byte_len-slice_to-le [] b = omega arith
byte_len-slice_to-le (c ∷ s) b = ground (arith, byte_len-slice_to-le s (b - len_utf8 c))

-- `rest` does not begin with a character that still fits behind `s` in `b` bytes.
abbrev pub IsFull : ℕ → Text → Text → Type 0
IsFull b s [] = Unit
IsFull b s (c ∷ rest) = b < byte_len s + len_utf8 c

IsFull-cons :
    (b c : ℕ) (t rest : Text)
    → len_utf8 c ≤ b
    → IsFull (b - len_utf8 c) t rest
    → IsFull b (c ∷ t) rest
unfolding byte_len
IsFull-cons b c t [] le h = tt
IsFull-cons b c t (d ∷ rest) le h = omega arith

slice_to-IsFull :
    (s : Text) (b : ℕ) → (rest : Text) × (slice_to s b ++ rest ≡ s) × IsFull b (slice_to s b) rest
unfolding slice_to byte_len
slice_to-IsFull [] b = ([], refl, tt)
slice_to-IsFull (c ∷ s) b = elim (Bool-cases (leb (len_utf8 c) b)) [
  | inl fits ↦
      let (rest, e, full) = slice_to-IsFull s (b - len_utf8 c) in
      rw fits (
        rest,
        ap (◌∷◌ c) e,
        IsFull-cons b c (slice_to s (b - len_utf8 c)) rest (leb→le _ _ fits) full,
      )
  | inr long ↦ rw long (c ∷ s, refl, ground arith)
]

-- The truncation is a prefix of the text, takes at most the given number of bytes, and is as long as
-- that allows: what is cut off is nothing, or begins with a character that does not fit any more.
pub truncate_utf8_prefix :
    (s : Text) (b : ℕ)
    → (rest : Text) × (truncate_utf8 s b ++ rest ≡ s)
      × (byte_len (truncate_utf8 s b) ≤ b)
      × IsFull b (truncate_utf8 s b) rest
unfolding truncate_utf8
truncate_utf8_prefix s b = elim (Bool-cases (leb (byte_len s) b)) [
  | inl fits ↦ rw fits ([], append-nil s, leb→le _ _ fits, tt)
  | inr long ↦
      let (rest, e, full) = slice_to-IsFull s b in
      rw (long, slice_to-lower_boundary s b) (rest, e, byte_len-slice_to-le s b, full)
]
