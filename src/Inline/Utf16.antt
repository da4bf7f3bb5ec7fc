-- ===== src/Inline/Utf16.antt =====
-- crates/woof-inline/src/utf16.rs and `Utf16Range` of model.rs: ranges in the coordinates of the
-- Accessibility API, and the chunks in which text is typed. `encode_utf16` and `String::from_utf16`
-- are the standard library's.
pub mod Boundary
pub mod Range
pub mod Chunks
mod Examples
use woof.Prelude.{
  ℕ, zero, suc, ◌+◌, ◌-◌, ◌*◌, ◌/◌, ◌%◌, ◌≤◌, ◌<◌, ◌⊎◌, Bool, true, false, ◌&&◌, ◌||◌, Option, none,
  some, List, [], ◌∷◌, ◌++◌, ltb, leb, ◌==◌, if◌then◌else◌, length, take, drop, min,
}
use woof.Prelude.Text.{Text}
use woof.Prelude.Word.{u64_max, saturating_add}
use woof.Inline.Clipboard.{invalid_range, Result, ok, err}

abbrev pub is_high : ℕ → Bool
is_high u = leb 0xD800 u && leb u 0xDBFF

abbrev pub is_low : ℕ → Bool
is_low u = leb 0xDC00 u && leb u 0xDFFF

-- A Unicode scalar value, as every `char` is.
abbrev pub IsScalar : ℕ → Type 0
IsScalar c = (c < 0xD800) ⊎ ((0xE000 ≤ c) × (c < 0x110000))

unfoldable pub encode_char : ℕ → List ℕ
encode_char c =
    if ltb c 0x10000
    then c ∷ []
    else (0xD800 + (c - 0x10000) / 1024) ∷ (0xDC00 + (c - 0x10000) % 1024) ∷ []

-- `str::encode_utf16`.
unfoldable pub encode_utf16 : Text → List ℕ
encode_utf16 [] = []
encode_utf16 (c ∷ s) = encode_char c ++ encode_utf16 s

abbrev pub followed_by : ℕ → Option Text → Option Text
followed_by c none = none
followed_by c (some s) = some (c ∷ s)

-- `String::from_utf16`: an unpaired surrogate is an error.
unfoldable pub from_utf16 : List ℕ → Option Text
from_utf16 [] = some []
from_utf16 (u ∷ []) = if is_high u || is_low u then none else some (u ∷ [])
from_utf16 (u ∷ v ∷ us) =
    let pair = from_utf16 us in
    let one = from_utf16 (v ∷ us) in
    if is_high u && is_low v
    then followed_by (0x10000 + (u - 0xD800) * 1024 + (v - 0xDC00)) pair
    else if is_high u || is_low u
    then none
    else followed_by u one

-- `units[index]`; the 0 past the end is not reached, as every index is tested before.
abbrev pub unit_at : List ℕ → ℕ → ℕ
unit_at [] i = 0
unit_at (u ∷ us) zero = u
unit_at (u ∷ us) (suc i) = unit_at us i

unfoldable pub splits_surrogate_pair : List ℕ → ℕ → Bool
splits_surrogate_pair units index =
    ltb 0 index
    && ltb index (length units)
    && is_high (unit_at units (index - 1))
    && is_low (unit_at units index)

pub record Utf16Range : Type 0 where
  pub location : ℕ
  pub length : ℕ

-- `Utf16Range::end`, with `checked_add`.
unfoldable pub range_end : Utf16Range → Option ℕ
range_end range =
    if leb (range.location + range.length) u64_max
    then some (range.location + range.length)
    else none

abbrev pub checked_end : List ℕ → Utf16Range → Option ℕ → Result ℕ
checked_end units range none = err invalid_range
checked_end units range (some end) =
    if ltb (length units) end
      || splits_surrogate_pair units range.location
      || splits_surrogate_pair units end
    then err invalid_range
    else ok end

unfoldable pub validate_range : List ℕ → Utf16Range → Result ℕ
unfolding range_end splits_surrogate_pair
validate_range units range = checked_end units range (range_end range)

-- `.map_err(|_| InlineError::InvalidRange)`
abbrev pub or_invalid : Option Text → Result Text
or_invalid none = err invalid_range
or_invalid (some s) = ok s

abbrev pub slice_units : List ℕ → ℕ → Result ℕ → Result Text
slice_units units location (err e) = err e
slice_units units location (ok end) = or_invalid (from_utf16 (drop location (take end units)))

unfoldable pub slice_utf16_range : Text → Utf16Range → Result Text
unfolding encode_utf16 validate_range from_utf16
slice_utf16_range value range =
    let units = encode_utf16 value in slice_units units range.location (validate_range units range)

-- `units.splice(location..end, replacement)`
abbrev pub splice_units : List ℕ → ℕ → List ℕ → Result ℕ → Result Text
splice_units units location replacement (err e) = err e
splice_units units location replacement (ok end) =
    or_invalid (from_utf16 (take location units ++ (replacement ++ drop end units)))

unfoldable pub replace_utf16_range : Text → Utf16Range → Text → Result Text
unfolding encode_utf16 validate_range from_utf16
replace_utf16_range value range replacement =
    let units = encode_utf16 value in
    splice_units units range.location (encode_utf16 replacement) (validate_range units range)

-- The end of the chunk that begins at `start`.
unfoldable pub chunk_end : List ℕ → ℕ → ℕ → ℕ
unfolding splits_surrogate_pair
chunk_end units maximum_units start =
    let end = min (saturating_add u64_max start maximum_units) (length units) in
    if ltb end (length units) && splits_surrogate_pair units end then end - 1 else end

-- The loop. `none` means that the fuel ran out.
unfoldable pub chunks_from : ℕ → List ℕ → ℕ → ℕ → List (List ℕ) → Option (Result (List (List ℕ)))
unfolding chunk_end
chunks_from zero units maximum_units start chunks = none
chunks_from (suc fuel) units maximum_units start chunks =
    let end = chunk_end units maximum_units start in
    let rest =
      chunks_from fuel units maximum_units end (chunks ++ (drop start (take end units) ∷ [])) in
    if ltb start (length units)
    then if end == start then some (err invalid_range) else rest
    else some (ok chunks)

unfoldable pub utf16_chunks : Text → ℕ → Option (Result (List (List ℕ)))
unfolding encode_utf16 chunks_from
utf16_chunks value maximum_units =
    let units = encode_utf16 value in
    if maximum_units == 0
    then some (err invalid_range)
    else chunks_from (suc (length units)) units maximum_units 0 []
