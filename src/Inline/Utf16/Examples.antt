-- ===== src/Inline/Utf16/Examples.antt =====
-- The tests of crates/woof-inline/src/utf16.rs.
use woof.Prelude.{ℕ, ◌≡◌, refl, ◌⊎◌, inl, inr, some, List, [], ◌∷◌, All, arith}
use woof.Prelude.Text.{Text, codes}
use woof.Inline.Clipboard.{invalid_range, err, ok}
use woof.Inline.Utf16.{
  IsScalar, encode_char, encode_utf16, from_utf16, splits_surrogate_pair, range_end, validate_range,
  slice_utf16_range, replace_utf16_range, chunk_end, chunks_from, utf16_chunks,
}
use woof.Inline.Utf16.Range.{IsRefused, IsAnswered, range_answers}
use woof.Inline.Utf16.Chunks.{concat, IsChunk, utf16_chunks_lem}

abbrev dog : ℕ
dog = 0x1F436

abbrev with_dog : Text
with_dog = 97 ∷ dog ∷ 98 ∷ 99 ∷ []

abbrev with_dog_IsScalar : All IsScalar with_dog
with_dog_IsScalar = (
  inl (omega arith),
  (inr (omega arith, omega arith), (inl (omega arith), (inl (omega arith), tt))),
)

slices : slice_utf16_range with_dog (record { location = 1; length = 2 }) ≡ ok (dog ∷ [])
unfolding slice_utf16_range encode_utf16 encode_char from_utf16 splits_surrogate_pair range_end
    validate_range
slices = refl

replaces :
    replace_utf16_range with_dog (record { location = 1; length = 2 }) (codes "boxer")
    ≡ ok (codes "aboxerbc")
unfolding replace_utf16_range encode_utf16 encode_char from_utf16 splits_surrogate_pair range_end
    validate_range
replaces = refl

rejects_half_a_pair :
    slice_utf16_range with_dog (record { location = 2; length = 1 }) ≡ err invalid_range
unfolding slice_utf16_range encode_utf16 encode_char from_utf16 splits_surrogate_pair range_end
    validate_range
rejects_half_a_pair = refl

rejects_overflow :
    replace_utf16_range with_dog (record { location = 18446744073709551615; length = 2 }) []
    ≡ err invalid_range
unfolding replace_utf16_range encode_utf16 encode_char from_utf16 splits_surrogate_pair range_end
    validate_range
rejects_overflow = refl

range_answers_example :
    IsRefused with_dog (codes "x") (record { location = 1; length = 2 })
    ⊎ IsAnswered with_dog (codes "x") (record { location = 1; length = 2 })
unfolding encode_utf16 encode_char
range_answers_example =
    range_answers with_dog (codes "x") (record { location = 1; length = 2 }) with_dog_IsScalar
      (inl (omega arith), tt) (omega arith)

chunks :
    utf16_chunks with_dog 2 ≡ some (ok ((97 ∷ []) ∷ (0xD83D ∷ 0xDC36 ∷ []) ∷ (98 ∷ 99 ∷ []) ∷ []))
unfolding utf16_chunks chunks_from chunk_end encode_utf16 encode_char splits_surrogate_pair
chunks = refl

no_room : utf16_chunks with_dog 1 ≡ some (err invalid_range)
unfolding utf16_chunks chunks_from chunk_end encode_utf16 encode_char splits_surrogate_pair
no_room = refl

utf16_chunks_lem_example :
    (parts : List (List ℕ)) × (utf16_chunks with_dog 20 ≡ some (ok parts))
    × (concat parts ≡ encode_utf16 with_dog)
    × All (IsChunk 20) parts
unfolding encode_utf16 encode_char
utf16_chunks_lem_example =
    utf16_chunks_lem with_dog 20 with_dog_IsScalar (omega arith) (omega arith)
