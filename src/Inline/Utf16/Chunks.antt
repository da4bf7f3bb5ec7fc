-- ===== src/Inline/Utf16/Chunks.antt =====
-- crates/woof-inline/src/utf16.rs: the chunks of `utf16_chunks`.
use woof.Prelude.{
  ℕ, zero, suc, ◌+◌, ◌-◌, ◌≤◌, ◌<◌, ◌≡◌, refl, sym, ap, ◌∙◌, false, some, List, [], ◌∷◌, ◌++◌,
  append_assoc, append-nil, length, length-append, All, arith, take, drop, drop-append,
}
use native.Mathlib.Decide.{dec_lt}
use woof.Prelude.Text.{Text}
use woof.Prelude.Word.{u64_max}
use woof.Inline.Clipboard.{ok}
use woof.Inline.Utf16.{
  IsScalar, encode_utf16, splits_surrogate_pair, chunk_end, chunks_from, utf16_chunks,
}
use woof.Inline.Utf16.Boundary.{encode_utf16-append}
use woof.Inline.Utf16.Range.{tail-IsBoundary, whole_length, up_to_end}

abbrev pub concat : List (List ℕ) → List ℕ
concat [] = []
concat (chunk ∷ chunks) = chunk ++ concat chunks

-- Some characters, whole, in at most `maximum_units` units.
abbrev pub IsChunk : ℕ → List ℕ → Type 0
IsChunk maximum_units chunk =
    (0 < length chunk) × (length chunk ≤ maximum_units) × ((t : Text) × (chunk ≡ encode_utf16 t))

no_units : (us : List ℕ) → length us ≡ 0 → [] ≡ us
no_units [] h = refl
no_units (u ∷ us) h = absurd (omega arith)

encoded_length :
    (s t : Text)
    → length (encode_utf16 (s ++ t)) ≡ length (encode_utf16 s) + length (encode_utf16 t)
encoded_length s t =
    ap length (encode_utf16-append s t) ∙ length-append (encode_utf16 s) (encode_utf16 t)

module _ (maximum_units : ℕ) (room : 2 ≤ maximum_units) where
  chunk_end_lem :
      (units : List ℕ) (start : ℕ)
      → length units ≤ u64_max
      → start < length units
      → (start < chunk_end units maximum_units start)
        × (chunk_end units maximum_units start ≤ length units)
        × (chunk_end units maximum_units start ≤ start + maximum_units)
        × (splits_surrogate_pair units (chunk_end units maximum_units start) ≡ false)
  unfolding chunk_end splits_surrogate_pair
  chunk_end_lem units start fits h = ground (arith, room)

  chunks-step :
      (fuel : ℕ) (units : List ℕ) (start : ℕ) (chunks : List (List ℕ))
      → length units ≤ u64_max
      → start < length units
      → chunks_from (suc fuel) units maximum_units start chunks
        ≡ chunks_from fuel units maximum_units
            (chunk_end units maximum_units start)
            (chunks ++ (drop start (take (chunk_end units maximum_units start) units) ∷ []))
  unfolding chunks_from
  chunks-step fuel units start chunks fits h = ground (arith, chunk_end_lem units start fits h)

  chunks-end :
      (fuel : ℕ) (units : List ℕ) (start : ℕ) (chunks : List (List ℕ))
      → ¬ start < length units
      → chunks_from (suc fuel) units maximum_units start chunks ≡ some (ok (chunks ++ []))
  unfolding chunks_from
  chunks-end fuel units start chunks h = ground (arith, append-nil chunks)

  -- From the end of a part of the text, the loop adds the chunks of the rest.
  abbrev IsChunked : ℕ → List ℕ → ℕ → List (List ℕ) → Text → Type 0
  IsChunked fuel units start chunks d =
      (more : List (List ℕ)) × (chunks_from fuel units maximum_units start chunks
        ≡ some (ok (chunks ++ more)))
      × (concat more ≡ encode_utf16 d)
      × All (IsChunk maximum_units) more

  -- One round: the chunk holds the characters `b`, and the loop goes on at their end.
  add_chunk :
      (fuel : ℕ) (a b c : Text) (chunks : List (List ℕ))
      → All IsScalar (a ++ (b ++ c))
      → length (encode_utf16 (a ++ (b ++ c))) ≤ u64_max
      → 0 < length (encode_utf16 b)
      → length (encode_utf16 b) ≤ maximum_units
      → chunk_end (encode_utf16 (a ++ (b ++ c))) maximum_units (length (encode_utf16 a))
        ≡ length (encode_utf16 a) + length (encode_utf16 b)
      → IsChunked fuel
          (encode_utf16 ((a ++ b) ++ c))
          (length (encode_utf16 (a ++ b)))
          (chunks ++ (encode_utf16 b ∷ []))
          c
      → IsChunked
          (suc fuel)
          (encode_utf16 (a ++ (b ++ c)))
          (length (encode_utf16 a))
          chunks
          (b ++ c)
  add_chunk fuel a b c chunks h fits some_units few e (more, runs, joined, good) = (
    encode_utf16 b ∷ more,
    rw
        (
          chunks-step fuel whole (length (encode_utf16 a)) chunks fits
              (omega (arith, whole_length a b c [] h tt)),
          e,
          up_to_end a b c [] h tt,
          drop-append (encode_utf16 a) (encode_utf16 b),
          ← encoded_length a b,
          ← append_assoc a b c,
        )
        (runs ∙ ap (λ l. some (ok l)) (append_assoc chunks (encode_utf16 b ∷ []) more)),
    ap (λ us. encode_utf16 b ++ us) joined ∙ sym (encode_utf16-append b c),
    ((some_units, few, (b, refl)), good),
  )
    where
      whole : List ℕ
      whole = encode_utf16 (a ++ (b ++ c))

  add_chunk_to :
      (fuel : ℕ) (a b c d : Text) (chunks : List (List ℕ))
      → d ≡ b ++ c
      → All IsScalar (a ++ d)
      → length (encode_utf16 (a ++ d)) ≤ u64_max
      → 0 < length (encode_utf16 b)
      → length (encode_utf16 b) ≤ maximum_units
      → chunk_end (encode_utf16 (a ++ d)) maximum_units (length (encode_utf16 a))
        ≡ length (encode_utf16 a) + length (encode_utf16 b)
      → IsChunked fuel
          (encode_utf16 ((a ++ b) ++ c))
          (length (encode_utf16 (a ++ b)))
          (chunks ++ (encode_utf16 b ∷ []))
          c
      → IsChunked (suc fuel) (encode_utf16 (a ++ d)) (length (encode_utf16 a)) chunks d
  add_chunk_to fuel a b c d chunks f h fits some_units few e rest =
      rw f
        (add_chunk fuel a b c chunks (rw (← f) h) (rw (← f) fits) some_units few (rw (← f) e) rest)

  chunked :
      (fuel : ℕ) (a d : Text) (chunks : List (List ℕ))
      → All IsScalar (a ++ d)
      → length (encode_utf16 (a ++ d)) ≤ u64_max
      → length (encode_utf16 d) < fuel
      → IsChunked fuel (encode_utf16 (a ++ d)) (length (encode_utf16 a)) chunks d
  chunked zero a d chunks h fits enough = absurd (omega arith)
  chunked (suc fuel) a d chunks h fits enough =
      elim (dec_lt (length (encode_utf16 a)) (length (encode_utf16 (a ++ d)))) [
        | no done ↦ (
          [],
          chunks-end fuel (encode_utf16 (a ++ d)) (length (encode_utf16 a)) chunks done,
          no_units (encode_utf16 d) (omega (arith, encoded_length a d)),
          tt,
        )
        | yes more ↦
            let (later, within, few, whole) =
              chunk_end_lem (encode_utf16 (a ++ d)) (length (encode_utf16 a)) fits more in
            let end = chunk_end (encode_utf16 (a ++ d)) maximum_units (length (encode_utf16 a)) in
            let there : length (encode_utf16 a) + (end - length (encode_utf16 a)) ≡ end =
              omega arith in
            let (b, c, f, g) =
              tail-IsBoundary a d (end - length (encode_utf16 a)) h (omega arith)
                (rw there whole) in
            let regrouped : a ++ d ≡ (a ++ b) ++ c =
              ap (λ t. a ++ t) f ∙ sym (append_assoc a b c) in
            add_chunk_to fuel a b c d chunks f h fits (omega arith) (omega arith) (omega arith) (
              chunked fuel (a ++ b) c (chunks ++ (encode_utf16 b ∷ [])) (rw (← regrouped) h)
                (rw (← regrouped) fits)
                (omega (arith, ap (λ t. length (encode_utf16 t)) f, encoded_length b c)))
      ]

-- With room for a pair, the text is typed whole: the chunks in order are its units, none is empty or
-- longer than `maximum_units`, and each is the encoding of some characters, so no pair is split.
pub utf16_chunks_lem :
    (s : Text) (maximum_units : ℕ)
    → All IsScalar s
    → length (encode_utf16 s) ≤ u64_max
    → 2 ≤ maximum_units
    → (chunks : List (List ℕ)) × (utf16_chunks s maximum_units ≡ some (ok chunks))
      × (concat chunks ≡ encode_utf16 s)
      × All (IsChunk maximum_units) chunks
unfolding utf16_chunks
utf16_chunks_lem s maximum_units h fits room =
    let (chunks, runs, joined, good) =
      chunked maximum_units room (suc (length (encode_utf16 s))) [] s [] h fits (omega arith) in
    (chunks, ground (arith, runs), joined, good)
