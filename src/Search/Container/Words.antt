-- ===== src/Search/Container/Words.antt =====
-- crates/woof-search/src/index.rs: bytes as the words that are read from them.
use woof.Prelude.{
  ℕ, ◌+◌, ◌*◌, ◌/◌, ◌%◌, ◌≤◌, ◌<◌, ◌≡◌, refl, sym, ap, ◌∙◌, List, [], ◌∷◌, ◌++◌, length, take, drop,
  arith, length-take, length-drop, All, All-take, All-drop, take-drop,
}
use woof.Search.Container.{to_le_bytes, from_le_bytes, word}
use woof.Search.Container.RoundTrip.{drop-drop}

abbrev pub IsByte : ℕ → Type 0
IsByte b = b < 256

to_le_bytes-from_le_bytes :
    (bytes : List ℕ) → All IsByte bytes → to_le_bytes (length bytes) (from_le_bytes bytes) ≡ bytes
unfolding to_le_bytes from_le_bytes
to_le_bytes-from_le_bytes [] h = refl
to_le_bytes-from_le_bytes (b ∷ bytes) h =
    (λ i. low i ∷ to_le_bytes (length bytes) (high i))
    ∙ ap (λ l. b ∷ l) (to_le_bytes-from_le_bytes bytes h.1)
  where
    low : (b + 256 * from_le_bytes bytes) % 256 ≡ b
    low = omega (arith, h.0)

    high : (b + 256 * from_le_bytes bytes) / 256 ≡ from_le_bytes bytes
    high = omega (arith, h.0)

-- The bytes from an offset on: a word, and the rest.
word_rest :
    (width offset : ℕ) (bytes : List ℕ)
    → All IsByte bytes
    → offset + width ≤ length bytes
    → drop offset bytes ≡ to_le_bytes width (word width offset bytes) ++ drop (offset + width) bytes
word_rest width offset bytes h k =
    sym (take-drop width (drop offset bytes)) ∙ λ i. sym first i ++ drop-drop offset width bytes i
  where
    long : width ≤ length (drop offset bytes)
    long = omega (arith, length-drop offset bytes (omega (arith, k)))

    first : to_le_bytes width (word width offset bytes) ≡ take width (drop offset bytes)
    first =
        ap (λ w. to_le_bytes w (word width offset bytes))
          (sym (length-take width (drop offset bytes) long))
        ∙ to_le_bytes-from_le_bytes (take width (drop offset bytes))
            (All-take IsByte width (drop offset bytes) (All-drop IsByte offset bytes h))

-- A container from its words.
abbrev pub assembled : List ℕ → ℕ → ℕ → ℕ → ℕ → ℕ → ℕ → ℕ → ℕ → ℕ → ℕ → ℕ → List ℕ → List ℕ → List ℕ
assembled magic version header dimensions metric scalar connectivity base reserved record_count
      metadata_len native_len checksum payload =
    magic
    ++ (to_le_bytes 2 version
        ++ (to_le_bytes 2 header
            ++ (to_le_bytes 4 dimensions
                ++ (to_le_bytes 1 metric
                    ++ (to_le_bytes 1 scalar
                        ++ (to_le_bytes 2 connectivity
                            ++ (to_le_bytes 2 base
                                ++ (to_le_bytes 2 reserved
                                    ++ (to_le_bytes 8 record_count
                                        ++ (to_le_bytes 8 metadata_len
                                            ++ (to_le_bytes 8 native_len
                                                ++ (checksum ++ payload))))))))))))

pub bytes_assembled :
    (bytes : List ℕ)
    → All IsByte bytes
    → 80 ≤ length bytes
    → bytes
      ≡ assembled
          (take 8 bytes)
          (word 2 8 bytes)
          (word 2 10 bytes)
          (word 4 12 bytes)
          (word 1 16 bytes)
          (word 1 17 bytes)
          (word 2 18 bytes)
          (word 2 20 bytes)
          (word 2 22 bytes)
          (word 8 24 bytes)
          (word 8 32 bytes)
          (word 8 40 bytes)
          (take 32 (drop 48 bytes))
          (drop 80 bytes)
bytes_assembled bytes h k =
    sym (take-drop 8 bytes)
    ∙ ap (λ l. take 8 bytes ++ l)
        (word_rest 2 8 bytes h (omega arith)
          ∙ ap (λ l. to_le_bytes 2 (word 2 8 bytes) ++ l)
              (word_rest 2 10 bytes h (omega arith)
                ∙ ap (λ l. to_le_bytes 2 (word 2 10 bytes) ++ l)
                    (word_rest 4 12 bytes h (omega arith)
                      ∙ ap (λ l. to_le_bytes 4 (word 4 12 bytes) ++ l) (middle bytes h k))))
  where
    counts :
        (bytes : List ℕ)
        → All IsByte bytes
        → 80 ≤ length bytes
        → drop 24 bytes
          ≡ to_le_bytes 8 (word 8 24 bytes)
            ++ (to_le_bytes 8 (word 8 32 bytes)
                ++ (to_le_bytes 8 (word 8 40 bytes) ++ (take 32 (drop 48 bytes) ++ drop 80 bytes)))
    counts bytes h k =
        word_rest 8 24 bytes h (omega arith)
        ∙ ap (λ l. to_le_bytes 8 (word 8 24 bytes) ++ l)
            (word_rest 8 32 bytes h (omega arith)
              ∙ ap (λ l. to_le_bytes 8 (word 8 32 bytes) ++ l)
                  (word_rest 8 40 bytes h (omega arith)
                    ∙ ap (λ l. to_le_bytes 8 (word 8 40 bytes) ++ l)
                        (sym (take-drop 32 (drop 48 bytes))
                          ∙ ap (λ l. take 32 (drop 48 bytes) ++ l) (drop-drop 48 32 bytes))))

    middle :
        (bytes : List ℕ)
        → All IsByte bytes
        → 80 ≤ length bytes
        → drop 16 bytes
          ≡ to_le_bytes 1 (word 1 16 bytes)
            ++ (to_le_bytes 1 (word 1 17 bytes)
                ++ (to_le_bytes 2 (word 2 18 bytes)
                    ++ (to_le_bytes 2 (word 2 20 bytes)
                        ++ (to_le_bytes 2 (word 2 22 bytes)
                            ++ (to_le_bytes 8 (word 8 24 bytes)
                                ++ (to_le_bytes 8 (word 8 32 bytes)
                                    ++ (to_le_bytes 8 (word 8 40 bytes)
                                        ++ (take 32 (drop 48 bytes) ++ drop 80 bytes))))))))
    middle bytes h k =
        word_rest 1 16 bytes h (omega arith)
        ∙ ap (λ l. to_le_bytes 1 (word 1 16 bytes) ++ l)
            (word_rest 1 17 bytes h (omega arith)
              ∙ ap (λ l. to_le_bytes 1 (word 1 17 bytes) ++ l)
                  (word_rest 2 18 bytes h (omega arith)
                    ∙ ap (λ l. to_le_bytes 2 (word 2 18 bytes) ++ l)
                        (word_rest 2 20 bytes h (omega arith)
                          ∙ ap (λ l. to_le_bytes 2 (word 2 20 bytes) ++ l)
                              (word_rest 2 22 bytes h (omega arith)
                                ∙ ap (λ l. to_le_bytes 2 (word 2 22 bytes) ++ l)
                                    (counts bytes h k)))))
