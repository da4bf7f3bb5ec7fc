-- ===== src/Search/Examples.antt =====
-- The tests of crates/woof-search/src/index.rs.
use woof.Prelude.{
  ℕ, ◌≤◌, ◌<◌, ◌%◌, ◌≡◌, refl, Bool, true, ◌&&◌, none, some, List, [], ◌∷◌, ltb, arith, length, All,
}
use woof.Prelude.Text.{text_eq}
use woof.Search.Container.{
  max_metadata_bytes, to_le_bytes, from_le_bytes, read, encode_container, decode_payload,
  decode_header, decode_counts, decode_container,
}
use woof.Search.Container.RoundTrip.{decode_container-encode_container}
use woof.Search.Container.Words.{IsByte}
use woof.Search.Container.Accepted.{decode_container_canonical}

-- A digest with as many bytes as that of SHA-256.
abbrev short_digest : List ℕ → List ℕ
short_digest bytes =
    length bytes % 256
    ∷ 0
    ∷ 0
    ∷ 0
    ∷ 0
    ∷ 0
    ∷ 0
    ∷ 0
    ∷ 0
    ∷ 0
    ∷ 0
    ∷ 0
    ∷ 0
    ∷ 0
    ∷ 0
    ∷ 0
    ∷ 0
    ∷ 0
    ∷ 0
    ∷ 0
    ∷ 0
    ∷ 0
    ∷ 0
    ∷ 0
    ∷ 0
    ∷ 0
    ∷ 0
    ∷ 0
    ∷ 0
    ∷ 0
    ∷ 0
    ∷ 0
    ∷ []

abbrev sample_metadata : List ℕ
sample_metadata = 123 ∷ 125 ∷ []

abbrev sample_graph : List ℕ
sample_graph = 7 ∷ 200 ∷ 9 ∷ []

decode_container-encode_container_example :
    decode_container short_digest (encode_container short_digest sample_metadata sample_graph 300)
    ≡ some (record { record_count = 300; metadata = sample_metadata; native = sample_graph })
decode_container-encode_container_example =
    decode_container-encode_container short_digest (λ bytes. refl) sample_metadata sample_graph 300
      (omega arith) (omega arith) (omega arith) (omega arith)

are_bytes : List ℕ → Bool
are_bytes [] = true
are_bytes (b ∷ bytes) = ltb b 256 && are_bytes bytes

are_bytes-All : (bytes : List ℕ) → are_bytes bytes ≡ true → All IsByte bytes
unfolding are_bytes
are_bytes-All [] e = tt
are_bytes-All (b ∷ bytes) e = (ground (arith, e), are_bytes-All bytes (ground (arith, e)))

abbrev sample_file : List ℕ
sample_file = encode_container short_digest sample_metadata sample_graph 300

sample_file_bytes : All IsByte sample_file
unfolding are_bytes encode_container to_le_bytes
sample_file_bytes = are_bytes-All sample_file refl

sample_file-decoded :
    decode_container short_digest sample_file
    ≡ some (record { record_count = 300; metadata = sample_metadata; native = sample_graph })
sample_file-decoded =
    decode_container-encode_container short_digest (λ bytes. refl) sample_metadata sample_graph 300
      (omega arith) (omega arith) (omega arith) (omega arith)

decode_container_canonical_example :
    (encode_container short_digest sample_metadata sample_graph 300 ≡ sample_file)
    × (2 ≤ max_metadata_bytes)
    × (0 < 3)
decode_container_canonical_example =
    decode_container_canonical short_digest sample_file
      (record { record_count = 300; metadata = sample_metadata; native = sample_graph })
      sample_file_bytes sample_file-decoded

-- A file with another checksum is refused.
rejects_a_wrong_checksum :
    decode_container short_digest
      (encode_container (λ bytes. short_digest (0 ∷ bytes)) sample_metadata (7 ∷ []) 1)
    ≡ none
unfolding decode_container decode_header decode_counts decode_payload encode_container to_le_bytes
    from_le_bytes read text_eq
rejects_a_wrong_checksum = refl
