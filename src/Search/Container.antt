-- ===== src/Search/Container.antt =====
-- crates/woof-search/src/index.rs: the container in which the search index is saved. SHA-256 is a
-- parameter; an address has 64 bits, and `none` is `SearchError::InvalidIndexContainer`.
pub mod Reading
pub mod RoundTrip
pub mod Words
pub mod Accepted
use woof.Prelude.{
  ℕ, zero, suc, ◌+◌, ◌*◌, ◌/◌, ◌%◌, Bool, true, false, not, ◌&&◌, ◌||◌, Option, none, some, List,
  [], ◌∷◌, ◌++◌, ltb, leb, ◌==◌, if◌then◌else◌, length, take, drop,
}
use woof.Prelude.Text.{text_eq}
use woof.Prelude.Word.{u64_max, u64_mod}

abbrev pub container_magic : List ℕ
container_magic = 87 ∷ 79 ∷ 79 ∷ 70 ∷ 72 ∷ 78 ∷ 83 ∷ 87 ∷ []

abbrev pub container_header_bytes : ℕ
container_header_bytes = 80

abbrev pub max_metadata_bytes : ℕ
max_metadata_bytes = 268435456

-- `to_le_bytes` of a word with so many bytes.
unfoldable pub to_le_bytes : ℕ → ℕ → List ℕ
to_le_bytes zero n = []
to_le_bytes (suc width) n = n % 256 ∷ to_le_bytes width (n / 256)

unfoldable pub from_le_bytes : List ℕ → ℕ
from_le_bytes [] = 0
from_le_bytes (b ∷ bytes) = b + 256 * from_le_bytes bytes

-- The fields before the counts: version, header, dimensions, metric, scalar, connectivity (twice),
-- reserved.
abbrev pub configuration_bytes : List ℕ
configuration_bytes = 2 ∷ 0 ∷ 80 ∷ 0 ∷ 0 ∷ 2 ∷ 0 ∷ 0 ∷ 1 ∷ 4 ∷ 16 ∷ 0 ∷ 32 ∷ 0 ∷ 0 ∷ 0 ∷ []

abbrev pub word : ℕ → ℕ → List ℕ → ℕ
word width offset bytes = from_le_bytes (take width (drop offset bytes))

-- `read_u16`, `read_u32` and `read_u64`.
unfoldable pub read : ℕ → List ℕ → ℕ → Option ℕ
read width bytes offset =
    if leb (offset + width) (length bytes) then some (word width offset bytes) else none

pub record DecodedContainer : Type 0 where
  pub record_count : ℕ
  pub metadata : List ℕ
  pub native : List ℕ

-- `?` after a read.
infixl 1 ◌>>=◌
abbrev pub ◌>>=◌ : Option ℕ → (ℕ → Option DecodedContainer) → Option DecodedContainer
none >>= next = none
some n >>= next = next n

-- The fields that must have one value.
abbrev pub is_configured : ℕ → ℕ → ℕ → ℕ → ℕ → ℕ → ℕ → ℕ → Bool
is_configured version header dimensions metric scalar connectivity base reserved =
    version == 2
    && header == container_header_bytes
    && dimensions == 512
    && metric == 1
    && scalar == 4
    && connectivity == 16
    && base == 32
    && reserved == 0

module _ (sha256 : List ℕ → List ℕ) where
  unfoldable pub encode_container : List ℕ → List ℕ → ℕ → List ℕ
  encode_container metadata native record_count =
      container_magic
      ++ to_le_bytes 2 2
      ++ to_le_bytes 2 container_header_bytes
      ++ to_le_bytes 4 512
      ++ (1 ∷ 4 ∷ [])
      ++ to_le_bytes 2 16
      ++ to_le_bytes 2 32
      ++ to_le_bytes 2 0
      ++ to_le_bytes 8 record_count
      ++ to_le_bytes 8 (length metadata)
      ++ to_le_bytes 8 (length native)
      ++ (sha256 (metadata ++ native) ++ (metadata ++ native))

  -- The last part: the checksum.
  abbrev pub verified : List ℕ → ℕ → List ℕ → List ℕ → Option DecodedContainer
  verified bytes record_count metadata native =
      if not (text_eq (sha256 (metadata ++ native)) (take 32 (drop 48 bytes)))
      then none
      else some (record { record_count = record_count; metadata = metadata; native = native })

  -- The part after the counts. The sum with the header may wrap.
  unfoldable pub decode_payload : List ℕ → ℕ → ℕ → ℕ → ℕ → Option DecodedContainer
  decode_payload bytes header_bytes record_count metadata_len native_len =
      if ltb max_metadata_bytes metadata_len || native_len == 0
      then none
      else if ltb u64_max (metadata_len + native_len)
      then none
      else if not (length bytes == (header_bytes + (metadata_len + native_len)) % u64_mod)
      then none
      else verified bytes record_count (take metadata_len (drop header_bytes bytes))
          (drop (header_bytes + metadata_len) bytes)

  -- The part after the fields are tested.
  unfoldable pub decode_counts : List ℕ → ℕ → Option DecodedContainer
  decode_counts bytes header_bytes = read 8 bytes 24 >>= λ record_count.
      read 8 bytes 32 >>= λ metadata_len. read 8 bytes 40 >>= λ native_len.
      decode_payload bytes header_bytes record_count metadata_len native_len

  unfoldable pub decode_header : List ℕ → Option DecodedContainer
  decode_header bytes = read 2 bytes 8 >>= λ version. read 2 bytes 10 >>= λ header.
      read 4 bytes 12 >>= λ dimensions. read 2 bytes 18 >>= λ connectivity.
      read 2 bytes 20 >>= λ base. read 2 bytes 22 >>= λ reserved.
      (if not (
          is_configured version header dimensions (word 1 16 bytes) (word 1 17 bytes) connectivity
            base reserved)
        then none
        else decode_counts bytes header)

  unfoldable pub decode_container : List ℕ → Option DecodedContainer
  decode_container bytes =
      if ltb (length bytes) container_header_bytes || not (text_eq (take 8 bytes) container_magic)
      then none
      else decode_header bytes
