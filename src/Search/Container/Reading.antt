-- ===== src/Search/Container/Reading.antt =====
-- crates/woof-search/src/index.rs: what the reads of a container give.
use woof.Prelude.{
  ℕ, zero, suc, ◌+◌, ◌*◌, ◌/◌, ◌≤◌, ◌<◌, ◌≡◌, refl, ap, true, false, not, Option, none, some, List,
  ltb, if◌then◌else◌, length, take, arith,
}
use woof.Prelude.Text.{text_eq}
use woof.Search.Container.{
  container_magic, to_le_bytes, from_le_bytes, word, read, DecodedContainer, is_configured,
  decode_counts, decode_payload, decode_header, decode_container,
}

abbrev pub le_limit : ℕ → ℕ
le_limit zero = 1
le_limit (suc width) = 256 * le_limit width

pub from_le_bytes-to_le_bytes :
    (width n : ℕ) → n < le_limit width → from_le_bytes (to_le_bytes width n) ≡ n
unfolding from_le_bytes to_le_bytes
from_le_bytes-to_le_bytes zero n h = omega arith
from_le_bytes-to_le_bytes (suc width) n h =
    omega (arith, from_le_bytes-to_le_bytes width (n / 256) (omega arith))

pub length-to_le_bytes : (width n : ℕ) → length (to_le_bytes width n) ≡ width
unfolding to_le_bytes
length-to_le_bytes zero n = refl
length-to_le_bytes (suc width) n = ap suc (length-to_le_bytes width (n / 256))

pub read-some :
    (width : ℕ) (bytes : List ℕ) (offset : ℕ)
    → offset + width ≤ length bytes
    → read width bytes offset ≡ some (word width offset bytes)
unfolding read
read-some width bytes offset h = ground (arith, h)

module _ (sha256 : List ℕ → List ℕ) where
  -- The header without its reads.
  unfoldable pub decoded : List ℕ → Option DecodedContainer
  decoded bytes =
      if not (
        is_configured (word 2 8 bytes) (word 2 10 bytes) (word 4 12 bytes) (word 1 16 bytes)
          (word 1 17 bytes) (word 2 18 bytes) (word 2 20 bytes) (word 2 22 bytes))
      then none
      else decode_payload sha256 bytes (word 2 10 bytes) (word 8 24 bytes) (word 8 32 bytes)
          (word 8 40 bytes)

  pub decode_header-decoded :
      (bytes : List ℕ) → 80 ≤ length bytes → decode_header sha256 bytes ≡ decoded bytes
  unfolding decode_header decode_counts decoded
  decode_header-decoded bytes h = rw (
    read-some 2 bytes 8 (omega arith),
    read-some 2 bytes 10 (omega arith),
    read-some 4 bytes 12 (omega arith),
    read-some 2 bytes 18 (omega arith),
    read-some 2 bytes 20 (omega arith),
    read-some 2 bytes 22 (omega arith),
    read-some 8 bytes 24 (omega arith),
    read-some 8 bytes 32 (omega arith),
    read-some 8 bytes 40 (omega arith),
  )

  pub decode_container_header :
      (bytes : List ℕ)
      → 80 ≤ length bytes
      → text_eq (take 8 bytes) container_magic ≡ true
      → decode_container sha256 bytes ≡ decode_header sha256 bytes
  unfolding decode_container
  decode_container_header bytes h e = rw (long, e)
    where
      long : ltb (length bytes) 80 ≡ false
      long = ground (arith, h)
