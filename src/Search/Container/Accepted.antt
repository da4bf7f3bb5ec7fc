-- ===== src/Search/Container/Accepted.antt =====
-- crates/woof-search/src/index.rs: which bytes are taken for a container.
use woof.Prelude.{
  ℕ, ◌+◌, ◌%◌, ◌≤◌, ◌<◌, ◌≡◌, refl, sym, ap, ◌∙◌, Bool, true, false, not, ◌||◌, Option, none, some,
  List, ◌++◌, ltb, ◌==◌, if◌then◌else◌, length, take, drop, arith, length-take, length-drop, All,
  take-drop,
}
use mathlib.Core.Path.{subst}
use woof.Prelude.Text.{text_eq, text_eq_iff}
use woof.Prelude.Word.{u64_max, u64_mod}
use woof.Search.Container.{
  container_magic, max_metadata_bytes, to_le_bytes, word, DecodedContainer, is_configured,
  encode_container, decode_payload, decode_container,
}
use woof.Search.Container.Reading.{decoded, decode_header-decoded}
use woof.Search.Container.RoundTrip.{drop-drop}
use woof.Search.Container.Words.{IsByte, assembled, bytes_assembled}

if_none :
    (b : Bool) (x : Option DecodedContainer) (c : DecodedContainer)
    → (if b then none else x) ≡ some c
    → (b ≡ false) × (x ≡ some c)
if_none true x c e = ground (arith, e)
if_none false x c e = (refl, e)

configured_values :
    (version header dimensions metric scalar connectivity base reserved : ℕ)
    → not (is_configured version header dimensions metric scalar connectivity base reserved) ≡ false
    → (version ≡ 2)
      × (header ≡ 80)
      × (dimensions ≡ 512)
      × (metric ≡ 1)
      × (scalar ≡ 4)
      × (connectivity ≡ 16)
      × (base ≡ 32)
      × (reserved ≡ 0)
configured_values version header dimensions metric scalar connectivity base reserved e =
    ground (arith, e)

payload_fits :
    (bytes m n : ℕ)
    → 80 ≤ bytes
    → ltb u64_max (m + n) ≡ false
    → not (bytes == (80 + (m + n)) % u64_mod) ≡ false
    → bytes ≡ 80 + (m + n)
payload_fits bytes m n h e f = omega (arith, h, bounded, same)
  where
    bounded : m + n ≤ u64_max
    bounded = ground (arith, e)

    same : bytes ≡ (80 + (m + n)) % u64_mod
    same = ground (arith, f)

payload_limits :
    (m n : ℕ) → (ltb max_metadata_bytes m || n == 0) ≡ false → (m ≤ max_metadata_bytes) × (0 < n)
payload_limits m n e = ground (arith, e)

same_text : (a b : List ℕ) → not (text_eq a b) ≡ false → a ≡ b
same_text a b e = (text_eq_iff a b).0 (ground (arith, e))

some_same : (a c : DecodedContainer) → some a ≡ some c → a ≡ c
some_same a c e = ground (arith, e)

or_not : (x y : Bool) → (x || not y) ≡ false → (x ≡ false) × (y ≡ true)
or_not x y e = ground (arith, e)

not_below : (a b : ℕ) → ltb a b ≡ false → b ≤ a
not_below a b e = ground (arith, e)

module _ (sha256 : List ℕ → List ℕ) where
  abbrev taken : List ℕ → ℕ → ℕ → DecodedContainer
  taken bytes record_count m = record {
    record_count = record_count;
    metadata = take m (drop 80 bytes);
    native = drop (80 + m) bytes;
  }

  payload_inverse :
      (bytes : List ℕ) (record_count m n : ℕ) (c : DecodedContainer)
      → 80 ≤ length bytes
      → decode_payload sha256 bytes 80 record_count m n ≡ some c
      → (length bytes ≡ 80 + (m + n))
        × (m ≤ max_metadata_bytes)
        × (0 < n)
        × (sha256 (take m (drop 80 bytes) ++ drop (80 + m) bytes) ≡ take 32 (drop 48 bytes))
        × (taken bytes record_count m ≡ c)
  unfolding decode_payload
  payload_inverse bytes record_count m n c h e =
      let (limits, e1) = if_none _ _ c e in
      let (no_overflow, e2) = if_none _ _ c e1 in
      let (fits, e3) = if_none _ _ c e2 in
      let metadata = take m (drop 80 bytes) in
      let native = drop (80 + m) bytes in
      let (checksum, e4) =
        if_none (not (text_eq (sha256 (metadata ++ native)) (take 32 (drop 48 bytes))))
          (some (taken bytes record_count m)) c e3 in
      (
        payload_fits (length bytes) m n h no_overflow fits,
        (payload_limits m n limits).0,
        (payload_limits m n limits).1,
        same_text _ _ checksum,
        some_same (taken bytes record_count m) c e4,
      )

  decoded_inverse :
      (bytes : List ℕ) (c : DecodedContainer)
      → decode_container sha256 bytes ≡ some c
      → (80 ≤ length bytes) × (take 8 bytes ≡ container_magic) × (decoded sha256 bytes ≡ some c)
  unfolding decode_container
  decoded_inverse bytes c e =
      let (started, e1) = if_none _ _ c e in
      let (long, magic) = or_not _ _ started in
      let size = not_below (length bytes) 80 long in
      (
        size,
        (text_eq_iff (take 8 bytes) container_magic).0 magic,
        sym (decode_header-decoded sha256 bytes size) ∙ e1,
      )

  encode_container-assembled :
      (metadata native : List ℕ) (record_count : ℕ)
      → encode_container sha256 metadata native record_count
        ≡ assembled container_magic 2 80 512 1 4 16 32 0 record_count
            (length metadata)
            (length native)
            (sha256 (metadata ++ native))
            (metadata ++ native)
  unfolding encode_container to_le_bytes
  encode_container-assembled metadata native record_count = refl

  -- Bytes, each below 256, that are decoded to a container are exactly those that its parts are
  -- encoded to; its metadata is within its limit and its graph is not empty.
  pub decode_container_canonical :
      (bytes : List ℕ) (c : DecodedContainer)
      → All IsByte bytes
      → decode_container sha256 bytes ≡ some c
      → (encode_container sha256 c.metadata c.native c.record_count ≡ bytes)
        × (length c.metadata ≤ max_metadata_bytes)
        × (0 < length c.native)
  unfolding decoded
  decode_container_canonical bytes c h e =
      let (size, magic, e1) = decoded_inverse bytes c e in
      let (configured, e2) = if_none _ _ c e1 in
      let (version, header, dimensions, metric, scalar, connectivity, base, reserved) =
        configured_values (word 2 8 bytes) (word 2 10 bytes) (word 4 12 bytes) (word 1 16 bytes)
          (word 1 17 bytes) (word 2 18 bytes) (word 2 20 bytes) (word 2 22 bytes) configured in
      let m = word 8 32 bytes in
      let n = word 8 40 bytes in
      let (whole, m_le, n_le, checksum, same) =
        payload_inverse bytes (word 8 24 bytes) m n c size
          ((λ i. decode_payload sha256 bytes (sym header i) (word 8 24 bytes) m n) ∙ e2) in
      let metadata = take m (drop 80 bytes) in
      let native = drop (80 + m) bytes in
      let payload : metadata ++ native ≡ drop 80 bytes =
        ap (λ l. metadata ++ l) (sym (drop-drop 80 m bytes)) ∙ take-drop m (drop 80 bytes) in
      let metadata_length : length metadata ≡ m =
        length-take m (drop 80 bytes) (omega (arith, whole, length-drop 80 bytes size)) in
      let native_length : length native ≡ n =
        omega (arith, whole, length-drop (80 + m) bytes (omega (arith, whole))) in
      subst
        (λ d.
          (encode_container sha256 d.metadata d.native d.record_count ≡ bytes)
          × (length d.metadata ≤ max_metadata_bytes)
          × (0 < length d.native))
        same
        (
          encode_container-assembled metadata native (word 8 24 bytes)
              ∙ (λ i.
                  assembled (sym magic i) (sym version i) (sym header i) (sym dimensions i)
                    (sym metric i) (sym scalar i) (sym connectivity i) (sym base i) (sym reserved i)
                    (word 8 24 bytes) (metadata_length i) (native_length i) (checksum i)
                    (payload i))
              ∙ sym (bytes_assembled bytes h size),
          omega (arith, metadata_length, m_le),
          omega (arith, native_length, n_le),
        )
