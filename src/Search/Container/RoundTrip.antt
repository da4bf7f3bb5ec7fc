-- ===== src/Search/Container/RoundTrip.antt =====
-- crates/woof-search/src/index.rs: a saved container is loaded as it was.
use woof.Prelude.{
  ℕ, zero, suc, ◌+◌, ◌%◌, ◌≤◌, ◌<◌, ◌≡◌, refl, sym, ap, ◌∙◌, true, false, ◌||◌, some, List, [], ◌∷◌,
  ◌++◌, ltb, ◌==◌, length, take, drop, arith, length-append, take-append, drop-append,
}
use woof.Prelude.Text.{text_eq, text_eq_refl}
use woof.Prelude.Word.{u64_max, u64_mod}
use woof.Search.Container.{
  max_metadata_bytes, to_le_bytes, from_le_bytes, encode_container, decode_payload,
  decode_container,
}
use woof.Search.Container.Reading.{
  from_le_bytes-to_le_bytes, decoded, decode_header-decoded, decode_container_header,
}

drop_same : (a b : ℕ) (xs : List ℕ) → a ≡ b → drop a xs ≡ drop b xs
drop_same a b xs e = ap (λ k. drop k xs) e

drop_nil : (n : ℕ) → drop {A = ℕ} n [] ≡ []
drop_nil zero = refl
drop_nil (suc n) = refl

pub drop-drop : (a b : ℕ) (xs : List ℕ) → drop b (drop a xs) ≡ drop (a + b) xs
drop-drop zero b xs = drop_same b (0 + b) xs (omega arith)
drop-drop (suc a) b [] = drop_nil b ∙ sym (drop_nil (suc a + b))
drop-drop (suc a) b (x ∷ xs) =
    drop-drop a b xs ∙ drop_same (suc (a + b)) (suc a + b) (x ∷ xs) (omega arith)

within_both :
    (m n : ℕ) → m ≤ max_metadata_bytes → 0 < n → (ltb max_metadata_bytes m || n == 0) ≡ false
within_both m n h k = ground (arith, h, k)

not_above : (top n : ℕ) → n ≤ top → ltb top n ≡ false
not_above top n h = ground (arith, h)

eq_self : (a b : ℕ) → a ≡ b → (a == b) ≡ true
eq_self a b e = ground (arith, e)

take_whole : (n : ℕ) (xs ys : List ℕ) → length xs ≡ n → take n (xs ++ ys) ≡ xs
take_whole n xs ys e = ap (λ k. take k (xs ++ ys)) (sym e) ∙ take-append xs ys

drop_whole : (n : ℕ) (xs ys : List ℕ) → length xs ≡ n → drop n (xs ++ ys) ≡ ys
drop_whole n xs ys e = ap (λ k. drop k (xs ++ ys)) (sym e) ∙ drop-append xs ys

module _ (sha256 : List ℕ → List ℕ)
    (length-sha256 : (bytes : List ℕ) → length (sha256 bytes) ≡ 32) where
  decode_payload-some :
      (bytes metadata native : List ℕ) (record_count : ℕ)
      → length bytes ≡ 80 + (length metadata + length native)
      → take (length metadata) (drop 80 bytes) ≡ metadata
      → drop (80 + length metadata) bytes ≡ native
      → take 32 (drop 48 bytes) ≡ sha256 (metadata ++ native)
      → length metadata ≤ max_metadata_bytes
      → 0 < length native
      → 80 + (length metadata + length native) ≤ u64_max
      → decode_payload sha256 bytes 80 record_count (length metadata) (length native)
        ≡ some (record { record_count = record_count; metadata = metadata; native = native })
  unfolding decode_payload
  decode_payload-some bytes metadata native record_count whole first second checksum h k l = rw (
    limits,
    no_overflow,
    fits,
    first,
    second,
    checksum,
    text_eq_refl (sha256 (metadata ++ native)),
  )
    where
      limits : (ltb max_metadata_bytes (length metadata) || length native == 0) ≡ false
      limits = within_both (length metadata) (length native) h k

      no_overflow : ltb u64_max (length metadata + length native) ≡ false
      no_overflow = not_above u64_max (length metadata + length native) (omega (arith, l))

      wraps :
          (80 + (length metadata + length native)) % u64_mod
          ≡ 80 + (length metadata + length native)
      wraps = omega (arith, l)

      fits : (length bytes == (80 + (length metadata + length native)) % u64_mod) ≡ true
      fits = eq_self (length bytes) _ (whole ∙ sym wraps)

  module _ (metadata native : List ℕ) (record_count : ℕ) where
    abbrev whole : List ℕ
    whole = encode_container sha256 metadata native record_count

    whole_checksum : take 32 (drop 48 whole) ≡ sha256 (metadata ++ native)
    unfolding encode_container to_le_bytes
    whole_checksum =
        take_whole 32 (sha256 (metadata ++ native)) (metadata ++ native)
          (length-sha256 (metadata ++ native))

    whole_payload : drop 80 whole ≡ metadata ++ native
    unfolding encode_container to_le_bytes
    whole_payload =
        drop_whole 32 (sha256 (metadata ++ native)) (metadata ++ native)
          (length-sha256 (metadata ++ native))

    length-whole : length whole ≡ 80 + (length metadata + length native)
    unfolding encode_container to_le_bytes
    length-whole = omega (
      arith,
      length-append (sha256 (metadata ++ native)) (metadata ++ native),
      length-append metadata native,
      length-sha256 (metadata ++ native),
    )

    whole_magic : text_eq (take 8 whole) (87 ∷ 79 ∷ 79 ∷ 70 ∷ 72 ∷ 78 ∷ 83 ∷ 87 ∷ []) ≡ true
    unfolding encode_container to_le_bytes text_eq
    whole_magic = refl

    whole-decoded :
        decoded sha256 whole
        ≡ decode_payload sha256 whole 80
            (from_le_bytes (to_le_bytes 8 record_count))
            (from_le_bytes (to_le_bytes 8 (length metadata)))
            (from_le_bytes (to_le_bytes 8 (length native)))
    unfolding decoded encode_container to_le_bytes from_le_bytes
    whole-decoded = refl

    whole_metadata : take (length metadata) (drop 80 whole) ≡ metadata
    whole_metadata = ap (take (length metadata)) whole_payload ∙ take-append metadata native

    whole_native : drop (80 + length metadata) whole ≡ native
    whole_native =
        sym (drop-drop 80 (length metadata) whole)
        ∙ ap (drop (length metadata)) whole_payload
        ∙ drop-append metadata native

    payload_found :
        length metadata ≤ max_metadata_bytes
        → 0 < length native
        → 80 + (length metadata + length native) ≤ u64_max
        → decode_payload sha256 whole 80 record_count (length metadata) (length native)
          ≡ some (record { record_count = record_count; metadata = metadata; native = native })
    payload_found h k l =
        decode_payload-some whole metadata native record_count length-whole whole_metadata
          whole_native whole_checksum h k l

    -- With a digest of 32 bytes, what is encoded is decoded to the same count of records, metadata and
    -- graph, where the count has 64 bits, the metadata is within its limit, the graph is not empty
    -- and the whole has fewer than 2 ^ 64 bytes.
    pub decode_container-encode_container :
        record_count ≤ u64_max
        → length metadata ≤ max_metadata_bytes
        → 0 < length native
        → 80 + (length metadata + length native) ≤ u64_max
        → decode_container sha256 (encode_container sha256 metadata native record_count)
          ≡ some (record { record_count = record_count; metadata = metadata; native = native })
    decode_container-encode_container n h k l =
        decode_container_header sha256 whole (omega (arith, length-whole)) whole_magic
        ∙ decode_header-decoded sha256 whole (omega (arith, length-whole))
        ∙ whole-decoded
        ∙ (λ i.
            decode_payload sha256 whole 80
              (from_le_bytes-to_le_bytes 8 record_count (omega (arith, n)) i)
              (from_le_bytes-to_le_bytes 8 (length metadata) (omega (arith, h)) i)
              (from_le_bytes-to_le_bytes 8 (length native) (omega (arith, l)) i))
        ∙ payload_found h k l
