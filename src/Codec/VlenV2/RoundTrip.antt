-- ===== src/Codec/VlenV2/RoundTrip.antt =====
-- The round trip of the `vlen_v2` codec
-- (zarrs/src/array/codec/array_to_bytes/vlen_v2/vlen_v2_codec.rs).
use zarrs.Common.{
  ℕ, suc, ◌+◌, ◌*◌, ◌^◌, ◌<◌, ◌≤◌, ◌≡◌, refl, ◌∙◌, true, false, List, [], ◌∷◌, ◌++◌, arith, ltb,
  leb, le→leb, ◌==◌, length, add_u64, mul_u64, u64_mod, product, product_u64,
  product_u64-eq_product, length-append, ok, returns,
}
use zarrs.Codec.Bytes.{to_le_bytes}
use zarrs.Codec.ArrayBytes.{
  ArrayBytes, variable, plain, variable_length, offsets_new, increasing, new_vlen, last_offset,
  last, into_variable, validate,
}
use zarrs.Codec.ArrayBytes.Elements.{concat, positions}
use zarrs.Codec.ArrayBytes.Valid.{validate_bytes_vlen_iff}
use zarrs.Codec.VlenV2.{encode_parts, encode, decode, get_interleaved_bytes_and_offsets}
use zarrs.Codec.VlenV2.Interleaved.{
  interleave, AllShort, encode_elements-interleave, decode_elements-interleave, u32_try_from-some,
  read_u32-middle,
}

positions-increasing : (o : ℕ) (elements : List (List ℕ)) → increasing (positions o elements) ≡ true
unfolding increasing
positions-increasing o [] = refl
positions-increasing o (x ∷ []) = ground arith
positions-increasing o (x ∷ y ∷ elements) =
    let h = positions-increasing (o + length x) (y ∷ elements) in
    let t : leb o (o + length x) ≡ true = ground arith in rw t h

positions-offsets_new :
    (o : ℕ) (elements : List (List ℕ))
    → offsets_new (positions o elements) ≡ ok (positions o elements)
unfolding offsets_new
positions-offsets_new o [] = refl
positions-offsets_new o (x ∷ elements) = let h = positions-increasing o (x ∷ elements) in rw h refl

last-step :
    (o n : ℕ) (elements : List (List ℕ))
    → last o (positions n elements) ≡ last_offset (positions n elements)
unfolding last
last-step o n [] = refl
last-step o n (x ∷ elements) = refl

last-positions :
    (o : ℕ) (elements : List (List ℕ))
    → last_offset (positions o elements) ≡ o + length (concat elements)
unfolding last
last-positions o [] = omega arith
last-positions o (x ∷ elements) =
    last-step o (o + length x) elements
    ∙ last-positions (o + length x) elements
    ∙ omega (arith, length-append x (concat elements))

-- The encoded elements are at least as long as their lengths.
length-interleave :
    (elements : List (List ℕ))
    → length (interleave elements) ≡ 4 * length elements + length (concat elements)
length-interleave [] = refl
length-interleave (e ∷ elements) = omega (
  arith,
  length-interleave elements,
  length-append e (interleave elements),
  length-append e (concat elements),
)

header_fits :
    (n m : ℕ)
    → 4 * n ≤ m
    → n < 2 ^ 32
    → ltb (suc (suc (suc (suc m)))) (mul_u64 4 (add_u64 1 n)) ≡ false
header_fits n m h k = ground arith

module _ (shape padding : List ℕ) (elements : List (List ℕ))
    (count : product shape ≡ length elements) (few : length elements < 2 ^ 32)
    (short : AllShort elements) (size : 4 + length (interleave elements) < u64_mod) where
  abbrev value : ArrayBytes
  value = variable (padding ++ concat elements) (positions (length padding) elements)

  abbrev encoded : List ℕ
  encoded = to_le_bytes (length elements) ++ interleave elements

  num_elements : product_u64 shape ≡ length elements
  num_elements = product_u64-eq_product shape (omega arith) ∙ count

  parts-eq :
      encode_parts
        (length elements)
        (padding ++ concat elements)
        (positions (length padding) elements)
      ≡ returns encoded
  unfolding encode_parts
  parts-eq =
      let header = u32_try_from-some (length elements) few in
      let body = encode_elements-interleave padding elements short in
      rw (encode_parts, header, body) refl

  encode-eq : encode (plain variable_length) value shape ≡ returns encoded
  unfolding encode validate into_variable
  encode-eq =
      let n = num_elements in
      let valid =
        (validate_bytes_vlen_iff (padding ++ concat elements) (positions (length padding) elements)
            (length elements) (omega arith)).1
          (padding, elements, refl, record { bytes_are = refl; offsets_are = refl }) in
      rw (n, valid) parts-eq

  interleaved-eq :
      get_interleaved_bytes_and_offsets (length elements) encoded
      ≡ returns (concat elements, positions 0 elements)
  unfolding get_interleaved_bytes_and_offsets
  interleaved-eq =
      let long =
        header_fits (length elements) (length (interleave elements))
          (omega (arith, length-interleave elements)) few in
      let header = u32_try_from-some (length elements) few in
      let read = read_u32-middle [] (interleave elements) (length elements) few (omega arith) in
      let same : (length elements == length elements) ≡ true = ground arith in
      let body =
        decode_elements-interleave (to_le_bytes (length elements)) elements [] [] short size in
      rw (long, read, header, same, body) refl

  decode-eq : decode encoded shape ≡ returns (variable (concat elements) (positions 0 elements))
  unfolding decode new_vlen
  decode-eq =
      let n = num_elements in
      let parts = interleaved-eq in
      let monotone = positions-offsets_new 0 elements in
      let fits : leb (last_offset (positions 0 elements)) (length (concat elements)) ≡ true =
        le→leb _ _ (omega (arith, last-positions 0 elements)) in
      rw (n, parts, monotone, fits) refl

  -- For fewer than 2 ^ 32 elements, each shorter than 2 ^ 32, as many as the shape has, whose encoding
  -- is shorter than 2 ^ 64: encoding returns bytes, and they decode to the same elements, at offsets
  -- from 0; padding before the first element is dropped.
  pub vlen_decode-encode :
      (bytes : List ℕ) × (encode
          (plain variable_length)
          (variable (padding ++ concat elements) (positions (length padding) elements))
          shape
        ≡ returns bytes)
      × (decode bytes shape ≡ returns (variable (concat elements) (positions 0 elements)))
  vlen_decode-encode = (encoded, encode-eq, decode-eq)
