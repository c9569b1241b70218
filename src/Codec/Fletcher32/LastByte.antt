-- ===== src/Codec/Fletcher32/LastByte.antt =====
-- What the `fletcher32` codec does with an odd last byte, and its round trip
-- (zarrs/src/array/codec/bytes_to_bytes/fletcher32/fletcher32_codec.rs).
use zarrs.Common.{
  ℕ, suc, ◌-◌, ◌/◌, ◌%◌, ◌≡◌, refl, sym, ap, ◌∙◌, ◌↔◌, Option, some, List, [], ◌∷◌, ◌++◌, arith,
  length, length-append, Bool, true, false, returns, and_then, take,
}
use zarrs.Codec.Bytes.{to_le_bytes}
use zarrs.Codec.Location.{end, checked_detach, checked_detach-attach, checked_detach_iff}
use zarrs.Codec.Fletcher32.{h5_checksum_fletcher32, odd_byte, encode, decode}
use zarrs.Codec.Fletcher32.Total.{blocks_total, checksum_total}

-- The checksum of bytes of even number is that of the same bytes and one more.
checksum-last_byte :
    (bytes : List ℕ) (byte : ℕ)
    → length bytes % 2 ≡ 0
    → h5_checksum_fletcher32 (bytes ++ byte ∷ []) ≡ h5_checksum_fletcher32 bytes
unfolding h5_checksum_fletcher32 odd_byte
checksum-last_byte bytes byte h =
    let same : length (bytes ++ byte ∷ []) / 2 ≡ length bytes / 2 =
      omega (arith, length-append bytes (byte ∷ [])) in
    let (t, e, f) =
      blocks_total (suc (length bytes / 2)) (length bytes / 2) 0 0 bytes (byte ∷ []) (omega arith)
        (omega arith) in
    rw (same, e, f) refl

-- The checksum, as a number.
sum_of : List ℕ → ℕ
sum_of bytes = (checksum_total bytes).0

sum_of-last_byte :
    (bytes : List ℕ) (byte : ℕ) → length bytes % 2 ≡ 0 → sum_of (bytes ++ byte ∷ []) ≡ sum_of bytes
unfolding sum_of
sum_of-last_byte bytes byte h = injected _ _ (
    sym (checksum_total (bytes ++ byte ∷ [])).1
    ∙ checksum-last_byte bytes byte h
    ∙ (checksum_total bytes).1)
  where
    injected : (a b : ℕ) → ◌≡◌ {A = Option ℕ} (some a) (some b) → a ≡ b
    injected a b h = cc

encode-eq : (value : List ℕ) → encode value ≡ returns (value ++ to_le_bytes (sum_of value))
unfolding encode sum_of
encode-eq value = let e = (checksum_total value).1 in rw e refl

decode-eq :
    (validate : Bool) (encoded : List ℕ)
    → decode validate encoded
      ≡ checked_detach end (λ value. to_le_bytes (sum_of value)) validate encoded
unfolding decode sum_of
decode-eq true encoded = let e = (checksum_total (take (length encoded - 4) encoded)).1 in rw e refl
decode-eq false encoded = refl

-- With validation of checksums, bytes decode to a value exactly if they are the encoding of the
-- value; and without, the encoding of a value decodes to it.
pub fletcher_decode-encode :
    (value encoded : List ℕ)
    → ((decode true encoded ≡ returns value) ↔ (encode value ≡ returns encoded))
      × (and_then (encode value) (decode false) ≡ returns value)
fletcher_decode-encode value encoded =
    let sum : List ℕ → List ℕ = λ value. to_le_bytes (sum_of value) in
    rw (encode-eq value, decode-eq true encoded)
      (
        checked_detach_iff end sum (λ value. refl) value encoded,
        decode-eq false (value ++ sum value)
            ∙ checked_detach-attach end sum (λ value. refl) false value,
      )

-- An odd last byte is not in the checksum: for a value of an even number of bytes and one more byte,
-- replacing that byte in the encoding by any other is not detected, and decoding with validation
-- returns the value with the other byte.
pub decode-last_byte :
    (value : List ℕ) (byte other_byte : ℕ)
    → length value % 2 ≡ 0
    → (checksum : List ℕ) × (encode (value ++ byte ∷ [])
        ≡ returns ((value ++ byte ∷ []) ++ checksum))
      × (decode true ((value ++ other_byte ∷ []) ++ checksum) ≡ returns (value ++ other_byte ∷ []))
decode-last_byte value byte other_byte h =
    let sum : List ℕ → List ℕ = λ value. to_le_bytes (sum_of value) in
    let same : sum (value ++ byte ∷ []) ≡ sum (value ++ other_byte ∷ []) =
      ap to_le_bytes (sum_of-last_byte value byte h ∙ sym (sum_of-last_byte value other_byte h)) in
    (
      sum (value ++ other_byte ∷ []),
      encode-eq (value ++ byte ∷ [])
          ∙ ap (λ (t : List ℕ). returns ((value ++ byte ∷ []) ++ t)) same,
      decode-eq true ((value ++ other_byte ∷ []) ++ sum (value ++ other_byte ∷ []))
          ∙ checked_detach-attach end sum (λ value. refl) true (value ++ other_byte ∷ []),
    )
