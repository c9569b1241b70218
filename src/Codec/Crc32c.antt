-- ===== src/Codec/Crc32c.antt =====
-- The `crc32c` codec (zarrs/src/array/codec/bytes_to_bytes/crc32c/crc32c_codec.rs), over the checksum
-- of the crate `crc32c`, which is any function of the bytes here.
use zarrs.Common.{ℕ, ◌≡◌, refl, ◌↔◌, Bool, true, false, and_then, List, Outcome, returns}
use zarrs.Codec.{CodecError}
use zarrs.Codec.Bytes.{to_le_bytes}
use zarrs.Codec.Location.{
  Location, attach, checked_detach, checked_detach-attach, checked_detach_iff,
}

module _ (crc32c : List ℕ → ℕ) where
  unfoldable pub encode : Location → List ℕ → Outcome (List ℕ) CodecError
  encode location decoded_value =
      returns (attach location (to_le_bytes (crc32c decoded_value)) decoded_value)

  unfoldable pub decode : Location → Bool → List ℕ → Outcome (List ℕ) CodecError
  decode location validate_checksums encoded_value =
      checked_detach location (λ value. to_le_bytes (crc32c value)) validate_checksums encoded_value

  -- With validation of checksums, bytes decode to a value exactly if they are the encoding of the
  -- value; and without, the encoding of a value decodes to it. The checksum is any function of the
  -- value.
  pub decode-encode :
      (location : Location) (value encoded : List ℕ)
      → ((decode location true encoded ≡ returns value) ↔ (encode location value ≡ returns encoded))
        × (and_then (encode location value) (decode location false) ≡ returns value)
  unfolding encode decode
  decode-encode location value encoded =
      let sum : List ℕ → List ℕ = λ value. to_le_bytes (crc32c value) in
      (
        checked_detach_iff location sum (λ value. refl) value encoded,
        checked_detach-attach location sum (λ value. refl) false value,
      )
