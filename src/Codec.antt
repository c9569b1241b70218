-- ===== src/Codec.antt =====
-- The codecs: what they share, the errors of zarrs_codec/src/lib.rs and the sizes of
-- zarrs_codec/src/bytes_representation.rs. A codec is a function of the bytes it is given; a call
-- returns bytes, fails with an error, or panics.
pub mod Bytes
pub mod Location
pub mod Adler32
pub mod Crc32c
pub mod Fletcher32
pub mod Shuffle
pub mod ArrayBytes
pub mod VlenV2
pub mod Chain
pub mod PartialDecoder
pub mod Sharding
pub mod Transpose
use zarrs.Common.{ℕ, Option, none, some, add_u64}

-- The variants of `CodecError` that the codecs here return, without their messages.
pub data CodecError : Type 0 where
  other : CodecError
  invalid_byte_range_error : CodecError
  expected_variable_length_bytes : CodecError
  invalid_checksum : CodecError
  invalid_bytes_length : ℕ → ℕ → CodecError
  invalid_variable_sized_array_offsets : CodecError
  offsets_zero_length : CodecError
  offsets_not_monotonically_increasing : CodecError
  offsets_out_of_bounds : ℕ → ℕ → CodecError
  data_type_fill_value_error : CodecError

pub data BytesRepresentation : Type 0 where
  fixed_size : ℕ → BytesRepresentation
  bounded_size : ℕ → BytesRepresentation
  unbounded_size : BytesRepresentation

-- `BytesRepresentation::size`
unfoldable pub size : BytesRepresentation → Option ℕ
size (fixed_size n) = some n
size (bounded_size n) = some n
size unbounded_size = none

-- The `encoded_representation` of the codecs that add a checksum of four bytes.
unfoldable pub with_checksum_size : BytesRepresentation → BytesRepresentation
with_checksum_size (fixed_size n) = fixed_size (add_u64 n 4)
with_checksum_size (bounded_size n) = bounded_size (add_u64 n 4)
with_checksum_size unbounded_size = unbounded_size
