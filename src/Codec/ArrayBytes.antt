-- ===== src/Codec/ArrayBytes.antt =====
-- The bytes of an array and their validation (zarrs_codec/src/array_bytes.rs,
-- zarrs_codec/src/array_bytes/array_bytes_offsets.rs,
-- zarrs_codec/src/array_bytes/array_bytes_variable_length.rs).
pub mod Elements
pub mod Valid
use zarrs.Common.{
  ℕ, suc, Bool, true, false, not, ◌&&◌, ◌||◌, Option, none, some, List, [], ◌∷◌, ◌==◌, ltb, leb,
  if◌then◌else◌, length, replicate, mul_u64, add_u64, Result, ok, err, ◌>>=◌, any,
}
use zarrs.Codec.{
  CodecError, other, invalid_bytes_length, invalid_variable_sized_array_offsets,
  offsets_zero_length, offsets_not_monotonically_increasing, offsets_out_of_bounds,
  expected_variable_length_bytes,
}

-- `DataTypeSize`
pub data DataTypeSize : Type 0 where
  fixed_length : ℕ → DataTypeSize
  variable_length : DataTypeSize

-- What these functions ask of a data type: `size`, or `as_optional` for its inner data type.
pub data DataType : Type 0 where
  plain : DataTypeSize → DataType
  optional_of : DataType → DataType

pub data ArrayBytes : Type 0 where
  fixed : List ℕ → ArrayBytes
  variable : List ℕ → List ℕ → ArrayBytes
  optional : ArrayBytes → List ℕ → ArrayBytes

-- windows(2).all(|w| w[1] >= w[0])
unfoldable pub increasing : List ℕ → Bool
increasing [] = true
increasing (a ∷ []) = true
increasing (a ∷ b ∷ offsets) = leb a b && increasing (b ∷ offsets)

-- `ArrayBytesOffsets::new`
unfoldable pub offsets_new : List ℕ → Result (List ℕ) CodecError
unfolding increasing
offsets_new [] = err offsets_zero_length
offsets_new (o ∷ offsets) =
    if increasing (o ∷ offsets) then ok (o ∷ offsets) else err offsets_not_monotonically_increasing

-- `ArrayBytesOffsets::last`, from the first offset, since there is one.
unfoldable pub last : ℕ → List ℕ → ℕ
last o [] = o
last o (next ∷ offsets) = last next offsets

abbrev pub last_offset : List ℕ → ℕ
last_offset [] = 0
last_offset (o ∷ offsets) = last o offsets

-- `ArrayBytes::new_vlen`
unfoldable pub new_vlen : List ℕ → List ℕ → Result ArrayBytes CodecError
unfolding last
new_vlen bytes offsets =
    if leb (last_offset offsets) (length bytes)
    then ok (variable bytes offsets)
    else err (offsets_out_of_bounds (last_offset offsets) (length bytes))

-- `ArrayBytes::into_variable`, with `into_parts`.
unfoldable pub into_variable : ArrayBytes → Result (List ℕ × List ℕ) CodecError
into_variable (fixed bytes) = err expected_variable_length_bytes
into_variable (variable bytes offsets) = ok (bytes, offsets)
into_variable (optional inner mask) = err expected_variable_length_bytes

-- `ArrayBytes::size`
unfoldable pub size : ArrayBytes → ℕ
size (fixed bytes) = length bytes
size (variable bytes offsets) = length bytes
size (optional inner mask) = size inner

-- `ArrayBytes::offsets`
unfoldable pub offsets : ArrayBytes → Option (List ℕ)
offsets (fixed bytes) = none
offsets (variable bytes positions) = some positions
offsets (optional inner mask) = offsets inner

-- `Result<(), CodecError>`
abbrev pub Validation : Type 0
Validation = Result {0, 0} Unit CodecError

unfoldable pub validate_bytes_flen : List ℕ → ℕ → Validation
validate_bytes_flen bytes array_size =
    if length bytes == array_size
    then ok tt
    else err (invalid_bytes_length (length bytes) array_size)

-- for offset in offsets.iter(), with the last offset; `none` is the early return.
pub scan_offsets : ℕ → ℕ → List ℕ → Option ℕ
scan_offsets len offset_last [] = some offset_last
scan_offsets len offset_last (offset ∷ rest) =
    if ltb offset offset_last || ltb len offset then none else scan_offsets len offset rest

pub validate_bytes_vlen : List ℕ → List ℕ → ℕ → Validation
unfolding scan_offsets
validate_bytes_vlen bytes positions num_elements =
    if not (length positions == add_u64 num_elements 1)
    then err invalid_variable_sized_array_offsets
    else elim (scan_offsets (length bytes) 0 positions) [
      | none ↦ err invalid_variable_sized_array_offsets
      | some offset_last ↦
          if offset_last == length bytes then ok tt else err invalid_variable_sized_array_offsets
    ]

-- `validate_bytes`, which is `ArrayBytes::validate`.
unfoldable pub validate : ArrayBytes → ℕ → DataType → Validation
unfolding validate_bytes_flen validate_bytes_vlen
validate (fixed bytes) num_elements (optional_of inner) = err other
validate (fixed bytes) num_elements (plain (fixed_length data_type_size)) =
    validate_bytes_flen bytes (mul_u64 num_elements data_type_size)
validate (fixed bytes) num_elements (plain variable_length) = err other
validate (variable bytes positions) num_elements (optional_of inner) = err other
validate (variable bytes positions) num_elements (plain variable_length) =
    validate_bytes_vlen bytes positions num_elements
validate (variable bytes positions) num_elements (plain (fixed_length data_type_size)) = err other
validate (optional inner mask) num_elements (plain data_type_size) = err other
validate (optional inner mask) num_elements (optional_of inner_type) =
    validate inner num_elements inner_type
