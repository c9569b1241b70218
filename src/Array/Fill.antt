-- ===== src/Array/Fill.antt =====
-- Fill values and the bytes of arrays (zarrs_data_type/src/fill_value.rs,
-- zarrs_data_type/src/optional.rs, zarrs_codec/src/array_bytes.rs).
pub mod Repeats
use zarrs.Common.{
  ℕ, zero, suc, ◌*◌, ◌%◌, ◌/◌, Bool, true, false, not, ◌&&◌, ◌||◌, Option, none, some, List, [],
  ◌∷◌, ◌++◌, map, ◌==◌, ltb, if◌then◌else◌, length, take, drop, replicate, mul_u64, u64_mod,
  Outcome, returns, fails, panics, and_then,
}
use zarrs.Codec.{CodecError, data_type_fill_value_error}
use zarrs.Codec.Bytes.{bytes_eq}
use zarrs.Codec.ArrayBytes.{
  ArrayBytes, fixed, variable, optional, DataType, plain, optional_of, DataTypeSize, fixed_length,
  variable_length,
}
use zarrs.Codec.Chain.{FillValue}

-- chunks_exact(size).all(|element| element == fill_value), for the number of chunks.
unfoldable pub all_chunks : ℕ → FillValue → List ℕ → Bool
unfolding bytes_eq
all_chunks zero fill bytes = true
all_chunks (suc count) fill bytes =
    bytes_eq (take (length fill) bytes) fill && all_chunks count fill (drop (length fill) bytes)

-- A length is a multiple of 0 if it is 0. The cases for the sizes 1, 2, 4, 8 and 16 compare the same
-- chunks in blocks of 16 bytes.
unfoldable pub equals_all : FillValue → List ℕ → Bool
equals_all [] bytes = length bytes == 0
equals_all (f ∷ fill) bytes =
    if not (length bytes % length (f ∷ fill) == 0) || ltb (length bytes) (length (f ∷ fill))
    then false
    else all_chunks (length bytes / length (f ∷ fill)) (f ∷ fill) bytes

-- bytes.last() == Some(&0)
unfoldable pub is_fill_value_null : FillValue → Bool
is_fill_value_null [] = false
is_fill_value_null (b ∷ []) = b == 0
is_fill_value_null (b ∷ c ∷ bytes) = is_fill_value_null (c ∷ bytes)

-- `fill_value_inner_bytes`: all but the last.
unfoldable pub inner_bytes : FillValue → FillValue
inner_bytes [] = []
inner_bytes (b ∷ []) = []
inner_bytes (b ∷ c ∷ bytes) = b ∷ inner_bytes (c ∷ bytes)

-- mask.iter().all(|&b| b == byte)
unfoldable pub all_mask : ℕ → List ℕ → Bool
all_mask byte [] = true
all_mask byte (b ∷ mask) = (b == byte) && all_mask byte mask

unfoldable pub is_fill_value : ArrayBytes → FillValue → Bool
is_fill_value (fixed bytes) fill = equals_all fill bytes
is_fill_value (variable bytes offsets) fill = equals_all fill bytes
is_fill_value (optional inner mask) fill =
    let same = is_fill_value inner (inner_bytes fill) in
    if is_fill_value_null fill then all_mask 0 mask else all_mask 1 mask && same

-- `DataType::size`, which for an optional data type is that of the inner one.
unfoldable pub data_type_size : DataType → DataTypeSize
data_type_size (plain size) = size
data_type_size (optional_of inner) = data_type_size inner

-- `repeat` of a slice.
unfoldable pub repeat_bytes : List ℕ → ℕ → List ℕ
repeat_bytes bytes zero = []
repeat_bytes bytes (suc n) = bytes ++ repeat_bytes bytes n

-- `repeat` panics if the length of its result is not a word.
unfoldable pub repeat : List ℕ → ℕ → Outcome (List ℕ) CodecError
unfolding repeat_bytes
repeat bytes n = if ltb (length bytes * n) u64_mod then returns (repeat_bytes bytes n) else panics

-- (0..=num_elements).map(|i| i * size), from `i` with `left` to go.
unfoldable pub fill_offsets : ℕ → ℕ → ℕ → List ℕ
fill_offsets i zero size = mul_u64 i size ∷ []
fill_offsets i (suc left) size = mul_u64 i size ∷ fill_offsets (suc i) left size

-- The inner fill value of a null: zeros for a fixed size, no bytes otherwise.
abbrev pub null_inner : DataTypeSize → FillValue
null_inner (fixed_length size) = replicate size 0
null_inner variable_length = []

unfoldable pub new_fill_value : DataType → ℕ → FillValue → Outcome ArrayBytes CodecError
new_fill_value (plain (fixed_length size)) num_elements fill =
    if length fill == size
    then and_then (repeat fill num_elements) (λ bytes. returns (fixed bytes))
    else fails data_type_fill_value_error
new_fill_value (plain variable_length) num_elements fill =
    and_then (repeat fill num_elements)
      (λ bytes. returns (variable bytes (fill_offsets 0 num_elements (length fill))))
new_fill_value (optional_of inner) num_elements fill =
    let null = new_fill_value inner num_elements (null_inner (data_type_size inner)) in
    let value = new_fill_value inner num_elements (inner_bytes fill) in
    if is_fill_value_null fill
    then and_then null (λ bytes. returns (optional bytes (replicate num_elements 0)))
    else and_then value (λ bytes. returns (optional bytes (replicate num_elements 1)))
