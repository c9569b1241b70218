-- ===== src/Codec/VlenV2.antt =====
-- The `vlen_v2` codec (zarrs/src/array/codec/array_to_bytes/vlen_v2.rs,
-- zarrs/src/array/codec/array_to_bytes/vlen_v2/vlen_v2_codec.rs).
pub mod Interleaved
pub mod RoundTrip
use zarrs.Common.{
  ℕ, zero, suc, ◌+◌, ◌-◌, ◌^◌, Bool, true, false, not, Option, none, some, List, [], ◌∷◌, ◌++◌, ltb,
  ◌==◌, if◌then◌else◌, length, slice, add_u64, mul_u64, product_u64, bind_option, Result, ok, err,
  Outcome, returns, fails, panics, and_then, checked,
}
use zarrs.Codec.{CodecError, other, invalid_bytes_length}
use zarrs.Codec.Bytes.{to_le_bytes, from_le_bytes}
use zarrs.Codec.ArrayBytes.{ArrayBytes, DataType, offsets_new, new_vlen, into_variable, validate}

-- The `?` of a call that does not panic.
abbrev pub from_result {ℓ} : {A : Type ℓ} → Result A CodecError → Outcome A CodecError
from_result (ok a) = returns a
from_result (err e) = fails e

-- u32::try_from(n)
pub u32_try_from : ℕ → Option ℕ
u32_try_from n = if ltb n (2 ^ 32) then some n else none

-- for (&curr, &next) in offsets.iter().tuple_windows(); `none` is a panic.
pub encode_elements : List ℕ → List ℕ → Option (List ℕ)
encode_elements bytes [] = some []
encode_elements bytes (curr ∷ []) = some []
encode_elements bytes (curr ∷ next ∷ offsets) = bind_option (slice bytes curr next) (λ element.
    bind_option (u32_try_from (length element)) (λ size.
      bind_option (encode_elements bytes (next ∷ offsets))
        (λ rest. some (to_le_bytes size ++ element ++ rest))))

-- The bytes of `encode`, from the parts of the value.
pub encode_parts : ℕ → List ℕ → List ℕ → Outcome (List ℕ) CodecError
encode_parts num_elements bytes offsets = elim (u32_try_from num_elements) [
  | none ↦ fails other
  | some header ↦
      and_then (checked (encode_elements bytes offsets))
        (λ elements. returns (to_le_bytes header ++ elements))
]

unfoldable pub encode : DataType → ArrayBytes → List ℕ → Outcome (List ℕ) CodecError
encode data_type value shape =
    let num_elements = product_u64 shape in
    and_then (from_result (validate value num_elements data_type)) (λ _.
      and_then (from_result (into_variable value))
        (λ (bytes, offsets). encode_parts num_elements bytes offsets))

-- u32::from_le_bytes(bytes[offset..offset + 4].try_into().unwrap())
pub read_u32 : List ℕ → ℕ → Option ℕ
read_u32 bytes offset = bind_option (slice bytes offset (add_u64 offset 4)) four
  where
    four : List ℕ → Option ℕ
    four (b0 ∷ b1 ∷ b2 ∷ b3 ∷ []) = some (from_le_bytes b0 b1 b2 b3)
    four _ = none

-- for _element in 0..num_elements, and the last offset; `none` is a panic.
pub decode_elements : List ℕ → ℕ → ℕ → List ℕ → List ℕ → Option (List ℕ × List ℕ)
decode_elements bytes zero offset bytes_out offsets_out =
    some (bytes_out, offsets_out ++ length bytes_out ∷ [])
decode_elements bytes (suc left) offset bytes_out offsets_out =
    bind_option (read_u32 bytes offset) (λ size.
      let offset = add_u64 offset 4 in
      elim (size == 0) [
        | true ↦ decode_elements bytes left offset bytes_out (offsets_out ++ length bytes_out ∷ [])
        | false ↦ bind_option (slice bytes offset (add_u64 offset size)) (λ element.
            decode_elements bytes left (add_u64 offset size) (bytes_out ++ element)
              (offsets_out ++ length bytes_out ∷ []))
      ])

pub get_interleaved_bytes_and_offsets : ℕ → List ℕ → Outcome (List ℕ × List ℕ) CodecError
get_interleaved_bytes_and_offsets num_elements bytes =
    let header_length = mul_u64 4 (add_u64 1 num_elements) in
    if ltb (length bytes) header_length
    then fails (invalid_bytes_length (length bytes) header_length)
    else and_then (checked (read_u32 bytes 0)) (λ header_num_elements.
      and_then (checked (u32_try_from num_elements)) (λ expected.
        if not (expected == header_num_elements)
        then fails other
        else checked (decode_elements bytes num_elements 4 [] [])))

unfoldable pub decode : List ℕ → List ℕ → Outcome ArrayBytes CodecError
decode bytes shape =
    and_then (get_interleaved_bytes_and_offsets (product_u64 shape) bytes) (λ (bytes, offsets).
      and_then (from_result (offsets_new offsets))
        (λ offsets. from_result (new_vlen bytes offsets)))
