-- ===== src/Codec/Shuffle.antt =====
-- The `shuffle` codec (zarrs/src/array/codec/bytes_to_bytes/shuffle/shuffle_codec.rs).
pub mod Loops
pub mod RoundTrip
use zarrs.Common.{
  ℕ, zero, suc, ◌+◌, ◌*◌, ◌%◌, Bool, true, Option, none, some, List, [], ◌∷◌, ◌==◌, ltb,
  if◌then◌else◌, not, length, get_elem?, div_ceil, bind_option, Outcome, returns, fails, panics,
  checked,
}
use zarrs.Codec.{CodecError, other}

-- out[j] = value; `none` is the panic of an index out of bounds.
unfoldable pub set_elem : List ℕ → ℕ → ℕ → Option (List ℕ)
set_elem [] j value = none
set_elem (x ∷ out) zero value = some (value ∷ out)
set_elem (x ∷ out) (suc j) value = elim (set_elem out j value) [
  | none ↦ none
  | some rest ↦ some (x ∷ rest)
]

-- for byte_index in 0..inner_count { out[byte_index * stride + i] = input[offset + byte_index] },
-- from `byte_index` on, with `left` iterations to go.
unfoldable pub inner_loop : List ℕ → ℕ → ℕ → ℕ → ℕ → ℕ → List ℕ → Option (List ℕ)
unfolding set_elem
inner_loop input stride i offset byte_index zero out = some out
inner_loop input stride i offset byte_index (suc left) out =
    bind_option (get_elem? input (offset + byte_index)) (λ value.
      bind_option (set_elem out (byte_index * stride + i) value)
        (inner_loop input stride i offset (suc byte_index) left))

-- for i in 0..stride { let offset = i * inner_count; .. }, from `i` on.
unfoldable pub outer_loop : List ℕ → ℕ → ℕ → ℕ → ℕ → List ℕ → Option (List ℕ)
unfolding inner_loop
outer_loop input stride inner_count i zero out = some out
outer_loop input stride inner_count i (suc left) out =
    bind_option (inner_loop input stride i (i * inner_count) 0 inner_count out)
      (outer_loop input stride inner_count (suc i) left)

-- A size of 0 is a divisor of the length 0 only, and `div_ceil` by it panics.
unfoldable pub encode : ℕ → List ℕ → Outcome (List ℕ) CodecError
unfolding outer_loop
encode zero decoded_value = if length decoded_value == 0 then panics else fails other
encode (suc size) decoded_value =
    if not (length decoded_value % suc size == 0)
    then fails other
    else (let count = div_ceil (length decoded_value) (suc size) in
        checked (outer_loop decoded_value count (suc size) 0 count decoded_value))

unfoldable pub decode : ℕ → List ℕ → Outcome (List ℕ) CodecError
unfolding outer_loop
decode zero encoded_value = if length encoded_value == 0 then panics else fails other
decode (suc size) encoded_value =
    if not (length encoded_value % suc size == 0)
    then fails other
    else (let count = div_ceil (length encoded_value) (suc size) in
        checked (outer_loop encoded_value (suc size) count 0 (suc size) encoded_value))
