-- ===== src/Codec/Fletcher32.antt =====
-- The `fletcher32` codec and its checksum
-- (zarrs/src/array/codec/bytes_to_bytes/fletcher32/fletcher32_codec.rs).
pub mod Total
pub mod LastByte
use Prim.Native.Nat.{bit_or}
use zarrs.Common.{
  ℕ, zero, suc, ◌+◌, ◌-◌, ◌*◌, ◌/◌, ◌%◌, ◌^◌, min, Bool, Option, none, some, List, [], ◌∷◌, ◌++◌,
  not, leb, take, drop, ◌==◌, if◌then◌else◌, length, bind_option, Outcome, fails, returns, panics,
  and_then, checked,
}
use zarrs.Codec.{CodecError, other, invalid_checksum}
use zarrs.Codec.Bytes.{to_le_bytes, bytes_eq}

-- The two sums, and the rest of the data from `data_idx` on.
pub record Sums : Type 0 where
  pub sum1 : ℕ
  pub sum2 : ℕ
  pub rest : List ℕ

-- a + b on u32
abbrev pub add_u32 : ℕ → ℕ → ℕ
add_u32 a b = (a + b) % 2 ^ 32

-- (sum & 0xffff) + (sum >> 16)
abbrev pub fold_sum : ℕ → ℕ
fold_sum sum = sum % 65536 + sum / 65536

-- (u16::from(high) << 8) | u16::from(low), on bytes: the low byte of the shifted word is zero.
abbrev pub word : ℕ → ℕ → ℕ
word high low = high * 256 % 65536 + low

-- for _ in 0..tlen; `none` is the panic of an index out of bounds.
unfoldable pub sum_words : ℕ → Sums → Option Sums
sum_words zero s = some s
sum_words (suc tlen) s = elim s.rest [
  | [] ↦ none
  | high ∷ rest ↦ elim rest [
    | [] ↦ none
    | low ∷ tail ↦
        let sum1 = add_u32 s.sum1 (word high low) in
        sum_words tlen (record { sum1 = sum1; sum2 = add_u32 s.sum2 sum1; rest = tail })
  ]
]

-- while len > 0, with the length that is left. The fuel is enough if it is above `len`.
unfoldable pub sum_blocks : ℕ → ℕ → Sums → Option (ℕ × Sums)
unfolding sum_words
sum_blocks zero len s = none
sum_blocks (suc fuel) zero s = some (zero, s)
sum_blocks (suc fuel) (suc len) s =
    let tlen = min (suc len) 360 in
    bind_option (sum_words tlen s) (λ t.
      sum_blocks fuel (suc len - tlen)
        (record { sum1 = fold_sum t.sum1; sum2 = fold_sum t.sum2; rest = t.rest }))

-- if len.is_odd()
unfoldable pub odd_byte : ℕ → Sums → Option Sums
odd_byte len s =
    if len % 2 == 1
    then (elim s.rest [
      | [] ↦ none
      | byte ∷ tail ↦
          let sum1 = add_u32 s.sum1 (byte * 256 % 65536) in
          some
            (record { sum1 = fold_sum sum1; sum2 = fold_sum (add_u32 s.sum2 sum1); rest = s.rest })
    ])
    else some s

unfoldable pub h5_checksum_fletcher32 : List ℕ → Option ℕ
unfolding sum_blocks odd_byte
h5_checksum_fletcher32 bytes =
    let len = length bytes / 2 in
    bind_option (sum_blocks (suc len) len (record { sum1 = 0; sum2 = 0; rest = bytes }))
      (λ (left, s).
        bind_option (odd_byte left s)
          (λ s. some (bit_or (fold_sum s.sum2 * 65536 % 2 ^ 32) (fold_sum s.sum1))))

unfoldable pub encode : List ℕ → Outcome (List ℕ) CodecError
unfolding h5_checksum_fletcher32
encode decoded_value =
    and_then (checked (h5_checksum_fletcher32 decoded_value))
      (λ checksum. returns (decoded_value ++ to_le_bytes checksum))

unfoldable pub decode : Bool → List ℕ → Outcome (List ℕ) CodecError
unfolding h5_checksum_fletcher32
decode validate_checksums encoded_value =
    let decoded_len = length encoded_value - 4 in
    if leb 4 (length encoded_value)
    then (if validate_checksums
        then and_then (checked (h5_checksum_fletcher32 (take decoded_len encoded_value)))
            (λ checksum.
              if not (bytes_eq (to_le_bytes checksum) (drop decoded_len encoded_value))
              then fails invalid_checksum
              else returns (take decoded_len encoded_value))
        else returns (take decoded_len encoded_value))
    else fails other
