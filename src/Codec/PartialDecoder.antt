-- ===== src/Codec/PartialDecoder.antt =====
-- Partial decoders of bytes and those that strip or restrict the bytes of another
-- (zarrs_codec/src/codec_traits/bytes_partial_sync.rs,
-- zarrs_codec/src/byte_interval_partial_decoder.rs,
-- zarrs/src/array/codec/bytes_to_bytes/strip_prefix_partial_decoder.rs,
-- zarrs/src/array/codec/bytes_to_bytes/strip_suffix_partial_decoder.rs).
pub mod Holds
pub mod Prefix
pub mod Suffix
pub mod Interval
use zarrs.Common.{
  ℕ, Bool, true, false, Option, none, some, List, [], ◌∷◌, map, length, take, add_u64, sub_u64, ◌+◌,
  ltb, if◌then◌else◌, u64_mod, Outcome, returns, fails, panics, and_then, checked, try_collect,
}
use zarrs.Storage.ByteRange.{ByteRange, from_start, suffix, extract_byte_ranges}
use zarrs.Codec.{CodecError, invalid_byte_range_error}

-- `partial_decode_many` of a `BytesPartialDecoderTraits`.
abbrev pub PartialDecoder : Type 0
PartialDecoder = List ByteRange → Outcome (Option (List (List ℕ))) CodecError

-- iter().map(f).collect::<Result<Option<Vec<_>>, _>>(): the first error or `None` ends it.
abbrev pub collect_pieces {ℓ κ μ} :
    {A : Type ℓ} {B : Type κ} {E : Type μ}
    → (A → Outcome (Option B) E)
    → List A
    → Outcome (Option (List B)) E
collect_pieces f [] = returns (some [])
collect_pieces f (a ∷ rest) = and_then (f a) (λ piece. elim piece [
  | none ↦ returns none
  | some b ↦
      and_then (collect_pieces f rest)
        (λ pieces. elim pieces [ none ↦ returns none | some bs ↦ returns (some (b ∷ bs)) ])
])

-- v.pop().expect("single byte range")
pub pop : List (List ℕ) → Option (List ℕ)
pop [] = none
pop (x ∷ []) = some x
pop (x ∷ y ∷ rest) = pop (y ∷ rest)

-- The provided `partial_decode`.
pub partial_decode : PartialDecoder → ByteRange → Outcome (Option (List ℕ)) CodecError
partial_decode handle decoded_region = and_then (handle (decoded_region ∷ [])) (λ pieces.
    elim pieces [
      | none ↦ returns none
      | some v ↦ and_then (checked (pop v)) (λ bytes. returns (some bytes))
    ])

-- The partial decoder of bytes in memory (`ArrayBytesRaw`).
pub bytes_decoder : List ℕ → PartialDecoder
bytes_decoder bytes decoded_regions = invalid (extract_byte_ranges bytes decoded_regions)
  where
    invalid : {A E : Type 0} → Outcome A E → Outcome (Option A) CodecError
    invalid (returns pieces) = returns (some pieces)
    invalid (fails e) = fails invalid_byte_range_error
    invalid panics = panics

-- The range in the input, `none` if `checked_add` overflows.
pub prefixed_range : ℕ → ByteRange → Outcome ByteRange CodecError
prefixed_range prefix_size (from_start offset length) =
    if ltb (offset + prefix_size) u64_mod
    then returns (from_start (offset + prefix_size) length)
    else panics
prefixed_range prefix_size (suffix length) = returns (suffix length)

-- `StripPrefixPartialDecoder`
pub strip_prefix : ℕ → PartialDecoder → PartialDecoder
strip_prefix prefix_size input_handle decoded_regions =
    and_then (try_collect (prefixed_range prefix_size) decoded_regions) input_handle

-- The bytes that are kept of those of a range; `truncate` beyond the end keeps all.
pub without_suffix : ℕ → ByteRange → List ℕ → List ℕ
without_suffix suffix_size (from_start offset (some length)) bytes = bytes
without_suffix suffix_size (from_start offset none) bytes =
    take (sub_u64 (length bytes) suffix_size) bytes
without_suffix suffix_size (suffix count) bytes = take (sub_u64 (length bytes) suffix_size) bytes

-- The bytes of one range.
pub strip_one : ℕ → PartialDecoder → ByteRange → Outcome (Option (List ℕ)) CodecError
strip_one suffix_size input_handle decoded_region =
    and_then (partial_decode input_handle decoded_region) (λ bytes. elim bytes [
      | none ↦ returns none
      | some b ↦ returns (some (without_suffix suffix_size decoded_region b))
    ])

-- `StripSuffixPartialDecoder`
pub strip_suffix : ℕ → PartialDecoder → PartialDecoder
strip_suffix suffix_size input_handle decoded_regions =
    collect_pieces (strip_one suffix_size input_handle) decoded_regions

pub interval_range : ℕ → ℕ → ByteRange → ByteRange
interval_range byte_offset byte_length (from_start offset none) =
    from_start (add_u64 byte_offset offset) (some byte_length)
interval_range byte_offset byte_length (from_start offset (some length)) =
    from_start (add_u64 byte_offset offset) (some length)
interval_range byte_offset byte_length (suffix length) =
    from_start (sub_u64 (add_u64 byte_offset byte_length) length) (some length)

-- `ByteIntervalPartialDecoder`
pub byte_interval : ℕ → ℕ → PartialDecoder → PartialDecoder
byte_interval byte_offset byte_length input_handle byte_ranges =
    input_handle (map (interval_range byte_offset byte_length) byte_ranges)
