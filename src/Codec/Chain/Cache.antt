-- ===== src/Codec/Chain/Cache.antt =====
-- Binding a chain to a data type, and where its partial decoders cache
-- (zarrs/src/array/codec/array_to_bytes/codec_chain.rs).
pub mod Scans
pub mod Index
use mathlib.Core.List.{reverse}
use zarrs.Common.{
  ℕ, suc, max, Bool, true, ◌&&◌, Option, none, some, List, [], ◌∷◌, ◌++◌, map, if◌then◌else◌,
  Outcome, returns, and_then,
}
use zarrs.Codec.{CodecError}
use zarrs.Codec.ArrayBytes.{DataType}
use zarrs.Codec.Chain.{
  PartialDecoderCapability, ArrayToArrayCodec, BytesToBytesCodec, UnboundArrayToArrayCodec,
  CodecChain, CodecChainBound, FillValue,
}

-- cache_index_must, cache_index_should and codec_index
pub record CacheScan : Type 0 where
  pub must : Option ℕ
  pub should : Option ℕ
  pub codec_index : ℕ

-- The body of the three loops.
unfoldable pub scan_codec : CacheScan → PartialDecoderCapability → CacheScan
scan_codec scan capability = record {
  should = if capability.partial_read then scan.should else some scan.codec_index;
  must = if capability.partial_decode then scan.must else some (suc scan.codec_index);
  codec_index = suc scan.codec_index;
}

unfoldable pub scan_codecs : CacheScan → List PartialDecoderCapability → CacheScan
scan_codecs scan [] = scan
scan_codecs scan (capability ∷ rest) = scan_codecs (scan_codec scan capability) rest

-- match (cache_index_must, cache_index_should)
unfoldable pub cache_index : Option ℕ → Option ℕ → Option ℕ
cache_index (some m) (some s) = some (max m s)
cache_index (some m) none = some m
cache_index none (some s) = some s
cache_index none none = none

-- The capabilities of the codecs, from the last one to the first.
abbrev pub bytes_capabilities : CodecChain → List PartialDecoderCapability
bytes_capabilities chain =
    map (λ (c : BytesToBytesCodec). c.partial_decoder_capability) (reverse chain.bytes_to_bytes)

abbrev pub array_capabilities : CodecChain → List PartialDecoderCapability
array_capabilities chain =
    map (λ (c : UnboundArrayToArrayCodec). c.partial_decoder_capability)
      (reverse chain.array_to_array)

unfoldable pub chain_cache_index : CodecChain → Option ℕ
chain_cache_index chain =
    let scan : CacheScan = record { must = none; should = none; codec_index = 0 } in
    let scan = scan_codecs scan (bytes_capabilities chain) in
    let scan = scan_codec scan chain.array_to_bytes.partial_decoder_capability in
    let scan = scan_codecs scan (array_capabilities chain) in cache_index scan.must scan.should

-- for codec in &self.array_to_array, with the data type and the fill value that the last one encodes.
unfoldable pub bind_arrays :
    List UnboundArrayToArrayCodec
    → DataType
    → FillValue
    → Outcome (List ArrayToArrayCodec × DataType × FillValue) CodecError
bind_arrays [] data_type fill_value = returns ([], data_type, fill_value)
bind_arrays (codec ∷ codecs) data_type fill_value =
    and_then (codec.bind data_type fill_value) (λ bound.
      and_then (bind_arrays codecs bound.encoded_data_type bound.encoded_fill_value)
        (λ (rest, t, v). returns (bound ∷ rest, t, v)))

unfoldable pub with_context : CodecChain → DataType → FillValue → Outcome CodecChainBound CodecError
with_context chain data_type fill_value =
    and_then (bind_arrays chain.array_to_array data_type fill_value) (λ (arrays, t, v).
      and_then (chain.array_to_bytes.bind t v) (λ to_bytes. returns (record {
        array_to_array = arrays;
        array_to_bytes = to_bytes;
        bytes_to_bytes = chain.bytes_to_bytes;
        cache_index = chain_cache_index chain;
      })))

-- The fold of `CodecTraits::partial_decoder_capability`.
unfoldable pub fold_capability :
    PartialDecoderCapability → List PartialDecoderCapability → PartialDecoderCapability
fold_capability acc [] = acc
fold_capability acc (capability ∷ rest) =
    fold_capability
      (record {
        partial_read = acc.partial_read && capability.partial_read;
        partial_decode = acc.partial_decode && capability.partial_decode;
      })
      rest

-- `CodecTraits::partial_decoder_capability`, from the first codec to the last.
unfoldable pub partial_decoder_capability : CodecChain → PartialDecoderCapability
partial_decoder_capability chain =
    fold_capability (record { partial_read = true; partial_decode = true })
      (map (λ (c : UnboundArrayToArrayCodec). c.partial_decoder_capability) chain.array_to_array
        ++ chain.array_to_bytes.partial_decoder_capability
          ∷ map (λ (c : BytesToBytesCodec). c.partial_decoder_capability) chain.bytes_to_bytes)
