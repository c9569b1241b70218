-- ===== src/Tests/Chains.antt =====
-- Chains of codecs (zarrs/src/array/codec/array_to_bytes/codec_chain.rs).
use zarrs.Common.{
  ℕ, ◌≡◌, refl, ap, ◌∙◌, ◌↔◌, Bool, Option, none, some, List, [], ◌∷◌, length, true, false, Result,
  ok, err, Outcome, returns, fails,
}
use zarrs.Codec.{CodecError, BytesRepresentation, other, fixed_size}
use zarrs.Codec.Bytes.{bytes_eq}
use zarrs.Codec.Location.{end}
use zarrs.Codec.Adler32 as Adler32
use zarrs.Codec.ArrayBytes.{ArrayBytes, fixed, variable, optional, plain, fixed_length, validate}
use zarrs.Codec.Chain.{
  ArrayToArrayCodec, ArrayToBytesCodec, BytesToBytesCodec, PartialDecoderCapability, CodecChain,
  CodecChainBound, encode, decode, compact, encoded_representation, encode_arrays, encode_bytes,
  get_array_representations, array_representations_from, data_type, fill_value, last_shape,
  fold_representation, get_representations, get_bytes_representations, bytes_representations_from,
  decode_bytes,
}
use zarrs.Codec.Chain.RoundTrip.{Lossless, chain_decode-encode}
use zarrs.Codec.Chain.Compact.{decode-compact}
use zarrs.Codec.Chain.Cache.{
  chain_cache_index, with_context, bind_arrays, fold_capability, partial_decoder_capability,
  scan_codec, scan_codecs, cache_index,
}
use zarrs.Codec.Chain.Cache.Scans.{Bounded, capabilities}
use zarrs.Codec.Chain.Cache.Index.{AllCapable, IsCachePoint, chain_cache_index_lem}
use zarrs.Codec.Chain.Metadata.{AnyCodec, array_to_bytes, bytes_to_bytes, from_metadata}
use zarrs.Codec.Chain.Metadata.Sorting.{Creates, arrays_of, to_bytes_of, bytes_of}
use zarrs.Codec.Chain.Metadata.Parts.{from_metadata_iff}

abbrev capable : PartialDecoderCapability
capable = record { partial_read = true; partial_decode = true }

abbrev whole : PartialDecoderCapability
whole = record { partial_read = false; partial_decode = false }

-- A codec that keeps the array and its shape.
abbrev pub keep : ArrayToArrayCodec
keep = record {
  encode = λ bytes shape. returns bytes;
  decode = λ bytes shape. returns bytes;
  encoded_shape = λ shape. returns shape;
  data_type = plain (fixed_length 1);
  fill_value = 0 ∷ [];
  encoded_data_type = plain (fixed_length 1);
  encoded_fill_value = 0 ∷ [];
}

abbrev only_fixed : ArrayBytes → Outcome (List ℕ) CodecError
only_fixed (fixed bytes) = returns bytes
only_fixed (variable bytes offsets) = fails other
only_fixed (optional inner mask) = fails other

-- The bytes of an array of elements of one byte.
abbrev pub raw : ArrayToBytesCodec
raw = record {
  encode = λ bytes shape. only_fixed bytes;
  decode = λ bytes shape. returns (fixed bytes);
  compact = λ bytes shape. returns (some bytes);
  encoded_representation = λ shape. returns (fixed_size 2);
  data_type = plain (fixed_length 1);
  fill_value = 0 ∷ [];
}

-- The `adler32` codec, with the number of bytes for the checksum.
abbrev pub summed : BytesToBytesCodec
summed = record {
  encode = Adler32.encode length end;
  decode = λ bytes r. Adler32.decode length end true bytes;
  encoded_representation = λ r. r;
  partial_decoder_capability = whole;
}

abbrev pub bound : CodecChainBound
bound = record {
  array_to_array = keep ∷ [];
  array_to_bytes = raw;
  bytes_to_bytes = summed ∷ [];
  cache_index = some 1;
}

raw_lossless :
    (x : ArrayBytes) (y : List ℕ)
    → only_fixed x ≡ returns y
    → ◌≡◌ {A = Outcome ArrayBytes CodecError} (returns (fixed y)) (returns x)
raw_lossless (fixed bytes) y h = cc
raw_lossless (variable bytes offsets) y h = cc
raw_lossless (optional inner mask) y h = cc

pub summed_lossless :
    (x y : List ℕ) (r : BytesRepresentation)
    → Adler32.encode length end x ≡ returns y
    → Adler32.decode length end true y ≡ returns x
summed_lossless x y r h = (Adler32.decode-encode length end x y).0.1 h

pub bound-Lossless : Lossless bound
bound-Lossless = (
  (λ x y shape h. ap (λ (o : Outcome ArrayBytes CodecError). o) (swap x y h), tt),
  λ x y shape h. raw_lossless x y h,
  (summed_lossless, tt),
)
  where
    swap :
        (x y : ArrayBytes)
        → ◌≡◌ {A = Outcome ArrayBytes CodecError} (returns x) (returns y)
        → ◌≡◌ {A = Outcome ArrayBytes CodecError} (returns y) (returns x)
    swap x y h = cc

pub encoded_by_chain :
    encode bound (fixed (7 ∷ 8 ∷ [])) (2 ∷ []) ≡ returns (7 ∷ 8 ∷ 2 ∷ 0 ∷ 0 ∷ 0 ∷ [])
unfolding encode encode_arrays encode_bytes data_type validate Adler32.encode
encoded_by_chain = refl

chain_decode-encode_example :
    decode bound (7 ∷ 8 ∷ 2 ∷ 0 ∷ 0 ∷ 0 ∷ []) (2 ∷ []) ≡ returns (fixed (7 ∷ 8 ∷ []))
chain_decode-encode_example =
    chain_decode-encode bound (fixed (7 ∷ 8 ∷ [])) (7 ∷ 8 ∷ 2 ∷ 0 ∷ 0 ∷ 0 ∷ []) (2 ∷ [])
      bound-Lossless encoded_by_chain

-- A codec of arrays of two bytes that ignores bytes behind them.
abbrev pub two : List ℕ → List ℕ
two (a ∷ b ∷ _) = a ∷ b ∷ []
two (a ∷ []) = a ∷ []
two [] = []

two-two : (xs : List ℕ) → two (two xs) ≡ two xs
two-two [] = refl
two-two (a ∷ []) = refl
two-two (a ∷ b ∷ xs) = refl

abbrev pub padded : CodecChainBound
padded = record bound {
  array_to_bytes = record raw {
    decode = λ bytes shape. returns (fixed (two bytes));
    compact = λ bytes shape. returns (some (two bytes));
  };
}

pub compacted_by_chain :
    compact padded (7 ∷ 8 ∷ 9 ∷ 3 ∷ 0 ∷ 0 ∷ 0 ∷ []) (2 ∷ [])
    ≡ returns (some (7 ∷ 8 ∷ 2 ∷ 0 ∷ 0 ∷ 0 ∷ []))
unfolding compact get_representations get_array_representations array_representations_from
    get_bytes_representations bytes_representations_from last_shape decode_bytes encode_bytes
    Adler32.encode Adler32.decode bytes_eq
compacted_by_chain = refl

pub padded_keeps :
    (b c : List ℕ)
    → ◌≡◌ {A = Outcome (Option (List ℕ)) CodecError} (returns (some (two b))) (returns (some c))
    → ◌≡◌ {A = Outcome ArrayBytes CodecError} (returns (fixed (two c))) (returns (fixed (two b)))
padded_keeps b c h = ap (λ (x : List ℕ). returns (fixed x)) (ap two (same (two b) c h) ∙ two-two b)
  where
    same :
        (b c : List ℕ)
        → ◌≡◌ {A = Outcome (Option (List ℕ)) CodecError} (returns (some b)) (returns (some c))
        → c ≡ b
    same b c h = cc

decode-compact_example :
    decode padded (7 ∷ 8 ∷ 2 ∷ 0 ∷ 0 ∷ 0 ∷ []) (2 ∷ [])
    ≡ decode padded (7 ∷ 8 ∷ 9 ∷ 3 ∷ 0 ∷ 0 ∷ 0 ∷ []) (2 ∷ [])
decode-compact_example =
    decode-compact padded (7 ∷ 8 ∷ 9 ∷ 3 ∷ 0 ∷ 0 ∷ 0 ∷ []) (2 ∷ []) (7 ∷ 8 ∷ 2 ∷ 0 ∷ 0 ∷ 0 ∷ [])
      (summed_lossless, tt) (λ b c s h. padded_keeps b c h) compacted_by_chain

representation_of_chain : encoded_representation bound (2 ∷ []) ≡ returns (fixed_size 2)
unfolding encoded_representation fold_representation get_array_representations
    array_representations_from last_shape fill_value data_type
representation_of_chain = refl

-- An array to bytes codec that reads and decodes in part, before one of bytes that does not.
abbrev chain : CodecChain
chain = record {
  array_to_array = record { bind = λ t v. returns keep; partial_decoder_capability = capable } ∷ [];
  array_to_bytes = record { bind = λ t v. returns raw; partial_decoder_capability = capable };
  bytes_to_bytes = summed ∷ [];
}

chain_cache_index_lem_example :
    ((chain_cache_index chain ≡ none) ↔ AllCapable (capabilities chain))
    × ((j : ℕ) → Bounded (chain_cache_index chain) j ↔ IsCachePoint 0 j (capabilities chain))
chain_cache_index_lem_example = chain_cache_index_lem chain

-- The cache is after the codec of bytes, the first in the order of partial decoding, and not at the end.
index_of_chain : chain_cache_index chain ≡ some 1
unfolding chain_cache_index scan_codec scan_codecs cache_index
index_of_chain = refl

bound_by_chain : with_context chain (plain (fixed_length 1)) (0 ∷ []) ≡ returns bound
unfolding with_context bind_arrays chain_cache_index scan_codec scan_codecs cache_index
bound_by_chain = refl

capability_of_chain : partial_decoder_capability chain ≡ whole
unfolding partial_decoder_capability fold_capability
capability_of_chain = refl

-- Metadata that is a codec, or `none` for one that is not known.
abbrev create : Option AnyCodec → Result AnyCodec CodecError
create none = err other
create (some codec) = ok codec

abbrev optional_metadata : Option AnyCodec → Bool
optional_metadata none = false
optional_metadata (some codec) = true

abbrev plain_chain : CodecChain
plain_chain = record {
  array_to_array = [];
  array_to_bytes = chain.array_to_bytes;
  bytes_to_bytes = summed ∷ [];
}

abbrev metadata : List (Option AnyCodec)
metadata = none ∷ some (bytes_to_bytes summed) ∷ some (array_to_bytes chain.array_to_bytes) ∷ []

from_metadata_iff_example : (from_metadata create optional_metadata metadata ≡ ok plain_chain) ↔ (
    (cs : List AnyCodec) × Creates create optional_metadata metadata cs
    × (to_bytes_of cs ≡ plain_chain.array_to_bytes ∷ [])
    × (arrays_of cs ≡ plain_chain.array_to_array)
    × (bytes_of cs ≡ plain_chain.bytes_to_bytes))
from_metadata_iff_example = from_metadata_iff create optional_metadata metadata plain_chain
