-- ===== src/Codec/Chain.antt =====
-- A chain of codecs, its metadata and its bound form
-- (zarrs/src/array/codec/array_to_bytes/codec_chain.rs). The codecs of the chain are records of the
-- calls of their traits (zarrs_codec/src/codec_traits), with the codec options applied.
pub mod Reverse
pub mod RoundTrip
pub mod Compact
pub mod Cache
pub mod Metadata
use zarrs.Common.{
  ℕ, zero, suc, max, Bool, true, false, not, ◌&&◌, Option, none, some, List, [], ◌∷◌, ◌++◌, map,
  if◌then◌else◌, length, product_u64, Result, ok, err, Outcome, returns, fails, and_then, for_zip,
}
use mathlib.Core.List.{reverse}
use zarrs.Codec.{CodecError, BytesRepresentation}
use zarrs.Codec.ArrayBytes.{ArrayBytes, DataType, Validation, validate}
use zarrs.Codec.VlenV2.{from_result}

-- A fill value, as its bytes.
abbrev pub FillValue : Type 0
FillValue = List ℕ

pub record PartialDecoderCapability : Type 0 where
  pub partial_read : Bool
  pub partial_decode : Bool

-- `ArrayToArrayCodecTraits`
pub record ArrayToArrayCodec : Type 0 where
  pub encode : ArrayBytes → List ℕ → Outcome ArrayBytes CodecError
  pub decode : ArrayBytes → List ℕ → Outcome ArrayBytes CodecError
  pub encoded_shape : List ℕ → Outcome (List ℕ) CodecError
  pub data_type : DataType
  pub fill_value : FillValue
  pub encoded_data_type : DataType
  pub encoded_fill_value : FillValue

-- `ArrayToBytesCodecTraits`
pub record ArrayToBytesCodec : Type 0 where
  pub encode : ArrayBytes → List ℕ → Outcome (List ℕ) CodecError
  pub decode : List ℕ → List ℕ → Outcome ArrayBytes CodecError
  pub compact : List ℕ → List ℕ → Outcome (Option (List ℕ)) CodecError
  pub encoded_representation : List ℕ → Outcome BytesRepresentation CodecError
  pub data_type : DataType
  pub fill_value : FillValue

-- `BytesToBytesCodecTraits`
pub record BytesToBytesCodec : Type 0 where
  pub encode : List ℕ → Outcome (List ℕ) CodecError
  pub decode : List ℕ → BytesRepresentation → Outcome (List ℕ) CodecError
  pub encoded_representation : BytesRepresentation → BytesRepresentation
  pub partial_decoder_capability : PartialDecoderCapability

-- `UnboundArrayToArrayCodecTraits`
pub record UnboundArrayToArrayCodec : Type 0 where
  pub bind : DataType → FillValue → Outcome ArrayToArrayCodec CodecError
  pub partial_decoder_capability : PartialDecoderCapability

-- `UnboundArrayToBytesCodecTraits`
pub record UnboundArrayToBytesCodec : Type 0 where
  pub bind : DataType → FillValue → Outcome ArrayToBytesCodec CodecError
  pub partial_decoder_capability : PartialDecoderCapability

pub record CodecChain : Type 0 where
  pub array_to_array : List UnboundArrayToArrayCodec
  pub array_to_bytes : UnboundArrayToBytesCodec
  pub bytes_to_bytes : List BytesToBytesCodec

pub record CodecChainBound : Type 0 where
  pub array_to_array : List ArrayToArrayCodec
  pub array_to_bytes : ArrayToBytesCodec
  pub bytes_to_bytes : List BytesToBytesCodec
  pub cache_index : Option ℕ

-- Shape, data type and fill value.
pub record ArrayRepresentation : Type 0 where
  pub shape : List ℕ
  pub data_type : DataType
  pub fill_value : FillValue

unfoldable pub data_type : CodecChainBound → DataType
data_type chain = elim chain.array_to_array [
  | [] ↦ chain.array_to_bytes.data_type
  | codec ∷ _ ↦ codec.data_type
]

unfoldable pub fill_value : CodecChainBound → FillValue
fill_value chain = elim chain.array_to_array [
  | [] ↦ chain.array_to_bytes.fill_value
  | codec ∷ _ ↦ codec.fill_value
]

-- for codec in &self.array_to_array { .. encode .. encoded_shape .. }
unfoldable pub encode_arrays :
    List ArrayToArrayCodec → ArrayBytes → List ℕ → Outcome (ArrayBytes × List ℕ) CodecError
encode_arrays [] bytes shape = returns (bytes, shape)
encode_arrays (codec ∷ codecs) bytes shape =
    and_then (codec.encode bytes shape)
      (λ bytes. and_then (codec.encoded_shape shape) (λ shape. encode_arrays codecs bytes shape))

-- for codec in &self.bytes_to_bytes { .. encode .. }; the representation it computes is not used.
unfoldable pub encode_bytes : List BytesToBytesCodec → List ℕ → Outcome (List ℕ) CodecError
encode_bytes [] bytes = returns bytes
encode_bytes (codec ∷ codecs) bytes =
    and_then (codec.encode bytes) (λ bytes. encode_bytes codecs bytes)

unfoldable pub encode : CodecChainBound → ArrayBytes → List ℕ → Outcome (List ℕ) CodecError
encode chain bytes shape =
    and_then (from_result (validate bytes (product_u64 shape) (data_type chain))) (λ _.
      and_then (encode_arrays chain.array_to_array bytes shape) (λ (bytes, shape).
        and_then (chain.array_to_bytes.encode bytes shape) (λ bytes.
          and_then (chain.array_to_bytes.encoded_representation shape)
            (λ _. encode_bytes chain.bytes_to_bytes bytes))))

-- The representations from the last one that was pushed.
unfoldable pub array_representations_from :
    List ArrayToArrayCodec → ArrayRepresentation → Outcome (List ArrayRepresentation) CodecError
array_representations_from [] last = returns (last ∷ [])
array_representations_from (codec ∷ codecs) last =
    and_then (codec.encoded_shape last.shape) (λ shape.
      and_then
        (array_representations_from codecs (record {
          shape = shape;
          data_type = codec.encoded_data_type;
          fill_value = codec.encoded_fill_value;
        }))
        (λ rest. returns (last ∷ rest)))

unfoldable pub get_array_representations :
    CodecChainBound → List ℕ → Outcome (List ArrayRepresentation) CodecError
get_array_representations chain shape =
    array_representations_from chain.array_to_array
      (record { shape = shape; data_type = data_type chain; fill_value = fill_value chain })

unfoldable pub bytes_representations_from :
    List BytesToBytesCodec → BytesRepresentation → List BytesRepresentation
bytes_representations_from [] last = last ∷ []
bytes_representations_from (codec ∷ codecs) last =
    last ∷ bytes_representations_from codecs (codec.encoded_representation last)

unfoldable pub get_bytes_representations :
    CodecChainBound → List ℕ → Outcome (List BytesRepresentation) CodecError
get_bytes_representations chain shape =
    and_then (chain.array_to_bytes.encoded_representation shape)
      (λ first. returns (bytes_representations_from chain.bytes_to_bytes first))

-- The shape of `array_representations.last().unwrap()`, from the first of the list.
unfoldable pub last_shape : List ℕ → List ArrayRepresentation → List ℕ
last_shape shape [] = shape
last_shape shape (r ∷ rest) = last_shape r.shape rest

unfoldable pub get_representations :
    CodecChainBound
    → List ℕ
    → Outcome (List ArrayRepresentation × List BytesRepresentation) CodecError
get_representations chain shape = and_then (get_array_representations chain shape) (λ arrays.
    and_then (get_bytes_representations chain (last_shape shape arrays))
      (λ bytes. returns (arrays, bytes)))

-- iter().rev().skip(1)
abbrev pub skip_one {ℓ} : {A : Type ℓ} → List A → List A
skip_one [] = []
skip_one (x ∷ xs) = xs

-- for (codec, bytes_representation) in std::iter::zip(codecs, representations)
unfoldable pub decode_bytes :
    List BytesToBytesCodec → List BytesRepresentation → List ℕ → Outcome (List ℕ) CodecError
decode_bytes codecs representations bytes =
    for_zip (λ (codec : BytesToBytesCodec) r bytes. codec.decode bytes r) codecs representations
      bytes

-- for (codec, (shape, _data_type, _fill_value)) in std::iter::zip(codecs, representations)
pub decode_arrays :
    List ArrayToArrayCodec → List ArrayRepresentation → ArrayBytes → Outcome ArrayBytes CodecError
decode_arrays codecs representations bytes =
    for_zip
      (λ (codec : ArrayToArrayCodec) (r : ArrayRepresentation) bytes. codec.decode bytes r.shape)
      codecs representations bytes

-- The first of the representations is that of the decoded array, of shape `shape`.
unfoldable pub decode : CodecChainBound → List ℕ → List ℕ → Outcome ArrayBytes CodecError
decode chain bytes shape = and_then (get_representations chain shape) (λ (arrays, representations).
    and_then
      (decode_bytes (reverse chain.bytes_to_bytes) (skip_one (reverse representations)) bytes)
      (λ bytes. and_then (chain.array_to_bytes.decode bytes (last_shape shape arrays)) (λ bytes.
        and_then (decode_arrays (reverse chain.array_to_array) (skip_one (reverse arrays)) bytes)
          (λ bytes.
            and_then (from_result (validate bytes (product_u64 shape) (data_type chain)))
              (λ _. returns bytes)))))

-- Compaction at the level of the array to bytes codec.
unfoldable pub compact : CodecChainBound → List ℕ → List ℕ → Outcome (Option (List ℕ)) CodecError
compact chain bytes shape = and_then (get_representations chain shape) (λ (arrays, representations).
    and_then
      (decode_bytes (reverse chain.bytes_to_bytes) (skip_one (reverse representations)) bytes)
      (λ bytes.
        and_then (chain.array_to_bytes.compact bytes (last_shape shape arrays)) (λ compacted.
          elim compacted [
            | none ↦ returns none
            | some bytes ↦
                and_then (encode_bytes chain.bytes_to_bytes bytes) (λ bytes. returns (some bytes))
          ])))

-- `encoded_representation` of the chain.
unfoldable pub fold_representation :
    List BytesToBytesCodec → BytesRepresentation → BytesRepresentation
fold_representation [] r = r
fold_representation (codec ∷ codecs) r = fold_representation codecs (codec.encoded_representation r)

unfoldable pub encoded_representation :
    CodecChainBound → List ℕ → Outcome BytesRepresentation CodecError
encoded_representation chain shape = and_then (get_array_representations chain shape) (λ arrays.
    and_then (chain.array_to_bytes.encoded_representation (last_shape shape arrays))
      (λ r. returns (fold_representation chain.bytes_to_bytes r)))
