-- ===== src/Codec/Chain/Metadata.antt =====
-- A chain from metadata (zarrs/src/array/codec/array_to_bytes/codec_chain.rs). The creation of a codec
-- from its metadata, by the plugins that are registered, is a parameter.
pub mod Sorting
pub mod Parts
use zarrs.Common.{
  Bool, true, false, Option, none, some, List, [], ◌∷◌, ◌++◌, if◌then◌else◌, Result, ok, err, ◌>>=◌,
}
use zarrs.Codec.{CodecError, other}
use zarrs.Codec.Chain.{
  UnboundArrayToArrayCodec, UnboundArrayToBytesCodec, BytesToBytesCodec, CodecChain,
}

pub data AnyCodec : Type 0 where
  array_to_array : UnboundArrayToArrayCodec → AnyCodec
  array_to_bytes : UnboundArrayToBytesCodec → AnyCodec
  bytes_to_bytes : BytesToBytesCodec → AnyCodec

-- The three variables of `from_metadata`.
pub record Sorted : Type 0 where
  pub arrays : List UnboundArrayToArrayCodec
  pub to_bytes : Option UnboundArrayToBytesCodec
  pub bytes : List BytesToBytesCodec

-- match codec
pub push_codec : Sorted → AnyCodec → Result Sorted CodecError
push_codec s (array_to_array codec) = ok (record s { arrays = s.arrays ++ codec ∷ [] })
push_codec s (array_to_bytes codec) = elim s.to_bytes [
  | none ↦ ok (record s { to_bytes = some codec })
  | some _ ↦ err other
]
push_codec s (bytes_to_bytes codec) = ok (record s { bytes = s.bytes ++ codec ∷ [] })

-- array_to_bytes.map_or_else(..)
pub complete : Sorted → Result CodecChain CodecError
complete s = elim s.to_bytes [
  | none ↦ err other
  | some codec ↦
      ok (record { array_to_array = s.arrays; array_to_bytes = codec; bytes_to_bytes = s.bytes })
]

module _ {Metadata : Type 0} (create : Metadata → Result AnyCodec CodecError)
    (must_understand : Metadata → Bool) where
  -- for metadata in metadatas
  pub sort_codecs : List Metadata → Sorted → Result Sorted CodecError
  sort_codecs [] s = ok s
  sort_codecs (metadata ∷ metadatas) s = elim (create metadata) [
    | ok codec ↦ push_codec s codec >>= sort_codecs metadatas
    | err e ↦ elim (must_understand metadata) [ true ↦ err e | false ↦ sort_codecs metadatas s ]
  ]

  pub from_metadata : List Metadata → Result CodecChain CodecError
  from_metadata metadatas =
      sort_codecs metadatas (record { arrays = []; to_bytes = none; bytes = [] }) >>= complete
