-- ===== src/Tests/Decoders.antt =====
-- Partial decoders of bytes in memory (zarrs/src/array/codec/bytes_to_bytes).
use zarrs.Common.{ℕ, ◌≡◌, none, some, List, [], ◌∷◌, ◌++◌, arith, returns}
use zarrs.Storage.ByteRange.{from_start, suffix}
use zarrs.Codec.PartialDecoder.{bytes_decoder, strip_prefix, strip_suffix, byte_interval}
use zarrs.Codec.PartialDecoder.Holds.{Holds, bytes_decoder-Holds}
use zarrs.Codec.PartialDecoder.Prefix.{strip_prefix-Holds}
use zarrs.Codec.PartialDecoder.Suffix.{strip_suffix-served}
use zarrs.Codec.PartialDecoder.Interval.{byte_interval-pieces}

abbrev value : List ℕ
value = 10 ∷ 11 ∷ 12 ∷ 13 ∷ 14 ∷ []

abbrev checksum : List ℕ
checksum = 1 ∷ 2 ∷ 3 ∷ 4 ∷ []

strip_prefix-Holds_example : Holds (strip_prefix 4 (bytes_decoder (checksum ++ value))) value
strip_prefix-Holds_example =
    strip_prefix-Holds checksum value (omega arith) (bytes_decoder (checksum ++ value))
      (bytes_decoder-Holds (checksum ++ value) (omega arith))

-- The last four of five bytes are asked for, and none are returned.
strip_suffix-served_example :
    strip_suffix 4 (bytes_decoder (value ++ checksum)) (from_start 3 none ∷ suffix 4 ∷ [])
    ≡ returns (some ((13 ∷ 14 ∷ []) ∷ [] ∷ []))
strip_suffix-served_example =
    strip_suffix-served value checksum (omega arith) (bytes_decoder (value ++ checksum))
      (bytes_decoder-Holds (value ++ checksum) (omega arith)) (from_start 3 none ∷ suffix 4 ∷ [])
      (omega arith, (tt, tt)) (omega arith, (omega arith, tt)) (omega arith, tt)

-- The open range goes on for one byte behind the interval.
byte_interval-pieces_example :
    byte_interval 4 5
      (bytes_decoder (checksum ++ (value ++ checksum)))
      (suffix 2 ∷ from_start 1 none ∷ [])
    ≡ returns (some ((13 ∷ 14 ∷ []) ∷ (11 ∷ 12 ∷ 13 ∷ 14 ∷ 1 ∷ []) ∷ []))
byte_interval-pieces_example =
    byte_interval-pieces checksum value checksum (omega arith)
      (bytes_decoder (checksum ++ (value ++ checksum)))
      (bytes_decoder-Holds (checksum ++ (value ++ checksum)) (omega arith))
      (suffix 2 ∷ from_start 1 none ∷ []) (omega arith, (omega arith, tt)) (omega arith, tt)
