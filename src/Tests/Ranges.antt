-- ===== src/Tests/Ranges.antt =====
-- Byte ranges of five bytes (zarrs_storage/src/byte_range.rs).
use mathlib.Core.List.{Memᴰ}
use zarrs.Common.{
  ℕ, ◌≡◌, ◌⊎◌, none, some, List, [], ◌∷◌, map, drop, arith, length, returns, fails, and_then,
}
use zarrs.Storage.ByteRange.{
  ByteRange, from_start, suffix, invalid_byte_range, unexpected_eof, extract_byte_ranges,
  extract_byte_ranges_concat, extract_byte_ranges_read_seek,
}
use zarrs.Storage.ByteRange.Extract.{
  Within, AllWithin, AllRepresentable, piece, extract_byte_ranges-eq,
}
use zarrs.Storage.ByteRange.Concat.{flatten, extract_byte_ranges_concat-eq}
use zarrs.Storage.ByteRange.Seek.{read_seek-open_range}

abbrev bytes : List ℕ
bytes = 10 ∷ 11 ∷ 12 ∷ 13 ∷ 14 ∷ []

abbrev ranges : List ByteRange
ranges = from_start 1 (some 2) ∷ suffix 1 ∷ from_start 0 none ∷ []

ranges-AllRepresentable : AllRepresentable ranges
ranges-AllRepresentable = (omega arith, (tt, (omega arith, tt)))

ranges-AllWithin : AllWithin (length bytes) ranges
ranges-AllWithin = (omega arith, (omega arith, (omega arith, tt)))

extract_byte_ranges-eq_example :
    (AllWithin (length bytes) ranges
      × (extract_byte_ranges bytes ranges ≡ returns (map (piece bytes) ranges)))
    ⊎ ((r : ByteRange) × Memᴰ r ranges
        × (¬ Within (length bytes) r)
        × (extract_byte_ranges bytes ranges ≡ fails (invalid_byte_range r (length bytes))))
extract_byte_ranges-eq_example =
    extract_byte_ranges-eq bytes (omega arith) ranges ranges-AllRepresentable

abbrev spare : List ℕ
spare = 0 ∷ 0 ∷ 0 ∷ 0 ∷ 0 ∷ 0 ∷ 0 ∷ 0 ∷ 0 ∷ []

extract_byte_ranges_concat-eq_example :
    extract_byte_ranges_concat bytes ranges spare
    ≡ and_then (extract_byte_ranges bytes ranges) (λ pieces. returns (flatten pieces))
extract_byte_ranges_concat-eq_example =
    extract_byte_ranges_concat-eq bytes (omega arith) ranges spare ranges-AllRepresentable
      (omega arith) (omega arith)

read_seek-open_range_example :
    (extract_byte_ranges_read_seek bytes (from_start 2 none ∷ []) ≡ fails unexpected_eof)
    × (extract_byte_ranges bytes (from_start 2 none ∷ []) ≡ returns (drop 2 bytes ∷ []))
read_seek-open_range_example =
    read_seek-open_range bytes 2 [] (omega arith) (omega arith) (omega arith)
