-- ===== src/Storage/ByteRange.antt =====
-- Byte ranges and their extraction (zarrs_storage/src/byte_range.rs).
pub mod Bounds
pub mod Extract
pub mod Concat
pub mod Seek
use zarrs.Common.{
  ℕ, zero, suc, ◌+◌, ◌-◌, Bool, Option, none, some, List, [], ◌∷◌, map, leb, ltb, ◌==◌,
  if◌then◌else◌, add_u64, sub_u64, length, take, drop, slice, copy_from_slice, Outcome, returns,
  fails, panics, and_then, checked, try_collect, ◌^◌,
}

pub data ByteRange : Type 0 where
  from_start : ℕ → Option ℕ → ByteRange
  suffix : ℕ → ByteRange

-- `Bound<u64>`
pub data Bound : Type 0 where
  included : ℕ → Bound
  excluded : ℕ → Bound
  unbounded : Bound

-- From the start and the end of a `RangeBounds<u64>`.
unfoldable pub new : Bound → Bound → ByteRange
new (included start) (included end) = from_start start (some (add_u64 (sub_u64 end start) 1))
new (included start) (excluded end) = from_start start (some (sub_u64 end start))
new (included start) unbounded = from_start start none
new (excluded start) (included end) = from_start (add_u64 start 1) (some (sub_u64 end start))
new (excluded start) (excluded end) =
    from_start (add_u64 start 1) (some (sub_u64 (sub_u64 end start) 1))
new (excluded start) unbounded = from_start (add_u64 start 1) none
new unbounded (included length) = from_start 0 (some (add_u64 length 1))
new unbounded (excluded length) = from_start 0 (some length)
new unbounded unbounded = from_start 0 none

unfoldable pub start : ByteRange → ℕ → ℕ
start (from_start offset length) size = offset
start (suffix length) size = sub_u64 size length

unfoldable pub end : ByteRange → ℕ → ℕ
end (from_start offset none) size = size
end (from_start offset (some length)) size = add_u64 offset length
end (suffix length) size = size

-- `ByteRange::length`
pub range_length : ByteRange → ℕ → ℕ
range_length (from_start offset none) size = sub_u64 size offset
range_length (from_start offset (some length)) size = length
range_length (suffix length) size = length

pub data InvalidByteRangeError : Type 0 where
  invalid_byte_range : ByteRange → ℕ → InvalidByteRangeError

-- offset + length.unwrap_or(0) <= bytes_len
pub is_valid : ByteRange → ℕ → Bool
is_valid (from_start offset none) bytes_len = leb (add_u64 offset 0) bytes_len
is_valid (from_start offset (some length)) bytes_len = leb (add_u64 offset length) bytes_len
is_valid (suffix length) bytes_len = leb length bytes_len

pub extract : List ℕ → ByteRange → Outcome (List ℕ) InvalidByteRangeError
unfolding is_valid start end
extract bytes byte_range =
    if is_valid byte_range (length bytes)
    then checked (slice bytes (start byte_range (length bytes)) (end byte_range (length bytes)))
    else fails (invalid_byte_range byte_range (length bytes))

pub extract_byte_ranges : List ℕ → List ByteRange → Outcome (List (List ℕ)) InvalidByteRangeError
unfolding extract
extract_byte_ranges bytes byte_ranges = try_collect (extract bytes) byte_ranges

-- The length and the start of a valid range.
pub record Region : Type 0 where
  pub length : ℕ
  pub start : ℕ

pub region : ℕ → ByteRange → Outcome Region InvalidByteRangeError
unfolding is_valid start range_length
region bytes_len byte_range =
    if is_valid byte_range bytes_len
    then returns
        (record { length = range_length byte_range bytes_len; start = start byte_range bytes_len })
    else fails (invalid_byte_range byte_range bytes_len)

-- .map(|(length, _)| length).sum::<u64>()
sum_lengths : ℕ → List Region → ℕ
sum_lengths acc [] = acc
sum_lengths acc (r ∷ regions) = sum_lengths (add_u64 acc r.length) regions

-- The regions one after another, at `offset` in the output.
copy_regions : List ℕ → List Region → ℕ → List ℕ → Option (List ℕ)
copy_regions bytes [] offset out = some out
copy_regions bytes (r ∷ regions) offset out =
    elim (slice bytes r.start (add_u64 r.start r.length)) [
      | none ↦ none
      | some piece ↦ elim (copy_from_slice out offset piece) [
        | none ↦ none
        | some copied ↦ copy_regions bytes regions (add_u64 offset r.length) copied
      ]
    ]

-- `spare` is the uninitialised memory of `Vec::with_capacity(out_size)`.
pub extract_byte_ranges_concat :
    List ℕ → List ByteRange → List ℕ → Outcome (List ℕ) InvalidByteRangeError
unfolding region sum_lengths copy_regions
extract_byte_ranges_concat bytes byte_ranges spare =
    and_then (try_collect (region (length bytes)) byte_ranges) (λ regions.
      let out_size = sum_lengths 0 regions in
      if out_size == 0
      then returns []
      else and_then (checked (copy_regions bytes regions 0 spare))
          (λ out. returns (take out_size out)))

-- The error of `Read` and `Seek` of std.
pub data IoError : Type 0 where
  invalid_seek : IoError
  unexpected_eof : IoError

-- read_exact into `length` bytes at a position, which may be beyond the end.
read_exact : List ℕ → ℕ → ℕ → Outcome (List ℕ) IoError
read_exact bytes position count = elim (slice bytes position (position + count)) [
  | some data_read ↦ returns data_read
  | none ↦ if count == 0 then returns [] else fails unexpected_eof
]

-- i64::try_from(length).unwrap(), then a seek back from the end.
read_suffix : List ℕ → ℕ → Outcome (List ℕ) IoError
unfolding read_exact
read_suffix bytes count =
    if ltb count (2 ^ 63)
    then (if leb count (length bytes)
        then read_exact bytes (length bytes - count) count
        else fails invalid_seek)
    else panics

read_range : List ℕ → ByteRange → Outcome (List ℕ) IoError
unfolding read_exact read_suffix
read_range bytes (from_start offset none) = read_exact bytes offset (length bytes)
read_range bytes (from_start offset (some count)) = read_exact bytes offset count
read_range bytes (suffix count) = read_suffix bytes count

-- `bytes` implements `Read` and `Seek` as `std::io::Cursor` does.
pub extract_byte_ranges_read_seek : List ℕ → List ByteRange → Outcome (List (List ℕ)) IoError
unfolding read_range
extract_byte_ranges_read_seek bytes byte_ranges = try_collect (read_range bytes) byte_ranges
