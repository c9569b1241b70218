-- ===== src/Storage/ByteRange/Seek.antt =====
-- Extraction by seeking and reading (zarrs_storage/src/byte_range.rs).
use zarrs.Common.{
  ℕ, ◌+◌, ◌-◌, ◌^◌, ◌<◌, ◌≡◌, refl, ap, sym, ◌∙◌, true, false, none, some, List, [], ◌∷◌, map,
  arith, leb, ltb, ◌==◌, u64_mod, length, take, drop, slice, le→leb, lt→leb_false, returns, fails,
  try_collect,
}
use zarrs.Storage.ByteRange.{
  ByteRange, from_start, suffix, unexpected_eof, read_exact, read_suffix, read_range,
  extract_byte_ranges_read_seek, extract_byte_ranges,
}
use zarrs.Storage.ByteRange.Extract.{
  Within, AllWithin, piece, extract-piece, slice_within, slice_rest,
}

-- A range with no length starts at the start.
abbrev pub OpenAtStart : ByteRange → Type 0
OpenAtStart (from_start o none) = o ≡ 0
OpenAtStart _ = Unit

abbrev pub AllOpenAtStart : List ByteRange → Type 0
AllOpenAtStart [] = Unit
AllOpenAtStart (r ∷ ranges) = OpenAtStart r × AllOpenAtStart ranges

read_exact-slice :
    (bytes : List ℕ) (position count : ℕ) (read : List ℕ)
    → slice bytes position (position + count) ≡ some read
    → read_exact bytes position count ≡ returns read
unfolding read_exact
read_exact-slice bytes position count read e = rw (read_exact, e)

read_range-piece :
    (bytes : List ℕ) (r : ByteRange)
    → length bytes < 2 ^ 63
    → Within (length bytes) r
    → OpenAtStart r
    → read_range bytes r ≡ returns (piece bytes r)
unfolding read_range read_suffix
read_range-piece bytes (from_start o none) k w z =
    ap (λ (t : ℕ). read_exact bytes t (length bytes)) z
    ∙ read_exact-slice bytes 0 (length bytes) bytes
        (ap (slice bytes 0) (omega arith) ∙ slice_rest bytes 0 (omega arith))
    ∙ ap (λ (t : ℕ). returns (drop t bytes)) (sym z)
read_range-piece bytes (from_start o (some l)) k w z =
    read_exact-slice bytes o l (take l (drop o bytes)) (
      slice_within bytes o (o + l) (omega arith) w
      ∙ ap (λ (t : ℕ). some (take t (drop o bytes))) (omega arith))
read_range-piece bytes (suffix l) k w z =
    let small : ltb l (2 ^ 63) ≡ true = ground arith in
    let inside : leb l (length bytes) ≡ true = le→leb l (length bytes) w in
    rw (small, inside)
      (read_exact-slice bytes (length bytes - l) l (drop (length bytes - l) bytes) (
        ap (slice bytes (length bytes - l)) (omega arith)
        ∙ slice_rest bytes (length bytes - l) (omega arith)))

read_ranges-pieces :
    (bytes : List ℕ) (ranges : List ByteRange)
    → length bytes < 2 ^ 63
    → AllWithin (length bytes) ranges
    → AllOpenAtStart ranges
    → try_collect (read_range bytes) ranges ≡ returns (map (piece bytes) ranges)
read_ranges-pieces bytes [] k w z = refl
read_ranges-pieces bytes (r ∷ ranges) k (w, ws) (z, zs) =
    let here = read_range-piece bytes r k w z in
    let rest = read_ranges-pieces bytes ranges k ws zs in rw (here, rest)

-- Of ranges within fewer than 2 ^ 63 bytes, of which those with no length start at 0,
-- `extract_byte_ranges_read_seek` returns the bytes of each range, as `extract_byte_ranges` does.
pub extract_byte_ranges_read_seek-eq :
    (bytes : List ℕ) (ranges : List ByteRange)
    → length bytes < 2 ^ 63
    → AllWithin (length bytes) ranges
    → AllOpenAtStart ranges
    → extract_byte_ranges_read_seek bytes ranges ≡ returns (map (piece bytes) ranges)
unfolding extract_byte_ranges_read_seek
extract_byte_ranges_read_seek-eq = read_ranges-pieces

slice-beyond : (bytes : List ℕ) (a b : ℕ) → length bytes < b → slice bytes a b ≡ none
slice-beyond bytes a b h = let out = lt→leb_false b (length bytes) h in ground (arith, out)

-- A first range with no length that starts after the first byte, and not after the last, of fewer
-- than 2 ^ 64, is read beyond the end: `extract_byte_ranges_read_seek` fails where
-- `extract_byte_ranges` returns the bytes of the range.
pub read_seek-open_range :
    (bytes : List ℕ) (offset : ℕ) (ranges : List ByteRange)
    → 0 < offset
    → offset < length bytes
    → length bytes < u64_mod
    → (extract_byte_ranges_read_seek bytes (from_start offset none ∷ ranges) ≡ fails unexpected_eof)
      × (extract_byte_ranges bytes (from_start offset none ∷ []) ≡ returns (drop offset bytes ∷ []))
unfolding extract_byte_ranges_read_seek read_range read_exact extract_byte_ranges
read_seek-open_range bytes offset ranges h b k =
    let out = slice-beyond bytes offset (offset + length bytes) (omega arith) in
    let some_bytes : (length bytes == 0) ≡ false = ground arith in
    let whole = extract-piece bytes k (from_start offset none) (omega arith) (omega arith) in
    (rw (read_exact, out, some_bytes), rw whole refl)
