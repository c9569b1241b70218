-- ===== src/Storage/ByteRange/Bounds.antt =====
-- The interval of a byte range made from a range of the language (zarrs_storage/src/byte_range.rs).
use zarrs.Common.{ℕ, ◌+◌, ◌-◌, ◌<◌, ◌≤◌, ◌≡◌, arith, u64_mod}
use zarrs.Storage.ByteRange.{Bound, included, excluded, unbounded, new, start, end, range_length}

-- The first index of a range with a start bound.
abbrev pub first : Bound → ℕ
first (included s) = s
first (excluded s) = s + 1
first unbounded = 0

-- The index after the last of a range with an end bound, in bytes of a size.
abbrev pub after : Bound → ℕ → ℕ
after (included e) size = e + 1
after (excluded e) size = e
after unbounded size = size

-- For a range of the language that is not reversed and ends below 2 ^ 64, `new` returns the byte
-- range with the same start, end and length, of bytes of the size given.
pub new-interval :
    (low high : Bound) (size : ℕ)
    → first low ≤ after high size
    → after high size < u64_mod
    → (start (new low high) size ≡ first low)
      × (end (new low high) size ≡ after high size)
      × (range_length (new low high) size ≡ after high size - first low)
unfolding new start end range_length
new-interval (included s) (included e) size h k = ground arith
new-interval (included s) (excluded e) size h k = ground arith
new-interval (included s) unbounded size h k = ground arith
new-interval (excluded s) (included e) size h k = ground arith
new-interval (excluded s) (excluded e) size h k = ground arith
new-interval (excluded s) unbounded size h k = ground arith
new-interval unbounded (included e) size h k = ground arith
new-interval unbounded (excluded e) size h k = ground arith
new-interval unbounded unbounded size h k = ground arith
