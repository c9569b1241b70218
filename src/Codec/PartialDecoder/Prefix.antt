-- ===== src/Codec/PartialDecoder/Prefix.antt =====
-- What stripping a prefix returns
-- (zarrs/src/array/codec/bytes_to_bytes/strip_prefix_partial_decoder.rs).
use zarrs.Common.{
  ℕ, ◌+◌, ◌-◌, ◌<◌, ◌≡◌, refl, ap, ap₂, ◌∙◌, true, none, some, List, [], ◌∷◌, ◌++◌, map, arith,
  length, length-append, take, drop, ltb, u64_mod, returns, try_collect,
}
use zarrs.Storage.ByteRange.{ByteRange, from_start, suffix}
use zarrs.Storage.ByteRange.Extract.{Representable, AllRepresentable, Within, AllWithin, piece}
use zarrs.Codec.PartialDecoder.{PartialDecoder, prefixed_range, strip_prefix}
use zarrs.Codec.PartialDecoder.Holds.{Holds, drop-past}

-- The range in the input.
abbrev shifted : ℕ → ByteRange → ByteRange
shifted n (from_start o l) = from_start (o + n) l
shifted n (suffix l) = suffix l

module _ (before value : List ℕ) (fits : length (before ++ value) < u64_mod) where
  total : length (before ++ value) ≡ length before + length value
  total = length-append before value

  one :
      (r : ByteRange)
      → Within (length value) r
      → (prefixed_range (length before) r ≡ returns (shifted (length before) r))
        × Representable (shifted (length before) r)
        × Within (length (before ++ value)) (shifted (length before) r)
        × (piece (before ++ value) (shifted (length before) r) ≡ piece value r)
  unfolding prefixed_range
  one (from_start o none) w =
      let t = total in
      let small : ltb (o + length before) u64_mod ≡ true = ground arith in
      (
        rw small refl,
        omega arith,
        omega arith,
        ap (λ (n : ℕ). drop n (before ++ value)) (omega arith) ∙ drop-past o before value,
      )
  one (from_start o (some l)) w =
      let t = total in
      let small : ltb (o + length before) u64_mod ≡ true = ground arith in
      (
        rw small refl,
        omega arith,
        omega arith,
        ap (take l)
            (ap (λ (n : ℕ). drop n (before ++ value)) (omega arith) ∙ drop-past o before value),
      )
  one (suffix l) w =
      let t = total in
      (
        refl,
        tt,
        omega arith,
        ap (λ (n : ℕ). drop n (before ++ value)) (omega arith)
            ∙ drop-past (length value - l) before value,
      )

  all_ranges :
      (ranges : List ByteRange)
      → AllWithin (length value) ranges
      → (try_collect (prefixed_range (length before)) ranges
          ≡ returns (map (shifted (length before)) ranges))
        × AllRepresentable (map (shifted (length before)) ranges)
        × AllWithin (length (before ++ value)) (map (shifted (length before)) ranges)
        × (map (piece (before ++ value)) (map (shifted (length before)) ranges)
            ≡ map (piece value) ranges)
  all_ranges [] w = (refl, tt, tt, refl)
  all_ranges (r ∷ ranges) (w, ws) =
      let (a, p, i, e) = one r w in
      let (b, ps, is, es) = all_ranges ranges ws in (rw (a, b) refl, (p, ps), (i, is), ap₂ ◌∷◌ e es)

  -- A decoder that holds a prefix and a value of fewer than 2 ^ 64 bytes together, with the prefix
  -- stripped, holds the value.
  pub strip_prefix-Holds :
      (decoder : PartialDecoder)
      → Holds decoder (before ++ value)
      → Holds (strip_prefix (length before) decoder) value
  unfolding strip_prefix
  strip_prefix-Holds decoder h ranges p w =
      let (a, ps, is, es) = all_ranges ranges w in
      let found = h (map (shifted (length before)) ranges) ps is in
      rw (a, found) (ap (λ (t : List (List ℕ)). returns (some t)) es)
