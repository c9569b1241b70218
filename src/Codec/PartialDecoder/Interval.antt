-- ===== src/Codec/PartialDecoder/Interval.antt =====
-- What a partial decoder of an interval returns
-- (zarrs_codec/src/byte_interval_partial_decoder.rs).
use zarrs.Common.{
  ℕ, ◌+◌, ◌-◌, ◌<◌, ◌≤◌, ◌≡◌, refl, ap, ap₂, ◌∙◌, none, some, List, [], ◌∷◌, ◌++◌, map, arith,
  length, length-append, length-drop, take, drop, take-all, add_u64, sub_u64, u64_mod, returns,
}
use zarrs.Storage.ByteRange.{ByteRange, from_start, suffix}
use zarrs.Storage.ByteRange.Extract.{Representable, AllRepresentable, Within, AllWithin, piece}
use zarrs.Codec.PartialDecoder.{PartialDecoder, interval_range, byte_interval}
use zarrs.Codec.PartialDecoder.Holds.{Holds, drop-past, drop-within, take-within}

-- An open range starts so far into the interval that as many bytes follow the interval.
abbrev pub AllFollowed : ℕ → List ByteRange → Type 0
AllFollowed n [] = Unit
AllFollowed n (from_start o none ∷ ranges) = (o ≤ n) × AllFollowed n ranges
AllFollowed n (from_start o (some l) ∷ ranges) = AllFollowed n ranges
AllFollowed n (suffix l ∷ ranges) = AllFollowed n ranges

-- The bytes that a range gets: an open range goes on behind the interval.
abbrev pub interval_piece : List ℕ → List ℕ → ByteRange → List ℕ
interval_piece value after (from_start o none) = take (length value) (drop o (value ++ after))
interval_piece value after (from_start o (some l)) = piece value (from_start o (some l))
interval_piece value after (suffix l) = piece value (suffix l)

module _ (before value after : List ℕ) (fits : length (before ++ (value ++ after)) < u64_mod) where
  total : length (before ++ (value ++ after)) ≡ length before + (length value + length after)
  total =
      length-append before (value ++ after)
      ∙ ap (λ (n : ℕ). length before + n) (length-append value after)

  one :
      (r : ByteRange)
      → Within (length value) r
      → AllFollowed (length after) (r ∷ [])
      → Representable (interval_range (length before) (length value) r)
        × Within
            (length (before ++ (value ++ after)))
            (interval_range (length before) (length value) r)
        × (piece (before ++ (value ++ after)) (interval_range (length before) (length value) r)
            ≡ interval_piece value after r)
  unfolding interval_range
  one (from_start o none) w (f, _) =
      let exact : add_u64 (length before) o ≡ length before + o = omega (arith, total) in
      rw exact (
        omega (arith, total),
        omega (arith, total),
        ap (take (length value)) (drop-past o before (value ++ after)),
      )
  one (from_start o (some l)) w f =
      let exact : add_u64 (length before) o ≡ length before + o = omega (arith, total) in
      rw exact (
        omega (arith, total),
        omega (arith, total),
        ap (take l) (drop-past o before (value ++ after) ∙ drop-within o value after (omega arith))
            ∙ take-within l (drop o value) after (omega (arith, length-drop o value)),
      )
  one (suffix l) w f =
      let exact : sub_u64 (add_u64 (length before) (length value)) l
          ≡ length before + (length value - l) =
        omega (arith, total) in
      rw exact (
        omega (arith, total),
        omega (arith, total),
        ap (take l) (
              drop-past (length value - l) before (value ++ after)
              ∙ drop-within (length value - l) value after (omega arith))
            ∙ take-within l (drop (length value - l) value) after
                (omega (arith, length-drop (length value - l) value))
            ∙ take-all l (drop (length value - l) value)
                (omega (arith, length-drop (length value - l) value)),
      )

  first_followed :
      (n : ℕ) (r : ByteRange) (ranges : List ByteRange)
      → AllFollowed n (r ∷ ranges)
      → AllFollowed n (r ∷ []) × AllFollowed n ranges
  first_followed n (from_start o none) ranges (h, hs) = ((h, tt), hs)
  first_followed n (from_start o (some l)) ranges h = (tt, h)
  first_followed n (suffix l) ranges h = (tt, h)

  all :
      (ranges : List ByteRange)
      → AllWithin (length value) ranges
      → AllFollowed (length after) ranges
      → AllRepresentable (map (interval_range (length before) (length value)) ranges)
        × AllWithin
            (length (before ++ (value ++ after)))
            (map (interval_range (length before) (length value)) ranges)
        × (map
              (piece (before ++ (value ++ after)))
              (map (interval_range (length before) (length value)) ranges)
            ≡ map (interval_piece value after) ranges)
  all [] w f = (tt, tt, refl)
  all (r ∷ ranges) (w, ws) f =
      let (a, b) = first_followed (length after) r ranges f in
      let (p, i, e) = one r w a in
      let (ps, is, es) = all ranges ws b in ((p, ps), (i, is), ap₂ ◌∷◌ e es)

  -- From a decoder that holds fewer than 2 ^ 64 bytes with an interval in them, the decoder of the
  -- interval returns the bytes of the ranges in the interval that have a length or count from its end;
  -- but a range that is open, which reads to the end of the interval, gets as many bytes as the whole
  -- interval has, also those behind it, if there are so many.
  pub byte_interval-pieces :
      (decoder : PartialDecoder)
      → Holds decoder (before ++ (value ++ after))
      → (ranges : List ByteRange) → AllWithin (length value) ranges
      → AllFollowed (length after) ranges
      → byte_interval (length before) (length value) decoder ranges
        ≡ returns (some (map (interval_piece value after) ranges))
  unfolding byte_interval
  byte_interval-pieces decoder h ranges w f =
      let (ps, is, es) = all ranges w f in
      h (map (interval_range (length before) (length value)) ranges) ps is
      ∙ ap (λ (t : List (List ℕ)). returns (some t)) es
