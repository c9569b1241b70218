-- ===== src/Codec/PartialDecoder/Suffix.antt =====
-- What stripping a suffix returns
-- (zarrs/src/array/codec/bytes_to_bytes/strip_suffix_partial_decoder.rs).
use zarrs.Common.{
  ℕ, ◌+◌, ◌-◌, ◌<◌, ◌≤◌, ◌≡◌, refl, ap, ◌∙◌, none, some, List, [], ◌∷◌, ◌++◌, map, arith, length,
  length-append, length-drop, take, drop, take-append, sub_u64, u64_mod, returns,
}
use zarrs.Storage.ByteRange.{ByteRange, from_start, suffix}
use zarrs.Storage.ByteRange.Extract.{Representable, AllRepresentable, Within, AllWithin, piece}
use zarrs.Codec.PartialDecoder.{
  PartialDecoder, collect_pieces, without_suffix, strip_one, strip_suffix,
}
use zarrs.Codec.PartialDecoder.Holds.{Holds, partial_decode-Holds, drop-within, take-within}

-- Ranges of last bytes ask for at least so many.
abbrev pub AllLong : ℕ → List ByteRange → Type 0
AllLong k [] = Unit
AllLong k (from_start o l ∷ ranges) = AllLong k ranges
AllLong k (suffix n ∷ ranges) = (k ≤ n) × AllLong k ranges

-- The bytes that a range gets: a range of last bytes loses as many as the suffix has.
abbrev pub served : ℕ → List ℕ → ByteRange → List ℕ
served k value (from_start o l) = piece value (from_start o l)
served k value (suffix n) = piece value (suffix (n - k))

module _ (value after : List ℕ) (fits : length (value ++ after) < u64_mod) where
  total : length (value ++ after) ≡ length value + length after
  total = length-append value after

  -- Cutting the suffix off the bytes behind an offset.
  cut_off :
      (o : ℕ)
      → o ≤ length value
      → take (sub_u64 (length (drop o (value ++ after))) (length after)) (drop o (value ++ after))
        ≡ drop o value
  cut_off o h =
      let split = drop-within o value after h in
      let size : sub_u64 (length (drop o (value ++ after))) (length after) ≡ length (drop o value) =
        omega (arith, length-drop o (value ++ after), length-drop o value, total) in
      rw (size, split) (take-append (drop o value) after)

  kept :
      (r : ByteRange)
      → Within (length value) r
      → AllLong (length after) (r ∷ [])
      → without_suffix (length after) r (piece (value ++ after) r) ≡ served (length after) value r
  unfolding without_suffix
  kept (from_start o none) w l = cut_off o w
  kept (from_start o (some n)) w l =
      ap (take n) (drop-within o value after (omega arith))
      ∙ take-within n (drop o value) after (omega (arith, length-drop o value))
  kept (suffix n) w (l, _) =
      let at : length (value ++ after) - n ≡ length value - (n - length after) =
        omega (arith, total) in
      ap
        (λ (o : ℕ).
          take (sub_u64 (length (drop o (value ++ after))) (length after))
            (drop o (value ++ after)))
        at
      ∙ cut_off (length value - (n - length after)) (omega arith)

  wider : (r : ByteRange) → Within (length value) r → Within (length (value ++ after)) r
  wider (from_start o none) w = omega (arith, total)
  wider (from_start o (some l)) w = omega (arith, total)
  wider (suffix n) w = omega (arith, total)

  first_long :
      (k : ℕ) (r : ByteRange) (ranges : List ByteRange)
      → AllLong k (r ∷ ranges)
      → AllLong k (r ∷ []) × AllLong k ranges
  first_long k (from_start o l) ranges h = (tt, h)
  first_long k (suffix n) ranges (h, hs) = ((h, tt), hs)

  one :
      (decoder : PartialDecoder)
      → Holds decoder (value ++ after)
      → (r : ByteRange) → Representable r
      → Within (length value) r
      → AllLong (length after) (r ∷ [])
      → strip_one (length after) decoder r ≡ returns (some (served (length after) value r))
  unfolding strip_one
  one decoder h r p w l =
      let found = partial_decode-Holds decoder (value ++ after) h r (p, tt) (wider r w, tt) in
      rw found (ap (λ (t : List ℕ). returns (some t)) (kept r w l))

  all :
      (decoder : PartialDecoder)
      → Holds decoder (value ++ after)
      → (ranges : List ByteRange) → AllRepresentable ranges
      → AllWithin (length value) ranges
      → AllLong (length after) ranges
      → collect_pieces (strip_one (length after) decoder) ranges
        ≡ returns (some (map (served (length after) value) ranges))
  all decoder h [] p w l = refl
  all decoder h (r ∷ ranges) (p, ps) (w, ws) l =
      let (a, b) = first_long (length after) r ranges l in
      let here = one decoder h r p w a in
      let rest = all decoder h ranges ps ws b in rw (here, rest) refl

  -- From a decoder that holds a value and a suffix of fewer than 2 ^ 64 bytes together, with the suffix
  -- stripped, ranges from the start that lie in the value get their bytes; but a range of the last
  -- bytes of the value, of at least as many as the suffix has, gets fewer by the length of the suffix.
  pub strip_suffix-served :
      (decoder : PartialDecoder)
      → Holds decoder (value ++ after)
      → (ranges : List ByteRange) → AllRepresentable ranges
      → AllWithin (length value) ranges
      → AllLong (length after) ranges
      → strip_suffix (length after) decoder ranges
        ≡ returns (some (map (served (length after) value) ranges))
  unfolding strip_suffix
  strip_suffix-served = all
