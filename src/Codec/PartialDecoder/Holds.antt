-- ===== src/Codec/PartialDecoder/Holds.antt =====
-- What a partial decoder promises (zarrs_codec/src/codec_traits/bytes_partial_sync.rs).
use mathlib.Core.List.{Memᴰ}
use zarrs.Common.{
  ℕ, sym, subst, ◌+◌, ◌<◌, ◌≤◌, ◌≡◌, refl, ap, ◌∙◌, some, List, [], ◌∷◌, map, ◌++◌, zero, suc, take,
  drop, arith, length, u64_mod, returns, inl, inr,
}
use zarrs.Storage.ByteRange.{ByteRange, extract_byte_ranges}
use zarrs.Storage.ByteRange.Extract.{
  AllRepresentable, Within, AllWithin, piece, extract_byte_ranges-eq,
}
use zarrs.Codec.PartialDecoder.{PartialDecoder, bytes_decoder, partial_decode, pop}

-- The decoder returns the bytes of every list of ranges that lie in the value.
abbrev pub Holds : PartialDecoder → List ℕ → Type 0
Holds decoder value =
    (ranges : List ByteRange)
    → AllRepresentable ranges
    → AllWithin (length value) ranges
    → decoder ranges ≡ returns (some (map (piece value) ranges))

all-extracted :
    (bytes : List ℕ) (ranges : List ByteRange)
    → length bytes < u64_mod
    → AllRepresentable ranges
    → AllWithin (length bytes) ranges
    → extract_byte_ranges bytes ranges ≡ returns (map (piece bytes) ranges)
all-extracted bytes ranges k p w = elim (extract_byte_ranges-eq bytes k ranges p) [
  | inl (v, found) ↦ found
  | inr (r, m, bad, error) ↦ absurd (bad (member ranges r w m))
]
  where
    member :
        (ranges : List ByteRange) (r : ByteRange)
        → AllWithin (length bytes) ranges
        → Memᴰ r ranges
        → Within (length bytes) r
    member [] r w m = elim m [ ]
    member (q ∷ ranges) r (w, ws) (Memᴰ.head e) = subst (Within (length bytes)) (sym e) w
    member (q ∷ ranges) r (w, ws) (Memᴰ.tail m) = member ranges r ws m

-- The decoder of fewer than 2 ^ 64 bytes in memory holds them.
pub bytes_decoder-Holds :
    (bytes : List ℕ) → length bytes < u64_mod → Holds (bytes_decoder bytes) bytes
unfolding bytes_decoder
bytes_decoder-Holds bytes k ranges p w =
    let found = all-extracted bytes ranges k p w in rw found refl

-- So does `partial_decode` for one range.
pub partial_decode-Holds :
    (decoder : PartialDecoder) (value : List ℕ)
    → Holds decoder value
    → (range : ByteRange) → AllRepresentable (range ∷ [])
    → AllWithin (length value) (range ∷ [])
    → partial_decode decoder range ≡ returns (some (piece value range))
unfolding partial_decode pop
partial_decode-Holds decoder value h range p w = let found = h (range ∷ []) p w in rw found refl

-- Beyond the first of two lists.
pub drop-past : (o : ℕ) (xs ys : List ℕ) → drop (length xs + o) (xs ++ ys) ≡ drop o ys
drop-past o [] ys = ap (λ (n : ℕ). drop n ys) (omega arith)
drop-past o (x ∷ xs) ys =
    ap (λ (n : ℕ). drop n (x ∷ xs ++ ys)) (succ o (length xs)) ∙ drop-past o xs ys
  where
    succ : (o n : ℕ) → suc n + o ≡ suc (n + o)
    succ o n = omega arith

-- Within the first of two lists.
pub drop-within : (o : ℕ) (xs ys : List ℕ) → o ≤ length xs → drop o (xs ++ ys) ≡ drop o xs ++ ys
drop-within zero xs ys h = refl
drop-within (suc o) [] ys h = absurd (omega arith)
drop-within (suc o) (x ∷ xs) ys h = drop-within o xs ys (omega arith)

pub take-within : (n : ℕ) (xs ys : List ℕ) → n ≤ length xs → take n (xs ++ ys) ≡ take n xs
take-within zero xs ys h = refl
take-within (suc n) [] ys h = absurd (omega arith)
take-within (suc n) (x ∷ xs) ys h = ap (λ (t : List ℕ). x ∷ t) (take-within n xs ys (omega arith))
