-- ===== src/Subset/Contains.antt =====
-- What a subset contains, under the operations of zarrs_chunk_grid/src/array_subset_traits.rs.
use zarrs.Common.{
  ℕ, ◌+◌, ◌-◌, ◌<◌, ◌≡◌, refl, List, [], ◌∷◌, map, arith, length, u64_mod, min, max, ok, add_u64,
  zip_all3, ◌&&◌,
}
use zarrs.Subset.{Range, ArraySubset, overlap, overlap_ranges, contains, covers}
use zarrs.Subset.Valid.{Fits}

-- One dimension of an overlap.
covers-overlap :
    (i s l o m : ℕ)
    → s + l < u64_mod
    → o + m < u64_mod
    → covers i (max s o) (min (add_u64 s l) (add_u64 o m) - max s o)
      ≡ (covers i s l && covers i o m)
covers-overlap i s l o m f g = ground arith

contains-overlap_ranges :
    (is start shape other_start other_shape : List ℕ)
    → length other_start ≡ length start
    → length other_shape ≡ length shape
    → Fits start shape
    → Fits other_start other_shape
    → zip_all3 covers is
        (map (λ (r : Range). r.start) (overlap_ranges start shape other_start other_shape))
        (map (λ (r : Range). r.end - r.start) (overlap_ranges start shape other_start other_shape))
      ≡ (zip_all3 covers is start shape && zip_all3 covers is other_start other_shape)
unfolding overlap_ranges
contains-overlap_ranges (i ∷ is) (s ∷ start) (l ∷ shape) (o ∷ os) (m ∷ ms) p q (f, fs) (g, gs) =
    ground (arith, covers-overlap i s l o m f g, contains-overlap_ranges is start shape os ms)
contains-overlap_ranges [] start shape os ms p q f g = refl
contains-overlap_ranges (i ∷ is) [] shape [] ms p q f g = refl
contains-overlap_ranges (i ∷ is) [] shape (o ∷ os) ms p q f g = absurd (omega arith)
contains-overlap_ranges (i ∷ is) (s ∷ start) [] (o ∷ os) [] p q f g = refl
contains-overlap_ranges (i ∷ is) (s ∷ start) [] [] ms p q f g = absurd (omega arith)
contains-overlap_ranges (i ∷ is) (s ∷ start) [] os (m ∷ ms) p q f g = absurd (omega arith)
contains-overlap_ranges (i ∷ is) (s ∷ start) (l ∷ shape) [] ms p q f g = absurd (omega arith)
contains-overlap_ranges (i ∷ is) (s ∷ start) (l ∷ shape) (o ∷ os) [] p q f g = absurd (omega arith)

-- An index tuple lies in the overlap of two subsets that do not wrap around exactly when it lies in
-- both.
pub contains-overlap :
    (s other both : ArraySubset) (indices : List ℕ)
    → Fits s.start s.shape
    → Fits other.start other.shape
    → overlap s other ≡ ok both
    → contains both indices ≡ (contains s indices && contains other indices)
unfolding overlap contains
contains-overlap s other both indices f g h =
    ground (arith, contains-overlap_ranges indices s.start s.shape other.start other.shape)
