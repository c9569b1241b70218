-- ===== src/Subset/Ends.antt =====
-- Subsets by ranges and by ends (zarrs_chunk_grid/src/array_subset.rs): what is built from a start and
-- an end has that end, ranges are read back, and `bound` cuts off.
use zarrs.Common.{
  ℕ, ◌+◌, ◌-◌, ◌<◌, ◌≡◌, refl, ap, ap₂, List, [], ◌∷◌, map, arith, length, u64_mod, zip_with,
  zip_any, zip_all, zip_all3, false, ok, add_u64, sub_u64, ltb, min, ◌==◌, some, any, ◌&&◌,
}
use zarrs.Subset.{
  Range, ArraySubset, new_with_ranges, to_ranges, new_with_start_end_inc, new_with_start_end_exc,
  end_inc, end_exc, bound, contains, covers,
}
use zarrs.Subset.Valid.{Fits, IsValid, length-zip_with}
use zarrs.Subset.Shift.{Words}

ranges_back :
    (start shape : List ℕ)
    → length start ≡ length shape
    → Fits start shape
    → (map
          (λ (r : Range). r.start)
          (zip_with (λ (o l : ℕ). record { start = o; end = add_u64 o l }) start shape)
        ≡ start)
      × (map
            (λ (r : Range). r.end - r.start)
            (zip_with (λ (o l : ℕ). record { start = o; end = add_u64 o l }) start shape)
          ≡ shape)
ranges_back [] [] e f = (refl, refl)
ranges_back (o ∷ start) (l ∷ shape) e (f, fs) =
    let (p, q) = ranges_back start shape (omega arith) fs in
    (ap (λ (t : List ℕ). o ∷ t) p, ap₂ ◌∷◌ (omega arith) q)
ranges_back [] (l ∷ shape) e f = absurd (omega arith)
ranges_back (o ∷ start) [] e f = absurd (omega arith)

-- The ranges of a valid subset that does not wrap around give the subset back.
pub new_with_ranges-to_ranges :
    (s : ArraySubset) → IsValid s → Fits s.start s.shape → new_with_ranges (to_ranges s) ≡ s
unfolding new_with_ranges to_ranges
new_with_ranges-to_ranges s v f =
    let (p, q) = ranges_back s.start s.shape v.same_dimensionality f in
    λ i. record { start = p i; shape = q i }

-- Every end is below the last word, so that an inclusive end has an exclusive one.
abbrev pub EndsFit : List ℕ → Type 0
EndsFit [] = Unit
EndsFit (e ∷ end) = (e + 1 < u64_mod) × EndsFit end

inclusive_ends :
    (start end : List ℕ)
    → length start ≡ length end
    → zip_any (λ s e. ltb e s) start end ≡ false
    → EndsFit end
    → (any (λ l. l == 0) (zip_with (λ s e. add_u64 (e - s) 1) start end) ≡ false)
      × (zip_with
            (λ o l. sub_u64 (add_u64 o l) 1)
            start
            (zip_with (λ s e. add_u64 (e - s) 1) start end)
          ≡ end)
inclusive_ends [] [] k h f = (refl, refl)
inclusive_ends (s ∷ start) (e ∷ end) k h (f, fs) =
    let (p, q) = inclusive_ends start end (omega arith) (ground arith) fs in
    (ground arith, ap₂ ◌∷◌ (ground arith) q)
inclusive_ends [] (e ∷ end) k h f = absurd (omega arith)
inclusive_ends (s ∷ start) [] k h f = absurd (omega arith)

exclusive_ends :
    (start end : List ℕ)
    → length start ≡ length end
    → zip_any (λ s e. ltb e s) start end ≡ false
    → Words end
    → zip_with add_u64 start (zip_with (λ s e. e - s) start end) ≡ end
exclusive_ends [] [] k h f = refl
exclusive_ends (s ∷ start) (e ∷ end) k h (f, fs) =
    ap₂ ◌∷◌ (ground arith) (exclusive_ends start end (omega arith) (ground arith) fs)
exclusive_ends [] (e ∷ end) k h f = absurd (omega arith)
exclusive_ends (s ∷ start) [] k h f = absurd (omega arith)

-- A subset that `new_with_start_end_inc` builds, from an end whose elements are below 2 ^ 64 - 1,
-- has that inclusive end.
pub end_inc-new_with_start_end_inc :
    (start end : List ℕ) (s : ArraySubset)
    → EndsFit end
    → new_with_start_end_inc start end ≡ ok s
    → end_inc s ≡ some end
unfolding new_with_start_end_inc end_inc
end_inc-new_with_start_end_inc start end s f h = ground (arith, inclusive_ends start end)

-- A subset that `new_with_start_end_exc` builds, from an end whose elements are below 2 ^ 64, has
-- that exclusive end.
pub end_exc-new_with_start_end_exc :
    (start end : List ℕ) (s : ArraySubset)
    → Words end
    → new_with_start_end_exc start end ≡ ok s
    → end_exc s ≡ end
unfolding new_with_start_end_exc end_exc
end_exc-new_with_start_end_exc start end s f h = ground (arith, exclusive_ends start end)

-- `bound` meets no start beyond its end.
bound_compatible :
    (start shape end : List ℕ)
    → length start ≡ length shape
    → length end ≡ length start
    → Fits start shape
    → zip_any
        (λ s e. ltb e s)
        (zip_with min start end)
        (zip_with min (zip_with add_u64 start shape) end)
      ≡ false
bound_compatible [] shape end v k f = refl
bound_compatible (s ∷ start) (l ∷ shape) (e ∷ end) v k (f, fs) =
    ground (arith, bound_compatible start shape end)
bound_compatible (s ∷ start) shape [] v k f = refl
bound_compatible (s ∷ start) [] (e ∷ end) v k f = refl

contains_bound :
    (is start shape end : List ℕ)
    → length start ≡ length shape
    → length end ≡ length start
    → Fits start shape
    → zip_all3 covers is (zip_with min start end) (
        zip_with
          (λ s e. e - s)
          (zip_with min start end)
          (zip_with min (zip_with add_u64 start shape) end))
      ≡ (zip_all3 covers is start shape && zip_all ltb is end)
contains_bound (i ∷ is) (s ∷ start) (l ∷ shape) (e ∷ end) v k (f, fs) =
    ground (arith, contains_bound is start shape end)
contains_bound [] start shape end v k f = refl
contains_bound (i ∷ is) [] shape [] v k f = refl
contains_bound (i ∷ is) [] shape (e ∷ end) v k f = absurd (omega arith)
contains_bound (i ∷ is) (s ∷ start) [] end v k f = absurd (omega arith)
contains_bound (i ∷ is) (s ∷ start) (l ∷ shape) [] v k f = absurd (omega arith)

-- Bounding a valid subset that does not wrap around, by an end of its dimensionality, succeeds, and
-- the result contains the index tuples of the subset that lie below the end.
pub contains-bound :
    (s : ArraySubset) (end : List ℕ)
    → IsValid s
    → Fits s.start s.shape
    → length end ≡ length s.start
    → (t : ArraySubset) × (bound s end ≡ ok t)
      × ((indices : List ℕ) → contains t indices ≡ (contains s indices && zip_all ltb indices end))
unfolding bound contains
contains-bound s end v f k = (
  record {
    start = zip_with min s.start end;
    shape = zip_with (λ s e. e - s) (zip_with min s.start end) (zip_with min (end_exc s) end);
  },
  ground (
    arith,
    bound_compatible s.start s.shape end v.same_dimensionality k f,
    length-zip_with min s.start end,
    length-zip_with add_u64 s.start s.shape,
    length-zip_with min (zip_with add_u64 s.start s.shape) end,
  ),
  λ indices. contains_bound indices s.start s.shape end v.same_dimensionality k f,
)
