-- ===== src/Subset/Valid.antt =====
-- The invariant of `ArraySubset` (zarrs_chunk_grid/src/array_subset.rs): start and shape have the same
-- dimensionality. Every constructor and every operation keeps it.
use zarrs.Common.{
  zip_any, ltb, ℕ, suc, ◌+◌, ◌-◌, ◌<◌, ◌≡◌, refl, ap, sym, ◌∙◌, List, [], ◌∷◌, map, arith, length,
  length-replicate, u64_mod, zip_with, min, Result, ok, err, ◌==◌, add_u64, true, false, Bool, ◌&&◌,
  if◌then◌else◌, ◌>>=◌,
}
use zarrs.Subset.{
  Range, ArraySubset, ArraySubsetError, new_with_ranges, new_with_shape, new_with_start_shape,
  new_with_start_end_inc, new_with_start_end_exc, bound, overlap, overlap_ranges, relative_to,
  offset, incompatible_end, end_exc,
}

pub record IsValid (s : ArraySubset) : Type 0 where
  pub same_dimensionality : length s.start ≡ length s.shape

-- A successful result is valid.
abbrev pub ReturnsValid : Result ArraySubset ArraySubsetError → Type 0
ReturnsValid (ok s) = IsValid s
ReturnsValid (err e) = Unit

-- No index of the subset wraps around.
abbrev pub Fits : List ℕ → List ℕ → Type 0
Fits (o ∷ start) (l ∷ shape) = (o + l < u64_mod) × Fits start shape
Fits _ _ = Unit

pub length-map {ℓ κ} :
    {A : Type ℓ} {B : Type κ} (f : A → B) (xs : List A) → length (map f xs) ≡ length xs
length-map f [] = refl
length-map f (x ∷ xs) = ap suc (length-map f xs)

pub length-zip_with {ℓ κ μ} :
    {A : Type ℓ} {B : Type κ} {C : Type μ} (f : A → B → C) (xs : List A) (ys : List B)
    → length (zip_with f xs ys) ≡ min (length xs) (length ys)
length-zip_with f [] ys = omega arith
length-zip_with f (x ∷ xs) [] = omega arith
length-zip_with f (x ∷ xs) (y ∷ ys) = omega (arith, length-zip_with f xs ys)

new_with_ranges-IsValid : (ranges : List Range) → IsValid (new_with_ranges ranges)
unfolding new_with_ranges
new_with_ranges-IsValid ranges = record {
  same_dimensionality = length-map _ ranges ∙ sym (length-map _ ranges);
}

new_with_shape-IsValid : (shape : List ℕ) → IsValid (new_with_shape shape)
unfolding new_with_shape
new_with_shape-IsValid shape = record { same_dimensionality = length-replicate _ _ }

start_shape-ReturnsValid : (start shape : List ℕ) → ReturnsValid (new_with_start_shape start shape)
unfolding new_with_start_shape
start_shape-ReturnsValid start shape = ground arith

length-compatible :
    (start end : List ℕ) → incompatible_end start end ≡ false → length start ≡ length end
unfolding incompatible_end
length-compatible start end h = ground arith

end_inc-ReturnsValid : (start end : List ℕ) → ReturnsValid (new_with_start_end_inc start end)
unfolding new_with_start_end_inc
end_inc-ReturnsValid start end =
    ground (arith, length-zip_with (λ (s e : ℕ). add_u64 (e - s) 1) start end)

end_exc-ReturnsValid : (start end : List ℕ) → ReturnsValid (new_with_start_end_exc start end)
unfolding new_with_start_end_exc
end_exc-ReturnsValid start end = ground (arith, length-zip_with (λ (s e : ℕ). e - s) start end)

ReturnsValid-if :
    (b : Bool) (x y : Result ArraySubset ArraySubsetError)
    → ReturnsValid x
    → ReturnsValid y
    → ReturnsValid (if b then x else y)
ReturnsValid-if true x y h k = h
ReturnsValid-if false x y h k = k

ReturnsValid-bind :
    (r : Result ArraySubset ArraySubsetError) → ReturnsValid r → ReturnsValid (r >>= ok)
ReturnsValid-bind (ok s) h = h
ReturnsValid-bind (err e) h = h

pub bound-ReturnsValid : (s : ArraySubset) (end : List ℕ) → ReturnsValid (bound s end)
unfolding bound
bound-ReturnsValid s end =
    let low = zip_with min s.start end in
    let high = zip_with min (end_exc s) end in
    ReturnsValid-if (length end == length s.start) (new_with_start_end_exc low high >>= ok) (err _)
      (ReturnsValid-bind (new_with_start_end_exc low high) (end_exc-ReturnsValid low high)) tt

pub overlap-ReturnsValid : (s other : ArraySubset) → ReturnsValid (overlap s other)
unfolding overlap
overlap-ReturnsValid s other =
    ReturnsValid-if (length other.start == length s.start && length other.shape == length s.shape)
      (ok _) (err _)
      (new_with_ranges-IsValid (overlap_ranges s.start s.shape other.start other.shape)) tt

pub relative_to-ReturnsValid :
    (s : ArraySubset) (origin : List ℕ) → ReturnsValid (relative_to s origin)
unfolding relative_to
relative_to-ReturnsValid s origin = ground arith

pub offset-ReturnsValid : (s : ArraySubset) (by : List ℕ) → ReturnsValid (offset s by)
unfolding offset
offset-ReturnsValid s by = ground arith

-- `bound` of ends that are not before their starts.
pub bound-eq :
    (s : ArraySubset) (end start stop : List ℕ)
    → length end ≡ length s.start
    → zip_with min s.start end ≡ start
    → zip_with min (zip_with add_u64 s.start s.shape) end ≡ stop
    → length start ≡ length stop
    → zip_any (λ a b. ltb b a) start stop ≡ false
    → bound s end ≡ ok (record { start = start; shape = zip_with (λ a b. b - a) start stop })
unfolding bound end_exc new_with_start_end_exc incompatible_end
bound-eq s end start stop a b c d e =
    let asked : (length end == length s.start) ≡ true = ground (arith, a) in
    let same : (length start == length stop) ≡ true = ground (arith, d) in rw (asked, b, c, same, e)
