-- ===== src/Subset.antt =====
-- `ArraySubset`: a box of array indices, by its start and its shape
-- (zarrs_chunk_grid/src/array_subset.rs, zarrs_chunk_grid/src/array_subset_traits.rs).
pub mod Valid
pub mod Contains
pub mod Inclusion
pub mod Shift
pub mod Ends
use zarrs.Common.{
  ℕ, suc, ◌-◌, min, max, Bool, true, false, ◌&&◌, ◌||◌, Option, none, some, List, [], ◌∷◌, map, ltb,
  leb, ◌==◌, if◌then◌else◌, not, zero, add_u64, sub_u64, length, replicate, any, zip_with, zip_any,
  zip_all, zip_all3, product_u64, Result, ok, err, ◌>>=◌,
}

-- `Range<u64>`
pub record Range : Type 0 where
  pub start : ℕ
  pub end : ℕ

pub record ArraySubset : Type 0 where
  pub start : List ℕ
  pub shape : List ℕ

pub data ArraySubsetError : Type 0 where
  incompatible_dimensionality : ℕ → ℕ → ArraySubsetError
  incompatible_start_shape : List ℕ → List ℕ → ArraySubsetError
  incompatible_start_end : List ℕ → List ℕ → Bool → ArraySubsetError
  incompatible_offset : List ℕ → List ℕ → ArraySubsetError

-- Also `ArraySubset::from`. `saturating_sub` is the subtraction that stops at zero.
unfoldable pub new_with_ranges : List Range → ArraySubset
new_with_ranges ranges = record {
  start = map (λ r. r.start) ranges;
  shape = map (λ r. r.end - r.start) ranges;
}

unfoldable pub new_empty : ℕ → ArraySubset
new_empty n = record { start = replicate n 0; shape = replicate n 0 }

pub new_with_shape : List ℕ → ArraySubset
new_with_shape shape = record { start = replicate (length shape) 0; shape = shape }

unfoldable pub new_with_start_shape : List ℕ → List ℕ → Result ArraySubset ArraySubsetError
new_with_start_shape start shape =
    if length start == length shape
    then ok (record { start = start; shape = shape })
    else err (incompatible_start_shape start shape)

-- The guard of both constructors from a start and an end.
incompatible_end : List ℕ → List ℕ → Bool
incompatible_end start end = not (length start == length end) || zip_any (λ s e. ltb e s) start end

unfoldable pub new_with_start_end_inc : List ℕ → List ℕ → Result ArraySubset ArraySubsetError
unfolding incompatible_end
new_with_start_end_inc start end =
    if incompatible_end start end
    then err (incompatible_start_end start end true)
    else ok (record { start = start; shape = zip_with (λ s e. add_u64 (e - s) 1) start end })

unfoldable pub new_with_start_end_exc : List ℕ → List ℕ → Result ArraySubset ArraySubsetError
unfolding incompatible_end
new_with_start_end_exc start end =
    if incompatible_end start end
    then err (incompatible_start_end start end false)
    else ok (record { start = start; shape = zip_with (λ s e. e - s) start end })

unfoldable pub end_exc : ArraySubset → List ℕ
end_exc s = zip_with add_u64 s.start s.shape

unfoldable pub end_inc : ArraySubset → Option (List ℕ)
end_inc s =
    if any (λ l. l == 0) s.shape
    then none
    else some (zip_with (λ o l. sub_u64 (add_u64 o l) 1) s.start s.shape)

-- A subset within the bounds of an exclusive end.
pub bound : ArraySubset → List ℕ → Result ArraySubset ArraySubsetError
unfolding end_exc new_with_start_end_exc
bound s end =
    if length end == length s.start
    then new_with_start_end_exc (zip_with min s.start end) (zip_with min (end_exc s) end) >>= ok
    else err (incompatible_start_end s.start end false)

-- shape.iter().map(|s| NonZeroU64::new(*s)).collect()
nonzero_shape : List ℕ → Option (List ℕ)
nonzero_shape [] = some []
nonzero_shape (zero ∷ shape) = none
nonzero_shape (suc n ∷ shape) = elim (nonzero_shape shape) [
  | none ↦ none
  | some rest ↦ some (suc n ∷ rest)
]

-- `None` if a dimension is empty.
unfoldable pub chunk_shape : ArraySubset → Option (List ℕ)
unfolding nonzero_shape
chunk_shape s = nonzero_shape s.shape

unfoldable pub is_empty : ArraySubset → Bool
is_empty s = any (λ l. l == 0) s.shape

unfoldable pub dimensionality : ArraySubset → ℕ
dimensionality s = length s.start

unfoldable pub num_elements : ArraySubset → ℕ
num_elements s = product_u64 s.shape

pub to_ranges : ArraySubset → List Range
to_ranges s = zip_with (λ o l. record { start = o; end = add_u64 o l }) s.start s.shape

-- i >= o && i < o + s
abbrev pub covers : ℕ → ℕ → ℕ → Bool
covers i o s = leb o i && ltb i (add_u64 o s)

unfoldable pub contains : ArraySubset → List ℕ → Bool
contains s indices = zip_all3 covers indices s.start s.shape

unfoldable pub inbounds_shape : ArraySubset → List ℕ → Bool
inbounds_shape s array_shape =
    if not (length s.start == length array_shape) || not (length s.shape == length array_shape)
    then false
    else zip_all3 (λ o l bound. leb (add_u64 o l) bound) s.start s.shape array_shape

-- izip!(self_start, self_shape, other_start, other_shape).all(..)
all_within : List ℕ → List ℕ → List ℕ → List ℕ → Bool
all_within (s ∷ start) (ss ∷ shape) (o ∷ other_start) (os ∷ other_shape) =
    (leb o s && leb (add_u64 s ss) (add_u64 o os)) && all_within start shape other_start other_shape
all_within _ _ _ _ = true

pub inbounds : ArraySubset → ArraySubset → Bool
unfolding all_within
inbounds s other =
    if not (length s.start == length other.start) || not (length s.shape == length other.shape)
    then false
    else all_within s.start s.shape other.start other.shape

-- izip!(self_start, self_shape, other_start, other_shape).map(..)
overlap_ranges : List ℕ → List ℕ → List ℕ → List ℕ → List Range
overlap_ranges (s ∷ start) (l ∷ shape) (o ∷ other_start) (m ∷ other_shape) =
    record { start = max s o; end = min (add_u64 s l) (add_u64 o m) }
    ∷ overlap_ranges start shape other_start other_shape
overlap_ranges _ _ _ _ = []

unfoldable pub overlap : ArraySubset → ArraySubset → Result ArraySubset ArraySubsetError
unfolding overlap_ranges new_with_ranges
overlap s other =
    if length other.start == length s.start && length other.shape == length s.shape
    then ok (new_with_ranges (overlap_ranges s.start s.shape other.start other.shape))
    else err (incompatible_dimensionality (length other.start) (length s.start))

unfoldable pub relative_to : ArraySubset → List ℕ → Result ArraySubset ArraySubsetError
unfolding new_with_start_shape
relative_to s origin =
    if not (length origin == length s.start) || zip_any ltb s.start origin
    then err (incompatible_offset s.start origin)
    else new_with_start_shape (zip_with sub_u64 s.start origin) s.shape

pub offset : ArraySubset → List ℕ → Result ArraySubset ArraySubsetError
unfolding new_with_start_shape
offset s by =
    if length by == length s.start
    then new_with_start_shape (zip_with add_u64 s.start by) s.shape
    else err (incompatible_offset s.start by)
