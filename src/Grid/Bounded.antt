-- ===== src/Grid/Bounded.antt =====
-- `RegularBoundedChunkGrid`: a regular grid whose last chunks end with the array
-- (zarrs/src/array/chunk_grid/regular_bounded.rs). `NonZeroU64` is a number, as in `Grid.Regular`.
pub mod Valid
pub mod Clip
pub mod Agree
pub mod Partition
pub mod Edges
use zarrs.Common.{
  ℕ, suc, ◌-◌, ◌/◌, ◌%◌, min, Bool, true, false, Option, none, some, List, [], ◌∷◌, ltb, leb, ◌==◌,
  if◌then◌else◌, not, add_u64, sub_u64, mul_u64, div_ceil, length, zip_with, zip_with3, get_elem?,
  collect, replicate, ◌++◌, Result, ok, err,
}
use zarrs.Subset.{Range, ArraySubset, new_with_ranges}
use zarrs.Grid.{ChunkGrid, Answer, DimensionalityError}

pub record RegularBoundedChunkGrid : Type 0 where
  pub array_shape : List ℕ
  pub grid_shape : List ℕ
  pub chunk_shape : List ℕ

pub new : List ℕ → List ℕ → Result RegularBoundedChunkGrid DimensionalityError
new array_shape chunk_shape =
    if not (length array_shape == length chunk_shape)
    then err
        (DimensionalityError.incompatible_dimensionality (length chunk_shape) (length array_shape))
    else ok (record {
      array_shape = array_shape;
      grid_shape = zip_with div_ceil array_shape chunk_shape;
      chunk_shape = chunk_shape;
    })

-- The guard of every query: its argument has the dimensionality of the grid.
guarded {ℓ} : {A : Type ℓ} → RegularBoundedChunkGrid → List ℕ → Option A → Answer A
guarded g indices answer =
    if length indices == length g.chunk_shape
    then ok answer
    else err
        (DimensionalityError.incompatible_dimensionality (length indices) (length g.chunk_shape))

-- The start and end of a chunk in one dimension, cut off at the end of the array.
abbrev pub clipped_start : ℕ → ℕ → ℕ → ℕ
clipped_start chunk_shape array_shape chunk_index =
    min (mul_u64 chunk_index chunk_shape) array_shape

abbrev pub clipped_end : ℕ → ℕ → ℕ → ℕ
clipped_end chunk_shape array_shape chunk_index =
    min (add_u64 (clipped_start chunk_shape array_shape chunk_index) chunk_shape) array_shape

-- NonZeroU64::new(n)
abbrev pub nonzero : ℕ → Option ℕ
nonzero n = if n == 0 then none else some n

abbrev pub clipped_size : ℕ → ℕ → ℕ → Option ℕ
clipped_size s n c = nonzero (clipped_end s n c - clipped_start s n c)

abbrev pub clipped_range : ℕ → ℕ → ℕ → Option Range
clipped_range s n c =
    if ltb (clipped_start s n c) (clipped_end s n c)
    then some (record { start = clipped_start s n c; end = clipped_end s n c })
    else none

pub chunk_shape : RegularBoundedChunkGrid → List ℕ → Answer (List ℕ)
unfolding guarded
chunk_shape g chunk_indices =
    guarded g chunk_indices
      (collect (zip_with3 clipped_size g.chunk_shape g.array_shape chunk_indices))

-- The same by an explicit comparison.
abbrev pub clipped_size_u64 : ℕ → ℕ → ℕ → Option ℕ
clipped_size_u64 s n c =
    if ltb (clipped_start s n c) (clipped_end s n c)
    then some (sub_u64 (clipped_end s n c) (clipped_start s n c))
    else none

pub chunk_shape_u64 : RegularBoundedChunkGrid → List ℕ → Answer (List ℕ)
unfolding guarded
chunk_shape_u64 g chunk_indices =
    guarded g chunk_indices
      (collect (zip_with3 clipped_size_u64 g.chunk_shape g.array_shape chunk_indices))

abbrev pub origin_in : ℕ → ℕ → ℕ → Option ℕ
origin_in c s n = if ltb (mul_u64 c s) n then some (mul_u64 c s) else none

pub chunk_origin : RegularBoundedChunkGrid → List ℕ → Answer (List ℕ)
unfolding guarded
chunk_origin g chunk_indices =
    guarded g chunk_indices
      (collect (zip_with3 origin_in chunk_indices g.chunk_shape g.array_shape))

abbrev pub index_in : ℕ → ℕ → ℕ → Option ℕ
index_in i s n = if ltb i n then some (i / s) else none

pub chunk_indices : RegularBoundedChunkGrid → List ℕ → Answer (List ℕ)
unfolding guarded
chunk_indices g array_indices =
    guarded g array_indices (collect (zip_with3 index_in array_indices g.chunk_shape g.array_shape))

abbrev pub element_in : ℕ → ℕ → ℕ → Option ℕ
element_in i s n = if ltb i n then some (i % s) else none

pub chunk_element_indices : RegularBoundedChunkGrid → List ℕ → Answer (List ℕ)
unfolding guarded
chunk_element_indices g array_indices =
    guarded g array_indices
      (collect (zip_with3 element_in array_indices g.chunk_shape g.array_shape))

abbrev pub subset_of_ranges : Option (List Range) → Option ArraySubset
subset_of_ranges none = none
subset_of_ranges (some ranges) = some (new_with_ranges ranges)

pub subset : RegularBoundedChunkGrid → List ℕ → Answer ArraySubset
unfolding guarded
subset g chunk_indices =
    guarded g chunk_indices (
      subset_of_ranges
        (collect (zip_with3 clipped_range g.chunk_shape g.array_shape chunk_indices)))

pub data DimensionError : Type 0 where
  incompatible_dimension : ℕ → ℕ → DimensionError

-- All edges are a chunk's but the last, which is what is left of the array.
edge_list : ℕ → ℕ → ℕ → List ℕ
edge_list n chunk_size n_chunks =
    if n == 0
    then []
    else replicate (n_chunks - 1) chunk_size ++ (sub_u64 n (mul_u64 (n_chunks - 1) chunk_size) ∷ [])

edges : Option ℕ → Option ℕ → Option ℕ → Option (List ℕ)
unfolding edge_list
edges (some n) (some chunk_size) (some n_chunks) = some (edge_list n chunk_size n_chunks)
edges _ _ _ = none

-- `none` is a panic, of an index beyond a shape.
pub chunk_edge_lengths : RegularBoundedChunkGrid → ℕ → Result (Option (List ℕ)) DimensionError
unfolding edges
chunk_edge_lengths g dimension =
    if leb (length g.chunk_shape) dimension
    then err (incompatible_dimension dimension (length g.chunk_shape))
    else ok (
        edges (get_elem? g.array_shape dimension) (get_elem? g.chunk_shape dimension)
          (get_elem? g.grid_shape dimension))

-- `ChunkGrid::new(regular_bounded)`
pub to_grid : RegularBoundedChunkGrid → ChunkGrid
to_grid g = record {
  array_shape = g.array_shape;
  grid_shape = g.grid_shape;
  dimensions = length g.chunk_shape;
  chunk_shape = chunk_shape g;
  chunk_origin = chunk_origin g;
  chunk_indices = chunk_indices g;
  chunk_element_indices = chunk_element_indices g;
  subset = subset g;
}
