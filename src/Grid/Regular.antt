-- ===== src/Grid/Regular.antt =====
-- `RegularChunkGrid`: chunks of one shape (zarrs/src/array/chunk_grid/regular.rs). The entries of a
-- chunk shape are `NonZeroU64` in the source; that they are not zero is a hypothesis of the theorems.
pub mod Rows
pub mod Partition
pub mod Element
pub mod Region
use zarrs.Common.{
  ℕ, ◌+◌, ◌*◌, ◌/◌, ◌%◌, Bool, true, false, Option, none, some, List, [], ◌∷◌, leb, ◌==◌,
  if◌then◌else◌, not, add_u64, mul_u64, div_ceil, length, zip_with, any, get_elem?, replicate,
  Result, ok, err,
}
use zarrs.Subset.{Range, ArraySubset, new_with_ranges}
use zarrs.Grid.{ChunkGrid, Answer, DimensionalityError}

pub record RegularChunkGrid : Type 0 where
  pub array_shape : List ℕ
  pub grid_shape : List ℕ
  pub chunk_shape : List ℕ

-- `RegularChunkGridCreateError(array_shape, chunk_shape)`
pub data CreateError : Type 0 where
  not_compatible : List ℕ → List ℕ → CreateError

pub new : List ℕ → List ℕ → Result RegularChunkGrid CreateError
new array_shape chunk_shape =
    if not (length array_shape == length chunk_shape)
    then err (not_compatible array_shape chunk_shape)
    else ok (record {
      array_shape = array_shape;
      grid_shape = zip_with div_ceil array_shape chunk_shape;
      chunk_shape = chunk_shape;
    })

-- self.array_shape.contains(&0)
abbrev pub is_empty_array : RegularChunkGrid → Bool
is_empty_array g = any (λ n. n == 0) g.array_shape

pub mismatch {ℓ} : {A : Type ℓ} → List ℕ → RegularChunkGrid → Answer A
mismatch indices g =
    err (DimensionalityError.incompatible_dimensionality (length indices) (length g.chunk_shape))

-- let start = i * s.get(); start..(start + s.get())
abbrev pub chunk_range : ℕ → ℕ → Range
chunk_range i s = let start = mul_u64 i s in record { start = start; end = add_u64 start s }

unfoldable pub subset : RegularChunkGrid → List ℕ → Answer ArraySubset
unfolding mismatch
subset g chunk_indices =
    if is_empty_array g
    then ok none
    else if length chunk_indices == length g.chunk_shape
    then ok (some (new_with_ranges (zip_with chunk_range chunk_indices g.chunk_shape)))
    else mismatch chunk_indices g

-- Also `chunk_shape_u64`, which returns the same numbers.
unfoldable pub chunk_shape : RegularChunkGrid → List ℕ → Answer (List ℕ)
unfolding mismatch
chunk_shape g chunk_indices =
    if length chunk_indices == length g.chunk_shape
    then (if is_empty_array g then ok none else ok (some g.chunk_shape))
    else mismatch chunk_indices g

pub chunk_origin : RegularChunkGrid → List ℕ → Answer (List ℕ)
unfolding mismatch
chunk_origin g chunk_indices =
    if is_empty_array g
    then ok none
    else if length chunk_indices == length g.chunk_shape
    then ok (some (zip_with mul_u64 chunk_indices g.chunk_shape))
    else mismatch chunk_indices g

pub chunk_indices : RegularChunkGrid → List ℕ → Answer (List ℕ)
unfolding mismatch
chunk_indices g array_indices =
    if is_empty_array g
    then ok none
    else if length array_indices == length g.chunk_shape
    then ok (some (zip_with ◌/◌ array_indices g.chunk_shape))
    else mismatch array_indices g

pub chunk_element_indices : RegularChunkGrid → List ℕ → Answer (List ℕ)
unfolding mismatch
chunk_element_indices g array_indices =
    if length array_indices == length g.chunk_shape
    then (if is_empty_array g
        then ok none
        else ok (some (zip_with ◌%◌ array_indices g.chunk_shape)))
    else mismatch array_indices g

-- `IncompatibleDimensionError(got, expected)`
pub data DimensionError : Type 0 where
  incompatible_dimension : ℕ → ℕ → DimensionError

-- The edge lengths, from the entries of the three shapes at the dimension.
edges : Option ℕ → Option ℕ → Option ℕ → Option (List ℕ)
edges (some n) (some edge_length) (some chunks) =
    some (if n == 0 then [] else replicate chunks edge_length)
edges _ _ _ = none

-- `none` is a panic, of an index beyond a shape.
unfoldable pub chunk_edge_lengths : RegularChunkGrid → ℕ → Result (Option (List ℕ)) DimensionError
unfolding edges
chunk_edge_lengths g dimension =
    if leb (length g.chunk_shape) dimension
    then err (incompatible_dimension dimension (length g.chunk_shape))
    else ok (
        edges (get_elem? g.array_shape dimension) (get_elem? g.chunk_shape dimension)
          (get_elem? g.grid_shape dimension))

-- `ChunkGrid::new(regular)`
unfoldable pub to_grid : RegularChunkGrid → ChunkGrid
to_grid g = record {
  array_shape = g.array_shape;
  grid_shape = g.grid_shape;
  dimensions = length g.chunk_shape;
  chunk_shape = chunk_shape g;
  chunk_origin = chunk_origin g;
  chunk_indices = chunk_indices g;
  chunk_element_indices = chunk_element_indices g;
  subset = subset g;
}
