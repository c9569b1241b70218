-- ===== src/Grid/Rectangular.antt =====
-- `RectangularChunkGrid`: in each dimension, chunks of one size or of given sizes
-- (zarrs/src/array/chunk_grid/rectangular.rs). `NonZeroU64` is a number, as in `Grid.Regular`.
pub mod Locate
pub mod Chunk
pub mod Unique
use zarrs.Common.{
  ℕ, zero, suc, ◌+◌, ◌-◌, ◌/◌, max, Bool, true, false, ◌&&◌, not, Option, none, some, List, [], ◌∷◌,
  map, ltb, leb, ◌==◌, if◌then◌else◌, add_u64, sub_u64, mul_u64, div_ceil, length, zip_with,
  zip_all3, any, get_elem?, replicate, collect, Result, ok, err, Outcome, returns, fails, panics,
}
use zarrs.Subset.{ArraySubset}
use zarrs.Grid.{Answer, DimensionalityError, default_subset}

-- `RectangularChunkGridDimensionConfiguration`
pub data Configuration : Type 0 where
  fixed_size : ℕ → Configuration
  varying_sizes : List ℕ → Configuration

pub record OffsetSize : Type 0 where
  pub offset : ℕ
  pub size : ℕ

-- `RectangularChunkGridDimension`
pub data Dimension : Type 0 where
  fixed : ℕ → Dimension
  varying : List OffsetSize → Dimension

pub record RectangularChunkGrid : Type 0 where
  pub array_shape : List ℕ
  pub chunks : List Dimension
  pub grid_shape : List ℕ

-- scan(0, ..)
abbrev pub scan : ℕ → List ℕ → List OffsetSize
scan offset [] = []
scan offset (size ∷ sizes) =
    record { offset = offset; size = size } ∷ scan (add_u64 offset size) sizes

abbrev pub dimension_of : Configuration → Dimension
dimension_of (fixed_size f) = fixed f
dimension_of (varying_sizes chunk_sizes) = varying (scan 0 chunk_sizes)

-- last().unwrap_or(&last_default)
abbrev pub last_from : OffsetSize → List OffsetSize → OffsetSize
last_from default [] = default
last_from default (os ∷ offsets_sizes) = last_from os offsets_sizes

-- last.offset + last.size.get()
abbrev pub last_end : List OffsetSize → ℕ
last_end offsets_sizes =
    let last = last_from (record { offset = 0; size = 1 }) offsets_sizes in
    add_u64 last.offset last.size

abbrev pub grid_size : ℕ → Dimension → Option ℕ
grid_size array_size (fixed s) = some (div_ceil array_size s)
grid_size array_size (varying s) = if array_size == last_end s then some (length s) else none

pub data CreateError : Type 0 where
  not_compatible : List ℕ → List Configuration → CreateError

pub build : List ℕ → List Configuration → Option (List ℕ) → Result RectangularChunkGrid CreateError
build array_shape chunk_shapes none = err (not_compatible array_shape chunk_shapes)
build array_shape chunk_shapes (some grid_shape) = ok (record {
  array_shape = array_shape;
  chunks = map dimension_of chunk_shapes;
  grid_shape = grid_shape;
})

unfoldable pub new : List ℕ → List Configuration → Result RectangularChunkGrid CreateError
unfolding build
new array_shape chunk_shapes =
    if not (length array_shape == length chunk_shapes)
    then err (not_compatible array_shape chunk_shapes)
    else build array_shape chunk_shapes
        (collect (zip_with grid_size array_shape (map dimension_of chunk_shapes)))

-- The guards of the queries: the dimensionality, and then the empty array.
pub guarded {ℓ} : {A : Type ℓ} → RectangularChunkGrid → List ℕ → Option A → Answer A
guarded g indices answer =
    if length indices == length g.chunks
    then (if any (λ n. n == 0) g.array_shape then ok none else ok answer)
    else err (DimensionalityError.incompatible_dimensionality (length indices) (length g.chunks))

abbrev pub size_of : ℕ → Dimension → Option ℕ
size_of chunk_index (fixed chunk_size) = some chunk_size
size_of chunk_index (varying offsets_sizes) = elim (get_elem? offsets_sizes chunk_index) [
  | none ↦ none
  | some os ↦ some os.size
]

-- Also `chunk_shape_u64`, which returns the same numbers.
unfoldable pub chunk_shape : RectangularChunkGrid → List ℕ → Answer (List ℕ)
unfolding guarded
chunk_shape g chunk_indices =
    guarded g chunk_indices (collect (zip_with size_of chunk_indices g.chunks))

abbrev pub origin_of : ℕ → Dimension → Option ℕ
origin_of chunk_index (fixed chunk_size) = some (mul_u64 chunk_index chunk_size)
origin_of chunk_index (varying offsets_sizes) = elim (get_elem? offsets_sizes chunk_index) [
  | none ↦ none
  | some os ↦ some os.offset
]

unfoldable pub chunk_origin : RectangularChunkGrid → List ℕ → Answer (List ℕ)
unfolding guarded
chunk_origin g chunk_indices =
    guarded g chunk_indices (collect (zip_with origin_of chunk_indices g.chunks))

-- `partition_point` of std on a sorted slice: the number of leading elements that start by the index.
abbrev pub partition_point : ℕ → List OffsetSize → ℕ
partition_point index [] = 0
partition_point index (os ∷ offsets_sizes) =
    let rest = partition_point index offsets_sizes in if leb os.offset index then suc rest else 0

abbrev pub index_of : ℕ → Dimension → Option ℕ
index_of index (fixed size) = some (index / size)
index_of index (varying offsets_sizes) =
    if ltb index (last_end offsets_sizes)
    then (let partition = partition_point index offsets_sizes in
        if leb partition (length offsets_sizes) then some (max partition 1 - 1) else none)
    else none

pub chunk_indices : RectangularChunkGrid → List ℕ → Answer (List ℕ)
unfolding guarded
chunk_indices g array_indices =
    guarded g array_indices (collect (zip_with index_of array_indices g.chunks))

-- What is left after the lookup of the chunk; `expect` panics on an error.
element_of : List ℕ → Answer (List ℕ) → Outcome (Option (List ℕ)) DimensionalityError
element_of array_indices (err e) = panics
element_of array_indices (ok none) = returns none
element_of array_indices (ok (some chunk_start)) =
    returns (some (zip_with sub_u64 array_indices chunk_start))

element_from :
    RectangularChunkGrid → List ℕ → Answer (List ℕ) → Outcome (Option (List ℕ)) DimensionalityError
unfolding element_of
element_from g array_indices (err e) = fails e
element_from g array_indices (ok none) = returns none
element_from g array_indices (ok (some chunk_indices)) =
    element_of array_indices (chunk_origin g chunk_indices)

pub chunk_element_indices :
    RectangularChunkGrid → List ℕ → Outcome (Option (List ℕ)) DimensionalityError
unfolding element_from
chunk_element_indices g array_indices = element_from g array_indices (chunk_indices g array_indices)

-- The `subset` that the trait provides.
unfoldable pub subset : RectangularChunkGrid → List ℕ → Answer ArraySubset
subset g chunk_indices = default_subset (chunk_origin g) (chunk_shape g) chunk_indices

-- `IncompatibleDimensionError(got, expected)`
pub data DimensionError : Type 0 where
  incompatible_dimension : ℕ → ℕ → DimensionError

edges : Option ℕ → Option Dimension → Option ℕ → Option (List ℕ)
edges (some n) (some (fixed size)) (some n_chunks) =
    some (if n == 0 then [] else replicate n_chunks size)
edges (some n) (some (varying offsets_sizes)) n_chunks =
    some (if n == 0 then [] else map (λ (os : OffsetSize). os.size) offsets_sizes)
edges _ _ _ = none

-- `none` is a panic, of an index beyond a shape.
unfoldable pub chunk_edge_lengths :
    RectangularChunkGrid → ℕ → Result (Option (List ℕ)) DimensionError
unfolding edges
chunk_edge_lengths g dimension =
    if leb (length g.chunks) dimension
    then err (incompatible_dimension dimension (length g.chunks))
    else ok (
        edges (get_elem? g.array_shape dimension) (get_elem? g.chunks dimension)
          (get_elem? g.grid_shape dimension))

-- last().is_some_and(|last| *array_index < last.offset + last.size.get())
inside_last : ℕ → Dimension → Bool
inside_last array_index (fixed size) = true
inside_last array_index (varying []) = false
inside_last array_index (varying (os ∷ offsets_sizes)) =
    ltb array_index (last_end (os ∷ offsets_sizes))

unfoldable pub array_indices_inbounds : RectangularChunkGrid → List ℕ → Bool
unfolding inside_last
array_indices_inbounds g array_indices =
    length array_indices == length g.chunks
    && zip_all3 (λ index size chunks. ltb index size && inside_last index chunks) array_indices
        g.array_shape g.chunks
