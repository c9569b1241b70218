-- ===== src/Grid.antt =====
-- Chunk grids: the trait `ChunkGridTraits` as a record of operations, and its provided methods
-- (zarrs_chunk_grid/src/lib.rs).
pub mod Regular
pub mod Bounded
pub mod Rectangular
use zarrs.Common.{
  ℕ, ◌+◌, Bool, true, false, ◌&&◌, Option, none, some, List, [], ◌∷◌, ltb, ◌==◌, if◌then◌else◌, not,
  add_u64, length, zip_with, zip_all, Result, ok, err, ◌>>=◌,
}
use zarrs.Subset.{Range, ArraySubset, new_with_ranges, new_empty, end_inc, end_exc, dimensionality}

-- `IncompatibleDimensionalityError(got, expected)`
pub data DimensionalityError : Type 0 where
  incompatible_dimensionality : ℕ → ℕ → DimensionalityError

-- `Result<Option<T>, IncompatibleDimensionalityError>`
abbrev pub Answer {ℓ} : Type ℓ → Type ℓ
Answer A = Result (Option A) DimensionalityError

-- The required methods and `subset`, which implementations override.
pub record ChunkGrid : Type 0 where
  pub array_shape : List ℕ
  pub grid_shape : List ℕ
  pub dimensions : ℕ
  pub chunk_shape : List ℕ → Answer (List ℕ)
  pub chunk_origin : List ℕ → Answer (List ℕ)
  pub chunk_indices : List ℕ → Answer (List ℕ)
  pub chunk_element_indices : List ℕ → Answer (List ℕ)
  pub subset : List ℕ → Answer ArraySubset

-- The provided `subset`, from the origin and the shape of a chunk.
subset_of : Option (List ℕ) → Option (List ℕ) → Option ArraySubset
subset_of (some origin) (some shape) =
    some (new_with_ranges (zip_with (λ o s. record { start = o; end = add_u64 o s }) origin shape))
subset_of _ _ = none

unfoldable pub default_subset :
    (List ℕ → Answer (List ℕ)) → (List ℕ → Answer (List ℕ)) → List ℕ → Answer ArraySubset
unfolding subset_of
default_subset chunk_origin chunk_shape chunk_indices = do
  origin ← chunk_origin chunk_indices
  shape ← chunk_shape chunk_indices
  ok (subset_of origin shape)

-- From the start of the first chunk to the end of the last.
chunks_between : Option ArraySubset → Option ArraySubset → Option ArraySubset
chunks_between (some chunk0) (some chunk1) = some (
    new_with_ranges (zip_with (λ s e. record { start = s; end = e }) chunk0.start (end_exc chunk1)))
chunks_between _ _ = none

chunks_subset_to : ChunkGrid → ArraySubset → Option (List ℕ) → Answer ArraySubset
unfolding chunks_between
chunks_subset_to g chunks none = ok (some (new_empty (dimensionality chunks)))
chunks_subset_to g chunks (some end) = do
  chunk0 ← g.subset chunks.start
  chunk1 ← g.subset end
  ok (chunks_between chunk0 chunk1)

unfoldable pub chunks_subset : ChunkGrid → ArraySubset → Answer ArraySubset
unfolding chunks_subset_to
chunks_subset g chunks =
    if not (dimensionality chunks == g.dimensions)
    then err (incompatible_dimensionality (dimensionality chunks) g.dimensions)
    else chunks_subset_to g chunks (end_inc chunks)

unfoldable pub array_indices_inbounds : ChunkGrid → List ℕ → Bool
array_indices_inbounds g array_indices =
    length array_indices == g.dimensions && zip_all ltb array_indices g.array_shape

unfoldable pub chunk_indices_inbounds : ChunkGrid → List ℕ → Bool
chunk_indices_inbounds g chunk_indices =
    length chunk_indices == g.dimensions && zip_all ltb chunk_indices g.grid_shape

-- The chunks from one index tuple to another, both included.
chunk_box : Option (List ℕ) → Option (List ℕ) → Option ArraySubset
chunk_box (some chunks_start) (some chunks_end) = some (
    new_with_ranges
      (zip_with (λ s e. record { start = s; end = add_u64 e 1 }) chunks_start chunks_end))
chunk_box _ _ = none

chunks_to : ChunkGrid → ArraySubset → Option (List ℕ) → Answer ArraySubset
unfolding chunk_box
chunks_to g region none = ok (some (new_empty g.dimensions))
chunks_to g region (some end) = do
  chunks_start ← g.chunk_indices region.start
  chunks_end ← g.chunk_indices end
  ok (chunk_box chunks_start chunks_end)

pub chunks_in_array_subset : ChunkGrid → ArraySubset → Answer ArraySubset
unfolding chunks_to
chunks_in_array_subset g region = chunks_to g region (end_inc region)
