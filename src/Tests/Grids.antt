-- ===== src/Tests/Grids.antt =====
-- Grids of an array of shape 5 by 4 (zarrs/src/array/chunk_grid).
use zarrs.Common.{ℕ, ◌≡◌, ◌↔◌, refl, true, false, some, List, [], ◌∷◌, arith, length, ok}
use zarrs.Index.Linear.{Inbounds}
use zarrs.Subset.{
  ArraySubset, contains, new_with_ranges, is_empty, end_inc, end_exc, dimensionality,
}
use zarrs.Subset.Valid.{IsValid}
use zarrs.Grid.{
  chunks_in_array_subset, array_indices_inbounds, chunk_indices_inbounds, chunks_subset,
  default_subset,
}
use zarrs.Grid.Regular.{RegularChunkGrid, chunk_range, to_grid, is_empty_array}
use zarrs.Grid.Regular as Regular
use zarrs.Grid.Regular.Partition.{IsRegular, chunk_indices_partition}
use zarrs.Grid.Regular.Region.{chunks_in_array_subset_exact}
use zarrs.Grid.Bounded.{RegularBoundedChunkGrid}
use zarrs.Grid.Bounded as Bounded
use zarrs.Grid.Bounded.Valid.{IsBounded}
use zarrs.Grid.Bounded.Partition.{bounded_partition}
use zarrs.Grid.Rectangular.{
  Configuration, fixed_size, varying_sizes, RectangularChunkGrid, dimension_of, fixed, varying,
}
use zarrs.Grid.Rectangular as Rectangular
use zarrs.Grid.Rectangular.Chunk.{Answers, new-Answers}

abbrev regular : RegularChunkGrid
regular = record { array_shape = 5 ∷ 4 ∷ []; grid_shape = 3 ∷ 2 ∷ []; chunk_shape = 2 ∷ 3 ∷ [] }

regular-IsRegular : IsRegular regular
regular-IsRegular = record {
  same_dimensionality = refl;
  counted = refl;
  positive = (omega arith, (omega arith, tt));
  fits = (omega arith, (omega arith, tt));
}

inside : Inbounds (4 ∷ 3 ∷ []) (5 ∷ 4 ∷ [])
inside = (omega arith, (omega arith, tt))

chunk_indices_partition_example :
    (c : List ℕ) × (b : ArraySubset) × (Regular.chunk_indices regular (4 ∷ 3 ∷ []) ≡ ok (some c))
    × Inbounds c regular.grid_shape
    × (Regular.subset regular c ≡ ok (some b))
    × (contains b (4 ∷ 3 ∷ []) ≡ true)
    × ((other : List ℕ) (box : ArraySubset)
        → Inbounds other regular.grid_shape
        → Regular.subset regular other ≡ ok (some box)
        → contains box (4 ∷ 3 ∷ []) ≡ true
        → other ≡ c)
chunk_indices_partition_example =
    chunk_indices_partition regular regular-IsRegular (4 ∷ 3 ∷ []) inside

abbrev region : ArraySubset
region = record { start = 1 ∷ 1 ∷ []; shape = 2 ∷ 3 ∷ [] }

region-IsValid : IsValid region
region-IsValid = record { same_dimensionality = refl }

region-filled : is_empty region ≡ false
unfolding is_empty
region-filled = refl

chunks_in_array_subset_exact_example :
    (chunks : ArraySubset) × (chunks_in_array_subset (to_grid regular) region ≡ ok (some chunks))
    × ((c : List ℕ)
        → length c ≡ length region.start
        → (contains chunks c ≡ true) ↔ (
            (is : List ℕ) × (length is ≡ length region.start)
            × (contains region is ≡ true)
            × (Regular.chunk_indices regular is ≡ ok (some c))))
chunks_in_array_subset_exact_example =
    chunks_in_array_subset_exact regular regular-IsRegular refl region region-IsValid
      (omega arith, (omega arith, tt)) refl region-filled

abbrev bounded : RegularBoundedChunkGrid
bounded = record { array_shape = 5 ∷ 4 ∷ []; grid_shape = 3 ∷ 2 ∷ []; chunk_shape = 2 ∷ 3 ∷ [] }

bounded-IsBounded : IsBounded bounded
bounded-IsBounded = record {
  same_dimensionality = refl;
  counted = refl;
  positive = (omega arith, (omega arith, tt));
  fits = (omega arith, (omega arith, tt));
}

bounded_partition_example :
    (c : List ℕ) × (b : ArraySubset) × (Bounded.chunk_indices bounded (4 ∷ 3 ∷ []) ≡ ok (some c))
    × Inbounds c bounded.grid_shape
    × (Bounded.subset bounded c ≡ ok (some b))
    × (contains b (4 ∷ 3 ∷ []) ≡ true)
    × ((other : List ℕ) (box : ArraySubset)
        → Inbounds other bounded.grid_shape
        → Bounded.subset bounded other ≡ ok (some box)
        → contains box (4 ∷ 3 ∷ []) ≡ true
        → other ≡ c)
bounded_partition_example = bounded_partition bounded bounded-IsBounded (4 ∷ 3 ∷ []) inside

abbrev configurations : List Configuration
configurations = varying_sizes (1 ∷ 3 ∷ 1 ∷ []) ∷ fixed_size 3 ∷ []

abbrev rectangular : RectangularChunkGrid
rectangular = record {
  array_shape = 5 ∷ 4 ∷ [];
  chunks = dimension_of (varying_sizes (1 ∷ 3 ∷ 1 ∷ [])) ∷ dimension_of (fixed_size 3) ∷ [];
  grid_shape = 3 ∷ 2 ∷ [];
}

rectangular-new : Rectangular.new (5 ∷ 4 ∷ []) configurations ≡ ok rectangular
unfolding Rectangular.new
rectangular-new = refl

new-Answers_example : Answers rectangular (4 ∷ 3 ∷ [])
new-Answers_example =
    new-Answers (5 ∷ 4 ∷ []) configurations rectangular
      (omega arith, ((omega arith, omega arith), tt)) rectangular-new (4 ∷ 3 ∷ []) inside

inbounds_4_3 : array_indices_inbounds (to_grid regular) (4 ∷ 3 ∷ []) ≡ true
unfolding array_indices_inbounds to_grid
inbounds_4_3 = refl

no_chunk_3_0 : chunk_indices_inbounds (to_grid regular) (3 ∷ 0 ∷ []) ≡ false
unfolding chunk_indices_inbounds to_grid
no_chunk_3_0 = refl

all_chunks :
    chunks_subset (to_grid regular) (record { start = 0 ∷ 0 ∷ []; shape = 3 ∷ 2 ∷ [] })
    ≡ ok (some (record { start = 0 ∷ 0 ∷ []; shape = 6 ∷ 6 ∷ [] }))
unfolding chunks_subset Regular.subset end_inc end_exc dimensionality to_grid new_with_ranges
all_chunks = refl

varying_chunk :
    Rectangular.subset rectangular (1 ∷ 1 ∷ [])
    ≡ ok (some (record { start = 1 ∷ 3 ∷ []; shape = 3 ∷ 3 ∷ [] }))
unfolding Rectangular.subset default_subset Rectangular.chunk_origin Rectangular.chunk_shape
    new_with_ranges
varying_chunk = refl

varying_edges : Rectangular.chunk_edge_lengths rectangular 0 ≡ ok (some (1 ∷ 3 ∷ 1 ∷ []))
unfolding Rectangular.chunk_edge_lengths
varying_edges = refl

regular_edges : Regular.chunk_edge_lengths regular 1 ≡ ok (some (3 ∷ 3 ∷ []))
unfolding Regular.chunk_edge_lengths
regular_edges = refl

varying_inbounds : Rectangular.array_indices_inbounds rectangular (4 ∷ 3 ∷ []) ≡ true
unfolding Rectangular.array_indices_inbounds
varying_inbounds = refl

last_origin : Rectangular.chunk_origin rectangular (2 ∷ 1 ∷ []) ≡ ok (some (4 ∷ 3 ∷ []))
unfolding Rectangular.chunk_origin
last_origin = refl

last_shape : Rectangular.chunk_shape rectangular (2 ∷ 1 ∷ []) ≡ ok (some (1 ∷ 3 ∷ []))
unfolding Rectangular.chunk_shape
last_shape = refl
