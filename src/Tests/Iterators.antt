-- ===== src/Tests/Iterators.antt =====
-- Iterators over a box of 2 by 2 indices (zarrs_chunk_grid/src/iterators).
use mathlib.Core.List.{Nodup, Mem}
use zarrs.Common.{
  ℕ, ◌<◌, ◌≡◌, ◌↔◌, refl, true, List, [], ◌∷◌, ◌++◌, arith, product, u64_mod, length, ok, ◌*◌, ◌+◌,
}
use zarrs.Index.{ravel_indices, ravel_loop, ravel_step, index_of}
use zarrs.Index.Linear.{linear}
use zarrs.Subset.{
  ArraySubset, contains, dimensionality, end_exc, num_elements, is_empty, new_with_ranges,
}
use zarrs.Subset.Valid.{IsValid, Fits}
use zarrs.Iterator.{Bound, new_with_start_end, Indices, yields, new, next, next_back, item}
use zarrs.Iterator.Item.{position}
use zarrs.Iterator.Deque.{IsIterable, remaining}
use zarrs.Iterator.Calls.{Calls, remaining-Calls}
use zarrs.Iterator.Drain.{Drains, Drains-new}
use zarrs.Iterator.Linearised.{LinearisedIndices}
use zarrs.Iterator.Contiguous.{
  ContiguousIndices, ContiguousIndicesIterator, into_iter, with_elements, linearised_new,
  linearised_into_iter, linearised_next, linearised_next_back, ravel_run, scan_dimension,
  scan_dimensions, start_ranges, len,
}
use zarrs.Iterator.Contiguous as Contiguous
use zarrs.Iterator.Contiguous.Runs.{contiguous_runs}
use zarrs.Iterator.Linearised as Linearised
use zarrs.Iterator.Linearised.Positions.{at, next-linear}

abbrev box : ArraySubset
box = record { start = 2 ∷ 1 ∷ []; shape = 2 ∷ 2 ∷ [] }

box-IsValid : IsValid box
box-IsValid = record { same_dimensionality = refl }

box-Fits : Fits box.start box.shape
box-Fits = (omega arith, (omega arith, tt))

box-small : product box.shape < u64_mod
box-small = omega arith

Drains-new_example :
    (items : List (List ℕ)) × Drains (new box) items
    × Nodup items
    × ((indices : List ℕ)
        → length indices ≡ length box.start
        → (contains box indices ≡ true) ↔ Mem indices items)
Drains-new_example = Drains-new box box-IsValid box-Fits box-small

-- The iterator at the positions from a up to e.
abbrev between : ℕ → ℕ → Indices
between a e = record { subset = box; range = record { start = a; end = e } }

whole-IsIterable : IsIterable (between 0 4)
whole-IsIterable = record { same_dimensionality = refl; fits = box-small; bounded = omega arith }

first : next (between 0 4) ≡ (yields (2 ∷ 1 ∷ []), between 1 4)
unfolding next item
first = refl

last : next_back (between 1 4) ≡ (yields (3 ∷ 2 ∷ []), between 1 3)
unfolding next_back item
last = refl

two_calls : Calls (between 0 4) ((2 ∷ 1 ∷ []) ∷ []) ((3 ∷ 2 ∷ []) ∷ []) (between 1 3)
two_calls =
    Calls.back (Calls.front Calls.start (2 ∷ 1 ∷ []) (between 1 4) first) (3 ∷ 2 ∷ []) (between 1 3)
      last

remaining-Calls_example :
    IsIterable (between 1 3)
    × (remaining (between 0 4)
        ≡ (2 ∷ 1 ∷ []) ∷ [] ++ (remaining (between 1 3) ++ (3 ∷ 2 ∷ []) ∷ []))
remaining-Calls_example = remaining-Calls (between 0 4) whole-IsIterable two_calls

abbrev in_array : LinearisedIndices
in_array = record { subset = box; array_shape = 4 ∷ 3 ∷ [] }

in_array-new : Linearised.new box (4 ∷ 3 ∷ []) ≡ ok in_array
unfolding Linearised.new dimensionality end_exc
in_array-new = refl

next-linear_example :
    (Linearised.next (at in_array 0 4)
      ≡ (yields (linear (position box 0) (4 ∷ 3 ∷ [])), at in_array 1 4))
    × (Linearised.next_back (at in_array 0 4)
        ≡ (yields (linear (position box 3) (4 ∷ 3 ∷ [])), at in_array 0 3))
next-linear_example =
    next-linear box (4 ∷ 3 ∷ []) box-IsValid box-Fits box-small (omega arith) in_array in_array-new
      0 4 (omega arith) (omega arith)

partial : new_with_start_end box (Bound.included 1) (Bound.excluded 9) ≡ between 1 4
unfolding new_with_start_end num_elements
partial = refl

from_start : Linearised.into_iter in_array ≡ at in_array 0 4
unfolding Linearised.into_iter num_elements
from_start = refl

-- Two runs of two elements, one per row.
abbrev rows : ContiguousIndices
rows = record {
  subset_contiguous_start = record { start = 2 ∷ 1 ∷ []; shape = 2 ∷ 1 ∷ [] };
  contiguous_elements = 2;
}

rows-new : Contiguous.new box (4 ∷ 3 ∷ []) ≡ ok rows
unfolding Contiguous.new scan_dimension scan_dimensions start_ranges dimensionality end_exc is_empty
    new_with_ranges
rows-new = refl

contiguous_runs_example :
    (2 * 2 ≡ product box.shape)
    × ((r j : ℕ)
        → j < 2
        → linear (position box (r * 2 + j)) (4 ∷ 3 ∷ [])
          ≡ linear (position rows.subset_contiguous_start r) (4 ∷ 3 ∷ []) + j)
contiguous_runs_example =
    contiguous_runs box (4 ∷ 3 ∷ []) rows box-IsValid box-Fits (omega arith) box-small rows-new

-- The whole array is one run, of its 12 elements.
whole-new :
    Contiguous.new (record { start = 0 ∷ 0 ∷ []; shape = 4 ∷ 3 ∷ [] }) (4 ∷ 3 ∷ [])
    ≡ ok (record {
      subset_contiguous_start = record { start = 0 ∷ 0 ∷ []; shape = 1 ∷ 1 ∷ [] };
      contiguous_elements = 12;
    })
unfolding Contiguous.new scan_dimension scan_dimensions start_ranges dimensionality end_exc is_empty
    new_with_ranges
whole-new = refl

abbrev runs : ℕ → ℕ → ContiguousIndicesIterator
runs a e = record {
  inner = record { subset = rows.subset_contiguous_start; range = record { start = a; end = e } };
  contiguous_elements = 2;
}

rows-into_iter : (into_iter rows ≡ runs 0 2) × (len rows ≡ 2)
unfolding into_iter len num_elements
rows-into_iter = (refl, refl)

rows-next :
    (Contiguous.next (runs 0 2) ≡ (yields (2 ∷ 1 ∷ [], 2), runs 1 2))
    × (Contiguous.next_back (runs 0 2) ≡ (yields (3 ∷ 1 ∷ [], 2), runs 0 1))
unfolding Contiguous.next Contiguous.next_back with_elements next next_back item
rows-next = (refl, refl)

linearised_rows :
    linearised_new box (4 ∷ 3 ∷ []) ≡ ok (record { inner = rows; array_shape = 4 ∷ 3 ∷ [] })
unfolding linearised_new Contiguous.new scan_dimension scan_dimensions start_ranges dimensionality
    end_exc is_empty new_with_ranges
linearised_rows = refl

linearised_rows-next :
    (linearised_next (linearised_into_iter (record { inner = rows; array_shape = 4 ∷ 3 ∷ [] }))
      ≡ (yields (7, 2), record { inner = runs 1 2; array_shape = 4 ∷ 3 ∷ [] }))
    × (linearised_next_back (record { inner = runs 0 2; array_shape = 4 ∷ 3 ∷ [] })
        ≡ (yields (10, 2), record { inner = runs 0 1; array_shape = 4 ∷ 3 ∷ [] }))
unfolding linearised_next linearised_next_back linearised_into_iter into_iter ravel_run
    Contiguous.next Contiguous.next_back with_elements next next_back item num_elements
    ravel_indices ravel_loop ravel_step index_of
linearised_rows-next = (refl, refl)
