-- ===== src/Iterator.antt =====
-- The iterator over the indices of a subset (zarrs_chunk_grid/src/iterators/indices_iterator.rs).
-- `IndicesIterator` and `IndicesIntoIterator` differ in ownership only, and so do the parallel
-- iterators, whose `split_at` is here; `Indices` has the same two fields.
pub mod Item
pub mod Deque
pub mod Calls
pub mod Cover
pub mod Drain
pub mod Linearised
pub mod Contiguous
use zarrs.Common.{
  ℕ, zero, suc, ◌-◌, ◌/◌, ◌%◌, min, Bool, true, false, ◌||◌, Option, none, some, List, [], ◌∷◌, ltb,
  leb, ◌==◌, if◌then◌else◌, add_u64, u64_mod, any, length,
}
use zarrs.Index.{unravel_index}
use zarrs.Subset.{Range, ArraySubset, num_elements}

-- What a call of an iterator does: `Some(a)`, `None`, or a panic (an index out of the bounds of a
-- slice, a division by zero, an `expect` that fails).
pub data Step {ℓ} (A : Type ℓ) : Type ℓ where
  yields : A → Step A
  ends : Step A
  panics : Step A

pub record Indices : Type 0 where
  pub subset : ArraySubset
  pub range : Range

-- `std::ops::Bound`
pub data Bound : Type 0 where
  included : ℕ → Bound
  excluded : ℕ → Bound
  unbounded : Bound

-- `saturating_add(1)`
abbrev saturating_suc : ℕ → ℕ
saturating_suc n = if ltb (suc n) u64_mod then suc n else n

unfoldable pub new : ArraySubset → Indices
unfolding num_elements
new subset = record { subset = subset; range = record { start = 0; end = num_elements subset } }

start_of : Bound → ℕ
start_of (included start) = start
start_of (excluded start) = saturating_suc start
start_of unbounded = 0

end_of : Bound → ℕ → ℕ
end_of (excluded end) length = min end length
end_of (included end) length = min (saturating_suc end) length
end_of unbounded length = length

unfoldable pub new_with_start_end : ArraySubset → Bound → Bound → Indices
unfolding num_elements start_of end_of
new_with_start_end subset from to = record {
  subset = subset;
  range = record { start = start_of from; end = end_of to (num_elements subset) };
}

-- `saturating_sub`
pub len : Indices → ℕ
len it = it.range.end - it.range.start

unfoldable pub is_empty : Indices → Bool
unfolding len
is_empty it = len it == 0

unravel_index_1d : ℕ → List ℕ → List ℕ → Step (List ℕ)
unravel_index_1d index (s0 ∷ _) (o0 ∷ _) =
    if s0 == 0 then panics else yields (add_u64 o0 (index % s0) ∷ [])
unravel_index_1d index _ _ = panics

unravel_index_2d : ℕ → List ℕ → List ℕ → Step (List ℕ)
unravel_index_2d index (s0 ∷ s1 ∷ _) (o0 ∷ o1 ∷ _) =
    if s1 == 0 || s0 == 0
    then panics
    else yields (add_u64 o0 (index / s1 % s0) ∷ add_u64 o1 (index % s1) ∷ [])
unravel_index_2d index _ _ = panics

unravel_index_3d : ℕ → List ℕ → List ℕ → Step (List ℕ)
unravel_index_3d index (s0 ∷ s1 ∷ s2 ∷ _) (o0 ∷ o1 ∷ o2 ∷ _) =
    if s2 == 0 || s1 == 0 || s0 == 0
    then panics
    else yields (
        add_u64 o0 (index / s2 / s1 % s0)
        ∷ add_u64 o1 (index / s2 % s1)
        ∷ add_u64 o2 (index % s2)
        ∷ [])
unravel_index_3d index _ _ = panics

unravel_index_4d : ℕ → List ℕ → List ℕ → Step (List ℕ)
unravel_index_4d index (s0 ∷ s1 ∷ s2 ∷ s3 ∷ _) (o0 ∷ o1 ∷ o2 ∷ o3 ∷ _) =
    if s3 == 0 || s2 == 0 || s1 == 0 || s0 == 0
    then panics
    else yields (
        add_u64 o0 (index / s3 / s2 / s1 % s0)
        ∷ add_u64 o1 (index / s3 / s2 % s1)
        ∷ add_u64 o2 (index / s3 % s2)
        ∷ add_u64 o3 (index % s3)
        ∷ [])
unravel_index_4d index _ _ = panics

-- zip(indices.iter_mut(), start).for_each(|(idx, st)| *idx += st)
add_starts : List ℕ → List ℕ → List ℕ
add_starts [] start = []
add_starts (i ∷ indices) [] = i ∷ indices
add_starts (i ∷ indices) (o ∷ start) = add_u64 i o ∷ add_starts indices start

unravel_index_nd : ℕ → List ℕ → List ℕ → Step (List ℕ)
unfolding add_starts
unravel_index_nd index shape start = elim (unravel_index index shape) [
  | none ↦ ends
  | some is ↦ yields (add_starts is start)
]

-- The match on the dimensionality of `next` and `next_back`.
unfoldable pub item : ℕ → List ℕ → List ℕ → Step (List ℕ)
unfolding unravel_index_1d unravel_index_2d unravel_index_3d unravel_index_4d unravel_index_nd
item index [] start = yields []
item index (s0 ∷ []) start = unravel_index_1d index (s0 ∷ []) start
item index (s0 ∷ s1 ∷ []) start = unravel_index_2d index (s0 ∷ s1 ∷ []) start
item index (s0 ∷ s1 ∷ s2 ∷ []) start = unravel_index_3d index (s0 ∷ s1 ∷ s2 ∷ []) start
item index (s0 ∷ s1 ∷ s2 ∷ s3 ∷ []) start = unravel_index_4d index (s0 ∷ s1 ∷ s2 ∷ s3 ∷ []) start
item index (s0 ∷ s1 ∷ s2 ∷ s3 ∷ s4 ∷ shape) start =
    unravel_index_nd index (s0 ∷ s1 ∷ s2 ∷ s3 ∷ s4 ∷ shape) start

unfoldable pub next : Indices → Step (List ℕ) × Indices
next it = if leb it.range.end it.range.start then (ends, it) else (
  item it.range.start it.subset.shape it.subset.start,
  record it { range = record { start = add_u64 it.range.start 1; end = it.range.end } },
)

unfoldable pub next_back : Indices → Step (List ℕ) × Indices
next_back it =
    if ltb it.range.start it.range.end
    then (
      item (it.range.end - 1) it.subset.shape it.subset.start,
      record it { range = record { start = it.range.start; end = it.range.end - 1 } },
    )
    else (ends, it)

-- `Producer::split_at` of the parallel iterators.
pub split_at : Indices → ℕ → Indices × Indices
split_at it index = (
  record it { range = record { start = it.range.start; end = add_u64 it.range.start index } },
  record it { range = record { start = add_u64 it.range.start index; end = it.range.end } },
)
