-- ===== src/Iterator/Linearised.antt =====
-- `LinearisedIndices` and its iterator (zarrs_chunk_grid/src/iterators/linearised_indices_iterator.rs).
pub mod Positions
use zarrs.Common.{
  ℕ, List, Bool, Option, none, some, ltb, ◌==◌, not, if◌then◌else◌, length, zip_any, Result, ok,
  err,
}
use zarrs.Index.{ravel_indices}
use zarrs.Subset.{ArraySubset, end_exc, dimensionality, num_elements}
use zarrs.Iterator.{Indices, Step, yields, ends, panics}
use zarrs.Iterator as Inner

pub data IndexerError : Type 0 where
  incompatible_dimensionality : ℕ → ℕ → IndexerError
  out_of_bounds : List ℕ → List ℕ → IndexerError

pub record LinearisedIndices : Type 0 where
  pub subset : ArraySubset
  pub array_shape : List ℕ

unfoldable pub new : ArraySubset → List ℕ → Result LinearisedIndices IndexerError
unfolding dimensionality end_exc
new subset array_shape =
    if not (dimensionality subset == length array_shape)
    then err (incompatible_dimensionality (dimensionality subset) (length array_shape))
    else if zip_any (λ end shape. ltb shape end) (end_exc subset) array_shape
    then err (out_of_bounds (end_exc subset) array_shape)
    else ok (record { subset = subset; array_shape = array_shape })

pub record LinearisedIndicesIterator : Type 0 where
  pub inner : Indices
  pub array_shape : List ℕ

unfoldable pub into_iter : LinearisedIndices → LinearisedIndicesIterator
unfolding num_elements
into_iter l = record {
  inner = record { subset = l.subset; range = record { start = 0; end = num_elements l.subset } };
  array_shape = l.array_shape;
}

-- ravel_indices(&indices, array_shape).expect("inbounds indices")
ravel : List ℕ → Step (List ℕ) → Step ℕ
ravel array_shape ends = ends
ravel array_shape panics = panics
ravel array_shape (yields indices) = elim (ravel_indices indices array_shape) [
  | none ↦ panics
  | some index ↦ yields index
]

pub next : LinearisedIndicesIterator → Step ℕ × LinearisedIndicesIterator
unfolding ravel
next it =
    let (step, inner) = Inner.next it.inner in
    (ravel it.array_shape step, record it { inner = inner })

pub next_back : LinearisedIndicesIterator → Step ℕ × LinearisedIndicesIterator
unfolding ravel
next_back it =
    let (step, inner) = Inner.next_back it.inner in
    (ravel it.array_shape step, record it { inner = inner })
