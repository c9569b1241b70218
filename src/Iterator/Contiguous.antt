-- ===== src/Iterator/Contiguous.antt =====
-- `ContiguousIndices` and `ContiguousLinearisedIndices` with their iterators
-- (zarrs_chunk_grid/src/iterators/contiguous_indices_iterator.rs,
-- zarrs_chunk_grid/src/iterators/contiguous_linearised_indices_iterator.rs).
pub mod Loop
pub mod Runs
use zarrs.Common.{
  ℕ, List, [], ◌∷◌, Bool, true, false, ◌&&◌, Option, none, some, ltb, leb, ◌==◌, not, if◌then◌else◌,
  length, zip_any, zip_with, add_u64, mul_u64, Result, ok, err, ◌>>=◌,
}
use zarrs.Index.{ravel_indices}
use zarrs.Subset.{
  Range, ArraySubset, end_exc, dimensionality, num_elements, is_empty, new_with_ranges,
}
use zarrs.Iterator.{Indices, Step, yields, ends, panics}
use zarrs.Iterator as Inner
use zarrs.Iterator.Linearised.{IndexerError, incompatible_dimensionality, out_of_bounds}

pub record ContiguousIndices : Type 0 where
  pub subset_contiguous_start : ArraySubset
  pub contiguous_elements : ℕ

-- contiguous, contiguous_elements, shape_out
pub record Scan : Type 0 where
  pub contiguous : Bool
  pub elements : ℕ
  pub shape_out : List ℕ

-- The body of the loop, for the start, the size and the array's size in one dimension.
unfoldable pub scan_dimension : ℕ → ℕ → ℕ → Scan → Scan
scan_dimension subset_start subset_size array_size scan =
    if scan.contiguous
    then record {
      contiguous = (subset_start == 0) && (subset_size == array_size);
      elements = mul_u64 scan.elements subset_size;
      shape_out = 1 ∷ scan.shape_out;
    }
    else record {
      contiguous = false;
      elements = scan.elements;
      shape_out = subset_size ∷ scan.shape_out;
    }

-- The loop, which goes from the last dimension to the first.
unfoldable pub scan_dimensions : List ℕ → List ℕ → List ℕ → Scan
scan_dimensions (o ∷ start) (l ∷ shape) (n ∷ array_shape) =
    scan_dimension o l n (scan_dimensions start shape array_shape)
scan_dimensions _ _ _ = record { contiguous = true; elements = 1; shape_out = [] }

-- .zip(shape_out).map(|(&st, sh)| st..(st + sh))
unfoldable pub start_ranges : List ℕ → List ℕ → List Range
start_ranges start shape_out =
    zip_with (λ st sh. record { start = st; end = add_u64 st sh }) start shape_out

unfoldable pub new : ArraySubset → List ℕ → Result ContiguousIndices IndexerError
new subset array_shape =
    if not (dimensionality subset == length array_shape)
    then err (incompatible_dimensionality (dimensionality subset) (length array_shape))
    else if zip_any (λ end shape. ltb shape end) (end_exc subset) array_shape
    then err (out_of_bounds (end_exc subset) array_shape)
    else if is_empty subset
    then (if zip_any (λ start shape. leb shape start) subset.start array_shape
        then err (out_of_bounds subset.start array_shape)
        else ok (record { subset_contiguous_start = subset; contiguous_elements = 0 }))
    else (let scan = scan_dimensions subset.start subset.shape array_shape in
        ok (record {
          subset_contiguous_start = new_with_ranges (start_ranges subset.start scan.shape_out);
          contiguous_elements = scan.elements;
        }))

unfoldable pub len : ContiguousIndices → ℕ
len c = num_elements c.subset_contiguous_start

pub record ContiguousIndicesIterator : Type 0 where
  pub inner : Indices
  pub contiguous_elements : ℕ

unfoldable pub into_iter : ContiguousIndices → ContiguousIndicesIterator
into_iter c = record {
  inner = record {
    subset = c.subset_contiguous_start;
    range = record { start = 0; end = num_elements c.subset_contiguous_start };
  };
  contiguous_elements = c.contiguous_elements;
}

-- .map(|i| (i, self.contiguous_elements()))
unfoldable pub with_elements {ℓ} : {A : Type ℓ} → ℕ → Step A → Step (A × ℕ)
with_elements elements (yields i) = yields (i, elements)
with_elements elements ends = ends
with_elements elements panics = panics

unfoldable pub next : ContiguousIndicesIterator → Step (List ℕ × ℕ) × ContiguousIndicesIterator
next it =
    let (step, inner) = Inner.next it.inner in
    (with_elements it.contiguous_elements step, record it { inner = inner })

unfoldable pub next_back : ContiguousIndicesIterator → Step (List ℕ × ℕ) × ContiguousIndicesIterator
next_back it =
    let (step, inner) = Inner.next_back it.inner in
    (with_elements it.contiguous_elements step, record it { inner = inner })

pub record ContiguousLinearisedIndices : Type 0 where
  pub inner : ContiguousIndices
  pub array_shape : List ℕ

unfoldable pub linearised_new :
    ArraySubset → List ℕ → Result ContiguousLinearisedIndices IndexerError
linearised_new subset array_shape =
    new subset array_shape >>= (λ inner. ok (record { inner = inner; array_shape = array_shape }))

pub record ContiguousLinearisedIndicesIterator : Type 0 where
  pub inner : ContiguousIndicesIterator
  pub array_shape : List ℕ

unfoldable pub linearised_into_iter :
    ContiguousLinearisedIndices → ContiguousLinearisedIndicesIterator
linearised_into_iter c = record { inner = into_iter c.inner; array_shape = c.array_shape }

-- (ravel_indices(..).expect("inbounds indices"), indices.1)
unfoldable pub ravel_run : List ℕ → Step (List ℕ × ℕ) → Step (ℕ × ℕ)
ravel_run array_shape ends = ends
ravel_run array_shape panics = panics
ravel_run array_shape (yields (indices, elements)) = elim (ravel_indices indices array_shape) [
  | none ↦ panics
  | some index ↦ yields (index, elements)
]

unfoldable pub linearised_next :
    ContiguousLinearisedIndicesIterator → Step (ℕ × ℕ) × ContiguousLinearisedIndicesIterator
linearised_next it =
    let (step, inner) = next it.inner in
    (ravel_run it.array_shape step, record it { inner = inner })

unfoldable pub linearised_next_back :
    ContiguousLinearisedIndicesIterator → Step (ℕ × ℕ) × ContiguousLinearisedIndicesIterator
linearised_next_back it =
    let (step, inner) = next_back it.inner in
    (ravel_run it.array_shape step, record it { inner = inner })
