-- ===== src/Grid/Regular/Partition.antt =====
-- A regular grid partitions its array (zarrs/src/array/chunk_grid/regular.rs).
use zarrs.Common.{
  ℕ, ◌/◌, ◌≡◌, refl, ap, sym, ◌∙◌, subst, true, false, some, List, arith, div_ceil, length,
  zip_with, ok,
}
use zarrs.Index.Linear.{Inbounds, length-Inbounds}
use zarrs.Subset.{ArraySubset, new_with_ranges, contains}
use zarrs.Subset.Valid.{Fits, length-zip_with}
use zarrs.Grid.{Answer}
use zarrs.Grid.Regular.{RegularChunkGrid, new, chunk_range, subset, chunk_indices, is_empty_array}
use zarrs.Grid.Regular.Rows.{
  Positive, nonempty-Inbounds, partition_covers, partition_Inbounds, partition_unique,
}

-- What `new` builds from a shape of `NonZeroU64`, where the chunks at the end of the array do not
-- wrap around.
pub record IsRegular (g : RegularChunkGrid) : Type 0 where
  pub same_dimensionality : length g.array_shape ≡ length g.chunk_shape
  pub counted : g.grid_shape ≡ zip_with div_ceil g.array_shape g.chunk_shape
  pub positive : Positive g.chunk_shape
  pub fits : Fits g.array_shape g.chunk_shape

new_fields :
    (array_shape chunk_shape : List ℕ) (g : RegularChunkGrid)
    → new array_shape chunk_shape ≡ ok g
    → (length array_shape ≡ length chunk_shape)
      × (◌≡◌ {A = RegularChunkGrid}
          (record {
            array_shape = array_shape;
            grid_shape = zip_with div_ceil array_shape chunk_shape;
            chunk_shape = chunk_shape;
          })
          g)
unfolding new
new_fields array_shape chunk_shape g h = ground arith

-- `new` builds a regular grid, from a chunk shape with no zero, whenever it succeeds.
pub new-IsRegular :
    (array_shape chunk_shape : List ℕ) (g : RegularChunkGrid)
    → Positive chunk_shape
    → Fits array_shape chunk_shape
    → new array_shape chunk_shape ≡ ok g
    → IsRegular g
new-IsRegular array_shape chunk_shape g p f h =
    let (k, e) = new_fields array_shape chunk_shape g h in
    subst IsRegular e (record { same_dimensionality = k; counted = refl; positive = p; fits = f })

pub some_of_ok :
    {b c : ArraySubset} → ◌≡◌ {A = Answer ArraySubset} (ok (some b)) (ok (some c)) → b ≡ c
some_of_ok e = cc

module _ (g : RegularChunkGrid) (v : IsRegular g) (array_indices : List ℕ)
    (inside : Inbounds array_indices g.array_shape) where
  nonempty : is_empty_array g ≡ false
  nonempty = nonempty-Inbounds array_indices g.array_shape inside

  dims : length array_indices ≡ length g.chunk_shape
  dims = length-Inbounds array_indices g.array_shape inside ∙ v.same_dimensionality

  pub chunk_indices-eq :
      chunk_indices g array_indices ≡ ok (some (zip_with ◌/◌ array_indices g.chunk_shape))
  unfolding chunk_indices
  chunk_indices-eq = ground (arith, nonempty, dims)

  pub subset-eq :
      (c : List ℕ)
      → length c ≡ length g.chunk_shape
      → subset g c ≡ ok (some (new_with_ranges (zip_with chunk_range c g.chunk_shape)))
  unfolding subset
  subset-eq c e = ground (arith, nonempty, e)

  pub chunk-Inbounds : Inbounds (zip_with ◌/◌ array_indices g.chunk_shape) g.grid_shape
  chunk-Inbounds = rw v.counted (
      partition_Inbounds array_indices g.array_shape g.chunk_shape v.positive v.same_dimensionality
        inside)

  length-grid : length g.grid_shape ≡ length g.chunk_shape
  length-grid =
      ap length v.counted
      ∙ length-zip_with div_ceil g.array_shape g.chunk_shape
      ∙ omega (arith, v.same_dimensionality)

  chunk_contains :
      contains
        (new_with_ranges
          (zip_with chunk_range (zip_with ◌/◌ array_indices g.chunk_shape) g.chunk_shape))
        array_indices
      ≡ true
  unfolding contains new_with_ranges
  chunk_contains =
      partition_covers array_indices g.array_shape g.chunk_shape v.positive v.fits
        v.same_dimensionality inside

  chunk_only :
      (other : List ℕ)
      → Inbounds other g.grid_shape
      → contains (new_with_ranges (zip_with chunk_range other g.chunk_shape)) array_indices ≡ true
      → other ≡ zip_with ◌/◌ array_indices g.chunk_shape
  unfolding contains new_with_ranges
  chunk_only other i k =
      partition_unique array_indices g.array_shape g.chunk_shape other v.positive v.fits
        v.same_dimensionality inside (rw v.counted at i) k

  -- Where the chunk shape is positive and no chunk wraps around, for an index tuple inside the array
  -- of a regular grid, `chunk_indices` returns a chunk of the grid whose subset contains the tuple,
  -- and no other chunk of the grid has a subset that contains it.
  pub chunk_indices_partition :
      (c : List ℕ) × (b : ArraySubset) × (chunk_indices g array_indices ≡ ok (some c))
      × Inbounds c g.grid_shape
      × (subset g c ≡ ok (some b))
      × (contains b array_indices ≡ true)
      × ((other : List ℕ) (box : ArraySubset)
          → Inbounds other g.grid_shape
          → subset g other ≡ ok (some box)
          → contains box array_indices ≡ true
          → other ≡ c)
  chunk_indices_partition =
      let c = zip_with ◌/◌ array_indices g.chunk_shape in
      (
        c,
        new_with_ranges (zip_with chunk_range c g.chunk_shape),
        chunk_indices-eq,
        chunk-Inbounds,
        subset-eq c (length-Inbounds c g.grid_shape chunk-Inbounds ∙ length-grid),
        chunk_contains,
        λ other box i e k.
            let same =
              some_of_ok
                (sym (subset-eq other (length-Inbounds other g.grid_shape i ∙ length-grid)) ∙ e) in
            chunk_only other i
              (subst (λ (b : ArraySubset). contains b array_indices ≡ true) (sym same) k),
      )
