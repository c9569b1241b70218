-- ===== src/Grid/Bounded/Valid.antt =====
-- What `RegularBoundedChunkGrid::new` builds (zarrs/src/array/chunk_grid/regular_bounded.rs).
use zarrs.Common.{ℕ, ◌≡◌, refl, List, arith, div_ceil, length, zip_with, ok, subst}
use zarrs.Subset.Valid.{Fits}
use zarrs.Grid.Bounded.{RegularBoundedChunkGrid, new}
use zarrs.Grid.Regular.Rows.{Positive}

-- From a shape of `NonZeroU64`, where the chunks at the end of the array do not wrap around.
pub record IsBounded (g : RegularBoundedChunkGrid) : Type 0 where
  pub same_dimensionality : length g.array_shape ≡ length g.chunk_shape
  pub counted : g.grid_shape ≡ zip_with div_ceil g.array_shape g.chunk_shape
  pub positive : Positive g.chunk_shape
  pub fits : Fits g.array_shape g.chunk_shape

new_fields :
    (array_shape chunk_shape : List ℕ) (g : RegularBoundedChunkGrid)
    → new array_shape chunk_shape ≡ ok g
    → (length array_shape ≡ length chunk_shape)
      × (◌≡◌ {A = RegularBoundedChunkGrid}
          (record {
            array_shape = array_shape;
            grid_shape = zip_with div_ceil array_shape chunk_shape;
            chunk_shape = chunk_shape;
          })
          g)
unfolding new
new_fields array_shape chunk_shape g h = ground arith

-- `new` builds a bounded grid, from a chunk shape with no zero, whenever it succeeds.
pub new-IsBounded :
    (array_shape chunk_shape : List ℕ) (g : RegularBoundedChunkGrid)
    → Positive chunk_shape
    → Fits array_shape chunk_shape
    → new array_shape chunk_shape ≡ ok g
    → IsBounded g
new-IsBounded array_shape chunk_shape g p f h =
    let (k, e) = new_fields array_shape chunk_shape g h in
    subst IsBounded e (record { same_dimensionality = k; counted = refl; positive = p; fits = f })
