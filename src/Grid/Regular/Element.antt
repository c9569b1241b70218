-- ===== src/Grid/Regular/Element.antt =====
-- The origin of the chunk of an index tuple, and the tuple within the chunk
-- (zarrs/src/array/chunk_grid/regular.rs).
use native.Mathlib.Nat.{div-mul-le_self, mod-lt, div-add-mod'}
use zarrs.Common.{
  ℕ, ◌+◌, ◌/◌, ◌%◌, ◌<◌, ◌≡◌, refl, ap₂, ◌∙◌, some, false, List, [], ◌∷◌, arith, add_u64, mul_u64,
  u64_mod, length, zip_with, ok, mul_u64-eq-mul,
}
use zarrs.Index.Linear.{Inbounds, length-Inbounds}
use zarrs.Subset.Valid.{Fits, length-zip_with}
use zarrs.Grid.Regular.{
  RegularChunkGrid, chunk_origin, chunk_indices, chunk_element_indices, is_empty_array,
}
use zarrs.Grid.Regular.Rows.{Positive, nonempty-Inbounds}
use zarrs.Grid.Regular.Partition.{IsRegular, chunk_indices-eq}

back_to_index :
    (i a s : ℕ) → 0 < s → a + s < u64_mod → i < a → add_u64 (mul_u64 (i / s) s) (i % s) ≡ i
back_to_index i a s h f lt =
    omega (arith, div-add-mod' i s, div-mul-le_self i s, mul_u64-eq-mul (i / s) s)

elements_back :
    (is ns ss : List ℕ)
    → Positive ss
    → Fits ns ss
    → length ns ≡ length ss
    → Inbounds is ns
    → (zip_with add_u64 (zip_with mul_u64 (zip_with ◌/◌ is ss) ss) (zip_with ◌%◌ is ss) ≡ is)
      × Inbounds (zip_with ◌%◌ is ss) ss
elements_back [] [] [] p f e h = (refl, tt)
elements_back (i ∷ is) (n ∷ ns) (s ∷ ss) (q, p) (g, f) e (lt, h) =
    let (b, c) = elements_back is ns ss p f (omega arith) h in
    (ap₂ ◌∷◌ (back_to_index i n s q g lt) b, (mod-lt i q, c))
elements_back is [] (s ∷ ss) p f e h = absurd (omega arith)
elements_back is (n ∷ ns) [] p f e h = absurd (omega arith)
elements_back [] (n ∷ ns) (s ∷ ss) p f e h = absurd h
elements_back (i ∷ is) [] [] p f e h = absurd h

module _ (g : RegularChunkGrid) (v : IsRegular g) (array_indices : List ℕ)
    (inside : Inbounds array_indices g.array_shape) where
  nonempty : is_empty_array g ≡ false
  nonempty = nonempty-Inbounds array_indices g.array_shape inside

  dims : length array_indices ≡ length g.chunk_shape
  dims = length-Inbounds array_indices g.array_shape inside ∙ v.same_dimensionality

  origin-eq :
      (c : List ℕ)
      → length c ≡ length g.chunk_shape
      → chunk_origin g c ≡ ok (some (zip_with mul_u64 c g.chunk_shape))
  unfolding chunk_origin
  origin-eq c e = ground (arith, nonempty, e)

  element-eq :
      chunk_element_indices g array_indices ≡ ok (some (zip_with ◌%◌ array_indices g.chunk_shape))
  unfolding chunk_element_indices
  element-eq = ground (arith, nonempty, dims)

  -- For an index tuple inside the array of a regular grid, the origin of its chunk and its indices
  -- within the chunk add up to the tuple, and the latter are within the chunk shape.
  pub chunk_origin-chunk_element_indices :
      (c : List ℕ) × (origin : List ℕ) × (element : List ℕ) × (chunk_indices g array_indices
        ≡ ok (some c))
      × (chunk_origin g c ≡ ok (some origin))
      × (chunk_element_indices g array_indices ≡ ok (some element))
      × (zip_with add_u64 origin element ≡ array_indices)
      × Inbounds element g.chunk_shape
  chunk_origin-chunk_element_indices =
      let c = zip_with ◌/◌ array_indices g.chunk_shape in
      let (p, q) =
        elements_back array_indices g.array_shape g.chunk_shape v.positive v.fits
          v.same_dimensionality inside in
      (
        c,
        zip_with mul_u64 c g.chunk_shape,
        zip_with ◌%◌ array_indices g.chunk_shape,
        chunk_indices-eq g v array_indices inside,
        origin-eq c (length-zip_with ◌/◌ array_indices g.chunk_shape ∙ omega (arith, dims)),
        element-eq,
        p,
        q,
      )
