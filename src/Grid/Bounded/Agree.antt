-- ===== src/Grid/Bounded/Agree.antt =====
-- The queries of a bounded grid on a chunk of the grid (zarrs/src/array/chunk_grid/regular_bounded.rs)
-- agree with each other and with a regular grid (zarrs/src/array/chunk_grid/regular.rs).
use zarrs.Common.{
  ℕ, ◌+◌, ◌-◌, ◌*◌, ◌<◌, ◌≡◌, refl, ap, ap₂, sym, ◌∙◌, min, true, false, some, Option, List, [],
  ◌∷◌, map, ltb, ◌==◌, arith, add_u64, u64_mod, div_ceil, length, zip_with, zip_with3, zip_any, ok,
  collect, ◌||◌,
}
use zarrs.Index.Linear.{Inbounds, length-Inbounds}
use zarrs.Subset.{Range, ArraySubset, new_with_ranges, bound}
use zarrs.Subset.Valid.{Fits, length-zip_with, length-map, bound-eq}
use zarrs.Grid.Bounded.{
  RegularBoundedChunkGrid, guarded, chunk_shape, chunk_shape_u64, chunk_origin, subset,
  clipped_range, clipped_size, clipped_size_u64,
}
use zarrs.Grid.Bounded.Valid.{IsBounded}
use zarrs.Grid.Bounded.Clip.{
  part, parts, part_sizes, collect-some, collect-origins, clipped_range-eq, clipped_size-eq,
  clipped_size_u64-eq, bound_start-eq, bound_end-eq, part-ordered,
}
use zarrs.Grid.Regular.{chunk_range}
use zarrs.Grid.Regular.Rows.{Positive, lt-div_ceil}

abbrev starts : List Range → List ℕ
starts rs = map (λ (r : Range). r.start) rs

abbrev sizes : List Range → List ℕ
sizes rs = map (λ (r : Range). r.end - r.start) rs

abbrev ends : List Range → List ℕ
ends rs = map (λ (r : Range). r.end) rs

sizes-eq : (rs : List Range) → zip_with (λ s e. e - s) (starts rs) (ends rs) ≡ sizes rs
sizes-eq [] = refl
sizes-eq (r ∷ rs) = ap (λ (t : List ℕ). (r.end - r.start) ∷ t) (sizes-eq rs)

bound_lists :
    (ss ns cs : List ℕ)
    → Positive ss
    → Fits ns ss
    → length ns ≡ length ss
    → Inbounds cs (zip_with div_ceil ns ss)
    → (zip_with min (starts (zip_with chunk_range cs ss)) ns ≡ starts (parts ss ns cs))
      × (zip_with min
            (zip_with add_u64
              (starts (zip_with chunk_range cs ss))
              (sizes (zip_with chunk_range cs ss)))
            ns
          ≡ ends (parts ss ns cs))
      × (zip_any (λ s e. ltb e s) (starts (parts ss ns cs)) (ends (parts ss ns cs)) ≡ false)
bound_lists [] [] [] p g e b = (refl, refl, refl)
bound_lists [] [] (c ∷ cs) p g e b = absurd b
bound_lists [] (n ∷ ns) cs p g e b = absurd (omega arith)
bound_lists (s ∷ ss) [] cs p g e b = absurd (omega arith)
bound_lists (s ∷ ss) (n ∷ ns) [] p g e b = absurd b
bound_lists (s ∷ ss) (n ∷ ns) (c ∷ cs) (q, p) (k, g) e (d, b) =
    let start = (lt-div_ceil c n s q).0 d in
    let (a1, a2, a3) = bound_lists ss ns cs p g (omega arith) b in
    (
      ap₂ ◌∷◌ (bound_start-eq s n c q k start) a1,
      ap₂ ◌∷◌ (bound_end-eq s n c q k start) a2,
      ap₂ ◌||◌ (part-ordered s n c q k start) a3,
    )

module _ (g : RegularBoundedChunkGrid) (v : IsBounded g) (c : List ℕ)
    (inside : Inbounds c g.grid_shape) where
  abbrev ranges : List Range
  ranges = parts g.chunk_shape g.array_shape c

  in_shape : Inbounds c (zip_with div_ceil g.array_shape g.chunk_shape)
  in_shape = rw v.counted at inside

  pub dims : length c ≡ length g.chunk_shape
  dims =
      length-Inbounds c g.grid_shape inside
      ∙ ap length v.counted
      ∙ length-zip_with div_ceil g.array_shape g.chunk_shape
      ∙ omega (arith, v.same_dimensionality)

  every {ℓ} :
      {A : Type ℓ} (f : ℕ → ℕ → ℕ → Option A) (r : ℕ → ℕ → ℕ → A)
      → ((s n k : ℕ) → 0 < s → n + s < u64_mod → k * s < n → f s n k ≡ some (r s n k))
      → collect (zip_with3 f g.chunk_shape g.array_shape c)
        ≡ some (zip_with3 r g.chunk_shape g.array_shape c)
  every f r e =
      collect-some f r e g.chunk_shape g.array_shape c v.positive v.fits v.same_dimensionality
        in_shape

  pub subset-parts : subset g c ≡ ok (some (new_with_ranges ranges))
  unfolding subset guarded
  subset-parts =
      let answers = every clipped_range part clipped_range-eq in
      let asked : (length c == length g.chunk_shape) ≡ true = ground (arith, dims) in
      rw (asked, answers)

  pub chunk_shape-parts : chunk_shape g c ≡ ok (some (sizes ranges))
  unfolding chunk_shape guarded
  chunk_shape-parts =
      let answers = every clipped_size (λ s n k. min (k * s + s) n - k * s) clipped_size-eq in
      let asked : (length c == length g.chunk_shape) ≡ true = ground (arith, dims) in
      rw (asked, answers, part_sizes g.chunk_shape g.array_shape c)

  pub chunk_shape_u64-parts : chunk_shape_u64 g c ≡ ok (some (sizes ranges))
  unfolding chunk_shape_u64 guarded
  chunk_shape_u64-parts =
      let answers =
        every clipped_size_u64 (λ s n k. min (k * s + s) n - k * s) clipped_size_u64-eq in
      let asked : (length c == length g.chunk_shape) ≡ true = ground (arith, dims) in
      rw (asked, answers, part_sizes g.chunk_shape g.array_shape c)

  pub chunk_origin-parts : chunk_origin g c ≡ ok (some (starts ranges))
  unfolding chunk_origin guarded
  chunk_origin-parts =
      let answers =
        collect-origins g.chunk_shape g.array_shape c v.positive v.fits v.same_dimensionality
          in_shape in
      let asked : (length c == length g.chunk_shape) ≡ true = ground (arith, dims) in
      rw (asked, answers)

  bound-parts :
      bound (new_with_ranges (zip_with chunk_range c g.chunk_shape)) g.array_shape
      ≡ ok (new_with_ranges ranges)
  unfolding new_with_ranges
  bound-parts =
      let (a, b, d) =
        bound_lists g.chunk_shape g.array_shape c v.positive v.fits v.same_dimensionality
          in_shape in
      let regular = zip_with chunk_range c g.chunk_shape in
      let same : length g.array_shape ≡ length (starts regular) = omega (
        arith,
        length-map (λ (r : Range). r.start) regular,
        length-zip_with chunk_range c g.chunk_shape,
        dims,
        v.same_dimensionality,
      ) in
      bound-eq (new_with_ranges regular) g.array_shape (starts ranges) (ends ranges) same a b
        (length-map (λ (r : Range). r.start) ranges
          ∙ sym (length-map (λ (r : Range). r.end) ranges))
        d
      ∙ ap (λ (t : List ℕ). ok (record { start = starts ranges; shape = t })) (sizes-eq ranges)

  -- Where the chunk shape is positive and no chunk wraps around, a chunk of a bounded grid is the
  -- chunk that a regular grid would have, bound to the array: `subset` returns it, `chunk_origin`
  -- its start, and `chunk_shape` and `chunk_shape_u64` both its shape.
  pub subset-bound :
      (b : ArraySubset) × (bound
          (new_with_ranges (zip_with chunk_range c g.chunk_shape))
          g.array_shape
        ≡ ok b)
      × (subset g c ≡ ok (some b))
      × (chunk_origin g c ≡ ok (some b.start))
      × (chunk_shape g c ≡ ok (some b.shape))
      × (chunk_shape_u64 g c ≡ ok (some b.shape))
  unfolding new_with_ranges
  subset-bound = (
    new_with_ranges ranges,
    bound-parts,
    subset-parts,
    chunk_origin-parts,
    chunk_shape-parts,
    chunk_shape_u64-parts,
  )
