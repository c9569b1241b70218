-- ===== src/Grid/Bounded/Partition.antt =====
-- A bounded grid partitions its array (zarrs/src/array/chunk_grid/regular_bounded.rs).
use native.Mathlib.Nat.{div-mul-le_self, lt-div-mul-add, div-eq_of_lt-le}
use zarrs.Common.{
  ℕ, ◌-◌, ◌/◌, ◌≡◌, refl, ap₂, sym, subst, ◌∙◌, true, Bool, some, List, [], ◌∷◌, map, ltb, ◌==◌,
  arith, div_ceil, length, zip_with, zip_with3, zip_all3, ok, collect, ◌&&◌,
}
use zarrs.Index.Linear.{Inbounds, length-Inbounds}
use zarrs.Subset.{Range, ArraySubset, new_with_ranges, contains, covers}
use zarrs.Subset.Valid.{Fits}
use zarrs.Grid.Bounded.{RegularBoundedChunkGrid, guarded, chunk_indices, subset, index_in}
use zarrs.Grid.Bounded.Valid.{IsBounded}
use zarrs.Grid.Bounded.Clip.{parts, part_covers, covers_part}
use zarrs.Grid.Bounded.Agree.{subset-parts}
use zarrs.Grid.Regular.Rows.{Positive, lt-div_ceil, partition_Inbounds}
use zarrs.Grid.Regular.Partition.{some_of_ok}

collect-index_in :
    (is ns ss : List ℕ)
    → Inbounds is ns
    → collect (zip_with3 index_in is ss ns) ≡ some (zip_with ◌/◌ is ss)
collect-index_in [] [] ss h = refl
collect-index_in [] (n ∷ ns) ss h = absurd h
collect-index_in (i ∷ is) [] ss h = absurd h
collect-index_in (i ∷ is) (n ∷ ns) [] h = refl
collect-index_in (i ∷ is) (n ∷ ns) (s ∷ ss) (lt, h) =
    let here : ltb i n ≡ true = ground arith in
    let rest = collect-index_in is ns ss h in rw (here, rest)

parts_cover :
    (is ns ss : List ℕ)
    → Positive ss
    → Fits ns ss
    → length ns ≡ length ss
    → Inbounds is ns
    → zip_all3 covers is
        (map (λ (r : Range). r.start) (parts ss ns (zip_with ◌/◌ is ss)))
        (map (λ (r : Range). r.end - r.start) (parts ss ns (zip_with ◌/◌ is ss)))
      ≡ true
parts_cover [] ns ss p g e h = refl
parts_cover (i ∷ is) [] ss p g e h = absurd h
parts_cover (i ∷ is) (n ∷ ns) [] p g e h = absurd (omega arith)
parts_cover (i ∷ is) (n ∷ ns) (s ∷ ss) (q, p) (k, g) e (lt, h) =
    ap₂ ◌&&◌ (covers_part s n i k lt (div-mul-le_self i s) (lt-div-mul-add {a = i} q))
      (parts_cover is ns ss p g (omega arith) h)

and_true : (a b : Bool) → (a && b) ≡ true → (a ≡ true) × (b ≡ true)
and_true a b h = ground arith

parts_unique :
    (is ns ss cs : List ℕ)
    → Positive ss
    → Fits ns ss
    → length ns ≡ length ss
    → Inbounds is ns
    → Inbounds cs (zip_with div_ceil ns ss)
    → zip_all3 covers is
        (map (λ (r : Range). r.start) (parts ss ns cs))
        (map (λ (r : Range). r.end - r.start) (parts ss ns cs))
      ≡ true
    → cs ≡ zip_with ◌/◌ is ss
parts_unique [] [] [] [] p g e h b k = refl
parts_unique [] [] [] (c ∷ cs) p g e h b k = absurd b
parts_unique [] [] (s ∷ ss) cs p g e h b k = absurd (omega arith)
parts_unique [] (n ∷ ns) ss cs p g e h b k = absurd h
parts_unique (i ∷ is) [] ss cs p g e h b k = absurd h
parts_unique (i ∷ is) (n ∷ ns) [] cs p g e h b k = absurd (omega arith)
parts_unique (i ∷ is) (n ∷ ns) (s ∷ ss) [] p g e h b k = absurd b
parts_unique (i ∷ is) (n ∷ ns) (s ∷ ss) (c ∷ cs) (q, p) (w, g) e (lt, h) (d, b) k =
    let (here, rest) = and_true _ _ k in
    let (lo, hi) = part_covers s n c q w ((lt-div_ceil c n s q).0 d) i here in
    ap₂ ◌∷◌ (sym (div-eq_of_lt-le s lo (ground (arith, hi))))
      (parts_unique is ns ss cs p g (omega arith) h b rest)

module _ (g : RegularBoundedChunkGrid) (v : IsBounded g) (array_indices : List ℕ)
    (inside : Inbounds array_indices g.array_shape) where
  abbrev chunk : List ℕ
  chunk = zip_with ◌/◌ array_indices g.chunk_shape

  chunk_indices-eq : chunk_indices g array_indices ≡ ok (some chunk)
  unfolding chunk_indices guarded
  chunk_indices-eq =
      let asked : (length array_indices == length g.chunk_shape) ≡ true =
        ground (arith, length-Inbounds array_indices g.array_shape inside, v.same_dimensionality) in
      rw (asked, collect-index_in array_indices g.array_shape g.chunk_shape inside)

  chunk-Inbounds : Inbounds chunk g.grid_shape
  chunk-Inbounds = rw v.counted (
      partition_Inbounds array_indices g.array_shape g.chunk_shape v.positive v.same_dimensionality
        inside)

  chunk-contains :
      contains (new_with_ranges (parts g.chunk_shape g.array_shape chunk)) array_indices ≡ true
  unfolding contains new_with_ranges
  chunk-contains =
      parts_cover array_indices g.array_shape g.chunk_shape v.positive v.fits v.same_dimensionality
        inside

  chunk_only :
      (other : List ℕ)
      → Inbounds other g.grid_shape
      → contains (new_with_ranges (parts g.chunk_shape g.array_shape other)) array_indices ≡ true
      → other ≡ chunk
  unfolding contains new_with_ranges
  chunk_only other i k =
      parts_unique array_indices g.array_shape g.chunk_shape other v.positive v.fits
        v.same_dimensionality inside (rw v.counted at i) k

  -- Where the chunk shape is positive and no chunk wraps around, for an index tuple inside the array
  -- of a bounded grid, `chunk_indices` returns a chunk of the grid whose subset contains the tuple,
  -- and no other chunk of the grid has a subset that contains it.
  pub bounded_partition :
      (c : List ℕ) × (b : ArraySubset) × (chunk_indices g array_indices ≡ ok (some c))
      × Inbounds c g.grid_shape
      × (subset g c ≡ ok (some b))
      × (contains b array_indices ≡ true)
      × ((other : List ℕ) (box : ArraySubset)
          → Inbounds other g.grid_shape
          → subset g other ≡ ok (some box)
          → contains box array_indices ≡ true
          → other ≡ c)
  bounded_partition = (
    chunk,
    new_with_ranges (parts g.chunk_shape g.array_shape chunk),
    chunk_indices-eq,
    chunk-Inbounds,
    subset-parts g v chunk chunk-Inbounds,
    chunk-contains,
    λ other box i e k.
        let same = some_of_ok (sym (subset-parts g v other i) ∙ e) in
        chunk_only other i
          (subst (λ (b : ArraySubset). contains b array_indices ≡ true) (sym same) k),
  )
