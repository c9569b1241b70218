-- ===== src/Grid/Rectangular/Chunk.antt =====
-- The queries of a rectangular grid agree on where an index is (zarrs/src/array/chunk_grid/rectangular.rs).
use zarrs.Common.{
  ℕ, suc, ◌+◌, ◌-◌, ◌<◌, ◌≤◌, ◌≡◌, refl, sym, subst, ap, ap₂, ◌∙◌, true, false, none, some, Option,
  List, [], ◌∷◌, map, ◌==◌, arith, sub_u64, length, zip_with, any, collect, ok, Result, returns,
  Option-cases, inl, inr,
}
use zarrs.Index.Linear.{Inbounds, length-Inbounds}
use zarrs.Subset.Valid.{length-map}
use zarrs.Grid.Regular.Rows.{nonempty-Inbounds}
use zarrs.Grid.Rectangular.{
  Configuration, Dimension, RectangularChunkGrid, dimension_of, grid_size, new, build, guarded,
  CreateError, size_of, chunk_shape, origin_of, chunk_origin, index_of, chunk_indices,
  chunk_element_indices, element_from, element_of,
}
use zarrs.Grid.Rectangular.Locate.{Fitting, holds}

abbrev pub AllFitting : List ℕ → List Configuration → Type 0
AllFitting [] [] = Unit
AllFitting (n ∷ ns) (c ∷ cs) = Fitting n c × AllFitting ns cs
AllFitting _ _ = ⊥

-- In every dimension the index is in the range from the origin.
abbrev pub AllBetween : List ℕ → List ℕ → List ℕ → Type 0
AllBetween [] [] [] = Unit
AllBetween (i ∷ is) (o ∷ origin) (s ∷ shape) = (o ≤ i) × (i < o + s) × AllBetween is origin shape
AllBetween _ _ _ = ⊥

pub collect-cons :
    (o : Option ℕ) (os : List (Option ℕ)) (xs : List ℕ)
    → collect (o ∷ os) ≡ some xs
    → (x : ℕ) × (rest : List ℕ) × (o ≡ some x) × (collect os ≡ some rest) × (x ∷ rest ≡ xs)
collect-cons none os xs h = cc
collect-cons (some x) os xs h = elim (Option-cases (collect os)) [
  | inl e ↦ absurd (no_list (rw e at h))
  | inr (rest, e) ↦ (x, rest, refl, e, some_injective (rw e at h))
]
  where
    no_list : ¬ (◌≡◌ {A = Option (List ℕ)} none (some xs))
    no_list h = cc

    some_injective : {a b : List ℕ} → some a ≡ some b → a ≡ b
    some_injective h = cc

record Located (is : List ℕ) (ds : List Dimension) (gs : List ℕ) : Type 0 where
  pub indices : List ℕ
  pub origin : List ℕ
  pub shape : List ℕ
  pub found : collect (zip_with index_of is ds) ≡ some indices
  pub in_grid : Inbounds indices gs
  pub starts : collect (zip_with origin_of indices ds) ≡ some origin
  pub sizes : collect (zip_with size_of indices ds) ≡ some shape
  pub between : AllBetween is origin shape
  pub exact : zip_with sub_u64 is origin ≡ zip_with ◌-◌ is origin

all-Located :
    (is ns : List ℕ) (cs : List Configuration) (gs : List ℕ)
    → AllFitting ns cs
    → collect (zip_with grid_size ns (map dimension_of cs)) ≡ some gs
    → Inbounds is ns
    → Located is (map dimension_of cs) gs
all-Located [] [] [] gs f e h = subst (Located [] []) (some_injective e) (record {
  indices = [];
  origin = [];
  shape = [];
  found = refl;
  in_grid = tt;
  starts = refl;
  sizes = refl;
  between = tt;
  exact = refl;
})
  where
    some_injective : {a b : List ℕ} → some a ≡ some b → a ≡ b
    some_injective h = cc
all-Located [] [] (c ∷ cs) gs f e h = absurd f
all-Located [] (n ∷ ns) cs gs f e h = absurd h
all-Located (i ∷ is) [] cs gs f e h = absurd h
all-Located (i ∷ is) (n ∷ ns) [] gs f e h = absurd f
all-Located (i ∷ is) (n ∷ ns) (c ∷ cs) gs (f, fs) e (lt, h) =
    let (q, qs, a, b, same) =
      collect-cons (grid_size n (dimension_of c)) (zip_with grid_size ns (map dimension_of cs)) gs
        e in
    let (k, start, size, (at, origin, shape, lo, hi), bounded, word) = holds i n q c f a lt in
    let r = all-Located is ns cs qs fs b h in
    let found = r.found in
    let starts = r.starts in
    let sizes = r.sizes in
    subst (Located (i ∷ is) (map dimension_of (c ∷ cs))) same (record {
      indices = k ∷ r.indices;
      origin = start ∷ r.origin;
      shape = size ∷ r.shape;
      found = rw (at, found);
      in_grid = (bounded, r.in_grid);
      starts = rw (origin, starts);
      sizes = rw (shape, sizes);
      between = (lo, hi, r.between);
      exact = ap₂ ◌∷◌ (omega arith) r.exact;
    })

pub build-ok :
    (array_shape : List ℕ) (cs : List Configuration) (o : Option (List ℕ))
    (g : RectangularChunkGrid)
    → build array_shape cs o ≡ ok g
    → (gs : List ℕ) × (o ≡ some gs)
      × (◌≡◌ {A = RectangularChunkGrid}
          (record { array_shape = array_shape; chunks = map dimension_of cs; grid_shape = gs })
          g)
unfolding build
build-ok array_shape cs none g h = cc
build-ok array_shape cs (some gs) g h = (gs, refl, ok_injective h)
  where
    ok_injective :
        {a b : RectangularChunkGrid}
        → ◌≡◌ {A = Result RectangularChunkGrid CreateError} (ok a) (ok b)
        → a ≡ b
    ok_injective h = cc

pub new-build :
    (array_shape : List ℕ) (cs : List Configuration) (g : RectangularChunkGrid)
    → new array_shape cs ≡ ok g
    → (length array_shape ≡ length cs)
      × (build array_shape cs (collect (zip_with grid_size array_shape (map dimension_of cs)))
          ≡ ok g)
unfolding new
new-build array_shape cs g h = ground arith

pub guarded-eq {ℓ} :
    {A : Type ℓ} (g : RectangularChunkGrid) (indices : List ℕ) (answer : Option A)
    → length indices ≡ length g.chunks
    → any (λ n. n == 0) g.array_shape ≡ false
    → guarded g indices answer ≡ ok answer
unfolding guarded
guarded-eq g indices answer e k =
    let asked : (length indices == length g.chunks) ≡ true = ground (arith, e) in rw (asked, k)

-- The chunk of an index, its origin and its shape, and the index in the chunk, as the grid answers.
pub record Answers (g : RectangularChunkGrid) (array_indices : List ℕ) : Type 0 where
  pub indices : List ℕ
  pub origin : List ℕ
  pub shape : List ℕ
  pub found : chunk_indices g array_indices ≡ ok (some indices)
  pub in_grid : Inbounds indices g.grid_shape
  pub starts : chunk_origin g indices ≡ ok (some origin)
  pub sizes : chunk_shape g indices ≡ ok (some shape)
  pub between : AllBetween array_indices origin shape
  pub element :
      chunk_element_indices g array_indices ≡ returns (some (zip_with ◌-◌ array_indices origin))

answers :
    (g : RectangularChunkGrid) (array_indices : List ℕ)
    → length g.array_shape ≡ length g.chunks
    → length g.grid_shape ≡ length g.chunks
    → Inbounds array_indices g.array_shape
    → Located array_indices g.chunks g.grid_shape
    → Answers g array_indices
unfolding chunk_indices chunk_origin chunk_shape chunk_element_indices element_from element_of
answers g array_indices e k inside r =
    let filled = nonempty-Inbounds array_indices g.array_shape inside in
    let asked = length-Inbounds array_indices g.array_shape inside ∙ e in
    let replied = length-Inbounds r.indices g.grid_shape r.in_grid ∙ k in
    let found = guarded-eq g array_indices _ asked filled ∙ ap ok r.found in
    let starts = guarded-eq g r.indices _ replied filled ∙ ap ok r.starts in
    record {
      indices = r.indices;
      origin = r.origin;
      shape = r.shape;
      found = found;
      in_grid = r.in_grid;
      starts = starts;
      sizes = guarded-eq g r.indices _ replied filled ∙ ap ok r.sizes;
      between = r.between;
      element =
          ap (element_from g array_indices) found
          ∙ ap (element_of array_indices) starts
          ∙ ap (λ (t : List ℕ). returns (some t)) r.exact;
    }

pub length-collect :
    (ns : List ℕ) (ds : List Dimension) (gs : List ℕ)
    → length ns ≡ length ds
    → collect (zip_with grid_size ns ds) ≡ some gs
    → length gs ≡ length ds
length-collect [] [] gs e h = ap length (sym (some_injective h))
  where
    some_injective : {a b : List ℕ} → some a ≡ some b → a ≡ b
    some_injective h = cc
length-collect [] (d ∷ ds) gs e h = absurd (omega arith)
length-collect (n ∷ ns) [] gs e h = absurd (omega arith)
length-collect (n ∷ ns) (d ∷ ds) gs e h =
    let (q, qs, a, b, same) = collect-cons (grid_size n d) (zip_with grid_size ns ds) gs h in
    ap length (sym same) ∙ ap suc (length-collect ns ds qs (omega arith) b)

-- Where the sizes of every dimension are positive and do not wrap around, and none is an empty list, a
-- grid that `new` builds finds for an index tuple inside the array a chunk of the grid, whose origin
-- and shape enclose the tuple, and `chunk_element_indices` returns its offset from that origin.
pub new-Answers :
    (array_shape : List ℕ) (chunk_shapes : List Configuration) (g : RectangularChunkGrid)
    → AllFitting array_shape chunk_shapes
    → new array_shape chunk_shapes ≡ ok g
    → (array_indices : List ℕ) → Inbounds array_indices array_shape
    → Answers g array_indices
new-Answers array_shape cs g f h array_indices inside =
    let (e, built) = new-build array_shape cs g h in
    let (gs, a, same) = build-ok array_shape cs _ g built in
    let counted : length array_shape ≡ length (map dimension_of cs) =
      e ∙ sym (length-map dimension_of cs) in
    subst (λ (t : RectangularChunkGrid). Answers t array_indices) same
      (answers (record { array_shape = array_shape; chunks = map dimension_of cs; grid_shape = gs })
        array_indices counted (length-collect array_shape (map dimension_of cs) gs counted a) inside
        (all-Located array_indices array_shape cs gs f a inside))
