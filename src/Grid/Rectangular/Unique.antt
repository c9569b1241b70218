-- ===== src/Grid/Rectangular/Unique.antt =====
-- The chunks of a rectangular grid are disjoint (zarrs/src/array/chunk_grid/rectangular.rs).
use native.Mathlib.Nat.{div-eq_of_lt-le}
use zarrs.Common.{
  ℕ, zero, suc, ◌+◌, ◌*◌, ◌<◌, ◌≤◌, ◌≡◌, refl, sym, subst, ap, ◌∙◌, true, some, Option, List, [],
  ◌∷◌, map, ltb, leb, arith, add_u64, mul_u64-eq-mul, u64_mod, length, zip_with, get_elem?, collect,
  ok,
}
use zarrs.Index.Linear.{Inbounds, length-Inbounds}
use zarrs.Grid.{Answer}
use zarrs.Grid.Regular.Rows.{lt-div_ceil, nonempty-Inbounds}
use zarrs.Subset.Valid.{length-map}
use zarrs.Grid.Rectangular.{
  Configuration, fixed_size, varying_sizes, OffsetSize, Dimension, varying, RectangularChunkGrid,
  scan, dimension_of, last_end, grid_size, new, size_of, chunk_shape, origin_of, chunk_origin,
  partition_point, index_of, chunk_indices,
}
use zarrs.Grid.Rectangular.Locate.{sum, Fitting, after-start, fit_of}
use zarrs.Grid.Rectangular.Chunk.{
  AllFitting, AllBetween, collect-cons, build-ok, new-build, guarded-eq, length-collect,
}

-- Offsets do not come before the one that they are scanned from.
scan-offset :
    (offset : ℕ) (sizes : List ℕ) (k : ℕ) (os : OffsetSize)
    → offset + sum sizes < u64_mod
    → get_elem? (scan offset sizes) k ≡ some os
    → offset ≤ os.offset
scan-offset offset [] k os h e = cc
scan-offset offset (s ∷ sizes) zero os h e =
    subst (λ (t : OffsetSize). offset ≤ t.offset) (some_injective e) (omega arith)
  where
    some_injective : {a b : OffsetSize} → some a ≡ some b → a ≡ b
    some_injective h = cc
scan-offset offset (s ∷ sizes) (suc k) os h e =
    let exact : add_u64 offset s ≡ offset + s = omega arith in
    omega (arith, exact, scan-offset (add_u64 offset s) sizes k os (omega (arith, exact)) e)

partition_point-only :
    (index offset : ℕ) (sizes : List ℕ) (k : ℕ) (os : OffsetSize)
    → offset + sum sizes < u64_mod
    → get_elem? (scan offset sizes) k ≡ some os
    → os.offset ≤ index
    → index < os.offset + os.size
    → partition_point index (scan offset sizes) ≡ suc k
partition_point-only index offset [] k os h e lo hi = cc
partition_point-only index offset (s ∷ sizes) zero os h e lo hi =
    let exact : add_u64 offset s ≡ offset + s = omega arith in
    let same = some_injective e in
    let started : leb offset index ≡ true =
      ground (arith, ap (λ (t : OffsetSize). t.offset) same) in
    let later = after-start index (add_u64 offset s) sizes (
      omega (
        arith,
        exact,
        ap (λ (t : OffsetSize). t.offset) same,
        ap (λ (t : OffsetSize). t.size) same,
      )) in
    rw (started, later)
  where
    some_injective : {a b : OffsetSize} → some a ≡ some b → a ≡ b
    some_injective h = cc
partition_point-only index offset (s ∷ sizes) (suc k) os h e lo hi =
    let exact : add_u64 offset s ≡ offset + s = omega arith in
    let started : leb offset index ≡ true =
      ground (arith, exact, scan-offset (add_u64 offset s) sizes k os (omega (arith, exact)) e) in
    let later =
      partition_point-only index (add_u64 offset s) sizes k os (omega (arith, exact)) e lo hi in
    rw (started, later)

get_elem?-lt :
    (oss : List OffsetSize) (k : ℕ) (os : OffsetSize) → get_elem? oss k ≡ some os → k < length oss
get_elem?-lt [] k os e = cc
get_elem?-lt (x ∷ oss) zero os e = omega arith
get_elem?-lt (x ∷ oss) (suc k) os e = omega (arith, get_elem?-lt oss k os e)

some_number : {a b : ℕ} → some a ≡ some b → a ≡ b
some_number h = cc

some_list : {a b : List ℕ} → some a ≡ some b → a ≡ b
some_list h = cc

-- The entry behind an origin and a size.
entry_of :
    (oss : List OffsetSize) (k start size : ℕ)
    → origin_of k (varying oss) ≡ some start
    → size_of k (varying oss) ≡ some size
    → (os : OffsetSize) × (get_elem? oss k ≡ some os) × (os.offset ≡ start) × (os.size ≡ size)
entry_of [] k start size o z = cc
entry_of (x ∷ oss) zero start size o z = (x, refl, some_number o, some_number z)
entry_of (x ∷ oss) (suc k) start size o z = entry_of oss k start size o z

index_of-only :
    (i n k : ℕ) (oss : List OffsetSize)
    → last_end oss ≡ n
    → i < n
    → k < length oss
    → partition_point i oss ≡ suc k
    → index_of i (varying oss) ≡ some k
index_of-only i n k oss e lt b a =
    let inside : ltb i (last_end oss) ≡ true = ground (arith, e) in
    let counted : leb (suc k) (length oss) ≡ true = ground arith in
    rw (inside, a, counted) (ap some (omega arith))

-- The chunk of a dimension that encloses an index is the one that the lookup finds.
only :
    (i n q k start size : ℕ) (c : Configuration)
    → Fitting n c
    → grid_size n (dimension_of c) ≡ some q
    → i < n
    → k < q
    → origin_of k (dimension_of c) ≡ some start
    → size_of k (dimension_of c) ≡ some size
    → start ≤ i
    → i < start + size
    → index_of i (dimension_of c) ≡ some k
only i n q k start size (fixed_size s) (p, f) e lt b o z lo hi =
    let b' = subst (λ (t : ℕ). k < t) (sym (some_number e)) b in
    let inside = (lt-div_ceil k n s p).0 b' in
    let from : k * s ≡ start = sym (mul_u64-eq-mul k s (omega arith)) ∙ some_number o in
    let same : s ≡ size = some_number z in
    ap some (div-eq_of_lt-le s (omega (arith, from)) (ground (arith, from, same)))
only i n q k start size (varying_sizes []) f e lt b o z lo hi = absurd f
only i n q k start size (varying_sizes (s ∷ sizes)) f e lt b o z lo hi =
    let oss = scan 0 (s ∷ sizes) in
    let (os, at, x, y) = entry_of oss k start size o z in
    let whole = fit_of n (last_end oss) (length oss) q e in
    index_of-only i n k oss (sym whole.0) lt (get_elem?-lt oss k os at) (
      partition_point-only i 0 (s ∷ sizes) k os (omega arith) at (omega (arith, x))
        (omega (arith, x, y)))

all_only :
    (is ns ks origin shape : List ℕ) (cs : List Configuration) (gs : List ℕ)
    → AllFitting ns cs
    → collect (zip_with grid_size ns (map dimension_of cs)) ≡ some gs
    → Inbounds is ns
    → Inbounds ks gs
    → collect (zip_with origin_of ks (map dimension_of cs)) ≡ some origin
    → collect (zip_with size_of ks (map dimension_of cs)) ≡ some shape
    → AllBetween is origin shape
    → collect (zip_with index_of is (map dimension_of cs)) ≡ some ks
all_only [] [] [] origin shape [] gs f e h b o z w = refl
all_only [] [] (k ∷ ks) origin shape [] gs f e h b o z w =
    absurd (subst (Inbounds (k ∷ ks)) (sym (some_list e)) b)
all_only [] [] ks origin shape (c ∷ cs) gs f e h b o z w = absurd f
all_only [] (n ∷ ns) ks origin shape cs gs f e h b o z w = absurd h
all_only (i ∷ is) [] ks origin shape cs gs f e h b o z w = absurd h
all_only (i ∷ is) (n ∷ ns) ks origin shape [] gs f e h b o z w = absurd f
all_only (i ∷ is) (n ∷ ns) [] origin shape (c ∷ cs) gs f e h b o z w =
    let (q, qs, a, d, same) =
      collect-cons (grid_size n (dimension_of c)) (zip_with grid_size ns (map dimension_of cs)) gs
        e in
    absurd (subst (Inbounds []) (sym same) b)
all_only (i ∷ is) (n ∷ ns) (k ∷ ks) origin shape (c ∷ cs) gs (f, fs) e (lt, h) b o z w =
    let ds = map dimension_of cs in
    let (q, qs, a, d, same) =
      collect-cons (grid_size n (dimension_of c)) (zip_with grid_size ns ds) gs e in
    let (start, starts, o1, o2, o3) =
      collect-cons (origin_of k (dimension_of c)) (zip_with origin_of ks ds) origin o in
    let (size, sizes, z1, z2, z3) =
      collect-cons (size_of k (dimension_of c)) (zip_with size_of ks ds) shape z in
    let (b1, b2) : (k < q) × Inbounds ks qs = subst (Inbounds (k ∷ ks)) (sym same) b in
    let (lo, hi, w') : (start ≤ i) × (i < start + size) × AllBetween is starts sizes =
      subst (AllBetween (i ∷ is) (start ∷ starts)) (sym z3)
        (subst (λ (t : List ℕ). AllBetween (i ∷ is) t shape) (sym o3) w) in
    let here = only i n q k start size c f a lt b1 o1 z1 lo hi in
    let rest = all_only is ns ks starts sizes cs qs fs d h b2 o2 z2 w' in rw (here, rest)

answer_of : {a b : Option (List ℕ)} → ◌≡◌ {A = Answer (List ℕ)} (ok a) (ok b) → a ≡ b
answer_of h = cc

only_chunk :
    (g : RectangularChunkGrid) (cs : List Configuration) (is other origin shape : List ℕ)
    → g.chunks ≡ map dimension_of cs
    → length g.array_shape ≡ length g.chunks
    → AllFitting g.array_shape cs
    → collect (zip_with grid_size g.array_shape (map dimension_of cs)) ≡ some g.grid_shape
    → length g.grid_shape ≡ length g.chunks
    → Inbounds is g.array_shape
    → Inbounds other g.grid_shape
    → chunk_origin g other ≡ ok (some origin)
    → chunk_shape g other ≡ ok (some shape)
    → AllBetween is origin shape
    → chunk_indices g is ≡ ok (some other)
unfolding chunk_origin chunk_shape chunk_indices
only_chunk g cs is other origin shape made e f a counted inside b o z w =
    let filled = nonempty-Inbounds is g.array_shape inside in
    let asked = length-Inbounds is g.array_shape inside ∙ e in
    let known = length-Inbounds other g.grid_shape b ∙ counted in
    let starts =
      answer_of
        (sym (guarded-eq g other (collect (zip_with origin_of other g.chunks)) known filled) ∙ o) in
    let sizes =
      answer_of
        (sym (guarded-eq g other (collect (zip_with size_of other g.chunks)) known filled) ∙ z) in
    guarded-eq g is (collect (zip_with index_of is g.chunks)) asked filled
    ∙ ap ok (
        ap (λ (t : List Dimension). collect (zip_with index_of is t)) made
        ∙ all_only is g.array_shape other origin shape cs g.grid_shape f a inside b
            (ap (λ (t : List Dimension). collect (zip_with origin_of other t)) (sym made) ∙ starts)
            (ap (λ (t : List Dimension). collect (zip_with size_of other t)) (sym made) ∙ sizes) w)

-- Where the sizes of every dimension are positive and do not wrap around, and none is an empty list, a
-- chunk of a grid that `new` builds, whose origin and shape enclose an index tuple inside the array, is
-- the chunk that `chunk_indices` returns for the tuple.
pub chunk_indices-only :
    (array_shape : List ℕ) (chunk_shapes : List Configuration) (g : RectangularChunkGrid)
    → AllFitting array_shape chunk_shapes
    → new array_shape chunk_shapes ≡ ok g
    → (array_indices other origin shape : List ℕ) → Inbounds array_indices array_shape
    → Inbounds other g.grid_shape
    → chunk_origin g other ≡ ok (some origin)
    → chunk_shape g other ≡ ok (some shape)
    → AllBetween array_indices origin shape
    → chunk_indices g array_indices ≡ ok (some other)
chunk_indices-only array_shape cs g f h is other origin shape inside b o z w =
    let (e, built) = new-build array_shape cs g h in
    let (gs, a, same) = build-ok array_shape cs _ g built in
    let counted : length array_shape ≡ length (map dimension_of cs) =
      e ∙ sym (length-map dimension_of cs) in
    let chunks : g.chunks ≡ map dimension_of cs =
      ap (λ (t : RectangularChunkGrid). t.chunks) (sym same) in
    let shaped : array_shape ≡ g.array_shape =
      ap (λ (t : RectangularChunkGrid). t.array_shape) same in
    let gridded : gs ≡ g.grid_shape = ap (λ (t : RectangularChunkGrid). t.grid_shape) same in
    let total = length-collect array_shape (map dimension_of cs) gs counted a in
    only_chunk g cs is other origin shape chunks
      (ap length (sym shaped) ∙ counted ∙ ap length (sym chunks))
      (subst (λ (t : List ℕ). AllFitting t cs) shaped f)
      (ap (λ (t : List ℕ). collect (zip_with grid_size t (map dimension_of cs))) (sym shaped)
        ∙ a
        ∙ ap some gridded)
      (ap length (sym gridded) ∙ total ∙ ap length (sym chunks)) (subst (Inbounds is) shaped inside)
      b o z w
