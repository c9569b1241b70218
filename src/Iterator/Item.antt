-- ===== src/Iterator/Item.antt =====
-- The item at a position: the unrolled routines and the loop of `unravel_index` agree
-- (zarrs_chunk_grid/src/iterators/indices_iterator.rs).
use zarrs.Common.{
  ℕ, suc, ◌/◌, ◌%◌, ◌*◌, ◌<◌, ◌≡◌, refl, ap, ap₂, sym, ◌∙◌, false, List, [], ◌∷◌, ◌==◌, add_u64,
  u64_mod, length, product, zip_with, arith,
}
use zarrs.Index.{unravel_loop}
use zarrs.Index.Unravel.{unravel_index-eq_loop, positive_factors}
use zarrs.Subset.{ArraySubset}
use zarrs.Iterator.{yields, item, add_starts, unravel_index_nd}

-- The k-th index tuple of a subset, in row-major order.
unfoldable pub position : ArraySubset → ℕ → List ℕ
position s k = zip_with add_u64 s.start (unravel_loop k s.shape).1

add_starts-eq :
    (is start : List ℕ) → length is ≡ length start → add_starts is start ≡ zip_with add_u64 start is
unfolding add_starts
add_starts-eq [] [] e = refl
add_starts-eq (i ∷ is) (o ∷ start) e = ap₂ ◌∷◌ (omega arith) (add_starts-eq is start (omega arith))
add_starts-eq [] (o ∷ start) e = absurd (omega arith)
add_starts-eq (i ∷ is) [] e = absurd (omega arith)

length-unravel_loop : (k : ℕ) (shape : List ℕ) → length (unravel_loop k shape).1 ≡ length shape
unfolding unravel_loop
length-unravel_loop k [] = refl
length-unravel_loop k (s ∷ shape) = ap suc (length-unravel_loop k shape)

nonzero : (n : ℕ) → 0 < n → (n == 0) ≡ false
nonzero n h = ground arith

item_1d : (k s0 o0 : ℕ) → 0 < s0 → item k (s0 ∷ []) (o0 ∷ []) ≡ yields (add_u64 o0 (k % s0) ∷ [])
unfolding item
item_1d k s0 o0 h = rw (nonzero s0 h)

item_2d :
    (k s0 s1 o0 o1 : ℕ)
    → 0 < s0
    → 0 < s1
    → item k (s0 ∷ s1 ∷ []) (o0 ∷ o1 ∷ [])
      ≡ yields (add_u64 o0 (k / s1 % s0) ∷ add_u64 o1 (k % s1) ∷ [])
unfolding item
item_2d k s0 s1 o0 o1 h0 h1 = rw (nonzero s0 h0, nonzero s1 h1)

item_3d :
    (k s0 s1 s2 o0 o1 o2 : ℕ)
    → 0 < s0
    → 0 < s1
    → 0 < s2
    → item k (s0 ∷ s1 ∷ s2 ∷ []) (o0 ∷ o1 ∷ o2 ∷ [])
      ≡ yields (add_u64 o0 (k / s2 / s1 % s0) ∷ add_u64 o1 (k / s2 % s1) ∷ add_u64 o2 (k % s2) ∷ [])
unfolding item
item_3d k s0 s1 s2 o0 o1 o2 h0 h1 h2 = rw (nonzero s0 h0, nonzero s1 h1, nonzero s2 h2)

item_4d :
    (k s0 s1 s2 s3 o0 o1 o2 o3 : ℕ)
    → 0 < s0
    → 0 < s1
    → 0 < s2
    → 0 < s3
    → item k (s0 ∷ s1 ∷ s2 ∷ s3 ∷ []) (o0 ∷ o1 ∷ o2 ∷ o3 ∷ [])
      ≡ yields (
          add_u64 o0 (k / s3 / s2 / s1 % s0)
          ∷ add_u64 o1 (k / s3 / s2 % s1)
          ∷ add_u64 o2 (k / s3 % s2)
          ∷ add_u64 o3 (k % s3)
          ∷ [])
unfolding item
item_4d k s0 s1 s2 s3 o0 o1 o2 o3 h0 h1 h2 h3 =
    rw (nonzero s0 h0, nonzero s1 h1, nonzero s2 h2, nonzero s3 h3)

item_nd :
    (k : ℕ) (shape start : List ℕ)
    → length start ≡ length shape
    → product shape < u64_mod
    → k < product shape
    → unravel_index_nd k shape start ≡ yields (zip_with add_u64 start (unravel_loop k shape).1)
unfolding unravel_index_nd
item_nd k shape start v b h =
    rw (unravel_index-eq_loop k shape b h, unravel_index_nd)
      (ap yields (add_starts-eq _ start (length-unravel_loop k shape ∙ sym v)))

-- At a position below the number of elements, the match on the dimensionality yields the unravelled
-- indices moved by the start; it does not panic.
pub item-eq :
    (k : ℕ) (shape start : List ℕ)
    → length start ≡ length shape
    → product shape < u64_mod
    → k < product shape
    → item k shape start ≡ yields (zip_with add_u64 start (unravel_loop k shape).1)
unfolding unravel_loop
item-eq k [] [] v b h = unfold item in refl
item-eq k (s0 ∷ []) (o0 ∷ []) v b h = item_1d k s0 o0 (positive_factors s0 1 (omega arith)).0
item-eq k (s0 ∷ s1 ∷ []) (o0 ∷ o1 ∷ []) v b h =
    let (p0, q0) = positive_factors s0 (s1 * 1) (omega arith) in
    let (p1, _) = positive_factors s1 1 q0 in item_2d k s0 s1 o0 o1 p0 p1
item-eq k (s0 ∷ s1 ∷ s2 ∷ []) (o0 ∷ o1 ∷ o2 ∷ []) v b h =
    let (p0, q0) = positive_factors s0 (s1 * (s2 * 1)) (omega arith) in
    let (p1, q1) = positive_factors s1 (s2 * 1) q0 in
    let (p2, _) = positive_factors s2 1 q1 in item_3d k s0 s1 s2 o0 o1 o2 p0 p1 p2
item-eq k (s0 ∷ s1 ∷ s2 ∷ s3 ∷ []) (o0 ∷ o1 ∷ o2 ∷ o3 ∷ []) v b h =
    let (p0, q0) = positive_factors s0 (s1 * (s2 * (s3 * 1))) (omega arith) in
    let (p1, q1) = positive_factors s1 (s2 * (s3 * 1)) q0 in
    let (p2, q2) = positive_factors s2 (s3 * 1) q1 in
    let (p3, _) = positive_factors s3 1 q2 in item_4d k s0 s1 s2 s3 o0 o1 o2 o3 p0 p1 p2 p3
item-eq k (s0 ∷ s1 ∷ s2 ∷ s3 ∷ s4 ∷ shape) start v b h =
    unfold item in item_nd k (s0 ∷ s1 ∷ s2 ∷ s3 ∷ s4 ∷ shape) start v b h
item-eq k _ start v b h = absurd (omega arith)
