-- ===== src/Grid/Regular/Region.antt =====
-- `chunks_in_array_subset` (zarrs_chunk_grid/src/lib.rs) on a regular grid: the chunks that meet a
-- region, and no others.
use native.Mathlib.Nat.{le-div_iff_mul-le, div-lt_iff_lt-mul, div-eq_of_lt-le, div-le_self}
use zarrs.Common.{
  ℕ, ◌+◌, ◌-◌, ◌*◌, ◌/◌, ◌<◌, ◌≤◌, ◌≡◌, ◌↔◌, refl, ap, ap₂, sym, ◌∙◌, subst, some, List, [], ◌∷◌,
  map, max, arith, add_u64, sub_u64, u64_mod, length, any, zip_with, zip_with3, zip_all3, ok, leb,
  ◌==◌, true, false, ◌&&◌,
}
use zarrs.Subset.{Range, ArraySubset, contains, covers, end_inc, new_with_ranges, is_empty}
use zarrs.Subset.Valid.{Fits, IsValid, length-zip_with}
use zarrs.Grid.{Answer, chunks_in_array_subset}
use zarrs.Grid.Regular.{RegularChunkGrid, chunk_indices, is_empty_array, to_grid}
use zarrs.Grid.Regular.Rows.{Positive}
use zarrs.Grid.Regular.Partition.{IsRegular}

-- One dimension: the chunks from that of the first index to that of the last.
div_mono : (i j s : ℕ) → 0 < s → i ≤ j → i / s ≤ j / s
div_mono i j s h k =
    (le-div_iff_mul-le h).1
      (omega (arith, (le-div_iff_mul-le {k = s} {x = i / s} {y = i} h).0 (omega arith)))

abbrev meeting : ℕ → ℕ → ℕ → ℕ
meeting c o s = max o (c * s)

-- The index of the region at which a chunk meets it.
chunk_meets :
    (c o l s : ℕ)
    → 0 < s
    → 0 < l
    → o / s ≤ c
    → c ≤ (o + l - 1) / s
    → (o ≤ meeting c o s) × (meeting c o s < o + l) × (meeting c o s / s ≡ c)
chunk_meets c o l s h k lo hi =
    let start = (le-div_iff_mul-le {k = s} {x = c} {y = o + l - 1} h).0 hi in
    let past = (div-lt_iff_lt-mul {k = s} {x = o} {y = c + 1} h).0 (omega arith) in
    (omega arith, omega arith, div-eq_of_lt-le s (omega arith) (omega arith))

-- The ranges that `chunks_in_array_subset` builds, from the chunks of the first and last index.
abbrev box_range : ℕ → ℕ → Range
box_range s e = record { start = s; end = add_u64 e 1 }

abbrev last_of : ℕ → ℕ → ℕ
last_of o l = sub_u64 (add_u64 o l) 1

abbrev starts : List Range → List ℕ
starts ranges = map (λ (r : Range). r.start) ranges

abbrev sizes : List Range → List ℕ
sizes ranges = map (λ (r : Range). r.end - r.start) ranges

abbrev ranges_of : List ℕ → List ℕ → List ℕ → List Range
ranges_of os ls ss =
    zip_with box_range (zip_with ◌/◌ os ss) (zip_with ◌/◌ (zip_with last_of os ls) ss)

box_covers :
    (c o l s : ℕ)
    → 0 < s
    → 0 < l
    → o + l < u64_mod
    → covers c (o / s) (add_u64 (last_of o l / s) 1 - o / s)
      ≡ (leb (o / s) c && leb c ((o + l - 1) / s))
box_covers c o l s h k f = ground (arith, div_mono o (o + l - 1) s h, div-le_self (o + l - 1) s)

index_of_chunk :
    (cs os ls ss : List ℕ)
    → Positive ss
    → Fits os ls
    → length os ≡ length ls
    → length os ≡ length ss
    → length cs ≡ length os
    → any (λ l. l == 0) ls ≡ false
    → zip_all3 covers cs (starts (ranges_of os ls ss)) (sizes (ranges_of os ls ss)) ≡ true
    → (zip_all3 covers (zip_with3 meeting cs os ss) os ls ≡ true)
      × (zip_with ◌/◌ (zip_with3 meeting cs os ss) ss ≡ cs)
      × (length (zip_with3 meeting cs os ss) ≡ length os)
index_of_chunk (c ∷ cs) (o ∷ os) (l ∷ ls) (s ∷ ss) (q, p) (g, f) e d k nz h =
    let (a, b, n) =
      index_of_chunk cs os ls ss p f (omega arith) (omega arith) (omega arith) (ground arith)
        (ground arith) in
    let here = box_covers c o l s q (ground arith) g in
    let (lo, hi, at) =
      chunk_meets c o l s q (ground arith) (ground (arith, here)) (ground (arith, here)) in
    (ground arith, ap₂ ◌∷◌ at b, omega arith)
index_of_chunk [] [] [] [] p f e d k nz h = (refl, refl, refl)
index_of_chunk cs [] (l ∷ ls) ss p f e d k nz h = absurd (omega arith)
index_of_chunk cs [] ls (s ∷ ss) p f e d k nz h = absurd (omega arith)
index_of_chunk (c ∷ cs) [] ls ss p f e d k nz h = absurd (omega arith)
index_of_chunk [] (o ∷ os) ls ss p f e d k nz h = absurd (omega arith)
index_of_chunk cs (o ∷ os) [] ss p f e d k nz h = absurd (omega arith)
index_of_chunk cs (o ∷ os) ls [] p f e d k nz h = absurd (omega arith)

chunk_of_index :
    (is os ls ss : List ℕ)
    → Positive ss
    → Fits os ls
    → length os ≡ length ls
    → length os ≡ length ss
    → length is ≡ length os
    → any (λ l. l == 0) ls ≡ false
    → zip_all3 covers is os ls ≡ true
    → zip_all3 covers
        (zip_with ◌/◌ is ss)
        (starts (ranges_of os ls ss))
        (sizes (ranges_of os ls ss))
      ≡ true
chunk_of_index (i ∷ is) (o ∷ os) (l ∷ ls) (s ∷ ss) (q, p) (g, f) e d k nz h = ground (
  arith,
  chunk_of_index is os ls ss p f,
  box_covers (i / s) o l s q,
  div_mono o i s q,
  div_mono i (o + l - 1) s q,
)
chunk_of_index [] [] [] [] p f e d k nz h = refl
chunk_of_index is [] (l ∷ ls) ss p f e d k nz h = absurd (omega arith)
chunk_of_index is [] ls (s ∷ ss) p f e d k nz h = absurd (omega arith)
chunk_of_index (i ∷ is) [] ls ss p f e d k nz h = absurd (omega arith)
chunk_of_index [] (o ∷ os) ls ss p f e d k nz h = absurd (omega arith)
chunk_of_index is (o ∷ os) [] ss p f e d k nz h = absurd (omega arith)
chunk_of_index is (o ∷ os) ls [] p f e d k nz h = absurd (omega arith)

some_of_ok : {b c : List ℕ} → ◌≡◌ {A = Answer (List ℕ)} (ok (some b)) (ok (some c)) → b ≡ c
some_of_ok e = cc

module _ (g : RegularChunkGrid) (v : IsRegular g) (nonempty : is_empty_array g ≡ false)
    (region : ArraySubset) (w : IsValid region) (f : Fits region.start region.shape)
    (dims : length region.start ≡ length g.chunk_shape) (full : is_empty region ≡ false) where
  indices-eq :
      (is : List ℕ)
      → length is ≡ length g.chunk_shape
      → chunk_indices g is ≡ ok (some (zip_with ◌/◌ is g.chunk_shape))
  unfolding chunk_indices
  indices-eq is e = ground (arith, nonempty, e)

  end-eq : end_inc region ≡ some (zip_with last_of region.start region.shape)
  unfolding end_inc is_empty
  end-eq = ground (arith, full)

  chunks-eq :
      chunks_in_array_subset (to_grid g) region
      ≡ ok (some (new_with_ranges (ranges_of region.start region.shape g.chunk_shape)))
  unfolding chunks_in_array_subset to_grid
  chunks-eq = rw (
    end-eq,
    indices-eq region.start dims,
    indices-eq (zip_with last_of region.start region.shape) (
        length-zip_with last_of region.start region.shape
        ∙ omega (arith, w.same_dimensionality, dims)),
  )

  -- For a region of a regular grid that is valid, not empty, does not wrap around and has the
  -- dimensionality of the grid, whose array is not empty either, and which the region may reach past,
  -- `chunks_in_array_subset` returns a
  -- subset of chunk indices. It contains the chunk indices for which `chunk_indices` returns them at
  -- an index tuple of the region, and no others of that dimensionality.
  pub chunks_in_array_subset_exact :
      (chunks : ArraySubset) × (chunks_in_array_subset (to_grid g) region ≡ ok (some chunks))
      × ((c : List ℕ)
          → length c ≡ length region.start
          → (contains chunks c ≡ true) ↔ (
              (is : List ℕ) × (length is ≡ length region.start)
              × (contains region is ≡ true)
              × (chunk_indices g is ≡ ok (some c))))
  unfolding contains new_with_ranges is_empty
  chunks_in_array_subset_exact = (
    new_with_ranges (ranges_of region.start region.shape g.chunk_shape),
    chunks-eq,
    λ c e. (
      λ h.
          let (a, b, n) =
            index_of_chunk c region.start region.shape g.chunk_shape v.positive f
              w.same_dimensionality dims e full h in
          (
            zip_with3 meeting c region.start g.chunk_shape,
            n,
            a,
            indices-eq _ (n ∙ dims) ∙ ap (λ (t : List ℕ). ok (some t)) b,
          ),
      λ (is, n, a, q).
          let same : zip_with ◌/◌ is g.chunk_shape ≡ c =
            some_of_ok (sym (indices-eq is (n ∙ dims)) ∙ q) in
          subst
            (λ (t : List ℕ).
              contains (new_with_ranges (ranges_of region.start region.shape g.chunk_shape)) t
              ≡ true)
            same
            (chunk_of_index is region.start region.shape g.chunk_shape v.positive f
              w.same_dimensionality dims n full a),
    ),
  )
