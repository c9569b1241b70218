-- ===== src/Iterator/Contiguous/Runs.antt =====
-- The runs of a subset are its elements
-- (zarrs_chunk_grid/src/iterators/contiguous_indices_iterator.rs).
use zarrs.Common.{
  ℕ, ◌+◌, ◌*◌, ◌<◌, ◌≡◌, refl, subst, inl, inr, false, Bool-cases, List, [], ◌∷◌, arith, ◌==◌, ltb,
  length, zip_any, u64_mod, product, ok, err, Result, any,
}
use zarrs.Index.Linear.{linear}
use zarrs.Index.Unravel.{positive_factors}
use zarrs.Subset.{ArraySubset, new_with_ranges, is_empty, dimensionality, end_exc}
use zarrs.Subset.Valid.{IsValid, Fits}
use zarrs.Iterator.Item.{position}
use zarrs.Iterator.Linearised.{IndexerError}
use zarrs.Iterator.Contiguous.{ContiguousIndices, scan_dimensions, start_ranges, new}
use zarrs.Iterator.Contiguous.Loop.{scan-Runs, scan-shape}

not_empty : (shape : List ℕ) → 0 < product shape → any (λ l. l == 0) shape ≡ false
not_empty [] h = refl
not_empty (l ∷ shape) h =
    let (hl, hp) = positive_factors l (product shape) h in
    let t : (l == 0) ≡ false = ground arith in rw t (not_empty shape hp)

-- What `new` returns for a subset that is not empty.
new-scan :
    (s : ArraySubset) (ns : List ℕ) (c : ContiguousIndices)
    → 0 < product s.shape
    → new s ns ≡ ok c
    → (length s.start ≡ length ns)
      × (◌≡◌ {A = ContiguousIndices}
          (record {
            subset_contiguous_start =
                new_with_ranges
                  (start_ranges s.start (scan_dimensions s.start s.shape ns).shape_out);
            contiguous_elements = (scan_dimensions s.start s.shape ns).elements;
          })
          c)
unfolding new dimensionality is_empty
new-scan s ns c h e = elim (Bool-cases (length s.start == length ns)) [
  | inr q ↦ absurd (refused _ (rw (new, q) at e))
  | inl q ↦ elim (Bool-cases (zip_any (λ end shape. ltb shape end) (end_exc s) ns)) [
    | inl o ↦ absurd (refused _ (rw (new, q, o) at e))
    | inr o ↦
        let full = not_empty s.shape h in (ground arith, returned _ (rw (new, q, o, full) at e))
  ]
]
  where
    refused :
        (r : IndexerError) → ¬ (◌≡◌ {A = Result ContiguousIndices IndexerError} (err r) (ok c))
    refused r e = cc

    returned :
        (d : ContiguousIndices)
        → ◌≡◌ {A = Result ContiguousIndices IndexerError} (ok d) (ok c)
        → d ≡ c
    returned d e = cc

-- For a subset that is not empty, lies in words, and has fewer than 2 ^ 64 elements: the runs of the
-- indices that `new` returns have as many elements as the subset, and element `j` of run `r` is, in the
-- array, the element `j` places after the start of the run.
pub contiguous_runs :
    (s : ArraySubset) (ns : List ℕ) (c : ContiguousIndices)
    → IsValid s
    → Fits s.start s.shape
    → 0 < product s.shape
    → product s.shape < u64_mod
    → new s ns ≡ ok c
    → (product c.subset_contiguous_start.shape * c.contiguous_elements ≡ product s.shape)
      × ((r j : ℕ)
          → j < c.contiguous_elements
          → linear (position s (r * c.contiguous_elements + j)) ns
            ≡ linear (position c.subset_contiguous_start r) ns + j)
unfolding position new_with_ranges
contiguous_runs s ns c v f h b e =
    let (w, same) = new-scan s ns c h e in
    let rs = scan-Runs s.start s.shape ns v.same_dimensionality w f h b in
    let (starts, shapes) = scan-shape s.start s.shape ns v.same_dimensionality w f h in
    subst
      (λ (c : ContiguousIndices).
        (product c.subset_contiguous_start.shape * c.contiguous_elements ≡ product s.shape)
        × ((r j : ℕ)
            → j < c.contiguous_elements
            → linear (position s (r * c.contiguous_elements + j)) ns
              ≡ linear (position c.subset_contiguous_start r) ns + j))
      same (rw (starts, shapes) (rs.size, λ r j k. (rs.run r j k).0))
