-- ===== src/Index/RoundTrip.antt =====
-- `ravel_indices` and `unravel_index` (zarrs_chunk_grid/src/lib.rs) are inverse to one another.
use mathlib.Core.Option.{some-injective}
use zarrs.Common.{ℕ, ◌<◌, ◌≡◌, sym, ◌∙◌, ap, some, List, arith, product, length, u64_mod, subst}
use zarrs.Index.{ravel_indices, unravel_index}
use zarrs.Index.Linear.{linear, linear-lt-product}
use zarrs.Index.Ravel.{ravel_indices-eq-linear, ravel_indices-Inbounds}
use zarrs.Index.Unravel.{
  unravel_loop-Inbounds, linear-unravel_loop, linear-injective, unravel_index-bound,
  unravel_index-eq_loop,
}

-- The indices that `unravel_index` returns for k are ravelled to k, for every k and every shape.
pub ravel_indices-unravel_index :
    (k : ℕ) (shape indices : List ℕ)
    → unravel_index k shape ≡ some indices
    → ravel_indices indices shape ≡ some k
ravel_indices-unravel_index k shape indices h =
    let (lt, fits, e) = unravel_index-bound k shape indices h in
    subst (λ (xs : List ℕ). ravel_indices xs shape ≡ some k) (sym e)
      (ravel_indices-eq-linear _ shape fits (unravel_loop-Inbounds k shape (omega arith))
        ∙ ap some (linear-unravel_loop k shape lt))

-- For an array whose number of elements fits in a word and indices of its dimensionality, what
-- `ravel_indices` returns is unravelled to the same indices.
pub unravel_index-ravel_indices :
    (indices shape : List ℕ) (k : ℕ)
    → product shape < u64_mod
    → length indices ≡ length shape
    → ravel_indices indices shape ≡ some k
    → unravel_index k shape ≡ some indices
unravel_index-ravel_indices indices shape k fits e r =
    let h = ravel_indices-Inbounds indices shape k e r in
    let at : linear indices shape ≡ k =
      some-injective _ _ (sym (ravel_indices-eq-linear indices shape fits h) ∙ r) in
    let lt : k < product shape = omega (arith, linear-lt-product indices shape h, at) in
    unravel_index-eq_loop k shape fits lt
    ∙ ap some (
        linear-injective _ indices shape (unravel_loop-Inbounds k shape (omega arith)) h
          (linear-unravel_loop k shape lt ∙ sym at))
