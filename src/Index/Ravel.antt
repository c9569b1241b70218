-- ===== src/Index/Ravel.antt =====
-- `ravel_indices` (zarrs_chunk_grid/src/lib.rs) computes the row-major position.
use mathlib.Core.Option.{some-injective}
use zarrs.Common.{
  ℕ, ◌%◌, ◌<◌, ◌≡◌, ◌≢◌, ◌↔◌, refl, ap, sym, ◌∙◌, none, some, List, [], ◌∷◌, arith, product, length,
  u64_mod, lt→leb_false, add_u64-mul_u64, mul_u64-mod,
}
use zarrs.Index.{ravel_step, ravel_loop, ravel_indices}
use zarrs.Index.Linear.{Inbounds, linear, linear-lt-product}

ravel_loop-eq :
    (indices shape : List ℕ)
    → Inbounds indices shape
    → ravel_loop indices shape ≡ some (linear indices shape % u64_mod, product shape % u64_mod)
unfolding ravel_loop ravel_step
ravel_loop-eq [] [] h = refl
ravel_loop-eq (i ∷ indices) (s ∷ shape) (lt, h) =
    rw (ravel_loop-eq indices shape h, lt→leb_false s i lt)
      (rw (add_u64-mul_u64 (linear indices shape) i (product shape), mul_u64-mod (product shape) s))
ravel_loop-eq [] (s ∷ shape) h = absurd h
ravel_loop-eq (i ∷ indices) [] h = absurd h

-- A loop that reaches the first dimension has met no index out of bounds.
ravel_loop-Inbounds :
    (indices shape : List ℕ)
    → length indices ≡ length shape
    → ravel_loop indices shape ≢ none
    → Inbounds indices shape
unfolding ravel_loop ravel_step
ravel_loop-Inbounds [] [] e h = tt
ravel_loop-Inbounds (i ∷ indices) (s ∷ shape) e h =
    ground (arith, ravel_loop-Inbounds indices shape)
ravel_loop-Inbounds [] (s ∷ shape) e h = absurd (omega arith)
ravel_loop-Inbounds (i ∷ indices) [] e h = absurd (omega arith)

pub ravel_indices-eq-linear :
    (indices shape : List ℕ)
    → product shape < u64_mod
    → Inbounds indices shape
    → ravel_indices indices shape ≡ some (linear indices shape)
unfolding ravel_indices
ravel_indices-eq-linear indices shape fits h =
    rw (ravel_loop-eq indices shape h) (ap some (omega (arith, linear-lt-product indices shape h)))

pub ravel_indices-Inbounds :
    (indices shape : List ℕ) (k : ℕ)
    → length indices ≡ length shape
    → ravel_indices indices shape ≡ some k
    → Inbounds indices shape
unfolding ravel_indices
ravel_indices-Inbounds indices shape k e h = ravel_loop-Inbounds indices shape e (λ stuck. cc)

-- For an array whose number of elements fits in a word and indices of its dimensionality,
-- `ravel_indices` returns k exactly when every index is below its size and k is the row-major
-- position of the indices.
pub ravel_indices-eq_some :
    (indices shape : List ℕ) (k : ℕ)
    → product shape < u64_mod
    → length indices ≡ length shape
    → (ravel_indices indices shape ≡ some k) ↔ (Inbounds indices shape × (linear indices shape ≡ k))
ravel_indices-eq_some indices shape k fits e = (
  λ r.
      let h = ravel_indices-Inbounds indices shape k e r in
      (h, some-injective _ _ (sym (ravel_indices-eq-linear indices shape fits h) ∙ r)),
  λ (h, at). ravel_indices-eq-linear indices shape fits h ∙ ap some at,
)
