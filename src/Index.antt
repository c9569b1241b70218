-- ===== src/Index.antt =====
-- Row-major linear indices: `ravel_indices` and `unravel_index`, and the per-dimension routines of
-- `Indices` (zarrs_chunk_grid/src/lib.rs, zarrs_chunk_grid/src/iterators/indices_iterator.rs).
pub mod Linear
pub mod Ravel
pub mod Unravel
pub mod RoundTrip
use zarrs.Common.{
  ℕ, ◌/◌, ◌%◌, Option, none, some, List, [], ◌∷◌, ltb, leb, if◌then◌else◌, add_u64, mul_u64,
  checked_mul_u64,
}

-- The loop over `zip(indices, shape).rev()` with the state (index, count): it starts at the last
-- dimension, so it is a fold from the right. An index out of bounds ends it with `None`.
unfoldable pub ravel_step : Option (ℕ × ℕ) → ℕ → ℕ → Option (ℕ × ℕ)
ravel_step none i s = none
ravel_step (some (index, count)) i s =
    if leb s i then none else some (add_u64 index (mul_u64 i count), mul_u64 count s)

unfoldable pub ravel_loop : List ℕ → List ℕ → Option (ℕ × ℕ)
unfolding ravel_step
ravel_loop [] shape = some (0, 1)
ravel_loop (i ∷ indices) [] = some (0, 1)
ravel_loop (i ∷ indices) (s ∷ shape) = ravel_step (ravel_loop indices shape) i s

unfoldable pub index_of : Option (ℕ × ℕ) → Option ℕ
index_of none = none
index_of (some (index, count)) = some index

unfoldable pub ravel_indices : List ℕ → List ℕ → Option ℕ
unfolding ravel_loop index_of
ravel_indices indices shape = index_of (ravel_loop indices shape)

-- shape.iter().try_fold(acc, |acc, &dim| acc.checked_mul(dim))
checked_product : ℕ → List ℕ → Option ℕ
checked_product acc [] = some acc
checked_product acc (d ∷ shape) = elim (checked_mul_u64 acc d) [
  | none ↦ none
  | some p ↦ checked_product p shape
]

-- The loop of the general routine: from the last dimension to the first, the remainder is written
-- and the index divided. The pair is the index that is left, and what was written.
unfoldable pub unravel_loop : ℕ → List ℕ → ℕ × List ℕ
unravel_loop index [] = (index, [])
unravel_loop index (s ∷ shape) = let (k, out) = unravel_loop index shape in (k / s, k % s ∷ out)

-- The routines unrolled for up to four dimensions, and the loop.
unravel_match : ℕ → List ℕ → List ℕ
unfolding unravel_loop
unravel_match index [] = []
unravel_match index (s0 ∷ []) = index % s0 ∷ []
unravel_match index (s0 ∷ s1 ∷ []) = (index / s1) % s0 ∷ index % s1 ∷ []
unravel_match index (s0 ∷ s1 ∷ s2 ∷ []) =
    (index / s2 / s1) % s0 ∷ (index / s2) % s1 ∷ index % s2 ∷ []
unravel_match index (s0 ∷ s1 ∷ s2 ∷ s3 ∷ []) =
    (index / s3 / s2 / s1) % s0 ∷ (index / s3 / s2) % s1 ∷ (index / s3) % s2 ∷ index % s3 ∷ []
unravel_match index shape = (unravel_loop index shape).1

unfoldable pub unravel_index : ℕ → List ℕ → Option (List ℕ)
unfolding checked_product unravel_match
unravel_index index shape = elim (checked_product 1 shape) [
  | none ↦ none
  | some total ↦ if leb total index then none else some (unravel_match index shape)
]
