-- ===== src/Tests/Indices.antt =====
-- Linear indices of an array of shape 3 by 4 (zarrs_chunk_grid/src/lib.rs).
use zarrs.Common.{ℕ, ◌<◌, ◌≡◌, ◌↔◌, refl, some, List, [], ◌∷◌, arith, product, u64_mod}
use zarrs.Index.{ravel_indices, unravel_index}
use zarrs.Index.Linear.{Inbounds, linear}
use zarrs.Index.Ravel.{ravel_indices-eq_some}
use zarrs.Index.RoundTrip.{ravel_indices-unravel_index, unravel_index-ravel_indices}

abbrev shape : List ℕ
shape = 3 ∷ 4 ∷ []

shape-fits : product shape < u64_mod
shape-fits = omega arith

ravel_7 : ravel_indices (1 ∷ 3 ∷ []) shape ≡ some 7
unfolding ravel_indices
ravel_7 = refl

ravel_indices-eq_some_example :
    (ravel_indices (1 ∷ 3 ∷ []) shape ≡ some 7)
    ↔ (Inbounds (1 ∷ 3 ∷ []) shape × (linear (1 ∷ 3 ∷ []) shape ≡ 7))
ravel_indices-eq_some_example = ravel_indices-eq_some (1 ∷ 3 ∷ []) shape 7 shape-fits refl

unravel_7 : unravel_index 7 shape ≡ some (1 ∷ 3 ∷ [])
unravel_7 = unravel_index-ravel_indices (1 ∷ 3 ∷ []) shape 7 shape-fits refl ravel_7

ravel_indices-unravel_index_example : ravel_indices (1 ∷ 3 ∷ []) shape ≡ some 7
ravel_indices-unravel_index_example = ravel_indices-unravel_index 7 shape (1 ∷ 3 ∷ []) unravel_7
