-- ===== src/Tests/Orders.antt =====
-- Orders of axes (zarrs/src/array/codec/array_to_array/transpose.rs).
use zarrs.Common.{
  ℕ, zero, suc, ◌<◌, ◌≡◌, refl, arith, none, some, List, [], ◌∷◌, get_elem?, returns, panics,
}
use zarrs.Codec.Transpose.{inverse_loop, inverse_permutation, permute}
use zarrs.Codec.Transpose.Inverse.{IsOrder, permute-inverse_permutation}
use zarrs.Codec.Shuffle.{set_elem}

abbrev swapped : List ℕ
swapped = 1 ∷ 0 ∷ []

some_of : (p q : ℕ) → some p ≡ some q → p ≡ q
some_of p q h = cc

swapped-below : (i a : ℕ) → get_elem? swapped i ≡ some a → a < 2
swapped-below zero a h = omega (arith, some_of 1 a h)
swapped-below (suc zero) a h = omega (arith, some_of 0 a h)
swapped-below (suc (suc i)) a h = cc

swapped-once : (i j a : ℕ) → get_elem? swapped i ≡ some a → get_elem? swapped j ≡ some a → i ≡ j
swapped-once zero zero a h g = refl
swapped-once zero (suc zero) a h g = absurd (omega (arith, some_of 1 a h, some_of 0 a g))
swapped-once zero (suc (suc j)) a h g = cc
swapped-once (suc zero) zero a h g = absurd (omega (arith, some_of 0 a h, some_of 1 a g))
swapped-once (suc zero) (suc zero) a h g = refl
swapped-once (suc zero) (suc (suc j)) a h g = cc
swapped-once (suc (suc i)) j a h g = cc

swapped-onto : (a : ℕ) → a < 2 → (i : ℕ) × (get_elem? swapped i ≡ some a)
swapped-onto zero h = (1, refl)
swapped-onto (suc zero) h = (0, refl)
swapped-onto (suc (suc a)) h = absurd (omega arith)

swapped-IsOrder : IsOrder swapped
swapped-IsOrder = record { below = swapped-below; once = swapped-once; onto = swapped-onto }

permute-inverse_permutation_example :
    (inverse : List ℕ) × (w : List ℕ) × (inverse_permutation swapped ≡ some inverse)
    × (permute (7 ∷ 9 ∷ []) swapped ≡ returns (some w))
    × (permute w inverse ≡ returns (some (7 ∷ 9 ∷ [])))
permute-inverse_permutation_example =
    permute-inverse_permutation swapped (7 ∷ 9 ∷ []) swapped-IsOrder refl

cycle :
    (inverse_permutation (1 ∷ 2 ∷ 0 ∷ []) ≡ some (2 ∷ 0 ∷ 1 ∷ []))
    × (permute (7 ∷ 8 ∷ 9 ∷ []) (1 ∷ 2 ∷ 0 ∷ []) ≡ returns (some (8 ∷ 9 ∷ 7 ∷ [])))
    × (permute (7 ∷ []) (1 ∷ 0 ∷ []) ≡ returns none)
    × (permute (7 ∷ []) (1 ∷ []) ≡ panics)
unfolding inverse_permutation inverse_loop set_elem permute
cycle = (refl, refl, refl, refl)
