-- ===== src/Index/Linear.antt =====
-- The row-major position of a tuple of indices, the meaning that the linear indices of
-- zarrs_chunk_grid/src/lib.rs are held to.
use zarrs.Common.{ℕ, ◌+◌, ◌*◌, ◌<◌, ◌≡◌, refl, List, [], ◌∷◌, arith, product, length}

-- As many indices as dimensions, each below its size.
abbrev pub Inbounds : List ℕ → List ℕ → Type 0
Inbounds [] [] = Unit
Inbounds (i ∷ indices) (s ∷ shape) = (i < s) × Inbounds indices shape
Inbounds _ _ = ⊥

abbrev pub linear : List ℕ → List ℕ → ℕ
linear (i ∷ indices) (s ∷ shape) = i * product shape + linear indices shape
linear _ _ = 0

pub linear-lt-product :
    (indices shape : List ℕ) → Inbounds indices shape → linear indices shape < product shape
linear-lt-product [] [] h = omega arith
linear-lt-product (i ∷ indices) (s ∷ shape) (lt, h) =
    row_major i s (product shape) (linear indices shape) lt (linear-lt-product indices shape h)
  where
    row_major : (i s p l : ℕ) → i < s → l < p → i * p + l < s * p
    row_major i s p l a b = grind arith
linear-lt-product [] (s ∷ shape) h = absurd h
linear-lt-product (i ∷ indices) [] h = absurd h

pub length-Inbounds :
    (indices shape : List ℕ) → Inbounds indices shape → length indices ≡ length shape
length-Inbounds [] [] h = refl
length-Inbounds (i ∷ indices) (s ∷ shape) (lt, h) = omega (arith, length-Inbounds indices shape h)
length-Inbounds [] (s ∷ shape) h = absurd h
length-Inbounds (i ∷ indices) [] h = absurd h
