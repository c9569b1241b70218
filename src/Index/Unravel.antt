-- ===== src/Index/Unravel.antt =====
-- `unravel_index` (zarrs_chunk_grid/src/lib.rs) inverts `ravel_indices`, on the unrolled routines and
-- on the loop.
use native.Mathlib.Nat.{div-add-mod, mul-add-div_right, div-eq_of_lt, mod-lt}
use zarrs.Common.{
  ℕ, zero, suc, ap₂, ◌+◌, ◌*◌, ◌%◌, ◌/◌, ◌<◌, ◌≡◌, refl, ap, sym, ◌∙◌, some, List, [], ◌∷◌, arith,
  product, u64_mod, Option-cases, inl, inr,
}
use zarrs.Index.{unravel_loop, unravel_match, checked_product, unravel_index}
use zarrs.Index.Linear.{Inbounds, linear, linear-lt-product}

-- The part of the index that the dimensions take, and what is left of it for those before them.
unravel_loop-eq :
    (k : ℕ) (shape : List ℕ)
    → linear (unravel_loop k shape).1 shape + product shape * (unravel_loop k shape).0 ≡ k
unfolding unravel_loop
unravel_loop-eq k [] = omega arith
unravel_loop-eq k (s ∷ shape) =
    split s (product shape) (linear (unravel_loop k shape).1 shape) (unravel_loop k shape).0
    ∙ unravel_loop-eq k shape
  where
    split : (s p l r : ℕ) → (r % s) * p + l + s * p * (r / s) ≡ l + p * r
    split s p l r = omega (arith, ap (λ (t : ℕ). p * t) (div-add-mod r s))

pub positive_factors : (s p : ℕ) → 0 < s * p → (0 < s) × (0 < p)
positive_factors zero p h = absurd (omega arith)
positive_factors (suc s) zero h = absurd (omega arith)
positive_factors (suc s) (suc p) h = (omega arith, omega arith)

pub unravel_loop-Inbounds :
    (k : ℕ) (shape : List ℕ) → 0 < product shape → Inbounds (unravel_loop k shape).1 shape
unfolding unravel_loop
unravel_loop-Inbounds k [] h = tt
unravel_loop-Inbounds k (s ∷ shape) h =
    let (hs, hp) = positive_factors s (product shape) h in
    (mod-lt _ hs, unravel_loop-Inbounds k shape hp)

-- Every index that the array has comes out of the first dimension's division as zero.
quotient-eq-zero : (l p r : ℕ) → l + p * r < p → r ≡ 0
quotient-eq-zero l p zero h = refl
quotient-eq-zero l p (suc r) h = absurd (grind arith)

pub linear-unravel_loop :
    (k : ℕ) (shape : List ℕ) → k < product shape → linear (unravel_loop k shape).1 shape ≡ k
linear-unravel_loop k shape h =
    let e = unravel_loop-eq k shape in
    let q =
      quotient-eq-zero (linear (unravel_loop k shape).1 shape) (product shape)
        (unravel_loop k shape).0 (omega arith) in
    omega (arith, ap (λ (t : ℕ). product shape * t) q)

quotient_of : (x p l : ℕ) → l < p → (x * p + l) / p ≡ x
quotient_of x p l h = mul-add-div_right {m = p} (omega arith) x l ∙ omega (arith, div-eq_of_lt h)

digits_injective : (x y p l m : ℕ) → l < p → m < p → x * p + l ≡ y * p + m → (x ≡ y) × (l ≡ m)
digits_injective x y p l m a b e =
    let q : x ≡ y = sym (quotient_of x p l a) ∙ ap (λ (t : ℕ). t / p) e ∙ quotient_of y p m b in
    (q, omega (arith, ap (λ (t : ℕ). t * p) q))

-- Indices are determined by their row-major position.
pub linear-injective :
    (xs ys shape : List ℕ)
    → Inbounds xs shape
    → Inbounds ys shape
    → linear xs shape ≡ linear ys shape
    → xs ≡ ys
linear-injective [] [] [] h k e = refl
linear-injective (x ∷ xs) (y ∷ ys) (s ∷ shape) (hx, h) (hy, k) e =
    let lx = linear-lt-product xs shape h in
    let ly = linear-lt-product ys shape k in
    let (p, q) = digits_injective x y (product shape) (linear xs shape) (linear ys shape) lx ly e in
    ap₂ ◌∷◌ p (linear-injective xs ys shape h k q)
linear-injective [] [] (s ∷ shape) h k e = absurd h
linear-injective [] (y ∷ ys) (s ∷ shape) h k e = absurd h
linear-injective [] (y ∷ ys) [] h k e = absurd k
linear-injective (x ∷ xs) ys [] h k e = absurd h
linear-injective (x ∷ xs) [] (s ∷ shape) h k e = absurd k

unravel_match-eq : (k : ℕ) (shape : List ℕ) → unravel_match k shape ≡ (unravel_loop k shape).1
unfolding unravel_match unravel_loop
unravel_match-eq k [] = refl
unravel_match-eq k (a ∷ []) = refl
unravel_match-eq k (a ∷ b ∷ []) = refl
unravel_match-eq k (a ∷ b ∷ c ∷ []) = refl
unravel_match-eq k (a ∷ b ∷ c ∷ d ∷ []) = refl
unravel_match-eq k (a ∷ b ∷ c ∷ d ∷ e ∷ shape) = refl

checked_product-eq :
    (acc : ℕ) (shape : List ℕ) (t : ℕ)
    → acc < u64_mod
    → checked_product acc shape ≡ some t
    → (t ≡ acc * product shape) × (t < u64_mod)
unfolding checked_product
checked_product-eq acc [] t b h = ground arith
checked_product-eq acc (d ∷ shape) t b h = ground (arith, checked_product-eq (acc * d) shape t)

checked_product-fits :
    (acc : ℕ) (shape : List ℕ)
    → 0 < product shape
    → acc * product shape < u64_mod
    → checked_product acc shape ≡ some (acc * product shape)
unfolding checked_product
checked_product-fits acc [] h f = ap some (omega arith)
checked_product-fits acc (d ∷ shape) h f =
    let (hd, hp) = positive_factors d (product shape) h in
    let fits : acc * d < u64_mod = prefix (acc * d) (product shape) hp (omega arith) in
    ground (arith, checked_product-fits (acc * d) shape hp (omega arith))
  where
    prefix : (a p : ℕ) → 0 < p → a * p < u64_mod → a < u64_mod
    prefix a p hp h = grind arith

-- An index that is unravelled is one of the array, whose number of elements fits in a word.
pub unravel_index-bound :
    (k : ℕ) (shape indices : List ℕ)
    → unravel_index k shape ≡ some indices
    → (k < product shape) × (product shape < u64_mod) × (indices ≡ (unravel_loop k shape).1)
unfolding unravel_index
unravel_index-bound k shape indices h = elim (Option-cases (checked_product 1 shape)) [
  | inl overflows ↦ ground (arith, overflows)
  | inr (t, e) ↦
      let (p, b) = checked_product-eq 1 shape t (omega arith) e in
      ground (arith, e, p, unravel_match-eq k shape)
]

-- Within an array whose number of elements fits in a word, the index is unravelled.
pub unravel_index-eq_loop :
    (k : ℕ) (shape : List ℕ)
    → product shape < u64_mod
    → k < product shape
    → unravel_index k shape ≡ some (unravel_loop k shape).1
unfolding unravel_index
unravel_index-eq_loop k shape fits h =
    let e = checked_product-fits 1 shape (omega arith) (omega arith) in
    ground (arith, e, unravel_match-eq k shape)
