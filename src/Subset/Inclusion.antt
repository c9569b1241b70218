-- ===== src/Subset/Inclusion.antt =====
-- `inbounds` (zarrs_chunk_grid/src/array_subset_traits.rs) is inclusion.
use zarrs.Common.{
  ℕ, ◌+◌, ◌-◌, ◌≡◌, ◌↔◌, refl, List, [], ◌∷◌, arith, length, zip_with, zip_all3, true, false, any,
  ◌==◌,
}
use zarrs.Subset.{ArraySubset, contains, covers, all_within, inbounds, is_empty}
use zarrs.Subset.Valid.{Fits, IsValid}

all_within-contains :
    (is start shape other_start other_shape : List ℕ)
    → length start ≡ length other_start
    → length shape ≡ length other_shape
    → Fits start shape
    → Fits other_start other_shape
    → all_within start shape other_start other_shape ≡ true
    → zip_all3 covers is start shape ≡ true
    → zip_all3 covers is other_start other_shape ≡ true
unfolding all_within
all_within-contains (i ∷ is) (s ∷ start) (l ∷ shape) (o ∷ os) (m ∷ ms) p q (f, fs) (g, gs) w c =
    ground (arith, all_within-contains is start shape os ms)
all_within-contains [] start shape os ms p q f g w c = refl
all_within-contains (i ∷ is) [] shape [] ms p q f g w c = refl
all_within-contains (i ∷ is) [] shape (o ∷ os) ms p q f g w c = absurd (omega arith)
all_within-contains (i ∷ is) (s ∷ start) [] (o ∷ os) [] p q f g w c = refl
all_within-contains (i ∷ is) (s ∷ start) [] [] ms p q f g w c = absurd (omega arith)
all_within-contains (i ∷ is) (s ∷ start) [] os (m ∷ ms) p q f g w c = absurd (omega arith)
all_within-contains (i ∷ is) (s ∷ start) (l ∷ shape) [] ms p q f g w c = absurd (omega arith)
all_within-contains (i ∷ is) (s ∷ start) (l ∷ shape) (o ∷ os) [] p q f g w c = absurd (omega arith)

abbrev last_index : ℕ → ℕ → ℕ
last_index o l = o + l - 1

-- The first and the last index tuple of a box that is not empty.
contains-first :
    (start shape : List ℕ)
    → Fits start shape
    → any (λ l. l == 0) shape ≡ false
    → zip_all3 covers start start shape ≡ true
contains-first [] shape f e = refl
contains-first (s ∷ start) [] f e = refl
contains-first (s ∷ start) (l ∷ shape) (f, fs) e = ground (arith, contains-first start shape fs)

contains-last :
    (start shape : List ℕ)
    → Fits start shape
    → any (λ l. l == 0) shape ≡ false
    → zip_all3 covers (zip_with last_index start shape) start shape ≡ true
contains-last [] shape f e = refl
contains-last (s ∷ start) [] f e = refl
contains-last (s ∷ start) (l ∷ shape) (f, fs) e = ground (arith, contains-last start shape fs)

-- A box whose first and last tuples lie in another lies within it.
all_within_of_ends :
    (start shape os ms : List ℕ)
    → length start ≡ length shape
    → Fits start shape
    → Fits os ms
    → any (λ l. l == 0) shape ≡ false
    → zip_all3 covers start os ms ≡ true
    → zip_all3 covers (zip_with last_index start shape) os ms ≡ true
    → all_within start shape os ms ≡ true
unfolding all_within
all_within_of_ends (s ∷ start) (l ∷ shape) (o ∷ os) (m ∷ ms) v (f, fs) (g, gs) e c d =
    ground (arith, all_within_of_ends start shape os ms)
all_within_of_ends [] shape os ms v f g e c d = refl
all_within_of_ends (s ∷ start) [] os ms v f g e c d = refl
all_within_of_ends (s ∷ start) (l ∷ shape) [] ms v f g e c d = refl
all_within_of_ends (s ∷ start) (l ∷ shape) (o ∷ os) [] v f g e c d = refl

-- For valid subsets of the same dimensionality that do not wrap around, the first not empty,
-- `inbounds` returns true exactly when every index tuple of the first lies in the second.
pub inbounds_iff :
    (s other : ArraySubset)
    → IsValid s
    → IsValid other
    → length s.start ≡ length other.start
    → Fits s.start s.shape
    → Fits other.start other.shape
    → is_empty s ≡ false
    → (inbounds s other ≡ true)
      ↔ ((indices : List ℕ) → contains s indices ≡ true → contains other indices ≡ true)
unfolding inbounds contains is_empty
inbounds_iff s other v w e f g nonempty = (
  λ h indices c.
      all_within-contains indices s.start s.shape other.start other.shape e (omega arith) f g
        (ground arith) c,
  λ h.
      let first = h s.start (contains-first s.start s.shape f nonempty) in
      let last = h _ (contains-last s.start s.shape f nonempty) in
      ground (arith, all_within_of_ends s.start s.shape other.start other.shape),
)
