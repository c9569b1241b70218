-- ===== src/KeyEncoding/Components.antt =====
-- Joined components determine each other, and form a valid key
-- (zarrs/src/array/chunk_key_encoding/default.rs, zarrs_storage/src/store_key.rs).
use zarrs.Common.{
  ℕ, ◌≡◌, refl, sym, ap, ap₂, false, ◌||◌, List, [], ◌∷◌, ◌++◌, arith, any, ◌==◌, Bool,
}
use zarrs.KeyEncoding.{join}

-- No character is the separator.
abbrev pub Without : ℕ → List ℕ → Type 0
Without separator x = any (λ c. c == separator) x ≡ false

abbrev pub AllWithout : ℕ → List (List ℕ) → Type 0
AllWithout separator [] = Unit
AllWithout separator (x ∷ xs) = Without separator x × AllWithout separator xs

cons-injective : (a b : ℕ) (xs ys : List ℕ) → a ∷ xs ≡ b ∷ ys → (a ≡ b) × (xs ≡ ys)
cons-injective a b xs ys e = (cc, cc)

pub or_false : (a b : Bool) → (a || b) ≡ false → (a ≡ false) × (b ≡ false)
or_false a b h = ground arith

-- A component ends where the separator is.
same-component :
    (separator : ℕ) (x y r s : List ℕ)
    → Without separator x
    → Without separator y
    → x ++ separator ∷ r ≡ y ++ separator ∷ s
    → (x ≡ y) × (r ≡ s)
same-component separator [] [] r s p q e = (refl, (cons-injective separator separator r s e).1)
same-component separator [] (d ∷ y) r s p q e =
    let (h, t) = cons-injective separator d r (y ++ separator ∷ s) e in
    absurd (ground (arith, h, or_false (d == separator) _ q))
same-component separator (c ∷ x) [] r s p q e =
    let (h, t) = cons-injective c separator (x ++ separator ∷ r) s e in
    absurd (ground (arith, h, or_false (c == separator) _ p))
same-component separator (c ∷ x) (d ∷ y) r s p q e =
    let (h, t) = cons-injective c d (x ++ separator ∷ r) (y ++ separator ∷ s) e in
    let (a, b) =
      same-component separator x y r s (or_false (c == separator) _ p).1
        (or_false (d == separator) _ q).1 t in
    (ap₂ ◌∷◌ h a, b)

no_separator : (separator : ℕ) (x y s : List ℕ) → Without separator x → ¬ (x ≡ y ++ separator ∷ s)
no_separator separator [] [] s p e = cc
no_separator separator [] (d ∷ y) s p e = cc
no_separator separator (c ∷ x) [] s p e =
    let (h, t) = cons-injective c separator x s e in
    absurd (ground (arith, h, or_false (c == separator) _ p))
no_separator separator (c ∷ x) (d ∷ y) s p e =
    let (h, t) = cons-injective c d x (y ++ separator ∷ s) e in
    no_separator separator x y s (or_false (c == separator) _ p).1 t

-- Components without the separator are determined by what `join` makes of them.
pub join-injective :
    (separator : ℕ) (x y : List ℕ) (xs ys : List (List ℕ))
    → AllWithout separator (x ∷ xs)
    → AllWithout separator (y ∷ ys)
    → join separator (x ∷ xs) ≡ join separator (y ∷ ys)
    → x ∷ xs ≡ y ∷ ys
unfolding join
join-injective separator x y [] [] p q e = ap (λ (t : List ℕ). t ∷ []) e
join-injective separator x y [] (z ∷ ys) (p, ps) q e =
    absurd (no_separator separator x y (join separator (z ∷ ys)) p e)
join-injective separator x y (z ∷ xs) [] p (q, qs) e =
    absurd (no_separator separator y x (join separator (z ∷ xs)) q (sym e))
join-injective separator x y (w ∷ xs) (z ∷ ys) (p, ps) (q, qs) e =
    let (a, b) =
      same-component separator x y (join separator (w ∷ xs)) (join separator (z ∷ ys)) p q e in
    ap₂ ◌∷◌ a (join-injective separator w z xs ys ps qs b)
