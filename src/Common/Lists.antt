-- ===== src/Common/Lists.antt =====
-- Lists measured by native numbers, and the zipped iterations of the source.
use Prim.Native.Nat.{ℕ, zero, suc, ◌+◌, ◌*◌, ◌%◌, ◌<◌}
use mathlib.Core.Path.{◌≡◌, refl, ap, ap₂, ◌∙◌}
use mathlib.Core.Option.{Option, none, some}
use mathlib.Core.Bool.{Bool, true, false, ◌&&◌, ◌||◌}
use mathlib.Core.List.{List, [], ◌∷◌, ◌++◌}
use native.Mathlib.Omega.{arith}
use zarrs.Common.Words.{mul_u64, mul_u64-mod, u64_mod}

module _ {ℓ} {A : Type ℓ} where
  abbrev pub length : List A → ℕ
  length [] = 0
  length (x ∷ xs) = suc (length xs)

  abbrev pub replicate : ℕ → A → List A
  replicate zero a = []
  replicate (suc n) a = a ∷ replicate n a

  -- iter().any(p)
  abbrev pub any : (A → Bool) → List A → Bool
  any p [] = false
  any p (x ∷ xs) = p x || any p xs

  pub length-append : (xs ys : List A) → length (xs ++ ys) ≡ length xs + length ys
  length-append [] ys = omega arith
  length-append (x ∷ xs) ys = omega (arith, length-append xs ys)

  pub length-replicate : (n : ℕ) (a : A) → length (replicate n a) ≡ n
  length-replicate zero a = refl
  length-replicate (suc n) a = ap suc (length-replicate n a)

module _ {ℓ κ μ} {A : Type ℓ} {B : Type κ} {C : Type μ} where
  -- zip(xs, ys).map(f)
  abbrev pub zip_with : (A → B → C) → List A → List B → List C
  zip_with f [] ys = []
  zip_with f (x ∷ xs) [] = []
  zip_with f (x ∷ xs) (y ∷ ys) = f x y ∷ zip_with f xs ys

module _ {ℓ κ} {A : Type ℓ} {B : Type κ} where
  -- zip(xs, ys).any(p)
  abbrev pub zip_any : (A → B → Bool) → List A → List B → Bool
  zip_any p [] ys = false
  zip_any p (x ∷ xs) [] = false
  zip_any p (x ∷ xs) (y ∷ ys) = p x y || zip_any p xs ys

  -- zip(xs, ys).all(p)
  abbrev pub zip_all : (A → B → Bool) → List A → List B → Bool
  zip_all p [] ys = true
  zip_all p (x ∷ xs) [] = true
  zip_all p (x ∷ xs) (y ∷ ys) = p x y && zip_all p xs ys

-- The product of the numbers of a list, with no bound.
abbrev pub product : List ℕ → ℕ
product [] = 1
product (x ∷ xs) = x * product xs

module _ {ℓ κ μ} {A : Type ℓ} {B : Type κ} {C : Type μ} where
  -- izip!(xs, ys, zs).all(p)
  abbrev pub zip_all3 : (A → B → C → Bool) → List A → List B → List C → Bool
  zip_all3 p [] ys zs = true
  zip_all3 p (x ∷ xs) [] zs = true
  zip_all3 p (x ∷ xs) (y ∷ ys) [] = true
  zip_all3 p (x ∷ xs) (y ∷ ys) (z ∷ zs) = p x y z && zip_all3 p xs ys zs

-- xs.iter().product()
abbrev pub product_from : ℕ → List ℕ → ℕ
product_from acc [] = acc
product_from acc (x ∷ xs) = product_from (mul_u64 acc x) xs

abbrev pub product_u64 : List ℕ → ℕ
product_u64 xs = product_from 1 xs

-- The product of words is the product, modulo 2 ^ 64.
product_from-eq :
    (acc : ℕ) (xs : List ℕ) → product_from (acc % u64_mod) xs ≡ (acc * product xs) % u64_mod
product_from-eq acc [] = omega arith
product_from-eq acc (x ∷ xs) =
    ap (λ (t : ℕ). product_from t xs) (mul_u64-mod acc x)
    ∙ product_from-eq (x * acc) xs
    ∙ omega arith

pub product_u64-eq_product : (xs : List ℕ) → product xs < u64_mod → product_u64 xs ≡ product xs
product_u64-eq_product xs h = product_from-eq 1 xs ∙ omega arith

module _ {ℓ} {A : Type ℓ} where
  -- `xs[i]`, with `none` for the panic beyond the end.
  abbrev pub get_elem? : List A → ℕ → Option A
  get_elem? [] i = none
  get_elem? (x ∷ xs) zero = some x
  get_elem? (x ∷ xs) (suc i) = get_elem? xs i

  -- iter().collect::<Option<Vec<_>>>()
  abbrev pub collect : List (Option A) → Option (List A)
  collect [] = some []
  collect (none ∷ os) = none
  collect (some x ∷ os) = elim (collect os) [ none ↦ none | some xs ↦ some (x ∷ xs) ]

module _ {ℓ κ μ ν} {A : Type ℓ} {B : Type κ} {C : Type μ} {D : Type ν} where
  -- izip!(xs, ys, zs).map(f)
  abbrev pub zip_with3 : (A → B → C → D) → List A → List B → List C → List D
  zip_with3 f [] ys zs = []
  zip_with3 f (x ∷ xs) [] zs = []
  zip_with3 f (x ∷ xs) (y ∷ ys) [] = []
  zip_with3 f (x ∷ xs) (y ∷ ys) (z ∷ zs) = f x y z ∷ zip_with3 f xs ys zs

pub extensional :
    (xs ys : List ℕ)
    → length xs ≡ length ys
    → ((i : ℕ) → i < length ys → get_elem? xs i ≡ get_elem? ys i)
    → xs ≡ ys
extensional [] [] e h = refl
extensional [] (y ∷ ys) e h = absurd (omega arith)
extensional (x ∷ xs) [] e h = absurd (omega arith)
extensional (x ∷ xs) (y ∷ ys) e h =
    ap₂ ◌∷◌ (some_of (h 0 (omega arith)))
      (extensional xs ys (omega arith) (λ i k. h (suc i) (omega arith)))
  where
    some_of : {a b : ℕ} → some a ≡ some b → a ≡ b
    some_of e = cc
