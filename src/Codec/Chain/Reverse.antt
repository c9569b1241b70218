-- ===== src/Codec/Chain/Reverse.antt =====
-- The loops over the codecs in reverse and their representations
-- (zarrs/src/array/codec/array_to_bytes/codec_chain.rs).
use mathlib.Core.List.{reverse, reverse-cons}
use zarrs.Common.{
  ℕ, suc, ◌≡◌, refl, ap, ap₂, sym, ◌∙◌, List, [], ◌∷◌, ◌++◌, arith, length, length-append, Outcome,
  and_then, and_then-id, and_then_cong, and_then_assoc, for_zip,
}
use zarrs.Codec.Chain.{skip_one}

length-reverse {ℓ} : {A : Type ℓ} (xs : List A) → length (reverse xs) ≡ length xs
length-reverse [] = refl
length-reverse (x ∷ xs) =
    ap length (reverse-cons x xs)
    ∙ length-append (reverse xs) (x ∷ [])
    ∙ omega (arith, length-reverse xs)

length-skip_one {ℓ} :
    {A : Type ℓ} (xs : List A) (n : ℕ) → length xs ≡ suc n → length (skip_one xs) ≡ n
length-skip_one [] n h = absurd (omega arith)
length-skip_one (x ∷ xs) n h = omega arith

skip_one-append {ℓ} :
    {A : Type ℓ} (xs ys : List A) (n : ℕ)
    → length xs ≡ suc n
    → skip_one (xs ++ ys) ≡ skip_one xs ++ ys
skip_one-append [] ys n h = absurd (omega arith)
skip_one-append (x ∷ xs) ys n h = refl

module _ {ℓ κ μ ν} {A : Type ℓ} {B : Type κ} {S : Type μ} {E : Type ν}
    (f : A → B → S → Outcome S E) where
  for_zip-append :
      (xs : List A) (ys : List B) (x : A) (y : B) (s : S)
      → length xs ≡ length ys
      → for_zip f (xs ++ x ∷ []) (ys ++ y ∷ []) s ≡ and_then (for_zip f xs ys s) (f x y)
  for_zip-append [] [] x y s h = and_then-id (f x y s)
  for_zip-append [] (b ∷ ys) x y s h = absurd (omega arith)
  for_zip-append (a ∷ xs) [] x y s h = absurd (omega arith)
  for_zip-append (a ∷ xs) (b ∷ ys) x y s h =
      and_then_cong (f a b s) _ _ (λ t. for_zip-append xs ys x y t (omega arith))
      ∙ and_then_assoc (f a b s) (for_zip f xs ys) (f x y)

  -- In reverse, the first codec comes last, with the first representation.
  pub for_zip-reverse :
      (x : A) (xs : List A) (y : B) (ys : List B) (s : S)
      → length ys ≡ suc (length xs)
      → for_zip f (reverse (x ∷ xs)) (skip_one (reverse (y ∷ ys))) s
        ≡ and_then (for_zip f (reverse xs) (skip_one (reverse ys)) s) (f x y)
  for_zip-reverse x xs y ys s h =
      let long = length-reverse ys ∙ h in
      ap₂ (λ (u : List A) (v : List B). for_zip f u v s) (reverse-cons x xs)
        (ap skip_one (reverse-cons y ys) ∙ skip_one-append (reverse ys) (y ∷ []) (length xs) long)
      ∙ for_zip-append (reverse xs) (skip_one (reverse ys)) x y s
          (length-reverse xs ∙ sym (length-skip_one (reverse ys) (length xs) long))
