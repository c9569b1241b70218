-- ===== src/Iterator/Cover.antt =====
-- Iterating a subset visits the index tuples that it contains, each once
-- (zarrs_chunk_grid/src/iterators/indices_iterator.rs).
use mathlib.Core.List.{Mem, Memᴰ, Nodup, Pairwise}
use mathlib.Core.Bool.{Bool-set}
use mathlib.Core.Logic.{∥∥₁_elim}
use native.Mathlib.Decide.{dec_lt}
use zarrs.Common.{
  ℕ, zero, suc, ◌+◌, ◌-◌, ◌<◌, ◌≤◌, ◌≡◌, ◌↔◌, refl, ap, ap₂, sym, subst, ◌∙◌, true, List, [], ◌∷◌,
  add_u64, u64_mod, length, product, zip_with, zip_all3, arith, product_u64-eq_product,
}
use zarrs.Index.{unravel_loop}
use zarrs.Index.Linear.{Inbounds, linear, linear-lt-product}
use zarrs.Index.Unravel.{unravel_loop-Inbounds, linear-unravel_loop, linear-injective}
use zarrs.Subset.{ArraySubset, contains, covers}
use zarrs.Subset.Valid.{IsValid, Fits}
use zarrs.Iterator.{new}
use zarrs.Iterator.Item.{position}
use zarrs.Iterator.Deque.{positions, remaining}

-- The digits that a tuple has relative to the start of the box.
abbrev digits : List ℕ → List ℕ → List ℕ
digits indices start = zip_with (λ i o. i - o) indices start

covers-digits :
    (ds start shape : List ℕ)
    → length start ≡ length shape
    → Fits start shape
    → Inbounds ds shape
    → zip_all3 covers (zip_with add_u64 start ds) start shape ≡ true
covers-digits (d ∷ ds) (o ∷ start) (l ∷ shape) v (f, fs) (lt, h) =
    ground (arith, covers-digits ds start shape)
covers-digits [] [] [] v f h = refl
covers-digits ds [] (l ∷ shape) v f h = absurd (omega arith)
covers-digits ds (o ∷ start) [] v f h = absurd (omega arith)
covers-digits [] (o ∷ start) (l ∷ shape) v f h = absurd h
covers-digits (d ∷ ds) [] [] v f h = absurd h

digits-Inbounds :
    (is start shape : List ℕ)
    → length start ≡ length shape
    → length is ≡ length start
    → Fits start shape
    → zip_all3 covers is start shape ≡ true
    → Inbounds (digits is start) shape × (zip_with add_u64 start (digits is start) ≡ is)
digits-Inbounds [] [] [] v e f h = (tt, refl)
digits-Inbounds (i ∷ is) (o ∷ start) (l ∷ shape) v e (f, fs) h =
    let (p, q) = digits-Inbounds is start shape (omega arith) (omega arith) fs (ground arith) in
    ((ground arith, p), ap₂ ◌∷◌ (ground arith) q)
digits-Inbounds is [] (l ∷ shape) v e f h = absurd (omega arith)
digits-Inbounds is (o ∷ start) [] v e f h = absurd (omega arith)
digits-Inbounds [] (o ∷ start) (l ∷ shape) v e f h = absurd (omega arith)
digits-Inbounds (i ∷ is) [] [] v e f h = absurd (omega arith)

digits-add :
    (ds start shape : List ℕ)
    → length start ≡ length shape
    → Fits start shape
    → Inbounds ds shape
    → digits (zip_with add_u64 start ds) start ≡ ds
digits-add (d ∷ ds) (o ∷ start) (l ∷ shape) v (f, fs) (lt, h) =
    ap₂ ◌∷◌ (omega arith) (digits-add ds start shape (omega arith) fs h)
digits-add [] [] [] v f h = refl
digits-add ds [] (l ∷ shape) v f h = absurd (omega arith)
digits-add ds (o ∷ start) [] v f h = absurd (omega arith)
digits-add [] (o ∷ start) (l ∷ shape) v f h = absurd h
digits-add (d ∷ ds) [] [] v f h = absurd h

module _ (s : ArraySubset) (v : IsValid s) (f : Fits s.start s.shape) where
  contains-position : (k : ℕ) → k < product s.shape → contains s (position s k) ≡ true
  unfolding contains position
  contains-position k h =
      covers-digits (unravel_loop k s.shape).1 s.start s.shape v.same_dimensionality f
        (unravel_loop-Inbounds k s.shape (omega arith))

  position-surjective :
      (indices : List ℕ)
      → length indices ≡ length s.start
      → contains s indices ≡ true
      → (k : ℕ) × (k < product s.shape) × (position s k ≡ indices)
  unfolding contains position
  position-surjective indices e h =
      let (p, q) = digits-Inbounds indices s.start s.shape v.same_dimensionality e f h in
      let ds = digits indices s.start in
      let lt = linear-lt-product ds s.shape p in
      (
        linear ds s.shape,
        lt,
        ap (zip_with add_u64 s.start) (
              linear-injective _ ds s.shape (unravel_loop-Inbounds _ s.shape (omega arith)) p
                (linear-unravel_loop _ s.shape lt))
            ∙ q,
      )

  position-injective :
      (j k : ℕ) → j < product s.shape → k < product s.shape → position s j ≡ position s k → j ≡ k
  unfolding position
  position-injective j k hj hk e =
      let ij = unravel_loop-Inbounds j s.shape (omega arith) in
      let ik = unravel_loop-Inbounds k s.shape (omega arith) in
      let dj = digits-add (unravel_loop j s.shape).1 s.start s.shape v.same_dimensionality f ij in
      let dk = digits-add (unravel_loop k s.shape).1 s.start s.shape v.same_dimensionality f ik in
      sym (linear-unravel_loop j s.shape hj)
      ∙ ap (λ (ds : List ℕ). linear ds s.shape)
          (sym dj ∙ ap (λ (xs : List ℕ). digits xs s.start) e ∙ dk)
      ∙ linear-unravel_loop k s.shape hk

Memᴰ-positions :
    (s : ArraySubset) (a n k : ℕ) → a ≤ k → k < a + n → Memᴰ (position s k) (positions s a n)
unfolding positions
Memᴰ-positions s a zero k h b = absurd (omega arith)
Memᴰ-positions s a (suc n) k h b = elim (dec_lt a k) [
  | yes lt ↦ Memᴰ.tail (Memᴰ-positions s (suc a) n k (omega arith) (omega arith))
  | no ge ↦ Memᴰ.head (ap (position s) (omega arith))
]

positions-Memᴰ :
    (s : ArraySubset) (a n : ℕ) (x : List ℕ)
    → Memᴰ x (positions s a n)
    → (k : ℕ) × (a ≤ k) × (k < a + n) × (x ≡ position s k)
unfolding positions
positions-Memᴰ s a zero x m = elim m [ ]
positions-Memᴰ s a (suc n) x (Memᴰ.head e) = (a, omega arith, omega arith, e)
positions-Memᴰ s a (suc n) x (Memᴰ.tail m) =
    let (k, lo, hi, e) = positions-Memᴰ s (suc a) n x m in (k, omega arith, omega arith, e)

positions-Nodup :
    (s : ArraySubset) (v : IsValid s) (f : Fits s.start s.shape) (a n : ℕ)
    → a + n ≤ product s.shape
    → Nodup (positions s a n)
unfolding positions
positions-Nodup s v f a zero h = Pairwise.nil
positions-Nodup s v f a (suc n) h =
    Pairwise.cons
      (λ x m e.
        ∥∥₁_elim m (λ p q. absurd p)
          (λ mᴰ.
            let (k, lo, hi, e') = positions-Memᴰ s (suc a) n x mᴰ in
            let same = position-injective s v f a k (omega arith) (omega arith) (e ∙ e') in
            absurd (omega arith)))
      (positions-Nodup s v f (suc a) n (omega arith))

remaining-positions :
    (s : ArraySubset)
    → product s.shape < u64_mod
    → remaining (new s) ≡ positions s 0 (product s.shape)
unfolding remaining new
remaining-positions s b = ap (positions s 0) (omega (arith, product_u64-eq_product s.shape b))

pub remaining-new :
    (s : ArraySubset)
    → IsValid s
    → Fits s.start s.shape
    → product s.shape < u64_mod
    → Nodup (remaining (new s))
      × ((indices : List ℕ)
          → length indices ≡ length s.start
          → (contains s indices ≡ true) ↔ Mem indices (remaining (new s)))
remaining-new s v f b = rw (remaining-positions s b) (
  positions-Nodup s v f 0 (product s.shape) (omega arith),
  λ indices e. (
    λ h.
        let (k, lt, at) = position-surjective s v f indices e h in
        subst (λ (x : List ℕ). Mem x (positions s 0 (product s.shape))) at
          ∣ Memᴰ-positions s 0 (product s.shape) k (omega arith) (omega arith) ∣₁,
    λ m. ∥∥₁_elim m (Bool-set _ _) (λ mᴰ.
        let (k, lo, hi, at) = positions-Memᴰ s 0 (product s.shape) indices mᴰ in
        subst (λ (x : List ℕ). contains s x ≡ true) (sym at)
          (contains-position s v f k (omega arith))),
  ),
)
