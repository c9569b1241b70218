-- ===== src/Codec/Transpose/Inverse.antt =====
-- The inverse of an order undoes it (zarrs/src/array/codec/array_to_array/transpose.rs).
use zarrs.Common.{
  ℕ, zero, suc, ◌+◌, ◌<◌, ◌≡◌, ◌≢◌, length-replicate, true, refl, sym, ap, ◌∙◌, arith, Option, some,
  List, [], ◌∷◌, map, ◌==◌, length, replicate, get_elem?, collect, returns, extensional,
}
use zarrs.Codec.Shuffle.Loops.{set_elem-in, get_elem?-in}
use zarrs.Codec.Transpose.{inverse_loop, inverse_permutation, permute}

-- Every axis once, which `TransposeOrder` validates.
pub record IsOrder (order : List ℕ) : Type 0 where
  pub below : (i a : ℕ) → get_elem? order i ≡ some a → a < length order
  pub once : (i j a : ℕ) → get_elem? order i ≡ some a → get_elem? order j ≡ some a → i ≡ j
  pub onto : (a : ℕ) → a < length order → (i : ℕ) × (get_elem? order i ≡ some a)

some-below : (xs : List ℕ) (i a : ℕ) → get_elem? xs i ≡ some a → i < length xs
some-below [] i a h = cc
some-below (x ∷ xs) zero a h = omega arith
some-below (x ∷ xs) (suc i) a h = omega (arith, some-below xs i a h)

collected :
    (v order : List ℕ)
    → ((i a : ℕ) → get_elem? order i ≡ some a → a < length v)
    → (w : List ℕ) × (collect (map (get_elem? v) order) ≡ some w)
      × (length w ≡ length order)
      × ((i a : ℕ) → get_elem? order i ≡ some a → get_elem? w i ≡ get_elem? v a)
collected v [] b = ([], refl, refl, λ i a h. cc)
collected v (o ∷ order) b =
    let (x, e) = get_elem?-in v o (b 0 o refl) in
    let (w, c, l, at) = collected v order (λ i a h. b (suc i) a h) in
    (x ∷ w, rw (e, c) refl, ap suc l, here x w e at)
  where
    here :
        (x : ℕ) (w : List ℕ)
        → get_elem? v o ≡ some x
        → ((i a : ℕ) → get_elem? order i ≡ some a → get_elem? w i ≡ get_elem? v a)
        → (i a : ℕ) → get_elem? (o ∷ order) i ≡ some a
        → get_elem? (x ∷ w) i ≡ get_elem? v a
    here x w e at zero a h = sym e ∙ ap (get_elem? v) (same o a h)
      where
        same : (p q : ℕ) → some p ≡ some q → p ≡ q
        same p q h = cc
    here x w e at (suc i) a h = at i a h

looped :
    (order : List ℕ) (i : ℕ) (out : List ℕ)
    → ((j a : ℕ) → get_elem? order j ≡ some a → a < length out)
    → ((j k a : ℕ) → get_elem? order j ≡ some a → get_elem? order k ≡ some a → j ≡ k)
    → (t : List ℕ) × (inverse_loop order i out ≡ some t)
      × (length t ≡ length out)
      × ((j a : ℕ) → get_elem? order j ≡ some a → get_elem? t a ≡ some (i + j))
      × ((a : ℕ) → ((j : ℕ) → get_elem? order j ≢ some a) → get_elem? t a ≡ get_elem? out a)
unfolding inverse_loop
looped [] i out b once = (out, refl, refl, λ j a h. cc, λ a n. refl)
looped (val ∷ order) i out b once =
    let (u, e, lu, at, other) = set_elem-in out val i (b 0 val refl) in
    let (t, r, lt, found, kept) =
      looped order (suc i) u (λ j a h. omega (arith, lu, b (suc j) a h))
        (λ j k a h g. omega (arith, once (suc j) (suc k) a h g)) in
    (
      t,
      rw e r,
      lt ∙ lu,
      here t u at found kept,
      λ a n. kept a (λ j. n (suc j)) ∙ other a (λ same. n 0 (ap some (sym same))),
    )
  where
    here :
        (t u : List ℕ)
        → get_elem? u val ≡ some i
        → ((j a : ℕ) → get_elem? order j ≡ some a → get_elem? t a ≡ some (suc i + j))
        → ((a : ℕ) → ((j : ℕ) → get_elem? order j ≢ some a) → get_elem? t a ≡ get_elem? u a)
        → (j a : ℕ) → get_elem? (val ∷ order) j ≡ some a
        → get_elem? t a ≡ some (i + j)
    here t u at found kept zero a h =
        let same : val ≡ a = cc in
        ap (get_elem? t) (sym same)
        ∙ kept val (λ j g. absurd_of (once 0 (suc j) val refl g))
        ∙ at
        ∙ ap some (omega arith)
      where
        absurd_of : {j : ℕ} → 0 ≡ suc j → ⊥
        absurd_of h = omega arith
    here t u at found kept (suc j) a h = found j a h ∙ ap some (omega arith)

permuted :
    (v order w : List ℕ)
    → length v ≡ length order
    → collect (map (get_elem? v) order) ≡ some w
    → permute v order ≡ returns (some w)
unfolding permute
permuted v order w l c =
    let same : (length v == length order) ≡ true = ground (arith, l) in rw (same, c) refl

-- A list of places of the axes undoes the order.
undone :
    (order v w t : List ℕ)
    → IsOrder order
    → length v ≡ length order
    → length w ≡ length order
    → length t ≡ length order
    → ((i a : ℕ) → get_elem? order i ≡ some a → get_elem? w i ≡ get_elem? v a)
    → ((i a : ℕ) → get_elem? order i ≡ some a → get_elem? t a ≡ some i)
    → permute w t ≡ returns (some v)
undone order v w t is l lw n at value =
    let small : (a b : ℕ) → get_elem? t a ≡ some b → b < length w = λ a b h.
      let (i, g) = is.onto a (omega (arith, some-below t a b h, n)) in
      omega (arith, some-below order i a g, some_of i b (sym (value i a g)) h, lw) in
    let (x, d, lx, back) = collected w t small in
    let whole : x ≡ v =
      extensional x v (omega (arith, lx, n, l)) (λ k h.
        let (i, g) = is.onto k (omega (arith, h, l)) in back k i (value i k g) ∙ at i k g) in
    permuted w t v (omega (arith, lw, n)) (d ∙ ap some whole)
  where
    some_of : (p q : ℕ) {o : Option ℕ} → some p ≡ o → o ≡ some q → p ≡ q
    some_of p q e h = cc

-- For an order with every axis once, and a list of as many elements: `inverse_permutation` and
-- `permute` return, without a panic, and the list permuted by the order and then by its inverse is the
-- list.
pub permute-inverse_permutation :
    (order v : List ℕ)
    → IsOrder order
    → length v ≡ length order
    → (inverse : List ℕ) × (w : List ℕ) × (inverse_permutation order ≡ some inverse)
      × (permute v order ≡ returns (some w))
      × (permute w inverse ≡ returns (some v))
unfolding inverse_permutation
permute-inverse_permutation order v is l =
    let (w, c, lw, at) = collected v order (λ i a h. omega (arith, is.below i a h, l)) in
    let lz : length (replicate (length order) 0) ≡ length order =
      length-replicate (length order) 0 in
    let (t, r, lt, found, kept) =
      looped order 0 (replicate (length order) 0) (λ j a h. omega (arith, is.below j a h, lz))
        is.once in
    (
      t,
      w,
      r,
      permuted v order w l c,
      undone order v w t is l lw (lt ∙ lz) at (λ i a g. found i a g ∙ ap some (from_zero i)),
    )
  where
    from_zero : (i : ℕ) → 0 + i ≡ i
    from_zero i = omega arith
