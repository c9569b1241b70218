-- ===== src/Iterator/Linearised/Positions.antt =====
-- What the linearised iterator yields (zarrs_chunk_grid/src/iterators/linearised_indices_iterator.rs).
use zarrs.Common.{
  ℕ, suc, ◌+◌, ◌-◌, ◌<◌, ◌≤◌, ◌≡◌, subst, true, false, Bool, List, [], ◌∷◌, arith, ltb, leb, ◌||◌,
  add_u64, u64_mod, length, product, zip_with, zip_any, ok,
}
use zarrs.Index.Linear.{Inbounds, linear}
use zarrs.Index.Ravel.{ravel_indices-eq-linear}
use zarrs.Index.Unravel.{unravel_loop-Inbounds}
use zarrs.Index.{unravel_loop}
use zarrs.Subset.{ArraySubset, end_exc, dimensionality}
use zarrs.Subset.Valid.{IsValid, Fits}
use zarrs.Iterator.{Indices, Step, yields, item}
use zarrs.Iterator as Inner
use zarrs.Iterator.Item.{position, item-eq}
use zarrs.Iterator.Linearised.{
  LinearisedIndices, LinearisedIndicesIterator, new, next, next_back, ravel,
}

-- In every dimension the subset ends within the array.
abbrev Inside : List ℕ → List ℕ → List ℕ → Type 0
Inside (o ∷ start) (l ∷ shape) (n ∷ ns) = (o + l ≤ n) × Inside start shape ns
Inside _ _ _ = Unit

Inside-of :
    (start shape ns : List ℕ)
    → Fits start shape
    → zip_any (λ end bound. ltb bound end) (zip_with add_u64 start shape) ns ≡ false
    → Inside start shape ns
Inside-of [] shape ns f h = tt
Inside-of (o ∷ start) [] ns f h = tt
Inside-of (o ∷ start) (l ∷ shape) [] f h = tt
Inside-of (o ∷ start) (l ∷ shape) (n ∷ ns) (f, g) h =
    let (a, b) : (ltb n (add_u64 o l) ≡ false)
        × (zip_any (λ end bound. ltb bound end) (zip_with add_u64 start shape) ns ≡ false) =
      or_false _ _ h in
    (ground arith, Inside-of start shape ns g b)
  where
    or_false : (a b : Bool) → (a || b) ≡ false → (a ≡ false) × (b ≡ false)
    or_false a b h = ground arith

shifted-Inbounds :
    (is start shape ns : List ℕ)
    → length start ≡ length shape
    → length start ≡ length ns
    → Fits start shape
    → Inside start shape ns
    → Inbounds is shape
    → Inbounds (zip_with add_u64 start is) ns
shifted-Inbounds is [] [] [] v e f w h = tt
shifted-Inbounds is [] [] (n ∷ ns) v e f w h = absurd (omega arith)
shifted-Inbounds is [] (l ∷ shape) ns v e f w h = absurd (omega arith)
shifted-Inbounds is (o ∷ start) [] ns v e f w h = absurd (omega arith)
shifted-Inbounds is (o ∷ start) (l ∷ shape) [] v e f w h = absurd (omega arith)
shifted-Inbounds [] (o ∷ start) (l ∷ shape) (n ∷ ns) v e f w h = absurd h
shifted-Inbounds (i ∷ is) (o ∷ start) (l ∷ shape) (n ∷ ns) v e (f, g) (w, ws) (lt, h) =
    (omega arith, shifted-Inbounds is start shape ns (omega arith) (omega arith) g ws h)

-- A state of the iterator.
abbrev pub at : LinearisedIndices → ℕ → ℕ → LinearisedIndicesIterator
at l a e = record {
  inner = record { subset = l.subset; range = record { start = a; end = e } };
  array_shape = l.array_shape;
}

new_fields :
    (s : ArraySubset) (ns : List ℕ) (l : LinearisedIndices)
    → new s ns ≡ ok l
    → (length s.start ≡ length ns)
      × (zip_any (λ end bound. ltb bound end) (zip_with add_u64 s.start s.shape) ns ≡ false)
      × (◌≡◌ {A = LinearisedIndices} (record { subset = s; array_shape = ns }) l)
unfolding new dimensionality end_exc
new_fields s ns l h = ground arith

module _ (s : ArraySubset) (ns : List ℕ) (v : IsValid s) (f : Fits s.start s.shape)
    (b : product s.shape < u64_mod) (w : product ns < u64_mod) where
  ravel-position :
      (k : ℕ)
      → length s.start ≡ length ns
      → Inside s.start s.shape ns
      → k < product s.shape
      → ravel ns (item k s.shape s.start) ≡ yields (linear (position s k) ns)
  unfolding ravel position
  ravel-position k e inside h =
      let yielded = item-eq k s.shape s.start v.same_dimensionality b h in
      let row =
        shifted-Inbounds (unravel_loop k s.shape).1 s.start s.shape ns v.same_dimensionality e f
          inside (unravel_loop-Inbounds k s.shape (omega arith)) in
      let raveled =
        ravel_indices-eq-linear (zip_with add_u64 s.start (unravel_loop k s.shape).1) ns w row in
      rw (yielded, ravel, raveled)

  -- For a valid subset that does not wrap around and a shape that `new` accepts, both with fewer
  -- than 2 ^ 64 elements, at any range of positions of the subset that is not empty, `next` yields
  -- the row-major position in the array of the first element of the range, and `next_back` that of
  -- the last, and both leave the rest; they do not panic.
  pub next-linear :
      (l : LinearisedIndices)
      → new s ns ≡ ok l
      → (a e : ℕ) → a < e
      → e ≤ product s.shape
      → (next (at l a e) ≡ (yields (linear (position s a) ns), at l (suc a) e))
        × (next_back (at l a e) ≡ (yields (linear (position s (e - 1)) ns), at l a (e - 1)))
  unfolding next next_back Inner.next Inner.next_back
  next-linear l h a e lt hi =
      let (k, z, same) = new_fields s ns l h in
      let inside = Inside-of s.start s.shape ns f z in
      let front = ravel-position a k inside (omega arith) in
      let back = ravel-position (e - 1) k inside (omega arith) in
      let more : leb e a ≡ false = ground arith in
      let some_left : ltb a e ≡ true = ground arith in
      let exact : add_u64 a 1 ≡ suc a = omega arith in
      subst
        (λ (l : LinearisedIndices).
          (next (at l a e) ≡ (yields (linear (position s a) ns), at l (suc a) e))
          × (next_back (at l a e) ≡ (yields (linear (position s (e - 1)) ns), at l a (e - 1))))
        same
        (
          rw (next, Inner.next, more, front, exact),
          rw (next_back, Inner.next_back, some_left, back),
        )
