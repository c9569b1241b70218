-- ===== src/Iterator/Deque.antt =====
-- The iterator refines a double-ended list: what remains of it is the list of the positions of its
-- range (zarrs_chunk_grid/src/iterators/indices_iterator.rs).
use zarrs.Common.{
  ℕ, zero, suc, ◌+◌, ◌-◌, ◌<◌, ◌≤◌, ◌≡◌, refl, ap, ap₂, sym, ◌∙◌, List, [], ◌∷◌, ◌++◌, add_u64,
  u64_mod, length, product, arith,
}
use native.Mathlib.Decide.{dec_lt}
use zarrs.Common.{◌⊎◌, inl, inr}
use zarrs.Subset.{ArraySubset}
use zarrs.Iterator.{Indices, Step, yields, ends, next, next_back, split_at, len}
use zarrs.Iterator.Item.{position, item-eq}

-- The positions from a, n of them.
unfoldable pub positions : ArraySubset → ℕ → ℕ → List (List ℕ)
positions s a zero = []
positions s a (suc n) = position s a ∷ positions s (suc a) n

unfoldable pub remaining : Indices → List (List ℕ)
remaining it = positions it.subset it.range.start (it.range.end - it.range.start)

-- A valid subset whose number of elements fits in a word, and a range within it.
pub record IsIterable (it : Indices) : Type 0 where
  pub same_dimensionality : length it.subset.start ≡ length it.subset.shape
  pub fits : product it.subset.shape < u64_mod
  pub bounded : it.range.end ≤ product it.subset.shape

recount : (s : ArraySubset) (a m b n : ℕ) → a ≡ b → m ≡ n → positions s a m ≡ positions s b n
recount s a m b n p q = ap₂ (positions s) p q

positions-snoc :
    (s : ArraySubset) (a n : ℕ) → positions s a (suc n) ≡ positions s a n ++ position s (a + n) ∷ []
unfolding positions
positions-snoc s a zero = ap (λ (k : ℕ). position s k ∷ []) (omega arith)
positions-snoc s a (suc n) =
    ap (λ (l : List (List ℕ)). position s a ∷ l)
      (positions-snoc s (suc a) n
        ∙ ap (λ (k : ℕ). positions s (suc a) n ++ position s k ∷ []) (omega arith))

positions-append :
    (s : ArraySubset) (a m n : ℕ) → positions s a (m + n) ≡ positions s a m ++ positions s (a + m) n
unfolding positions
positions-append s a zero n = recount s a (0 + n) (a + 0) n (omega arith) (omega arith)
positions-append s a (suc m) n =
    recount s a (suc m + n) a (suc (m + n)) refl (omega arith)
    ∙ ap (λ (l : List (List ℕ)). position s a ∷ l)
        (positions-append s (suc a) m n
          ∙ ap (λ (k : ℕ). positions s (suc a) m ++ positions s k n) (omega arith))

pub next-IsIterable : (it : Indices) → IsIterable it → IsIterable (next it).1
unfolding next
next-IsIterable it v = ground arith

pub next_back-IsIterable : (it : Indices) → IsIterable it → IsIterable (next_back it).1
unfolding next_back
next_back-IsIterable it v = ground arith

-- A range that is not empty has a first and a last position.
pub positions_first :
    (s : ArraySubset) (a e : ℕ)
    → a < e
    → positions s a (e - a) ≡ position s a ∷ positions s (a + 1) (e - (a + 1))
unfolding positions
positions_first s a e h =
    recount s a (e - a) a (suc (e - (a + 1))) refl (omega arith)
    ∙ ap (λ (k : ℕ). position s a ∷ positions s k (e - (a + 1))) (omega arith)

positions_last :
    (s : ArraySubset) (a e : ℕ)
    → a < e
    → positions s a (e - a) ≡ positions s a (e - 1 - a) ++ position s (e - 1) ∷ []
positions_last s a e h =
    recount s a (e - a) a (suc (e - 1 - a)) refl (omega arith)
    ∙ positions-snoc s a (e - 1 - a)
    ∙ ap (λ (k : ℕ). positions s a (e - 1 - a) ++ position s k ∷ []) (omega arith)

pub next_more :
    (it : Indices)
    → IsIterable it
    → it.range.start < it.range.end
    → next it ≡ (
      yields (position it.subset it.range.start),
      record it { range = record { start = it.range.start + 1; end = it.range.end } },
    )
unfolding next position
next_more it v h = ground (
  arith,
  item-eq it.range.start it.subset.shape it.subset.start v.same_dimensionality v.fits (omega arith),
)

pub next_done : (it : Indices) → it.range.end ≤ it.range.start → next it ≡ (ends, it)
unfolding next
next_done it h = ground arith

next_back_more :
    (it : Indices)
    → IsIterable it
    → it.range.start < it.range.end
    → next_back it ≡ (
      yields (position it.subset (it.range.end - 1)),
      record it { range = record { start = it.range.start; end = it.range.end - 1 } },
    )
unfolding next_back position
next_back_more it v h = ground (
  arith,
  item-eq (it.range.end - 1) it.subset.shape it.subset.start v.same_dimensionality v.fits
      (omega arith),
)

next_back_done : (it : Indices) → it.range.end ≤ it.range.start → next_back it ≡ (ends, it)
unfolding next_back
next_back_done it h = ground arith

pub remaining_done : (it : Indices) → it.range.end ≤ it.range.start → remaining it ≡ []
unfolding remaining positions
remaining_done it h =
    let a = it.range.start in recount it.subset a (it.range.end - a) a 0 refl (omega arith)

-- A call yields the first item of what remained, and leaves the others; it ends when none remained.
abbrev pub PopsFront : List (List ℕ) → Step (List ℕ) → List (List ℕ) → Type 0
PopsFront before r after =
    ((x : List ℕ) × (r ≡ yields x) × (before ≡ x ∷ after))
    ⊎ ((r ≡ ends) × (before ≡ []) × (after ≡ []))

-- A call yields the last item of what remained, and leaves the others; it ends when none remained.
abbrev pub PopsBack : List (List ℕ) → Step (List ℕ) → List (List ℕ) → Type 0
PopsBack before r after =
    ((x : List ℕ) × (r ≡ yields x) × (before ≡ after ++ x ∷ []))
    ⊎ ((r ≡ ends) × (before ≡ []) × (after ≡ []))

-- `next` takes the first of the remaining items, or ends when there are none.
pub next-PopsFront :
    (it : Indices) → IsIterable it → PopsFront (remaining it) (next it).0 (remaining (next it).1)
next-PopsFront it v = elim (dec_lt it.range.start it.range.end) [
  | yes h ↦
      let e = next_more it v h in
      rw e (
        inl (
          position it.subset it.range.start,
          refl,
          unfold remaining in positions_first it.subset it.range.start it.range.end h,
        ))
  | no h ↦
      let e = next_done it (omega arith) in
      rw e (inr (refl, remaining_done it (omega arith), remaining_done it (omega arith)))
]

-- `next_back` takes the last of the remaining items, or ends when there are none.
pub next_back-PopsBack :
    (it : Indices)
    → IsIterable it
    → PopsBack (remaining it) (next_back it).0 (remaining (next_back it).1)
next_back-PopsBack it v = elim (dec_lt it.range.start it.range.end) [
  | yes h ↦
      let e = next_back_more it v h in
      rw e (
        inl (
          position it.subset (it.range.end - 1),
          refl,
          unfold remaining in positions_last it.subset it.range.start it.range.end h,
        ))
  | no h ↦
      let e = next_back_done it (omega arith) in
      rw e (inr (refl, remaining_done it (omega arith), remaining_done it (omega arith)))
]

-- Where at least n items remain and the range ends below 2 ^ 64, the items that remain are those of the
-- first part of a split at n, followed by those of the second.
pub remaining-split_at :
    (it : Indices) (n : ℕ)
    → it.range.start + n ≤ it.range.end
    → it.range.end < u64_mod
    → remaining it ≡ remaining (split_at it n).0 ++ remaining (split_at it n).1
unfolding split_at remaining
remaining-split_at it n h b =
    let a = it.range.start in
    let e = it.range.end in
    recount it.subset a (e - a) a (n + (e - (a + n))) refl (omega arith)
    ∙ positions-append it.subset a n (e - (a + n))
    ∙ ap₂ ◌++◌ (recount it.subset a n a (add_u64 a n - a) refl (omega arith)) (
        recount it.subset (a + n) (e - (a + n)) (add_u64 a n) (e - add_u64 a n) (omega arith)
          (omega arith))

length-positions : (s : ArraySubset) (a n : ℕ) → length (positions s a n) ≡ n
unfolding positions
length-positions s a zero = refl
length-positions s a (suc n) = ap suc (length-positions s (suc a) n)

pub len-eq-length : (it : Indices) → len it ≡ length (remaining it)
unfolding len remaining
len-eq-length it = sym (length-positions it.subset it.range.start (it.range.end - it.range.start))
