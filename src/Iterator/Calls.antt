-- ===== src/Iterator/Calls.antt =====
-- Calls from both ends of an iterator, in any order (zarrs_chunk_grid/src/iterators/indices_iterator.rs).
use mathlib.Core.List.{append_assoc, append-nil}
use zarrs.Common.{ℕ, ◌≡◌, sym, subst, ◌∙◌, List, [], ◌∷◌, ◌++◌, arith}
use zarrs.Common.{inl, inr}
use zarrs.Iterator.{Indices, Step, yields, next, next_back}
use zarrs.Iterator.Deque.{
  remaining, IsIterable, next-IsIterable, next_back-IsIterable, next-PopsFront, next_back-PopsBack,
}

-- Calls of `next` and `next_back` in any order: the items from the front, those from the back with
-- the last on top, and the iterator after the calls.
pub data Calls (it : Indices) : List (List ℕ) → List (List ℕ) → Indices → Type 0 where
  start : Calls it [] [] it
  front :
      {fs bs : List (List ℕ)} {u : Indices}
      → Calls it fs bs u
      → (x : List ℕ) (u' : Indices) → next u ≡ (yields x, u')
      → Calls it (fs ++ x ∷ []) bs u'
  back :
      {fs bs : List (List ℕ)} {u : Indices}
      → Calls it fs bs u
      → (x : List ℕ) (u' : Indices) → next_back u ≡ (yields x, u')
      → Calls it fs (x ∷ bs) u'

front_step :
    (u u' : Indices) (x : List ℕ)
    → IsIterable u
    → next u ≡ (yields x, u')
    → IsIterable u' × (remaining u ≡ x ∷ remaining u')
front_step u u' x v e = (
  subst (λ (r : Step (List ℕ) × Indices). IsIterable r.1) e (next-IsIterable u v),
  elim (next-PopsFront u v) [
    | inl (y, p, q) ↦ ground (arith, e, p, q)
    | inr (p, q, r) ↦ ground (arith, e, p)
  ],
)

back_step :
    (u u' : Indices) (x : List ℕ)
    → IsIterable u
    → next_back u ≡ (yields x, u')
    → IsIterable u' × (remaining u ≡ remaining u' ++ x ∷ [])
back_step u u' x v e = (
  subst (λ (r : Step (List ℕ) × Indices). IsIterable r.1) e (next_back-IsIterable u v),
  elim (next_back-PopsBack u v) [
    | inl (y, p, q) ↦ ground (arith, e, p, q)
    | inr (p, q, r) ↦ ground (arith, e, p)
  ],
)

-- From an iterator over a valid subset whose number of elements fits in a word, after any calls of
-- `next` and `next_back` that yield items, what remained at first is the items from the front, what
-- remains now, and the items from the back, and the iterator is one of the same kind.
pub remaining-Calls :
    (it : Indices) {fs bs : List (List ℕ)} {u : Indices}
    → IsIterable it
    → Calls it fs bs u
    → IsIterable u × (remaining it ≡ fs ++ (remaining u ++ bs))
remaining-Calls it v start = (v, sym (append-nil (remaining it)))
remaining-Calls it v (front {fs} {bs} {u} c x u' e) =
    let (w, p) = remaining-Calls it v c in
    let (w', q) = front_step u u' x w e in (w', p ∙ rw (q, append_assoc))
remaining-Calls it v (back {fs} {bs} {u} c x u' e) =
    let (w, p) = remaining-Calls it v c in
    let (w', q) = back_step u u' x w e in (w', p ∙ rw (q, append_assoc))
