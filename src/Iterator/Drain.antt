-- ===== src/Iterator/Drain.antt =====
-- Calling `next` until it ends visits the index tuples of a subset, each once
-- (zarrs_chunk_grid/src/iterators/indices_iterator.rs).
use mathlib.Core.List.{Mem, Nodup}
use native.Mathlib.Decide.{dec_lt}
use zarrs.Common.{
  ℕ, zero, suc, ◌-◌, ◌<◌, ◌≤◌, ◌≡◌, ◌↔◌, subst, sym, true, List, [], ◌∷◌, u64_mod, length, product,
  arith, product_u64-eq_product,
}
use zarrs.Subset.{ArraySubset, contains}
use zarrs.Subset.Valid.{IsValid, Fits}
use zarrs.Iterator.{Indices, Step, yields, ends, next, new}
use zarrs.Iterator.Deque.{
  IsIterable, remaining, next-IsIterable, positions_first, next_more, next_done, remaining_done,
}
use zarrs.Iterator.Cover.{remaining-new}

-- The calls of `next` on an iterator yield these items, and then one ends.
pub data Drains : Indices → List (List ℕ) → Type 0 where
  stop : {it it' : Indices} → next it ≡ (ends, it') → Drains it []
  step :
      {it it' : Indices} {x : List ℕ} {items : List (List ℕ)}
      → next it ≡ (yields x, it')
      → Drains it' items
      → Drains it (x ∷ items)

yielded :
    (n : ℕ) (it : Indices)
    → IsIterable it
    → it.range.start < it.range.end
    → ((u : Indices) → IsIterable u → u.range.end - u.range.start ≤ n → Drains u (remaining u))
    → it.range.end - it.range.start ≤ suc n
    → Drains it (remaining it)
unfolding remaining
yielded n it v h later b =
    let e = next_more it v h in
    let v' = subst (λ (r : Step (List ℕ) × Indices). IsIterable r.1) e (next-IsIterable it v) in
    subst (Drains it) (sym (positions_first it.subset it.range.start it.range.end h))
      (Drains.step e (later _ v' (omega arith)))

remaining-Drains :
    (n : ℕ) (it : Indices)
    → IsIterable it
    → it.range.end - it.range.start ≤ n
    → Drains it (remaining it)
remaining-Drains zero it v b =
    let e : it.range.end ≤ it.range.start = omega arith in
    subst (Drains it) (sym (remaining_done it e)) (Drains.stop (next_done it e))
remaining-Drains (suc n) it v b = elim (dec_lt it.range.start it.range.end) [
  | yes h ↦ yielded n it v h (remaining-Drains n) b
  | no h ↦
      let e : it.range.end ≤ it.range.start = omega arith in
      subst (Drains it) (sym (remaining_done it e)) (Drains.stop (next_done it e))
]

new-IsIterable : (s : ArraySubset) → IsValid s → product s.shape < u64_mod → IsIterable (new s)
unfolding new
new-IsIterable s v b = record {
  same_dimensionality = v.same_dimensionality;
  fits = b;
  bounded = omega (arith, product_u64-eq_product s.shape b);
}

-- For a valid subset that does not wrap around and whose number of elements fits in a word, the calls
-- of `next` on the iterator over its indices yield finitely many items before one ends; no item is
-- yielded twice, and the items are the index tuples, of the dimensionality of the subset, that the
-- subset contains.
pub Drains-new :
    (s : ArraySubset)
    → IsValid s
    → Fits s.start s.shape
    → product s.shape < u64_mod
    → (items : List (List ℕ)) × Drains (new s) items
      × Nodup items
      × ((indices : List ℕ)
          → length indices ≡ length s.start
          → (contains s indices ≡ true) ↔ Mem indices items)
Drains-new s v f b =
    let (once, cover) = remaining-new s v f b in
    (
      remaining (new s),
      remaining-Drains ((new s).range.end - (new s).range.start) (new s) (new-IsIterable s v b)
          (omega arith),
      once,
      cover,
    )
