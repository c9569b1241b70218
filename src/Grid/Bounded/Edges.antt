-- ===== src/Grid/Bounded/Edges.antt =====
-- The edge lengths of a bounded grid fill the array (zarrs/src/array/chunk_grid/regular_bounded.rs).
use native.Mathlib.Nat.{suc-mul}
use zarrs.Common.{
  ℕ, zero, suc, ◌+◌, ◌-◌, ◌*◌, ◌<◌, ◌≤◌, ◌≡◌, ap, true, false, sym, ◌∙◌, List, [], ◌∷◌, ◌++◌, some,
  arith, ◌==◌, sub_u64, mul_u64, u64_mod, div_ceil, length, length-append, length-replicate,
  replicate, get_elem?, zip_with, mul_u64-eq-mul, ok, lt→leb_false,
}
use native.Mathlib.Decide.{dec_lt}
use zarrs.Grid.Bounded.{RegularBoundedChunkGrid, edge_list, chunk_edge_lengths}
use zarrs.Subset.Valid.{Fits}
use zarrs.Grid.Bounded.Valid.{IsBounded}
use zarrs.Grid.Regular.Rows.{lt-div_ceil, Positive}

abbrev pub sum : List ℕ → ℕ
sum [] = 0
sum (x ∷ xs) = x + sum xs

sum-replicate_last : (k s l : ℕ) → sum (replicate k s ++ l ∷ []) ≡ k * s + l
sum-replicate_last zero s l = omega arith
sum-replicate_last (suc k) s l = omega (arith, sum-replicate_last k s l)

abbrev pub AllBetween : ℕ → List ℕ → Type 0
AllBetween hi [] = Unit
AllBetween hi (x ∷ xs) = (0 < x) × (x ≤ hi) × AllBetween hi xs

all_between : (k s l : ℕ) → 0 < s → 0 < l → l ≤ s → AllBetween s (replicate k s ++ l ∷ [])
all_between zero s l h a b = (a, b, tt)
all_between (suc k) s l h a b = (h, omega arith, all_between k s l h a b)

last_row : (d n s : ℕ) → 0 < d → ¬ (d * s < n) → n ≤ (d - 1) * s + s
last_row zero n s h k = absurd (omega arith)
last_row (suc d) n s h k = ap_row (omega (arith, suc-mul d s))
  where
    ap_row : n ≤ d * s + s → n ≤ (suc d - 1) * s + s
    ap_row l = grind arith

edge_list_of :
    (n s d : ℕ)
    → 0 < s
    → n < u64_mod
    → 0 < d
    → (d - 1) * s < n
    → n ≤ (d - 1) * s + s
    → (sum (edge_list n s d) ≡ n) × (length (edge_list n s d) ≡ d) × AllBetween s (edge_list n s d)
unfolding edge_list
edge_list_of n s d h f p lo hi =
    let exact = mul_u64-eq-mul (d - 1) s (omega arith) in
    let last = sub_u64 n (mul_u64 (d - 1) s) in
    let full : (n == 0) ≡ false = ground arith in
    rw full (
      sum-replicate_last (d - 1) s last ∙ omega (arith, exact),
      length-append (replicate (d - 1) s) (last ∷ []) ∙ omega (arith, length-replicate (d - 1) s),
      all_between (d - 1) s last h (omega (arith, exact)) (omega (arith, exact)),
    )

edge_list_empty :
    (n s d : ℕ)
    → n ≡ 0
    → d ≡ 0
    → (sum (edge_list n s d) ≡ n) × (length (edge_list n s d) ≡ d) × AllBetween s (edge_list n s d)
unfolding edge_list
edge_list_empty n s d e q =
    let empty : (n == 0) ≡ true = ground arith in rw empty (sym e, sym q, tt)

at_most_zero : (d : ℕ) → ¬ (0 < d) → d ≡ 0
at_most_zero d h = omega arith

edge_list_lem :
    (n s : ℕ)
    → 0 < s
    → n < u64_mod
    → (sum (edge_list n s (div_ceil n s)) ≡ n)
      × (length (edge_list n s (div_ceil n s)) ≡ div_ceil n s)
      × AllBetween s (edge_list n s (div_ceil n s))
edge_list_lem n s h f = elim (dec_lt 0 n) [
  | yes p ↦
      let d = div_ceil n s in
      let q = (lt-div_ceil 0 n s h).1 (omega arith) in
      edge_list_of n s d h f q ((lt-div_ceil (d - 1) n s h).0 (omega arith))
        (last_row d n s q (λ k. absurd (omega (arith, (lt-div_ceil d n s h).1 k))))
  | no e ↦
      edge_list_empty n s (div_ceil n s) (omega arith)
        (at_most_zero (div_ceil n s) (λ k. absurd (omega (arith, (lt-div_ceil 0 n s h).0 k))))
]

get_elem?-zip_with :
    (ns ss : List ℕ) (i n s : ℕ)
    → get_elem? ns i ≡ some n
    → get_elem? ss i ≡ some s
    → get_elem? (zip_with div_ceil ns ss) i ≡ some (div_ceil n s)
get_elem?-zip_with [] ss i n s p q = cc
get_elem?-zip_with (x ∷ ns) [] i n s p q = cc
get_elem?-zip_with (x ∷ ns) (y ∷ ss) zero n s p q = cc
get_elem?-zip_with (x ∷ ns) (y ∷ ss) (suc i) n s p q = get_elem?-zip_with ns ss i n s p q

get_elem?-lt : (xs : List ℕ) (i x : ℕ) → get_elem? xs i ≡ some x → i < length xs
get_elem?-lt [] i x p = cc
get_elem?-lt (y ∷ xs) zero x p = omega arith
get_elem?-lt (y ∷ xs) (suc i) x p = omega (arith, get_elem?-lt xs i x p)

get_elem?-Positive :
    (ns ss : List ℕ) (i n s : ℕ)
    → Positive ss
    → Fits ns ss
    → get_elem? ns i ≡ some n
    → get_elem? ss i ≡ some s
    → (0 < s) × (n + s < u64_mod)
get_elem?-Positive [] ss i n s h f p q = cc
get_elem?-Positive (x ∷ ns) [] i n s h f p q = cc
get_elem?-Positive (x ∷ ns) (y ∷ ss) zero n s (h, k) (f, g) p q = ground arith
get_elem?-Positive (x ∷ ns) (y ∷ ss) (suc i) n s (h, k) (f, g) p q =
    get_elem?-Positive ns ss i n s k g p q

-- In a dimension with n elements and chunks of s, a bounded grid lists as many edge lengths as it has
-- chunks; each is positive and at most s, and they add up to n.
pub chunk_edge_lengths_fill :
    (g : RegularBoundedChunkGrid) (dimension n s : ℕ)
    → IsBounded g
    → get_elem? g.array_shape dimension ≡ some n
    → get_elem? g.chunk_shape dimension ≡ some s
    → (edge_lengths : List ℕ) × (chunk_edge_lengths g dimension ≡ ok (some edge_lengths))
      × (get_elem? g.grid_shape dimension ≡ some (length edge_lengths))
      × AllBetween s edge_lengths
      × (sum edge_lengths ≡ n)
unfolding chunk_edge_lengths
chunk_edge_lengths_fill g dimension n s v en es =
    let (h, f) =
      get_elem?-Positive g.array_shape g.chunk_shape dimension n s v.positive v.fits en es in
    let (total, count, between) = edge_list_lem n s h (omega arith) in
    let chunks : get_elem? g.grid_shape dimension ≡ some (div_ceil n s) =
      ap (λ (t : List ℕ). get_elem? t dimension) v.counted
      ∙ get_elem?-zip_with g.array_shape g.chunk_shape dimension n s en es in
    (
      edge_list n s (div_ceil n s),
      rw (en, es, chunks, lt→leb_false _ _ (get_elem?-lt g.chunk_shape dimension s es)),
      chunks ∙ ap some (sym count),
      between,
      total,
    )
