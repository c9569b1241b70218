-- ===== src/Grid/Bounded/Clip.antt =====
-- The chunks of a bounded grid, dimension by dimension (zarrs/src/array/chunk_grid/regular_bounded.rs).
use zarrs.Common.{
  ℕ, ◌+◌, ◌-◌, ◌*◌, ◌/◌, ◌<◌, ◌≤◌, ◌≡◌, refl, ap, min, true, false, some, Option, List, [], ◌∷◌,
  map, ltb, arith, add_u64, u64_mod, div_ceil, length, zip_with, zip_with3, mul_u64-eq-mul, collect,
}
use zarrs.Index.Linear.{Inbounds}
use zarrs.Subset.{Range, covers}
use zarrs.Subset.Valid.{Fits}
use zarrs.Grid.Bounded.{clipped_range, clipped_size, clipped_size_u64, origin_in}
use zarrs.Grid.Regular.{chunk_range}
use zarrs.Grid.Regular.Rows.{Positive, lt-div_ceil}

-- The part of a chunk that lies in the array.
abbrev pub part : ℕ → ℕ → ℕ → Range
part s n c = record { start = c * s; end = min (c * s + s) n }

module _ {ℓ} {A : Type ℓ} (f : ℕ → ℕ → ℕ → Option A) (r : ℕ → ℕ → ℕ → A)
    (in_grid : (s n c : ℕ) → 0 < s → n + s < u64_mod → c * s < n → f s n c ≡ some (r s n c)) where
  -- A query that answers for each dimension of a chunk in the grid answers for the chunk.
  pub collect-some :
      (ss ns cs : List ℕ)
      → Positive ss
      → Fits ns ss
      → length ns ≡ length ss
      → Inbounds cs (zip_with div_ceil ns ss)
      → collect (zip_with3 f ss ns cs) ≡ some (zip_with3 r ss ns cs)
  collect-some [] ns cs p g e b = refl
  collect-some (s ∷ ss) [] cs p g e b = refl
  collect-some (s ∷ ss) (n ∷ ns) [] p g e b = refl
  collect-some (s ∷ ss) (n ∷ ns) (c ∷ cs) (q, p) (k, g) e (d, b) =
      let here = in_grid s n c q k ((lt-div_ceil c n s q).0 d) in
      let rest = collect-some ss ns cs p g (omega arith) b in rw (here, rest)

pub clipped_range-eq :
    (s n c : ℕ) → 0 < s → n + s < u64_mod → c * s < n → clipped_range s n c ≡ some (part s n c)
clipped_range-eq s n c q k d = ground (arith, mul_u64-eq-mul c s)

pub clipped_size-eq :
    (s n c : ℕ)
    → 0 < s
    → n + s < u64_mod
    → c * s < n
    → clipped_size s n c ≡ some (min (c * s + s) n - c * s)
clipped_size-eq s n c q k d = ground (arith, mul_u64-eq-mul c s)

pub clipped_size_u64-eq :
    (s n c : ℕ)
    → 0 < s
    → n + s < u64_mod
    → c * s < n
    → clipped_size_u64 s n c ≡ some (min (c * s + s) n - c * s)
clipped_size_u64-eq s n c q k d = ground (arith, mul_u64-eq-mul c s)

abbrev pub parts : List ℕ → List ℕ → List ℕ → List Range
parts ss ns cs = zip_with3 part ss ns cs

pub part_sizes :
    (ss ns cs : List ℕ)
    → zip_with3 (λ s n c. min (c * s + s) n - c * s) ss ns cs
      ≡ map (λ (r : Range). r.end - r.start) (parts ss ns cs)
part_sizes [] ns cs = refl
part_sizes (s ∷ ss) [] cs = refl
part_sizes (s ∷ ss) (n ∷ ns) [] = refl
part_sizes (s ∷ ss) (n ∷ ns) (c ∷ cs) =
    ap (λ (t : List ℕ). (min (c * s + s) n - c * s) ∷ t) (part_sizes ss ns cs)

origin_in-eq : (s n c : ℕ) → 0 < s → n + s < u64_mod → c * s < n → origin_in c s n ≡ some (c * s)
origin_in-eq s n c q k d = ground (arith, mul_u64-eq-mul c s)

pub collect-origins :
    (ss ns cs : List ℕ)
    → Positive ss
    → Fits ns ss
    → length ns ≡ length ss
    → Inbounds cs (zip_with div_ceil ns ss)
    → collect (zip_with3 origin_in cs ss ns) ≡ some (map (λ (r : Range). r.start) (parts ss ns cs))
collect-origins [] [] [] p g e b = refl
collect-origins [] [] (c ∷ cs) p g e b = absurd b
collect-origins [] (n ∷ ns) cs p g e b = absurd (omega arith)
collect-origins (s ∷ ss) [] cs p g e b = absurd (omega arith)
collect-origins (s ∷ ss) (n ∷ ns) [] p g e b = absurd b
collect-origins (s ∷ ss) (n ∷ ns) (c ∷ cs) (q, p) (k, g) e (d, b) =
    let here = origin_in-eq s n c q k ((lt-div_ceil c n s q).0 d) in
    let rest = collect-origins ss ns cs p g (omega arith) b in rw (here, rest)

-- The start and the end, in one dimension, of the subset that `bound` makes of a regular chunk.
abbrev pub bound_start : ℕ → ℕ → ℕ → ℕ
bound_start s n c = min (chunk_range c s).start n

abbrev pub bound_end : ℕ → ℕ → ℕ → ℕ
bound_end s n c =
    min (add_u64 (chunk_range c s).start ((chunk_range c s).end - (chunk_range c s).start)) n

module _ (s n c : ℕ) (q : 0 < s) (k : n + s < u64_mod) (d : c * s < n) where
  pub bound_start-eq : bound_start s n c ≡ c * s
  bound_start-eq = ground (arith, mul_u64-eq-mul c s)

  pub bound_end-eq : bound_end s n c ≡ min (c * s + s) n
  bound_end-eq = ground (arith, mul_u64-eq-mul c s)

  pub part-ordered : ltb (min (c * s + s) n) (c * s) ≡ false
  part-ordered = ground arith

  pub part_covers :
      (i : ℕ) → covers i (c * s) (min (c * s + s) n - c * s) ≡ true → (c * s ≤ i) × (i < c * s + s)
  part_covers i b = ground arith

pub covers_part :
    (s n i : ℕ)
    → n + s < u64_mod
    → i < n
    → i / s * s ≤ i
    → i < i / s * s + s
    → covers i (i / s * s) (min (i / s * s + s) n - i / s * s) ≡ true
covers_part s n i k l a b = ground arith
