-- ===== src/Grid/Rectangular/Locate.antt =====
-- A rectangular grid finds the chunk of an index (zarrs/src/array/chunk_grid/rectangular.rs).
use native.Mathlib.Nat.{div-mul-le_self, lt-div-mul-add}
use native.Mathlib.Decide.{dec_lt}
use zarrs.Common.{
  ℕ, suc, ◌+◌, ◌*◌, ◌/◌, ◌<◌, ◌≤◌, ◌≡◌, refl, sym, subst, ap, ◌∙◌, true, false, none, some, List,
  [], ◌∷◌, ltb, leb, ◌==◌, arith, if◌then◌else◌, add_u64, mul_u64-eq-mul, u64_mod, length,
  get_elem?,
}
use zarrs.Grid.Regular.Rows.{chunk_of_lt}
use zarrs.Grid.Rectangular.{
  Configuration, fixed_size, varying_sizes, OffsetSize, Dimension, varying, scan, dimension_of,
  last_from, last_end, grid_size, size_of, origin_of, partition_point, index_of,
}

abbrev pub sum : List ℕ → ℕ
sum [] = 0
sum (s ∷ sizes) = s + sum sizes

abbrev pub AllPositive : List ℕ → Type 0
AllPositive [] = Unit
AllPositive (s ∷ sizes) = (0 < s) × AllPositive sizes

-- The end of the last of the scanned sizes is where they add up to.
last_from-scan :
    (default : OffsetSize) (offset : ℕ) (sizes : List ℕ)
    → default.offset + default.size ≡ offset
    → offset + sum sizes < u64_mod
    → (last_from default (scan offset sizes)).offset + (last_from default (scan offset sizes)).size
      ≡ offset + sum sizes
last_from-scan default offset [] e h = omega arith
last_from-scan default offset (s ∷ sizes) e h =
    let exact : add_u64 offset s ≡ offset + s = omega arith in
    rw exact (
      last_from-scan (record { offset = offset; size = s }) (offset + s) sizes refl (omega arith)
      ∙ omega arith)

pub after-start :
    (index offset : ℕ) (sizes : List ℕ)
    → index < offset
    → partition_point index (scan offset sizes) ≡ 0
after-start index offset [] h = refl
after-start index offset (s ∷ sizes) h =
    let late : leb offset index ≡ false = ground arith in rw late refl

-- The size that holds an index is the one before the partition point.
abbrev pub Found : ℕ → List OffsetSize → Type 0
Found index offsets_sizes =
    (os : OffsetSize) × (k : ℕ) × (partition_point index offsets_sizes ≡ suc k)
    × (k < length offsets_sizes)
    × (get_elem? offsets_sizes k ≡ some os)
    × (os.offset ≤ index)
    × (index < os.offset + os.size)

Found-later :
    (index : ℕ) (first : OffsetSize) (later : List OffsetSize)
    → first.offset ≤ index
    → Found index later
    → Found index (first ∷ later)
Found-later index first later h (os, k, a, b, c, d, e) =
    let started : leb first.offset index ≡ true = ground arith in
    (os, suc k, rw (started, a), omega (arith, b), c, d, e)

Found-first :
    (index : ℕ) (first : OffsetSize) (later : List OffsetSize)
    → first.offset ≤ index
    → index < first.offset + first.size
    → partition_point index later ≡ 0
    → Found index (first ∷ later)
Found-first index first later h k z =
    let started : leb first.offset index ≡ true = ground arith in
    (first, 0, rw (started, z), omega arith, refl, h, k)

located :
    (index offset : ℕ) (sizes : List ℕ)
    → offset ≤ index
    → index < offset + sum sizes
    → offset + sum sizes < u64_mod
    → Found index (scan offset sizes)
located index offset [] lo hi f = absurd (omega arith)
located index offset (s ∷ sizes) lo hi f =
    let exact : add_u64 offset s ≡ offset + s = omega arith in
    let first : OffsetSize = record { offset = offset; size = s } in
    subst (λ (t : ℕ). Found index (first ∷ scan t sizes)) (sym exact)
      (elim (dec_lt index (offset + s)) [
        | yes h ↦
            Found-first index first (scan (offset + s) sizes) lo h
              (after-start index (offset + s) sizes h)
        | no h ↦
            Found-later index first (scan (offset + s) sizes) lo
              (located index (offset + s) sizes (omega arith) (omega arith) (omega arith))
      ])

length-scan : (offset : ℕ) (sizes : List ℕ) → length (scan offset sizes) ≡ length sizes
length-scan offset [] = refl
length-scan offset (s ∷ sizes) = ap suc (length-scan (add_u64 offset s) sizes)

-- One dimension of a grid: of given sizes there is one, and sizes fit in the array.
abbrev pub Fitting : ℕ → Configuration → Type 0
Fitting n (fixed_size s) = (0 < s) × (n + s < u64_mod)
Fitting n (varying_sizes []) = ⊥
Fitting n (varying_sizes (s ∷ sizes)) = s + sum sizes < u64_mod

-- The chunk k of a dimension holds an index at `start`, and is one of the dimension's chunks.
abbrev pub Holds : ℕ → ℕ → Dimension → ℕ → ℕ → ℕ → Type 0
Holds i n d k start size =
    (index_of i d ≡ some k)
    × (origin_of k d ≡ some start)
    × (size_of k d ≡ some size)
    × (start ≤ i)
    × (i < start + size)

pub fit_of : (n m l q : ℕ) → (if n == m then some l else none) ≡ some q → (n ≡ m) × (l ≡ q)
fit_of n m l q h = ground arith

pub last_end-scan :
    (s : ℕ) (sizes : List ℕ)
    → s + sum sizes < u64_mod
    → last_end (scan 0 (s ∷ sizes)) ≡ s + sum sizes
last_end-scan s sizes f =
    let exact : add_u64 0 s ≡ s = omega arith in
    let ended =
      last_from-scan (record { offset = 0; size = s }) (add_u64 0 s) sizes (omega (arith, exact))
        (omega (arith, exact)) in
    omega (arith, ended, exact)

Holds-varying :
    (i n : ℕ) (oss : List OffsetSize)
    → last_end oss ≡ n
    → i < n
    → (found : Found i oss)
    → Holds i n (varying oss) found.1 found.0.offset found.0.size × (found.1 < length oss)
Holds-varying i n oss e lt (os, k, a, b, c, d, h) =
    let inside : ltb i (last_end oss) ≡ true = ground (arith, e) in
    let counted : leb (suc k) (length oss) ≡ true = ground arith in
    ((rw (inside, a, counted) (ap some (omega arith)), rw (origin_of, c), rw (size_of, c), d, h), b)

pub holds :
    (i n q : ℕ) (c : Configuration)
    → Fitting n c
    → grid_size n (dimension_of c) ≡ some q
    → i < n
    → (k : ℕ) × (start : ℕ) × (size : ℕ) × Holds i n (dimension_of c) k start size
      × (k < q)
      × (i < u64_mod)
holds i n q (fixed_size s) (p, f) e lt = (
  i / s,
  i / s * s,
  s,
  (
    refl,
    ap some (mul_u64-eq-mul (i / s) s (omega (arith, div-mul-le_self i s))),
    refl,
    div-mul-le_self i s,
    ground (arith, lt-div-mul-add {a = i} p),
  ),
  subst (λ (t : ℕ). i / s < t) (some_injective e) (chunk_of_lt i n s p lt),
  omega arith,
)
  where
    some_injective : {a b : ℕ} → some a ≡ some b → a ≡ b
    some_injective e = cc
holds i n q (varying_sizes []) f e lt = absurd f
holds i n q (varying_sizes (s ∷ sizes)) f e lt =
    let oss = scan 0 (s ∷ sizes) in
    let whole = last_end-scan s sizes f in
    let (a, b) = fit_of n (last_end oss) (length oss) q e in
    let found = located i 0 (s ∷ sizes) (omega arith) (omega (arith, a, whole)) (omega arith) in
    let (h, k) = Holds-varying i n oss (sym a) lt found in
    (found.1, found.0.offset, found.0.size, h, omega (arith, b, k), omega (arith, a, whole))
