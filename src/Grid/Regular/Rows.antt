-- ===== src/Grid/Regular/Rows.antt =====
-- The chunks of a regular grid, dimension by dimension (zarrs/src/array/chunk_grid/regular.rs).
use native.Mathlib.Nat.{div-mul-le_self, lt-div-mul-add, mod-lt, div-add-mod', div-eq_of_lt-le}
use zarrs.Common.{
  ℕ, ◌+◌, ◌-◌, ◌*◌, ◌/◌, ◌%◌, ◌<◌, ◌≤◌, ◌≡◌, ◌↔◌, refl, ap₂, sym, true, false, List, [], ◌∷◌, map,
  ◌==◌, arith, add_u64, mul_u64, u64_mod, div_ceil, length, any, zip_with, zip_all3, mul_u64-eq-mul,
}
use zarrs.Index.Linear.{Inbounds}
use zarrs.Subset.{Range, covers}
use zarrs.Subset.Valid.{Fits}
use zarrs.Grid.Regular.{chunk_range}

-- The chunk shape is of `NonZeroU64`.
abbrev pub Positive : List ℕ → Type 0
Positive [] = Unit
Positive (s ∷ shape) = (0 < s) × Positive shape

pub nonempty-Inbounds :
    (indices shape : List ℕ) → Inbounds indices shape → any (λ n. n == 0) shape ≡ false
nonempty-Inbounds [] [] h = refl
nonempty-Inbounds (i ∷ indices) (s ∷ shape) (lt, h) =
    ground (arith, nonempty-Inbounds indices shape h)
nonempty-Inbounds [] (s ∷ shape) h = absurd h
nonempty-Inbounds (i ∷ indices) [] h = absurd h

-- One dimension. A chunk index is in the grid exactly when its chunk starts within the array.
lt_of_rows : (c q r s : ℕ) → c * s < q * s + r → r < s → c < q + 1
lt_of_rows c q r s h k = grind arith

rows_of_lt : (c q s : ℕ) → c < q → c * s + s ≤ q * s
rows_of_lt c q s h = grind arith

lt_of_whole_rows : (c q s : ℕ) → c * s < q * s → c < q
lt_of_whole_rows c q s h = grind arith

pub lt-div_ceil : (c a s : ℕ) → 0 < s → (c < div_ceil a s) ↔ (c * s < a)
lt-div_ceil c a s h =
    let e = div-add-mod' a s in
    let b = mod-lt a h in
    (
      λ k. ground (arith, e, b, rows_of_lt c (a / s) s, rows_of_lt c (a / s + 1) s),
      λ k. ground (arith, e, b, lt_of_whole_rows c (a / s) s, lt_of_rows c (a / s) (a % s) s),
    )

pub chunk_of_lt : (i a s : ℕ) → 0 < s → i < a → i / s < div_ceil a s
chunk_of_lt i a s h lt = (lt-div_ceil (i / s) a s h).1 (omega (arith, div-mul-le_self i s))

pub chunk_covers :
    (i a s : ℕ)
    → 0 < s
    → a + s < u64_mod
    → i < a
    → covers i (mul_u64 (i / s) s) (add_u64 (mul_u64 (i / s) s) s - mul_u64 (i / s) s) ≡ true
chunk_covers i a s h f lt =
    ground (arith, div-mul-le_self i s, lt-div-mul-add {a = i} h, mul_u64-eq-mul (i / s) s)

chunk_unique :
    (i a s c : ℕ)
    → 0 < s
    → a + s < u64_mod
    → c < div_ceil a s
    → covers i (mul_u64 c s) (add_u64 (mul_u64 c s) s - mul_u64 c s) ≡ true
    → c ≡ i / s
chunk_unique i a s c h f b k =
    let start = (lt-div_ceil c a s h).0 b in
    let exact = mul_u64-eq-mul c s (omega arith) in
    sym (div-eq_of_lt-le s (ground (arith, exact)) (ground (arith, exact)))

pub partition_covers :
    (is ns ss : List ℕ)
    → Positive ss
    → Fits ns ss
    → length ns ≡ length ss
    → Inbounds is ns
    → zip_all3 covers is
        (map (λ (r : Range). r.start) (zip_with chunk_range (zip_with ◌/◌ is ss) ss))
        (map (λ (r : Range). r.end - r.start) (zip_with chunk_range (zip_with ◌/◌ is ss) ss))
      ≡ true
partition_covers [] [] [] p f e h = refl
partition_covers (i ∷ is) (a ∷ ns) (s ∷ ss) (q, p) (g, f) e (lt, h) =
    ground (arith, chunk_covers i a s q g lt, partition_covers is ns ss p f)
partition_covers is [] (s ∷ ss) p f e h = absurd (omega arith)
partition_covers is (a ∷ ns) [] p f e h = absurd (omega arith)
partition_covers [] (a ∷ ns) (s ∷ ss) p f e h = absurd h
partition_covers (i ∷ is) [] [] p f e h = absurd h

pub partition_Inbounds :
    (is ns ss : List ℕ)
    → Positive ss
    → length ns ≡ length ss
    → Inbounds is ns
    → Inbounds (zip_with ◌/◌ is ss) (zip_with div_ceil ns ss)
partition_Inbounds [] [] [] p e h = tt
partition_Inbounds (i ∷ is) (a ∷ ns) (s ∷ ss) (q, p) e (lt, h) =
    (chunk_of_lt i a s q lt, partition_Inbounds is ns ss p (omega arith) h)
partition_Inbounds is [] (s ∷ ss) p e h = absurd (omega arith)
partition_Inbounds is (a ∷ ns) [] p e h = absurd (omega arith)
partition_Inbounds [] (a ∷ ns) (s ∷ ss) p e h = absurd h
partition_Inbounds (i ∷ is) [] [] p e h = absurd h

pub partition_unique :
    (is ns ss cs : List ℕ)
    → Positive ss
    → Fits ns ss
    → length ns ≡ length ss
    → Inbounds is ns
    → Inbounds cs (zip_with div_ceil ns ss)
    → zip_all3 covers is
        (map (λ (r : Range). r.start) (zip_with chunk_range cs ss))
        (map (λ (r : Range). r.end - r.start) (zip_with chunk_range cs ss))
      ≡ true
    → cs ≡ zip_with ◌/◌ is ss
partition_unique [] [] [] [] p f e h b k = refl
partition_unique [] [] [] (c ∷ cs) p f e h b k = absurd b
partition_unique (i ∷ is) (a ∷ ns) (s ∷ ss) (c ∷ cs) (q, p) (g, f) e (lt, h) (d, b) k =
    ap₂ ◌∷◌ (chunk_unique i a s c q g d (ground arith))
      (partition_unique is ns ss cs p f (omega arith) h b (ground arith))
partition_unique (i ∷ is) (a ∷ ns) (s ∷ ss) [] p f e h b k = absurd b
partition_unique is [] (s ∷ ss) cs p f e h b k = absurd (omega arith)
partition_unique is (a ∷ ns) [] cs p f e h b k = absurd (omega arith)
partition_unique [] (a ∷ ns) (s ∷ ss) cs p f e h b k = absurd h
partition_unique (i ∷ is) [] [] cs p f e h b k = absurd h
