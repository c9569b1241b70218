-- ===== src/Tests/Keys.antt =====
-- Keys of chunks, with indices in decimal (zarrs/src/array/chunk_key_encoding).
use zarrs.Common.{
  ℕ, zero, suc, ◌+◌, ◌-◌, ◌*◌, ◌/◌, ◌%◌, ◌≤◌, ◌≡◌, ◌≢◌, refl, sym, ap, ◌∙◌, inl, inr, some, List,
  [], ◌∷◌, ◌++◌, arith, ltb, if◌then◌else◌, Bool-cases,
}
use zarrs.KeyEncoding.{dot, try_from}
use zarrs.KeyEncoding.Encode.{IsDecimal, AllDigits}

-- The decimal digits of a number below 10 ^ (fuel + 1).
digits_from : ℕ → ℕ → List ℕ
digits_from zero n = (48 + n % 10) ∷ []
digits_from (suc fuel) n =
    let front = digits_from fuel (n / 10) in
    if ltb n 10 then (48 + n % 10) ∷ [] else front ++ (48 + n % 10) ∷ []

pub decimal : ℕ → List ℕ
unfolding digits_from
decimal n = digits_from n n

abbrev value : ℕ → List ℕ → ℕ
value acc [] = acc
value acc (c ∷ s) = value (acc * 10 + (c - 48)) s

value-snoc : (acc : ℕ) (s : List ℕ) (c : ℕ) → value acc (s ++ c ∷ []) ≡ value acc s * 10 + (c - 48)
value-snoc acc [] c = refl
value-snoc acc (d ∷ s) c = value-snoc (acc * 10 + (d - 48)) s c

value-digits_from : (fuel n : ℕ) → n ≤ fuel → value 0 (digits_from fuel n) ≡ n
unfolding digits_from
value-digits_from zero n h = omega arith
value-digits_from (suc fuel) n h = elim (Bool-cases (ltb n 10)) [
  | inl e ↦ rw e (ground arith)
  | inr e ↦
      let big : 10 ≤ n = ground arith in
      rw e (
        value-snoc 0 (digits_from fuel (n / 10)) (48 + n % 10)
        ∙ omega (arith, value-digits_from fuel (n / 10) (omega arith)))
]

digits-snoc : (s : List ℕ) (c : ℕ) → AllDigits s → 48 ≤ c → c ≤ 57 → AllDigits (s ++ c ∷ [])
digits-snoc [] c d lo hi = (lo, hi, tt)
digits-snoc (e ∷ s) c (a, b, d) lo hi = (a, b, digits-snoc s c d lo hi)

digits_from-AllDigits : (fuel n : ℕ) → AllDigits (digits_from fuel n)
unfolding digits_from
digits_from-AllDigits zero n = (omega arith, omega arith, tt)
digits_from-AllDigits (suc fuel) n = elim (Bool-cases (ltb n 10)) [
  | inl e ↦ rw e (omega arith, omega arith, tt)
  | inr e ↦ rw e (
      digits-snoc (digits_from fuel (n / 10)) (48 + n % 10) (digits_from-AllDigits fuel (n / 10))
        (omega arith) (omega arith))
]

snoc-nonempty : (s : List ℕ) (c : ℕ) → s ++ c ∷ [] ≢ []
snoc-nonempty [] c e = cc
snoc-nonempty (d ∷ s) c e = cc

digits_from-nonempty : (fuel n : ℕ) → digits_from fuel n ≢ []
unfolding digits_from
digits_from-nonempty zero n = snoc-nonempty [] (48 + n % 10)
digits_from-nonempty (suc fuel) n = elim (Bool-cases (ltb n 10)) [
  | inl e ↦ rw e (snoc-nonempty [] (48 + n % 10))
  | inr e ↦ rw e (snoc-nonempty (digits_from fuel (n / 10)) (48 + n % 10))
]

pub decimal-IsDecimal : IsDecimal decimal
unfolding decimal
decimal-IsDecimal = record {
  nonempty = λ n. digits_from-nonempty n n;
  digits = λ n. digits_from-AllDigits n n;
  injective = λ m n e.
      sym (value-digits_from m m (omega arith))
      ∙ ap (value 0) e
      ∙ value-digits_from n n (omega arith);
}

abbrev here : List ℕ
here = 1 ∷ 23 ∷ []

abbrev there : List ℕ
there = 12 ∷ 3 ∷ []

-- ".z"
abbrev suffix : List ℕ
suffix = 46 ∷ 122 ∷ []

separator_dot : try_from 46 ≡ some dot
unfolding try_from
separator_dot = refl
