-- ===== src/Storage/ByteRange/Extract.antt =====
-- What the extraction of byte ranges returns (zarrs_storage/src/byte_range.rs).
use mathlib.Core.List.{Memᴰ}
use native.Mathlib.Decide.{dec_le}
use zarrs.Common.{
  ℕ, ◌+◌, ◌-◌, ◌<◌, ◌≤◌, ◌≡◌, refl, ap, sym, ◌∙◌, ◌⊎◌, inl, inr, true, false, none, some, List, [],
  ◌∷◌, map, arith, add_u64, sub_u64, u64_mod, length, take, drop, slice, length-take, length-drop,
  take-all, returns, fails, try_collect, le→leb,
}
use zarrs.Storage.ByteRange.{
  ByteRange, from_start, suffix, invalid_byte_range, Region, is_valid, start, end, range_length,
  extract, region, extract_byte_ranges,
}

-- The end of the range does not wrap around.
abbrev pub Representable : ByteRange → Type 0
Representable (from_start o none) = o < u64_mod
Representable (from_start o (some l)) = o + l < u64_mod
Representable (suffix l) = Unit

abbrev pub AllRepresentable : List ByteRange → Type 0
AllRepresentable [] = Unit
AllRepresentable (r ∷ ranges) = Representable r × AllRepresentable ranges

-- The range lies in bytes of a length.
abbrev pub Within : ℕ → ByteRange → Type 0
Within n (from_start o none) = o ≤ n
Within n (from_start o (some l)) = o + l ≤ n
Within n (suffix l) = l ≤ n

abbrev pub AllWithin : ℕ → List ByteRange → Type 0
AllWithin n [] = Unit
AllWithin n (r ∷ ranges) = Within n r × AllWithin n ranges

-- The bytes of a range.
abbrev pub piece : List ℕ → ByteRange → List ℕ
piece bytes (from_start o none) = drop o bytes
piece bytes (from_start o (some l)) = take l (drop o bytes)
piece bytes (suffix l) = drop (length bytes - l) bytes

dec_Within : (n : ℕ) (r : ByteRange) → Dec (Within n r)
dec_Within n (from_start o none) = dec_le o n
dec_Within n (from_start o (some l)) = dec_le (o + l) n
dec_Within n (suffix l) = dec_le l n

pub slice_within {ℓ} :
    {A : Type ℓ} (xs : List A) (a b : ℕ)
    → a ≤ b
    → b ≤ length xs
    → slice xs a b ≡ some (take (b - a) (drop a xs))
slice_within xs a b h k = let p = le→leb a b h in let q = le→leb b (length xs) k in rw (p, q)

pub slice_rest {ℓ} :
    {A : Type ℓ} (xs : List A) (a : ℕ) → a ≤ length xs → slice xs a (length xs) ≡ some (drop a xs)
slice_rest xs a h =
    slice_within xs a (length xs) h (omega arith)
    ∙ ap some (take-all (length xs - a) (drop a xs) (omega (arith, length-drop a xs)))

abbrev pub first_of : ℕ → ByteRange → ℕ
first_of n (from_start o l) = o
first_of n (suffix l) = n - l

-- The region of a range.
abbrev pub copied : List ℕ → ByteRange → Region
copied bytes r = record { length = length (piece bytes r); start = first_of (length bytes) r }

valid_of : (n : ℕ) (r : ByteRange) → Representable r → Within n r → is_valid r n ≡ true
unfolding is_valid
valid_of n (from_start o none) p w = ground arith
valid_of n (from_start o (some l)) p w = ground arith
valid_of n (suffix l) p w = ground arith

invalid_of : (n : ℕ) (r : ByteRange) → Representable r → ¬ Within n r → is_valid r n ≡ false
unfolding is_valid
invalid_of n (from_start o none) p w = ground arith
invalid_of n (from_start o (some l)) p w = ground arith
invalid_of n (suffix l) p w = ground arith

module _ (bytes : List ℕ) (k : length bytes < u64_mod) where
  slice-piece :
      (r : ByteRange)
      → Representable r
      → Within (length bytes) r
      → slice bytes (start r (length bytes)) (end r (length bytes)) ≡ some (piece bytes r)
  unfolding start end
  slice-piece (from_start o none) p w = slice_rest bytes o w
  slice-piece (from_start o (some l)) p w =
      let exact : add_u64 o l ≡ o + l = omega arith in
      rw exact (
        slice_within bytes o (o + l) (omega arith) w
        ∙ ap (λ (t : ℕ). some (take t (drop o bytes))) (omega arith))
  slice-piece (suffix l) p w =
      let exact : sub_u64 (length bytes) l ≡ length bytes - l = omega arith in
      rw exact (slice_rest bytes (length bytes - l) (omega arith))

  pub region_fields :
      (r : ByteRange)
      → Representable r
      → Within (length bytes) r
      → (range_length r (length bytes) ≡ length (piece bytes r))
        × (start r (length bytes) ≡ first_of (length bytes) r)
        × (slice bytes
              (first_of (length bytes) r)
              (first_of (length bytes) r + length (piece bytes r))
            ≡ some (piece bytes r))
        × (first_of (length bytes) r + length (piece bytes r) ≤ length bytes)
  unfolding start range_length
  region_fields (from_start o none) p w =
      let total = length-drop o bytes in
      (
        omega (arith, total),
        refl,
        ap (slice bytes o) (omega (arith, total)) ∙ slice_rest bytes o w,
        omega (arith, total),
      )
  region_fields (from_start o (some l)) p w =
      let total : length (take l (drop o bytes)) ≡ l =
        omega (arith, length-take l (drop o bytes), length-drop o bytes) in
      (
        sym total,
        refl,
        ap (λ (t : ℕ). slice bytes o (o + t)) total
            ∙ slice_within bytes o (o + l) (omega arith) w
            ∙ ap (λ (t : ℕ). some (take t (drop o bytes))) (omega arith),
        omega (arith, total),
      )
  region_fields (suffix l) p w =
      let n = length bytes in
      let total = length-drop (n - l) bytes in
      (
        omega (arith, total),
        omega arith,
        ap (slice bytes (n - l)) (omega (arith, total)) ∙ slice_rest bytes (n - l) (omega arith),
        omega (arith, total),
      )

  pub extract-piece :
      (r : ByteRange)
      → Representable r
      → Within (length bytes) r
      → extract bytes r ≡ returns (piece bytes r)
  unfolding extract
  extract-piece r p w =
      let good = valid_of (length bytes) r p w in let here = slice-piece r p w in rw (good, here)

  extract-invalid :
      (r : ByteRange)
      → Representable r
      → ¬ Within (length bytes) r
      → extract bytes r ≡ fails (invalid_byte_range r (length bytes))
  unfolding extract
  extract-invalid r p w = let bad = invalid_of (length bytes) r p w in rw bad refl

  region-copied :
      (r : ByteRange)
      → Representable r
      → Within (length bytes) r
      → region (length bytes) r ≡ returns (copied bytes r)
  unfolding region
  region-copied r p w =
      let good = valid_of (length bytes) r p w in
      let (a, b, c, d) = region_fields r p w in rw (good, a, b)

  region-invalid :
      (r : ByteRange)
      → Representable r
      → ¬ Within (length bytes) r
      → region (length bytes) r ≡ fails (invalid_byte_range r (length bytes))
  unfolding region
  region-invalid r p w = let bad = invalid_of (length bytes) r p w in rw bad refl

  -- Both passes over the ranges succeed together, or fail with the same error.
  pub passes :
      (ranges : List ByteRange)
      → AllRepresentable ranges
      → (AllWithin (length bytes) ranges
          × (try_collect (extract bytes) ranges ≡ returns (map (piece bytes) ranges))
          × (try_collect (region (length bytes)) ranges ≡ returns (map (copied bytes) ranges)))
        ⊎ ((r : ByteRange) × Memᴰ r ranges
            × (¬ Within (length bytes) r)
            × (try_collect (extract bytes) ranges ≡ fails (invalid_byte_range r (length bytes)))
            × (try_collect (region (length bytes)) ranges
                ≡ fails (invalid_byte_range r (length bytes))))
  passes [] p = inl (tt, refl, refl)
  passes (r ∷ ranges) (p, ps) = elim (dec_Within (length bytes) r) [
    | yes w ↦
        let a = extract-piece r p w in
        let b = region-copied r p w in
        elim (passes ranges ps) [
          | inl (ws, c, d) ↦ inl ((w, ws), rw (a, c), rw (b, d))
          | inr (s, m, bad, c, d) ↦ inr (s, Memᴰ.tail m, bad, rw (a, c), rw (b, d))
        ]
    | no w ↦
        let a = extract-invalid r p w in
        let b = region-invalid r p w in inr (r, Memᴰ.head refl, w, rw a refl, rw b refl)
  ]

  -- From fewer than 2 ^ 64 bytes, of ranges whose ends do not wrap around, `extract_byte_ranges`
  -- returns the bytes of each if all lie within the bytes, and the error of one that does not
  -- otherwise; it never panics.
  pub extract_byte_ranges-eq :
      (ranges : List ByteRange)
      → AllRepresentable ranges
      → (AllWithin (length bytes) ranges
          × (extract_byte_ranges bytes ranges ≡ returns (map (piece bytes) ranges)))
        ⊎ ((r : ByteRange) × Memᴰ r ranges
            × (¬ Within (length bytes) r)
            × (extract_byte_ranges bytes ranges ≡ fails (invalid_byte_range r (length bytes))))
  unfolding extract_byte_ranges
  extract_byte_ranges-eq ranges p = elim (passes ranges p) [
    | inl (w, a, b) ↦ inl (w, a)
    | inr (r, m, bad, a, b) ↦ inr (r, m, bad, a)
  ]
