-- ===== src/Codec/ArrayBytes/Valid.antt =====
-- What the validation of variable length bytes accepts (zarrs_codec/src/array_bytes.rs).
use zarrs.Common.{
  ℕ, suc, ◌+◌, ◌-◌, ◌<◌, ◌≤◌, ◌≡◌, refl, ap, sym, ◌∙◌, ◌↔◌, inl, inr, true, false, ◌||◌, Option,
  none, some, List, [], ◌∷◌, ◌++◌, arith, ltb, ◌==◌, length, take, drop, add_u64, u64_mod,
  length-append, length-take, length-drop, Bool-cases, Option-cases, ok, err,
}
use zarrs.Codec.{invalid_variable_sized_array_offsets}
use zarrs.Codec.Bytes.{take-drop}
use zarrs.Codec.ArrayBytes.{Validation, scan_offsets, validate_bytes_vlen}
use zarrs.Codec.ArrayBytes.Elements.{concat, positions, IsElements, length-positions}

-- The elements between an offset and the offsets that follow.
abbrev cut : List ℕ → ℕ → List ℕ → List (List ℕ)
cut bytes o [] = []
cut bytes o (next ∷ rest) = take (next - o) bytes ∷ cut (drop (next - o) bytes) next rest

count :
    (bytes : List ℕ) (o : ℕ) (rest : List ℕ) (n : ℕ)
    → suc (length rest) ≡ suc n
    → length (cut bytes o rest) ≡ n
count bytes o [] n h = omega arith
count bytes o (next ∷ rest) n h =
    omega (arith, count (drop (next - o) bytes) next rest (length rest) refl)

injected : (a b : ℕ) → ◌≡◌ {A = Option ℕ} (some a) (some b) → a ≡ b
injected a b h = cc

inside : (len o : ℕ) → o ≤ len → (ltb o o || ltb len o) ≡ false
inside len o h = ground arith

-- An offset that the scan passes.
scanned :
    (len o next : ℕ) (rest : List ℕ)
    → scan_offsets len o (next ∷ rest) ≡ some len
    → (o ≤ next) × (next ≤ len) × (scan_offsets len next rest ≡ some len)
unfolding scan_offsets
scanned len o next rest h = elim (Bool-cases (ltb next o || ltb len next)) [
  | inl q ↦ absurd (nothing (rw q at h))
  | inr q ↦ (ground arith, ground arith, rw q at h)
]
  where
    nothing : ¬ (◌≡◌ {A = Option ℕ} none (some len))
    nothing h = cc

-- A scan from any offset before the first is the scan from the first.
scan_from :
    (len low o : ℕ) (rest : List ℕ)
    → low ≤ o
    → scan_offsets len o (o ∷ rest) ≡ some len
    → scan_offsets len low (o ∷ rest) ≡ some len
unfolding scan_offsets
scan_from len low o rest l h =
    let (a, b, more) = scanned len o o rest h in
    let t : (ltb o low || ltb len o) ≡ false = ground arith in rw t more

scan_first :
    (len low o : ℕ) (elements : List (List ℕ))
    → low ≤ o
    → scan_offsets len o (positions o elements) ≡ some len
    → scan_offsets len low (positions o elements) ≡ some len
scan_first len low o [] l h = scan_from len low o [] l h
scan_first len low o (x ∷ elements) l h =
    scan_from len low o (positions (o + length x) elements) l h

-- The scan ends at the length of the bytes: the offsets cut the bytes into elements.
scan-cut :
    (bytes : List ℕ) (len o : ℕ) (rest : List ℕ)
    → o + length bytes ≡ len
    → scan_offsets len o rest ≡ some len
    → (concat (cut bytes o rest) ≡ bytes) × (positions o (cut bytes o rest) ≡ o ∷ rest)
unfolding scan_offsets
scan-cut [] len o [] e h = (refl, refl)
scan-cut (b ∷ bytes) len o [] e h = let same : o ≡ len = injected o len h in absurd (omega arith)
scan-cut bytes len o (next ∷ rest) e h =
    let (low, high, more) = scanned len o next rest h in
    let (c, p) =
      scan-cut (drop (next - o) bytes) len next rest (omega (arith, length-drop (next - o) bytes))
        more in
    (
      ap (λ (t : List ℕ). take (next - o) bytes ++ t) c ∙ take-drop (next - o) bytes,
      ap (λ (t : List ℕ). o ∷ t)
          (ap (λ (q : ℕ). positions q (cut (drop (next - o) bytes) next rest))
              (omega (arith, length-take (next - o) bytes))
            ∙ p),
    )

scan-positions :
    (len o : ℕ) (elements : List (List ℕ))
    → o + length (concat elements) ≡ len
    → scan_offsets len o (positions o elements) ≡ some len
unfolding scan_offsets
scan-positions len o [] e = let t = inside len o (omega arith) in rw t (ap some (omega arith))
scan-positions len o (x ∷ elements) e =
    let t = inside len o (omega arith) in
    rw t (
      scan_first len o (o + length x) elements (omega arith) (
        scan-positions len (o + length x) elements
          (omega (arith, length-append x (concat elements)))))

-- What validation tests, in terms of the scan.
valid-scan :
    (bytes offsets : List ℕ) (num_elements : ℕ)
    → num_elements + 1 < u64_mod
    → validate_bytes_vlen bytes offsets num_elements ≡ ok tt
    → (length offsets ≡ suc num_elements)
      × (scan_offsets (length bytes) 0 offsets ≡ some (length bytes))
unfolding validate_bytes_vlen
valid-scan bytes offsets num_elements h v =
    elim (Bool-cases (length offsets == add_u64 num_elements 1)) [
      | inr q ↦ absurd (refused (rw q at v))
      | inl q ↦ elim (Option-cases (scan_offsets (length bytes) 0 offsets)) [
        | inl e ↦ absurd (refused (rw (q, e) at v))
        | inr (o, e) ↦ elim (Bool-cases (o == length bytes)) [
          | inl same ↦ (ground arith, e ∙ ap some (ground arith))
          | inr other ↦ absurd (refused (rw (q, e, other) at v))
        ]
      ]
    ]
  where
    refused : ¬ (◌≡◌ {A = Validation} (err invalid_variable_sized_array_offsets) (ok tt))
    refused h = cc

scan-valid :
    (bytes offsets : List ℕ) (num_elements : ℕ)
    → num_elements + 1 < u64_mod
    → length offsets ≡ suc num_elements
    → scan_offsets (length bytes) 0 offsets ≡ some (length bytes)
    → validate_bytes_vlen bytes offsets num_elements ≡ ok tt
unfolding validate_bytes_vlen
scan-valid bytes offsets num_elements h l e =
    let q : (length offsets == add_u64 num_elements 1) ≡ true = ground arith in
    let same : (length bytes == length bytes) ≡ true = ground arith in rw (q, e, same) refl

-- For a number of elements below 2 ^ 64 - 1, validation accepts exactly the bytes and offsets that
-- are so many elements one after another, behind any padding.
pub validate_bytes_vlen_iff :
    (bytes offsets : List ℕ) (num_elements : ℕ)
    → num_elements + 1 < u64_mod
    → (validate_bytes_vlen bytes offsets num_elements ≡ ok tt) ↔ (
        (padding : List ℕ) × (elements : List (List ℕ)) × (length elements ≡ num_elements)
        × IsElements bytes offsets padding elements)
validate_bytes_vlen_iff bytes offsets num_elements h = (
  λ v. let (l, e) = valid-scan bytes offsets num_elements h v in found offsets l e,
  λ (padding, elements, count, parts).
      let whole : length padding + length (concat elements) ≡ length bytes =
        sym (length-append padding (concat elements)) ∙ ap length (sym parts.bytes_are) in
      scan-valid bytes offsets num_elements h
        (ap length parts.offsets_are ∙ length-positions (length padding) elements ∙ ap suc count)
        (ap (scan_offsets (length bytes) 0) parts.offsets_are
          ∙ scan_first (length bytes) 0 (length padding) elements (omega arith)
              (scan-positions (length bytes) (length padding) elements whole)),
)
  where
    found :
        (offsets : List ℕ)
        → length offsets ≡ suc num_elements
        → scan_offsets (length bytes) 0 offsets ≡ some (length bytes)
        → (padding : List ℕ) × (elements : List (List ℕ)) × (length elements ≡ num_elements)
          × IsElements bytes offsets padding elements
    found [] l e = absurd (omega arith)
    found (o ∷ rest) l e =
        let (low, high, more) = scanned (length bytes) 0 o rest e in
        let pad : length (take o bytes) ≡ o = omega (arith, length-take o bytes) in
        let (c, p) =
          scan-cut (drop o bytes) (length bytes) o rest (omega (arith, length-drop o bytes)) more in
        (
          take o bytes,
          cut (drop o bytes) o rest,
          count (drop o bytes) o rest num_elements l,
          record {
            bytes_are = sym (ap (λ (t : List ℕ). take o bytes ++ t) c ∙ take-drop o bytes);
            offsets_are = sym (ap (λ (q : ℕ). positions q (cut (drop o bytes) o rest)) pad ∙ p);
          },
        )
