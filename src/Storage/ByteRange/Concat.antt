-- ===== src/Storage/ByteRange/Concat.antt =====
-- The concatenated extraction is the concatenation of the extraction (zarrs_storage/src/byte_range.rs).
use mathlib.Core.List.{append_assoc, append-nil}
use native.Mathlib.Decide.{dec_lt}
use zarrs.Common.{
  ℕ, zero, suc, ◌+◌, ◌<◌, ◌≤◌, ◌≡◌, refl, ap, ap₂, sym, ◌∙◌, inl, inr, true, false, some, List, [],
  ◌∷◌, ◌++◌, map, arith, leb, ◌==◌, add_u64, u64_mod, length, take, drop, slice, copy_from_slice,
  length-append, length-drop, take-append, returns, and_then, le→leb,
}
use zarrs.Storage.ByteRange.{
  ByteRange, Region, sum_lengths, copy_regions, extract_byte_ranges, extract_byte_ranges_concat,
}
use zarrs.Storage.ByteRange.Extract.{
  AllRepresentable, AllWithin, piece, copied, first_of, region_fields, passes,
}

abbrev pub flatten : List (List ℕ) → List ℕ
flatten [] = []
flatten (xs ∷ xss) = xs ++ flatten xss

take-prefix : (xs ys : List ℕ) → take (length xs) (xs ++ ys) ≡ xs
take-prefix xs ys = take-append xs ys

drop-prefix : (xs ys : List ℕ) (n : ℕ) → drop (length xs + n) (xs ++ ys) ≡ drop n ys
drop-prefix [] ys n = ap (λ (t : ℕ). drop t ys) (omega arith)
drop-prefix (x ∷ xs) ys n =
    ap (λ (t : ℕ). drop t (x ∷ xs ++ ys)) (succ (length xs)) ∙ drop-prefix xs ys n
  where
    succ : (k : ℕ) → suc k + n ≡ suc (k + n)
    succ k = omega arith

add_zero_left : (n : ℕ) → 0 + n ≡ n
add_zero_left n = omega arith

copy_regions-cons :
    (bytes : List ℕ) (r : Region) (regions : List Region) (offset : ℕ) (out value written : List ℕ)
    → slice bytes r.start (add_u64 r.start r.length) ≡ some value
    → copy_from_slice out offset value ≡ some written
    → copy_regions bytes (r ∷ regions) offset out
      ≡ copy_regions bytes regions (add_u64 offset r.length) written
unfolding copy_regions
copy_regions-cons bytes r regions offset out value written a b = rw (copy_regions, a, b)

drop-nil : (n : ℕ) → ◌≡◌ {A = List ℕ} (drop n []) []
drop-nil zero = refl
drop-nil (suc n) = refl

drop-drop : (m n : ℕ) (xs : List ℕ) → drop n (drop m xs) ≡ drop (m + n) xs
drop-drop zero n xs = ap (λ (t : ℕ). drop t xs) (sym (add_zero_left n))
drop-drop (suc m) n [] = drop-nil n ∙ sym (drop-nil (suc m + n))
drop-drop (suc m) n (x ∷ xs) = drop-drop m n xs ∙ ap (λ (t : ℕ). drop t (x ∷ xs)) (succ m n)
  where
    succ : (m n : ℕ) → suc (m + n) ≡ suc m + n
    succ m n = omega arith

copy-after :
    (before rest value : List ℕ)
    → length value ≤ length rest
    → copy_from_slice (before ++ rest) (length before) value
      ≡ some (before ++ value ++ drop (length value) rest)
copy-after before rest value h =
    let room : leb (length before + length value) (length (before ++ rest)) ≡ true =
      le→leb _ _ (omega (arith, length-append before rest)) in
    rw (room, take-prefix before rest, drop-prefix before rest (length value))

module _ (bytes : List ℕ) (k : length bytes < u64_mod) where
  abbrev total : List ByteRange → ℕ
  total ranges = length (flatten (map (piece bytes) ranges))

  copy_regions-eq :
      (ranges : List ByteRange) (before rest : List ℕ)
      → AllRepresentable ranges
      → AllWithin (length bytes) ranges
      → total ranges ≤ length rest
      → length before + length rest < u64_mod
      → copy_regions bytes (map (copied bytes) ranges) (length before) (before ++ rest)
        ≡ some (before ++ flatten (map (piece bytes) ranges) ++ drop (total ranges) rest)
  unfolding copy_regions
  copy_regions-eq [] before rest p w h f =
      ap (λ (t : List ℕ). some (t ++ rest)) (sym (append-nil before))
  copy_regions-eq (r ∷ ranges) before rest (p, ps) (w, ws) h f =
      let v = piece bytes r in
      let vs = flatten (map (piece bytes) ranges) in
      let (a, b, c, d) = region_fields bytes k r p w in
      let size = length-append v vs in
      let stop : add_u64 (first_of (length bytes) r) (length v)
          ≡ first_of (length bytes) r + length v =
        omega (arith, d) in
      let next : add_u64 (length before) (length v) ≡ length (before ++ v) =
        omega (arith, size, length-append before v) in
      let copied_here = copy-after before rest v (omega (arith, size)) in
      let rest_later = drop-drop (length v) (length vs) rest in
      let later =
        copy_regions-eq ranges (before ++ v) (drop (length v) rest) ps ws
          (omega (arith, size, length-drop (length v) rest))
          (omega (arith, size, length-drop (length v) rest, length-append before v)) in
      let joined = append_assoc before v vs in
      let here = ap (slice bytes (first_of (length bytes) r)) stop ∙ c in
      copy_regions-cons bytes (copied bytes r) (map (copied bytes) ranges) (length before)
        (before ++ rest) v _ here copied_here
      ∙ ap
          (λ (t : ℕ).
            copy_regions bytes (map (copied bytes) ranges) t
              ((before ++ v) ++ drop (length v) rest))
          next
      ∙ later
      ∙ ap some (
          ap₂ ◌++◌ (append_assoc before v vs) (rest_later ∙ ap (λ (t : ℕ). drop t rest) (sym size)))

  sum_lengths-eq :
      (ranges : List ByteRange) (acc : ℕ)
      → acc + total ranges < u64_mod
      → sum_lengths acc (map (copied bytes) ranges) ≡ acc + total ranges
  unfolding sum_lengths
  sum_lengths-eq [] acc h = omega arith
  sum_lengths-eq (r ∷ ranges) acc h =
      let v = piece bytes r in
      let size = length-append v (flatten (map (piece bytes) ranges)) in
      let step : add_u64 acc (length v) ≡ acc + length v = omega (arith, size) in
      ap (λ (t : ℕ). sum_lengths t (map (copied bytes) ranges)) step
      ∙ sum_lengths-eq ranges (acc + length v) (omega (arith, size))
      ∙ omega (arith, size)

  nil_of_length : (xs : List ℕ) → length xs ≡ 0 → xs ≡ []
  nil_of_length [] h = refl
  nil_of_length (x ∷ xs) h = absurd (omega arith)

  -- From fewer than 2 ^ 64 bytes, of ranges whose ends do not wrap around, with no more bytes
  -- between them than `spare` has, itself of fewer than 2 ^ 64, `extract_byte_ranges_concat` returns
  -- the concatenation of what `extract_byte_ranges` returns, whatever the memory it starts with, or
  -- the same error.
  pub extract_byte_ranges_concat-eq :
      (ranges : List ByteRange) (spare : List ℕ)
      → AllRepresentable ranges
      → total ranges ≤ length spare
      → length spare < u64_mod
      → extract_byte_ranges_concat bytes ranges spare
        ≡ and_then (extract_byte_ranges bytes ranges) (λ pieces. returns (flatten pieces))
  unfolding extract_byte_ranges_concat extract_byte_ranges
  extract_byte_ranges_concat-eq ranges spare p h f = elim (passes bytes k ranges p) [
    | inr (r, m, bad, a, b) ↦ rw (a, b)
    | inl (w, a, b) ↦
        let vs = flatten (map (piece bytes) ranges) in
        let size = sum_lengths-eq ranges 0 (omega arith) ∙ add_zero_left (total ranges) in
        let buffer = copy_regions-eq ranges [] spare p w h (omega arith) in
        elim (dec_lt 0 (total ranges)) [
          | yes some_bytes ↦
              let nonzero : (total ranges == 0) ≡ false = ground arith in
              let all = take-append vs (drop (total ranges) spare) in
              rw (a, b, size, nonzero, buffer, all)
          | no no_bytes ↦
              let zero_bytes : (total ranges == 0) ≡ true = ground arith in
              let empty = nil_of_length vs (omega arith) in rw (a, b, size, zero_bytes, empty)
        ]
  ]
