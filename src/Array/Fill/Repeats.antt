-- ===== src/Array/Fill/Repeats.antt =====
-- What the test for fill values tells (zarrs_data_type/src/fill_value.rs).
use native.Mathlib.Nat.{mul_comm}
use zarrs.Common.{
  mul_u64-eq-mul, take-append, not, ◌||◌, if◌then◌else◌, quotient, subst, ◌≤◌, length-drop, take, ℕ,
  zero, suc, ◌+◌, ◌*◌, ◌/◌, ◌%◌, ◌<◌, ◌≡◌, refl, sym, ap, ap₂, ◌∙◌, Bool, true, false, List, [],
  ◌∷◌, ◌++◌, arith, ◌==◌, ltb, length, length-append, length-drop, ◌&&◌, take, drop, u64_mod,
  mul_u64, ok, returns,
}
use zarrs.Codec.Bytes.{bytes_eq, bytes_eq_sound, bytes_eq_refl, take-drop, drop-append}
use zarrs.Codec.ArrayBytes.{fixed, plain, fixed_length, validate, validate_bytes_flen}
use zarrs.Codec.Chain.{FillValue}
use zarrs.Array.Fill.{all_chunks, equals_all, is_fill_value, repeat, repeat_bytes, new_fill_value}

length-repeat_bytes : (bytes : List ℕ) (n : ℕ) → length (repeat_bytes bytes n) ≡ n * length bytes
unfolding repeat_bytes
length-repeat_bytes bytes zero = omega arith
length-repeat_bytes bytes (suc n) =
    omega (arith, length-append bytes (repeat_bytes bytes n), length-repeat_bytes bytes n)

all_chunks_sound :
    (count : ℕ) (fill : FillValue) (bytes : List ℕ)
    → length bytes ≡ count * length fill
    → all_chunks count fill bytes ≡ true
    → bytes ≡ repeat_bytes fill count
unfolding all_chunks repeat_bytes
all_chunks_sound zero fill bytes l h = empty bytes (omega arith)
  where
    empty : (xs : List ℕ) → length xs ≡ 0 → xs ≡ []
    empty [] h = refl
    empty (x ∷ xs) h = absurd (omega arith)
all_chunks_sound (suc count) fill bytes l h =
    let (first, more) = both (bytes_eq (take (length fill) bytes) fill) _ h in
    let rest =
      all_chunks_sound count fill (drop (length fill) bytes)
        (omega (arith, length-drop (length fill) bytes, l)) more in
    sym (take-drop (length fill) bytes) ∙ ap₂ (◌++◌) (bytes_eq_sound _ fill first) rest
  where
    both : (p q : Bool) → (p && q) ≡ true → (p ≡ true) × (q ≡ true)
    both true q h = (refl, h)
    both false q h = cc

repeat_bytes_none : (n : ℕ) → repeat_bytes [] n ≡ []
unfolding repeat_bytes
repeat_bytes_none zero = refl
repeat_bytes_none (suc n) = repeat_bytes_none n

empty : (xs : List ℕ) → length xs ≡ 0 → xs ≡ []
empty [] h = refl
empty (x ∷ xs) h = absurd (omega arith)

count-of : (count size : ℕ) → (count * suc size) / suc size ≡ count
count-of count size =
    ap (λ (n : ℕ). n / suc size) (omega arith) ∙ (quotient count (suc size) 0 (omega arith)).0

-- The test of the length, and what follows it.
let_through : (p q c : Bool) → (if p || q then false else c) ≡ true → c ≡ true
let_through p q c h = ground arith

passes :
    (n size : ℕ) (c : Bool)
    → n % size ≡ 0
    → size ≤ n
    → c ≡ true
    → (if not (n % size == 0) || ltb n size then false else c) ≡ true
passes n size c h k e = ground arith

-- Bytes that pass the test are copies of the fill value, as many as their length says.
pub equals_all_sound :
    (fill : FillValue) (bytes : List ℕ) (count : ℕ)
    → length bytes ≡ count * length fill
    → equals_all fill bytes ≡ true
    → bytes ≡ repeat_bytes fill count
unfolding equals_all
equals_all_sound [] bytes count l h = empty bytes (ground arith) ∙ sym (repeat_bytes_none count)
equals_all_sound (f ∷ fill) bytes count l h = all_chunks_sound count (f ∷ fill) bytes l (
    subst (λ (n : ℕ). all_chunks n (f ∷ fill) bytes ≡ true)
      (ap (λ (n : ℕ). n / length (f ∷ fill)) l ∙ count-of count (length fill))
      (let_through (not (length bytes % length (f ∷ fill) == 0)) _ _ h))

all_chunks_complete :
    (count : ℕ) (fill : FillValue) → all_chunks count fill (repeat_bytes fill count) ≡ true
unfolding all_chunks repeat_bytes
all_chunks_complete zero fill = refl
all_chunks_complete (suc count) fill =
    rw
      (
        take-append fill (repeat_bytes fill count),
        bytes_eq_refl fill,
        drop-append fill (repeat_bytes fill count),
      )
      (all_chunks_complete count fill)

-- Copies of a fill value that is not empty pass the test, if there are any.
pub equals_all_complete :
    (f : ℕ) (fill : FillValue) (count : ℕ)
    → equals_all (f ∷ fill) (repeat_bytes (f ∷ fill) (suc count)) ≡ true
unfolding equals_all
equals_all_complete f fill count =
    let l = length-repeat_bytes (f ∷ fill) (suc count) in
    let (q, r) = quotient (suc count) (suc (length fill)) 0 (omega arith) in
    let n = length (repeat_bytes (f ∷ fill) (suc count)) in
    let e : n ≡ suc count * suc (length fill) + 0 = omega (arith, l) in
    passes n (suc (length fill)) _ (ap (λ (n : ℕ). n % suc (length fill)) e ∙ r) (omega (arith, e))
      (subst (λ (m : ℕ). all_chunks m (f ∷ fill) (repeat_bytes (f ∷ fill) (suc count)) ≡ true)
        (sym (ap (λ (n : ℕ). n / suc (length fill)) e ∙ q))
        (all_chunks_complete (suc count) (f ∷ fill)))

-- For elements of the size of the fill value: bytes of as many elements are valid,
pub validate-whole :
    (bytes : List ℕ) (count size : ℕ)
    → length bytes ≡ count * size
    → length bytes < u64_mod
    → validate (fixed bytes) count (plain (fixed_length size)) ≡ ok tt
unfolding validate validate_bytes_flen
validate-whole bytes count size l w =
    let e : mul_u64 count size ≡ length bytes =
      mul_u64-eq-mul count size (omega (arith, l, w)) ∙ sym l in
    let t : (length bytes == mul_u64 count size) ≡ true = ground (arith, e) in rw t refl

-- and if the test finds them to be fill values, they are what fill values read as.
pub new_fill_value-is_fill_value :
    (bytes : List ℕ) (count : ℕ) (fill : FillValue)
    → length bytes ≡ count * length fill
    → length bytes < u64_mod
    → is_fill_value (fixed bytes) fill ≡ true
    → new_fill_value (plain (fixed_length (length fill))) count fill ≡ returns (fixed bytes)
unfolding new_fill_value is_fill_value repeat
new_fill_value-is_fill_value bytes count fill l w h =
    let same : (length fill == length fill) ≡ true = ground arith in
    let room : ltb (length fill * count) u64_mod ≡ true =
      ground (arith, mul_comm (length fill) count, l, w) in
    rw (same, room, equals_all_sound fill bytes count l h) refl
