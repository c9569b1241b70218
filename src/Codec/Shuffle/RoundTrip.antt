-- ===== src/Codec/Shuffle/RoundTrip.antt =====
-- The `shuffle` codec as a transposition of bytes, and its round trip
-- (zarrs/src/array/codec/bytes_to_bytes/shuffle/shuffle_codec.rs).
use native.Mathlib.Nat.{
  div-add-mod', div-lt_iff_lt-mul, mul-mod_right, mul-div_cancel_left, mod-lt, mul_comm,
}
use zarrs.Common.{
  ℕ, zero, suc, ◌+◌, ◌*◌, ◌/◌, ◌%◌, ◌<◌, ◌≡◌, refl, ap, ap₂, ◌∙◌, subst, Option, some, List, [],
  ◌∷◌, arith, length, get_elem?, div_ceil, ◌==◌, Outcome, returns, fails, not, if◌then◌else◌,
  checked,
}
use zarrs.Codec.{CodecError, other}
use zarrs.Codec.Shuffle.{outer_loop, encode, decode}
use zarrs.Codec.Shuffle.Loops.{outer_loop-transposes}

-- Lists with the same elements are the same.
same_elements :
    (xs ys : List ℕ)
    → length xs ≡ length ys
    → ((k : ℕ) → k < length xs → get_elem? xs k ≡ get_elem? ys k)
    → xs ≡ ys
same_elements [] [] l f = refl
same_elements [] (y ∷ ys) l f = absurd (omega arith)
same_elements (x ∷ xs) [] l f = absurd (omega arith)
same_elements (x ∷ xs) (y ∷ ys) l f =
    ap₂ (λ (u : ℕ) (v : List ℕ). u ∷ v) (injected x y (f zero (omega arith)))
      (same_elements xs ys (omega arith) (λ k h. f (suc k) (omega arith)))
  where
    injected : (a b : ℕ) → ◌≡◌ {A = Option ℕ} (some a) (some b) → a ≡ b
    injected a b h = cc

guarded :
    (n : ℕ) (body : Outcome (List ℕ) CodecError)
    → n ≡ 0
    → (if not (n == 0) then fails other else body) ≡ body
guarded n body h = rw h refl

-- The number of whole elements.
module _ (size : ℕ) (value : List ℕ) (count : ℕ) (len : length value ≡ suc size * count) where
  whole : length value % suc size ≡ 0
  whole = ap (λ (t : ℕ). t % suc size) len ∙ mul-mod_right (suc size) count

  count-eq : div_ceil (length value) (suc size) ≡ count
  count-eq =
      let exact = whole in
      rw exact (ap (λ (t : ℕ). t / suc size) len ∙ mul-div_cancel_left count (omega arith))

  encode-eq : encode (suc size) value ≡ checked (outer_loop value count (suc size) 0 count value)
  unfolding encode
  encode-eq =
      guarded (length value % suc size) _ whole
      ∙ ap (λ (c : ℕ). checked (outer_loop value c (suc size) 0 c value)) count-eq

  decode-eq :
      decode (suc size) value ≡ checked (outer_loop value (suc size) count 0 (suc size) value)
  unfolding decode
  decode-eq =
      guarded (length value % suc size) _ whole
      ∙ ap (λ (c : ℕ). checked (outer_loop value (suc size) c 0 (suc size) value)) count-eq

  undone :
      (t u : List ℕ)
      → length u ≡ length value
      → ((x j : ℕ)
          → x < suc size
          → j < count
          → get_elem? t (x * count + j) ≡ get_elem? value (j * suc size + x))
      → ((x j : ℕ)
          → x < count
          → j < suc size
          → get_elem? u (x * suc size + j) ≡ get_elem? t (j * count + x))
      → u ≡ value
  undone t u l f g = same_elements u value l each
    where
      quotient_below : (k : ℕ) → k < suc size * count → k / suc size < count
      quotient_below k h =
          (div-lt_iff_lt-mul (omega arith)).1 (omega (arith, mul_comm count (suc size)))

      each : (k : ℕ) → k < length u → get_elem? u k ≡ get_elem? value k
      each k h =
          let below : k / suc size < count = quotient_below k (omega (arith, len)) in
          let inside : k % suc size < suc size = mod-lt k (omega arith) in
          subst (λ (k : ℕ). get_elem? u k ≡ get_elem? value k) (div-add-mod' k (suc size))
            (g (k / suc size) (k % suc size) below inside
              ∙ f (k % suc size) (k / suc size) inside below)

-- For a value of `count` elements of `suc size` bytes, encoding returns as many bytes, in which byte
-- `x` of element `j` stands at `x * count + j`, and decoding them returns the value.
pub shuffle_decode-encode :
    (size count : ℕ) (value : List ℕ)
    → length value ≡ suc size * count
    → (t : List ℕ) × (encode (suc size) value ≡ returns t)
      × (length t ≡ length value)
      × ((x j : ℕ)
          → x < suc size
          → j < count
          → get_elem? t (x * count + j) ≡ get_elem? value (j * suc size + x))
      × (decode (suc size) t ≡ returns value)
shuffle_decode-encode size count value len =
    let (t, e, l, f) =
      outer_loop-transposes value count (suc size) (omega (arith, mul_comm count (suc size))) value
        len in
    let (u, d, m, g) =
      outer_loop-transposes t (suc size) count (omega (arith, l, len)) t
        (omega (arith, l, len, mul_comm count (suc size))) in
    (
      t,
      encode-eq size value count len ∙ ap checked e,
      l,
      f,
      decode-eq size t count (l ∙ len)
          ∙ ap checked d
          ∙ ap returns (undone size value count len t u (m ∙ l) f g),
    )
