-- ===== src/KeyEncoding/Encode.antt =====
-- Chunks have keys of their own, and the keys are valid (zarrs/src/array/chunk_key_encoding/default.rs,
-- and v2.rs and default_suffix.rs there).
use mathlib.Core.List.{append_cancel_right}
use zarrs.Common.{
  ℕ, ◌≤◌, ◌≡◌, ◌≢◌, refl, sym, ap, ap₂, ◌∙◌, true, List, [], ◌∷◌, ◌++◌, map, arith, length,
}
use zarrs.Storage.Key.{validate, starts_with, ends_with_slash, contains_slashes}
use zarrs.KeyEncoding.{
  ChunkKeySeparator, slash, dot, char, join, encode_default, encode_default_suffix, encode_v2,
}
use zarrs.KeyEncoding.Components.{Without, AllWithout, join-injective}
use zarrs.KeyEncoding.Valid.{AllNonempty, join-validate}

abbrev pub AllDigits : List ℕ → Type 0
AllDigits [] = Unit
AllDigits (c ∷ s) = (48 ≤ c) × (c ≤ 57) × AllDigits s

-- `itoa` documents the decimal digits of the number: some, and those of no other number.
pub record IsDecimal (format : ℕ → List ℕ) : Type 0 where
  pub nonempty : (n : ℕ) → format n ≢ []
  pub digits : (n : ℕ) → AllDigits (format n)
  pub injective : (m n : ℕ) → format m ≡ format n → m ≡ n

AllDigits-Without :
    (separator : ℕ) (s : List ℕ) → separator ≤ 47 → AllDigits s → Without separator s
AllDigits-Without separator [] h d = refl
AllDigits-Without separator (c ∷ s) h (lo, hi, d) =
    ground (arith, AllDigits-Without separator s h d)

char-le : (separator : ChunkKeySeparator) → char separator ≤ 47
unfolding char
char-le slash = omega arith
char-le dot = omega arith

module _ (format : ℕ → List ℕ) (decimal : IsDecimal format) where
  formatted-Without :
      (separator : ℕ) (is : List ℕ) → separator ≤ 47 → AllWithout separator (map format is)
  formatted-Without separator [] h = tt
  formatted-Without separator (i ∷ is) h = (
    AllDigits-Without separator (format i) h (decimal.digits i),
    formatted-Without separator is h,
  )

  formatted-AllNonempty : (is : List ℕ) → AllNonempty (map format is)
  formatted-AllNonempty [] = tt
  formatted-AllNonempty (i ∷ is) =
      nonempty_cons (format i) (map format is) (decimal.nonempty i) (formatted-AllNonempty is)
    where
      nonempty_cons :
          (x : List ℕ) (xs : List (List ℕ)) → x ≢ [] → AllNonempty xs → AllNonempty (x ∷ xs)
      nonempty_cons [] xs n h = absurd (n refl)
      nonempty_cons (c ∷ x) xs n h = h

  map-injective : (is js : List ℕ) → map format is ≡ map format js → is ≡ js
  map-injective [] [] e = refl
  map-injective [] (j ∷ js) e = cc
  map-injective (i ∷ is) [] e = cc
  map-injective (i ∷ is) (j ∷ js) e =
      let (h, t) = parts e in ap₂ ◌∷◌ (decimal.injective i j h) (map-injective is js t)
    where
      parts : {x y : List ℕ} {xs ys : List (List ℕ)} → x ∷ xs ≡ y ∷ ys → (x ≡ y) × (xs ≡ ys)
      parts e = (cc, cc)

  cons-injective : {c : ℕ} {xs ys : List (List ℕ)} → (c ∷ []) ∷ xs ≡ (c ∷ []) ∷ ys → xs ≡ ys
  cons-injective e = cc

  c-Without : (separator : ℕ) → separator ≤ 47 → Without separator (99 ∷ [])
  c-Without separator h = ground arith

  joined : ChunkKeySeparator → List ℕ → List ℕ
  unfolding join
  joined separator is = join (char separator) ((99 ∷ []) ∷ map format is)

  encode_default-joined :
      (separator : ChunkKeySeparator) (is : List ℕ)
      → encode_default format separator is ≡ joined separator is
  unfolding encode_default joined join
  encode_default-joined separator [] = refl
  encode_default-joined separator (i ∷ is) = refl

  -- With indices printed in decimal, the default encoding gives different chunks, of any
  -- dimensionality, different keys, and each a key that is valid.
  pub encode_default_lem :
      (separator : ChunkKeySeparator) (is js : List ℕ)
      → (encode_default format separator is ≡ encode_default format separator js → is ≡ js)
        × (validate (encode_default format separator is) ≡ true)
  unfolding joined
  encode_default_lem separator is js =
      let sep = char separator in
      let components : (is : List ℕ) → AllWithout sep ((99 ∷ []) ∷ map format is) =
        λ is. (c-Without sep (char-le separator), formatted-Without sep is (char-le separator)) in
      (
        λ e. map-injective is js (
            cons-injective (
              join-injective sep (99 ∷ []) (99 ∷ []) (map format is) (map format js) (components is)
                (components js)
                (sym (encode_default-joined separator is)
                  ∙ e
                  ∙ encode_default-joined separator js))),
        ap validate (encode_default-joined separator is)
            ∙ join-validate sep (99 ∷ []) (map format is)
                (c-Without 47 (omega arith), formatted-Without 47 is (omega arith))
                (formatted-AllNonempty is),
      )

  encode_default_suffix-eq :
      (separator : ChunkKeySeparator) (suffix is : List ℕ)
      → encode_default_suffix format separator suffix is
        ≡ encode_default format separator is ++ suffix
  unfolding encode_default_suffix encode_default
  encode_default_suffix-eq separator suffix [] = refl
  encode_default_suffix-eq separator suffix (i ∷ is) = refl

  -- With indices printed in decimal, the encoding with a suffix appends it to the key of the default
  -- encoding, and so gives different chunks different keys.
  pub encode_default_suffix_lem :
      (separator : ChunkKeySeparator) (suffix is js : List ℕ)
      → (encode_default_suffix format separator suffix is
          ≡ encode_default format separator is ++ suffix)
        × (encode_default_suffix format separator suffix is
              ≡ encode_default_suffix format separator suffix js
            → is ≡ js)
  encode_default_suffix_lem separator suffix is js = (
    encode_default_suffix-eq separator suffix is,
    λ e. (encode_default_lem separator is js).0 (
        append_cancel_right _ _ suffix (
          sym (encode_default_suffix-eq separator suffix is)
          ∙ e
          ∙ encode_default_suffix-eq separator suffix js)),
  )

  -- With indices printed in decimal, the encoding of version 2 gives different chunks of the same
  -- dimensionality different keys, and each a key that is valid.
  pub encode_v2_lem :
      (separator : ChunkKeySeparator) (is js : List ℕ)
      → length is ≡ length js
      → (encode_v2 format separator is ≡ encode_v2 format separator js → is ≡ js)
        × (validate (encode_v2 format separator is) ≡ true)
  unfolding encode_v2 validate starts_with ends_with_slash contains_slashes
  encode_v2_lem separator [] [] h = (λ e. refl, refl)
  encode_v2_lem separator [] (j ∷ js) h = absurd (omega arith)
  encode_v2_lem separator (i ∷ is) [] h = absurd (omega arith)
  encode_v2_lem separator (i ∷ is) (j ∷ js) h =
      let sep = char separator in
      let components = λ (is : List ℕ). formatted-Without sep is (char-le separator) in
      (
        λ e. map-injective (i ∷ is) (j ∷ js) (
            join-injective sep (format i) (format j) (map format is) (map format js)
              (components (i ∷ is)) (components (j ∷ js)) e),
        join-validate sep (format i) (map format is) (formatted-Without 47 (i ∷ is) (omega arith))
            (formatted-AllNonempty (i ∷ is)),
      )
