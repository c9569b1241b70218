-- ===== src/Codec/ArrayBytes/Elements.antt =====
-- A list of elements of variable length as bytes and offsets, the meaning that
-- zarrs_codec/src/array_bytes.rs is held to.
use zarrs.Common.{ℕ, suc, ◌+◌, ◌≡◌, refl, ap, List, [], ◌∷◌, ◌++◌, length}

abbrev pub concat : List (List ℕ) → List ℕ
concat [] = []
concat (e ∷ elements) = e ++ concat elements

-- The offset of each element, from the first, and that of the end.
abbrev pub positions : ℕ → List (List ℕ) → List ℕ
positions o [] = o ∷ []
positions o (e ∷ elements) = o ∷ positions (o + length e) elements

-- Elements one after another, behind some padding.
pub record IsElements (bytes offsets : List ℕ) (padding : List ℕ) (elements : List (List ℕ))
    : Type 0 where
  pub bytes_are : bytes ≡ padding ++ concat elements
  pub offsets_are : offsets ≡ positions (length padding) elements

pub length-positions :
    (o : ℕ) (elements : List (List ℕ)) → length (positions o elements) ≡ suc (length elements)
length-positions o [] = refl
length-positions o (e ∷ elements) = ap suc (length-positions (o + length e) elements)
