-- ===== src/Storage/Key.antt =====
-- `StoreKey` and `StorePrefix` (zarrs_storage/src/store_key.rs, zarrs_storage/src/store_prefix.rs): both
-- are their string.
pub mod Parent
pub mod Order
use zarrs.Common.{
  ℕ, zero, suc, ◌+◌, Bool, true, false, not, ◌&&◌, ◌||◌, Option, none, some, List, [], ◌∷◌, ◌++◌,
  ltb, ◌==◌, if◌then◌else◌, Result, ok, err,
}

-- '/'
abbrev pub slash : ℕ
slash = 47

unfoldable pub starts_with : List ℕ → List ℕ → Bool
starts_with s [] = true
starts_with [] (p ∷ rest) = false
starts_with (c ∷ s) (p ∷ rest) = c == p && starts_with s rest

unfoldable pub ends_with_slash : List ℕ → Bool
ends_with_slash [] = false
ends_with_slash (c ∷ []) = c == slash
ends_with_slash (c ∷ d ∷ s) = ends_with_slash (d ∷ s)

-- contains("//")
unfoldable pub contains_slashes : List ℕ → Bool
contains_slashes [] = false
contains_slashes (c ∷ []) = false
contains_slashes (c ∷ d ∷ s) = (c == slash && d == slash) || contains_slashes (d ∷ s)

abbrev pub is_empty : List ℕ → Bool
is_empty [] = true
is_empty (c ∷ s) = false

-- `StoreKey::validate`
unfoldable pub validate : List ℕ → Bool
unfolding starts_with ends_with_slash contains_slashes
validate key =
    not (starts_with key (slash ∷ [])) && not (ends_with_slash key) && not (contains_slashes key)

-- `StorePrefix::validate`
unfoldable pub validate_prefix : List ℕ → Bool
unfolding starts_with ends_with_slash
validate_prefix text =
    is_empty text || (ends_with_slash text && not (starts_with text (slash ∷ [])))

pub data StoreKeyError : Type 0 where
  invalid_store_key : List ℕ → StoreKeyError

pub data StorePrefixError : Type 0 where
  invalid_store_prefix : List ℕ → StorePrefixError

unfoldable pub new : List ℕ → Result (List ℕ) StoreKeyError
unfolding validate
new key = if validate key then ok key else err (invalid_store_key key)

unfoldable pub new_prefix : List ℕ → Result (List ℕ) StorePrefixError
unfolding validate_prefix
new_prefix p = if validate_prefix p then ok p else err (invalid_store_prefix p)

unfoldable pub has_prefix : List ℕ → List ℕ → Bool
unfolding starts_with
has_prefix key p = starts_with key p

pub to_prefix : List ℕ → List ℕ
to_prefix [] = []
to_prefix (c ∷ key) = c ∷ key ++ slash ∷ []

-- The components of a string between the slashes.
cons_head : ℕ → List (List ℕ) → List (List ℕ)
cons_head c [] = (c ∷ []) ∷ []
cons_head c (x ∷ xs) = (c ∷ x) ∷ xs

pub split : List ℕ → List (List ℕ)
unfolding cons_head
split [] = [] ∷ []
split (c ∷ s) = if c == slash then [] ∷ split s else cons_head c (split s)

-- join("/")
join : List (List ℕ) → List ℕ
join [] = []
join (x ∷ []) = x
join (x ∷ y ∷ xs) = x ++ slash ∷ join (y ∷ xs)

-- key_split[..key_split.len() - 1]
init : List (List ℕ) → List (List ℕ)
init [] = []
init (x ∷ []) = []
init (x ∷ y ∷ xs) = x ∷ init (y ∷ xs)

-- if !parent.is_empty() { parent.push('/') }
push_slash : List ℕ → List ℕ
push_slash [] = []
push_slash (c ∷ s) = c ∷ s ++ slash ∷ []

pub parent : List ℕ → List ℕ
unfolding split join init push_slash
parent key = push_slash (join (init (split key)))

-- strip_suffix('/').unwrap_or(prefix)
strip_slash : List ℕ → List ℕ
strip_slash [] = []
strip_slash (c ∷ []) = if c == slash then [] else c ∷ []
strip_slash (c ∷ d ∷ s) = c ∷ strip_slash (d ∷ s)

-- `StoreKey::from(&StorePrefix)`
pub from_prefix : List ℕ → List ℕ
unfolding strip_slash
from_prefix p = strip_slash p

-- `Ord` of strings: by bytes, the shorter first.
pub key_lt : List ℕ → List ℕ → Bool
key_lt a [] = false
key_lt [] (d ∷ b) = true
key_lt (c ∷ a) (d ∷ b) = ltb c d || (c == d && key_lt a b)

unfoldable pub key_eq : List ℕ → List ℕ → Bool
key_eq [] [] = true
key_eq (c ∷ a) (d ∷ b) = c == d && key_eq a b
key_eq _ _ = false
