-- ===== src/Storage/Key/Order.antt =====
-- The order of keys in the map of the store (zarrs_storage/src/store_key.rs).
use zarrs.Common.{ℕ, ◌≡◌, refl, ap₂, true, false, List, [], ◌∷◌, arith}
use zarrs.Storage.Key.{key_lt, key_eq}

pub key_eq_sound : (a b : List ℕ) → key_eq a b ≡ true → a ≡ b
unfolding key_eq
key_eq_sound [] [] h = refl
key_eq_sound [] (d ∷ b) h = cc
key_eq_sound (c ∷ a) [] h = cc
key_eq_sound (c ∷ a) (d ∷ b) h = ap₂ ◌∷◌ (ground arith) (key_eq_sound a b (ground arith))

pub key_eq_refl : (a : List ℕ) → key_eq a a ≡ true
unfolding key_eq
key_eq_refl [] = refl
key_eq_refl (c ∷ a) = ground (arith, key_eq_refl a)

pub key_lt-total : (a b : List ℕ) → key_eq a b ≡ false → key_lt a b ≡ false → key_lt b a ≡ true
unfolding key_eq key_lt
key_lt-total [] [] h k = cc
key_lt-total [] (d ∷ b) h k = cc
key_lt-total (c ∷ a) [] h k = refl
key_lt-total (c ∷ a) (d ∷ b) h k = ground (arith, key_lt-total a b)

pub key_lt_irrefl : (a : List ℕ) → key_lt a a ≡ false
unfolding key_lt
key_lt_irrefl [] = refl
key_lt_irrefl (c ∷ a) = ground (arith, key_lt_irrefl a)

pub key_lt_trans : (a b c : List ℕ) → key_lt a b ≡ true → key_lt b c ≡ true → key_lt a c ≡ true
unfolding key_lt
key_lt_trans a [] c h k = cc
key_lt_trans a (y ∷ b) [] h k = cc
key_lt_trans [] (y ∷ b) (z ∷ c) h k = refl
key_lt_trans (x ∷ a) (y ∷ b) (z ∷ c) h k = ground (arith, key_lt_trans a b c)
