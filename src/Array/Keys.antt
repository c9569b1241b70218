-- ===== src/Array/Keys.antt =====
-- Chunks have keys of their own (zarrs/src/node/key.rs), and with `MemoryStore` and the default key
-- encoding are stored apart from each other.
use mathlib.Core.List.{append_cancel_left}
use zarrs.Common.{ℕ, ◌≡◌, List, [], ◌∷◌}
use zarrs.Array.{data_key, under, strip_root}

cons-tail : (c d : ℕ) (xs ys : List ℕ) → c ∷ xs ≡ d ∷ ys → xs ≡ ys
cons-tail c d xs ys e = cc

under-injective : (path k l : List ℕ) → under path k ≡ under path l → k ≡ l
under-injective [] k l e = e
under-injective (c ∷ path) k l e = cons-tail _ _ k l (append_cancel_left (c ∷ path) _ _ e)

-- Under one path, different chunk keys are different keys of the store.
pub data_key-injective : (path k l : List ℕ) → data_key path k ≡ data_key path l → k ≡ l
unfolding data_key
data_key-injective path k l e = under-injective (strip_root path) k l e
