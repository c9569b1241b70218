-- ===== src/Codec/Transpose.antt =====
-- The order of the `transpose` codec (zarrs/src/array/codec/array_to_array/transpose.rs).
pub mod Inverse
use zarrs.Common.{
  ℕ, zero, suc, Option, none, some, List, [], ◌∷◌, map, ◌==◌, if◌then◌else◌, length, replicate,
  get_elem?, collect, bind_option, Outcome, returns, and_then, checked,
}
use zarrs.Codec.{CodecError}
use zarrs.Codec.Shuffle.{set_elem}

-- for (i, &val) in order.iter().enumerate() { inverse[val] = i; }, from `i` on; `none` is a panic.
unfoldable pub inverse_loop : List ℕ → ℕ → List ℕ → Option (List ℕ)
inverse_loop [] i inverse = some inverse
inverse_loop (val ∷ order) i inverse =
    bind_option (set_elem inverse val i) (inverse_loop order (suc i))

unfoldable pub inverse_permutation : List ℕ → Option (List ℕ)
inverse_permutation order = inverse_loop order 0 (replicate (length order) 0)

-- An axis that is out of bounds is a panic.
unfoldable pub permute : List ℕ → List ℕ → Outcome (Option (List ℕ)) CodecError
permute v order =
    if length v == length order
    then and_then (checked (collect (map (get_elem? v) order))) (λ vec. returns (some vec))
    else returns none
