-- ===== src/Common/Words.antt =====
-- Unsigned 64-bit words (`u64`, and `usize` on a 64-bit target) as native numbers. The operators of
-- the source wrap around, as they do in a release build; `saturating_sub` is `-`.
use Prim.Native.Nat.{ℕ, ◌+◌, ◌-◌, ◌*◌, ◌/◌, ◌%◌, ◌^◌, ◌≤◌, ◌<◌}
use mathlib.Core.Path.{◌≡◌, ap, ◌∙◌}
use mathlib.Core.Option.{Option, none, some}
use native.Mathlib.Omega.{arith}
use native.Mathlib.Nat.{mod-eq_of_lt, div-add-mod, mul_comm, mul-add-div_right, div-eq_of_lt}
use zarrs.Common.Tests.{ltb, if◌then◌else◌}

abbrev pub u64_mod : ℕ
u64_mod = 2 ^ 64

-- a + b
abbrev pub add_u64 : ℕ → ℕ → ℕ
add_u64 a b = (a + b) % u64_mod

-- a - b
abbrev pub sub_u64 : ℕ → ℕ → ℕ
sub_u64 a b = (a + u64_mod - b) % u64_mod

-- a * b
abbrev pub mul_u64 : ℕ → ℕ → ℕ
mul_u64 a b = (a * b) % u64_mod

-- a.checked_mul(b)
abbrev pub checked_mul_u64 : ℕ → ℕ → Option ℕ
checked_mul_u64 a b = if ltb (a * b) u64_mod then some (a * b) else none

-- a.div_ceil(b)
abbrev pub div_ceil : ℕ → ℕ → ℕ
div_ceil a b = if ltb 0 (a % b) then a / b + 1 else a / b

pub mul_u64-eq-mul : (a b : ℕ) → a * b < u64_mod → mul_u64 a b ≡ a * b
mul_u64-eq-mul a b h = mod-eq_of_lt h

pub add_u64-eq-add : (a b : ℕ) → a + b < u64_mod → add_u64 a b ≡ a + b
add_u64-eq-add a b h = mod-eq_of_lt h

pub sub_u64-eq-sub : (a b : ℕ) → b ≤ a → a < u64_mod → sub_u64 a b ≡ a - b
sub_u64-eq-sub a b h k = omega arith

pub mul-mod-mod : (a b : ℕ) → (a * (b % u64_mod)) % u64_mod ≡ (a * b) % u64_mod
mul-mod-mod a b = omega (arith, ap (λ (t : ℕ). a * t) (div-add-mod b u64_mod))

-- Accumulating products in words is accumulating them, modulo 2 ^ 64.
pub add_u64-mul_u64 :
    (l i p : ℕ) → add_u64 (l % u64_mod) (mul_u64 i (p % u64_mod)) ≡ (i * p + l) % u64_mod
add_u64-mul_u64 l i p = omega (arith, mul-mod-mod i p)

pub mul_u64-mod : (p s : ℕ) → mul_u64 (p % u64_mod) s ≡ (s * p) % u64_mod
mul_u64-mod p s = omega (arith, mul-mod-mod s p, mul_comm (p % u64_mod) s)

-- The quotient and the remainder of a multiple and less than the divisor.
pub quotient : (r l d : ℕ) → d < l → ((r * l + d) / l ≡ r) × ((r * l + d) % l ≡ d)
quotient r l d h =
    let q : (r * l + d) / l ≡ r =
      mul-add-div_right {m = l} (omega arith) r d ∙ omega (arith, div-eq_of_lt h) in
    (q, omega (arith, div-add-mod (r * l + d) l, ap (λ (t : ℕ). l * t) q))
