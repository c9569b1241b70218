-- ===== src/Codec/Fletcher32/Total.antt =====
-- The loops of the `fletcher32` checksum end and stay within the data
-- (zarrs/src/array/codec/bytes_to_bytes/fletcher32/fletcher32_codec.rs).
use zarrs.Common.{
  ℕ, zero, suc, ◌+◌, ◌-◌, ◌*◌, ◌^◌, ◌%◌, ◌/◌, ◌≤◌, ◌<◌, ◌≡◌, refl, min, some, List, [], ◌∷◌, ◌++◌,
  arith, length,
}
use Prim.Native.Nat.{bit_or}
use zarrs.Codec.Fletcher32.{fold_sum, Sums, sum_words, sum_blocks, odd_byte, h5_checksum_fletcher32}

-- The same sums with more data behind.
abbrev pub extended : Sums → List ℕ → Sums
extended s more = record { sum1 = s.sum1; sum2 = s.sum2; rest = s.rest ++ more }

pub words_total :
    (n a b : ℕ) (rest more : List ℕ)
    → 2 * n ≤ length rest
    → (t : Sums) × (sum_words n (record { sum1 = a; sum2 = b; rest = rest }) ≡ some t)
      × (sum_words n (record { sum1 = a; sum2 = b; rest = rest ++ more }) ≡ some (extended t more))
      × (length t.rest + 2 * n ≡ length rest)
unfolding sum_words
words_total zero a b rest more h =
    (record { sum1 = a; sum2 = b; rest = rest }, refl, refl, omega arith)
words_total (suc n) a b [] more h = absurd (omega arith)
words_total (suc n) a b (x ∷ []) more h = absurd (omega arith)
words_total (suc n) a b (x ∷ y ∷ rest) more h =
    let (t, e, f, l) = words_total n _ _ rest more (omega arith) in (t, e, f, omega arith)

pub blocks_total :
    (fuel len a b : ℕ) (rest more : List ℕ)
    → len < fuel
    → 2 * len ≤ length rest
    → (t : Sums) × (sum_blocks fuel len (record { sum1 = a; sum2 = b; rest = rest })
        ≡ some (zero, t))
      × (sum_blocks fuel len (record { sum1 = a; sum2 = b; rest = rest ++ more })
          ≡ some (zero, extended t more))
unfolding sum_blocks
blocks_total zero len a b rest more lt h = absurd (omega arith)
blocks_total (suc fuel) zero a b rest more lt h =
    (record { sum1 = a; sum2 = b; rest = rest }, refl, refl)
blocks_total (suc fuel) (suc len) a b rest more lt h =
    let (t, e, f, l) = words_total (min (suc len) 360) a b rest more (omega arith) in
    let (u, g, k) =
      blocks_total fuel (suc len - min (suc len) 360) (fold_sum t.sum1) (fold_sum t.sum2) t.rest
        more (omega arith) (omega arith) in
    (u, rw (e, g), rw (f, k))

abbrev pub final : Sums → ℕ
final t = bit_or (fold_sum t.sum2 * 65536 % 2 ^ 32) (fold_sum t.sum1)

-- The checksum of any bytes is computed: the loops end and no index is out of bounds.
pub checksum_total : (bytes : List ℕ) → (c : ℕ) × (h5_checksum_fletcher32 bytes ≡ some c)
unfolding h5_checksum_fletcher32 odd_byte
checksum_total bytes =
    let (t, e, f) =
      blocks_total (suc (length bytes / 2)) (length bytes / 2) 0 0 bytes [] (omega arith)
        (omega arith) in
    (final t, rw e refl)
