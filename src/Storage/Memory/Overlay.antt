-- ===== src/Storage/Memory/Overlay.antt =====
-- What a write at an offset makes of a value, byte by byte
-- (zarrs_storage/src/store/memory_store.rs).
use zarrs.Common.{
  ℕ, zero, suc, ◌+◌, ◌<◌, ◌≤◌, max, ◌≡◌, refl, ap, sym, ◌∙◌, false, some, List, [], ◌∷◌, arith,
  length, get_elem?, extensional, ◌-◌,
}
use native.Mathlib.Decide.{dec_lt}
use zarrs.Storage.Memory.Bytes.{IsWritten}

-- A value put over an entry from an offset on: zeros fill a gap, and what lies beyond stays.
unfoldable pub overlay : List ℕ → ℕ → List ℕ → List ℕ
overlay [] zero value = value
overlay (b ∷ entry) zero [] = b ∷ entry
overlay (b ∷ entry) zero (v ∷ value) = v ∷ overlay entry zero value
overlay [] (suc offset) value = 0 ∷ overlay [] offset value
overlay (b ∷ entry) (suc offset) value = b ∷ overlay entry offset value

length-overlay :
    (entry : List ℕ) (offset : ℕ) (value : List ℕ)
    → length (overlay entry offset value) ≡ max (length entry) (offset + length value)
unfolding overlay
length-overlay [] zero value = omega arith
length-overlay (b ∷ entry) zero [] = omega arith
length-overlay (b ∷ entry) zero (v ∷ value) = omega (arith, length-overlay entry zero value)
length-overlay [] (suc offset) value = omega (arith, length-overlay [] offset value)
length-overlay (b ∷ entry) (suc offset) value = omega (arith, length-overlay entry offset value)

overlay_before :
    (entry : List ℕ) (offset : ℕ) (value : List ℕ) (i : ℕ)
    → i < offset
    → i < length entry
    → get_elem? (overlay entry offset value) i ≡ get_elem? entry i
unfolding overlay
overlay_before entry zero value i h l = absurd (omega arith)
overlay_before [] (suc offset) value i h l = absurd (omega arith)
overlay_before (b ∷ entry) (suc offset) value zero h l = refl
overlay_before (b ∷ entry) (suc offset) value (suc i) h l =
    overlay_before entry offset value i (omega arith) (omega arith)

overlay_gap :
    (entry : List ℕ) (offset : ℕ) (value : List ℕ) (i : ℕ)
    → i < offset
    → length entry ≤ i
    → get_elem? (overlay entry offset value) i ≡ some 0
unfolding overlay
overlay_gap entry zero value i h l = absurd (omega arith)
overlay_gap [] (suc offset) value zero h l = refl
overlay_gap [] (suc offset) value (suc i) h l =
    overlay_gap [] offset value i (omega arith) (omega arith)
overlay_gap (b ∷ entry) (suc offset) value zero h l = absurd (omega arith)
overlay_gap (b ∷ entry) (suc offset) value (suc i) h l =
    overlay_gap entry offset value i (omega arith) (omega arith)

overlay_inside :
    (entry : List ℕ) (offset : ℕ) (value : List ℕ) (k i : ℕ)
    → k ≡ offset + i
    → i < length value
    → get_elem? (overlay entry offset value) k ≡ get_elem? value i
unfolding overlay
overlay_inside [] zero value k i e h = ap (get_elem? value) (omega arith)
overlay_inside (b ∷ entry) zero [] k i e h = absurd (omega arith)
overlay_inside (b ∷ entry) zero (v ∷ value) zero zero e h = refl
overlay_inside (b ∷ entry) zero (v ∷ value) zero (suc i) e h = absurd (omega arith)
overlay_inside (b ∷ entry) zero (v ∷ value) (suc k) zero e h = absurd (omega arith)
overlay_inside (b ∷ entry) zero (v ∷ value) (suc k) (suc i) e h =
    overlay_inside entry zero value k i (omega arith) (omega arith)
overlay_inside entry (suc offset) value zero i e h = absurd (omega arith)
overlay_inside [] (suc offset) value (suc k) i e h =
    overlay_inside [] offset value k i (omega arith) h
overlay_inside (b ∷ entry) (suc offset) value (suc k) i e h =
    overlay_inside entry offset value k i (omega arith) h

overlay_beyond :
    (entry : List ℕ) (offset : ℕ) (value : List ℕ) (i : ℕ)
    → offset + length value ≤ i
    → i < length (overlay entry offset value)
    → get_elem? (overlay entry offset value) i ≡ get_elem? entry i
unfolding overlay
overlay_beyond [] zero value i h l = absurd (omega arith)
overlay_beyond (b ∷ entry) zero [] i h l = refl
overlay_beyond (b ∷ entry) zero (v ∷ value) zero h l = absurd (omega arith)
overlay_beyond (b ∷ entry) zero (v ∷ value) (suc i) h l =
    overlay_beyond entry zero value i (omega arith) (omega arith)
overlay_beyond [] (suc offset) value i h l = absurd (omega (arith, length-overlay [] offset value))
overlay_beyond (b ∷ entry) (suc offset) value zero h l = absurd (omega arith)
overlay_beyond (b ∷ entry) (suc offset) value (suc i) h l =
    overlay_beyond entry offset value i (omega arith) (omega arith)

-- The bytes that a write without truncation leaves are the overlay.
pub IsWritten-overlay :
    (entry value : List ℕ) (offset : ℕ) (bytes : List ℕ)
    → IsWritten entry value offset false bytes
    → bytes ≡ overlay entry offset value
IsWritten-overlay entry value offset bytes w =
    extensional bytes (overlay entry offset value)
      (w.size ∙ sym (length-overlay entry offset value))
      (λ i l. elim (dec_lt i offset) [
        | yes h ↦ elim (dec_lt i (length entry)) [
          | yes k ↦ w.before i h k ∙ sym (overlay_before entry offset value i h k)
          | no k ↦ w.gap i h (omega arith) ∙ sym (overlay_gap entry offset value i h (omega arith))
        ]
        | no h ↦ elim (dec_lt i (offset + length value)) [
          | yes k ↦
              let at : i ≡ offset + (i - offset) = omega arith in
              ap (get_elem? bytes) at
              ∙ w.inside (i - offset) (omega arith)
              ∙ sym (overlay_inside entry offset value i (i - offset) at (omega arith))
          | no k ↦
              w.beyond refl i (omega arith)
              ∙ sym (overlay_beyond entry offset value i (omega arith) l)
        ]
      ])
