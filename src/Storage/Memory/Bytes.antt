-- ===== src/Storage/Memory/Bytes.antt =====
-- The bytes that a write leaves (zarrs_storage/src/store/memory_store.rs).
use zarrs.Common.{
  ℕ, ◌+◌, ◌-◌, ◌<◌, ◌≤◌, max, ◌≡◌, refl, sym, subst, ap, ◌∙◌, inl, inr, true, false, some, List, [],
  ◌∷◌, ◌++◌, Bool-cases, Bool, arith, if◌then◌else◌, ◌==◌, ltb, leb, ◌&&◌, u64_mod, add_u64, length,
  take, drop, resize, replicate, length-append, length-replicate, length-take, length-drop,
  get_elem?, get_elem?-append_lt, get_elem?-append_ge, get_elem?-take, get_elem?-drop,
  get_elem?-replicate, get_elem?-beyond,
}
use native.Mathlib.Decide.{dec_lt}
use zarrs.Storage.Memory.{overwrite, write_slice, is_empty}

-- `written` is `entry` with `value` at `offset`: zeros fill a gap, and a truncating write ends it.
pub record IsWritten (entry value : List ℕ) (offset : ℕ) (truncate : Bool) (written : List ℕ)
    : Type 0 where
  pub size :
      length written
      ≡ (if truncate then offset + length value else max (length entry) (offset + length value))
  pub before : (i : ℕ) → i < offset → i < length entry → get_elem? written i ≡ get_elem? entry i
  pub gap : (i : ℕ) → i < offset → length entry ≤ i → get_elem? written i ≡ some 0
  pub inside : (i : ℕ) → i < length value → get_elem? written (offset + i) ≡ get_elem? value i
  pub beyond :
      truncate ≡ false
      → (i : ℕ) → offset + length value ≤ i
      → get_elem? written i ≡ get_elem? entry i

-- The entry at the size at which it is written into.
sized : List ℕ → ℕ → Bool → List ℕ
sized entry stop truncate =
    if ltb (length entry) stop
    then resize stop 0 entry
    else if truncate
    then take stop entry
    else entry

module _ (entry : List ℕ) (stop : ℕ) (truncate : Bool) where
  sized-grown :
      length entry < stop → sized entry stop truncate ≡ entry ++ replicate (stop - length entry) 0
  unfolding sized
  sized-grown h = let small : ltb (length entry) stop ≡ true = ground arith in rw small refl

  sized-cut : stop ≤ length entry → truncate ≡ true → sized entry stop truncate ≡ take stop entry
  unfolding sized
  sized-cut h e = let large : ltb (length entry) stop ≡ false = ground arith in rw (large, e)

  sized-kept : stop ≤ length entry → truncate ≡ false → sized entry stop truncate ≡ entry
  unfolding sized
  sized-kept h e = let large : ltb (length entry) stop ≡ false = ground arith in rw (large, e)

  length-sized :
      length (sized entry stop truncate) ≡ (if truncate then stop else max (length entry) stop)
  length-sized = elim (dec_lt (length entry) stop) [
    | yes h ↦
        ap length (sized-grown h)
        ∙ length-append entry (replicate (stop - length entry) 0)
        ∙ ground (arith, length-replicate {A = ℕ} (stop - length entry) 0)
    | no h ↦ elim (Bool-cases truncate) [
      | inl e ↦ ap length (sized-cut (omega arith) e) ∙ length-take stop entry ∙ ground arith
      | inr e ↦ ap length (sized-kept (omega arith) e) ∙ ground arith
    ]
  ]

  get_elem?-sized :
      (i : ℕ)
      → i < length entry
      → i < stop
      → get_elem? (sized entry stop truncate) i ≡ get_elem? entry i
  get_elem?-sized i h k = elim (dec_lt (length entry) stop) [
    | yes g ↦ ap (λ (t : List ℕ). get_elem? t i) (sized-grown g) ∙ get_elem?-append_lt entry _ i h
    | no g ↦ elim (Bool-cases truncate) [
      | inl e ↦
          ap (λ (t : List ℕ). get_elem? t i) (sized-cut (omega arith) e)
          ∙ get_elem?-take stop entry i k
      | inr e ↦ ap (λ (t : List ℕ). get_elem? t i) (sized-kept (omega arith) e)
    ]
  ]

  get_elem?-sized_gap :
      (i : ℕ) → length entry ≤ i → i < stop → get_elem? (sized entry stop truncate) i ≡ some 0
  get_elem?-sized_gap i h k =
      ap (λ (t : List ℕ). get_elem? t i) (sized-grown (omega arith))
      ∙ get_elem?-append_ge entry _ i h
      ∙ get_elem?-replicate (stop - length entry) 0 (i - length entry) (omega arith)

  get_elem?-sized_beyond :
      truncate ≡ false
      → (i : ℕ) → stop ≤ i
      → get_elem? (sized entry stop truncate) i ≡ get_elem? entry i
  get_elem?-sized_beyond e i k = elim (dec_lt (length entry) stop) [
    | yes g ↦
        get_elem?-beyond (sized entry stop truncate) i (ground (arith, length-sized))
        ∙ sym (get_elem?-beyond entry i (omega arith))
    | no g ↦ ap (λ (t : List ℕ). get_elem? t i) (sized-kept (omega arith) e)
  ]

-- A slice of a list replaced by a value.
module _ (d value : List ℕ) (offset : ℕ) (room : offset + length value ≤ length d) where
  abbrev replaced : List ℕ
  replaced = take offset d ++ value ++ drop (offset + length value) d

  length-front : length (take offset d ++ value) ≡ offset + length value
  length-front = length-append (take offset d) value ∙ omega (arith, length-take offset d)

  write_slice-eq : offset + length value < u64_mod → write_slice d offset value ≡ some replaced
  unfolding write_slice
  write_slice-eq h =
      let exact : add_u64 offset (length value) ≡ offset + length value = omega arith in
      let a : leb offset (offset + length value) ≡ true = ground arith in
      let b : leb (offset + length value) (length d) ≡ true = ground arith in
      let c : (offset + length value - offset == length value) ≡ true = ground arith in
      rw (exact, a, b, c)

  length-replaced : length replaced ≡ length d
  length-replaced =
      length-append (take offset d ++ value) (drop (offset + length value) d)
      ∙ omega (arith, length-front, length-drop (offset + length value) d)

  replaced-before : (i : ℕ) → i < offset → get_elem? replaced i ≡ get_elem? d i
  replaced-before i h =
      get_elem?-append_lt (take offset d ++ value) _ i (omega (arith, length-front))
      ∙ get_elem?-append_lt (take offset d) value i (omega (arith, length-take offset d))
      ∙ get_elem?-take offset d i h

  replaced-inside : (i : ℕ) → i < length value → get_elem? replaced (offset + i) ≡ get_elem? value i
  replaced-inside i h =
      let front = length-take offset d in
      get_elem?-append_lt (take offset d ++ value) _ (offset + i) (omega (arith, length-front))
      ∙ get_elem?-append_ge (take offset d) value (offset + i) (omega (arith, front))
      ∙ ap (get_elem? value) (omega (arith, front))

  replaced-beyond : (i : ℕ) → offset + length value ≤ i → get_elem? replaced i ≡ get_elem? d i
  replaced-beyond i h =
      get_elem?-append_ge (take offset d ++ value) _ i (omega (arith, length-front))
      ∙ get_elem?-drop (offset + length value) d (i - length (take offset d ++ value))
      ∙ ap (get_elem? d) (omega (arith, length-front))

overwrite-sized :
    (entry value : List ℕ) (offset : ℕ) (truncate : Bool)
    → offset + length value < u64_mod
    → (offset == 0 && is_empty entry) ≡ false
    → overwrite entry value offset truncate
      ≡ write_slice (sized entry (offset + length value) truncate) offset value
unfolding overwrite sized
overwrite-sized entry value offset truncate h e =
    let exact : add_u64 offset (length value) ≡ offset + length value = omega arith in rw (e, exact)

overwrite-fresh :
    (entry value : List ℕ) (offset : ℕ) (truncate : Bool)
    → (offset == 0 && is_empty entry) ≡ true
    → overwrite entry value offset truncate ≡ some value
unfolding overwrite
overwrite-fresh entry value offset truncate e = rw e refl

fresh :
    (entry : List ℕ) (offset : ℕ)
    → (offset == 0 && is_empty entry) ≡ true
    → (offset ≡ 0) × (entry ≡ [])
fresh [] offset h = (ground arith, refl)
fresh (b ∷ entry) offset h = absurd (ground arith)

value-IsWritten :
    (value : List ℕ) (offset : ℕ) (truncate : Bool)
    → offset ≡ 0
    → IsWritten [] value offset truncate value
value-IsWritten value offset truncate z = record {
  size = ground arith;
  before = λ i h k. absurd (omega arith);
  gap = λ i h k. absurd (omega arith);
  inside = λ i h. ap (get_elem? value) (omega arith);
  beyond = λ e i h. get_elem?-beyond value i (omega arith);
}

replaced-IsWritten :
    (entry value : List ℕ) (offset : ℕ) (truncate : Bool)
    → offset + length value < u64_mod
    → (written : List ℕ) × (write_slice (sized entry (offset + length value) truncate) offset value
        ≡ some written)
      × IsWritten entry value offset truncate written
replaced-IsWritten entry value offset truncate h =
    let stop = offset + length value in
    let d = sized entry stop truncate in
    let size = length-sized entry stop truncate in
    let room : stop ≤ length d = ground (arith, size) in
    (
      replaced d value offset room,
      write_slice-eq d value offset room h,
      record {
        size = length-replaced d value offset room ∙ size;
        before = λ i a b.
            replaced-before d value offset room i a
            ∙ get_elem?-sized entry stop truncate i b (omega arith);
        gap = λ i a b.
            replaced-before d value offset room i a
            ∙ get_elem?-sized_gap entry stop truncate i b (omega arith);
        inside = replaced-inside d value offset room;
        beyond = λ e i a.
            replaced-beyond d value offset room i a
            ∙ get_elem?-sized_beyond entry stop truncate e i a;
      },
    )

pub overwrite-IsWritten :
    (entry value : List ℕ) (offset : ℕ) (truncate : Bool)
    → offset + length value < u64_mod
    → (written : List ℕ) × (overwrite entry value offset truncate ≡ some written)
      × IsWritten entry value offset truncate written
overwrite-IsWritten entry value offset truncate h =
    elim (Bool-cases (offset == 0 && is_empty entry)) [
      | inl e ↦
          let (z, empty) = fresh entry offset e in
          (
            value,
            overwrite-fresh entry value offset truncate e,
            subst (λ (t : List ℕ). IsWritten t value offset truncate value) (sym empty)
                (value-IsWritten value offset truncate z),
          )
      | inr e ↦
          let (written, a, b) = replaced-IsWritten entry value offset truncate h in
          (written, overwrite-sized entry value offset truncate h e ∙ a, b)
    ]
