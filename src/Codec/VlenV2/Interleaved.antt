-- ===== src/Codec/VlenV2/Interleaved.antt =====
-- The loops of the `vlen_v2` codec on elements (zarrs/src/array/codec/array_to_bytes/vlen_v2.rs,
-- zarrs/src/array/codec/array_to_bytes/vlen_v2/vlen_v2_codec.rs).
use zarrs.Common.{
  ℕ, suc, ◌+◌, ◌-◌, ◌^◌, ◌<◌, ◌≡◌, refl, ap, ap₂, sym, subst, ◌∙◌, true, false, some, List, [], ◌∷◌,
  ◌++◌, arith, ltb, le→leb, ◌==◌, length, slice, add_u64, u64_mod, length-append, take-append,
  bind_option-step,
}
use mathlib.Core.List.{append_assoc, append-nil}
use zarrs.Codec.Bytes.{to_le_bytes, from_le_bytes-to_le_bytes, drop-append}
use zarrs.Codec.ArrayBytes.Elements.{concat, positions}
use zarrs.Codec.VlenV2.{encode_elements, decode_elements, read_u32, u32_try_from}

-- The length of each element and its bytes.
abbrev pub interleave : List (List ℕ) → List ℕ
interleave [] = []
interleave (e ∷ elements) = to_le_bytes (length e) ++ e ++ interleave elements

-- Every element is shorter than 2 ^ 32.
abbrev pub AllShort : List (List ℕ) → Type 0
AllShort [] = Unit
AllShort (e ∷ elements) = (length e < 2 ^ 32) × AllShort elements

slice_middle :
    (before middle after : List ℕ)
    → slice (before ++ middle ++ after) (length before) (length before + length middle)
      ≡ some middle
slice_middle before middle after =
    let whole = length-append (before ++ middle) after in
    let part = length-append before middle in
    let low = le→leb (length before) (length before + length middle) (omega arith) in
    let high =
      le→leb (length before + length middle) (length (before ++ middle ++ after)) (omega arith) in
    let size : length before + length middle - length before ≡ length middle = omega arith in
    rw (low, high, size, append_assoc before middle after, drop-append before (middle ++ after))
      (ap some (take-append middle after))

pub u32_try_from-some : (n : ℕ) → n < 2 ^ 32 → u32_try_from n ≡ some n
unfolding u32_try_from
u32_try_from-some n h = let t : ltb n (2 ^ 32) ≡ true = ground arith in rw t refl

encode_step :
    (bytes : List ℕ) (o n : ℕ) (elements : List (List ℕ)) (e rest : List ℕ)
    → slice bytes o n ≡ some e
    → length e < 2 ^ 32
    → encode_elements bytes (positions n elements) ≡ some rest
    → encode_elements bytes (o ∷ positions n elements) ≡ some (to_le_bytes (length e) ++ e ++ rest)
unfolding encode_elements u32_try_from
encode_step bytes o n [] e rest found short h = bind_option-step _ _ e _ found (
    bind_option-step _ _ (length e) _ (u32_try_from-some (length e) short)
      (bind_option-step _ (λ (t : List ℕ). some (to_le_bytes (length e) ++ e ++ t)) rest _ h refl))
encode_step bytes o n (x ∷ elements) e rest found short h = bind_option-step _ _ e _ found (
    bind_option-step _ _ (length e) _ (u32_try_from-some (length e) short)
      (bind_option-step _ (λ (t : List ℕ). some (to_le_bytes (length e) ++ e ++ t)) rest _ h refl))

pub encode_elements-interleave :
    (before : List ℕ) (elements : List (List ℕ))
    → AllShort elements
    → encode_elements (before ++ concat elements) (positions (length before) elements)
      ≡ some (interleave elements)
unfolding encode_elements
encode_elements-interleave before [] h = refl
encode_elements-interleave before (e ∷ elements) (s, h) =
    let longer : length before + length e ≡ length (before ++ e) = sym (length-append before e) in
    let joined : before ++ e ++ concat elements ≡ before ++ (e ++ concat elements) =
      append_assoc before e (concat elements) in
    encode_step (before ++ (e ++ concat elements)) (length before) (length before + length e)
      elements e (interleave elements)
      (subst (λ (t : List ℕ). slice t (length before) (length before + length e) ≡ some e) joined
        (slice_middle before e (concat elements)))
      s
      (subst
        (λ (t : List ℕ).
          encode_elements t (positions (length before + length e) elements)
          ≡ some (interleave elements))
        joined
        (subst
          (λ (n : ℕ).
            encode_elements (before ++ e ++ concat elements) (positions n elements)
            ≡ some (interleave elements))
          (sym longer) (encode_elements-interleave (before ++ e) elements h)))

-- Reading back the length of an element.
pub read_u32-middle :
    (before after : List ℕ) (n : ℕ)
    → n < 2 ^ 32
    → length before + 4 < u64_mod
    → read_u32 (before ++ to_le_bytes n ++ after) (length before) ≡ some n
unfolding read_u32
read_u32-middle before after n h b =
    let exact : add_u64 (length before) 4 ≡ length before + 4 = omega arith in
    let found = slice_middle before (to_le_bytes n) after in
    rw (exact, found) (ap some (from_le_bytes-to_le_bytes n h))

decode_step :
    (bytes : List ℕ) (left offset : ℕ) (out offsets e : List ℕ)
    → read_u32 bytes offset ≡ some (length e)
    → offset + 4 + length e < u64_mod
    → slice bytes (offset + 4) (offset + 4 + length e) ≡ some e
    → decode_elements bytes (suc left) offset out offsets
      ≡ decode_elements bytes left (offset + 4 + length e) (out ++ e) (offsets ++ length out ∷ [])
unfolding decode_elements
decode_step bytes left offset out offsets [] r b found =
    let exact : add_u64 offset 4 ≡ offset + 4 = omega arith in
    let same : offset + 4 + 0 ≡ offset + 4 = omega arith in rw (r, exact, same, append-nil out) refl
decode_step bytes left offset out offsets (x ∷ e) r b found =
    let exact : add_u64 offset 4 ≡ offset + 4 = omega arith in
    let more : add_u64 (offset + 4) (suc (length e)) ≡ offset + 4 + suc (length e) = omega arith in
    let some_bytes : (suc (length e) == 0) ≡ false = ground arith in
    bind_option-step _ _ (length (x ∷ e)) _ r (rw (some_bytes, exact, more, found) refl)

pub decode_elements-interleave :
    (before : List ℕ) (elements : List (List ℕ)) (out offsets : List ℕ)
    → AllShort elements
    → length before + length (interleave elements) < u64_mod
    → decode_elements (before ++ interleave elements) (length elements) (length before) out offsets
      ≡ some (out ++ concat elements, offsets ++ positions (length out) elements)
unfolding decode_elements
decode_elements-interleave before [] out offsets h b =
    ap (λ (t : List ℕ). some (t, offsets ++ length out ∷ [])) (sym (append-nil out))
decode_elements-interleave before (e ∷ elements) out offsets (s, h) b =
    let le : List ℕ = to_le_bytes (length e) in
    let rest : List ℕ = interleave elements in
    let len_e = length-append e rest in
    let len_before = length-append before le in
    let len_next = length-append (before ++ le) e in
    let at : before ++ le ++ (e ++ rest) ≡ before ++ interleave (e ∷ elements) =
      append_assoc before le (e ++ rest) in
    let next : before ++ le ++ e ++ rest ≡ before ++ interleave (e ∷ elements) =
      append_assoc (before ++ le) e rest ∙ at in
    let read =
      subst (λ (t : List ℕ). read_u32 t (length before) ≡ some (length e)) at
        (read_u32-middle before (e ++ rest) (length e) s (omega arith)) in
    let found =
      subst (λ (t : List ℕ). slice t (length before + 4) (length before + 4 + length e) ≡ some e)
        next
        (subst (λ (n : ℕ). slice (before ++ le ++ e ++ rest) n (n + length e) ≡ some e) len_before
          (slice_middle (before ++ le) e rest)) in
    decode_step (before ++ interleave (e ∷ elements)) (length elements) (length before) out offsets
      e read (omega arith) found
    ∙ ap₂
        (λ (t : List ℕ) (n : ℕ).
          decode_elements t (length elements) n (out ++ e) (offsets ++ length out ∷ []))
        (sym next) (omega arith)
    ∙ decode_elements-interleave (before ++ le ++ e) elements (out ++ e)
        (offsets ++ length out ∷ []) h (omega arith)
    ∙ ap₂ (λ (t u : List ℕ). some (t, u)) (append_assoc out e (concat elements))
        (append_assoc offsets (length out ∷ []) (positions (length (out ++ e)) elements)
          ∙ ap (λ (n : ℕ). offsets ++ length out ∷ positions n elements) (length-append out e))
