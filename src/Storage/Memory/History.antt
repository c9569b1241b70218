-- ===== src/Storage/Memory/History.antt =====
-- A sequence of calls of the store, against what it does to each key on its own
-- (zarrs_storage/src/store/memory_store.rs).
use mathlib.Core.List.{Memᴰ}
use zarrs.Common.{
  ℕ, ◌+◌, ◌<◌, ◌≡◌, ◌≢◌, ◌↔◌, ◌⊎◌, refl, sym, subst, ap, ◌∙◌, inl, inr, true, false, Bool-cases,
  Option, none, some, List, [], ◌∷◌, if◌then◌else◌, u64_mod, length, bind_option, bind_option-step,
}
use zarrs.Storage.Key.{key_eq, has_prefix}
use zarrs.Storage.Key.Order.{key_eq_sound, key_eq_refl}
use zarrs.Storage.Memory.{
  DataMap, OffsetBytes, get, or_default, set_impl, set, set_partial_many, erase, erase_prefix, list,
}
use zarrs.Storage.Memory.Overlay.{overlay, IsWritten-overlay}
use zarrs.Storage.Memory.Map.{Sorted, get-remove, get-remove_other}
use zarrs.Storage.Memory.Write.{set_impl-IsWritten, get-set}
use zarrs.Storage.Memory.Listing.{get-erase_prefix, list_prefix-Has}
use zarrs.Storage.Memory.Reach.{Reachable, Reachable-Sorted, map_of}

-- A call that writes to the store.
pub data Call : Type 0 where
  set_value : List ℕ → List ℕ → Call
  set_parts : List ℕ → List OffsetBytes → Call
  erase_key : List ℕ → Call
  erase_under : List ℕ → Call

abbrev perform : DataMap → Call → Option DataMap
perform data_map (set_value key value) = set data_map key value
perform data_map (set_parts key parts) = set_partial_many data_map key parts
perform data_map (erase_key key) = some (erase data_map key)
perform data_map (erase_under p) = some (erase_prefix data_map p)

abbrev pub perform_all : DataMap → List Call → Option DataMap
perform_all data_map [] = some data_map
perform_all data_map (call ∷ calls) = bind_option (perform data_map call) (λ m. perform_all m calls)

-- What a key has after parts are put over what it had.
abbrev parts_over : Option (List ℕ) → List OffsetBytes → Option (List ℕ)
parts_over before [] = before
parts_over before (w ∷ parts) =
    parts_over (some (overlay (or_default before) w.offset w.value)) parts

-- What a key has after a call, from what it had.
abbrev effect : Call → List ℕ → Option (List ℕ) → Option (List ℕ)
effect (set_value k value) key before = if key_eq k key then some value else before
effect (set_parts k parts) key before = if key_eq k key then parts_over before parts else before
effect (erase_key k) key before = if key_eq k key then none else before
effect (erase_under p) key before = if has_prefix key p then none else before

-- What a key has after the calls, from what it had: no other key matters.
abbrev pub value_after : List Call → List ℕ → Option (List ℕ) → Option (List ℕ)
value_after [] key before = before
value_after (call ∷ calls) key before = value_after calls key (effect call key before)

-- Writes that end below 2 ^ 64.
abbrev PartsFit : List OffsetBytes → Type 0
PartsFit [] = Unit
PartsFit (w ∷ parts) = (w.offset + length w.value < u64_mod) × PartsFit parts

abbrev CallFits : Call → Type 0
CallFits (set_value key value) = length value < u64_mod
CallFits (set_parts key parts) = PartsFit parts
CallFits (erase_key key) = Unit
CallFits (erase_under p) = Unit

abbrev pub CallsFit : List Call → Type 0
CallsFit [] = Unit
CallsFit (call ∷ calls) = CallFits call × CallsFit calls

parts-get :
    (m : DataMap) (key : List ℕ) (parts : List OffsetBytes)
    → PartsFit parts
    → (after : DataMap) × (set_partial_many m key parts ≡ some after)
      × (get after key ≡ parts_over (get m key) parts)
      × ((other : List ℕ) → key ≢ other → get after other ≡ get m other)
unfolding set_partial_many
parts-get m key [] f = (m, refl, refl, λ other n. refl)
parts-get m key (w ∷ parts) (f, fs) =
    let (next, bytes, a, b, written, c) = set_impl-IsWritten m key w.value w.offset false f in
    let (after, a', b', c') = parts-get next key parts fs in
    let same = IsWritten-overlay (or_default (get m key)) w.value w.offset bytes written in
    (
      after,
      bind_option-step (set_impl m key w.value w.offset false) (λ t. set_partial_many t key parts)
          next (some after) a a',
      b' ∙ ap (λ (o : Option (List ℕ)). parts_over o parts) (b ∙ ap some same),
      λ other n. c' other n ∙ c other n,
    )

-- A call that changes one key, and leaves the others.
touched :
    (after m : DataMap) (k : List ℕ) (result : Option (List ℕ))
    → get after k ≡ result
    → ((other : List ℕ) → k ≢ other → get after other ≡ get m other)
    → (key : List ℕ) → get after key ≡ (if key_eq k key then result else get m key)
touched after m k result here apart key = elim (Bool-cases (key_eq k key)) [
  | inl q ↦ rw q (subst (λ (t : List ℕ). get after t ≡ result) (key_eq_sound k key q) here)
  | inr q ↦ rw q (apart key (λ e. true_false (sym (key_eq_refl k) ∙ ap (key_eq k) e ∙ q)))
]
  where
    true_false : ¬ (true ≡ false)
    true_false h = cc

perform-effect :
    (m : DataMap) (call : Call)
    → CallFits call
    → (after : DataMap) × (perform m call ≡ some after)
      × ((key : List ℕ) → get after key ≡ effect call key (get m key))
unfolding erase
perform-effect m (set_value k value) f =
    let (after, a, b, c) = get-set m k value f in (after, a, touched after m k (some value) b c)
perform-effect m (set_parts k parts) f =
    let (after, a, b, c) = parts-get m k parts f in
    (
      after,
      a,
      λ key. touched after m k (parts_over (get m k) parts) b c key ∙ read k key (Bool-cases _),
    )
  where
    read :
        (k key : List ℕ)
        → (key_eq k key ≡ true) ⊎ (key_eq k key ≡ false)
        → (if key_eq k key then parts_over (get m k) parts else get m key)
          ≡ (if key_eq k key then parts_over (get m key) parts else get m key)
    read k key (inl q) =
        rw q (ap (λ (t : List ℕ). parts_over (get m t) parts) (key_eq_sound k key q))
    read k key (inr q) = rw q refl
perform-effect m (erase_key k) f =
    (erase m k, refl, touched (erase m k) m k none (get-remove m k) (get-remove_other m k))
perform-effect m (erase_under p) f = (erase_prefix m p, refl, get-erase_prefix m p)

perform-Reachable :
    (m after : DataMap) (call : Call) → Reachable m → perform m call ≡ some after → Reachable after
perform-Reachable m after (set_value k value) r e = Reachable.after_set k value r e
perform-Reachable m after (set_parts k parts) r e = Reachable.after_set_partial_many k parts r e
perform-Reachable m after (erase_key k) r e = subst Reachable (map_of e) (Reachable.after_erase k r)
perform-Reachable m after (erase_under p) r e =
    subst Reachable (map_of e) (Reachable.after_erase_prefix p r)

perform_all-value_after :
    (m : DataMap) (calls : List Call)
    → Reachable m
    → CallsFit calls
    → (after : DataMap) × (perform_all m calls ≡ some after)
      × Reachable after
      × ((key : List ℕ) → get after key ≡ value_after calls key (get m key))
perform_all-value_after m [] r f = (m, refl, r, λ key. refl)
perform_all-value_after m (call ∷ calls) r (f, fs) =
    let (next, a, b) = perform-effect m call f in
    let (after, a', r', b') =
      perform_all-value_after next calls (perform-Reachable m next call r a) fs in
    (
      after,
      bind_option-step (perform m call) (λ t. perform_all t calls) next (some after) a a',
      r',
      λ key. b' key ∙ ap (value_after calls key) (b key),
    )

-- From the empty store, calls of `set`, `set_partial_many`, `erase` and `erase_prefix`, in any order,
-- whose writes end below 2 ^ 64, do not panic. Each key then has what the calls, one after the other,
-- make of its value alone: a value set, parts put over it, or nothing once it is erased or its prefix
-- is; `list` has exactly the keys with a value, in strictly increasing order.
pub perform_all-refines :
    (calls : List Call)
    → CallsFit calls
    → (m : DataMap) × (perform_all [] calls ≡ some m)
      × ((key : List ℕ) → get m key ≡ value_after calls key none)
      × ((key : List ℕ)
          → Memᴰ key (list m) ↔ ((value : List ℕ) × (value_after calls key none ≡ some value)))
      × Sorted m
unfolding get
perform_all-refines calls f =
    let (m, a, r, b) = perform_all-value_after [] calls Reachable.empty f in
    (
      m,
      a,
      b,
      λ key.
          let (listed, _) = list_prefix-Has m [] key in
          let (has, mem) = listed in
          (
            λ h. let (value, e) = has h in (value, sym (b key) ∙ e),
            λ (value, e). mem (value, b key ∙ e),
          ),
      Reachable-Sorted m r,
    )
