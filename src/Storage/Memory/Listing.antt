-- ===== src/Storage/Memory/Listing.antt =====
-- Erasing and listing under a prefix (zarrs_storage/src/store/memory_store.rs).
use mathlib.Core.List.{Memᴰ}
use zarrs.Common.{
  ℕ, ◌≡◌, ◌↔◌, refl, sym, subst, ap, ◌∙◌, inl, inr, true, false, none, some, List, [], ◌∷◌,
  Bool-cases, Option-cases, Bool, if◌then◌else◌,
}
use zarrs.Storage.Key.{has_prefix, key_eq}
use zarrs.Storage.Key.Order.{key_eq_sound, key_eq_refl}
use zarrs.Storage.Memory.{
  DataMap, get, remove, keys, erase_keys, erase_prefix, list, list_prefix, filter,
}
use zarrs.Storage.Memory.Map.{get-remove, get-remove_other}

-- The store has the key.
abbrev pub Has : DataMap → List ℕ → Type 0
Has data_map key = (value : List ℕ) × (get data_map key ≡ some value)

Has-Mem : (data_map : DataMap) (key : List ℕ) → Has data_map key → Memᴰ key (keys data_map)
unfolding get
Has-Mem [] key (v, h) = cc
Has-Mem (e ∷ data_map) key (v, h) = elim (Bool-cases (key_eq e.key key)) [
  | inl q ↦ Memᴰ.head (sym (key_eq_sound e.key key q))
  | inr q ↦ Memᴰ.tail (Has-Mem data_map key (v, (rw q at h)))
]

Mem-Has : (data_map : DataMap) (key : List ℕ) → Memᴰ key (keys data_map) → Has data_map key
unfolding get
Mem-Has [] key m = elim m [ ]
Mem-Has (e ∷ data_map) key (Memᴰ.head h) =
    (e.value, rw h (let same = key_eq_refl e.key in rw same refl))
Mem-Has (e ∷ data_map) key (Memᴰ.tail m) = elim (Bool-cases (key_eq e.key key)) [
  | inl q ↦ (e.value, rw q refl)
  | inr q ↦ let (v, h) = Mem-Has data_map key m in (v, rw q h)
]

no_prefix-kept :
    (ks : List (List ℕ)) (p key : List ℕ) (data_map : DataMap)
    → has_prefix key p ≡ false
    → get (erase_keys ks p data_map) key ≡ get data_map key
unfolding erase_keys
no_prefix-kept [] p key data_map h = refl
no_prefix-kept (k ∷ ks) p key data_map h = elim (Bool-cases (has_prefix k p)) [
  | inl q ↦ rw q (
      no_prefix-kept ks p key (remove k data_map) h
      ∙ get-remove_other data_map k key
          (λ e. true_false (sym q ∙ ap (λ (t : List ℕ). has_prefix t p) e ∙ h)))
  | inr q ↦ rw q (no_prefix-kept ks p key data_map h)
]
  where
    true_false : ¬ (true ≡ false)
    true_false h = cc

absent-kept :
    (ks : List (List ℕ)) (p key : List ℕ) (data_map : DataMap)
    → get data_map key ≡ none
    → get (erase_keys ks p data_map) key ≡ none
unfolding erase_keys
absent-kept [] p key data_map h = h
absent-kept (k ∷ ks) p key data_map h = elim (Bool-cases (has_prefix k p)) [
  | inl q ↦ rw q (absent-kept ks p key (remove k data_map) (absent-remove data_map k key h))
  | inr q ↦ rw q (absent-kept ks p key data_map h)
]
  where
    absent-remove : (m : DataMap) (k key : List ℕ) → get m key ≡ none → get (remove k m) key ≡ none
    absent-remove m k key h = elim (Bool-cases (key_eq k key)) [
      | inl e ↦
          subst (λ (t : List ℕ). get (remove k m) t ≡ none) (key_eq_sound k key e) (get-remove m k)
      | inr e ↦
          get-remove_other m k key
            (λ r. bad (sym (key_eq_refl key) ∙ ap (λ (t : List ℕ). key_eq t key) (sym r) ∙ e))
          ∙ h
    ]
      where
        bad : ¬ (true ≡ false)
        bad h = cc

prefix-erased :
    (ks : List (List ℕ)) (p key : List ℕ) (data_map : DataMap)
    → has_prefix key p ≡ true
    → Memᴰ key ks
    → get (erase_keys ks p data_map) key ≡ none
unfolding erase_keys
prefix-erased [] p key data_map h m = elim m [ ]
prefix-erased (k ∷ ks) p key data_map h (Memᴰ.head e) =
    rw (ap (λ (t : List ℕ). has_prefix t p) (sym e) ∙ h) (
      absent-kept ks p key (remove k data_map)
        (subst (λ (t : List ℕ). get (remove t data_map) key ≡ none) e (get-remove data_map key)))
prefix-erased (k ∷ ks) p key data_map h (Memᴰ.tail m) = elim (Bool-cases (has_prefix k p)) [
  | inl q ↦ rw q (prefix-erased ks p key (remove k data_map) h m)
  | inr q ↦ rw q (prefix-erased ks p key data_map h m)
]

-- After `erase_prefix` the store has no key with the prefix, and has every other key with its value.
pub get-erase_prefix :
    (data_map : DataMap) (p key : List ℕ)
    → get (erase_prefix data_map p) key ≡ (if has_prefix key p then none else get data_map key)
unfolding erase_prefix
get-erase_prefix data_map p key = elim (Bool-cases (has_prefix key p)) [
  | inr q ↦ rw q (no_prefix-kept (keys data_map) p key data_map q)
  | inl q ↦ elim (Option-cases (get data_map key)) [
    | inl h ↦ rw q (absent-kept (keys data_map) p key data_map h)
    | inr has ↦ rw q (prefix-erased (keys data_map) p key data_map q (Has-Mem data_map key has))
  ]
]

Mem-cases :
    {P : Type 0} {key k : List ℕ} {ks : List (List ℕ)}
    → Memᴰ key (k ∷ ks)
    → (key ≡ k → P)
    → (Memᴰ key ks → P)
    → P
Mem-cases (Memᴰ.head e) f g = f e
Mem-cases (Memᴰ.tail m) f g = g m

filter-Mem :
    (f : List ℕ → Bool) (ks : List (List ℕ)) (key : List ℕ)
    → Memᴰ key (filter f ks)
    → (f key ≡ true) × Memᴰ key ks
unfolding filter
filter-Mem f [] key m = elim m [ ]
filter-Mem f (k ∷ ks) key m = elim (Bool-cases (f k)) [
  | inl q ↦
      Mem-cases (rw q at m) (λ e. (ap f e ∙ q, Memᴰ.head e))
        (λ t. let (a, b) = filter-Mem f ks key t in (a, Memᴰ.tail b))
  | inr q ↦ let (a, b) = filter-Mem f ks key (rw q at m) in (a, Memᴰ.tail b)
]

Mem-filter :
    (f : List ℕ → Bool) (ks : List (List ℕ)) (key : List ℕ)
    → f key ≡ true
    → Memᴰ key ks
    → Memᴰ key (filter f ks)
unfolding filter
Mem-filter f [] key h m = elim m [ ]
Mem-filter f (k ∷ ks) key h (Memᴰ.head e) = rw (ap f (sym e) ∙ h) (Memᴰ.head e)
Mem-filter f (k ∷ ks) key h (Memᴰ.tail m) = elim (Bool-cases (f k)) [
  | inl q ↦ rw q (Memᴰ.tail (Mem-filter f ks key h m))
  | inr q ↦ rw q (Mem-filter f ks key h m)
]

-- `list` has exactly the keys that the store has, and `list_prefix` those with the prefix.
pub list_prefix-Has :
    (data_map : DataMap) (p key : List ℕ)
    → (Memᴰ key (list data_map) ↔ Has data_map key)
      × (Memᴰ key (list_prefix data_map p) ↔ ((has_prefix key p ≡ true) × Has data_map key))
unfolding list list_prefix
list_prefix-Has data_map p key = (
  (Mem-Has data_map key, Has-Mem data_map key),
  (
    λ m.
        let (a, b) = filter-Mem (λ k. has_prefix k p) (keys data_map) key m in
        (a, Mem-Has data_map key b),
    λ (a, h). Mem-filter (λ k. has_prefix k p) (keys data_map) key a (Has-Mem data_map key h),
  ),
)
