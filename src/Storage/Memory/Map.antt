-- ===== src/Storage/Memory/Map.antt =====
-- The map of the store (zarrs_storage/src/store/memory_store.rs): lookups after insertions and
-- removals, and the order of its keys.
use zarrs.Common.{
  ℕ, ◌≡◌, ◌≢◌, refl, sym, subst, ◌∙◌, inl, inr, true, false, none, some, List, [], ◌∷◌, Bool-cases,
}
use zarrs.Storage.Key.{key_lt, key_eq}
use zarrs.Storage.Key.Order.{key_eq_sound, key_eq_refl, key_lt-total, key_lt_trans}
use zarrs.Storage.Memory.{DataMap, get, insert, remove}

pub key_eq-false : (a b : List ℕ) → a ≢ b → key_eq a b ≡ false
key_eq-false a b n = elim (Bool-cases (key_eq a b)) [
  | inl e ↦ absurd (n (key_eq_sound a b e))
  | inr e ↦ e
]

different : (k a b : List ℕ) → a ≢ b → key_eq k a ≡ true → key_eq k b ≡ false
different k a b n e = key_eq-false k b (λ h. n (sym (key_eq_sound k a e) ∙ h))

pub get-insert :
    (data_map : DataMap) (key value : List ℕ) → get (insert key value data_map) key ≡ some value
unfolding get insert
get-insert [] key value = rw (key_eq_refl key)
get-insert (e ∷ data_map) key value = elim (Bool-cases (key_eq e.key key)) [
  | inl h ↦ rw (h, key_eq_refl key)
  | inr h ↦ elim (Bool-cases (key_lt key e.key)) [
    | inl l ↦ rw (h, l, key_eq_refl key)
    | inr l ↦ rw (h, l, h) (get-insert data_map key value)
  ]
]

pub get-insert_other :
    (data_map : DataMap) (key value other : List ℕ)
    → key ≢ other
    → get (insert key value data_map) other ≡ get data_map other
unfolding get insert
get-insert_other [] key value other n = let no_match = key_eq-false key other n in rw no_match refl
get-insert_other (e ∷ data_map) key value other n =
    let no_match = key_eq-false key other n in
    elim (Bool-cases (key_eq e.key key)) [
      | inl h ↦ let here = different e.key key other n h in rw (h, no_match, here)
      | inr h ↦ elim (Bool-cases (key_lt key e.key)) [
        | inl l ↦ rw (h, l, no_match)
        | inr l ↦ elim (Bool-cases (key_eq e.key other)) [
          | inl o ↦ rw (h, l, o)
          | inr o ↦ rw (h, l, o) (get-insert_other data_map key value other n)
        ]
      ]
    ]

pub get-remove : (data_map : DataMap) (key : List ℕ) → get (remove key data_map) key ≡ none
unfolding get remove
get-remove [] key = refl
get-remove (e ∷ data_map) key = elim (Bool-cases (key_eq e.key key)) [
  | inl h ↦ rw h (get-remove data_map key)
  | inr h ↦ rw (h, h) (get-remove data_map key)
]

pub get-remove_other :
    (data_map : DataMap) (key other : List ℕ)
    → key ≢ other
    → get (remove key data_map) other ≡ get data_map other
unfolding get remove
get-remove_other [] key other n = refl
get-remove_other (e ∷ data_map) key other n = elim (Bool-cases (key_eq e.key key)) [
  | inl h ↦
      let here = different e.key key other n h in
      rw (h, here) (get-remove_other data_map key other n)
  | inr h ↦ elim (Bool-cases (key_eq e.key other)) [
    | inl o ↦ rw (h, o)
    | inr o ↦ rw (h, o) (get-remove_other data_map key other n)
  ]
]

-- Every key of the map comes after a key.
abbrev pub After : List ℕ → DataMap → Type 0
After key [] = Unit
After key (e ∷ data_map) = (key_lt key e.key ≡ true) × After key data_map

-- The keys of the map increase.
abbrev pub Sorted : DataMap → Type 0
Sorted [] = Unit
Sorted (e ∷ data_map) = After e.key data_map × Sorted data_map

After-trans :
    (a b : List ℕ) (data_map : DataMap) → key_lt a b ≡ true → After b data_map → After a data_map
After-trans a b [] h k = tt
After-trans a b (e ∷ data_map) h (l, k) = (key_lt_trans a b e.key h l, After-trans a b data_map h k)

insert-After :
    (low key value : List ℕ) (data_map : DataMap)
    → key_lt low key ≡ true
    → After low data_map
    → After low (insert key value data_map)
unfolding insert
insert-After low key value [] h a = (h, tt)
insert-After low key value (e ∷ data_map) h (l, a) = elim (Bool-cases (key_eq e.key key)) [
  | inl q ↦ rw q (h, a)
  | inr q ↦ elim (Bool-cases (key_lt key e.key)) [
    | inl o ↦ rw (q, o) (h, (l, a))
    | inr o ↦ rw (q, o) (l, insert-After low key value data_map h a)
  ]
]

remove-After :
    (low key : List ℕ) (data_map : DataMap) → After low data_map → After low (remove key data_map)
unfolding remove
remove-After low key [] a = tt
remove-After low key (e ∷ data_map) (l, a) = elim (Bool-cases (key_eq e.key key)) [
  | inl q ↦ rw q (remove-After low key data_map a)
  | inr q ↦ rw q (l, remove-After low key data_map a)
]

pub insert-Sorted :
    (key value : List ℕ) (data_map : DataMap) → Sorted data_map → Sorted (insert key value data_map)
unfolding insert
insert-Sorted key value [] s = (tt, tt)
insert-Sorted key value (e ∷ data_map) (a, s) = elim (Bool-cases (key_eq e.key key)) [
  | inl q ↦ rw q (subst (λ (t : List ℕ). After t data_map) (key_eq_sound e.key key q) a, s)
  | inr q ↦ elim (Bool-cases (key_lt key e.key)) [
    | inl o ↦ rw (q, o) ((o, After-trans key e.key data_map o a), (a, s))
    | inr o ↦
        rw (q, o)
          (
            insert-After e.key key value data_map (key_lt-total key e.key (eq_sym e.key key q) o) a,
            insert-Sorted key value data_map s,
          )
  ]
]
  where
    eq_sym : (a b : List ℕ) → key_eq a b ≡ false → key_eq b a ≡ false
    eq_sym a b h = key_eq-false b a (λ p.
        absurd_of (sym (subst (λ (t : List ℕ). key_eq a t ≡ true) (sym p) (key_eq_refl a)) ∙ h))
      where
        absurd_of : ¬ (true ≡ false)
        absurd_of h = cc

pub remove-Sorted :
    (key : List ℕ) (data_map : DataMap) → Sorted data_map → Sorted (remove key data_map)
unfolding remove
remove-Sorted key [] s = tt
remove-Sorted key (e ∷ data_map) (a, s) = elim (Bool-cases (key_eq e.key key)) [
  | inl q ↦ rw q (remove-Sorted key data_map s)
  | inr q ↦ rw q (remove-After e.key key data_map a, remove-Sorted key data_map s)
]
