-- ===== src/Storage/Memory/Reach.antt =====
-- Every map that the calls of the store reach is in the order of its keys
-- (zarrs_storage/src/store/memory_store.rs).
use zarrs.Common.{
  ℕ, ◌+◌, ◌<◌, ◌≡◌, refl, sym, subst, ap, ◌∙◌, inl, inr, true, false, some, Option, List, [], ◌∷◌,
  Bool-cases, Bool, if◌then◌else◌, add_u64, u64_mod, length, arith, bind_option-some,
}
use zarrs.Storage.Key.{has_prefix, key_eq, key_lt}
use zarrs.Storage.Key.Order.{key_lt_irrefl, key_eq_refl, key_eq_sound}
use zarrs.Storage.Memory.{
  Entry, DataMap, OffsetBytes, get, remove, insert, keys, overwrite, or_default, set_impl, set,
  set_partial_many, erase, erase_keys, erase_prefix, list_prefix, filter, size_key, sum_sizes,
  size_prefix,
}
use zarrs.Storage.Memory.Map.{After, Sorted, insert-Sorted, remove-Sorted}

-- The maps that the writing calls lead to from the empty store.
pub data Reachable : DataMap → Type 0 where
  empty : Reachable []
  after_set :
      {m after : DataMap} (key value : List ℕ)
      → Reachable m
      → set m key value ≡ some after
      → Reachable after
  after_set_partial_many :
      {m after : DataMap} (key : List ℕ) (offset_values : List OffsetBytes)
      → Reachable m
      → set_partial_many m key offset_values ≡ some after
      → Reachable after
  after_erase : {m : DataMap} (key : List ℕ) → Reachable m → Reachable (erase m key)
  after_erase_prefix : {m : DataMap} (p : List ℕ) → Reachable m → Reachable (erase_prefix m p)

pub map_of : {a b : DataMap} → ◌≡◌ {A = Option DataMap} (some a) (some b) → a ≡ b
map_of e = cc

set_impl-Sorted :
    (m after : DataMap) (key value : List ℕ) (offset : ℕ) (truncate : Bool)
    → Sorted m
    → set_impl m key value offset truncate ≡ some after
    → Sorted after
unfolding set_impl
set_impl-Sorted m after key value offset truncate s h =
    let (bytes, e, w) =
      bind_option-some (overwrite (or_default (get m key)) value offset truncate)
        (λ b. some (insert key b m)) after h in
    subst Sorted (map_of w) (insert-Sorted key bytes m s)

set_partial_many-Sorted :
    (m after : DataMap) (key : List ℕ) (offset_values : List OffsetBytes)
    → Sorted m
    → set_partial_many m key offset_values ≡ some after
    → Sorted after
unfolding set_partial_many
set_partial_many-Sorted m after key [] s h = subst Sorted (map_of h) s
set_partial_many-Sorted m after key (w ∷ offset_values) s h =
    let (next, a, b) =
      bind_option-some (set_impl m key w.value w.offset false)
        (λ t. set_partial_many t key offset_values) after h in
    set_partial_many-Sorted next after key offset_values
      (set_impl-Sorted m next key w.value w.offset false s a) b

erase_keys-Sorted :
    (ks : List (List ℕ)) (p : List ℕ) (m : DataMap) → Sorted m → Sorted (erase_keys ks p m)
unfolding erase_keys
erase_keys-Sorted [] p m s = s
erase_keys-Sorted (k ∷ ks) p m s = elim (Bool-cases (has_prefix k p)) [
  | inl q ↦ rw q (erase_keys-Sorted ks p (remove k m) (remove-Sorted k m s))
  | inr q ↦ rw q (erase_keys-Sorted ks p m s)
]

-- Every map that the calls reach from the empty store has its keys in strictly increasing order, so no
-- key twice.
pub Reachable-Sorted : (m : DataMap) → Reachable m → Sorted m
unfolding set erase erase_prefix
Reachable-Sorted m empty = tt
Reachable-Sorted m (after_set {m = n} key value r h) =
    set_impl-Sorted n m key value 0 true (Reachable-Sorted n r) h
Reachable-Sorted m (after_set_partial_many {m = n} key offset_values r h) =
    set_partial_many-Sorted n m key offset_values (Reachable-Sorted n r) h
Reachable-Sorted m (after_erase {m = n} key r) = remove-Sorted key n (Reachable-Sorted n r)
Reachable-Sorted m (after_erase_prefix {m = n} p r) =
    erase_keys-Sorted (keys n) p n (Reachable-Sorted n r)

get-entry : (e : Entry) (m : DataMap) → get (e ∷ m) e.key ≡ some e.value
unfolding get
get-entry e m = let same = key_eq_refl e.key in rw same refl

-- The bytes of the values whose keys have a prefix.
abbrev pub total : DataMap → List ℕ → ℕ
total [] p = 0
total (e ∷ m) p = if has_prefix e.key p then length e.value + total m p else total m p

abbrev AllGot : DataMap → DataMap → Type 0
AllGot whole [] = Unit
AllGot whole (e ∷ m) = (get whole e.key ≡ some e.value) × AllGot whole m

AllGot-weaken :
    (e : Entry) (whole m : DataMap) → After e.key m → AllGot whole m → AllGot (e ∷ whole) m
unfolding get
AllGot-weaken e whole [] a g = tt
AllGot-weaken e whole (d ∷ m) (l, a) (h, g) = (
  elim (Bool-cases (key_eq e.key d.key)) [
    | inl q ↦ absurd (
        true_false (
          sym l
          ∙ ap (λ (t : List ℕ). key_lt t d.key) (key_eq_sound e.key d.key q)
          ∙ key_lt_irrefl d.key))
    | inr q ↦ rw q h
  ],
  AllGot-weaken e whole m a g,
)
  where
    true_false : ¬ (true ≡ false)
    true_false h = cc

Sorted-AllGot : (m : DataMap) → Sorted m → AllGot m m
Sorted-AllGot [] s = tt
Sorted-AllGot (e ∷ m) (a, s) = (get-entry e m, AllGot-weaken e m m a (Sorted-AllGot m s))

sum_sizes-cons :
    (whole : DataMap) (size : ℕ) (key value : List ℕ) (rest : List (List ℕ))
    → get whole key ≡ some value
    → sum_sizes whole size (key ∷ rest) ≡ sum_sizes whole (add_u64 size (length value)) rest
unfolding sum_sizes size_key
sum_sizes-cons whole size key value rest h = rw (sum_sizes, size_key, h)

sum_sizes-total :
    (whole m : DataMap) (p : List ℕ) (size : ℕ)
    → AllGot whole m
    → size + total m p < u64_mod
    → sum_sizes whole size (filter (λ k. has_prefix k p) (keys m)) ≡ size + total m p
unfolding filter sum_sizes
sum_sizes-total whole [] p size g h = omega arith
sum_sizes-total whole (e ∷ m) p size (a, g) h = elim (Bool-cases (has_prefix e.key p)) [
  | inr q ↦ rw q (sum_sizes-total whole m p size g (rw q at h))
  | inl q ↦
      let bounded : size + (length e.value + total m p) < u64_mod = rw q at h in
      let step : add_u64 size (length e.value) ≡ size + length e.value = omega arith in
      rw q (
        sum_sizes-cons whole size e.key e.value (filter (λ k. has_prefix k p) (keys m)) a
        ∙ ap (λ (t : ℕ). sum_sizes whole t (filter (λ k. has_prefix k p) (keys m))) step
        ∙ sum_sizes-total whole m p (size + length e.value) g (omega arith)
        ∙ omega arith)
]

-- Of a map that the calls reach, `size_prefix` is the number of bytes of the values whose keys have the
-- prefix, if it is below 2 ^ 64.
pub size_prefix-total :
    (m : DataMap) (p : List ℕ) → Reachable m → total m p < u64_mod → size_prefix m p ≡ total m p
unfolding size_prefix list_prefix
size_prefix-total m p r h =
    sum_sizes-total m m p 0 (Sorted-AllGot m (Reachable-Sorted m r)) (omega arith) ∙ omega arith
