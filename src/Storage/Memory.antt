-- ===== src/Storage/Memory.antt =====
-- `MemoryStore` (zarrs_storage/src/store/memory_store.rs). The state behind the lock is the map from
-- keys to values, in the order of the keys; a call takes the map and returns the one it leaves.
pub mod Map
pub mod Bytes
pub mod Write
pub mod Listing
pub mod Reach
pub mod Overlay
pub mod History
use zarrs.Common.{
  ℕ, zero, suc, ◌+◌, ◌-◌, Bool, true, false, not, ◌&&◌, ◌||◌, Option, none, some, List, [], ◌∷◌,
  ◌++◌, map, ltb, leb, ◌==◌, if◌then◌else◌, Result, ok, err, add_u64, length, take, drop, resize,
  slice, bind_option, Outcome, returns, fails, panics, checked,
}
use zarrs.Storage.ByteRange.{ByteRange, InvalidByteRangeError, invalid_byte_range, start, end}
use zarrs.Storage.Key.{
  key_lt, key_eq, has_prefix, parent, split, new_prefix, slash, StorePrefixError,
}

-- BTreeMap<StoreKey, Bytes>
pub record Entry : Type 0 where
  pub key : List ℕ
  pub value : List ℕ

abbrev pub DataMap : Type 0
DataMap = List Entry

-- `BTreeMap::get`
unfoldable pub get : DataMap → List ℕ → Option (List ℕ)
get [] key = none
get (e ∷ data_map) key = if key_eq e.key key then some e.value else get data_map key

-- `BTreeMap::insert`
pub insert : List ℕ → List ℕ → DataMap → DataMap
insert key value [] = record { key = key; value = value } ∷ []
insert key value (e ∷ data_map) =
    let rest = insert key value data_map in
    if key_eq e.key key
    then record { key = key; value = value } ∷ data_map
    else if key_lt key e.key
    then record { key = key; value = value } ∷ e ∷ data_map
    else e ∷ rest

-- `BTreeMap::remove`
pub remove : List ℕ → DataMap → DataMap
remove key [] = []
remove key (e ∷ data_map) =
    let rest = remove key data_map in if key_eq e.key key then rest else e ∷ rest

abbrev pub keys : DataMap → List (List ℕ)
keys data_map = map (λ (e : Entry). e.key) data_map

abbrev pub is_empty : List ℕ → Bool
is_empty [] = true
is_empty (b ∷ bytes) = false

abbrev pub or_default : Option (List ℕ) → List ℕ
or_default none = []
or_default (some value) = value

-- data[offset..offset + value.len()].copy_from_slice(value), on machine words.
pub write_slice : List ℕ → ℕ → List ℕ → Option (List ℕ)
write_slice bytes offset value =
    if (leb offset (add_u64 offset (length value))
        && leb (add_u64 offset (length value)) (length bytes))
      && (add_u64 offset (length value) - offset == length value)
    then some (take offset bytes ++ value ++ drop (add_u64 offset (length value)) bytes)
    else none

-- The bytes that `set_impl` makes of an entry, `none` if it panics.
pub overwrite : List ℕ → List ℕ → ℕ → Bool → Option (List ℕ)
unfolding write_slice
overwrite entry value offset truncate =
    if offset == 0 && is_empty entry
    then some value
    else (let stop = add_u64 offset (length value) in
        let sized =
          if ltb (length entry) stop
          then resize stop 0 entry
          else if truncate
          then take stop entry
          else entry in
        write_slice sized offset value)

pub set_impl : DataMap → List ℕ → List ℕ → ℕ → Bool → Option DataMap
unfolding get insert overwrite
set_impl data_map key value offset truncate =
    bind_option (overwrite (or_default (get data_map key)) value offset truncate)
      (λ bytes. some (insert key bytes data_map))

pub set : DataMap → List ℕ → List ℕ → Option DataMap
unfolding set_impl
set data_map key value = set_impl data_map key value 0 true

pub record OffsetBytes : Type 0 where
  pub offset : ℕ
  pub value : List ℕ

unfoldable pub set_partial_many : DataMap → List ℕ → List OffsetBytes → Option DataMap
unfolding set_impl
set_partial_many data_map key [] = some data_map
set_partial_many data_map key (w ∷ offset_values) =
    bind_option (set_impl data_map key w.value w.offset false)
      (λ written. set_partial_many written key offset_values)

-- The iterator's item for a range; it panics if the range starts after its end.
pub get_range : List ℕ → ByteRange → Outcome (List ℕ) InvalidByteRangeError
get_range bytes byte_range =
    if ltb (length bytes) (end byte_range (length bytes))
    then fails (invalid_byte_range byte_range (length bytes))
    else checked (slice bytes (start byte_range (length bytes)) (end byte_range (length bytes)))

-- The items that the returned iterator yields.
pub get_partial_many :
    DataMap → List ℕ → List ByteRange → Option (List (Outcome (List ℕ) InvalidByteRangeError))
unfolding get get_range
get_partial_many data_map key byte_ranges = elim (get data_map key) [
  | none ↦ none
  | some bytes ↦ some (map (get_range bytes) byte_ranges)
]

pub size_key : DataMap → List ℕ → Option ℕ
unfolding get
size_key data_map key = elim (get data_map key) [ none ↦ none | some value ↦ some (length value) ]

unfoldable pub erase : DataMap → List ℕ → DataMap
unfolding remove
erase data_map key = remove key data_map

erase_keys : List (List ℕ) → List ℕ → DataMap → DataMap
unfolding remove
erase_keys [] under data_map = data_map
erase_keys (key ∷ rest) under data_map =
    if has_prefix key under
    then erase_keys rest under (remove key data_map)
    else erase_keys rest under data_map

pub erase_prefix : DataMap → List ℕ → DataMap
unfolding erase_keys
erase_prefix data_map under = erase_keys (keys data_map) under data_map

pub list : DataMap → List (List ℕ)
list data_map = keys data_map

-- iter().filter(p)
filter : (List ℕ → Bool) → List (List ℕ) → List (List ℕ)
filter p [] = []
filter p (key ∷ rest) = if p key then key ∷ filter p rest else filter p rest

pub list_prefix : DataMap → List ℕ → List (List ℕ)
unfolding filter
list_prefix data_map under = filter (λ key. has_prefix key under) (keys data_map)

sum_sizes : DataMap → ℕ → List (List ℕ) → ℕ
unfolding size_key
sum_sizes data_map size [] = size
sum_sizes data_map size (key ∷ rest) = elim (size_key data_map key) [
  | none ↦ sum_sizes data_map size rest
  | some n ↦ sum_sizes data_map (add_u64 size n) rest
]

pub size_prefix : DataMap → List ℕ → ℕ
unfolding list_prefix sum_sizes
size_prefix data_map under = sum_sizes data_map 0 (list_prefix data_map under)
