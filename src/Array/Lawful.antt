-- ===== src/Array/Lawful.antt =====
-- What arrays need of a store, and that `MemoryStore` has it
-- (zarrs_storage/src/store/memory_store.rs).
use zarrs.Common.{ℕ, ◌<◌, ◌≡◌, ◌≢◌, refl, ap, none, some, List, length, u64_mod, returns, checked}
use zarrs.Storage.Memory.{DataMap, get, set, erase, remove}
use zarrs.Storage.Memory.Map.{get-remove, get-remove_other}
use zarrs.Storage.Memory.Write.{get-set}
use zarrs.Array.{Storage}

-- A key has what was last set, or nothing once it is erased, and other keys keep what they had.
pub record IsStorage {State StorageError : Type 0} (storage : Storage State StorageError)
    : Type 0 where
  pub after_set :
      (state : State) (key value : List ℕ)
      → length value < u64_mod
      → (after : State) × (storage.set state key value ≡ returns after)
        × (storage.get after key ≡ returns (some value))
        × ((other : List ℕ) → key ≢ other → storage.get after other ≡ storage.get state other)
  pub after_erase :
      (state : State) (key : List ℕ)
      → (after : State) × (storage.erase state key ≡ returns after)
        × (storage.get after key ≡ returns none)
        × ((other : List ℕ) → key ≢ other → storage.get after other ≡ storage.get state other)

module _ {StorageError : Type 0} where
  -- `MemoryStore` as the store of an array: its calls return no errors.
  abbrev pub memory : Storage DataMap StorageError
  memory = record {
    get = λ data_map key. returns (get data_map key);
    set = λ data_map key value. checked (set data_map key value);
    erase = λ data_map key. returns (erase data_map key);
  }

  pub memory-IsStorage : IsStorage memory
  unfolding erase
  memory-IsStorage = record {
    after_set = λ data_map key value h.
        let (after, s, g, o) = get-set data_map key value h in
        (after, ap checked s, ap returns g, λ other d. ap returns (o other d));
    after_erase = λ data_map key. (
      remove key data_map,
      refl,
      ap returns (get-remove data_map key),
      λ other d. ap returns (get-remove_other data_map key other d),
    );
  }
