-- ===== src/Tests/Stores.antt =====
-- Calls of a store with two keys (zarrs_storage/src/store/memory_store.rs).
use mathlib.Core.List.{Memᴰ}
use zarrs.Common.{
  ℕ, ◌≡◌, ◌≢◌, ◌↔◌, refl, true, false, none, some, List, [], ◌∷◌, ◌++◌, arith, returns, ok, err,
  if◌then◌else◌,
}
use zarrs.Storage.Key
use zarrs.Storage.Key.{
  new_prefix, starts_with, has_prefix, key_eq, validate, parent, validate_prefix, from_prefix,
  to_prefix,
}
use zarrs.Storage.Key.Parent.{Plain, parent_lem}
use zarrs.Storage.ByteRange.{from_start}
use zarrs.Storage.Memory.{
  DataMap, OffsetBytes, get, or_default, set_impl, set_partial_many, get_partial_many, erase_prefix,
  list, list_prefix,
}
use zarrs.Storage.Memory.Bytes.{IsWritten}
use zarrs.Storage.Memory.Write.{set_impl-IsWritten, get_partial_many-set_partial_many}
use zarrs.Storage.Memory.Map.{Sorted}
use zarrs.Storage.Memory.Listing.{Has, get-erase_prefix, list_prefix-Has}
use zarrs.Storage.Memory.Overlay.{overlay}
use zarrs.Storage.Memory.History.{
  Call, set_value, set_parts, erase_under, CallsFit, perform_all, value_after, perform_all-refines,
}

-- "a/b" and "c"
abbrev ab : List ℕ
ab = 97 ∷ 47 ∷ 98 ∷ []

abbrev c : List ℕ
c = 99 ∷ []

abbrev stored : DataMap
stored = record { key = ab; value = 1 ∷ 2 ∷ [] } ∷ record { key = c; value = 3 ∷ [] } ∷ []

set_impl-IsWritten_example :
    (after : DataMap) × (bytes : List ℕ) × (set_impl stored c (7 ∷ 8 ∷ []) 4 false ≡ some after)
    × (get after c ≡ some bytes)
    × IsWritten (or_default (get stored c)) (7 ∷ 8 ∷ []) 4 false bytes
    × ((other : List ℕ) → c ≢ other → get after other ≡ get stored other)
set_impl-IsWritten_example = set_impl-IsWritten stored c (7 ∷ 8 ∷ []) 4 false (omega arith)

no_writes : set_partial_many stored c [] ≡ some stored
unfolding set_partial_many
no_writes = refl

abbrev write : OffsetBytes
write = record { offset = 2; value = 5 ∷ 6 ∷ [] }

get_partial_many-set_partial_many_example :
    (after : DataMap) × (set_partial_many stored c ([] ++ write ∷ []) ≡ some after)
    × (get_partial_many after c (from_start 2 (some 2) ∷ []) ≡ some (returns (5 ∷ 6 ∷ []) ∷ []))
get_partial_many-set_partial_many_example =
    get_partial_many-set_partial_many stored stored c [] write no_writes (omega arith)

get-erase_prefix_example :
    get (erase_prefix stored (97 ∷ 47 ∷ [])) c
    ≡ (if has_prefix c (97 ∷ 47 ∷ []) then none else get stored c)
get-erase_prefix_example = get-erase_prefix stored (97 ∷ 47 ∷ []) c

list_prefix-Has_example :
    (Memᴰ ab (list stored) ↔ Has stored ab)
    × (Memᴰ ab (list_prefix stored (97 ∷ 47 ∷ []))
        ↔ ((has_prefix ab (97 ∷ 47 ∷ []) ≡ true) × Has stored ab))
list_prefix-Has_example = list_prefix-Has stored (97 ∷ 47 ∷ []) ab

-- "a/b" is set and part of "c" is written, part of "a/b" is written, and what is under "a/" is erased.
abbrev calls : List Call
calls =
    set_value ab (1 ∷ 2 ∷ [])
    ∷ set_parts c (write ∷ [])
    ∷ set_parts ab (write ∷ [])
    ∷ erase_under (97 ∷ 47 ∷ [])
    ∷ []

calls-fit : CallsFit calls
calls-fit = (omega arith, ((omega arith, tt), ((omega arith, tt), (tt, tt))))

perform_all-refines_example :
    (m : DataMap) × (perform_all [] calls ≡ some m)
    × ((key : List ℕ) → get m key ≡ value_after calls key none)
    × ((key : List ℕ)
        → Memᴰ key (list m) ↔ ((value : List ℕ) × (value_after calls key none ≡ some value)))
    × Sorted m
perform_all-refines_example = perform_all-refines calls calls-fit

value_of_c : value_after calls c none ≡ some (0 ∷ 0 ∷ 5 ∷ 6 ∷ [])
unfolding overlay key_eq has_prefix starts_with
value_of_c = refl

value_of_ab : value_after calls ab none ≡ none
unfolding overlay key_eq has_prefix starts_with
value_of_ab = refl

ab-valid : validate ab ≡ true
unfolding validate
ab-valid = refl

parent_lem_example :
    (name : List ℕ) × (ab ≡ parent ab ++ name)
    × Plain name
    × (validate_prefix (parent ab) ≡ true)
    × (has_prefix ab (parent ab) ≡ true)
parent_lem_example = parent_lem ab ab-valid

prefix_ab : new_prefix (97 ∷ 47 ∷ []) ≡ ok (97 ∷ 47 ∷ [])
unfolding new_prefix validate_prefix
prefix_ab = refl

no_key_ab : Key.new (97 ∷ 47 ∷ []) ≡ err (Key.invalid_store_key (97 ∷ 47 ∷ []))
unfolding Key.new validate
no_key_ab = refl
