-- ===== src/Tests/Arrays.antt =====
-- Arrays of four elements in chunks of two, in memory (zarrs/src/array/array_ops).
use zarrs.Common.{
  ℕ, ◌≡◌, ◌≢◌, refl, ap, arith, true, false, some, List, [], ◌∷◌, length, ok, returns, fails,
}
use zarrs.Grid.Regular.{RegularChunkGrid, to_grid}
use zarrs.Grid.Regular as Regular
use zarrs.Storage.Key.Order.{key_eq_refl}
use zarrs.Storage.Memory.{DataMap, get}
use zarrs.KeyEncoding.{slash, encode_default}
use zarrs.Codec.Bytes.{bytes_eq}
use zarrs.Codec.ArrayBytes.{
  fixed, variable, plain, optional, optional_of, fixed_length, variable_length, validate,
}
use zarrs.Array.{
  Array, invalid_chunk_grid_indices, chunk_key, data_key, strip_root, store_chunk, retrieve_chunk,
  retrieve_chunk_if_exists, compact_chunk,
}
use zarrs.Array.Fill.{
  is_fill_value, is_fill_value_null, inner_bytes, all_mask, new_fill_value, repeat, repeat_bytes,
  fill_offsets, data_type_size, equals_all, all_chunks,
}
use zarrs.Array.Lawful.{memory, memory-IsStorage}
use zarrs.Array.RoundTrip.{Reads, retrieve_chunk-store_chunk}
use zarrs.Array.Compaction.{retrieve_chunk-compact_chunk}
use zarrs.Array.Variable.{store_chunk-erased}
use zarrs.Array.InMemory.{chunks_apart}
use zarrs.Tests.Chains.{
  bound, bound-Lossless, padded, padded_keeps, summed_lossless, encoded_by_chain,
  compacted_by_chain,
}
use zarrs.Tests.Keys.{decimal, decimal-IsDecimal}

abbrev grid : RegularChunkGrid
grid = record { array_shape = 4 ∷ []; grid_shape = 2 ∷ []; chunk_shape = 2 ∷ [] }

abbrev numbers : Array
numbers = record {
  path = 47 ∷ 97 ∷ [];
  chunk_grid = to_grid grid;
  chunk_key_encoding = encode_default decimal slash;
  data_type = plain (fixed_length 1);
  fill_value = 0 ∷ [];
  codecs_bound = bound;
}

grid-chunk : Regular.chunk_shape grid (1 ∷ []) ≡ ok (some (2 ∷ []))
unfolding Regular.chunk_shape
grid-chunk = refl

grid-shape : (to_grid grid).chunk_shape (1 ∷ []) ≡ ok (some (2 ∷ []))
unfolding to_grid Regular.chunk_shape
grid-shape = refl

grid-dims : length {A = ℕ} (1 ∷ []) ≡ (to_grid grid).dimensions
unfolding to_grid
grid-dims = refl

chunks_apart_example :
    (after : DataMap) × (store_chunk
        (memory {StorageError = ℕ})
        numbers
        false
        (1 ∷ [])
        (fixed (7 ∷ 8 ∷ []))
        []
      ≡ returns after)
    × (retrieve_chunk (memory {StorageError = ℕ}) numbers (1 ∷ []) after
        ≡ returns (fixed (7 ∷ 8 ∷ [])))
    × ((other : List ℕ)
        → 1 ∷ [] ≢ other
        → retrieve_chunk (memory {StorageError = ℕ}) numbers other after
          ≡ retrieve_chunk (memory {StorageError = ℕ}) numbers other [])
chunks_apart_example =
    chunks_apart numbers grid decimal slash (1 ∷ []) (7 ∷ 8 ∷ []) (7 ∷ 8 ∷ 2 ∷ 0 ∷ 0 ∷ 0 ∷ []) []
      false refl refl decimal-IsDecimal refl grid-chunk refl refl (omega arith) bound-Lossless
      encoded_by_chain (omega arith)

retrieve_chunk-store_chunk_example :
    (after : DataMap) × (store_chunk
        (memory {StorageError = ℕ})
        numbers
        true
        (1 ∷ [])
        (fixed (7 ∷ 8 ∷ []))
        []
      ≡ returns after)
    × Reads
        (memory {StorageError = ℕ})
        memory-IsStorage
        numbers
        (1 ∷ [])
        (2 ∷ [])
        grid-dims
        grid-shape
        []
        after
        (fixed (7 ∷ 8 ∷ []))
retrieve_chunk-store_chunk_example =
    retrieve_chunk-store_chunk (memory {StorageError = ℕ}) memory-IsStorage numbers (1 ∷ [])
      (2 ∷ []) grid-dims grid-shape [] true (7 ∷ 8 ∷ []) (7 ∷ 8 ∷ 2 ∷ 0 ∷ 0 ∷ 0 ∷ []) refl refl
      (omega arith) bound-Lossless encoded_by_chain (omega arith)

-- The chunk with a byte of padding.
abbrev compactable : Array
compactable = record numbers { codecs_bound = padded }

abbrev with_padding : DataMap
with_padding =
    record { key = chunk_key compactable (1 ∷ []); value = 7 ∷ 8 ∷ 9 ∷ 3 ∷ 0 ∷ 0 ∷ 0 ∷ [] } ∷ []

padding-found :
    get with_padding (chunk_key compactable (1 ∷ [])) ≡ some (7 ∷ 8 ∷ 9 ∷ 3 ∷ 0 ∷ 0 ∷ 0 ∷ [])
unfolding get
padding-found = rw (key_eq_refl (chunk_key compactable (1 ∷ []))) refl

retrieve_chunk-compact_chunk_example :
    (after : DataMap) × (compact_chunk (memory {StorageError = ℕ}) compactable (1 ∷ []) with_padding
      ≡ returns (true, after))
    × (retrieve_chunk (memory {StorageError = ℕ}) compactable (1 ∷ []) after
        ≡ retrieve_chunk (memory {StorageError = ℕ}) compactable (1 ∷ []) with_padding)
    × ((other : List ℕ)
        → chunk_key compactable (1 ∷ []) ≢ chunk_key compactable other
        → retrieve_chunk (memory {StorageError = ℕ}) compactable other after
          ≡ retrieve_chunk (memory {StorageError = ℕ}) compactable other with_padding)
retrieve_chunk-compact_chunk_example =
    retrieve_chunk-compact_chunk (memory {StorageError = ℕ}) memory-IsStorage compactable (1 ∷ [])
      (2 ∷ []) (7 ∷ 8 ∷ 9 ∷ 3 ∷ 0 ∷ 0 ∷ 0 ∷ []) (7 ∷ 8 ∷ 2 ∷ 0 ∷ 0 ∷ 0 ∷ []) with_padding grid-dims
      grid-shape (ap returns padding-found) compacted_by_chain (omega arith) (summed_lossless, tt)
      (λ b c s h. padded_keeps b c h)

-- An array of strings whose fill value is "ab".
abbrev strings : Array
strings = record numbers { data_type = plain variable_length; fill_value = 97 ∷ 98 ∷ [] }

-- The strings "aba" and "b".
two_strings :
    validate (variable (repeat_bytes (97 ∷ 98 ∷ []) 2) (0 ∷ 3 ∷ 4 ∷ [])) 2 (plain variable_length)
    ≡ ok tt
unfolding validate repeat_bytes
two_strings = refl

-- They read as "ab" twice.
store_chunk-erased_example :
    (after : DataMap) × (store_chunk
        (memory {StorageError = ℕ})
        strings
        false
        (1 ∷ [])
        (variable (repeat_bytes (97 ∷ 98 ∷ []) 2) (0 ∷ 3 ∷ 4 ∷ []))
        []
      ≡ returns after)
    × Reads
        (memory {StorageError = ℕ})
        memory-IsStorage
        strings
        (1 ∷ [])
        (2 ∷ [])
        grid-dims
        grid-shape
        []
        after
        (variable (repeat_bytes (97 ∷ 98 ∷ []) 2) (fill_offsets 0 2 2))
store_chunk-erased_example =
    store_chunk-erased (memory {StorageError = ℕ}) memory-IsStorage strings (1 ∷ []) (2 ∷ [])
      grid-dims grid-shape [] 97 (98 ∷ []) (0 ∷ 3 ∷ 4 ∷ []) 1 refl refl (omega arith) two_strings

two_fills :
    new_fill_value (plain variable_length) 2 (97 ∷ 98 ∷ [])
    ≡ returns (variable (97 ∷ 98 ∷ 97 ∷ 98 ∷ []) (0 ∷ 2 ∷ 4 ∷ []))
unfolding new_fill_value repeat repeat_bytes fill_offsets
two_fills = refl

-- Fill values of an optional data type: the number 5, and null.
optional_fills :
    (new_fill_value (optional_of (plain (fixed_length 1))) 2 (5 ∷ 1 ∷ [])
      ≡ returns (optional (fixed (5 ∷ 5 ∷ [])) (1 ∷ 1 ∷ [])))
    × (new_fill_value (optional_of (plain (fixed_length 1))) 2 (0 ∷ [])
        ≡ returns (optional (fixed (0 ∷ 0 ∷ [])) (0 ∷ 0 ∷ [])))
unfolding new_fill_value repeat repeat_bytes is_fill_value_null inner_bytes data_type_size
optional_fills = (refl, refl)

optional_tests :
    (is_fill_value (optional (fixed (5 ∷ 5 ∷ [])) (1 ∷ 1 ∷ [])) (5 ∷ 1 ∷ []) ≡ true)
    × (is_fill_value (optional (fixed (5 ∷ 6 ∷ [])) (1 ∷ 1 ∷ [])) (5 ∷ 1 ∷ []) ≡ false)
    × (is_fill_value (optional (fixed (5 ∷ 6 ∷ [])) (0 ∷ 0 ∷ [])) (0 ∷ []) ≡ true)
unfolding is_fill_value is_fill_value_null inner_bytes all_mask equals_all all_chunks bytes_eq
optional_tests = (refl, refl, refl)

root_key :
    (data_key (47 ∷ []) (99 ∷ []) ≡ 99 ∷ [])
    × (data_key (47 ∷ 97 ∷ []) (99 ∷ []) ≡ 97 ∷ 47 ∷ 99 ∷ [])
unfolding data_key strip_root
root_key = (refl, refl)

wrong_dimensions :
    retrieve_chunk (memory {StorageError = ℕ}) numbers [] [] ≡ fails (invalid_chunk_grid_indices [])
unfolding retrieve_chunk retrieve_chunk_if_exists to_grid
wrong_dimensions = refl
