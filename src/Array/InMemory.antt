-- ===== src/Array/InMemory.antt =====
-- Arrays with a regular grid and the default key encoding in a `MemoryStore`
-- (zarrs/src/array/array_ops, zarrs_storage/src/store/memory_store.rs).
use zarrs.Common.{
  ℕ, ◌*◌, ◌<◌, ◌≡◌, ◌≢◌, sym, ap, ◌∙◌, Bool, List, length, product_u64, u64_mod, some, ok, returns,
}
use zarrs.Grid.Regular.{RegularChunkGrid, to_grid, chunk_shape}
use zarrs.Codec.ArrayBytes.{fixed, plain, fixed_length}
use zarrs.Codec.Chain.{encode}
use zarrs.Codec.Chain.RoundTrip.{Lossless}
use zarrs.Storage.Memory.{DataMap}
use zarrs.KeyEncoding.{ChunkKeySeparator, encode_default}
use zarrs.KeyEncoding.Encode.{IsDecimal, encode_default_lem}
use zarrs.Array.{Array, chunk_key, retrieve_chunk, store_chunk}
use zarrs.Array.Keys.{data_key-injective}
use zarrs.Array.Lawful.{memory, memory-IsStorage}
use zarrs.Array.RoundTrip.{retrieve_chunk-store_chunk}

-- For an array in memory with a regular grid, the default key encoding over decimal indices, elements
-- of the size of the fill value, and a chain of codecs that each decode what they encode to what it
-- was: the bytes of a chunk of the grid, which it has if the array is not empty, of as many elements as
-- a chunk has, that the chain encodes, all of fewer than 2 ^ 64 bytes, can be stored; then the chunk is
-- retrieved as it was, and every other chunk as before.
pub chunks_apart :
    {StorageError : Type 0} (a : Array) (g : RegularChunkGrid) (format : ℕ → List ℕ)
    (separator : ChunkKeySeparator) (chunk_indices bytes encoded : List ℕ) (data_map : DataMap)
    (store_empty_chunks : Bool)
    → a.chunk_grid ≡ to_grid g
    → a.chunk_key_encoding ≡ encode_default format separator
    → IsDecimal format
    → length chunk_indices ≡ length g.chunk_shape
    → chunk_shape g chunk_indices ≡ ok (some g.chunk_shape)
    → a.data_type ≡ plain (fixed_length (length a.fill_value))
    → length bytes ≡ product_u64 g.chunk_shape * length a.fill_value
    → length bytes < u64_mod
    → Lossless a.codecs_bound
    → encode a.codecs_bound (fixed bytes) g.chunk_shape ≡ returns encoded
    → length encoded < u64_mod
    → (after : DataMap) × (store_chunk
          (memory {StorageError = StorageError})
          a
          store_empty_chunks
          chunk_indices
          (fixed bytes)
          data_map
        ≡ returns after)
      × (retrieve_chunk (memory {StorageError = StorageError}) a chunk_indices after
          ≡ returns (fixed bytes))
      × ((other : List ℕ)
          → chunk_indices ≢ other
          → retrieve_chunk (memory {StorageError = StorageError}) a other after
            ≡ retrieve_chunk (memory {StorageError = StorageError}) a other data_map)
unfolding to_grid chunk_key
chunks_apart {StorageError} a g format separator chunk_indices bytes encoded data_map
      store_empty_chunks grid keyed decimal dims is_chunk t n w l e small =
    let shaped : a.chunk_grid.chunk_shape chunk_indices ≡ ok (some g.chunk_shape) =
      rw grid is_chunk in
    let (after, s, r) =
      retrieve_chunk-store_chunk memory memory-IsStorage a chunk_indices g.chunk_shape
        (rw grid dims) shaped data_map store_empty_chunks bytes encoded t n w l e small in
    (
      after,
      s,
      r.reads,
      λ other d. r.others other (λ same. d (own other (data_key-injective a.path _ _ same))),
    )
  where
    own :
        (other : List ℕ)
        → a.chunk_key_encoding chunk_indices ≡ a.chunk_key_encoding other
        → chunk_indices ≡ other
    own other same = (encode_default_lem format decimal separator chunk_indices other).0 (
        ap (λ (f : List ℕ → List ℕ). f chunk_indices) (sym keyed)
        ∙ same
        ∙ ap (λ (f : List ℕ → List ℕ). f other) keyed)
