-- ===== src/Array.antt =====
-- The chunks of an array in a store (zarrs/src/array/array_ops/array_read_ops.rs,
-- zarrs/src/array/array_ops/array_read_ops/array.rs, zarrs/src/array/array_ops/array_write_ops/array.rs,
-- zarrs/src/array/array_ops/array_update_ops/array.rs, zarrs/src/node/key.rs).
pub mod Fill
pub mod Lawful
pub mod RoundTrip
pub mod Compaction
pub mod Variable
pub mod Keys
pub mod InMemory
use zarrs.Common.{
  ℕ, Bool, true, false, not, ◌&&◌, Option, none, some, List, [], ◌∷◌, ◌++◌, ◌==◌, if◌then◌else◌,
  length, product_u64, Result, ok, err, Outcome, returns, fails, panics, and_then,
}
use zarrs.Grid.{ChunkGrid}
use zarrs.Storage.Key.{slash}
use zarrs.Codec.{CodecError}
use zarrs.Codec.ArrayBytes.{ArrayBytes, DataType, validate}
use zarrs.Codec.VlenV2.{from_result}
use zarrs.Codec.Chain.{CodecChainBound, FillValue, encode, decode, compact}
use zarrs.Array.Fill.{is_fill_value, new_fill_value}

-- What an array asks of its store: `get` of `ReadableStorageTraits`, `set` and `erase` of
-- `WritableStorageTraits`, on the state of the store, with its errors.
pub record Storage (State StorageError : Type 0) : Type 0 where
  pub get : State → List ℕ → Outcome (Option (List ℕ)) StorageError
  pub set : State → List ℕ → List ℕ → Outcome State StorageError
  pub erase : State → List ℕ → Outcome State StorageError

pub data ArrayError (StorageError : Type 0) : Type 0 where
  invalid_chunk_grid_indices : List ℕ → ArrayError StorageError
  codec_error : CodecError → ArrayError StorageError
  storage_error : StorageError → ArrayError StorageError

-- The fields of `Array` that these functions use.
pub record Array : Type 0 where
  pub path : List ℕ
  pub chunk_grid : ChunkGrid
  pub chunk_key_encoding : List ℕ → List ℕ
  pub data_type : DataType
  pub fill_value : FillValue
  pub codecs_bound : CodecChainBound

-- strip_prefix('/').unwrap_or(path)
unfoldable pub strip_root : List ℕ → List ℕ
strip_root [] = []
strip_root (c ∷ path) = if c == slash then path else c ∷ path

-- The key of a chunk under a path with no slash before it.
abbrev pub under : List ℕ → List ℕ → List ℕ
under [] chunk_key = chunk_key
under (c ∷ path) chunk_key = (c ∷ path) ++ slash ∷ chunk_key

unfoldable pub data_key : List ℕ → List ℕ → List ℕ
unfolding strip_root
data_key path chunk_key = under (strip_root path) chunk_key

unfoldable pub chunk_key : Array → List ℕ → List ℕ
chunk_key a chunk_indices = data_key a.path (a.chunk_key_encoding chunk_indices)

module _ {State StorageError : Type 0} (storage : Storage State StorageError) where
  -- map_err(ArrayError::CodecError)
  abbrev pub codec_result {ℓ} :
      {A : Type ℓ} → Outcome A CodecError → Outcome A (ArrayError StorageError)
  codec_result (returns a) = returns a
  codec_result (fails e) = fails (codec_error e)
  codec_result panics = panics

  -- map_err(ArrayError::StorageError)
  abbrev pub storage_result {ℓ} :
      {A : Type ℓ} → Outcome A StorageError → Outcome A (ArrayError StorageError)
  storage_result (returns a) = returns a
  storage_result (fails e) = fails (storage_error e)
  storage_result panics = panics

  unfoldable pub chunk_shape : Array → List ℕ → Outcome (List ℕ) (ArrayError StorageError)
  chunk_shape a chunk_indices = elim (a.chunk_grid.chunk_shape chunk_indices) [
    | err e ↦ fails (invalid_chunk_grid_indices chunk_indices)
    | ok none ↦ fails (invalid_chunk_grid_indices chunk_indices)
    | ok (some shape) ↦ returns shape
  ]

  pub erase_chunk : Array → List ℕ → State → Outcome State StorageError
  erase_chunk a chunk_indices state = storage.erase state (chunk_key a chunk_indices)

  pub store_encoded_chunk :
      Array → List ℕ → List ℕ → State → Outcome State (ArrayError StorageError)
  store_encoded_chunk a chunk_indices encoded state =
      storage_result (storage.set state (chunk_key a chunk_indices) encoded)

  -- `store_chunk_opt`, with the option `store_empty_chunks`.
  pub store_chunk :
      Array → Bool → List ℕ → ArrayBytes → State → Outcome State (ArrayError StorageError)
  unfolding chunk_shape erase_chunk store_encoded_chunk
  store_chunk a store_empty_chunks chunk_indices bytes state =
      and_then (chunk_shape a chunk_indices) (λ shape.
        and_then (codec_result (from_result (validate bytes (product_u64 shape) a.data_type))) (λ _.
          if not store_empty_chunks && is_fill_value bytes a.fill_value
          then storage_result (erase_chunk a chunk_indices state)
          else and_then (codec_result (encode a.codecs_bound bytes shape))
              (λ encoded. store_encoded_chunk a chunk_indices encoded state)))

  -- `retrieve_chunk_if_exists_opt`
  unfoldable pub retrieve_chunk_if_exists :
      Array → List ℕ → State → Outcome (Option ArrayBytes) (ArrayError StorageError)
  unfolding chunk_shape
  retrieve_chunk_if_exists a chunk_indices state =
      if not (length chunk_indices == a.chunk_grid.dimensions)
      then fails (invalid_chunk_grid_indices chunk_indices)
      else and_then (storage_result (storage.get state (chunk_key a chunk_indices))) (λ found.
        elim found [
          | none ↦ returns none
          | some encoded ↦ and_then (chunk_shape a chunk_indices) (λ shape.
              and_then (codec_result (decode a.codecs_bound encoded shape))
                (λ bytes. returns (some bytes)))
        ])

  -- `retrieve_chunk_opt`
  unfoldable pub retrieve_chunk :
      Array → List ℕ → State → Outcome ArrayBytes (ArrayError StorageError)
  unfolding retrieve_chunk_if_exists
  retrieve_chunk a chunk_indices state =
      and_then (retrieve_chunk_if_exists a chunk_indices state) (λ found. elim found [
        | some bytes ↦ returns bytes
        | none ↦
            and_then (chunk_shape a chunk_indices)
              (λ shape. codec_result (new_fill_value a.data_type (product_u64 shape) a.fill_value))
      ])

  -- `retrieve_encoded_chunk_opt`
  pub retrieve_encoded_chunk : Array → List ℕ → State → Outcome (Option (List ℕ)) StorageError
  retrieve_encoded_chunk a chunk_indices state = storage.get state (chunk_key a chunk_indices)

  -- Whether the chunk was compacted, and the state that is left.
  pub compact_chunk : Array → List ℕ → State → Outcome (Bool × State) (ArrayError StorageError)
  unfolding retrieve_encoded_chunk
  compact_chunk a chunk_indices state =
      and_then (storage_result (retrieve_encoded_chunk a chunk_indices state)) (λ found.
        elim found [
          | none ↦ returns (false, state)
          | some encoded ↦ and_then (chunk_shape a chunk_indices) (λ shape.
              and_then (codec_result (compact a.codecs_bound encoded shape)) (λ compacted.
                elim compacted [
                  | none ↦ returns (false, state)
                  | some bytes ↦
                      and_then (store_encoded_chunk a chunk_indices bytes state)
                        (λ state. returns (true, state))
                ]))
        ])
