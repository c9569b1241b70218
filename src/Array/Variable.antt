-- ===== src/Array/Variable.antt =====
-- Chunks of elements of variable length (zarrs_codec/src/array_bytes.rs,
-- zarrs/src/array/array_ops/array_write_ops/array.rs).
use zarrs.Common.{
  ℕ, suc, ◌*◌, ◌<◌, ◌≡◌, refl, arith, false, true, ltb, some, List, ◌∷◌, length, product_u64,
  u64_mod, ok, returns,
}
use zarrs.Codec.ArrayBytes.{variable, plain, variable_length, validate}
use zarrs.Array.{Storage, Array, store_chunk}
use zarrs.Array.Fill.{is_fill_value, new_fill_value, repeat, repeat_bytes, fill_offsets}
use zarrs.Array.Fill.Repeats.{equals_all_complete}
use zarrs.Array.Lawful.{IsStorage}
use zarrs.Array.RoundTrip.{Reads, shape-of, erased}

-- For an array of elements of variable length with a fill value that is not empty, whose chunk of fill
-- values has fewer than 2 ^ 64 bytes, over a store that keeps what is set: a chunk of the grid whose
-- bytes are one or more copies of the fill value one after another, whatever its elements are, is
-- erased when it is stored without `store_empty_chunks`, and then reads as fill values.
pub store_chunk-erased :
    {State StorageError : Type 0} (storage : Storage State StorageError)
    (lawful : IsStorage storage) (a : Array) (chunk_indices shape : List ℕ)
    (dims : length chunk_indices ≡ a.chunk_grid.dimensions)
    (shaped : a.chunk_grid.chunk_shape chunk_indices ≡ ok (some shape)) (state : State) (f : ℕ)
    (fill offsets : List ℕ) (count : ℕ)
    → a.data_type ≡ plain variable_length
    → a.fill_value ≡ f ∷ fill
    → length (f ∷ fill) * product_u64 shape < u64_mod
    → validate
        (variable (repeat_bytes (f ∷ fill) (suc count)) offsets)
        (product_u64 shape)
        a.data_type
      ≡ ok tt
    → (after : State) × (store_chunk storage a false chunk_indices
          (variable (repeat_bytes (f ∷ fill) (suc count)) offsets)
          state
        ≡ returns after)
      × Reads storage lawful a chunk_indices shape dims shaped state after (
          variable
            (repeat_bytes (f ∷ fill) (product_u64 shape))
            (fill_offsets 0 (product_u64 shape) (length (f ∷ fill))))
unfolding store_chunk new_fill_value is_fill_value repeat
store_chunk-erased storage lawful a chunk_indices shape dims shaped state f fill offsets count t v w
      valid =
    let room : ltb (length (f ∷ fill) * product_u64 shape) u64_mod ≡ true = ground (arith, w) in
    let (after, s, r) =
      erased storage lawful a chunk_indices shape dims shaped state _ (rw (t, v, room) refl) in
    let at = shape-of storage lawful a chunk_indices shape dims shaped in
    let is : is_fill_value (variable (repeat_bytes (f ∷ fill) (suc count)) offsets) a.fill_value
        ≡ true =
      rw v (equals_all_complete f fill count) in
    (after, rw (at, valid, is) s, r)
