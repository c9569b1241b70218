-- ===== src/Array/Compaction.antt =====
-- A chunk that is compacted reads as before (zarrs/src/array/array_ops/array_update_ops/array.rs).
use zarrs.Common.{
  ℕ, ◌<◌, ◌≡◌, ◌≢◌, refl, sym, ap, ◌∙◌, true, some, List, length, u64_mod, ok, returns,
}
use zarrs.Codec.Chain.{compact}
use zarrs.Codec.Chain.RoundTrip.{LosslessBytes}
use zarrs.Codec.Chain.Compact.{decode-compact}
use zarrs.Array.{
  Storage, Array, chunk_key, retrieve_chunk, compact_chunk, retrieve_encoded_chunk,
  store_encoded_chunk, codec_result,
}
use zarrs.Array.Lawful.{IsStorage}
use zarrs.Array.RoundTrip.{shape-of, retrieved_chunk, retrieved_same}

-- For a store that keeps what is set, bytes to bytes codecs that decode what they encode to what it
-- was, and an array to bytes codec whose compaction keeps what its bytes decode to: where the bytes of
-- a chunk of the grid have a compaction of fewer than 2 ^ 64 bytes, `compact_chunk` stores it and
-- returns true, and the chunk, and every chunk with another key, is retrieved as before.
pub retrieve_chunk-compact_chunk :
    {State StorageError : Type 0} (storage : Storage State StorageError)
    (lawful : IsStorage storage) (a : Array) (chunk_indices shape encoded compacted : List ℕ)
    (state : State)
    → length chunk_indices ≡ a.chunk_grid.dimensions
    → a.chunk_grid.chunk_shape chunk_indices ≡ ok (some shape)
    → storage.get state (chunk_key a chunk_indices) ≡ returns (some encoded)
    → compact a.codecs_bound encoded shape ≡ returns (some compacted)
    → length compacted < u64_mod
    → LosslessBytes a.codecs_bound.bytes_to_bytes
    → ((b c s : List ℕ)
        → a.codecs_bound.array_to_bytes.compact b s ≡ returns (some c)
        → a.codecs_bound.array_to_bytes.decode c s ≡ a.codecs_bound.array_to_bytes.decode b s)
    → (after : State) × (compact_chunk storage a chunk_indices state ≡ returns (true, after))
      × (retrieve_chunk storage a chunk_indices after
          ≡ retrieve_chunk storage a chunk_indices state)
      × ((other : List ℕ)
          → chunk_key a chunk_indices ≢ chunk_key a other
          → retrieve_chunk storage a other after ≡ retrieve_chunk storage a other state)
unfolding compact_chunk retrieve_encoded_chunk store_encoded_chunk
retrieve_chunk-compact_chunk storage lawful a chunk_indices shape encoded compacted state dims
      shaped found packed small l keeps =
    let (after, s, g, o) = lawful.after_set state (chunk_key a chunk_indices) compacted small in
    let at = shape-of storage lawful a chunk_indices shape dims shaped in
    let reads = retrieved_chunk storage lawful a chunk_indices shape dims shaped in
    (
      after,
      rw (found, at, packed, s) refl,
      reads after compacted g
          ∙ ap (codec_result storage)
              (decode-compact a.codecs_bound encoded shape compacted l keeps packed)
          ∙ sym (reads state encoded found),
      λ other d.
          retrieved_same storage lawful a chunk_indices shape dims shaped other state after
            (o (chunk_key a other) d),
    )
