-- ===== src/Tests/Shards.antt =====
-- The index of a shard of two subchunks (zarrs/src/array/codec/array_to_bytes/sharding.rs).
use zarrs.Common.{ℕ, ◌≡◌, refl, some, List, [], ◌∷◌, returns, fails}
use zarrs.Index.{ravel_indices, ravel_loop, ravel_step, index_of}
use zarrs.Storage.ByteRange.{from_start, suffix}
use zarrs.Storage.ByteRange as Range
use zarrs.Codec.{other}
use zarrs.Codec.Location.{start, end}
use zarrs.Codec.Chain.{
  encoded_representation, fold_representation, get_array_representations,
  array_representations_from, last_shape, fill_value, data_type,
}
use zarrs.Codec.Sharding.{
  chunks_in_dimension, calculate_chunks_per_shard, sharding_index_shape, compute_index_encoded_size,
  get_index_byte_range, entry_range, entry_at, subchunk_byte_range,
}
use zarrs.Tests.Chains.{bound}

abbrev shard_index : List ℕ
shard_index = 10 ∷ 5 ∷ 15 ∷ 7 ∷ []

not_divided : calculate_chunks_per_shard (4 ∷ []) (3 ∷ []) ≡ fails other
unfolding calculate_chunks_per_shard chunks_in_dimension
not_divided = refl

second_subchunk :
    subchunk_byte_range (some shard_index) (4 ∷ 4 ∷ []) (2 ∷ 4 ∷ []) (1 ∷ 0 ∷ [])
    ≡ returns (some (from_start 15 (some 7)))
unfolding subchunk_byte_range entry_at entry_range calculate_chunks_per_shard chunks_in_dimension
    ravel_indices ravel_loop ravel_step index_of Range.new
second_subchunk = refl

index_ranges :
    (get_index_byte_range (sharding_index_shape []) bound start ≡ returns (from_start 0 (some 2)))
    × (get_index_byte_range (sharding_index_shape []) bound end ≡ returns (suffix 2))
unfolding get_index_byte_range compute_index_encoded_size sharding_index_shape
    encoded_representation fold_representation get_array_representations array_representations_from
    last_shape fill_value data_type
index_ranges = (refl, refl)
