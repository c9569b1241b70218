-- ===== src/Codec/Sharding.antt =====
-- The index of a shard (zarrs/src/array/codec/array_to_bytes/sharding.rs).
pub mod Entry
use zarrs.Common.{
  ℕ, ◌+◌, ◌*◌, ◌/◌, ◌%◌, ◌-◌, Bool, true, false, ◌&&◌, Option, none, some, List, [], ◌∷◌, ◌++◌,
  ◌==◌, if◌then◌else◌, get_elem?, add_u64, mul_u64, u64_mod, Outcome, returns, fails, panics,
  and_then, checked,
}
use zarrs.Index.{ravel_indices}
use zarrs.Storage.ByteRange.{ByteRange, from_start, suffix, included, excluded}
use zarrs.Storage.ByteRange as Range
use zarrs.Codec.{CodecError, BytesRepresentation, fixed_size, bounded_size, unbounded_size, other}
use zarrs.Codec.Location.{Location, start, end}
use zarrs.Codec.Chain.{CodecChainBound, encoded_representation}

-- For a shard and a subchunk in one dimension, whose sizes are `NonZeroU64`.
unfoldable pub chunks_in_dimension : ℕ → ℕ → Outcome ℕ CodecError
chunks_in_dimension s c = if s % c == 0 then returns (s / c) else fails other

unfoldable pub calculate_chunks_per_shard : List ℕ → List ℕ → Outcome (List ℕ) CodecError
unfolding chunks_in_dimension
calculate_chunks_per_shard (s ∷ shard_shape) (c ∷ subchunk_shape) =
    and_then (chunks_in_dimension s c) (λ n.
      and_then (calculate_chunks_per_shard shard_shape subchunk_shape)
        (λ chunks_per_shard. returns (n ∷ chunks_per_shard)))
calculate_chunks_per_shard _ _ = returns []

unfoldable pub sharding_index_shape : List ℕ → List ℕ
sharding_index_shape chunks_per_shard = chunks_per_shard ++ 2 ∷ []

-- The size of a representation that is fixed.
abbrev pub size_of_index : BytesRepresentation → Outcome ℕ CodecError
size_of_index (fixed_size size) = returns size
size_of_index (bounded_size size) = fails other
size_of_index unbounded_size = fails other

unfoldable pub compute_index_encoded_size : CodecChainBound → List ℕ → Outcome ℕ CodecError
compute_index_encoded_size index_codecs index_shape =
    and_then (encoded_representation index_codecs index_shape) size_of_index

-- Every error becomes `CodecError::Other`.
abbrev pub as_other {ℓ} : {A : Type ℓ} → Outcome A CodecError → Outcome A CodecError
as_other (returns a) = returns a
as_other (fails e) = fails other
as_other panics = panics

abbrev pub range_at : Location → ℕ → ByteRange
range_at start size = from_start 0 (some size)
range_at end size = suffix size

unfoldable pub get_index_byte_range :
    List ℕ → CodecChainBound → Location → Outcome ByteRange CodecError
unfolding compute_index_encoded_size
get_index_byte_range index_shape index_codecs index_location =
    and_then (as_other (compute_index_encoded_size index_codecs index_shape))
      (λ size. returns (range_at index_location size))

-- u64::MAX
abbrev pub u64_max : ℕ
u64_max = u64_mod - 1

-- The range of an entry of the index; a subchunk that is not there has the largest words in it.
unfoldable pub entry_range : ℕ → ℕ → Option ByteRange
entry_range offset size =
    if offset == u64_max && size == u64_max
    then none
    else some (Range.new (included offset) (excluded (add_u64 offset size)))

-- The entry at a row-major position, `none` if an index is out of bounds.
unfoldable pub entry_at : List ℕ → Option ℕ → Outcome (Option ByteRange) CodecError
unfolding entry_range
entry_at shard_index none = fails other
entry_at shard_index (some index) =
    and_then (checked (get_elem? shard_index (mul_u64 index 2))) (λ offset.
      and_then (checked (get_elem? shard_index (add_u64 (mul_u64 index 2) 1)))
        (λ size. returns (entry_range offset size)))

unfoldable pub subchunk_byte_range :
    Option (List ℕ) → List ℕ → List ℕ → List ℕ → Outcome (Option ByteRange) CodecError
unfolding entry_at
subchunk_byte_range none shard_shape chunk_shape chunk_indices = returns none
subchunk_byte_range (some shard_index) shard_shape chunk_shape chunk_indices =
    and_then (calculate_chunks_per_shard shard_shape chunk_shape)
      (λ chunks_per_shard. entry_at shard_index (ravel_indices chunk_indices chunks_per_shard))
