-- ===== src/Codec/Sharding/Entry.antt =====
-- The entry of a subchunk in the index of a shard
-- (zarrs/src/array/codec/array_to_bytes/sharding.rs).
use zarrs.Storage.ByteRange.{ByteRange}
use zarrs.Storage.ByteRange as Range
