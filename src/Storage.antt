-- ===== src/Storage.antt =====
-- Storage: byte ranges, keys and prefixes, and the in-memory store (zarrs_storage/src). Bytes are
-- numbers, and a string is the list of its bytes.
pub mod ByteRange
pub mod Key
pub mod Memory
