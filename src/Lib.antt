-- ===== src/Lib.antt =====
-- A model of the core of zarrs, a Rust implementation of the Zarr storage format for chunked,
-- multi-dimensional arrays, with the theorems that make it correct.
--
-- The program. An array of a shape is divided into chunks by a chunk grid. A region of the array is an
-- `ArraySubset`, a start and a shape; iterators enumerate its indices, as tuples or as row-major
-- positions, which `ravel_indices` and `unravel_index` convert. A grid says which chunk holds an index,
-- where a chunk lies, and which chunks a region touches. The key of a chunk is made by a chunk key
-- encoding from its indices, and its bytes are read from a store under that key, whole or by byte
-- ranges. The elements of a chunk become those bytes through a chain of codecs: array to array codecs,
-- one array to bytes codec, and bytes to bytes codecs, and come back through the same chain in reverse.
--
-- The parts, each with the code that it models.
--   Common: shared names; machine words (Words), lists (Lists), slices (Slices), results and panics
--     (Results), Boolean tests (Tests).
--   Index: `ravel_indices` and `unravel_index` of zarrs_chunk_grid/src/lib.rs. Index/Linear says what
--     they are held to, the row-major position of a tuple.
--   Subset: `ArraySubset` and `ArraySubsetTraits`, zarrs_chunk_grid/src/array_subset.rs and
--     zarrs_chunk_grid/src/array_subset_traits.rs. A function of the model has the name of the method.
--   Iterator: `IndicesIterator`, zarrs_chunk_grid/src/iterators/indices_iterator.rs: its state is the
--     subset and the range of positions left, a call returns what it yields and the next state.
--     Iterator/Calls is about calls from both ends, Iterator/Drain about calls of `next` until one ends.
--     Iterator/Linearised: zarrs_chunk_grid/src/iterators/linearised_indices_iterator.rs.
--     Iterator/Contiguous: the iterators of runs, contiguous_indices_iterator.rs and
--     contiguous_linearised_indices_iterator.rs beside it.
--   Grid: the provided methods of `ChunkGridTraits`, zarrs_chunk_grid/src/lib.rs, over a record of the
--     required ones, which Grid/Regular and Grid/Bounded fill. Grid/Regular, Grid/Bounded and
--     Grid/Rectangular: zarrs/src/array/chunk_grid/regular.rs, regular_bounded.rs and rectangular.rs.
--   Storage/ByteRange: zarrs_storage/src/byte_range.rs. Storage/Key: `StoreKey` and `StorePrefix`,
--     zarrs_storage/src/store_key.rs and store_prefix.rs. Storage/Memory: `MemoryStore`,
--     zarrs_storage/src/store/memory_store.rs: a call takes the map behind the lock and returns the one
--     it leaves, `none` where it panics. Storage/Memory/History sets sequences of calls against what
--     they do to each key on its own.
--   KeyEncoding: the `encode` methods under zarrs/src/array/chunk_key_encoding.
--   Codec/ArrayBytes: `ArrayBytes` with its offsets and `validate`, zarrs_codec/src/array_bytes.rs and
--     zarrs_codec/src/array_bytes.
--   Codec/Chain: `CodecChain` and `CodecChainBound`,
--     zarrs/src/array/codec/array_to_bytes/codec_chain.rs. The codecs of a chain are records of the
--     operations that it calls, from the traits in zarrs_codec/src/codec_traits. Codec/Chain/Cache:
--     `with_context` and the place of the cache of partial decoders. Codec/Chain/Metadata:
--     `from_metadata`.
--   Codec/VlenV2: zarrs/src/array/codec/array_to_bytes/vlen_v2.rs and vlen_v2/vlen_v2_codec.rs.
--   Codec/Sharding: the index of a shard, zarrs/src/array/codec/array_to_bytes/sharding.rs.
--   Codec/Transpose: the order of axes, zarrs/src/array/codec/array_to_array/transpose.rs.
--   Codec/Shuffle, Codec/Adler32, Codec/Crc32c, Codec/Fletcher32: the codecs of these names under
--     zarrs/src/array/codec/bytes_to_bytes. Codec/Location is what the first two checksums share.
--   Codec/PartialDecoder: the partial decoders that strip a prefix or a suffix, in the same directory,
--     zarrs_codec/src/byte_interval_partial_decoder.rs, and the one of bytes in memory in
--     zarrs_codec/src/codec_traits/bytes_partial_sync.rs.
--   Array: what `Array` does with one chunk, under zarrs/src/array/array_ops, over a record of a store
--     that Array/Lawful fills with `MemoryStore`; zarrs/src/node/key.rs. Array/Fill: fill values,
--     zarrs_data_type/src/fill_value.rs and zarrs_data_type/src/optional.rs, and `new_fill_value` and
--     `is_fill_value` of zarrs_codec/src/array_bytes.rs. Array/InMemory joins the grid, the key
--     encoding, the chain of codecs and the store.
--   Tests: runs of the theorems on concrete inputs.
--
-- Conventions. `u64` and `usize` are natural numbers, with the wrap-around of a release build on a
-- 64-bit target written out in every operator that can overflow; `saturating_sub` is `-`.
-- `NonZeroU64` is a number, and the theorems that need it not to be zero say so. A panic is a
-- value: `panics` of an iterator's step or of an outcome, or `none`. A loop over an iterator is a
-- recursion on the list, and one from the last element is a fold from the right. The blocks of the
-- Fletcher checksum run on fuel, one more than the number of words, and each takes a word at least.
-- A string is the list of its bytes. `BTreeMap` is a list of entries in the order of their keys,
-- `partition_point` of a sorted slice the number of leading elements that satisfy the predicate,
-- and a reader of `Read` and `Seek` behaves as `Cursor` does. `itoa` is the parameter `format` of
-- the key encodings, with the hypothesis that it prints the decimal digits of a number. The
-- checksums of the adler and crc32c libraries are a parameter from bytes to a number. A data type
-- is what the codecs ask of it, whether it is optional and the size of its elements; a fill value
-- is a list of bytes. `Outcome` is a result that may also be a panic. Options, and the messages of
-- errors, are left out.
--
-- Not modelled: the rectilinear grid, `list_dir`, the codecs that call external libraries or
-- compute in floating point, the encoding of a shard, the partial decoders of arrays, partial
-- encoders, extraction and update of subsets of array bytes, operations of arrays on more or less
-- than a chunk, storage transformers, groups, nodes, metadata, plugins, the asynchronous and
-- parallel interfaces beyond `split_at`, and the stores that do input and output.
pub mod Common
pub mod Index
pub mod Subset
pub mod Iterator
pub mod Grid
pub mod Storage
pub mod KeyEncoding
pub mod Codec
pub mod Array
pub mod Tests
