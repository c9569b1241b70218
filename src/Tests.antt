-- ===== src/Tests.antt =====
-- Runs of the theorems on concrete inputs.
mod Indices
mod Subsets
mod Iterators
mod Grids
mod Ranges
mod Stores
mod Keys
mod Codecs
mod Chains
mod Decoders
mod Arrays
mod Shards
mod Orders
