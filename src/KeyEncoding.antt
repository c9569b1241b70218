-- ===== src/KeyEncoding.antt =====
-- Chunk key encodings (zarrs/src/array/chunk_key_encoding/default.rs, v2.rs and default_suffix.rs there,
-- zarrs_metadata/src/array/chunk_key_separator.rs). `format` is `itoa::Buffer::format`.
pub mod Components
pub mod Valid
pub mod Encode
use zarrs.Common.{ℕ, List, [], ◌∷◌, ◌++◌, map, Option, none, some, ◌==◌, if◌then◌else◌}

pub data ChunkKeySeparator : Type 0 where
  slash : ChunkKeySeparator
  dot : ChunkKeySeparator

-- `char::from`
pub char : ChunkKeySeparator → ℕ
char slash = 47
char dot = 46

-- `ChunkKeySeparator::try_from`
unfoldable pub try_from : ℕ → Option ChunkKeySeparator
try_from c = if c == 47 then some slash else if c == 46 then some dot else none

-- iter.join(separator)
pub join : ℕ → List (List ℕ) → List ℕ
join separator [] = []
join separator (x ∷ []) = x
join separator (x ∷ y ∷ xs) = x ++ separator ∷ join separator (y ∷ xs)

module _ (format : ℕ → List ℕ) where
  -- `DefaultChunkKeyEncoding::encode`: "c" and the indices.
  pub encode_default : ChunkKeySeparator → List ℕ → List ℕ
  unfolding join char
  encode_default separator [] = 99 ∷ []
  encode_default separator (i ∷ chunk_grid_indices) =
      join (char separator) ((99 ∷ []) ∷ map format (i ∷ chunk_grid_indices))

  -- `DefaultSuffixChunkKeyEncoding::encode`
  pub encode_default_suffix : ChunkKeySeparator → List ℕ → List ℕ → List ℕ
  unfolding join char
  encode_default_suffix separator suffix [] = 99 ∷ suffix
  encode_default_suffix separator suffix (i ∷ chunk_grid_indices) =
      join (char separator) ((99 ∷ []) ∷ map format (i ∷ chunk_grid_indices)) ++ suffix

  -- `V2ChunkKeyEncoding::encode`: the indices, or "0".
  pub encode_v2 : ChunkKeySeparator → List ℕ → List ℕ
  unfolding join char
  encode_v2 separator [] = 48 ∷ []
  encode_v2 separator (i ∷ chunk_grid_indices) =
      join (char separator) (map format (i ∷ chunk_grid_indices))
