-- ===== src/Array/RoundTrip.antt =====
-- A chunk that is stored is retrieved (zarrs/src/array/array_ops).
use zarrs.Common.{
  ℕ, ◌*◌, ◌<◌, ◌≡◌, ◌≢◌, refl, ap, ◌∙◌, arith, inl, inr, Bool, true, Bool-cases, not, ◌&&◌, none,
  some, List, ◌==◌, length, product_u64, u64_mod, ok, Outcome, returns, fails, panics, and_then,
}
use zarrs.Codec.{CodecError}
use zarrs.Codec.ArrayBytes.{ArrayBytes, fixed, plain, fixed_length, validate}
use zarrs.Codec.Chain.{encode, decode}
use zarrs.Codec.Chain.RoundTrip.{Lossless, chain_decode-encode}
use zarrs.Array.{
  Storage, Array, chunk_key, chunk_shape, store_chunk, erase_chunk, store_encoded_chunk,
  retrieve_chunk, retrieve_chunk_if_exists, codec_result, storage_result,
}
use zarrs.Array.Fill.{is_fill_value, new_fill_value}
use zarrs.Array.Fill.Repeats.{validate-whole, new_fill_value-is_fill_value}
use zarrs.Array.Lawful.{IsStorage}

module _ {State StorageError : Type 0} (storage : Storage State StorageError)
    (lawful : IsStorage storage) (a : Array) (chunk_indices shape : List ℕ)
    (dims : length chunk_indices ≡ a.chunk_grid.dimensions)
    (shaped : a.chunk_grid.chunk_shape chunk_indices ≡ ok (some shape)) where
  -- After a call, a chunk reads as a value, and chunks under other keys as before.
  pub record Reads (state after : State) (bytes : ArrayBytes) : Type 0 where
    pub reads : retrieve_chunk storage a chunk_indices after ≡ returns bytes
    pub others :
        (other : List ℕ)
        → chunk_key a chunk_indices ≢ chunk_key a other
        → retrieve_chunk storage a other after ≡ retrieve_chunk storage a other state

  same_length : (length chunk_indices == a.chunk_grid.dimensions) ≡ true
  same_length = ground (arith, dims)

  pub shape-of : chunk_shape storage a chunk_indices ≡ returns shape
  unfolding chunk_shape
  shape-of = rw (chunk_shape, shaped) refl

  pub retrieved_chunk :
      (after : State) (encoded : List ℕ)
      → storage.get after (chunk_key a chunk_indices) ≡ returns (some encoded)
      → retrieve_chunk storage a chunk_indices after
        ≡ codec_result storage (decode a.codecs_bound encoded shape)
  unfolding retrieve_chunk retrieve_chunk_if_exists
  retrieved_chunk after encoded g =
      rw (same_length, g, shape-of) (through (decode a.codecs_bound encoded shape))
    where
      through :
          (o : Outcome ArrayBytes CodecError)
          → and_then (and_then (codec_result storage o) (λ bytes. returns (some bytes))) (λ found.
            elim found [
              | none ↦ and_then (chunk_shape storage a chunk_indices) (λ shape.
                  codec_result storage
                    (new_fill_value a.data_type (product_u64 shape) a.fill_value))
              | some bytes ↦ returns bytes
            ])
            ≡ codec_result storage o
      through (returns b) = refl
      through (fails e) = refl
      through panics = refl

  retrieved_nothing :
      (after : State)
      → storage.get after (chunk_key a chunk_indices) ≡ returns none
      → retrieve_chunk storage a chunk_indices after
        ≡ codec_result storage (new_fill_value a.data_type (product_u64 shape) a.fill_value)
  unfolding retrieve_chunk retrieve_chunk_if_exists
  retrieved_nothing after g = rw (same_length, g, shape-of) refl

  -- A chunk reads the same where its key has the same value.
  pub retrieved_same :
      (other : List ℕ) (state after : State)
      → storage.get after (chunk_key a other) ≡ storage.get state (chunk_key a other)
      → retrieve_chunk storage a other after ≡ retrieve_chunk storage a other state
  unfolding retrieve_chunk retrieve_chunk_if_exists
  retrieved_same other state after g = rw g refl

  written :
      (state : State) (bytes : ArrayBytes) (encoded : List ℕ)
      → Lossless a.codecs_bound
      → encode a.codecs_bound bytes shape ≡ returns encoded
      → length encoded < u64_mod
      → (after : State) × (store_encoded_chunk storage a chunk_indices encoded state
          ≡ returns after)
        × Reads state after bytes
  unfolding store_encoded_chunk
  written state bytes encoded l e small =
      let (after, s, g, o) = lawful.after_set state (chunk_key a chunk_indices) encoded small in
      (
        after,
        ap (storage_result storage) s,
        record {
          reads =
              retrieved_chunk after encoded g
              ∙ ap (codec_result storage)
                  (chain_decode-encode a.codecs_bound bytes encoded shape l e);
          others = λ other d. retrieved_same other state after (o (chunk_key a other) d);
        },
      )

  pub erased :
      (state : State) (bytes : ArrayBytes)
      → new_fill_value a.data_type (product_u64 shape) a.fill_value ≡ returns bytes
      → (after : State) × (storage_result storage (erase_chunk storage a chunk_indices state)
          ≡ returns after)
        × Reads state after bytes
  unfolding erase_chunk
  erased state bytes e =
      let (after, s, g, o) = lawful.after_erase state (chunk_key a chunk_indices) in
      (
        after,
        ap (storage_result storage) s,
        record {
          reads = retrieved_nothing after g ∙ ap (codec_result storage) e;
          others = λ other d. retrieved_same other state after (o (chunk_key a other) d);
        },
      )

  -- A chunk whose elements, if the test finds them to be fill values, are what fill values read as.
  pub stored :
      (state : State) (store_empty_chunks : Bool) (bytes : ArrayBytes) (encoded : List ℕ)
      → validate bytes (product_u64 shape) a.data_type ≡ ok tt
      → ((not store_empty_chunks && is_fill_value bytes a.fill_value) ≡ true
          → new_fill_value a.data_type (product_u64 shape) a.fill_value ≡ returns bytes)
      → Lossless a.codecs_bound
      → encode a.codecs_bound bytes shape ≡ returns encoded
      → length encoded < u64_mod
      → (after : State) × (store_chunk storage a store_empty_chunks chunk_indices bytes state
          ≡ returns after)
        × Reads state after bytes
  unfolding store_chunk
  stored state store_empty_chunks bytes encoded valid fills l e small =
      elim (Bool-cases (not store_empty_chunks && is_fill_value bytes a.fill_value)) [
        | inl f ↦
            let (after, s, r) = erased state bytes (fills f) in
            (after, rw (shape-of, valid, f) s, r)
        | inr f ↦
            let (after, s, r) = written state bytes encoded l e small in
            (after, rw (shape-of, valid, f, e) s, r)
      ]

  -- For an array whose elements have the size of its fill value, over a store that keeps what is set
  -- and a chain of codecs that each decode what they encode to what it was: the bytes of a chunk of
  -- the grid, of as many elements as its shape, that the chain encodes, all of fewer than 2 ^ 64
  -- bytes, can be stored, and the chunk is then retrieved as it was, also where it is all fill values
  -- and is erased instead of stored; and a chunk with another key is retrieved as before.
  pub retrieve_chunk-store_chunk :
      (state : State) (store_empty_chunks : Bool) (bytes encoded : List ℕ)
      → a.data_type ≡ plain (fixed_length (length a.fill_value))
      → length bytes ≡ product_u64 shape * length a.fill_value
      → length bytes < u64_mod
      → Lossless a.codecs_bound
      → encode a.codecs_bound (fixed bytes) shape ≡ returns encoded
      → length encoded < u64_mod
      → (after : State) × (store_chunk storage a store_empty_chunks chunk_indices
            (fixed bytes)
            state
          ≡ returns after)
        × Reads state after (fixed bytes)
  retrieve_chunk-store_chunk state store_empty_chunks bytes encoded t n w l e small =
      stored state store_empty_chunks (fixed bytes) encoded
        (rw t (validate-whole bytes (product_u64 shape) (length a.fill_value) n w))
        (λ h. rw t (
          new_fill_value-is_fill_value bytes (product_u64 shape) a.fill_value n w
            (second (not store_empty_chunks) (is_fill_value (fixed bytes) a.fill_value) h)))
        l e small
    where
      second : (p q : Bool) → (p && q) ≡ true → q ≡ true
      second p q h = ground arith
