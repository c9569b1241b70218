-- ===== src/Codec/Chain/Compact.antt =====
-- The compaction of encoded bytes (zarrs/src/array/codec/array_to_bytes/codec_chain.rs).
use mathlib.Core.List.{reverse}
use zarrs.Common.{
  ℕ, ◌≡◌, refl, ap, subst, ◌∙◌, List, Option, none, some, Outcome, returns, and_then,
  and_then-returns,
}
use zarrs.Codec.{CodecError, BytesRepresentation}
use zarrs.Codec.Chain.{
  CodecChainBound, ArrayRepresentation, get_array_representations, get_bytes_representations,
  bytes_representations_from, get_representations, last_shape, decode_bytes, encode_bytes, decode,
  compact, skip_one,
}
use zarrs.Codec.Chain.RoundTrip.{LosslessBytes, decode_bytes-encode_bytes}

pair {ℓ κ} :
    {A : Type ℓ} {B : Type κ} (a c : A) (b d : B)
    → ◌≡◌ {A = Outcome (A × B) CodecError} (returns (a, b)) (returns (c, d))
    → (a ≡ c) × (b ≡ d)
pair a c b d h = (cc, cc)

-- The representations of the bytes follow from the first of them.
representations-from :
    (chain : CodecChainBound) (shape : List ℕ) (reps : List ArrayRepresentation)
    (breps : List BytesRepresentation)
    → get_representations chain shape ≡ returns (reps, breps)
    → (r : BytesRepresentation) × (bytes_representations_from chain.bytes_to_bytes r ≡ breps)
unfolding get_representations get_bytes_representations
representations-from chain shape reps breps h =
    let (a, e, h1) = and_then-returns (get_array_representations chain shape) _ (reps, breps) h in
    let (b, f, h2) =
      and_then-returns (get_bytes_representations chain (last_shape shape a)) _ (reps, breps) h1 in
    let (r, g, h3) =
      and_then-returns (chain.array_to_bytes.encoded_representation (last_shape shape a)) _ b f in
    (r, returned _ _ h3 ∙ (pair _ _ _ _ h2).1)
  where
    returned :
        (b c : List BytesRepresentation)
        → ◌≡◌ {A = Outcome (List BytesRepresentation) CodecError} (returns b) (returns c)
        → b ≡ c
    returned b c h = cc

-- For bytes to bytes codecs that decode what they encode to what it was, and an array to bytes codec
-- whose compaction keeps what its bytes decode to: the compaction of bytes keeps what the chain
-- decodes them to.
pub decode-compact :
    (chain : CodecChainBound) (bytes shape compacted : List ℕ)
    → LosslessBytes chain.bytes_to_bytes
    → ((b c s : List ℕ)
        → chain.array_to_bytes.compact b s ≡ returns (some c)
        → chain.array_to_bytes.decode c s ≡ chain.array_to_bytes.decode b s)
    → compact chain bytes shape ≡ returns (some compacted)
    → decode chain compacted shape ≡ decode chain bytes shape
unfolding compact decode
decode-compact chain bytes shape compacted l keeps h =
    let ((reps, breps), all, h1) = and_then-returns (get_representations chain shape) _ _ h in
    let (b, down, h2) = and_then-returns (decode_bytes _ _ bytes) _ _ h1 in
    let (o, mid, h3) = and_then-returns (chain.array_to_bytes.compact b _) _ _ h2 in
    let (r, from) = representations-from chain shape reps breps all in
    let (c, is, encoded) = reencoded o h3 in
    let again =
      subst
        (λ (t : List BytesRepresentation).
          decode_bytes (reverse chain.bytes_to_bytes) (skip_one (reverse t)) compacted ≡ returns c)
        from (decode_bytes-encode_bytes chain.bytes_to_bytes c compacted r l encoded) in
    let same = keeps b c (last_shape shape reps) (mid ∙ ap returns is) in
    rw (all, down, again, same) refl
  where
    reencoded :
        (o : Option (List ℕ))
        → (elim o [
          | none ↦ returns none
          | some bytes ↦
              and_then (encode_bytes chain.bytes_to_bytes bytes) (λ bytes. returns (some bytes))
        ])
          ≡ returns (some compacted)
        → (c : List ℕ) × (o ≡ some c) × (encode_bytes chain.bytes_to_bytes c ≡ returns compacted)
    reencoded none h = cc
    reencoded (some c) h =
        let (d, e, f) =
          and_then-returns (encode_bytes chain.bytes_to_bytes c) _ (some compacted) h in
        (c, refl, e ∙ ap returns cc)
