-- ===== src/Codec/Chain/RoundTrip.antt =====
-- The round trip of a chain of codecs (zarrs/src/array/codec/array_to_bytes/codec_chain.rs).
use mathlib.Core.List.{reverse}
use zarrs.Common.{
  ℕ, suc, ◌≡◌, refl, ap, sym, ◌∙◌, List, [], ◌∷◌, length, Outcome, returns, and_then-step,
  and_then-returns,
}
use zarrs.Codec.{CodecError, BytesRepresentation}
use zarrs.Codec.ArrayBytes.{ArrayBytes, validate}
use zarrs.Codec.VlenV2.{from_result}
use zarrs.Codec.Chain.{
  ArrayToArrayCodec, BytesToBytesCodec, CodecChainBound, ArrayRepresentation, data_type, fill_value,
  encode_arrays, encode_bytes, encode, array_representations_from, get_array_representations,
  bytes_representations_from, get_bytes_representations, last_shape, get_representations, skip_one,
  decode_bytes, decode_arrays, decode,
}
use zarrs.Codec.Chain.Reverse.{for_zip-reverse}

-- What the codecs of a chain promise: decoding returns what was encoded.
abbrev pub LosslessArrays : List ArrayToArrayCodec → Type 0
LosslessArrays [] = Unit
LosslessArrays (codec ∷ codecs) =
    ((x y : ArrayBytes) (shape : List ℕ)
      → codec.encode x shape ≡ returns y
      → codec.decode y shape ≡ returns x)
    × LosslessArrays codecs

abbrev pub LosslessBytes : List BytesToBytesCodec → Type 0
LosslessBytes [] = Unit
LosslessBytes (codec ∷ codecs) =
    ((x y : List ℕ) (r : BytesRepresentation)
      → codec.encode x ≡ returns y
      → codec.decode y r ≡ returns x)
    × LosslessBytes codecs

abbrev pub Lossless : CodecChainBound → Type 0
Lossless chain =
    LosslessArrays chain.array_to_array
    × ((x : ArrayBytes) (y shape : List ℕ)
        → chain.array_to_bytes.encode x shape ≡ returns y
        → chain.array_to_bytes.decode y shape ≡ returns x)
    × LosslessBytes chain.bytes_to_bytes

length-bytes_representations :
    (codecs : List BytesToBytesCodec) (r : BytesRepresentation)
    → length (bytes_representations_from codecs r) ≡ suc (length codecs)
unfolding bytes_representations_from
length-bytes_representations [] r = refl
length-bytes_representations (codec ∷ codecs) r =
    ap suc (length-bytes_representations codecs (codec.encoded_representation r))

pub decode_bytes-encode_bytes :
    (codecs : List BytesToBytesCodec) (x y : List ℕ) (r : BytesRepresentation)
    → LosslessBytes codecs
    → encode_bytes codecs x ≡ returns y
    → decode_bytes (reverse codecs) (skip_one (reverse (bytes_representations_from codecs r))) y
      ≡ returns x
unfolding encode_bytes decode_bytes bytes_representations_from
decode_bytes-encode_bytes [] x y r l h = sym h
decode_bytes-encode_bytes (codec ∷ codecs) x y r (l, ls) h =
    let (m, e, rest) = and_then-returns (codec.encode x) (encode_bytes codecs) y h in
    let later = decode_bytes-encode_bytes codecs m y (codec.encoded_representation r) ls rest in
    for_zip-reverse (λ (codec : BytesToBytesCodec) r bytes. codec.decode bytes r) codec codecs r
      (bytes_representations_from codecs (codec.encoded_representation r)) y
      (length-bytes_representations codecs (codec.encoded_representation r))
    ∙ and_then-step _ (λ bytes. codec.decode bytes r) m (returns x) later (l x m r e)

-- What encoding through the array to array codecs says of their representations and decoding.
record Undone (codecs : List ArrayToArrayCodec) (x y : ArrayBytes) (shape last : List ℕ)
    (reps : List ArrayRepresentation) : Type 0 where
  count : length reps ≡ suc (length codecs)
  ends_at : last_shape shape reps ≡ last
  undone : decode_arrays (reverse codecs) (skip_one (reverse reps)) y ≡ returns x

arrays-Undone :
    (codecs : List ArrayToArrayCodec) (x y : ArrayBytes) (rep : ArrayRepresentation)
    (first last : List ℕ)
    → LosslessArrays codecs
    → encode_arrays codecs x rep.shape ≡ returns (y, last)
    → (reps : List ArrayRepresentation) × (array_representations_from codecs rep ≡ returns reps)
      × Undone codecs x y first last reps
unfolding encode_arrays array_representations_from decode_arrays last_shape
arrays-Undone [] x y rep first last l h =
    let (a, b) = parts x y rep.shape last h in
    (rep ∷ [], refl, record { count = refl; ends_at = b; undone = ap returns (sym a) })
  where
    parts :
        (x y : ArrayBytes) (s t : List ℕ)
        → ◌≡◌ {A = Outcome (ArrayBytes × List ℕ) CodecError} (returns (x, s)) (returns (y, t))
        → (x ≡ y) × (s ≡ t)
    parts x y s t h = (cc, cc)
arrays-Undone (codec ∷ codecs) x y rep first last (l, ls) h =
    let (m, e, rest) = and_then-returns (codec.encode x rep.shape) _ (y, last) h in
    let (shape, s, more) = and_then-returns (codec.encoded_shape rep.shape) _ (y, last) rest in
    let next : ArrayRepresentation = record {
      shape = shape;
      data_type = codec.encoded_data_type;
      fill_value = codec.encoded_fill_value;
    } in
    let (reps, q, u) = arrays-Undone codecs m y next rep.shape last ls more in
    (
      rep ∷ reps,
      and_then-step _ _ shape _ s (and_then-step _ _ reps _ q refl),
      record {
        count = ap suc u.count;
        ends_at = u.ends_at;
        undone =
            for_zip-reverse
              (λ (codec : ArrayToArrayCodec) (r : ArrayRepresentation) bytes.
                codec.decode bytes r.shape)
              codec codecs rep reps y u.count
            ∙ and_then-step _ (λ bytes. codec.decode bytes rep.shape) m (returns x) u.undone
                (l x m rep.shape e);
      },
    )

-- What a successful encoding shows of the representations that decoding computes.
represented :
    (chain : CodecChainBound) (shape last : List ℕ) (reps : List ArrayRepresentation)
    (r : BytesRepresentation)
    → get_array_representations chain shape ≡ returns reps
    → last_shape shape reps ≡ last
    → chain.array_to_bytes.encoded_representation last ≡ returns r
    → get_representations chain shape
      ≡ returns (reps, bytes_representations_from chain.bytes_to_bytes r)
unfolding get_representations get_bytes_representations
represented chain shape last reps r a l e = rw (a, l, e) refl

-- For a chain of codecs that each decode what they encode to what it was: whenever the chain encodes
-- a value to bytes, it decodes the bytes to the value.
pub chain_decode-encode :
    (chain : CodecChainBound) (value : ArrayBytes) (bytes shape : List ℕ)
    → Lossless chain
    → encode chain value shape ≡ returns bytes
    → decode chain bytes shape ≡ returns value
unfolding encode decode get_array_representations
chain_decode-encode chain value bytes shape (la, lab, lb) h =
    let (u, valid, h1) = and_then-returns (from_result (validate value _ _)) _ bytes h in
    let ((y, last), arrays, h2) = and_then-returns (encode_arrays _ value shape) _ bytes h1 in
    let (b, to_bytes, h3) = and_then-returns (chain.array_to_bytes.encode y last) _ bytes h2 in
    let (r, e, rest) =
      and_then-returns (chain.array_to_bytes.encoded_representation last) _ bytes h3 in
    let first : ArrayRepresentation = record {
      shape = shape;
      data_type = data_type chain;
      fill_value = fill_value chain;
    } in
    let (reps, q, un) = arrays-Undone chain.array_to_array value y first shape last la arrays in
    let all = represented chain shape last reps r q un.ends_at e in
    let down = decode_bytes-encode_bytes chain.bytes_to_bytes b bytes r lb rest in
    let mid = lab y b last to_bytes in
    let back = un.undone in let at = un.ends_at in rw (all, down, at, mid, back, valid) refl
