-- ===== src/Tests/Codecs.antt =====
-- Codecs of bytes and of elements on small values (zarrs/src/array/codec).
use zarrs.Common.{
  ℕ, ◌+◌, ◌*◌, ◌<◌, ◌≡◌, refl, ◌↔◌, none, some, List, [], ◌∷◌, ◌++◌, arith, length, get_elem?, true,
  false, returns, fails, panics, and_then, ok, err,
}
use zarrs.Codec.{size, with_checksum_size, fixed_size, bounded_size, unbounded_size, other}
use zarrs.Codec.Location.{start, end}
use zarrs.Codec.Adler32 as Adler32
use zarrs.Codec.Crc32c as Crc32c
use zarrs.Codec.Fletcher32 as Fletcher32
use zarrs.Codec.Fletcher32.{sum_words, sum_blocks, odd_byte, h5_checksum_fletcher32}
use zarrs.Codec.Fletcher32.Total.{checksum_total}
use zarrs.Codec.Fletcher32.LastByte.{decode-last_byte}
use zarrs.Codec.Shuffle as Shuffle
use zarrs.Codec.Shuffle.{set_elem, inner_loop, outer_loop}
use zarrs.Codec.Shuffle.RoundTrip.{shuffle_decode-encode}
use zarrs.Codec.ArrayBytes.{
  fixed, variable, optional, plain, optional_of, fixed_length, variable_length, validate,
  validate_bytes_vlen, offsets_new, increasing,
}
use zarrs.Codec.ArrayBytes as ArrayBytes
use zarrs.Codec.ArrayBytes.Elements.{IsElements}
use zarrs.Codec.ArrayBytes.Valid.{validate_bytes_vlen_iff}
use zarrs.Codec.VlenV2 as VlenV2
use zarrs.Codec.VlenV2.RoundTrip.{vlen_decode-encode}

abbrev value : List ℕ
value = 1 ∷ 2 ∷ 3 ∷ 4 ∷ 5 ∷ 6 ∷ []

abbrev odd_value : List ℕ
odd_value = 1 ∷ 2 ∷ 3 ∷ []

size_test : (size (fixed_size 3) ≡ some 3) × (size unbounded_size ≡ none)
unfolding size
size_test = (refl, refl)

with_checksum_size_test : with_checksum_size (bounded_size 3) ≡ bounded_size 7
unfolding with_checksum_size
with_checksum_size_test = refl

-- A stand-in for the checksum: the number of bytes.
decode-encode_example :
    ((Adler32.decode length end true (7 ∷ 8 ∷ 2 ∷ 0 ∷ 0 ∷ 0 ∷ []) ≡ returns (7 ∷ 8 ∷ []))
      ↔ (Adler32.encode length end (7 ∷ 8 ∷ []) ≡ returns (7 ∷ 8 ∷ 2 ∷ 0 ∷ 0 ∷ 0 ∷ [])))
    × (and_then (Adler32.encode length end (7 ∷ 8 ∷ [])) (Adler32.decode length end false)
        ≡ returns (7 ∷ 8 ∷ []))
decode-encode_example = Adler32.decode-encode length end (7 ∷ 8 ∷ []) (7 ∷ 8 ∷ 2 ∷ 0 ∷ 0 ∷ 0 ∷ [])

adler32_encode : Adler32.encode length start (7 ∷ 8 ∷ []) ≡ returns (2 ∷ 0 ∷ 0 ∷ 0 ∷ 7 ∷ 8 ∷ [])
unfolding Adler32.encode
adler32_encode = refl

adler32_decode : Adler32.decode length end true (7 ∷ []) ≡ fails other
unfolding Adler32.decode
adler32_decode = refl

crc32c_encode : Crc32c.encode length end (7 ∷ 8 ∷ []) ≡ returns (7 ∷ 8 ∷ 2 ∷ 0 ∷ 0 ∷ 0 ∷ [])
unfolding Crc32c.encode
crc32c_encode = refl

crc32c_decode : Crc32c.decode length end false (7 ∷ 9 ∷ 9 ∷ 9 ∷ 9 ∷ []) ≡ returns (7 ∷ [])
unfolding Crc32c.decode
crc32c_decode = refl

-- The words 0x0102, 0x0304 and 0x0506.
checksum_test : h5_checksum_fletcher32 value ≡ some 236194060
unfolding h5_checksum_fletcher32 sum_words sum_blocks odd_byte
checksum_test = refl

fletcher_encode : Fletcher32.encode value ≡ returns (value ++ 12 ∷ 9 ∷ 20 ∷ 14 ∷ [])
unfolding Fletcher32.encode h5_checksum_fletcher32 sum_words sum_blocks odd_byte
fletcher_encode = refl

checksum_total_example : (c : ℕ) × (h5_checksum_fletcher32 odd_value ≡ some c)
checksum_total_example = checksum_total odd_value

decode-last_byte_example :
    (checksum : List ℕ) × (Fletcher32.encode ((1 ∷ 2 ∷ []) ++ 3 ∷ [])
      ≡ returns (((1 ∷ 2 ∷ []) ++ 3 ∷ []) ++ checksum))
    × (Fletcher32.decode true (((1 ∷ 2 ∷ []) ++ 4 ∷ []) ++ checksum)
        ≡ returns ((1 ∷ 2 ∷ []) ++ 4 ∷ []))
decode-last_byte_example = decode-last_byte (1 ∷ 2 ∷ []) 3 4 refl

shuffle_decode-encode_example :
    (t : List ℕ) × (Shuffle.encode 2 value ≡ returns t)
    × (length t ≡ length value)
    × ((x j : ℕ) → x < 2 → j < 3 → get_elem? t (x * 3 + j) ≡ get_elem? value (j * 2 + x))
    × (Shuffle.decode 2 t ≡ returns value)
shuffle_decode-encode_example = shuffle_decode-encode 1 3 value refl

shuffle_encode : Shuffle.encode 2 value ≡ returns (1 ∷ 3 ∷ 5 ∷ 2 ∷ 4 ∷ 6 ∷ [])
unfolding Shuffle.encode outer_loop inner_loop set_elem
shuffle_encode = refl

shuffle_decode : Shuffle.decode 4 value ≡ fails other
unfolding Shuffle.decode
shuffle_decode = refl

shuffle_by_zero : Shuffle.encode 0 [] ≡ panics
unfolding Shuffle.encode
shuffle_by_zero = refl

-- One byte of padding and the elements of two bytes and of one.
abbrev elements : List (List ℕ)
elements = (5 ∷ 6 ∷ []) ∷ (7 ∷ []) ∷ []

validate_bytes_vlen_iff_example :
    (validate_bytes_vlen (9 ∷ 5 ∷ 6 ∷ 7 ∷ []) (1 ∷ 3 ∷ 4 ∷ []) 2 ≡ ok tt) ↔ (
      (padding : List ℕ) × (elements : List (List ℕ)) × (length elements ≡ 2)
      × IsElements (9 ∷ 5 ∷ 6 ∷ 7 ∷ []) (1 ∷ 3 ∷ 4 ∷ []) padding elements)
validate_bytes_vlen_iff_example =
    validate_bytes_vlen_iff (9 ∷ 5 ∷ 6 ∷ 7 ∷ []) (1 ∷ 3 ∷ 4 ∷ []) 2 (omega arith)

vlen_decode-encode_example :
    (bytes : List ℕ) × (VlenV2.encode
        (plain variable_length)
        (variable (9 ∷ 5 ∷ 6 ∷ 7 ∷ []) (1 ∷ 3 ∷ 4 ∷ []))
        (2 ∷ [])
      ≡ returns bytes)
    × (VlenV2.decode bytes (2 ∷ []) ≡ returns (variable (5 ∷ 6 ∷ 7 ∷ []) (0 ∷ 2 ∷ 3 ∷ [])))
vlen_decode-encode_example =
    vlen_decode-encode (2 ∷ []) (9 ∷ []) elements refl (omega arith)
      (omega arith, (omega arith, tt)) (omega arith)

array_bytes_parts :
    (ArrayBytes.size (optional (fixed (1 ∷ 2 ∷ [])) (1 ∷ [])) ≡ 2)
    × (ArrayBytes.offsets (variable (5 ∷ []) (0 ∷ 1 ∷ [])) ≡ some (0 ∷ 1 ∷ []))
unfolding ArrayBytes.size ArrayBytes.offsets
array_bytes_parts = (refl, refl)

validate_test :
    (validate (fixed (1 ∷ 2 ∷ 3 ∷ 4 ∷ [])) 2 (plain (fixed_length 2)) ≡ ok tt)
    × (validate (fixed (1 ∷ [])) 1 (optional_of (plain (fixed_length 1))) ≡ err other)
unfolding validate
validate_test = (refl, refl)
