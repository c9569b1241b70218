-- ===== src/Storage/Memory/Write.antt =====
-- What the writes of the store leave (zarrs_storage/src/store/memory_store.rs).
use zarrs.Common.{
  extensional, ℕ, ◌+◌, ◌-◌, ◌<◌, ◌≤◌, ◌≡◌, ◌≢◌, ap, ◌∙◌, true, false, some, List, [], ◌∷◌, ◌++◌,
  Bool, arith, ltb, u64_mod, add_u64, length, take, drop, length-take, length-drop, returns,
  bind_option, bind_option-some, Outcome, get_elem?, get_elem?-take, get_elem?-drop, Option,
}
use zarrs.Storage.Memory.{
  DataMap, OffsetBytes, get, insert, set_impl, set, or_default, set_partial_many, get_partial_many,
  get_range,
}
use zarrs.Storage.ByteRange.{from_start, start, end, InvalidByteRangeError}
use zarrs.Storage.ByteRange.Extract.{slice_within}
use zarrs.Storage.Memory.Bytes.{IsWritten, overwrite-IsWritten}
use zarrs.Storage.Memory.Map.{get-insert, get-insert_other}

-- A write that ends below 2 ^ 64 does not panic. It leaves under its key the bytes that were there, or
-- none, with the value written at the offset, and leaves every other key as it was.
pub set_impl-IsWritten :
    (data_map : DataMap) (key value : List ℕ) (offset : ℕ) (truncate : Bool)
    → offset + length value < u64_mod
    → (after : DataMap) × (bytes : List ℕ) × (set_impl data_map key value offset truncate
        ≡ some after)
      × (get after key ≡ some bytes)
      × IsWritten (or_default (get data_map key)) value offset truncate bytes
      × ((other : List ℕ) → key ≢ other → get after other ≡ get data_map other)
unfolding set_impl
set_impl-IsWritten data_map key value offset truncate h =
    let (bytes, a, b) =
      overwrite-IsWritten (or_default (get data_map key)) value offset truncate h in
    (
      insert key bytes data_map,
      bytes,
      rw (set_impl, a),
      get-insert data_map key bytes,
      b,
      get-insert_other data_map key bytes,
    )

-- `set` of a value below 2 ^ 64 bytes does not panic: the key then has the value, whatever it had, and
-- every other key has what it had.
pub get-set :
    (data_map : DataMap) (key value : List ℕ)
    → length value < u64_mod
    → (after : DataMap) × (set data_map key value ≡ some after)
      × (get after key ≡ some value)
      × ((other : List ℕ) → key ≢ other → get after other ≡ get data_map other)
unfolding set
get-set data_map key value h =
    let (after, bytes, a, b, w, c) = set_impl-IsWritten data_map key value 0 true (omega arith) in
    let same : bytes ≡ value =
      extensional bytes value (w.size ∙ omega arith)
        (λ i k. ap (get_elem? bytes) (omega arith) ∙ w.inside i k) in
    (after, a, b ∙ ap some same, c)

set_partial_many-snoc :
    (data_map before : DataMap) (key : List ℕ) (earlier : List OffsetBytes) (w : OffsetBytes)
    → set_partial_many data_map key earlier ≡ some before
    → set_partial_many data_map key (earlier ++ w ∷ []) ≡ set_partial_many before key (w ∷ [])
unfolding set_partial_many
set_partial_many-snoc data_map before key [] w e =
    ap (λ (t : Option DataMap). bind_option t (λ m. set_partial_many m key (w ∷ []))) e
set_partial_many-snoc data_map before key (x ∷ earlier) w e =
    let step = set_impl data_map key x.value x.offset false in
    let (m, q, r) = bind_option-some step (λ m. set_partial_many m key earlier) before e in
    ap (λ (t : Option DataMap). bind_option t (λ m. set_partial_many m key (earlier ++ w ∷ []))) q
    ∙ set_partial_many-snoc m before key earlier w r

get_range-IsWritten :
    (entry value bytes : List ℕ) (offset : ℕ)
    → offset + length value < u64_mod
    → IsWritten entry value offset false bytes
    → get_range bytes (from_start offset (some (length value))) ≡ returns value
unfolding get_range start end
get_range-IsWritten entry value bytes offset h w =
    let stop = offset + length value in
    let exact : add_u64 offset (length value) ≡ stop = omega arith in
    let room : stop ≤ length bytes = omega (arith, w.size) in
    let enough : ltb (length bytes) stop ≡ false = ground arith in
    let cut = slice_within bytes offset stop (omega arith) room in
    let same : take (stop - offset) (drop offset bytes) ≡ value =
      extensional _ value
        (length-take (stop - offset) (drop offset bytes) ∙ omega (arith, length-drop offset bytes))
        (λ i k.
          get_elem?-take (stop - offset) (drop offset bytes) i (omega arith)
          ∙ get_elem?-drop offset bytes i
          ∙ w.inside i k) in
    rw (exact, enough, cut, same)

-- Where the earlier writes of `set_partial_many` do not panic and its last one ends below 2 ^ 64,
-- the call does not panic, and `get_partial_many` then reads back the last value from its offset
-- with its length.
pub get_partial_many-set_partial_many :
    (data_map before : DataMap) (key : List ℕ) (earlier : List OffsetBytes) (w : OffsetBytes)
    → set_partial_many data_map key earlier ≡ some before
    → w.offset + length w.value < u64_mod
    → (after : DataMap) × (set_partial_many data_map key (earlier ++ w ∷ []) ≡ some after)
      × (get_partial_many after key (from_start w.offset (some (length w.value)) ∷ [])
          ≡ some (returns w.value ∷ []))
unfolding set_partial_many get_partial_many
get_partial_many-set_partial_many data_map before key earlier w e h =
    let (after, bytes, a, b, v, c) = set_impl-IsWritten before key w.value w.offset false h in
    let range = from_start w.offset (some (length w.value)) in
    (
      after,
      set_partial_many-snoc data_map before key earlier w e
          ∙ ap (λ (t : Option DataMap). bind_option t (λ m. some m)) a,
      rw (get_partial_many, b)
          (ap (λ (t : Outcome (List ℕ) InvalidByteRangeError). some (t ∷ []))
            (get_range-IsWritten (or_default (get before key)) w.value bytes w.offset h v)),
    )
