-- ===== src/Codec/Chain/Metadata/Parts.antt =====
-- Which chains metadata describes (zarrs/src/array/codec/array_to_bytes/codec_chain.rs).
use zarrs.Common.{
  ◌≡◌, refl, ap, ap₂, sym, subst, ◌∙◌, ◌↔◌, inl, inr, Bool, Bool-cases, Option-cases, Result-cases,
  bind-ok, Option, none, some, List, [], ◌∷◌, ◌++◌, Result, ok, err,
}
use zarrs.Codec.{CodecError}
use zarrs.Codec.Chain.{
  UnboundArrayToArrayCodec, UnboundArrayToBytesCodec, BytesToBytesCodec, CodecChain,
}
use zarrs.Codec.Chain.Metadata.{
  AnyCodec, array_to_array, array_to_bytes, bytes_to_bytes, Sorted, push_codec, sort_codecs,
  from_metadata,
}
use zarrs.Codec.Chain.Metadata.Sorting.{
  arrays_of, to_bytes_of, bytes_of, to_list, Creates, done, created, skipped, Extends, Extends-none,
  Extends-cons, push-Extends, complete-some, complete-ok,
}

-- A codec that the one array to bytes codec leaves room for is pushed.
push_total :
    (s : Sorted) (c : AnyCodec) (cs : List AnyCodec) (b : UnboundArrayToBytesCodec)
    → to_list s.to_bytes ++ to_bytes_of (c ∷ cs) ≡ b ∷ []
    → (u : Sorted) × (push_codec s c ≡ ok u) × (to_list u.to_bytes ++ to_bytes_of cs ≡ b ∷ [])
unfolding push_codec
push_total s (array_to_array c) cs b h = (record s { arrays = s.arrays ++ c ∷ [] }, refl, h)
push_total s (bytes_to_bytes c) cs b h = (record s { bytes = s.bytes ++ c ∷ [] }, refl, h)
push_total s (array_to_bytes c) cs b h = elim (Option-cases s.to_bytes) [
  | inl e ↦ (record s { to_bytes = some c }, rw e refl, rw e at h)
  | inr (d, e) ↦ absurd (two d c b (to_bytes_of cs) (rw e at h))
]
  where
    two :
        (d c b : UnboundArrayToBytesCodec) (rest : List UnboundArrayToBytesCodec)
        → ¬ (d ∷ c ∷ rest ≡ b ∷ [])
    two d c b rest h = cc

module _ {Metadata : Type 0} (create : Metadata → Result AnyCodec CodecError)
    (must_understand : Metadata → Bool) where
  sorted :
      (ms : List Metadata) (s t : Sorted)
      → sort_codecs create must_understand ms s ≡ ok t
      → (cs : List AnyCodec) × Creates create must_understand ms cs × Extends s cs t
  unfolding sort_codecs
  sorted [] s t h = ([], done, subst (Extends s []) (injected s t h) (Extends-none s))
    where
      injected : (a b : Sorted) → ◌≡◌ {A = Result Sorted CodecError} (ok a) (ok b) → a ≡ b
      injected a b h = cc
  sorted (m ∷ ms) s t h = elim (Result-cases (create m)) [
    | inl (c, e) ↦
        let (u, p, q) =
          bind-ok (push_codec s c) (sort_codecs create must_understand ms) t
            (rw (sort_codecs, e) at h) in
        let (cs, k, x) = sorted ms u t q in
        (c ∷ cs, created e k, Extends-cons s c cs u t (push-Extends s c u p) x)
    | inr (e, q) ↦ elim (Bool-cases (must_understand m)) [
      | inl y ↦ absurd (failed e t (rw (sort_codecs, q, y) at h))
      | inr n ↦
          let (cs, k, x) = sorted ms s t (rw (sort_codecs, q, n) at h) in (cs, skipped q n k, x)
    ]
  ]
    where
      failed : (e : CodecError) (t : Sorted) → ¬ (◌≡◌ {A = Result Sorted CodecError} (err e) (ok t))
      failed e t h = cc

  sort_total :
      (ms : List Metadata) (cs : List AnyCodec) (s : Sorted) (b : UnboundArrayToBytesCodec)
      → Creates create must_understand ms cs
      → to_list s.to_bytes ++ to_bytes_of cs ≡ b ∷ []
      → (t : Sorted) × (sort_codecs create must_understand ms s ≡ ok t) × Extends s cs t
  unfolding sort_codecs
  sort_total [] [] s b done h = (s, refl, Extends-none s)
  sort_total [] (c ∷ cs) s b k h = elim k [ ]
  sort_total (m ∷ ms) (c ∷ cs) s b (created e k) h =
      let (u, p, room) = push_total s c cs b h in
      let (t, q, x) = sort_total ms cs u b k room in
      (t, rw (sort_codecs, e, p) q, Extends-cons s c cs u t (push-Extends s c u p) x)
  sort_total (m ∷ ms) cs s b (skipped e n k) h =
      let (t, q, x) = sort_total ms cs s b k h in (t, rw (sort_codecs, e, n) q, x)

  -- The metadata describes a chain exactly if its codecs, without those that fail and need not be
  -- understood, have one array to bytes codec, and the chain has it and the others in their order.
  pub from_metadata_iff :
      (ms : List Metadata) (chain : CodecChain)
      → (from_metadata create must_understand ms ≡ ok chain) ↔ (
          (cs : List AnyCodec) × Creates create must_understand ms cs
          × (to_bytes_of cs ≡ chain.array_to_bytes ∷ [])
          × (arrays_of cs ≡ chain.array_to_array)
          × (bytes_of cs ≡ chain.bytes_to_bytes))
  unfolding from_metadata
  from_metadata_iff ms chain = (
    λ h.
        let (t, sort, last) = bind-ok (sort_codecs create must_understand ms empty) _ chain h in
        let (cs, k, x) = sorted ms empty t sort in
        let (one, same) = complete-ok t chain last in
        (
          cs,
          k,
          sym x.to_bytes_are ∙ ap to_list one,
          sym x.arrays_are ∙ ap (λ (c : CodecChain). c.array_to_array) same,
          sym x.bytes_are ∙ ap (λ (c : CodecChain). c.bytes_to_bytes) same,
        ),
    λ (cs, k, one, arrays, bytes).
        let (t, sort, x) = sort_total ms cs empty chain.array_to_bytes k one in
        let found = single t.to_bytes chain.array_to_bytes (x.to_bytes_are ∙ one) in
        rw (sort, complete-some t chain.array_to_bytes found)
          (ap₂
            (λ (a : List UnboundArrayToArrayCodec) (b : List BytesToBytesCodec). ok (record {
              array_to_array = a;
              array_to_bytes = chain.array_to_bytes;
              bytes_to_bytes = b;
            }))
            (x.arrays_are ∙ arrays) (x.bytes_are ∙ bytes)),
  )
    where
      empty : Sorted
      empty = record { arrays = []; to_bytes = none; bytes = [] }

      single :
          (o : Option UnboundArrayToBytesCodec) (b : UnboundArrayToBytesCodec)
          → to_list o ≡ b ∷ []
          → o ≡ some b
      single none b h = cc
      single (some c) b h = cc
