-- ===== src/Codec/Chain/Metadata/Sorting.antt =====
-- The sorting of the codecs of a chain by their kind
-- (zarrs/src/array/codec/array_to_bytes/codec_chain.rs).
use mathlib.Core.List.{append_assoc, append-nil}
use zarrs.Common.{
  ◌≡◌, refl, ap, sym, subst, ◌∙◌, inl, inr, Bool, false, Option-cases, Option, none, some, List, [],
  ◌∷◌, ◌++◌, Result, ok, err,
}
use zarrs.Codec.{CodecError, other}
use zarrs.Codec.Chain.{
  UnboundArrayToArrayCodec, UnboundArrayToBytesCodec, BytesToBytesCodec, CodecChain,
}
use zarrs.Codec.Chain.Metadata.{
  AnyCodec, array_to_array, array_to_bytes, bytes_to_bytes, Sorted, push_codec, complete,
}

-- The codecs of each kind, in order.
abbrev pub arrays_of : List AnyCodec → List UnboundArrayToArrayCodec
arrays_of [] = []
arrays_of (array_to_array c ∷ cs) = c ∷ arrays_of cs
arrays_of (array_to_bytes c ∷ cs) = arrays_of cs
arrays_of (bytes_to_bytes c ∷ cs) = arrays_of cs

abbrev pub to_bytes_of : List AnyCodec → List UnboundArrayToBytesCodec
to_bytes_of [] = []
to_bytes_of (array_to_array c ∷ cs) = to_bytes_of cs
to_bytes_of (array_to_bytes c ∷ cs) = c ∷ to_bytes_of cs
to_bytes_of (bytes_to_bytes c ∷ cs) = to_bytes_of cs

abbrev pub bytes_of : List AnyCodec → List BytesToBytesCodec
bytes_of [] = []
bytes_of (array_to_array c ∷ cs) = bytes_of cs
bytes_of (array_to_bytes c ∷ cs) = bytes_of cs
bytes_of (bytes_to_bytes c ∷ cs) = c ∷ bytes_of cs

abbrev pub to_list : Option UnboundArrayToBytesCodec → List UnboundArrayToBytesCodec
to_list none = []
to_list (some c) = c ∷ []

module _ {Metadata : Type 0} (create : Metadata → Result AnyCodec CodecError)
    (must_understand : Metadata → Bool) where
  -- The codecs that the metadata creates: metadata that fails is left out if it need not be understood.
  pub data Creates : List Metadata → List AnyCodec → Type 0 where
    done : Creates [] []
    created :
        {m : Metadata} {ms : List Metadata} {c : AnyCodec} {cs : List AnyCodec}
        → create m ≡ ok c
        → Creates ms cs
        → Creates (m ∷ ms) (c ∷ cs)
    skipped :
        {m : Metadata} {ms : List Metadata} {e : CodecError} {cs : List AnyCodec}
        → create m ≡ err e
        → must_understand m ≡ false
        → Creates ms cs
        → Creates (m ∷ ms) cs

-- The variables after some codecs.
pub record Extends (s : Sorted) (cs : List AnyCodec) (t : Sorted) : Type 0 where
  pub arrays_are : t.arrays ≡ s.arrays ++ arrays_of cs
  pub to_bytes_are : to_list t.to_bytes ≡ to_list s.to_bytes ++ to_bytes_of cs
  pub bytes_are : t.bytes ≡ s.bytes ++ bytes_of cs

pub Extends-none : (s : Sorted) → Extends s [] s
Extends-none s = record {
  arrays_are = sym (append-nil s.arrays);
  to_bytes_are = sym (append-nil (to_list s.to_bytes));
  bytes_are = sym (append-nil s.bytes);
}

one-more {ℓ} :
    {A : Type ℓ} (xs ys zs us vs : List A) → us ≡ xs ++ ys → vs ≡ us ++ zs → vs ≡ xs ++ (ys ++ zs)
one-more {A = A} xs ys zs us vs h k = k ∙ ap (λ (t : List A). t ++ zs) h ∙ append_assoc xs ys zs

pub Extends-cons :
    (s : Sorted) (c : AnyCodec) (cs : List AnyCodec) (t u : Sorted)
    → Extends s (c ∷ []) t
    → Extends t cs u
    → Extends s (c ∷ cs) u
Extends-cons s c cs t u a b = record {
  arrays_are =
      one-more _ _ _ _ _ a.arrays_are b.arrays_are
      ∙ ap (λ (x : List UnboundArrayToArrayCodec). s.arrays ++ x) (arrays-cons c);
  to_bytes_are =
      one-more _ _ _ _ _ a.to_bytes_are b.to_bytes_are
      ∙ ap (λ (x : List UnboundArrayToBytesCodec). to_list s.to_bytes ++ x) (to_bytes-cons c);
  bytes_are =
      one-more _ _ _ _ _ a.bytes_are b.bytes_are
      ∙ ap (λ (x : List BytesToBytesCodec). s.bytes ++ x) (bytes-cons c);
}
  where
    arrays-cons : (c : AnyCodec) → arrays_of (c ∷ []) ++ arrays_of cs ≡ arrays_of (c ∷ cs)
    arrays-cons (array_to_array c) = refl
    arrays-cons (array_to_bytes c) = refl
    arrays-cons (bytes_to_bytes c) = refl

    to_bytes-cons : (c : AnyCodec) → to_bytes_of (c ∷ []) ++ to_bytes_of cs ≡ to_bytes_of (c ∷ cs)
    to_bytes-cons (array_to_array c) = refl
    to_bytes-cons (array_to_bytes c) = refl
    to_bytes-cons (bytes_to_bytes c) = refl

    bytes-cons : (c : AnyCodec) → bytes_of (c ∷ []) ++ bytes_of cs ≡ bytes_of (c ∷ cs)
    bytes-cons (array_to_array c) = refl
    bytes-cons (array_to_bytes c) = refl
    bytes-cons (bytes_to_bytes c) = refl

-- A codec that is pushed extends the variables by itself.
pub push-Extends :
    (s : Sorted) (c : AnyCodec) (t : Sorted) → push_codec s c ≡ ok t → Extends s (c ∷ []) t
unfolding push_codec
push-Extends s (array_to_array c) t h =
    subst (Extends s (array_to_array c ∷ [])) (injected _ _ h) (record {
      arrays_are = refl;
      to_bytes_are = sym (append-nil (to_list s.to_bytes));
      bytes_are = sym (append-nil s.bytes);
    })
  where
    injected : (a b : Sorted) → ◌≡◌ {A = Result Sorted CodecError} (ok a) (ok b) → a ≡ b
    injected a b h = cc
push-Extends s (bytes_to_bytes c) t h =
    subst (Extends s (bytes_to_bytes c ∷ [])) (injected _ _ h) (record {
      arrays_are = sym (append-nil s.arrays);
      to_bytes_are = sym (append-nil (to_list s.to_bytes));
      bytes_are = refl;
    })
  where
    injected : (a b : Sorted) → ◌≡◌ {A = Result Sorted CodecError} (ok a) (ok b) → a ≡ b
    injected a b h = cc
push-Extends s (array_to_bytes c) t h = first s.to_bytes refl h
  where
    injected : (a b : Sorted) → ◌≡◌ {A = Result Sorted CodecError} (ok a) (ok b) → a ≡ b
    injected a b h = cc

    first :
        (o : Option UnboundArrayToBytesCodec)
        → s.to_bytes ≡ o
        → (elim o [ none ↦ ok (record s { to_bytes = some c }) | some _ ↦ err other ]) ≡ ok t
        → Extends s (array_to_bytes c ∷ []) t
    first (some d) e h = cc
    first none e h = subst (Extends s (array_to_bytes c ∷ [])) (injected _ _ h) (record {
      arrays_are = sym (append-nil s.arrays);
      to_bytes_are = ap (λ (o : Option UnboundArrayToBytesCodec). to_list o ++ c ∷ []) (sym e);
      bytes_are = sym (append-nil s.bytes);
    })

pub complete-some :
    (t : Sorted) (b : UnboundArrayToBytesCodec)
    → t.to_bytes ≡ some b
    → complete t
      ≡ ok (record { array_to_array = t.arrays; array_to_bytes = b; bytes_to_bytes = t.bytes })
unfolding complete
complete-some t b h = rw h refl

pub complete-ok :
    (t : Sorted) (chain : CodecChain)
    → complete t ≡ ok chain
    → (t.to_bytes ≡ some chain.array_to_bytes)
      × (◌≡◌ {A = CodecChain}
          (record {
            array_to_array = t.arrays;
            array_to_bytes = chain.array_to_bytes;
            bytes_to_bytes = t.bytes;
          })
          chain)
unfolding complete
complete-ok t chain h = elim (Option-cases t.to_bytes) [
  | inl e ↦ absurd (missing (rw (complete, e) at h))
  | inr (b, e) ↦
      let same = built t.arrays b t.bytes (rw (complete, e) at h) in
      (
        e ∙ ap (λ (c : CodecChain). some c.array_to_bytes) same,
        ap
              (λ (c : UnboundArrayToBytesCodec). record {
                array_to_array = t.arrays;
                array_to_bytes = c;
                bytes_to_bytes = t.bytes;
              })
              (sym (ap (λ (c : CodecChain). c.array_to_bytes) same))
            ∙ same,
      )
]
  where
    missing : ¬ (◌≡◌ {A = Result CodecChain CodecError} (err other) (ok chain))
    missing h = cc

    built :
        (a : List UnboundArrayToArrayCodec) (b : UnboundArrayToBytesCodec)
        (c : List BytesToBytesCodec)
        → ◌≡◌ {A = Result CodecChain CodecError}
            (ok (record { array_to_array = a; array_to_bytes = b; bytes_to_bytes = c }))
            (ok chain)
        → ◌≡◌ {A = CodecChain}
            (record { array_to_array = a; array_to_bytes = b; bytes_to_bytes = c })
            chain
    built a b c h = cc
