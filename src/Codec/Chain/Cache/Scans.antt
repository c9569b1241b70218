-- ===== src/Codec/Chain/Cache/Scans.antt =====
-- What the scan of the codecs of a chain finds (zarrs/src/array/codec/array_to_bytes/codec_chain.rs).
use zarrs.Common.{
  ℕ, zero, suc, ◌+◌, ◌≤◌, ◌≡◌, refl, ap, Bool, true, false, Option, none, some, List, [], ◌∷◌, ◌++◌,
  arith, get_elem?, if◌then◌else◌,
}
use zarrs.Codec.Chain.{PartialDecoderCapability, CodecChain}
use zarrs.Codec.Chain.Cache.{
  CacheScan, scan_codec, scan_codecs, cache_index, chain_cache_index, bytes_capabilities,
  array_capabilities,
}

-- All capabilities, in the order of partial decoding: the last codec of the chain is the first.
abbrev pub capabilities : CodecChain → List PartialDecoderCapability
capabilities chain =
    bytes_capabilities chain
    ++ chain.array_to_bytes.partial_decoder_capability ∷ array_capabilities chain

-- At or before an index that may be absent.
abbrev pub AtMost : ℕ → Option ℕ → Type 0
AtMost k none = ⊥
AtMost k (some n) = k ≤ n

unfoldable pub start : CacheScan
start = record { must = none; should = none; codec_index = 0 }

scan-append :
    (scan : CacheScan) (xs : List PartialDecoderCapability) (x : PartialDecoderCapability)
    (ys : List PartialDecoderCapability)
    → scan_codecs (scan_codec (scan_codecs scan xs) x) ys ≡ scan_codecs scan (xs ++ x ∷ ys)
unfolding scan_codecs
scan-append scan [] x ys = refl
scan-append scan (c ∷ xs) x ys = scan-append (scan_codec scan c) xs x ys

-- The loops are one scan of all capabilities.
pub chain_cache_index-eq :
    (chain : CodecChain)
    → chain_cache_index chain
      ≡ cache_index
          (scan_codecs start (capabilities chain)).must
          (scan_codecs start (capabilities chain)).should
unfolding chain_cache_index start
chain_cache_index-eq chain =
    ap (λ (s : CacheScan). cache_index s.must s.should)
      (scan-append start (bytes_capabilities chain) chain.array_to_bytes.partial_decoder_capability
        (array_capabilities chain))

-- The indices of a scan are at most the number of codecs before it.
abbrev pub Bounded : Option ℕ → ℕ → Type 0
Bounded none n = Unit
Bounded (some k) n = k ≤ n

pub Bounded-later : (o : Option ℕ) (n m : ℕ) → n ≤ m → Bounded o n → Bounded o m
Bounded-later none n m h b = tt
Bounded-later (some k) n m h b = omega arith

pub Bounded-next :
    (ok : Bool) (o : Option ℕ) (k n : ℕ)
    → k ≤ suc n
    → Bounded o n
    → Bounded (if ok then o else some k) (suc n)
Bounded-next true o k n h b = Bounded-later o n (suc n) (omega arith) b
Bounded-next false o k n h b = h

-- An index that the scan has passed stays at most its indices.
AtMost-next :
    (ok : Bool) (o : Option ℕ) (k j : ℕ) → k ≤ j → AtMost k o → AtMost k (if ok then o else some j)
AtMost-next true o k j h a = a
AtMost-next false o k j h a = h

AtMost-eq : (j k : ℕ) (o : Option ℕ) → j ≡ k → AtMost j o → AtMost k o
AtMost-eq j k none e a = a
AtMost-eq j k (some n) e a = omega arith

must-kept :
    (m s : Option ℕ) (n k : ℕ) (cs : List PartialDecoderCapability)
    → AtMost k m
    → k ≤ n
    → AtMost k (scan_codecs (record { must = m; should = s; codec_index = n }) cs).must
unfolding scan_codecs scan_codec
must-kept m s n k [] a h = a
must-kept m s n k (c ∷ cs) a h =
    must-kept _ _ (suc n) k cs (AtMost-next c.partial_decode m k (suc n) (omega arith) a)
      (omega arith)

should-kept :
    (m s : Option ℕ) (n k : ℕ) (cs : List PartialDecoderCapability)
    → AtMost k s
    → k ≤ n
    → AtMost k (scan_codecs (record { must = m; should = s; codec_index = n }) cs).should
unfolding scan_codecs scan_codec
should-kept m s n k [] a h = a
should-kept m s n k (c ∷ cs) a h =
    should-kept _ _ (suc n) k cs (AtMost-next c.partial_read s k n h a) (omega arith)

pub must-AtMost :
    (m s : Option ℕ) (n i : ℕ) (cs : List PartialDecoderCapability) (c : PartialDecoderCapability)
    → get_elem? cs i ≡ some c
    → c.partial_decode ≡ false
    → AtMost (suc (n + i)) (scan_codecs (record { must = m; should = s; codec_index = n }) cs).must
unfolding scan_codecs scan_codec
must-AtMost m s n i [] c g h = cc
must-AtMost m s n zero (d ∷ cs) c g h =
    let index : n ≡ n + 0 = omega arith in
    AtMost-eq _ _ _ (ap suc index) (
      must-kept (if d.partial_decode then m else some (suc n))
        (if d.partial_read then s else some n) (suc n) (suc n) cs
        (here d.partial_decode m n (same d c g h)) (omega arith))
  where
    same :
        (d c : PartialDecoderCapability)
        → ◌≡◌ {A = Option PartialDecoderCapability} (some d) (some c)
        → c.partial_decode ≡ false
        → d.partial_decode ≡ false
    same d c g h = cc

    here :
        (b : Bool) (m : Option ℕ) (n : ℕ)
        → b ≡ false
        → AtMost (suc n) (if b then m else some (suc n))
    here b m n h = rw h (omega arith)
must-AtMost m s n (suc i) (d ∷ cs) c g h =
    let index : suc n + i ≡ n + suc i = omega arith in
    AtMost-eq _ _ _ (ap suc index) (
      must-AtMost (if d.partial_decode then m else some (suc n))
        (if d.partial_read then s else some n) (suc n) i cs c g h)

pub should-AtMost :
    (m s : Option ℕ) (n i : ℕ) (cs : List PartialDecoderCapability) (c : PartialDecoderCapability)
    → get_elem? cs i ≡ some c
    → c.partial_read ≡ false
    → AtMost (n + i) (scan_codecs (record { must = m; should = s; codec_index = n }) cs).should
unfolding scan_codecs scan_codec
should-AtMost m s n i [] c g h = cc
should-AtMost m s n zero (d ∷ cs) c g h =
    let index : n ≡ n + 0 = omega arith in
    AtMost-eq _ _ _ index (
      should-kept (if d.partial_decode then m else some (suc n))
        (if d.partial_read then s else some n) (suc n) n cs (here d.partial_read s n (same d c g h))
        (omega arith))
  where
    same :
        (d c : PartialDecoderCapability)
        → ◌≡◌ {A = Option PartialDecoderCapability} (some d) (some c)
        → c.partial_read ≡ false
        → d.partial_read ≡ false
    same d c g h = cc

    here : (b : Bool) (s : Option ℕ) (n : ℕ) → b ≡ false → AtMost n (if b then s else some n)
    here b s n h = rw h (omega arith)
should-AtMost m s n (suc i) (d ∷ cs) c g h =
    let index : suc n + i ≡ n + suc i = omega arith in
    AtMost-eq _ _ _ index (
      should-AtMost (if d.partial_decode then m else some (suc n))
        (if d.partial_read then s else some n) (suc n) i cs c g h)
