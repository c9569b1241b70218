-- ===== src/Codec/Chain/Cache/Index.antt =====
-- Where the cache of a chain stands (zarrs/src/array/codec/array_to_bytes/codec_chain.rs).
use zarrs.Common.{
  ℕ, suc, ◌≤◌, ◌↔◌, Bool, false, if◌then◌else◌, ◌≡◌, refl, ap₂, sym, subst, ◌∙◌, ◌⊎◌, inl, inr,
  true, Option, none, some, List, [], ◌∷◌, arith, get_elem?,
}
use zarrs.Codec.Chain.{PartialDecoderCapability, CodecChain}
use zarrs.Codec.Chain.Cache.{scan_codec, scan_codecs, cache_index, chain_cache_index}
use zarrs.Codec.Chain.Cache.Scans.{
  capabilities, AtMost, start, chain_cache_index-eq, Bounded, Bounded-later, Bounded-next,
  must-AtMost, should-AtMost,
}

-- Every codec has the capability.
abbrev pub AllCapable : List PartialDecoderCapability → Type 0
AllCapable [] = Unit
AllCapable (c ∷ cs) = (c.partial_read ≡ true) × (c.partial_decode ≡ true) × AllCapable cs

AllCapable-scan :
    (n : ℕ) (cs : List PartialDecoderCapability)
    → AllCapable cs
    → ((scan_codecs (record { must = none; should = none; codec_index = n }) cs).must ≡ none)
      × ((scan_codecs (record { must = none; should = none; codec_index = n }) cs).should ≡ none)
unfolding scan_codecs scan_codec
AllCapable-scan n [] a = (refl, refl)
AllCapable-scan n (c ∷ cs) (r, d, a) = rw (r, d) (AllCapable-scan (suc n) cs a)

AllCapable-elements :
    (cs : List PartialDecoderCapability)
    → ((i : ℕ) (c : PartialDecoderCapability)
        → get_elem? cs i ≡ some c
        → (c.partial_read ≡ true) × (c.partial_decode ≡ true))
    → AllCapable cs
AllCapable-elements [] h = tt
AllCapable-elements (c ∷ cs) h =
    let (r, d) = h 0 c refl in (r, d, AllCapable-elements cs (λ i. h (suc i)))

-- An index after the codecs that cannot decode in part, and at or after those that cannot read in
-- part, where the first codec has the index n.
abbrev pub IsCachePoint : ℕ → ℕ → List PartialDecoderCapability → Type 0
IsCachePoint n j [] = Unit
IsCachePoint n j (c ∷ cs) =
    ((c.partial_decode ≡ true) ⊎ (suc n ≤ j))
    × ((c.partial_read ≡ true) ⊎ (n ≤ j))
    × IsCachePoint (suc n) j cs

Bounded-if :
    (able : Bool) (o : Option ℕ) (k j : ℕ)
    → Bounded o k
    → Bounded (if able then o else some k) j ↔ (Bounded o j × ((able ≡ true) ⊎ (k ≤ j)))
Bounded-if true o k j b = (λ h. (h, inl refl), λ (h, _). h)
Bounded-if false o k j b = (λ h. (Bounded-later o k j h b, inr h), λ (_, h). reached h)
  where
    reached : {k j : ℕ} → (false ≡ true) ⊎ (k ≤ j) → k ≤ j
    reached (inl e) = cc
    reached (inr h) = h

-- The indices of a scan are the last ones that the codecs ask for.
scan-IsCachePoint :
    (m s : Option ℕ) (n j : ℕ) (cs : List PartialDecoderCapability)
    → Bounded m n
    → Bounded s n
    → (Bounded (scan_codecs (record { must = m; should = s; codec_index = n }) cs).must j
        × Bounded (scan_codecs (record { must = m; should = s; codec_index = n }) cs).should j)
      ↔ (Bounded m j × Bounded s j × IsCachePoint n j cs)
unfolding scan_codecs scan_codec
scan-IsCachePoint m s n j [] p q = (λ (a, b). (a, b, tt), λ (a, b, _). (a, b))
scan-IsCachePoint m s n j (c ∷ cs) p q =
    let p' = Bounded-later m n (suc n) (omega arith) p in
    let (must, must_of) = Bounded-if c.partial_decode m (suc n) j p' in
    let (should, should_of) = Bounded-if c.partial_read s n j q in
    let (from, to) =
      scan-IsCachePoint (if c.partial_decode then m else some (suc n))
        (if c.partial_read then s else some n) (suc n) j cs
        (Bounded-next c.partial_decode m (suc n) n (omega arith) p)
        (Bounded-next c.partial_read s n n (omega arith) q) in
    (
      λ h.
          let (a, b, rest) = from h in
          let (a', decode) = must a in let (b', read) = should b in (a', b', (decode, read, rest)),
      λ (a, b, (decode, read, rest)). to (must_of (a, decode), should_of (b, read), rest),
    )

Bounded-cache_index :
    (j : ℕ) (m s : Option ℕ) → Bounded (cache_index m s) j ↔ (Bounded m j × Bounded s j)
unfolding cache_index
Bounded-cache_index j none none = (λ h. (tt, tt), λ h. tt)
Bounded-cache_index j none (some s) = (λ h. (tt, h), λ (_, h). h)
Bounded-cache_index j (some m) none = (λ h. (h, tt), λ (h, _). h)
Bounded-cache_index j (some m) (some s) = (λ h. (omega arith, omega arith), λ (a, b). omega arith)

cache_index-none : (m s : Option ℕ) → cache_index m s ≡ none → (m ≡ none) × (s ≡ none)
unfolding cache_index
cache_index-none none none e = (refl, refl)
cache_index-none none (some s) e = cc
cache_index-none (some m) none e = cc
cache_index-none (some m) (some s) e = cc

able : (b : Bool) (k : ℕ) (o : Option ℕ) → o ≡ none → (b ≡ false → AtMost k o) → b ≡ true
able true k o e h = refl
able false k o e h = absurd (subst (AtMost k) e (h refl))

none-AllCapable :
    (cs : List PartialDecoderCapability)
    → cache_index (scan_codecs start cs).must (scan_codecs start cs).should ≡ none
    → AllCapable cs
unfolding start
none-AllCapable cs e =
    let (m, s) = cache_index-none _ _ e in
    AllCapable-elements cs (λ i c g. (
      able c.partial_read _ _ s (should-AtMost none none 0 i cs c g),
      able c.partial_decode _ _ m (must-AtMost none none 0 i cs c g),
    ))

-- A chain whose codecs all can decode and read in part has no cache.
AllCapable-chain_cache_index :
    (chain : CodecChain) → AllCapable (capabilities chain) → chain_cache_index chain ≡ none
unfolding start cache_index
AllCapable-chain_cache_index chain a =
    let (m, s) = AllCapable-scan 0 (capabilities chain) a in
    chain_cache_index-eq chain ∙ ap₂ cache_index m s

-- A chain has no cache exactly if all its codecs can decode and read in part. Otherwise the index of
-- its cache, in the order of partial decoding, is the least one that is after every codec that cannot
-- decode in part and at or after every codec that cannot read in part: those indices are exactly the
-- ones from the index of the cache on.
pub chain_cache_index_lem :
    (chain : CodecChain)
    → ((chain_cache_index chain ≡ none) ↔ AllCapable (capabilities chain))
      × ((j : ℕ) → Bounded (chain_cache_index chain) j ↔ IsCachePoint 0 j (capabilities chain))
unfolding start
chain_cache_index_lem chain =
    let cs : List PartialDecoderCapability = capabilities chain in
    let e = chain_cache_index-eq chain in
    (
      (λ h. none-AllCapable cs (sym e ∙ h), AllCapable-chain_cache_index chain),
      λ j.
          let (split, join) = Bounded-cache_index j _ _ in
          let (from, to) = scan-IsCachePoint none none 0 j cs tt tt in
          (
            λ h.
                let (_, _, point) = from (split (subst (λ (o : Option ℕ). Bounded o j) e h)) in
                point,
            λ h. subst (λ (o : Option ℕ). Bounded o j) (sym e) (join (to (tt, tt, h))),
          ),
    )
