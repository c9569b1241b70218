-- ===== src/Codec/Location.antt =====
-- Where a checksum stands beside the bytes (the configurations of `adler32` and `crc32c`), and the
-- placing and the removal of four bytes that their codecs share.
use zarrs.Common.{
  ℕ, ◌-◌, ◌≡◌, ap, ap₂, sym, ◌∙◌, subst, List, ◌++◌, arith, length, take, drop, length-append,
  take-append, Bool, true, false, not, ◌&&◌, if◌then◌else◌, leb, le→leb, Bool-cases, inl, inr,
  Outcome, returns, fails, ◌↔◌,
}
use zarrs.Codec.{CodecError, other, invalid_checksum}
use zarrs.Codec.Bytes.{bytes_eq, bytes_eq_refl, bytes_eq_sound, take-drop, drop-append}

pub data Location : Type 0 where
  start : Location
  end : Location

abbrev pub attach : Location → List ℕ → List ℕ → List ℕ
attach start checksum value = checksum ++ value
attach end checksum value = value ++ checksum

-- The value and the checksum of encoded bytes.
abbrev pub detach : Location → List ℕ → List ℕ × List ℕ
detach start encoded = (drop 4 encoded, take 4 encoded)
detach end encoded = (take (length encoded - 4) encoded, drop (length encoded - 4) encoded)

detach-attach :
    (location : Location) (checksum value : List ℕ)
    → length checksum ≡ 4
    → detach location (attach location checksum value) ≡ (value, checksum)
detach-attach start checksum value h =
    subst
      (λ (n : ℕ).
        ◌≡◌ {A = List ℕ × List ℕ} (drop n (checksum ++ value), take n (checksum ++ value))
          (value, checksum))
      h (ap₂ (λ (u v : List ℕ). (u, v)) (drop-append checksum value) (take-append checksum value))
detach-attach end checksum value h =
    let n : length (value ++ checksum) - 4 ≡ length value =
      omega (arith, length-append value checksum) in
    rw (n, take-append value checksum, drop-append value checksum)

attach-detach :
    (location : Location) (encoded : List ℕ)
    → attach location (detach location encoded).1 (detach location encoded).0 ≡ encoded
attach-detach start encoded = take-drop 4 encoded
attach-detach end encoded = take-drop (length encoded - 4) encoded

-- The body that the decoders share: `sum` is the bytes of the checksum of a value.
abbrev pub checked_detach :
    Location → (List ℕ → List ℕ) → Bool → List ℕ → Outcome (List ℕ) CodecError
checked_detach location sum validate_checksums encoded =
    if leb 4 (length encoded)
    then (let (decoded, checksum) = detach location encoded in
        if validate_checksums && not (bytes_eq (sum decoded) checksum)
        then fails invalid_checksum
        else returns decoded)
    else fails other

-- A checksum of four bytes makes bytes that are long enough to be decoded.
attach_long :
    (location : Location) (checksum value : List ℕ)
    → length checksum ≡ 4
    → leb 4 (length (attach location checksum value)) ≡ true
attach_long start checksum value h = le→leb 4 _ (omega (arith, length-append checksum value))
attach_long end checksum value h = le→leb 4 _ (omega (arith, length-append value checksum))

-- What a test that lets a value through shows of it.
returned :
    (long : Bool) (sum : List ℕ → List ℕ) (decoded checksum value : List ℕ)
    → (◌≡◌ {A = Outcome (List ℕ) CodecError}
        (if long
          then (if true && not (bytes_eq (sum decoded) checksum)
              then fails invalid_checksum
              else returns decoded)
          else fails other)
        (returns value))
    → (decoded ≡ value) × (checksum ≡ sum value)
returned false sum decoded checksum value h = cc
returned true sum decoded checksum value h = elim (Bool-cases (bytes_eq (sum decoded) checksum)) [
  | inl q ↦
      let same : decoded ≡ value = injected decoded value (rw q at h) in
      (same, sym (bytes_eq_sound (sum decoded) checksum q) ∙ ap sum same)
  | inr q ↦ absurd (refused value (rw q at h))
]
  where
    injected :
        (a b : List ℕ) → ◌≡◌ {A = Outcome (List ℕ) CodecError} (returns a) (returns b) → a ≡ b
    injected a b h = cc

    refused :
        (b : List ℕ)
        → ¬ (◌≡◌ {A = Outcome (List ℕ) CodecError} (fails invalid_checksum) (returns b))
    refused b h = cc

module _ (location : Location) (sum : List ℕ → List ℕ)
    (four : (value : List ℕ) → length (sum value) ≡ 4) where
  pub checked_detach-attach :
      (validate : Bool) (value : List ℕ)
      → checked_detach location sum validate (attach location (sum value) value) ≡ returns value
  checked_detach-attach validate value =
      let long = attach_long location (sum value) value (four value) in
      let parts = detach-attach location (sum value) value (four value) in
      let same = bytes_eq_refl (sum value) in
      elim (Bool-cases validate) [ inl q ↦ rw (q, long, parts, same) | inr q ↦ rw (q, long, parts) ]

  pub checked_detach-only :
      (encoded value : List ℕ)
      → checked_detach location sum true encoded ≡ returns value
      → encoded ≡ attach location (sum value) value
  checked_detach-only encoded value h =
      let (d, c) = returned (leb 4 (length encoded)) sum _ _ value h in
      sym (attach-detach location encoded) ∙ ap₂ (λ (u v : List ℕ). attach location v u) d c

  pub checked_detach_iff :
      (value encoded : List ℕ)
      → (checked_detach location sum true encoded ≡ returns value) ↔ (
          ◌≡◌ {A = Outcome (List ℕ) CodecError}
            (returns (attach location (sum value) value))
            (returns encoded))
  checked_detach_iff value encoded = (
    λ h. ap returns (sym (checked_detach-only encoded value h)),
    λ h.
        subst (λ (t : List ℕ). checked_detach location sum true t ≡ returns value) (injected _ _ h)
          (checked_detach-attach true value),
  )
    where
      injected :
          (a b : List ℕ) → ◌≡◌ {A = Outcome (List ℕ) CodecError} (returns a) (returns b) → a ≡ b
      injected a b h = cc
