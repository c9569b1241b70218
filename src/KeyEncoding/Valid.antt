-- ===== src/KeyEncoding/Valid.antt =====
-- Joined components form a valid key (zarrs_storage/src/store_key.rs).
use zarrs.Common.{ℕ, ◌≡◌, refl, true, false, List, [], ◌∷◌, ◌++◌, arith, ◌==◌}
use zarrs.Storage.Key.{starts_with, ends_with_slash, contains_slashes, validate, slash}
use zarrs.KeyEncoding.{join}
use zarrs.KeyEncoding.Components.{Without, AllWithout, or_false}

-- No component is empty.
abbrev pub AllNonempty : List (List ℕ) → Type 0
AllNonempty [] = Unit
AllNonempty ([] ∷ xs) = ⊥
AllNonempty ((c ∷ x) ∷ xs) = AllNonempty xs

-- A string with no slash at either end and no two slashes in a row.
record IsClosed (s : List ℕ) : Type 0 where
  pub open_start : starts_with s (slash ∷ []) ≡ false
  pub open_end : ends_with_slash s ≡ false
  pub single : contains_slashes s ≡ false

component-IsClosed : (c : ℕ) (x : List ℕ) → Without slash (c ∷ x) → IsClosed (c ∷ x)
unfolding starts_with ends_with_slash contains_slashes
component-IsClosed c x p = record {
  open_start = start c x (or_false (c == slash) _ p).0;
  open_end = ended c x p;
  single = singles c x p;
}
  where
    start : (c : ℕ) (x : List ℕ) → (c == slash) ≡ false → starts_with (c ∷ x) (slash ∷ []) ≡ false
    start c x h = ground arith

    ended : (c : ℕ) (x : List ℕ) → Without slash (c ∷ x) → ends_with_slash (c ∷ x) ≡ false
    ended c [] p = (or_false (c == slash) _ p).0
    ended c (d ∷ x) p = ended d x (or_false (c == slash) _ p).1

    singles : (c : ℕ) (x : List ℕ) → Without slash (c ∷ x) → contains_slashes (c ∷ x) ≡ false
    singles c [] p = refl
    singles c (d ∷ x) p =
        ground (arith, or_false (c == slash) _ p, singles d x (or_false (c == slash) _ p).1)

joined-IsClosed :
    (separator c d : ℕ) (x r : List ℕ)
    → Without slash (c ∷ x)
    → IsClosed (d ∷ r)
    → IsClosed (c ∷ x ++ separator ∷ d ∷ r)
unfolding starts_with ends_with_slash contains_slashes
joined-IsClosed separator c d x r p k = record {
  open_start = start c (x ++ separator ∷ d ∷ r) (or_false (c == slash) _ p).0;
  open_end = ended c x k.open_end;
  single = singles c x p k.single k.open_start;
}
  where
    start : (c : ℕ) (x : List ℕ) → (c == slash) ≡ false → starts_with (c ∷ x) (slash ∷ []) ≡ false
    start c x h = ground arith

    ended :
        (c : ℕ) (x : List ℕ)
        → ends_with_slash (d ∷ r) ≡ false
        → ends_with_slash (c ∷ x ++ separator ∷ d ∷ r) ≡ false
    ended c [] h = h
    ended c (e ∷ x) h = ended e x h

    singles :
        (c : ℕ) (x : List ℕ)
        → Without slash (c ∷ x)
        → contains_slashes (d ∷ r) ≡ false
        → starts_with (d ∷ r) (slash ∷ []) ≡ false
        → contains_slashes (c ∷ x ++ separator ∷ d ∷ r) ≡ false
    singles c [] p h k = ground arith
    singles c (e ∷ x) p h k =
        ground (arith, or_false (c == slash) _ p, singles e x (or_false (c == slash) _ p).1 h k)

join-IsClosed :
    (separator : ℕ) (c : ℕ) (x : List ℕ) (xs : List (List ℕ))
    → AllWithout slash ((c ∷ x) ∷ xs)
    → AllNonempty ((c ∷ x) ∷ xs)
    → IsClosed (join separator ((c ∷ x) ∷ xs))
unfolding join
join-IsClosed separator c x [] (p, ps) n = component-IsClosed c x p
join-IsClosed separator c x ([] ∷ xs) p n = absurd n
join-IsClosed separator c x ((d ∷ y) ∷ []) (p, (q, ps)) n =
    joined-IsClosed separator c d x y p (component-IsClosed d y q)
join-IsClosed separator c x ((d ∷ y) ∷ z ∷ xs) (p, ps) n =
    joined-IsClosed separator c d x (y ++ separator ∷ join separator (z ∷ xs)) p
      (join-IsClosed separator d y (z ∷ xs) ps n)

-- A key joined from components that have no slash and are not empty is valid, whatever joins them.
pub join-validate :
    (separator : ℕ) (x : List ℕ) (xs : List (List ℕ))
    → AllWithout slash (x ∷ xs)
    → AllNonempty (x ∷ xs)
    → validate (join separator (x ∷ xs)) ≡ true
unfolding validate
join-validate separator [] xs p n = absurd n
join-validate separator (c ∷ x) xs p n =
    let k = join-IsClosed separator c x xs p n in
    let a = k.open_start in let b = k.open_end in let s = k.single in rw (a, b, s)
