-- ===== src/Storage/Key/Parent.antt =====
-- A key lies in its parent, and keys and prefixes correspond (zarrs_storage/src/store_key.rs,
-- zarrs_storage/src/store_prefix.rs).
use mathlib.Core.List.{append_assoc}
use zarrs.Common.{
  ℕ, ◌≡◌, refl, sym, ap, ap₂, ◌∙◌, inl, inr, true, false, ◌||◌, List, [], ◌∷◌, ◌++◌, arith, any,
  ◌==◌, Bool-cases,
}
use zarrs.Storage.Key.{
  slash, starts_with, ends_with_slash, validate, validate_prefix, has_prefix, to_prefix, cons_head,
  split, join, init, push_slash, parent, strip_slash, from_prefix,
}

join-cons_head : (c : ℕ) (xs : List (List ℕ)) → join (cons_head c xs) ≡ c ∷ join xs
unfolding join cons_head
join-cons_head c [] = refl
join-cons_head c (x ∷ []) = refl
join-cons_head c (x ∷ y ∷ xs) = refl

-- What `split` returns is not empty.
split-cons : (s : List ℕ) → (x : List ℕ) × (xs : List (List ℕ)) × (split s ≡ x ∷ xs)
unfolding split cons_head
split-cons [] = ([], [], refl)
split-cons (c ∷ s) = elim (Bool-cases (c == slash)) [
  | inl e ↦ ([], split s, rw e refl)
  | inr e ↦ let (x, xs, h) = split-cons s in (c ∷ x, xs, rw (e, h))
]

join-split : (s : List ℕ) → join (split s) ≡ s
unfolding join split
join-split [] = refl
join-split (c ∷ s) = elim (Bool-cases (c == slash)) [
  | inl e ↦
      let (x, xs, h) = split-cons s in
      let same : c ≡ slash = ground arith in
      rw (e, h, sym same) (ap (λ (t : List ℕ). c ∷ t) (ap join (sym h) ∙ join-split s))
  | inr e ↦ rw e (join-cons_head c (split s) ∙ ap (λ (t : List ℕ). c ∷ t) (join-split s))
]

-- No character is a slash.
abbrev pub Plain : List ℕ → Type 0
Plain s = any (λ c. c == slash) s ≡ false

abbrev AllPlain : List (List ℕ) → Type 0
AllPlain [] = Unit
AllPlain (x ∷ xs) = Plain x × AllPlain xs

cons_head-AllPlain :
    (c : ℕ) (xs : List (List ℕ)) → (c == slash) ≡ false → AllPlain xs → AllPlain (cons_head c xs)
unfolding cons_head
cons_head-AllPlain c [] e h = (ground arith, tt)
cons_head-AllPlain c (x ∷ xs) e (p, h) = (ap₂ ◌||◌ e p, h)

split-AllPlain : (s : List ℕ) → AllPlain (split s)
unfolding split
split-AllPlain [] = (refl, tt)
split-AllPlain (c ∷ s) = elim (Bool-cases (c == slash)) [
  | inl e ↦ rw e (refl, split-AllPlain s)
  | inr e ↦ rw e (cons_head-AllPlain c (split s) e (split-AllPlain s))
]

last : List (List ℕ) → List ℕ
last [] = []
last (x ∷ []) = x
last (x ∷ y ∷ xs) = last (y ∷ xs)

last-Plain : (xs : List (List ℕ)) → AllPlain xs → Plain (last xs)
unfolding last
last-Plain [] h = refl
last-Plain (x ∷ []) (p, h) = p
last-Plain (x ∷ y ∷ xs) (p, h) = last-Plain (y ∷ xs) h

-- Everything up to the last component.
directory : List (List ℕ) → List ℕ
unfolding join
directory [] = []
directory (x ∷ xs) = join (x ∷ xs) ++ slash ∷ []

join-last : (xs : List (List ℕ)) → join xs ≡ directory (init xs) ++ last xs
unfolding join directory init last
join-last [] = refl
join-last (x ∷ []) = refl
join-last (x ∷ y ∷ []) = sym (append_assoc x (slash ∷ []) y)
join-last (x ∷ y ∷ z ∷ xs) =
    let front = join (y ∷ init (z ∷ xs)) in
    let back = slash ∷ [] ++ last (z ∷ xs) in
    ap (λ (t : List ℕ). x ++ slash ∷ t)
      (join-last (y ∷ z ∷ xs) ∙ append_assoc front (slash ∷ []) (last (z ∷ xs)))
    ∙ sym (append_assoc x (slash ∷ front) back)
    ∙ sym (append_assoc (x ++ slash ∷ front) (slash ∷ []) (last (z ∷ xs)))

ends_with_slash-append : (s : List ℕ) → ends_with_slash (s ++ slash ∷ []) ≡ true
unfolding ends_with_slash
ends_with_slash-append [] = refl
ends_with_slash-append (c ∷ []) = refl
ends_with_slash-append (c ∷ d ∷ s) = ends_with_slash-append (d ∷ s)

starts_with-append : (s t : List ℕ) → starts_with (s ++ t) s ≡ true
unfolding starts_with
starts_with-append [] [] = refl
starts_with-append [] (d ∷ t) = refl
starts_with-append (c ∷ s) t = ground (arith, starts_with-append s t)

validate_prefix-push_slash :
    (s name : List ℕ)
    → starts_with (push_slash s ++ name) (slash ∷ []) ≡ false
    → validate_prefix (push_slash s) ≡ true
unfolding validate_prefix push_slash starts_with
validate_prefix-push_slash [] name h = refl
validate_prefix-push_slash (c ∷ s) name h = ground (arith, ends_with_slash-append (c ∷ s))

not_started : (key : List ℕ) → validate key ≡ true → starts_with key (slash ∷ []) ≡ false
unfolding validate
not_started key h = ground arith

push_slash-append :
    (j rest : List ℕ)
    → starts_with (j ++ slash ∷ [] ++ rest) (slash ∷ []) ≡ false
    → push_slash j ≡ j ++ slash ∷ []
unfolding push_slash starts_with
push_slash-append [] [] h = cc
push_slash-append [] (c ∷ rest) h = cc
push_slash-append (c ∷ j) rest h = refl

push_slash-directory :
    (xs : List (List ℕ)) (rest : List ℕ)
    → starts_with (directory xs ++ rest) (slash ∷ []) ≡ false
    → push_slash (join xs) ≡ directory xs
unfolding directory push_slash join starts_with
push_slash-directory [] rest h = refl
push_slash-directory (x ∷ xs) rest h = push_slash-append (join (x ∷ xs)) rest h

-- A valid key is its parent followed by a name with no slash, and its parent is a valid prefix, which
-- the key has.
pub parent_lem :
    (key : List ℕ)
    → validate key ≡ true
    → (name : List ℕ) × (key ≡ parent key ++ name)
      × Plain name
      × (validate_prefix (parent key) ≡ true)
      × (has_prefix key (parent key) ≡ true)
unfolding parent has_prefix
parent_lem key v =
    let xs = split key in
    let name = last xs in
    let cut : key ≡ directory (init xs) ++ name = sym (join-split key) ∙ join-last xs in
    let plain_start = not_started key v in
    let same : push_slash (join (init xs)) ≡ directory (init xs) =
      push_slash-directory (init xs) name
        (ap (λ (t : List ℕ). starts_with t (slash ∷ [])) (sym cut) ∙ plain_start) in
    let whole : key ≡ push_slash (join (init xs)) ++ name =
      cut ∙ ap (λ (t : List ℕ). t ++ name) (sym same) in
    (
      name,
      whole,
      last-Plain xs (split-AllPlain key),
      validate_prefix-push_slash (join (init xs)) name
          (ap (λ (t : List ℕ). starts_with t (slash ∷ [])) (sym whole) ∙ plain_start),
      ap (λ (t : List ℕ). starts_with t (push_slash (join (init xs)))) whole
          ∙ starts_with-append (push_slash (join (init xs))) name,
    )

strip_slash-append : (s : List ℕ) → strip_slash (s ++ slash ∷ []) ≡ s
unfolding strip_slash
strip_slash-append [] = refl
strip_slash-append (c ∷ []) = refl
strip_slash-append (c ∷ d ∷ s) = ap (λ (t : List ℕ). c ∷ t) (strip_slash-append (d ∷ s))

-- A valid key's prefix is valid, and the key of that prefix is the key.
pub from_prefix-to_prefix :
    (key : List ℕ)
    → validate key ≡ true
    → (from_prefix (to_prefix key) ≡ key) × (validate_prefix (to_prefix key) ≡ true)
unfolding from_prefix to_prefix validate_prefix starts_with strip_slash
from_prefix-to_prefix [] v = (refl, refl)
from_prefix-to_prefix (c ∷ key) v = (
  strip_slash-append (c ∷ key),
  ground (arith, ends_with_slash-append (c ∷ key), not_started (c ∷ key) v),
)
