-- ===== src/Common/Results.antt =====
-- `Result` of the source: a value, or an error of a type of the component's own.
use mathlib.Core.Path.{◌≡◌, refl}
use mathlib.Core.Logic.{◌⊎◌, inl, inr}
use mathlib.Core.Option.{Option, none, some}
use mathlib.Core.List.{List, [], ◌∷◌}

pub data Result {ℓ κ} (A : Type ℓ) (E : Type κ) : Type (ℓ ⊔ κ) where
  ok : A → Result A E
  err : E → Result A E

-- The `?` operator.
infixl 5 ◌>>=◌
abbrev pub ◌>>=◌ {ℓ κ μ} :
    {A : Type ℓ} {B : Type κ} {E : Type μ} → Result A E → (A → Result B E) → Result B E
ok a >>= f = f a
err e >>= f = err e

-- A call that may panic, which is `none`, and what follows it.
abbrev pub bind_option {ℓ κ} : {A : Type ℓ} {B : Type κ} → Option A → (A → Option B) → Option B
bind_option none f = none
bind_option (some a) f = f a

pub bind_option-some {ℓ κ} :
    {A : Type ℓ} {B : Type κ} (o : Option A) (f : A → Option B) (b : B)
    → bind_option o f ≡ some b
    → (a : A) × (o ≡ some a) × (f a ≡ some b)
bind_option-some none f b h = cc
bind_option-some (some a) f b h = (a, refl, h)

-- A call that may also panic.
pub data Outcome {ℓ κ} (A : Type ℓ) (E : Type κ) : Type (ℓ ⊔ κ) where
  returns : A → Outcome A E
  fails : E → Outcome A E
  panics : Outcome A E

-- What follows a call: the rest of the body, unless the call returns an error or panics.
abbrev pub and_then {ℓ κ μ} :
    {A : Type ℓ} {B : Type κ} {E : Type μ} → Outcome A E → (A → Outcome B E) → Outcome B E
and_then (returns a) f = f a
and_then (fails e) f = fails e
and_then panics f = panics

-- An indexing operation: it panics out of bounds.
abbrev pub checked {ℓ κ} : {A : Type ℓ} {E : Type κ} → Option A → Outcome A E
checked none = panics
checked (some a) = returns a

-- iter().map(f).collect::<Result<Vec<_>, _>>(): the first error, or panic, is the result.
abbrev pub try_collect {ℓ κ μ} :
    {A : Type ℓ} {B : Type κ} {E : Type μ} → (A → Outcome B E) → List A → Outcome (List B) E
try_collect f [] = returns []
try_collect f (a ∷ rest) =
    and_then (f a) (λ b. and_then (try_collect f rest) (λ bs. returns (b ∷ bs)))

-- A call that returns, and what follows it.
pub bind_option-step {ℓ κ} :
    {A : Type ℓ} {B : Type κ} (o : Option A) (f : A → Option B) (a : A) (r : Option B)
    → o ≡ some a
    → f a ≡ r
    → bind_option o f ≡ r
bind_option-step o f a r e h = rw e h

pub and_then-step {ℓ κ μ} :
    {A : Type ℓ} {B : Type κ} {E : Type μ} (o : Outcome A E) (f : A → Outcome B E) (a : A)
    (r : Outcome B E)
    → o ≡ returns a
    → f a ≡ r
    → and_then o f ≡ r
and_then-step o f a r e h = rw e h

pub and_then-returns {ℓ κ μ} :
    {A : Type ℓ} {B : Type κ} {E : Type μ} (o : Outcome A E) (f : A → Outcome B E) (b : B)
    → and_then o f ≡ returns b
    → (a : A) × (o ≡ returns a) × (f a ≡ returns b)
and_then-returns (returns a) f b h = (a, refl, h)
and_then-returns (fails e) f b h = cc
and_then-returns panics f b h = cc

pub and_then-id {ℓ κ} : {A : Type ℓ} {E : Type κ} (o : Outcome A E) → and_then o returns ≡ o
and_then-id (returns a) = refl
and_then-id (fails e) = refl
and_then-id panics = refl

-- for (x, y) in std::iter::zip(xs, ys) { state = f(x, y, state)?; }
abbrev pub for_zip {ℓ κ μ ν} :
    {A : Type ℓ} {B : Type κ} {S : Type μ} {E : Type ν}
    → (A → B → S → Outcome S E)
    → List A
    → List B
    → S
    → Outcome S E
for_zip f [] ys s = returns s
for_zip f (x ∷ xs) [] s = returns s
for_zip f (x ∷ xs) (y ∷ ys) s = and_then (f x y s) (for_zip f xs ys)

pub and_then_cong {ℓ κ μ} :
    {A : Type ℓ} {B : Type κ} {E : Type μ} (o : Outcome A E) (f g : A → Outcome B E)
    → ((a : A) → f a ≡ g a)
    → and_then o f ≡ and_then o g
and_then_cong (returns a) f g h = h a
and_then_cong (fails e) f g h = refl
and_then_cong panics f g h = refl

pub and_then_assoc {ℓ κ μ ν} :
    {A : Type ℓ} {B : Type κ} {C : Type μ} {E : Type ν} (o : Outcome A E) (f : A → Outcome B E)
    (g : B → Outcome C E)
    → and_then o (λ a. and_then (f a) g) ≡ and_then (and_then o f) g
and_then_assoc (returns a) f g = refl
and_then_assoc (fails e) f g = refl
and_then_assoc panics f g = refl

pub Result-cases {ℓ κ} :
    {A : Type ℓ} {E : Type κ} (r : Result A E) → ((a : A) × (r ≡ ok a)) ⊎ ((e : E) × (r ≡ err e))
Result-cases (ok a) = inl (a, refl)
Result-cases (err e) = inr (e, refl)

pub bind-ok {ℓ κ μ} :
    {A : Type ℓ} {B : Type κ} {E : Type μ} (r : Result A E) (f : A → Result B E) (b : B)
    → (r >>= f) ≡ ok b
    → (a : A) × (r ≡ ok a) × (f a ≡ ok b)
bind-ok (ok a) f b h = (a, refl, h)
bind-ok (err e) f b h = cc
