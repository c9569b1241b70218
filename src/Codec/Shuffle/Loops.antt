-- ===== src/Codec/Shuffle/Loops.antt =====
-- What the loops of the `shuffle` codec write
-- (zarrs/src/array/codec/bytes_to_bytes/shuffle/shuffle_codec.rs).
use zarrs.Common.{
  ℕ, zero, suc, ◌+◌, ◌*◌, ◌≤◌, ◌<◌, ◌≡◌, ◌≢◌, refl, sym, ap, ◌∙◌, subst, some, List, [], ◌∷◌, arith,
  length, get_elem?, inl, inr, ◌⊎◌,
}
use zarrs.Codec.Shuffle.{set_elem, inner_loop, outer_loop}

pub set_elem-in :
    (out : List ℕ) (j value : ℕ)
    → j < length out
    → (t : List ℕ) × (set_elem out j value ≡ some t)
      × (length t ≡ length out)
      × (get_elem? t j ≡ some value)
      × ((k : ℕ) → k ≢ j → get_elem? t k ≡ get_elem? out k)
unfolding set_elem
set_elem-in [] j value h = absurd (omega arith)
set_elem-in (x ∷ out) zero value h = (value ∷ out, refl, refl, refl, kept)
  where
    kept : (k : ℕ) → k ≢ zero → get_elem? (value ∷ out) k ≡ get_elem? (x ∷ out) k
    kept zero n = absurd (n refl)
    kept (suc k) n = refl
set_elem-in (x ∷ out) (suc j) value h =
    let (t, e, l, g, k) = set_elem-in out j value (omega arith) in
    (x ∷ t, rw e refl, ap suc l, g, kept t k)
  where
    kept :
        (t : List ℕ)
        → ((k : ℕ) → k ≢ j → get_elem? t k ≡ get_elem? out k)
        → (k : ℕ) → k ≢ suc j
        → get_elem? (x ∷ t) k ≡ get_elem? (x ∷ out) k
    kept t f zero n = refl
    kept t f (suc k) n = f k (λ e. n (ap suc e))

-- Every index below a length is an element.
pub get_elem?-in : (xs : List ℕ) (i : ℕ) → i < length xs → (x : ℕ) × (get_elem? xs i ≡ some x)
get_elem?-in [] i h = absurd (omega arith)
get_elem?-in (x ∷ xs) zero h = (x, refl)
get_elem?-in (x ∷ xs) (suc i) h = get_elem?-in xs i (omega arith)

-- A row and a column determine the position, and the position them.
pub position_unique :
    (stride a b i j : ℕ)
    → i < stride
    → j < stride
    → a * stride + i ≡ b * stride + j
    → (a ≡ b) × (i ≡ j)
position_unique stride zero zero i j h k e = (refl, omega arith)
position_unique stride zero (suc b) i j h k e = absurd (grind arith)
position_unique stride (suc a) zero i j h k e = absurd (grind arith)
position_unique stride (suc a) (suc b) i j h k e =
    let (p, q) = position_unique stride a b i j h k (omega arith) in (ap suc p, q)

pub position_below : (stride rows a i : ℕ) → i < stride → a < rows → a * stride + i < rows * stride
position_below stride zero a i h k = absurd (omega arith)
position_below stride (suc rows) zero i h k = grind arith
position_below stride (suc rows) (suc a) i h k =
    omega (arith, position_below stride rows a i h (omega arith))

le_cases : (a b : ℕ) → a ≤ b → (a ≡ b) ⊎ (suc a ≤ b)
le_cases zero zero h = inl refl
le_cases zero (suc b) h = inr (omega arith)
le_cases (suc a) zero h = absurd (omega arith)
le_cases (suc a) (suc b) h = elim (le_cases a b (omega arith)) [
  | inl e ↦ inl (ap suc e)
  | inr l ↦ inr (omega arith)
]

module _ (input : List ℕ) (stride rows : ℕ) (len : length input ≡ stride * rows) where
  -- What the inner loop leaves of `out`: the elements of column `i` from row `a` on are written.
  abbrev InnerWritten : ℕ → ℕ → List ℕ → List ℕ → Type 0
  InnerWritten i a out t =
      (length t ≡ length out)
      × ((x : ℕ) → a ≤ x → x < rows → get_elem? t (x * stride + i) ≡ get_elem? input (i * rows + x))
      × ((x j : ℕ)
          → j < stride
          → (j ≢ i) ⊎ (x < a)
          → get_elem? t (x * stride + j) ≡ get_elem? out (x * stride + j))

  inner_loop-InnerWritten :
      (i a left : ℕ) (out : List ℕ)
      → i < stride
      → a + left ≡ rows
      → length out ≡ rows * stride
      → (t : List ℕ) × (inner_loop input stride i (i * rows) a left out ≡ some t)
        × InnerWritten i a out t
  unfolding inner_loop
  inner_loop-InnerWritten i a zero out h e l =
      (out, refl, (refl, λ x p q. absurd (omega arith), λ x j p q. refl))
  inner_loop-InnerWritten i a (suc left) out h e l =
      let (v, read) =
        get_elem?-in input (i * rows + a)
          (omega (arith, position_below rows stride i a (omega arith) h)) in
      let (u, written, lu, at, other) =
        set_elem-in out (a * stride + i) v
          (omega (arith, position_below stride rows a i h (omega arith))) in
      let (t, rest, (lt, column, kept)) =
        inner_loop-InnerWritten i (suc a) left u h (omega arith) (lu ∙ l) in
      (
        t,
        rw (read, written) rest,
        (
          lt ∙ lu,
          λ x p q. elim (le_cases a x p) [
            | inl same ↦
                subst (λ (x : ℕ). get_elem? t (x * stride + i) ≡ get_elem? input (i * rows + x))
                  same (kept a i h (inr (omega arith)) ∙ at ∙ sym read)
            | inr after ↦ column x after q
          ],
          λ x j p q.
              kept x j p (weaker a i j x q)
              ∙ other (x * stride + j) (λ same. clash a i j x h p same q),
        ),
      )
    where
      weaker : (a i j x : ℕ) → (j ≢ i) ⊎ (x < a) → (j ≢ i) ⊎ (x < suc a)
      weaker a i j x (inl n) = inl n
      weaker a i j x (inr l) = inr (omega arith)

      clash :
          (a i j x : ℕ)
          → i < stride
          → j < stride
          → x * stride + j ≡ a * stride + i
          → (j ≢ i) ⊎ (x < a)
          → ⊥
      clash a i j x h p same (inl n) = n (position_unique stride x a j i p h same).1
      clash a i j x h p same (inr l) =
          let q = (position_unique stride x a j i p h same).0 in omega arith

  -- What the outer loop leaves of `out`: every column from `i` on is written.
  outer_loop-written :
      (i left : ℕ) (out : List ℕ)
      → i + left ≡ stride
      → length out ≡ rows * stride
      → (t : List ℕ) × (outer_loop input stride rows i left out ≡ some t)
        × (length t ≡ length out)
        × ((x j : ℕ)
            → x < rows
            → i ≤ j
            → j < stride
            → get_elem? t (x * stride + j) ≡ get_elem? input (j * rows + x))
        × ((x j : ℕ) → j < i → get_elem? t (x * stride + j) ≡ get_elem? out (x * stride + j))
  unfolding outer_loop
  outer_loop-written i zero out e l =
      (out, refl, refl, λ x j p q r. absurd (omega arith), λ x j p. refl)
  outer_loop-written i (suc left) out e l =
      let (u, inner, (lu, column, others)) =
        inner_loop-InnerWritten i 0 rows out (omega arith) (omega arith) l in
      let (t, rest, lt, columns, kept) = outer_loop-written (suc i) left u (omega arith) (lu ∙ l) in
      (
        t,
        rw inner rest,
        lt ∙ lu,
        λ x j p q r. elim (le_cases i j q) [
          | inl same ↦
              subst (λ (j : ℕ). get_elem? t (x * stride + j) ≡ get_elem? input (j * rows + x)) same
                (kept x i (omega arith) ∙ column x (omega arith) p)
          | inr after ↦ columns x j p after r
        ],
        λ x j p.
            kept x j (omega arith) ∙ others x j (omega arith) (inl (λ same. absurd (omega arith))),
      )

  -- The loops transpose the input, taken as `stride` rows of `rows` elements.
  pub outer_loop-transposes :
      (out : List ℕ)
      → length out ≡ rows * stride
      → (t : List ℕ) × (outer_loop input stride rows 0 stride out ≡ some t)
        × (length t ≡ length out)
        × ((x j : ℕ)
            → x < rows
            → j < stride
            → get_elem? t (x * stride + j) ≡ get_elem? input (j * rows + x))
  outer_loop-transposes out l =
      let (t, e, lt, columns, kept) = outer_loop-written 0 stride out (omega arith) l in
      (t, e, lt, λ x j p q. columns x j p (omega arith) q)
