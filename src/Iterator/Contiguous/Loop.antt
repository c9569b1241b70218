-- ===== src/Iterator/Contiguous/Loop.antt =====
-- What the loop of `ContiguousIndices::new` finds
-- (zarrs_chunk_grid/src/iterators/contiguous_indices_iterator.rs).
use native.Mathlib.Nat.{mod-lt, div-add-mod, div-lt_iff_lt-mul, mul_comm}
use zarrs.Common.{
  quotient, ℕ, zero, suc, ◌+◌, ◌-◌, ◌*◌, ◌/◌, ◌%◌, ◌<◌, ◌≡◌, refl, ap, ap₂, sym, ◌∙◌, inl, inr,
  Bool, true, false, ◌&&◌, Bool-cases, List, [], ◌∷◌, map, arith, ◌==◌, length, zip_with, add_u64,
  mul_u64, mul_u64-eq-mul, u64_mod, product,
}
use zarrs.Index.{unravel_loop}
use zarrs.Index.Linear.{linear}
use zarrs.Index.Unravel.{positive_factors}
use zarrs.Subset.{Range}
use zarrs.Subset.Valid.{Fits}
use zarrs.Iterator.Contiguous.{Scan, scan_dimension, scan_dimensions, start_ranges}

-- The row-major position in the array of the element at a position in a box.
abbrev pub element : List ℕ → List ℕ → List ℕ → ℕ → ℕ
element start shape ns k = linear (zip_with add_u64 start (unravel_loop k shape).1) ns

-- What the loop has found of the dimensions it has seen.
pub record Runs (start shape ns : List ℕ) (scan : Scan) : Type 0 where
  pub size : product scan.shape_out * scan.elements ≡ product shape
  pub some_elements : 0 < scan.elements
  pub run :
      (r j : ℕ)
      → j < scan.elements
      → (element start shape ns (r * scan.elements + j) ≡ element start scan.shape_out ns r + j)
        × ((unravel_loop (r * scan.elements + j) shape).0 ≡ (unravel_loop r scan.shape_out).0)
  pub whole :
      scan.contiguous ≡ true
      → (scan.elements ≡ product ns)
        × (product scan.shape_out ≡ 1)
        × ((r : ℕ) → (unravel_loop r scan.shape_out).0 ≡ r)
        × ((r q : ℕ) → element start scan.shape_out ns r ≡ element start scan.shape_out ns q)

Runs-none : Runs [] [] [] (record { contiguous = true; elements = 1; shape_out = [] })
unfolding unravel_loop
Runs-none = record {
  size = refl;
  some_elements = omega arith;
  run = λ r j h. (omega arith, omega arith);
  whole = λ e. (refl, refl, λ r. refl, λ r q. refl);
}

positive : (a b : ℕ) → 0 < a → 0 < b → 0 < a * b
positive a b h k = grind arith

div-below : (j e l : ℕ) → j < e * l → j / e < l
div-below j e l h = (div-lt_iff_lt-mul (left_positive e l j h)).1 (omega (arith, mul_comm e l))
  where
    left_positive : (e l j : ℕ) → j < e * l → 0 < e
    left_positive zero l j h = absurd (omega arith)
    left_positive (suc e) l j h = omega arith

position_in_run : (r l e d m j : ℕ) → e * d + m ≡ j → r * (e * l) + j ≡ (r * l + d) * e + m
position_in_run r l e d m j h = omega arith

row_of_run : (o e n y d m j : ℕ) → e * d + m ≡ j → e ≡ n → (o + d) * n + (y + m) ≡ o * n + y + j
row_of_run o e n y d m j h k = omega (arith, ap (λ (t : ℕ). t * d) k)

-- A dimension after one that is not contiguous.
Runs-kept :
    (o l n : ℕ) (start shape ns : List ℕ) (scan : Scan)
    → Runs start shape ns scan
    → Runs
        (o ∷ start)
        (l ∷ shape)
        (n ∷ ns)
        (record { contiguous = false; elements = scan.elements; shape_out = l ∷ scan.shape_out })
unfolding unravel_loop
Runs-kept o l n start shape ns scan rs = record {
  size = omega (arith, ap (λ (t : ℕ). l * t) rs.size);
  some_elements = rs.some_elements;
  run = λ r j k.
      let (a, q) = rs.run r j k in
      (
        ap₂ (λ (u v : ℕ). add_u64 o (u % l) * product ns + v) q a ∙ omega arith,
        ap (λ (t : ℕ). t / l) q,
      );
  whole = λ e. absurd (not_true e);
}
  where
    not_true : ¬ (false ≡ true)
    not_true e = cc

-- A dimension whose runs go on.
Runs-longer :
    (o l n : ℕ) (start shape ns : List ℕ) (scan : Scan) (go : Bool)
    → 0 < l
    → o + l < u64_mod
    → scan.contiguous ≡ true
    → (go ≡ true → l ≡ n)
    → Runs start shape ns scan
    → Runs
        (o ∷ start)
        (l ∷ shape)
        (n ∷ ns)
        (record { contiguous = go; elements = scan.elements * l; shape_out = 1 ∷ scan.shape_out })
unfolding unravel_loop
Runs-longer o l n start shape ns scan go h f t same rs =
    let (elements, one, quotients, rows) = rs.whole t in
    let e : ℕ = scan.elements in
    record {
      size = omega (arith, ap (λ (t : ℕ). l * t) rs.size);
      some_elements = positive e l rs.some_elements h;
      run = λ r j k.
          let d : ℕ = j / e in
          let parts : e * d + j % e ≡ j = div-add-mod j e in
          let below : d < l = div-below j e l k in
          let (a, q) = rs.run (r * l + d) (j % e) (mod-lt j rs.some_elements) in
          let (up, down) = quotient r l d below in
          let at : r * (e * l) + j ≡ (r * l + d) * e + j % e =
            position_in_run r l e d (j % e) j parts in
          let whole_quotient : (unravel_loop (r * (e * l) + j) shape).0 ≡ r * l + d =
            ap (λ (k : ℕ). (unravel_loop k shape).0) at ∙ q ∙ quotients (r * l + d) in
          let row : element start shape ns (r * (e * l) + j)
              ≡ element start scan.shape_out ns r + j % e =
            ap (λ (k : ℕ). element start shape ns k) at
            ∙ a
            ∙ ap (λ (v : ℕ). v + j % e) (rows (r * l + d) r) in
          let no_wrap : add_u64 o d ≡ o + d = omega arith in
          let first : add_u64 o ((unravel_loop r scan.shape_out).0 % 1) ≡ o = omega arith in
          (
            ap₂ (λ (u v : ℕ). add_u64 o (u % l) * product ns + v) whole_quotient row
                ∙ ap
                    (λ (u : ℕ).
                      add_u64 o u * product ns + (element start scan.shape_out ns r + j % e))
                    down
                ∙ ap (λ (u : ℕ). u * product ns + (element start scan.shape_out ns r + j % e))
                    no_wrap
                ∙ row_of_run o e (product ns) (element start scan.shape_out ns r) d (j % e) j parts
                    elements
                ∙ ap (λ (u : ℕ). u * product ns + element start scan.shape_out ns r + j)
                    (sym first),
            ap (λ (t : ℕ). t / l) whole_quotient ∙ up ∙ omega (arith, quotients r),
          );
      whole = λ g. (
        ap₂ ◌*◌ elements (same g) ∙ mul_comm (product ns) n,
        omega arith,
        λ r. omega (arith, quotients r),
        λ r q.
            ap₂ (λ (u v : ℕ). add_u64 o u * product ns + v)
              (remainder (unravel_loop r scan.shape_out).0 (unravel_loop q scan.shape_out).0)
              (rows r q),
      );
    }
  where
    remainder : (a b : ℕ) → a % 1 ≡ b % 1
    remainder a b = omega arith

pub scan-Runs :
    (start shape ns : List ℕ)
    → length start ≡ length shape
    → length start ≡ length ns
    → Fits start shape
    → 0 < product shape
    → product shape < u64_mod
    → Runs start shape ns (scan_dimensions start shape ns)
unfolding scan_dimensions scan_dimension
scan-Runs [] [] [] v w f h b = Runs-none
scan-Runs [] [] (n ∷ ns) v w f h b = absurd (omega arith)
scan-Runs [] (l ∷ shape) ns v w f h b = absurd (omega arith)
scan-Runs (o ∷ start) [] ns v w f h b = absurd (omega arith)
scan-Runs (o ∷ start) (l ∷ shape) [] v w f h b = absurd (omega arith)
scan-Runs (o ∷ start) (l ∷ shape) (n ∷ ns) v w (f, fs) h b =
    let (hl, hp) = positive_factors l (product shape) h in
    let rest : product shape < u64_mod = smaller l (product shape) hl b in
    let rs = scan-Runs start shape ns (omega arith) (omega arith) fs hp rest in
    let scan : Scan = scan_dimensions start shape ns in
    elim (Bool-cases scan.contiguous) [
      | inr t ↦ rw t (Runs-kept o l n start shape ns scan rs)
      | inl t ↦
          let (elements, one, quotients, rows) = rs.whole t in
          let all : scan.elements ≡ product shape = all_elements _ _ _ one rs.size in
          let exact : mul_u64 scan.elements l ≡ scan.elements * l =
            mul_u64-eq-mul scan.elements l
              (omega (arith, ap (λ (t : ℕ). t * l) all, mul_comm l (product shape))) in
          rw (t, exact)
            (Runs-longer o l n start shape ns scan ((o == 0) && (l == n)) hl f t (sizes o l n) rs)
    ]
  where
    smaller : (l p : ℕ) → 0 < l → l * p < u64_mod → p < u64_mod
    smaller zero p h b = absurd (omega arith)
    smaller (suc l) p h b = omega arith

    all_elements : (p e s : ℕ) → p ≡ 1 → p * e ≡ s → e ≡ s
    all_elements p e s h k = omega (arith, ap (λ (t : ℕ). t * e) h)

    sizes : (o l n : ℕ) → ((o == 0) && (l == n)) ≡ true → l ≡ n
    sizes o l n h = ground arith

-- The ranges that the runs start in, and the subset of them.
pub scan-shape :
    (start shape ns : List ℕ)
    → length start ≡ length shape
    → length start ≡ length ns
    → Fits start shape
    → 0 < product shape
    → (map (λ (r : Range). r.start) (start_ranges start (scan_dimensions start shape ns).shape_out)
        ≡ start)
      × (map
            (λ (r : Range). r.end - r.start)
            (start_ranges start (scan_dimensions start shape ns).shape_out)
          ≡ (scan_dimensions start shape ns).shape_out)
unfolding scan_dimensions scan_dimension start_ranges
scan-shape [] [] [] v w f h = (refl, refl)
scan-shape [] [] (n ∷ ns) v w f h = absurd (omega arith)
scan-shape [] (l ∷ shape) ns v w f h = absurd (omega arith)
scan-shape (o ∷ start) [] ns v w f h = absurd (omega arith)
scan-shape (o ∷ start) (l ∷ shape) [] v w f h = absurd (omega arith)
scan-shape (o ∷ start) (l ∷ shape) (n ∷ ns) v w (f, fs) h =
    let (hl, hp) = positive_factors l (product shape) h in
    let (a, b) = scan-shape start shape ns (omega arith) (omega arith) fs hp in
    elim (Bool-cases (scan_dimensions start shape ns).contiguous) [
      | inl t ↦ rw t (ap (λ (t : List ℕ). o ∷ t) a, ap₂ ◌∷◌ (width o 1 (omega arith)) b)
      | inr t ↦ rw t (ap (λ (t : List ℕ). o ∷ t) a, ap₂ ◌∷◌ (width o l f) b)
    ]
  where
    width : (o l : ℕ) → o + l < u64_mod → add_u64 o l - o ≡ l
    width o l h = omega arith
