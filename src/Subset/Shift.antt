-- ===== src/Subset/Shift.antt =====
-- `relative_to` and `offset` (zarrs_chunk_grid/src/array_subset_traits.rs) move a subset and undo one
-- another.
use zarrs.Common.{
  ℕ, ◌<◌, ◌≡◌, refl, List, [], ◌∷◌, arith, length, u64_mod, zip_with, zip_any, zip_all3, false, ok,
  add_u64, sub_u64, ltb,
}
use zarrs.Subset.{ArraySubset, relative_to, offset, contains, covers}
use zarrs.Subset.Valid.{Fits, IsValid, length-zip_with}

-- Every number is a word.
abbrev pub Words : List ℕ → Type 0
Words [] = Unit
Words (x ∷ xs) = (x < u64_mod) × Words xs

add_back :
    (start origin : List ℕ)
    → Words start
    → length origin ≡ length start
    → zip_any ltb start origin ≡ false
    → zip_with add_u64 (zip_with sub_u64 start origin) origin ≡ start
add_back [] [] w e h = refl
add_back (s ∷ start) (o ∷ origin) (b, w) e h = ground (arith, add_back start origin w)
add_back [] (o ∷ origin) w e h = refl
add_back (s ∷ start) [] w e h = absurd (omega arith)

covers_shift :
    (is start shape origin : List ℕ)
    → length origin ≡ length start
    → zip_any ltb start origin ≡ false
    → Words start
    → Fits start shape
    → Fits is origin
    → length is ≡ length start
    → zip_all3 covers is (zip_with sub_u64 start origin) shape
      ≡ zip_all3 covers (zip_with add_u64 is origin) start shape
covers_shift (i ∷ is) (s ∷ start) (l ∷ shape) (o ∷ origin) e h (a, w) (f, fs) (g, gs) k =
    ground (arith, covers_shift is start shape origin)
covers_shift [] [] shape [] e h w f g k = refl
covers_shift [] (s ∷ start) shape origin e h w f g k = absurd (omega arith)
covers_shift (i ∷ is) [] shape origin e h w f g k = absurd (omega arith)
covers_shift is (s ∷ start) shape [] e h w f g k = absurd (omega arith)
covers_shift is [] shape (o ∷ origin) e h w f g k = absurd (omega arith)
covers_shift (i ∷ is) (s ∷ start) [] (o ∷ origin) e h w f g k = refl

-- Where a valid subset whose start is of words is taken relative to an origin, offsetting the result
-- by that origin gives the subset back.
pub offset-relative_to :
    (s moved : ArraySubset) (origin : List ℕ)
    → IsValid s
    → Words s.start
    → relative_to s origin ≡ ok moved
    → offset moved origin ≡ ok s
unfolding relative_to offset
offset-relative_to s moved origin v w h =
    ground (arith, add_back s.start origin w, length-zip_with sub_u64 s.start origin)

-- The subset relative to an origin contains the index tuples which, moved by the origin, lie in the
-- subset: for tuples of its dimensionality, where nothing wraps around.
pub contains-relative_to :
    (s moved : ArraySubset) (origin indices : List ℕ)
    → Words s.start
    → Fits s.start s.shape
    → Fits indices origin
    → length indices ≡ length s.start
    → relative_to s origin ≡ ok moved
    → contains moved indices ≡ contains s (zip_with add_u64 indices origin)
unfolding relative_to contains
contains-relative_to s moved origin indices w f g k h =
    ground (arith, covers_shift indices s.start s.shape origin)
