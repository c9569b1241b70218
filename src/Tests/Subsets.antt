-- ===== src/Tests/Subsets.antt =====
-- Subsets of a plane (zarrs_chunk_grid/src/array_subset.rs, zarrs_chunk_grid/src/array_subset_traits.rs).
use zarrs.Common.{ℕ, ◌≡◌, ◌↔◌, refl, true, false, List, [], ◌∷◌, arith, ◌&&◌, ok}
use zarrs.Subset.{
  ArraySubset, overlap, contains, inbounds, is_empty, relative_to, new_with_start_end_inc,
  new_empty, inbounds_shape, new_with_start_end_exc, new_with_start_shape,
}
use zarrs.Subset.Valid.{IsValid, Fits}
use zarrs.Subset.Contains.{contains-overlap}
use zarrs.Subset.Inclusion.{inbounds_iff}

abbrev box : ArraySubset
box = record { start = 1 ∷ 2 ∷ []; shape = 3 ∷ 4 ∷ [] }

abbrev other : ArraySubset
other = record { start = 0 ∷ 0 ∷ []; shape = 9 ∷ 9 ∷ [] }

abbrev moved : ArraySubset
moved = record { start = 0 ∷ 1 ∷ []; shape = 3 ∷ 4 ∷ [] }

box-IsValid : IsValid box
box-IsValid = record { same_dimensionality = refl }

other-IsValid : IsValid other
other-IsValid = record { same_dimensionality = refl }

box-Fits : Fits box.start box.shape
box-Fits = (omega arith, (omega arith, tt))

other-Fits : Fits other.start other.shape
other-Fits = (omega arith, (omega arith, tt))

overlap-box : overlap box other ≡ ok box
unfolding overlap
overlap-box = refl

contains-overlap_example :
    contains box (2 ∷ 3 ∷ []) ≡ (contains box (2 ∷ 3 ∷ []) && contains other (2 ∷ 3 ∷ []))
contains-overlap_example =
    contains-overlap box other box (2 ∷ 3 ∷ []) box-Fits other-Fits overlap-box

box-filled : is_empty box ≡ false
unfolding is_empty
box-filled = refl

inbounds_iff_example :
    (inbounds box other ≡ true)
    ↔ ((indices : List ℕ) → contains box indices ≡ true → contains other indices ≡ true)
inbounds_iff_example =
    inbounds_iff box other box-IsValid other-IsValid refl box-Fits other-Fits box-filled

moved-box : relative_to box (1 ∷ 1 ∷ []) ≡ ok moved
unfolding relative_to new_with_start_shape
moved-box = refl

box_inc : new_with_start_end_inc (1 ∷ 2 ∷ []) (3 ∷ 5 ∷ []) ≡ ok box
unfolding new_with_start_end_inc
box_inc = refl

box_exc : new_with_start_end_exc (1 ∷ 2 ∷ []) (4 ∷ 6 ∷ []) ≡ ok box
unfolding new_with_start_end_exc
box_exc = refl

empty_2 : new_empty 2 ≡ record { start = 0 ∷ 0 ∷ []; shape = 0 ∷ 0 ∷ [] }
unfolding new_empty
empty_2 = refl

box_in_shape : inbounds_shape box (4 ∷ 6 ∷ []) ≡ true
unfolding inbounds_shape
box_in_shape = refl

box_beyond_shape : inbounds_shape box (4 ∷ 5 ∷ []) ≡ false
unfolding inbounds_shape
box_beyond_shape = refl
