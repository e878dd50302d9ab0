-- ===== src/HoleList/Tests.antt =====
-- The free list at small requests, and the theorems at them.
use brain_project.Prelude.{◌≡◌, ◌+◌, refl, pos, minus_one, true, arith, [], ◌∷◌, List, ◌⊎◌}
use mathlib.Core.List.{Perm}
use brain_project.HoleList.{Hole, hole, add_hole, get_first_hole, get_best_hole}
use brain_project.HoleList.Fit.{AllSmaller, FitsAt, get_first_hole-FirstFit}
use brain_project.HoleList.Sorted.{SortedFrom, add_hole-sorted}
use brain_project.HoleList.Growth.{split_hole_overrun}

-- A freed process of 100 words before the rest of the address space.
abbrev two_holes : List Hole
two_holes = hole 0 100 ∷ hole 300 9700 ∷ []

takes_second : get_first_hole 200 two_holes ≡ (pos 300, hole 0 100 ∷ hole 500 9700 ∷ [])
unfolding get_first_hole
takes_second = refl

takes_best : get_best_hole 100 two_holes ≡ (pos 0, hole 300 9700 ∷ [])
unfolding get_best_hole
takes_best = refl

frees_between :
    add_hole true 150 50 two_holes ≡ (pos 0, hole 0 100 ∷ hole 150 50 ∷ hole 300 9700 ∷ [])
unfolding add_hole
frees_between = refl

get_first_hole-FirstFit_example :
    (AllSmaller 200 two_holes
      × ((get_first_hole 200 two_holes).0 ≡ minus_one)
      × ((get_first_hole 200 two_holes).1 ≡ two_holes))
    ⊎ FitsAt 200 two_holes (get_first_hole 200 two_holes)
get_first_hole-FirstFit_example = get_first_hole-FirstFit 200 two_holes

add_hole-sorted_example :
    ((add_hole true 150 50 two_holes).0 ≡ pos 0)
    × SortedFrom 0 (add_hole true 150 50 two_holes).1
    × Perm (add_hole true 150 50 two_holes).1 (hole 150 50 ∷ two_holes)
add_hole-sorted_example = add_hole-sorted 150 50 two_holes (omega arith)

split_hole_overrun_example :
    ((get_first_hole 40 two_holes).0 ≡ pos 0)
    × (get_first_hole 100 (get_first_hole 40 two_holes).1 ≡ (pos (0 + 40), hole 300 9700 ∷ []))
split_hole_overrun_example =
    split_hole_overrun 40 0 100 (hole 300 9700 ∷ []) (omega arith) (omega arith)
