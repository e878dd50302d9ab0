-- ===== src/HoleList/Sorted.antt =====
-- add_hole of hole_list.c keeps the free list in order of addresses.
use brain_project.Prelude.{ℕ, ◌≤◌, ◌≡◌, refl, arith, true, pos, List, [], ◌∷◌}
use mathlib.Core.List.{Perm}
use mathlib.Core.List.Perm
use brain_project.HoleList.{Hole, hole, link_after, link_sorted, add_hole}

-- Addresses do not fall along the list, from a lower bound on.
abbrev pub SortedFrom : ℕ → List Hole → Type 0
SortedFrom a [] = Unit {0}
SortedFrom a (h ∷ rest) = (a ≤ h.addr) × SortedFrom h.addr rest

link_after-SortedFrom :
    (a : ℕ) (new p : Hole) (rest : List Hole)
    → SortedFrom a (p ∷ rest)
    → p.addr ≤ new.addr
    → SortedFrom a (link_after new p rest)
unfolding link_after
link_after-SortedFrom a new p [] s h = (s.0, (h, tt))
link_after-SortedFrom a new p (q ∷ rest) s h =
    ground (arith, link_after-SortedFrom p.addr new q rest)

link_sorted-SortedFrom :
    (new : Hole) (holes : List Hole) → SortedFrom 0 holes → SortedFrom 0 (link_sorted new holes)
unfolding link_sorted
link_sorted-SortedFrom new [] s = (omega arith, tt)
link_sorted-SortedFrom new (p ∷ rest) s = ground (arith, link_after-SortedFrom 0 new p rest)

link_after-perm : (new p : Hole) (rest : List Hole) → Perm (link_after new p rest) (new ∷ p ∷ rest)
unfolding link_after
link_after-perm new p [] = Perm.swap new p []
link_after-perm new p (q ∷ rest) =
    let further =
      Perm.trans (Perm.cons p (link_after-perm new q rest)) (Perm.swap new p (q ∷ rest)) in
    ground (arith, further, Perm.swap new p (q ∷ rest))

link_sorted-perm : (new : Hole) (holes : List Hole) → Perm (link_sorted new holes) (new ∷ holes)
unfolding link_sorted
link_sorted-perm new [] = Perm.refl (new ∷ [])
link_sorted-perm new (p ∷ rest) =
    ground (arith, Perm.refl (new ∷ p ∷ rest), link_after-perm new p rest)

-- A free list in order of addresses stays in order, and gains exactly the new hole; the return
-- value is 0. malloc is assumed to succeed.
pub add_hole-sorted :
    (loc size : ℕ) (holes : List Hole)
    → SortedFrom 0 holes
    → ((add_hole true loc size holes).0 ≡ pos 0)
      × SortedFrom 0 (add_hole true loc size holes).1
      × Perm (add_hole true loc size holes).1 (hole loc size ∷ holes)
unfolding add_hole
add_hole-sorted loc size holes s =
    (refl, link_sorted-SortedFrom (hole loc size) holes s, link_sorted-perm (hole loc size) holes)
