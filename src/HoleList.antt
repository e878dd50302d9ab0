-- ===== src/HoleList.antt =====
-- The free list of the virtual address space (hole_list.c). The chain of nodes from `holes` is a list;
-- nodes have one owner each, so a node is known by its position. `malloc_ok` is the answer of malloc.
pub mod Fit
pub mod Sorted
pub mod Growth
mod Tests
use brain_project.Prelude.{
  ℕ, suc, ◌+◌, Bool, true, false, not, ◌&&◌, ◌||◌, ltb, leb, ◌==◌, if◌then◌else◌, ℤ, pos, minus_one,
  to_signed, add_u32, Option, none, some, List, [], ◌∷◌,
}

-- struct hole_list, without the link.
pub record Hole : Type 0 where
  pub addr : ℕ
  pub size : ℕ

abbrev pub hole : ℕ → ℕ → Hole
hole a s = record { addr = a; size = s }

-- The walk of add_hole from the node `p` with the tail `rest`, and the new node linked behind it.
link_after : Hole → Hole → List Hole → List Hole
link_after new p [] = p ∷ new ∷ []
link_after new p (q ∷ rest) =
    let further = link_after new q rest in
    if ltb q.addr new.addr then p ∷ further else p ∷ new ∷ q ∷ rest

link_sorted : Hole → List Hole → List Hole
unfolding link_after
link_sorted new [] = new ∷ []
link_sorted new (p ∷ rest) = if leb new.addr p.addr then new ∷ p ∷ rest else link_after new p rest

-- Returns 1 where malloc fails.
unfoldable pub add_hole : Bool → ℕ → ℕ → List Hole → ℤ × List Hole
unfolding link_sorted
add_hole malloc_ok loc size holes =
    if malloc_ok then (pos 0, link_sorted (hole loc size) holes) else (pos 1, holes)

-- h->addr += size
unfoldable pub advance : ℕ → Hole → Hole
advance size h = record h { addr = add_u32 h.addr size }

-- The loop of get_first_hole: `p` is a node that is too small, `rest` its tail.
first_after : ℕ → Hole → List Hole → ℤ × List Hole
unfolding advance
first_after size p [] = (minus_one, p ∷ [])
first_after size p (q ∷ rest) =
    let (found, rest') = first_after size q rest in
    if q.size == size
    then (to_signed q.addr, p ∷ rest)
    else if ltb size q.size
    then (to_signed q.addr, p ∷ advance size q ∷ rest)
    else (found, p ∷ rest')

unfoldable pub get_first_hole : ℕ → List Hole → ℤ × List Hole
unfolding first_after
get_first_hole size [] = (minus_one, [])
get_first_hole size (h ∷ rest) =
    if h.size == size
    then (to_signed h.addr, rest)
    else if ltb size h.size
    then (to_signed h.addr, advance size h ∷ rest)
    else first_after size h rest

-- min_hole == NULL || p->size < min_hole->size
improves : Hole → Option (ℕ × Hole) → Bool
improves p none = true
improves p (some (_, m)) = ltb p.size m.size

-- The first loop of get_best_hole: the position and the node of the smallest hole that fits.
best_loop : ℕ → ℕ → Option (ℕ × Hole) → List Hole → Option (ℕ × Hole)
unfolding improves
best_loop size i best [] = best
best_loop size i best (p ∷ rest) =
    best_loop size (suc i) (if leb size p.size && improves p best then some (i, p) else best) rest

-- The second loop: the position of the node whose link leads to the node at position `k`.
find_parent : ℕ → ℕ → List Hole → Option ℕ
find_parent k i [] = none
find_parent k i (p ∷ rest) =
    let further = find_parent k (suc i) rest in if suc i == k then some i else further

-- p->next = p->next->next for the node at a position
unlink_after : ℕ → List Hole → List Hole
unlink_after i [] = []
unlink_after ℕ.zero (p ∷ []) = p ∷ []
unlink_after ℕ.zero (p ∷ q ∷ rest) = p ∷ rest
unlink_after (suc i) (p ∷ rest) = p ∷ unlink_after i rest

advance_at : ℕ → ℕ → List Hole → List Hole
advance_at size k [] = []
advance_at size ℕ.zero (p ∷ rest) = advance size p ∷ rest
advance_at size (suc k) (p ∷ rest) = p ∷ advance_at size k rest

unlink_first : List Hole → List Hole
unlink_first [] = []
unlink_first (p ∷ rest) = rest

unlink_best : Option ℕ → List Hole → List Hole
unfolding unlink_first unlink_after
unlink_best none holes = unlink_first holes
unlink_best (some i) holes = unlink_after i holes

take_best : ℕ → List Hole → Option (ℕ × Hole) → ℤ × List Hole
unfolding unlink_best find_parent advance_at
take_best size holes none = (minus_one, holes)
take_best size holes (some (k, m)) =
    if m.size == size
    then (to_signed m.addr, unlink_best (find_parent k 0 holes) holes)
    else if ltb size m.size
    then (to_signed m.addr, advance_at size k holes)
    else (minus_one, holes)

unfoldable pub get_best_hole : ℕ → List Hole → ℤ × List Hole
unfolding best_loop take_best
get_best_hole size holes = take_best size holes (best_loop size 0 none holes)
