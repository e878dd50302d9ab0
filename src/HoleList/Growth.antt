-- ===== src/HoleList/Growth.antt =====
-- A split hole keeps its size (get_first_hole of hole_list.c moves `addr` and leaves `size`).
use brain_project.Prelude.{ℕ, zero, suc, ◌+◌, ◌*◌, ◌<◌, ◌^◌, ◌≡◌, arith, ℤ, pos, List, ◌∷◌, ap, ◌∙◌}
use brain_project.HoleList.{Hole, hole, advance, get_first_hole}

-- The free list after a number of requests of one size.
abbrev pub after_requests : ℕ → ℕ → List Hole → List Hole
after_requests size zero holes = holes
after_requests size (suc k) holes = after_requests size k (get_first_hole size holes).1

-- A request below the first hole's size is served from its start, and the hole stays as large.
pub split_first :
    (size a s : ℕ) (rest : List Hole)
    → size < s
    → a + size < 2 ^ 31
    → get_first_hole size (hole a s ∷ rest) ≡ (pos a, hole (a + size) s ∷ rest)
unfolding get_first_hole advance
split_first size a s rest h k = ground arith

-- Requests smaller than the first hole never exhaust it: request number k, from 0, is served at
-- k times the size behind the hole's start, as long as addresses stay below 2 ^ 31, however far
-- that lies behind the end of the hole.
requests_never_exhaust :
    (size a s k : ℕ) (rest : List Hole)
    → size < s
    → a + k * size + size < 2 ^ 31
    → (get_first_hole size (after_requests size k (hole a s ∷ rest))).0 ≡ pos (a + k * size)
requests_never_exhaust size a s zero rest h b =
    ap (λ (r : ℤ × List Hole). r.0) (split_first size a s rest h (omega arith))
    ∙ ap pos (omega arith)
requests_never_exhaust size a s (suc k) rest h b =
    rw (split_first size a s rest h (grind arith))
      (requests_never_exhaust size (a + size) s k rest h (omega arith) ∙ ap pos (omega arith))

-- A hole of s words that was split for n words serves s more: the first request gets the hole's start,
-- and a second one, for s words, the block that starts n words later and so ends n words behind the
-- hole. The start of that block is assumed to be below 2 ^ 31.
pub split_hole_overrun :
    (n a s : ℕ) (rest : List Hole)
    → n < s
    → a + n < 2 ^ 31
    → ((get_first_hole n (hole a s ∷ rest)).0 ≡ pos a)
      × (get_first_hole s (get_first_hole n (hole a s ∷ rest)).1 ≡ (pos (a + n), rest))
unfolding get_first_hole
split_hole_overrun n a s rest h k = (ground arith, rw (split_first n a s rest h k) (ground arith))
