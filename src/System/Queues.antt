-- ===== src/System/Queues.antt =====
-- How often a process is in a wait queue (wait_queue.c, as lists).
use brain_project.Prelude.{
  ℕ, ◌+◌, ◌≤◌, ◌≡◌, arith, ◌==◌, if◌then◌else◌, List, [], ◌∷◌, Bool-cases, inl, inr,
}
use brain_project.Vm.Machine.{insert_back, remove_first}

unfoldable pub count : ℕ → List ℕ → ℕ
count k [] = 0
count k (q ∷ l) = (if q == k then 1 else 0) + count k l

pub count-insert_back :
    (k p : ℕ) (l : List ℕ) → count k (insert_back p l) ≡ count k l + (if p == k then 1 else 0)
unfolding count insert_back
count-insert_back k p [] = ground arith
count-insert_back k p (q ∷ l) = ground (arith, count-insert_back k p l)

-- The first of the places of `p` is given up.
pub count-remove_first :
    (k p : ℕ) (l : List ℕ)
    → 1 ≤ count p l
    → count k (remove_first p l) + (if p == k then 1 else 0) ≡ count k l
unfolding count remove_first
count-remove_first k p [] h = ground arith
count-remove_first k p (q ∷ l) h = elim (Bool-cases (q == p)) [
  | inl e ↦ ground (arith)
  | inr e ↦ ground (arith, count-remove_first k p l (ground arith))
]
