-- ===== src/WaitQueue/Free.antt =====
-- The nodes of a wait queue are freed (free_list of wait_queue.c).
use brain_project.Prelude.{
  ℕ, zero, suc, ◌<◌, ◌≡◌, ◌==◌, refl, arith, ◌∙◌, true, false, Option, none, some, [], ◌∷◌, set,
  set_self, set_ne, Bool-cases, inl, inr, subst,
}
use brain_project.WaitQueue.{Heap, free_list}
use brain_project.WaitQueue.Chain.{Cells, Chain, has, Apart, Chain-set}
use brain_project.WaitQueue.Remove.{nodes}

-- free_list with the fuel of a node more than the queue has frees exactly the nodes of the queue.
pub free_list_lem :
    (fuel : ℕ) (h : Heap) (ptr : Option ℕ) (l : Cells)
    → Chain h ptr l
    → Apart l
    → nodes l < fuel
    → (h' : Heap) × (free_list fuel ptr h ≡ some h')
      × ((x : ℕ) → has x l ≡ true → h' x ≡ none)
      × ((x : ℕ) → has x l ≡ false → h' x ≡ h x)
unfolding free_list has
free_list_lem fuel h ptr [] c d f = (h, rw (c) refl, λ x e. absurd (cc), λ x e. refl)
free_list_lem zero h ptr ((a, p) ∷ l) c d f = absurd (omega arith)
free_list_lem (suc n) h ptr ((a, p) ∷ l) (start, next, node, c) (out, d) f =
    let (h', run, freed, kept) =
      free_list_lem n (set h a none) next l (Chain-set h a none next l out c) d (omega arith) in
    (
      h',
      rw (start, free_list, node) run,
      λ x e. elim (Bool-cases (a == x)) [
        | inl same ↦
            (let eq : a ≡ x = ground arith in
              subst (λ y. h' y ≡ none) eq (kept a out ∙ set_self h a none))
        | inr ne ↦ freed x (ground arith)
      ],
      λ x e. kept x (ground arith) ∙ set_ne h a x none (λ same. absurd (ground (arith, same, e))),
    )
