-- ===== src/WaitQueue/Remove.antt =====
-- The removal of a process from a wait queue (remove_proc of wait_queue.c).
use brain_project.Prelude.{
  ℕ, zero, suc, ◌<◌, ◌≡◌, ◌≢◌, ◌==◌, refl, arith, ap, sym, subst, ◌∙◌, true, false, ◌||◌,
  if◌then◌else◌, pos, Option, none, some, List, [], ◌∷◌, ◌++◌, set, set_self, set_ne, Bool-cases,
  inl, inr,
}
use brain_project.WaitQueue.{Plist, Heap, Wq, find_plist, remove_plist, unlink}
use brain_project.WaitQueue.Chain.{
  Cells, Chain, has, Apart, last_from, Ends, Queue, procs, Chain-set, has-append, not_last,
  last_node, process_of, Changed,
}
use brain_project.Vm.Machine.{remove_first}

abbrev pub nodes : Cells → ℕ
nodes [] = 0
nodes (x ∷ l) = suc (nodes l)

-- Where the walk from `d` stops: at the last node, or in front of the first node of the process.
data Spot (p d : ℕ) (l : Cells) (at : ℕ) : Type 0 where
  absent : at ≡ last_from d l → remove_first p (procs l) ≡ procs l → Spot p d l at
  found :
      (b : Cells) (e : ℕ) (r : Cells)
      → l ≡ b ++ (e, p) ∷ r
      → at ≡ last_from d b
      → remove_first p (procs l) ≡ procs (b ++ r)
      → Spot p d l at

later :
    (p d a q : ℕ) (l : Cells) (at : ℕ) → (q == p) ≡ false → Spot p a l at → Spot p d ((a, q) ∷ l) at
unfolding procs remove_first last_from
later p d a q l at e (absent s t) = absent s (rw (e) (ap (λ (k : List ℕ). q ∷ k) t))
later p d a q l at e (found b x r s t u) =
    found ((a, q) ∷ b) x r (ap (λ (k : Cells). (a, q) ∷ k) s) t
      (rw (e) (ap (λ (k : List ℕ). q ∷ k) u))

same_process : (q p : ℕ) → (q == p) ≡ true → q ≡ p
same_process q p e = ground arith

-- The walk ends within its fuel.
find_plist_lem :
    (fuel p d t : ℕ) (h : Heap) (next : Option ℕ) (l : Cells)
    → h d ≡ some (record { p = t; next = next })
    → Chain h next l
    → nodes l < fuel
    → (at : ℕ) × (find_plist fuel h p d ≡ some at) × Spot p d l at
unfolding find_plist procs remove_first last_from
find_plist_lem zero p d t h next l node c f = absurd (omega arith)
find_plist_lem (suc n) p d t h next [] node c f =
    (d, rw (find_plist, node, c) refl, absent refl refl)
find_plist_lem (suc n) p d t h next ((a, q) ∷ l) node (start, next', node', c) f =
    elim (Bool-cases (q == p)) [
      | inl e ↦ (
        d,
        rw (find_plist, node, start, node', e) refl,
        found [] a l (ap (λ (u : ℕ). (a, u) ∷ l) (same_process q p e)) refl (rw (e) refl),
      )
      | inr e ↦
          let (at, run, spot) = find_plist_lem n p a q h next' l node' c (omega arith) in
          (at, rw (find_plist, node, start, node', e) run, later p d a q l at e spot)
    ]

-- The node in front of a cell, and what the cell has behind it.
cell_at :
    (h : Heap) (d t e p : ℕ) (next : Option ℕ) (b r : Cells)
    → h d ≡ some (record { p = t; next = next })
    → Chain h next (b ++ (e, p) ∷ r)
    → ((u : ℕ) × (h (last_from d b) ≡ some (record { p = u; next = some e })))
      × ((rn : Option ℕ) × (h e ≡ some (record { p = p; next = rn })) × Chain h rn r)
unfolding last_from
cell_at h d t e p next [] r node (start, rn, en, c) =
    ((t, node ∙ ap (λ (x : Option ℕ). some (record { p = t; next = x })) start), (rn, en, c))
cell_at h d t e p next ((a, q) ∷ b) r node (start, next', node', c) =
    cell_at h a q e p next' b r node' c

split_has : (x e p : ℕ) (b r : Cells) → has x (b ++ (e, p) ∷ r) ≡ ((e == x) || has x (b ++ r))
unfolding has
split_has x e p b r = ground (arith, has-append x b ((e, p) ∷ r), has-append x b r)

Apart-remove :
    (e p : ℕ) (b r : Cells) → Apart (b ++ (e, p) ∷ r) → Apart (b ++ r) × (has e (b ++ r) ≡ false)
unfolding has
Apart-remove e p [] r (out, d) = (d, out)
Apart-remove e p ((a, q) ∷ b) r (out, d) =
    let (d', f) = Apart-remove e p b r d in
    ((ground (arith, split_has a e p b r, out), d'), ground (arith, f, split_has a e p b r, out))

-- The cell is passed over.
cut :
    (h : Heap) (d t e p u : ℕ) (next rn : Option ℕ) (b r : Cells)
    → h d ≡ some (record { p = t; next = next })
    → Chain h next (b ++ (e, p) ∷ r)
    → has d (b ++ (e, p) ∷ r) ≡ false
    → Apart (b ++ (e, p) ∷ r)
    → h (last_from d b) ≡ some (record { p = u; next = some e })
    → Chain h rn r
    → (set h (last_from d b) (some (record { p = u; next = rn })) d
        ≡ some (record { p = t; next = if last_from d b == d then rn else next }))
      × Chain
          (set h (last_from d b) (some (record { p = u; next = rn })))
          (if last_from d b == d then rn else next)
          (b ++ r)
unfolding last_from has process_of
cut h d t e p u next rn [] r node c out apart link cr =
    let same : (d == d) ≡ true = ground arith in
    let process : u ≡ t = ap process_of (sym link ∙ node) in
    (
      rw (same) (
          set_self h d (some (record { p = u; next = rn }))
          ∙ ap (λ (x : ℕ). some (record { p = x; next = rn })) process),
      rw (same) (Chain-set h d (some (record { p = u; next = rn })) rn r (ground arith) cr),
    )
cut h d t e p u next rn ((a, q) ∷ b) r node (start, next', node', c) out (out', apart) link cr =
    let v : Option Plist = some (record { p = u; next = rn }) in
    let other = not_last d a q b (ground (arith, out, has-append d b ((e, p) ∷ r))) in
    let ne : (last_from a b == d) ≡ false = ground (arith, other) in
    let (node'', c') = cut h a q e p u next' rn b r node' c out' apart link cr in
    (rw (ne) (set_ne h (last_from a b) d v other ∙ node), rw (ne) (start, _, node'', c'))

append_nil : (b : Cells) → b ++ [] ≡ b
append_nil [] = refl
append_nil (x ∷ b) = ap (λ (k : Cells). x ∷ k) (append_nil b)

-- The tail behind the removal.
abbrev new_tail : Option ℕ → ℕ → Option ℕ → Option ℕ
new_tail rn at tail = elim rn [ none ↦ some at | some x ↦ tail ]

last_from-remove :
    (a e p x y : ℕ) (b r : Cells)
    → last_from a (b ++ (e, p) ∷ (x, y) ∷ r) ≡ last_from a (b ++ (x, y) ∷ r)
unfolding last_from
last_from-remove a e p x y [] r = refl
last_from-remove a e p x y ((c, q) ∷ b) r = last_from-remove c e p x y b r

Ends-remove :
    (h : Heap) (d e p : ℕ) (tail rn : Option ℕ) (b r : Cells)
    → Chain h rn r
    → Ends tail (b ++ (e, p) ∷ r)
    → Ends (new_tail rn (last_from d b) tail) (b ++ r)
unfolding last_from
Ends-remove h d e p tail rn [] [] c end = tt
Ends-remove h d e p tail rn ((a, q) ∷ b) [] c end =
    rw (c) (ap some (ap (last_from a) (sym (append_nil b))))
Ends-remove h d e p tail rn [] ((x, y) ∷ r) (start, _, _, c) end = rw (start) end
Ends-remove h d e p tail rn ((a, q) ∷ b) ((x, y) ∷ r) (start, _, _, c) end =
    rw (start) (end ∙ ap some (last_from-remove a e p x y b r))

-- An address outside the cells and `d` is not the last of them.
not_last_from : (x d : ℕ) (b r : Cells) → d ≢ x → has x (b ++ r) ≡ false → last_from d b ≢ x
unfolding last_from has
not_last_from x d [] r ne e = ne
not_last_from x d ((a, q) ∷ b) r ne e = not_last x a q b (ground (arith, e, has-append x b r))

module _ (root : ℕ) (s : Wq) (p : ℕ) where
  -- The heap while remove_proc runs.
  abbrev with_root : Heap
  with_root = set s.heap root (some (record { p = 0; next = s.head }))

  root_node : with_root root ≡ some (record { p = 0; next = s.head })
  root_node = set_self s.heap root _

  taken_out :
      (e u : ℕ) (b r : Cells)
      → Queue root s (b ++ (e, p) ∷ r)
      → with_root (last_from root b) ≡ some (record { p = u; next = some e })
      → (rn : Option ℕ) → Chain with_root rn r
      → Changed root s
          (b ++ (e, p) ∷ r)
          (procs (b ++ r))
          (unlink root (last_from root b) (record { p = u; next = some e }) e rn with_root s)
  unfolding has
  taken_out e u b r v link rn cr =
      let at = last_from root b in
      let all =
        Chain-set s.heap root (some (record { p = 0; next = s.head })) s.head (b ++ (e, p) ∷ r)
          v.no_root v.chain in
      let (node, chain) =
        cut with_root root 0 e p u s.head rn b r root_node all v.no_root v.apart link cr in
      let (apart, out) = Apart-remove e p b r v.apart in
      let no_root : has root (b ++ r) ≡ false = ground (arith, split_has root e p b r, v.no_root) in
      let h1 : Heap = set with_root at (some (record { p = u; next = rn })) in
      let head : Option ℕ = if at == root then rn else s.head in
      record {
        cells = b ++ r;
        queue = record {
          chain =
              Chain-set (set h1 e none) root none head (b ++ r) no_root
                (Chain-set h1 e none head (b ++ r) out chain);
          apart = apart;
          ends = Ends-remove with_root root e p s.tail rn b r cr v.ends;
          no_root = no_root;
        };
        processes = refl;
        frame = λ x ne f g.
            set_ne (set h1 e none) root x none (λ same. ne (sym same))
            ∙ set_ne h1 e x none (λ same. absurd (ground (arith, same, f, split_has x e p b r)))
            ∙ set_ne with_root at x _ (not_last_from x root b r (λ same. ne (sym same)) g)
            ∙ set_ne s.heap root x _ (λ same. ne (sym same));
      }

  no_next :
      (l : Cells)
      → Chain with_root s.head l
      → (u : ℕ) × (with_root (last_from root l) ≡ some (record { p = u; next = none }))
  unfolding last_from
  no_next [] c = (0, root_node ∙ ap (λ (x : Option ℕ). some (record { p = 0; next = x })) c)
  no_next ((a, q) ∷ l) c = last_node with_root s.head a q l c

  removed_at :
      (fuel : ℕ) (l : Cells)
      → Queue root s l
      → Chain with_root s.head l
      → (at : ℕ) → find_plist fuel with_root p root ≡ some at
      → Spot p root l at
      → (s' : Wq) × (remove_plist fuel root p s ≡ some (pos 0, s'))
        × Changed root s l (remove_first p (procs l)) s'
  unfolding remove_plist
  removed_at fuel l v all at run (absent e t) =
      let (u, node) = no_next l all in
      (
        s,
        rw (remove_plist, run ∙ ap some e, node) refl,
        record { cells = l; queue = v; processes = sym t; frame = λ x _ _ _. refl },
      )
  removed_at fuel l v all at run (found b e r split same t) =
      let w = subst (Queue root s) split v in
      let ((u, link), (rn, en, cr)) =
        cell_at with_root root 0 e p s.head b r root_node
          (subst (Chain with_root s.head) split all) in
      let s' = unlink root (last_from root b) (record { p = u; next = some e }) e rn with_root s in
      let changed =
        subst (λ k. Changed root s k (procs (b ++ r)) s') (sym split)
          (taken_out e u b r w link rn cr) in
      (
        s',
        rw (remove_plist, run ∙ ap some same, link, en) refl,
        subst (λ k. Changed root s l k s') (sym t) changed,
      )

  -- remove_proc on a queue that stands in memory, with the fuel of a node more than the queue has: it
  -- returns 0, the processes of the queue are then those that the list model has, where the first node
  -- of the process is gone, if there is one, and the rest of the heap stays.
  pub remove_plist-remove_first :
      (fuel : ℕ) (l : Cells)
      → Queue root s l
      → nodes l < fuel
      → (s' : Wq) × (remove_plist fuel root p s ≡ some (pos 0, s'))
        × Changed root s l (remove_first p (procs l)) s'
  unfolding remove_plist
  remove_plist-remove_first fuel l v f =
      let all =
        Chain-set s.heap root (some (record { p = 0; next = s.head })) s.head l v.no_root v.chain in
      let (at, run, spot) = find_plist_lem fuel p root 0 with_root s.head l root_node all f in
      removed_at fuel l v all at run spot
