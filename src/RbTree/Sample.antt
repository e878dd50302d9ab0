-- ===== src/RbTree/Sample.antt =====
-- A tree that keeps the laws: a sorted list, as the nodes of a tree without left subtrees.
use brain_project.Prelude.{
  ℕ, suc, ◌≡◌, ◌<◌, ◌≤◌, ◌==◌, ◌||◌, refl, arith, ap, sym, subst, ◌∙◌, ℤ, pos, negsuc, eq_ℤ, List,
  [], ◌∷◌, ◌++◌, Option, none, some, true, false, if◌then◌else◌, Bool-cases, inl, inr,
}
use brain_project.RbTree.{
  RbTree, RbTreeLaws, Shape, leaf, branch, Node, inorder, top, Linked, All, has_node, Greater,
}

-- The nodes in order, and the next free node. 0 is the root and 1 is nil.
pub record Nodes : Type 0 where
  pub list : List Node
  pub next : ℕ

unfoldable pub insert_node : (ℕ → ℕ → ℤ) → Node → List Node → List Node
insert_node c x [] = x ∷ []
insert_node c x (y ∷ l) =
    let rest = insert_node c x l in if eq_ℤ (c y.1 x.1) (pos 1) then x ∷ y ∷ l else y ∷ rest

unfoldable pub delete_node : ℕ → List Node → List Node
delete_node n [] = []
delete_node n (x ∷ l) = let rest = delete_node n l in if x.0 == n then l else x ∷ rest

unfoldable pub find_info : List Node → ℕ → Option ℕ
find_info [] n = none
find_info (x ∷ l) n = let rest = find_info l n in if x.0 == n then some x.1 else rest

unfoldable pub right_spine : List Node → Shape
right_spine [] = leaf
right_spine ((n, i) ∷ l) = branch leaf n i (right_spine l)

abbrev pub sample : RbTree Nodes
sample = record {
  create = some (record { list = []; next = 2 });
  insert = λ c i t. (t.next, record { list = insert_node c (t.next, i) t.list; next = suc t.next });
  delete = λ n t. record t { list = delete_node n t.list };
  root = λ t. 0;
  nil = λ t. 1;
  left = λ t n. if n == 0 then top 1 (right_spine t.list) else 1;
  info = λ t n. find_info t.list n;
}

abbrev Once : List Node → Type 0
Once [] = Unit {0}
Once ((n, _) ∷ l) = (has_node n l ≡ false) × Once l

record Sound (t : Nodes) : Type 0 where
  nodes : All (λ x. (2 ≤ x.0) × (x.0 < t.next)) t.list
  fresh : 2 ≤ t.next
  once : Once t.list

inorder-right_spine : (l : List Node) → inorder (right_spine l) ≡ l
unfolding inorder right_spine
inorder-right_spine [] = refl
inorder-right_spine (x ∷ l) = ap (λ (k : List Node). x ∷ k) (inorder-right_spine l)

not_greater : (a : ℤ) → ¬ (a ≡ pos 1) → eq_ℤ a (pos 1) ≡ false
not_greater (pos n) h = elim (Bool-cases (n == 1)) [
  | inl e ↦ absurd (h (ap pos (ground arith)))
  | inr e ↦ e
]
not_greater (negsuc n) h = refl

insert_node-split :
    (c : ℕ → ℕ → ℤ) (x : Node) (b a : List Node)
    → All (λ y. ¬ Greater c y.1 x.1) b
    → All (λ y. Greater c y.1 x.1) a
    → insert_node c x (b ++ a) ≡ b ++ x ∷ a
unfolding insert_node
insert_node-split c x [] [] h g = refl
insert_node-split c x [] (y ∷ a) h (g, gs) = rw (g) refl
insert_node-split c x (y ∷ b) a (h, hs) g =
    rw (not_greater (c y.1 x.1) h) (ap (λ (l : List Node). y ∷ l) (insert_node-split c x b a hs g))

has_node-below : (n : ℕ) (l : List Node) → All (λ x. (2 ≤ x.0) × (x.0 < n)) l → has_node n l ≡ false
unfolding has_node
has_node-below n [] h = refl
has_node-below n (x ∷ l) ((_, h), hs) = ground (arith, has_node-below n l hs)

has_node-insert :
    (c : ℕ → ℕ → ℤ) (m : ℕ) (x : Node) (l : List Node)
    → has_node m (insert_node c x l) ≡ ((x.0 == m) || has_node m l)
unfolding has_node insert_node
has_node-insert c m x [] = refl
has_node-insert c m x (y ∷ l) = elim (Bool-cases (eq_ℤ (c y.1 x.1) (pos 1))) [
  | inl e ↦ rw (e) refl
  | inr e ↦ rw (e) (ground (arith, has_node-insert c m x l))
]

Once-insert :
    (c : ℕ → ℕ → ℤ) (x : Node) (l : List Node)
    → has_node x.0 l ≡ false
    → Once l
    → Once (insert_node c x l)
unfolding has_node insert_node
Once-insert c x [] e d = (refl, tt)
Once-insert c x (y ∷ l) e (out, d) = elim (Bool-cases (eq_ℤ (c y.1 x.1) (pos 1))) [
  | inl g ↦ rw (g) (e, (out, d))
  | inr g ↦
      rw (g) (ground (arith, has_node-insert c y.0 x l, out, e), Once-insert c x l (ground arith) d)
]

nodes-insert :
    (c : ℕ → ℕ → ℤ) (n i : ℕ) (l : List Node)
    → 2 ≤ n
    → All (λ x. (2 ≤ x.0) × (x.0 < n)) l
    → All (λ x. (2 ≤ x.0) × (x.0 < suc n)) (insert_node c (n, i) l)
unfolding insert_node
nodes-insert c n i [] two h = ((two, omega arith), tt)
nodes-insert c n i (y ∷ l) two (h, hs) = elim (Bool-cases (eq_ℤ (c y.1 i) (pos 1))) [
  | inl g ↦ rw (g) ((two, omega arith), ((h.0, omega (arith, h)), weaken n l hs))
  | inr g ↦ rw (g) ((h.0, omega (arith, h)), nodes-insert c n i l two hs)
]
  where
    weaken :
        (n : ℕ) (l : List Node)
        → All (λ x. (2 ≤ x.0) × (x.0 < n)) l
        → All (λ x. (2 ≤ x.0) × (x.0 < suc n)) l
    weaken n [] a = tt
    weaken n (x ∷ l) ((lo, hi), a) = ((lo, omega arith), weaken n l a)

other : (m n i : ℕ) (b a : List Node) → has_node m (b ++ (n, i) ∷ a) ≡ false → (m == n) ≡ false
unfolding has_node
other m n i [] a e = ground arith
other m n i (x ∷ b) a e = other m n i b a (ground arith)

delete_node-split :
    (n i : ℕ) (b a : List Node) → Once (b ++ (n, i) ∷ a) → delete_node n (b ++ (n, i) ∷ a) ≡ b ++ a
unfolding delete_node has_node
delete_node-split n i [] a d = let same : (n == n) ≡ true = ground arith in rw (same) refl
delete_node-split n i (y ∷ b) a (e, d) =
    let apart : (y.0 == n) ≡ false = other y.0 n i b a e in
    rw (apart) (ap (λ (l : List Node). y ∷ l) (delete_node-split n i b a d))

has_node-delete :
    (m n : ℕ) (l : List Node) → has_node m l ≡ false → has_node m (delete_node n l) ≡ false
unfolding delete_node has_node
has_node-delete m n [] e = refl
has_node-delete m n (x ∷ l) e = ground (arith, has_node-delete m n l)

Once-delete : (n : ℕ) (l : List Node) → Once l → Once (delete_node n l)
unfolding delete_node
Once-delete n [] d = tt
Once-delete n (x ∷ l) (e, d) = elim (Bool-cases (x.0 == n)) [
  | inl g ↦ rw (g) d
  | inr g ↦ rw (g) (has_node-delete x.0 n l e, Once-delete n l d)
]

nodes-delete : (P : Node → Type 0) (n : ℕ) (l : List Node) → All P l → All P (delete_node n l)
unfolding delete_node
nodes-delete P n [] a = tt
nodes-delete P n (x ∷ l) (h, hs) = elim (Bool-cases (x.0 == n)) [
  | inl g ↦ rw (g) hs
  | inr g ↦ rw (g) (h, nodes-delete P n l hs)
]

-- Every node's entry is found.
found_behind :
    (y : Node) (l k : List Node)
    → has_node y.0 k ≡ false
    → All (λ x. find_info l x.0 ≡ some x.1) k
    → All (λ x. find_info (y ∷ l) x.0 ≡ some x.1) k
unfolding find_info has_node
found_behind y l [] e a = tt
found_behind y l (x ∷ k) e (h, hs) =
    let apart : (y.0 == x.0) ≡ false = ground arith in
    (rw (apart) h, found_behind y l k (ground arith) hs)

found : (l : List Node) → Once l → All (λ x. find_info l x.0 ≡ some x.1) l
unfolding find_info
found [] d = tt
found (x ∷ l) (e, d) =
    let same : (x.0 == x.0) ≡ true = ground arith in
    (rw (same) refl, found_behind x l l e (found l d))

Linked-right_spine :
    (top_node n : ℕ) (info : ℕ → Option ℕ) (l : List Node)
    → All (λ x. (2 ≤ x.0) × (x.0 < n)) l
    → All (λ x. info x.0 ≡ some x.1) l
    → Linked (λ m. if m == 0 then top_node else 1) info 1 (right_spine l)
unfolding right_spine
Linked-right_spine t n info [] b a = tt
Linked-right_spine t n info ((m, i) ∷ l) ((lo, b), bs) (e, a) =
    let inner : (m == 0) ≡ false = ground arith in
    (ground arith, rw (inner) refl, e, tt, Linked-right_spine t n info l bs a)

no_root : (n : ℕ) (l : List Node) → All (λ x. (2 ≤ x.0) × (x.0 < n)) l → find_info l 0 ≡ none
unfolding find_info
no_root n [] b = refl
no_root n ((m, i) ∷ l) ((lo, b), bs) =
    let inner : (m == 0) ≡ false = ground arith in rw (inner) (no_root n l bs)

created : {t u : Nodes} → some t ≡ some u → t ≡ u
created {t} e = ap (λ o. from_option t o) e
  where
    from_option : Nodes → Option Nodes → Nodes
    from_option a none = a
    from_option a (some b) = b

pub sample-RbTreeLaws : RbTreeLaws sample
unfolding right_spine inorder find_info
sample-RbTreeLaws = record {
  Built = Sound;
  shape = λ t. right_spine t.list;
  create-Built =
      λ t e. subst Sound (created e) (record { nodes = tt; fresh = omega arith; once = tt });
  create-shape = λ t e. subst (λ u. right_spine u.list ≡ leaf) (created e) refl;
  linked = λ t b. Linked-right_spine _ t.next _ t.list b.nodes (found t.list b.once);
  left-root = λ t b. refl;
  info-root = λ t b. no_root t.next t.list b.nodes;
  insert-Built = λ t c i b. record {
    nodes = nodes-insert c t.next i t.list b.fresh b.nodes;
    fresh = omega (arith, b.fresh);
    once = Once-insert c (t.next, i) t.list (has_node-below t.next t.list b.nodes) b.once;
  };
  insert-fresh = λ t c i b. rw (inorder-right_spine t.list) (has_node-below t.next t.list b.nodes);
  insert-inorder = λ t c i before after b e lo hi.
      inorder-right_spine (insert_node c (t.next, i) t.list)
      ∙ ap (insert_node c (t.next, i)) (sym (inorder-right_spine t.list) ∙ e)
      ∙ insert_node-split c (t.next, i) before after lo hi;
  delete-Built = λ t n b h. record {
    nodes = nodes-delete _ n t.list b.nodes;
    fresh = b.fresh;
    once = Once-delete n t.list b.once;
  };
  delete-inorder = λ t n i before after b e.
      let split = sym (inorder-right_spine t.list) ∙ e in
      inorder-right_spine (delete_node n t.list)
      ∙ ap (delete_node n) split
      ∙ delete_node-split n i before after (subst Once split b.once);
}
