-- ===== src/Sched/Leftmost.antt =====
-- The walk to the leftmost node (leftmost of sched.c), under the laws of the tree.
use brain_project.Prelude.{
  ℕ, zero, suc, ◌+◌, ◌<◌, ◌≡◌, refl, arith, Option, none, some, List, [], ◌∷◌, ◌++◌, subst, ◌∙◌,
}
use brain_project.RbTree.{RbTree, RbTreeLaws, All, Shape, leaf, branch, Node, inorder, top, Linked}
use brain_project.Sched.{leftmost_from, leftmost}

unfoldable pub length : List Node → ℕ
length [] = 0
length (x ∷ l) = suc (length l)

length-append : (l k : List Node) → length (l ++ k) ≡ length l + length k
unfolding length
length-append [] k = omega arith
length-append (x ∷ l) k = omega (arith, length-append l k)

-- The first node in order.
unfoldable pub first_of : ℕ → List Node → ℕ
first_of n [] = n
first_of n ((m, _) ∷ l) = m

first_of-append : (n m i : ℕ) (l k : List Node) → first_of n (l ++ (m, i) ∷ k) ≡ first_of m l
unfolding first_of
first_of-append n m i [] k = refl
first_of-append n m i (x ∷ l) k = refl

module _ {T : Type 0} (tree : RbTree T) (t : T) where
  -- From a node whose left pointer leads to `s`, the walk ends at the first node of `s`, or stays.
  walk :
      (s : Shape) (n rounds : ℕ)
      → Linked (tree.left t) (tree.info t) (tree.nil t) s
      → tree.left t n ≡ top (tree.nil t) s
      → length (inorder s) < rounds
      → leftmost_from tree t rounds n ≡ some (first_of n (inorder s))
  unfolding leftmost_from inorder length first_of
  walk s n zero l e h = absurd (omega arith)
  walk leaf n (suc rounds) l e h = rw e (ground arith)
  walk (branch s m i r) n (suc rounds) (ne, e', _, ls, lr) e h =
      let shorter =
        walk s m rounds ls e' (omega (arith, length-append (inorder s) ((m, i) ∷ inorder r))) in
      rw e (ground (arith, ne, shorter, first_of-append n m i (inorder s) (inorder r)))

pub All-append : (P : Node → Type 0) (l k : List Node) → All P l → All P k → All P (l ++ k)
All-append P [] k a b = b
All-append P (x ∷ l) k (a, as') b = (a, All-append P l k as' b)

Linked-info :
    (left : ℕ → ℕ) (info : ℕ → Option ℕ) (nil : ℕ) (s : Shape)
    → Linked left info nil s
    → All (λ x. info x.0 ≡ some x.1) (inorder s)
unfolding inorder
Linked-info left info nil leaf h = tt
Linked-info left info nil (branch l n i r) (_, _, e, hl, hr) =
    All-append _ (inorder l) ((n, i) ∷ inorder r) (Linked-info left info nil l hl)
      (e, Linked-info left info nil r hr)

module _ {T : Type 0} (tree : RbTree T) (laws : RbTreeLaws tree) (t : T)
    (built : laws.Built t) where
  -- leftmost on a tree that the operations have built, with at least one and at most 100 nodes: the walk
  -- ends, at the first node in order, and the info of that node is its entry.
  pub leftmost_lem :
      (n i : ℕ) (rest : List Node)
      → inorder (laws.shape t) ≡ (n, i) ∷ rest
      → length rest < 100
      → (leftmost tree t ≡ some n) × (tree.info t n ≡ some i)
  unfolding leftmost length first_of
  leftmost_lem n i rest e h = (
    walk tree t (laws.shape t) (tree.root t) 101 (laws.linked t built) (laws.left-root t built)
          (rw e (omega arith))
        ∙ rw e refl,
    (subst (All (λ x. tree.info t x.0 ≡ some x.1)) e (
        Linked-info (tree.left t) (tree.info t) (tree.nil t) (laws.shape t)
          (laws.linked t built))).0,
  )

  pub leftmost_empty :
      inorder (laws.shape t) ≡ []
      → (leftmost tree t ≡ some (tree.root t)) × (tree.info t (tree.root t) ≡ none)
  unfolding leftmost length first_of
  leftmost_empty e = (
    walk tree t (laws.shape t) (tree.root t) 101 (laws.linked t built) (laws.left-root t built)
          (rw e (omega arith))
        ∙ rw e refl,
    laws.info-root t built,
  )
