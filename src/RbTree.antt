-- ===== src/RbTree.antt =====
-- What sched.c uses of the red-black tree of rb_tree, which is another project's library: its
-- functions over the states `T` of one tree, and what its documentation says of them.
--
-- A node is a pointer, here a number. The key and the info that sched.c puts into a node are the
-- same task entry, so a node has one number for both. `root` and `nil` are sentinels, with neither.
pub mod Sample
use brain_project.Prelude.{
  ℕ, ◌≡◌, ◌≢◌, ℤ, pos, List, [], ◌∷◌, ◌++◌, Option, none, some, Bool, false, true, if◌then◌else◌,
  ◌==◌, ◌||◌,
}

pub record RbTree (T : Type 0) : Type 0 where
  -- RBTreeCreate
  pub create : Option T
  -- RBTreeInsert, with the comparison that the tree was created with
  pub insert : (ℕ → ℕ → ℤ) → ℕ → T → ℕ × T
  -- RBDelete
  pub delete : ℕ → T → T
  -- the fields of the structs
  pub root : T → ℕ
  pub nil : T → ℕ
  pub left : T → ℕ → ℕ
  pub info : T → ℕ → Option ℕ

-- The nodes below a pointer: a node has a left subtree, an info, and a right subtree.
pub data Shape : Type 0 where
  leaf : Shape
  branch : Shape → ℕ → ℕ → Shape → Shape

-- A node with its info.
abbrev pub Node : Type 0
Node = ℕ × ℕ

-- The nodes in order.
unfoldable pub inorder : Shape → List Node
inorder leaf = []
inorder (branch l n i r) = inorder l ++ (n, i) ∷ inorder r

-- The pointer to a tree: `nil` if it is empty.
abbrev pub top : ℕ → Shape → ℕ
top nil leaf = nil
top nil (branch l n i r) = n

-- The pointers in the nodes are those of the shape.
abbrev pub Linked : (ℕ → ℕ) → (ℕ → Option ℕ) → ℕ → Shape → Type 0
Linked left info nil leaf = Unit {0}
Linked left info nil (branch l n i r) =
    (n ≢ nil)
    × (left n ≡ top nil l)
    × (info n ≡ some i)
    × Linked left info nil l
    × Linked left info nil r

abbrev pub All : (Node → Type 0) → List Node → Type 0
All P [] = Unit {0}
All P (x ∷ xs) = P x × All P xs

-- Whether a node is in a list.
unfoldable pub has_node : ℕ → List Node → Bool
has_node n [] = false
has_node n ((m, _) ∷ l) = (m == n) || has_node n l

-- The laws hold in the states that the operations lead to, as long as only nodes of the tree are
-- deleted. `greater c i j` is the test of the tree, `1 == Compare(i, j)`.
abbrev pub Greater : (ℕ → ℕ → ℤ) → ℕ → ℕ → Type 0
Greater c i j = c i j ≡ pos 1

pub record RbTreeLaws {T : Type 0} (tree : RbTree T) : Type 1 where
  pub Built : T → Type 0
  pub shape : T → Shape
  pub create-Built : (t : T) → tree.create ≡ some t → Built t
  pub create-shape : (t : T) → tree.create ≡ some t → shape t ≡ leaf
  pub linked : (t : T) → Built t → Linked (tree.left t) (tree.info t) (tree.nil t) (shape t)
  -- the tree hangs from the left of the root sentinel, which is no node
  pub left-root : (t : T) → Built t → tree.left t (tree.root t) ≡ top (tree.nil t) (shape t)
  pub info-root : (t : T) → Built t → tree.info t (tree.root t) ≡ none
  -- a new node goes behind those that are not greater, where these stand in front
  pub insert-Built : (t : T) (c : ℕ → ℕ → ℤ) (i : ℕ) → Built t → Built (tree.insert c i t).1
  pub insert-fresh :
      (t : T) (c : ℕ → ℕ → ℤ) (i : ℕ)
      → Built t
      → has_node (tree.insert c i t).0 (inorder (shape t)) ≡ false
  pub insert-inorder :
      (t : T) (c : ℕ → ℕ → ℤ) (i : ℕ) (before after : List Node)
      → Built t
      → inorder (shape t) ≡ before ++ after
      → All (λ x. ¬ Greater c x.1 i) before
      → All (λ x. Greater c x.1 i) after
      → inorder (shape (tree.insert c i t).1) ≡ before ++ ((tree.insert c i t).0, i) ∷ after
  -- a node of the tree goes, the others stay in order
  pub delete-Built :
      (t : T) (n : ℕ) → Built t → has_node n (inorder (shape t)) ≡ true → Built (tree.delete n t)
  pub delete-inorder :
      (t : T) (n i : ℕ) (before after : List Node)
      → Built t
      → inorder (shape t) ≡ before ++ (n, i) ∷ after
      → inorder (shape (tree.delete n t)) ≡ before ++ after
