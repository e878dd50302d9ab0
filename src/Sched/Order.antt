-- ===== src/Sched/Order.antt =====
-- Run queues as lists of nodes in the order of their entries' times.
use brain_project.Prelude.{
  ℕ, zero, suc, subst, ◌<◌, ◌≤◌, ◌≡◌, ◌==◌, ◌||◌, refl, arith, Bool, true, false, ltb, List, [],
  ◌∷◌, ◌++◌, ap, Bool-cases, inl, inr,
}
use brain_project.RbTree.{Node, All}
use brain_project.Sched.Leftmost.{length, All-append}

-- Whether a task is in a queue.
unfoldable pub has_task : ℕ → List Node → Bool
has_task k [] = false
has_task k ((_, i) ∷ q) = (i == k) || has_task k q

-- No task is in the queue twice.
abbrev pub Distinct : List Node → Type 0
Distinct [] = Unit {0}
Distinct ((_, i) ∷ q) = (has_task i q ≡ false) × Distinct q

-- The times `f` do not fall along the queue.
abbrev pub Sorted : (ℕ → ℕ) → List Node → Type 0
Sorted f [] = Unit {0}
Sorted f ((_, i) ∷ q) = All (λ x. f i ≤ f x.1) q × Sorted f q

pub All-mono : (P Q : Node → Type 0) (q : List Node) → ((x : Node) → P x → Q x) → All P q → All Q q
All-mono P Q [] h a = tt
All-mono P Q (x ∷ q) h (a, as') = (h x a, All-mono P Q q h as')

pub All-split-left : (P : Node → Type 0) (q r : List Node) → All P (q ++ r) → All P q
All-split-left P [] r a = tt
All-split-left P (x ∷ q) r (a, as') = (a, All-split-left P q r as')

pub All-split-right : (P : Node → Type 0) (q r : List Node) → All P (q ++ r) → All P r
All-split-right P [] r a = a
All-split-right P (x ∷ q) r (a, as') = All-split-right P q r as'

pub has_task-append :
    (k : ℕ) (q r : List Node) → has_task k (q ++ r) ≡ (has_task k q || has_task k r)
unfolding has_task
has_task-append k [] r = refl
has_task-append k (x ∷ q) r = ground (arith, has_task-append k q r)

-- The place of a new task: behind those that have not run longer.
pub record Place (f : ℕ → ℕ) (k : ℕ) (q : List Node) : Type 0 where
  pub before : List Node
  pub after : List Node
  pub split : q ≡ before ++ after
  pub not_longer : All (λ x. f x.1 ≤ f k) before
  pub longer : All (λ x. f k < f x.1) after

pub place : (f : ℕ → ℕ) (k : ℕ) (q : List Node) → Sorted f q → Place f k q
place f k [] s = record { before = []; after = []; split = refl; not_longer = tt; longer = tt }
place f k ((n, i) ∷ q) (first, s) = elim (Bool-cases (ltb (f k) (f i))) [
  | inl e ↦ record {
    before = [];
    after = (n, i) ∷ q;
    split = refl;
    not_longer = tt;
    longer = (ground arith, All-mono _ _ q (λ x h. ground (arith, h)) first);
  }
  | inr e ↦
      let p = place f k q s in
      record {
        before = (n, i) ∷ p.before;
        after = p.after;
        split = ap (λ (l : List Node). (n, i) ∷ l) p.split;
        not_longer = (ground arith, p.not_longer);
        longer = p.longer;
      }
]

-- A task that is put into its place keeps the order.
pub Sorted-insert :
    (f : ℕ → ℕ) (k n : ℕ) (b a : List Node)
    → Sorted f (b ++ a)
    → All (λ x. f x.1 ≤ f k) b
    → All (λ x. f k < f x.1) a
    → Sorted f (b ++ (n, k) ∷ a)
Sorted-insert f k n [] a s lo hi = (All-mono _ _ a (λ x h. omega (arith, h)) hi, s)
Sorted-insert f k n ((m, i) ∷ b) a (first, s) (l, lo) hi = (
  All-append _ b ((n, k) ∷ a) (All-split-left _ b a first) (l, All-split-right _ b a first),
  Sorted-insert f k n b a s lo hi,
)

pub Sorted-remove :
    (f : ℕ → ℕ) (x : Node) (b a : List Node) → Sorted f (b ++ x ∷ a) → Sorted f (b ++ a)
Sorted-remove f x [] a (first, s) = s
Sorted-remove f x (y ∷ b) a (first, s) = (
  All-append _ b a (All-split-left _ b (x ∷ a) first) (All-split-right _ b (x ∷ a) first).1,
  Sorted-remove f x b a s,
)

pub Distinct-insert :
    (k n : ℕ) (b a : List Node)
    → Distinct (b ++ a)
    → has_task k (b ++ a) ≡ false
    → Distinct (b ++ (n, k) ∷ a)
unfolding has_task
Distinct-insert k n [] a d out = (out, d)
Distinct-insert k n ((m, i) ∷ b) a (e, d) out = (
  ground (arith, has_task-append i b ((n, k) ∷ a), has_task-append i b a, e),
  Distinct-insert k n b a d (ground arith),
)

pub Distinct-remove : (x : Node) (b a : List Node) → Distinct (b ++ x ∷ a) → Distinct (b ++ a)
unfolding has_task
Distinct-remove x [] a (e, d) = d
Distinct-remove x ((m, i) ∷ b) a (e, d) =
    (ground (arith, has_task-append i b (x ∷ a), has_task-append i b a, e), Distinct-remove x b a d)

-- The removed task is in the queue no more.
pub Distinct-out :
    (n k : ℕ) (b a : List Node) → Distinct (b ++ (n, k) ∷ a) → has_task k (b ++ a) ≡ false
unfolding has_task
Distinct-out n k [] a (e, d) = e
Distinct-out n k ((m, i) ∷ b) a (e, d) =
    ground (arith, Distinct-out n k b a d, has_task-append i b ((n, k) ∷ a), e)

-- A task of the queue stands somewhere.
pub find_task :
    (k : ℕ) (q : List Node)
    → has_task k q ≡ true
    → (n : ℕ) × (b : List Node) × (a : List Node) × (q ≡ b ++ (n, k) ∷ a)
unfolding has_task
find_task k [] h = cc
find_task k ((n, i) ∷ q) h = elim (Bool-cases (i == k)) [
  | inl e ↦ (n, [], q, ground arith)
  | inr e ↦
      let (m, b, a, split) = find_task k q (ground arith) in
      (m, (n, i) ∷ b, a, ap (λ (l : List Node). (n, i) ∷ l) split)
]

below_last :
    (n : ℕ) (q : List Node) → All (λ x. x.1 < suc n) q → has_task n q ≡ false → All (λ x. x.1 < n) q
unfolding has_task
below_last n [] a e = tt
below_last n ((m, i) ∷ q) (h, a) e = (ground arith, below_last n q a (ground arith))

pub length-remove : (x : Node) (b a : List Node) → length (b ++ x ∷ a) ≡ suc (length (b ++ a))
unfolding length
length-remove x [] a = refl
length-remove x (y ∷ b) a = ap suc (length-remove x b a)

-- A queue without repetition of tasks below `n` has at most `n` places.
pub length-le : (n : ℕ) (q : List Node) → Distinct q → All (λ x. x.1 < n) q → length q ≤ n
unfolding length
length-le zero [] d a = omega arith
length-le zero (x ∷ q) d (h, a) = absurd (omega arith)
length-le (suc n) q d a = elim (Bool-cases (has_task n q)) [
  | inr e ↦ omega (arith, length-le n q d (below_last n q a e))
  | inl e ↦
      let (m, b, r, split) = find_task n q e in
      let d' = subst Distinct split d in
      let a' = subst (All (λ x. x.1 < suc n)) split a in
      let rest =
        All-append _ b r (All-split-left _ b ((m, n) ∷ r) a')
          (All-split-right _ b ((m, n) ∷ r) a').1 in
      let short =
        length-le n (b ++ r) (Distinct-remove (m, n) b r d')
          (below_last n (b ++ r) rest (Distinct-out m n b r d')) in
      omega (arith, ap length split, length-remove (m, n) b r, short)
]

-- The tasks and the length of a queue with one more task.
pub has_task-insert :
    (k n c : ℕ) (b a : List Node) → has_task k (b ++ (n, c) ∷ a) ≡ ((c == k) || has_task k (b ++ a))
unfolding has_task
has_task-insert k n c b a = ground (arith, has_task-append k b ((n, c) ∷ a), has_task-append k b a)
