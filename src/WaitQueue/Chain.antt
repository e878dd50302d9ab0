-- ===== src/WaitQueue/Chain.antt =====
-- The nodes of a wait queue in order, and the insertion of one (insert_proc of wait_queue.c).
use brain_project.Prelude.{
  ℕ, ◌≡◌, ◌≢◌, ◌==◌, refl, arith, ap, sym, subst, ◌∙◌, Bool, true, false, ◌||◌, pos, Option, none,
  some, List, [], ◌∷◌, ◌++◌, set, set_self, set_ne,
}
use brain_project.WaitQueue.{Plist, Heap, Wq, insert_plist}
use brain_project.Vm.Machine.{insert_back}

-- The address and the process of each node.
abbrev pub Cells : Type 0
Cells = List (ℕ × ℕ)

-- From a pointer on, the heap has these nodes, up to NULL.
abbrev pub Chain : Heap → Option ℕ → Cells → Type 0
Chain h ptr [] = ptr ≡ none
Chain h ptr ((a, p) ∷ l) =
    (ptr ≡ some a)
    × (next : Option ℕ) × (h a ≡ some (record { p = p; next = next }))
    × Chain h next l

unfoldable pub has : ℕ → Cells → Bool
has a [] = false
has a ((b, _) ∷ l) = (b == a) || has a l

abbrev pub Apart : Cells → Type 0
Apart [] = Unit {0}
Apart ((a, _) ∷ l) = (has a l ≡ false) × Apart l

unfoldable pub last_from : ℕ → Cells → ℕ
last_from a [] = a
last_from a ((b, _) ∷ l) = last_from b l

-- The tail is the last node, where there is one.
abbrev pub Ends : Option ℕ → Cells → Type 0
Ends t [] = Unit {0}
Ends t ((a, _) ∷ l) = t ≡ some (last_from a l)

-- The queue has these nodes, at different addresses that are not that of `root`.
pub record Queue (root : ℕ) (s : Wq) (l : Cells) : Type 0 where
  pub chain : Chain s.heap s.head l
  pub apart : Apart l
  pub ends : Ends s.tail l
  pub no_root : has root l ≡ false

-- The processes of the nodes.
unfoldable pub procs : Cells → List ℕ
procs [] = []
procs ((_, p) ∷ l) = p ∷ procs l

-- What is written outside a chain leaves it.
pub Chain-set :
    (h : Heap) (x : ℕ) (v : Option Plist) (ptr : Option ℕ) (l : Cells)
    → has x l ≡ false
    → Chain h ptr l
    → Chain (set h x v) ptr l
unfolding has
Chain-set h x v ptr [] e c = c
Chain-set h x v ptr ((a, p) ∷ l) e (start, next, node, c) = (
  start,
  next,
  set_ne h x a v (λ same. absurd (ground (arith, same, e))) ∙ node,
  Chain-set h x v next l (ground arith) c,
)

pub last_in : (a q : ℕ) (l : Cells) → has (last_from a l) ((a, q) ∷ l) ≡ true
unfolding has last_from
last_in a q [] = ground arith
last_in a q ((b, r) ∷ l) = ground (arith, last_in b r l)

pub not_last : (x a q : ℕ) (l : Cells) → has x ((a, q) ∷ l) ≡ false → last_from a l ≢ x
not_last x a q l e same =
    absurd (cc (last_in a q l, subst (λ y. has y ((a, q) ∷ l) ≡ false) (sym same) e))

-- The last node has no next one.
pub last_node :
    (h : Heap) (ptr : Option ℕ) (a q : ℕ) (l : Cells)
    → Chain h ptr ((a, q) ∷ l)
    → (r : ℕ) × (h (last_from a l) ≡ some (record { p = r; next = none }))
unfolding last_from
last_node h ptr a q [] (start, next, node, c) =
    (q, node ∙ ap (λ (t : Option ℕ). some (record { p = q; next = t })) c)
last_node h ptr a q ((b, r) ∷ l) (start, next, node, c) = last_node h next b r l c

unfoldable pub process_of : Option Plist → ℕ
process_of none = 0
process_of (some n) = n.p

-- A new node behind the last one.
Chain-append :
    (h : Heap) (x p : ℕ) (ptr : Option ℕ) (a q : ℕ) (l : Cells) (r : ℕ)
    → Chain h ptr ((a, q) ∷ l)
    → Apart ((a, q) ∷ l)
    → has x ((a, q) ∷ l) ≡ false
    → h (last_from a l) ≡ some (record { p = r; next = none })
    → h x ≡ some (record { p = p; next = none })
    → Chain
        (set h (last_from a l) (some (record { p = r; next = some x })))
        ptr
        ((a, q) ∷ (l ++ (x, p) ∷ []))
unfolding has last_from process_of
Chain-append h x p ptr a q [] r (start, next, node, c) d e f g = (
  start,
  some x,
  set_self h a (some (record { p = r; next = some x }))
      ∙ ap (λ (t : ℕ). some (record { p = t; next = some x })) (ap process_of (sym f ∙ node)),
  (refl, none, set_ne h a x _ (λ same. absurd (ground (arith, same, e))) ∙ g, refl),
)
Chain-append h x p ptr a q ((b, t) ∷ l) r (start, next, node, c) (d, ds) e f g = (
  start,
  next,
  set_ne h (last_from b l) a _ (not_last a b t l d) ∙ node,
  Chain-append h x p next b t l r c ds (ground arith) f g,
)

pub has-append : (x : ℕ) (k l : Cells) → has x (k ++ l) ≡ (has x k || has x l)
unfolding has
has-append x [] l = refl
has-append x ((a, q) ∷ k) l = ground (arith, has-append x k l)

Apart-append : (x p : ℕ) (l : Cells) → Apart l → has x l ≡ false → Apart (l ++ (x, p) ∷ [])
unfolding has
Apart-append x p [] d e = (refl, tt)
Apart-append x p ((a, q) ∷ l) (out, d) e =
    (ground (arith, has-append a l ((x, p) ∷ []), out, e), Apart-append x p l d (ground arith))

last_from-append : (b x p : ℕ) (l : Cells) → last_from b (l ++ (x, p) ∷ []) ≡ x
unfolding last_from
last_from-append b x p [] = refl
last_from-append b x p ((a, q) ∷ l) = last_from-append a x p l

procs-append : (x p : ℕ) (l : Cells) → procs (l ++ (x, p) ∷ []) ≡ insert_back p (procs l)
unfolding procs insert_back
procs-append x p [] = refl
procs-append x p ((a, q) ∷ l) = ap (λ (k : List ℕ). q ∷ k) (procs-append x p l)

-- What a call leaves: a queue of the processes `k`, and every other part of the heap as it was.
pub record Changed (root : ℕ) (s : Wq) (l : Cells) (k : List ℕ) (s' : Wq) : Type 0 where
  pub cells : Cells
  pub queue : Queue root s' cells
  pub processes : procs cells ≡ k
  pub frame : (x : ℕ) → x ≢ root → has x l ≡ false → has x cells ≡ false → s'.heap x ≡ s.heap x

-- insert_proc with a fresh node from malloc, on a queue that stands in memory: it returns 0, the
-- processes of the queue are then those that the list model of insert_proc has, and the rest of the
-- heap stays.
pub insert_plist-insert_back :
    (root : ℕ) (s : Wq) (l : Cells) (a p : ℕ)
    → Queue root s l
    → has a l ≡ false
    → a ≢ root
    → (s' : Wq) × (insert_plist (some a) p s ≡ some (pos 0, s'))
      × Changed root s l (insert_back p (procs l)) s'
unfolding insert_plist procs insert_back has last_from
insert_plist-insert_back root s [] a p v out ne =
    let fresh : Plist = record { p = p; next = none } in
    (
      record { heap = set s.heap a (some fresh); head = some a; tail = some a },
      rw (v.chain) refl,
      record {
        cells = (a, p) ∷ [];
        queue = record {
          chain = (refl, none, set_self s.heap a (some fresh), refl);
          apart = (refl, tt);
          ends = refl;
          no_root = ground (arith, ne);
        };
        processes = refl;
        frame =
            λ x _ _ e. set_ne s.heap a x (some fresh) (λ same. absurd (ground (arith, same, e)));
      },
    )
insert_plist-insert_back root s ((b, q) ∷ l) a p v out ne =
    let fresh : Plist = record { p = p; next = none } in
    let h = set s.heap a (some fresh) in
    let (r, node) = last_node s.heap s.head b q l v.chain in
    let away =
      set_ne s.heap a (last_from b l) (some fresh) (λ same. not_last a b q l out (sym same)) in
    let start : s.head ≡ some b = v.chain.0 in
    let ends : s.tail ≡ some (last_from b l) = v.ends in
    (
      record {
        heap = set h (last_from b l) (some (record { p = r; next = some a }));
        head = s.head;
        tail = some a;
      },
      rw (start, ends, away ∙ node) refl,
      record {
        cells = (b, q) ∷ (l ++ (a, p) ∷ []);
        queue = record {
          chain =
              Chain-append h a p s.head b q l r
                (Chain-set s.heap a (some fresh) s.head ((b, q) ∷ l) out v.chain) v.apart out
                (away ∙ node) (set_self s.heap a (some fresh));
          apart = Apart-append a p ((b, q) ∷ l) v.apart out;
          ends = ap some (sym (last_from-append b a p l));
          no_root = ground (arith, has-append root l ((a, p) ∷ []), v.no_root, ne);
        };
        processes = procs-append a p ((b, q) ∷ l);
        frame = λ x _ e f.
            set_ne h (last_from b l) x (some (record { p = r; next = some a })) (not_last x b q l e)
            ∙ set_ne s.heap a x (some fresh)
                (λ same. absurd (ground (arith, same, f, has-append x l ((a, p) ∷ []))));
      },
    )
