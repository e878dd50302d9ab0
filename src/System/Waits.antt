-- ===== src/System/Waits.antt =====
-- Processes that join a wait queue and leave it (vm/sem.c, vm/msg.c).
use brain_project.Prelude.{
  ℕ, ◌+◌, ◌≡◌, refl, ap, subst, ◌∙◌, arith, Bool, true, false, ◌==◌, if◌then◌else◌, List, set,
  Bool-cases, inl, inr, ==_iff,
}
use brain_project.Vm.Machine.{Machine, insert_back, remove_first}
use brain_project.Vm.Sem.{set_sem_wq}
use brain_project.Vm.Msg.{set_send_wq, set_recv_wq}
use brain_project.System.{
  Queue, semaphore, sending, receiving, Place, off, ready, at, is_ready, same_queue, is_at, waiting,
  Places, Waiting,
}
use brain_project.System.Queues.{count, count-insert_back, count-remove_first}

pub same_queue-≡ : (q r : Queue) → same_queue q r ≡ true → q ≡ r
unfolding same_queue
same_queue-≡ (semaphore a) (semaphore b) e = ap semaphore ((==_iff a b).0 e)
same_queue-≡ (sending a) (sending b) e = ap sending ((==_iff a b).0 e)
same_queue-≡ (receiving a) (receiving b) e = ap receiving ((==_iff a b).0 e)
same_queue-≡ (semaphore a) (sending b) e = cc
same_queue-≡ (semaphore a) (receiving b) e = cc
same_queue-≡ (sending a) (semaphore b) e = cc
same_queue-≡ (sending a) (receiving b) e = cc
same_queue-≡ (receiving a) (semaphore b) e = cc
same_queue-≡ (receiving a) (sending b) e = cc

pub same_queue_refl : (q : Queue) → same_queue q q ≡ true
unfolding same_queue
same_queue_refl (semaphore a) = ground arith
same_queue_refl (sending a) = ground arith
same_queue_refl (receiving a) = ground arith

same_queue-sym : (q r : Queue) → same_queue q r ≡ same_queue r q
unfolding same_queue
same_queue-sym (semaphore a) (semaphore b) = ground arith
same_queue-sym (sending a) (sending b) = ground arith
same_queue-sym (receiving a) (receiving b) = ground arith
same_queue-sym (semaphore a) (sending b) = refl
same_queue-sym (semaphore a) (receiving b) = refl
same_queue-sym (sending a) (semaphore b) = refl
same_queue-sym (sending a) (receiving b) = refl
same_queue-sym (receiving a) (semaphore b) = refl
same_queue-sym (receiving a) (sending b) = refl

-- A place that is in no queue.
abbrev pub Free : Place → Type 0
Free x = (q : Queue) → is_at q x ≡ false

pub ready-Free : Free ready
unfolding is_at
ready-Free q = refl

pub off-Free : Free off
unfolding is_at
off-Free q = refl

-- A process that is ready is in no queue.
pub is_ready-Free : (x : Place) → is_ready x ≡ true → Free x
unfolding is_ready is_at
is_ready-Free off e = cc
is_ready-Free ready e = λ q. refl
is_ready-Free (at q) e = cc

pub is_ready-set :
    (p : Places) (i k : ℕ) (x : Place)
    → is_ready (set p i x k) ≡ (if i == k then is_ready x else is_ready (p k))
unfolding set
is_ready-set p i k x = ground arith

is_at-set :
    (p : Places) (i k : ℕ) (x : Place) (q : Queue)
    → is_at q (set p i x k) ≡ (if i == k then is_at q x else is_at q (p k))
unfolding set
is_at-set p i k x q = ground arith

-- One queue of the machine is replaced.
unfoldable pub put_queue : {S : Type 0} → Queue → List ℕ → Machine S → Machine S
put_queue (semaphore s) l m = set_sem_wq s l m
put_queue (sending d) l m = set_send_wq d l m
put_queue (receiving d) l m = set_recv_wq d l m

module _ {S : Type 0} where
  waiting-put_queue :
      (q r : Queue) (l : List ℕ) (m : Machine S)
      → waiting (put_queue q l m) r ≡ (if same_queue q r then l else waiting m r)
  unfolding put_queue same_queue set
  waiting-put_queue (semaphore a) (semaphore b) l m = refl
  waiting-put_queue (sending a) (sending b) l m = refl
  waiting-put_queue (receiving a) (receiving b) l m = refl
  waiting-put_queue (semaphore a) (sending b) l m = refl
  waiting-put_queue (semaphore a) (receiving b) l m = refl
  waiting-put_queue (sending a) (semaphore b) l m = refl
  waiting-put_queue (sending a) (receiving b) l m = refl
  waiting-put_queue (receiving a) (semaphore b) l m = refl
  waiting-put_queue (receiving a) (sending b) l m = refl

  count-put_queue :
      (q r : Queue) (k : ℕ) (l : List ℕ) (m : Machine S)
      → count k (waiting (put_queue q l m) r)
        ≡ (if same_queue q r then count k l else count k (waiting m r))
  count-put_queue q r k l m = elim (Bool-cases (same_queue q r)) [
    | inl e ↦ ap (count k) (waiting-put_queue q r l m) ∙ rw e refl
    | inr e ↦ ap (count k) (waiting-put_queue q r l m) ∙ rw e refl
  ]

  module _ (m : Machine S) (p : Places) (w : Waiting m p) (i : ℕ) where
    -- What holds of the process, where it is the process `k`.
    own : (r : Queue) (b : Bool) (k : ℕ) → is_at r (p i) ≡ b → (i == k) ≡ true → is_at r (p k) ≡ b
    own r b k f e = subst (λ j. is_at r (p j) ≡ b) ((==_iff i k).0 e) f

    -- The process was in no queue, and is in none.
    pub stay-Waiting : (x : Place) → Free (p i) → Free x → Waiting m (set p i x)
    stay-Waiting x f g q k = elim (Bool-cases (i == k)) [
      | inl e ↦ ground (arith, w q k, is_at-set p i k x q, own q false k (f q) e, g q, e)
      | inr e ↦ ground (arith, w q k, is_at-set p i k x q, e)
    ]

    same_count :
        (q r : Queue) (k : ℕ)
        → same_queue q r ≡ true
        → count k (waiting m q) ≡ count k (waiting m r)
    same_count q r k e = ap (λ t. count k (waiting m t)) (same_queue-≡ q r e)

    -- The process enters a queue.
    pub join-Waiting :
        (q : Queue)
        → Free (p i)
        → Waiting (put_queue q (insert_back i (waiting m q)) m) (set p i (at q))
    unfolding is_at
    join-Waiting q f r k =
        let l = insert_back i (waiting m q) in
        let places = is_at-set p i k (at q) r in
        let swap = same_queue-sym q r in
        count-put_queue q r k l m ∙ elim (Bool-cases (same_queue q r)) [
          | inl e ↦
              let more =
                count-insert_back k i (waiting m q)
                ∙ ap (λ (n : ℕ). n + (if i == k then 1 else 0)) (same_count q r k e) in
              elim (Bool-cases (i == k)) [
                | inl g ↦ ground (arith, more, w r k, places, own r false k (f r) g, swap, e, g)
                | inr g ↦ ground (arith, more, w r k, places, e, g)
              ]
          | inr e ↦ elim (Bool-cases (i == k)) [
            | inl g ↦ ground (arith, w r k, places, own r false k (f r) g, swap, e, g)
            | inr g ↦ ground (arith, w r k, places, e, g)
          ]
        ]

    -- The process leaves the queue that it is in.
    pub leave-Waiting :
        (q : Queue) (x : Place)
        → p i ≡ at q
        → Free x
        → Waiting (put_queue q (remove_first i (waiting m q)) m) (set p i x)
    unfolding is_at
    leave-Waiting q x here f r k =
        let l = remove_first i (waiting m q) in
        let places = is_at-set p i k x r in
        let was : is_at r (p i) ≡ same_queue q r = ap (is_at r) here ∙ same_queue-sym r q in
        count-put_queue q r k l m ∙ elim (Bool-cases (same_queue q r)) [
          | inl e ↦
              let present : count i (waiting m q) ≡ 1 =
                same_count q r i e ∙ ground (arith, w r i, was, e) in
              let less =
                count-remove_first k i (waiting m q) (omega (arith, present))
                ∙ same_count q r k e in
              elim (Bool-cases (i == k)) [
                | inl g ↦ ground (arith, less, w r k, places, own r true k (was ∙ e) g, f r, e, g)
                | inr g ↦ ground (arith, less, w r k, places, e, g)
              ]
          | inr e ↦ elim (Bool-cases (i == k)) [
            | inl g ↦ ground (arith, w r k, places, own r false k (was ∙ e) g, f r, e, g)
            | inr g ↦ ground (arith, w r k, places, e, g)
          ]
        ]
