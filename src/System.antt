-- ===== src/System.antt =====
-- The processes of the whole machine: where each of them stands, as the run queue (sched.c) and the
-- wait queues (vm/sem.c, vm/msg.c) have it.
pub mod Alloc
pub mod Boot
pub mod Calls
pub mod Enter
pub mod Halt
pub mod Find
pub mod Fork
pub mod Init
pub mod Leave
pub mod Life
pub mod Loop
pub mod Parts
pub mod Programs
pub mod Queues
pub mod Down
pub mod Recv
pub mod Send
pub mod Start
pub mod Ticks
pub mod Up
pub mod Waits
mod Tests
mod LoopTests
mod BootTests
use brain_project.Prelude.{
  ℕ, ◌+◌, ◌≤◌, ◌<◌, ◌≡◌, refl, sym, ap, subst, ◌∙◌, arith, Bool, true, false, ◌==◌, if◌then◌else◌,
  List, [], ◌∷◌,
}
use brain_project.Layout.{procs}
use brain_project.RbTree.{RbTree, RbTreeLaws}
use brain_project.Sched.{Rq}
use brain_project.Sched.Inv.{Inv, runnable}
use brain_project.Os.{Os}
use brain_project.Vm.Machine.{Machine}
use brain_project.Vm.Quiet.{Kept}
use brain_project.System.Queues.{count}

-- The wait queues: for a semaphore, for the delivery of a message to a process, and for a message
-- from one, where PROCS stands for any.
pub data Queue : Type 0 where
  semaphore sending receiving : ℕ → Queue

-- A process that is off is not forked yet, halted, or was left in no queue.
pub data Place : Type 0 where
  off ready : Place
  at : Queue → Place

unfoldable pub is_ready : Place → Bool
is_ready off = false
is_ready ready = true
is_ready (at _) = false

unfoldable pub same_queue : Queue → Queue → Bool
same_queue (semaphore a) (semaphore b) = a == b
same_queue (sending a) (sending b) = a == b
same_queue (receiving a) (receiving b) = a == b
same_queue _ _ = false

unfoldable pub is_at : Queue → Place → Bool
is_at q off = false
is_at q ready = false
is_at q (at q') = same_queue q q'

abbrev pub waiting : {S : Type 0} → Machine S → Queue → List ℕ
waiting m (semaphore s) = m.sem_wq s
waiting m (sending d) = m.send_wq d
waiting m (receiving d) = m.recv_wq d

abbrev pub Places : Type 0
Places = ℕ → Place

module _ {T : Type 0} {tree : RbTree T} (laws : RbTreeLaws tree) where
  -- The run queue is in order, and has the processes that are ready.
  pub record Ready (s : Rq T) (p : Places) : Type 0 where
    pub inv : Inv laws s
    pub runs : (k : ℕ) → runnable s inv.queue k ≡ is_ready (p k)

-- Each process is in the queue at which it stands, once, and in no other.
abbrev pub Waiting : {S : Type 0} → Machine S → Places → Type 0
Waiting m p = (q : Queue) (k : ℕ) → count k (waiting m q) ≡ (if is_at q (p k) then 1 else 0)

module _ {T : Type 0} {tree : RbTree T} (laws : RbTreeLaws tree) where
  pub record Sys (m : Machine (Os T)) (p : Places) : Type 0 where
    pub scheduled : Ready laws m.sched.rq p
    pub waits : Waiting m p
    pub nobody_any : m.recv_wq procs ≡ []
    pub few : m.next_pid ≤ procs
    pub pids : (k : ℕ) → k < m.next_pid → (m.proc_table k).pid ≡ k
    pub later : (k : ℕ) → m.next_pid ≤ k → p k ≡ off

  -- A quiet instruction leaves the processes where they stand.
  pub Kept-Sys : {m m' : Machine (Os T)} {p : Places} → Sys m p → Kept m m' → Sys m' p
  Kept-Sys {m} {m'} {p} v k = record {
    scheduled = subst (λ s. Ready laws s p) (sym k.same_rq) v.scheduled;
    waits = same_waits;
    nobody_any = ap (λ (f : ℕ → List ℕ). f procs) k.same_recv_wq ∙ v.nobody_any;
    few = rw (k.same_next) v.few;
    pids = λ j h. k.same_pids j ∙ v.pids j (subst (λ n. j < n) k.same_next h);
    later = λ j h. v.later j (subst (λ n. n ≤ j) k.same_next h);
  }
    where
      same_waits : Waiting m' p
      same_waits (semaphore s) j =
          ap (λ (f : ℕ → List ℕ). count j (f s)) k.same_sem_wq ∙ v.waits (semaphore s) j
      same_waits (sending d) j =
          ap (λ (f : ℕ → List ℕ). count j (f d)) k.same_send_wq ∙ v.waits (sending d) j
      same_waits (receiving d) j =
          ap (λ (f : ℕ → List ℕ). count j (f d)) k.same_recv_wq ∙ v.waits (receiving d) j
