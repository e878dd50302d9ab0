-- ===== src/System/Leave.antt =====
-- A process that leaves a wait queue and is resumed (vm/sem.c, vm/msg.c).
use brain_project.Prelude.{ℕ, ◌<◌, ◌≤◌, ◌≡◌, sym, ap, subst, arith, true, false, pos, some, set}
use brain_project.RbTree.{RbTree, RbTreeLaws}
use brain_project.Layout.{procs}
use brain_project.Sched.{Rq, sched_resume}
use brain_project.Os.{Os}
use brain_project.Vm.Machine.{Machine, remove_first}
use brain_project.System.{
  Queue, receiving, same_queue, is_at, Place, off, ready, at, is_ready, waiting, Places, Waiting,
  Sys,
}
use brain_project.System.Waits.{ready-Free, leave-Waiting, put_queue, same_queue-≡}
use brain_project.System.Queues.{count}
use brain_project.System.Calls.{with_rq, resume-Ready, known, known-below}
use brain_project.System.Enter.{later-set, put_Sys}

-- The process at the head of a queue stands there.
is_at-≡ : (q : Queue) (x : Place) → is_at q x ≡ true → x ≡ at q
unfolding is_at
is_at-≡ q off e = cc
is_at-≡ q ready e = cc
is_at-≡ q (at r) e = ap at (sym (same_queue-≡ q r e))

pub head-at :
    {S : Type 0} (m : Machine S) (p : Places) (q : Queue) (w : ℕ)
    → Waiting m p
    → 1 ≤ count w (waiting m q)
    → p w ≡ at q
head-at m p q w v h = is_at-≡ q (p w) (ground (arith, v q w, h))

module _ {T : Type 0} {tree : RbTree T} (laws : RbTreeLaws tree) {m : Machine (Os T)} {p : Places}
    (v : Sys laws m p) (w : ℕ) (q : Queue) (here : p w ≡ at q) where
  w_known : w < m.next_pid
  w_known = known laws v w (λ e. cc)

  pub waiter_pid : (m.proc_table w).pid ≡ w
  waiter_pid = v.pids w w_known

  -- As `sem_up` and `recv` do it.
  pub resume_and_leave :
      (pid : ℕ)
      → same_queue q (receiving procs) ≡ false
      → pid ≡ w
      → (s' : Rq T) × (sched_resume tree pid m.sched.rq ≡ some (pos 0, s'))
        × Sys laws (put_queue q (remove_first w (waiting m q)) (with_rq m s')) (set p w ready)
  unfolding is_ready
  resume_and_leave pid not_any e =
      let cannot : is_ready (p w) ≡ false = ap is_ready here in
      let (s', run, r) = resume-Ready laws v.scheduled w (known-below laws v w w_known) cannot in
      (
        s',
        subst (λ j. sched_resume tree j m.sched.rq ≡ some (pos 0, s')) (sym e) run,
        put_Sys laws (with_rq m s') (set p w ready) q _ not_any v.nobody_any v.few v.pids
            (later-set m.next_pid w p ready w_known v.later) r
            (leave-Waiting (with_rq m s') p v.waits w q ready here ready-Free),
      )
