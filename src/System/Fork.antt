-- ===== src/System/Fork.antt =====
-- The start of a process (vm/fork.c) and the places of the processes.
use brain_project.Prelude.{
  ℕ, suc, true, ap, Bool-cases, inl, inr, After-≡, After-step, ◌<◌, ◌≡◌, refl, sym, subst, ◌∙◌,
  arith, if◌then◌else◌, ℤ, pos, minus_one, is_neg, to_unsigned, add_ℕ, Option, none, some, set, Run,
  pure, ◌>>=◌, bind_some, After, faults, ends, After-bind,
}
use brain_project.Word.{word2int, int2word}
use brain_project.RbTree.{RbTree, RbTreeLaws}
use brain_project.Os.{Os, cfs}
use brain_project.Vm.Machine.{Machine, on_memory, on_sched, procalloc, set_proc}
use brain_project.Mem.{dup_mem}
use brain_project.Vm.Control.{inherit, fork_into, fork_proc}
use brain_project.Vm.Quiet.{Kept, Kept-refl, with_proc, on_memory-Quiet}
use brain_project.System.{off, ready, Places, Sys, Kept-Sys}
use brain_project.System.Alloc.{Allocated, no_room, entry, procalloc_lem}
use brain_project.System.Start.{start_lem}

module _ {T : Type 0} {tree : RbTree T} (laws : RbTreeLaws tree) where
  -- The child starts: its time is reset, and it enters the run queue.
  abbrev start : ℕ → Run (Machine (Os T)) ℤ
  start pid = on_sched ((cfs tree).reset pid) >>= λ _.
      on_sched ((cfs tree).resume pid) >>= λ _. pure (pos 0)

  -- What a fork leaves behind, in the machine `m`: the next entry is ready; or there is no limit
  -- register to go by; or the memory could not be copied.
  pub data Forked (i : ℕ) (m : Machine (Os T)) (p : Places) : ℤ → Machine (Os T) → Type 0 where
    started :
        {m' : Machine (Os T)}
        → p m.next_pid ≡ off
        → m'.next_pid ≡ suc m.next_pid
        → Sys laws m' (set p m.next_pid ready)
        → Forked i m p (pos 0) m'
    refused : is_neg (word2int (m.proc_table i).lr) ≡ true → Sys laws m p → Forked i m p (pos 1) m
    not_copied :
        (m1 : Machine (Os T)) {m' : Machine (Os T)} {r : ℤ}
        → on_memory (dup_mem m1.sched.rq.ops (m1.proc_table i) (m1.proc_table m.next_pid)) m1
          ≡ some (r, m')
        → is_neg r ≡ true
        → m'.next_pid ≡ suc m.next_pid
        → Sys laws m' p
        → Forked i m p minus_one m'

  module _ (m0 : Machine (Os T)) {m : Machine (Os T)} {p : Places} (v : Sys laws m p) (i j : ℕ)
      (newest : j ≡ m0.next_pid) (one_more : m.next_pid ≡ suc m0.next_pid) where
    -- The memory is copied, and the child starts.
    copy_and_start : ℕ → Run (Machine (Os T)) ℤ
    copy_and_start pid = λ m1.
        (on_memory (dup_mem m1.sched.rq.ops (m1.proc_table i) (m1.proc_table j)) >>= λ copied.
        if is_neg copied then pure minus_one else start pid)
          m1

    copied_lem :
        (m1 : Machine (Os T)) (pid : ℕ)
        → Kept m m1
        → j < m.next_pid
        → p j ≡ off
        → pid ≡ j
        → After (Forked i m0 p) (copy_and_start pid m1)
    unfolding copy_and_start
    copied_lem m1 pid k h away e =
        After-step (on_memory (dup_mem m1.sched.rq.ops (m1.proc_table i) (m1.proc_table j)))
          (λ copied. if is_neg copied then pure minus_one else start pid) m1
          (on_memory-Quiet (dup_mem m1.sched.rq.ops (m1.proc_table i) (m1.proc_table j)) m1 k)
          λ copied m2 ran k2.
            let v2 = Kept-Sys laws v k2 in
            let next2 = k2.same_next ∙ one_more in
            elim (Bool-cases (is_neg copied)) [
              | inl f ↦ ends minus_one m2 (rw f refl) (
                  not_copied m1
                    (subst
                      (λ c.
                        on_memory (dup_mem m1.sched.rq.ops (m1.proc_table i) (m1.proc_table c)) m1
                        ≡ some (copied, m2))
                      newest ran)
                    f next2 v2)
              | inr f ↦
                  let (m3, m4, run, run', next, v4) =
                    start_lem laws v2 j pid (subst (λ n. j < n) (sym k2.same_next) h) away e in
                  ends (pos 0) m4
                    (rw f (
                      bind_some (on_sched ((cfs tree).reset pid)) _ m2 run
                      ∙ bind_some (on_sched ((cfs tree).resume pid)) _ m3 run'))
                    (started (ap p (sym newest) ∙ away) (next ∙ next2)
                      (subst (λ c. Sys laws m4 (set p c ready)) newest v4))
            ]

    fork_into_lem :
        j < m.next_pid → p j ≡ off → After (Forked i m0 p) (fork_into (cfs tree) i (some j) m)
    unfolding fork_into copy_and_start
    fork_into_lem h away =
        let x = record (m.proc_table i) { r = int2word (pos (m.proc_table j).pid) } in
        let ma = record m { proc_table = set m.proc_table i x } in
        let ka = with_proc i x m refl (Kept-refl m) in
        let y = record (ma.proc_table j) { r = int2word (pos (m.proc_table i).pid) } in
        let mb = record ma { proc_table = set ma.proc_table j y } in
        let kb = with_proc j y ma (ka.same_pids j) ka in
        let z = inherit (cfs tree) (mb.proc_table i) (mb.proc_table j) in
        let mc = record mb { proc_table = set mb.proc_table j z } in
        copied_lem mc (m.proc_table j).pid (with_proc j z mb (kb.same_pids j) kb) h away
          (v.pids j h)

  fork_none :
      (m0 m : Machine (Os T)) (p : Places) (i : ℕ)
      → After (Forked i m0 p) (fork_into (cfs tree) i none m)
  unfolding fork_into set_proc
  fork_none m0 m p i = faults refl

  -- fork_proc ends in one of these ways, or faults where there is no entry for the child.
  pub fork_proc_lem :
      {m : Machine (Os T)} {p : Places}
      → Sys laws m p
      → (i : ℕ) (addr : ℤ) → After (Forked i m p) (fork_proc (cfs tree) i addr m)
  unfolding fork_proc
  fork_proc_lem {m} {p} v i addr =
      let procsize = word2int (m.proc_table i).lr in
      elim (Bool-cases (is_neg procsize)) [
        | inl f ↦ ends (pos 1) m (rw f refl) (refused f v)
        | inr f ↦ After-≡ (rw f refl) (
            After-bind (procalloc (to_unsigned (add_ℕ procsize 1))) (fork_into (cfs tree) i) m
              (procalloc_lem laws v (to_unsigned (add_ℕ procsize 1)))
              λ newp m1 a. by_entry newp m1 a)
      ]
    where
      by_entry :
          (newp : Option ℕ) (m1 : Machine (Os T))
          → Allocated laws m p newp m1
          → After (Forked i m p) (fork_into (cfs tree) i newp m1)
      by_entry none m1 (no_room _ v1) = fork_none m m1 p i
      by_entry (some j) m1 (entry j' e f v1) =
          fork_into_lem m v1 i j e (f ∙ ap (λ (n : ℕ). suc n) e) (omega (arith, f))
            (v.later j (omega (arith, e)))
