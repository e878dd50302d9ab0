-- ===== src/Vm/Quiet.antt =====
-- Instructions that leave the run queue, the wait queues of sleeping processes and the numbers of the
-- processes alone, and the rules for the parts that they are built of.
pub mod Basic
pub mod Files
pub mod Load
pub mod Streams
pub mod Table
pub mod Xfer
use brain_project.Prelude.{
  ℕ, ◌≡◌, ◌≢◌, refl, sym, ap, ◌∙◌, Bool, true, false, if◌then◌else◌, ℤ, pos, minus_one, Option,
  none, some, List, Run, pure, get, ◌>>=◌, ◌>>◌, set, set-field, After, faults, ends, After-bind,
  After-if,
}
use brain_project.Word.{Word}
use brain_project.Proc.{Proc}
use brain_project.Mem.{Memory, get_wordref, release_wordref, fetch_word, store_word}
use brain_project.RbTree.{RbTree}
use brain_project.Os.{Os, cfs}
use brain_project.Vm.Machine.{
  Machine, on_memory, this, set_proc, or_fail, wordref, release, load, store,
}

-- What a quiet instruction keeps.
pub record Kept {T : Type 0} (m m' : Machine (Os T)) : Type 0 where
  pub same_rq : m'.sched.rq ≡ m.sched.rq
  pub same_next : m'.next_pid ≡ m.next_pid
  pub same_sem_wq : m'.sem_wq ≡ m.sem_wq
  pub same_send_wq : m'.send_wq ≡ m.send_wq
  pub same_recv_wq : m'.recv_wq ≡ m.recv_wq
  pub same_pids : (k : ℕ) → (m'.proc_table k).pid ≡ (m.proc_table k).pid

module _ {T : Type 0} where
  pub Kept-refl : (m : Machine (Os T)) → Kept m m
  Kept-refl m = record {
    same_rq = refl;
    same_next = refl;
    same_sem_wq = refl;
    same_send_wq = refl;
    same_recv_wq = refl;
    same_pids = λ k. refl;
  }

  -- A run that keeps what `m0` has, from a machine that has it still.
  abbrev pub Quiet : {A : Type 0} → Machine (Os T) → Option (A × Machine (Os T)) → Type 0
  Quiet m0 r = After (λ _ m'. Kept m0 m') r

module _ {T : Type 0} {m0 : Machine (Os T)} where
  pub Quiet-bind :
      {A B : Type 0} (f : Run (Machine (Os T)) A) (g : A → Run (Machine (Os T)) B)
      (m : Machine (Os T))
      → Quiet m0 (f m)
      → ((a : A) (m' : Machine (Os T)) → Kept m0 m' → Quiet m0 (g a m'))
      → Quiet m0 ((f >>= g) m)
  Quiet-bind = After-bind

  pub Quiet-pure : {A : Type 0} (a : A) (m : Machine (Os T)) → Kept m0 m → Quiet m0 (some (a, m))
  Quiet-pure a m k = ends a m refl k

  pub with_memory :
      (m : Machine (Os T)) → Kept m0 m → (s : Memory) → Kept m0 (record m { memory = s })
  with_memory m k s = record {
    same_rq = k.same_rq;
    same_next = k.same_next;
    same_sem_wq = k.same_sem_wq;
    same_send_wq = k.same_send_wq;
    same_recv_wq = k.same_recv_wq;
    same_pids = k.same_pids;
  }

  pub on_memory-Quiet :
      {A : Type 0} (f : Run Memory A) (m : Machine (Os T)) → Kept m0 m → Quiet m0 (on_memory f m)
  unfolding on_memory
  on_memory-Quiet {A} f m k = by_result (f m.memory) refl
    where
      by_result : (r : Option (A × Memory)) → f m.memory ≡ r → Quiet m0 (on_memory f m)
      by_result none e = faults (rw (on_memory, e) refl)
      by_result (some (a, s)) e =
          ends a (record m { memory = s }) (rw (on_memory, e) refl) (with_memory m k s)

  pub with_proc :
      (i : ℕ) (p : Proc) (m : Machine (Os T))
      → p.pid ≡ (m0.proc_table i).pid
      → Kept m0 m
      → Kept m0 (record m { proc_table = set m.proc_table i p })
  with_proc i p m e k = record {
    same_rq = k.same_rq;
    same_next = k.same_next;
    same_sem_wq = k.same_sem_wq;
    same_send_wq = k.same_send_wq;
    same_recv_wq = k.same_recv_wq;
    same_pids = λ j.
        set-field (λ (q : Proc). q.pid) m.proc_table i p (e ∙ sym (k.same_pids i)) j
        ∙ k.same_pids j;
  }

  pub set_proc-Quiet :
      (i : ℕ) (p : Proc) (m : Machine (Os T))
      → p.pid ≡ (m0.proc_table i).pid
      → Kept m0 m
      → Quiet m0 (set_proc i p m)
  unfolding set_proc
  set_proc-Quiet i p m e k =
      ends tt (record m { proc_table = set m.proc_table i p }) refl (with_proc i p m e k)

  -- An entry is set, and 0 returned.
  pub set_and_return :
      (i : ℕ) (p : Proc) (m : Machine (Os T))
      → p.pid ≡ (m0.proc_table i).pid
      → Kept m0 m
      → Quiet m0 ((set_proc i p >> pure (pos 0)) m)
  set_and_return i p m e k =
      Quiet-bind (set_proc i p) (λ _. pure (pos 0)) m (set_proc-Quiet i p m e k)
        λ _ m' k'. Quiet-pure (pos 0) m' k'

  pub or_fail-Quiet :
      {A : Type 0} (o : Option A) (k : A → Run (Machine (Os T)) ℤ) (m : Machine (Os T))
      → Kept m0 m
      → ((a : A) → Quiet m0 (k a m))
      → Quiet m0 (or_fail o k m)
  unfolding or_fail
  or_fail-Quiet none k m h q = Quiet-pure minus_one m h
  or_fail-Quiet (some a) k m h q = q a

  module _ (tree : RbTree T) (i : ℕ) (addr : ℤ) (m : Machine (Os T)) (k : Kept m0 m) where
    pub wordref-Quiet : Quiet m0 (wordref (cfs tree) i addr m)
    unfolding wordref
    wordref-Quiet = on_memory-Quiet (get_wordref m.sched.rq.ops (m.proc_table i) addr) m k

    pub release-Quiet : Quiet m0 (release (cfs tree) i addr m)
    unfolding release
    release-Quiet = on_memory-Quiet (release_wordref (m.proc_table i) addr) m k

    pub load-Quiet : Quiet m0 (load (cfs tree) i addr m)
    unfolding load
    load-Quiet = on_memory-Quiet (fetch_word m.sched.rq.ops (m.proc_table i) addr) m k

    pub store-Quiet : (x : Word) → Quiet m0 (store (cfs tree) i addr x m)
    unfolding store
    store-Quiet x = on_memory-Quiet (store_word m.sched.rq.ops (m.proc_table i) addr x) m k
