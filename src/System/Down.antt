-- ===== src/System/Down.antt =====
-- A down of a semaphore (sem_down of vm/sem.c) and the places of the processes.
use brain_project.Prelude.{
  ℕ, ◌-◌, ◌<◌, ◌≡◌, ◌≢◌, refl, ◌∙◌, arith, true, false, set, ap, sym, is_neg, pred_ℤ, ◌==◌, ltb,
  if◌then◌else◌, ℤ, pos, minus_one, is_zero, some, set_self, Run, pure, ◌>>=◌, bind_some,
  Bool-cases, inl, inr, Returns, Returns-bind, Returns-≡, bind_assoc,
}
use brain_project.RbTree.{RbTree, RbTreeLaws}
use brain_project.Word.{word2int}
use brain_project.Proc.{Proc, ic_word}
use brain_project.Os.{Os, cfs}
use brain_project.Vm.Machine.{Machine, on_sched, retry_op, insert_proc}
use brain_project.Vm.Sem.{set_sem_table, set_sem_wq, sem_p, block, after_p, sem_down}
use brain_project.Vm.Quiet.{Kept-refl}
use brain_project.System.{off, at, semaphore, same_queue, is_ready, Places, Sys, Kept-Sys}
use brain_project.System.Waits.{put_queue}
use brain_project.System.Parts.{answer, Retried, set_back, no_counter, counter, retry_op-Returns}
use brain_project.System.Enter.{Entered, in_queue, left_out, own_pid, suspend_and_queue}

still-counter :
    {S : Type 0} (m m' : Machine S) (i : ℕ)
    → m'.proc_table ≡ m.proc_table
    → counter m' i ≡ counter m i
still-counter m m' i e = ap (λ (f : ℕ → Proc). word2int (ic_word (f i))) e

module _ {T : Type 0} {tree : RbTree T} (laws : RbTreeLaws tree) (i sem : ℕ) {m : Machine (Os T)}
    {p : Places} (v : Sys laws m p) (now : is_ready (p i) ≡ true) where
  -- What becomes of a process that has to wait: where it has a counter, that is set back by one, and
  -- the process waits, or is in no queue where malloc has no room; without a counter, nothing.
  pub data Blocked : ℤ → Machine (Os T) → Type 0 where
    in_line :
        {m' : Machine (Os T)}
        → counter m' i ≡ pred_ℤ (counter m i)
        → is_neg (counter m i) ≡ false
        → m.memory.mallocs m.memory.malloc_calls ≡ true
        → Sys laws m' (set p i (at (semaphore sem)))
        → Blocked (pos 0) m'
    dropped :
        {m' : Machine (Os T)}
        → counter m' i ≡ pred_ℤ (counter m i)
        → is_neg (counter m i) ≡ false
        → m.memory.mallocs m.memory.malloc_calls ≡ false
        → Sys laws m' (set p i off)
        → Blocked (pos 1) m'
    no_retry :
        {m' : Machine (Os T)} → is_neg (counter m i) ≡ true → Sys laws m' p → Blocked (pos 1) m'

  -- The end of `block`.
  abbrev answered : ℤ → Run (Machine (Os T)) ℤ
  answered queued = if is_zero queued then pure (pos 0) else pure (pos 1)

  answered-Blocked :
      {m1 : Machine (Os T)} {r : ℤ} {m' : Machine (Os T)}
      → is_neg (counter m i) ≡ false
      → counter m1 i ≡ pred_ℤ (counter m i)
      → m1.memory ≡ m.memory
      → Entered laws m1 p i (semaphore sem) r m'
      → Returns Blocked (answered r m')
  answered-Blocked {m1} {r} {m'} has back same (in_queue f e x) =
      (pos 0, _, refl, in_line (still-counter m1 m' i e ∙ back) has (ap answer (sym same) ∙ f) x)
  answered-Blocked {m1} {r} {m'} has back same (left_out f e x) =
      (pos 1, _, refl, dropped (still-counter m1 m' i e ∙ back) has (ap answer (sym same) ∙ f) x)

  -- The process is suspended and queued, behind retry_op.
  retried_lem :
      (r : ℤ) (m1 : Machine (Os T))
      → Sys laws m1 p
      → Retried i m r m1
      → Returns Blocked (
          (if is_zero r
              then (on_sched ((cfs tree).suspend (m.proc_table i).pid) >>= λ _.
                  (insert_proc (set_sem_wq sem) (λ m'. m'.sem_wq sem) i >>= answered))
              else pure (pos 1))
            m1)
  unfolding put_queue same_queue
  retried_lem _ m1 v1 (no_counter e) = (pos 1, m1, refl, no_retry e v1)
  retried_lem _ m1 v1 (set_back has back same) =
      let pid = (m.proc_table i).pid in
      let enter = insert_proc (set_sem_wq sem) (λ m'. m'.sem_wq sem) i in
      let suspend = on_sched ((cfs tree).suspend pid) in
      Returns-≡ (bind_assoc suspend (λ _. enter) answered m1) (
        Returns-bind (suspend >>= λ _. enter) answered m1
          (suspend_and_queue laws v1 i now (semaphore sem) pid refl (own_pid laws v i now))
          λ queued m2 e. answered-Blocked has back same e)

  block_lem : Returns Blocked (block (cfs tree) i sem m)
  unfolding block
  block_lem =
      Returns-bind (retry_op i) _ m (retry_op-Returns i m (Kept-refl m))
        λ retried m1 x. retried_lem retried m1 (Kept-Sys laws v x.0) x.1

  -- What a down leaves behind.
  pub data Downed : ℤ → Machine (Os T) → Type 0 where
    no_semaphore : {m' : Machine (Os T)} → 99 < sem → Sys laws m' p → Downed (pos 1) m'
    taken :
        {m' : Machine (Os T)}
        → m.sem_table sem ≢ 0
        → m'.sem_table sem ≡ m.sem_table sem - 1
        → Sys laws m' p
        → Downed (pos 0) m'
    blocked : {r : ℤ} {m' : Machine (Os T)} → m.sem_table sem ≡ 0 → Blocked r m' → Downed r m'

  -- The machine with the semaphore's value taken down.
  abbrev lowered : Machine (Os T)
  lowered = set_sem_table sem (m.sem_table sem - 1) m

  lowered-Sys : Sys laws lowered p
  lowered-Sys = record {
    scheduled = v.scheduled;
    waits = v.waits;
    nobody_any = v.nobody_any;
    few = v.few;
    pids = v.pids;
    later = v.later;
  }

  -- The rest of sem_down, behind sem_p.
  after :
      (r : ℤ) (m' : Machine (Os T))
      → sem_p sem m ≡ some (r, m')
      → sem_down (cfs tree) i (pos sem) m ≡ after_p (cfs tree) i sem r m'
  unfolding sem_down
  after r m' run = bind_some (sem_p sem) (after_p (cfs tree) i sem) m run

  pub sem_down_lem : Returns Downed (sem_down (cfs tree) i (pos sem) m)
  unfolding sem_p after_p
  sem_down_lem = elim (Bool-cases (ltb 99 sem)) [
    | inl e ↦ (pos 1, m, after minus_one m (rw e refl), no_semaphore (ground arith) v)
    | inr e ↦ elim (Bool-cases (m.sem_table sem == 0)) [
      | inl f ↦
          let (r, m', run, b) = block_lem in
          (r, m', after (pos 1) m (rw (e, f) refl) ∙ run, blocked (ground arith) b)
      | inr f ↦ (
        pos 0,
        lowered,
        after (pos 0) lowered (rw (e, f) refl),
        taken (ground arith) (set_self m.sem_table sem (m.sem_table sem - 1)) lowered-Sys,
      )
    ]
  ]
