-- ===== src/Vm/Control.antt =====
-- Control transfer and the life of a process: vm/jmp.c, vm/nop.c, vm/halt.c and vm/fork.c.
use brain_project.Prelude.{
  ℕ, ◌==◌, if◌then◌else◌, ℤ, pos, minus_one, is_neg, add_ℕ, to_unsigned, Option, none, some, Run,
  pure, fault, get, ◌>>=◌, ◌>>◌,
}
use brain_project.Word.{word2int, int2word, fill}
use brain_project.Proc.{Proc, set_ic}
use brain_project.Mem.{free_region, dup_mem}
use brain_project.Vm.Machine.{Scheduler, Machine, on_memory, on_sched, this, set_proc, procalloc}

module _ {S : Type 0} where
  unfoldable pub jmp : ℕ → ℤ → Run (Machine S) ℤ
  unfolding set_proc
  jmp i ic = do p ← this i; set_proc i (set_ic p (int2word ic)); pure (pos 0)

  unfoldable pub jmp_if : ℕ → ℤ → Run (Machine S) ℤ
  unfolding jmp
  jmp_if i addr = do p ← this i; if p.c == b'T' then jmp i addr else pure (pos 0)

  unfoldable pub nop : ℕ → ℤ → Run (Machine S) ℤ
  nop i addr = pure (pos 0)

module _ {S : Type 0} (sch : Scheduler S) where
  -- The return values of the scheduler are not looked at.
  unfoldable pub halt : ℕ → ℤ → Run (Machine S) ℤ
  unfolding on_memory on_sched
  halt i addr = do
    p ← this i
    on_memory (free_region p)
    sch_reset ← on_sched (sch.reset p.pid)
    suspended ← on_sched (sch.suspend p.pid)
    pure (pos 0)

  -- The registers that the child takes from its parent. The stack pointer is not among them.
  abbrev pub inherit : Proc → Proc → Proc
  inherit parent child = record child {
    ic0 = parent.ic0;
    ic1 = parent.ic1;
    c = parent.c;
    stack_base = parent.stack_base;
  }

  -- fork_proc behind procalloc. The child is written to also where there is none, a NULL dereference.
  unfoldable pub fork_into : ℕ → Option ℕ → Run (Machine S) ℤ
  unfolding set_proc on_memory on_sched
  fork_into i none = do p ← this i; set_proc i (record p { r = fill b'0' }); fault
  fork_into i (some j) = do
    p ← this i
    newp ← this j
    set_proc i (record p { r = int2word (pos newp.pid) })
    child ← this j
    set_proc j (record child { r = int2word (pos p.pid) })
    parent ← this i
    child' ← this j
    set_proc j (inherit parent child')
    m ← get
    copied ← on_memory (dup_mem (sch.ops m.sched) (m.proc_table i) (m.proc_table j))
    if is_neg copied then pure minus_one else do
      was_reset ← on_sched (sch.reset newp.pid)
      resumed ← on_sched (sch.resume newp.pid)
      pure (pos 0)

  unfoldable pub fork_proc : ℕ → ℤ → Run (Machine S) ℤ
  unfolding procalloc fork_into
  fork_proc i addr = do
    p ← this i
    let procsize = word2int p.lr
    if is_neg procsize
        then pure (pos 1)
        else do newp ← procalloc (to_unsigned (add_ℕ procsize 1)); fork_into i newp
