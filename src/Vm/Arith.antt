-- ===== src/Vm/Arith.antt =====
-- The arithmetic instructions on the register (do_register_op of vm/math.c).
use brain_project.Prelude.{ℕ, ◌%◌, ◌<◌, ◌≡◌, refl, ℤ, pos, minus_one, some, ◌∙◌, bind_some}
use brain_project.Word.{Word, Op, do_binop, int2word}
use brain_project.Word.Decimal.{IsNumeric, value, int2word-IsNumeric, value-int2word}
use brain_project.Layout.{vaddr_size}
use brain_project.Pager.{Pager}
use brain_project.Pager.Inv.{view}
use brain_project.Pager.Touch.{Touched}
use brain_project.Mem.{get_global_address, get_wordref, release_wordref, read_ref}
use brain_project.Mem.Access.{
  Accessible, Settled, get_wordref_lem, release_wordref_lem, settle, with_pager,
}
use brain_project.Vm.Machine.{
  Scheduler, Machine, on_memory-some, wordref, release, or_fail, on_memory, set_proc,
}
use brain_project.Vm.Register.{register_op}
use brain_project.Vm.Transfer.{paged, with_proc}

module _ {S : Type 0} (sch : Scheduler S) (op : Op) (i : ℕ) (addr : ℤ) (m : Machine S) (g : ℕ)
    (e : get_global_address (m.proc_table i) addr ≡ pos g) (v : Accessible m.memory.pager g) where
  -- An operation on the register and an accessible word that do_binop refuses returns -1, changes no
  -- register and no word of the virtual space, and keeps its reference: the count of the page is one
  -- more than before.
  register_op_refused :
      do_binop (m.proc_table i).r (view m.memory.pager g) op ≡ minus_one
      → (a : ℕ) × (q : Pager) × (register_op sch op i addr m ≡ some (minus_one, paged m q))
        × Touched m.memory.pager q g a
  unfolding register_op wordref or_fail on_memory read_ref
  register_op_refused refused =
      let (a, t, run, touched) =
        get_wordref_lem (sch.ops m.sched) (m.proc_table i) addr m.memory g e v in
      (
        a,
        t,
        bind_some (wordref sch i addr) _ m
              (on_memory-some m (get_wordref (sch.ops m.sched) (m.proc_table i) addr) run)
            ∙ rw (touched.reads, refused) refl,
        touched,
      )

  -- An operation on the register and an accessible word to which do_binop gives a result returns 0
  -- and leaves the numeral of the result modulo 10000 in the register. It changes no other register, no word of
  -- the virtual space and no count of references.
  pub register_op_lem :
      (n : ℕ)
      → do_binop (m.proc_table i).r (view m.memory.pager g) op ≡ pos n
      → (x : Word) × (q : Pager) × (register_op sch op i addr m
          ≡ some (pos 0, with_proc (paged m q) i (record (m.proc_table i) { r = x })))
        × IsNumeric x
        × (value x ≡ n % 10000)
        × Settled m.memory.pager q g
        × ((u : ℕ) → u < vaddr_size → view q u ≡ view m.memory.pager u)
  unfolding register_op wordref or_fail on_memory read_ref release set_proc
  register_op_lem n result =
      let (a, t, run, touched) =
        get_wordref_lem (sch.ops m.sched) (m.proc_table i) addr m.memory g e v in
      let (q, run', r) =
        release_wordref_lem (sch.ops m.sched) (m.proc_table i) addr (with_pager m.memory t) g e
          touched.inv v.in_space in
      (
        int2word (pos n),
        q,
        bind_some (wordref sch i addr) _ m
              (on_memory-some m (get_wordref (sch.ops m.sched) (m.proc_table i) addr) run)
            ∙ rw (touched.reads, result)
                (bind_some (release sch i addr) _ (paged m t)
                  (on_memory-some (paged m t) (release_wordref (m.proc_table i) addr) run')),
        int2word-IsNumeric n,
        value-int2word n,
        settle touched t.mem r,
        λ u h. r.same_view u ∙ touched.same_view u h,
      )
