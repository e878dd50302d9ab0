-- ===== src/Vm/Roundtrip.antt =====
-- A pop after a push (vm/stack.c).
use brain_project.Prelude.{
  ℕ, ◌+◌, ◌<◌, ◌≤◌, ◌≡◌, refl, arith, ◌==◌, if◌then◌else◌, ℤ, pos, negsuc, pred_ℤ, ◌∙◌, sym, ◌≢◌,
  some, bind_some, set, set_self, leb, false, to_unsigned, subst, to_unsigned, leb,
}
use brain_project.Word.{word2int, int2word}
use brain_project.Word.Decimal.{word2int-int2word, int2word-word2int, word2int-bounded}
use brain_project.Layout.{vaddr_size}
use brain_project.Pager.{Pager}
use brain_project.Pager.Inv.{view}
use brain_project.Proc.{Proc}
use brain_project.Mem.{get_global_address}
use brain_project.Mem.Access.{Accessible, Accessible-again, Settled}
use brain_project.Vm.Machine.{Scheduler, Machine, set_proc, or_fail, load, store}
use brain_project.Vm.Stack.{push, pop}
use brain_project.Vm.Transfer.{paged, with_proc, load_lem, store_lem}

-- The registers that translate addresses.
same_regions :
    (p p' : Proc) (addr : ℤ)
    → p'.br ≡ p.br
    → p'.lr ≡ p.lr
    → get_global_address p' addr ≡ get_global_address p addr
unfolding get_global_address
same_regions p p' (pos n) b l = rw (b, l) refl
same_regions p p' (negsuc n) b l = refl

-- The machine after a push moved the stack pointer.
abbrev pub pushed : {S : Type 0} → Machine S → ℕ → ℕ → Machine S
pushed m i n = with_proc m i (record (m.proc_table i) { sp = int2word (pos (n + 1)) })

module _ {S : Type 0} (sch : Scheduler S) (i : ℕ) (addr : ℤ) (m : Machine S) (n g : ℕ)
    (top : word2int (m.proc_table i).sp ≡ pos n) where
  push_lem :
      get_global_address (m.proc_table i) (pos (n + 1)) ≡ pos g
      → Accessible m.memory.pager g
      → (q : Pager) × (push sch i addr m ≡ some (pos 0, paged (pushed m i n) q))
        × Settled m.memory.pager q g
        × ((u : ℕ)
            → u < vaddr_size
            → view q u ≡ (if g == u then (m.proc_table i).r else view m.memory.pager u))
  unfolding push set_proc or_fail
  push_lem e v =
      let placed =
        subst (λ p. get_global_address p (pos (n + 1)) ≡ pos g)
          (sym (set_self m.proc_table i (record (m.proc_table i) { sp = int2word (pos (n + 1)) })))
          (same_regions (m.proc_table i) (record (m.proc_table i) { sp = int2word (pos (n + 1)) })
              (pos (n + 1)) refl refl
            ∙ e) in
      let (q, run, settled, changed) =
        store_lem sch i (pos (n + 1)) (pushed m i n) g placed v (m.proc_table i).r in
      (
        q,
        rw top (bind_some (store sch i (pos (n + 1)) (m.proc_table i).r) _ (pushed m i n) run),
        settled,
        changed,
      )

  pop_lem :
      (m.proc_table i).stack_base < n
      → get_global_address (m.proc_table i) (pos n) ≡ pos g
      → Accessible m.memory.pager g
      → (q : Pager) × (pop sch i addr m
          ≡ some (
            pos 0,
            with_proc (paged m q) i (record (m.proc_table i) {
              r = view m.memory.pager g;
              sp = int2word (pred_ℤ (pos n));
            }),
          ))
        × Settled m.memory.pager q g
        × ((u : ℕ) → u < vaddr_size → view q u ≡ view m.memory.pager u)
  unfolding pop set_proc or_fail
  pop_lem below e v =
      let (q, run, settled, same) = load_lem sch i (pos n) m g e v in
      (q, rw (top, above) (bind_some (load sch i (pos n)) _ m run), settled, same)
    where
      bounded : n < 10000
      bounded = word2int-bounded _ n top

      above : leb (to_unsigned (pos n)) (m.proc_table i).stack_base ≡ false
      above = ground (arith, bounded)

-- Two accesses to one address.
Settled-trans : {s t q : Pager} {g : ℕ} → Settled s t g → Settled t q g → Settled s q g
Settled-trans a b = record {
  inv = b.inv;
  same_size = b.same_size ∙ a.same_size;
  same_count = b.same_count ∙ a.same_count;
  refs = λ p. b.refs p ∙ a.refs p;
  resident = b.resident;
}

module _ {S : Type 0} (sch : Scheduler S) (i : ℕ) (addr : ℤ) (m : Machine S) (n g : ℕ)
    (top : word2int (m.proc_table i).sp ≡ pos n) where
  -- A push and a pop after it both return 0. The process then has the registers it had before, no
  -- count of references has changed, and no word of the virtual space but the one behind the old
  -- top of the stack. The stack pointer is assumed to be at or above the base, and the word behind
  -- it to be accessible.
  pub push-pop :
      n + 1 < 10000
      → (m.proc_table i).stack_base ≤ n
      → get_global_address (m.proc_table i) (pos (n + 1)) ≡ pos g
      → Accessible m.memory.pager g
      → (m1 : Machine S) × (m2 : Machine S) × (push sch i addr m ≡ some (pos 0, m1))
        × (pop sch i addr m1 ≡ some (pos 0, m2))
        × (m2.proc_table i ≡ m.proc_table i)
        × Settled m.memory.pager m2.memory.pager g
        × ((u : ℕ) → u < vaddr_size → u ≢ g → view m2.memory.pager u ≡ view m.memory.pager u)
  push-pop fits above e v =
      let (q, run, settled, changed) = push_lem sch i addr m n g top e v in
      let m1 = paged (pushed m i n) q in
      let (q', run', settled', same) =
        pop_lem sch i addr m1 (n + 1) g
          (rw entry (word2int-int2word (n + 1) ∙ ground (arith, fits))) (rw entry (omega arith))
          (rw entry (same_regions (m.proc_table i) raised (pos (n + 1)) refl refl ∙ e))
          (Accessible-again v settled) in
      (
        m1,
        with_proc (paged m1 q') i
            (record (m1.proc_table i) { r = view q g; sp = int2word (pred_ℤ (pos (n + 1))) }),
        run,
        run',
        restored q (changed g v.in_space),
        Settled-trans settled settled',
        λ u h ne. same u h ∙ changed u h ∙ ground (arith, ne),
      )
    where
      raised : Proc
      raised = record (m.proc_table i) { sp = int2word (pos (n + 1)) }

      entry : set m.proc_table i raised i ≡ raised
      entry = set_self m.proc_table i raised

      below : pred_ℤ (pos (n + 1)) ≡ pos n
      below = ground arith

      restored :
          (q : Pager)
          → view q g ≡ (if g == g then (m.proc_table i).r else view m.memory.pager g)
          → set
              (set m.proc_table i raised)
              i
              (record (set m.proc_table i raised i) {
                r = view q g;
                sp = int2word (pred_ℤ (pos (n + 1)));
              })
              i
            ≡ m.proc_table i
      restored q changed =
          let found : view q g ≡ (m.proc_table i).r = changed ∙ ground arith in
          rw (set_self, entry, below, int2word-word2int (m.proc_table i).sp n top, found) refl
