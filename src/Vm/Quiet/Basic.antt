-- ===== src/Vm/Quiet/Basic.antt =====
-- The instructions on registers and words, the stack and jumps are quiet.
use brain_project.Prelude.{
  ℕ, ◌≡◌, refl, ◌∙◌, ltb, leb, ◌==◌, ℤ, pos, minus_one, is_neg, to_unsigned, add_u32, pred_ℤ, add_ℕ,
  Option, none, some, Run, pure, ◌>>=◌, After-if, After-≡,
}
use brain_project.Word.{Word, word2int, int2word, Op, do_binop}
use brain_project.Proc.{Proc}
use brain_project.Mem.{load_shm, store_shm, read_ref}
use brain_project.RbTree.{RbTree}
use brain_project.Os.{Os, cfs}
use brain_project.Vm.Machine.{Machine, on_memory, set_proc, or_fail, wordref, release, load, store}
use brain_project.Vm.Quiet.{
  Kept, Quiet, Quiet-bind, Quiet-pure, on_memory-Quiet, set_proc-Quiet, or_fail-Quiet,
  set_and_return, wordref-Quiet, release-Quiet, load-Quiet, store-Quiet,
}
use brain_project.Vm.Register.{
  from_word, store_register, register_op, load_shared, store_shared, identify,
}
use brain_project.Vm.Stack.{set_sp, get_sp, push, pop, put_result, operands, stack_op}
use brain_project.Vm.Control.{jmp, jmp_if}

module _ {T : Type 0} (tree : RbTree T) {m0 : Machine (Os T)} (i : ℕ) where
  pub from_word-Quiet :
      (change : Proc → Word → Proc)
      → ((p : Proc) (x : Word) → (change p x).pid ≡ p.pid)
      → (addr : ℤ) (m : Machine (Os T)) → Kept m0 m
      → Quiet m0 (from_word (cfs tree) change i addr m)
  unfolding from_word
  from_word-Quiet change same addr m k =
      Quiet-bind (load (cfs tree) i addr) _ m (load-Quiet tree i addr m k) λ found m1 k1.
        or_fail-Quiet found _ m1 k1 λ x.
          set_and_return i (change (m1.proc_table i) x) m1
            (same (m1.proc_table i) x ∙ k1.same_pids i) k1

  stored-Quiet :
      (at : ℤ) (x : Word) (m : Machine (Os T))
      → Kept m0 m
      → Quiet m0 ((store (cfs tree) i at x >>= λ stored. or_fail stored λ _. pure (pos 0)) m)
  stored-Quiet at x m k =
      Quiet-bind (store (cfs tree) i at x) _ m (store-Quiet tree i at m k x)
        λ stored m1 k1. or_fail-Quiet stored _ m1 k1 λ _. Quiet-pure (pos 0) m1 k1

  module _ (addr : ℤ) (m : Machine (Os T)) (k : Kept m0 m) where
    pub store_register-Quiet : Quiet m0 (store_register (cfs tree) i addr m)
    unfolding store_register
    store_register-Quiet = stored-Quiet addr (m.proc_table i).r m k

    pub register_op-Quiet : (op : Op) → Quiet m0 (register_op (cfs tree) op i addr m)
    unfolding register_op
    register_op-Quiet op =
        Quiet-bind (wordref (cfs tree) i addr) _ m (wordref-Quiet tree i addr m k) λ ref m1 k1.
          or_fail-Quiet ref _ m1 k1 λ a.
            Quiet-bind (on_memory (read_ref a)) _ m1 (on_memory-Quiet (read_ref a) m1 k1) λ x m2 k2.
              let res = do_binop (m1.proc_table i).r x op in
              After-if (is_neg res) (pure minus_one) _ m2 (Quiet-pure minus_one m2 k2) (
                Quiet-bind (release (cfs tree) i addr) _ m2 (release-Quiet tree i addr m2 k2)
                  λ _ m3 k3.
                    set_and_return i (record (m1.proc_table i) { r = int2word res }) m3
                      (k1.same_pids i) k3)

    pub load_shared-Quiet : Quiet m0 (load_shared i addr m)
    unfolding load_shared
    load_shared-Quiet = by_word (load_shm addr m.memory) refl
      where
        by_word :
            (found : Option Word) → load_shm addr m.memory ≡ found → Quiet m0 (load_shared i addr m)
        by_word none e = After-≡ (rw (load_shared, e) refl) (Quiet-pure (pos 1) m k)
        by_word (some x) e =
            After-≡ (rw (load_shared, e) refl)
              (set_and_return i (record (m.proc_table i) { r = x }) m (k.same_pids i) k)

    pub store_shared-Quiet : Quiet m0 (store_shared i addr m)
    unfolding store_shared
    store_shared-Quiet = on_memory-Quiet (store_shm (m.proc_table i).r addr) m k

    pub identify-Quiet : Quiet m0 (identify i addr m)
    unfolding identify
    identify-Quiet = set_and_return i _ m (k.same_pids i) k

    pub set_sp-Quiet : Quiet m0 (set_sp i addr m)
    unfolding set_sp
    set_sp-Quiet = set_and_return i _ m (k.same_pids i) k

    pub get_sp-Quiet : Quiet m0 (get_sp i addr m)
    unfolding get_sp
    get_sp-Quiet = set_and_return i _ m (k.same_pids i) k

    pub push-Quiet : Quiet m0 (push (cfs tree) i addr m)
    unfolding push
    push-Quiet =
        let top = word2int (m.proc_table i).sp in
        After-if (is_neg top) (pure minus_one) _ m (Quiet-pure minus_one m k) (
          Quiet-bind (set_proc i (record (m.proc_table i) { sp = int2word (add_ℕ top 1) })) _ m
            (set_proc-Quiet i _ m (k.same_pids i) k)
            λ _ m1 k1. stored-Quiet (add_ℕ top 1) (m.proc_table i).r m1 k1)

    pub pop-Quiet : Quiet m0 (pop (cfs tree) i addr m)
    unfolding pop
    pop-Quiet =
        let p = m.proc_table i in
        let top = word2int p.sp in
        After-if (leb (to_unsigned top) p.stack_base) (pure (pos 0)) _ m (Quiet-pure (pos 0) m k) (
          Quiet-bind (load (cfs tree) i top) _ m (load-Quiet tree i top m k) λ found m1 k1.
            or_fail-Quiet found _ m1 k1 λ x.
              set_and_return i (record p { r = x; sp = int2word (pred_ℤ top) }) m1 (k.same_pids i)
                k1)

    put_result-Quiet : (res : ℤ) → Quiet m0 (put_result (cfs tree) i addr res m)
    unfolding put_result
    put_result-Quiet res =
        Quiet-bind (set_proc i (record (m.proc_table i) { sp = int2word (pred_ℤ addr) })) _ m
          (set_proc-Quiet i _ m (k.same_pids i) k)
          λ _ m1 k1. stored-Quiet (pred_ℤ addr) (int2word res) m1 k1

    operands-Quiet :
        (body : Word → Word → Run (Machine (Os T)) ℤ)
        → ((x y : Word) (m' : Machine (Os T)) → Kept m0 m' → Quiet m0 (body x y m'))
        → Quiet m0 (operands (cfs tree) i addr body m)
    unfolding operands
    operands-Quiet body body-Quiet =
        Quiet-bind (wordref (cfs tree) i addr) _ m (wordref-Quiet tree i addr m k) λ ref1 m1 k1.
          Quiet-bind (wordref (cfs tree) i (pred_ℤ addr)) _ m1
            (wordref-Quiet tree i (pred_ℤ addr) m1 k1)
            λ ref2 m2 k2. or_fail-Quiet ref1 _ m2 k2 λ a. or_fail-Quiet ref2 _ m2 k2 λ b.
              Quiet-bind (on_memory (read_ref a)) _ m2 (on_memory-Quiet (read_ref a) m2 k2)
                λ word1 m3 k3.
                  Quiet-bind (on_memory (read_ref b)) _ m3 (on_memory-Quiet (read_ref b) m3 k3)
                    λ word2 m4 k4.
                      Quiet-bind (release (cfs tree) i addr) _ m4 (release-Quiet tree i addr m4 k4)
                        λ _ m5 k5.
                          Quiet-bind (release (cfs tree) i (pred_ℤ addr)) _ m5
                            (release-Quiet tree i (pred_ℤ addr) m5 k5)
                            λ _ m6 k6. body-Quiet word2 word1 m6 k6

  module _ (addr : ℤ) (m : Machine (Os T)) (k : Kept m0 m) where
    pub stack_op-Quiet : (op : Op) → Quiet m0 (stack_op (cfs tree) op i addr m)
    unfolding stack_op
    stack_op-Quiet op =
        let p = m.proc_table i in
        let top = word2int p.sp in
        After-if (ltb (to_unsigned top) (add_u32 p.stack_base 1)) (pure minus_one) _ m
          (Quiet-pure minus_one m k)
          (operands-Quiet top m k _ λ x y m1 k1.
            let res = do_binop x y op in
            After-if (is_neg res) (pure minus_one) _ m1 (Quiet-pure minus_one m1 k1)
              (put_result-Quiet top m1 k1 res))

    pub jmp-Quiet : Quiet m0 (jmp i addr m)
    unfolding jmp
    jmp-Quiet = set_and_return i _ m (k.same_pids i) k

    pub jmp_if-Quiet : Quiet m0 (jmp_if i addr m)
    unfolding jmp_if
    jmp_if-Quiet =
        After-if ((m.proc_table i).c == b'T') (jmp i addr) (pure (pos 0)) m jmp-Quiet
          (Quiet-pure (pos 0) m k)
