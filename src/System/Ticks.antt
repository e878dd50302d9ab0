-- ===== src/System/Ticks.antt =====
-- An instruction of the process that runs (tick of vm/vm.c) and the places of the processes.
use brain_project.Prelude.{
  leb, ◌>>=◌, After-≡, Bool-cases, arith, ℕ, ◌≡◌, refl, sym, ap, ◌∙◌, true, false, ◌==◌, ℤ, pos,
  negsuc, minus_one, is_neg, add_ℕ, Option, none, some, inl, inr, After, ends, After-bind,
  After-step, After-mono, Returns-After,
}
use brain_project.Word.{word2int, int2word}
use brain_project.Proc.{ic_word, set_ic}
use brain_project.RbTree.{RbTree, RbTreeLaws}
use brain_project.Os.{Os, cfs}
use brain_project.Vm.Machine.{Machine, on_memory, wordref, release, set_proc, or_fail}
use brain_project.Vm.Msg.{send, recv}
use brain_project.Vm.Quiet.{Kept, Kept-refl, with_proc, release-Quiet, wordref-Quiet}
use brain_project.System.{is_ready, Places, Sys, Kept-Sys}
use brain_project.System.Calls.{Current, Current-ready, ready-known}
use brain_project.Vm.Tick.{
  Opcode, op_rc, opcode_of, code, op_table, find_op, run_op, dispatch, execute, tick,
}
use brain_project.Vm.Dispatch.{find_op_lem, operand}
use brain_project.Vm.Quiet.Table.{
  Schedules, sends, receives, downs, ups, forks, halts, run_op-Quiet,
}
use brain_project.Vm.Quiet.Streams.{print_mem-Quiet}
use brain_project.System.Down.{sem_down_lem}
use brain_project.System.Up.{sem_up_lem}
use brain_project.System.Send.{send_lem}
use brain_project.System.Recv.{recv-After}
use brain_project.System.Fork.{fork_proc_lem}
use brain_project.Vm.Io.{print_mem}
use brain_project.Vm.Sem.{sem_down, sem_up}
use brain_project.System.Life.{
  Outcome, quiet, sent, received, downed, upped, forked, halted, unnumbered, numbered, stepped,
  Ticked, no_counter, no_word, unknown, runs,
}
use brain_project.System.Parts.{counter}
use brain_project.System.Halt.{halt_lem}
use brain_project.Sched.{Rq}
use brain_project.Mem.{read_ref}

-- An instruction that receives has a number for the sender.
abbrev pub Named : Opcode → ℤ → Type 0
Named k addr = k ≡ op_rc → is_neg addr ≡ false

-- The word that a tick of the process fetches is such an instruction or another.
abbrev pub Tame : {T : Type 0} → RbTree T → Machine (Os T) → ℕ → Type 0
Tame {T} tree m i =
    (a : ℕ) (m1 : Machine (Os T))
    → wordref (cfs tree) i (word2int (ic_word (m.proc_table i))) m ≡ some (some a, m1)
    → opcode_of (m1.memory.pager.mem a).b0 (m1.memory.pager.mem a).b1 ≡ code op_rc
    → is_neg (operand (m1.memory.pager.mem a)) ≡ false

module _ {T : Type 0} {tree : RbTree T} (laws : RbTreeLaws tree) (i : ℕ) where
  module _ {m : Machine (Os T)} {p : Places} (v : Sys laws m p) (c : Current m i)
      (now : is_ready (p i) ≡ true) where
    call-Outcome :
        (k : Opcode)
        → Schedules k
        → (addr : ℤ) → Named k addr
        → After (Outcome laws i v now k addr) (run_op tree k i addr m)
    unfolding run_op sem_down sem_up send recv numbered
    call-Outcome _ sends (negsuc x) h = ends (pos 1) m refl (unnumbered refl)
    call-Outcome _ sends (pos d) h =
        After-mono (λ _ _ x. sent x) (Returns-After (send_lem laws i d v now))
    call-Outcome _ receives (negsuc x) h = cc (h refl)
    call-Outcome _ receives (pos d) h = After-mono (λ _ _ x. received x) (recv-After laws i d v now)
    call-Outcome _ downs (negsuc x) h = ends (pos 1) m refl (unnumbered refl)
    call-Outcome _ downs (pos sem) h =
        After-mono (λ _ _ x. downed x) (Returns-After (sem_down_lem laws i sem v now))
    call-Outcome _ ups (negsuc x) h = ends (pos 1) m refl (unnumbered refl)
    call-Outcome _ ups (pos sem) h =
        After-mono (λ _ _ x. upped x) (Returns-After (sem_up_lem laws i sem v))
    call-Outcome _ forks addr h = After-mono (λ _ _ x. forked x) (fork_proc_lem laws v i addr)
    call-Outcome _ halts addr h =
        let (m', run, v') = halt_lem laws i v c addr in ends (pos 0) m' run (halted v')

    run_op-Outcome :
        (k : Opcode) (addr : ℤ)
        → Named k addr
        → After (Outcome laws i v now k addr) (run_op tree k i addr m)
    run_op-Outcome k addr h = elim (run_op-Quiet tree i addr m (Kept-refl m) k) [
      | inl (e, q) ↦ After-mono (λ _ _ kept. quiet e kept) q
      | inr s ↦ call-Outcome k s addr h
    ]

  Kept-Current : {m m' : Machine (Os T)} → Kept m m' → Current m i → Current m' i
  Kept-Current k c = record {
    same = ap (λ (s : Rq T). s.current) k.same_rq ∙ c.same;
    busy = ap (λ (s : Rq T). s.nr_running == 0) k.same_rq ∙ c.busy;
  }

  module _ {m : Machine (Os T)} {p : Places} (v : Sys laws m p) (c : Current m i)
      (now : is_ready (p i) ≡ true) (a : ℕ) (m1 : Machine (Os T))
      (fetch : wordref (cfs tree) i (counter m i) m ≡ some (some a, m1)) (k1 : Kept m m1) where
    abbrev opcode : ℕ
    opcode = opcode_of (m1.memory.pager.mem a).b0 (m1.memory.pager.mem a).b1

    abbrev addr : ℤ
    addr = operand (m1.memory.pager.mem a)

    stepped-Kept : Kept m (stepped laws i (counter m i) m1)
    stepped-Kept =
        with_proc i (set_ic (m1.proc_table i) (int2word (add_ℕ (counter m i) 1))) m1
          (k1.same_pids i) k1

    dispatch-Ticked :
        (o : Option Opcode)
        → find_op opcode op_table ≡ o
        → (opcode ≡ code op_rc → is_neg addr ≡ false)
        → After
            (Ticked laws i v now)
            (dispatch tree i (counter m i) addr o (stepped laws i (counter m i) m1))
    unfolding dispatch
    dispatch-Ticked none e tame =
        let f = stepped laws i (counter m i) m1 in
        After-bind (print_mem tree i) _ f (print_mem-Quiet tree i f stepped-Kept) λ _ m2 k2.
          ends minus_one m2 refl (
            unknown a m1 fetch (λ k here. cc (e, (find_op_lem opcode k).1 (sym here)))
              (Kept-Sys laws v k2))
    dispatch-Ticked (some k) e tame =
        let f = stepped laws i (counter m i) m1 in
        let v1 = Kept-Sys laws v stepped-Kept in
        let is_k = sym ((find_op_lem opcode k).0 e) in
        After-bind (run_op tree k i addr) _ f
          (run_op-Outcome v1 (Kept-Current stepped-Kept c) now k addr λ g. tame (is_k ∙ ap code g))
          λ res m2 x.
            After-bind (release (cfs tree) i (counter m i)) _ m2
              (release-Quiet tree i (counter m i) m2 (Kept-refl m2))
              λ _ m3 k3. ends res m3 refl (runs a m1 m2 k fetch is_k v1 x k3)

    execute-Ticked :
        (opcode ≡ code op_rc → is_neg addr ≡ false)
        → After (Ticked laws i v now) (execute tree i (counter m i) a m1)
    unfolding execute set_proc on_memory read_ref
    execute-Ticked tame = dispatch-Ticked (find_op opcode op_table) refl tame

  module _ {m : Machine (Os T)} {p : Places} (v : Sys laws m p) (c : Current m i) where
    pub now : is_ready (p i) ≡ true
    now = Current-ready laws v i c

    by_word :
        (word : Option ℕ) (m1 : Machine (Os T))
        → Tame tree m i
        → wordref (cfs tree) i (counter m i) m ≡ some (word, m1)
        → Kept m m1
        → After (Ticked laws i v now) (or_fail word (execute tree i (counter m i)) m1)
    unfolding or_fail
    by_word none m1 tame e k1 = ends minus_one m1 refl (no_word e (Kept-Sys laws v k1))
    by_word (some a) m1 tame e k1 = execute-Ticked v c now a m1 e k1 (tame a m1 e)

    fetched_word :
        Tame tree m i
        → is_neg (counter m i) ≡ false
        → After (Ticked laws i v now) (
            (wordref (cfs tree) i (counter m i) >>= λ word.
            or_fail word (execute tree i (counter m i)))
              m)
    fetched_word tame has =
        After-step (wordref (cfs tree) i (counter m i))
          (λ word. or_fail word (execute tree i (counter m i))) m
          (wordref-Quiet tree i (counter m i) m (Kept-refl m))
          λ word m1 e k1. by_word word m1 tame e k1

    -- A tick of the process that runs, where the queues agree with the places `p`, nobody waits for a
    -- message from any and the instruction is no receive from any, faults or ends. It ends with -1 and
    -- no process moved where there is no counter, no word at it, or no instruction of its opcode. Else
    -- the places are those that the instruction with that opcode and operand leaves: a halt stops the
    -- process, a send, receive, P, V and fork do what their theorems say, and every other leaves all
    -- processes where they stand. The queues agree with the new places.
    pub tick-Ticked : Tame tree m i → After (Ticked laws i v now) (tick tree i m)
    unfolding tick
    tick-Ticked tame =
        let h = ready-known laws v i now in
        let known_entry : leb m.next_pid i ≡ false = ground (arith, h) in
        let own = v.pids i h in
        let same : ((m.proc_table i).pid == i) ≡ true = ground (arith, own) in
        elim (Bool-cases (is_neg (counter m i))) [
          | inl e ↦ ends minus_one m (rw (known_entry, same, e) refl) (no_counter e)
          | inr e ↦ After-≡ (rw (known_entry, same, e) refl) (fetched_word tame e)
        ]
