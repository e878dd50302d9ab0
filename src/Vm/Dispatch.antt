-- ===== src/Vm/Dispatch.antt =====
-- The search of op_table, and what tick does around an instruction (tick in vm/vm.c).
use brain_project.Prelude.{
  ℕ, ◌+◌, ◌%◌, ◌<◌, ◌≤◌, ◌≡◌, ◌≢◌, ◌↔◌, ◌==◌, refl, arith, true, false, leb, if◌then◌else◌, ℤ, pos,
  minus_one, ap, sym, ◌∙◌, Option, none, some, List, [], ◌∷◌, pure, ◌>>=◌, ◌>>◌, set_self, set_ne,
  bind_some, Bool-cases, inl, inr,
}
use brain_project.Word.{Word, word, word2int, int2word}
use brain_project.Word.Decimal.{value, word2int-IsNumeric}
use brain_project.Layout.{vaddr_size}
use brain_project.Pager.{Pager}
use brain_project.Pager.Inv.{view}
use brain_project.Pager.Touch.{Touched}
use brain_project.Proc.{Proc, ic_word, set_ic}
use brain_project.Mem.{get_global_address, get_wordref, release_wordref, read_ref}
use brain_project.Mem.Access.{
  Accessible, Settled, settle, get_wordref_lem, release_wordref_lem, with_pager,
}
use brain_project.RbTree.{RbTree}
use brain_project.Os.{Os, cfs}
use brain_project.Vm.Machine.{
  Machine, on_memory, on_memory-some, set_proc, wordref, release, or_fail,
}
use brain_project.Vm.Control.{nop}
use brain_project.Vm.Transfer.{paged, with_proc}
use brain_project.Vm.Tick.{
  Opcode, op_lr, op_ll, op_lh, op_sr, op_sp, op_ps, op_ph, op_pp, op_ce, op_cl, op_bt, op_bu, op_gd,
  op_pd, op_ad, op_su, op_mi, op_di, op_as, op_ss, op_ms, op_ds, op_np, op_sd, op_rc, op_si, op_pe,
  op_ve, op_ls, op_st, op_fk, op_ex, op_gp, op_ha, opcode_of, code, op_table, find_op, run_op,
  dispatch, execute, tick,
}

-- The table has every opcode.
found_code : (k : Opcode) → find_op (code k) op_table ≡ some k
unfolding find_op code
found_code op_lr = refl
found_code op_ll = refl
found_code op_lh = refl
found_code op_sr = refl
found_code op_sp = refl
found_code op_ps = refl
found_code op_ph = refl
found_code op_pp = refl
found_code op_ce = refl
found_code op_cl = refl
found_code op_bt = refl
found_code op_bu = refl
found_code op_gd = refl
found_code op_pd = refl
found_code op_ad = refl
found_code op_su = refl
found_code op_mi = refl
found_code op_di = refl
found_code op_as = refl
found_code op_ss = refl
found_code op_ms = refl
found_code op_ds = refl
found_code op_np = refl
found_code op_sd = refl
found_code op_rc = refl
found_code op_si = refl
found_code op_pe = refl
found_code op_ve = refl
found_code op_ls = refl
found_code op_st = refl
found_code op_fk = refl
found_code op_ex = refl
found_code op_gp = refl
found_code op_ha = refl

code_or : ℕ → Option Opcode → ℕ
code_or n none = n
code_or n (some k) = code k

-- What the search returns has the opcode that was searched.
found_has_code : (n : ℕ) (l : List Opcode) (k : Opcode) → find_op n l ≡ some k → code k ≡ n
unfolding find_op code_or
found_has_code n [] k e = absurd (cc)
found_has_code n (j ∷ l) k e = elim (Bool-cases (code j == n)) [
  | inl same ↦
      let here : code j ≡ n = ground arith in
      sym (ap (code_or n) (ap (λ b. if b then some j else find_op n l) (sym same) ∙ e)) ∙ here
  | inr ne ↦ found_has_code n l k (ap (λ b. if b then some j else find_op n l) (sym ne) ∙ e)
]

-- The search of op_table finds exactly the instruction that has the opcode.
pub find_op_lem : (n : ℕ) (k : Opcode) → (find_op n op_table ≡ some k) ↔ (code k ≡ n)
find_op_lem n k =
    (found_has_code n op_table k, λ e. ap (λ j. find_op j op_table) (sym e) ∙ found_code k)

module _ {T : Type 0} (tree : RbTree T) (pid : ℕ) (m : Machine (Os T)) where
  -- tick refuses a number that is no process with 1, and with -1 an entry of the table with another
  -- number and a counter that is not a number. Nothing changes then.
  pub tick_refuses :
      (m.next_pid ≤ pid → tick tree pid m ≡ some (pos 1, m))
      × (pid < m.next_pid → (m.proc_table pid).pid ≢ pid → tick tree pid m ≡ some (minus_one, m))
      × (pid < m.next_pid
          → (m.proc_table pid).pid ≡ pid
          → word2int (ic_word (m.proc_table pid)) ≡ minus_one
          → tick tree pid m ≡ some (minus_one, m))
  unfolding tick
  tick_refuses = (
    λ h. (let e : leb m.next_pid pid ≡ true = ground arith in rw (e) refl),
    λ h ne.
        (let e : leb m.next_pid pid ≡ false = ground arith in
          let f : ((m.proc_table pid).pid == pid) ≡ false = ground arith in rw (e, f) refl),
    λ h same no_number.
        (let e : leb m.next_pid pid ≡ false = ground arith in
          let f : ((m.proc_table pid).pid == pid) ≡ true = ground arith in
          rw (e, f, no_number) refl),
  )

-- The machine behind the fetch of an instruction: the page of the instruction has a reference, and the
-- counter is one more.
abbrev pub fetched : {T : Type 0} → Machine (Os T) → ℕ → ℕ → Pager → Machine (Os T)
fetched m pid c q = with_proc (paged m q) pid (set_ic (m.proc_table pid) (int2word (pos (c + 1))))

-- The counter has two digits.
next_counter :
    (p : Proc) (c : ℕ)
    → c < 100
    → word2int (ic_word (set_ic p (int2word (pos (c + 1))))) ≡ pos ((c + 1) % 100)
unfolding int2word value
next_counter p c h =
    let w = ic_word (set_ic p (int2word (pos (c + 1)))) in
    word2int-IsNumeric w
      (record { d0 = omega arith; d1 = omega arith; d2 = omega arith; d3 = omega arith })
    ∙ ap pos (omega (arith, h))

-- The characters of an address in an instruction.
abbrev pub operand : Word → ℤ
operand w = word2int (word b'0' b'0' w.b2 w.b3)

module _ {T : Type 0} (tree : RbTree T) (pid : ℕ) (m : Machine (Os T)) (c g : ℕ)
    (valid : pid < m.next_pid) (entry : (m.proc_table pid).pid ≡ pid)
    (counter : word2int (ic_word (m.proc_table pid)) ≡ pos c)
    (e : get_global_address (m.proc_table pid) (pos c) ≡ pos g)
    (v : Accessible m.memory.pager g) where
  -- tick fetches the word at the counter, which is accessible, and moves the counter by one. It then
  -- dispatches on the word's first two characters, with the other two as the address.
  tick_fetch :
      (a : ℕ) × (q : Pager) × (tick tree pid m
        ≡ dispatch tree pid
            (pos c)
            (operand (view m.memory.pager g))
            (find_op (opcode_of (view m.memory.pager g).b0 (view m.memory.pager g).b1) op_table)
            (fetched m pid c q))
      × Touched m.memory.pager q g a
  unfolding tick execute wordref or_fail on_memory read_ref set_proc
  tick_fetch =
      let here : leb m.next_pid pid ≡ false = ground arith in
      let own : ((m.proc_table pid).pid == pid) ≡ true = ground arith in
      let (a, t, run, touched) =
        get_wordref_lem ((cfs tree).ops m.sched) (m.proc_table pid) (pos c) m.memory g e v in
      (
        a,
        t,
        rw (here, own, counter)
            (bind_some (wordref (cfs tree) pid (pos c)) _ m (
                on_memory-some m (get_wordref ((cfs tree).ops m.sched) (m.proc_table pid) (pos c))
                  run)
              ∙ rw (touched.reads) refl),
        touched,
      )

  -- tick of a process with a valid counter and an accessible word there, whose first two characters
  -- are the opcode `k`: it runs the instruction `k` with the address in the word, on the machine whose
  -- counter is one more, and then gives up its reference to the word. The result is the instruction's.
  pub tick_lem :
      (k : Opcode)
      → opcode_of (view m.memory.pager g).b0 (view m.memory.pager g).b1 ≡ code k
      → (a : ℕ) × (q : Pager) × (tick tree pid m
          ≡ (do
            res ← run_op tree k pid (operand (view m.memory.pager g))
            release (cfs tree) pid (pos c)
            pure res)
              (fetched m pid c q))
        × Touched m.memory.pager q g a
  unfolding dispatch
  tick_lem k op =
      let (a, q, run, touched) = tick_fetch in
      (
        a,
        q,
        run
            ∙ ap
                (λ o.
                  dispatch tree pid (pos c) (operand (view m.memory.pager g)) o (fetched m pid c q))
                ((find_op_lem _ k).1 (sym op)),
        touched,
      )

  same_address :
      (q : Pager) → get_global_address ((fetched m pid c q).proc_table pid) (pos c) ≡ pos g
  unfolding get_global_address
  same_address q =
      ap (λ p. get_global_address p (pos c))
        (set_self m.proc_table pid (set_ic (m.proc_table pid) (int2word (pos (c + 1)))))
      ∙ e

  -- tick of a process with a valid counter and an accessible word `NP..` there: it returns 0, moves
  -- the counter by one, from 99 to 00, and changes nothing else in the process table, no word of the
  -- virtual space, and no count of references.
  pub tick-nop :
      opcode_of (view m.memory.pager g).b0 (view m.memory.pager g).b1 ≡ code op_np
      → c < 100
      → (m' : Machine (Os T)) × (tick tree pid m ≡ some (pos 0, m'))
        × (word2int (ic_word (m'.proc_table pid)) ≡ pos ((c + 1) % 100))
        × ((k : ℕ) → k ≢ pid → m'.proc_table k ≡ m.proc_table k)
        × Settled m.memory.pager m'.memory.pager g
        × ((u : ℕ) → u < vaddr_size → view m'.memory.pager u ≡ view m.memory.pager u)
  unfolding run_op nop release
  tick-nop op small =
      let (a, t, run, touched) = tick_lem op_np op in
      let n = fetched m pid c t in
      let (q, run', r) =
        release_wordref_lem ((cfs tree).ops m.sched) (n.proc_table pid) (pos c)
          (with_pager m.memory t) g (same_address t) touched.inv v.in_space in
      (
        paged n q,
        run
            ∙ bind_some (release (cfs tree) pid (pos c)) (λ _. pure (pos 0)) n
                (on_memory-some n (release_wordref (n.proc_table pid) (pos c)) run'),
        ap (λ p. word2int (ic_word p))
              (set_self m.proc_table pid (set_ic (m.proc_table pid) (int2word (pos (c + 1)))))
            ∙ next_counter (m.proc_table pid) c small,
        λ k ne.
            set_ne m.proc_table pid k (set_ic (m.proc_table pid) (int2word (pos (c + 1))))
              (λ same. ne (sym same)),
        settle touched t.mem r,
        λ u h. r.same_view u ∙ touched.same_view u h,
      )
