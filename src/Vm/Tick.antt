-- ===== src/Vm/Tick.antt =====
-- Instruction dispatch: the opcodes (vm/vm.h), op_table and tick (vm/vm.c).
use brain_project.Prelude.{
  ℕ, ◌+◌, ◌*◌, leb, not, ◌==◌, if◌then◌else◌, ℤ, pos, minus_one, is_neg, add_ℕ, Option, none, some,
  List, [], ◌∷◌, Run, pure, get, ◌>>=◌, ◌>>◌,
}
use brain_project.Word.{word, word2int, int2word, plus, minus, times, over}
use brain_project.Proc.{ic_word, set_ic}
use brain_project.Mem.{read_ref}
use brain_project.RbTree.{RbTree}
use brain_project.Os.{Os, cfs}
use brain_project.Vm.Machine.{Machine, on_memory, this, set_proc, wordref, release, or_fail}
use brain_project.Vm.Register
use brain_project.Vm.Stack
use brain_project.Vm.Control
use brain_project.Vm.Sem
use brain_project.Vm.Msg
use brain_project.Vm.Io
use brain_project.Vm.Exec

-- OPCODE(a, b). No entry of the table has a character above 127, where the sign of `char` matters.
abbrev pub opcode_of : ℕ → ℕ → ℕ
opcode_of a b = a * 256 + b

-- enum OP
pub data Opcode : Type 0 where
  op_lr op_ll op_lh op_sr op_sp op_ps op_ph op_pp op_ce op_cl op_bt op_bu op_gd op_pd op_ad op_su
        op_mi op_di op_as op_ss op_ms op_ds op_np op_sd op_rc op_si op_pe op_ve op_ls op_st op_fk
        op_ex op_gp op_ha :
      Opcode

unfoldable pub code : Opcode → ℕ
code op_lr = opcode_of b'L' b'R'
code op_ll = opcode_of b'L' b'L'
code op_lh = opcode_of b'L' b'H'
code op_sr = opcode_of b'S' b'R'
code op_sp = opcode_of b'S' b'P'
code op_ps = opcode_of b'P' b'S'
code op_ph = opcode_of b'P' b'H'
code op_pp = opcode_of b'P' b'P'
code op_ce = opcode_of b'C' b'E'
code op_cl = opcode_of b'C' b'L'
code op_bt = opcode_of b'B' b'T'
code op_bu = opcode_of b'B' b'U'
code op_gd = opcode_of b'G' b'D'
code op_pd = opcode_of b'P' b'D'
code op_ad = opcode_of b'A' b'D'
code op_su = opcode_of b'S' b'U'
code op_mi = opcode_of b'M' b'U'
code op_di = opcode_of b'D' b'I'
code op_as = opcode_of b'A' b'S'
code op_ss = opcode_of b'S' b'S'
code op_ms = opcode_of b'M' b'S'
code op_ds = opcode_of b'D' b'S'
code op_np = opcode_of b'N' b'P'
code op_sd = opcode_of b'S' b'D'
code op_rc = opcode_of b'R' b'C'
code op_si = opcode_of b'S' b'I'
code op_pe = opcode_of b'P' b'E'
code op_ve = opcode_of b'V' b'E'
code op_ls = opcode_of b'L' b'S'
code op_st = opcode_of b'S' b'T'
code op_fk = opcode_of b'F' b'K'
code op_ex = opcode_of b'E' b'X'
code op_gp = opcode_of b'G' b'P'
code op_ha = opcode_of b'H' b'A'

-- op_table, in its order.
abbrev pub op_table : List Opcode
op_table =
    op_lr ∷ op_ll ∷ op_lh ∷ op_sr ∷ op_sp ∷ op_ps ∷ op_ph ∷ op_pp ∷ op_ce ∷ op_cl ∷ op_bt ∷ op_bu
    ∷ op_gd ∷ op_pd ∷ op_ad ∷ op_su ∷ op_mi ∷ op_di ∷ op_as ∷ op_ss ∷ op_ms ∷ op_ds ∷ op_np ∷ op_sd
    ∷ op_rc ∷ op_si ∷ op_pe ∷ op_ve ∷ op_ls ∷ op_st ∷ op_fk ∷ op_ex ∷ op_gp ∷ op_ha ∷ []

-- The loop over the table.
unfoldable pub find_op : ℕ → List Opcode → Option Opcode
unfolding code
find_op op [] = none
find_op op (k ∷ l) = let rest = find_op op l in if code k == op then some k else rest

module _ {T : Type 0} (tree : RbTree T) where
  unfoldable pub run_op : Opcode → ℕ → ℤ → Run (Machine (Os T)) ℤ
  run_op op_lr = Register.load_all (cfs tree)
  run_op op_ll = Register.load_low (cfs tree)
  run_op op_lh = Register.load_high (cfs tree)
  run_op op_sr = Register.store_register (cfs tree)
  run_op op_sp = Stack.set_sp
  run_op op_ps = Stack.get_sp
  run_op op_ph = Stack.push (cfs tree)
  run_op op_pp = Stack.pop (cfs tree)
  run_op op_ce = Register.cmp_eql (cfs tree)
  run_op op_cl = Register.cmp_less (cfs tree)
  run_op op_bt = Control.jmp_if
  run_op op_bu = Control.jmp
  run_op op_gd = Io.read tree
  run_op op_pd = Io.print tree
  run_op op_ad = Register.register_op (cfs tree) plus
  run_op op_su = Register.register_op (cfs tree) minus
  run_op op_mi = Register.register_op (cfs tree) times
  run_op op_di = Register.register_op (cfs tree) over
  run_op op_as = Stack.stack_op (cfs tree) plus
  run_op op_ss = Stack.stack_op (cfs tree) minus
  run_op op_ms = Stack.stack_op (cfs tree) times
  run_op op_ds = Stack.stack_op (cfs tree) over
  run_op op_np = Control.nop
  run_op op_sd = Msg.send (cfs tree)
  run_op op_rc = Msg.recv (cfs tree)
  run_op op_si = Sem.set_sem
  run_op op_pe = Sem.sem_down (cfs tree)
  run_op op_ve = Sem.sem_up (cfs tree)
  run_op op_ls = Register.load_shared
  run_op op_st = Register.store_shared
  run_op op_fk = Control.fork_proc (cfs tree)
  run_op op_ex = Exec.exec_proc tree
  run_op op_gp = Register.identify
  run_op op_ha = Control.halt (cfs tree)

  -- The end of tick: the instruction's reference is given up if it was found in the table.
  unfoldable pub dispatch : ℕ → ℤ → ℤ → Option Opcode → Run (Machine (Os T)) ℤ
  unfolding run_op release Io.print_mem
  dispatch i ic addr none = do Io.print_mem tree i; pure minus_one
  dispatch i ic addr (some k) = do res ← run_op k i addr; release (cfs tree) i ic; pure res

  -- tick with the reference `a` of the word at the counter.
  unfoldable pub execute : ℕ → ℤ → ℕ → Run (Machine (Os T)) ℤ
  unfolding set_proc on_memory read_ref find_op dispatch
  execute i ic a = do
    p ← this i
    set_proc i (set_ic p (int2word (add_ℕ ic 1)))
    w ← on_memory (read_ref a)
    dispatch i ic (word2int (word b'0' b'0' w.b2 w.b3)) (find_op (opcode_of w.b0 w.b1) op_table)

  unfoldable pub tick : ℕ → Run (Machine (Os T)) ℤ
  unfolding execute wordref or_fail
  tick pid = do
    m ← get
    if leb m.next_pid pid
        then pure (pos 1)
        else if not ((m.proc_table pid).pid == pid)
        then pure minus_one
        else do
          let ic = word2int (ic_word (m.proc_table pid))
          if is_neg ic
              then pure minus_one
              else do word ← wordref (cfs tree) pid ic; or_fail word λ a. execute pid ic a
