-- ===== src/Vm/Tests.antt =====
-- A machine with two processes, and the theorems at it.
use brain_project.Prelude.{
  ℕ, suc, ◌<◌, ◌≤◌, ◌⊎◌, subst, sym, ◌≡◌, ◌≢◌, ◌==◌, refl, pos, false, some, [], ◌∷◌, arith,
  if◌then◌else◌,
}
use brain_project.Word.{Word, word, word2int, fill, plus, do_binop}
use brain_project.Word.Decimal.{IsNumeric, value}
use brain_project.Layout.{vaddr_size}
use brain_project.Pager.{Pager}
use brain_project.Pager.Inv.{view}
use brain_project.Pager.Sample.{no_wrap, fresh-Spare, resident, booted, fresh}
use brain_project.Mem.Access.{Accessible, Accessible-of-Spare, Settled}
use brain_project.Vm.Register.{cmp_less, register_op, load_all, store_register}
use brain_project.Vm.Order.{cmp_less_lem}
use brain_project.Vm.Arith.{register_op_lem}
use brain_project.Proc.{ic_word}
use brain_project.Mem.{get_global_address}
use brain_project.Mem.Sample.{sample, memory, can_access}
use brain_project.Vm.Machine.{Scheduler, Machine}
use brain_project.Vm.Stack.{push, pop}
use brain_project.Vm.Transfer.{paged, with_proc, load_all_lem, store_register_lem}
use brain_project.Vm.Roundtrip.{push-pop}

-- A scheduler that counts the calls.
abbrev counting : Scheduler ℕ
counting = record {
  ops = λ s. s;
  suspend = λ _ s. some (pos 0, suc s);
  resume = λ _ s. some (pos 0, suc s);
  reset = λ _ s. some (pos 0, suc s);
}

-- Process 1 has its stack pointer at 19. Semaphore 5 is taken.
abbrev machine : Machine ℕ
machine = record {
  memory = memory;
  proc_table = λ k. record (sample k) { sp = word b'0' b'0' b'1' b'9' };
  next_pid = 3;
  sem_table = λ k. if k == 5 then 0 else 1;
  sem_wq = λ k. if k == 5 then 2 ∷ [] else [];
  recv_wq = λ _. [];
  send_wq = λ _. [];
  sched = 7;
}

reaches : get_global_address (machine.proc_table 1) (pos 20) ≡ pos 120
unfolding get_global_address word2int
reaches = refl

at_nineteen : word2int (machine.proc_table 1).sp ≡ pos 19
unfolding word2int
at_nineteen = refl

at_zero : word2int (ic_word (machine.proc_table 1)) ≡ pos 0
unfolding word2int
at_zero = refl

load_all_lem_example :
    (q : Pager) × (load_all counting 1 (pos 20) machine
      ≡ some (
        pos 0,
        with_proc
            (paged machine q)
            1
            (record (machine.proc_table 1) { r = view (resident false) 120 }),
      ))
    × Settled (resident false) q 120
    × ((u : ℕ) → u < vaddr_size → view q u ≡ view (resident false) u)
load_all_lem_example = load_all_lem counting 1 (pos 20) machine 120 reaches can_access

store_register_lem_example :
    (q : Pager) × (store_register counting 1 (pos 20) machine ≡ some (pos 0, paged machine q))
    × Settled (resident false) q 120
    × ((u : ℕ)
        → u < vaddr_size
        → view q u ≡ (if 120 == u then (machine.proc_table 1).r else view (resident false) u))
store_register_lem_example = store_register_lem counting 1 (pos 20) machine 120 reaches can_access

push-pop_example :
    (m1 : Machine ℕ) × (m2 : Machine ℕ) × (push counting 1 (pos 0) machine ≡ some (pos 0, m1))
    × (pop counting 1 (pos 0) m1 ≡ some (pos 0, m2))
    × (m2.proc_table 1 ≡ machine.proc_table 1)
    × Settled (resident false) m2.memory.pager 120
    × ((u : ℕ) → u < vaddr_size → u ≢ 120 → view m2.memory.pager u ≡ view (resident false) u)
push-pop_example =
    push-pop counting 1 (pos 0) machine 19 120 at_nineteen (omega arith) (omega arith) reaches
      can_access

-- Just after the start all words are '0000'.
adds_zero : do_binop (fill b'7') (view booted 120) plus ≡ pos 7777
unfolding do_binop word2int
adds_zero = rw (fresh.zeroed 120 (omega arith)) refl

can_access_started : Accessible booted 120
can_access_started = Accessible-of-Spare 120 fresh.inv (omega arith) fresh-Spare no_wrap

register_op_lem_example :
    (x : Word) × (q : Pager) × (register_op counting plus 1 (pos 20) (paged machine booted)
      ≡ some (
        pos 0,
        with_proc (paged (paged machine booted) q) 1 (record (machine.proc_table 1) { r = x }),
      ))
    × IsNumeric x
    × (value x ≡ 7777)
    × Settled booted q 120
    × ((u : ℕ) → u < vaddr_size → view q u ≡ view booted u)
register_op_lem_example =
    register_op_lem counting plus 1 (pos 20) (paged machine booted) 120 reaches can_access_started
      7777 adds_zero

-- The machine with 0042 in the registers.
abbrev with_number : Machine ℕ
with_number = record (paged machine booted) {
  proc_table = λ k. record (machine.proc_table k) { r = word b'0' b'0' b'4' b'2' };
}

zero-IsNumeric : IsNumeric (view booted 120)
zero-IsNumeric =
    subst IsNumeric (sym (fresh.zeroed 120 (omega arith)))
      (record { d0 = omega arith; d1 = omega arith; d2 = omega arith; d3 = omega arith })

cmp_less_lem_example :
    (c : ℕ) × (q : Pager) × (cmp_less counting 1 (pos 20) with_number
      ≡ some
          (pos 0, with_proc (paged with_number q) 1 (record (with_number.proc_table 1) { c = c })))
    × (((42 < value (view booted 120)) × (c ≡ b'T'))
        ⊎ ((value (view booted 120) ≤ 42) × (c ≡ b'F')))
    × Settled booted q 120
    × ((u : ℕ) → u < vaddr_size → view q u ≡ view booted u)
unfolding value get_global_address
cmp_less_lem_example =
    cmp_less_lem counting 1 (pos 20) with_number 120 reaches can_access_started
      (record { d0 = omega arith; d1 = omega arith; d2 = omega arith; d3 = omega arith })
      zero-IsNumeric
