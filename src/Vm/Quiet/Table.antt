-- ===== src/Vm/Quiet/Table.antt =====
-- Which entries of op_table (vm/vm.c) are quiet, and what that leaves of tick.
use brain_project.Prelude.{ℕ, ◌≡◌, Bool, true, false, refl, ℤ, pos, ◌⊎◌, inl, inr}
use brain_project.Word.{memcmp_eq, memcmp_lt, plus, minus, times, over}
use brain_project.RbTree.{RbTree}
use brain_project.Os.{Os, cfs}
use brain_project.Vm.Machine.{Machine}
use brain_project.Vm.Register.{
  take_all, take_low, take_high, flag, load_all, load_low, load_high, cmp_eql, cmp_less,
}
use brain_project.Vm.Control.{nop}
use brain_project.Vm.Tick.{
  Opcode, op_lr, op_ll, op_lh, op_sr, op_sp, op_ps, op_ph, op_pp, op_ce, op_cl, op_bt, op_bu, op_gd,
  op_pd, op_ad, op_su, op_mi, op_di, op_as, op_ss, op_ms, op_ds, op_np, op_sd, op_rc, op_si, op_pe,
  op_ve, op_ls, op_st, op_fk, op_ex, op_gp, op_ha, run_op,
}
use brain_project.Vm.Quiet.{Kept, Quiet, Quiet-pure}
use brain_project.Vm.Quiet.Basic.{
  from_word-Quiet, store_register-Quiet, register_op-Quiet, load_shared-Quiet, store_shared-Quiet,
  identify-Quiet, set_sp-Quiet, get_sp-Quiet, push-Quiet, pop-Quiet, stack_op-Quiet, jmp-Quiet,
  jmp_if-Quiet,
}
use brain_project.Vm.Quiet.Streams.{read-Quiet, print-Quiet}
use brain_project.Vm.Quiet.Files.{exec_proc-Quiet, set_sem-Quiet}

-- The instructions that call the scheduler: send, recv, P, V, fork and halt.
pub data Schedules : Opcode → Type 0 where
  sends : Schedules op_sd
  receives : Schedules op_rc
  downs : Schedules op_pe
  ups : Schedules op_ve
  forks : Schedules op_fk
  halts : Schedules op_ha

-- Whether an instruction is one of them.
unfoldable pub calls : Opcode → Bool
calls op_sd = true
calls op_rc = true
calls op_pe = true
calls op_ve = true
calls op_fk = true
calls op_ha = true
calls _ = false

module _ {T : Type 0} (tree : RbTree T) {m0 : Machine (Os T)} (i : ℕ) (addr : ℤ)
    (m : Machine (Os T)) (k : Kept m0 m) where
  -- Every other entry of the table is quiet.
  pub run_op-Quiet :
      (op : Opcode) → ((calls op ≡ false) × Quiet m0 (run_op tree op i addr m)) ⊎ Schedules op
  unfolding calls run_op load_all load_low load_high cmp_eql cmp_less nop
  run_op-Quiet op_lr =
      inl (refl, from_word-Quiet tree i (take_all (cfs tree)) (λ p x. refl) addr m k)
  run_op-Quiet op_ll =
      inl (refl, from_word-Quiet tree i (take_low (cfs tree)) (λ p x. refl) addr m k)
  run_op-Quiet op_lh =
      inl (refl, from_word-Quiet tree i (take_high (cfs tree)) (λ p x. refl) addr m k)
  run_op-Quiet op_sr = inl (refl, store_register-Quiet tree i addr m k)
  run_op-Quiet op_sp = inl (refl, set_sp-Quiet tree i addr m k)
  run_op-Quiet op_ps = inl (refl, get_sp-Quiet tree i addr m k)
  run_op-Quiet op_ph = inl (refl, push-Quiet tree i addr m k)
  run_op-Quiet op_pp = inl (refl, pop-Quiet tree i addr m k)
  run_op-Quiet op_ce = inl (
    refl,
    from_word-Quiet tree i (λ p x. flag (cfs tree) (memcmp_eq p.r x) p) (λ p x. refl) addr m k,
  )
  run_op-Quiet op_cl = inl (
    refl,
    from_word-Quiet tree i (λ p x. flag (cfs tree) (memcmp_lt p.r x) p) (λ p x. refl) addr m k,
  )
  run_op-Quiet op_bt = inl (refl, jmp_if-Quiet tree i addr m k)
  run_op-Quiet op_bu = inl (refl, jmp-Quiet tree i addr m k)
  run_op-Quiet op_gd = inl (refl, read-Quiet tree i m k addr)
  run_op-Quiet op_pd = inl (refl, print-Quiet tree i m k addr)
  run_op-Quiet op_ad = inl (refl, register_op-Quiet tree i addr m k plus)
  run_op-Quiet op_su = inl (refl, register_op-Quiet tree i addr m k minus)
  run_op-Quiet op_mi = inl (refl, register_op-Quiet tree i addr m k times)
  run_op-Quiet op_di = inl (refl, register_op-Quiet tree i addr m k over)
  run_op-Quiet op_as = inl (refl, stack_op-Quiet tree i addr m k plus)
  run_op-Quiet op_ss = inl (refl, stack_op-Quiet tree i addr m k minus)
  run_op-Quiet op_ms = inl (refl, stack_op-Quiet tree i addr m k times)
  run_op-Quiet op_ds = inl (refl, stack_op-Quiet tree i addr m k over)
  run_op-Quiet op_np = inl (refl, Quiet-pure (pos 0) m k)
  run_op-Quiet op_sd = inr sends
  run_op-Quiet op_rc = inr receives
  run_op-Quiet op_si = inl (refl, set_sem-Quiet tree i addr m k)
  run_op-Quiet op_pe = inr downs
  run_op-Quiet op_ve = inr ups
  run_op-Quiet op_ls = inl (refl, load_shared-Quiet tree i addr m k)
  run_op-Quiet op_st = inl (refl, store_shared-Quiet tree i addr m k)
  run_op-Quiet op_fk = inr forks
  run_op-Quiet op_ex = inl (refl, exec_proc-Quiet tree i addr m k)
  run_op-Quiet op_gp = inl (refl, identify-Quiet tree i addr m k)
  run_op-Quiet op_ha = inr halts
