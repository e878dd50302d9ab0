-- ===== src/Vm/Order.antt =====
-- The comparison of the register with a word as numbers (cmp_less of vm/cmp.c).
use brain_project.Prelude.{
  ℕ, ◌<◌, ◌≤◌, ◌≡◌, ◌↔◌, refl, arith, Bool, true, false, if◌then◌else◌, ℤ, pos, some, bind_some,
  inl, inr, ◌⊎◌,
}
use brain_project.Word.{memcmp_lt}
use brain_project.Word.Decimal.{IsNumeric, value}
use brain_project.Word.Compare.{memcmp_lt-value}
use brain_project.Layout.{vaddr_size}
use brain_project.Pager.{Pager}
use brain_project.Pager.Inv.{view}
use brain_project.Mem.{get_global_address}
use brain_project.Mem.Access.{Accessible, Settled}
use brain_project.Vm.Machine.{Scheduler, Machine, load, or_fail, set_proc}
use brain_project.Vm.Register.{from_word, cmp_less}
use brain_project.Vm.Transfer.{paged, with_proc, load_lem}

abbrev mark : Bool → ℕ
mark b = if b then b'T' else b'F'

flag_iff :
    (b : Bool) (n k : ℕ)
    → ((b ≡ true) ↔ (n < k))
    → ((n < k) × (mark b ≡ b'T')) ⊎ ((k ≤ n) × (mark b ≡ b'F'))
flag_iff true n k h = inl (h.0 refl, refl)
flag_iff false n k h = inr (ground (arith, h), refl)

module _ {S : Type 0} (sch : Scheduler S) (i : ℕ) (addr : ℤ) (m : Machine S) (g : ℕ)
    (e : get_global_address (m.proc_table i) addr ≡ pos g) (v : Accessible m.memory.pager g) where
  -- cmp_less, where the register and an accessible word are numerals, returns 0. It sets the
  -- condition to T where the number in the register is below that of the word, and to F where it is
  -- not. It changes no other register, no word of the virtual space and no count of references.
  pub cmp_less_lem :
      IsNumeric (m.proc_table i).r
      → IsNumeric (view m.memory.pager g)
      → (c : ℕ) × (q : Pager) × (cmp_less sch i addr m
          ≡ some (pos 0, with_proc (paged m q) i (record (m.proc_table i) { c = c })))
        × (((value (m.proc_table i).r < value (view m.memory.pager g)) × (c ≡ b'T'))
            ⊎ ((value (view m.memory.pager g) ≤ value (m.proc_table i).r) × (c ≡ b'F')))
        × Settled m.memory.pager q g
        × ((u : ℕ) → u < vaddr_size → view q u ≡ view m.memory.pager u)
  unfolding cmp_less from_word or_fail set_proc
  cmp_less_lem a b =
      let x = view m.memory.pager g in
      let r = (m.proc_table i).r in
      let (q, run, settled, same) = load_lem sch i addr m g e v in
      (
        mark (memcmp_lt r x),
        q,
        bind_some (load sch i addr) _ m run,
        flag_iff (memcmp_lt r x) (value r) (value x) (memcmp_lt-value r x a b),
        settled,
        same,
      )
