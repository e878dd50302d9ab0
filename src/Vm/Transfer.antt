-- ===== src/Vm/Transfer.antt =====
-- What loads and stores do to the process and to its memory (vm/load.c, vm/store.c).
use brain_project.Prelude.{ℕ, ◌<◌, ◌≡◌, ◌==◌, if◌then◌else◌, ℤ, pos, some, bind_some, set}
use brain_project.Word.{Word}
use brain_project.Layout.{vaddr_size}
use brain_project.Pager.{Pager}
use brain_project.Pager.Inv.{view}
use brain_project.Proc.{Proc}
use brain_project.Mem.{get_global_address, fetch_word, store_word}
use brain_project.Mem.Access.{Accessible, Settled, with_pager, fetch_word_lem, store_word_lem}
use brain_project.Vm.Machine.{Scheduler, Machine, on_memory-some, set_proc, or_fail, load, store}
use brain_project.Vm.Register.{from_word, load_all, store_register}

-- The machine with another pager, and with another entry of the process table.
abbrev pub paged : {S : Type 0} → Machine S → Pager → Machine S
paged m q = record m { memory = with_pager m.memory q }

abbrev pub with_proc : {S : Type 0} → Machine S → ℕ → Proc → Machine S
with_proc m i p = record m { proc_table = set m.proc_table i p }

module _ {S : Type 0} (sch : Scheduler S) (i : ℕ) (addr : ℤ) (m : Machine S) (g : ℕ)
    (e : get_global_address (m.proc_table i) addr ≡ pos g) (v : Accessible m.memory.pager g) where
  pub load_lem :
      (q : Pager) × (load sch i addr m ≡ some (some (view m.memory.pager g), paged m q))
      × Settled m.memory.pager q g
      × ((u : ℕ) → u < vaddr_size → view q u ≡ view m.memory.pager u)
  unfolding load
  load_lem =
      let (q, run, settled, same) =
        fetch_word_lem (sch.ops m.sched) (m.proc_table i) addr m.memory g e v in
      (q, on_memory-some m (fetch_word (sch.ops m.sched) (m.proc_table i) addr) run, settled, same)

  pub store_lem :
      (x : Word)
      → (q : Pager) × (store sch i addr x m ≡ some (some tt, paged m q))
        × Settled m.memory.pager q g
        × ((u : ℕ) → u < vaddr_size → view q u ≡ (if g == u then x else view m.memory.pager u))
  unfolding store
  store_lem x =
      let (q, run, settled, changed) =
        store_word_lem (sch.ops m.sched) (m.proc_table i) addr m.memory g e v x in
      (
        q,
        on_memory-some m (store_word (sch.ops m.sched) (m.proc_table i) addr x) run,
        settled,
        changed,
      )

  -- A load puts the word of the translated address into the register and returns 0. It changes no
  -- other register, no word of the virtual space and no count of references. The address is assumed
  -- to be accessible.
  pub load_all_lem :
      (q : Pager) × (load_all sch i addr m
        ≡ some (
          pos 0,
          with_proc (paged m q) i (record (m.proc_table i) { r = view m.memory.pager g }),
        ))
      × Settled m.memory.pager q g
      × ((u : ℕ) → u < vaddr_size → view q u ≡ view m.memory.pager u)
  unfolding load_all from_word or_fail set_proc
  load_all_lem =
      let (q, run, settled, same) = load_lem in
      (q, bind_some (load sch i addr) _ m run, settled, same)

  -- A store puts the register into the word of the translated address and returns 0. It changes no
  -- register, no other word of the virtual space and no count of references. The address is
  -- assumed to be accessible.
  pub store_register_lem :
      (q : Pager) × (store_register sch i addr m ≡ some (pos 0, paged m q))
      × Settled m.memory.pager q g
      × ((u : ℕ)
          → u < vaddr_size
          → view q u ≡ (if g == u then (m.proc_table i).r else view m.memory.pager u))
  unfolding store_register or_fail
  store_register_lem =
      let (q, run, settled, changed) = store_lem (m.proc_table i).r in
      (q, bind_some (store sch i addr (m.proc_table i).r) _ m run, settled, changed)
