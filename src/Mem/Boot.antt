-- ===== src/Mem/Boot.antt =====
-- The start of the paged memory (pagemem_init of pagemem.c, with its call of freemem).
use brain_project.Prelude.{ℕ, suc, ◌<◌, ◌%◌, ◌≡◌, refl, pos, true, some, ◌∙◌, [], ◌∷◌, bind_some}
use brain_project.Layout.{mem_size, vaddr_size}
use brain_project.HoleList.{hole, add_hole}
use brain_project.Pager.{Weight, check_page_size, set_sizes, init_tables}
use brain_project.Pager.Init.{
  Started, start, start-Started, all_ok, check_page_size-accepts, init_tables-start,
}
use brain_project.Mem.{Memory, pagemem_init, freemem, malloc, on_pager}
use brain_project.Mem.Access.{on_pager-some, with_pager}

module _ (n : ℕ) (w : Weight) (s : Memory) (nonzero : 0 < n) (divides : mem_size % n ≡ 0)
    (empty : s.holes ≡ []) (has_memory : s.mallocs s.malloc_calls ≡ true) where
  sized : Memory
  sized = with_pager s (set_sizes n s.pager)

  booted : Memory
  booted = record s {
    pager = start n w s.pager;
    holes = hole 0 vaddr_size ∷ [];
    malloc_calls = suc s.malloc_calls;
  }

  whole_space :
      freemem 0 vaddr_size sized
      ≡ some
          (tt, record sized { holes = hole 0 vaddr_size ∷ []; malloc_calls = suc s.malloc_calls })
  unfolding freemem malloc sized add_hole
  whole_space = rw (has_memory, empty) refl

  -- A page size above 0 that divides MEMSIZE is accepted: pagemem_init returns 0, the page table
  -- is well formed, with every frame free, no page in memory, no reference and all words '0000', and
  -- the free list is one hole of the whole virtual space. The free list is assumed to be empty
  -- before, and every malloc to succeed.
  pub pagemem_init_lem :
      (s' : Memory) × (pagemem_init n w all_ok s ≡ some (pos 0, s'))
      × Started n s'.pager
      × (s'.holes ≡ hole 0 vaddr_size ∷ [])
  unfolding pagemem_init sized booted
  pagemem_init_lem = (
    booted,
    bind_some (on_pager (check_page_size n)) _ s
          (on_pager-some (check_page_size n) s (check_page_size-accepts n s.pager nonzero divides))
        ∙ bind_some (freemem 0 vaddr_size) (λ _. on_pager (init_tables all_ok w)) sized whole_space
        ∙ on_pager-some (init_tables all_ok w)
            (record sized { holes = hole 0 vaddr_size ∷ []; malloc_calls = suc s.malloc_calls })
            (init_tables-start n w s.pager),
    start-Started n w s.pager nonzero divides,
    refl,
  )
