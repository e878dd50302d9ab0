-- ===== src/Mem/Direct.antt =====
-- Words that a process gets in secondary storage (page_store of pagemem.c).
use brain_project.Prelude.{
  ℕ, ◌<◌, ◌≤◌, ◌+◌, ◌≡◌, refl, arith, true, false, ltb, ℤ, pos, some, set, ap, ◌∙◌, bind_some, pure,
}
use brain_project.Word.{Word, word2int}
use brain_project.Layout.{vaddr_size}
use brain_project.Pager.{page_write}
use brain_project.Proc.{Proc}
use brain_project.Mem.{Memory, page_store, store_at, on_pager, get_global_address, translate}

-- An address in the region of a process.
pub get_global_address-within :
    (p : Proc) (base limit addr : ℕ)
    → word2int p.br ≡ pos base
    → word2int p.lr ≡ pos limit
    → addr ≤ limit
    → get_global_address p (pos addr) ≡ pos (base + addr)
unfolding get_global_address translate
get_global_address-within p base limit addr e f h =
    let inside : ltb limit addr ≡ false = ground arith in rw (e, f, inside) refl

pub page_store_lem :
    (p : Proc) (src : Word) (addr : ℤ) (s : Memory) (g : ℕ)
    → get_global_address p addr ≡ pos g
    → g < vaddr_size
    → page_store p src addr s
      ≡ some (pos 0, record s { pager = record s.pager { page_mem = set s.pager.page_mem g src } })
unfolding page_store store_at on_pager page_write
page_store_lem p src addr s g e h =
    ap (λ a. store_at src a s) e
    ∙ bind_some (on_pager (page_write g src)) (λ _. pure (pos 0)) s
        (rw (on_pager, page_write, in_space h) refl)
  where
    in_space : {g : ℕ} → g < vaddr_size → ltb g 10000 ≡ true
    in_space l = ground arith
