-- ===== src/Mem.antt =====
-- Memory as processes see it (mem.c): address translation, references to words, shared memory, and
-- the allocation of virtual space. A pointer into `mem` is the index of its word; `none` is NULL.
pub mod Address
pub mod Access
pub mod Direct
pub mod Regions
pub mod Boot
pub mod Sample
mod Tests
use brain_project.Prelude.{
  ℕ, zero, suc, ◌+◌, ◌-◌, Bool, true, false, ◌||◌, ltb, leb, if◌then◌else◌, ℤ, pos, negsuc,
  minus_one, is_neg, pred_ℤ, to_unsigned, add_ℕ, Option, none, some, List, Run, pure, fault, get,
  modify, ◌>>=◌, ◌>>◌, set,
}
use brain_project.Word.{Word, word2int, int2word}
use brain_project.Layout.{mem_size, vaddr_size}
use brain_project.HoleList.{Hole, add_hole, get_first_hole}
use brain_project.Pager.{
  Pager, Mallocs, Weight, touch_page, page_release_ref, page_write, check_page_size, init_tables,
}
use brain_project.Proc.{Proc}

-- The static data of mem.c, pagemem.c and hole_list.c. `mallocs` has the answers of malloc, and
-- `malloc_calls` counts the calls.
pub record Memory : Type 0 where
  pub pager : Pager
  pub holes : List Hole
  pub shm : ℕ → Word
  pub mallocs : ℕ → Bool
  pub malloc_calls : ℕ

pub on_pager : {A : Type 0} → Run Pager A → Run Memory A
on_pager m s = elim (m s.pager) [ none ↦ none | some (a, q) ↦ some (a, record s { pager = q }) ]

unfoldable pub malloc : Run Memory Bool
malloc s = some (s.mallocs s.malloc_calls, record s { malloc_calls = suc s.malloc_calls })

pub memalloc : ℤ → Run Memory ℤ
memalloc (negsuc _) s = some (minus_one, s)
memalloc (pos size) s =
    let (addr, rest) = get_first_hole size s.holes in some (addr, record s { holes = rest })

-- The result of add_hole is not looked at.
pub freemem : ℕ → ℕ → Run Memory (Unit {0})
unfolding malloc
freemem addr size = do
  malloc_ok ← malloc
  modify (λ s. record s { holes = (add_hole malloc_ok addr size s.holes).1 })

-- The address of `addr` in the virtual space, given the base and the limit.
translate : ℤ → ℤ → ℕ → ℤ
translate (pos base) (pos limit) addr = if ltb limit addr then minus_one else pos (base + addr)
translate (pos base) (negsuc _) addr = minus_one
translate (negsuc _) limit addr = minus_one

unfoldable pub get_global_address : Proc → ℤ → ℤ
unfolding translate
get_global_address p (negsuc _) = minus_one
get_global_address p (pos addr) = translate (word2int p.br) (word2int p.lr) addr

-- A negative result of touch_page becomes NULL.
pub wordref_of : ℤ → Option ℕ
wordref_of (pos a) = some a
wordref_of (negsuc _) = none

-- `ops` is the counter of sched.c.
pub touch_global : ℕ → ℤ → Run Memory (Option ℕ)
unfolding on_pager wordref_of
touch_global ops (negsuc _) = pure none
touch_global ops (pos global_addr) = do
  phys_addr ← on_pager (touch_page ops global_addr)
  pure (wordref_of phys_addr)

pub get_wordref : ℕ → Proc → ℤ → Run Memory (Option ℕ)
unfolding touch_global
get_wordref ops p addr = touch_global ops (get_global_address p addr)

pub release_wordref : Proc → ℤ → Run Memory (Unit {0})
unfolding on_pager
release_wordref p addr =
    let global_addr = get_global_address p addr in
    if is_neg global_addr then pure tt else on_pager (page_release_ref global_addr)

-- memcpy(buf, ref, 4) and memcpy(ref, buf, 4). References lie in `mem`.
unfoldable pub read_ref : ℕ → Run Memory Word
read_ref a s = some (s.pager.mem a, s)

unfoldable pub write_ref : ℕ → Word → Run Memory (Unit {0})
write_ref a x s = some (tt, record s { pager = record s.pager { mem = set s.pager.mem a x } })

-- The common shape of the instructions that use one word: take a reference, use it unless it is
-- NULL, and give it up.
through_ref : {A : Type 0} → Proc → ℤ → (ℕ → Run Memory A) → Option ℕ → Run Memory (Option A)
unfolding release_wordref
through_ref p addr body none = pure none
through_ref p addr body (some a) = do x ← body a; release_wordref p addr; pure (some x)

pub with_ref : {A : Type 0} → ℕ → Proc → ℤ → (ℕ → Run Memory A) → Run Memory (Option A)
unfolding get_wordref through_ref
with_ref ops p addr body = do ref ← get_wordref ops p addr; through_ref p addr body ref

pub fetch_word : ℕ → Proc → ℤ → Run Memory (Option Word)
unfolding with_ref read_ref
fetch_word ops p addr = with_ref ops p addr read_ref

pub store_word : ℕ → Proc → ℤ → Word → Run Memory (Option (Unit {0}))
unfolding with_ref write_ref
store_word ops p addr x = with_ref ops p addr (λ a. write_ref a x)

-- get_shmp: NULL outside 0 .. 99.
pub get_shmp : ℤ → Option ℕ
get_shmp (negsuc _) = none
get_shmp (pos addr) = if ltb 99 addr then none else some addr

-- The word that is copied, or the return value 1.
unfoldable pub load_shm : ℤ → Memory → Option Word
unfolding get_shmp
load_shm addr s = elim (get_shmp addr) [ none ↦ none | some a ↦ some (s.shm a) ]

pub store_shm : Word → ℤ → Run Memory ℤ
unfolding get_shmp
store_shm src addr s = elim (get_shmp addr) [
  | none ↦ some (pos 1, s)
  | some a ↦ some (pos 0, record s { shm = set s.shm a src })
]

-- page_store of pagemem.c.
store_at : Word → ℤ → Run Memory ℤ
unfolding on_pager
store_at src (negsuc _) = pure minus_one
store_at src (pos global_addr) = do on_pager (page_write global_addr src); pure (pos 0)

pub page_store : Proc → Word → ℤ → Run Memory ℤ
unfolding store_at
page_store p src addr = store_at src (get_global_address p addr)

-- The copy of word `c` of `p` to `q` through two references; `false` if one of them is NULL.
dup_between : Proc → Proc → ℕ → Option ℕ → Option ℕ → Run Memory Bool
unfolding release_wordref read_ref write_ref
dup_between p q c none dest = pure false
dup_between p q c (some a) none = pure false
dup_between p q c (some a) (some b) = do
  x ← read_ref a
  write_ref b x
  release_wordref p (pos c)
  release_wordref q (pos c)
  pure true

-- One round of dup_mem. Both references are taken before either is tested.
dup_word : ℕ → Proc → Proc → ℕ → Run Memory Bool
unfolding get_wordref dup_between
dup_word ops p q c = do
  src ← get_wordref ops p (pos c)
  dest ← get_wordref ops q (pos c)
  dup_between p q c src dest

-- The loop of dup_mem with the rounds left.
dup_loop : ℕ → Proc → Proc → ℕ → ℕ → Run Memory ℤ
unfolding dup_word
dup_loop ops p q zero c = pure (pos 0)
dup_loop ops p q (suc k) c = do
  copied ← dup_word ops p q c
  let rest = dup_loop ops p q k (suc c)
  if copied then rest else pure minus_one

-- c<=i && c<=j from c = 0
abbrev rounds : ℤ → ℤ → ℕ
rounds (pos i) (pos j) = if leb i j then suc i else suc j
rounds (pos i) (negsuc _) = 0
rounds (negsuc _) j = 0

pub dup_mem : ℕ → Proc → Proc → Run Memory ℤ
unfolding dup_loop
dup_mem ops p q = dup_loop ops p q (rounds (word2int p.lr) (word2int q.lr)) 0

free_words : ℤ → ℤ → Run Memory (Unit {0})
unfolding freemem
free_words (pos base) (pos limit) = freemem base (limit + 1)
free_words (pos base) (negsuc _) = pure tt
free_words (negsuc _) limit = pure tt

-- freemem(base, limit+1), unless a register is invalid.
pub free_region : Proc → Run Memory (Unit {0})
unfolding free_words
free_region p = free_words (word2int p.br) (word2int p.lr)

-- The result and the registers of the process.
unfoldable pub resize_proc : Proc → ℤ → Run Memory (ℤ × Proc)
unfolding memalloc free_region
resize_proc p newsize = do
  addr ← memalloc newsize
  if is_neg addr then pure (minus_one, p) else do
    free_region p
    pure (pos 0, record p { br = int2word addr; lr = int2word (pred_ℤ newsize) })

-- pagemem_init of pagemem.c. The mallocs of the tables follow that of freemem.
pub pagemem_init : ℕ → Weight → Mallocs → Run Memory ℤ
unfolding on_pager freemem
pagemem_init pg_size history_weight m = do
  accepted ← on_pager (check_page_size pg_size)
  if is_neg accepted
      then pure minus_one
      else do freemem 0 vaddr_size; on_pager (init_tables m history_weight)
