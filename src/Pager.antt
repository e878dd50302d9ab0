-- ===== src/Pager.antt =====
-- Demand paging (pagemem.c). `mem` is physical memory (mem.c), `page_mem` the secondary storage.
-- The arrays hold words, so the factor 4 of the byte addresses is gone. pg_size divides MEMSIZE, so
-- the products of a frame or page number and pg_size stay below 10001 and need no wrap-around.
pub mod Inv
pub mod Victim
pub mod Evict
pub mod Load
pub mod Room
pub mod Spare
pub mod Touch
pub mod Write
pub mod Release
pub mod Errors
pub mod Init
pub mod Sample
mod Tests
use brain_project.Prelude.{
  ℕ, zero, suc, ◌+◌, ◌-◌, ◌*◌, ◌/◌, ◌%◌, Bool, true, false, not, ◌&&◌, ◌||◌, ltb, leb, ◌==◌,
  if◌then◌else◌, ℤ, pos, negsuc, minus_one, is_neg, add_u32, sub_u32, Option, none, some, Run, pure,
  fault, get, modify, ◌>>=◌, ◌>>◌, set, copy, fill_first,
}
use brain_project.Word.{Word}
use brain_project.Word
use brain_project.Layout.{mem_size, vaddr_size}

-- struct page_ent; `valid` is a flag.
pub record PageEnt : Type 0 where
  pub valid : Bool
  pub frame_addr : ℕ
  pub refcount : ℕ

-- struct freq_ent
pub record FreqEnt : Type 0 where
  pub last_access : ℕ
  pub period : ℕ

-- history_weight, a double: `period *= w` and `period += (1-w)*delta` on an unsigned int.
pub record Weight : Type 0 where
  pub scale : ℕ → ℕ
  pub blend : ℕ → ℕ → ℕ

-- The weight 0.5 that main passes. Half of an unsigned int is exact in a double.
abbrev pub half : Weight
half = record { scale = λ p. p / 2; blend = λ p delta. p + delta / 2 }

pub record Pager : Type 0 where
  pub pg_count : ℕ
  pub pg_size : ℕ
  pub page_mem : ℕ → Word
  pub pg_table : ℕ → PageEnt
  pub free_frames : ℕ → Bool
  pub history_weight : Weight
  pub pg_period : ℕ → FreqEnt
  pub page_faults : ℕ
  pub mem : ℕ → Word

-- MEMSIZE/sys_pager.pg_size
abbrev pub frame_count : Pager → ℕ
frame_count s = mem_size / s.pg_size

abbrev pub set_entry : Pager → ℕ → PageEnt → Pager
set_entry s page e = record s { pg_table = set s.pg_table page e }

-- init_page_table, init_frequency_table and init_free_frames. What malloc returns holds any values:
-- they are those of `s`.
pub init_page_table : Pager → Pager
init_page_table s = record s {
  pg_table =
      fill_first s.pg_table s.pg_count (record { valid = false; frame_addr = 0; refcount = 0 });
}

pub init_frequency_table : Weight → Pager → Pager
init_frequency_table w s = record s {
  history_weight = w;
  pg_period = fill_first s.pg_period s.pg_count (record { last_access = 0; period = 0 });
}

pub init_free_frames : Pager → Pager
init_free_frames s = record s { free_frames = fill_first s.free_frames (frame_count s) true }

-- The answers of malloc for the four tables, in the order of the calls.
pub record Mallocs : Type 0 where
  pub page_mem : Bool
  pub page_table : Bool
  pub frequencies : Bool
  pub frames : Bool

pub set_sizes : ℕ → Pager → Pager
set_sizes pg_size s = record s {
  page_faults = 0;
  pg_size = pg_size;
  pg_count = vaddr_size / pg_size;
}

-- The storage is filled with '0' before its pointer is tested.
pub init_storage : Pager → Pager
init_storage s = record s { page_mem = fill_first s.page_mem vaddr_size (Word.fill b'0') }

-- The tables that are built before an alloc fails stay as they are, though they are freed.
pub init_tables : Mallocs → Weight → Run Pager ℤ
unfolding init_storage init_page_table init_frequency_table init_free_frames
init_tables m w = if not m.page_mem then fault else do
  modify init_storage
  if not m.page_table then pure minus_one else do
    modify init_page_table
    if not m.frequencies then pure minus_one else do
      modify (init_frequency_table w)
      if not m.frames then pure minus_one else do modify init_free_frames; pure (pos 0)

-- pagemem_init up to the call of freemem. A page size of 0 divides by 0.
pub check_page_size : ℕ → Run Pager ℤ
check_page_size pg_size =
    if ltb mem_size pg_size
    then pure minus_one
    else if pg_size == 0
    then fault
    else if mem_size % pg_size == 0
    then (do modify (set_sizes pg_size); pure (pos 0))
    else pure minus_one

-- Pages that are not in memory or in use are passed over.
abbrev pub removable : PageEnt → Bool
removable e = not (not e.valid || ltb 0 e.refcount)

-- max_index == -1 || freq_table.pg_period[i].period > max_period
abbrev pub exceeds : ℕ → Option (ℕ × ℕ) → Bool
exceeds period none = true
exceeds period (some (_, max_period)) = ltb max_period period

-- The loop of get_removal_page, with the rounds left; max_index and max_period are set together.
pub removal_loop : Pager → ℕ → ℕ → Option (ℕ × ℕ) → Option (ℕ × ℕ)
removal_loop s zero i best = best
removal_loop s (suc k) i best =
    let period = (s.pg_period i).period in
    removal_loop s k (suc i)
      (if removable (s.pg_table i) && exceeds period best then some (i, period) else best)

-- `none` is the result -1.
pub get_removal_page : Pager → Option (ℕ × ℕ)
unfolding removal_loop
get_removal_page s = removal_loop s s.pg_count 0 none

-- pg_table[pg_count], which the test lets pass, is outside the table.
pub store_page : ℕ → Run Pager (Unit {0})
store_page page s =
    let frame_addr = (s.pg_table page).frame_addr in
    if ltb s.pg_count page
    then some (tt, s)
    else if page == s.pg_count
    then none
    else some
        (tt, record s { page_mem = copy s.page_mem (page * s.pg_size) s.mem frame_addr s.pg_size })

-- pg_table[page].valid = 0, and the frame becomes free.
pub release_frame : ℕ → Pager → Pager
release_frame page s =
    let e = s.pg_table page in
    record s {
      pg_table = set s.pg_table page (record e { valid = false });
      free_frames = set s.free_frames (e.frame_addr / s.pg_size) true;
    }

-- The page -1 is looked up in the table before it is refused: an index outside the table.
pub toss_removal : Option (ℕ × ℕ) → Run Pager ℤ
unfolding store_page release_frame
toss_removal none = fault
toss_removal (some (page, _)) = do
  s ← get
  if not (s.pg_table page).valid
      then pure minus_one
      else do store_page page; modify (release_frame page); pure (pos 0)

pub toss_page : Run Pager ℤ
unfolding toss_removal get_removal_page
toss_page = do s ← get; toss_removal (get_removal_page s)

-- The search for a frame marked free: `k` rounds are left, and `frame_count` is reached if there is none.
pub find_free : (ℕ → Bool) → ℕ → ℕ → ℕ
find_free free zero i = i
find_free free (suc k) i = let further = find_free free k (suc i) in if free i then i else further

pub first_free : Pager → ℕ
unfolding find_free
first_free s = find_free s.free_frames (frame_count s) 0

-- The page is copied into frame `i`. The reference count stays.
pub load_frame : ℕ → ℕ → Pager → Pager
load_frame page i s = record s {
  pg_table =
      set s.pg_table page (record (s.pg_table page) { valid = true; frame_addr = i * s.pg_size });
  mem = copy s.mem (i * s.pg_size) s.page_mem (page * s.pg_size) s.pg_size;
  free_frames = set s.free_frames i false;
}

pub page_in : ℕ → Run Pager ℤ
unfolding first_free load_frame
page_in page = do
  s ← get
  if first_free s == frame_count s
      then pure minus_one
      else do modify (load_frame page (first_free s)); pure (pos 0)

-- The average over the times between accesses, `ops` being the time.
pub refresh : Weight → ℕ → FreqEnt → FreqEnt
refresh w ops f = record {
  last_access = ops;
  period = w.blend (w.scale f.period) (sub_u32 ops f.last_access);
}

pub count_access : ℕ → ℕ → Pager → Pager
unfolding refresh
count_access ops page s =
    let e = s.pg_table page in
    record s {
      pg_table = set s.pg_table page (record e { refcount = add_u32 e.refcount 1 });
      pg_period = set s.pg_period page (refresh s.history_weight ops (s.pg_period page));
    }

pub update_page_info : ℕ → ℕ → Run Pager (Unit {0})
unfolding count_access
update_page_info ops page s =
    if ltb s.pg_count page
    then some (tt, s)
    else if page == s.pg_count
    then none
    else some (tt, count_access ops page s)

-- toss_page makes room if no frame is free; its result is not looked at.
pub make_room : Run Pager (Unit {0})
unfolding first_free
make_room = do
  s ← get
  if first_free s == frame_count s then (toss_page >>= λ _. pure tt) else pure tt

abbrev pub faulted : Pager → Pager
faulted s = record s { page_faults = add_u32 s.page_faults 1 }

-- What touch_page does for a page that is not in memory.
pub bring_in : ℕ → Run Pager ℤ
unfolding make_room page_in
bring_in page = do modify faulted; make_room; page_in page

-- The end of touch_page: the access is counted, and the address is the one in the page's frame.
pub finish_touch : ℕ → ℕ → ℕ → Run Pager ℤ
unfolding update_page_info
finish_touch ops page offset = do
  update_page_info ops page
  s ← get
  pure (pos ((s.pg_table page).frame_addr + offset))

-- The page is in memory already, or is brought in.
pub ensure_page : ℕ → Run Pager ℤ
unfolding bring_in
ensure_page page = do s ← get; if (s.pg_table page).valid then pure (pos 0) else bring_in page

-- The physical address of a virtual one, or -1. `ops` is the counter of sched.c.
pub touch_page : ℕ → ℕ → Run Pager ℤ
unfolding ensure_page finish_touch
touch_page ops vaddr = do
  s ← get
  let page = vaddr / s.pg_size
  let offset = vaddr % s.pg_size
  if ltb (sub_u32 s.pg_count 1) page then pure minus_one else do
    ready ← ensure_page page
    if is_neg ready then pure minus_one else finish_touch ops page offset

-- Gives a reference up; a page that has none is left as it is.
pub drop_ref : ℕ → Pager → Pager
drop_ref page s =
    let e = s.pg_table page in
    if e.refcount == 0
    then s
    else record s { pg_table = set s.pg_table page (record e { refcount = e.refcount - 1 }) }

pub page_release_ref : ℤ → Run Pager (Unit {0})
unfolding drop_ref
page_release_ref (negsuc _) s = some (tt, s)
page_release_ref (pos addr) s =
    let page = addr / s.pg_size in
    if ltb (sub_u32 s.pg_count 1) page then some (tt, s) else some (tt, drop_ref page s)

-- The part of page_store behind the address translation: the word goes to secondary storage.
unfoldable pub page_write : ℕ → Word → Run Pager (Unit {0})
page_write global_addr src s =
    if ltb global_addr vaddr_size
    then some (tt, record s { page_mem = set s.page_mem global_addr src })
    else none
