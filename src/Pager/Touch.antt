-- ===== src/Pager/Touch.antt =====
-- touch_page of pagemem.c: paging does not change what a virtual address holds.
use brain_project.Prelude.{
  ℕ, suc, ◌+◌, ◌/◌, ◌%◌, ◌<◌, ◌^◌, ◌≡◌, ◌≢◌, refl, arith, true, false, pos, some, ap, ◌∙◌, sym,
  set_self, set_ne, Bool-cases, ◌⊎◌, inl, inr, ◌>>=◌, add_u32, set-field,
}
use native.Mathlib.Nat.{mod-lt}
use brain_project.Layout.{mem_size, vaddr_size}
use brain_project.Pager.{
  Pager, PageEnt, removable, touch_page, ensure_page, finish_touch, count_access, update_page_info,
}
use brain_project.Pager.Inv.{
  Placed, Inv, Keeps-refl, word_at, view, frame-lt, page-lt, test_inside, count-le, SameFrames,
  Inv-same, word_at-same,
}
use brain_project.Pager.Room.{CanMakeRoom, Brought, bring_in_lem}

-- What a successful touch of the virtual address `w` leaves behind: `a` is the physical address.
pub record Touched (s s' : Pager) (w a : ℕ) : Type 0 where
  pub inv : Inv s'
  pub same_size : s'.pg_size ≡ s.pg_size
  pub same_count : s'.pg_count ≡ s.pg_count
  -- the address lies in physical memory and holds the word of the virtual address
  pub in_memory : a < mem_size
  pub reads : s'.mem a ≡ view s w
  -- no virtual address changes its contents
  pub same_view : (u : ℕ) → u < vaddr_size → view s' u ≡ view s u
  -- the page is in memory at that address, with one more reference
  pub resident : (s'.pg_table (w / s.pg_size)).valid ≡ true
  pub placed : a ≡ (s'.pg_table (w / s.pg_size)).frame_addr + w % s.pg_size
  pub referenced :
      (s'.pg_table (w / s.pg_size)).refcount ≡ suc (s.pg_table (w / s.pg_size)).refcount
  pub refs : (p : ℕ) → p ≢ w / s.pg_size → (s'.pg_table p).refcount ≡ (s.pg_table p).refcount
  -- a page with a reference stays where it is
  pub pinned :
      (p : ℕ)
      → p ≢ w / s.pg_size
      → (s.pg_table p).valid ≡ true
      → removable (s.pg_table p) ≡ false
      → s'.pg_table p ≡ s.pg_table p

module _ (ops q : ℕ) (s : Pager) where
  abbrev counted : Pager
  counted = count_access ops q s

  entry_self :
      counted.pg_table q ≡ record (s.pg_table q) { refcount = add_u32 (s.pg_table q).refcount 1 }
  unfolding count_access
  entry_self = set_self _ q _

  entry_ne : (p : ℕ) → q ≢ p → counted.pg_table p ≡ s.pg_table p
  unfolding count_access
  entry_ne p n = set_ne _ q p _ n

  counted-SameFrames : SameFrames s counted
  unfolding count_access
  counted-SameFrames = record {
    size = refl;
    count = refl;
    frees = refl;
    valids = set-field (λ x. x.valid) s.pg_table q _ refl;
    addrs = set-field (λ x. x.frame_addr) s.pg_table q _ refl;
  }

  counted-refcount :
      suc (s.pg_table q).refcount < 2 ^ 32
      → (counted.pg_table q).refcount ≡ suc (s.pg_table q).refcount
  counted-refcount h = ap (λ (x : PageEnt). x.refcount) entry_self ∙ omega arith

  update_page_info_lem : q < s.pg_count → update_page_info ops q s ≡ some (tt, counted)
  unfolding update_page_info
  update_page_info_lem h = ground arith

  finish_touch_lem :
      (k : ℕ)
      → q < s.pg_count
      → finish_touch ops q k s ≡ some (pos ((s.pg_table q).frame_addr + k), counted)
  unfolding finish_touch
  finish_touch_lem k h =
      rw (update_page_info_lem h, ◌>>=◌)
        (ap (λ (n : ℕ). some (pos (n + k), counted)) (counted-SameFrames.addrs q))

ensure_page_lem :
    {s : Pager} (v : Inv s) (q : ℕ)
    → q < s.pg_count
    → ((s.pg_table q).valid ≡ true) ⊎ CanMakeRoom s
    → (t : Pager) × (ensure_page q s ≡ some (pos 0, t)) × Brought s t q
unfolding ensure_page
ensure_page_lem {s} v q h c = elim (Bool-cases (s.pg_table q).valid) [
  | inl r ↦ (s, rw r, record { inv = v; keeps = Keeps-refl s; resident = r; same_refs = refl })
  | inr r ↦
      let (t, e, b) = bring_in_lem v q h r (elim c [ inl r' ↦ cc | inr m ↦ m ]) in (t, rw r e, b)
]

touch_page_run :
    {s t : Pager} (ops w : ℕ) (v : Inv s)
    → w < vaddr_size
    → ensure_page (w / s.pg_size) s ≡ some (pos 0, t)
    → t.pg_count ≡ s.pg_count
    → touch_page ops w s
      ≡ some (
        pos ((t.pg_table (w / s.pg_size)).frame_addr + w % s.pg_size),
        counted ops (w / s.pg_size) t,
      )
unfolding touch_page
touch_page_run {s} {t} ops w v h e c =
    rw (test_inside s.pg_count (w / s.pg_size) (count-le v) (page-lt v w h)) (
      rw (e, ◌>>=◌) (finish_touch_lem ops (w / s.pg_size) t (w % s.pg_size) (rw c (page-lt v w h))))

module _ {s t : Pager} (ops w : ℕ) (v : Inv s) (h : w < vaddr_size)
    (b : Brought s t (w / s.pg_size))
    (refs : suc (s.pg_table (w / s.pg_size)).refcount < 2 ^ 32) where
  abbrev q : ℕ
  q = w / s.pg_size

  abbrev k : ℕ
  k = w % s.pg_size

  abbrev last : Pager
  last = counted ops q t

  same : SameFrames t last
  same = counted-SameFrames ops q t

  q-lt : q < t.pg_count
  q-lt = rw b.keeps.same_count (page-lt v w h)

  k-lt : k < t.pg_size
  k-lt = rw b.keeps.same_size (mod-lt w v.size_pos)

  last-word_at : (p j : ℕ) → word_at last p j ≡ word_at t p j
  unfolding count_access
  last-word_at = word_at-same same refl refl

  last-view : (u : ℕ) → u < vaddr_size → view last u ≡ view s u
  last-view u hu =
      ap (λ (n : ℕ). word_at last (u / n) (u % n)) (same.size ∙ b.keeps.same_size)
      ∙ last-word_at _ _
      ∙ b.keeps.words _ _ (page-lt v u hu) (mod-lt u v.size_pos)

  last-in_memory : (t.pg_table q).frame_addr + k < mem_size
  last-in_memory =
      let home : Placed t q = b.inv.placed q q-lt b.resident in
      rw home.starts (frame-lt b.inv home.frame k home.in_memory k-lt)

  last-reads : last.mem ((t.pg_table q).frame_addr + k) ≡ view s w
  unfolding count_access
  last-reads = resident_word ∙ b.keeps.words q k (page-lt v w h) (mod-lt w v.size_pos)
    where
      resident_word : t.mem ((t.pg_table q).frame_addr + k) ≡ word_at t q k
      resident_word = rw b.resident refl

  last-referenced : (last.pg_table q).refcount ≡ suc (s.pg_table q).refcount
  last-referenced = counted-refcount ops q t (rw b.same_refs refs) ∙ ap suc b.same_refs

  Touched-last : Touched s last w ((t.pg_table q).frame_addr + k)
  Touched-last = record {
    inv = Inv-same same b.inv;
    same_size = same.size ∙ b.keeps.same_size;
    same_count = same.count ∙ b.keeps.same_count;
    in_memory = last-in_memory;
    reads = last-reads;
    same_view = last-view;
    resident = same.valids q ∙ b.resident;
    placed = ap (λ (n : ℕ). n + k) (sym (same.addrs q));
    referenced = last-referenced;
    refs = λ p n.
        ap (λ (x : PageEnt). x.refcount) (entry_ne ops q t p λ f. n (sym f)) ∙ b.keeps.refs p;
    pinned = λ p n e r. entry_ne ops q t p (λ f. n (sym f)) ∙ b.keeps.pinned p e r;
  }

-- Paging is transparent. Under the invariant of the page table, a touch of an address of the
-- virtual space returns an address in physical memory that holds the word of that address, and
-- keeps the invariant and the contents of the whole virtual space. The page is then in memory with
-- one more reference, and every other page with a reference stays where it is. It is assumed that
-- the page is in memory, a frame is free or some page can be evicted, and that the page's count of
-- references does not wrap.
pub touch_page_lem :
    {s : Pager} (ops w : ℕ)
    → Inv s
    → w < vaddr_size
    → ((s.pg_table (w / s.pg_size)).valid ≡ true) ⊎ CanMakeRoom s
    → suc (s.pg_table (w / s.pg_size)).refcount < 2 ^ 32
    → (a : ℕ) × (s' : Pager) × (touch_page ops w s ≡ some (pos a, s')) × Touched s s' w a
touch_page_lem {s} ops w v h c r =
    let (t, e, b) = ensure_page_lem v (w / s.pg_size) (page-lt v w h) c in
    (
      (t.pg_table (w / s.pg_size)).frame_addr + w % s.pg_size,
      counted ops (w / s.pg_size) t,
      touch_page_run ops w v h e b.keeps.same_count,
      Touched-last ops w v h b r,
    )
