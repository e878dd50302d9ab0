-- ===== src/Pager/Inv.antt =====
-- The invariant of the page table, and the contents of the virtual address space.
use brain_project.Prelude.{
  ℕ, ◌+◌, ◌*◌, ◌/◌, ◌%◌, ◌<◌, ◌≤◌, ◌≡◌, refl, arith, Bool, true, false, if◌then◌else◌, ap, ltb,
  sub_u32, ◌∙◌, sym,
}
use brain_project.Word.{Word}
use brain_project.Layout.{mem_size, vaddr_size}
use brain_project.Pager.{Pager, PageEnt, frame_count, removable}

-- The page that stands in a frame.
pub record Owner (s : Pager) (frame : ℕ) : Type 0 where
  pub page : ℕ
  pub in_table : page < s.pg_count
  pub resident : (s.pg_table page).valid ≡ true
  pub stands : (s.pg_table page).frame_addr ≡ frame * s.pg_size

-- A page in memory stands at the start of a frame that is not free.
pub record Placed (s : Pager) (page : ℕ) : Type 0 where
  pub frame : ℕ
  pub starts : (s.pg_table page).frame_addr ≡ frame * s.pg_size
  pub in_memory : frame < frame_count s
  pub taken : s.free_frames frame ≡ false

pub record Inv (s : Pager) : Type 0 where
  pub size_pos : 0 < s.pg_size
  pub frames_fill : frame_count s * s.pg_size ≡ mem_size
  pub pages_fill : s.pg_count * s.pg_size ≡ vaddr_size
  pub placed : (p : ℕ) → p < s.pg_count → (s.pg_table p).valid ≡ true → Placed s p
  pub apart :
      (p q : ℕ)
      → p < s.pg_count
      → q < s.pg_count
      → (s.pg_table p).valid ≡ true
      → (s.pg_table q).valid ≡ true
      → (s.pg_table p).frame_addr ≡ (s.pg_table q).frame_addr
      → p ≡ q
  pub owned : (f : ℕ) → f < frame_count s → s.free_frames f ≡ false → Owner s f

-- The word at an offset of a page: in its frame if the page is in memory, else in storage.
abbrev pub word_at : Pager → ℕ → ℕ → Word
word_at s page k =
    if (s.pg_table page).valid
    then s.mem ((s.pg_table page).frame_addr + k)
    else s.page_mem (page * s.pg_size + k)

-- The word at a virtual address.
abbrev pub view : Pager → ℕ → Word
view s v = word_at s (v / s.pg_size) (v % s.pg_size)

-- Paging in and out moves words and leaves the contents of the address space alone.
pub record Keeps (s s' : Pager) : Type 0 where
  pub same_size : s'.pg_size ≡ s.pg_size
  pub same_count : s'.pg_count ≡ s.pg_count
  pub words : (p k : ℕ) → p < s.pg_count → k < s.pg_size → word_at s' p k ≡ word_at s p k
  pub refs : (p : ℕ) → (s'.pg_table p).refcount ≡ (s.pg_table p).refcount
  -- a page with a reference stays where it is, with its references
  pub pinned :
      (p : ℕ)
      → (s.pg_table p).valid ≡ true
      → removable (s.pg_table p) ≡ false
      → s'.pg_table p ≡ s.pg_table p

pub Keeps-refl : (s : Pager) → Keeps s s
Keeps-refl s = record {
  same_size = refl;
  same_count = refl;
  words = λ p k _ _. refl;
  refs = λ p. refl;
  pinned = λ p _ _. refl;
}

pub Keeps-trans : {s t u : Pager} → Keeps s t → Keeps t u → Keeps s u
Keeps-trans {s} {t} {u} a b = record {
  same_size = b.same_size ∙ a.same_size;
  same_count = b.same_count ∙ a.same_count;
  words = λ p k h l. b.words p k (rw a.same_count h) (rw a.same_size l) ∙ a.words p k h l;
  refs = λ p. b.refs p ∙ a.refs p;
  pinned = λ p v r.
      let e = a.pinned p v r in
      b.pinned p (ap (λ (x : PageEnt). x.valid) e ∙ v) (ap removable e ∙ r) ∙ e;
}

-- The test `page > pg_count-1` on unsigned numbers is the test of the table's end.
pub test_inside : (c q : ℕ) → c ≤ vaddr_size → q < c → ltb (sub_u32 c 1) q ≡ false
test_inside c q h l = ground arith

pub test_outside : (c q : ℕ) → 0 < c → c ≤ vaddr_size → c ≤ q → ltb (sub_u32 c 1) q ≡ true
test_outside c q h k l = ground arith

module _ {s : Pager} (v : Inv s) where
  pub page-lt : (a : ℕ) → a < vaddr_size → a / s.pg_size < s.pg_count
  page-lt a h = grind (arith, v.size_pos, v.pages_fill)

  pub count-pos : 0 < s.pg_count
  count-pos = grind (arith, v.pages_fill)

  pub count-le : s.pg_count ≤ vaddr_size
  count-le = grind (arith, v.pages_fill, v.size_pos)

  pub frame-lt : (f k : ℕ) → f < frame_count s → k < s.pg_size → f * s.pg_size + k < mem_size
  frame-lt f k h l = grind (arith, v.frames_fill)

  pub frame_of : (f : ℕ) → f * s.pg_size / s.pg_size ≡ f
  frame_of f = grind (arith, v.size_pos)

-- Two states that differ at most in reference counts, access times, words and the fault counter.
pub record SameFrames (s s' : Pager) : Type 0 where
  pub size : s'.pg_size ≡ s.pg_size
  pub count : s'.pg_count ≡ s.pg_count
  pub frees : s'.free_frames ≡ s.free_frames
  pub valids : (p : ℕ) → (s'.pg_table p).valid ≡ (s.pg_table p).valid
  pub addrs : (p : ℕ) → (s'.pg_table p).frame_addr ≡ (s.pg_table p).frame_addr

module _ {s s' : Pager} (f : SameFrames s s') where
  pub frame_count-same : frame_count s' ≡ frame_count s
  frame_count-same = ap (λ (t : ℕ). mem_size / t) f.size

  Placed-same : (p : ℕ) → Placed s p → Placed s' p
  Placed-same p v = record {
    frame = v.frame;
    starts = f.addrs p ∙ v.starts ∙ ap (λ (t : ℕ). v.frame * t) (sym f.size);
    in_memory = rw frame_count-same v.in_memory;
    taken = ap (λ (t : ℕ → Bool). t v.frame) f.frees ∙ v.taken;
  }

  Owner-same : (j : ℕ) → Owner s j → Owner s' j
  Owner-same j o = record {
    page = o.page;
    in_table = rw f.count o.in_table;
    resident = f.valids o.page ∙ o.resident;
    stands = f.addrs o.page ∙ o.stands ∙ ap (λ (t : ℕ). j * t) (sym f.size);
  }

  pub Inv-same : Inv s → Inv s'
  Inv-same v = record {
    size_pos = rw f.size v.size_pos;
    frames_fill = rw (frame_count-same, f.size) v.frames_fill;
    pages_fill = rw (f.count, f.size) v.pages_fill;
    placed = λ p h e. Placed-same p (v.placed p (rw f.count at h) (sym (f.valids p) ∙ e));
    apart = λ p q hp hq ep eq e.
        v.apart p q (rw f.count at hp) (rw f.count at hq) (sym (f.valids p) ∙ ep)
          (sym (f.valids q) ∙ eq) (sym (f.addrs p) ∙ e ∙ f.addrs q);
    owned = λ j h e.
        Owner-same j
          (v.owned j (rw frame_count-same at h) (sym (ap (λ (t : ℕ → Bool). t j) f.frees) ∙ e));
  }

  -- If the words are the same too, so are the contents of the address space.
  pub word_at-same :
      s'.mem ≡ s.mem → s'.page_mem ≡ s.page_mem → (p k : ℕ) → word_at s' p k ≡ word_at s p k
  word_at-same m g p k = rw (f.valids p, f.addrs p, f.size, m, g) refl
