-- ===== src/Pager/Init.antt =====
-- The state that pagemem_init of pagemem.c sets up.
use brain_project.Prelude.{
  ℕ, ◌+◌, ◌*◌, ◌/◌, ◌%◌, ◌<◌, ◌≡◌, refl, arith, true, false, ◌==◌, some, ap, ◌∙◌, sym, Bool-cases,
  ltb→lt, inl, inr, pos, ltb, fill_first,
}
use native.Mathlib.Nat.{mod-eq_of_lt}
use brain_project.Word
use brain_project.Layout.{vaddr_size, mem_size}
use brain_project.Pager.{
  Pager, Mallocs, Weight, init_tables, check_page_size, set_sizes, init_storage, init_page_table,
  init_frequency_table, init_free_frames, frame_count,
}
use brain_project.Pager.Inv.{page-lt, Inv, view}

abbrev pub all_ok : Mallocs
all_ok = record { page_mem = true; page_table = true; frequencies = true; frames = true }

abbrev pub start : ℕ → Weight → Pager → Pager
start n w s =
    init_free_frames (init_frequency_table w (init_page_table (init_storage (set_sizes n s))))

mul_div : (a n : ℕ) → 0 < n → a * n / n ≡ a
mul_div a n h = grind arith

-- A size that divides the physical memory divides the virtual space, which is a hundred times larger.
pages_fill_of : (m n : ℕ) → 0 < n → m * n ≡ mem_size → vaddr_size / n * n ≡ vaddr_size
pages_fill_of m n h e =
    ap (λ (t : ℕ). t / n * n) (sym whole) ∙ ap (λ (t : ℕ). t * n) (mul_div (100 * m) n h) ∙ whole
  where
    whole : 100 * m * n ≡ vaddr_size
    whole = omega (arith, ap (λ (t : ℕ). 100 * t) e)

div_mod : (u n : ℕ) → 0 < n → u / n * n + u % n ≡ u
div_mod u n h = grind arith

module _ (n : ℕ) (w : Weight) (s : Pager) where
  pub init_tables-start : init_tables all_ok w (set_sizes n s) ≡ some (pos 0, start n w s)
  unfolding init_tables
  init_tables-start = refl

  start-invalid : (p : ℕ) → p < vaddr_size / n → ((start n w s).pg_table p).valid ≡ false
  unfolding set_sizes init_storage init_page_table init_frequency_table init_free_frames fill_first
  start-invalid p h = ground arith

  start-refs : (p : ℕ) → p < vaddr_size / n → ((start n w s).pg_table p).refcount ≡ 0
  unfolding set_sizes init_storage init_page_table init_frequency_table init_free_frames fill_first
  start-refs p h = ground arith

  start-frees : (j : ℕ) → j < mem_size / n → (start n w s).free_frames j ≡ true
  unfolding set_sizes init_storage init_page_table init_frequency_table init_free_frames fill_first
  start-frees j h = ground arith

  start-Inv : 0 < n → mem_size % n ≡ 0 → Inv (start n w s)
  unfolding set_sizes init_storage init_page_table init_frequency_table init_free_frames
  start-Inv h d = record {
    size_pos = h;
    frames_fill = grind arith;
    pages_fill = pages_fill_of (mem_size / n) n h (grind arith);
    placed = λ p l e. cc (start-invalid p l);
    apart = λ p q l m e f g. cc (start-invalid p l);
    owned = λ f l e. cc (start-frees f l);
  }

  start-storage : (u : ℕ) → u < vaddr_size → (start n w s).page_mem u ≡ Word.fill b'0'
  unfolding set_sizes init_storage init_page_table init_frequency_table init_free_frames fill_first
  start-storage u l = ground arith

  start-sizes :
      ((start n w s).pg_size ≡ n)
      × ((start n w s).pg_count ≡ vaddr_size / n)
      × ((start n w s).mem ≡ s.mem)
  unfolding set_sizes init_storage init_page_table init_frequency_table init_free_frames
  start-sizes = (refl, refl, refl)

  start-view :
      0 < n → mem_size % n ≡ 0 → (u : ℕ) → u < vaddr_size → view (start n w s) u ≡ Word.fill b'0'
  unfolding set_sizes init_storage init_page_table init_frequency_table init_free_frames
  start-view h d u l =
      rw (start-invalid (u / n) (page-lt (start-Inv h d) u l))
        (ap (start n w s).page_mem (div_mod u n h) ∙ start-storage u l)

-- The state after the paging part of pagemem_init.
pub record Started (n : ℕ) (s' : Pager) : Type 0 where
  pub inv : Inv s'
  pub size : s'.pg_size ≡ n
  pub all_free : (j : ℕ) → j < frame_count s' → s'.free_frames j ≡ true
  pub none_resident : (p : ℕ) → p < s'.pg_count → (s'.pg_table p).valid ≡ false
  pub no_refs : (p : ℕ) → p < s'.pg_count → (s'.pg_table p).refcount ≡ 0
  pub zeroed : (u : ℕ) → u < vaddr_size → view s' u ≡ Word.fill b'0'

pub start-Started :
    (n : ℕ) (w : Weight) (s : Pager) → 0 < n → mem_size % n ≡ 0 → Started n (start n w s)
unfolding set_sizes init_storage init_page_table init_frequency_table init_free_frames
start-Started n w s h d = record {
  inv = start-Inv n w s h d;
  size = refl;
  all_free = start-frees n w s;
  none_resident = start-invalid n w s;
  no_refs = start-refs n w s;
  zeroed = start-view n w s h d;
}

-- Which page sizes are accepted.
pub check_page_size-accepts :
    (n : ℕ) (s : Pager)
    → 0 < n
    → mem_size % n ≡ 0
    → check_page_size n s ≡ some (pos 0, set_sizes n s)
unfolding check_page_size
check_page_size-accepts n s h d = rw (small, nonzero, divides) refl
  where
    small : ltb mem_size n ≡ false
    small = elim (Bool-cases (ltb mem_size n)) [
      | inl e ↦
          let whole : mem_size % n ≡ mem_size = mod-eq_of_lt (ltb→lt mem_size n e) in
          absurd (omega arith)
      | inr e ↦ e
    ]

    nonzero : (n == 0) ≡ false
    nonzero = ground arith

    divides : (mem_size % n == 0) ≡ true
    divides = rw d refl
