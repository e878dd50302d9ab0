-- ===== src/Mem/Access.antt =====
-- References to words (get_wordref and release_wordref of mem.c), and the loads and stores that the
-- instructions make of them.
use brain_project.Prelude.{
  ℕ, suc, ◌+◌, ◌/◌, ◌%◌, ◌<◌, ◌^◌, ◌≡◌, ◌⊎◌, inl, inr, refl, arith, ◌==◌, if◌then◌else◌, ℤ, pos, ap,
  ◌∙◌, sym, some, Run, bind_some, set, pure, subst, cases_eq, true,
}
use brain_project.Word.{Word}
use brain_project.Layout.{vaddr_size}
use brain_project.Pager.{Pager, PageEnt, touch_page, page_release_ref}
use brain_project.Pager.Inv.{Inv, view, Inv-same}
use brain_project.Pager.Room.{CanMakeRoom}
use brain_project.Pager.Spare.{Spare, CanMakeRoom-of-Spare}
use brain_project.Prelude.{List}
use brain_project.Pager.Touch.{Touched, touch_page_lem}
use brain_project.Pager.Write.{write_word, address, view-write_word}
use brain_project.Pager.Release.{Released, page_release_ref_lem}
use brain_project.Proc.{Proc}
use brain_project.Mem.{
  Memory, on_pager, get_global_address, get_wordref, release_wordref, touch_global, wordref_of,
  read_ref, write_ref, fetch_word, store_word, with_ref, through_ref,
}

abbrev pub with_pager : Memory → Pager → Memory
with_pager s q = record s { pager = q }

pub on_pager-some :
    {A : Type 0} (m : Run Pager A) (s : Memory) {a : A} {q : Pager}
    → m s.pager ≡ some (a, q)
    → on_pager m s ≡ some (a, with_pager s q)
unfolding on_pager
on_pager-some m s e = rw (e, on_pager) refl

-- What an access to the virtual address `g` needs: the page is in memory or can be brought in, and
-- its count of references does not wrap.
pub record Accessible (s : Pager) (g : ℕ) : Type 0 where
  pub inv : Inv s
  pub in_space : g < vaddr_size
  pub room : ((s.pg_table (g / s.pg_size)).valid ≡ true) ⊎ CanMakeRoom s
  pub refs_fit : suc (s.pg_table (g / s.pg_size)).refcount < 2 ^ 32

-- With fewer pages in use than there are frames, every word of the virtual space can be accessed.
pub Accessible-of-Spare :
    {s : Pager} {l : List ℕ} (g : ℕ)
    → Inv s
    → g < vaddr_size
    → Spare s l
    → suc (s.pg_table (g / s.pg_size)).refcount < 2 ^ 32
    → Accessible s g
Accessible-of-Spare g v h spare fits = record {
  inv = v;
  in_space = h;
  room = inr (CanMakeRoom-of-Spare v spare);
  refs_fit = fits;
}

module _ (ops : ℕ) (p : Proc) (addr : ℤ) (s : Memory) (g : ℕ)
    (e : get_global_address p addr ≡ pos g) where
  -- A reference is the physical address of the word.
  pub get_wordref_lem :
      Accessible s.pager g
      → (a : ℕ) × (q : Pager) × (get_wordref ops p addr s ≡ some (some a, with_pager s q))
        × Touched s.pager q g a
  unfolding get_wordref touch_global wordref_of
  get_wordref_lem v =
      let (a, q, run, t) = touch_page_lem ops g v.inv v.in_space v.room v.refs_fit in
      (
        a,
        q,
        rw e (bind_some (on_pager (touch_page ops g)) _ s (on_pager-some (touch_page ops g) s run)),
        t,
      )

  pub release_wordref_lem :
      Inv s.pager
      → g < vaddr_size
      → (q : Pager) × (release_wordref p addr s ≡ some (tt, with_pager s q))
        × Released s.pager q (g / s.pager.pg_size)
  unfolding release_wordref
  release_wordref_lem v h =
      let (q, run, r) = page_release_ref_lem v g h in
      (q, rw e (on_pager-some (page_release_ref (pos g)) s run), r)

-- The page table after an access to `g`: no reference more or less than before, and the page of the
-- address in memory.
pub record Settled (s q : Pager) (g : ℕ) : Type 0 where
  pub inv : Inv q
  pub same_size : q.pg_size ≡ s.pg_size
  pub same_count : q.pg_count ≡ s.pg_count
  pub refs : (p : ℕ) → (q.pg_table p).refcount ≡ (s.pg_table p).refcount
  pub resident : (q.pg_table (g / q.pg_size)).valid ≡ true

-- The same word can be accessed again.
pub Accessible-again : {s q : Pager} {g : ℕ} → Accessible s g → Settled s q g → Accessible q g
Accessible-again {s} {q} {g} v t = record {
  inv = t.inv;
  in_space = v.in_space;
  room = inl t.resident;
  refs_fit = rw (t.refs (g / q.pg_size), t.same_size) v.refs_fit;
}

module _ {s t q : Pager} {g a : ℕ} (touched : Touched s t g a) (m : ℕ → Word)
    (r : Released (record t { mem = m }) q (g / t.pg_size)) where
  same_page : g / t.pg_size ≡ g / s.pg_size
  same_page = ap (λ (n : ℕ). g / n) touched.same_size

  own_refs : (q.pg_table (g / t.pg_size)).refcount ≡ (s.pg_table (g / t.pg_size)).refcount
  own_refs =
      let up =
        subst (λ n. (t.pg_table n).refcount ≡ suc (s.pg_table n).refcount) (sym same_page)
          touched.referenced in
      omega (arith, r.refs)

  settled_refs : (p : ℕ) → (q.pg_table p).refcount ≡ (s.pg_table p).refcount
  settled_refs p = elim (cases_eq (g / t.pg_size) p) [
    | inl e ↦ subst (λ n. (q.pg_table n).refcount ≡ (s.pg_table n).refcount) e own_refs
    | inr n ↦
        ap (λ (x : PageEnt). x.refcount) (r.others p n)
        ∙ touched.refs p (λ e. n (same_page ∙ sym e))
  ]

  settled_resident : (q.pg_table (g / q.pg_size)).valid ≡ true
  settled_resident =
      ap (λ (n : ℕ). (q.pg_table (g / n)).valid) (r.same_size ∙ touched.same_size)
      ∙ r.frames.valids (g / s.pg_size)
      ∙ touched.resident

  -- After a touch, any writes to physical memory and the release, the references are as before.
  pub settle : Settled s q g
  settle = record {
    inv = r.inv;
    same_size = r.same_size ∙ touched.same_size;
    same_count = r.frames.count ∙ touched.same_count;
    refs = settled_refs;
    resident = settled_resident;
  }

module _ {s t : Pager} {g a : ℕ} (touched : Touched s t g a) (x : Word) where
  pub written-Inv : Inv (write_word t a x)
  written-Inv =
      Inv-same
        (record { size = refl; count = refl; frees = refl; valids = λ p. refl; addrs = λ p. refl })
        touched.inv

  -- The reference is the address that the page table gives.
  is_address : a ≡ address t g
  is_address =
      subst (λ n. a ≡ (t.pg_table (g / n)).frame_addr + g % n) (sym touched.same_size)
        touched.placed

  is_resident : (t.pg_table (g / t.pg_size)).valid ≡ true
  is_resident =
      subst (λ n. (t.pg_table (g / n)).valid ≡ true) (sym touched.same_size) touched.resident

  pub written-view :
      g < vaddr_size
      → (u : ℕ) → u < vaddr_size
      → view (write_word t a x) u ≡ (if g == u then x else view s u)
  written-view hg u hu =
      ap (λ (n : ℕ). view (write_word t n x) u) is_address
      ∙ view-write_word touched.inv g x hg is_resident u hu
      ∙ ap (λ (w : Word). if g == u then x else w) (touched.same_view u hu)

module _ (ops : ℕ) (p : Proc) (addr : ℤ) (s : Memory) (g : ℕ)
    (e : get_global_address p addr ≡ pos g) (v : Accessible s.pager g) where
  -- A load returns the word of the translated address, and leaves the contents of the virtual space
  -- and all references as they were. The address is assumed to be accessible.
  pub fetch_word_lem :
      (q : Pager) × (fetch_word ops p addr s ≡ some (some (view s.pager g), with_pager s q))
      × Settled s.pager q g
      × ((u : ℕ) → u < vaddr_size → view q u ≡ view s.pager u)
  unfolding fetch_word with_ref through_ref read_ref
  fetch_word_lem =
      let (a, t, run, touched) = get_wordref_lem ops p addr s g e v in
      let (q, run', r) =
        release_wordref_lem ops p addr (with_pager s t) g e touched.inv v.in_space in
      (
        q,
        bind_some (get_wordref ops p addr) (through_ref p addr read_ref) s run
            ∙ bind_some (release_wordref p addr) (λ _. pure (some (t.mem a))) (with_pager s t) run'
            ∙ ap (λ (x : Word). some (some x, with_pager s q)) touched.reads,
        settle touched t.mem r,
        λ u h. r.same_view u ∙ touched.same_view u h,
      )

  -- A store changes the word of the translated address and no other word of the virtual space, and
  -- leaves all references as they were. The address is assumed to be accessible.
  pub store_word_lem :
      (x : Word)
      → (q : Pager) × (store_word ops p addr x s ≡ some (some tt, with_pager s q))
        × Settled s.pager q g
        × ((u : ℕ) → u < vaddr_size → view q u ≡ (if g == u then x else view s.pager u))
  unfolding store_word with_ref through_ref write_ref
  store_word_lem x =
      let (a, t, run, touched) = get_wordref_lem ops p addr s g e v in
      let written = with_pager s (write_word t a x) in
      let (q, run', r) =
        release_wordref_lem ops p addr written g e (written-Inv touched x) v.in_space in
      (
        q,
        bind_some (get_wordref ops p addr) (through_ref p addr λ b. write_ref b x) s run
            ∙ bind_some (release_wordref p addr) (λ _. pure (some tt)) written run',
        settle touched (set t.mem a x) r,
        λ u h. r.same_view u ∙ written-view touched x v.in_space u h,
      )
