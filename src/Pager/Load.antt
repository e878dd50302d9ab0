-- ===== src/Pager/Load.antt =====
-- Loading a page into a free frame (page_in of pagemem.c).
use brain_project.Prelude.{
  ℕ, ◌+◌, ◌*◌, ◌/◌, ◌<◌, ◌≡◌, ◌≢◌, refl, arith, true, false, pos, some, ap, ◌∙◌, sym, subst,
  set_self, set_ne, set-field, copy-block, Bool-cases, inl, inr, cases_eq,
}
use brain_project.Pager.{Pager, PageEnt, frame_count, first_free, load_frame, page_in}
use brain_project.Pager.Inv.{Owner, Placed, Inv, Keeps, word_at, frame_of}

pub loaded : Pager → ℕ → Pager
unfolding load_frame
loaded s q = load_frame q (first_free s) s

module _ {s : Pager} (v : Inv s) (q : ℕ) (h : q < s.pg_count) (r : (s.pg_table q).valid ≡ false)
    (free : s.free_frames (first_free s) ≡ true) (lt : first_free s < frame_count s) where
  pub page_in-loaded : page_in q s ≡ some (pos 0, loaded s q)
  unfolding page_in loaded
  page_in-loaded = ground arith

  entry_self :
      (loaded s q).pg_table q
      ≡ record (s.pg_table q) { valid = true; frame_addr = first_free s * s.pg_size }
  unfolding loaded
  entry_self = set_self _ q _

  entry_ne : (p : ℕ) → q ≢ p → (loaded s q).pg_table p ≡ s.pg_table p
  unfolding loaded
  entry_ne p n = set_ne _ q p _ n

  -- No page stands in the frame that was free.
  other_frame : (p : ℕ) (e : Placed s p) → first_free s ≢ e.frame
  other_frame p e f = cc (ap s.free_frames f, e.taken)

  -- A word of another page that is in memory stands in another frame.
  other_memory :
      (p k : ℕ) (e : Placed s p)
      → k < s.pg_size
      → (loaded s q).mem ((s.pg_table p).frame_addr + k) ≡ s.mem ((s.pg_table p).frame_addr + k)
  unfolding loaded
  other_memory p k e hk = rw e.starts (
      ground (
        arith,
        copy-block s.mem s.page_mem (first_free s) e.frame (q * s.pg_size) s.pg_size k hk,
        other_frame p e,
      ))

  own_memory :
      (k : ℕ)
      → k < s.pg_size
      → (loaded s q).mem (first_free s * s.pg_size + k) ≡ s.page_mem (q * s.pg_size + k)
  unfolding loaded
  own_memory k hk = ground (
    arith,
    copy-block s.mem s.page_mem (first_free s) (first_free s) (q * s.pg_size) s.pg_size k hk,
  )

  other_words :
      (p k : ℕ) → p < s.pg_count → k < s.pg_size → q ≢ p → word_at (loaded s q) p k ≡ word_at s p k
  unfolding loaded
  other_words p k hp hk n = rw (entry_ne p n) (elim (Bool-cases (s.pg_table p).valid) [
    | inl e ↦ rw e (other_memory p k (v.placed p hp e) hk)
    | inr e ↦ rw e refl
  ])

  own_words : (k : ℕ) → k < s.pg_size → word_at (loaded s q) q k ≡ word_at s q k
  unfolding loaded
  own_words k hk = rw (entry_self, r) (own_memory k hk)

  loaded-words :
      (p k : ℕ) → p < s.pg_count → k < s.pg_size → word_at (loaded s q) p k ≡ word_at s p k
  loaded-words p k hp hk = elim (cases_eq q p) [
    | inl e ↦ subst (λ t. word_at (loaded s q) t k ≡ word_at s t k) e (own_words k hk)
    | inr n ↦ other_words p k hp hk n
  ]

  pub loaded-Keeps : Keeps s (loaded s q)
  unfolding loaded
  loaded-Keeps = record {
    same_size = refl;
    same_count = refl;
    words = loaded-words;
    refs = set-field (λ x. x.refcount) s.pg_table q _ refl;
    pinned = λ p e f. entry_ne p (λ n. cc (ap (λ (t : ℕ). (s.pg_table t).valid) n));
  }

  pub loaded-valid : ((loaded s q).pg_table q).valid ≡ true
  loaded-valid = ap (λ (x : PageEnt). x.valid) entry_self

  pub loaded-refcount : ((loaded s q).pg_table q).refcount ≡ (s.pg_table q).refcount
  loaded-refcount = ap (λ (x : PageEnt). x.refcount) entry_self

  loaded-frame_addr : ((loaded s q).pg_table q).frame_addr ≡ first_free s * s.pg_size
  loaded-frame_addr = ap (λ (x : PageEnt). x.frame_addr) entry_self

  loaded-Placed :
      (p : ℕ) → p < s.pg_count → ((loaded s q).pg_table p).valid ≡ true → Placed (loaded s q) p
  unfolding loaded
  loaded-Placed p hp e = elim (cases_eq q p) [
    | inl n ↦
        subst (λ t. Placed (loaded s q) t) n
          (record {
            frame = first_free s;
            starts = loaded-frame_addr;
            in_memory = lt;
            taken = set_self _ (first_free s) false;
          })
    | inr n ↦
        let old = v.placed p hp (sym (ap (λ (x : PageEnt). x.valid) (entry_ne p n)) ∙ e) in
        record {
          frame = old.frame;
          starts = ap (λ (x : PageEnt). x.frame_addr) (entry_ne p n) ∙ old.starts;
          in_memory = old.in_memory;
          taken =
              set_ne s.free_frames (first_free s) old.frame false (other_frame p old) ∙ old.taken;
        }
  ]

  old_valid : (p : ℕ) → q ≢ p → ((loaded s q).pg_table p).valid ≡ true → (s.pg_table p).valid ≡ true
  old_valid p n e = sym (ap (λ (x : PageEnt). x.valid) (entry_ne p n)) ∙ e

  old_addr : (p : ℕ) → q ≢ p → ((loaded s q).pg_table p).frame_addr ≡ (s.pg_table p).frame_addr
  old_addr p n = ap (λ (x : PageEnt). x.frame_addr) (entry_ne p n)

  -- The address of another page in memory is not that of the new frame.
  other_addr :
      (p : ℕ)
      → p < s.pg_count
      → q ≢ p
      → ((loaded s q).pg_table p).valid ≡ true
      → ((loaded s q).pg_table p).frame_addr ≢ first_free s * s.pg_size
  other_addr p hp n e f =
      let old = v.placed p hp (old_valid p n e) in
      other_frame p old (frame_eq (first_free s) old.frame (sym f ∙ old_addr p n ∙ old.starts))
    where
      frame_eq : (a b : ℕ) → a * s.pg_size ≡ b * s.pg_size → a ≡ b
      frame_eq a b g = sym (frame_of v a) ∙ ap (λ (t : ℕ). t / s.pg_size) g ∙ frame_of v b

  -- Pages of one frame are one page.
  loaded-apart :
      (p p' : ℕ)
      → p < s.pg_count
      → p' < s.pg_count
      → ((loaded s q).pg_table p).valid ≡ true
      → ((loaded s q).pg_table p').valid ≡ true
      → ((loaded s q).pg_table p).frame_addr ≡ ((loaded s q).pg_table p').frame_addr
      → p ≡ p'
  unfolding loaded
  loaded-apart p p' hp hp' e e' f = elim (cases_eq q p) [
    | inl n ↦ elim (cases_eq q p') [
      | inl n' ↦ sym n ∙ n'
      | inr n' ↦ absurd (
          other_addr p' hp' n' e' (
            sym f
            ∙ sym (ap (λ (t : ℕ). ((loaded s q).pg_table t).frame_addr) n)
            ∙ loaded-frame_addr))
    ]
    | inr n ↦ elim (cases_eq q p') [
      | inl n' ↦ absurd (
          other_addr p hp n e
            (f ∙ sym (ap (λ (t : ℕ). ((loaded s q).pg_table t).frame_addr) n') ∙ loaded-frame_addr))
      | inr n' ↦
          v.apart p p' hp hp' (old_valid p n e) (old_valid p' n' e')
            (sym (old_addr p n) ∙ f ∙ old_addr p' n')
    ]
  ]

  loaded-Owner :
      (f : ℕ) → f < frame_count s → (loaded s q).free_frames f ≡ false → Owner (loaded s q) f
  unfolding loaded
  loaded-Owner f hf e = elim (cases_eq (first_free s) f) [
    | inl g ↦ record {
      page = q;
      in_table = h;
      resident = loaded-valid;
      stands = loaded-frame_addr ∙ ap (λ (t : ℕ). t * s.pg_size) g;
    }
    | inr g ↦ old_Owner (v.owned f hf (sym (set_ne s.free_frames (first_free s) f false g) ∙ e))
  ]
    where
      other : (o : Owner s f) → q ≢ o.page
      other o g = cc (ap (λ (t : ℕ). (s.pg_table t).valid) g, o.resident)

      old_Owner : Owner s f → Owner (loaded s q) f
      old_Owner o = record {
        page = o.page;
        in_table = o.in_table;
        resident = ap (λ (x : PageEnt). x.valid) (entry_ne o.page (other o)) ∙ o.resident;
        stands = ap (λ (x : PageEnt). x.frame_addr) (entry_ne o.page (other o)) ∙ o.stands;
      }

  pub loaded-Inv : Inv (loaded s q)
  unfolding loaded
  loaded-Inv = record {
    size_pos = v.size_pos;
    frames_fill = v.frames_fill;
    pages_fill = v.pages_fill;
    placed = loaded-Placed;
    apart = loaded-apart;
    owned = loaded-Owner;
  }
