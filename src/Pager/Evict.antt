-- ===== src/Pager/Evict.antt =====
-- Eviction of a page (store_page and toss_page of pagemem.c).
use brain_project.Prelude.{
  ℕ, ◌*◌, ◌/◌, ◌<◌, ◌≡◌, ◌≢◌, refl, arith, true, false, pos, some, ap, ◌∙◌, sym, set, set_self,
  set_ne, set-field, subst, copy, copy-block,
}
use brain_project.Pager.{
  Pager, PageEnt, frame_count, removable, store_page, release_frame, toss_removal,
}
use brain_project.Pager.Inv.{Owner, Placed, Inv, Keeps, word_at, frame_of}

-- The state after the page is stored and its frame given up.
abbrev pub stored : Pager → ℕ → Pager
stored s q = record s {
  page_mem = copy s.page_mem (q * s.pg_size) s.mem (s.pg_table q).frame_addr s.pg_size;
}

pub evicted : Pager → ℕ → Pager
unfolding release_frame
evicted s q = release_frame q (stored s q)

module _ {s : Pager} (v : Inv s) (q : ℕ) (h : q < s.pg_count)
    (r : removable (s.pg_table q) ≡ true) where
  pub valid_q : (s.pg_table q).valid ≡ true
  valid_q = ground arith

  pub home : Placed s q
  home = v.placed q h valid_q

  home_frame : (s.pg_table q).frame_addr / s.pg_size ≡ home.frame
  home_frame = ap (λ (t : ℕ). t / s.pg_size) home.starts ∙ frame_of v home.frame

  pub toss_removal-evicted :
      (period : ℕ) → toss_removal (some (q, period)) s ≡ some (pos 0, evicted s q)
  unfolding toss_removal store_page evicted
  toss_removal-evicted period = ground arith

  entry_self : (evicted s q).pg_table q ≡ record (s.pg_table q) { valid = false }
  unfolding evicted
  entry_self = set_self _ q _

  pub entry_ne : (p : ℕ) → q ≢ p → (evicted s q).pg_table p ≡ s.pg_table p
  unfolding evicted
  entry_ne p n = set_ne _ q p _ n

  pub evicted-frame_free : (evicted s q).free_frames home.frame ≡ true
  unfolding evicted
  evicted-frame_free = rw home_frame (set_self _ home.frame true)

  evicted-words :
      (p k : ℕ) → p < s.pg_count → k < s.pg_size → word_at (evicted s q) p k ≡ word_at s p k
  unfolding evicted set
  evicted-words p k hp hk =
      ground
        (arith, copy-block s.page_mem s.mem q p (s.pg_table q).frame_addr s.pg_size k hk, valid_q)

  pub evicted-Keeps : Keeps s (evicted s q)
  unfolding evicted
  evicted-Keeps = record {
    same_size = refl;
    same_count = refl;
    words = evicted-words;
    refs = set-field (λ x. x.refcount) s.pg_table q (record (s.pg_table q) { valid = false }) refl;
    pinned = λ p e f. entry_ne p (λ n. cc (ap (λ (t : ℕ). removable (s.pg_table t)) n));
  }

  -- A page that is in memory after the eviction is another one, and was in memory before.
  ne_of_valid : (p : ℕ) → ((evicted s q).pg_table p).valid ≡ true → q ≢ p
  ne_of_valid p e n =
      cc (
        ap (λ (x : PageEnt). x.valid) entry_self,
        ap (λ (t : ℕ). ((evicted s q).pg_table t).valid) n,
      )

  was_valid : (p : ℕ) → ((evicted s q).pg_table p).valid ≡ true → (s.pg_table p).valid ≡ true
  was_valid p e = sym (ap (λ (x : PageEnt). x.valid) (entry_ne p (ne_of_valid p e))) ∙ e

  same_addr :
      (p : ℕ)
      → ((evicted s q).pg_table p).valid ≡ true
      → ((evicted s q).pg_table p).frame_addr ≡ (s.pg_table p).frame_addr
  same_addr p e = ap (λ (x : PageEnt). x.frame_addr) (entry_ne p (ne_of_valid p e))

  evicted-Placed :
      (p : ℕ) → p < s.pg_count → ((evicted s q).pg_table p).valid ≡ true → Placed (evicted s q) p
  unfolding evicted
  evicted-Placed p hp e = record {
    frame = old.frame;
    starts = same_addr p e ∙ old.starts;
    in_memory = old.in_memory;
    taken = rw home_frame (set_ne s.free_frames home.frame old.frame true other ∙ old.taken);
  }
    where
      old : Placed s p
      old = v.placed p hp (was_valid p e)

      other : home.frame ≢ old.frame
      other f = ne_of_valid p e (
          v.apart q p h hp valid_q (was_valid p e)
            (home.starts ∙ ap (λ (t : ℕ). t * s.pg_size) f ∙ sym old.starts))

  -- A frame that is still taken is another one, and its page was not evicted.
  evicted-Owner :
      (f : ℕ) → f < frame_count s → (evicted s q).free_frames f ≡ false → Owner (evicted s q) f
  unfolding evicted
  evicted-Owner f hf e = record {
    page = o.page;
    in_table = o.in_table;
    resident = ap (λ (x : PageEnt). x.valid) (entry_ne o.page other) ∙ o.resident;
    stands = ap (λ (x : PageEnt). x.frame_addr) (entry_ne o.page other) ∙ o.stands;
  }
    where
      apart_frame : home.frame ≢ f
      apart_frame g = cc (subst (λ t. (evicted s q).free_frames t ≡ true) g evicted-frame_free)

      was_taken : s.free_frames f ≡ false
      was_taken =
          sym (set_ne s.free_frames home.frame f true apart_frame)
          ∙ ap (λ (t : ℕ). set s.free_frames t true f) (sym home_frame)
          ∙ e

      o : Owner s f
      o = v.owned f hf was_taken

      other : q ≢ o.page
      other g = apart_frame (
          sym home_frame
          ∙ ap (λ (t : ℕ). (s.pg_table t).frame_addr / s.pg_size) g
          ∙ ap (λ (t : ℕ). t / s.pg_size) o.stands
          ∙ frame_of v f)

  pub evicted-Inv : Inv (evicted s q)
  unfolding evicted
  evicted-Inv = record {
    size_pos = v.size_pos;
    frames_fill = v.frames_fill;
    pages_fill = v.pages_fill;
    placed = evicted-Placed;
    apart = λ p p' hp hp' e e' f.
        v.apart p p' hp hp' (was_valid p e) (was_valid p' e')
          (sym (same_addr p e) ∙ f ∙ same_addr p' e');
    owned = evicted-Owner;
  }

  pub evicted-frame-lt : home.frame < frame_count (evicted s q)
  unfolding evicted
  evicted-frame-lt = home.in_memory
