-- ===== src/Pager/Release.antt =====
-- Giving references up (page_release_ref of pagemem.c).
use brain_project.Prelude.{
  ℕ, ◌-◌, ◌/◌, ◌<◌, ◌≡◌, ◌≢◌, refl, arith, ◌==◌, some, ap, set, set_self, set_ne, set-field,
  Bool-cases, inl, inr, pos,
}
use brain_project.Layout.{vaddr_size}
use brain_project.Pager.{Pager, PageEnt, drop_ref, page_release_ref}
use brain_project.Pager.Inv.{
  Inv, view, SameFrames, Inv-same, word_at-same, page-lt, test_inside, count-le,
}

-- What giving up a reference to the page `q` leaves behind.
pub record Released (s s' : Pager) (q : ℕ) : Type 0 where
  pub inv : Inv s'
  pub same_size : s'.pg_size ≡ s.pg_size
  pub same_view : (u : ℕ) → view s' u ≡ view s u
  pub refs : (s'.pg_table q).refcount ≡ (s.pg_table q).refcount - 1
  pub frames : SameFrames s s'
  pub others : (p : ℕ) → q ≢ p → s'.pg_table p ≡ s.pg_table p

module _ (s : Pager) (q : ℕ) where
  abbrev lowered : PageEnt
  lowered = record (s.pg_table q) { refcount = (s.pg_table q).refcount - 1 }

  abbrev released : Pager
  released = record s { pg_table = set s.pg_table q lowered }

  released-SameFrames : SameFrames s released
  released-SameFrames = record {
    size = refl;
    count = refl;
    frees = refl;
    valids = set-field (λ x. x.valid) s.pg_table q lowered refl;
    addrs = set-field (λ x. x.frame_addr) s.pg_table q lowered refl;
  }

  released-Released : Inv s → Released s released q
  released-Released v = record {
    inv = Inv-same released-SameFrames v;
    same_size = refl;
    same_view = λ u. word_at-same released-SameFrames refl refl (u / s.pg_size) _;
    refs = ap (λ (x : PageEnt). x.refcount) (set_self s.pg_table q lowered);
    frames = released-SameFrames;
    others = λ p n. set_ne s.pg_table q p lowered n;
  }

  unchanged-Released : Inv s → (s.pg_table q).refcount ≡ 0 → Released s s q
  unchanged-Released v e = record {
    inv = v;
    same_size = refl;
    same_view = λ u. refl;
    refs = rw e (omega arith);
    frames = record {
      size = refl;
      count = refl;
      frees = refl;
      valids = λ p. refl;
      addrs = λ p. refl;
    };
    others = λ p n. refl;
  }

page_release_ref-run :
    {s : Pager} (v : Inv s) (w : ℕ)
    → w < vaddr_size
    → page_release_ref (pos w) s ≡ some (tt, drop_ref (w / s.pg_size) s)
unfolding page_release_ref
page_release_ref-run {s} v w h =
    rw (test_inside s.pg_count (w / s.pg_size) (count-le v) (page-lt v w h)) refl

drop_ref-Released : {s : Pager} (v : Inv s) (q : ℕ) → Released s (drop_ref q s) q
unfolding drop_ref
drop_ref-Released {s} v q = elim (Bool-cases ((s.pg_table q).refcount == 0)) [
  | inl e ↦ rw e (unchanged-Released s q v (ground arith))
  | inr e ↦ rw e (released-Released s q v)
]

-- Giving up a reference to an address of the virtual space takes one reference from its page, none
-- if it has none, and changes no other page, no frame and no word.
pub page_release_ref_lem :
    {s : Pager} (v : Inv s) (w : ℕ)
    → w < vaddr_size
    → (s' : Pager) × (page_release_ref (pos w) s ≡ some (tt, s')) × Released s s' (w / s.pg_size)
page_release_ref_lem {s} v w h =
    (drop_ref (w / s.pg_size) s, page_release_ref-run v w h, drop_ref-Released v (w / s.pg_size))
