-- ===== src/Pager/Room.antt =====
-- Bringing a page into memory (the first half of touch_page of pagemem.c).
use brain_project.Prelude.{
  ℕ, ◌<◌, ◌≡◌, refl, arith, true, false, pos, some, ap, ◌∙◌, subst, inl, inr, Option-cases,
  bind_some,
}
use brain_project.Pager.{
  Pager, PageEnt, frame_count, removable, first_free, page_in, faulted, make_room, bring_in,
  toss_page, get_removal_page,
}
use brain_project.Pager.Inv.{Inv-same, Inv, Keeps, Keeps-trans, Keeps-refl}
use brain_project.Pager.Victim.{first_free_cases, get_removal_page-IsVictim, IsVictim}
use brain_project.Pager.Evict.{
  evicted, toss_removal-evicted, evicted-Keeps, evicted-Inv, evicted-frame_free, home, entry_ne,
  valid_q, evicted-frame-lt,
}
use brain_project.Pager.Load.{
  loaded, page_in-loaded, loaded-Keeps, loaded-Inv, loaded-valid, loaded-refcount,
}

-- A free frame is at hand, and page `q` is as before.
record HasRoom (s s' : Pager) (q : ℕ) : Type 0 where
  inv : Inv s'
  keeps : Keeps s s'
  entry : s'.pg_table q ≡ s.pg_table q
  free : s'.free_frames (first_free s') ≡ true
  in_memory : first_free s' < frame_count s'

-- What makes room for a page: a free frame, or a page that can be evicted.
pub data CanMakeRoom (s : Pager) : Type 0 where
  free_frame : (j : ℕ) → j < frame_count s → s.free_frames j ≡ true → CanMakeRoom s
  evictable : (p : ℕ) → p < s.pg_count → removable (s.pg_table p) ≡ true → CanMakeRoom s

room_found :
    {s s' : Pager} (q j : ℕ)
    → Inv s'
    → Keeps s s'
    → s'.pg_table q ≡ s.pg_table q
    → j < frame_count s'
    → s'.free_frames j ≡ true
    → HasRoom s s' q
room_found {s} {s'} q j v k e l f = elim (first_free_cases s') [
  | inl (free, lt) ↦ record { inv = v; keeps = k; entry = e; free = free; in_memory = lt }
  | inr (_, all) ↦ cc (all j l)
]

module _ {s : Pager} (v : Inv s) (q : ℕ) (r : (s.pg_table q).valid ≡ false) where
  -- A page that can be evicted is in memory, so it is another one than `q`.
  evict_room :
      first_free s ≡ frame_count s
      → (p period : ℕ) → p < s.pg_count
      → removable (s.pg_table p) ≡ true
      → get_removal_page s ≡ some (p, period)
      → (s' : Pager) × (make_room s ≡ some (tt, s')) × HasRoom s s' q
  unfolding make_room toss_page
  evict_room full p period hp rp e = (
    evicted s p,
    ground (arith, toss_removal-evicted v p hp rp period),
    room_found q (home v p hp rp).frame (evicted-Inv v p hp rp) (evicted-Keeps v p hp rp)
        (entry_ne v p hp rp q λ n. cc (ap (λ (t : ℕ). (s.pg_table t).valid) n, valid_q v p hp rp))
        (evicted-frame-lt v p hp rp) (evicted-frame_free v p hp rp),
  )

  evict_any :
      first_free s ≡ frame_count s
      → (p : ℕ) → p < s.pg_count
      → removable (s.pg_table p) ≡ true
      → (s' : Pager) × (make_room s ≡ some (tt, s')) × HasRoom s s' q
  evict_any full p hp rp = elim (Option-cases (get_removal_page s)) [
    | inl e ↦ cc (subst (IsVictim s s.pg_count) e (get_removal_page-IsVictim s) p hp)
    | inr ((p', period), e) ↦
        let best = subst (IsVictim s s.pg_count) e (get_removal_page-IsVictim s) in
        evict_room full p' period best.in_table best.allowed e
  ]

  make_room_lem : CanMakeRoom s → (s' : Pager) × (make_room s ≡ some (tt, s')) × HasRoom s s' q
  unfolding make_room
  make_room_lem c = elim (first_free_cases s) [
    | inl (free, lt) ↦ (
      s,
      ground arith,
      record { inv = v; keeps = Keeps-refl s; entry = refl; free = free; in_memory = lt },
    )
    | inr (e, all) ↦ elim c [
      | free_frame j l f ↦ cc (all j l)
      | evictable p hp rp ↦ evict_any e p hp rp
    ]
  ]

faulted-Inv : {s : Pager} → Inv s → Inv (faulted s)
faulted-Inv {s} =
    Inv-same
      (record { size = refl; count = refl; frees = refl; valids = λ p. refl; addrs = λ p. refl })

faulted-Keeps : (s : Pager) → Keeps s (faulted s)
faulted-Keeps s = record {
  same_size = refl;
  same_count = refl;
  words = λ p k _ _. refl;
  refs = λ p. refl;
  pinned = λ p _ _. refl;
}

-- The page is in memory and the address space is unchanged.
pub record Brought (s s' : Pager) (q : ℕ) : Type 0 where
  pub inv : Inv s'
  pub keeps : Keeps s s'
  pub resident : (s'.pg_table q).valid ≡ true
  pub same_refs : (s'.pg_table q).refcount ≡ (s.pg_table q).refcount

faulted-CanMakeRoom : {s : Pager} → CanMakeRoom s → CanMakeRoom (faulted s)
faulted-CanMakeRoom (free_frame j l f) = free_frame j l f
faulted-CanMakeRoom (evictable p h r) = evictable p h r

pub bring_in_lem :
    {s : Pager} (v : Inv s) (q : ℕ)
    → q < s.pg_count
    → (s.pg_table q).valid ≡ false
    → CanMakeRoom s
    → (s' : Pager) × (bring_in q s ≡ some (pos 0, s')) × Brought s s' q
unfolding bring_in
bring_in_lem {s} v q h r c =
    let (t, e, room) = make_room_lem (faulted-Inv v) q r (faulted-CanMakeRoom c) in
    let before : Keeps s t = Keeps-trans (faulted-Keeps s) room.keeps in
    let lt : q < t.pg_count = rw before.same_count h in
    let out : (t.pg_table q).valid ≡ false = ap (λ (x : PageEnt). x.valid) room.entry ∙ r in
    (
      loaded t q,
      bind_some make_room (λ _. page_in q) (faulted s) e
          ∙ page_in-loaded room.inv q lt out room.free room.in_memory,
      record {
        inv = loaded-Inv room.inv q lt out room.free room.in_memory;
        keeps = Keeps-trans before (loaded-Keeps room.inv q lt out room.free room.in_memory);
        resident = loaded-valid room.inv q lt out room.free room.in_memory;
        same_refs =
            loaded-refcount room.inv q lt out room.free room.in_memory
            ∙ ap (λ (x : PageEnt). x.refcount) room.entry;
      },
    )
