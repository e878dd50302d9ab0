-- ===== src/Pager/Errors.antt =====
-- Where touch_page of pagemem.c fails.
use brain_project.Prelude.{
  ℕ, ◌/◌, ◌<◌, ◌≤◌, ◌≡◌, refl, arith, false, some, none, subst, inl, inr, minus_one, Option-cases,
  bind_none,
}
use brain_project.Layout.{vaddr_size}
use brain_project.Pager.{
  Pager, touch_page, ensure_page, bring_in, make_room, toss_page, toss_removal, page_in, faulted,
  get_removal_page, first_free, frame_count,
}
use brain_project.Pager.Inv.{Inv, page-lt, test_inside, test_outside, count-le, count-pos}
use brain_project.Pager.Victim.{
  IsVictim, get_removal_page-IsVictim, first_free_cases, NoneRemovable,
}

-- An address behind the virtual space is refused: touch_page returns -1 and changes nothing.
touch_page-outside :
    {s : Pager} (ops w : ℕ) → Inv s → vaddr_size ≤ w → touch_page ops w s ≡ some (minus_one, s)
unfolding touch_page
touch_page-outside {s} ops w v h =
    rw (test_outside s.pg_count (w / s.pg_size) (count-pos v) (count-le v) outside) refl
  where
    outside : s.pg_count ≤ w / s.pg_size
    outside = grind (arith, v.pages_fill, v.size_pos)

module _ (s : Pager) (none_free : (j : ℕ) → j < frame_count s → s.free_frames j ≡ false)
    (stuck : NoneRemovable s s.pg_count) where
  none_first : first_free s ≡ frame_count s
  none_first = elim (first_free_cases s) [
    | inl (free, lt) ↦ cc (none_free (first_free s) lt)
    | inr (e, _) ↦ e
  ]

  no_victim : get_removal_page s ≡ none
  no_victim = elim (Option-cases (get_removal_page s)) [
    | inl e ↦ e
    | inr ((p, period), e) ↦
        let best = subst (IsVictim s s.pg_count) e (get_removal_page-IsVictim s) in
        cc (stuck p best.in_table, best.allowed)
  ]

  toss_page-fault : toss_page s ≡ none
  unfolding toss_page toss_removal
  toss_page-fault = rw no_victim refl

  make_room-fault : make_room s ≡ none
  unfolding make_room
  make_room-fault = rw none_first (ground (arith, toss_page-fault))

-- With every frame taken and every page in memory in use, touching a page that is not in memory
-- is no error that the code reports: toss_page reads the table at index -1 before it tests the
-- index, which the model shows as a fault.
pub touch_page-no_room :
    {s : Pager} (ops w : ℕ)
    → Inv s
    → w < vaddr_size
    → ((j : ℕ) → j < frame_count s → s.free_frames j ≡ false)
    → NoneRemovable s s.pg_count
    → (s.pg_table (w / s.pg_size)).valid ≡ false
    → touch_page ops w s ≡ none
unfolding touch_page ensure_page bring_in
touch_page-no_room {s} ops w v h all stuck r =
    rw (test_inside s.pg_count (w / s.pg_size) (count-le v) (page-lt v w h)) (
      bind_none (ensure_page (w / s.pg_size)) _ s (
        rw r (
          bind_none make_room (λ _. page_in (w / s.pg_size)) (faulted s)
            (make_room-fault (faulted s) all stuck))))
