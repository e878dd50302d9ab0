-- ===== src/Pager/Tests.antt =====
-- The pager with pages of 50 words, and the theorems at it.
use brain_project.Prelude.{
  ℕ, ◌<◌, ◌≡◌, ◌==◌, refl, pos, minus_one, true, false, some, none, Option, ℤ, set, copy, arith,
  inr, if◌then◌else◌,
}
use brain_project.Layout.{vaddr_size}
use brain_project.Pager.{
  Pager, removable, touch_page, page_write, check_page_size, get_removal_page,
}
use brain_project.Pager.Inv.{view}
use brain_project.Pager.Victim.{Chosen, get_removal_page_lem}
use brain_project.Pager.Room.{free_frame}
use brain_project.Pager.Touch.{Touched, touch_page_lem}
use brain_project.Pager.Spare.{touch_page-Spare}
use brain_project.Prelude.{[], ◌∷◌}
use brain_project.Pager.Write.{write_word, address, view-write_word, view-page_write}
use brain_project.Pager.Errors.{touch_page-no_room}
use brain_project.Pager.Sample.{
  no_wrap, fresh-Spare, fresh, blank_word, blank, booted, resident, resident-Inv,
}

nothing_removable : (p : ℕ) → p < 200 → removable ((resident true).pg_table p) ≡ false
nothing_removable p h = ground arith

-- The return value alone.
abbrev returned : Option (ℤ × Pager) → Option ℤ
returned none = none
returned (some (r, _)) = some r

-- A page fault, an access to the page in memory, and one past the space.
faults_once : returned (touch_page 7 120 (resident false)) ≡ some (pos 20)
unfolding touch_page copy set
faults_once = refl

hits : returned (touch_page 7 20 (resident false)) ≡ some (pos 70)
unfolding touch_page set
hits = refl

misses : returned (touch_page 7 10000 (resident false)) ≡ some minus_one
unfolding touch_page
misses = refl

-- 30 does not divide 100.
refuses_thirty : returned (check_page_size 30 blank) ≡ some minus_one
unfolding check_page_size
refuses_thirty = refl

get_removal_page_lem_example : Chosen (resident true) (get_removal_page (resident true))
get_removal_page_lem_example = get_removal_page_lem (resident true)

touch_page_lem_example :
    (a : ℕ) × (s' : Pager) × (touch_page 7 120 (resident false) ≡ some (pos a, s'))
    × Touched (resident false) s' 120 a
touch_page_lem_example =
    touch_page_lem 7 120 (resident-Inv false) (omega arith) (inr (free_frame 0 (omega arith) refl))
      (omega arith)

view-write_word_example :
    view (write_word (resident false) (address (resident false) 20) blank_word) 21
    ≡ (if 20 == 21 then blank_word else view (resident false) 21)
view-write_word_example =
    view-write_word (resident-Inv false) 20 blank_word (omega arith) refl 21 (omega arith)

view-page_write_example :
    (s' : Pager) × (page_write 120 blank_word (resident false) ≡ some (tt, s'))
    × ((u : ℕ)
        → u < vaddr_size
        → view s' u ≡ (if 120 == u then blank_word else view (resident false) u))
view-page_write_example = view-page_write (resident-Inv false) 120 blank_word (omega arith) refl

touch_page-no_room_example : touch_page 7 120 (resident true) ≡ none
touch_page-no_room_example =
    touch_page-no_room 7 120 (resident-Inv true) (omega arith) (λ j _. refl) nothing_removable refl

touch_page-Spare_example :
    (a : ℕ) × (s' : Pager) × (touch_page 7 120 booted ≡ some (pos a, s')) × Touched booted s' 120 a
touch_page-Spare_example =
    touch_page-Spare 7 120 (2 ∷ []) fresh.inv (omega arith) fresh-Spare no_wrap
