-- ===== src/WaitQueue/Tests.antt =====
-- A queue of the processes 3 and 4, in the nodes 10 and 20, and the theorems at it.
use brain_project.Prelude.{◌≡◌, ◌==◌, refl, arith, if◌then◌else◌, false, pos, none, some, [], ◌∷◌}
use brain_project.WaitQueue.{Wq, insert_plist, remove_plist}
use brain_project.WaitQueue.Chain.{
  Cells, Queue, Changed, has, last_from, procs, insert_plist-insert_back,
}
use brain_project.Vm.Machine.{insert_back, remove_first}
use brain_project.WaitQueue.Remove.{remove_plist-remove_first}

abbrev waiting : Wq
waiting = record {
  heap = λ a.
      if a == 10
      then some (record { p = 3; next = some 20 })
      else if a == 20
      then some (record { p = 4; next = none })
      else none;
  head = some 10;
  tail = some 20;
}

abbrev cells : Cells
cells = (10, 3) ∷ (20, 4) ∷ []

waiting-Queue : Queue 99 waiting cells
unfolding has last_from
waiting-Queue = record {
  chain = (refl, some 20, refl, (refl, none, refl, refl));
  apart = (refl, (refl, tt));
  ends = refl;
  no_root = refl;
}

unused : has 30 cells ≡ false
unfolding has
unused = refl

insert_plist-insert_back_example :
    (s' : Wq) × (insert_plist (some 30) 5 waiting ≡ some (pos 0, s'))
    × Changed 99 waiting cells (insert_back 5 (procs cells)) s'
insert_plist-insert_back_example =
    insert_plist-insert_back 99 waiting cells 30 5 waiting-Queue unused (λ e. absurd (omega arith))

remove_plist-remove_first_example :
    (s' : Wq) × (remove_plist 3 99 4 waiting ≡ some (pos 0, s'))
    × Changed 99 waiting cells (remove_first 4 (procs cells)) s'
remove_plist-remove_first_example =
    remove_plist-remove_first 99 waiting 4 3 cells waiting-Queue (omega arith)
