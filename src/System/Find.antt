-- ===== src/System/Find.antt =====
-- The walk along a wait queue for a process (find_pid of vm/msg.c).
use brain_project.Prelude.{
  ℕ, refl, ap, ◌∙◌, ◌≢◌, none, ◌≤◌, ◌≡◌, arith, ◌==◌, pos, some, List, [], ◌∷◌, Bool-cases, subst,
  ==_iff, inl, inr,
}
use brain_project.Vm.Machine.{Machine}
use brain_project.Vm.Msg.{find_pid}
use brain_project.RbTree.{RbTree, RbTreeLaws}
use brain_project.Os.{Os}
use brain_project.System.{Queue, at, is_at, Places, waiting, Sys}
use brain_project.System.Waits.{same_queue_refl}
use brain_project.System.Calls.{known}
use brain_project.System.Queues.{count}

-- The process that is found is in the queue, and has the number.
pub find_pid_lem :
    {S : Type 0} (m : Machine S) (d q : ℕ) (l : List ℕ)
    → find_pid m (pos d) l ≡ some q
    → ((m.proc_table q).pid ≡ d) × (1 ≤ count q l)
unfolding find_pid count
find_pid_lem m d q [] e = cc
find_pid_lem m d q (w ∷ l) e = elim (Bool-cases ((m.proc_table w).pid == d)) [
  | inl f ↦
      let same : w ≡ q = ground arith in
      (
        subst (λ k. (m.proc_table k).pid ≡ d) same ((==_iff (m.proc_table w).pid d).0 f),
        ground (arith, same),
      )
  | inr f ↦ let (h, c) = find_pid_lem m d q l (ground arith) in (h, omega (arith, c))
]

-- Where no process with the number is found, the one with that number is not in the queue.
pub find_pid-none :
    {S : Type 0} (m : Machine S) (d : ℕ) (l : List ℕ)
    → find_pid m (pos d) l ≡ none
    → (m.proc_table d).pid ≡ d
    → count d l ≡ 0
unfolding find_pid count
find_pid-none m d [] e own = refl
find_pid-none m d (w ∷ l) e own = elim (Bool-cases ((m.proc_table w).pid == d)) [
  | inl f ↦ absurd (ground (arith, e, f))
  | inr f ↦
      let apart : w ≢ d = λ same. ground (arith, f, own, ap (λ k. (m.proc_table k).pid) same) in
      ground (arith, apart, find_pid-none m d l (ground (arith, e, f)) own)
]

module _ {T : Type 0} {tree : RbTree T} (laws : RbTreeLaws tree) where
  -- A process that waits in a queue is found there.
  pub find_pid-waiting :
      {m : Machine (Os T)} {p : Places} (v : Sys laws m p) (d : ℕ) (q : Queue)
      → find_pid m (pos d) (waiting m q) ≡ none
      → p d ≢ at q
  unfolding is_at
  find_pid-waiting {m} v d q e here =
      let there : count d (waiting m q) ≡ 1 = v.waits q d ∙ rw (here, same_queue_refl q) refl in
      let own = v.pids d (known laws v d λ f. cc (here, f)) in
      omega (arith, there, find_pid-none m d (waiting m q) e own)
