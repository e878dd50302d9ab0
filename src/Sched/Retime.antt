-- ===== src/Sched/Retime.antt =====
-- Changes of a task's time and of min_vruntime (sched_resume, sched_reset and sched_run of sched.c).
use brain_project.Prelude.{
  ℕ, ◌^◌, ◌<◌, ◌≡◌, ◌≢◌, inl, inr, refl, arith, false, List, [], ◌∷◌, set, set_self, set_ne,
  set-field, sym, ap, ◌∙◌, cases_eq,
}
use brain_project.RbTree.{RbTree, RbTreeLaws, Node}
use brain_project.Sched.{Rq, SchedEnt, woken}
use brain_project.Sched.Order.{has_task, Sorted, All-mono}
use brain_project.Sched.Inv.{Queued, vruntimes}
use brain_project.Sched.Moves.{All-and, All-ne}

-- The order of a queue depends on its tasks' times only.
Sorted-away :
    (f g : ℕ → ℕ) (k : ℕ) (q : List Node)
    → ((i : ℕ) → i ≢ k → g i ≡ f i)
    → has_task k q ≡ false
    → Sorted f q
    → Sorted g q
unfolding has_task
Sorted-away f g k [] e h s = tt
Sorted-away f g k ((n, i) ∷ q) e h (first, s) = (
  All-mono _ _ q (λ x (ne, le). omega (arith, e i (ground arith), e x.1 ne, le))
      (All-and _ _ q (All-ne k q (ground arith)) first),
  Sorted-away f g k q e (ground arith) s,
)

-- Another time for one entry.
abbrev pub retime : (ℕ → SchedEnt) → ℕ → ℕ → ℕ → SchedEnt
retime table k v = set table k (record (table k) { vruntime = v })

module _ (table : ℕ → SchedEnt) (k v : ℕ) where
  retime-pid : (i : ℕ) → (retime table k v i).pid ≡ (table i).pid
  retime-pid = set-field (λ e. e.pid) table k (record (table k) { vruntime = v }) refl

  retime-n : (i : ℕ) → (retime table k v i).n ≡ (table i).n
  retime-n = set-field (λ e. e.n) table k (record (table k) { vruntime = v }) refl

  pub retime_self : (retime table k v k).vruntime ≡ v
  retime_self =
      ap (λ (e : SchedEnt). e.vruntime) (set_self table k (record (table k) { vruntime = v }))

  pub retime-ne : (i : ℕ) → i ≢ k → (retime table k v i).vruntime ≡ (table i).vruntime
  retime-ne i h =
      ap (λ (e : SchedEnt). e.vruntime)
        (set_ne table k i (record (table k) { vruntime = v }) (λ e. h (sym e)))

  retime-below :
      (m : ℕ) → v < m → (i : ℕ) → (table i).vruntime < m → (retime table k v i).vruntime < m
  retime-below m h i l = elim (cases_eq i k) [
    | inl same ↦ rw (same, retime_self) h
    | inr ne ↦ rw (retime-ne i ne) l
  ]

abbrev pub retimed : {T : Type 0} → Rq T → ℕ → ℕ → Rq T
retimed s k v = record s { task_table = retime s.task_table k v }

module _ {T : Type 0} {tree : RbTree T} (laws : RbTreeLaws tree) {s : Rq T} {q : List Node}
    (w : Queued laws s q) where
  -- A task that is not in the queue may get any small time.
  pub Queued-retime : (k v : ℕ) → v < 2 ^ 31 → has_task k q ≡ false → Queued laws (retimed s k v) q
  Queued-retime k v h out = record {
    built = w.built;
    is_queue = w.is_queue;
    pids = λ i l. retime-pid s.task_table k v i ∙ w.pids i l;
    small = λ i l. retime-below s.task_table k v (2 ^ 31) h i (w.small i l);
    small_min = w.small_min;
    sorted =
        Sorted-away (vruntimes s) (vruntimes (retimed s k v)) k q (retime-ne s.task_table k v) out
          w.sorted;
    distinct = w.distinct;
    entries = All-mono _ _ q (λ x (l, e). (l, retime-n s.task_table k v x.1 ∙ e)) w.entries;
    idle = λ i l e. retime-n s.task_table k v i ∙ w.idle i l e;
  }

  pub Queued-min : (m : ℕ) → m < 2 ^ 31 → Queued laws (record s { min_vruntime = m }) q
  Queued-min m h = record {
    built = w.built;
    is_queue = w.is_queue;
    pids = w.pids;
    small = w.small;
    small_min = h;
    sorted = w.sorted;
    distinct = w.distinct;
    entries = w.entries;
    idle = w.idle;
  }

-- A process that wakes up keeps its time, or gets min_vruntime less the latency of two operations if that is more.
pub woken-small : (a m : ℕ) → a < 2 ^ 31 → m < 2 ^ 31 → woken a m < 2 ^ 31
woken-small a m h l = ground arith
