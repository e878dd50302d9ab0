-- ===== src/Os.antt =====
-- What the program has besides its machine: the run queue and its accounts (sched.c), and the streams
-- and files that its libraries serve.
use brain_project.Prelude.{ℕ, List, Option, none, some, Run}
use brain_project.RbTree.{RbTree}
use brain_project.Sched.{Rq, sched_suspend, sched_resume, sched_reset}
use brain_project.Stdio.{Stream}
use brain_project.Vm.Machine.{Scheduler}

-- `files` has the file `XY.brain` under the characters X and Y. `buffer` has what a call finds in an
-- array that it does not initialise.
pub record Os (T : Type 0) : Type 0 where
  pub rq : Rq T
  pub stdin : Stream
  pub printed : List ℕ
  pub files : ℕ → ℕ → Option (List ℕ)
  pub buffer : ℕ → ℕ

module _ {T : Type 0} where
  unfoldable pub on_rq : {A : Type 0} → Run (Rq T) A → Run (Os T) A
  on_rq f o = elim (f o.rq) [ none ↦ none | some (a, q) ↦ some (a, record o { rq = q }) ]

  -- The scheduler that the instructions call.
  abbrev pub cfs : RbTree T → Scheduler (Os T)
  cfs tree = record {
    ops = λ o. o.rq.ops;
    suspend = λ pid. on_rq (sched_suspend tree pid);
    resume = λ pid. on_rq (sched_resume tree pid);
    reset = λ pid. on_rq (sched_reset pid);
  }
