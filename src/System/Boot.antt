-- ===== src/System/Boot.antt =====
-- The whole program behind the page table (main of loader.c).
use brain_project.Prelude.{
  ◌<◌, arith, Option, ltb, sym, subst, bind_none, faults, fill_first, ℕ, ◌≡◌, refl, ap,
  if◌then◌else◌, ◌∙◌, not, some, none, ℤ, pos, is_zero, Run, pure, ◌>>=◌, ◌>>◌, bind_some, inl, inr,
  After, ends,
}
use brain_project.Layout.{mem_size}
use brain_project.Word.{fill}
use brain_project.Stdio.{Stream}
use brain_project.RbTree.{RbTree, RbTreeLaws}
use brain_project.Os.{Os}
use brain_project.Sched.{sched_init}
use brain_project.Sched.Init.{sched_init_lem}
use brain_project.Vm.Machine.{Machine}
use brain_project.Vm.Msg.{msg_init}
use brain_project.Vm.Sem.{sem_op_init}
use brain_project.Vm.Io.{set_stdin}
use brain_project.Vm.Quiet.{Kept}
use brain_project.Loader.Start.{load_file}
use brain_project.Program.{on_queue, sched_run, set_mem, boot}
use brain_project.System.{off, ready, Sys, Kept-Sys}
use brain_project.System.Calls.{with_rq, call_returns}
use brain_project.System.Programs.{Loaded, all_started, failed, started_from, load_file-Loaded}
use brain_project.System.Init.{Blank, nowhere, cleared, cleared-Sys}

module _ {T : Type 0} (tree : RbTree T) where
  -- The machine with another standard input.
  abbrev pub with_stdin : Machine (Os T) → Stream → Machine (Os T)
  with_stdin m s = record m { sched = record m.sched { stdin = s } }

  -- The initialisations of main before the files are loaded.
  abbrev pub prepare : Run (Machine (Os T)) ℤ
  prepare =
      set_mem tree b'0' >> (on_queue (sched_init tree) >>= λ a. msg_init >> (sem_op_init >> pure a))

module _ {T : Type 0} {tree : RbTree T} (laws : RbTreeLaws tree) (rounds : ℕ) where
  -- What boot does in the machine `m`: the tree cannot be created; or the load faults; or it fails; or
  -- it succeeds, and sched_run runs with exactly the processes that it added, which are all ready.
  pub data Booted (m : Machine (Os T)) : Option (ℤ × Machine (Os T)) → Type 0 where
    no_tree : (m' : Machine (Os T)) → tree.create ≡ none → Booted m (some (pos 1, m'))
    load_faults :
        (m1 : Machine (Os T))
        → prepare tree m ≡ some (pos 0, m1)
        → load_file tree m1.sched.stdin m1 ≡ none
        → Booted m none
    not_loaded :
        (m1 m2 : Machine (Os T)) (s : Stream)
        → prepare tree m ≡ some (pos 0, m1)
        → load_file tree m1.sched.stdin m1 ≡ some ((pos 1, s), m2)
        → Booted m (some (pos 1, with_stdin tree m2 s))
    runs_loaded :
        (m1 m2 : Machine (Os T)) (s : Stream)
        → prepare tree m ≡ some (pos 0, m1)
        → load_file tree m1.sched.stdin m1 ≡ some ((pos 0, s), m2)
        → 0 < m2.next_pid
        → Sys laws (with_stdin tree m2 s) (λ k. if ltb k m2.next_pid then ready else off)
        → Booted m ((sched_run tree rounds >>= λ _. pure (pos 0)) (with_stdin tree m2 s))

  -- What main behind the load does.
  abbrev run_loaded : ℤ × Stream → Run (Machine (Os T)) ℤ
  run_loaded loaded =
      set_stdin tree loaded.1
      >> (if not (is_zero loaded.0)
          then pure (pos 1)
          else (sched_run tree rounds >>= λ _. pure (pos 0)))

  stdin-Kept : (m : Machine (Os T)) (s : Stream) → Kept m (with_stdin tree m s)
  stdin-Kept m s = record {
    same_rq = refl;
    same_next = refl;
    same_sem_wq = refl;
    same_send_wq = refl;
    same_recv_wq = refl;
    same_pids = λ k. refl;
  }

  -- With nobody in the machine, the first processes are those that are ready.
  first_ready : (n : ℕ) → started_from nowhere 0 n ≡ (λ k. if ltb k n then ready else off)
  first_ready n = λ i k. at_place k i
    where
      at_place : (k : ℕ) → started_from nowhere 0 n k ≡ (if ltb k n then ready else off)
      at_place k = ground arith

  run_loaded-Booted :
      (m m1 m2 : Machine (Os T)) (loaded : ℤ × Stream)
      → prepare tree m ≡ some (pos 0, m1)
      → load_file tree m1.sched.stdin m1 ≡ some (loaded, m2)
      → m1.next_pid ≡ 0
      → Loaded laws m1.next_pid nowhere loaded m2
      → Booted m (run_loaded loaded m2)
  run_loaded-Booted m m1 m2 (_, s) prepared load zero_pid (failed n _ _ _) =
      not_loaded m1 m2 s prepared load
  run_loaded-Booted m m1 m2 (_, s) prepared load zero_pid (all_started h v) =
      runs_loaded m1 m2 s prepared load (omega (arith, h)) (
        Kept-Sys laws
          (subst (Sys laws m2)
            (ap (λ (n : ℕ). started_from nowhere n m2.next_pid) zero_pid ∙ first_ready m2.next_pid)
            v)
          (stdin-Kept m2 s))

  -- The load and what is behind it.
  loaded-Booted :
      (m m1 : Machine (Os T))
      → prepare tree m ≡ some (pos 0, m1)
      → m1.next_pid ≡ 0
      → Sys laws m1 nowhere
      → Booted m ((load_file tree m1.sched.stdin >>= run_loaded) m1)
  loaded-Booted m m1 prepared zero_pid v = by_load (load_file-Loaded laws m1.sched.stdin v)
    where
      by_load :
          After (Loaded laws m1.next_pid nowhere) (load_file tree m1.sched.stdin m1)
          → Booted m ((load_file tree m1.sched.stdin >>= run_loaded) m1)
      by_load (faults e) =
          subst (Booted m) (sym (bind_none (load_file tree m1.sched.stdin) run_loaded m1 e))
            (load_faults m1 prepared e)
      by_load (ends r m2 e x) =
          subst (Booted m) (sym (bind_some (load_file tree m1.sched.stdin) run_loaded m1 e))
            (run_loaded-Booted m m1 m2 r prepared e zero_pid x)

  -- The machine behind set_mem.
  abbrev filled : Machine (Os T) → Machine (Os T)
  filled m = record m {
    memory = record m.memory {
      pager = record m.memory.pager { mem = fill_first m.memory.pager.mem mem_size (fill b'0') };
    };
  }

  filled-Blank : {m : Machine (Os T)} → Blank m → Blank (filled m)
  filled-Blank b = record {
    stopped = b.stopped;
    small = b.small;
    no_process = b.no_process;
    no_semaphore = b.no_semaphore;
    no_receiver = b.no_receiver;
    no_sender = b.no_sender;
  }

  -- boot, on a machine as the program's static data are: where the tree cannot be created, it returns
  -- 1; where the load faults, so does it; where the load fails, it returns 1; and where the load
  -- succeeds, there is a process at least, the queues agree with all processes being ready, and
  -- sched_run runs on that machine before 0 is returned.
  pub boot-Booted : (m : Machine (Os T)) → Blank m → Booted m (boot tree rounds m)
  unfolding boot set_mem on_queue msg_init sem_op_init
  boot-Booted m b = elim (sched_init_lem laws m.sched.rq b.stopped b.small) [
    | inl (s, run, v) ↦
        let m0 = filled m in
        let m1 = cleared laws m0 s in
        let init = call_returns (sched_init tree) m0 (pos 0) s run in
        subst (Booted m) (sym (bind_some (on_queue (sched_init tree)) _ m0 init)) (
          loaded-Booted m m1 (bind_some (on_queue (sched_init tree)) _ m0 init) b.no_process
            (cleared-Sys laws (filled-Blank b) s v))
    | inr (e, (s, run)) ↦
        let m0 = filled m in
        subst (Booted m)
          (sym (
            bind_some (on_queue (sched_init tree)) _ m0
              (call_returns (sched_init tree) m0 (pos 1) s run)))
          (no_tree (with_rq m0 s) e)
  ]
