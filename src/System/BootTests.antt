-- ===== src/System/BootTests.antt =====
-- The start of the program and the load at concrete inputs.
use brain_project.Prelude.{refl, arith, false, [], ◌∷◌, ◌++◌, After}
use brain_project.Stdio.{Stream}
use brain_project.RbTree.Sample.{Nodes, sample}
use brain_project.Os.{Os}
use brain_project.Vm.Machine.{Machine}
use brain_project.Loader.{brain10, data_mark}
use brain_project.Loader.Start.{load_file}
use brain_project.Program.{boot}
use brain_project.System.Programs.{Loaded, load_file-Loaded}
use brain_project.System.Init.{Blank}
use brain_project.System.Boot.{Booted, boot-Booted}
use brain_project.System.Tests.{laws, machine, places, machine-Sys}

-- A process of 16 words with the program HA00.
abbrev one_program : Stream
one_program = record {
  rest =
      brain10
      ++ 10 ∷ b'1' ∷ b'6' ∷ 10 ∷ b'H' ∷ b'A' ∷ b'0' ∷ b'0' ∷ 10 ∷ []
      ++ data_mark
      ++ 10 ∷ [];
  eof = false;
}

load_file-Loaded_example : After (Loaded laws 3 places) (load_file sample one_program machine)
load_file-Loaded_example = load_file-Loaded laws one_program machine-Sys

-- The machine before main, with that file at the input.
abbrev blank : Machine (Os Nodes)
blank = record machine {
  next_pid = 0;
  sem_wq = λ _. [];
  recv_wq = λ _. [];
  sched = record machine.sched {
    rq = record machine.sched.rq { nr_running = 0 };
    stdin = one_program;
  };
}

blank-Blank : Blank blank
blank-Blank = record {
  stopped = refl;
  small = omega arith;
  no_process = refl;
  no_semaphore = λ k h. refl;
  no_receiver = λ k h. refl;
  no_sender = λ k h. refl;
}

boot-Booted_example : Booted laws 5 blank (boot sample 5 blank)
boot-Booted_example = boot-Booted laws 5 blank blank-Blank
