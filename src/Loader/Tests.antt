-- ===== src/Loader/Tests.antt =====
-- A program text of two words, and the theorems at it.
use brain_project.Prelude.{◌≡◌, refl, arith, false, pos, none, some, List, [], ◌∷◌, ◌++◌}
use brain_project.Word.{Word, word, word2int}
use brain_project.Mem.Sample
use brain_project.RbTree.Sample.{Nodes, sample}
use brain_project.Os.{Os}
use brain_project.Loader.Start.{load_procs}
use brain_project.Loader.Procs.{load_procs-enough}
use brain_project.Stdio.{Stream, strncmp_eq, buf_word, length}
use brain_project.Loader.{read_word, load_code, load_loop, data_mark}
use brain_project.Loader.Words.{IsPlain, read_word-chars}
use brain_project.Loader.Code.{AllCode, text, with_words, load_code-text}
use brain_project.Loader.Fuel.{load_loop-enough}
use brain_project.Vm.Machine.{Machine}
use brain_project.Vm.Io.{chars}

-- LR12 and HA00.
abbrev program : List Word
program = word b'L' b'R' b'1' b'2' ∷ word b'H' b'A' b'0' b'0' ∷ []

abbrev machine : Machine (Os Nodes)
machine = record {
  memory = Sample.memory;
  proc_table = Sample.sample;
  next_pid = 3;
  sem_table = λ _. 1;
  sem_wq = λ _. [];
  recv_wq = λ _. [];
  send_wq = λ _. [];
  sched = record {
    rq = record {
      t = record { list = []; next = 2 };
      min_vruntime = 0;
      current = 1;
      nr_running = 1;
      task_table = λ i. record { pid = i; vruntime = 0; n = none };
      ctx_switches = 0;
      ops = 0;
    };
    stdin = record { rest = []; eof = false };
    printed = [];
    files = λ _ _. none;
    buffer = λ _. 0;
  };
}

is_code : AllCode program
unfolding strncmp_eq
is_code = (
  record { plain = (refl, (refl, (refl, (refl, tt)))); not_data = refl },
  (record { plain = (refl, (refl, (refl, (refl, tt)))); not_data = refl }, tt),
)

base : word2int (machine.proc_table 1).br ≡ pos 100
unfolding word2int
base = refl

limit : word2int (machine.proc_table 1).lr ≡ pos 99
unfolding word2int
limit = refl

-- The newline behind the size of the process is still to be read.
load_code-text_example :
    load_code
      (λ _. 0)
      1
      (record { rest = (10 ∷ []) ++ text program (data_mark ++ 10 ∷ (b'1' ∷ [])); eof = false })
      machine
    ≡ some ((pos 1, record { rest = b'1' ∷ []; eof = false }), with_words machine 100 program)
load_code-text_example =
    load_code-text 1 100 99 machine program (10 ∷ []) (b'1' ∷ []) (λ _. 0) false base limit
      (omega arith) (omega arith) (refl, tt) is_code

abbrev short : Stream
short = record { rest = b'N' ∷ b'P' ∷ 10 ∷ []; eof = false }

short_length : length short.rest ≡ 3
unfolding length
short_length = refl

load_loop-enough_example :
    load_loop 4 1 (λ _. 0) 0 short machine ≡ load_loop 9 1 (λ _. 0) 0 short machine
load_loop-enough_example =
    load_loop-enough 1 4 9 (λ _. 0) 0 short machine (omega (arith, short_length))
      (omega (arith, short_length))

lr12 : IsPlain (word b'L' b'R' b'1' b'2')
lr12 = record {
  plain = (refl, (refl, (refl, (refl, tt))));
  no_nul = (
    λ e. absurd (omega arith),
    λ e. absurd (omega arith),
    λ e. absurd (omega arith),
    λ e. absurd (omega arith),
  );
}

read_word-chars_example :
    (buf_word
        (read_word
          (λ _. 0)
          (record {
            rest = (10 ∷ []) ++ (chars (word b'L' b'R' b'1' b'2') ++ (10 ∷ []));
            eof = false;
          })).0
      ≡ word b'L' b'R' b'1' b'2')
    × ((read_word
          (λ _. 0)
          (record {
            rest = (10 ∷ []) ++ (chars (word b'L' b'R' b'1' b'2') ++ (10 ∷ []));
            eof = false;
          })).1
        ≡ record { rest = 10 ∷ []; eof = false })
read_word-chars_example =
    read_word-chars (word b'L' b'R' b'1' b'2') (λ _. 0) (10 ∷ []) (10 ∷ []) false (refl, tt) lr12

-- A process of 10 words with one instruction.
abbrev one_process : Stream
one_process = record {
  rest = b'1' ∷ b'0' ∷ 10 ∷ (chars (word b'H' b'A' b'0' b'0') ++ 10 ∷ (data_mark ++ 10 ∷ []));
  eof = false;
}

one_process_length : length one_process.rest ≡ 13
unfolding length
one_process_length = refl

load_procs-enough_example :
    load_procs sample 14 one_process machine ≡ load_procs sample 20 one_process machine
load_procs-enough_example =
    load_procs-enough sample 14 20 one_process machine (omega (arith, one_process_length))
      (omega (arith, one_process_length))
