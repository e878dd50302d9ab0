-- ===== src/Vm/TickTests.antt =====
-- A machine that runs the code of process 1, over the sample tree, and the theorems at it.
use brain_project.Prelude.{
  ℕ, ◌<◌, ◌+◌, ◌∷◌, add_ℕ, ◌≡◌, refl, arith, false, inr, pos, none, [], List, ◌++◌, pure, ◌>>=◌,
  ◌>>◌,
}
use brain_project.Word.{Word, word, word2int}
use brain_project.Pager.{Pager}
use brain_project.Pager.Inv.{Inv, Inv-same, view}
use brain_project.Pager.Room.{free_frame}
use brain_project.Pager.Sample.{resident, resident-Inv, booted, fresh, fresh-Spare}
use brain_project.Pager.Touch.{Touched}
use brain_project.Proc.{ic_word}
use brain_project.Mem.{get_global_address}
use brain_project.Mem.Access.{Accessible}
use brain_project.Mem.Sample
use brain_project.RbTree.Sample.{Nodes, sample}
use brain_project.Os.{Os, cfs}
use brain_project.Vm.Machine.{Machine, release}
use brain_project.Vm.Tick.{op_ps, opcode_of, code, run_op, tick}
use brain_project.Vm.Io.{print, read, chars}
use brain_project.Stdio.Fields.{Plain}
use brain_project.Loader.Words.{IsPlain}
use brain_project.Vm.Reading.{typing, typed, Filled, Readable, read_lem}
use brain_project.Vm.Printing.{Roomy, Printed, print_lem}
use brain_project.Vm.Dispatch.{tick_lem, fetched, operand}

-- The storage has the instruction PS25 everywhere.
abbrev coded : Pager
coded = record (resident false) { page_mem = λ _. word b'P' b'S' b'2' b'5' }

abbrev machine : Machine (Os Nodes)
machine = record {
  memory = record Sample.memory { pager = coded };
  proc_table = Sample.sample;
  next_pid = 3;
  sem_table = λ _. 1;
  sem_wq = λ _. [];
  recv_wq = λ _. [];
  send_wq = λ _. [];
  sched = record {
    rq = record {
      t = record { list = []; next = 2 };
      min_vruntime = 0;
      current = 1;
      nr_running = 1;
      task_table = λ i. record { pid = i; vruntime = 0; n = none };
      ctx_switches = 0;
      ops = 0;
    };
    stdin = record { rest = []; eof = false };
    printed = [];
    files = λ _ _. none;
    buffer = λ _. 0;
  };
}

coded-Inv : Inv coded
coded-Inv =
    Inv-same
      (record { size = refl; count = refl; frees = refl; valids = λ p. refl; addrs = λ p. refl })
      (resident-Inv false)

first_word : Accessible coded 100
first_word = record {
  inv = coded-Inv;
  in_space = omega arith;
  room = inr (free_frame 0 (omega arith) refl);
  refs_fit = omega arith;
}

at_zero : word2int (ic_word (machine.proc_table 1)) ≡ pos 0
unfolding word2int
at_zero = refl

translated : get_global_address (machine.proc_table 1) (pos 0) ≡ pos 100
unfolding get_global_address word2int
translated = refl

has_code : opcode_of (view coded 100).b0 (view coded 100).b1 ≡ code op_ps
unfolding code
has_code = refl

tick_lem_example :
    (a : ℕ) × (q : Pager) × (tick sample 1 machine
      ≡ (do
        res ← run_op sample op_ps 1 (operand (view coded 100))
        release (cfs sample) 1 (pos 0)
        pure res)
          (fetched machine 1 0 q))
    × Touched coded q 100 a
tick_lem_example =
    tick_lem sample 1 machine 0 100 (omega arith) refl at_zero translated first_word op_ps has_code

-- The machine with a memory just after its start.
abbrev started : Machine (Os Nodes)
started = record machine { memory = record machine.memory { pager = booted } }

region :
    (j : ℕ) → j < 10 → get_global_address (started.proc_table 1) (add_ℕ (pos 0) j) ≡ pos (100 + j)
unfolding get_global_address word2int
region j h = ground arith

booted-Roomy : Roomy booted (2 ∷ [])
booted-Roomy = record {
  inv = fresh.inv;
  spare = fresh-Spare;
  fits = λ p h. rw (fresh.no_refs p h) (omega arith);
}

print_lem_example : Printed sample 1 started (2 ∷ []) 10 0 100 (print sample 1 (pos 0) started)
print_lem_example =
    print_lem sample 1 (pos 0) (2 ∷ []) 100 started region (omega arith) booted-Roomy

-- Ten words to read.
abbrev three : List Word
three = word b'L' b'R' b'1' b'2' ∷ word b'0' b'0' b'0' b'7' ∷ word b'P' b'S' b'2' b'5' ∷ []

abbrev ten_words : List Word
ten_words = word b'H' b'A' b'0' b'0' ∷ (three ++ (three ++ three))

positive-IsPlain :
    (a b c d : ℕ)
    → Plain (chars (word a b c d))
    → 0 < a
    → 0 < b
    → 0 < c
    → 0 < d
    → IsPlain (word a b c d)
positive-IsPlain a b c d p ha hb hc hd = record {
  plain = p;
  no_nul = (
    λ e. absurd (omega (arith, e, ha)),
    λ e. absurd (omega (arith, e, hb)),
    λ e. absurd (omega (arith, e, hc)),
    λ e. absurd (omega (arith, e, hd)),
  );
}

three-Readable : (ws : List Word) → Readable ws → Readable (three ++ ws)
three-Readable ws good = (
  positive-IsPlain b'L' b'R' b'1' b'2' (refl, (refl, (refl, (refl, tt)))) (omega arith)
      (omega arith) (omega arith) (omega arith),
  refl,
  (
    positive-IsPlain b'0' b'0' b'0' b'7' (refl, (refl, (refl, (refl, tt)))) (omega arith)
        (omega arith) (omega arith) (omega arith),
    refl,
    (
      positive-IsPlain b'P' b'S' b'2' b'5' (refl, (refl, (refl, (refl, tt)))) (omega arith)
          (omega arith) (omega arith) (omega arith),
      refl,
      good,
    ),
  ),
)

ten_words-Readable : Readable ten_words
ten_words-Readable = (
  positive-IsPlain b'H' b'A' b'0' b'0' (refl, (refl, (refl, (refl, tt)))) (omega arith)
      (omega arith) (omega arith) (omega arith),
  refl,
  three-Readable (three ++ three) (three-Readable three (three-Readable [] tt)),
)

read_lem_example :
    Filled sample 1 started
      (2 ∷ [])
      ten_words
      0
      100
      []
      (read sample 1 (pos 0) (typing sample 1 started (typed (10 ∷ []) ten_words [])))
read_lem_example =
    read_lem sample 1 (pos 0) (2 ∷ []) 100 (10 ∷ []) [] (refl, tt) ten_words started refl region
      (omega arith) booted-Roomy ten_words-Readable
