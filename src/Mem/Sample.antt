-- ===== src/Mem/Sample.antt =====
-- Processes with regions of 100 words in the memory of the sample pager.
use brain_project.Prelude.{ℕ, ◌+◌, ◌≡◌, refl, pos, true, false, [], arith, inr}
use brain_project.Word.{word, fill}
use brain_project.Word.{word2int}
use brain_project.Pager.Room.{free_frame}
use brain_project.Pager.Sample.{blank_word, resident, resident-Inv}
use brain_project.Proc.{Proc}
use brain_project.Mem.{Memory, get_global_address}
use brain_project.Mem.Access.{Accessible}

-- A process whose region begins at 100 * k, for a digit k.
abbrev pub sample : ℕ → Proc
sample k = record {
  r = fill b'7';
  sp = fill b'0';
  br = word b'0' (b'0' + k) b'0' b'0';
  lr = word b'0' b'0' b'9' b'9';
  ic0 = b'0';
  ic1 = b'0';
  c = b'F';
  stack_base = 0;
  pid = k;
}

abbrev pub memory : Memory
memory = record {
  pager = resident false;
  holes = [];
  shm = λ _. blank_word;
  mallocs = λ _. true;
  malloc_calls = 0;
}

pub can_access : Accessible (resident false) 120
can_access = record {
  inv = resident-Inv false;
  in_space = omega arith;
  room = inr (free_frame 0 (omega arith) refl);
  refs_fit = omega arith;
}

pub translated : get_global_address (sample 1) (pos 20) ≡ pos 120
unfolding get_global_address word2int
translated = refl
