-- ===== src/Proc.antt =====
-- The process control block (vm/vm.h). `ic` holds two characters, `c` one.
use brain_project.Prelude.{ℕ}
use brain_project.Word.{Word, word}

pub record Proc : Type 0 where
  pub r : Word
  pub sp : Word
  pub br : Word
  pub lr : Word
  pub ic0 : ℕ
  pub ic1 : ℕ
  pub c : ℕ
  pub stack_base : ℕ
  pub pid : ℕ

-- memset(temp, '0', 4); memcpy(temp+2, p->ic, 2);
abbrev pub ic_word : Proc → Word
ic_word p = word b'0' b'0' p.ic0 p.ic1

-- memcpy(p->ic, temp+2, 2);
abbrev pub set_ic : Proc → Word → Proc
set_ic p temp = record p { ic0 = temp.b2; ic1 = temp.b3 }
