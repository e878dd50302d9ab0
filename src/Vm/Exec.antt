-- ===== src/Vm/Exec.antt =====
-- exec_proc (vm/exec.c): a process starts another program in its place. scanf stores the NUL of a
-- header of seven characters behind the array `temp`, which is taken to change nothing.
use brain_project.Prelude.{
  ℕ, Bool, false, if◌then◌else◌, ℤ, pos, minus_one, is_neg, is_zero, pred_ℤ, Option, none, some,
  List, Run, pure, get, ◌>>=◌, ◌>>◌,
}
use brain_project.Word.{word2int, fill}
use brain_project.Proc.{Proc, ic_word}
use brain_project.Mem.{read_ref, resize_proc}
use brain_project.RbTree.{RbTree}
use brain_project.Stdio.{Stream, scan_string, strncmp_eq}
use brain_project.Os.{Os, cfs}
use brain_project.Loader.{load_header, load_code, brain10}
use brain_project.Vm.Machine.{Machine, on_memory, this, set_proc, wordref, release}

-- fscanf(fh, "%7s", temp) == 1 && strncmp("BRAIN10", temp, 7) == 0
abbrev pub has_header : Option (List ℕ) → Bool
has_header none = false
has_header (some temp) = strncmp_eq 7 brain10 temp

-- The process state of a program that starts.
abbrev pub restart : Proc → Proc
restart p = record p {
  r = fill b'0';
  ic0 = b'0';
  ic1 = b'0';
  sp = fill b'0';
  c = b'F';
  stack_base = 0;
}

module _ {T : Type 0} (tree : RbTree T) where
  -- The part of get_exec_fh that has the word: the file is the one that its last characters name.
  unfoldable pub open_named : ℕ → ℤ → Option ℕ → Run (Machine (Os T)) (Option Stream)
  unfolding on_memory read_ref release
  open_named i ic none = pure none
  open_named i ic (some a) = do
    word ← on_memory (read_ref a)
    release (cfs tree) i ic
    m ← get
    pure (elim (m.sched.files word.b2 word.b3) [
      | none ↦ none
      | some bytes ↦ some (record { rest = bytes; eof = false })
    ])

  unfoldable pub get_exec_fh : ℕ → Run (Machine (Os T)) (Option Stream)
  unfolding wordref open_named
  get_exec_fh i = do
    p ← this i
    let ic = word2int (ic_word p)
    if is_neg ic
        then pure none
        else do word ← wordref (cfs tree) i (pred_ℤ ic); open_named i (pred_ℤ ic) word

  -- The code of the new program, in the region that the process has now.
  unfoldable pub load_new : ℕ → Stream → Run (Machine (Os T)) ℤ
  unfolding load_code set_proc
  load_new i fh = do
    m ← get
    loaded ← load_code m.sched.buffer i fh
    if is_neg loaded.0 then pure minus_one else do p ← this i; set_proc i (restart p); pure (pos 0)

  -- exec_proc behind the test of the header.
  unfoldable pub exec_sized : ℕ → ℤ → Stream → Run (Machine (Os T)) ℤ
  unfolding on_memory set_proc load_new
  exec_sized i procsize fh = if is_neg procsize then pure minus_one else do
    p ← this i
    resized ← on_memory (resize_proc p procsize)
    set_proc i resized.1
    if is_zero resized.0
        then load_new i fh
        else (do q ← this i; set_proc i (record q { r = fill b'0' }); pure (pos 0))

  unfoldable pub exec_file : ℕ → Stream → Run (Machine (Os T)) ℤ
  unfolding scan_string load_header exec_sized
  exec_file i fh =
      if has_header (scan_string 7 fh).0
      then (λ m. elim (load_header (scan_string 7 fh).1) [
        | none ↦ none
        | some (procsize, fh') ↦ exec_sized i procsize fh' m
      ])
      else pure minus_one

  unfoldable pub exec_proc : ℕ → ℤ → Run (Machine (Os T)) ℤ
  unfolding get_exec_fh exec_file
  exec_proc i addr = do fh ← get_exec_fh i; elim fh [ none ↦ pure (pos 1) | some s ↦ exec_file i s ]
