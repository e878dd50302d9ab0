-- ===== src/Vm/Io.antt =====
-- Input and output: read and print (vm/io.c) and print_mem (mem.c).
use brain_project.Prelude.{
  ℕ, zero, suc, ◌+◌, ◌/◌, ◌%◌, Bool, ◌&&◌, ◌==◌, if◌then◌else◌, ℤ, pos, minus_one, add_ℕ, none,
  some, List, [], ◌∷◌, ◌++◌, Run, pure, fault, get, ◌>>=◌, ◌>>◌,
}
use brain_project.Word.{Word}
use brain_project.Mem.{read_ref, write_ref}
use brain_project.RbTree.{RbTree}
use brain_project.Stdio.{Stream, to_lower, buf_word}
use brain_project.Os.{Os, cfs}
use brain_project.Loader.{read_word}
use brain_project.Vm.Machine.{Machine, on_memory, wordref, release, or_fail}

abbrev pub chars : Word → List ℕ
chars w = w.b0 ∷ w.b1 ∷ w.b2 ∷ w.b3 ∷ []

-- strncasecmp(temp, "END", 3) == 0
abbrev pub is_end : (ℕ → ℕ) → Bool
is_end buf =
    (to_lower (buf 0) == b'e') && ((to_lower (buf 1) == b'n') && (to_lower (buf 2) == b'd'))

module _ {T : Type 0} (tree : RbTree T) where
  -- printf to the standard output
  abbrev pub emit : List ℕ → Run (Machine (Os T)) (Unit {0})
  emit s m = some (tt, record m { sched = record m.sched { printed = m.sched.printed ++ s } })

  abbrev pub set_stdin : Stream → Run (Machine (Os T)) (Unit {0})
  set_stdin s m = some (tt, record m { sched = record m.sched { stdin = s } })

  -- The rounds of read, with the buffer.
  unfoldable pub read_loop : ℕ → ℕ → (ℕ → ℕ) → ℕ → ℤ → Run (Machine (Os T)) ℤ
  unfolding read_word wordref release or_fail on_memory write_ref
  read_loop zero k buf i addr = pure (pos 0)
  read_loop (suc n) k buf i addr = do
    m ← get
    let buf' = (read_word buf m.sched.stdin).0
    set_stdin (read_word buf m.sched.stdin).1
    let rest = read_loop n (suc k) buf' i addr
    if is_end buf'
        then pure minus_one
        else if (read_word buf m.sched.stdin).1.eof
        then pure minus_one
        else do
          storep ← wordref (cfs tree) i (add_ℕ addr k)
          or_fail storep λ a. do
            on_memory (write_ref a (buf_word buf'))
            release (cfs tree) i (add_ℕ addr k)
            rest

  unfoldable pub read : ℕ → ℤ → Run (Machine (Os T)) ℤ
  unfolding read_loop
  read i addr = do m ← get; read_loop 10 0 m.sched.buffer i addr

  unfoldable pub print_loop : ℕ → ℕ → ℕ → ℤ → Run (Machine (Os T)) ℤ
  unfolding wordref release or_fail on_memory read_ref
  print_loop zero k i addr = pure (pos 0)
  print_loop (suc n) k i addr = do
    let rest = print_loop n (suc k) i addr
    temp ← wordref (cfs tree) i (add_ℕ addr k)
    or_fail temp λ a. do
      w ← on_memory (read_ref a)
      emit (chars w ++ 10 ∷ [])
      release (cfs tree) i (add_ℕ addr k)
      rest

  unfoldable pub print : ℕ → ℤ → Run (Machine (Os T)) ℤ
  unfolding print_loop
  print i addr = print_loop 10 0 i addr

  -- A word of print_mem. A NULL is dereferenced.
  unfoldable pub print_mem_word : ℕ → ℕ → Run (Machine (Os T)) (Unit {0})
  unfolding wordref release on_memory read_ref
  print_mem_word i k = do
    p ← wordref (cfs tree) i (pos k)
    elim p [
      | none ↦ fault
      | some a ↦ do
        w ← on_memory (read_ref a)
        emit (chars w ++ b' ' ∷ [])
        release (cfs tree) i (pos k)
    ]

  unfoldable pub print_mem_words : ℕ → ℕ → ℕ → Run (Machine (Os T)) (Unit {0})
  unfolding print_mem_word
  print_mem_words zero k i = pure tt
  print_mem_words (suc n) k i = do let rest = print_mem_words n (suc k) i; print_mem_word i k; rest

  -- printf("%03d ", i)
  abbrev pub line_number : ℕ → List ℕ
  line_number i = (i / 100 + b'0') ∷ (i / 10 % 10 + b'0') ∷ (i % 10 + b'0') ∷ b' ' ∷ []

  unfoldable pub print_mem_lines : ℕ → ℕ → ℕ → Run (Machine (Os T)) (Unit {0})
  unfolding print_mem_words
  print_mem_lines zero k i = pure tt
  print_mem_lines (suc n) k i = do
    let rest = print_mem_lines n (k + 10) i
    emit (line_number k)
    print_mem_words 10 k i
    emit (8 ∷ 10 ∷ [])
    rest

  unfoldable pub print_mem : ℕ → Run (Machine (Os T)) (Unit {0})
  unfolding print_mem_lines
  print_mem i = print_mem_lines 10 0 i
