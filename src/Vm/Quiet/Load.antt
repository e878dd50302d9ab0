-- ===== src/Vm/Quiet/Load.antt =====
-- The loader's loop, as exec_proc calls it, is quiet.
use brain_project.Prelude.{
  ℕ, zero, suc, ◌≡◌, refl, false, ℤ, pos, negsuc, minus_one, is_neg, to_signed, add_u32, Option,
  none, some, List, pure, faults, ends, After-if, After-≡, inl, inr, Bool-cases,
}
use brain_project.Mem.{page_store}
use brain_project.RbTree.{RbTree}
use brain_project.Stdio.{length, Stream, strncmp_eq, put_string, buf_word}
use brain_project.Os.{Os}
use brain_project.Loader.{read_line, load_loop, load_code, brain10, data_mark}
use brain_project.Vm.Machine.{Machine, on_memory}
use brain_project.Vm.Exec.{restart, load_new}
use brain_project.Vm.Quiet.{Kept, Quiet, Quiet-bind, Quiet-pure, on_memory-Quiet, set_and_return}

module _ {T : Type 0} (tree : RbTree T) {m0 : Machine (Os T)} (i : ℕ) where
  -- A round of the loop, over the rounds that follow.
  module _ (n : ℕ) (buf : ℕ → ℕ) (addr : ℕ) (s : Stream) (m : Machine (Os T)) (k : Kept m0 m)
      (rest : (buf' : ℕ → ℕ) (addr' : ℕ) (s' : Stream) (m' : Machine (Os T))
        → Kept m0 m'
        → Quiet m0 (load_loop n i buf' addr' s' m')) where
    abbrev stored : List ℕ → Option (ℤ × Machine (Os T))
    stored str =
        on_memory (page_store (m.proc_table i) (buf_word (put_string 0 str buf)) (to_signed addr)) m

    load_word-Quiet :
        (str : List ℕ) (s' : Stream)
        → read_line s ≡ some (some str, s')
        → strncmp_eq 7 brain10 str ≡ false
        → strncmp_eq 4 data_mark str ≡ false
        → Quiet m0 (stored str)
        → Quiet m0 (load_loop (suc n) i buf addr s m)
    unfolding load_loop
    load_word-Quiet str s' e f g (faults h) = faults (rw (load_loop, e, f, g, h) refl)
    load_word-Quiet str s' e f g (ends (pos zero) m1 h k1) =
        After-≡ (rw (load_loop, e, f, g, h) refl)
          (rest (put_string 0 str buf) (add_u32 addr 1) s' m1 k1)
    load_word-Quiet str s' e f g (ends (pos (suc x)) m1 h k1) =
        ends (minus_one, s') m1 (rw (load_loop, e, f, g, h) refl) k1
    load_word-Quiet str s' e f g (ends (negsuc x) m1 h k1) =
        ends (minus_one, s') m1 (rw (load_loop, e, f, g, h) refl) k1

    load_line-Quiet :
        (r : Option (Option (List ℕ) × Stream))
        → read_line s ≡ r
        → Quiet m0 (load_loop (suc n) i buf addr s m)
    unfolding load_loop
    load_line-Quiet none e = faults (rw (load_loop, e) refl)
    load_line-Quiet (some (none, s')) e = ends (minus_one, s') m (rw (load_loop, e) refl) k
    load_line-Quiet (some (some str, s')) e = elim (Bool-cases (strncmp_eq 7 brain10 str)) [
      | inl f ↦ ends (pos 0, s') m (rw (load_loop, e, f) refl) k
      | inr f ↦ elim (Bool-cases (strncmp_eq 4 data_mark str)) [
        | inl g ↦ ends (pos 1, s') m (rw (load_loop, e, f, g) refl) k
        | inr g ↦ load_word-Quiet str s' e f g (
            on_memory-Quiet
              (page_store (m.proc_table i) (buf_word (put_string 0 str buf)) (to_signed addr)) m k)
      ]
    ]

  pub load_loop-Quiet :
      (n : ℕ) (buf : ℕ → ℕ) (addr : ℕ) (s : Stream) (m : Machine (Os T))
      → Kept m0 m
      → Quiet m0 (load_loop n i buf addr s m)
  unfolding load_loop
  load_loop-Quiet zero buf addr s m k = faults refl
  load_loop-Quiet (suc n) buf addr s m k =
      load_line-Quiet n buf addr s m k (load_loop-Quiet n) (read_line s) refl

  pub load_new-Quiet :
      (fh : Stream) (m : Machine (Os T)) → Kept m0 m → Quiet m0 (load_new tree i fh m)
  unfolding load_new load_code
  load_new-Quiet fh m k =
      Quiet-bind (load_code m.sched.buffer i fh) _ m
        (load_loop-Quiet (suc (length fh.rest)) m.sched.buffer 0 fh m k)
        λ loaded m1 k1.
          After-if (is_neg loaded.0) (pure minus_one) _ m1 (Quiet-pure minus_one m1 k1)
            (set_and_return i (restart (m1.proc_table i)) m1 (k1.same_pids i) k1)
