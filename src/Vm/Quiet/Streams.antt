-- ===== src/Vm/Quiet/Streams.antt =====
-- The instructions on the streams and files, and those on a semaphore's value, are quiet.
use brain_project.Prelude.{
  ℕ, zero, suc, ◌+◌, refl, ℤ, pos, minus_one, add_ℕ, List, [], ◌∷◌, ◌++◌, pure, fault, faults, ends,
  After-if, After-option,
}
use brain_project.Mem.{read_ref, write_ref}
use brain_project.RbTree.{RbTree}
use brain_project.Stdio.{Stream, buf_word}
use brain_project.Os.{Os, cfs}
use brain_project.Loader.{read_word}
use brain_project.Vm.Machine.{Machine, on_memory, wordref, release}
use brain_project.Vm.Io.{
  chars, is_end, emit, read_loop, read, print_loop, print, print_mem_word, print_mem_words,
  print_mem_lines, line_number, print_mem,
}
use brain_project.Vm.Quiet.{
  Kept, Quiet, Quiet-bind, Quiet-pure, on_memory-Quiet, or_fail-Quiet, wordref-Quiet, release-Quiet,
}

-- The standard input moves on.
abbrev advanced : {T : Type 0} → Machine (Os T) → Stream → Machine (Os T)
advanced m s = record m { sched = record m.sched { stdin = s } }

module _ {T : Type 0} (tree : RbTree T) {m0 : Machine (Os T)} where
  emit-Quiet : (s : List ℕ) (m : Machine (Os T)) → Kept m0 m → Quiet m0 (emit tree s m)
  emit-Quiet s m k = ends tt _ refl (record {
    same_rq = k.same_rq;
    same_next = k.same_next;
    same_sem_wq = k.same_sem_wq;
    same_send_wq = k.same_send_wq;
    same_recv_wq = k.same_recv_wq;
    same_pids = k.same_pids;
  })

  advanced-Kept : (s : Stream) (m : Machine (Os T)) → Kept m0 m → Kept m0 (advanced m s)
  advanced-Kept s m k = record {
    same_rq = k.same_rq;
    same_next = k.same_next;
    same_sem_wq = k.same_sem_wq;
    same_send_wq = k.same_send_wq;
    same_recv_wq = k.same_recv_wq;
    same_pids = k.same_pids;
  }

  read_loop-Quiet :
      (n j : ℕ) (buf : ℕ → ℕ) (i : ℕ) (addr : ℤ) (m : Machine (Os T))
      → Kept m0 m
      → Quiet m0 (read_loop tree n j buf i addr m)
  unfolding read_loop
  read_loop-Quiet zero j buf i addr m k = Quiet-pure (pos 0) m k
  read_loop-Quiet (suc n) j buf i addr m k =
      let (buf', s) = read_word buf m.sched.stdin in
      let m1 = advanced m s in
      let k1 = advanced-Kept s m k in
      After-if (is_end buf') (pure minus_one) _ m1 (Quiet-pure minus_one m1 k1) (
        After-if s.eof (pure minus_one) _ m1 (Quiet-pure minus_one m1 k1) (
          Quiet-bind (wordref (cfs tree) i (add_ℕ addr j)) _ m1
            (wordref-Quiet tree i (add_ℕ addr j) m1 k1)
            λ storep m2 k2. or_fail-Quiet storep _ m2 k2 λ a.
              Quiet-bind (on_memory (write_ref a (buf_word buf'))) _ m2
                (on_memory-Quiet (write_ref a (buf_word buf')) m2 k2)
                λ _ m3 k3.
                  Quiet-bind (release (cfs tree) i (add_ℕ addr j)) _ m3
                    (release-Quiet tree i (add_ℕ addr j) m3 k3)
                    λ _ m4 k4. read_loop-Quiet n (suc j) buf' i addr m4 k4))

  print_loop-Quiet :
      (n j i : ℕ) (addr : ℤ) (m : Machine (Os T))
      → Kept m0 m
      → Quiet m0 (print_loop tree n j i addr m)
  unfolding print_loop
  print_loop-Quiet zero j i addr m k = Quiet-pure (pos 0) m k
  print_loop-Quiet (suc n) j i addr m k =
      Quiet-bind (wordref (cfs tree) i (add_ℕ addr j)) _ m (wordref-Quiet tree i (add_ℕ addr j) m k)
        λ temp m1 k1. or_fail-Quiet temp _ m1 k1 λ a.
          Quiet-bind (on_memory (read_ref a)) _ m1 (on_memory-Quiet (read_ref a) m1 k1) λ w m2 k2.
            Quiet-bind (emit tree (chars w ++ 10 ∷ [])) _ m2 (emit-Quiet _ m2 k2) λ _ m3 k3.
              Quiet-bind (release (cfs tree) i (add_ℕ addr j)) _ m3
                (release-Quiet tree i (add_ℕ addr j) m3 k3)
                λ _ m4 k4. print_loop-Quiet n (suc j) i addr m4 k4

  print_mem_word-Quiet :
      (i j : ℕ) (m : Machine (Os T)) → Kept m0 m → Quiet m0 (print_mem_word tree i j m)
  unfolding print_mem_word
  print_mem_word-Quiet i j m k =
      Quiet-bind (wordref (cfs tree) i (pos j)) _ m (wordref-Quiet tree i (pos j) m k) λ p m1 k1.
        After-option p fault _ m1 (faults refl) λ a.
          Quiet-bind (on_memory (read_ref a)) _ m1 (on_memory-Quiet (read_ref a) m1 k1) λ w m2 k2.
            Quiet-bind (emit tree (chars w ++ b' ' ∷ [])) _ m2 (emit-Quiet _ m2 k2)
              λ _ m3 k3. release-Quiet tree i (pos j) m3 k3

  print_mem_words-Quiet :
      (n j i : ℕ) (m : Machine (Os T)) → Kept m0 m → Quiet m0 (print_mem_words tree n j i m)
  unfolding print_mem_words
  print_mem_words-Quiet zero j i m k = Quiet-pure tt m k
  print_mem_words-Quiet (suc n) j i m k =
      Quiet-bind (print_mem_word tree i j) _ m (print_mem_word-Quiet i j m k)
        λ _ m1 k1. print_mem_words-Quiet n (suc j) i m1 k1

  print_mem_lines-Quiet :
      (n j i : ℕ) (m : Machine (Os T)) → Kept m0 m → Quiet m0 (print_mem_lines tree n j i m)
  unfolding print_mem_lines
  print_mem_lines-Quiet zero j i m k = Quiet-pure tt m k
  print_mem_lines-Quiet (suc n) j i m k =
      Quiet-bind (emit tree (line_number tree j)) _ m (emit-Quiet _ m k) λ _ m1 k1.
        Quiet-bind (print_mem_words tree 10 j i) _ m1 (print_mem_words-Quiet 10 j i m1 k1)
          λ _ m2 k2.
            Quiet-bind (emit tree (8 ∷ 10 ∷ [])) _ m2 (emit-Quiet _ m2 k2)
              λ _ m3 k3. print_mem_lines-Quiet n (j + 10) i m3 k3

  module _ (i : ℕ) (m : Machine (Os T)) (k : Kept m0 m) where
    pub read-Quiet : (addr : ℤ) → Quiet m0 (read tree i addr m)
    unfolding read
    read-Quiet addr = read_loop-Quiet 10 0 m.sched.buffer i addr m k

    pub print-Quiet : (addr : ℤ) → Quiet m0 (print tree i addr m)
    unfolding print
    print-Quiet addr = print_loop-Quiet 10 0 i addr m k

    pub print_mem-Quiet : Quiet m0 (print_mem tree i m)
    unfolding print_mem
    print_mem-Quiet = print_mem_lines-Quiet 10 0 i m k
