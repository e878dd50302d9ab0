-- ===== src/Vm/Quiet/Files.antt =====
-- exec_proc, and the instruction that sets a semaphore, are quiet.
use brain_project.Prelude.{
  ℕ, ◌≡◌, refl, ◌∙◌, false, ltb, if◌then◌else◌, ℤ, pos, negsuc, minus_one, is_neg, is_zero, pred_ℤ,
  Option, none, some, Run, pure, ◌>>=◌, ◌>>◌, After, faults, ends, After-if, After-option, After-≡,
  After-bind, After-any, inl, inr, Bool-cases,
}
use brain_project.Word.{Word, word2int, fill}
use brain_project.Proc.{Proc, ic_word}
use brain_project.Mem.{Memory, read_ref, memalloc, free_region, resize_proc}
use brain_project.RbTree.{RbTree}
use brain_project.Stdio.{Stream, scan_string}
use brain_project.Os.{Os, cfs}
use brain_project.Loader.{load_header}
use brain_project.Vm.Machine.{Machine, on_memory, this, set_proc, wordref, release}
use brain_project.Vm.Sem.{set_sem, set_sem_to, sem_set, set_sem_table}
use brain_project.Vm.Exec.{
  has_header, open_named, get_exec_fh, load_new, exec_sized, exec_file, exec_proc,
}
use brain_project.Vm.Quiet.Load.{load_new-Quiet}
use brain_project.Vm.Quiet.{
  Kept, Quiet, Quiet-bind, Quiet-pure, on_memory-Quiet, set_proc-Quiet, set_and_return, with_memory,
  wordref-Quiet, release-Quiet,
}

-- The file that a word names, if there is one.
abbrev opened : {T : Type 0} → Word → Machine (Os T) → Option Stream
opened word m = elim (m.sched.files word.b2 word.b3) [
  | none ↦ none
  | some bytes ↦ some (record { rest = bytes; eof = false })
]

-- The process keeps its number.
resize_proc-pid :
    (p : Proc) (newsize : ℤ) (s : Memory)
    → After (λ resized _. resized.1.pid ≡ p.pid) (resize_proc p newsize s)
unfolding resize_proc
resize_proc-pid p newsize s =
    After-bind (memalloc newsize) _ s (After-any (memalloc newsize s)) λ addr s1 _.
      After-if (is_neg addr) (pure (minus_one, p)) _ s1 (ends _ _ refl refl) (
        After-bind (free_region p) _ s1 (After-any (free_region p s1)) λ _ s2 _. ends _ _ refl refl)

-- The region is changed: the new program is loaded, or the register cleared.
abbrev after_resize : {T : Type 0} → RbTree T → ℕ → ℤ → Stream → Run (Machine (Os T)) ℤ
after_resize tree i resized fh =
    if is_zero resized
    then load_new tree i fh
    else (this i >>= λ q. set_proc i (record q { r = fill b'0' }) >> pure (pos 0))

module _ {T : Type 0} (tree : RbTree T) {m0 : Machine (Os T)} (i : ℕ) where
  -- The region is given back, and another taken, for an entry that keeps its number.
  resize-Quiet :
      (p : Proc) (newsize : ℤ) (m : Machine (Os T))
      → Kept m0 m
      → After
          (λ resized m'. (resized.1.pid ≡ p.pid) × Kept m0 m')
          (on_memory (resize_proc p newsize) m)
  unfolding on_memory
  resize-Quiet p newsize m k = by_result (resize_proc-pid p newsize m.memory)
    where
      by_result :
          After (λ resized _. resized.1.pid ≡ p.pid) (resize_proc p newsize m.memory)
          → After
              (λ resized m'. (resized.1.pid ≡ p.pid) × Kept m0 m')
              (on_memory (resize_proc p newsize) m)
      by_result (faults e) = faults (rw (on_memory, e) refl)
      by_result (ends a s e h) =
          ends a (record m { memory = s }) (rw (on_memory, e) refl) (h, with_memory m k s)

  after_resize-Quiet :
      (resized : ℤ) (fh : Stream) (m : Machine (Os T))
      → Kept m0 m
      → Quiet m0 (after_resize tree i resized fh m)
  after_resize-Quiet resized fh m k =
      After-if (is_zero resized) (load_new tree i fh) _ m (load_new-Quiet tree i fh m k)
        (set_and_return i (record (m.proc_table i) { r = fill b'0' }) m (k.same_pids i) k)

  exec_sized-Quiet :
      (procsize : ℤ) (fh : Stream) (m : Machine (Os T))
      → Kept m0 m
      → Quiet m0 (exec_sized tree i procsize fh m)
  unfolding exec_sized
  exec_sized-Quiet procsize fh m k =
      After-if (is_neg procsize) (pure minus_one) _ m (Quiet-pure minus_one m k) (
        After-bind (on_memory (resize_proc (m.proc_table i) procsize)) _ m
          (resize-Quiet (m.proc_table i) procsize m k)
          λ resized m1 (same, k1).
            Quiet-bind (set_proc i resized.1) (λ _. after_resize tree i resized.0 fh) m1
              (set_proc-Quiet i resized.1 m1 (same ∙ k.same_pids i) k1)
              λ _ m2 k2. after_resize-Quiet resized.0 fh m2 k2)

  exec_file-Quiet :
      (fh : Stream) (m : Machine (Os T)) → Kept m0 m → Quiet m0 (exec_file tree i fh m)
  unfolding exec_file
  exec_file-Quiet fh m k =
      After-if (has_header (scan_string 7 fh).0) _ (pure minus_one) m
        (by_header (load_header (scan_string 7 fh).1) refl) (Quiet-pure minus_one m k)
    where
      by_header :
          (r : Option (ℤ × Stream))
          → load_header (scan_string 7 fh).1 ≡ r
          → Quiet m0
              (elim (load_header (scan_string 7 fh).1) as (λ _. Option (ℤ × Machine (Os T))) [
                | none ↦ none
                | some (procsize, fh') ↦ exec_sized tree i procsize fh' m
              ])
      by_header none e = faults (rw e refl)
      by_header (some (procsize, fh')) e = After-≡ (rw e refl) (exec_sized-Quiet procsize fh' m k)

  open_named-Quiet :
      (ic : ℤ) (word : Option ℕ) (m : Machine (Os T))
      → Kept m0 m
      → Quiet m0 (open_named tree i ic word m)
  unfolding open_named
  open_named-Quiet ic none m k = Quiet-pure none m k
  open_named-Quiet ic (some a) m k =
      Quiet-bind (on_memory (read_ref a))
        (λ word. release (cfs tree) i ic >> λ m'. some (opened word m', m')) m
        (on_memory-Quiet (read_ref a) m k)
        λ word m1 k1.
          Quiet-bind (release (cfs tree) i ic) (λ _ m'. some (opened word m', m')) m1
            (release-Quiet tree i ic m1 k1) λ _ m2 k2. Quiet-pure (opened word m2) m2 k2

  get_exec_fh-Quiet : (m : Machine (Os T)) → Kept m0 m → Quiet m0 (get_exec_fh tree i m)
  unfolding get_exec_fh
  get_exec_fh-Quiet m k =
      let ic = word2int (ic_word (m.proc_table i)) in
      After-if (is_neg ic) (pure none) _ m (Quiet-pure none m k) (
        Quiet-bind (wordref (cfs tree) i (pred_ℤ ic)) _ m (wordref-Quiet tree i (pred_ℤ ic) m k)
          λ word m1 k1. open_named-Quiet (pred_ℤ ic) word m1 k1)

  pub exec_proc-Quiet :
      (addr : ℤ) (m : Machine (Os T)) → Kept m0 m → Quiet m0 (exec_proc tree i addr m)
  unfolding exec_proc
  exec_proc-Quiet addr m k = Quiet-bind (get_exec_fh tree i) _ m (get_exec_fh-Quiet m k) λ fh m1 k1.
      After-option fh (pure (pos 1)) (exec_file tree i) m1 (Quiet-pure (pos 1) m1 k1)
        λ s. exec_file-Quiet s m1 k1

  -- Semaphores change, but no queue.
  set_sem_to-Quiet :
      (val sem : ℤ) (m : Machine (Os T)) → Kept m0 m → Quiet m0 (set_sem_to val sem m)
  unfolding set_sem_to sem_set
  set_sem_to-Quiet (negsuc x) sem m k = Quiet-pure (pos 1) m k
  set_sem_to-Quiet (pos val) (negsuc x) m k = Quiet-pure (pos 1) m k
  set_sem_to-Quiet (pos val) (pos sem) m k = elim (Bool-cases (ltb 99 sem)) [
    | inl e ↦ After-≡ (rw (set_sem_to, sem_set, e) refl) (Quiet-pure (pos 1) m k)
    | inr e ↦ ends (pos 0) (set_sem_table sem val m) (rw (set_sem_to, sem_set, e) refl) (record {
      same_rq = k.same_rq;
      same_next = k.same_next;
      same_sem_wq = k.same_sem_wq;
      same_send_wq = k.same_send_wq;
      same_recv_wq = k.same_recv_wq;
      same_pids = k.same_pids;
    })
  ]

  pub set_sem-Quiet : (sem : ℤ) (m : Machine (Os T)) → Kept m0 m → Quiet m0 (set_sem i sem m)
  unfolding set_sem
  set_sem-Quiet sem m k = set_sem_to-Quiet (word2int (m.proc_table i).r) sem m k
