-- ===== src/System/Programs.antt =====
-- The processes that load_file (loader.c) starts.
use brain_project.Prelude.{
  ◌≤◌, ◌⊎◌, ◌&&◌, leb, ltb, subst, After-≡, inl, inr, Option-cases, Bool-cases, ℕ, ◌<◌, ◌≡◌, refl,
  ◌∙◌, arith, if◌then◌else◌, ℤ, pos, is_neg, to_unsigned, Option, none, some, set, Run, pure, ◌>>=◌,
  bind_some, After, faults, ends, After-if, After-bind, After-mono, negsuc, zero, suc, Returns,
  Returns-After,
}
use brain_project.RbTree.{RbTree, RbTreeLaws}
use brain_project.Os.{Os, cfs}
use brain_project.Vm.Machine.{Machine, on_sched, procalloc}
use brain_project.Vm.Quiet.{Kept-refl}
use brain_project.System.{off, ready, Places, Sys, Kept-Sys}
use brain_project.System.Alloc.{Allocated, no_room, entry, procalloc_lem}
use brain_project.System.Start.{start_lem}
use brain_project.Stdio.{Stream, scan_string, strncmp_eq, length}
use brain_project.Loader.{load_header, load_code, skip_line, brain10}
use brain_project.Loader.Start.{start_proc, after_code, load_into, load_procs, load_file}
use brain_project.Vm.Quiet.Load.{load_loop-Quiet}

-- The processes from the number `n` on and below `n'` are ready, and the others where they were.
abbrev pub started_from : Places → ℕ → ℕ → Places
started_from p n n' k = if leb n k && ltb k n' then ready else p k

none_started : (p : Places) (n : ℕ) → p ≡ started_from p n n
none_started p n = λ i k. at_place k i
  where
    at_place : (k : ℕ) → p k ≡ started_from p n n k
    at_place k = ground arith

one_started : (p : Places) (j n : ℕ) → n ≡ suc j → set p j ready ≡ started_from p j n
unfolding set
one_started p j n e = λ i k. at_place k i
  where
    at_place : (k : ℕ) → set p j ready k ≡ started_from p j n k
    at_place k = ground (arith, e)

next_started :
    (p : Places) (j n n' : ℕ)
    → n ≡ suc j
    → n ≤ n'
    → started_from (set p j ready) n n' ≡ started_from p j n'
unfolding set
next_started p j n n' e h = λ i k. at_place k i
  where
    at_place : (k : ℕ) → started_from (set p j ready) n n' k ≡ started_from p j n' k
    at_place k = ground (arith, e, h)

module _ {T : Type 0} {tree : RbTree T} (laws : RbTreeLaws tree) where
  -- What a load leaves behind, where `n0` is the first number that was free: it succeeds, and every
  -- new process, of which there is one at least, is ready; or it fails, and the new processes but the
  -- last, at most, are ready.
  pub data Loaded (n0 : ℕ) (p : Places) : ℤ × Stream → Machine (Os T) → Type 0 where
    all_started :
        {s : Stream} {m' : Machine (Os T)}
        → n0 < m'.next_pid
        → Sys laws m' (started_from p n0 m'.next_pid)
        → Loaded n0 p (pos 0, s) m'
    failed :
        {s : Stream} {m' : Machine (Os T)} (n : ℕ)
        → n0 ≤ n
        → (m'.next_pid ≡ n) ⊎ (m'.next_pid ≡ suc n)
        → Sys laws m' (started_from p n0 n)
        → Loaded n0 p (pos 1, s) m'

  -- A loop that goes on from any stream.
  abbrev GoesOn : (Stream → Run (Machine (Os T)) (ℤ × Stream)) → Type 0
  GoesOn rest =
      (s : Stream) (m : Machine (Os T)) (p : Places)
      → Sys laws m p
      → After (Loaded m.next_pid p) (rest s m)

  -- Nothing is started.
  nothing :
      {m : Machine (Os T)} {p : Places} (n0 : ℕ) (s : Stream)
      → (m.next_pid ≡ n0) ⊎ (m.next_pid ≡ suc n0)
      → Sys laws m p
      → Loaded n0 p (pos 1, s) m
  nothing {m} {p} n0 s h v =
      failed n0 (omega arith) h (subst (λ q. Sys laws m q) (none_started p n0) v)

  -- The processes that are loaded behind the one with the number `j`.
  behind :
      {n1 j : ℕ} {p : Places} (r : ℤ × Stream) (m' : Machine (Os T))
      → n1 ≡ suc j
      → Loaded n1 (set p j ready) r m'
      → Loaded j p r m'
  behind {n1} {j} {p} r m' e (all_started h v) =
      all_started (omega (arith, e, h))
        (subst (λ q. Sys laws m' q) (next_started p j n1 m'.next_pid e (omega (arith, h))) v)
  behind {n1} {j} {p} r m' e (failed n h g v) =
      failed n (omega (arith, e, h)) g (subst (λ q. Sys laws m' q) (next_started p j n1 n e h) v)

  started_lem :
      {m : Machine (Os T)} {p : Places} (v : Sys laws m p) (j : ℕ)
      → j < m.next_pid
      → p j ≡ off
      → Returns
          (λ _ m'. (m'.next_pid ≡ m.next_pid) × Sys laws m' (set p j ready))
          (start_proc tree j m)
  unfolding start_proc
  started_lem {m} v j h away =
      let pid = (m.proc_table j).pid in
      let (m1, m2, run, run', next, v2) = start_lem laws v j pid h away (v.pids j h) in
      (
        tt,
        m2,
        bind_some (on_sched ((cfs tree).reset pid)) _ m run
            ∙ bind_some (on_sched ((cfs tree).resume pid)) _ m1 run',
        (next, v2),
      )

  after_code-Loaded :
      {m : Machine (Os T)} {p : Places} (v : Sys laws m p) (j : ℕ)
      → m.next_pid ≡ suc j
      → p j ≡ off
      → (rest : Stream → Run (Machine (Os T)) (ℤ × Stream)) → GoesOn rest
      → (loaded : ℤ × Stream) → After (Loaded j p) (after_code tree j rest loaded m)
  unfolding after_code
  after_code-Loaded {m} v j h away rest goes (negsuc n, s) =
      ends (pos 1, s) m refl (nothing j s (inr h) v)
  after_code-Loaded {m} {p} v j h away rest goes (pos zero, s) =
      After-bind (start_proc tree j) (λ _. rest s) m
        (Returns-After (started_lem v j (omega (arith, h)) away))
        λ _ m1 x. After-mono (λ r m' y. behind r m' (x.0 ∙ h) y) (goes s m1 (set p j ready) x.1)
  after_code-Loaded {m} {p} v j h away rest goes (pos (suc n), s) =
      After-bind (start_proc tree j) (λ _. pure (pos 0, s)) m
        (Returns-After (started_lem v j (omega (arith, h)) away))
        λ _ m1 x.
          ends (pos 0, s) m1 refl
            (all_started (omega (arith, x.0, h))
              (subst (λ q. Sys laws m1 q) (one_started p j m1.next_pid (x.0 ∙ h)) x.1))

  load_into-Loaded :
      {m m1 : Machine (Os T)} {p : Places} (newp : Option ℕ)
      → Sys laws m p
      → Allocated laws m p newp m1
      → (s : Stream) (rest : Stream → Run (Machine (Os T)) (ℤ × Stream)) → GoesOn rest
      → After (Loaded m.next_pid p) (load_into tree s rest newp m1)
  unfolding load_into load_code
  load_into-Loaded {m} {m1} none v (no_room same v1) s rest goes =
      ends (pos 1, s) m1 refl (nothing m.next_pid s (inl same) v1)
  load_into-Loaded {m} {m1} {p} (some j) v (entry j' e f v1) s rest goes =
      After-bind (load_code m1.sched.buffer j s) (after_code tree j rest) m1
        (load_loop-Quiet tree j (suc (length s.rest)) m1.sched.buffer 0 s m1 (Kept-refl m1))
        λ loaded m2 k2.
          subst (λ n. After (Loaded n p) (after_code tree j rest loaded m2)) e
            (after_code-Loaded (Kept-Sys laws v1 k2) j (k2.same_next ∙ f)
              (v.later j (omega (arith, e))) rest goes loaded)

  -- A process of the size that a header has.
  abbrev sized : ℕ → ℤ → Stream → Run (Machine (Os T)) (ℤ × Stream)
  sized n procsize s =
      if is_neg procsize
      then pure (pos 1, s)
      else (procalloc (to_unsigned procsize) >>= load_into tree s (λ s2. load_procs tree n s2))

  sized-Loaded : (n : ℕ) (procsize : ℤ) → GoesOn (load_procs tree n) → GoesOn (sized n procsize)
  sized-Loaded n procsize goes s m p v =
      After-if (is_neg procsize) (pure (pos 1, s)) _ m
        (ends (pos 1, s) m refl (nothing m.next_pid s (inl refl) v))
        (After-bind (procalloc (to_unsigned procsize))
          (load_into tree s (λ s2. load_procs tree n s2)) m
          (procalloc_lem laws v (to_unsigned procsize))
          λ newp m1 a. load_into-Loaded newp v a s (λ s2. load_procs tree n s2) goes)

  load_procs-Loaded : (n : ℕ) → GoesOn (load_procs tree n)
  unfolding load_procs
  load_procs-Loaded zero s m p v = faults refl
  load_procs-Loaded (suc n) s m p v = elim (Option-cases (load_header s)) [
    | inl e ↦ faults (rw (load_procs, e) refl)
    | inr ((procsize, s1), e) ↦ elim (Bool-cases (is_neg procsize)) [
      | inl f ↦ ends (pos 1, s1) m (rw (load_procs, e, f) refl) (nothing m.next_pid s1 (inl refl) v)
      | inr f ↦
          After-≡ {q = load_procs tree (suc n) s m} {r = sized n procsize s1 m}
            (rw (load_procs, e, f) refl) (sized-Loaded n procsize (load_procs-Loaded n) s1 m p v)
    ]
  ]

  -- load_file, where the queues agree with the places `p` and nobody waits for a message from any,
  -- faults or ends. Where it returns 0, it has added one process at least, every process that it added
  -- is ready, and every other is where it was. Where it returns 1, every process that it added is
  -- ready but the last, at most, and every other is where it was. The queues agree with the new places.
  pub load_file-Loaded :
      (s : Stream) {m : Machine (Os T)} {p : Places}
      → Sys laws m p
      → After (Loaded m.next_pid p) (load_file tree s m)
  unfolding load_file
  load_file-Loaded s {m} {p} v = elim (Option-cases (scan_string 7 s).0) [
    | inl e ↦
        ends (pos 1, (scan_string 7 s).1) m (rw (load_file, e) refl)
          (nothing m.next_pid _ (inl refl) v)
    | inr (buf, e) ↦ elim (Bool-cases (strncmp_eq 7 brain10 buf)) [
      | inr f ↦
          ends (pos 1, (scan_string 7 s).1) m (rw (load_file, e, f) refl)
            (nothing m.next_pid _ (inl refl) v)
      | inl f ↦ elim (Option-cases (skip_line (scan_string 7 s).1.rest)) [
        | inl g ↦ faults (rw (load_file, e, f, g) refl)
        | inr (l, g) ↦
            After-≡ (rw (load_file, e, f, g) refl)
              (load_procs-Loaded (suc (length l)) (record (scan_string 7 s).1 { rest = l }) m p v)
      ]
    ]
  ]
