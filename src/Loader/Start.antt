-- ===== src/Loader/Start.antt =====
-- The start of the program: load_file and get_uint (loader.c).
use brain_project.Prelude.{
  ℕ, zero, suc, ◌^◌, Bool, true, false, ltb, if◌then◌else◌, ℤ, pos, negsuc, minus_one, is_neg,
  to_unsigned, Option, none, some, List, Run, pure, get, ◌>>=◌, ◌>>◌,
}
use brain_project.RbTree.{RbTree}
use brain_project.Stdio.{
  Stream, scan_string, scan_digits, skip_space, skip_sign, minus_sign, strncmp_eq, length,
}
use brain_project.Os.{Os, cfs}
use brain_project.Loader.{load_header, load_code, skip_line, brain10}
use brain_project.Vm.Machine.{Machine, on_sched, this, procalloc}

module _ {T : Type 0} (tree : RbTree T) where
  -- sched_reset(p->pid); sched_resume(p->pid);
  unfoldable pub start_proc : ℕ → Run (Machine (Os T)) (Unit {0})
  unfolding on_sched
  start_proc i = do
    p ← this i
    was_reset ← on_sched ((cfs tree).reset p.pid)
    resumed ← on_sched ((cfs tree).resume p.pid)
    pure tt

  -- What load_file does with the result of load_code: the next process, the end, or an error.
  unfoldable pub after_code :
      ℕ
      → (Stream → Run (Machine (Os T)) (ℤ × Stream))
      → ℤ × Stream
      → Run (Machine (Os T)) (ℤ × Stream)
  unfolding start_proc
  after_code i rest (pos zero, s) = do start_proc i; rest s
  after_code i rest (pos (suc n), s) = do start_proc i; pure (pos 0, s)
  after_code i rest (negsuc n, s) = pure (pos 1, s)

  -- What it does with the result of procalloc.
  unfoldable pub load_into :
      Stream
      → (Stream → Run (Machine (Os T)) (ℤ × Stream))
      → Option ℕ
      → Run (Machine (Os T)) (ℤ × Stream)
  unfolding load_code after_code
  load_into s1 rest none = pure (pos 1, s1)
  load_into s1 rest (some i) = do
    here ← get
    loaded ← load_code here.sched.buffer i s1
    after_code i rest loaded

  -- The loop of load_file on fuel.
  unfoldable pub load_procs : ℕ → Stream → Run (Machine (Os T)) (ℤ × Stream)
  unfolding load_header procalloc load_into
  load_procs zero s m = none
  load_procs (suc k) s m = elim (load_header s) [
    | none ↦ none
    | some (procsize, s1) ↦
        if is_neg procsize
        then some ((pos 1, s1), m)
        else (do p ← procalloc (to_unsigned procsize); load_into s1 (λ s2. load_procs k s2) p) m
  ]

  -- Each process takes a character, so the fuel is enough.
  unfoldable pub load_file : Stream → Run (Machine (Os T)) (ℤ × Stream)
  unfolding scan_string strncmp_eq skip_line load_procs length
  load_file s m = elim (scan_string 7 s).0 [
    | none ↦ some ((pos 1, (scan_string 7 s).1), m)
    | some buf ↦
        if strncmp_eq 7 brain10 buf
        then elim (skip_line (scan_string 7 s).1.rest) [
          | none ↦ none
          | some l ↦ load_procs (suc (length l)) (record (scan_string 7 s).1 { rest = l }) m
        ]
        else some ((pos 1, (scan_string 7 s).1), m)
  ]

abbrev negate : ℕ → ℤ
negate zero = pos 0
negate (suc n) = negsuc n

-- strtol to the base 10 with a `long` of 64 bits: no number, or one, or a number out of range.
pub data Parsed : Type 0 where
  no_number : Parsed
  number : ℤ → Parsed
  range_error : Parsed

abbrev in_long : ℕ → Bool → Parsed
in_long n true = if ltb (2 ^ 63) n then range_error else number (negate n)
in_long n false = if ltb n (2 ^ 63) then number (pos n) else range_error

unfoldable pub strtol : List ℕ → Parsed
unfolding skip_space scan_digits
strtol s =
    let l = skip_space s in
    elim (scan_digits none (skip_sign l)).0 [ none ↦ no_number | some n ↦ in_long n (minus_sign l) ]

abbrev in_int : ℤ → ℤ
in_int (pos n) = if ltb n (2 ^ 31) then pos n else minus_one
in_int (negsuc n) = if ltb n (2 ^ 31) then negsuc n else minus_one

abbrev uint_of : Parsed → ℤ
uint_of no_number = minus_one
uint_of (number sl) = in_int sl
uint_of range_error = minus_one

unfoldable pub get_uint : List ℕ → ℤ
unfolding strtol
get_uint s = uint_of (strtol s)
