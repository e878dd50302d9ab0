-- ===== src/System/Life.antt =====
-- What an instruction does to the places of the processes (op_table of vm/vm.c), by its opcode.
use brain_project.Prelude.{
  ℕ, ◌≡◌, ◌≢◌, Bool, true, false, ℤ, pos, negsuc, minus_one, is_neg, add_ℕ, none, some, set,
}
use brain_project.Word.{int2word}
use brain_project.Proc.{set_ic}
use brain_project.RbTree.{RbTree, RbTreeLaws}
use brain_project.Os.{Os, cfs}
use brain_project.Vm.Machine.{Machine, wordref}
use brain_project.Vm.Quiet.{Kept}
use brain_project.Vm.Quiet.Table.{calls}
use brain_project.Vm.Dispatch.{operand}
use brain_project.Vm.Tick.{Opcode, op_sd, op_rc, op_pe, op_ve, op_fk, op_ha, opcode_of, code}
use brain_project.System.{off, is_ready, Places, Sys, Kept-Sys}
use brain_project.System.Parts.{counter}
use brain_project.System.Down.{in_line, dropped, no_retry, no_semaphore, taken, blocked, Downed}
use brain_project.System.Up.{no_semaphore, nobody, first, Upped}
use brain_project.System.Send.{refused, left, waiting_for, met, Sent}
use brain_project.System.Recv.{refused, no_retry, no_space, waiting_for, not_moved, taken, Received}
use brain_project.System.Fork.{started, refused, not_copied, Forked}

-- The instructions that refuse an operand that is no number.
unfoldable pub numbered : Opcode → Bool
numbered op_sd = true
numbered op_pe = true
numbered op_ve = true
numbered _ = false

module _ {T : Type 0} {tree : RbTree T} (laws : RbTreeLaws tree) (i : ℕ) where
  -- What the instruction `k` of the process `i`, with an operand, leaves behind in the machine `m`.
  pub data Outcome {m : Machine (Os T)} {p : Places} (v : Sys laws m p)
      (now : is_ready (p i) ≡ true) : Opcode → ℤ → ℤ → Machine (Os T) → Type 0 where
    quiet :
        {k : Opcode} {addr r : ℤ} {m' : Machine (Os T)}
        → calls k ≡ false
        → Kept m m'
        → Outcome v now k addr r m'
    sent :
        {d : ℕ} {r : ℤ} {m' : Machine (Os T)}
        → Sent laws i d m p r m'
        → Outcome v now op_sd (pos d) r m'
    received :
        {d : ℕ} {r : ℤ} {m' : Machine (Os T)}
        → Received laws i d m p r m'
        → Outcome v now op_rc (pos d) r m'
    downed :
        {sem : ℕ} {r : ℤ} {m' : Machine (Os T)}
        → Downed laws i sem v now r m'
        → Outcome v now op_pe (pos sem) r m'
    upped :
        {sem : ℕ} {r : ℤ} {m' : Machine (Os T)}
        → Upped laws i sem v r m'
        → Outcome v now op_ve (pos sem) r m'
    forked :
        {addr r : ℤ} {m' : Machine (Os T)} → Forked laws i m p r m' → Outcome v now op_fk addr r m'
    halted :
        {addr : ℤ} {m' : Machine (Os T)}
        → Sys laws m' (set p i off)
        → Outcome v now op_ha addr (pos 0) m'
    unnumbered : {k : Opcode} {n : ℕ} → numbered k ≡ true → Outcome v now k (negsuc n) (pos 1) m

  -- The queues agree with some places.
  abbrev pub Placed : Machine (Os T) → Type 0
  Placed m = (p : Places) × Sys laws m p

  pub Outcome-Placed :
      {m : Machine (Os T)} {p : Places} (v : Sys laws m p) (now : is_ready (p i) ≡ true)
      {k : Opcode} {addr r : ℤ} {m' : Machine (Os T)}
      → Outcome v now k addr r m'
      → Placed m'
  Outcome-Placed v now (quiet e k) = (_, Kept-Sys laws v k)
  Outcome-Placed v now (sent (refused h v')) = (_, v')
  Outcome-Placed v now (sent (left h f v')) = (_, v')
  Outcome-Placed v now (sent (waiting_for h f a v')) = (_, v')
  Outcome-Placed v now (sent (met h f a v')) = (_, v')
  Outcome-Placed v now (received (refused h v')) = (_, v')
  Outcome-Placed v now (received (no_retry h a e v')) = (_, v')
  Outcome-Placed v now (received (no_space h a e b f v')) = (_, v')
  Outcome-Placed v now (received (waiting_for h a e b f v')) = (_, v')
  Outcome-Placed v now (received (not_moved a x e v')) = (_, v')
  Outcome-Placed v now (received (taken a x e v')) = (_, v')
  Outcome-Placed v now (downed (no_semaphore h v')) = (_, v')
  Outcome-Placed v now (downed (taken a b v')) = (_, v')
  Outcome-Placed v now (downed (blocked z (in_line b h f v'))) = (_, v')
  Outcome-Placed v now (downed (blocked z (dropped b h f v'))) = (_, v')
  Outcome-Placed v now (downed (blocked z (no_retry h v'))) = (_, v')
  Outcome-Placed v now (upped (no_semaphore h v')) = (_, v')
  Outcome-Placed v now (upped (nobody e v')) = (_, v')
  Outcome-Placed v now (upped (first w l e h f v')) = (_, v')
  Outcome-Placed v now (forked (started a e v')) = (_, v')
  Outcome-Placed v now (forked (refused a v')) = (_, v')
  Outcome-Placed v now (forked (not_copied m1 a e f v')) = (_, v')
  Outcome-Placed v now (halted v') = (_, v')
  Outcome-Placed v now (unnumbered e) = (_, v)

  -- The machine in which the instruction runs: the counter is one more.
  abbrev pub stepped : ℤ → Machine (Os T) → Machine (Os T)
  stepped ic m = record m {
    proc_table = set m.proc_table i (set_ic (m.proc_table i) (int2word (add_ℕ ic 1)));
  }

  -- What a tick of the process `i` leaves behind in the machine `m`.
  pub data Ticked {m : Machine (Os T)} {p : Places} (v : Sys laws m p) (now : is_ready (p i) ≡ true)
      : ℤ → Machine (Os T) → Type 0 where
    no_counter : is_neg (counter m i) ≡ true → Ticked v now minus_one m
    no_word :
        {m' : Machine (Os T)}
        → wordref (cfs tree) i (counter m i) m ≡ some (none, m')
        → Sys laws m' p
        → Ticked v now minus_one m'
    unknown :
        (a : ℕ) (m1 : Machine (Os T)) {m' : Machine (Os T)}
        → wordref (cfs tree) i (counter m i) m ≡ some (some a, m1)
        → ((k : Opcode) → opcode_of (m1.memory.pager.mem a).b0 (m1.memory.pager.mem a).b1 ≢ code k)
        → Sys laws m' p
        → Ticked v now minus_one m'
    runs :
        (a : ℕ) (m1 m2 : Machine (Os T)) {m' : Machine (Os T)} (k : Opcode) {r : ℤ}
        → wordref (cfs tree) i (counter m i) m ≡ some (some a, m1)
        → opcode_of (m1.memory.pager.mem a).b0 (m1.memory.pager.mem a).b1 ≡ code k
        → (v1 : Sys laws (stepped (counter m i) m1) p)
        → Outcome v1 now k (operand (m1.memory.pager.mem a)) r m2
        → Kept m2 m'
        → Ticked v now r m'

  pub Ticked-Placed :
      {m : Machine (Os T)} {p : Places} (v : Sys laws m p) (now : is_ready (p i) ≡ true) {r : ℤ}
      {m' : Machine (Os T)}
      → Ticked v now r m'
      → Placed m'
  Ticked-Placed v now (no_counter e) = (_, v)
  Ticked-Placed v now (no_word e v') = (_, v')
  Ticked-Placed v now (unknown a m1 e f v') = (_, v')
  Ticked-Placed v now (runs a m1 m2 k e f v1 x kept) =
      let (p', v') = Outcome-Placed v1 now x in (p', Kept-Sys laws v' kept)
