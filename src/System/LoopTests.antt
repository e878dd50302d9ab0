-- ===== src/System/LoopTests.antt =====
-- The loop of the scheduler on a machine whose process halts.
use brain_project.Prelude.{
  ℕ, ◌≡◌, refl, arith, false, pos, Option, some, ap, ◌∙◌, inr, After, After-result, ends,
}
use brain_project.Word.{Word, word2int}
use brain_project.Pager.Inv.{Inv, Inv-same, view}
use brain_project.Pager.Room.{free_frame}
use brain_project.Proc.{ic_word}
use brain_project.Mem.{get_global_address, get_wordref}
use brain_project.Mem.Access.{Accessible, get_wordref_lem}
use brain_project.Pager.Sample.{resident-Inv}
use brain_project.RbTree.Sample.{Nodes, sample}
use brain_project.Os.{Os}
use brain_project.Vm.Machine.{Machine, wordref, on_memory-some}
use brain_project.Vm.Tick.{op_ha, opcode_of, code, tick}
use brain_project.System.{Sys}
use brain_project.System.Ticks.{Tame, now, tick-Ticked}
use brain_project.System.Life.{Ticked}
use brain_project.System.Loop.{timed, timed-Sys, here}
use brain_project.System.Tests.{laws, machine, places, machine-Sys}
use brain_project.Vm.Transfer.{paged}

-- The machine in the first tick.
abbrev started : Machine (Os Nodes)
started = timed machine

started-Sys : Sys laws started places
started-Sys = timed-Sys laws machine-Sys refl (omega arith)

coded-Inv : Inv started.memory.pager
coded-Inv =
    Inv-same
      (record { size = refl; count = refl; frees = refl; valids = λ p. refl; addrs = λ p. refl })
      (resident-Inv false)

first_word : Accessible started.memory.pager 100
first_word = record {
  inv = coded-Inv;
  in_space = omega arith;
  room = inr (free_frame 0 (omega arith) refl);
  refs_fit = omega arith;
}

translated : get_global_address (started.proc_table 1) (pos 0) ≡ pos 100
unfolding get_global_address word2int
translated = refl

at_zero : word2int (ic_word (started.proc_table 1)) ≡ pos 0
unfolding word2int
at_zero = refl

halts_here :
    opcode_of (view started.memory.pager 100).b0 (view started.memory.pager 100).b1 ≡ code op_ha
unfolding code
halts_here = refl

-- The word at an address of memory is the instruction HA.
abbrev Halts : Option ℕ → Machine (Os Nodes) → Type 0
Halts o m =
    (b : ℕ)
    → o ≡ some b
    → opcode_of (m.memory.pager.mem b).b0 (m.memory.pager.mem b).b1 ≡ code op_ha

started-Tame : Tame sample started 1
unfolding wordref code
started-Tame =
    let p = started.proc_table 1 in
    let addr = word2int (ic_word p) in
    let here = ap (get_global_address p) at_zero ∙ translated in
    let (a, q, run, touched) = get_wordref_lem 0 p addr started.memory 100 here first_word in
    let fetch = on_memory-some started (get_wordref 0 p addr) run in
    λ a' m1 e op.
      let halts' =
        After-result {Q = Halts} (some a') m1 e
          (ends (some a) (paged started q) fetch λ b f.
            (let same : b ≡ a = cc f in
              ap (λ (w : Word). opcode_of w.b0 w.b1) (ap q.mem same ∙ touched.reads) ∙ halts_here))
          a' refl in
      absurd (omega (arith, halts', op))

tick-Ticked_example :
    After
      (Ticked laws 1 started-Sys (now laws 1 started-Sys (record { same = refl; busy = refl })))
      (tick sample 1 started)
tick-Ticked_example =
    tick-Ticked laws 1 started-Sys (record { same = refl; busy = refl }) started-Tame
