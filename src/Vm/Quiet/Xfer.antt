-- ===== src/Vm/Quiet/Xfer.antt =====
-- The copy of a message (xfer_msg of vm/msg.c) is quiet.
use brain_project.Prelude.{ℕ, zero, suc, true, false, ℤ, pos, add_ℕ, pure, After-if, After-option}
use brain_project.Word.{word2int}
use brain_project.RbTree.{RbTree}
use brain_project.Os.{Os, cfs}
use brain_project.Vm.Machine.{Machine, on_memory, wordref, release}
use brain_project.Mem.{read_ref, write_ref}
use brain_project.Vm.Msg.{xfer_between, xfer_word, xfer_loop, xfer_msg}
use brain_project.Vm.Quiet.{
  Kept, Quiet, Quiet-bind, on_memory-Quiet, wordref-Quiet, release-Quiet, Quiet-pure,
}

module _ {T : Type 0} (tree : RbTree T) {m0 : Machine (Os T)} (sender recver : ℕ) where
  xfer_between-Quiet :
      (from to : ℤ) (a b : ℕ) (m : Machine (Os T))
      → Kept m0 m
      → Quiet m0 (xfer_between (cfs tree) sender from recver to a b m)
  unfolding xfer_between
  xfer_between-Quiet from to a b m k =
      Quiet-bind (on_memory (read_ref a)) _ m (on_memory-Quiet (read_ref a) m k) λ x m1 k1.
        Quiet-bind (on_memory (write_ref b x)) _ m1 (on_memory-Quiet (write_ref b x) m1 k1)
          λ _ m2 k2.
            Quiet-bind (release (cfs tree) sender from) _ m2 (release-Quiet tree sender from m2 k2)
              λ _ m3 k3. release-Quiet tree recver to m3 k3

  xfer_word-Quiet :
      (from to : ℤ) (m : Machine (Os T))
      → Kept m0 m
      → Quiet m0 (xfer_word (cfs tree) sender from recver to m)
  unfolding xfer_word
  xfer_word-Quiet from to m k =
      Quiet-bind (wordref (cfs tree) sender from) _ m (wordref-Quiet tree sender from m k)
        λ word m1 k1. After-option word _ _ m1 (Quiet-pure false m1 k1) λ a.
          Quiet-bind (wordref (cfs tree) recver to) _ m1 (wordref-Quiet tree recver to m1 k1)
            λ word' m2 k2. After-option word' _ _ m2 (Quiet-pure false m2 k2) λ b.
              Quiet-bind (xfer_between (cfs tree) sender from recver to a b) _ m2
                (xfer_between-Quiet from to a b m2 k2) λ _ m3 k3. Quiet-pure true m3 k3

  xfer_loop-Quiet :
      (from to : ℤ) (rounds j : ℕ) (m : Machine (Os T))
      → Kept m0 m
      → Quiet m0 (xfer_loop (cfs tree) sender from recver to rounds j m)
  unfolding xfer_loop
  xfer_loop-Quiet from to zero j m k = Quiet-pure (pos 0) m k
  xfer_loop-Quiet from to (suc rounds) j m k =
      Quiet-bind (xfer_word (cfs tree) sender (add_ℕ from j) recver (add_ℕ to j)) _ m
        (xfer_word-Quiet (add_ℕ from j) (add_ℕ to j) m k)
        λ sent m1 k1.
          After-if sent (xfer_loop (cfs tree) sender from recver to rounds (suc j)) (pure (pos 1))
            m1 (xfer_loop-Quiet from to rounds (suc j) m1 k1) (Quiet-pure (pos 1) m1 k1)

  pub xfer_msg-Quiet :
      (m : Machine (Os T)) → Kept m0 m → Quiet m0 (xfer_msg (cfs tree) sender recver m)
  unfolding xfer_msg
  xfer_msg-Quiet m k =
      xfer_loop-Quiet (word2int (m.proc_table sender).r) (word2int (m.proc_table recver).r) 10 0 m k
