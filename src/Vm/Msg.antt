-- ===== src/Vm/Msg.antt =====
-- Messages between processes (vm/msg.c).
use brain_project.Prelude.{
  ℕ, zero, suc, ◌+◌, ◌-◌, ◌==◌, Bool, true, false, ltb, if◌then◌else◌, ℤ, pos, negsuc, minus_one,
  is_zero, add_ℕ, Option, none, some, List, [], ◌∷◌, Run, pure, get, modify, ◌>>=◌, ◌>>◌, set,
}
use brain_project.Word.{word2int}
use brain_project.Layout.{procs}
use brain_project.Mem.{read_ref, write_ref}
use brain_project.Vm.Machine.{
  Scheduler, Machine, on_memory, on_sched, this, insert_proc, retry_op, remove_first, wordref,
  release,
}

module _ {S : Type 0} where
  abbrev pub set_recv_wq : ℕ → List ℕ → Machine S → Machine S
  set_recv_wq k l m = record m { recv_wq = set m.recv_wq k l }

  abbrev pub set_send_wq : ℕ → List ℕ → Machine S → Machine S
  set_send_wq k l m = record m { send_wq = set m.send_wq k l }

  -- The queues 0 .. PROCS of receivers and 0 .. PROCS-1 of senders.
  unfoldable pub msg_init : Run (Machine S) (Unit {0})
  msg_init = modify λ m. record m {
    recv_wq = λ k. if ltb k (procs + 1) then [] else m.recv_wq k;
    send_wq = λ k. if ltb k procs then [] else m.send_wq k;
  }

  -- The walk along a queue to the first process with a given id, or to any for an id below 0.
  unfoldable pub find_pid : Machine S → ℤ → List ℕ → Option ℕ
  find_pid m pid [] = none
  find_pid m (negsuc n) (q ∷ l) = some q
  find_pid m (pos pid) (q ∷ l) =
      if (m.proc_table q).pid == pid then some q else find_pid m (pos pid) l

module _ {S : Type 0} (sch : Scheduler S) where
  unfoldable pub xfer_between : ℕ → ℤ → ℕ → ℤ → ℕ → ℕ → Run (Machine S) (Unit {0})
  unfolding on_memory release
  xfer_between sender from recver to a b = do
    x ← on_memory (read_ref a)
    on_memory (write_ref b x)
    release sch sender from
    release sch recver to

  -- One round of xfer_msg; `false` where a reference is NULL.
  unfoldable pub xfer_word : ℕ → ℤ → ℕ → ℤ → Run (Machine S) Bool
  unfolding wordref xfer_between
  xfer_word sender from recver to = do
    send_word ← wordref sch sender from
    elim send_word [
      | none ↦ pure false
      | some a ↦ (do
        recv_word ← wordref sch recver to
        elim recv_word [
          | none ↦ pure false
          | some b ↦ (do xfer_between sender from recver to a b; pure true)
        ])
    ]

  unfoldable pub xfer_loop : ℕ → ℤ → ℕ → ℤ → ℕ → ℕ → Run (Machine S) ℤ
  unfolding xfer_word
  xfer_loop sender load_loc recver store_loc zero k = pure (pos 0)
  xfer_loop sender load_loc recver store_loc (suc rounds) k = do
    sent ← xfer_word sender (add_ℕ load_loc k) recver (add_ℕ store_loc k)
    let rest = xfer_loop sender load_loc recver store_loc rounds (suc k)
    if sent then rest else pure (pos 1)

  unfoldable pub xfer_msg : ℕ → ℕ → Run (Machine S) ℤ
  unfolding xfer_loop
  xfer_msg sender recver = do
    p ← this sender
    q ← this recver
    xfer_loop sender (word2int p.r) recver (word2int q.r) 10 0

  -- index = pid < 0 ? PROCS : pid
  abbrev pub queue_index : ℤ → ℕ
  queue_index (pos pid) = pid
  queue_index (negsuc _) = procs

  -- No sender waits: the process runs the instruction again after it is resumed.
  unfoldable pub wait_for_sender : ℕ → ℤ → Run (Machine S) ℤ
  unfolding on_sched insert_proc retry_op
  wait_for_sender i pid = do
    p ← this i
    retried ← retry_op i
    if is_zero retried
        then (do
          queued ← insert_proc (set_recv_wq (queue_index pid)) (λ m. m.recv_wq (queue_index pid)) i
          if is_zero queued
              then (do suspended ← on_sched (sch.suspend p.pid); pure (pos 0))
              else pure minus_one)
        else pure (pos 1)

  unfoldable pub take_message : ℕ → ℕ → Run (Machine S) ℤ
  unfolding on_sched xfer_msg remove_first
  take_message i sender = do
    p ← this i
    moved ← xfer_msg sender i
    if is_zero moved
        then (do
          senderp ← this sender
          m ← get
          modify (set_send_wq p.pid (remove_first sender (m.send_wq p.pid)))
          resumed ← on_sched (sch.resume senderp.pid)
          pure (pos 0))
        else pure (pos 1)

  unfoldable pub recv_from : ℕ → ℤ → Option ℕ → Run (Machine S) ℤ
  unfolding wait_for_sender take_message
  recv_from i pid none = wait_for_sender i pid
  recv_from i pid (some sender) = take_message i sender

  -- pid > PROCS-1
  abbrev pub too_large : ℤ → Bool
  too_large (pos pid) = ltb (procs - 1) pid
  too_large (negsuc _) = false

  unfoldable pub recv : ℕ → ℤ → Run (Machine S) ℤ
  unfolding recv_from find_pid
  recv i pid = do
    m ← get
    if too_large pid
        then pure (pos 1)
        else recv_from i pid (find_pid m pid (m.send_wq (m.proc_table i).pid))

  -- The receiver: in the sender's queue, else in the queue of those that receive from any.
  unfoldable pub find_receiver : Machine S → ℕ → ℕ → Option ℕ
  unfolding find_pid
  find_receiver m own pid = elim (find_pid m (pos pid) (m.recv_wq own)) [
    | some q ↦ some q
    | none ↦ find_pid m (pos pid) (m.recv_wq procs)
  ]

  -- remove_proc(own queue) != 0 && remove_proc(any queue) != 0: the first call returns 0 whether
  -- or not the process is in the queue, so the second is never made.
  unfoldable pub wake_receiver : ℕ → ℕ → Option ℕ → Run (Machine S) ℤ
  unfolding on_sched remove_first
  wake_receiver own pid none = pure (pos 0)
  wake_receiver own pid (some q) = do
    m ← get
    modify (set_recv_wq own (remove_first q (m.recv_wq own)))
    resumed ← on_sched (sch.resume pid)
    pure (pos 0)

  unfoldable pub send_to : ℕ → ℕ → Run (Machine S) ℤ
  unfolding on_sched insert_proc find_receiver wake_receiver
  send_to i pid = do
    p ← this i
    suspended ← on_sched (sch.suspend p.pid)
    queued ← insert_proc (set_send_wq pid) (λ m. m.send_wq pid) i
    m ← get
    if is_zero queued then wake_receiver p.pid pid (find_receiver m p.pid pid) else pure minus_one

  unfoldable pub send : ℕ → ℤ → Run (Machine S) ℤ
  unfolding send_to
  send i (negsuc _) = pure (pos 1)
  send i (pos pid) = if ltb (procs - 1) pid then pure (pos 1) else send_to i pid
