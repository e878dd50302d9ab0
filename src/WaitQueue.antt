-- ===== src/WaitQueue.antt =====
-- Wait queues as they stand in memory (wait_queue.c): nodes on a heap, with a head and a tail. A pointer
-- is an address or none for NULL, and the process of a node is its index.
pub mod Chain
pub mod Remove
pub mod Free
mod Tests
use brain_project.Prelude.{ℕ, zero, suc, ◌==◌, if◌then◌else◌, ℤ, pos, Option, none, some, set}

-- struct plist
pub record Plist : Type 0 where
  pub p : ℕ
  pub next : Option ℕ

abbrev pub Heap : Type 0
Heap = ℕ → Option Plist

-- A struct plist_head, and the heap.
pub record Wq : Type 0 where
  pub heap : Heap
  pub head : Option ℕ
  pub tail : Option ℕ

-- The end of insert_proc: a node is written behind the tail.
abbrev pub link_tail : ℕ → ℕ → Wq → Option Plist → Option (ℤ × Wq)
link_tail a t s none = none
link_tail a t s (some last) =
    some (
      pos 0,
      record s { heap = set s.heap t (some (record last { next = some a })); tail = some a },
    )

abbrev pub append_node : ℕ → Wq → Option ℕ → Option ℕ → Option (ℤ × Wq)
append_node a s none tail = some (pos 0, record s { head = some a; tail = some a })
append_node a s (some h) none = none
append_node a s (some h) (some t) = link_tail a t s (s.heap t)

-- insert_proc with the result of malloc.
unfoldable pub insert_plist : Option ℕ → ℕ → Wq → Option (ℤ × Wq)
insert_plist none p s = some (pos 1, s)
insert_plist (some a) p s =
    let s1 = record s { heap = set s.heap a (some (record { p = p; next = none })) } in
    append_node a s1 s1.head s1.tail

-- One step of the walk of remove_proc: to stop, or to go on from a node.
pub data Step : Type 0 where
  stop : Step
  go_on : ℕ → Step
  null : Step

abbrev pub look : ℕ → ℕ → Option Plist → Step
look p b none = null
look p b (some n) = if n.p == p then stop else go_on b

abbrev pub next_step : Heap → ℕ → Option ℕ → Step
next_step h p none = stop
next_step h p (some b) = look p b (h b)

abbrev pub step : Heap → ℕ → Option Plist → Step
step h p none = null
step h p (some n) = next_step h p n.next

-- The walk, on the number of nodes that it may pass.
unfoldable pub find_plist : ℕ → Heap → ℕ → ℕ → Option ℕ
find_plist zero h p listp = none
find_plist (suc n) h p listp = elim (step h p (h listp)) [
  | null ↦ none
  | stop ↦ some listp
  | go_on b ↦ find_plist n h p b
]

-- The node `e` with the next node `next` leaves the queue, from behind `listp`. The tail can then be
-- the address of the local `root`, while the head is NULL.
abbrev pub unlink : ℕ → ℕ → Plist → ℕ → Option ℕ → Heap → Wq → Wq
unlink root listp n e next h s = record {
  heap = set (set (set h listp (some (record n { next = next }))) e none) root none;
  head = if listp == root then next else s.head;
  tail = elim next [ none ↦ some listp | some b ↦ s.tail ];
}

abbrev pub take_out : ℕ → ℕ → Plist → ℕ → Option Plist → Heap → Wq → Option (ℤ × Wq)
take_out root listp n e none h s = none
take_out root listp n e (some en) h s = some (pos 0, unlink root listp n e en.next h s)

abbrev pub remove_next : ℕ → ℕ → Plist → Option ℕ → Heap → Wq → Option (ℤ × Wq)
remove_next root listp n none h s = some (pos 0, s)
remove_next root listp n (some e) h s = take_out root listp n e (h e) h s

abbrev pub remove_at : ℕ → ℕ → Option Plist → Heap → Wq → Option (ℤ × Wq)
remove_at root listp none h s = none
remove_at root listp (some n) h s = remove_next root listp n n.next h s

-- remove_proc, with the address of its local `root` and the fuel of the walk.
unfoldable pub remove_plist : ℕ → ℕ → ℕ → Wq → Option (ℤ × Wq)
unfolding find_plist
remove_plist fuel root p s =
    let h = set s.heap root (some (record { p = 0; next = s.head })) in
    elim (find_plist fuel h p root) [
      | none ↦ none
      | some listp ↦ remove_at root listp (h listp) h s
    ]

-- The loop of free_list, on the number of nodes that it may free.
unfoldable pub free_list : ℕ → Option ℕ → Heap → Option Heap
free_list fuel none h = some h
free_list zero (some curp) h = none
free_list (suc n) (some curp) h = elim (h curp) [
  | none ↦ none
  | some c ↦ free_list n c.next (set h curp none)
]
