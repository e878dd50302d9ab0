-- ===== src/Lib.antt =====
-- The BRAIN virtual machine: a multiprogrammed machine whose memory consists of words of four
-- characters. Up to 100 processes of at most 10000 words in all live in a virtual space, which
-- is paged into a physical memory of 100 words. The instructions are run by a scheduler.
--
-- The parts, and the files that model them:
--   * Layout (mem.h): the sizes.
--   * Word (vm/vm.c, vm/math.c, vm/cmp.c): words, their conversion to and from numbers, arithmetic
--     and comparison. A character is its code. An int is a ℤ of our own over the native numbers,
--     an unsigned int a native number with its wrap-around written out.
--   * HoleList (hole_list.c): the free list of the virtual space. The linked nodes, which only this
--     file holds, are the elements of a list; a loop along them is a recursion on it.
--   * Pager (pagemem.c): the page table, the frames, secondary storage, eviction and the counts of
--     references. Physical memory (mem.c: mem) is among its state, since pages are copied there. An
--     array is a function of its index. Pager/Inv has the invariant of the page table and the
--     contents `view` of the virtual space, which is what a process sees whatever page is where.
--   * Proc (vm/vm.h: struct proc): the registers. A pointer to a process is its index in proc_table.
--   * Mem (mem.c, and page_store and pagemem_init of pagemem.c): base and limit, references to
--     words, shared memory, allocation. A pointer to a word is its index, and none is NULL.
--   * Vm (the directory vm, sem.c, wait_queue.c): the instructions as functions of the index of the
--     process and the address in the instruction. Vm/Machine has the state they share, Vm/Register,
--     Vm/Stack, Vm/Control, Vm/Sem and Vm/Msg the instructions, named as in the source.
--     Vm/Io and Vm/Exec are vm/io.c and vm/exec.c; Vm/Printing and Vm/Reading have what print and read
--     do to the input, the output and the virtual space. Vm/Tick has the opcodes, op_table and tick.
--   * WaitQueue (wait_queue.c): the wait queues as nodes on a heap. Vm works on the lists of their
--     processes.
--   * RbTree (rb_tree): the interface of the ordered tree that sched.c uses, with its laws, and in
--     RbTree/Sample a tree that keeps them.
--   * Sched (sched.c): the run queue, and its functions over that interface. Sched/Inv has the
--     invariant of the run queue: a list of nodes in the order of the times of their processes.
--   * Stdio: streams of characters and what the program uses of scanf, fgetc, strlen and strncmp.
--   * Os: what the program has besides the machine, that is the run queue, the standard input, the
--     output and the files; `cfs` is sched.c as the instructions see it.
--   * Loader (loader.c): words and programs from streams. Loader/Start has load_file and get_uint.
--   * Program (sched_run of sched.c, and main of loader.c): the loop over the ticks.
--   * System: where each process of the whole machine stands (`Place`: it is ready, in a wait queue, or
--     off), and when the run queue and the wait queues agree with that (`Sys`). System/Life has what
--     an instruction, by its opcode, and a tick do to the places (`Outcome`, `Ticked`). System/Down,
--     Up, Send, Recv, Fork and Halt have the instructions that call the scheduler, System/Ticks a
--     tick, System/Loop the machines that the loop comes by, System/Programs the load and
--     System/Boot main from set_mem on. Vm/Quiet has the instructions that change no queue, and
--     Prelude/Runs the rules for the parts of a run.
-- main sets the memory up, loads the programs, which become processes, and runs sched_run; that
-- calls tick, which fetches a word by Mem and runs the instruction. An instruction calls Mem,
-- which calls the Pager, and the scheduler; each is run on its part of the state by on_memory,
-- on_pager, on_sched, on_rq and on_queue.
--
-- Code that changes state is of the type Run S A (Prelude/State), S → Option (A × S): none is
-- behaviour that C leaves undefined (an index outside an array, a NULL dereference, a division
-- by 0) or a loop that never ends, and an error that the code reports is a value, the return
-- code of the source.
--
-- Parameters: the answers of malloc; the update of a page's period (Weight, a floating-point
-- computation with history_weight); the tree of rb_tree, another project's library, with the
-- laws RbTreeLaws as hypotheses of the theorems on Sched; the scheduler (Scheduler in
-- Vm/Machine) for the theorems on single instructions; the files that exec_proc opens; and what
-- an array holds before it is written (buffer in Os).
--
-- Loops: those over the tables count down the rounds left, from the bound that the source has
-- (the number of pages or frames, the limit of a process, the ten words of a message), and so
-- need no further bound. leftmost may visit 101 nodes: the root sentinel and a node for each of
-- the 100 entries. The loops of the loader have the length of their stream as fuel, of which
-- each round takes a character. The walks along a wait queue have a node more than the queue as
-- fuel. sched_run is on a number of rounds of 20 ticks, since programs need not end.
--
-- Not modelled: messages on stderr; the inside of rb_tree; in wait_queue.c the tests of the
-- arguments for NULL, since every call passes a queue and a process. In exec_proc the NUL that
-- scanf writes behind its array is taken to change nothing. A number above 2 ^ 32 - 1 in the
-- size of a process, whose reading C leaves undefined, is a fault. The theorems of System leave
-- aside a receive from any process, which vm/msg.c does not take off its queue when it is served.
pub mod Prelude
pub mod Layout
pub mod Word
pub mod HoleList
pub mod Pager
pub mod Proc
pub mod Mem
pub mod RbTree
pub mod Sched
pub mod Stdio
pub mod Os
pub mod Loader
pub mod Vm
pub mod WaitQueue
pub mod Program
pub mod System
