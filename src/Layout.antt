-- ===== src/Layout.antt =====
-- The sizes of mem.h, in words.
use brain_project.Prelude.{ℕ}

abbrev pub procs : ℕ
procs = 100

abbrev pub mem_size : ℕ
mem_size = 100

abbrev pub shm_size : ℕ
shm_size = 100

-- PROCS*100
abbrev pub vaddr_size : ℕ
vaddr_size = 10000
