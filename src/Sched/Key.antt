-- ===== src/Sched/Key.antt =====
-- The order of the run queue (key_comp of sched.c).
use brain_project.Prelude.{
  ℕ, ◌+◌, ◌%◌, ◌^◌, ◌<◌, ◌≤◌, ◌≡◌, ◌==◌, arith, ltb, if◌then◌else◌, ℤ, pos, minus_one, to_signed,
  sub_u32, sub_ℕ, uint_mod,
}
use brain_project.Sched.{Rq, key_comp, compare_ints}

-- How two numbers compare, as key_comp says it.
abbrev pub sign : ℕ → ℕ → ℤ
sign a b = if a == b then pos 0 else if ltb a b then minus_one else pos 1

-- The stored time is the time modulo 2 ^ 32.
abbrev pub Stores : ℕ → ℕ → Type 0
Stores v a = v ≡ a % uint_mod

-- Less than 2 ^ 31 apart.
abbrev pub Near : ℕ → ℕ → Type 0
Near a m = (a < m + 2 ^ 31) × (m ≤ a + 2 ^ 31)

distance : (v w a m : ℕ) → Stores v a → Stores w m → Near a m → to_signed (sub_u32 v w) ≡ sub_ℕ a m
distance v w a m e f h = ground arith

compare_distances : (a b m : ℕ) → compare_ints (sub_ℕ a m) (sub_ℕ b m) ≡ sign a b
compare_distances a b m = ground arith

-- key_comp orders the times that the processes have run, also where these have passed 2 ^ 32 and
-- the stored times and min_vruntime have wrapped. All times are assumed to be less than 2 ^ 31 away
-- from the time that min_vruntime stores.
pub key_comp-wraps :
    {T : Type 0} (s : Rq T) (i j a b m : ℕ)
    → Stores (s.task_table i).vruntime a
    → Stores (s.task_table j).vruntime b
    → Stores s.min_vruntime m
    → Near a m
    → Near b m
    → key_comp s i j ≡ sign a b
unfolding key_comp
key_comp-wraps s i j a b m ei ej em ha hb =
    rw
      (
        distance (s.task_table i).vruntime s.min_vruntime a m ei em ha,
        distance (s.task_table j).vruntime s.min_vruntime b m ej em hb,
      )
      (compare_distances a b m)
