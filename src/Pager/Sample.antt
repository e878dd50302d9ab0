-- ===== src/Pager/Sample.antt =====
-- Pagers with pages of 50 words.
use brain_project.Prelude.{
  ℕ, ◌<◌, ◌≡◌, ◌==◌, refl, Bool, true, false, arith, inl, inr, if◌then◌else◌, Bool-cases,
}
use brain_project.Word.{Word, word}
use brain_project.Word
use brain_project.Pager.{Pager, PageEnt, half}
use brain_project.Pager.Inv.{Owner, Inv, Placed}
use brain_project.Prelude.{suc, ◌/◌, ◌^◌}
use brain_project.Pager.Inv.{page-lt}
use brain_project.Pager.Spare.{Spare, length}
use brain_project.Prelude.{[], ◌∷◌}
use brain_project.Pager.Init.{Started, start-Started, start}

abbrev pub blank_word : Word
blank_word = Word.fill b'0'

-- Static memory before pagemem_init.
abbrev pub blank : Pager
blank = record {
  pg_count = 0;
  pg_size = 0;
  page_mem = λ _. Word.fill 0;
  pg_table = λ _. record { valid = false; frame_addr = 0; refcount = 0 };
  free_frames = λ _. false;
  history_weight = half;
  pg_period = λ _. record { last_access = 0; period = 0 };
  page_faults = 0;
  mem = λ _. Word.fill b'0';
}

abbrev pub booted : Pager
booted = start 50 half blank

-- Page 0 is in frame 1 with one reference; frame 0 holds page 1 or is free.
abbrev pub entries : Bool → ℕ → PageEnt
entries second p =
    if p == 0
    then record { valid = true; frame_addr = 50; refcount = 1 }
    else if p == 1
    then record { valid = second; frame_addr = 0; refcount = 1 }
    else record { valid = false; frame_addr = 0; refcount = 0 }

abbrev pub resident : Bool → Pager
resident second = record {
  pg_count = 200;
  pg_size = 50;
  page_mem = λ a. word 0 0 0 a;
  pg_table = entries second;
  free_frames = λ f. if second then false else f == 0;
  history_weight = half;
  pg_period = λ _. record { last_access = 0; period = 0 };
  page_faults = 0;
  mem = λ a. word 0 0 1 a;
}

resident-Placed :
    (second : Bool) (p : ℕ)
    → ((resident second).pg_table p).valid ≡ true
    → Placed (resident second) p
resident-Placed second p e = elim (Bool-cases (p == 0)) [
  | inl z ↦ record {
    frame = 1;
    starts = ground arith;
    in_memory = omega arith;
    taken = ground arith;
  }
  | inr z ↦ record {
    frame = 0;
    starts = ground arith;
    in_memory = omega arith;
    taken = ground arith;
  }
]

resident-Owner :
    (second : Bool) (f : ℕ)
    → f < 2
    → (resident second).free_frames f ≡ false
    → Owner (resident second) f
resident-Owner second f h e = elim (Bool-cases (f == 0)) [
  | inl z ↦ record {
    page = 1;
    in_table = omega arith;
    resident = ground arith;
    stands = ground arith;
  }
  | inr z ↦ record { page = 0; in_table = omega arith; resident = refl; stands = ground arith }
]

pub resident-Inv : (second : Bool) → Inv (resident second)
resident-Inv second = record {
  size_pos = omega arith;
  frames_fill = refl;
  pages_fill = refl;
  placed = λ p _ e. resident-Placed second p e;
  apart = λ p q _ _ e f g. ground arith;
  owned = λ f h e. resident-Owner second f h e;
}

pub fresh : Started 50 booted
fresh = start-Started 50 half blank (omega arith) refl

-- Page 2 may be in use.
pub fresh-Spare : Spare booted (2 ∷ [])
unfolding length
fresh-Spare = record { in_use = λ p h _. fresh.no_refs p h; fewer = rw fresh.size (omega arith) }

pub no_wrap : suc (booted.pg_table (120 / booted.pg_size)).refcount < 2 ^ 32
no_wrap =
    rw (fresh.no_refs (120 / booted.pg_size) (page-lt fresh.inv 120 (omega arith))) (omega arith)
