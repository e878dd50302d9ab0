-- ===== src/Mem/Regions.antt =====
-- The region of a process is given back (free_region of mem.c): the call always returns.
use brain_project.Prelude.{refl, ℤ, pos, negsuc, Returns}
use brain_project.Word.{word2int}
use brain_project.Proc.{Proc}
use brain_project.Mem.{Memory, free_region, free_words, freemem, malloc}

free_words-Returns :
    (base limit : ℤ) (s : Memory) → Returns (λ _ _. Unit {0}) (free_words base limit s)
unfolding free_words freemem malloc
free_words-Returns (pos base) (pos limit) s = (tt, _, refl, tt)
free_words-Returns (pos base) (negsuc _) s = (tt, s, refl, tt)
free_words-Returns (negsuc _) limit s = (tt, s, refl, tt)

pub free_region-Returns : (p : Proc) (s : Memory) → Returns (λ _ _. Unit {0}) (free_region p s)
unfolding free_region
free_region-Returns p s = free_words-Returns (word2int p.br) (word2int p.lr) s
