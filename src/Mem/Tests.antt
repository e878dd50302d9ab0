-- ===== src/Mem/Tests.antt =====
-- Translations and accesses at concrete processes.
use brain_project.Prelude.{
  ℕ, ◌<◌, ◌≡◌, ◌≢◌, ◌⊎◌, ◌==◌, refl, pos, minus_one, false, some, arith, inl, if◌then◌else◌,
}
use brain_project.Word.{word2int}
use brain_project.Word.Decimal.{value}
use brain_project.Layout.{vaddr_size}
use brain_project.Pager.{Pager}
use brain_project.Pager.Inv.{view}
use brain_project.Pager.Sample.{blank_word, resident}
use brain_project.Mem.{get_global_address, fetch_word, store_word}
use brain_project.Mem.Address.{
  InRegion, Rejected, Separate, get_global_address_cases, regions_apart,
}
use brain_project.Mem.Access.{Settled, with_pager, fetch_word_lem, store_word_lem}
use brain_project.Prelude.{◌∷◌, []}
use brain_project.HoleList.{hole}
use brain_project.Pager.{half}
use brain_project.Pager.Init.{all_ok, Started}
use brain_project.Mem.{Memory, pagemem_init}
use brain_project.Mem.Boot.{pagemem_init_lem}
use brain_project.Mem.Sample.{sample, memory, can_access, translated}

past_the_limit : get_global_address (sample 1) (pos 100) ≡ minus_one
unfolding get_global_address word2int
past_the_limit = refl

get_global_address_cases_example :
    ((get_global_address (sample 1) (pos 20) ≡ minus_one) × Rejected (sample 1) (pos 20))
    ⊎ ((g : ℕ) × (get_global_address (sample 1) (pos 20) ≡ pos g) × InRegion (sample 1) (pos 20) g)
get_global_address_cases_example = get_global_address_cases (sample 1) (pos 20)

separate : Separate (sample 1) (sample 2)
unfolding value
separate = inl (omega arith)

translated_too : get_global_address (sample 2) (pos 50) ≡ pos 250
unfolding get_global_address word2int
translated_too = refl

regions_apart_example : ◌≢◌ {A = ℕ} 120 250
regions_apart_example =
    regions_apart (sample 1) (sample 2) (pos 20) (pos 50) 120 250 separate translated translated_too

fetch_word_lem_example :
    (q : Pager) × (fetch_word 7 (sample 1) (pos 20) memory
      ≡ some (some (view (resident false) 120), with_pager memory q))
    × Settled (resident false) q 120
    × ((u : ℕ) → u < vaddr_size → view q u ≡ view (resident false) u)
fetch_word_lem_example = fetch_word_lem 7 (sample 1) (pos 20) memory 120 translated can_access

store_word_lem_example :
    (q : Pager) × (store_word 7 (sample 1) (pos 20) blank_word memory
      ≡ some (some tt, with_pager memory q))
    × Settled (resident false) q 120
    × ((u : ℕ)
        → u < vaddr_size
        → view q u ≡ (if 120 == u then blank_word else view (resident false) u))
store_word_lem_example =
    store_word_lem 7 (sample 1) (pos 20) memory 120 translated can_access blank_word

pagemem_init_lem_example :
    (s' : Memory) × (pagemem_init 50 half all_ok memory ≡ some (pos 0, s'))
    × Started 50 s'.pager
    × (s'.holes ≡ hole 0 vaddr_size ∷ [])
pagemem_init_lem_example = pagemem_init_lem 50 half memory (omega arith) refl refl refl
