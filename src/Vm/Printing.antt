-- ===== src/Vm/Printing.antt =====
-- What print prints (vm/io.c).
use brain_project.Prelude.{
  ℕ, zero, suc, ◌+◌, ◌/◌, ◌^◌, ◌<◌, ◌≤◌, ◌≡◌, refl, ap, sym, ◌∙◌, Option, arith, ℤ, pos, add_ℕ,
  some, List, [], ◌∷◌, ◌++◌, bind_some, subst,
}
use mathlib.Core.List.{append_assoc, append-nil}
use brain_project.Word.{Word}
use brain_project.Layout.{vaddr_size}
use brain_project.Pager.{Pager}
use brain_project.Pager.Inv.{Inv, view, page-lt}
use brain_project.Pager.Spare.{Spare}
use brain_project.Mem.{get_global_address, get_wordref, release_wordref, read_ref}
use brain_project.Mem.Access.{
  Accessible, Accessible-of-Spare, Settled, settle, get_wordref_lem, release_wordref_lem,
  with_pager,
}
use brain_project.RbTree.{RbTree}
use brain_project.Os.{Os, cfs}
use brain_project.Vm.Machine.{Machine, on_memory, on_memory-some, wordref, release}
use brain_project.Vm.Transfer.{paged}
use brain_project.Vm.Io.{chars, print_loop, print}

-- Any word of the virtual space can be accessed: the page table is well formed, fewer pages are in
-- use than there are frames, and no count of references is about to wrap.
pub record Roomy (s : Pager) (l : List ℕ) : Type 0 where
  pub inv : Inv s
  pub spare : Spare s l
  pub fits : (p : ℕ) → p < s.pg_count → suc (s.pg_table p).refcount < 2 ^ 32

-- The lines of `n` words from the one numbered `k` behind `g` on.
unfoldable pub lines : Pager → ℕ → ℕ → ℕ → List ℕ
lines s zero k g = []
lines s (suc n) k g = (chars (view s (g + k)) ++ 10 ∷ []) ++ lines s n (suc k) g

lines-same :
    (s q : Pager) (n k g : ℕ)
    → ((u : ℕ) → u < vaddr_size → view q u ≡ view s u)
    → g + (k + n) ≤ vaddr_size
    → lines q n k g ≡ lines s n k g
unfolding lines
lines-same s q zero k g same h = refl
lines-same s q (suc n) k g same h =
    rw (same (g + k) (omega arith), lines-same s q n (suc k) g same (omega arith)) refl

pub Roomy-again : {s q : Pager} {l : List ℕ} {g : ℕ} → Roomy s l → Settled s q g → Roomy q l
Roomy-again {s} {q} v t = record {
  inv = t.inv;
  spare = record {
    in_use = λ p h out. t.refs p ∙ v.spare.in_use p (subst (λ n. p < n) t.same_count h) out;
    fewer = rw (t.same_size) v.spare.fewer;
  };
  fits = λ p h. rw (t.refs p) (v.fits p (subst (λ n. p < n) t.same_count h));
}

module _ {T : Type 0} (tree : RbTree T) (i : ℕ) where
  -- The machine with another pager and more output.
  abbrev pub printed : Machine (Os T) → Pager → List ℕ → Machine (Os T)
  printed m q out = record (paged m q) {
    sched = record m.sched { printed = m.sched.printed ++ out };
  }

  print_word :
      (n k : ℕ) (addr : ℤ) (m : Machine (Os T)) (g : ℕ)
      → get_global_address (m.proc_table i) (add_ℕ addr k) ≡ pos g
      → Accessible m.memory.pager g
      → (q : Pager) × (print_loop tree (suc n) k i addr m
          ≡ print_loop tree n
              (suc k)
              i
              addr
              (printed m q (chars (view m.memory.pager g) ++ 10 ∷ [])))
        × Settled m.memory.pager q g
        × ((u : ℕ) → u < vaddr_size → view q u ≡ view m.memory.pager u)
  unfolding print_loop wordref release read_ref on_memory
  print_word n k addr m g e v =
      let p = m.proc_table i in
      let (a, t, run, touched) =
        get_wordref_lem ((cfs tree).ops m.sched) p (add_ℕ addr k) m.memory g e v in
      let (q, run', r) =
        release_wordref_lem ((cfs tree).ops m.sched) p (add_ℕ addr k) (with_pager m.memory t) g e
          touched.inv v.in_space in
      let addr' = add_ℕ addr k in
      let rest = print_loop tree n (suc k) i addr in
      let m1 = printed m t (chars (t.mem a) ++ 10 ∷ []) in
      (
        q,
        bind_some (wordref (cfs tree) i addr') _ m
              (on_memory-some m (get_wordref ((cfs tree).ops m.sched) p addr') run)
            ∙ bind_some (release (cfs tree) i addr') (λ _. rest) m1
                (on_memory-some m1 (release_wordref p addr') run')
            ∙ ap (λ (x : Word). rest (printed m q (chars x ++ 10 ∷ []))) touched.reads,
        settle touched t.mem r,
        λ u h. r.same_view u ∙ touched.same_view u h,
      )

  -- What a number of rounds of print leave behind.
  pub record Printed (m : Machine (Os T)) (l : List ℕ) (n k g : ℕ) (r : Option (ℤ × Machine (Os T)))
      : Type 0 where
    pub pager : Pager
    pub run : r ≡ some (pos 0, printed m pager (lines m.memory.pager n k g))
    pub roomy : Roomy pager l
    pub same_view : (u : ℕ) → u < vaddr_size → view pager u ≡ view m.memory.pager u

  module _ (addr : ℤ) (l : List ℕ) (g : ℕ) where
    print_loop_lem :
        (n k : ℕ) (m : Machine (Os T))
        → ((j : ℕ) → j < k + n → get_global_address (m.proc_table i) (add_ℕ addr j) ≡ pos (g + j))
        → g + (k + n) ≤ vaddr_size
        → Roomy m.memory.pager l
        → Printed m l n k g (print_loop tree n k i addr m)
    unfolding print_loop lines
    print_loop_lem zero k m region h v = record {
      pager = m.memory.pager;
      run =
          ap (λ o. some (pos 0, record m { sched = record m.sched { printed = o } }))
            (sym (append-nil m.sched.printed));
      roomy = v;
      same_view = λ u w. refl;
    }
    print_loop_lem (suc n) k m region h v =
        let (q, run, t, same) = print_word n k addr m (g + k) (region k (omega arith)) (
          Accessible-of-Spare (g + k) v.inv (omega arith) v.spare
            (v.fits ((g + k) / m.memory.pager.pg_size) (page-lt v.inv (g + k) (omega arith)))) in
        let line = chars (view m.memory.pager (g + k)) ++ 10 ∷ [] in
        let x =
          print_loop_lem n (suc k) (printed m q line) (λ j w. region j (omega arith)) (omega arith)
            (Roomy-again v t) in
        let all =
          ap (λ o. (m.sched.printed ++ line) ++ o)
            (lines-same m.memory.pager q n (suc k) g same (omega arith))
          ∙ append_assoc m.sched.printed line (lines m.memory.pager n (suc k) g) in
        record {
          pager = x.pager;
          run =
              run
              ∙ x.run
              ∙ ap
                  (λ o.
                    some
                      (pos 0, record (paged m x.pager) { sched = record m.sched { printed = o } }))
                  all;
          roomy = x.roomy;
          same_view = λ u w. x.same_view u w ∙ same u w;
        }

    -- print of ten words that are addresses of the process, from `g` of the virtual space on, where
    -- any word of it can be accessed, returns 0 and prints those words, a line for each. It changes no
    -- word of the virtual space, and any word of it can be accessed again.
    pub print_lem :
        (m : Machine (Os T))
        → ((j : ℕ) → j < 10 → get_global_address (m.proc_table i) (add_ℕ addr j) ≡ pos (g + j))
        → g + 10 ≤ vaddr_size
        → Roomy m.memory.pager l
        → Printed m l 10 0 g (print tree i addr m)
    unfolding print
    print_lem m region h v = print_loop_lem 10 0 m region h v
