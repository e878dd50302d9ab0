-- ===== src/Vm/Reading.antt =====
-- What read reads (vm/io.c).
use brain_project.Prelude.{
  ℕ, suc, ◌+◌, ◌/◌, ◌<◌, ◌≤◌, ◌≡◌, refl, ap, ◌∙◌, Option, arith, Bool, false, ◌&&◌, ◌==◌,
  if◌then◌else◌, ℤ, pos, minus_one, add_ℕ, some, List, [], ◌∷◌, ◌++◌, Run, pure, ◌>>=◌, ◌>>◌,
  bind_some, subst, set,
}
use brain_project.Word.{Word}
use brain_project.Layout.{vaddr_size}
use brain_project.Stdio.{Stream, to_lower, buf_word}
use brain_project.Stdio.Fields.{Spaces}
use brain_project.Loader.{read_word}
use brain_project.Loader.Code.{count}
use brain_project.Loader.Words.{IsPlain, read_word-chars}
use brain_project.Pager.{Pager}
use brain_project.Pager.Inv.{view, page-lt}
use brain_project.Pager.Write.{write_word}
use brain_project.Mem.{get_global_address, get_wordref, release_wordref, write_ref}
use brain_project.Mem.Access.{
  Accessible, Accessible-of-Spare, Settled, settle, get_wordref_lem, release_wordref_lem,
  with_pager, written-Inv, written-view,
}
use brain_project.RbTree.{RbTree}
use brain_project.Os.{Os, cfs}
use brain_project.Vm.Machine.{Machine, on_memory, on_memory-some, wordref, release, or_fail}
use brain_project.Vm.Transfer.{paged}
use brain_project.Vm.Io.{chars, is_end, set_stdin, read_loop, read}
use brain_project.Vm.Printing.{Roomy, Roomy-again}

-- The word begins with END, in letters of any case.
abbrev pub is_stop : Word → Bool
is_stop w = (to_lower w.b0 == b'e') && ((to_lower w.b1 == b'n') && (to_lower w.b2 == b'd'))

-- Words, each behind the spaces `pre`, and then `l`.
unfoldable pub typed : List ℕ → List Word → List ℕ → List ℕ
typed pre [] l = l
typed pre (w ∷ ws) l = pre ++ (chars w ++ typed pre ws l)

-- Words that read_word takes, and that do not end the input.
abbrev pub Readable : List Word → Type 0
Readable [] = Unit {0}
Readable (w ∷ ws) = IsPlain w × (is_stop w ≡ false) × Readable ws

-- The contents of the virtual space with the words from the one numbered `k` behind `g` on.
unfoldable pub stored : (ℕ → Word) → List Word → ℕ → ℕ → ℕ → Word
unfolding set
stored f [] k g = f
stored f (w ∷ ws) k g = stored (set f (g + k) w) ws (suc k) g

stored-same :
    (f f' : ℕ → Word) (ws : List Word) (k g : ℕ)
    → ((u : ℕ) → u < vaddr_size → f' u ≡ f u)
    → (u : ℕ) → u < vaddr_size
    → stored f' ws k g u ≡ stored f ws k g u
unfolding stored set
stored-same f f' [] k g same = same
stored-same f f' (w ∷ ws) k g same =
    stored-same (set f (g + k) w) (set f' (g + k) w) ws (suc k) g
      λ u h. ap (λ (x : Word). if g + k == u then w else x) (same u h)

module _ {T : Type 0} (tree : RbTree T) (i : ℕ) where
  -- The machine with more to read.
  abbrev pub typing : Machine (Os T) → List ℕ → Machine (Os T)
  typing m l = record m { sched = record m.sched { stdin = record { rest = l; eof = false } } }

  -- A round behind read_word.
  abbrev behind : ℕ → ℕ → ℤ → (ℕ → ℕ) → Stream → Bool → Run (Machine (Os T)) ℤ
  behind n k addr buf s stop =
      set_stdin tree s
      >> (if stop
          then pure minus_one
          else if s.eof
          then pure minus_one
          else (wordref (cfs tree) i (add_ℕ addr k) >>= λ o. or_fail o λ a.
              on_memory (write_ref a (buf_word buf))
              >> (release (cfs tree) i (add_ℕ addr k) >> read_loop tree n (suc k) buf i addr)))

  store_lem :
      (n k : ℕ) (addr : ℤ) (buf : ℕ → ℕ) (l : List ℕ) (m : Machine (Os T)) (g : ℕ)
      → get_global_address (m.proc_table i) (add_ℕ addr k) ≡ pos g
      → Accessible m.memory.pager g
      → (q : Pager) × (behind n k addr buf (record { rest = l; eof = false }) false m
          ≡ read_loop tree n (suc k) buf i addr (typing (paged m q) l))
        × Settled m.memory.pager q g
        × ((u : ℕ)
            → u < vaddr_size
            → view q u ≡ (if g == u then buf_word buf else view m.memory.pager u))
  unfolding wordref release write_ref on_memory or_fail
  store_lem n k addr buf l m g e v =
      let p = m.proc_table i in
      let addr' = add_ℕ addr k in
      let x = buf_word buf in
      let (a, t, run, touched) = get_wordref_lem ((cfs tree).ops m.sched) p addr' m.memory g e v in
      let written = with_pager m.memory (write_word t a x) in
      let (q, run', r) =
        release_wordref_lem ((cfs tree).ops m.sched) p addr' written g e (written-Inv touched x)
          v.in_space in
      let m0 = typing m l in
      let m1 = typing (paged m (write_word t a x)) l in
      (
        q,
        bind_some (wordref (cfs tree) i addr') _ m0
              (on_memory-some m0 (get_wordref ((cfs tree).ops m.sched) p addr') run)
            ∙ bind_some (release (cfs tree) i addr') _ m1
                (on_memory-some m1 (release_wordref p addr') run'),
        settle touched (set t.mem a x) r,
        λ u h. r.same_view u ∙ written-view touched x v.in_space u h,
      )

  read_step :
      (n k : ℕ) (addr : ℤ) (buf : ℕ → ℕ) (w : Word) (pre l : List ℕ) (m : Machine (Os T)) (g : ℕ)
      → get_global_address (m.proc_table i) (add_ℕ addr k) ≡ pos g
      → Accessible m.memory.pager g
      → Spaces pre
      → IsPlain w
      → is_stop w ≡ false
      → (buf' : ℕ → ℕ) × (q : Pager) × (read_loop tree
            (suc n)
            k
            buf
            i
            addr
            (typing m (pre ++ (chars w ++ l)))
          ≡ read_loop tree n (suc k) buf' i addr (typing (paged m q) l))
        × Settled m.memory.pager q g
        × ((u : ℕ) → u < vaddr_size → view q u ≡ (if g == u then w else view m.memory.pager u))
  unfolding read_loop
  read_step n k addr buf w pre l m g e v blank plain goes =
      let s : Stream = record { rest = pre ++ (chars w ++ l); eof = false } in
      let (same, left) = read_word-chars w buf pre l false blank plain in
      let buf' = (read_word buf s).0 in
      let on : is_end buf' ≡ false = ap is_stop same ∙ goes in
      let (q, run, t, view') = store_lem n k addr buf' l m g e v in
      (
        buf',
        q,
        ap
              (λ (b : Bool).
                behind n k addr buf' (read_word buf s).1 b (typing m (pre ++ (chars w ++ l))))
              on
            ∙ ap (λ (z : Stream). behind n k addr buf' z false (typing m (pre ++ (chars w ++ l))))
                left
            ∙ run,
        t,
        λ u h. view' u h ∙ ap (λ (x : Word). if g == u then x else view m.memory.pager u) same,
      )

  -- What a number of rounds of read leave behind.
  pub record Filled (m : Machine (Os T)) (in_use : List ℕ) (ws : List Word) (k g : ℕ) (l : List ℕ)
      (r : Option (ℤ × Machine (Os T))) : Type 0 where
    pub pager : Pager
    pub run : r ≡ some (pos 0, typing (paged m pager) l)
    pub roomy : Roomy pager in_use
    pub contents : (u : ℕ) → u < vaddr_size → view pager u ≡ stored (view m.memory.pager) ws k g u

  module _ (addr : ℤ) (in_use : List ℕ) (g : ℕ) (pre l : List ℕ) (blank : Spaces pre) where
    read_loop_lem :
        (ws : List Word) (k : ℕ) (buf : ℕ → ℕ) (m : Machine (Os T))
        → ((j : ℕ)
            → j < k + count ws
            → get_global_address (m.proc_table i) (add_ℕ addr j) ≡ pos (g + j))
        → g + (k + count ws) ≤ vaddr_size
        → Roomy m.memory.pager in_use
        → Readable ws
        → Filled m in_use ws k g l
            (read_loop tree (count ws) k buf i addr (typing m (typed pre ws l)))
    unfolding read_loop typed stored set
    read_loop_lem [] k buf m region h v good = record {
      pager = m.memory.pager;
      run = refl;
      roomy = v;
      contents = λ u w. refl;
    }
    read_loop_lem (w ∷ ws) k buf m region h v (plain, goes, good) =
        let here =
          Accessible-of-Spare (g + k) v.inv (omega arith) v.spare
            (v.fits ((g + k) / m.memory.pager.pg_size) (page-lt v.inv (g + k) (omega arith))) in
        let (buf', q, run, t, changed) =
          read_step (count ws) k addr buf w pre (typed pre ws l) m (g + k) (region k (omega arith))
            here blank plain goes in
        let x =
          read_loop_lem ws (suc k) buf' (paged m q) (λ j b. region j (omega arith)) (omega arith)
            (Roomy-again v t) good in
        record {
          pager = x.pager;
          run = run ∙ x.run;
          roomy = x.roomy;
          contents = λ u b.
              x.contents u b
              ∙ stored-same (set (view m.memory.pager) (g + k) w) (view q) ws (suc k) g changed u b;
        }

    -- read of ten words that stand at the input, each behind the same spaces, to ten addresses of the
    -- process, from `g` of the virtual space on, where any word of it can be accessed, returns 0. It
    -- stores those words in their order, changes no other word of the virtual space, and leaves the
    -- input behind them; any word of the virtual space can be accessed again. The words have no space
    -- and no NUL, and do not begin with END.
    pub read_lem :
        (ws : List Word) (m : Machine (Os T))
        → count ws ≡ 10
        → ((j : ℕ) → j < 10 → get_global_address (m.proc_table i) (add_ℕ addr j) ≡ pos (g + j))
        → g + 10 ≤ vaddr_size
        → Roomy m.memory.pager in_use
        → Readable ws
        → Filled m in_use ws 0 g l (read tree i addr (typing m (typed pre ws l)))
    unfolding read
    read_lem ws m ten region h v good =
        subst
          (λ n.
            Filled m in_use ws 0 g l
              (read_loop tree n 0 m.sched.buffer i addr (typing m (typed pre ws l))))
          ten
          (read_loop_lem ws 0 m.sched.buffer m (λ j b. region j (omega (arith, ten, b)))
            (omega (arith, ten, h)) v good)
