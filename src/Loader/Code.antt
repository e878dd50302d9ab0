-- ===== src/Loader/Code.antt =====
-- The code of a process, as load_code reads it (loader.c).
use brain_project.Prelude.{
  ℕ, zero, suc, ◌+◌, ◌^◌, ◌<◌, ◌≤◌, ◌≡◌, refl, arith, ap, ◌∙◌, Bool, true, false, ltb, pos,
  to_signed, add_u32, some, List, [], ◌∷◌, ◌++◌, set,
}
use brain_project.Word.{Word, word2int}
use brain_project.Layout.{vaddr_size}
use brain_project.Mem.{page_store}
use brain_project.Mem.Direct.{get_global_address-within, page_store_lem}
use brain_project.Stdio.{strncmp_eq, put_string, buf_word, length}
use brain_project.Stdio.Fields.{Spaces, Plain, scan_string-space}
use brain_project.Loader.{load_loop, load_code, skip_line, read_line, end_line, brain10, data_mark}
use brain_project.Vm.Machine.{Machine, on_memory, on_memory-some}
use brain_project.Vm.Io.{chars}

-- A word of a program: four characters that are no spaces, and not the mark of the data.
pub record IsCode (w : Word) : Type 0 where
  pub plain : Plain (chars w)
  pub not_data : strncmp_eq 4 data_mark (chars w) ≡ false

abbrev pub AllCode : List Word → Type 0
AllCode [] = Unit {0}
AllCode (w ∷ ws) = IsCode w × AllCode ws

-- The words as a program file has them, one in a line, in front of `l`.
unfoldable pub text : List Word → List ℕ → List ℕ
text [] l = l
text (w ∷ ws) l = chars w ++ 10 ∷ text ws l

abbrev pub count : List Word → ℕ
count [] = 0
count (w ∷ ws) = suc (count ws)

-- The words in order from the address `g` on.
unfoldable pub put_words : ℕ → List Word → (ℕ → Word) → ℕ → Word
put_words g [] f = f
put_words g (w ∷ ws) f = put_words (suc g) ws (set f g w)

-- The machine with the words in its secondary storage.
abbrev pub with_words : {S : Type 0} → Machine S → ℕ → List Word → Machine S
with_words m g ws = record m {
  memory = record m.memory {
    pager = record m.memory.pager { page_mem = put_words g ws m.memory.pager.page_mem };
  };
}

no_header : (w : Word) → strncmp_eq 7 brain10 (chars w) ≡ false
unfolding strncmp_eq
no_header w = ground arith

read_line-chars :
    (w : Word) (pre l : List ℕ) (eof : Bool)
    → Spaces pre
    → Plain (chars w)
    → read_line (record { rest = pre ++ (chars w ++ 10 ∷ l); eof = eof })
      ≡ some (some (chars w), record { rest = l; eof = eof })
unfolding read_line end_line skip_line length
read_line-chars w pre l eof h p =
    rw (scan_string-space 7 pre w.b0 (w.b1 ∷ w.b2 ∷ w.b3 ∷ []) 10 l eof (omega arith) h p refl) refl

buffered : (w : Word) (buf : ℕ → ℕ) → buf_word (put_string 0 (chars w) buf) ≡ w
unfolding put_string set
buffered w buf = refl

module _ {S : Type 0} (i base limit : ℕ) (fits : base + limit < vaddr_size) where
  -- The region of the process.
  abbrev pub InTable : Machine S → Type 0
  InTable m = (word2int (m.proc_table i).br ≡ pos base) × (word2int (m.proc_table i).lr ≡ pos limit)

  store_line :
      (m : Machine S) (w : Word) (addr : ℕ)
      → InTable m
      → addr ≤ limit
      → on_memory (page_store (m.proc_table i) w (to_signed addr)) m
        ≡ some (pos 0, with_words m (base + addr) (w ∷ []))
  unfolding put_words
  store_line m w addr (e, f) h =
      let low : ltb addr (2 ^ 31) ≡ true = ground arith in
      rw (low) (
        on_memory-some m (page_store (m.proc_table i) w (pos addr)) (
          page_store_lem (m.proc_table i) w (pos addr) m.memory (base + addr)
            (get_global_address-within (m.proc_table i) base limit addr e f h) (omega arith)))

  -- One line.
  load_line :
      (k addr : ℕ) (w : Word) (pre l : List ℕ) (buf : ℕ → ℕ) (eof : Bool) (m : Machine S)
      → InTable m
      → addr ≤ limit
      → Spaces pre
      → IsCode w
      → load_loop (suc k) i buf addr (record { rest = pre ++ (chars w ++ 10 ∷ l); eof = eof }) m
        ≡ load_loop k i
            (put_string 0 (chars w) buf)
            (suc addr)
            (record { rest = l; eof = eof })
            (with_words m (base + addr) (w ∷ []))
  unfolding load_loop length put_words
  load_line k addr w pre l buf eof m t h sp c =
      let next : add_u32 addr 1 ≡ suc addr = ground arith in
      rw
        (
          load_loop,
          read_line-chars w pre l eof sp c.plain,
          no_header w,
          c.not_data,
          buffered w buf,
          store_line m w addr t h,
          next,
        )
        refl

  last_line :
      (k addr : ℕ) (pre l : List ℕ) (buf : ℕ → ℕ) (eof : Bool) (m : Machine S)
      → Spaces pre
      → load_loop (suc k) i buf addr (record { rest = pre ++ (data_mark ++ 10 ∷ l); eof = eof }) m
        ≡ some ((pos 1, record { rest = l; eof = eof }), m)
  unfolding load_loop read_line end_line skip_line length strncmp_eq
  last_line k addr pre l buf eof m h =
      rw
        (
          load_loop,
          read_line,
          scan_string-space 7 pre b'D' (b'A' ∷ b'T' ∷ b'A' ∷ []) 10 l eof (omega arith) h
              (refl, (refl, (refl, (refl, tt)))) refl,
        )
        refl

  load_lines :
      (ws : List Word) (fuel addr : ℕ) (pre l : List ℕ) (buf : ℕ → ℕ) (eof : Bool) (m : Machine S)
      → count ws < fuel
      → addr + count ws ≤ suc limit
      → InTable m
      → Spaces pre
      → AllCode ws
      → load_loop fuel i buf addr
          (record { rest = pre ++ text ws (data_mark ++ 10 ∷ l); eof = eof })
          m
        ≡ some ((pos 1, record { rest = l; eof = eof }), with_words m (base + addr) ws)
  unfolding text put_words
  load_lines ws zero addr pre l buf eof m f h t sp c = absurd (omega arith)
  load_lines [] (suc k) addr pre l buf eof m f h t sp c = last_line k addr pre l buf eof m sp
  load_lines (w ∷ ws) (suc k) addr pre l buf eof m f h t sp (c, cs) =
      load_line k addr w pre (text ws (data_mark ++ 10 ∷ l)) buf eof m t (omega arith) sp c
      ∙ load_lines ws k (suc addr) [] l (put_string 0 (chars w) buf) eof
          (with_words m (base + addr) (w ∷ [])) (omega arith) (omega arith) t tt cs
      ∙ ap
          (λ (g : ℕ). some (
            (pos 1, record { rest = l; eof = eof }),
            with_words (with_words m (base + addr) (w ∷ [])) g ws,
          ))
          next
    where
      next : base + suc addr ≡ suc (base + addr)
      next = omega arith

count-text : (ws : List Word) (l : List ℕ) → count ws ≤ length (text ws l)
unfolding text length
count-text [] l = omega arith
count-text (w ∷ ws) l = omega (arith, count-text ws l)

length-behind : (pre l : List ℕ) → length l ≤ length (pre ++ l)
unfolding length
length-behind [] l = omega arith
length-behind (c ∷ pre) l = omega (arith, length-behind pre l)

-- load_code of a program text, which may follow spaces and ends in a line DATA, into the region of the
-- process: it returns 1, its stream is left behind that line, and the words of the text stand in
-- secondary storage in order from the start of the region on; nothing else has changed. The region
-- lies in the virtual space and has room for the words, and a word is four characters, none of them a
-- space, and not DATA.
pub load_code-text :
    {S : Type 0} (i base limit : ℕ) (m : Machine S) (ws : List Word) (pre l : List ℕ) (buf : ℕ → ℕ)
    (eof : Bool)
    → word2int (m.proc_table i).br ≡ pos base
    → word2int (m.proc_table i).lr ≡ pos limit
    → base + limit < vaddr_size
    → count ws ≤ suc limit
    → Spaces pre
    → AllCode ws
    → load_code buf i (record { rest = pre ++ text ws (data_mark ++ 10 ∷ l); eof = eof }) m
      ≡ some ((pos 1, record { rest = l; eof = eof }), with_words m base ws)
unfolding load_code
load_code-text i base limit m ws pre l buf eof e f fits room sp c =
    let t = text ws (data_mark ++ 10 ∷ l) in
    load_lines i base limit fits ws (suc (length (pre ++ t))) 0 pre l buf eof m
      (omega (arith, count-text ws (data_mark ++ 10 ∷ l), length-behind pre t))
      (omega (arith, room)) (e, f) sp c
    ∙ ap (λ (g : ℕ). some ((pos 1, record { rest = l; eof = eof }), with_words m g ws)) start
  where
    start : base + 0 ≡ base
    start = omega arith
