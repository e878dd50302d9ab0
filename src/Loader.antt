-- ===== src/Loader.antt =====
-- The loader (loader.c): words from the standard input, and programs from files. The streams are
-- values that the functions take and return. A loop that reads a stream that has ended without what it
-- looks for never ends: that is `none`, as a fault is.
pub mod Words
pub mod Code
pub mod Fuel
pub mod Start
pub mod Procs
mod Tests
use brain_project.Prelude.{
  ℕ, zero, suc, ◌+◌, ◌-◌, Bool, true, false, not, ◌&&◌, ltb, ◌==◌, if◌then◌else◌, ℤ, pos, minus_one,
  to_signed, add_u32, sub_u32, uint_mod, Option, none, some, List, [], ◌∷◌, Run, set,
}
use brain_project.Stdio.{
  Stream, is_space, scan_string, scan_number, put_string, strlen, strncmp_eq, buf_word, length,
}
use brain_project.Mem.{page_store}
use brain_project.Vm.Machine.{Machine, on_memory}

-- The loop that pulls the remaining characters into the buffer. The end of the file is stored as the
-- character 255.
unfoldable pub recover : List ℕ → Bool → ℕ → (ℕ → ℕ) → (ℕ → ℕ) × Stream
recover [] eof len buf = (set buf len 255, record { rest = []; eof = true })
recover (c ∷ l) eof len buf =
    let len' = if is_space c then len else suc len in
    let buf' = if is_space c then buf else set buf len c in
    let rest = recover l eof len' buf' in
    if ltb len' 4 && not eof then rest else (buf', record { rest = l; eof = eof })

-- read_word behind its scanf. A failed scanf leaves the buffer as it is.
unfoldable pub read_rest : (ℕ → ℕ) → Option (List ℕ) × Stream → (ℕ → ℕ) × Stream
unfolding recover put_string strlen
read_rest buf (none, s) = recover s.rest s.eof 0 buf
read_rest buf (some str, s) =
    let buf' = put_string 0 str buf in
    if ltb (strlen str) 4 then recover s.rest s.eof (strlen str) buf' else (buf', s)

unfoldable pub read_word : (ℕ → ℕ) → Stream → (ℕ → ℕ) × Stream
unfolding read_rest scan_string
read_word buf s = read_rest buf (scan_string 4 s)

-- A number above 2 ^ 32 - 1 has no defined result in scanf.
unfoldable pub load_header : Run Stream ℤ
unfolding scan_number
load_header s = elim (scan_number s).0.0 [
  | none ↦ some (minus_one, (scan_number s).1)
  | some n ↦
      if ltb n uint_mod
      then some (to_signed (if (scan_number s).0.1 then sub_u32 0 n else n), (scan_number s).1)
      else none
]

abbrev pub brain10 : List ℕ
brain10 = b'B' ∷ b'R' ∷ b'A' ∷ b'I' ∷ b'N' ∷ b'1' ∷ b'0' ∷ []

abbrev pub data_mark : List ℕ
data_mark = b'D' ∷ b'A' ∷ b'T' ∷ b'A' ∷ []

-- while (fgetc(fh) != '\n');
unfoldable pub skip_line : List ℕ → Option (List ℕ)
skip_line [] = none
skip_line (c ∷ l) = let rest = skip_line l in if c == 10 then some l else rest

abbrev pub behind_line : List ℕ → Stream → Option (List ℕ) → Option (Option (List ℕ) × Stream)
behind_line str s none = none
behind_line str s (some l) = some (some str, record s { rest = l })

-- A string, and the rest of its line: none of the value where no string is read.
unfoldable pub end_line : Option (List ℕ) × Stream → Option (Option (List ℕ) × Stream)
unfolding skip_line
end_line (none, s) = some (none, s)
end_line (some str, s) = behind_line str s (skip_line s.rest)

unfoldable pub read_line : Stream → Option (Option (List ℕ) × Stream)
unfolding scan_string end_line
read_line s = end_line (scan_string 7 s)

module _ {S : Type 0} where
  -- The loop of load_code on fuel, with the buffer, the address and the stream.
  unfoldable pub load_loop : ℕ → ℕ → (ℕ → ℕ) → ℕ → Stream → Run (Machine S) (ℤ × Stream)
  unfolding read_line strncmp_eq put_string on_memory
  load_loop zero i buf addr s m = none
  load_loop (suc k) i buf addr s m = elim (read_line s) [
    | none ↦ none
    | some (none, s') ↦ some ((minus_one, s'), m)
    | some (some str, s') ↦
        if strncmp_eq 7 brain10 str
        then some ((pos 0, s'), m)
        else if strncmp_eq 4 data_mark str
        then some ((pos 1, s'), m)
        else elim (on_memory
            (page_store (m.proc_table i) (buf_word (put_string 0 str buf)) (to_signed addr)) m) [
              | none ↦ none
              | some (pos zero, m') ↦ load_loop k i (put_string 0 str buf) (add_u32 addr 1) s' m'
              | some (_, m') ↦ some ((minus_one, s'), m')
            ]
  ]

  -- Each round reads a character, so the fuel is enough.
  unfoldable pub load_code : (ℕ → ℕ) → ℕ → Stream → Run (Machine S) (ℤ × Stream)
  unfolding load_loop length
  load_code buf i s = load_loop (suc (length s.rest)) i buf 0 s
