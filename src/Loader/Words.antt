-- ===== src/Loader/Words.antt =====
-- Words that the loader reads (read_word of loader.c).
use brain_project.Prelude.{ℕ, ◌≡◌, ◌≢◌, refl, arith, Bool, List, [], ◌∷◌, ◌++◌, set}
use brain_project.Word.{Word}
use brain_project.Stdio.{put_string, strlen, buf_word, length}
use brain_project.Stdio.Fields.{Spaces, Plain, scan_string-Plain}
use brain_project.Loader.{read_word, read_rest}
use brain_project.Vm.Io.{chars}

-- Four characters that are no spaces, and no NUL.
pub record IsPlain (w : Word) : Type 0 where
  pub plain : Plain (chars w)
  pub no_nul : (w.b0 ≢ 0) × (w.b1 ≢ 0) × (w.b2 ≢ 0) × (w.b3 ≢ 0)

four : (a b c d : ℕ) → a ≢ 0 → b ≢ 0 → c ≢ 0 → d ≢ 0 → strlen (a ∷ b ∷ c ∷ d ∷ []) ≡ 4
unfolding strlen
four a b c d ha hb hc hd = ground arith

-- read_word takes a word behind spaces, as `print` writes it: the buffer has then the word, and the
-- stream is left behind it. The word has no space and no NUL.
pub read_word-chars :
    (w : Word) (buf : ℕ → ℕ) (pre l : List ℕ) (eof : Bool)
    → Spaces pre
    → IsPlain w
    → (buf_word (read_word buf (record { rest = pre ++ (chars w ++ l); eof = eof })).0 ≡ w)
      × ((read_word buf (record { rest = pre ++ (chars w ++ l); eof = eof })).1
          ≡ record { rest = l; eof = eof })
unfolding read_word read_rest put_string set length
read_word-chars w buf pre l eof h p =
    let scanned = scan_string-Plain 4 pre w.b0 (w.b1 ∷ w.b2 ∷ w.b3 ∷ []) l eof refl h p.plain in
    let (n0, n1, n2, n3) = p.no_nul in
    let full = four w.b0 w.b1 w.b2 w.b3 n0 n1 n2 n3 in
    (rw (scanned, full) refl, rw (scanned, full) refl)
