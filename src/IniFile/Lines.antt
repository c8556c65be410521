-- ===== src/IniFile/Lines.antt =====
-- The lines that save_config writes, read by parse_config (libspider/IniFile.cpp).
use crowdspider.Base.{
  ℕ, ◌+◌, ◌<◌, ◌≡◌, refl, sym, ap, ◌∙◌, false, none, [], ◌∷◌, ◌++◌, arith, ltb, ◌==◌, length, All,
  length-append, All-append, Bytes, c_str,
}
use crowdspider.IniFile.Parse.{
  is_blank, trim_blank, parse_sect, Parsed, put_pair, parse_trimmed, parse_line, parse_lines,
}
use crowdspider.IniFile.Words.{
  WordChar, Free, between-Free, find_nowhere, IsWord, word_all, not_that, c_str_plain,
  parse_pair-words,
}
use crowdspider.IniFile.{map_put, map_key, key_line}
use mathlib.Core.List.{append_assoc, append-nil}

-- A property of the characters of both words and of the sign between them.
line_all :
    (Q : ℕ → Type 0) (key val : Bytes)
    → ((c : ℕ) → WordChar c → Q c)
    → Q b'='
    → All WordChar key
    → All WordChar val
    → All Q (key ++ (b'=' ∷ val))
line_all Q key val f q h k =
    All-append Q key (b'=' ∷ val) (word_all Q f key h) (q, word_all Q f val k)

pub trim_blank-line :
    (c : ℕ) (s : Bytes)
    → All (λ x. 0 < x) (c ∷ s)
    → All (Free is_blank) (c ∷ s)
    → trim_blank (c_str (c ∷ s)) ≡ c ∷ s
trim_blank-line c s h k =
    ap (λ (t : Bytes). trim_blank t) (c_str_plain (c ∷ s) h)
    ∙ rw (trim_blank, between-Free is_blank c s k) refl

parse_sect_nowhere : (s : Bytes) → All (λ x. (b'[' == x) ≡ false) s → parse_sect s ≡ none
unfolding parse_sect
parse_sect_nowhere s h = rw (find_nowhere b'[' [] s h) refl

parse_trimmed-words :
    (c d : ℕ) (key val : Bytes) (p : Parsed)
    → All WordChar (c ∷ key)
    → All WordChar (d ∷ val)
    → 0 < length p.sect
    → parse_trimmed ((c ∷ key) ++ (b'=' ∷ d ∷ val)) p
      ≡ record p { config = map_put (map_key p.sect (c ∷ key)) (d ∷ val) p.config }
unfolding parse_trimmed put_pair
parse_trimmed-words c d key val p h k n =
    let z : (length p.sect == 0) ≡ false = ground arith in
    let bracket =
      line_all (λ x. (b'[' == x) ≡ false) (c ∷ key) (d ∷ val) (λ x w. not_that b'[' x w.not_bracket)
        refl h k in
    rw
      (
        parse_trimmed,
        parse_sect_nowhere ((c ∷ key) ++ (b'=' ∷ d ∷ val)) bracket,
        z,
        parse_pair-words c d key val h k,
        put_pair,
      )
      refl

parse_line-words :
    (c d : ℕ) (key val : Bytes) (p : Parsed)
    → All WordChar (c ∷ key)
    → All WordChar (d ∷ val)
    → 0 < length p.sect
    → parse_line ((c ∷ key) ++ (b'=' ∷ d ∷ val)) p
      ≡ record p { config = map_put (map_key p.sect (c ∷ key)) (d ∷ val) p.config }
unfolding parse_line
parse_line-words c d key val p h k n =
    let free = line_all (Free is_blank) (c ∷ key) (d ∷ val) (λ x w. w.not_blank) refl h k in
    let chars = line_all (λ x. 0 < x) (c ∷ key) (d ∷ val) (λ x w. w.not_nul) (omega arith) h k in
    ap (λ (s : Bytes). parse_trimmed s p) (trim_blank-line c (key ++ (b'=' ∷ d ∷ val)) chars free)
    ∙ parse_trimmed-words c d key val p h k n

-- The characters of a line are gathered as far as the newline.
pub parse_lines-line :
    (line s rest : Bytes) (p : Parsed)
    → All (λ x. (x == 10) ≡ false) s
    → length line + length s < 1024
    → parse_lines line (s ++ (10 ∷ rest)) p ≡ parse_lines [] rest (parse_line (line ++ s) p)
unfolding parse_lines
parse_lines-line line [] rest p h l =
    ap (λ (t : Bytes). parse_lines [] rest (parse_line t p)) (sym (append-nil line))
parse_lines-line line (c ∷ s) rest p h l =
    let n : ltb 1022 (length line) ≡ false = ground arith in
    rw (h.0, n)
      (parse_lines-line (line ++ (c ∷ [])) s rest p h.1
          (omega (arith, length-append {0} line (c ∷ [])))
        ∙ ap (λ (t : Bytes). parse_lines [] rest (parse_line t p)) (append_assoc line (c ∷ []) s))

pub not_newline : (c : ℕ) → is_blank c ≡ false → (c == 10) ≡ false
not_newline c h = ground arith

-- A line that save_config writes for a key and a value, and that is shorter than 1025 bytes with its newline, is read back
-- in the same section as that key and value, before what follows, if both are words: not empty, and
-- without NULs, blanks, opening brackets and equals signs.
pub parse_lines-key_line :
    (key val rest : Bytes) (p : Parsed)
    → IsWord key
    → IsWord val
    → length key + length val < 1023
    → 0 < length p.sect
    → parse_lines [] (key_line key val ++ rest) p
      ≡ parse_lines [] rest (record p { config = map_put (map_key p.sect key) val p.config })
parse_lines-key_line [] val rest p h k l n = absurd (omega (arith, h.0))
parse_lines-key_line (c ∷ key) [] rest p h k l n = absurd (omega (arith, k.0))
parse_lines-key_line (c ∷ key) (d ∷ val) rest p h k l n =
    let line = (c ∷ key) ++ (b'=' ∷ d ∷ val) in
    let e : key_line (c ∷ key) (d ∷ val) ++ rest ≡ line ++ (10 ∷ rest) =
      append_assoc (c ∷ key) (b'=' ∷ ((d ∷ val) ++ (10 ∷ []))) rest
      ∙ ap (λ (t : Bytes). (c ∷ key) ++ (b'=' ∷ t)) (append_assoc (d ∷ val) (10 ∷ []) rest)
      ∙ sym (append_assoc (c ∷ key) (b'=' ∷ d ∷ val) (10 ∷ rest)) in
    let chars =
      line_all (λ x. (x == 10) ≡ false) (c ∷ key) (d ∷ val) (λ x w. not_newline x w.not_blank) refl
        h.1 k.1 in
    ap (λ (t : Bytes). parse_lines [] t p) e
    ∙ parse_lines-line [] line rest p chars
        (omega (arith, length-append {0} (c ∷ key) (b'=' ∷ d ∷ val)))
    ∙ ap (λ (q : Parsed). parse_lines [] rest q) (parse_line-words c d key val p h.1 k.1 n)
