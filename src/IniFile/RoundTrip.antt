-- ===== src/IniFile/RoundTrip.antt =====
-- A file with one section, written by save_config and read by load_config (libspider/IniFile.cpp).
use crowdspider.Base.{
  ℕ, suc, ◌+◌, ◌-◌, ◌<◌, ◌≡◌, refl, sym, ap, ◌∙◌, true, false, some, List, [], ◌∷◌, ◌++◌, arith,
  ltb, ◌==◌, ==_refl, length, take, drop, All, length-append, All-append, Bytes, codes, bytes_eq,
  bytes_eq_refl,
}
use crowdspider.Base.Find.{is_prefix, find, find_last}
use crowdspider.IniFile.Lines.{trim_blank-line, parse_lines-line, not_newline, parse_lines-key_line}
use crowdspider.IniFile.Parse.{
  is_blank, parse_sect, Parsed, parse_trimmed, parse_line, parse_lines, load_config,
}
use crowdspider.IniFile.Words.{Free, IsWord, word_all}
use crowdspider.IniFile.{
  Entry, precedes, map_put, middle, map_key, key_line, sect_line, is_among, entry_lines,
  save_entries, save_config,
}
use mathlib.Core.List.{append_assoc, append-nil}

-- A key with its value
pub record Pair : Type 0 where
  pub key : Bytes
  pub val : Bytes

-- A name of a section: a word without underscores
abbrev pub IsSect : Bytes → Type 0
IsSect s = IsWord s × All (λ c. (b'_' == c) ≡ false) s

-- A key and a value that make a line of a file
abbrev pub IsPair : Pair → Type 0
IsPair p = IsWord p.key × IsWord p.val × (length p.key + length p.val < 1023)

abbrev pub entry : Bytes → Pair → Entry
entry sect p = record { key = map_key sect p.key; val = p.val }

abbrev pub entries : Bytes → List Pair → List Entry
entries sect [] = []
entries sect (p ∷ ps) = entry sect p ∷ entries sect ps

-- A key of the map stands behind all those before it.
abbrev Behind : Bytes → List Entry → Type 0
Behind k [] = Unit
Behind k (e ∷ es) = (bytes_eq k e.key ≡ false) × (precedes k e.key ≡ false) × Behind k es

-- The keys of the pairs ascend, as they do in a map, from those of some entries on.
abbrev pub Ascends : Bytes → List Entry → List Pair → Type 0
Ascends sect es [] = Unit
Ascends sect es (p ∷ ps) =
    Behind (map_key sect p.key) es × Ascends sect (es ++ (entry sect p ∷ [])) ps

map_put-Behind :
    (k v : Bytes) (es : List Entry)
    → Behind k es
    → map_put k v es ≡ es ++ (record { key = k; val = v } ∷ [])
unfolding map_put
map_put-Behind k v [] h = refl
map_put-Behind k v (e ∷ es) h = rw (h.0, h.1) (ap (◌∷◌ e) (map_put-Behind k v es h.2))

abbrev lines_of : List Pair → Bytes
lines_of [] = []
lines_of (p ∷ ps) = key_line p.key p.val ++ lines_of ps

-- The lines of the keys are read back in their section.
parse_lines-lines_of :
    (sect : Bytes) (es : List Entry) (ps : List Pair)
    → 0 < length sect
    → All IsPair ps
    → Ascends sect es ps
    → parse_lines [] (lines_of ps) (record { sect = sect; config = es })
      ≡ some (record { sect = sect; config = es ++ entries sect ps })
parse_lines-lines_of sect es [] n h a = rw (append-nil es) (unfold parse_lines in refl)
parse_lines-lines_of sect es (p ∷ ps) n h a =
    parse_lines-key_line p.key p.val (lines_of ps) (record { sect = sect; config = es }) h.0.0 h.0.1
      h.0.2 n
    ∙ ap (λ (x : List Entry). parse_lines [] (lines_of ps) (record { sect = sect; config = x }))
        (map_put-Behind (map_key sect p.key) p.val es a.0)
    ∙ parse_lines-lines_of sect (es ++ (entry sect p ∷ [])) ps n h.1 a.1
    ∙ ap (λ (x : List Entry). some (record { sect = sect; config = x }))
        (append_assoc es (entry sect p ∷ []) (entries sect ps))

prefix_self : (s t : Bytes) → is_prefix s (s ++ t) ≡ true
unfolding is_prefix
prefix_self [] t = refl
prefix_self (c ∷ s) t = rw (==_refl c, prefix_self s t) refl

find_first_sign :
    (c : ℕ) (pat s t : Bytes)
    → All (λ x. (c == x) ≡ false) s
    → find (c ∷ pat) (s ++ ((c ∷ pat) ++ t)) ≡ some (length s)
unfolding find is_prefix
find_first_sign c pat [] t h = rw (==_refl c, prefix_self pat t) refl
find_first_sign c pat (x ∷ s) t h = rw (h.0, find_first_sign c pat s t h.1) refl

find-middle :
    (sect key : Bytes)
    → All (λ x. (b'_' == x) ≡ false) sect
    → find middle (map_key sect key) ≡ some (length sect)
find-middle sect key h = find_first_sign b'_' (codes "____***_______") sect key h

take_sect : (sect t : Bytes) → take (length sect) (sect ++ t) ≡ sect
take_sect [] t = refl
take_sect (c ∷ s) t = ap (◌∷◌ c) (take_sect s t)

drop_key : (sect key : Bytes) → drop (length sect + 15) (map_key sect key) ≡ key
drop_key [] key = refl
drop_key (c ∷ s) key =
    let e : suc (length s) + 15 ≡ suc (length s + 15) = omega arith in rw e (drop_key s key)

entry_lines_later :
    (sect : Bytes) (p : Pair)
    → IsSect sect
    → entry_lines (entry sect p) (sect ∷ []) ≡ (key_line p.key p.val, sect ∷ [])
unfolding entry_lines is_among
entry_lines_later sect p h =
    rw
      (
        entry_lines,
        find-middle sect p.key h.1,
        take_sect sect (middle ++ p.key),
        drop_key sect p.key,
        bytes_eq_refl sect,
      )
      refl

save_entries-lines_of :
    (sect : Bytes) (ps : List Pair)
    → IsSect sect
    → save_entries (entries sect ps) (sect ∷ []) ≡ lines_of ps
unfolding save_entries
save_entries-lines_of sect [] h = refl
save_entries-lines_of sect (p ∷ ps) h =
    rw (entry_lines_later sect p h, save_entries-lines_of sect ps h) refl

entry_lines_first :
    (sect : Bytes) (p : Pair)
    → IsSect sect
    → entry_lines (entry sect p) [] ≡ (sect_line sect ++ key_line p.key p.val, sect ∷ [])
unfolding entry_lines is_among
entry_lines_first sect p h =
    rw
      (
        entry_lines,
        find-middle sect p.key h.1,
        take_sect sect (middle ++ p.key),
        drop_key sect p.key,
      )
      refl

find_last_end : (c : ℕ) (s : Bytes) → find_last c (s ++ (c ∷ [])) ≡ some (length s)
unfolding find_last
find_last_end c [] = rw (==_refl c) refl
find_last_end c (x ∷ s) = rw (find_last_end c s) refl

abbrev bracketed : Bytes → Bytes
bracketed sect = b'[' ∷ (sect ++ (b']' ∷ []))

parse_sect-bracketed : (sect : Bytes) → parse_sect (bracketed sect) ≡ some sect
unfolding parse_sect find is_prefix
parse_sect-bracketed sect =
    let a : (0 == suc (length sect) + 1) ≡ false = ground arith in
    let b : ltb (suc (length sect)) 0 ≡ false = ground arith in
    let c : suc (length sect) - 0 - 1 ≡ length sect = omega arith in
    rw (find_last_end b']' (b'[' ∷ sect), a, b, c, take_sect sect (b']' ∷ [])) refl

parse_line-bracketed :
    (sect : Bytes)
    → IsWord sect
    → parse_line (bracketed sect) (record { sect = []; config = [] })
      ≡ record { sect = sect; config = [] }
unfolding parse_line parse_trimmed
parse_line-bracketed sect h =
    let chars : All (λ x. 0 < x) (bracketed sect) = (
      omega arith,
      All-append (λ x. 0 < x) sect (b']' ∷ []) (word_all (λ x. 0 < x) (λ x w. w.not_nul) sect h.1)
          (omega arith, tt),
    ) in
    let free : All (Free is_blank) (bracketed sect) = (
      refl,
      All-append (Free is_blank) sect (b']' ∷ [])
          (word_all (Free is_blank) (λ x w. w.not_blank) sect h.1) (refl, tt),
    ) in
    ap (λ (s : Bytes). parse_trimmed s (record { sect = []; config = [] }))
      (trim_blank-line b'[' (sect ++ (b']' ∷ [])) chars free)
    ∙ rw (parse_trimmed, parse_sect-bracketed sect) refl

saved_text :
    (filename sect : Bytes) (p : Pair) (ps : List Pair)
    → IsSect sect
    → save_config (record { filename = filename; config = entries sect (p ∷ ps) })
      ≡ bracketed sect ++ (10 ∷ lines_of (p ∷ ps))
unfolding save_config save_entries
saved_text filename sect p ps h =
    rw (entry_lines_first sect p h, save_entries-lines_of sect ps h)
      (append_assoc (sect_line sect) (key_line p.key p.val) (lines_of ps)
        ∙ ap (λ (x : Bytes). b'[' ∷ x)
            (append_assoc sect (b']' ∷ 10 ∷ []) (lines_of (p ∷ ps))
              ∙ sym (append_assoc sect (b']' ∷ []) (10 ∷ lines_of (p ∷ ps)))))

-- A configuration of one section, whose name is a word without underscores, whose keys and values are
-- words, and whose lines have fewer than 1024 bytes without their newlines, is loaded from the file that
-- save_config writes as it was, where its keys ascend as they do in a map.
pub load_config-save_config :
    (filename sect : Bytes) (p : Pair) (ps : List Pair)
    → IsSect sect
    → length sect < 1022
    → All IsPair (p ∷ ps)
    → Ascends sect [] (p ∷ ps)
    → load_config (save_config (record { filename = filename; config = entries sect (p ∷ ps) }))
      ≡ some (entries sect (p ∷ ps))
unfolding load_config
load_config-save_config filename sect p ps h l v a =
    let start : Parsed = record { sect = []; config = [] } in
    let newline : All (λ x. (x == 10) ≡ false) (bracketed sect) = (
      refl,
      All-append (λ x. (x == 10) ≡ false) sect (b']' ∷ [])
          (word_all (λ x. (x == 10) ≡ false) (λ x w. not_newline x w.not_blank) sect h.0.1)
          (refl, tt),
    ) in
    let read : parse_lines [] (bracketed sect ++ (10 ∷ lines_of (p ∷ ps))) start
        ≡ some (record { sect = sect; config = entries sect (p ∷ ps) }) =
      parse_lines-line [] (bracketed sect) (lines_of (p ∷ ps)) start newline
        (omega (arith, l, length-append {0} sect (b']' ∷ [])))
      ∙ ap (λ (q : Parsed). parse_lines [] (lines_of (p ∷ ps)) q) (parse_line-bracketed sect h.0)
      ∙ parse_lines-lines_of sect [] (p ∷ ps) h.0.0 v a in
    rw (saved_text filename sect p ps h, read) refl
