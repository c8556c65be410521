-- ===== src/IniFile/Parse.antt =====
-- parse_config and load_config (libspider/IniFile.cpp).
use crowdspider.Base.{
  ℕ, suc, ◌+◌, ◌-◌, Bool, ◌||◌, Option, none, some, List, [], ◌∷◌, ◌++◌, ltb, ◌==◌, if◌then◌else◌,
  ◌>>=◌, length, take, drop, Bytes, codes, c_str,
}
use crowdspider.Base.Find.{find, find_last}
use crowdspider.IniFile.{Entry, map_put, map_key}

unfoldable pub first_not : (ℕ → Bool) → Bytes → Option ℕ
first_not p [] = none
first_not p (c ∷ s) = let rest = first_not p s >>= λ i. some (suc i) in if p c then rest else some 0

unfoldable pub last_not : (ℕ → Bool) → Bytes → Option ℕ
last_not p [] = none
last_not p (c ∷ s) = elim (last_not p s) [
  | some i ↦ some (suc i)
  | none ↦ if p c then none else some 0
]

-- " \t\n\v" and " \t"
abbrev pub is_blank : ℕ → Bool
is_blank c = c == b' ' || c == 9 || c == 10 || c == 11

abbrev pub is_space : ℕ → Bool
is_space c = c == b' ' || c == 9

-- The part of a text between the first and the last of its characters that are not blank
unfoldable pub between : (ℕ → Bool) → Bytes → Option Bytes
between p s = first_not p s >>= λ first.
    last_not p s >>= λ last. some (take (last - first + 1) (drop first s))

abbrev pub trim_blank : Bytes → Bytes
trim_blank s = elim (between is_blank s) [ none ↦ [] | some t ↦ t ]

-- `s.find(pat, i)`
abbrev pub find_from : Bytes → Bytes → ℕ → Option ℕ
find_from pat s i = find pat (drop i s) >>= λ k. some (i + k)

abbrev pub or_else : Option ℕ → Option ℕ → Option ℕ
or_else x y = elim x [ some i ↦ some i | none ↦ y ]

-- Where a comment starts, in the order of the tests
unfoldable pub comment_at : Bytes → ℕ → Option ℕ
comment_at s i = or_else (find_from (9 ∷ b'#' ∷ []) s i) (
    or_else (find_from (codes " #") s i)
      (or_else (find_from (9 ∷ codes "//") s i) (find_from (codes " //") s i)))

-- The value of a line: a comment is cut off at `last - first`, and the blanks at the end.
unfoldable pub parse_value : Bytes → Option Bytes
parse_value s = first_not is_space s >>= λ first.
    let cut : Bytes = elim (comment_at s first) [ none ↦ s | some last ↦ take (last - first) s ] in
    last_not is_space cut >>= λ last. some (take (last - first + 1) (drop first cut))

-- `substr(first + 1, last - first - 1)`, where a count below 0 is the rest of the text
abbrev pub sect_of : Bytes → ℕ → ℕ → Bytes
sect_of s first last =
    if ltb last first then drop (first + 1) s else take (last - first - 1) (drop (first + 1) s)

-- The name of the section that a line starts
unfoldable pub parse_sect : Bytes → Option Bytes
parse_sect s = find (codes "[") s >>= λ first.
    find_last b']' s >>= λ last. if first == last + 1 then none else some (sect_of s first last)

-- The key and the value of a line
unfoldable pub parse_pair : Bytes → Option (Bytes × Bytes)
parse_pair s = find (codes "=") s >>= λ at.
    between is_space (take at s) >>= λ key. parse_value (drop (at + 1) s) >>= λ val. some (key, val)

-- The section and the configuration as they are after a line
pub record Parsed : Type 0 where
  pub sect : Bytes
  pub config : List Entry

unfoldable pub put_pair : Parsed → Option (Bytes × Bytes) → Parsed
put_pair p none = p
put_pair p (some (key, val)) = record p { config = map_put (map_key p.sect key) val p.config }

-- A line without its blanks at both ends
unfoldable pub parse_trimmed : Bytes → Parsed → Parsed
parse_trimmed s p = elim (parse_sect s) [
  | some sect ↦ record p { sect = sect }
  | none ↦ if length p.sect == 0 then p else put_pair p (parse_pair s)
]

unfoldable pub parse_line : Bytes → Parsed → Parsed
parse_line line p = parse_trimmed (trim_blank (c_str line)) p

-- The lines that end in a newline, of at most 1023 characters each: what stands behind the last newline
-- is read and not looked at. `none`: the line is too long, and the loop over the file does not end.
unfoldable pub parse_lines : Bytes → Bytes → Parsed → Option Parsed
parse_lines line [] p = some p
parse_lines line (c ∷ s) p =
    let next = parse_lines [] s (parse_line line p) in
    let more = parse_lines (line ++ (c ∷ [])) s p in
    if c == 10 then next else if ltb 1022 (length line) then none else more

-- load_config of a file that can be opened, and parse_config
unfoldable pub load_config : Bytes → Option (List Entry)
load_config file = parse_lines [] file (record { sect = []; config = [] }) >>= λ p. some p.config
