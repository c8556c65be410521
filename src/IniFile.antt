-- ===== src/IniFile.antt =====
-- IniFile (libspider/IniFile.cpp): a configuration of sections and keys, and its file.
use crowdspider.Base.{
  ◌+◌, Bool, true, false, not, ◌&&◌, ◌||◌, Option, none, some, List, [], ◌∷◌, ◌++◌, ltb, ◌==◌,
  if◌then◌else◌, length, take, drop, Bytes, codes, bytes_eq,
}
use crowdspider.Base.Find.{find}
pub mod Parse
pub mod Lookup
pub mod Words
pub mod Lines
pub mod RoundTrip

-- A std::map: its entries in the order of their keys.
pub record Entry : Type 0 where
  pub key : Bytes
  pub val : Bytes

-- `operator<` of std::string: whether a text stands before another one
unfoldable pub precedes : Bytes → Bytes → Bool
precedes [] [] = false
precedes [] (y ∷ t) = true
precedes (x ∷ s) [] = false
precedes (x ∷ s) (y ∷ t) = let rest = precedes s t in if x == y then rest else ltb x y

unfoldable pub map_find : Bytes → List Entry → Option Bytes
map_find k [] = none
map_find k (e ∷ es) = let rest = map_find k es in if bytes_eq k e.key then some e.val else rest

-- `m[k] = v`
unfoldable pub map_put : Bytes → Bytes → List Entry → List Entry
map_put k v [] = record { key = k; val = v } ∷ []
map_put k v (e ∷ es) =
    let rest = map_put k v es in
    if bytes_eq k e.key
    then record { key = k; val = v } ∷ es
    else if precedes k e.key
    then record { key = k; val = v } ∷ e ∷ es
    else e ∷ rest

unfoldable pub map_erase : Bytes → List Entry → List Entry
map_erase k [] = []
map_erase k (e ∷ es) = let rest = map_erase k es in if bytes_eq k e.key then es else e ∷ rest

pub record IniFile : Type 0 where
  pub filename : Bytes
  pub config : List Entry

abbrev pub middle : Bytes
middle = codes "_____***_______"

abbrev pub map_key : Bytes → Bytes → Bytes
map_key sect key = sect ++ (middle ++ key)

abbrev pub valid : IniFile → Bool
valid f = not (length f.filename == 0)

-- Whether a key is looked up at all
abbrev pub usable : IniFile → Bytes → Bool
usable f key = valid f && not (length key == 0)

-- A value that is not empty
abbrev pub full_text : Option Bytes → Bytes
full_text x = elim x [ none ↦ [] | some v ↦ v ]

-- read with a string to fill: what it returns, and the string, where it is written to.
unfoldable pub read : IniFile → Bytes → Bytes → Bool × Option Bytes
read f sect key =
    let v = full_text (map_find (map_key sect key) f.config) in
    if usable f key then (not (length v == 0), some v) else (false, none)

-- read that returns a string; without a file name or a key it makes one of the null pointer (`none`).
unfoldable pub read_text : IniFile → Bytes → Bytes → Option Bytes
read_text f sect key =
    if usable f key then some (full_text (map_find (map_key sect key) f.config)) else none

-- read of a truth value
abbrev pub bool_of : Bytes → Option Bool
bool_of v =
    if bytes_eq v (codes "true")
      || bytes_eq v (codes "TRUE")
      || bytes_eq v (codes "True")
      || bytes_eq v (codes "1")
    then some true
    else if bytes_eq v (codes "false")
        || bytes_eq v (codes "FALSE")
        || bytes_eq v (codes "False")
        || bytes_eq v (codes "0")
    then some false
    else none

-- What it returns, and the value, where it is written to
unfoldable pub read_bool : IniFile → Bytes → Bytes → Bool × Option Bool
read_bool f sect key =
    let v = full_text (map_find (map_key sect key) f.config) in
    let got : Bool × Option Bool = elim (bool_of v) [
      | none ↦ (false, some false)
      | some b ↦ (true, some b)
    ] in
    if usable f key then got else (false, none)

unfoldable pub write : IniFile → Bytes → Bytes → Bytes → Bool × IniFile
write f sect key v =
    if usable f key
    then (true, record f { config = map_put (map_key sect key) v f.config })
    else (false, f)

unfoldable pub write_bool : IniFile → Bytes → Bytes → Bool → Bool × IniFile
write_bool f sect key b = write f sect key (if b then codes "true" else codes "false")

abbrev pub found_val : Option Bytes → Bool
found_val x = elim x [ none ↦ false | some v ↦ true ]

-- erase, which does not look whether the key is empty
unfoldable pub erase : IniFile → Bytes → Bytes → Bool × IniFile
erase f sect key =
    let k = map_key sect key in
    if valid f && found_val (map_find k f.config)
    then (true, record f { config = map_erase k f.config })
    else (false, f)

abbrev pub key_line : Bytes → Bytes → Bytes
key_line key val = key ++ (b'=' ∷ (val ++ (10 ∷ [])))

abbrev pub sect_line : Bytes → Bytes
sect_line sect = b'[' ∷ (sect ++ (b']' ∷ 10 ∷ []))

-- A text is among others.
unfoldable pub is_among : Bytes → List Bytes → Bool
is_among s [] = false
is_among s (t ∷ ts) = bytes_eq s t || is_among s ts

-- The lines of one entry, with the sections written before; none for a key without the middle.
unfoldable pub entry_lines : Entry → List Bytes → Bytes × List Bytes
entry_lines e sects = elim (find middle e.key) [
  | none ↦ ([], sects)
  | some loc ↦
      let sect = take loc e.key in
      let line = key_line (drop (loc + 15) e.key) e.val in
      if is_among sect sects
      then (line, sects)
      else if length sects == 0
      then (sect_line sect ++ line, sect ∷ sects)
      else (10 ∷ (sect_line sect ++ line), sect ∷ sects)
]

unfoldable pub save_entries : List Entry → List Bytes → Bytes
save_entries [] sects = []
save_entries (e ∷ es) sects = let x = entry_lines e sects in x.0 ++ save_entries es x.1

-- save_config: what the file holds afterwards
unfoldable pub save_config : IniFile → Bytes
save_config f = save_entries f.config []
