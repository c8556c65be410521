-- ===== src/Tests/IniFile.antt =====
-- Examples for the theorems about libspider/IniFile.cpp.
use crowdspider.Base.{
  ℕ, ◌<◌, ◌≡◌, refl, true, false, some, [], ◌∷◌, arith, ◌==◌, if◌then◌else◌, codes, bytes_eq,
}
use crowdspider.Base.Find.{is_prefix, find}
use crowdspider.IniFile.{precedes, IniFile, map_key, read, write, save_config}
use crowdspider.IniFile.Lookup.{read-write}
use crowdspider.IniFile.Parse.{first_not, last_not, is_blank, comment_at, parse_value, load_config}
use crowdspider.IniFile.RoundTrip.{Pair, IsSect, entries, Ascends, load_config-save_config}
use crowdspider.IniFile.Words.{WordChar, IsWord}

abbrev conf : IniFile
conf = record { filename = codes "c"; config = [] }

read-write_example :
    read (write conf (codes "proxy") (codes "type") (codes "http")).1 (codes "proxy") (codes "type")
    ≡ (if bytes_eq (map_key (codes "proxy") (codes "type")) (map_key (codes "proxy") (codes "type"))
        then (true, some (codes "http"))
        else read conf (codes "proxy") (codes "type"))
read-write_example =
    read-write conf (codes "proxy") (codes "type") (codes "http") (codes "proxy") (codes "type")
      refl refl

word_char :
    (c : ℕ) → 0 < c → is_blank c ≡ false → (c == b'[') ≡ false → (c == b'=') ≡ false → WordChar c
word_char c a b d e = record { not_nul = a; not_blank = b; not_bracket = d; not_equals = e }

k-IsWord : IsWord (codes "k")
k-IsWord = (omega arith, (word_char 107 (omega arith) refl refl refl, tt))

v-IsWord : IsWord (codes "v")
v-IsWord = (omega arith, (word_char 118 (omega arith) refl refl refl, tt))

s-IsSect : IsSect (codes "s")
s-IsSect = ((omega arith, (word_char 115 (omega arith) refl refl refl, tt)), (refl, tt))

abbrev first_pair : Pair
first_pair = record { key = codes "k"; val = codes "v" }

abbrev second_pair : Pair
second_pair = record { key = codes "v"; val = codes "k" }

pairs_ascend : Ascends (codes "s") [] (first_pair ∷ second_pair ∷ [])
unfolding bytes_eq precedes
pairs_ascend = (tt, ((refl, refl, tt), tt))

load_config-save_config_example :
    load_config (
      save_config (record {
        filename = codes "c";
        config = entries (codes "s") (first_pair ∷ second_pair ∷ []);
      }))
    ≡ some (entries (codes "s") (first_pair ∷ second_pair ∷ []))
load_config-save_config_example =
    load_config-save_config (codes "c") (codes "s") first_pair (second_pair ∷ []) s-IsSect
      (omega arith) ((k-IsWord, v-IsWord, omega arith), ((v-IsWord, k-IsWord, omega arith), tt))
      pairs_ascend

-- A value behind a blank loses a character to its comment.
value_cut : parse_value (codes " abc #x") ≡ some (codes "ab")
unfolding parse_value first_not last_not comment_at find is_prefix
value_cut = refl
