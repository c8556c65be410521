-- ===== src/Base/Text.antt =====
-- Texts as lists of bytes, and the functions of <string.h>, <ctype.h> and std::string that the
-- source calls on them.
use Prim.Native.Char.{code}
use Prim.Native.String.{String}
use Prim.Native.Nat.{ℕ, zero, suc, ◌+◌, ◌-◌, ◌^◌}
use mathlib.Core.Path.{sym, ◌∙◌, ◌≡◌, refl}
use mathlib.Core.Logic.{◌≢◌, ◌↔◌}
use mathlib.Core.Bool.{false≢true, Bool, true, false, ◌&&◌, ◌||◌}
use mathlib.Core.List.{List, [], ◌∷◌, map}
use native.Mathlib.Omega.{arith}
use crowdspider.Base.Tests.{leb, ltb, ◌==◌, if◌then◌else◌}

abbrev pub Bytes : Type 0
Bytes = List ℕ

-- The bytes of an ASCII literal.
abbrev pub codes : String → Bytes
codes String.[] = []
codes (String.◌∷◌ c s) = code c ∷ codes s

-- What `c_str()` shows to a C function: the bytes before the first NUL.
abbrev pub c_str : Bytes → Bytes
c_str [] = []
c_str (zero ∷ s) = []
c_str (suc c ∷ s) = suc c ∷ c_str s

-- operator== of std::string, and `strcmp(...) == 0` on texts with no NUL
unfoldable pub bytes_eq : Bytes → Bytes → Bool
bytes_eq [] [] = true
bytes_eq (x ∷ xs) (y ∷ ys) = x == y && bytes_eq xs ys
bytes_eq _ _ = false

pub bytes_eq_iff : (a b : Bytes) → (bytes_eq a b ≡ true) ↔ (a ≡ b)
unfolding bytes_eq
bytes_eq_iff (x ∷ a) (y ∷ b) = ground (arith, bytes_eq_iff a b)
bytes_eq_iff _ _ = ground arith

pub bytes_eq_refl : (a : Bytes) → bytes_eq a a ≡ true
bytes_eq_refl a = (bytes_eq_iff a a).1 refl

-- `tolower` and `toupper` in the C locale
unfoldable pub to_lower : ℕ → ℕ
to_lower c = if leb b'A' c && leb c b'Z' then c + 32 else c

unfoldable pub to_upper : ℕ → ℕ
to_upper c = if leb b'a' c && leb c b'z' then c - 32 else c

unfoldable pub is_digit : ℕ → Bool
is_digit c = leb b'0' c && leb c b'9'

unfoldable pub is_xdigit : ℕ → Bool
is_xdigit c = leb b'0' c && leb c b'9' || leb b'A' c && leb c b'F' || leb b'a' c && leb c b'f'

-- `strcasecmp(a, b) == 0` on the C strings of two texts
unfoldable pub case_eq : Bytes → Bytes → Bool
case_eq a b = bytes_eq (map to_lower (c_str a)) (map to_lower (c_str b))

-- A `char` is signed: its value as a 32-bit word.
abbrev pub schar : ℕ → ℕ
schar c = if ltb c 128 then c else 2 ^ 32 - 256 + c

pub to_lower_idem : (c : ℕ) → to_lower (to_lower c) ≡ to_lower c
unfolding to_lower
to_lower_idem c = ground arith

pub map-to_lower_idem : (s : Bytes) → map to_lower (map to_lower s) ≡ map to_lower s
map-to_lower_idem [] = refl
map-to_lower_idem (c ∷ s) = cc (to_lower_idem c, map-to_lower_idem s)

pub case_eq_refl : (a : Bytes) → case_eq a a ≡ true
unfolding case_eq
case_eq_refl a = bytes_eq_refl _

-- Equality up to case is an equation of normal forms.
pub case_eq_iff :
    (a b : Bytes) → (case_eq a b ≡ true) ↔ (map to_lower (c_str a) ≡ map to_lower (c_str b))
unfolding case_eq
case_eq_iff a b = bytes_eq_iff _ _

pub ne_of_bytes_eq : (a b : Bytes) → bytes_eq a b ≡ false → a ≢ b
ne_of_bytes_eq a b h e = let t = (bytes_eq_iff a b).1 e in false≢true (sym h ∙ t)
