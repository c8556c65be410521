-- ===== src/Buffer/Text.antt =====
-- TString (libspider/Buffer.cpp). An object is its heap block, the NUL included: strlen and the
-- other functions of <string.h> read it up to its first NUL.
use crowdspider.Base.{
  ℕ, zero, suc, ◌+◌, ◌<◌, ◌≡◌, refl, sym, ap, ◌∙◌, Bool, true, false, Option, none, some, [], ◌∷◌,
  ◌++◌, map, arith, ltb, ◌==◌, if◌then◌else◌, ◌>>=◌, length, get_or, set, take, drop, replicate,
  Bytes, c_str, to_lower, to_upper, case_eq, map-to_lower_idem, case_eq_iff,
}
use crowdspider.Base.Find.{find}

-- TString(void), TString(sz) and the copy constructor; `strcpy` copies as far as the first NUL.
unfoldable pub of_chars : Bytes → Bytes
of_chars sz = c_str sz ++ 0 ∷ []

-- TString(buf, len) and Set; `none` reads behind `buf`.
unfoldable pub of_buffer : Bytes → ℕ → Option Bytes
of_buffer buf n = if ltb (length buf) n then none else some (take n buf ++ 0 ∷ [])

-- TString(c, nrep)
unfoldable pub of_char : ℕ → ℕ → Bytes
of_char c nrep = replicate nrep c ++ 0 ∷ []

unfoldable pub get_length : Bytes → ℕ
get_length m = length (c_str m)

unfoldable pub is_empty : Bytes → Bool
is_empty m = get_or m 0 0 == 0

-- SetAt; `none` writes behind the block.
unfoldable pub set_at : Bytes → ℕ → ℕ → Option Bytes
set_at m n c = if ltb n (length m) then some (set m n c) else none

-- Append: a new block, unless nothing is to be appended.
unfoldable pub append : Bytes → Bytes → Bytes
append m sz = if get_or sz 0 0 == 0 then m else c_str m ++ (c_str sz ++ 0 ∷ [])

-- The loops of ToLower and ToUpper, up to the NUL.
unfoldable pub map_c_str : (ℕ → ℕ) → Bytes → Bytes
map_c_str f [] = []
map_c_str f (zero ∷ m) = zero ∷ m
map_c_str f (suc c ∷ m) = f (suc c) ∷ map_c_str f m

unfoldable pub lower_case : Bytes → Bytes
lower_case m = map_c_str to_lower m

unfoldable pub upper_case : Bytes → Bytes
upper_case m = map_c_str to_upper m

-- Find: `strchr(m_sz + pos, c)`, as an index into the block, for a character other than NUL
unfoldable pub find_from : Bytes → ℕ → ℕ → Option ℕ
find_from m c start = find (c ∷ []) (c_str (drop start m)) >>= λ i. some (start + i)

suc_ne_zero : (c : ℕ) → (suc c == 0) ≡ false
suc_ne_zero c = ground arith

c_str_idem : (m s : Bytes) → c_str (c_str m ++ s) ≡ c_str m ++ c_str s
c_str_idem [] s = refl
c_str_idem (zero ∷ m) s = refl
c_str_idem (suc c ∷ m) s = ap (◌∷◌ (suc c)) (c_str_idem m s)

append_nil : (s : Bytes) → s ++ [] ≡ s
append_nil [] = refl
append_nil (c ∷ s) = ap (◌∷◌ c) (append_nil s)

c_str-append : (m sz : Bytes) → c_str (append m sz) ≡ c_str m ++ c_str sz
unfolding append
c_str-append m [] = sym (append_nil (c_str m))
c_str-append m (zero ∷ sz) = sym (append_nil (c_str m))
c_str-append m (suc c ∷ sz) = rw (suc_ne_zero c) (
    c_str_idem m (c_str (suc c ∷ sz) ++ 0 ∷ [])
    ∙ ap (λ r. c_str m ++ r) (c_str_idem (suc c ∷ sz) (0 ∷ []) ∙ append_nil (c_str (suc c ∷ sz))))

length-++ : (a b : Bytes) → length (a ++ b) ≡ length a + length b
length-++ [] b = omega arith
length-++ (x ∷ a) b = omega (arith, length-++ a b)

-- Append shows both texts one behind the other, and the length is the sum.
pub append_lem :
    (m sz : Bytes)
    → (c_str (append m sz) ≡ c_str m ++ c_str sz)
      × (get_length (append m sz) ≡ get_length m + get_length sz)
unfolding get_length
append_lem m sz = (c_str-append m sz, (rw (c_str-append m sz) (length-++ (c_str m) (c_str sz))))

length-map_c_str : (f : ℕ → ℕ) (m : Bytes) → length (map_c_str f m) ≡ length m
unfolding map_c_str
length-map_c_str f [] = refl
length-map_c_str f (zero ∷ m) = refl
length-map_c_str f (suc c ∷ m) = ap suc (length-map_c_str f m)

c_str_cons : (d : ℕ) (s : Bytes) → 0 < d → c_str (d ∷ s) ≡ d ∷ c_str s
c_str_cons zero s h = absurd (omega arith)
c_str_cons (suc d) s h = refl

to_lower-suc : (c : ℕ) (s : Bytes) → c_str (to_lower (suc c) ∷ s) ≡ to_lower (suc c) ∷ c_str s
to_lower-suc c s = c_str_cons (to_lower (suc c)) s (unfold to_lower in ground arith)

c_str-lower : (m : Bytes) → c_str (map_c_str to_lower m) ≡ map to_lower (c_str m)
unfolding map_c_str
c_str-lower [] = refl
c_str-lower (zero ∷ m) = refl
c_str-lower (suc c ∷ m) =
    to_lower-suc c (map_c_str to_lower m) ∙ ap (◌∷◌ (to_lower (suc c))) (c_str-lower m)

-- Lower-casing keeps the block's length and what stands behind the NUL, and the text compares equal to the old one without case.
pub lower_case_lem :
    (m : Bytes) → (length (lower_case m) ≡ length m) × (case_eq (lower_case m) m ≡ true)
unfolding lower_case
lower_case_lem m = (
  length-map_c_str to_lower m,
  (unfold case_eq in
      (case_eq_iff (map_c_str to_lower m) m).1
        (ap (map to_lower) (c_str-lower m) ∙ map-to_lower_idem (c_str m))),
)
