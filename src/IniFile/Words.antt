-- ===== src/IniFile/Words.antt =====
-- Keys and values that the searches of parse_config pass over (libspider/IniFile.cpp).
use crowdspider.Base.{
  ℕ, zero, suc, ◌+◌, ◌-◌, ◌<◌, ◌≡◌, refl, ap, Bool, false, none, some, [], ◌∷◌, ◌++◌, arith, ◌==◌,
  ==_refl, length, take, drop, All, take_all, Bytes, codes, c_str,
}
use crowdspider.Base.Find.{is_prefix, find}
use crowdspider.IniFile.Parse.{
  first_not, last_not, is_blank, is_space, between, comment_at, parse_value, parse_pair,
}

-- A character of a key or a value that no search of parse_config stops at.
pub record WordChar (c : ℕ) : Type 0 where
  pub not_nul : 0 < c
  pub not_blank : is_blank c ≡ false
  pub not_bracket : (c == b'[') ≡ false
  pub not_equals : (c == b'=') ≡ false

abbrev pub Free : (ℕ → Bool) → ℕ → Type 0
Free p c = p c ≡ false

first_not-Free : (p : ℕ → Bool) (c : ℕ) (s : Bytes) → p c ≡ false → first_not p (c ∷ s) ≡ some 0
unfolding first_not
first_not-Free p c s h = rw h refl

last_not-Free :
    (p : ℕ → Bool) (c : ℕ) (s : Bytes) → All (Free p) (c ∷ s) → last_not p (c ∷ s) ≡ some (length s)
unfolding last_not
last_not-Free p c [] h = rw h.0 refl
last_not-Free p c (d ∷ s) h = rw (last_not-Free p d s h.1) refl

take_whole : (s : Bytes) → take (length s) s ≡ s
take_whole s = take_all (length s) s (omega arith)

pub between-Free :
    (p : ℕ → Bool) (c : ℕ) (s : Bytes) → All (Free p) (c ∷ s) → between p (c ∷ s) ≡ some (c ∷ s)
unfolding between
between-Free p c s h =
    let n : length s - 0 + 1 ≡ suc (length s) = omega arith in
    rw (first_not-Free p c s h.0, last_not-Free p c s h, n, take_whole s) refl

pub find_nowhere : (c : ℕ) (pat s : Bytes) → All (λ x. (c == x) ≡ false) s → find (c ∷ pat) s ≡ none
unfolding find is_prefix
find_nowhere c pat [] h = refl
find_nowhere c pat (x ∷ s) h = rw (h.0, find_nowhere c pat s h.1) refl

find_behind :
    (c : ℕ) (s t : Bytes)
    → All (λ x. (c == x) ≡ false) s
    → find (c ∷ []) (s ++ (c ∷ t)) ≡ some (length s)
unfolding find is_prefix
find_behind c [] t h = rw (==_refl c) refl
find_behind c (x ∷ s) t h = rw (h.0, find_behind c s t h.1) refl

-- A word: not empty, of such characters
abbrev pub IsWord : Bytes → Type 0
IsWord s = (0 < length s) × All WordChar s

pub word_all :
    (Q : ℕ → Type 0) → ((c : ℕ) → WordChar c → Q c) → (s : Bytes) → All WordChar s → All Q s
word_all Q f [] h = tt
word_all Q f (c ∷ s) h = (f c h.0, word_all Q f s h.1)

blank_is_space : (c : ℕ) → is_blank c ≡ false → is_space c ≡ false
blank_is_space c h = ground arith

pub not_that : (d c : ℕ) → (c == d) ≡ false → (d == c) ≡ false
not_that d c h = ground arith

not_nine : (c : ℕ) → is_blank c ≡ false → (9 == c) ≡ false
not_nine c h = ground arith

not_space : (c : ℕ) → is_blank c ≡ false → (b' ' == c) ≡ false
not_space c h = ground arith

pub c_str_plain : (s : Bytes) → All (λ c. 0 < c) s → c_str s ≡ s
c_str_plain [] h = refl
c_str_plain (zero ∷ s) h = absurd (omega (arith, h.0))
c_str_plain (suc c ∷ s) h = ap (◌∷◌ (suc c)) (c_str_plain s h.1)

parse_value-word : (c : ℕ) (s : Bytes) → All WordChar (c ∷ s) → parse_value (c ∷ s) ≡ some (c ∷ s)
unfolding parse_value comment_at
parse_value-word c s h =
    let free = word_all (Free is_space) (λ x w. blank_is_space x w.not_blank) (c ∷ s) h in
    let nine = word_all (λ x. (9 == x) ≡ false) (λ x w. not_nine x w.not_blank) (c ∷ s) h in
    let space = word_all (λ x. (b' ' == x) ≡ false) (λ x w. not_space x w.not_blank) (c ∷ s) h in
    let n : length s - 0 + 1 ≡ suc (length s) = omega arith in
    rw
      (
        first_not-Free is_space c s free.0,
        find_nowhere 9 (b'#' ∷ []) (c ∷ s) nine,
        find_nowhere b' ' (b'#' ∷ []) (c ∷ s) space,
        find_nowhere 9 (codes "//") (c ∷ s) nine,
        find_nowhere b' ' (codes "//") (c ∷ s) space,
        last_not-Free is_space c s free,
        n,
        take_whole s,
      )
      refl

take_front : (s t : Bytes) → take (length s) (s ++ t) ≡ s
take_front [] t = refl
take_front (c ∷ s) t = ap (◌∷◌ c) (take_front s t)

drop_behind : (s t : Bytes) (d : ℕ) → drop (suc (length s)) (s ++ (d ∷ t)) ≡ t
drop_behind [] t d = refl
drop_behind (c ∷ s) t d = drop_behind s t d

drop_front : (s t : Bytes) (d : ℕ) → drop (length s + 1) (s ++ (d ∷ t)) ≡ t
drop_front s t d = let e : length s + 1 ≡ suc (length s) = omega arith in rw e (drop_behind s t d)

pub parse_pair-words :
    (c d : ℕ) (key val : Bytes)
    → All WordChar (c ∷ key)
    → All WordChar (d ∷ val)
    → parse_pair ((c ∷ key) ++ (b'=' ∷ d ∷ val)) ≡ some (c ∷ key, d ∷ val)
unfolding parse_pair
parse_pair-words c d key val h k =
    let free = word_all (Free is_space) (λ x w. blank_is_space x w.not_blank) (c ∷ key) h in
    rw
      (
        find_behind b'=' (c ∷ key) (d ∷ val)
            (word_all _ (λ x w. not_that b'=' x w.not_equals) (c ∷ key) h),
        take_front (c ∷ key) (b'=' ∷ d ∷ val),
        drop_front (c ∷ key) (d ∷ val) b'=',
        between-Free is_space c key free,
        parse_value-word d val k,
      )
      refl
