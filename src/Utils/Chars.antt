-- ===== src/Utils/Chars.antt =====
-- StrLen, StrCmp and StrCpy (libspider/Utils.cpp), on the bytes from a pointer to the end of its
-- allocation; `none` reads or writes behind it.
use crowdspider.Base.{
  ℕ, suc, ◌+◌, ◌-◌, ◌%◌, ◌^◌, ◌<◌, ◌≡◌, refl, ap, ◌↔◌, inl, inr, true, false, Option, none, some,
  [], ◌∷◌, ◌++◌, arith, ◌==◌, if◌then◌else◌, Bool-cases, ◌>>=◌, length, drop, All, Bytes, schar,
}

unfoldable pub str_len : Bytes → Option ℕ
str_len [] = none
str_len (c ∷ s) = let rest = str_len s >>= λ n. some (n + 1) in if c == 0 then some 0 else rest

-- `s1[i] - s2[i]` of signed characters, as a 32-bit word
unfoldable pub char_diff : ℕ → ℕ → ℕ
char_diff a b = (schar a + (2 ^ 32 - schar b)) % 2 ^ 32

unfoldable pub str_cmp : Bytes → Bytes → Option ℕ
str_cmp (a ∷ s) (b ∷ t) =
    let rest = str_cmp s t in
    if char_diff a b == 0 then (if a == 0 then some 0 else rest) else some (char_diff a b)
str_cmp _ _ = none

-- The destination after the copy; it keeps what stands behind the NUL.
unfoldable pub str_cpy : Bytes → Bytes → Option Bytes
str_cpy (d ∷ dst) (c ∷ src) =
    let rest = str_cpy dst src >>= λ r. some (c ∷ r) in if c == 0 then some (0 ∷ dst) else rest
str_cpy _ _ = none

-- A byte of a text, other than NUL
abbrev pub TextByte : ℕ → Type 0
TextByte c = (0 < c) × (c < 256)

char_diff_iff : (a b : ℕ) → a < 256 → b < 256 → (char_diff a b == 0) ≡ (a == b)
unfolding char_diff
char_diff_iff a b ha hb = ground arith

zero_diff : (char_diff 0 0 == 0) ≡ true
unfolding char_diff
zero_diff = refl

-- StrCmp on two texts of bytes answers 0 exactly if they are equal, and reads nothing behind them.
pub str_cmp_iff :
    (s t : Bytes)
    → All TextByte s
    → All TextByte t
    → (d : ℕ) × (str_cmp (s ++ 0 ∷ []) (t ++ 0 ∷ []) ≡ some d) × ((d ≡ 0) ↔ (s ≡ t))
unfolding str_cmp
str_cmp_iff [] [] hs ht = (0, rw zero_diff refl, ((λ e. refl), (λ e. refl)))
str_cmp_iff [] (b ∷ t) hs ht =
    let z = char_diff_iff 0 b (omega arith) ht.0.1 in (char_diff 0 b, ground arith, ground arith)
str_cmp_iff (a ∷ s) [] hs ht =
    let z = char_diff_iff a 0 hs.0.1 (omega arith) in (char_diff a 0, ground arith, ground arith)
str_cmp_iff (a ∷ s) (b ∷ t) hs ht =
    let (d, q, i) = str_cmp_iff s t hs.1 ht.1 in
    let z = char_diff_iff a b hs.0.1 ht.0.1 in
    elim (Bool-cases (a == b)) [
      | inl e ↦ (d, ground arith, ground arith)
      | inr e ↦ (char_diff a b, ground arith, ground arith)
    ]

-- StrCpy copies a text with its NUL to the head of a block that has room for it, and StrLen then
-- counts the text.
pub str_len-str_cpy :
    (dst s : Bytes)
    → All TextByte s
    → length s < length dst
    → (r : Bytes) × (str_cpy dst (s ++ 0 ∷ []) ≡ some r)
      × (r ≡ (s ++ 0 ∷ []) ++ drop (suc (length s)) dst)
      × (str_len r ≡ some (length s))
unfolding str_cpy str_len
str_len-str_cpy [] s hs h = absurd (omega arith)
str_len-str_cpy (d ∷ dst) [] hs h = (0 ∷ dst, refl, refl, refl)
str_len-str_cpy (d ∷ dst) (c ∷ s) hs h =
    let (r, q, e, l) = str_len-str_cpy dst s hs.1 (omega arith) in
    let z : (c == 0) ≡ false = ground arith in
    let add_one : length s + 1 ≡ suc (length s) = omega arith in
    (c ∷ r, rw (z, q, str_cpy) refl, ap (◌∷◌ c) e, rw (z, l, str_len) (ap some add_one))
