-- ===== src/Utils/Numbers.antt =====
-- itoa, StrToInt, numdigit, is_number, set_nl and get_nl (libspider/Utils.cpp), on a machine with
-- 32-bit int and 64-bit long and size_t.
use crowdspider.Base.{
  ℕ, zero, suc, ◌+◌, ◌-◌, ◌*◌, ◌/◌, ◌%◌, ◌^◌, ◌<◌, ◌≡◌, refl, ap, ◌∙◌, inl, inr, Bool, true, false,
  ◌&&◌, Option, none, some, [], ◌∷◌, arith, ltb, ◌==◌, if◌then◌else◌, Bool-cases, Bytes, codes,
  is_digit, schar,
}
use crowdspider.Base.Int.{ℤ, pos, negsuc}

-- `while(m > 0) { *--cp = m % 10 + '0'; m /= 10; }`, in front of the digits already written; the
-- buffer holds fewer than `fuel` digits.
unfoldable pub write_digits : ℕ → ℕ → Bytes → Bytes
write_digits zero m cp = cp
write_digits (suc fuel) m cp =
    let rest = write_digits fuel (m / 10) ((b'0' + m % 10) ∷ cp) in if ltb 0 m then rest else cp

-- itoa, whose buffer has room for 24 digits; `-n` of the least int is undefined.
unfoldable pub itoa : ℤ → Option Bytes
itoa (pos m) = if m == 0 then some (codes "0") else some (write_digits 24 m [])
itoa (negsuc m) = if m == 2 ^ 31 - 1 then none else some (b'-' ∷ write_digits 24 (suc m) [])

-- `i = i * 10 + (*s++ - '0')`, where an int that overflows, which C leaves undefined, wraps
unfoldable pub str_to_int_from : ℕ → Bytes → ℕ
str_to_int_from i [] = i
str_to_int_from i (c ∷ s) = str_to_int_from ((i * 10 + schar c + 2 ^ 32 - b'0') % 2 ^ 32) s

-- StrToInt, as a 32-bit word
unfoldable pub str_to_int : Bytes → ℕ
str_to_int s = str_to_int_from 0 s

-- numdigit of a number that is not negative: `for (res = 1; (a /= 10) != 0; res++);`
unfoldable pub numdigit : ℕ → ℕ → ℕ
numdigit zero a = 1
numdigit (suc fuel) a = let rest = numdigit fuel (a / 10) in if a / 10 == 0 then 1 else 1 + rest

unfoldable pub is_number : Bytes → Bool
is_number [] = true
is_number (c ∷ s) = is_digit c && is_number s

-- set_nl: the low 32 bits, the most significant byte first
unfoldable pub set_nl : ℕ → Bytes
set_nl from = from / 2 ^ 24 % 256 ∷ from / 2 ^ 16 % 256 ∷ from / 2 ^ 8 % 256 ∷ from % 256 ∷ []

-- get_nl: `(*from++) << 24` is an int, and negative if the byte is 128 or more, so that it fills the
-- upper half of the size_t with ones.
unfoldable pub get_nl : ℕ → ℕ → ℕ → ℕ → ℕ
get_nl a b c d =
    (if ltb a 128 then a * 2 ^ 24 else 2 ^ 64 - 2 ^ 32 + a * 2 ^ 24) + b * 2 ^ 16 + c * 2 ^ 8 + d

-- get_nl on the bytes of a buffer
unfoldable pub get_nl_at : Bytes → Option ℕ
get_nl_at (a ∷ b ∷ c ∷ d ∷ s) = some (get_nl a b c d)
get_nl_at _ = none

-- What set_nl writes, get_nl reads: the number itself below 2 ^ 31, and from there to 2 ^ 32 the
-- number with the upper half of the word filled with ones.
pub get_nl-set_nl :
    (x : ℕ)
    → x < 2 ^ 32
    → get_nl_at (set_nl x) ≡ some (if ltb x (2 ^ 31) then x else x + (2 ^ 64 - 2 ^ 32))
unfolding get_nl_at set_nl get_nl
get_nl-set_nl x h = ground arith

zero_of_lt : (m : ℕ) → m < 10 ^ 0 → m ≡ 0
zero_of_lt m h = omega arith

div_lt : (m fuel : ℕ) → m < 10 ^ suc fuel → m / 10 < 10 ^ fuel
div_lt m fuel h = omega arith

zero_of_not : (m : ℕ) → ltb 0 m ≡ false → m ≡ 0
zero_of_not m h = ground arith

read_digit :
    (m : ℕ) (cp : Bytes)
    → m < 2 ^ 31
    → str_to_int_from (m / 10) ((b'0' + m % 10) ∷ cp) ≡ str_to_int_from m cp
unfolding str_to_int_from
read_digit m cp h = ap (λ i. str_to_int_from i cp) (ground arith)

-- A number that is written digit by digit and read back is itself.
pub str_to_int-write_digits :
    (fuel m : ℕ) (cp : Bytes)
    → m < 2 ^ 31
    → m < 10 ^ fuel
    → str_to_int_from 0 (write_digits fuel m cp) ≡ str_to_int_from m cp
unfolding write_digits
str_to_int-write_digits zero m cp h f = rw (zero_of_lt m f) refl
str_to_int-write_digits (suc fuel) m cp h f =
    let ih =
      str_to_int-write_digits fuel (m / 10) ((b'0' + m % 10) ∷ cp) (omega arith)
        (div_lt m fuel f) in
    elim (Bool-cases (ltb 0 m)) [
      | inl e ↦ rw e (ih ∙ read_digit m cp h)
      | inr e ↦ rw (e, zero_of_not m e) refl
    ]

digit-is_number :
    (m : ℕ) (cp : Bytes) → is_number cp ≡ true → is_number ((b'0' + m % 10) ∷ cp) ≡ true
unfolding is_number is_digit
digit-is_number m cp h = ground arith

write_digits-is_number :
    (fuel m : ℕ) (cp : Bytes) → is_number cp ≡ true → is_number (write_digits fuel m cp) ≡ true
unfolding write_digits
write_digits-is_number zero m cp h = h
write_digits-is_number (suc fuel) m cp h =
    let ih = write_digits-is_number fuel (m / 10) ((b'0' + m % 10) ∷ cp) (digit-is_number m cp h) in
    elim (Bool-cases (ltb 0 m)) [ inl e ↦ rw e ih | inr e ↦ rw e h ]

itoa-suc : (m : ℕ) → itoa (pos (suc m)) ≡ some (write_digits 24 (suc m) [])
unfolding itoa
itoa-suc m = ground arith

-- StrToInt reads what itoa writes of an int that is not negative.
pub str_to_int-itoa :
    (m : ℕ)
    → m < 2 ^ 31
    → (s : Bytes) × (itoa (pos m) ≡ some s) × (str_to_int s ≡ m) × (is_number s ≡ true)
str_to_int-itoa zero h = (
  codes "0",
  (unfold itoa in refl),
  (unfold str_to_int str_to_int_from in refl),
  (unfold is_number is_digit in refl),
)
str_to_int-itoa (suc m) h =
    let back = str_to_int-write_digits 24 (suc m) [] h (omega arith) in
    let digits = write_digits-is_number 24 (suc m) [] (unfold is_number in refl) in
    (
      write_digits 24 (suc m) [],
      itoa-suc m,
      (unfold str_to_int in back ∙ (unfold str_to_int_from in refl)),
      digits,
    )
