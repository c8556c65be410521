-- ===== src/Crawler/FileName.antt =====
-- The name under which a worker saves a page (TSpiderWorker::Run in libspider/Crawler.cpp).
use native.Mathlib.Nat.{pow-suc}
use crowdspider.Base.{
  inr, ==_iff, inl, Bool-cases, ℕ, zero, suc, ◌+◌, ◌-◌, ◌*◌, ◌/◌, ◌%◌, ◌^◌, ◌<◌, ◌≡◌, refl, sym,
  ◌∙◌, ap, [], ◌∷◌, ◌++◌, arith, length, ltb, ◌==◌, if◌then◌else◌, Bytes, codes, is_digit,
}

-- `while (m > 0) { *--cp = m % 10 + '0'; m /= 10; }`, in front of what the buffer holds.
-- The fuel of 20 rounds is enough for 64 bits.
digits : ℕ → ℕ → Bytes → Bytes
digits zero m cp = cp
digits (suc f) m cp =
    let rest = digits f (m / 10) ((m % 10 + b'0') ∷ cp) in if m == 0 then cp else rest

-- `while (len++ < 9) *--cp = '0';`
pad : ℕ → ℕ → Bytes → Bytes
pad zero len cp = cp
pad (suc k) len cp = let rest = pad k (len + 1) (b'0' ∷ cp) in if ltb len 9 then rest else cp

-- The `int` that getfileseq returns, converted to unsigned long.
abbrev sign_extend : ℕ → ℕ
sign_extend num = if ltb num (2 ^ 31) then num else 2 ^ 64 - 2 ^ 32 + num

-- "f", the number in nine digits or more, and ".html"
unfoldable pub file_name : ℕ → Bytes
unfolding digits pad
file_name num =
    let cp = digits 20 (sign_extend num) [] in b'f' ∷ (pad 9 (length cp) cp ++ codes ".html")

-- The number at the head of a text, in decimal.
read_digits : ℕ → Bytes → ℕ
read_digits v [] = v
read_digits v (c ∷ s) =
    let rest = read_digits (v * 10 + (c - b'0')) s in if is_digit c then rest else v

digits_append : (f m : ℕ) (cp tail : Bytes) → digits f m cp ++ tail ≡ digits f m (cp ++ tail)
unfolding digits
digits_append zero m cp tail = refl
digits_append (suc f) m cp tail =
    ground (arith, digits_append f (m / 10) ((m % 10 + b'0') ∷ cp) tail)

pad_append : (k len : ℕ) (cp tail : Bytes) → pad k len cp ++ tail ≡ pad k len (cp ++ tail)
unfolding pad
pad_append zero len cp tail = refl
pad_append (suc k) len cp tail = ground (arith, pad_append k (len + 1) (b'0' ∷ cp) tail)

read_digits_step :
    (v d : ℕ) (s : Bytes) → d < 10 → read_digits v ((d + b'0') ∷ s) ≡ read_digits (v * 10 + d) s
unfolding read_digits is_digit
read_digits_step v d s h = let e : d + b'0' - b'0' ≡ d = omega arith in rw e (ground arith)

read_digits-digits :
    (f m : ℕ) (cp : Bytes) → m < 10 ^ f → read_digits 0 (digits f m cp) ≡ read_digits m cp
unfolding digits read_digits is_digit
read_digits-digits zero m cp h = ap (λ k. read_digits k cp) (omega arith)
read_digits-digits (suc f) m cp h = elim (Bool-cases (m == 0)) [
  | inl e ↦ rw e (ap (λ k. read_digits k cp) (omega (arith, (==_iff m 0).0 e)))
  | inr e ↦ rw e (
      read_digits-digits f (m / 10) ((m % 10 + b'0') ∷ cp) (omega (arith, pow-suc 10 f))
      ∙ read_digits_step (m / 10) (m % 10) cp (omega arith)
      ∙ ap (λ k. read_digits k cp) (omega arith))
]

read_digits-pad : (k len : ℕ) (cp : Bytes) → read_digits 0 (pad k len cp) ≡ read_digits 0 cp
unfolding pad read_digits is_digit
read_digits-pad zero len cp = refl
read_digits-pad (suc k) len cp = ground (arith, read_digits-pad k (len + 1) (b'0' ∷ cp))

-- The number that a file name holds.
seq_of_name : Bytes → ℕ
seq_of_name [] = 0
seq_of_name (f ∷ s) = read_digits 0 s

seq_of_name-file_name : (num : ℕ) → num < 2 ^ 32 → seq_of_name (file_name num) ≡ sign_extend num
unfolding seq_of_name file_name read_digits is_digit
seq_of_name-file_name num h =
    let cp = digits 20 (sign_extend num) [] in
    let small : sign_extend num < 10 ^ 20 = ground arith in
    ap (read_digits 0) (pad_append 9 (length cp) cp (codes ".html"))
    ∙ read_digits-pad 9 (length cp) (cp ++ codes ".html")
    ∙ ap (read_digits 0) (digits_append 20 (sign_extend num) [] (codes ".html"))
    ∙ read_digits-digits 20 (sign_extend num) (codes ".html") small

-- Two different values of the sequence counter never give one file name, on all 32 bits.
pub file_name_inj : (a b : ℕ) → a < 2 ^ 32 → b < 2 ^ 32 → file_name a ≡ file_name b → a ≡ b
file_name_inj a b ha hb e =
    let same : sign_extend a ≡ sign_extend b =
      sym (seq_of_name-file_name a ha) ∙ ap seq_of_name e ∙ seq_of_name-file_name b hb in
    ground arith
