-- ===== src/HttpCli/Hdrs/ContentLen.antt =====
-- getContentLen (libspider/HttpCli.cpp) reads a printed number.
use crowdspider.Base.{
  ℕ, zero, suc, ◌+◌, ◌-◌, ◌*◌, ◌/◌, ◌%◌, ◌^◌, ◌≤◌, ◌<◌, ◌≡◌, refl, ap, ◌∙◌, inl, inr, true, false,
  [], ◌∷◌, arith, ltb, lt→ltb, some, c_str, ◌==◌, Bool-cases, length, All, Bytes, codes, is_digit,
  case_eq_refl,
}
use crowdspider.Base.Int.{pos}
use crowdspider.HttpCli.Hdrs.{off_digits, get_content_len}
use crowdspider.HttpCli.Request.{decimal}
use crowdspider.HttpCli.Response.Texts.{c_str_plain}
use crowdspider.HttpMsg.{HttpMsg, get_hdr, set_hdr}
use crowdspider.HttpMsg.Lookup.{get_hdr-set_hdr}
use crowdspider.Utils.Numbers.{write_digits}

zero_of_lt : (m : ℕ) → m < 10 ^ 0 → m ≡ 0
zero_of_lt m h = omega arith

div_lt : (m fuel : ℕ) → m < 10 ^ suc fuel → m / 10 < 10 ^ fuel
div_lt m fuel h = omega arith

zero_of_not : (m : ℕ) → ltb 0 m ≡ false → m ≡ 0
zero_of_not m h = ground arith

-- A digit that is read raises the number before it.
read_digit :
    (m : ℕ) (cp : Bytes) → m < 2 ^ 63 → off_digits (m / 10) ((b'0' + m % 10) ∷ cp) ≡ off_digits m cp
unfolding off_digits is_digit
read_digit m cp h =
    let e : m / 10 * 10 + (b'0' + m % 10 - b'0') ≡ m = omega arith in
    let d : is_digit (b'0' + m % 10) ≡ true = ground arith in
    let l : ltb m (2 ^ 63) ≡ true = lt→ltb m (2 ^ 63) h in rw (d, e, l) refl

off_digits-write_digits :
    (fuel m : ℕ) (cp : Bytes)
    → m < 10 ^ fuel
    → m < 2 ^ 63
    → off_digits 0 (write_digits fuel m cp) ≡ off_digits m cp
unfolding write_digits
off_digits-write_digits zero m cp f h = rw (zero_of_lt m f) refl
off_digits-write_digits (suc fuel) m cp f h =
    let ih =
      off_digits-write_digits fuel (m / 10) ((b'0' + m % 10) ∷ cp) (div_lt m fuel f)
        (omega arith) in
    elim (Bool-cases (ltb 0 m)) [
      | inl e ↦ rw e (ih ∙ read_digit m cp h)
      | inr e ↦ rw (e, zero_of_not m e) refl
    ]

write_digits_chars :
    (fuel m : ℕ) (cp : Bytes) → All (λ c. 0 < c) cp → All (λ c. 0 < c) (write_digits fuel m cp)
unfolding write_digits
write_digits_chars zero m cp h = h
write_digits_chars (suc fuel) m cp h =
    let ih = write_digits_chars fuel (m / 10) ((b'0' + m % 10) ∷ cp) (omega arith, h) in
    elim (Bool-cases (ltb 0 m)) [ inl e ↦ rw e ih | inr e ↦ rw e h ]

write_digits_longer : (fuel m : ℕ) (cp : Bytes) → length cp ≤ length (write_digits fuel m cp)
unfolding write_digits
write_digits_longer zero m cp = omega arith
write_digits_longer (suc fuel) m cp =
    let ih = write_digits_longer fuel (m / 10) ((b'0' + m % 10) ∷ cp) in
    elim (Bool-cases (ltb 0 m)) [ inl e ↦ rw e (omega (arith, ih)) | inr e ↦ rw e (omega arith) ]

-- A printed number is not empty, and is read back.
pub record Printed (s : Bytes) (n : ℕ) : Type 0 where
  pub full : (length s == 0) ≡ false
  pub back : off_digits 0 (c_str s) ≡ some n

nonempty : (s : Bytes) → 1 ≤ length s → (length s == 0) ≡ false
nonempty s h = ground arith

first_digit :
    (fuel m : ℕ)
    → write_digits (suc fuel) (suc m) [] ≡ write_digits fuel (suc m / 10) ((b'0' + suc m % 10) ∷ [])
unfolding write_digits
first_digit fuel m = let e : ltb 0 (suc m) ≡ true = ground arith in rw e refl

digits-Printed : (m : ℕ) → suc m < 2 ^ 63 → Printed (write_digits 24 (suc m) []) (suc m)
unfolding off_digits
digits-Printed m h = record {
  full = nonempty _ (rw (first_digit 23 m) (write_digits_longer 23 (suc m / 10) _));
  back =
      ap (off_digits 0) (c_str_plain _ (write_digits_chars 24 (suc m) [] tt))
      ∙ off_digits-write_digits 24 (suc m) [] (omega arith) h;
}

decimal-Printed : (n : ℕ) → n < 2 ^ 63 → Printed (decimal n) n
unfolding off_digits is_digit
decimal-Printed zero h = record { full = refl; back = refl }
decimal-Printed (suc n) h = let e : (suc n == 0) ≡ false = ground arith in rw e (digits-Printed n h)

-- The length that a server announces in a header is the one that the client reads, below 2^63, where an off_t
-- overflows.
pub get_content_len-set_hdr :
    (m : HttpMsg) (n : ℕ)
    → n < 2 ^ 63
    → get_content_len (set_hdr m (codes "Content-Length") (decimal n)) ≡ some (pos n)
unfolding get_content_len
get_content_len-set_hdr m n h =
    let p = decimal-Printed n h in
    let g : get_hdr (set_hdr m (codes "Content-Length") (decimal n)) (codes "Content-Length")
        ≡ decimal n =
      get_hdr-set_hdr m (codes "Content-Length") (codes "Content-Length") (decimal n)
      ∙ rw (case_eq_refl (codes "Content-Length")) refl in
    rw (g, p.full, p.back) refl
