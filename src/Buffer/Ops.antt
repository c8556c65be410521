-- ===== src/Buffer/Ops.antt =====
-- What TBuffer's operations leave in the buffer (libspider/Buffer.cpp).
use crowdspider.Base.{
  ℕ, zero, suc, ◌≤◌, ◌≡◌, refl, ap, ◌∙◌, inl, inr, false, Option, some, List, [], ◌∷◌, ◌++◌, arith,
  ltb, ◌==◌, ==_iff, Bool-cases, length, take, drop, replicate, take_all,
}
use crowdspider.Buffer.Block.{
  Cell, unset, Buffer, empty, memcpy, renew, overwrite, copy, set_bytes, set_size, IsValid,
  contents, Holds,
}

memcpy_ok :
    (dst src : List Cell) (n : ℕ)
    → n ≤ length src
    → n ≤ length dst
    → memcpy dst src n ≡ some (take n src ++ drop n dst)
unfolding memcpy
memcpy_ok dst src n hs hd =
    let s : ltb (length src) n ≡ false = ground arith in
    let d : ltb (length dst) n ≡ false = ground arith in rw (s, d) refl

take_prefix :
    {A : Type 0} (n : ℕ) (xs ys : List A) → n ≤ length xs → take n (take n xs ++ ys) ≡ take n xs
take_prefix zero xs ys h = refl
take_prefix (suc n) [] ys h = absurd (omega arith)
take_prefix (suc n) (x ∷ xs) ys h = ap (◌∷◌ x) (take_prefix n xs ys (omega arith))

length-overwrite :
    {A : Type 0} (n : ℕ) (xs ys : List A)
    → n ≤ length xs
    → n ≤ length ys
    → length (take n xs ++ drop n ys) ≡ length ys
length-overwrite zero xs ys h k = refl
length-overwrite (suc n) [] ys h k = absurd (omega arith)
length-overwrite (suc n) (x ∷ xs) [] h k = absurd (omega arith)
length-overwrite (suc n) (x ∷ xs) (y ∷ ys) h k =
    ap suc (length-overwrite n xs ys (omega arith) (omega arith))

length-replicate : (n : ℕ) → length (replicate n unset) ≡ n
length-replicate zero = refl
length-replicate (suc n) = ap suc (length-replicate n)

-- A new block of `n` bytes that takes the first `k` from another.
renew-Holds :
    (n : ℕ) (src : List Cell) (k : ℕ)
    → k ≤ length src
    → k ≤ n
    → Holds (renew n src k) (take k src ++ drop k (replicate n unset))
unfolding renew
renew-Holds n src k h l =
    let r : k ≤ length (replicate n unset) = omega (arith, length-replicate n) in
    let e = length-overwrite k src (replicate n unset) h r ∙ length-replicate n in
    (
      record { alloc = n; len = n; buf = take k src ++ drop k (replicate n unset) },
      rw (memcpy_ok (replicate n unset) src k h r) refl,
      record { sized = e; fits = omega arith },
      take_all n _ (omega (arith, e)),
    )

-- Bytes that the length reaches.
overwrite-Holds :
    (b : Buffer) (src : List Cell) (n : ℕ)
    → IsValid b
    → n ≤ length src
    → n ≤ b.alloc
    → Holds (overwrite b src n) (take n src)
unfolding overwrite
overwrite-Holds b src n v h l =
    let r : n ≤ length b.buf = omega (arith, v.sized) in
    let e = length-overwrite n src b.buf h r ∙ v.sized in
    (
      record { alloc = b.alloc; len = n; buf = take n src ++ drop n b.buf },
      rw (memcpy_ok b.buf src n h r) refl,
      record { sized = e; fits = l },
      take_prefix n src _ h,
    )

pub empty-IsValid : IsValid empty
unfolding empty
empty-IsValid = record { sized = refl; fits = omega arith }

empty-Holds : Holds (some empty) []
unfolding empty
empty-Holds = (empty, refl, record { sized = refl; fits = omega arith }, refl)

drop-replicate : (n : ℕ) → drop n (replicate n unset) ≡ []
drop-replicate zero = refl
drop-replicate (suc n) = drop-replicate n

append_nil : (xs : List Cell) → xs ++ [] ≡ xs
append_nil [] = refl
append_nil (x ∷ xs) = ap (◌∷◌ x) (append_nil xs)

renew_all-Holds : (n : ℕ) (src : List Cell) → n ≤ length src → Holds (renew n src n) (take n src)
renew_all-Holds n src h =
    let (b, e, v, c) = renew-Holds n src n h (omega arith) in
    (b, e, v, c ∙ ap (λ r. take n src ++ r) (drop-replicate n) ∙ append_nil (take n src))

take_inner :
    {A : Type 0} (m k : ℕ) (xs ys : List A)
    → m ≤ k
    → k ≤ length xs
    → take m (take k xs ++ ys) ≡ take m xs
take_inner zero k xs ys h l = refl
take_inner (suc m) zero xs ys h l = absurd (omega arith)
take_inner (suc m) (suc k) [] ys h l = absurd (omega arith)
take_inner (suc m) (suc k) (x ∷ xs) ys h l =
    ap (◌∷◌ x) (take_inner m k xs ys (omega arith) (omega arith))

-- Set leaves a valid buffer that holds the bytes it was given, where they are as many as it is told.
pub set_bytes-Holds :
    (b : Buffer) (src : List Cell) (n : ℕ)
    → IsValid b
    → n ≤ length src
    → Holds (set_bytes b src n) (take n src)
unfolding set_bytes
set_bytes-Holds b src n v h = elim (Bool-cases (n == 0)) [
  | inl z ↦ rw (z, (==_iff n 0).0 z) empty-Holds
  | inr z ↦ rw z (elim (Bool-cases (ltb b.alloc n)) [
    | inl g ↦ rw g (renew_all-Holds n src h)
    | inr g ↦ rw g (overwrite-Holds b src n v h (ground arith))
  ])
]

-- The copy of a valid buffer is valid and holds the same bytes.
pub copy-Holds : (b : Buffer) → IsValid b → Holds (copy b) (contents b)
unfolding copy
copy-Holds b v = elim (Bool-cases (b.len == 0)) [
  | inl z ↦ rw (z, (==_iff b.len 0).0 z) empty-Holds
  | inr z ↦ rw z (renew_all-Holds b.len b.buf (omega (arith, v.sized, v.fits)))
]

-- A client's view of SetSize.
abbrev pub Keeps : Buffer → ℕ → ℕ → Option Buffer → Type 0
Keeps b n m r =
    (b' : Buffer) × (r ≡ some b') × IsValid b' × (b'.len ≡ n) × (take m b'.buf ≡ take m b.buf)

renew-Keeps :
    (b : Buffer) (n m : ℕ)
    → IsValid b
    → b.alloc ≤ n
    → m ≤ b.len
    → Keeps b n m (renew n b.buf b.alloc)
unfolding renew
renew-Keeps b n m v g l =
    let r : b.alloc ≤ length (replicate n unset) = omega (arith, length-replicate n, g) in
    let s : b.alloc ≤ length b.buf = omega (arith, v.sized) in
    let e = length-overwrite b.alloc b.buf (replicate n unset) s r ∙ length-replicate n in
    (
      record { alloc = n; len = n; buf = take b.alloc b.buf ++ drop b.alloc (replicate n unset) },
      rw (memcpy_ok (replicate n unset) b.buf b.alloc s r) refl,
      record { sized = e; fits = omega arith },
      refl,
      take_inner m b.alloc b.buf _ (omega (arith, l, v.fits)) s,
    )

le_zero : (m n : ℕ) → m ≤ n → n ≡ 0 → m ≡ 0
le_zero m n h z = omega arith

empty-Keeps : (b : Buffer) → Keeps b 0 0 (some empty)
unfolding empty
empty-Keeps b = (empty, refl, record { sized = refl; fits = omega arith }, refl, refl)

-- SetSize never fails on a valid buffer and leaves a valid one of the new length, in which every
-- prefix that fits the old length and the new one is as before.
pub set_size-Keeps :
    (b : Buffer) (n m : ℕ) → IsValid b → m ≤ n → m ≤ b.len → Keeps b n m (set_size b n)
unfolding set_size
set_size-Keeps b n m v h l = elim (Bool-cases (n == 0)) [
  | inl z ↦ rw (z, (==_iff n 0).0 z, le_zero m n h ((==_iff n 0).0 z)) (empty-Keeps b)
  | inr z ↦ rw z (elim (Bool-cases (ltb b.alloc n)) [
    | inl g ↦ rw g (renew-Keeps b n m v (ground arith) l)
    | inr g ↦ rw g (
      record { alloc = b.alloc; len = n; buf = b.buf },
      refl,
      record { sized = v.sized; fits = ground arith },
      refl,
      refl,
    )
  ])
]
