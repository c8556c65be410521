-- ===== src/BitSet/Bit.antt =====
-- setBit, clearBit and testBit of TBitSet (libspider/BitSet.cpp).
use Prim.Native.Nat.{bit_and, bit_or}
use crowdspider.Base.{
  ℕ, ◌-◌, ◌/◌, ◌%◌, ◌^◌, ◌<◌, ◌≡◌, ◌≢◌, refl, ◌∙◌, Bool, true, false, not, some, length, length-set,
  get_or, get_or-set_self, get_or-set_ne, set, All-set, All-get_or, arith, lt→ltb, ◌==◌, ==_iff,
  Bool-cases, inl, inr, if◌then◌else◌,
}
use crowdspider.Base.Bits.{bit_and-bit_or, bit_and-clear, byte_range}
use crowdspider.BitSet.{BitSet, set_bit, clear_bit}
use crowdspider.BitSet.Valid.{IsValid, IsByte, byte_in_bounds, byte_bit, bit}

-- One byte replaced.
abbrev pub put_byte : BitSet → ℕ → ℕ → BitSet
put_byte s i b = record s { buf = set s.buf i b }

pub put_byte-IsValid : (s : BitSet) (i b : ℕ) → IsValid s → IsByte b → IsValid (put_byte s i b)
put_byte-IsValid s i b v h = record {
  sized = length-set s.buf i b ∙ v.sized;
  room = v.room;
  small = v.small;
  bytes = All-set IsByte s.buf i b v.bytes h;
}

-- The bits after one byte was replaced by a byte whose bits are known.
pub put_byte-byte_bit :
    (s : BitSet) (i b : ℕ) (f : ℕ → Bool)
    → i < length s.buf
    → ((k : ℕ) → k < 8 → not (bit_and b (2 ^ k) == 0) ≡ f k)
    → (j k : ℕ) → k < 8
    → byte_bit (put_byte s i b) j k ≡ (if j == i then f k else byte_bit s j k)
unfolding byte_bit
put_byte-byte_bit s i b f h law j k hk = elim (Bool-cases (j == i)) [
  | inl e ↦ rw (e, (==_iff j i).0 e, get_or-set_self s.buf i b 0 h) (law k hk)
  | inr e ↦ let ne : i ≢ j = ground arith in rw (e, get_or-set_ne s.buf i j b 0 ne) refl
]

pub or_byte-byte_bit :
    (s : BitSet) (i t : ℕ)
    → IsValid s
    → i < length s.buf
    → t < 8
    → (j k : ℕ) → k < 8
    → byte_bit (put_byte s i (bit_or (get_or s.buf i 0) (2 ^ t))) j k
      ≡ (if j == i then (if k == t then true else byte_bit s i k) else byte_bit s j k)
unfolding byte_bit
or_byte-byte_bit s i t v h ht =
    put_byte-byte_bit s i _ (λ k. if k == t then true else byte_bit s i k) h
      (λ k hk.
        bit_and-bit_or (get_or s.buf i 0) t k (All-get_or IsByte s.buf i 0 v.bytes (omega arith)) ht
          hk)

pub and_byte-byte_bit :
    (s : BitSet) (i t : ℕ)
    → IsValid s
    → i < length s.buf
    → t < 8
    → (j k : ℕ) → k < 8
    → byte_bit (put_byte s i (bit_and (get_or s.buf i 0) (255 - 2 ^ t))) j k
      ≡ (if j == i then (if k == t then false else byte_bit s i k) else byte_bit s j k)
unfolding byte_bit
and_byte-byte_bit s i t v h ht =
    put_byte-byte_bit s i _ (λ k. if k == t then false else byte_bit s i k) h
      (λ k hk.
        bit_and-clear (get_or s.buf i 0) t k (All-get_or IsByte s.buf i 0 v.bytes (omega arith)) ht
          hk)

-- A bit's number is its byte's and its place in the byte.
pub split_index :
    (s : BitSet) (m n : ℕ) (b : Bool)
    → (if m / 8 == n / 8
        then (if m % 8 == n % 8 then b else byte_bit s (n / 8) (m % 8))
        else byte_bit s (m / 8) (m % 8))
      ≡ (if m == n then b else bit s m)
unfolding bit
split_index s m n b = elim (Bool-cases (m / 8 == n / 8)) [
  | inl e ↦
      let q : m / 8 ≡ n / 8 = ground arith in
      let r : (m % 8 == n % 8) ≡ (m == n) = ground arith in rw (e, q, r) refl
  | inr e ↦ let ne : (m == n) ≡ false = ground arith in rw (e, ne) refl
]

-- The set after one of its bits was written: valid, of the same length, with that bit only changed.
pub record Wrote (s : BitSet) (n : ℕ) (b : Bool) (s' : BitSet) : Type 0 where
  pub valid : IsValid s'
  pub same_len : s'.n_bit_len ≡ s.n_bit_len
  pub bits : (m : ℕ) → bit s' m ≡ (if m == n then b else bit s m)

pub set_bit_allocated :
    (s : BitSet) (n : ℕ)
    → IsValid s
    → n / 8 < length s.buf
    → (s' : BitSet) × (set_bit s n ≡ some s') × Wrote s n true s'
unfolding set_bit bit
set_bit_allocated s n v lt = (
  put_byte s (n / 8) (bit_or (get_or s.buf (n / 8) 0) (2 ^ (n % 8))),
  rw (lt→ltb _ _ lt) refl,
  record {
    valid =
        put_byte-IsValid s (n / 8) _ v
          (byte_range (get_or s.buf (n / 8) 0) (n % 8)
            (All-get_or IsByte s.buf (n / 8) 0 v.bytes (omega arith)) (omega arith)).0;
    same_len = refl;
    bits = λ m.
        or_byte-byte_bit s (n / 8) (n % 8) v lt (omega arith) (m / 8) (m % 8) (omega arith)
        ∙ split_index s m n true;
  },
)

-- On a valid set, setBit of a bit below the length meets no fault and turns on that bit only.
pub set_bit-Wrote :
    (s : BitSet) (n : ℕ)
    → IsValid s
    → n < s.n_bit_len
    → (s' : BitSet) × (set_bit s n ≡ some s') × Wrote s n true s'
set_bit-Wrote s n v h = set_bit_allocated s n v (byte_in_bounds s n v h)

-- On a valid set, clearBit of a bit below the length meets no fault and turns off that bit only.
pub clear_bit-Wrote :
    (s : BitSet) (n : ℕ)
    → IsValid s
    → n < s.n_bit_len
    → (s' : BitSet) × (clear_bit s n ≡ some s') × Wrote s n false s'
unfolding clear_bit bit
clear_bit-Wrote s n v h =
    let lt = byte_in_bounds s n v h in
    (
      put_byte s (n / 8) (bit_and (get_or s.buf (n / 8) 0) (255 - 2 ^ (n % 8))),
      rw (lt→ltb _ _ lt) refl,
      record {
        valid =
            put_byte-IsValid s (n / 8) _ v
              (byte_range (get_or s.buf (n / 8) 0) (n % 8)
                (All-get_or IsByte s.buf (n / 8) 0 v.bytes (omega arith)) (omega arith)).1;
        same_len = refl;
        bits = λ m.
            and_byte-byte_bit s (n / 8) (n % 8) v lt (omega arith) (m / 8) (m % 8) (omega arith)
            ∙ split_index s m n false;
      },
    )
