-- ===== src/BitSet/Reversed.antt =====
-- TRevBitSet (libspider/BitSet.cpp): the numbering of its bits, and what the inherited counters read.
use crowdspider.BitSet.Bit.{set_bit_allocated}
use crowdspider.BitSet.Valid.{test_bit_at, byte_in_bounds}
use crowdspider.Base.{
  length, ==_refl, length, ℕ, zero, suc, ◌+◌, ◌-◌, ◌*◌, ◌/◌, ◌%◌, ◌^◌, ◌≤◌, ◌<◌, ◌≡◌, refl, ap, ◌∙◌,
  Bool, true, some, arith, ◌==◌, if◌then◌else◌,
}
use mathlib.Core.Path.{ap₂}
use crowdspider.BitSet.{
  or_byte, and_byte, test_byte, BitSet, rev_set_bit, rev_clear_bit, rev_test_bit, test_bit, set_bit,
  clear_bit, is_empty, low3,
}
use crowdspider.BitSet.Valid.{IsValid, bit}
use crowdspider.BitSet.Count.{count, get_set_cnt_lem}

-- The place that the documented layout gives to bit N of a reversed set: byte N/8, value 2^(7-N%8),
-- as the number of a bit in ascending order.
unfoldable pub mirror : ℕ → ℕ
mirror n = 8 * (n / 8) + (7 - n % 8)

-- A reversed set's operations are those of a plain set at the mirrored number, for every `size_t`,
-- and the mirror is its own inverse.
pub rev_bit-mirror :
    (s : BitSet) (n : ℕ)
    → n < 2 ^ 64
    → (rev_set_bit s n ≡ set_bit s (mirror n))
      × (rev_clear_bit s n ≡ clear_bit s (mirror n))
      × (rev_test_bit s n ≡ test_bit s (mirror n))
      × (mirror (mirror n) ≡ n)
unfolding rev_set_bit rev_clear_bit rev_test_bit set_bit clear_bit test_bit mirror
rev_bit-mirror s n h =
    let byte : n / 8 ≡ (8 * (n / 8) + (7 - n % 8)) / 8 = omega arith in
    let place : low3 ((2 ^ 64 + 7 - n) % 2 ^ 64) ≡ (8 * (n / 8) + (7 - n % 8)) % 8 = omega arith in
    (
      ap₂ (or_byte s) byte place,
      ap₂ (and_byte s) byte place,
      ap₂ (test_byte s) byte place,
      omega arith,
    )

mirror_byte : (n : ℕ) → mirror n / 8 ≡ n / 8
unfolding mirror
mirror_byte n = omega arith

count_below :
    (f g : ℕ → Bool) (n k i : ℕ)
    → i + k ≤ n
    → ((m : ℕ) → g m ≡ (if m == n then true else f m))
    → count g k i ≡ count f k i
unfolding count
count_below f g n zero i h e = refl
count_below f g n (suc k) i h e = ground (arith, e i, count_below f g n k (i + 1) (omega arith) e)

-- A bit whose mirrored number is not below the length (so the length is no multiple of 8) is lost to
-- the inherited counters: after setting it on an empty reversed set, testBit finds it and IsEmpty
-- still answers true.
pub rev_set_bit_uncounted :
    (s : BitSet) (n : ℕ)
    → IsValid s
    → n < s.n_bit_len
    → s.n_bit_len ≤ mirror n
    → is_empty s ≡ some true
    → (s' : BitSet) × (rev_set_bit s n ≡ some s')
      × (rev_test_bit s' n ≡ some true)
      × (is_empty s' ≡ some true)
rev_set_bit_uncounted s n v h above e =
    let same : mirror n / 8 ≡ n / 8 = mirror_byte n in
    let (s', q, w) = set_bit_allocated s (mirror n) v (rw same (byte_in_bounds s n v h)) in
    let len = w.same_len in
    let in_new : mirror n / 8 < length s'.buf = rw same (byte_in_bounds s' n w.valid (rw len h)) in
    let on : bit s' (mirror n) ≡ true = w.bits (mirror n) ∙ rw (==_refl (mirror n)) refl in
    let none_on : count (bit s) s.n_bit_len 0 ≡ 0 = ground (arith, (get_set_cnt_lem s v).1) in
    let none_on' : count (bit s') s'.n_bit_len 0 ≡ 0 =
      ap (λ k. count (bit s') k 0) len
      ∙ count_below (bit s) (bit s') (mirror n) s.n_bit_len 0 (omega arith) w.bits
      ∙ none_on in
    (
      s',
      (rev_bit-mirror s n (omega arith)).0 ∙ q,
      (rev_bit-mirror s' n (omega arith)).2 ∙ test_bit_at s' (mirror n) in_new ∙ ap some on,
      (get_set_cnt_lem s' w.valid).1 ∙ rw none_on' refl,
    )
