-- ===== src/BitSet.antt =====
-- libspider/BitSet.cpp and BitSet.h: TBitSet, bits in ascending order over allocated bytes, and
-- TRevBitSet, which numbers the bits of a byte the other way round.
-- `none` is an access outside an allocation. `size_t` has 64 bits.
use Prim.Native.Nat.{bit_and, bit_or}
use crowdspider.Base.{
  ℕ, zero, suc, ◌+◌, ◌-◌, ◌*◌, ◌/◌, ◌%◌, ◌^◌, Bool, true, false, not, ◌&&◌, Option, none, some,
  List, [], ◌∷◌, ◌++◌, length, get_or, set, take, drop, replicate, map, ltb, leb, ◌==◌,
  if◌then◌else◌, ◌>>=◌, Bytes,
}
pub mod Valid
pub mod Bit
pub mod Count
pub mod Resize
pub mod Reversed

pub record BitSet : Type 0 where
  pub n_alloc : ℕ
  pub n_bit_len : ℕ
  pub buf : Bytes

-- WORD_SIZE, with the sum wrapped: the bytes of the 32-bit words that hold so many bits
abbrev pub word_size : ℕ → ℕ
word_size bits = (bits + 31) % 2 ^ 64 / 32 * 4

-- `memcpy(dst, src, n)`
unfoldable pub memcpy : Bytes → Bytes → ℕ → Option Bytes
memcpy dst src n =
    if leb n (length dst) && leb n (length src) then some (take n src ++ drop n dst) else none

-- TBitSet::TBitSet(void), and the state after `m_nAlloc = m_nBitLen = 0; delete[] m_buf`
abbrev pub empty : BitSet
empty = record { n_alloc = 0; n_bit_len = 0; buf = [] }

-- `n & 7` on a size_t
abbrev low3 : ℕ → ℕ
low3 n = n % 8

-- `m_buf[n/8] |= 1 << k`
abbrev or_byte : BitSet → ℕ → ℕ → Option BitSet
or_byte s i k =
    if ltb i (length s.buf)
    then some (record s { buf = set s.buf i (bit_or (get_or s.buf i 0) (2 ^ k)) })
    else none

-- `m_buf[n/8] &= ~(1 << k)`
abbrev and_byte : BitSet → ℕ → ℕ → Option BitSet
and_byte s i k =
    if ltb i (length s.buf)
    then some (record s { buf = set s.buf i (bit_and (get_or s.buf i 0) (255 - 2 ^ k)) })
    else none

-- `(m_buf[n/8] & (1 << k)) != 0`
abbrev test_byte : BitSet → ℕ → ℕ → Option Bool
test_byte s i k =
    if ltb i (length s.buf) then some (not (bit_and (get_or s.buf i 0) (2 ^ k) == 0)) else none

-- TBitSet::setBit, clearBit, testBit
unfoldable pub set_bit : BitSet → ℕ → Option BitSet
set_bit s n = or_byte s (n / 8) (low3 n)

unfoldable pub clear_bit : BitSet → ℕ → Option BitSet
clear_bit s n = and_byte s (n / 8) (low3 n)

unfoldable pub test_bit : BitSet → ℕ → Option Bool
test_bit s n = test_byte s (n / 8) (low3 n)

-- TRevBitSet::setBit, clearBit, testBit: `7-n&7` is `(7-n) & 7` on a size_t.
unfoldable pub rev_set_bit : BitSet → ℕ → Option BitSet
rev_set_bit s n = or_byte s (n / 8) (low3 ((2 ^ 64 + 7 - n) % 2 ^ 64))

unfoldable pub rev_clear_bit : BitSet → ℕ → Option BitSet
rev_clear_bit s n = and_byte s (n / 8) (low3 ((2 ^ 64 + 7 - n) % 2 ^ 64))

unfoldable pub rev_test_bit : BitSet → ℕ → Option Bool
rev_test_bit s n = test_byte s (n / 8) (low3 ((2 ^ 64 + 7 - n) % 2 ^ 64))

-- `while (i < m_nBitLen) if (testBit(i++)) cnt++;` with the rounds that are left
unfoldable pub count_from : BitSet → ℕ → ℕ → Option ℕ
count_from s zero i = some 0
count_from s (suc k) i =
    test_bit s i >>= λ b. count_from s k (i + 1) >>= λ rest. some ((if b then 1 else 0) + rest)

-- TBitSet::getSetCnt
unfoldable pub get_set_cnt : BitSet → Option ℕ
get_set_cnt s = count_from s s.n_bit_len 0

-- The loop of IsEmpty (`stop` is true) and of IsAllSet (`stop` is false): it returns false at the
-- first bit that is `stop`, and reads no further.
unfoldable pub none_from : Bool → BitSet → ℕ → ℕ → Option Bool
none_from stop s zero i = some true
none_from stop s (suc k) i =
    let rest = none_from stop s k (i + 1) in
    test_bit s i >>= λ b. if (if stop then b else not b) then some false else rest

-- TBitSet::IsEmpty, TBitSet::IsAllSet
unfoldable pub is_empty : BitSet → Option Bool
is_empty s = none_from true s s.n_bit_len 0

unfoldable pub is_all_set : BitSet → Option Bool
is_all_set s = none_from false s s.n_bit_len 0

-- TBitSet::zeroBits
unfoldable pub zero_bits : BitSet → BitSet
zero_bits s = if s.n_alloc == 0 then s else record s { buf = replicate s.n_alloc 0 }

-- `new BYTE[n]` holds whatever lay there: `junk i` at index i.
abbrev pub new_bytes : (ℕ → ℕ) → ℕ → ℕ → Bytes
new_bytes junk zero i = []
new_bytes junk (suc n) i = junk i ∷ new_bytes junk n (i + 1)

module _ (junk : ℕ → ℕ) where
  -- TBitSet::TBitSet(CPBYTE, size_t)
  unfoldable pub from_bytes : Bytes → ℕ → Option BitSet
  from_bytes pbuf bitlen =
      let len = word_size bitlen in
      memcpy (new_bytes junk len 0) pbuf len >>= λ b.
      some (record { n_alloc = len; n_bit_len = bitlen; buf = b })

  -- TBitSet::TBitSet(const TBitSet&)
  unfoldable pub copy : BitSet → Option BitSet
  copy other = if other.n_bit_len == 0 then some empty else from_bytes other.buf other.n_bit_len

  -- TBitSet::operator= of another object
  unfoldable pub assign : BitSet → BitSet → Option BitSet
  assign s other = if other.n_bit_len == 0 then some empty else from_bytes other.buf other.n_bit_len

  -- TBitSet::setBitSize
  unfoldable pub set_bit_size : BitSet → ℕ → Option BitSet
  set_bit_size s bitlen =
      let len = word_size bitlen in
      if bitlen == 0
      then some empty
      else if ltb s.n_alloc len
      then (memcpy (new_bytes junk len 0) s.buf s.n_alloc >>= λ b.
          some (record { n_alloc = len; n_bit_len = bitlen; buf = b }))
      else some (record s { n_bit_len = bitlen })

  -- TBitSet::set
  unfoldable pub set_bytes : BitSet → Bytes → ℕ → Option BitSet
  set_bytes s pbuf bitlen =
      let len = word_size bitlen in
      if bitlen == 0
      then some empty
      else if ltb s.n_alloc len
      then (memcpy (new_bytes junk len 0) pbuf len >>= λ b.
          some (record { n_alloc = len; n_bit_len = bitlen; buf = b }))
      else (memcpy s.buf pbuf len >>= λ b. some (record s { n_bit_len = bitlen; buf = b }))
