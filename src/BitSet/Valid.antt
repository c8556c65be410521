-- ===== src/BitSet/Valid.antt =====
-- The representation of a TBitSet (libspider/BitSet.cpp): which sets are well formed, and the bits that
-- one holds.
use Prim.Native.Nat.{bit_and}
use crowdspider.Base.{
  ℕ, ◌+◌, ◌/◌, ◌%◌, ◌^◌, ◌≤◌, ◌<◌, ◌≡◌, refl, Bool, not, some, length, get_or, All, arith, lt→ltb,
  ◌==◌,
}
use crowdspider.BitSet.{BitSet, word_size, test_bit}

abbrev pub IsByte : ℕ → Type 0
IsByte b = b < 256

-- The buffer has the allocated size, which holds all the words of the bits; WORD_SIZE does not wrap.
pub record IsValid (s : BitSet) : Type 0 where
  pub sized : length s.buf ≡ s.n_alloc
  pub room : word_size s.n_bit_len ≤ s.n_alloc
  pub small : s.n_bit_len + 31 < 2 ^ 64
  pub bytes : All IsByte s.buf

-- The byte of every bit below the bit length is inside the buffer.
pub byte_in_bounds : (s : BitSet) (n : ℕ) → IsValid s → n < s.n_bit_len → n / 8 < length s.buf
byte_in_bounds s n v h = omega arith

-- Bit `k` of byte `i`.
unfoldable pub byte_bit : BitSet → ℕ → ℕ → Bool
byte_bit s i k = not (bit_and (get_or s.buf i 0) (2 ^ k) == 0)

unfoldable pub bit : BitSet → ℕ → Bool
bit s n = byte_bit s (n / 8) (n % 8)

pub test_bit_at : (s : BitSet) (n : ℕ) → n / 8 < length s.buf → test_bit s n ≡ some (bit s n)
unfolding test_bit bit byte_bit
test_bit_at s n h = rw (lt→ltb _ _ h) refl

pub test_bit_lem :
    (s : BitSet) (n : ℕ) → IsValid s → n < s.n_bit_len → test_bit s n ≡ some (bit s n)
test_bit_lem s n v h = test_bit_at s n (byte_in_bounds s n v h)
