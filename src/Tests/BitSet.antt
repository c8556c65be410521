-- ===== src/Tests/BitSet.antt =====
-- Bit sets: runs and instances.
use crowdspider.Base.{◌≡◌, refl, some, true, [], ◌∷◌, arith}
use crowdspider.BitSet.{
  BitSet, is_empty, none_from, rev_set_bit, rev_test_bit, test_bit, get_set_cnt, count_from,
}
use crowdspider.BitSet.Valid.{IsValid}
use crowdspider.BitSet.Reversed.{mirror, rev_set_bit_uncounted}

-- The example of BitSet.h: bits 2 and 9 of 14.
abbrev two_bits : BitSet
two_bits = record { n_alloc = 4; n_bit_len = 14; buf = 0x04 ∷ 0x02 ∷ 0 ∷ 0 ∷ [] }

abbrev no_bits : BitSet
no_bits = record { n_alloc = 4; n_bit_len = 14; buf = 0 ∷ 0 ∷ 0 ∷ 0 ∷ [] }

two_bits-IsValid : IsValid two_bits
two_bits-IsValid = omega arith

no_bits-IsValid : IsValid no_bits
no_bits-IsValid = omega arith

documented :
    (test_bit two_bits 2 ≡ some true)
    × (test_bit two_bits 9 ≡ some true)
    × (get_set_cnt two_bits ≡ some 2)
unfolding test_bit get_set_cnt count_from
documented = (refl, refl, refl)

abbrev three_bits : BitSet
three_bits = record two_bits { buf = 0x24 ∷ 0x02 ∷ 0 ∷ 0 ∷ [] }

-- The second example of BitSet.h: of the bits 2 and 9, the counters miss the second.
rev_set_bit_uncounted_example :
    (s' : BitSet) × (rev_set_bit no_bits 9 ≡ some s')
    × (rev_test_bit s' 9 ≡ some true)
    × (is_empty s' ≡ some true)
unfolding mirror is_empty none_from test_bit
rev_set_bit_uncounted_example =
    rev_set_bit_uncounted no_bits 9 no_bits-IsValid (omega arith) (omega arith) refl
