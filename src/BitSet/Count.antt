-- ===== src/BitSet/Count.antt =====
-- getSetCnt, IsEmpty and IsAllSet (libspider/BitSet.cpp).
use crowdspider.Base.{
  ℕ, zero, suc, ◌+◌, ◌≤◌, ◌<◌, ◌≡◌, refl, ap, ◌∙◌, Bool, true, false, some, arith, ◌==◌, Bool-cases,
  inl, inr, if◌then◌else◌,
}
use crowdspider.BitSet.{BitSet, count_from, get_set_cnt, none_from, is_empty, is_all_set, set_bit}
use crowdspider.BitSet.Valid.{IsValid, bit, test_bit_lem}
use crowdspider.BitSet.Bit.{set_bit-Wrote}

-- How many of the `k` bits from `i` on are set.
unfoldable pub count : (ℕ → Bool) → ℕ → ℕ → ℕ
count f zero i = 0
count f (suc k) i = (if f i then 1 else 0) + count f k (i + 1)

count-le : (f : ℕ → Bool) (k i : ℕ) → count f k i ≤ k
unfolding count
count-le f zero i = omega arith
count-le f (suc k) i = ground (arith, count-le f k (i + 1))

count_from-count :
    (s : BitSet) (k i : ℕ)
    → IsValid s
    → i + k ≤ s.n_bit_len
    → count_from s k i ≡ some (count (bit s) k i)
unfolding count_from count
count_from-count s zero i v h = refl
count_from-count s (suc k) i v h =
    rw (test_bit_lem s i v (omega arith), count_from-count s k (i + 1) v (omega arith)) refl

none_from-true :
    (s : BitSet) (k i : ℕ)
    → IsValid s
    → i + k ≤ s.n_bit_len
    → none_from true s k i ≡ some (count (bit s) k i == 0)
unfolding none_from count
none_from-true s zero i v h = refl
none_from-true s (suc k) i v h = elim (Bool-cases (bit s i)) [
  | inl e ↦ rw (test_bit_lem s i v (omega arith), e) (ground arith)
  | inr e ↦
      rw (test_bit_lem s i v (omega arith), e, none_from-true s k (i + 1) v (omega arith))
        (ground arith)
]

none_from-false :
    (s : BitSet) (k i : ℕ)
    → IsValid s
    → i + k ≤ s.n_bit_len
    → none_from false s k i ≡ some (count (bit s) k i == k)
unfolding none_from count
none_from-false s zero i v h = refl
none_from-false s (suc k) i v h = elim (Bool-cases (bit s i)) [
  | inl e ↦
      rw (test_bit_lem s i v (omega arith), e, none_from-false s k (i + 1) v (omega arith))
        (ground arith)
  | inr e ↦ rw (test_bit_lem s i v (omega arith), e) (ground (arith, count-le (bit s) k (i + 1)))
]

-- On a valid set the three loops meet no fault: getSetCnt is the number of the bits below the length
-- that are on, IsEmpty says whether it is 0, and IsAllSet whether it is the length.
pub get_set_cnt_lem :
    (s : BitSet)
    → IsValid s
    → (get_set_cnt s ≡ some (count (bit s) s.n_bit_len 0))
      × (is_empty s ≡ some (count (bit s) s.n_bit_len 0 == 0))
      × (is_all_set s ≡ some (count (bit s) s.n_bit_len 0 == s.n_bit_len))
unfolding get_set_cnt is_empty is_all_set
get_set_cnt_lem s v = (
  count_from-count s s.n_bit_len 0 v (omega arith),
  none_from-true s s.n_bit_len 0 v (omega arith),
  none_from-false s s.n_bit_len 0 v (omega arith),
)

-- Counting after one bit was turned on.
count_outside :
    (f g : ℕ → Bool) (n k i : ℕ)
    → n < i
    → ((m : ℕ) → g m ≡ (if m == n then true else f m))
    → count g k i ≡ count f k i
unfolding count
count_outside f g n zero i h e = refl
count_outside f g n (suc k) i h e =
    ground (arith, e i, count_outside f g n k (i + 1) (omega arith) e)

count_inside :
    (f g : ℕ → Bool) (n k i : ℕ)
    → i ≤ n
    → n < i + k
    → ((m : ℕ) → g m ≡ (if m == n then true else f m))
    → count g k i ≡ count f k i + (if f n then 0 else 1)
unfolding count
count_inside f g n zero i h l e = absurd (omega arith)
count_inside f g n (suc k) i h l e = elim (Bool-cases (i == n)) [
  | inl q ↦
      let same : i ≡ n = ground arith in
      let at_n : g n ≡ true = ground (arith, e n) in
      rw (same, at_n, count_outside f g n k (n + 1) (omega arith) e) (ground arith)
  | inr q ↦ ground (arith, e i, count_inside f g n k (i + 1) (ground arith) (omega arith) e)
]

-- setBit adds one to getSetCnt if the bit was off, and leaves it if it was on.
pub get_set_cnt-set_bit :
    (s s' : BitSet) (n c : ℕ)
    → IsValid s
    → n < s.n_bit_len
    → set_bit s n ≡ some s'
    → get_set_cnt s ≡ some c
    → get_set_cnt s' ≡ some (c + (if bit s n then 0 else 1))
unfolding get_set_cnt
get_set_cnt-set_bit s s' n c v h e q =
    let (t, e', w) = set_bit-Wrote s n v h in
    let same : t ≡ s' = cc in
    let before = count_from-count s s.n_bit_len 0 v (omega arith) in
    let after = count_from-count t t.n_bit_len 0 w.valid (omega arith) in
    let grown = count_inside (bit s) (bit t) n s.n_bit_len 0 (omega arith) (omega arith) w.bits in
    let len = w.same_len in
    let had : count (bit s) s.n_bit_len 0 ≡ c = cc in
    rw (← same) (
      after
      ∙ ap some (
          ap (λ k. count (bit t) k 0) len
          ∙ grown
          ∙ ap (λ (k : ℕ). k + (if bit s n then 0 else 1)) had))
