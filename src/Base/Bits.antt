-- ===== src/Base/Bits.antt =====
-- Bits of a byte: `bit_or` and `bit_and` with one-bit masks, by a table of all bytes.
use crowdspider.Base.{
  ℕ, zero, suc, ◌-◌, ◌^◌, ◌<◌, ◌≡◌, refl, Bool, true, false, not, ◌&&◌, arith, ltb, ◌==◌,
  if◌then◌else◌,
}
use Prim.Native.Nat.{bit_and-bitwise, bit_and, bit_or}

-- A test of the numbers below a bound: the table of its values has no `false`.
unfoldable pub true_below : ℕ → (ℕ → Bool) → Bool
true_below zero test = true
true_below (suc bound) test = true_below bound test && test bound

pub table_entry :
    (bound : ℕ) (test : ℕ → Bool) (i : ℕ) → true_below bound test ≡ true → i < bound → test i ≡ true
unfolding true_below
table_entry zero test i checked below = absurd (omega arith)
table_entry (suc bound) test i checked below = let ih = table_entry bound test i in ground arith

abbrev pub same : Bool → Bool → Bool
same true b = b
same false b = not b

pub same_eq : (a b : Bool) → same a b ≡ true → a ≡ b
same_eq true true h = refl
same_eq true false h = cc
same_eq false true h = cc
same_eq false false h = refl

-- Bit `k` of a byte after bit `j` of it was set: on if `k` is `j`, as before otherwise.
abbrev set_law : ℕ → ℕ → ℕ → Bool
set_law b j k =
    same (not (bit_and (bit_or b (2 ^ j)) (2 ^ k) == 0))
      (if k == j then true else not (bit_and b (2 ^ k) == 0))

set_table : true_below 256 (λ b. true_below 8 (λ j. true_below 8 (set_law b j))) ≡ true
unfolding true_below
set_table = refl

-- Bit `k` of a byte after bit `j` of it was cleared by `&= ~(1 << j)`.
abbrev clear_law : ℕ → ℕ → ℕ → Bool
clear_law b j k =
    same (not (bit_and (bit_and b (255 - 2 ^ j)) (2 ^ k) == 0))
      (if k == j then false else not (bit_and b (2 ^ k) == 0))

clear_table : true_below 256 (λ b. true_below 8 (λ j. true_below 8 (clear_law b j))) ≡ true
unfolding true_below
clear_table = refl

all_three :
    (p : ℕ → ℕ → ℕ → Bool) (b j k : ℕ)
    → true_below 256 (λ b. true_below 8 (λ j. true_below 8 (p b j))) ≡ true
    → b < 256
    → j < 8
    → k < 8
    → p b j k ≡ true
all_three p b j k t hb hj hk =
    table_entry 8 (p b j) k
      (table_entry 8 (λ j. true_below 8 (p b j)) j
        (table_entry 256 (λ b. true_below 8 (λ j. true_below 8 (p b j))) b t hb) hj)
      hk

pub bit_and-bit_or :
    (b j k : ℕ)
    → b < 256
    → j < 8
    → k < 8
    → not (bit_and (bit_or b (2 ^ j)) (2 ^ k) == 0)
      ≡ (if k == j then true else not (bit_and b (2 ^ k) == 0))
bit_and-bit_or b j k hb hj hk = same_eq _ _ (all_three set_law b j k set_table hb hj hk)

pub bit_and-clear :
    (b j k : ℕ)
    → b < 256
    → j < 8
    → k < 8
    → not (bit_and (bit_and b (255 - 2 ^ j)) (2 ^ k) == 0)
      ≡ (if k == j then false else not (bit_and b (2 ^ k) == 0))
bit_and-clear b j k hb hj hk = same_eq _ _ (all_three clear_law b j k clear_table hb hj hk)

-- A byte stays a byte.
range_table :
    true_below 256
      (λ b. true_below 8 (λ j. ltb (bit_or b (2 ^ j)) 256 && ltb (bit_and b (255 - 2 ^ j)) 256))
    ≡ true
unfolding true_below
range_table = refl

pub byte_range :
    (b j : ℕ) → b < 256 → j < 8 → (bit_or b (2 ^ j) < 256) × (bit_and b (255 - 2 ^ j) < 256)
byte_range b j hb hj =
    let t =
      table_entry 8 _ j
        (table_entry 256
          (λ b. true_below 8 (λ j. ltb (bit_or b (2 ^ j)) 256 && ltb (bit_and b (255 - 2 ^ j)) 256))
          b range_table hb)
        hj in
    ground arith

pub zero-bit_and : (b : ℕ) → bit_and 0 b ≡ 0
zero-bit_and b = bit_and-bitwise 0 b
