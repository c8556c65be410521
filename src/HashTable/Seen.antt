-- ===== src/HashTable/Seen.antt =====
-- The bit table as a set of codes (libspider/HashTable.cpp).
use Prim.Native.Nat.{bit_and, bit_or}
use crowdspider.Base.{
  ℕ, ◌/◌, ◌%◌, ◌<◌, ◌≡◌, ◌^◌, refl, ap, ◌∙◌, List, [], ◌∷◌, arith, Bool, true, false, not, ◌||◌,
  Option, some, lt→ltb, ◌==◌, Bool-cases, inl, inr, if◌then◌else◌, ◌>>=◌,
}
use crowdspider.Base.Bits.{zero-bit_and, bit_and-bit_or, byte_range}
use crowdspider.HashTable.{
  HashTable, UriKey, create, hash_size, hash_code, bit_at, set_bit_at, test_set_at, test, test_set,
  update,
}
use crowdspider.HashTable.Codes.{hash_code-lt}

-- The table has its full size and holds bytes.
pub record IsValid (t : HashTable) : Type 0 where
  pub full : t.size ≡ hash_size / 8
  pub bytes : (pos : ℕ) → t.table pos < 256

pub create-IsValid : IsValid create
create-IsValid = record { full = refl; bytes = λ pos. omega arith }

-- Bit `code` of the table.
bit : HashTable → ℕ → Bool
bit t code = not (bit_and (t.table (code / 8)) (2 ^ (code % 8)) == 0)

bit_at_lem :
    (t : HashTable) (code : ℕ) → IsValid t → code < hash_size → bit_at t code ≡ some (bit t code)
unfolding bit_at bit
bit_at_lem t code v h = let f = v.full in rw (lt→ltb (code / 8) t.size (omega arith)) refl

-- The table after one bit was set.
marked : HashTable → ℕ → HashTable
marked t code = record t {
  table = update t.table (code / 8) (bit_or (t.table (code / 8)) (2 ^ (code % 8)));
}

set_bit_at_lem :
    (t : HashTable) (code : ℕ)
    → IsValid t
    → code < hash_size
    → set_bit_at t code ≡ some (marked t code)
unfolding set_bit_at marked
set_bit_at_lem t code v h = let f = v.full in rw (lt→ltb (code / 8) t.size (omega arith)) refl

marked-IsValid : (t : HashTable) (code : ℕ) → IsValid t → IsValid (marked t code)
unfolding marked update
marked-IsValid t code v = record {
  full = v.full;
  bytes = λ pos. ground (
    arith,
    v.bytes pos,
    byte_range (t.table (code / 8)) (code % 8) (v.bytes (code / 8)) (omega arith),
  );
}

bit-marked :
    (t : HashTable) (j k : ℕ) → IsValid t → bit (marked t j) k ≡ (if k == j then true else bit t k)
unfolding bit marked update
bit-marked t j k v = elim (Bool-cases (k / 8 == j / 8)) [
  | inl e ↦
      let law =
        bit_and-bit_or (t.table (j / 8)) (j % 8) (k % 8) (v.bytes (j / 8)) (omega arith)
          (omega arith) in
      let q : k / 8 ≡ j / 8 = ground arith in
      let r : (k % 8 == j % 8) ≡ (k == j) = ground arith in rw (e, q) (rw r at law)
  | inr e ↦ let ne : (k == j) ≡ false = ground arith in rw (e, ne) refl
]

test_set_eq :
    (t : HashTable) (u : UriKey)
    → IsValid t
    → test_set t u ≡ some (not (bit t (hash_code u)), marked t (hash_code u))
unfolding test_set test_set_at
test_set_eq t u v =
    let hu = hash_code-lt u in
    rw (bit_at_lem t (hash_code u) v hu, set_bit_at_lem t (hash_code u) v hu) refl

-- testSet on a valid table meets no fault: it answers whether the URL's code was absent, and then
-- exactly that code is there besides the codes that were, so another URL is taken for seen
-- if and only if it was or has the same code.
pub test_set_lem :
    (t : HashTable) (u w : UriKey)
    → IsValid t
    → (seen : Bool) × (t' : HashTable) × (test t u ≡ some seen)
      × (test_set t u ≡ some (not seen, t'))
      × IsValid t'
      × (test t' w ≡ (if hash_code w == hash_code u then some true else test t w))
unfolding test test_set test_set_at
test_set_lem t u w v =
    let hu = hash_code-lt u in
    let hw = hash_code-lt w in
    let v' = marked-IsValid t (hash_code u) v in
    (
      bit t (hash_code u),
      marked t (hash_code u),
      bit_at_lem t (hash_code u) v hu,
      test_set_eq t u v,
      v',
      rw (bit_at_lem _ (hash_code w) v' hw, bit_at_lem t (hash_code w) v hw)
          (ap some (bit-marked t (hash_code u) (hash_code w) v) ∙ ground arith),
    )

-- A list of URLs offered in order, with the answers of testSet.
pub offer : HashTable → List UriKey → Option (List Bool × HashTable)
offer t [] = some ([], t)
offer t (u ∷ us) = test_set t u >>= λ r. offer r.1 us >>= λ rest. some (r.0 ∷ rest.0, rest.1)

pub is_member : ℕ → List ℕ → Bool
is_member x [] = false
is_member x (y ∷ ys) = x == y || is_member x ys

-- The same against the list of the codes so far.
pub first_seen : List ℕ → List UriKey → List Bool
first_seen codes [] = []
first_seen codes (u ∷ us) =
    not (is_member (hash_code u) codes) ∷ first_seen (hash_code u ∷ codes) us

-- The table holds exactly these codes.
Holds : HashTable → List ℕ → Type 0
Holds t codes = (k : ℕ) → k < hash_size → bit t k ≡ is_member k codes

create-Holds : Holds create []
unfolding Holds bit is_member
create-Holds k hk = rw (zero-bit_and (2 ^ (k % 8))) refl

offer_lem :
    (us : List UriKey) (t : HashTable) (codes : List ℕ)
    → IsValid t
    → Holds t codes
    → (t' : HashTable) × (offer t us ≡ some (first_seen codes us, t'))
unfolding offer first_seen Holds is_member
offer_lem [] t codes v h = (t, refl)
offer_lem (u ∷ us) t codes v h =
    let j = hash_code u in
    let hu = hash_code-lt u in
    let (t', ih) =
      offer_lem us (marked t j) (j ∷ codes) (marked-IsValid t j v)
        (λ k hk. ground (arith, bit-marked t j k v, h k hk)) in
    (t', rw (test_set_eq t u v, ih, h j hu) refl)

-- On an empty table, over any list of URLs, the answers of testSet are those of a list of codes: a
-- URL is new exactly when no URL before it has its code, and no access leaves the table.
pub offer-first_seen :
    (us : List UriKey) → (t' : HashTable) × (offer create us ≡ some (first_seen [] us, t'))
offer-first_seen us = offer_lem us create [] create-IsValid create-Holds
