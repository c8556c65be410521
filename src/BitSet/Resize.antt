-- ===== src/BitSet/Resize.antt =====
-- setBitSize, set, and the copies of a TBitSet (libspider/BitSet.cpp). What `new BYTE[]` holds is a
-- parameter.
use Prim.Native.Nat.{min}
use crowdspider.Base.{
  false, ◌&&◌, ltb, ltb→lt, true, Bool, inr, inl, ◌==◌, ◌/◌, Bool-cases, ◌∙◌, get_or, ℕ, zero, suc,
  ◌+◌, ◌^◌, ◌≤◌, ◌<◌, ◌≡◌, refl, ap, some, ◌++◌, length, take, drop, All, All-append, All-take,
  All-drop, length-append, length-take, length-drop, get_or-append, get_or-take, arith, Bytes,
}
use crowdspider.BitSet.{set_bit_size, from_bytes, copy, BitSet, word_size, memcpy, new_bytes, empty}
use crowdspider.BitSet.Valid.{bit, IsValid, IsByte, byte_bit}

empty-IsValid : IsValid empty
empty-IsValid = record { sized = refl; room = omega arith; small = omega arith; bytes = tt }

memcpy_lem :
    (dst src : Bytes) (n : ℕ)
    → n ≤ length dst
    → n ≤ length src
    → memcpy dst src n ≡ some (take n src ++ drop n dst)
unfolding memcpy
memcpy_lem dst src n h k = ground arith

length-memcpy :
    (dst src : Bytes) (n : ℕ)
    → n ≤ length dst
    → n ≤ length src
    → length (take n src ++ drop n dst) ≡ length dst
length-memcpy dst src n h k =
    omega (arith, length-append (take n src) (drop n dst), length-take n src, length-drop n dst)

masked_eq : (mask x y : Bool) → (mask ≡ true → x ≡ y) → (mask && x) ≡ (mask && y)
masked_eq true x y h = h refl
masked_eq false x y h = refl

below_left : (m a b : ℕ) → ltb m (min a b) ≡ true → m < a
below_left m a b h = ground arith

below_right : (m a b : ℕ) → ltb m (min a b) ≡ true → m < b
below_right m a b h = ground arith

module _ (junk : ℕ → ℕ) (is_byte : (i : ℕ) → IsByte (junk i)) where
  length-new_bytes : (n i : ℕ) → length (new_bytes junk n i) ≡ n
  length-new_bytes zero i = refl
  length-new_bytes (suc n) i = ap suc (length-new_bytes n (i + 1))

  new_bytes-IsByte : (n i : ℕ) → All IsByte (new_bytes junk n i)
  new_bytes-IsByte zero i = tt
  new_bytes-IsByte (suc n) i = (is_byte i, new_bytes-IsByte n (i + 1))

  -- A valid set of this length that holds the first `n` bytes of `src` at its head.
  pub record Filled (src : Bytes) (n bitlen : ℕ) (s' : BitSet) : Type 0 where
    pub valid : IsValid s'
    pub same_len : s'.n_bit_len ≡ bitlen
    pub head : (i : ℕ) → i < n → get_or s'.buf i 0 ≡ get_or src i 0

  fill-Filled :
      (dst src : Bytes) (n bitlen : ℕ)
      → word_size bitlen ≤ length dst
      → bitlen + 31 < 2 ^ 64
      → n ≤ length dst
      → n ≤ length src
      → All IsByte src
      → All IsByte dst
      → (alloc : ℕ) → length dst ≡ alloc
      → Filled src n bitlen
          (record { n_alloc = alloc; n_bit_len = bitlen; buf = take n src ++ drop n dst })
  fill-Filled dst src n bitlen room small h k src_bytes dst_bytes alloc a = record {
    valid = record {
      sized = length-memcpy dst src n h k ∙ a;
      room = omega arith;
      small = small;
      bytes =
          All-append IsByte (take n src) (drop n dst) (All-take IsByte n src src_bytes)
            (All-drop IsByte n dst dst_bytes);
    };
    same_len = refl;
    head = λ i lt.
        get_or-append (take n src) (drop n dst) i 0 (omega (arith, length-take n src))
        ∙ get_or-take n src i 0 lt;
  }

  bit_of_head :
      (src : Bytes) (n bitlen m : ℕ) (s s' : BitSet)
      → s.buf ≡ src
      → Filled src n bitlen s'
      → m / 8 < n
      → bit s' m ≡ bit s m
  unfolding bit byte_bit
  bit_of_head src n bitlen m s s' e f h = rw (f.head (m / 8) h, e) refl

  -- The constructor from a buffer that holds at least all words of the bits.
  from_bytes-Filled :
      (pbuf : Bytes) (bitlen : ℕ)
      → bitlen + 31 < 2 ^ 64
      → word_size bitlen ≤ length pbuf
      → All IsByte pbuf
      → (s' : BitSet) × (from_bytes junk pbuf bitlen ≡ some s')
        × Filled pbuf (word_size bitlen) bitlen s'
  unfolding from_bytes
  from_bytes-Filled pbuf bitlen small room bytes =
      let len = word_size bitlen in
      let l = length-new_bytes len 0 in
      (
        record {
          n_alloc = len;
          n_bit_len = bitlen;
          buf = take len pbuf ++ drop len (new_bytes junk len 0);
        },
        rw (memcpy_lem (new_bytes junk len 0) pbuf len (omega arith) room) refl,
        fill-Filled (new_bytes junk len 0) pbuf len bitlen (omega arith) small (omega arith) room
            bytes (new_bytes-IsByte len 0) len l,
      )

  copy_bits :
      (s : BitSet)
      → IsValid s
      → (s' : BitSet) × (copy junk s ≡ some s')
        × IsValid s'
        × (s'.n_bit_len ≡ s.n_bit_len)
        × ((m : ℕ) → m < s.n_bit_len → bit s' m ≡ bit s m)
  unfolding copy
  copy_bits s v = elim (Bool-cases (s.n_bit_len == 0)) [
    | inl e ↦ (empty, rw e refl, empty-IsValid, ground arith, λ m h. absurd (ground arith))
    | inr e ↦
        let (s', q, f) = from_bytes-Filled s.buf s.n_bit_len v.small (omega arith) v.bytes in
        (
          s',
          rw e q,
          f.valid,
          f.same_len,
          λ m h. bit_of_head s.buf (word_size s.n_bit_len) s.n_bit_len m s s' refl f (omega arith),
        )
  ]

  set_bit_size_bits :
      (s : BitSet) (bitlen : ℕ)
      → IsValid s
      → bitlen + 31 < 2 ^ 64
      → (s' : BitSet) × (set_bit_size junk s bitlen ≡ some s')
        × IsValid s'
        × (s'.n_bit_len ≡ bitlen)
        × ((m : ℕ) → m < s.n_bit_len → m < bitlen → bit s' m ≡ bit s m)
  unfolding set_bit_size
  set_bit_size_bits s bitlen v small = elim (Bool-cases (bitlen == 0)) [
    | inl e ↦ (empty, rw e refl, empty-IsValid, ground arith, λ m h k. absurd (ground arith))
    | inr e ↦ elim (Bool-cases (ltb s.n_alloc (word_size bitlen))) [
      | inl g ↦
          let len = word_size bitlen in
          let l = length-new_bytes len 0 in
          let le : s.n_alloc ≤ len = ground arith in
          let f =
            fill-Filled (new_bytes junk len 0) s.buf s.n_alloc bitlen (omega arith) small
              (omega arith) (omega arith) v.bytes (new_bytes-IsByte len 0) len l in
          (
            record {
              n_alloc = len;
              n_bit_len = bitlen;
              buf = take s.n_alloc s.buf ++ drop s.n_alloc (new_bytes junk len 0);
            },
            rw (e, g, memcpy_lem (new_bytes junk len 0) s.buf s.n_alloc (omega arith) (omega arith))
                refl,
            f.valid,
            refl,
            λ m h k. bit_of_head s.buf s.n_alloc bitlen m s _ refl f (omega arith),
          )
      | inr g ↦ (
        record s { n_bit_len = bitlen },
        rw (e, g) refl,
        record { sized = v.sized; room = ground arith; small = small; bytes = v.bytes },
        refl,
        λ m h k. unfold bit byte_bit in refl,
      )
    ]
  ]

  -- The copy constructor gives a valid set of the same length with the same bits, and meets no fault.
  pub copy_lem :
      (s : BitSet) (m : ℕ)
      → IsValid s
      → (s' : BitSet) × (copy junk s ≡ some s')
        × IsValid s'
        × (s'.n_bit_len ≡ s.n_bit_len)
        × ((ltb m s.n_bit_len && bit s' m) ≡ (ltb m s.n_bit_len && bit s m))
  copy_lem s m v =
      let (s', q, w, l, b) = copy_bits s v in
      (s', q, w, l, masked_eq (ltb m s.n_bit_len) _ _ (λ h. b m (ltb→lt _ _ h)))

  -- setBitSize meets no fault, gives a valid set of the new length, and keeps every bit that is below
  -- both lengths. (Of the bits above the old length it says nothing.)
  pub set_bit_size_lem :
      (s : BitSet) (bitlen m : ℕ)
      → IsValid s
      → bitlen + 31 < 2 ^ 64
      → (s' : BitSet) × (set_bit_size junk s bitlen ≡ some s')
        × IsValid s'
        × (s'.n_bit_len ≡ bitlen)
        × ((ltb m (min s.n_bit_len bitlen) && bit s' m)
            ≡ (ltb m (min s.n_bit_len bitlen) && bit s m))
  set_bit_size_lem s bitlen m v small =
      let (s', q, w, l, b) = set_bit_size_bits s bitlen v small in
      (
        s',
        q,
        w,
        l,
        masked_eq (ltb m (min s.n_bit_len bitlen)) _ _
            (λ h. b m (below_left _ _ _ h) (below_right _ _ _ h)),
      )
