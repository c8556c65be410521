-- ===== src/Utils/Base64/RoundTrip.antt =====
-- Base64Decode reads what base64_encode writes (libspider/Utils.cpp).
use crowdspider.Base.{
  ℕ, suc, ◌+◌, ◌-◌, ◌*◌, ◌/◌, ◌%◌, ◌<◌, ◌≡◌, refl, ◌∙◌, Bool, true, false, some, [], ◌∷◌, ◌++◌,
  arith, ltb, ◌==◌, lt→ltb, ==_iff, length, get_or, replicate, All, get_elem?-get_or, Bytes,
}
use crowdspider.Base.Bits.{true_below, table_entry}
use crowdspider.Utils.Base64.{
  tbl, tbl_at, wget_block, pad_one, pad_two, base64_encode, decode_char, trip, trip_bytes,
  decode_quads, base64_decode,
}

-- Every character of the table decodes to its index.
abbrev decodes : ℕ → Bool
decodes i = decode_char (get_or tbl i 0) == i

decodes_table : true_below 64 decodes ≡ true
unfolding true_below decode_char
decodes_table = refl

ltb_zero : (i : ℕ) → ltb i 0 ≡ false
ltb_zero i = ground arith

minus_zero : (i : ℕ) → i - 0 ≡ i
minus_zero i = omega arith

-- ASCII characters stay inside the table.
pub tbl_at-some : (i : ℕ) → i < 64 → tbl_at i 0 ≡ some (get_or tbl i 0)
unfolding tbl_at
tbl_at-some i h = rw (ltb_zero, minus_zero) (get_elem?-get_or tbl i 0 h)

decode-tbl : (i : ℕ) → i < 64 → decode_char (get_or tbl i 0) ≡ i
decode-tbl i h = (==_iff _ _).0 (table_entry 64 decodes i decodes_table h)

-- The four indices of three characters.
unfoldable pub four : ℕ → ℕ → ℕ → Bytes
four a b c =
    get_or tbl (a / 4) 0
    ∷ get_or tbl (a % 4 * 16 + b / 16) 0
    ∷ get_or tbl (b % 16 * 4 + c / 64) 0
    ∷ get_or tbl (c % 64) 0
    ∷ []

pub wget_block_ascii :
    (a b c : ℕ) → a < 128 → b < 128 → c < 128 → wget_block a b c ≡ some (four a b c)
unfolding wget_block four
wget_block_ascii a b c ha hb hc =
    rw
      (
        lt→ltb a 128 ha,
        lt→ltb b 128 hb,
        lt→ltb c 128 hc,
        tbl_at-some (a / 4) (omega arith),
        tbl_at-some (a % 4 * 16 + b / 16) (omega arith),
        tbl_at-some (b % 16 * 4 + c / 64) (omega arith),
        tbl_at-some (c % 64) (omega arith),
      )
      refl

trip_four :
    (a b c : ℕ)
    → a < 128
    → b < 128
    → c < 128
    → trip_bytes (trip (a / 4) (a % 4 * 16 + b / 16) (b % 16 * 4 + c / 64) (c % 64))
      ≡ a ∷ b ∷ c ∷ []
unfolding trip_bytes trip
trip_four a b c ha hb hc =
    let e0 : (((a / 4 * 64 + (a % 4 * 16 + b / 16)) * 64 + (b % 16 * 4 + c / 64)) * 64 + c % 64)
          / 65536
          % 256
        ≡ a =
      omega arith in
    let e1 : (((a / 4 * 64 + (a % 4 * 16 + b / 16)) * 64 + (b % 16 * 4 + c / 64)) * 64 + c % 64)
          / 256
          % 256
        ≡ b =
      omega arith in
    let e2 : (((a / 4 * 64 + (a % 4 * 16 + b / 16)) * 64 + (b % 16 * 4 + c / 64)) * 64 + c % 64)
          % 256
        ≡ c =
      omega arith in
    cc (e0, e1, e2)

quads_four :
    (a b c : ℕ) (s : Bytes)
    → a < 128
    → b < 128
    → c < 128
    → decode_quads (four a b c ++ s) ≡ a ∷ b ∷ c ∷ decode_quads s
unfolding decode_quads four
quads_four a b c s ha hb hc =
    rw
      (
        decode-tbl (a / 4) (omega arith),
        decode-tbl (a % 4 * 16 + b / 16) (omega arith),
        decode-tbl (b % 16 * 4 + c / 64) (omega arith),
        decode-tbl (c % 64) (omega arith),
        trip_four a b c ha hb hc,
      )
      refl

decode_pad : decode_char b'=' ≡ 0
unfolding decode_char
decode_pad = refl

trip_pad_one :
    (a b : ℕ)
    → a < 128
    → b < 128
    → trip_bytes (trip (a / 4) (a % 4 * 16 + b / 16) (b % 16 * 4 + 0) 0) ≡ a ∷ b ∷ 0 ∷ []
trip_pad_one a b ha hb = trip_four a b 0 ha hb (omega arith)

trip_pad_two : (a : ℕ) → a < 128 → trip_bytes (trip (a / 4) (a % 4 * 16 + 0) 0 0) ≡ a ∷ 0 ∷ 0 ∷ []
trip_pad_two a ha = trip_four a 0 0 ha (omega arith) (omega arith)

quads_pad_one : (a b : ℕ) → a < 128 → b < 128 → decode_quads (pad_one (four a b 0)) ≡ a ∷ b ∷ 0 ∷ []
unfolding decode_quads four pad_one
quads_pad_one a b ha hb =
    let z : b % 16 * 4 + 0 / 64 ≡ b % 16 * 4 = omega arith in
    rw
      (
        decode-tbl (a / 4) (omega arith),
        decode-tbl (a % 4 * 16 + b / 16) (omega arith),
        decode-tbl (b % 16 * 4 + 0) (omega arith),
        decode_pad,
        trip_pad_one a b ha hb,
      )
      refl

quads_pad_two : (a c : ℕ) → a < 128 → c < 128 → decode_quads (pad_two (four a 0 c)) ≡ a ∷ 0 ∷ 0 ∷ []
unfolding decode_quads four pad_two
quads_pad_two a c ha hb =
    rw
      (
        decode-tbl (a / 4) (omega arith),
        decode-tbl (a % 4 * 16 + 0) (omega arith),
        decode_pad,
        trip_pad_two a ha,
      )
      refl

-- The zeros that fill the last three characters up.
abbrev pub fill : ℕ → ℕ
fill n = (3 - n % 3) % 3

length-four : (a b c : ℕ) (t : Bytes) → length (four a b c ++ t) ≡ suc (suc (suc (suc (length t))))
unfolding four
length-four a b c t = refl

whole_quads : (t : Bytes) (m : ℕ) → length t ≡ 4 * m → base64_decode t ≡ decode_quads t
unfolding base64_decode
whole_quads [] m h = unfold decode_quads in refl
whole_quads (c ∷ t) m h =
    let z : (suc (length t) == 0) ≡ false = ground arith in
    let q : (suc (length t) % 4 == 0) ≡ true = ground arith in rw (z, q) refl

fill_three : (n : ℕ) → fill (suc (suc (suc n))) ≡ fill n
fill_three n = omega arith

more_length :
    (m n : ℕ) → m ≡ 4 * ((n + 2) / 3) → suc (suc (suc (suc m))) ≡ 4 * ((suc (suc (suc n)) + 2) / 3)
more_length m n h = omega arith

encode_quads :
    (beyond : ℕ) (s : Bytes)
    → beyond < 128
    → All (λ c. c < 128) s
    → (t : Bytes) × (base64_encode beyond s ≡ some t)
      × (decode_quads t ≡ s ++ replicate (fill (length s)) 0)
      × (length t ≡ 4 * ((length s + 2) / 3))
unfolding base64_encode
encode_quads beyond [] hb h = ([], refl, (unfold decode_quads in refl), refl)
encode_quads beyond (a ∷ []) hb h = (
  pad_two (four a 0 beyond),
  rw (wget_block_ascii a 0 beyond h.0 (omega arith) hb) refl,
  quads_pad_two a beyond h.0 hb,
  (unfold pad_two four in refl),
)
encode_quads beyond (a ∷ b ∷ []) hb h = (
  pad_one (four a b 0),
  rw (wget_block_ascii a b 0 h.0 h.1.0 (omega arith)) refl,
  quads_pad_one a b h.0 h.1.0,
  (unfold pad_one four in refl),
)
encode_quads beyond (a ∷ b ∷ c ∷ s) hb h =
    let (t, e, d, l) = encode_quads beyond s hb h.1.1.1 in
    (
      four a b c ++ t,
      rw (wget_block_ascii a b c h.0 h.1.0 h.1.1.0, e) refl,
      rw (quads_four a b c t h.0 h.1.0 h.1.1.0, d, fill_three (length s)) refl,
      length-four a b c t ∙ more_length (length t) (length s) l,
    )

-- Of a text of ASCII characters base64_encode reads nothing outside its table, if the byte behind
-- the text's NUL is ASCII as well, the result has four characters for each three begun, and
-- Base64Decode gives the text back, filled up by zeros to a multiple of three.
pub base64_decode-base64_encode :
    (beyond : ℕ) (s : Bytes)
    → beyond < 128
    → All (λ c. c < 128) s
    → (t : Bytes) × (base64_encode beyond s ≡ some t)
      × (base64_decode t ≡ s ++ replicate (fill (length s)) 0)
      × (length t ≡ 4 * ((length s + 2) / 3))
base64_decode-base64_encode beyond s hb h =
    let (t, e, d, l) = encode_quads beyond s hb h in (t, e, whole_quads t _ l ∙ d, l)
