-- ===== src/Utils/Base64/Own.antt =====
-- Base64Encode, which writes the credentials of HttpCli.cpp, against base64_encode
-- (libspider/Utils.cpp).
use crowdspider.Base.{
  ℕ, ◌+◌, ◌*◌, ◌/◌, ◌%◌, ◌^◌, ◌≤◌, ◌<◌, ◌≡◌, refl, sym, ap, ◌∙◌, ◌↔◌, Bool, true, false, not, ◌&&◌,
  ◌||◌, some, [], ◌∷◌, ◌++◌, arith, ltb, ◌==◌, lt→ltb, length, get_or, All, Bytes, bytes_eq,
  bytes_eq_iff,
}
use crowdspider.Base.Bits.{true_below, table_entry, same, same_eq}
use crowdspider.Utils.Base64.RoundTrip.{four, wget_block_ascii}
use crowdspider.Utils.Base64.{
  tbl, pad_one, pad_two, base64_encode, own_char, shift_6, own_quad, own_block, own_blocks,
  own_base64_encode,
}

own_char_low : (v : ℕ) → own_char v ≡ own_char (v % 256)
unfolding own_char
own_char_low v =
    let six : v % 256 % 64 ≡ v % 64 = omega arith in
    let eight : v % 256 % 256 ≡ v % 256 = omega arith in rw (six, eight) refl

-- The character is the table's, but for low eight bits that are 0.
abbrev char_law : ℕ → Bool
char_law v = same (own_char v == get_or tbl (v % 64) 0) (not (v == 0))

char_table : true_below 256 char_law ≡ true
unfolding true_below own_char
char_table = refl

char_eq : (v i : ℕ) → v % 64 ≡ i → (own_char v == get_or tbl i 0) ≡ not (v % 256 == 0)
char_eq v i h =
    let t = table_entry 256 char_law (v % 256) char_table (omega arith) in
    let six : v % 256 % 64 ≡ i = omega arith in
    ap (λ x. x == get_or tbl i 0) (own_char_low v)
    ∙ ap (λ j. own_char (v % 256) == get_or tbl j 0) (sym six)
    ∙ same_eq _ _ t

shift_small : (x y : ℕ) → x < 2 ^ 31 → x / 64 ≡ y → shift_6 x ≡ y
unfolding shift_6
shift_small x y h e = ground arith

quad_ascii : (a b c : ℕ) → a < 128 → b < 128 → c < 128 → own_quad a b c ≡ a * 65536 + b * 256 + c
unfolding own_quad
quad_ascii a b c ha hb hc = rw (lt→ltb a 128 ha, lt→ltb b 128 hb, lt→ltb c 128 hc) (omega arith)

and_true : (x : Bool) → (x && true) ≡ x
and_true x = ground arith

not_or : (x y : Bool) → (not x && not y) ≡ not (x || y)
not_or x y = ground arith

-- The four characters of a block, for ASCII characters.
own_block_ascii :
    (a b c : ℕ)
    → a < 128
    → b < 128
    → c < 128
    → own_block (own_quad a b c)
      ≡ own_char (a / 4)
        ∷ own_char (a * 16 + b / 16)
        ∷ own_char (a * 1024 + b * 4 + c / 64)
        ∷ own_char (a * 65536 + b * 256 + c)
        ∷ []
unfolding own_block
own_block_ascii a b c ha hb hc =
    rw
      (
        quad_ascii a b c ha hb hc,
        shift_small (a * 65536 + b * 256 + c) (a * 1024 + b * 4 + c / 64) (omega arith)
            (omega arith),
        shift_small (a * 1024 + b * 4 + c / 64) (a * 16 + b / 16) (omega arith) (omega arith),
        shift_small (a * 16 + b / 16) (a / 4) (omega arith) (omega arith),
      )
      refl

abbrev Printable : ℕ → Type 0
Printable c = (32 ≤ c) × (c < 128)

third_zero :
    (a b c : ℕ)
    → Printable b
    → Printable c
    → ((a * 1024 + b * 4 + c / 64) % 256 == 0) ≡ (b == b'@' && ltb c 64)
third_zero a b c hb hc = ground arith

own_char_pad : (v : ℕ) → v % 256 ≡ 0 → own_char v ≡ b'='
unfolding own_char
own_char_pad v h = rw h refl

-- A block of three characters comes out otherwise if the middle one is `@` and the last below 64.
own_block_eq :
    (a b c : ℕ) (s t : Bytes)
    → Printable a
    → Printable b
    → Printable c
    → bytes_eq (own_block (own_quad a b c) ++ s) (four a b c ++ t)
      ≡ not (b == b'@' && ltb c 64) && bytes_eq s t
unfolding bytes_eq four
own_block_eq a b c s t ha hb hc =
    let first : (a / 4 % 256 == 0) ≡ false = ground arith in
    let second : ((a * 16 + b / 16) % 256 == 0) ≡ false = ground arith in
    let last : ((a * 65536 + b * 256 + c) % 256 == 0) ≡ false = ground arith in
    rw
      (
        own_block_ascii a b c ha.1 hb.1 hc.1,
        char_eq (a / 4) (a / 4) (omega arith),
        char_eq (a * 16 + b / 16) (a % 4 * 16 + b / 16) (omega arith),
        char_eq (a * 1024 + b * 4 + c / 64) (b % 16 * 4 + c / 64) (omega arith),
        char_eq (a * 65536 + b * 256 + c) (c % 64) (omega arith),
        first,
        second,
        last,
        third_zero a b c hb hc,
      )
      refl

-- With two characters left, the block comes out otherwise if the last is `@`.
own_two_eq :
    (a b : ℕ)
    → Printable a
    → Printable b
    → bytes_eq (own_block (own_quad a b 0)) (pad_one (four a b 0)) ≡ not (b == b'@')
unfolding bytes_eq four pad_one
own_two_eq a b ha hb =
    let first : (a / 4 % 256 == 0) ≡ false = ground arith in
    let second : ((a * 16 + b / 16) % 256 == 0) ≡ false = ground arith in
    let third : ((a * 1024 + b * 4 + 0 / 64) % 256 == 0) ≡ (b == b'@') = ground arith in
    rw
      (
        own_block_ascii a b 0 ha.1 hb.1 (omega arith),
        char_eq (a / 4) (a / 4) (omega arith),
        char_eq (a * 16 + b / 16) (a % 4 * 16 + b / 16) (omega arith),
        char_eq (a * 1024 + b * 4 + 0 / 64) (b % 16 * 4 + 0 / 64) (omega arith),
        own_char_pad (a * 65536 + b * 256 + 0) (omega arith),
        first,
        second,
        third,
      )
      (and_true (not (b == b'@')))

-- With one character left, the block comes out otherwise if its low four bits are 0.
own_one_eq :
    (a beyond : ℕ)
    → Printable a
    → bytes_eq (own_block (own_quad a 0 0)) (pad_two (four a 0 beyond)) ≡ not (a % 16 == 0)
unfolding bytes_eq four pad_two
own_one_eq a beyond ha =
    let first : (a / 4 % 256 == 0) ≡ false = ground arith in
    let second : ((a * 16 + 0 / 16) % 256 == 0) ≡ (a % 16 == 0) = ground arith in
    rw
      (
        own_block_ascii a 0 0 ha.1 (omega arith) (omega arith),
        char_eq (a / 4) (a / 4) (omega arith),
        char_eq (a * 16 + 0 / 16) (a % 4 * 16 + 0 / 16) (omega arith),
        own_char_pad (a * 1024 + 0 * 4 + 0 / 64) (omega arith),
        own_char_pad (a * 65536 + 0 * 256 + 0) (omega arith),
        first,
        second,
      )
      (and_true (not (a % 16 == 0)))

-- A block whose character inside the result comes from eight low bits that are 0.
unfoldable pub is_spoiled : Bytes → Bool
is_spoiled [] = false
is_spoiled (a ∷ []) = a % 16 == 0
is_spoiled (a ∷ b ∷ []) = b == b'@'
is_spoiled (a ∷ b ∷ c ∷ s) = b == b'@' && ltb c 64 || is_spoiled s

own_eq :
    (beyond : ℕ) (s : Bytes)
    → beyond < 128
    → All Printable s
    → (t : Bytes) × (base64_encode beyond s ≡ some t)
      × (bytes_eq (own_blocks s) t ≡ not (is_spoiled s))
unfolding base64_encode own_blocks is_spoiled
own_eq beyond [] hb h = ([], refl, (unfold bytes_eq in refl))
own_eq beyond (a ∷ []) hb h = (
  pad_two (four a 0 beyond),
  rw (wget_block_ascii a 0 beyond h.0.1 (omega arith) hb) refl,
  own_one_eq a beyond h.0,
)
own_eq beyond (a ∷ b ∷ []) hb h = (
  pad_one (four a b 0),
  rw (wget_block_ascii a b 0 h.0.1 h.1.0.1 (omega arith)) refl,
  own_two_eq a b h.0 h.1.0,
)
own_eq beyond (a ∷ b ∷ c ∷ s) hb h =
    let (t, e, q) = own_eq beyond s hb h.1.1.1 in
    (
      four a b c ++ t,
      rw (wget_block_ascii a b c h.0.1 h.1.0.1 h.1.1.0.1, e) refl,
      own_block_eq a b c (own_blocks s) t h.0 h.1.0 h.1.1.0
          ∙ rw q (not_or (b == b'@' && ltb c 64) (is_spoiled s)),
    )

some_iff : (a t : Bytes) (b : Bool) → bytes_eq a t ≡ not b → (some a ≡ some t) ↔ (b ≡ false)
some_iff a t b q = ground (arith, bytes_eq_iff a t)

-- For a printable text of at most 90 characters Base64Encode gives what base64_encode gives exactly
-- if no block is spoiled: none has `@` in the middle with a character below 64 behind it, a last
-- block of two does not end in `@`, and a last one of one is no character whose low four bits are 0.
pub own_base64_encode_iff :
    (beyond : ℕ) (s : Bytes)
    → beyond < 128
    → All Printable s
    → length s ≤ 90
    → (own_base64_encode s ≡ base64_encode beyond s) ↔ (is_spoiled s ≡ false)
unfolding own_base64_encode
own_base64_encode_iff beyond s hb h l =
    let (t, e, q) = own_eq beyond s hb h in
    let fits : ltb 120 (4 * ((length s + 2) / 3)) ≡ false = ground arith in
    rw (fits, e) (some_iff (own_blocks s) t (is_spoiled s) q)
