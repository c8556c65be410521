-- ===== src/Utils/Base64.antt =====
-- base64_encode (the routine taken from wget), Base64Encode and Base64Decode (libspider/Utils.cpp).
-- A text is the bytes before its NUL.
use crowdspider.Base.{
  ℕ, ◌+◌, ◌-◌, ◌*◌, ◌/◌, ◌%◌, ◌^◌, not, ◌&&◌, ◌||◌, Option, none, some, [], ◌∷◌, ◌++◌, ltb, leb,
  ◌==◌, if◌then◌else◌, ◌>>=◌, length, get_elem?, Bytes, codes, schar,
}
pub mod RoundTrip
pub mod Own

-- `tbl` of base64_encode
abbrev pub tbl : Bytes
tbl = codes "ABCDEFGHIJKLMNOPQRSTUVWXYZabcdefghijklmnopqrstuvwxyz0123456789+/"

-- `c >> k` of a signed `char`, as a pair: `high` less `low`
abbrev pub high : ℕ → ℕ → ℕ
high c k = c / 2 ^ k

abbrev pub low : ℕ → ℕ → ℕ
low c k = if ltb c 128 then 0 else 256 / 2 ^ k

-- `tbl[plus - minus]`; `none` outside the table
unfoldable pub tbl_at : ℕ → ℕ → Option ℕ
tbl_at plus minus = if ltb plus minus then none else get_elem? tbl (plus - minus)

-- One round of the loop: three characters give four.
unfoldable pub wget_block : ℕ → ℕ → ℕ → Option Bytes
wget_block a b c = do
  w ← tbl_at (high a 2) (low a 2)
  x ← tbl_at (a % 4 * 16 + high b 4) (low b 4)
  y ← tbl_at (b % 16 * 4 + high c 6) (low c 6)
  z ← tbl_at (c % 64) 0
  some (w ∷ x ∷ y ∷ z ∷ [])

-- The two writes behind the loop: `i == length + 1` and `i == length + 2`.
unfoldable pub pad_one : Bytes → Bytes
pad_one (w ∷ x ∷ y ∷ z ∷ s) = w ∷ x ∷ y ∷ b'=' ∷ s
pad_one s = s

unfoldable pub pad_two : Bytes → Bytes
pad_two (w ∷ x ∷ y ∷ z ∷ s) = w ∷ x ∷ b'=' ∷ b'=' ∷ s
pad_two s = s

-- base64_encode. Behind the text it reads the NUL and, if one character is left for the last
-- round, the byte `beyond` as well.
unfoldable pub base64_encode : ℕ → Bytes → Option Bytes
base64_encode beyond [] = some []
base64_encode beyond (a ∷ []) = do block ← wget_block a 0 beyond; some (pad_two block)
base64_encode beyond (a ∷ b ∷ []) = do block ← wget_block a b 0; some (pad_one block)
base64_encode beyond (a ∷ b ∷ c ∷ s) = do
  block ← wget_block a b c
  rest ← base64_encode beyond s
  some (block ++ rest)

-- The chain of tests on `*sz` in Base64Decode
unfoldable pub decode_char : ℕ → ℕ
decode_char c =
    if leb b'A' c && leb c b'Z'
    then c - b'A'
    else if leb b'a' c && leb c b'z'
    then c - b'a' + 26
    else if leb b'0' c && leb c b'9'
    then c - b'0' + 52
    else if c == b'+'
    then 62
    else if c == b'/'
    then 63
    else 0

-- `trip`, and the three bytes that it is written as
unfoldable pub trip : ℕ → ℕ → ℕ → ℕ → ℕ
trip w x y z = ((w * 64 + x) * 64 + y) * 64 + z

unfoldable pub trip_bytes : ℕ → Bytes
trip_bytes t = t / 65536 % 256 ∷ t / 256 % 256 ∷ t % 256 ∷ []

unfoldable pub decode_quads : Bytes → Bytes
decode_quads (w ∷ x ∷ y ∷ z ∷ s) =
    trip_bytes (trip (decode_char w) (decode_char x) (decode_char y) (decode_char z))
    ++ decode_quads s
decode_quads _ = []

-- Base64Decode; a length that is no multiple of 4 gives the empty text.
unfoldable pub base64_decode : Bytes → Bytes
base64_decode sz = if length sz == 0 || not (length sz % 4 == 0) then [] else decode_quads sz

-- One character of Base64Encode: `=` if the low eight bits are 0, by the low six bits otherwise.
unfoldable pub own_char : ℕ → ℕ
own_char quad =
    let val = quad % 64 in
    if quad % 256 == 0
    then b'='
    else if ltb val 26
    then b'A' + val
    else if ltb val 52
    then b'a' + val - 26
    else if ltb val 62
    then b'0' + val - 52
    else if val == 62
    then b'+'
    else b'/'

-- `quad >>= 6` of a 32-bit int, held as a word
unfoldable pub shift_6 : ℕ → ℕ
shift_6 quad = quad / 64 + (if ltb quad (2 ^ 31) then 0 else 63 * 2 ^ 26)

-- `quad`, from three characters, where 0 stands for those that the text no longer has
unfoldable pub own_quad : ℕ → ℕ → ℕ → ℕ
own_quad a b c = ((schar a * 256 + schar b) * 256 + schar c) % 2 ^ 32

unfoldable pub own_block : ℕ → Bytes
own_block quad =
    let one = shift_6 quad in
    let two = shift_6 one in
    let three = shift_6 two in own_char three ∷ own_char two ∷ own_char one ∷ own_char quad ∷ []

unfoldable pub own_blocks : Bytes → Bytes
own_blocks [] = []
own_blocks (a ∷ []) = own_block (own_quad a 0 0)
own_blocks (a ∷ b ∷ []) = own_block (own_quad a b 0)
own_blocks (a ∷ b ∷ c ∷ s) = own_block (own_quad a b c) ++ own_blocks s

-- Base64Encode. `string strEncoded('x', n)` is 120 times the character `n`, so that a longer result
-- is written outside the string (`none`).
unfoldable pub own_base64_encode : Bytes → Option Bytes
own_base64_encode sz =
    let dst_len = 4 * ((length sz + 2) / 3) in
    if ltb 120 dst_len then none else some (own_blocks sz)
