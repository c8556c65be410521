-- ===== src/HttpCli/Chunk.antt =====
-- fetchHtmlChunk (libspider/HttpCli.cpp): the body of an answer in chunks. The file that the bytes are
-- also written to takes them all.
use crowdspider.Base.{
  ℕ, zero, suc, ◌+◌, ◌-◌, ◌*◌, Bool, false, not, ◌&&◌, Option, none, some, [], ◌∷◌, ◌++◌, ◌==◌,
  if◌then◌else◌, ◌>>=◌, length, take, drop, Bytes, codes, c_str, to_lower, is_digit, is_xdigit,
  case_eq,
}
use crowdspider.Base.Int.{ℤ, pos, negsuc, pos_part}
use crowdspider.HttpCli.Conn.{got, closed, broken, recv, read_line, after}
use crowdspider.HttpCli.Response.{max_line_len, from, head_or_nul, is_space, negated}
use crowdspider.Utils.ReadLine.{Reader}
use Prim.Native.Nat.{min}
pub mod Data
pub mod RoundTrip

abbrev pub http_buf_size : ℕ
http_buf_size = 8192

abbrev pub hex_digit : ℕ → ℕ
hex_digit c = if is_digit c then c - b'0' else to_lower c - b'a' + 10

unfoldable pub hex_value : ℕ → Bytes → ℕ
hex_value v [] = v
hex_value v (c ∷ s) =
    let more = hex_value (v * 16 + hex_digit c) s in if is_xdigit c then more else v

-- The digits behind a sign, which a `0x` may stand before
unfoldable pub hex_digits : Bytes → ℕ
hex_digits s =
    if case_eq (take 2 s) (codes "0x") && is_xdigit (head_or_nul (drop 2 s))
    then hex_value 0 (drop 2 s)
    else hex_value 0 s

unfoldable pub signed_hex : Bytes → ℤ
signed_hex [] = pos 0
signed_hex (c ∷ s) =
    if c == b'-'
    then negated (hex_digits s)
    else if c == b'+'
    then pos (hex_digits s)
    else pos (hex_digits (c ∷ s))

-- `strtol(s, NULL, 16)`, of a number that fits a long
unfoldable pub strtol_hex : Bytes → ℤ
strtol_hex s = signed_hex (from (λ c. not (is_space c)) s)

-- The loop over a chunk's data: a read that gives nothing, at the end of the connection or after an
-- error, is tried again. `none` wants fuel.
unfoldable pub chunk_data : ℕ → ℕ → Bytes → Reader → Option (Bytes × Reader)
chunk_data zero size content r = none
chunk_data (suc fuel) size content r =
    let rest =
      elim (recv (min http_buf_size size) r.buffered r.feed) as (λ x. Option (Bytes × Reader)) [
        | got t r' ↦ chunk_data fuel (size - length t) (content ++ t) r'
        | closed r' ↦ chunk_data fuel size content r'
        | broken r' ↦ chunk_data fuel size content r'
      ] in
    if size == 0 then some (content, r) else rest

-- `filesize` of a line in the buffer
abbrev pub size_of : Bytes → ℤ
size_of buf = strtol_hex (c_str buf)

abbrev pub is_zero : ℤ → Bool
is_zero x = elim x [ pos n ↦ n == 0 | negsuc n ↦ false ]

-- The loop over the chunks. The buffer of the lines keeps what it holds where a ReadLine fails.
unfoldable pub chunk_loop : ℕ → ℤ → Bytes → Bytes → Reader → Option (Bytes × Reader)
chunk_loop zero size buf content r = none
chunk_loop (suc fuel) size buf content r = chunk_data (suc fuel) (pos_part size) content r >>= λ x.
    let newline = read_line max_line_len x.1 in
    let line = read_line max_line_len newline.left in
    let buf' = after line (after newline buf) in
    let rest = chunk_loop fuel (size_of buf') buf' x.0 line.left in
    if is_zero (size_of buf') then some (x.0, line.left) else rest

-- fetchHtmlChunk, with the buffer as it is before the first line
unfoldable pub fetch_html_chunk : ℕ → Bytes → Reader → Option (Bytes × Reader)
fetch_html_chunk fuel buf r =
    let line = read_line max_line_len r in
    let buf' = after line buf in chunk_loop fuel (size_of buf') buf' [] line.left
