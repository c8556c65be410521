-- ===== src/HttpCli/Response.antt =====
-- recvHttpResponse (libspider/HttpCli.cpp): the status line and the headers of an answer.
use crowdspider.Base.{
  ℕ, zero, suc, ◌+◌, ◌-◌, ◌*◌, Bool, not, ◌&&◌, ◌||◌, Option, none, some, [], ◌∷◌, leb, ◌==◌,
  if◌then◌else◌, get_or, drop, Bytes, c_str, is_digit,
}
use crowdspider.Base.Int.{ℤ, pos, negsuc}
use crowdspider.HttpCli.Conn.{read_line}
use crowdspider.HttpMsg.{HttpMsg, clear_all_hdr, set_hdr}
use crowdspider.Utils.ReadLine.{Reader}
pub mod Texts
pub mod RoundTrip
pub mod Answer

abbrev pub max_line_len : ℕ
max_line_len = 8192

-- The part of a text before the first character of a kind, and the part from there on.
unfoldable pub before : (ℕ → Bool) → Bytes → Bytes
before stop [] = []
before stop (c ∷ s) = let rest = before stop s in if stop c then [] else c ∷ rest

unfoldable pub from : (ℕ → Bool) → Bytes → Bytes
from stop [] = []
from stop (c ∷ s) = let rest = from stop s in if stop c then c ∷ s else rest

abbrev pub not_space : ℕ → Bool
not_space c = not (c == b' ')

-- '\r' or '\n'
abbrev pub ends_line : ℕ → Bool
ends_line c = c == 13 || c == 10

-- a colon or the line's end, and a space or the line's end
abbrev pub ends_key : ℕ → Bool
ends_key c = c == b':' || ends_line c

abbrev pub ends_word : ℕ → Bool
ends_word c = c == b' ' || ends_line c

-- `*ptr` of a text, whose NUL stands behind it
abbrev pub head_or_nul : Bytes → ℕ
head_or_nul s = get_or s 0 0

unfoldable pub digits_value : ℕ → Bytes → ℕ
digits_value v [] = v
digits_value v (c ∷ s) =
    let more = digits_value (v * 10 + (c - b'0')) s in if is_digit c then more else v

-- isspace in the C locale
abbrev pub is_space : ℕ → Bool
is_space c = c == b' ' || leb 9 c && leb c 13

abbrev pub negated : ℕ → ℤ
negated zero = pos 0
negated (suc n) = negsuc n

unfoldable pub signed_digits : Bytes → ℤ
signed_digits [] = pos 0
signed_digits (c ∷ s) =
    if c == b'-'
    then negated (digits_value 0 s)
    else if c == b'+'
    then pos (digits_value 0 s)
    else pos (digits_value 0 (c ∷ s))

-- atoi, of a number that fits an int
unfoldable pub atoi : Bytes → ℤ
atoi s = signed_digits (from (λ c. not (is_space c)) s)

-- The text at the status code, behind the version; `none` is the return of -1.
unfoldable pub status_text : Bytes → Option Bytes
status_text line =
    let p = from ends_word (from not_space line) in
    if head_or_nul p == b' ' then some (from not_space p) else none

-- A header line: the blank one that ends them, a key with its value, or anything else.
pub data HdrLine : Type 0 where
  blank malformed : HdrLine
  pair : Bytes → Bytes → HdrLine

unfoldable pub hdr_line : Bytes → HdrLine
hdr_line line =
    let p = from not_space line in
    let rest = from ends_key p in
    if ends_line (head_or_nul p)
    then blank
    else if head_or_nul rest == b':'
    then pair (before ends_key p) (before ends_line (from not_space (drop 1 rest)))
    else malformed

-- What recvHttpResponse returns, the headers of the answer and the connection; `none` wants fuel.
abbrev pub Received : Type 0
Received = Option (ℤ × HttpMsg × Reader)

-- `if(ret < 0) return ret; if(ret == 0) return -1;`
unfoldable pub unread : ℤ → Option ℤ
unread (pos zero) = some (negsuc 0)
unread (pos (suc n)) = none
unread (negsuc n) = some (negsuc n)

-- The loop over the headers, at most `fuel` of them
unfoldable pub recv_hdrs : ℕ → ℤ → HttpMsg → Reader → Received
recv_hdrs zero status m r = none
recv_hdrs (suc fuel) status m r =
    let l = read_line max_line_len r in
    elim (unread l.ret) [
      | some e ↦ some (e, m, l.left)
      | none ↦ elim (hdr_line (c_str l.text)) [
        | blank ↦ some (status, m, l.left)
        | pair key val ↦ recv_hdrs fuel status (set_hdr m key val) l.left
        | malformed ↦ some (negsuc 0, m, l.left)
      ]
    ]

unfoldable pub recv_http_response : ℕ → HttpMsg → Reader → Received
recv_http_response fuel response r =
    let m = clear_all_hdr response in
    let l = read_line max_line_len r in
    elim (unread l.ret) [
      | some e ↦ some (e, m, l.left)
      | none ↦ elim (status_text (c_str l.text)) [
        | none ↦ some (negsuc 0, m, l.left)
        | some code ↦ recv_hdrs fuel (atoi code) m l.left
      ]
    ]
