-- ===== src/SockProxy.antt =====
-- TSockProxy (libspider/SockProxy.cpp, SockProxy.h): the requests and replies of a SOCKS proxy.
use crowdspider.Base.{
  ℕ, zero, suc, ◌+◌, ◌*◌, ◌/◌, ◌%◌, Option, none, some, List, [], ◌∷◌, ◌++◌, leb, ◌==◌,
  if◌then◌else◌, length, Bytes, c_str,
}
use crowdspider.Base.Int.{ℤ, pos, negsuc}
use crowdspider.HttpCli.Response.{head_or_nul}
pub mod Append
pub mod Wire
pub mod Send
pub mod Password
pub mod Reply
pub mod Safe
pub mod Connect
pub mod NeverFalse
pub mod Refused

-- A `const char *` is the bytes from it on; behind them stands a NUL, and nothing is known behind that.
abbrev pub array : Bytes → Bytes
array s = s ++ (0 ∷ [])

abbrev pub strlen : Bytes → ℕ
strlen s = length (c_str s)

pub record Sock4Request : Type 0 where
  pub vers : ℕ
  pub cmds : ℕ
  pub port : ℕ
  pub addr : ℕ
  pub user : Bytes
  pub null : ℕ

pub record Sock4aRequest : Type 0 where
  pub vers : ℕ
  pub cmds : ℕ
  pub port : ℕ
  pub addr : ℕ
  pub suser : Bytes
  pub null1 : ℕ
  pub shost : Bytes
  pub null2 : ℕ

pub record Sock5Request : Type 0 where
  pub vers : ℕ
  pub cmds : ℕ
  pub rsv : ℕ
  pub type : ℕ
  pub addr : Bytes
  pub port : ℕ

pub record Sock5AuthRequest : Type 0 where
  pub vers : ℕ
  pub lauth : ℕ
  pub sauth : Bytes

pub record Sock5PassRequest : Type 0 where
  pub vers : ℕ
  pub luser : ℕ
  pub suser : Bytes
  pub lpass : ℕ
  pub spass : Bytes

-- SOCKS_REQUEST: the union with its type; `unknown` is any type but these five.
pub data SocksRequest : Type 0 where
  sock4 : Sock4Request → SocksRequest
  sock4a : Sock4aRequest → SocksRequest
  sock5 : Sock5Request → SocksRequest
  sock5auth : Sock5AuthRequest → SocksRequest
  sock5pass : Sock5PassRequest → SocksRequest
  unknown : SocksRequest

-- htons on a little-endian machine
abbrev pub htons : ℕ → ℕ
htons p = p % 256 * 256 + p / 256 % 256

-- The bytes of a word, the low one first
abbrev pub word_bytes : ℕ → Bytes
word_bytes w = w % 256 ∷ w / 256 % 256 ∷ []

abbrev pub dword_bytes : ℕ → Bytes
dword_bytes w = w % 256 ∷ w / 256 % 256 ∷ w / 65536 % 256 ∷ w / 16777216 % 256 ∷ []

-- What PackGet appends: values one after the other, or the first `n` bytes of an array in a loop.
pub data Stretch : Type 0 where
  values : Bytes → Stretch
  loop : ℕ → Bytes → Stretch

-- The buffer as far as it is written; `full` is -ENOBUFS, `outside` a read behind an array.
pub data Pack : Type 0 where
  packed : Bytes → Pack
  full outside : Pack

abbrev pub and_then : Pack → (Bytes → Pack) → Pack
and_then p f = elim p [ packed out ↦ f out | full ↦ full | outside ↦ outside ]

-- DATA_APPEND of several values
unfoldable pub append_values : ℕ → Bytes → Bytes → Pack
append_values size [] out = packed out
append_values size (v ∷ vs) out =
    let more = append_values size vs (out ++ (v ∷ [])) in
    if leb size (length out) then full else more

-- `for (n = 0; n < nLen; n++) DATA_APPEND(mem[n])`
unfoldable pub append_loop : ℕ → ℕ → Bytes → Bytes → Pack
append_loop size zero mem out = packed out
append_loop size (suc k) [] out = if leb size (length out) then full else outside
append_loop size (suc k) (c ∷ mem) out =
    let more = append_loop size k mem (out ++ (c ∷ [])) in
    if leb size (length out) then full else more

unfoldable pub append : ℕ → Stretch → Bytes → Pack
append size (values vs) out = append_values size vs out
append size (loop n mem) out = append_loop size n mem out

unfoldable pub append_all : ℕ → List Stretch → Bytes → Pack
append_all size [] out = packed out
append_all size (x ∷ xs) out = and_then (append size x out) (append_all size xs)

-- nLen of a SOCKS5 request's address
unfoldable pub addr_len : ℕ → Bytes → ℕ
addr_len type addr =
    if type == 1
    then 4
    else if type == 4
    then 16
    else if type == 3
    then 1 + head_or_nul addr
    else strlen addr

-- The cases of PackGet's switch
unfoldable pub stretches : SocksRequest → List Stretch
stretches (sock4 p) =
    values (p.vers ∷ p.cmds ∷ (word_bytes (htons p.port) ++ dword_bytes p.addr))
    ∷ loop (strlen p.user) (array p.user)
    ∷ values (p.null ∷ [])
    ∷ []
stretches (sock4a p) =
    values (p.vers ∷ p.cmds ∷ (word_bytes (htons p.port) ++ dword_bytes p.addr))
    ∷ loop (strlen p.suser) (array p.suser)
    ∷ values (p.null1 ∷ [])
    ∷ loop (strlen p.shost) (array p.shost)
    ∷ values (p.null2 ∷ [])
    ∷ []
stretches (sock5 p) =
    values (p.vers ∷ p.cmds ∷ p.rsv ∷ p.type ∷ [])
    ∷ loop (addr_len p.type p.addr) (array p.addr)
    ∷ values (word_bytes (htons p.port))
    ∷ []
stretches (sock5auth p) = values (p.vers ∷ p.lauth ∷ []) ∷ loop p.lauth (array p.sauth) ∷ []
stretches (sock5pass p) =
    values (p.vers ∷ p.luser ∷ [])
    ∷ loop p.luser (array p.suser)
    ∷ values (p.lpass ∷ [])
    ∷ loop p.luser (array p.spass)
    ∷ []
stretches unknown = []

-- What PackGet returns and the bytes it packed; `none` is a read outside an array.
abbrev pub PackGot : Type 0
PackGot = Option (ℤ × Bytes)

unfoldable pub pack_end : ℕ → Pack → PackGot
pack_end size (packed out) =
    if leb size (length out) then some (negsuc 27, out) else some (pos (length out), out)
pack_end size full = some (negsuc 104, [])
pack_end size outside = none

unfoldable pub pack_get : ℕ → SocksRequest → PackGot
pack_get size unknown = some (negsuc 21, [])
pack_get size r = pack_end size (append_all size (stretches r) [])

unfoldable pub pack_size : SocksRequest → ℤ
pack_size (sock4 p) = pos (9 + strlen p.user + 4)
pack_size (sock4a p) = pos (10 + strlen p.suser + strlen p.shost + 4)
pack_size (sock5 p) =
    let n =
      if p.type == 1
      then 4
      else if p.type == 4
      then 16
      else if p.type == 3
      then head_or_nul p.addr + 2
      else strlen p.addr + 2 in
    pos (6 + n + 4)
pack_size (sock5auth p) = pos (4 + p.lauth + 4)
pack_size (sock5pass p) = pos (4 + p.luser + p.lpass + 4)
pack_size unknown = negsuc 21
