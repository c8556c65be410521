-- ===== src/HttpCli/Request.antt =====
-- sendHttpRequest and the headers of a request (libspider/HttpCli.cpp). The URI's parts are values: the
-- class Uri is another module.
use crowdspider.Base.{
  ℕ, suc, ◌+◌, ◌-◌, Bool, ◌&&◌, Option, none, some, List, [], ◌∷◌, ◌++◌, ltb, ◌==◌, if◌then◌else◌,
  ◌>>=◌, length, take, drop, Bytes, codes, c_str,
}
use crowdspider.HttpCli.Response.{max_line_len}
use crowdspider.HttpMsg.{HttpHdr, HttpMsg, get_hdr_count, hdr_len, set_hdr}
use crowdspider.Utils.Base64.{base64_encode, own_base64_encode}
use crowdspider.Utils.Numbers.{write_digits}
pub mod Texts
pub mod Print
pub mod Answered

pub data Verb : Type 0 where
  head get post connect no_verb : Verb

-- The parts of the URI that the client reads; an absent query or fragment is `none`.
pub record UriParts : Type 0 where
  pub unparsed : Bytes
  pub path : Bytes
  pub query : Option Bytes
  pub fragment : Option Bytes
  pub hostname : Bytes
  pub port : ℕ
  pub user : Bytes
  pub password : Bytes

-- `%u` and `%d` of a number that is not negative
abbrev pub decimal : ℕ → Bytes
decimal n = if n == 0 then codes "0" else write_digits 24 n []

abbrev pub after_mark : Bytes → Option Bytes → Bytes
after_mark mark part = elim part [ none ↦ [] | some s ↦ mark ++ s ]

unfoldable pub req_path : Bool → UriParts → Bytes
req_path use_proxy u =
    if use_proxy
    then u.unparsed
    else (u.path ++ after_mark (codes "?") u.query) ++ after_mark (codes "#") u.fragment

-- `snprintf(buf + pos, n, "%s", text)`, which writes at most n - 1 characters and a NUL; `none` is a
-- write outside the buffer.
unfoldable pub write_at : ℕ → ℕ → Bytes → Bytes → Option Bytes
write_at n at text buf =
    let t = take (n - 1) text in
    if ltb (at + length t) (length buf)
    then some (take at buf ++ (t ++ (0 ∷ drop (suc (at + length t)) buf)))
    else none

abbrev pub method_line : Bytes → Bytes → Bytes
method_line method path = method ++ (path ++ (codes " HTTP/1.1" ++ (13 ∷ 10 ∷ [])))

-- What follows CONNECT
abbrev pub sites : Bool → UriParts → Bytes
sites use_proxy u =
    let path = req_path use_proxy u in
    if use_proxy then take 8189 (path ++ (b':' ∷ decimal u.port)) else path

-- The request line, and the number that `pos` grows by; none for the other verbs.
unfoldable pub req_line : Verb → Bool → UriParts → Option (Bytes × ℕ)
req_line get use_proxy u =
    let path = req_path use_proxy u in
    some (method_line (codes "GET ") path, 15 + length (c_str path))
req_line head use_proxy u =
    let path = req_path use_proxy u in
    some (method_line (codes "GET ") path, 15 + length (c_str path))
req_line connect use_proxy u =
    let site = sites use_proxy u in
    some (method_line (codes "CONNECT ") site, 19 + length (c_str site))
req_line post use_proxy u = none
req_line no_verb use_proxy u = none

abbrev pub hdr_print : HttpHdr → Bytes
hdr_print h = c_str h.key ++ (b':' ∷ b' ' ∷ (c_str h.val ++ (13 ∷ 10 ∷ [])))

-- The loop over the headers, at `pos`, and the empty line behind them
unfoldable pub write_hdrs : List HttpHdr → ℕ → Bytes → Option Bytes
write_hdrs [] at buf = write_at 3 at (13 ∷ 10 ∷ []) buf
write_hdrs (h ∷ hs) at buf =
    write_at max_line_len at (hdr_print h) buf >>= λ b. write_hdrs hs (at + hdr_len h) b

-- The request line, if there is one, and the headers
unfoldable pub write_request : Option (Bytes × ℕ) → List HttpHdr → Bytes → Option Bytes
write_request none hs buf = write_hdrs hs 0 buf
write_request (some (line, n)) hs buf = write_at 1024 0 line buf >>= λ b. write_hdrs hs n b

-- The bytes that sendHttpRequest passes to Send, from the buffer's bytes before
unfoldable pub send_http_request : Verb → Bool → UriParts → HttpMsg → Bytes → Option Bytes
send_http_request verb use_proxy u request buf =
    let written = write_request (req_line verb use_proxy u) request.hdrs buf in
    let filled = if ltb 0 (get_hdr_count request) then written else some buf in
    filled >>= λ b. some (c_str b)

-- buildHostHdr, whose buffer has 256 bytes for up to 1023 characters; `none` is a write outside of it.
unfoldable pub build_host_hdr : HttpMsg → Bytes → ℕ → Option HttpMsg
build_host_hdr m host port =
    let text = take 1023 (if port == 80 then host else host ++ (b':' ∷ decimal port)) in
    if ltb 255 (length text) then none else some (set_hdr m (codes "Host") text)

-- The `Host` of setupHttpSession
unfoldable pub host_text : Bytes → ℕ → Bytes
host_text host port =
    if port == 80 then take 1023 host else take 8191 (host ++ (b':' ∷ decimal port))

abbrev pub build_user_agent_hdr : HttpMsg → HttpMsg
build_user_agent_hdr m = set_hdr m (codes "User-Agent") (codes "crowdspider by yunlong.lee")

abbrev pub build_accept_hdr : HttpMsg → HttpMsg
build_accept_hdr m = set_hdr m (codes "Accept") (codes "*/*")

-- An EndPos of -1 is `none`.
abbrev pub build_range_hdr : HttpMsg → ℕ → Option ℕ → HttpMsg
build_range_hdr m start end_pos =
    set_hdr m (codes "Range") (
      codes "bytes=" ++ (decimal start ++ (b'-' ∷ elim end_pos [ none ↦ [] | some n ↦ decimal n ])))

abbrev pub build_referer_hdr : HttpMsg → Bytes → HttpMsg
build_referer_hdr m ref = set_hdr m (codes "Referer") ref

-- buildBasicAuthHdr and buildProxyAuthHdr; a missing name or password is the default one.
unfoldable pub auth_val : Option Bytes → Option Bytes → Option Bytes
auth_val user pass =
    let u : Bytes = elim user [ none ↦ codes "anonymous" | some s ↦ c_str s ] in
    let p : Bytes = elim pass [ none ↦ codes "yunlong.lee@163.com" | some s ↦ c_str s ] in
    let text = u ++ (b':' ∷ p) in
    base64_encode (length text) text >>= λ e. some (codes "Basic " ++ e)

unfoldable pub build_basic_auth_hdr : HttpMsg → Option Bytes → Option Bytes → Option HttpMsg
build_basic_auth_hdr m user pass =
    auth_val user pass >>= λ v. some (set_hdr m (codes "Authorization") v)

unfoldable pub build_proxy_auth_hdr : HttpMsg → Option Bytes → Option Bytes → Option HttpMsg
build_proxy_auth_hdr m user pass =
    auth_val user pass >>= λ v. some (set_hdr m (codes "Proxy-Authorization") v)

abbrev pub build_connection_hdr : HttpMsg → HttpMsg
build_connection_hdr m = set_hdr m (codes "Connection") (codes "Close")

abbrev pub build_content_range_hdr : HttpMsg → HttpMsg
build_content_range_hdr m = set_hdr m (codes "Content-Range") (codes "bytes=0-")

abbrev pub build_pragma_hdr : HttpMsg → HttpMsg
build_pragma_hdr m = set_hdr m (codes "Pragma") (codes "no-cache")

-- The account of the proxy, where one is used.
pub record ProxyAccount : Type 0 where
  pub name : Bytes
  pub pass : Bytes

abbrev pub own_headers : HttpMsg → UriParts → HttpMsg
own_headers m u =
    let host = set_hdr m (codes "Host") (host_text u.hostname u.port) in
    let referer = set_hdr host (codes "Referer") u.unparsed in
    let accept = set_hdr referer (codes "Accept") (codes "*/*") in
    let agent = set_hdr accept (codes "User-Agent") (codes "CrowdSpider") in
    set_hdr agent (codes "Connection") (codes "Close")

unfoldable pub user_header : HttpMsg → UriParts → Option HttpMsg
user_header m u =
    if ltb 0 (length u.user) && ltb 0 (length u.password)
    then own_base64_encode (c_str (u.user ++ (b':' ∷ u.password)))
      >>= (λ e. some (set_hdr m (codes "Authorization") (codes "Basic " ++ e)))
    else some m

unfoldable pub proxy_headers : HttpMsg → Option ProxyAccount → Option HttpMsg
proxy_headers m none = some m
proxy_headers m (some p) =
    let named =
      if ltb 0 (length p.name)
      then build_proxy_auth_hdr m (some p.name) (some p.pass)
      else some m in
    named >>= λ n. some (build_pragma_hdr n)

-- The headers that setupHttpSession sets; `none` is a fault of an encoder.
unfoldable pub session_headers : HttpMsg → UriParts → Option ProxyAccount → Option HttpMsg
session_headers m u proxy = user_header (own_headers m u) u >>= λ n. proxy_headers n proxy
