-- ===== src/SockProxy/Connect.antt =====
-- The SOCKS branches of connectProxyHost (libspider/HttpCli.cpp): the exchange with the proxy once it is
-- connected.
use crowdspider.Base.{
  ℕ, zero, suc, ◌%◌, Bool, true, false, not, Option, none, some, List, [], ◌∷◌, ◌==◌, if◌then◌else◌,
  length, Bytes, c_str,
}
use crowdspider.Base.Int.{ℤ, pos, negsuc}
use crowdspider.SockProxy.Reply.{
  SocksReply, pending, rep4, rep4a, rep5, rep5auth, rep5pass, partial, new_proxy, recv_ok, Packet,
  recv_packet,
}
use crowdspider.SockProxy.Send.{
  Sending, send_packet, send4_req, send5_req, send5_auth_req, send5_pass_req,
}
use crowdspider.SockProxy.{strlen, SocksRequest, dword_bytes}
use crowdspider.Utils.ReadLine.{Reader}

-- `ret` is a bool, so that every result but 0 is the 1 that passes `if(ret <= 0) return false;`.
unfoldable pub as_bool : ℤ → Bool
as_bool (pos zero) = false
as_bool (pos (suc n)) = true
as_bool (negsuc n) = true

-- The results of one exchange: the reply and the connection, or the false that is returned; `none` is a
-- read or a free outside the objects of the program.
pub data Exchange : Type 0 where
  answered : SocksReply → Reader → Exchange
  returned_false : Exchange

-- Send a request, receive the reply of a type, and look at its status. `seen` gives the bytes in the
-- second fields of the packets whose reading fails.
unfoldable pub replied : (ℕ → ℕ) → Packet → Exchange
replied seen (ret, p, r) =
    if not (as_bool ret)
    then returned_false
    else if as_bool (recv_ok seen p)
    then answered p r
    else returned_false

unfoldable pub exchange :
    (ℕ → ℕ) → List Sending → SocksRequest → ℕ → SocksReply → Reader → Option Exchange
exchange seen feed request type p r = elim (send_packet true feed request) [
  | none ↦ none
  | some x ↦
      if as_bool x.0
      then elim (recv_packet type p r) [ none ↦ none | some y ↦ some (replied seen y) ]
      else some returned_false
]

-- The case of PROXY_SOCK4, for the address of the host that is wanted
unfoldable pub connect_sock4 : (ℕ → ℕ) → List Sending → ℕ → ℕ → Bytes → Reader → Option Exchange
connect_sock4 seen feed port addr user r =
    exchange seen feed (send4_req 1 port addr user) 33 new_proxy r

abbrev pub then_exchange :
    Option Exchange → (SocksReply → Reader → Option Exchange) → Option Exchange
then_exchange x f = elim x [
  | none ↦ none
  | some e ↦ elim e [ returned_false ↦ some returned_false | answered p r ↦ f p r ]
]

-- The methods offered: none, and with a user the password
abbrev pub methods : Bool → Bytes
methods auth = if auth then 0 ∷ 2 ∷ [] else 0 ∷ []

-- The address of a SOCKS5 request, as its type and its bytes: the four bytes of an address, or a length
-- and a host name. INADDR_NONE is the address that was not found.
abbrev pub destination : ℕ → Bytes → ℕ × Bytes
destination addr host =
    if addr == 4294967295 then (3, strlen host % 256 ∷ c_str host) else (1, dword_bytes addr)

-- What the proxy chose
abbrev pub chosen : (ℕ → ℕ) → SocksReply → ℕ
chosen seen x = elim x [
  | rep5auth p ↦ p.auths
  | pending addr ↦ 255
  | rep4 p ↦ 255
  | rep4a p ↦ 255
  | rep5 p ↦ 255
  | rep5pass p ↦ 255
  | partial type addr ↦ seen type
]

-- The account and the destination that the client asks the proxy for
pub record Asked : Type 0 where
  pub auth : Bool
  pub user : Bytes
  pub pass : Bytes
  pub port : ℕ
  pub addr : ℕ
  pub host : Bytes

-- The case of PROXY_SOCK5; the three feeds are for the three packets that may be sent.
unfoldable pub connect_sock5 :
    (ℕ → ℕ) → List Sending → List Sending → List Sending → Asked → Reader → Option Exchange
connect_sock5 seen f1 f2 f3 a r =
    let m = methods a.auth in
    then_exchange (exchange seen f1 (send5_auth_req (length m) m) 36 new_proxy r) (λ p r1.
      let d = destination a.addr a.host in
      let last =
        λ (q : SocksReply) (r2 : Reader). exchange seen f3 (send5_req 1 d.0 a.port d.1) 35 q r2 in
      if chosen seen p == 2
      then then_exchange (exchange seen f2 (send5_pass_req a.user a.pass) 37 p r1) last
      else last p r1)
