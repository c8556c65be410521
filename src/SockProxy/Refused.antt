-- ===== src/SockProxy/Refused.antt =====
-- The SOCKS4 exchange with a proxy that answers (libspider/SockProxy.cpp, HttpCli.cpp).
use crowdspider.Base.{
  ℕ, zero, suc, ◌+◌, ◌*◌, ◌≤◌, ◌<◌, ◌≡◌, refl, true, some, List, [], ◌∷◌, ◌++◌, arith, ◌==◌, length,
  All, length-append, Bytes, c_str,
}
use crowdspider.Base.Int.{pos}
use crowdspider.SockProxy.Reply.{
  rep4, new_proxy, recv_destroy, recv_ok, recv_exact, then_recv, port_of, addr_of, recv_rep4,
  recv_type, recv_packet,
}
use crowdspider.SockProxy.Connect.{as_bool, answered, replied, exchange, connect_sock4}
use crowdspider.SockProxy.NeverFalse.{ok_ret-as_bool}
use crowdspider.SockProxy.Send.{Sending, took, send_packet, send4_req, send_packet-wire}
use crowdspider.SockProxy.Wire.{wire, IsRequest}
use crowdspider.SockProxy.{strlen}
use crowdspider.HttpCli.Conn.{recv}
use crowdspider.Utils.ReadLine.{Read}

-- A reply of eight bytes
abbrev pub reply4 : ℕ → ℕ → ℕ → ℕ → ℕ → ℕ → ℕ → ℕ → Bytes
reply4 v s p q a b c d = v ∷ s ∷ p ∷ q ∷ a ∷ b ∷ c ∷ d ∷ []

little_port : (p q : ℕ) → p < 256 → q < 256 → port_of (p ∷ q ∷ []) ≡ q * 256 + p
little_port p q hp hq = omega arith

little_addr :
    (a b c d : ℕ)
    → a < 256
    → b < 256
    → c < 256
    → d < 256
    → addr_of (a ∷ b ∷ c ∷ d ∷ []) ≡ d * 16777216 + c * 65536 + b * 256 + a
little_addr a b c d ha hb hc hd = omega arith

read_reply4 :
    (v s p q a b c d : ℕ) (rest : Bytes) (more : List Read)
    → recv_packet 33 new_proxy (record { buffered = reply4 v s p q a b c d ++ rest; feed = more })
      ≡ some (
        pos 1,
        rep4 (record {
          vers = v;
          status = s;
          port = port_of (p ∷ q ∷ []);
          addr = addr_of (a ∷ b ∷ c ∷ d ∷ []);
        }),
        record { buffered = rest; feed = more },
      )
unfolding recv_packet recv_type recv_destroy recv_rep4 then_recv recv_exact recv
read_reply4 v s p q a b c d rest more = refl

length-wire4 :
    (port addr : ℕ) (user : Bytes) → length (wire (send4_req 1 port addr user)) ≡ 9 + strlen user
unfolding wire
length-wire4 port addr user = omega (arith, length-append {0} (c_str user) (0 ∷ []))

sent4 :
    (k port addr : ℕ) (feed : List Sending) (user : Bytes)
    → 9 + strlen user ≤ k
    → (x : Bytes) × (send_packet true (took k ∷ feed) (send4_req 1 port addr user)
        ≡ some (pos (length x), x))
      × (0 < length x)
unfolding IsRequest
sent4 k port addr feed user l =
    let q = send4_req 1 port addr user in
    let n = length-wire4 port addr user in
    (wire q, send_packet-wire q k feed tt (omega (arith, n)), (omega (arith, n)))

as_bool-pos : (n : ℕ) → 0 < n → as_bool (pos n) ≡ true
unfolding as_bool
as_bool-pos zero h = absurd (omega arith)
as_bool-pos (suc n) h = refl

-- Where the socket takes the request at once and the proxy's reply is there, the exchange takes the
-- reply whatever its status is; its port and its address have their low byte first.
pub connect_sock4-reply4 :
    (seen : ℕ → ℕ) (k port addr : ℕ) (feed : List Sending) (user : Bytes) (v s p q a b c d : ℕ)
    (rest : Bytes) (more : List Read)
    → 9 + strlen user ≤ k
    → p < 256
    → q < 256
    → All (λ x. x < 256) (a ∷ b ∷ c ∷ d ∷ [])
    → connect_sock4 seen
        (took k ∷ feed)
        port
        addr
        user
        (record { buffered = reply4 v s p q a b c d ++ rest; feed = more })
      ≡ some (
          answered
            (rep4 (record {
              vers = v;
              status = s;
              port = q * 256 + p;
              addr = d * 16777216 + c * 65536 + b * 256 + a;
            }))
            (record { buffered = rest; feed = more }))
unfolding connect_sock4 exchange replied recv_ok as_bool
connect_sock4-reply4 seen k port addr feed user v s p q a b c d rest more l hp hq h =
    let (x, e, n) = sent4 k port addr feed user l in
    let t : as_bool (pos (length x)) ≡ true = as_bool-pos (length x) n in
    rw
      (
        connect_sock4,
        exchange,
        e,
        t,
        read_reply4 v s p q a b c d rest more,
        little_port p q hp hq,
        little_addr a b c d h.0 h.1.0 h.1.1.0 h.1.1.1.0,
        replied,
        recv_ok,
        ok_ret-as_bool (s == 90),
      )
      refl
