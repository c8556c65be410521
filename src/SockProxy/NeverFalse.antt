-- ===== src/SockProxy/NeverFalse.antt =====
-- The SOCKS branches of connectProxyHost take every answer for a success (libspider/HttpCli.cpp).
use crowdspider.Base.{
  ap, ℕ, zero, suc, ◌≡◌, refl, ◌≢◌, inl, inr, Bool, true, false, Option, none, some, List, arith,
  ◌==◌, if◌then◌else◌, Bool-cases, Bytes,
}
use crowdspider.Base.Int.{ℤ, pos, negsuc}
use crowdspider.SockProxy.Connect.{
  as_bool, Exchange, answered, returned_false, replied, exchange, connect_sock4,
}
use crowdspider.SockProxy.Reply.{
  Addr, SocksReply, pending, rep4, rep4a, rep5, rep5auth, rep5pass, partial, new_proxy, ok_ret,
  status_ok, recv_ok, Packet, recv_destroy, recv_type, stale_of, recv_packet,
}
use crowdspider.SockProxy.Safe.{Settled, recv_type-Settled}
use crowdspider.SockProxy.Send.{Sending, send_ret, send_got, send_sized, send_packet, send4_req}
use crowdspider.SockProxy.{SocksRequest, PackGot, pack_get, pack_size}
use crowdspider.Utils.ReadLine.{Reader}

as_bool_of_ne : (x : ℤ) → x ≢ pos 0 → as_bool x ≡ true
unfolding as_bool
as_bool_of_ne (pos zero) h = absurd (h refl)
as_bool_of_ne (pos (suc n)) h = refl
as_bool_of_ne (negsuc n) h = refl

pub ok_ret-as_bool : (b : Bool) → as_bool (ok_ret b) ≡ true
unfolding as_bool
ok_ret-as_bool true = refl
ok_ret-as_bool false = refl

-- Every status passes the test of RecvOK's result, also one that was not read.
status_ok-as_bool : (type s : ℕ) → as_bool (status_ok type s) ≡ true
unfolding status_ok as_bool
status_ok-as_bool type s = ground arith

recv_ok-as_bool : (seen : ℕ → ℕ) (p : SocksReply) → as_bool (recv_ok seen p) ≡ true
unfolding recv_ok
recv_ok-as_bool seen (pending addr) = unfold as_bool in refl
recv_ok-as_bool seen (rep4 p) = ok_ret-as_bool _
recv_ok-as_bool seen (rep4a p) = ok_ret-as_bool _
recv_ok-as_bool seen (rep5 p) = ok_ret-as_bool _
recv_ok-as_bool seen (rep5auth p) = ok_ret-as_bool _
recv_ok-as_bool seen (rep5pass p) = ok_ret-as_bool _
recv_ok-as_bool seen (partial type addr) = status_ok-as_bool type (seen type)

replied-answered : (seen : ℕ → ℕ) (x : Packet) → Settled x → replied seen x ≡ answered x.1 x.2
unfolding replied
replied-answered seen (ret, p, r) h = rw (as_bool_of_ne ret h.nonzero, recv_ok-as_bool seen p) refl

-- An exchange that is taken for a success, with a property of the packet that it leaves.
pub record IsAnswered (P : SocksReply → Type 0) (x : Option Exchange) : Type 0 where
  pub packet : SocksReply
  pub left : Reader
  pub reply : x ≡ some (answered packet left)
  pub kept : P packet

-- Whatever SendPacket returns passes the test.
AnySent : PackGot → Type 0
AnySent x = elim x [ none ↦ Unit | some y ↦ as_bool y.0 ≡ true ]

send_ret-as_bool : (x : ℤ) (n : ℕ) → as_bool (send_ret x (suc n)) ≡ true
unfolding send_ret as_bool
send_ret-as_bool (pos zero) n = let e : (0 == suc n) ≡ false = ground arith in rw (e, as_bool) refl
send_ret-as_bool (pos (suc k)) n = elim (Bool-cases (suc k == suc n)) [
  | inl e ↦ rw (e, as_bool) refl
  | inr e ↦ rw (e, as_bool) refl
]
send_ret-as_bool (negsuc e) n = refl

send_got-AnySent : (feed : List Sending) (x : PackGot) → AnySent (send_got feed x)
unfolding AnySent send_got
send_got-AnySent feed none = tt
send_got-AnySent feed (some (negsuc e, out)) = unfold as_bool in refl
send_got-AnySent feed (some (pos zero, out)) = unfold as_bool in refl
send_got-AnySent feed (some (pos (suc n), out)) = send_ret-as_bool _ n

send_sized-AnySent :
    (alloc : Bool) (feed : List Sending) (q : SocksRequest) (x : ℤ)
    → AnySent (send_sized alloc feed q x)
unfolding AnySent send_sized
send_sized-AnySent alloc feed q (negsuc e) = unfold as_bool in refl
send_sized-AnySent alloc feed q (pos zero) = unfold as_bool in refl
send_sized-AnySent true feed q (pos (suc n)) = send_got-AnySent feed (pack_get (suc n) q)
send_sized-AnySent false feed q (pos (suc n)) = unfold as_bool in refl

exchanged :
    (seen : ℕ → ℕ) (P : SocksReply → Type 0) (x : PackGot) (o : Option Packet) (y : Packet)
    → o ≡ some y
    → AnySent x
    → x ≢ none
    → Settled y
    → P y.1
    → IsAnswered P (elim x as (λ z. Option Exchange) [
      | none ↦ none
      | some x ↦
          if as_bool x.0
          then elim o [ none ↦ none | some y ↦ some (replied seen y) ]
          else some returned_false
    ])
unfolding AnySent
exchanged seen P none o y e s n h p = absurd (n refl)
exchanged seen P (some x) none y e s n h p = absurd (ground (arith, e))
exchanged seen P (some x) (some z) y e s n h p =
    let same : z ≡ y = ap (λ (w : Option Packet). elim w [ none ↦ y | some v ↦ v ]) e in
    record {
      packet = y.1;
      left = y.2;
      reply = rw (s, same, replied-answered seen y h) refl;
      kept = p;
    }

packet_of :
    (type : ℕ) (p d : SocksReply) (r : Reader)
    → recv_destroy p ≡ some d
    → recv_packet type p r ≡ some (recv_type type (stale_of d) r)
unfolding recv_packet
packet_of type p d r e = rw (recv_packet, e) refl

-- One exchange whose request can be built, on a packet that can be destroyed.
exchange-IsAnswered :
    (seen : ℕ → ℕ) (P : SocksReply → Type 0) (feed : List Sending) (q : SocksRequest) (type : ℕ)
    (p d : SocksReply) (r : Reader)
    → send_packet true feed q ≢ none
    → recv_destroy p ≡ some d
    → ((stale : Addr) → P (recv_type type stale r).1)
    → IsAnswered P (exchange seen feed q type p r)
unfolding exchange send_packet
exchange-IsAnswered seen P feed q type p d r n e k =
    exchanged seen P (send_sized true feed q (pack_size q)) (recv_packet type p r) _
      (packet_of type p d r e) (send_sized-AnySent true feed q (pack_size q)) n
      (recv_type-Settled type (stale_of d) r) (k (stale_of d))

-- A packet that is destroyed to a pending one.
CanEnd : SocksReply → Type 0
CanEnd p = recv_destroy p ≡ some new_proxy

abbrev AnyPacket : SocksReply → Type 0
AnyPacket p = Unit

-- Whatever the proxy answers, or does not, whatever the socket takes, and whatever bytes stand where a
-- reply was not read, the SOCKS4 exchange is taken for a success, if its request can be built.
pub connect_sock4-answered :
    (seen : ℕ → ℕ) (feed : List Sending) (port addr : ℕ) (user : Bytes) (r : Reader)
    → send_packet true feed (send4_req 1 port addr user) ≢ none
    → (p : SocksReply) × (r' : Reader) × (connect_sock4 seen feed port addr user r
        ≡ some (answered p r'))
unfolding connect_sock4 recv_destroy
connect_sock4-answered seen feed port addr user r n =
    let h =
      exchange-IsAnswered seen AnyPacket feed (send4_req 1 port addr user) 33 new_proxy new_proxy r
        n refl (λ stale. tt) in
    (h.packet, h.left, h.reply)
