-- ===== src/SockProxy/Safe.antt =====
-- What RecvPacket leaves can be destroyed, unless a reply with an address broke off
-- (libspider/SockProxy.cpp).
use crowdspider.Base.{
  ℕ, ◌≡◌, refl, ap, ◌≢◌, Bool, true, false, Option, none, some, [], arith, ltb, if◌then◌else◌,
  length, Bytes,
}
use crowdspider.Base.Int.{pos, negsuc}
use crowdspider.SockProxy.Reply.{
  Addr, no_addr, owned, SocksReply, rep4, rep4a, partial, free_addr, recv_destroy, Exact, exact,
  short, recv_exact, Packet, then_recv, recv_rep4, recv_port5, recv_addr5, recv_rep5, recv_auth5,
  recv_pass5, recv_type, stale_of, recv_packet,
}
use crowdspider.HttpCli.Conn.{Recv, got, closed, broken, recv}
use crowdspider.Utils.ReadLine.{Reader}

-- No address in the packet was never set.
abbrev pub Destroyable : SocksReply → Type 0
Destroyable x = recv_destroy x ≢ none

-- A packet that was read can be destroyed, and no result is 0.
pub record Settled (x : Packet) : Type 0 where
  pub safe : x.0 ≡ pos 1 → Destroyable x.1
  pub nonzero : x.0 ≢ pos 0

error_ret : (n : ℕ) → negsuc n ≢ pos 1
error_ret n e = absurd (ground (arith, e))

error_zero : (n : ℕ) → negsuc n ≢ pos 0
error_zero n e = absurd (ground (arith, e))

one_zero : pos 1 ≢ pos 0
one_zero e = absurd (ground (arith, e))

broke_off : (n : ℕ) (p : SocksReply) (r : Reader) → Settled (negsuc n, p, r)
broke_off n p r = record { safe = λ q. absurd (error_ret n q); nonzero = error_zero n }

was_read : (p : SocksReply) (r : Reader) → Destroyable p → Settled (pos 1, p, r)
was_read p r h = record { safe = λ q. h; nonzero = one_zero }

abbrev BadShort : Exact → Type 0
BadShort x = elim x [ exact t r ↦ Unit | short e r ↦ (n : ℕ) × (e ≡ negsuc n) ]

abbrev recv_end : ℕ → Recv → Exact
recv_end n x = elim x [
  | got t r' ↦ if ltb (length t) n then short (negsuc 70) r' else exact t r'
  | closed r' ↦ if ltb 0 n then short (negsuc 70) r' else exact [] r'
  | broken r' ↦ short (negsuc 0) r'
]

cut_short :
    (b : Bool) (x : Exact) (n : ℕ) (r : Reader)
    → BadShort x
    → BadShort (if b then short (negsuc n) r else x)
cut_short true x n r h = (n, refl)
cut_short false x n r h = h

recv_end-BadShort : (n : ℕ) (x : Recv) → BadShort (recv_end n x)
recv_end-BadShort n (got t r') = cut_short _ (exact t r') 70 r' tt
recv_end-BadShort n (closed r') = cut_short _ (exact [] r') 70 r' tt
recv_end-BadShort n (broken r') = (0, refl)

recv_exact-BadShort : (n : ℕ) (r : Reader) → BadShort (recv_exact n r)
unfolding recv_exact
recv_exact-BadShort n r = recv_end-BadShort n (recv n r.buffered r.feed)

exact_end-Settled :
    (x : Exact) (kept : SocksReply) (f : Bytes → Reader → Packet)
    → BadShort x
    → ((t : Bytes) (r' : Reader) → Settled (f t r'))
    → Settled (elim x [ exact t r' ↦ f t r' | short e r' ↦ (e, kept, r') ])
exact_end-Settled (exact t r) kept f b h = h t r
exact_end-Settled (short e r) kept f b h = rw b.1 (broke_off b.0 kept r)

then_recv-Settled :
    (n : ℕ) (r : Reader) (kept : SocksReply) (f : Bytes → Reader → Packet)
    → ((t : Bytes) (r' : Reader) → Settled (f t r'))
    → Settled (then_recv n r kept f)
unfolding then_recv
then_recv-Settled n r kept f h =
    exact_end-Settled (recv_exact n r) kept f (recv_exact-BadShort n r) h

choose-Settled : (b : Bool) (x y : Packet) → Settled x → Settled y → Settled (if b then x else y)
choose-Settled true x y h k = h
choose-Settled false x y h k = k

some_reply : (p : SocksReply) → some p ≢ none
some_reply p e = absurd (ground (arith, e))

recv_rep4-Settled :
    (stale : Addr) (n : ℕ) (r : Reader) → Settled (recv_rep4 rep4 (partial n stale) r)
unfolding recv_rep4 recv_destroy
recv_rep4-Settled stale n r = then_recv-Settled 2 r _ _ (λ s r1.
    then_recv-Settled 2 r1 _ _
      (λ p r2. then_recv-Settled 4 r2 _ _ (λ a r3. was_read _ _ (some_reply _))))

recv_rep4a-Settled :
    (stale : Addr) (n : ℕ) (r : Reader) → Settled (recv_rep4 rep4a (partial n stale) r)
unfolding recv_rep4 recv_destroy
recv_rep4a-Settled stale n r = then_recv-Settled 2 r _ _ (λ s r1.
    then_recv-Settled 2 r1 _ _
      (λ p r2. then_recv-Settled 4 r2 _ _ (λ a r3. was_read _ _ (some_reply _))))

recv_port5-Settled :
    (s : Bytes) (addr : Addr) (r : Reader) → free_addr addr ≢ none → Settled (recv_port5 s addr r)
unfolding recv_port5 recv_destroy
recv_port5-Settled s addr r h = then_recv-Settled 2 r _ _ (λ p r'. was_read _ _ h)

recv_addr5-Settled :
    (s : Bytes) (n : ℕ) (stale : Addr) (r : Reader) → Settled (recv_addr5 s n stale r)
unfolding recv_addr5 free_addr
recv_addr5-Settled s n stale r =
    then_recv-Settled n r _ _ (λ a r'. recv_port5-Settled s (owned a) r' (some_reply _))

recv_rep5-Settled : (stale : Addr) (r : Reader) → Settled (recv_rep5 stale r)
unfolding recv_rep5 recv_destroy free_addr
recv_rep5-Settled stale r = then_recv-Settled 4 r _ _ (λ s r1.
    choose-Settled _ _ _ (was_read _ _ (some_reply _)) (
      choose-Settled _ _ _ (recv_addr5-Settled s 4 stale r1) (
        choose-Settled _ _ _ (recv_addr5-Settled s 16 stale r1) (
          choose-Settled _ _ _
            (then_recv-Settled 1 r1 _ _ (λ n r2. recv_addr5-Settled s _ stale r2))
            (recv_port5-Settled s no_addr r1 (some_reply _))))))

recv_auth5-Settled : (stale : Addr) (r : Reader) → Settled (recv_auth5 stale r)
unfolding recv_auth5 recv_destroy
recv_auth5-Settled stale r = then_recv-Settled 2 r _ _ (λ s r1. was_read _ _ (some_reply _))

recv_pass5-Settled : (stale : Addr) (r : Reader) → Settled (recv_pass5 stale r)
unfolding recv_pass5 recv_destroy
recv_pass5-Settled stale r = then_recv-Settled 2 r _ _ (λ s r1. was_read _ _ (some_reply _))

pub recv_type-Settled : (type : ℕ) (stale : Addr) (r : Reader) → Settled (recv_type type stale r)
unfolding recv_type
recv_type-Settled type stale r = choose-Settled _ _ _ (recv_rep4-Settled stale 33 r) (
    choose-Settled _ _ _ (recv_rep4a-Settled stale 34 r) (
      choose-Settled _ _ _ (recv_rep5-Settled stale r) (
        choose-Settled _ _ _ (recv_auth5-Settled stale r)
          (choose-Settled _ _ _ (recv_pass5-Settled stale r) (broke_off 21 _ _)))))

some_inj : (x y : Packet) → some x ≡ some y → x ≡ y
some_inj x y e = ap (λ (o : Option Packet). elim o [ none ↦ x | some z ↦ z ]) e

packet_end :
    (o : Option SocksReply) (type : ℕ) (r : Reader) (x : Packet)
    → (elim o as (λ z. Option Packet) [
      | none ↦ none
      | some p ↦ some (recv_type type (stale_of p) r)
    ])
      ≡ some x
    → Settled x
packet_end none type r x h = absurd (ground (arith, h))
packet_end (some p) type r x h = rw (← some_inj _ x h) (recv_type-Settled type (stale_of p) r)

recv_packet-Settled :
    (type : ℕ) (p : SocksReply) (r : Reader) (x : Packet)
    → recv_packet type p r ≡ some x
    → Settled x
unfolding recv_packet
recv_packet-Settled type p r x h = packet_end (recv_destroy p) type r x h

-- Whatever the type and the connection, a packet that RecvPacket returns success for can be destroyed:
-- its address is null or was allocated.
pub recv_packet-Destroyable :
    (type : ℕ) (p q : SocksReply) (r r' : Reader)
    → recv_packet type p r ≡ some (pos 1, q, r')
    → recv_destroy q ≢ none
recv_packet-Destroyable type p q r r' h = (recv_packet-Settled type p r _ h).safe refl
