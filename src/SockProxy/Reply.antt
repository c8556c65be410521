-- ===== src/SockProxy/Reply.antt =====
-- RecvPacket, RecvOK and RecvDestroy (libspider/SockProxy.cpp): the replies of a SOCKS proxy.
use crowdspider.Base.{
  ℕ, ◌+◌, ◌*◌, ◌/◌, ◌%◌, Bool, not, ◌||◌, Option, none, some, [], ltb, ◌==◌, if◌then◌else◌, length,
  get_or, Bytes,
}
use crowdspider.Base.Int.{ℤ, pos, negsuc}
use crowdspider.HttpCli.Conn.{got, closed, broken, recv}
use crowdspider.Utils.ReadLine.{Reader}

-- The address of a SOCKS5 reply: a null pointer, allocated memory with its bytes, or a word that was
-- never set.
pub data Addr : Type 0 where
  wild no_addr : Addr
  owned : Bytes → Addr

pub record Sock4Reply : Type 0 where
  pub vers : ℕ
  pub status : ℕ
  pub port : ℕ
  pub addr : ℕ

pub record Sock5Reply : Type 0 where
  pub vers : ℕ
  pub status : ℕ
  pub rsv : ℕ
  pub type : ℕ
  pub addr : Addr
  pub port : ℕ

pub record Sock5AuthReply : Type 0 where
  pub vers : ℕ
  pub auths : ℕ

pub record Sock5PassReply : Type 0 where
  pub vers : ℕ
  pub status : ℕ

-- SOCKS_REPLY: no reply (with what stands where a SOCKS5 reply has its address), one that was read, or
-- one of a type whose reading has failed.
pub data SocksReply : Type 0 where
  pending : Addr → SocksReply
  rep4 : Sock4Reply → SocksReply
  rep4a : Sock4Reply → SocksReply
  rep5 : Sock5Reply → SocksReply
  rep5auth : Sock5AuthReply → SocksReply
  rep5pass : Sock5PassReply → SocksReply
  partial : ℕ → Addr → SocksReply

-- The constructor sets only the type.
abbrev pub new_proxy : SocksReply
new_proxy = pending wild

-- `free` of an address that is not null; `none` is one that was never set.
unfoldable pub free_addr : Addr → Option SocksReply
free_addr wild = none
free_addr no_addr = some (pending no_addr)
free_addr (owned s) = some (pending no_addr)

-- RecvDestroy; its memset stops before the address.
unfoldable pub recv_destroy : SocksReply → Option SocksReply
recv_destroy (rep5 p) = free_addr p.addr
recv_destroy (partial type addr) =
    if type == 35 || type == 65 then free_addr addr else some (pending wild)
recv_destroy (pending addr) = some (pending addr)
recv_destroy _ = some (pending wild)

-- The end of RecvOK: `if (ret > 0) ret = EPERM; else if (0 == ret) ret = -EPROTO;`
abbrev pub ok_ret : Bool → ℤ
ok_ret b = if b then pos 1 else negsuc 70

-- The switch of RecvOK, on a packet's type and the byte in its second field
unfoldable pub status_ok : ℕ → ℕ → ℤ
status_ok type s =
    if type == 33
    then ok_ret (s == 90)
    else if type == 34
    then ok_ret (s == 90)
    else if type == 35
    then ok_ret (s == 0)
    else if type == 36
    then ok_ret (s == 0 || s == 1 || s == 2 || s == 3)
    else if type == 37
    then ok_ret (s == 0)
    else negsuc 21

-- RecvOK of the packet's own type. Where the reading of a packet has failed, its second field holds some
-- byte, `seen type`: the one that was read, or what stood in the memory.
unfoldable pub recv_ok : (ℕ → ℕ) → SocksReply → ℤ
recv_ok seen (rep4 p) = ok_ret (p.status == 90)
recv_ok seen (rep4a p) = ok_ret (p.status == 90)
recv_ok seen (rep5 p) = ok_ret (p.status == 0)
recv_ok seen (rep5auth p) = ok_ret (p.auths == 0 || p.auths == 1 || p.auths == 2 || p.auths == 3)
recv_ok seen (rep5pass p) = ok_ret (p.status == 0)
recv_ok seen (pending addr) = negsuc 21
recv_ok seen (partial type addr) = status_ok type (seen type)

-- Recv of `n` bytes and NSR_PROCESS_SOCKSLEN: the bytes, or the error.
pub data Exact : Type 0 where
  exact : Bytes → Reader → Exact
  short : ℤ → Reader → Exact

unfoldable pub recv_exact : ℕ → Reader → Exact
recv_exact n r = elim (recv n r.buffered r.feed) [
  | got t r' ↦ if ltb (length t) n then short (negsuc 70) r' else exact t r'
  | closed r' ↦ if ltb 0 n then short (negsuc 70) r' else exact [] r'
  | broken r' ↦ short (negsuc 0) r'
]

-- What a packet's reading returns, the reply and the connection.
abbrev pub Packet : Type 0
Packet = ℤ × SocksReply × Reader

-- A read; where it fails the packet is `kept`.
unfoldable pub then_recv : ℕ → Reader → SocksReply → (Bytes → Reader → Packet) → Packet
then_recv n r kept f = elim (recv_exact n r) [ exact t r' ↦ f t r' | short e r' ↦ (e, kept, r') ]

abbrev pub byte_at : Bytes → ℕ → ℕ
byte_at s i = get_or s i 0

-- ntohs and ntohl on a little-endian machine
abbrev pub ntohs : ℕ → ℕ
ntohs w = w % 256 * 256 + w / 256 % 256

abbrev pub ntohl : ℕ → ℕ
ntohl w = w % 256 * 16777216 + w / 256 % 256 * 65536 + w / 65536 % 256 * 256 + w / 16777216 % 256

-- `ntohs(pPackBufs[0] << 8 | pPackBufs[1])`
abbrev pub port_of : Bytes → ℕ
port_of t = ntohs (byte_at t 0 * 256 + byte_at t 1)

abbrev pub addr_of : Bytes → ℕ
addr_of t = ntohl (byte_at t 0 * 16777216 + byte_at t 1 * 65536 + byte_at t 2 * 256 + byte_at t 3)

-- The cases of SOCKS_PACK_4REP and SOCKS_PACK_4AREP
unfoldable pub recv_rep4 : (Sock4Reply → SocksReply) → SocksReply → Reader → Packet
recv_rep4 make kept r = then_recv 2 r kept (λ s r1. then_recv 2 r1 kept (λ p r2.
    then_recv 4 r2 kept (λ a r3. (
      pos 1,
      make
          (record { vers = byte_at s 0; status = byte_at s 1; port = port_of p; addr = addr_of a }),
      r3,
    ))))

-- A SOCKS5 reply, from its first four bytes
abbrev pub reply5 : Bytes → Addr → ℕ → SocksReply
reply5 s addr port = rep5 (record {
  vers = byte_at s 0;
  status = byte_at s 1;
  rsv = byte_at s 2;
  type = byte_at s 3;
  addr = addr;
  port = port;
})

-- The end of SOCKS_PACK_5REP: the port
unfoldable pub recv_port5 : Bytes → Addr → Reader → Packet
recv_port5 s addr r =
    then_recv 2 r (partial 35 addr) (λ p r'. (pos 1, reply5 s addr (port_of p), r'))

-- The address of a SOCKS5 reply, of a number of bytes
unfoldable pub recv_addr5 : Bytes → ℕ → Addr → Reader → Packet
recv_addr5 s n stale r = then_recv n r (partial 35 stale) (λ a r'. recv_port5 s (owned a) r')

-- The case of SOCKS_PACK_5REP
unfoldable pub recv_rep5 : Addr → Reader → Packet
recv_rep5 stale r = then_recv 4 r (partial 35 stale) (λ s r1.
    if not (byte_at s 1 == 0)
    then (pos 1, reply5 s no_addr 0, r1)
    else if byte_at s 3 == 1
    then recv_addr5 s 4 stale r1
    else if byte_at s 3 == 4
    then recv_addr5 s 16 stale r1
    else if byte_at s 3 == 3
    then then_recv 1 r1 (partial 35 stale) (λ n r2. recv_addr5 s (byte_at n 0) stale r2)
    else recv_port5 s no_addr r1)

unfoldable pub recv_auth5 : Addr → Reader → Packet
recv_auth5 stale r =
    then_recv 2 r (partial 36 stale)
      (λ s r'. (pos 1, rep5auth (record { vers = byte_at s 0; auths = byte_at s 1 }), r'))

unfoldable pub recv_pass5 : Addr → Reader → Packet
recv_pass5 stale r =
    then_recv 2 r (partial 37 stale)
      (λ s r'. (pos 1, rep5pass (record { vers = byte_at s 0; status = byte_at s 1 }), r'))

-- The switch of RecvPacket, on a packet that is pending
unfoldable pub recv_type : ℕ → Addr → Reader → Packet
recv_type type stale r =
    if type == 33
    then recv_rep4 rep4 (partial 33 stale) r
    else if type == 34
    then recv_rep4 rep4a (partial 34 stale) r
    else if type == 35
    then recv_rep5 stale r
    else if type == 36
    then recv_auth5 stale r
    else if type == 37
    then recv_pass5 stale r
    else (negsuc 21, (if type == 0 then pending stale else partial type stale), r)

-- What stands in the address field of a packet.
abbrev pub stale_of : SocksReply → Addr
stale_of x = elim x [
  | pending addr ↦ addr
  | rep4 p ↦ wild
  | rep4a p ↦ wild
  | rep5 p ↦ p.addr
  | rep5auth p ↦ wild
  | rep5pass p ↦ wild
  | partial type addr ↦ addr
]

-- RecvPacket with a type; malloc does not fail. `none` frees an address that was never set.
unfoldable pub recv_packet : ℕ → SocksReply → Reader → Option Packet
recv_packet type packet r = elim (recv_destroy packet) [
  | none ↦ none
  | some p ↦ some (recv_type type (stale_of p) r)
]
