-- ===== src/SockProxy/Send.antt =====
-- TcpSocket::Send (libspider/Socket.cpp), SendPacket and the requests that are sent
-- (libspider/SockProxy.cpp).
use crowdspider.Base.{
  ℕ, zero, suc, ◌+◌, ◌-◌, ◌%◌, ◌≤◌, ◌<◌, ◌≡◌, refl, Bool, true, false, none, some, List, [], ◌∷◌,
  ◌++◌, map, arith, ◌==◌, if◌then◌else◌, ==_refl, length, take, All, take_all, Bytes,
}
use crowdspider.Base.Int.{ℤ, pos, negsuc}
use crowdspider.SockProxy.Wire.{wire, IsRequest, wire_fits, pack_get-wire}
use crowdspider.SockProxy.{
  strlen, SocksRequest, sock4, sock4a, sock5, sock5auth, sock5pass, PackGot, pack_get, pack_size,
}
use Prim.Native.Nat.{min}

-- What a call of `send` gives: an interruption, another error or a timeout, or a number of bytes taken.
-- Where the list of a socket's results runs out, it fails.
pub data Sending : Type 0 where
  retried refused : Sending
  took : ℕ → Sending

-- What Send returns, and the bytes it did not send.
pub record SendEnd : Type 0 where
  pub ret : ℤ
  pub unsent : ℕ

unfoldable pub send_loop : List Sending → ℕ → ℤ → SendEnd
send_loop [] n ret =
    if n == 0 then record { ret = ret; unsent = 0 } else record { ret = negsuc 0; unsent = n }
send_loop (retried ∷ feed) n ret =
    let rest = send_loop feed n ret in if n == 0 then record { ret = ret; unsent = 0 } else rest
send_loop (refused ∷ feed) n ret =
    if n == 0 then record { ret = ret; unsent = 0 } else record { ret = negsuc 0; unsent = n }
send_loop (took k ∷ feed) n ret =
    let rest = send_loop feed (n - k) (pos (min k n)) in
    if n == 0
    then record { ret = ret; unsent = 0 }
    else if k == 0
    then record { ret = pos 0; unsent = n }
    else rest

-- TcpSocket::Send
unfoldable pub send : List Sending → ℕ → SendEnd
send feed size = send_loop feed size (pos 0)

-- `if (ret != nSize) { if (ret >= 0) ret = -ENOSPC; }`
unfoldable pub send_ret : ℤ → ℕ → ℤ
send_ret (pos k) size = if k == size then pos k else negsuc 27
send_ret (negsuc k) size = negsuc k

-- What SendPacket returns and the bytes that went out; `alloc` is whether malloc gives memory.
unfoldable pub send_got : List Sending → PackGot → PackGot
send_got feed none = none
send_got feed (some (negsuc e, out)) = some (negsuc e, [])
send_got feed (some (pos zero, out)) = some (negsuc 60, [])
send_got feed (some (pos (suc n), out)) =
    let x = send feed (suc n) in some (send_ret x.ret (suc n), take (suc n - x.unsent) out)

unfoldable pub send_sized : Bool → List Sending → SocksRequest → ℤ → PackGot
send_sized alloc feed r (negsuc e) = some (negsuc e, [])
send_sized alloc feed r (pos zero) = some (negsuc 21, [])
send_sized alloc feed r (pos (suc n)) =
    if alloc then send_got feed (pack_get (suc n) r) else some (negsuc 11, [])

unfoldable pub send_packet : Bool → List Sending → SocksRequest → PackGot
send_packet alloc feed r = send_sized alloc feed r (pack_size r)

abbrev pub send4_req : ℕ → ℕ → ℕ → Bytes → SocksRequest
send4_req cmds port destin user =
    sock4 (record { vers = 4; cmds = cmds; port = port; addr = destin; user = user; null = 0 })

-- The address SOCKS_ADDR_UNKNOWN
abbrev pub send4a_req : ℕ → ℕ → Bytes → Bytes → SocksRequest
send4a_req cmds port host user = sock4a (record {
  vers = 4;
  cmds = cmds;
  port = port;
  addr = 268435456;
  suser = user;
  null1 = 0;
  shost = host;
  null2 = 0;
})

abbrev pub send5_req : ℕ → ℕ → ℕ → Bytes → SocksRequest
send5_req cmds type port destin =
    sock5 (record { vers = 5; cmds = cmds; rsv = 0; type = type; addr = destin; port = port })

abbrev pub send5_auth_req : ℕ → Bytes → SocksRequest
send5_auth_req lauth sauth = sock5auth (record { vers = 5; lauth = lauth; sauth = sauth })

abbrev pub send5_pass_req : Bytes → Bytes → SocksRequest
send5_pass_req user pass = sock5pass (record {
  vers = 1;
  luser = strlen user % 256;
  lpass = strlen pass % 256;
  suser = user;
  spass = pass;
})

nothing_off : (n : ℕ) → n - 0 ≡ n
nothing_off n = omega arith

positive : (n : ℕ) → 0 < n → (n == 0) ≡ false
positive n h = ground arith

send_loop-nothing :
    (feed : List Sending) (ret : ℤ) → send_loop feed 0 ret ≡ record { ret = ret; unsent = 0 }
unfolding send_loop
send_loop-nothing [] ret = refl
send_loop-nothing (retried ∷ feed) ret = refl
send_loop-nothing (refused ∷ feed) ret = refl
send_loop-nothing (took k ∷ feed) ret = refl

-- A socket that takes all at once
send_once :
    (k n : ℕ) (feed : List Sending)
    → 0 < n
    → n ≤ k
    → send (took k ∷ feed) n ≡ record { ret = pos n; unsent = 0 }
unfolding send send_loop
send_once k n feed h l =
    let a : (n == 0) ≡ false = positive n h in
    let b : (k == 0) ≡ false = positive k (omega arith) in
    let c : min k n ≡ n = omega arith in
    let d : n - k ≡ 0 = omega arith in rw (a, b, c, d) (send_loop-nothing feed (pos n))

send_got-wire :
    (w : Bytes) (k : ℕ) (feed : List Sending)
    → 0 < length w
    → length w ≤ k
    → send_got (took k ∷ feed) (some (pos (length w), w)) ≡ some (pos (length w), w)
unfolding send_got send_ret
send_got-wire [] k feed h l = absurd (omega arith)
send_got-wire (c ∷ w) k feed h l =
    rw
      (
        send_once k (suc (length w)) feed h l,
        send_got,
        send_ret,
        ==_refl (suc (length w)),
        nothing_off (suc (length w)),
        take_all (length w) w (omega arith),
      )
      refl

send_sized-wire :
    (r : SocksRequest) (k n : ℕ) (feed : List Sending)
    → IsRequest r
    → length (wire r) ≤ k
    → length (wire r) < n
    → 0 < length (wire r)
    → send_sized true (took k ∷ feed) r (pos n) ≡ some (pos (length (wire r)), wire r)
unfolding send_sized
send_sized-wire r k zero feed h l f p = absurd (omega arith)
send_sized-wire r k (suc n) feed h l f p =
    rw (pack_get-wire (suc n) r h f) (send_got-wire (wire r) k feed p l)

-- A packet whose lengths stay in its arrays, and whose user name and password have the same length if it
-- has both, goes out as its protocol describes it when the socket takes it at once and malloc gives
-- memory, and SendPacket returns its length.
pub send_packet-wire :
    (r : SocksRequest) (k : ℕ) (feed : List Sending)
    → IsRequest r
    → length (wire r) ≤ k
    → send_packet true (took k ∷ feed) r ≡ some (pos (length (wire r)), wire r)
unfolding send_packet send_sized send_got send_ret
send_packet-wire r k feed h l =
    let (n, e, f, p) = wire_fits r h in rw (e, send_packet) (send_sized-wire r k n feed h l f p)

abbrev pub sum : List ℕ → ℕ
sum [] = 0
sum (k ∷ ks) = k + sum ks

send_loop_pieces :
    (ks : List ℕ) (k : ℕ) (ret : ℤ)
    → All (λ x. 0 < x) ks
    → 0 < k
    → send_loop (map took (ks ++ (k ∷ []))) (sum ks + k) ret ≡ record { ret = pos k; unsent = 0 }
unfolding send_loop
send_loop_pieces [] k ret h l =
    let a : (0 + k == 0) ≡ false = ground arith in
    let b : (k == 0) ≡ false = positive k l in
    let c : min k (0 + k) ≡ k = omega arith in
    let d : 0 + k - k ≡ 0 = omega arith in rw (a, b, c, d) refl
send_loop_pieces (x ∷ ks) k ret h l =
    let a : (x + sum ks + k == 0) ≡ false = ground (arith, h.0) in
    let b : (x == 0) ≡ false = positive x h.0 in
    let d : x + sum ks + k - x ≡ sum ks + k = omega arith in
    rw (a, b, d) (send_loop_pieces ks k _ h.1 l)

-- Where a socket takes the bytes in several pieces, Send sends them all and returns the last one's
-- length.
pub send_pieces :
    (ks : List ℕ) (k : ℕ)
    → All (λ x. 0 < x) ks
    → 0 < k
    → send (map took (ks ++ (k ∷ []))) (sum ks + k) ≡ record { ret = pos k; unsent = 0 }
unfolding send
send_pieces ks k h l = send_loop_pieces ks k (pos 0) h l
