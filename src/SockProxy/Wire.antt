-- ===== src/SockProxy/Wire.antt =====
-- PackGet writes the packets of the SOCKS protocols, and PackSize gives it room
-- (libspider/SockProxy.cpp).
use crowdspider.Base.{
  ℕ, zero, suc, ◌+◌, ◌/◌, ◌%◌, ◌≤◌, ◌<◌, ◌≡◌, refl, sym, ap, true, false, some, [], ◌∷◌, ◌++◌,
  arith, leb, ◌==◌, if◌then◌else◌, length, take, All, length-append, length-take, Bytes, c_str,
}
use crowdspider.Base.Int.{pos, negsuc}
use crowdspider.SockProxy.Append.{taken_all, Reaches, append_all-packed}
use crowdspider.SockProxy.{
  array, strlen, Sock5Request, SocksRequest, sock4, sock4a, sock5, sock5auth, sock5pass, unknown,
  htons, dword_bytes, append_all, addr_len, stretches, pack_end, pack_get, pack_size,
}
use crowdspider.HttpCli.Response.{head_or_nul}
use mathlib.Core.List.{append-nil}

-- The packets as the protocols describe them.
unfoldable pub wire : SocksRequest → Bytes
wire (sock4 p) =
    p.vers
    ∷ p.cmds
    ∷ p.port / 256 % 256
    ∷ p.port % 256
    ∷ (dword_bytes p.addr ++ (c_str p.user ++ (p.null ∷ [])))
wire (sock4a p) =
    p.vers
    ∷ p.cmds
    ∷ p.port / 256 % 256
    ∷ p.port % 256
    ∷ (dword_bytes p.addr ++ (c_str p.suser ++ (p.null1 ∷ (c_str p.shost ++ (p.null2 ∷ [])))))
wire (sock5 p) =
    p.vers
    ∷ p.cmds
    ∷ p.rsv
    ∷ p.type
    ∷ (take (addr_len p.type p.addr) p.addr ++ (p.port / 256 % 256 ∷ p.port % 256 ∷ []))
wire (sock5auth p) = p.vers ∷ p.lauth ∷ take p.lauth p.sauth
wire (sock5pass p) = p.vers ∷ p.luser ∷ (take p.luser p.suser ++ (p.lpass ∷ take p.lpass p.spass))
wire unknown = []

-- A request whose lengths do not reach outside its arrays; a user name is as long as its password.
unfoldable pub IsRequest : SocksRequest → Type 0
IsRequest (sock4 p) = Unit
IsRequest (sock4a p) = Unit
IsRequest (sock5 p) = addr_len p.type p.addr ≤ length p.addr
IsRequest (sock5auth p) = p.lauth ≤ length p.sauth
IsRequest (sock5pass p) =
    (p.luser ≡ p.lpass) × (p.luser ≤ length p.suser) × (p.lpass ≤ length p.spass)
IsRequest unknown = ⊥

htons_low : (p : ℕ) → htons p % 256 ≡ p / 256 % 256
htons_low p = omega arith

htons_high : (p : ℕ) → htons p / 256 % 256 ≡ p % 256
htons_high p = omega arith

take-array : (n : ℕ) (s : Bytes) → n ≤ length s → take n (array s) ≡ take n s
take-array zero s h = refl
take-array (suc n) [] h = absurd (omega arith)
take-array (suc n) (c ∷ s) h = ap (◌∷◌ c) (take-array n s (omega arith))

take-strlen : (s : Bytes) → take (strlen s) (array s) ≡ c_str s
take-strlen [] = refl
take-strlen (zero ∷ s) = refl
take-strlen (suc c ∷ s) = ap (◌∷◌ (suc c)) (take-strlen s)

strlen-le : (s : Bytes) → strlen s ≤ length (array s)
strlen-le [] = omega arith
strlen-le (zero ∷ s) = omega arith
strlen-le (suc c ∷ s) = omega (arith, strlen-le s)

in_array : (n : ℕ) (s : Bytes) → n ≤ length s → n ≤ length (array s)
in_array n s h = omega (arith, length-append {0} s (0 ∷ []))

stretches-Reaches : (r : SocksRequest) → IsRequest r → All Reaches (stretches r)
unfolding stretches IsRequest
stretches-Reaches (sock4 p) h = (tt, (strlen-le p.user, (tt, tt)))
stretches-Reaches (sock4a p) h = (tt, (strlen-le p.suser, (tt, (strlen-le p.shost, (tt, tt)))))
stretches-Reaches (sock5 p) h = (tt, (in_array _ p.addr h, (tt, tt)))
stretches-Reaches (sock5auth p) h = (tt, (in_array _ p.sauth h, tt))
stretches-Reaches (sock5pass p) h =
    (tt, (in_array _ p.suser h.1, (tt, (in_array _ p.spass (rw h.0 h.2), tt))))
stretches-Reaches unknown h = absurd h

taken_all-wire : (r : SocksRequest) → IsRequest r → taken_all (stretches r) ≡ wire r
unfolding stretches wire IsRequest
taken_all-wire (sock4 p) h = rw (htons_low p.port, htons_high p.port, take-strlen p.user) refl
taken_all-wire (sock4a p) h =
    rw (htons_low p.port, htons_high p.port, take-strlen p.suser, take-strlen p.shost) refl
taken_all-wire (sock5 p) h =
    rw (htons_low p.port, htons_high p.port, take-array (addr_len p.type p.addr) p.addr h) refl
taken_all-wire (sock5auth p) h =
    rw (take-array p.lauth p.sauth h, append-nil (take p.lauth p.sauth)) refl
taken_all-wire (sock5pass p) h =
    rw
      (
        sym h.0,
        take-array p.luser p.suser h.1,
        take-array p.luser p.spass (rw h.0 h.2),
        append-nil (take p.luser p.spass),
      )
      refl
taken_all-wire unknown h = absurd h

addr_room : Sock5Request → ℕ
addr_room p =
    if p.type == 1
    then 4
    else if p.type == 4
    then 16
    else if p.type == 3
    then head_or_nul p.addr + 2
    else strlen p.addr + 2

addr_len-le :
    (t a b : ℕ)
    → (if t == 1 then 4 else if t == 4 then 16 else if t == 3 then 1 + a else b)
      ≤ (if t == 1 then 4 else if t == 4 then 16 else if t == 3 then a + 2 else b + 2)
addr_len-le t a b = ground arith

addr_len-addr_room : (p : Sock5Request) → addr_len p.type p.addr ≤ addr_room p
unfolding addr_len addr_room
addr_len-addr_room p = addr_len-le p.type (head_or_nul p.addr) (strlen p.addr)

-- The room that PackSize gives is more than the packet takes.
pub wire_fits :
    (r : SocksRequest)
    → IsRequest r
    → (n : ℕ) × (pack_size r ≡ pos n) × (length (wire r) < n) × (0 < length (wire r))
unfolding pack_size wire IsRequest addr_room
wire_fits (sock4 p) h = (
  9 + strlen p.user + 4,
  refl,
  omega (arith, length-append {0} (c_str p.user) (p.null ∷ [])),
  omega arith,
)
wire_fits (sock4a p) h = (
  10 + strlen p.suser + strlen p.shost + 4,
  refl,
  omega (
    arith,
    length-append {0} (c_str p.suser) (p.null1 ∷ (c_str p.shost ++ (p.null2 ∷ []))),
    length-append {0} (c_str p.shost) (p.null2 ∷ []),
  ),
  omega arith,
)
wire_fits (sock5 p) h = (
  6 + addr_room p + 4,
  refl,
  omega (
    arith,
    length-append {0} (take (addr_len p.type p.addr) p.addr)
        (p.port / 256 % 256 ∷ p.port % 256 ∷ []),
    length-take (addr_len p.type p.addr) p.addr,
    addr_len-addr_room p,
  ),
  omega arith,
)
wire_fits (sock5auth p) h =
    (4 + p.lauth + 4, refl, omega (arith, length-take p.lauth p.sauth), omega arith)
wire_fits (sock5pass p) h = (
  4 + p.luser + p.lpass + 4,
  refl,
  omega (
    arith,
    length-append {0} (take p.luser p.suser) (p.lpass ∷ take p.lpass p.spass),
    length-take p.luser p.suser,
    length-take p.lpass p.spass,
  ),
  omega arith,
)
wire_fits unknown h = absurd h

known :
    (r : SocksRequest) (size : ℕ)
    → IsRequest r
    → pack_get size r ≡ pack_end size (append_all size (stretches r) [])
unfolding pack_get IsRequest
known (sock4 p) size h = refl
known (sock4a p) size h = refl
known (sock5 p) size h = refl
known (sock5auth p) size h = refl
known (sock5pass p) size h = refl
known unknown size h = absurd h

-- A request is packed as its protocol describes it, in any room that is larger than the packet.
pub pack_get-wire :
    (size : ℕ) (r : SocksRequest)
    → IsRequest r
    → length (wire r) < size
    → pack_get size r ≡ some (pos (length (wire r)), wire r)
unfolding pack_end
pack_get-wire size r h l =
    let e = taken_all-wire r h in
    let n : leb size (length (wire r)) ≡ false = ground arith in
    rw
      (
        known r size h,
        append_all-packed size (stretches r) [] (stretches-Reaches r h) (rw e (omega arith)),
        e,
        pack_end,
        n,
      )
      refl

-- With one byte less of room than that, PackGet fails and says so.
pub pack_get-too_small :
    (r : SocksRequest) → IsRequest r → pack_get (length (wire r)) r ≡ some (negsuc 27, wire r)
unfolding pack_end
pack_get-too_small r h =
    let e = taken_all-wire r h in
    let n : leb (length (wire r)) (length (wire r)) ≡ true = ground arith in
    rw
      (
        known r (length (wire r)) h,
        append_all-packed (length (wire r)) (stretches r) [] (stretches-Reaches r h)
            (rw e (omega arith)),
        e,
        pack_end,
        n,
      )
      refl
