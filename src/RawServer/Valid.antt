-- ===== src/RawServer/Valid.antt =====
-- What the event loop of libspider/RawServer.cpp keeps between events, and the events that the system may
-- give it.
use crowdspider.Base.{
  ℕ, ◌≤◌, ◌≡◌, refl, ◌≢◌, Bool, true, false, not, Option, none, some, List, [], ◌∷◌, arith, ◌==◌,
  if◌then◌else◌, length, All,
}
use crowdspider.RawServer.{
  sf_none, sf_accept, Sock, Call, ctl_add, ctl_mod, ctl_del, close, Server, max_spare_sockets,
  Event,
}
use crowdspider.ListHead.{Ptr}
use crowdspider.ListHead.Segment.{has, Distinct}

-- What epoll is left waiting for on a descriptor: the socket, and whether for reads and for writes.
unfoldable pub watched : List Call → ℕ → Option (Ptr × Bool × Bool)
watched [] fd = none
watched (ctl_add none r w p ∷ cs) fd = watched cs fd
watched (ctl_add (some f) r w p ∷ cs) fd = if f == fd then some (p, r, w) else watched cs fd
watched (ctl_mod none r w p ∷ cs) fd = watched cs fd
watched (ctl_mod (some f) r w p ∷ cs) fd = if f == fd then some (p, r, w) else watched cs fd
watched (ctl_del none ∷ cs) fd = watched cs fd
watched (ctl_del (some f) ∷ cs) fd = if f == fd then none else watched cs fd
watched (close f ∷ cs) fd = if f == fd then none else watched cs fd

-- A spare socket is closed, and waits for nothing.
abbrev pub Idle : Sock → Type 0
Idle k = (k.sock ≡ none) × (k.can_read ≡ false) × (k.can_write ≡ false) × (k.select_flags ≡ sf_none)

pub record IsValid (s : Server) : Type 0 where
  pub idle : All (λ p. Idle (s.socks p)) s.spare
  pub small : length s.spare ≤ max_spare_sockets
  pub distinct : Distinct s.spare
  pub open_sock :
      (fd : ℕ) (p : Ptr) (r w : Bool)
      → watched s.calls fd ≡ some (p, r, w)
      → (s.socks p).sock ≡ some fd
  pub phase : (fd : ℕ) (p : Ptr) (r w : Bool) → watched s.calls fd ≡ some (p, r, w) → r ≡ not w
  pub masks :
      (fd : ℕ) (p : Ptr) (r w : Bool)
      → watched s.calls fd ≡ some (p, r, w)
      → ((s.socks p).can_read ≡ r) × ((s.socks p).can_write ≡ w)
  pub flags :
      (fd : ℕ) (p : Ptr) (r w : Bool)
      → watched s.calls fd ≡ some (p, r, w)
      → (p == s.listen) ≡ false
      → (s.socks p).select_flags ≡ sf_none
  pub listen_fd : ℕ
  pub listens : watched s.calls listen_fd ≡ some (s.listen, true, false)
  pub accepts : (s.socks s.listen).select_flags ≡ sf_accept

-- An event that epoll_wait may give: its socket is waited for, reads and writes are only told of if asked
-- for, and what accept and `new` answer is not in use.
pub record Given (s : Server) (e : Event) : Type 0 where
  pub fd : ℕ
  pub r : Bool
  pub w : Bool
  pub at : watched s.calls fd ≡ some (e.ptr, r, w)
  pub reads : e.events.rd ≡ true → r ≡ true
  pub writes : e.events.wr ≡ true → w ≡ true
  pub no_acc : e.events.acc ≡ false
  pub no_cnx : e.events.cnx ≡ false
  pub new_fd : (fd : ℕ) → e.accepted ≡ some fd → (p : Ptr) → (s.socks p).sock ≢ some fd
  pub new_closed : (s.socks e.new_ptr).sock ≡ none
  pub new_spare : has e.new_ptr s.spare ≡ false

pub not_spare :
    (socks : Ptr → Sock) (p : Ptr) (fd : ℕ) (xs : List Ptr)
    → All (λ p. Idle (socks p)) xs
    → (socks p).sock ≡ some fd
    → has p xs ≡ false
unfolding has
not_spare socks p fd [] a e = refl
not_spare socks p fd (x ∷ xs) a e = ground (arith, not_spare socks p fd xs a.1 e, a.0.0)

pub Idle-frame :
    (f g : Ptr → Sock) (p : Ptr) (xs : List Ptr)
    → ((q : Ptr) → (q == p) ≡ false → g q ≡ f q)
    → has p xs ≡ false
    → All (λ q. Idle (f q)) xs
    → All (λ q. Idle (g q)) xs
unfolding has
Idle-frame f g p [] same out a = tt
Idle-frame f g p (x ∷ xs) same out a =
    let ne : (x == p) ≡ false = ground arith in
    (rw (same x ne) a.0, Idle-frame f g p xs same (ground arith) a.1)

-- A step that changes one socket `p`, not the one that listens, and what is waited for on the descriptor
-- `fd`, which is the only one of `p`.
module _ {s : Server} (v : IsValid s) (p : Ptr) (fd : ℕ) (ne : (p == s.listen) ≡ false)
    (only : (fd' : ℕ) (r w : Bool) → watched s.calls fd' ≡ some (p, r, w) → fd ≡ fd')
    (apart : (fd == v.listen_fd) ≡ false) (f : Ptr → Sock) (cs : List Call) (sp : List Ptr)
    (same : (q : Ptr) → (q == p) ≡ false → f q ≡ s.socks q) (idle : All (λ q. Idle (f q)) sp)
    (small : length sp ≤ max_spare_sockets) (distinct : Distinct sp) where
  pub dropped-IsValid :
      ((fd' : ℕ) → watched cs fd' ≡ (if fd == fd' then none else watched s.calls fd'))
      → IsValid (record { socks = f; spare = sp; listen = s.listen; calls = cs })
  dropped-IsValid out = record {
    idle = idle;
    small = small;
    distinct = distinct;
    open_sock = λ fd' q r w h. ground (arith, out fd', same q, only fd' r w, v.open_sock fd' q r w);
    phase = λ fd' q r w h. ground (arith, out fd', v.phase fd' q r w);
    masks = λ fd' q r w h. ground (arith, out fd', same q, only fd' r w, v.masks fd' q r w);
    flags = λ fd' q r w h n. ground (arith, out fd', same q, only fd' r w, v.flags fd' q r w);
    listen_fd = v.listen_fd;
    listens = ground (arith, out v.listen_fd, v.listens);
    accepts = ground (arith, same s.listen, v.accepts);
  }

  pub waits-IsValid :
      (b : Bool)
      → f p ≡ record { sock = some fd; select_flags = sf_none; can_read = b; can_write = not b }
      → ((fd' : ℕ)
          → watched cs fd' ≡ (if fd == fd' then some (p, b, not b) else watched s.calls fd'))
      → IsValid (record { socks = f; spare = sp; listen = s.listen; calls = cs })
  waits-IsValid b now out = record {
    idle = idle;
    small = small;
    distinct = distinct;
    open_sock = λ fd' q r w h. ground (arith, out fd', same q, only fd' r w, v.open_sock fd' q r w);
    phase = λ fd' q r w h. ground (arith, out fd', v.phase fd' q r w);
    masks = λ fd' q r w h. ground (arith, out fd', same q, only fd' r w, v.masks fd' q r w);
    flags = λ fd' q r w h n. ground (arith, out fd', same q, only fd' r w, v.flags fd' q r w);
    listen_fd = v.listen_fd;
    listens = ground (arith, out v.listen_fd, v.listens);
    accepts = ground (arith, same s.listen, v.accepts);
  }
