-- ===== src/RawServer/Init.antt =====
-- TRawServer::Init (libspider/RawServer.cpp), ListenSocket::Listen as it uses it, and TPoller::start and poll
-- (libspider/Poller.cpp).
use crowdspider.Base.{
  ℕ, zero, suc, ◌+◌, ◌-◌, ◌≡◌, refl, Bool, true, false, Option, none, some, List, [], ◌∷◌, arith,
  ◌>>=◌, length, All,
}
use crowdspider.Base.Int.{ℤ, pos, negsuc}
use crowdspider.RawServer.Steps.{Run, Run-IsValid}
use crowdspider.RawServer.Valid.{watched, Idle, IsValid, Idle-frame}
use crowdspider.RawServer.{sf_accept, fresh_sock, Server, put, set_mask_read, add_socket}
use crowdspider.ListHead.{Ptr}
use crowdspider.ListHead.Segment.{Distinct}

-- The ports that Init tries, from 9080 on.
abbrev pub first_port : ℕ
first_port = 9080

abbrev pub num_ports : ℕ
num_ports = 9

abbrev pub min_spare_sockets : ℕ
min_spare_sockets = 256

-- The loop over the ports: the first on which Listen succeeds, with its descriptor.
unfoldable pub open_port : (ℕ → Option ℕ) → ℕ → ℕ → Option (ℕ × ℕ)
open_port listens zero port = none
open_port listens (suc left) port = elim (listens port) [
  | some fd ↦ some (port, fd)
  | none ↦ open_port listens left (port + 1)
]

-- ListenSocket::Listen where it succeeds
unfoldable pub listen_on : Server → Ptr → ℕ → Server
listen_on s p fd = put s p (record (s.socks p) { sock = some fd; select_flags = sf_accept })

-- The new sockets of a server: `spares` and `listen` are where `new` puts them.
abbrev pub new_server : List Ptr → Ptr → Server
new_server spares listen = record {
  socks = λ p. fresh_sock;
  spare = spares;
  listen = listen;
  calls = [];
}

-- What Init does with the descriptor that listens.
unfoldable pub watch_listen : List Ptr → Ptr → ℕ → Server
unfolding listen_on set_mask_read add_socket
watch_listen spares listen fd =
    add_socket (set_mask_read (listen_on (new_server spares listen) listen fd) listen true) listen

unfoldable pub start_on : List Ptr → Ptr → ℕ × ℕ → Option (ℕ × Server)
start_on spares listen (port, fd) = some (port, watch_listen spares listen fd)

-- TRawServer::Init, with what Listen answers on each port
unfoldable pub init : (ℕ → Option ℕ) → List Ptr → Ptr → Option (ℕ × Server)
unfolding open_port start_on watch_listen
init listens spares listen = open_port listens num_ports first_port >>= start_on spares listen

-- TPoller: the members that poll uses; `none` is a member without a value.
pub record Poller : Type 0 where
  pub epfd : ℤ
  pub nevents : Option ℕ
  pub events : Option ℕ

-- TPoller::TPoller; it gives m_nevents no value.
abbrev pub new_poller : Poller
new_poller = record { epfd = negsuc 0; nevents = none; events = none }

-- TPoller::start, with the limit on descriptors if getrlimit gives one, and what epoll_create answers. The
-- number of events is a variable of start, which hides the member.
unfoldable pub poller_start : Poller → Option ℕ → ℤ → Bool × Poller
poller_start p limit (negsuc fd) = (false, record p { epfd = negsuc fd })
poller_start p limit (pos fd) =
    let nevents : ℕ = elim limit [ none ↦ 32000 | some cur ↦ cur - 1 ] in
    (true, record p { epfd = pos fd; events = some nevents })

-- TPoller::poll: the room for events and the number of them that it passes to epoll_wait.
unfoldable pub poll_room : Poller → Option (ℕ × ℕ)
poll_room p = do n ← p.nevents; room ← p.events; some (n, room)

-- After start, whatever the system answers, poll reads a number of events without a value.
pub poll_room-start :
    (limit : Option ℕ) (fd : ℤ) → poll_room (poller_start new_poller limit fd).1 ≡ none
unfolding poll_room poller_start
poll_room-start limit (pos fd) = refl
poll_room-start limit (negsuc fd) = refl

Idle-fresh : (xs : List Ptr) → All (λ p. Idle fresh_sock) xs
Idle-fresh [] = tt
Idle-fresh (x ∷ xs) = ((refl, refl, refl, refl), Idle-fresh xs)

module _ (spares : List Ptr) (listen : Ptr) (enough : length spares ≡ min_spare_sockets)
    (apart : Distinct (listen ∷ spares)) where
  -- The server that Init makes on a descriptor is valid.
  pub listening-IsValid : (fd : ℕ) → IsValid (watch_listen spares listen fd)
  unfolding watch_listen watched
  listening-IsValid fd =
      let s : Server = watch_listen spares listen fd in
      record {
        idle =
            Idle-frame (λ p. fresh_sock) s.socks listen spares (λ q n. ground arith) apart.0
              (Idle-fresh spares);
        small = omega (arith, enough);
        distinct = apart.1;
        open_sock = λ fd' p r w h. ground arith;
        phase = λ fd' p r w h. ground arith;
        masks = λ fd' p r w h. ground arith;
        flags = λ fd' p r w h n. ground arith;
        listen_fd = fd;
        listens = ground arith;
        accepts = ground arith;
      }

  -- Whatever events come, one after the other, a server that Init started is valid.
  pub init-Run-IsValid :
      (listens : ℕ → Option ℕ) {port : ℕ} {s t : Server}
      → init listens spares listen ≡ some (port, s)
      → Run s t
      → IsValid t
  unfolding init start_on
  init-Run-IsValid listens {port} {s} h run =
      Run-IsValid (started (open_port listens num_ports first_port) h) run
    where
      started : (o : Option (ℕ × ℕ)) → (o >>= start_on spares listen) ≡ some (port, s) → IsValid s
      started none h = cc
      started (some (q, fd)) h =
          let made : watch_listen spares listen fd ≡ s = ground arith in
          rw (← made) (listening-IsValid fd)
