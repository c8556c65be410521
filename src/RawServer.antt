-- ===== src/RawServer.antt =====
-- TRawServer (libspider/RawServer.cpp) with the members of TSocket that it uses (libspider/Socket.cpp) and the
-- calls of TPoller (libspider/Poller.cpp): an event loop over sockets at addresses.
use crowdspider.Base.{
  ℕ, Bool, true, false, ◌&&◌, ◌||◌, Option, none, some, List, [], ◌∷◌, ◌++◌, leb, if◌then◌else◌,
  length,
}
use crowdspider.ListHead.{Ptr, update}
pub mod Valid
pub mod Steps
pub mod Init

-- A set of the bits of waitevents_t that the code looks at: EPOLLIN, EPOLLOUT, EPOLLPRI, EPOLLERR, XPOLLACC and
-- XPOLLCNX.
pub record Events : Type 0 where
  pub rd : Bool
  pub wr : Bool
  pub pri : Bool
  pub err : Bool
  pub acc : Bool
  pub cnx : Bool

-- SF_NONE, SF_ACCEPT, XPOLLACC, XPOLLCNX
abbrev pub sf_none : Events
sf_none = record { rd = false; wr = false; pri = false; err = false; acc = false; cnx = false }

abbrev pub sf_accept : Events
sf_accept = record sf_none { acc = true; rd = true }

abbrev pub xpollacc : Events
xpollacc = record sf_none { acc = true }

abbrev pub xpollcnx : Events
xpollcnx = record sf_none { cnx = true }

-- The members of TSocket; `none` is INVALID_SOCKET.
pub record Sock : Type 0 where
  pub sock : Option ℕ
  pub select_flags : Events
  pub can_read : Bool
  pub can_write : Bool

-- TSocket::TSocket
abbrev pub fresh_sock : Sock
fresh_sock = record { sock = none; select_flags = sf_none; can_read = false; can_write = false }

-- What is asked of the system: epoll_ctl with EPOLL_CTL_ADD, EPOLL_CTL_MOD and EPOLL_CTL_DEL, and close.
pub data Call : Type 0 where
  ctl_add : Option ℕ → Bool → Bool → Ptr → Call
  ctl_mod : Option ℕ → Bool → Bool → Ptr → Call
  ctl_del : Option ℕ → Call
  close : ℕ → Call

-- The sockets by address, the spare ones, the one that listens, and the calls made, the last one first.
pub record Server : Type 0 where
  pub socks : Ptr → Sock
  pub spare : List Ptr
  pub listen : Ptr
  pub calls : List Call

abbrev pub max_spare_sockets : ℕ
max_spare_sockets = 1024

abbrev pub put : Server → Ptr → Sock → Server
put s p k = record s { socks = update s.socks p k }

abbrev pub call : Server → Call → Server
call s c = record s { calls = c ∷ s.calls }

-- TSocket::setMaskRead, setMaskWrite and attach
unfoldable pub set_mask_read : Server → Ptr → Bool → Server
set_mask_read s p b = put s p (record (s.socks p) { can_read = b })

unfoldable pub set_mask_write : Server → Ptr → Bool → Server
set_mask_write s p b = put s p (record (s.socks p) { can_write = b })

unfoldable pub attach : Server → Ptr → ℕ → Server
attach s p fd = put s p (record (s.socks p) { sock = some fd })

-- TSocket::closeSocket
unfoldable pub close_socket : Server → Ptr → Server
close_socket s p = elim ((s.socks p).sock) [
  | none ↦ s
  | some fd ↦ call (put s p (record (s.socks p) { select_flags = sf_none; sock = none })) (close fd)
]

-- TPoller::addSocket, modSocket and delSocket; the masks say which events are waited for.
unfoldable pub add_socket : Server → Ptr → Server
add_socket s p = call s (ctl_add (s.socks p).sock (s.socks p).can_read (s.socks p).can_write p)

unfoldable pub mod_socket : Server → Ptr → Server
mod_socket s p = call s (ctl_mod (s.socks p).sock (s.socks p).can_read (s.socks p).can_write p)

unfoldable pub del_socket : Server → Ptr → Server
del_socket s p = call s (ctl_del (s.socks p).sock)

-- One event of epoll_wait with the socket it is for, what accept answers if it is called, and where `new`
-- puts a socket if it is called.
pub record Event : Type 0 where
  pub ptr : Ptr
  pub events : Events
  pub accepted : Option ℕ
  pub new_ptr : Ptr

-- `wevt` as the code corrects it by the socket's flags.
unfoldable pub corrected : Events → Events → Events
corrected flags w =
    let w1 = if (w.rd || w.err) && (flags.acc && flags.rd) then xpollacc else w in
    let w2 = if (w1.wr || w1.err) && (flags.cnx && flags.wr) then xpollcnx else w1 in
    if w2.err then flags else w2

-- The event is a read: the answer is to be written next.
unfoldable pub on_read : Server → Ptr → Server
unfolding set_mask_read set_mask_write mod_socket
on_read s p = mod_socket (set_mask_write (set_mask_read s p false) p true) p

-- The event is a write: the connection ends, and its socket is kept as a spare one or deleted. The destructor
-- closes it too.
unfoldable pub on_write : Server → Ptr → Server
unfolding del_socket close_socket set_mask_read set_mask_write
on_write s p =
    let s1 = del_socket s p in
    if leb max_spare_sockets (length s1.spare)
    then close_socket s1 p
    else let s2 = set_mask_write (set_mask_read (close_socket s1 p) p false) p false in
      record s2 { spare = s2.spare ++ p ∷ [] }

-- The socket for a new connection: the first spare one, or a new one.
unfoldable pub take_socket : List Ptr → Server → Ptr → Ptr × Server
take_socket [] s fresh = (fresh, put s fresh fresh_sock)
take_socket (p ∷ ps) s fresh = (p, record s { spare = ps })

unfoldable pub welcome : ℕ → Ptr × Server → Server
unfolding attach set_mask_read add_socket
welcome fd (p, s) = add_socket (set_mask_read (attach s p fd) p true) p

unfoldable pub on_accept : Server → Option ℕ → Ptr → Server
unfolding take_socket welcome
on_accept s none fresh = s
on_accept s (some fd) fresh = welcome fd (take_socket s.spare s fresh)

unfoldable pub dispatch : Server → Event → Events → Server
dispatch s e w =
    if w.rd
    then on_read s e.ptr
    else if w.wr
    then on_write s e.ptr
    else if w.acc
    then on_accept s e.accepted e.new_ptr
    else s

-- One round of handleEvent's loop.
unfoldable pub handle_one : Server → Event → Server
handle_one s e = dispatch s e (corrected (s.socks e.ptr).select_flags e.events)

-- TRawServer::handleEvent
unfoldable pub handle_event : Server → List Event → Server
unfolding handle_one
handle_event s [] = s
handle_event s (e ∷ es) = handle_event (handle_one s e) es

-- TRawServer::closeSocket and cleanSpareSockets
unfoldable pub drop_socket : Server → Ptr → Server
unfolding del_socket close_socket
drop_socket s p = close_socket (del_socket s p) p

unfoldable pub delete_all : Server → List Ptr → Server
unfolding close_socket
delete_all s [] = s
delete_all s (p ∷ ps) = delete_all (close_socket s p) ps

unfoldable pub clean_spare_sockets : Server → Server
unfolding delete_all
clean_spare_sockets s = record (delete_all s s.spare) { spare = [] }
