-- ===== src/RawServer/Steps.antt =====
-- Every event keeps the state of the server valid (handleEvent in libspider/RawServer.cpp).
use crowdspider.Base.{
  ℕ, ◌≤◌, ◌≡◌, refl, ap, ◌∙◌, ◌≢◌, inl, inr, Bool, true, false, ◌||◌, Option, none, some, List, [],
  ◌∷◌, ◌++◌, arith, leb, ◌==◌, if◌then◌else◌, Bool-cases, length, All, length-append, All-append,
}
use crowdspider.RawServer.Valid.{
  watched, Idle, IsValid, Given, not_spare, Idle-frame, dropped-IsValid, waits-IsValid,
}
use crowdspider.RawServer.{
  Events, sf_none, sf_accept, xpollacc, fresh_sock, ctl_del, close, Server, max_spare_sockets, put,
  call, set_mask_read, set_mask_write, close_socket, Event, corrected, on_read, on_write,
  take_socket, welcome, on_accept, dispatch, handle_one,
}
use crowdspider.ListHead.{Ptr}
use crowdspider.ListHead.Segment.{has, Distinct, Distinct-snoc}

close_socket_open :
    (s : Server) (p : Ptr) (fd : ℕ)
    → (s.socks p).sock ≡ some fd
    → close_socket s p
      ≡ call (put s p (record (s.socks p) { select_flags = sf_none; sock = none })) (close fd)
unfolding close_socket
close_socket_open s p fd e = rw (e, close_socket) refl

module _ {s : Server} (v : IsValid s) {p : Ptr} (fd : ℕ) (r w : Bool)
    (at : watched s.calls fd ≡ some (p, r, w)) (ne : (p == s.listen) ≡ false) where
  only : (fd' : ℕ) (r' w' : Bool) → watched s.calls fd' ≡ some (p, r', w') → fd ≡ fd'
  only fd' r' w' h = ground (arith, v.open_sock fd p r w at, v.open_sock fd' p r' w' h)

  apart : (fd == v.listen_fd) ≡ false
  apart = ground (arith, v.listens)

  on_read-IsValid : IsValid (on_read s p)
  unfolding on_read watched
  on_read-IsValid =
      let o = v.open_sock fd p r w at in
      let out = not_spare s.socks p fd s.spare v.idle o in
      waits-IsValid v p fd ne only apart (on_read s p).socks (on_read s p).calls s.spare
        (λ q n. ground arith)
        (Idle-frame s.socks (on_read s p).socks p s.spare (λ q n. ground arith) out v.idle) v.small
        v.distinct false (ground (arith, v.flags fd p r w at)) (λ fd'. ground arith)

  on_write-IsValid : IsValid (on_write s p)
  unfolding on_write watched
  on_write-IsValid =
      let o = v.open_sock fd p r w at in
      let out = not_spare s.socks p fd s.spare v.idle o in
      let s1 : Server = record s { calls = ctl_del (some fd) ∷ s.calls } in
      let s2 : Server =
        call (put s1 p (record (s.socks p) { select_flags = sf_none; sock = none })) (close fd) in
      let s3 : Server = set_mask_write (set_mask_read s2 p false) p false in
      elim (Bool-cases (leb max_spare_sockets (length s.spare))) [
        | inl full ↦
            rw (full, o, close_socket_open s1 p fd o)
              (dropped-IsValid v p fd ne only apart s2.socks s2.calls s.spare (λ q n. ground arith)
                (Idle-frame s.socks s2.socks p s.spare (λ q n. ground arith) out v.idle) v.small
                v.distinct (λ fd'. ground arith))
        | inr room ↦
            rw (room, o, close_socket_open s1 p fd o)
              (dropped-IsValid v p fd ne only apart s3.socks s3.calls (s.spare ++ p ∷ [])
                (λ q n. ground arith)
                (All-append (λ q. Idle (s3.socks q)) s.spare (p ∷ [])
                  (Idle-frame s.socks s3.socks p s.spare (λ q n. ground arith) out v.idle)
                  (ground arith, tt))
                (ground (arith, length-append s.spare (p ∷ [])))
                (Distinct-snoc s.spare p v.distinct out) (λ fd'. ground arith))
      ]

module _ {s : Server} (v : IsValid s) (fd : ℕ)
    (unused : (q : Ptr) → (s.socks q).sock ≢ some fd) where
  module _ (p : Ptr) (shut : (s.socks p).sock ≡ none) where
    not_listen : (p == s.listen) ≡ false
    not_listen = ground (arith, v.open_sock v.listen_fd s.listen true false v.listens)

    unwatched : (fd' : ℕ) (r w : Bool) → watched s.calls fd' ≡ some (p, r, w) → fd ≡ fd'
    unwatched fd' r w h = ground (arith, v.open_sock fd' p r w h)

  new_apart : (fd == v.listen_fd) ≡ false
  new_apart = ground (arith, v.open_sock v.listen_fd s.listen true false v.listens, unused s.listen)

  -- With the spare sockets named, so that they can be split on.
  welcome-IsValid :
      (fresh : Ptr) (sp : List Ptr)
      → (s.socks fresh).sock ≡ none
      → has fresh s.spare ≡ false
      → All (λ q. Idle (s.socks q)) sp
      → length sp ≤ max_spare_sockets
      → Distinct sp
      → IsValid (welcome fd (take_socket sp s fresh))
  unfolding welcome watched take_socket
  welcome-IsValid fresh [] shut out idle small distinct =
      let s1 : Server = welcome fd (fresh, put s fresh fresh_sock) in
      waits-IsValid v fresh fd (not_listen fresh shut) (unwatched fresh shut) new_apart s1.socks
        s1.calls s.spare (λ q n. ground arith)
        (Idle-frame s.socks s1.socks fresh s.spare (λ q n. ground arith) out v.idle) v.small
        v.distinct true (ground arith) (λ fd'. ground arith)
  welcome-IsValid fresh (p ∷ ps) shut out idle small distinct =
      let s1 : Server = welcome fd (p, record s { spare = ps }) in
      let shut_p = idle.0.0 in
      waits-IsValid v p fd (not_listen p shut_p) (unwatched p shut_p) new_apart s1.socks s1.calls ps
        (λ q n. ground arith)
        (Idle-frame s.socks s1.socks p ps (λ q n. ground arith) distinct.0 idle.1)
        (omega (arith, small)) distinct.1 true (ground (arith, idle.0)) (λ fd'. ground arith)

  on_accept-IsValid :
      (fresh : Ptr)
      → (s.socks fresh).sock ≡ none
      → has fresh s.spare ≡ false
      → IsValid (on_accept s (some fd) fresh)
  unfolding on_accept
  on_accept-IsValid fresh shut out =
      welcome-IsValid fresh s.spare shut out v.idle v.small v.distinct

corrected_connection : (w : Events) → corrected sf_none w ≡ (if w.err then sf_none else w)
unfolding corrected
corrected_connection w = ground arith

corrected_listen :
    (w : Events)
    → w.wr ≡ false
    → w.acc ≡ false
    → w.cnx ≡ false
    → corrected sf_accept w ≡ (if w.rd || w.err then xpollacc else w)
unfolding corrected
corrected_listen w a b c = ground arith

module _ {s : Server} (e : Event) (v : IsValid s) where
  dispatch-IsValid :
      (w : Events)
      → (w.rd ≡ true → IsValid (on_read s e.ptr))
      → (w.wr ≡ true → IsValid (on_write s e.ptr))
      → (w.acc ≡ true → IsValid (on_accept s e.accepted e.new_ptr))
      → IsValid (dispatch s e w)
  unfolding dispatch
  dispatch-IsValid w reads writes accepts = elim (Bool-cases w.rd) [
    | inl a ↦ rw a (reads a)
    | inr a ↦ rw a (elim (Bool-cases w.wr) [
      | inl b ↦ rw b (writes b)
      | inr b ↦ rw b (elim (Bool-cases w.acc) [ inl c ↦ rw c (accepts c) | inr c ↦ rw c v ])
    ])
  ]

  module _ (g : Given s e) where
    accepted-IsValid : (a : Option ℕ) → e.accepted ≡ a → IsValid (on_accept s a e.new_ptr)
    unfolding on_accept
    accepted-IsValid none h = v
    accepted-IsValid (some fd) h =
        on_accept-IsValid v fd (g.new_fd fd h) e.new_ptr g.new_closed g.new_spare

    -- What becomes of an event on a connection, and on the socket that listens.
    connection_events :
        (e.ptr == s.listen) ≡ false
        → corrected (s.socks e.ptr).select_flags e.events
          ≡ (if e.events.err then sf_none else e.events)
    connection_events ne =
        ap (λ k. corrected k e.events) (v.flags g.fd e.ptr g.r g.w g.at ne)
        ∙ corrected_connection e.events

    no_writes : (e.ptr == s.listen) ≡ true → e.events.wr ≡ false
    no_writes same = ground (
      arith,
      g.writes,
      v.open_sock g.fd e.ptr g.r g.w g.at,
      v.open_sock v.listen_fd s.listen true false v.listens,
      v.listens,
      g.at,
    )

    listen_events :
        (e.ptr == s.listen) ≡ true
        → corrected (s.socks e.ptr).select_flags e.events
          ≡ (if e.events.rd || e.events.err then xpollacc else e.events)
    listen_events same =
        let flags : (s.socks e.ptr).select_flags ≡ sf_accept = ground (arith, v.accepts) in
        ap (λ k. corrected k e.events) flags
        ∙ corrected_listen e.events (no_writes same) g.no_acc g.no_cnx

    connection-IsValid : (e.ptr == s.listen) ≡ false → IsValid (handle_one s e)
    unfolding handle_one
    connection-IsValid ne = rw (connection_events ne) (
        dispatch-IsValid (if e.events.err then sf_none else e.events)
          (λ a. on_read-IsValid v g.fd g.r g.w g.at ne)
          (λ a. on_write-IsValid v g.fd g.r g.w g.at ne) (λ a. accepted-IsValid e.accepted refl))

    listen-IsValid : (e.ptr == s.listen) ≡ true → IsValid (handle_one s e)
    unfolding handle_one
    listen-IsValid same = rw (listen_events same) (
        dispatch-IsValid (if e.events.rd || e.events.err then xpollacc else e.events)
          (λ a. absurd (ground arith)) (λ a. absurd (ground (arith, no_writes same)))
          (λ a. accepted-IsValid e.accepted refl))

-- Every event that epoll_wait may give keeps the server valid.
pub handle_one-IsValid : {s : Server} {e : Event} → IsValid s → Given s e → IsValid (handle_one s e)
handle_one-IsValid {s} {e} v g = elim (Bool-cases (e.ptr == s.listen)) [
  | inl same ↦ listen-IsValid e v g same
  | inr ne ↦ connection-IsValid e v g ne
]

-- An error on a connection, with other events or alone, does nothing: the connection stays open and waited for.
pub handle_one_error :
    {s : Server} {e : Event}
    → IsValid s
    → Given s e
    → (e.ptr == s.listen) ≡ false
    → e.events.err ≡ true
    → handle_one s e ≡ s
unfolding handle_one dispatch
handle_one_error {s} {e} v g ne bad = rw (connection_events e v g ne, bad) refl

-- Events that come one after the other, each as the system may give it where it comes.
pub data Run : Server → Server → Type 0 where
  quiet : {s : Server} → Run s s
  event : {s t : Server} → Run s t → (e : Event) → Given t e → Run s (handle_one t e)

pub Run-IsValid : {s t : Server} → IsValid s → Run s t → IsValid t
Run-IsValid v quiet = v
Run-IsValid v (event r e g) = handle_one-IsValid (Run-IsValid v r) g
