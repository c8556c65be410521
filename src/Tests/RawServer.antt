-- ===== src/Tests/RawServer.antt =====
-- A run of the event loop, and examples for the theorems about libspider/RawServer.cpp.
use crowdspider.Base.{
  ℕ, zero, suc, ◌<◌, ◌≡◌, refl, ◌==◌, true, false, Option, none, some, List, [], ◌∷◌, arith,
  if◌then◌else◌, length,
}
use crowdspider.ListHead.{Ptr}
use crowdspider.ListHead.Segment.{has, Distinct}
use crowdspider.RawServer.{sf_none, Event, Server, corrected, dispatch, on_accept, handle_one}
use crowdspider.RawServer.Valid.{watched, IsValid, Given}
use crowdspider.RawServer.Steps.{quiet, event, handle_one-IsValid, handle_one_error}
use crowdspider.RawServer.Init.{init, watch_listen, listening-IsValid, init-Run-IsValid}

-- The addresses of `n` sockets
range : ℕ → ℕ → List Ptr
range zero p = []
range (suc n) p = p ∷ range n (suc p)

range-fresh : (n p q : ℕ) → q < p → has q (range n p) ≡ false
unfolding has range
range-fresh zero p q h = refl
range-fresh (suc n) p q h = ground (arith, range-fresh n (suc p) q)

range-Distinct : (n p : ℕ) → Distinct (range n p)
unfolding range
range-Distinct zero p = tt
range-Distinct (suc n) p = (range-fresh n (suc p) p (omega arith), range-Distinct n (suc p))

length-range : (n p : ℕ) → length (range n p) ≡ n
unfolding range
length-range zero p = refl
length-range (suc n) p = omega (arith, length-range n (suc p))

apart : Distinct (10 ∷ range 256 11)
apart = (range-fresh 256 11 10 (omega arith), range-Distinct 256 11)

-- The first port is taken by another program.
abbrev busy : ℕ → Option ℕ
busy port = if port == 9080 then none else some 3

abbrev server : Server
server = watch_listen (range 256 11) 10 3

server-init : init busy (range 256 11) 10 ≡ some (9081, server)
unfolding init
server-init = refl

length-range_256 : length (range 256 11) ≡ 256
length-range_256 = length-range 256 11

server-IsValid : IsValid server
server-IsValid = listening-IsValid (range 256 11) 10 length-range_256 apart 3

-- A connection comes: it gets the descriptor 7 and the first spare socket.
abbrev comes : Event
comes = record { ptr = 10; events = record sf_none { rd = true }; accepted = some 7; new_ptr = 5 }

comes-Given : Given server comes
unfolding watch_listen watched
comes-Given = record {
  fd = 3;
  r = true;
  w = false;
  at = refl;
  reads = λ h. refl;
  writes = λ h. h;
  no_acc = refl;
  no_cnx = refl;
  new_fd = λ fd h p. ground arith;
  new_closed = refl;
  new_spare = range-fresh 256 11 5 (omega arith);
}

connected : Server
connected = handle_one server comes

init-Run-IsValid_example : IsValid (handle_one server comes)
init-Run-IsValid_example =
    init-Run-IsValid (range 256 11) 10 length-range_256 apart busy server-init
      (event quiet comes comes-Given)

connected-IsValid : IsValid connected
unfolding connected
connected-IsValid = handle_one-IsValid server-IsValid comes-Given

-- The connection is broken off.
abbrev breaks : Event
breaks = record {
  ptr = 11;
  events = record sf_none { rd = true; err = true };
  accepted = none;
  new_ptr = 5;
}

breaks-Given : Given connected breaks
unfolding connected handle_one dispatch corrected on_accept watch_listen watched range
breaks-Given = record {
  fd = 7;
  r = true;
  w = false;
  at = refl;
  reads = λ h. refl;
  writes = λ h. h;
  no_acc = refl;
  no_cnx = refl;
  new_fd = λ fd h p. ground arith;
  new_closed = refl;
  new_spare = range-fresh 255 12 5 (omega arith);
}

handle_one_error_example : handle_one connected breaks ≡ connected
unfolding connected handle_one dispatch corrected on_accept watch_listen range
handle_one_error_example = handle_one_error connected-IsValid breaks-Given refl refl
