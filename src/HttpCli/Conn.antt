-- ===== src/HttpCli/Conn.antt =====
-- TcpSocket::Recv with its timeout (libspider/Socket.cpp), BufReadChar and ReadLine
-- (libspider/HttpCli.cpp).
use crowdspider.Base.{
  ℕ, zero, suc, ◌+◌, ◌-◌, Bool, true, false, List, [], ◌∷◌, ◌++◌, ◌==◌, if◌then◌else◌, length, take,
  drop, Bytes, bytes_eq,
}
use crowdspider.Base.Int.{ℤ, pos, negsuc}
use crowdspider.Utils.ReadLine.{Read, interrupted, failed, chunk, Reader}

-- The results of Recv: some bytes, 0 at the end of the connection, -1 after a timeout or an error.
pub data Recv : Type 0 where
  got : Bytes → Reader → Recv
  closed broken : Reader → Recv

-- Of a new segment a call takes at most `n` bytes; an interrupted one is tried again.
unfoldable pub recv_feed : ℕ → List Read → Recv
recv_feed n [] = closed (record { buffered = []; feed = [] })
recv_feed n (interrupted ∷ feed) = recv_feed n feed
recv_feed n (failed ∷ feed) = broken (record { buffered = []; feed = feed })
recv_feed n (chunk c cs ∷ feed) =
    got (take n (c ∷ cs)) (record { buffered = drop n (c ∷ cs); feed = feed })

-- TcpSocket::Recv into a buffer of `n` bytes
unfoldable pub recv : ℕ → Bytes → List Read → Recv
recv n [] feed = recv_feed n feed
recv n (c ∷ cs) feed = got (take n (c ∷ cs)) (record { buffered = drop n (c ∷ cs); feed = feed })

-- What ReadLine returns, the characters it writes, whether it writes a NUL behind them, and the
-- connection it leaves.
pub record LineRead : Type 0 where
  pub ret : ℤ
  pub text : Bytes
  pub ends : Bool
  pub left : Reader

unfoldable pub put_char : Bytes → LineRead → LineRead
put_char s l = record l { text = s ++ l.text }

-- The loop of ReadLine with `k` rounds left, at `i`; BufReadChar is Recv of one byte.
unfoldable pub line_loop : ℕ → ℕ → Reader → LineRead
line_loop zero i r = record { ret = pos (i - 1); text = []; ends = true; left = r }
line_loop (suc k) i r = elim (recv 1 r.buffered r.feed) [
  | got s r' ↦
      let rest = put_char s (line_loop k (i + 1) r') in
      if bytes_eq s (10 ∷ [])
      then record { ret = pos i; text = s; ends = true; left = r' }
      else rest
  | closed r' ↦
      if i == 1
      then record { ret = pos 0; text = []; ends = false; left = r' }
      else record { ret = pos i; text = []; ends = true; left = r' }
  | broken r' ↦ record { ret = negsuc 0; text = []; ends = false; left = r' }
]

-- ReadLine into a buffer of `maxsize` bytes
unfoldable pub read_line : ℕ → Reader → LineRead
read_line maxsize r = line_loop (maxsize - 1) 1 r

-- The buffer after a call, from the buffer before.
unfoldable pub after : LineRead → Bytes → Bytes
after l buf =
    if l.ends
    then l.text ++ (0 ∷ drop (suc (length l.text)) buf)
    else l.text ++ drop (length l.text) buf
