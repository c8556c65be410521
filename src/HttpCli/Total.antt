-- ===== src/HttpCli/Total.antt =====
-- recvHttpResponse always ends (libspider/HttpCli.cpp): every header line takes at least one byte.
use crowdspider.Base.{
  ℕ, zero, suc, ◌+◌, ◌<◌, ◌≡◌, refl, ◌≢◌, inl, inr, true, false, Option, none, some, List, [], ◌∷◌,
  ◌++◌, arith, ◌==◌, if◌then◌else◌, Bool-cases, Option-cases, length, length-append, Bytes, c_str,
  bytes_eq,
}
use crowdspider.Base.Int.{ℤ, pos, negsuc}
use crowdspider.HttpCli.Conn.{
  Recv, got, closed, broken, recv_feed, recv, LineRead, put_char, line_loop, read_line,
}
use crowdspider.HttpCli.Response.{
  max_line_len, atoi, status_text, HdrLine, blank, malformed, pair, hdr_line, Received, unread,
  recv_hdrs, recv_http_response,
}
use crowdspider.HttpMsg.{HttpMsg, clear_all_hdr, set_hdr}
use crowdspider.Utils.ReadLine.{Read, interrupted, failed, chunk, Reader, feed_bytes, stream}

-- No byte is lost, and a read that succeeds takes one.
abbrev Conserves : Recv → ℕ → Type 0
Conserves x n = elim x [
  | got t r ↦ (length t + length (stream r) ≡ n) × (0 < length t)
  | closed r ↦ length (stream r) ≡ n
  | broken r ↦ length (stream r) ≡ n
]

recv_feed-Conserves : (feed : List Read) → Conserves (recv_feed 1 feed) (length (feed_bytes feed))
unfolding recv_feed feed_bytes
recv_feed-Conserves [] = refl
recv_feed-Conserves (interrupted ∷ feed) = recv_feed-Conserves feed
recv_feed-Conserves (failed ∷ feed) = refl
recv_feed-Conserves (chunk c cs ∷ feed) = (omega arith, omega arith)

recv-Conserves :
    (cs : Bytes) (feed : List Read) → Conserves (recv 1 cs feed) (length (cs ++ feed_bytes feed))
unfolding recv
recv-Conserves [] feed = recv_feed-Conserves feed
recv-Conserves (c ∷ cs) feed = (omega arith, omega arith)

-- A line and what is left are what was to come.
abbrev Keeps : LineRead → ℕ → Type 0
Keeps l n = length l.text + length (stream l.left) ≡ n

put_char-Keeps :
    (t : Bytes) (l : LineRead) (n m : ℕ) → Keeps l n → length t + n ≡ m → Keeps (put_char t l) m
unfolding put_char
put_char-Keeps t l n m h e = omega (arith, length-append {0} t l.text, h)

abbrev round : ℕ → ℕ → Recv → LineRead
round k i x = elim x [
  | got s r' ↦
      let rest = put_char s (line_loop k (i + 1) r') in
      if bytes_eq s (10 ∷ [])
      then record { ret = pos i; text = s; ends = true; left = r' }
      else rest
  | closed r' ↦
      if i == 1
      then record { ret = pos 0; text = []; ends = false; left = r' }
      else record { ret = pos i; text = []; ends = true; left = r' }
  | broken r' ↦ record { ret = negsuc 0; text = []; ends = false; left = r' }
]

round-Keeps :
    (k i n : ℕ) (x : Recv)
    → Conserves x n
    → ((r : Reader) → Keeps (line_loop k (i + 1) r) (length (stream r)))
    → Keeps (round k i x) n
round-Keeps k i n (got t r) h ih = elim (Bool-cases (bytes_eq t (10 ∷ []))) [
  | inl e ↦ rw e h.0
  | inr e ↦ rw e (put_char-Keeps t (line_loop k (i + 1) r) _ n (ih r) h.0)
]
round-Keeps k i n (closed r) h ih = elim (Bool-cases (i == 1)) [
  | inl e ↦ rw e (omega (arith, h))
  | inr e ↦ rw e (omega (arith, h))
]
round-Keeps k i n (broken r) h ih = omega (arith, h)

line_loop-Keeps : (k i : ℕ) (r : Reader) → Keeps (line_loop k i r) (length (stream r))
unfolding line_loop
line_loop-Keeps zero i r = omega arith
line_loop-Keeps (suc k) i r =
    round-Keeps k i (length (stream r)) (recv 1 r.buffered r.feed)
      (recv-Conserves r.buffered r.feed) (line_loop-Keeps k (i + 1))

round_takes :
    (k n : ℕ) (x : Recv)
    → Conserves x n
    → unread (round k 1 x).ret ≡ none
    → 0 < length (round k 1 x).text
unfolding unread put_char
round_takes k n (got t r) h u = elim (Bool-cases (bytes_eq t (10 ∷ []))) [
  | inl e ↦ rw e h.1
  | inr e ↦ rw e (omega (arith, length-append {0} t (line_loop k 2 r).text, h.1))
]
round_takes k n (closed r) h u = absurd (ground arith)
round_takes k n (broken r) h u = absurd (ground arith)

keeps_less : (t l n : ℕ) → t + l ≡ n → 0 < t → l < n
keeps_less t l n e h = omega arith

loop_shorter :
    (k : ℕ) (r : Reader)
    → unread (line_loop (suc k) 1 r).ret ≡ none
    → length (stream (line_loop (suc k) 1 r).left) < length (stream r)
unfolding line_loop
loop_shorter k r u =
    let x = recv 1 r.buffered r.feed in
    let h = recv-Conserves r.buffered r.feed in
    keeps_less _ _ _ (round-Keeps k 1 (length (stream r)) x h (line_loop-Keeps k 2))
      (round_takes k (length (stream r)) x h u)

-- A line that was read makes what is to come shorter.
read_line-shorter :
    (r : Reader)
    → unread (read_line max_line_len r).ret ≡ none
    → length (stream (read_line max_line_len r).left) < length (stream r)
unfolding read_line
read_line-shorter r u = loop_shorter 8190 r u

-- Each of the three ways on of a round ends.
abbrev Ends : Received → Type 0
Ends x = x ≢ none

some_returns : (x : ℤ × HttpMsg × Reader) → Ends (some x)
some_returns x e = absurd (ground (arith, e))

line_returns :
    (h : HdrLine) (status : ℤ) (m : HttpMsg) (r : Reader) (f : HttpMsg → Received)
    → ((m' : HttpMsg) → Ends (f m'))
    → Ends (elim h [
      | blank ↦ some (status, m, r)
      | pair key val ↦ f (set_hdr m key val)
      | malformed ↦ some (negsuc 0, m, r)
    ])
line_returns blank status m r f h = some_returns _
line_returns (pair key val) status m r f h = h (set_hdr m key val)
line_returns malformed status m r f h = some_returns _

recv_hdrs_total :
    (fuel : ℕ) (status : ℤ) (m : HttpMsg) (r : Reader)
    → length (stream r) < fuel
    → Ends (recv_hdrs fuel status m r)
unfolding recv_hdrs
recv_hdrs_total zero status m r h = absurd (omega arith)
recv_hdrs_total (suc fuel) status m r h =
    let l = read_line max_line_len r in
    elim (Option-cases (unread l.ret)) [
      | inl e ↦
          rw (e, recv_hdrs)
            (line_returns (hdr_line (c_str l.text)) status m l.left
              (λ m'. recv_hdrs fuel status m' l.left)
              (λ m'. recv_hdrs_total fuel status m' l.left (omega (arith, read_line-shorter r e))))
      | inr x ↦ rw (x.1, recv_hdrs) (some_returns _)
    ]

code_returns :
    (o : Option Bytes) (m : HttpMsg) (r : Reader) (f : Bytes → Received)
    → ((t : Bytes) → Ends (f t))
    → Ends (elim o [ none ↦ some (negsuc 0, m, r) | some code ↦ f code ])
code_returns none m r f h = some_returns _
code_returns (some code) m r f h = h code

-- Whatever the connection gives, failures included, recvHttpResponse returns: fuel above the number of
-- bytes that are to come is enough.
pub recv_http_response_total :
    (fuel : ℕ) (m : HttpMsg) (r : Reader)
    → length (stream r) < fuel
    → recv_http_response fuel m r ≢ none
unfolding recv_http_response
recv_http_response_total fuel m r h =
    let l = read_line max_line_len r in
    let m' = clear_all_hdr m in
    elim (Option-cases (unread l.ret)) [
      | inl e ↦
          rw (e, recv_http_response)
            (code_returns (status_text (c_str l.text)) m' l.left
              (λ t. recv_hdrs fuel (atoi t) m' l.left)
              (λ t. recv_hdrs_total fuel (atoi t) m' l.left (omega (arith, read_line-shorter r e))))
      | inr x ↦ rw (x.1, recv_http_response) (some_returns _)
    ]
