-- ===== src/HttpCli/Lines.antt =====
-- What ReadLine of libspider/HttpCli.cpp reads of a connection that does not fail, however its bytes
-- arrive in segments.
use crowdspider.Base.{
  ℕ, zero, suc, ◌+◌, ◌-◌, ◌<◌, ◌≡◌, refl, ap, ◌≢◌, inl, inr, true, false, List, [], ◌∷◌, ◌++◌,
  arith, ◌==◌, if◌then◌else◌, Bool-cases, length, drop, All, Bytes, bytes_eq,
}
use crowdspider.Base.Int.{pos, negsuc}
use crowdspider.HttpCli.Conn.{
  Recv, got, closed, broken, recv_feed, recv, LineRead, put_char, line_loop, read_line,
}
use crowdspider.Utils.ReadLine.{
  Read, interrupted, failed, chunk, Reader, feed_bytes, stream, Sound, first_line,
}

-- What a read of one byte takes of the bytes `s` that are to come.
abbrev pub TakesOne : Recv → Bytes → Type 0
TakesOne x s = elim x [
  | got t r ↦ (c : ℕ) × (t ≡ c ∷ []) × (s ≡ c ∷ stream r) × All Sound r.feed
  | closed r ↦ (s ≡ []) × (stream r ≡ []) × All Sound r.feed
  | broken r ↦ s ≢ s
]

recv_feed-TakesOne :
    (feed : List Read) → All Sound feed → TakesOne (recv_feed 1 feed) (feed_bytes feed)
unfolding recv_feed feed_bytes
recv_feed-TakesOne [] h = (refl, refl, tt)
recv_feed-TakesOne (interrupted ∷ feed) h = recv_feed-TakesOne feed h.1
recv_feed-TakesOne (failed ∷ feed) h = absurd (h.0 refl)
recv_feed-TakesOne (chunk c cs ∷ feed) h = (c, refl, refl, h.1)

pub recv-TakesOne :
    (cs : Bytes) (feed : List Read)
    → All Sound feed
    → TakesOne (recv 1 cs feed) (cs ++ feed_bytes feed)
unfolding recv
recv-TakesOne [] feed h = recv_feed-TakesOne feed h
recv-TakesOne (c ∷ cs) feed h = (c, refl, refl, h)

-- A line of at most `k` characters of the bytes `s`, with a positive result.
pub record IsLine (l : LineRead) (k : ℕ) (s : Bytes) : Type 0 where
  pub text_eq : l.text ≡ first_line k s
  pub left_eq : stream l.left ≡ drop (length l.text) s
  pub sound : All Sound l.left.feed
  pub ended : l.ends ≡ true
  pub count : (n : ℕ) × (l.ret ≡ pos (suc n))

put_char-IsLine :
    (c k : ℕ) (l : LineRead) (s : Bytes)
    → (c == 10) ≡ false
    → IsLine l k s
    → IsLine (put_char (c ∷ []) l) (suc k) (c ∷ s)
unfolding put_char first_line
put_char-IsLine c k l s e h = record {
  text_eq = rw e (ap (◌∷◌ c) h.text_eq);
  left_eq = h.left_eq;
  sound = h.sound;
  ended = h.ended;
  count = h.count;
}

newline-IsLine :
    (c k i : ℕ) (r : Reader)
    → (c == 10) ≡ true
    → All Sound r.feed
    → IsLine
        (record { ret = pos (suc i); text = c ∷ []; ends = true; left = r })
        (suc k)
        (c ∷ stream r)
unfolding first_line
newline-IsLine c k i r e h = record {
  text_eq = rw e refl;
  left_eq = refl;
  sound = h;
  ended = refl;
  count = (i, refl);
}

is_newline : (c : ℕ) → bytes_eq (c ∷ []) (10 ∷ []) ≡ (c == 10)
unfolding bytes_eq
is_newline c = ground arith

abbrev round : ℕ → ℕ → Recv → LineRead
round k i x = elim x [
  | got s r' ↦
      let rest = put_char s (line_loop k (i + 1) r') in
      if bytes_eq s (10 ∷ [])
      then record { ret = pos i; text = s; ends = true; left = r' }
      else rest
  | closed r' ↦
      if i == 1
      then record { ret = pos 0; text = []; ends = false; left = r' }
      else record { ret = pos i; text = []; ends = true; left = r' }
  | broken r' ↦ record { ret = negsuc 0; text = []; ends = false; left = r' }
]

-- One round that finds a character, from what the later rounds read.
round-IsLine :
    (k i : ℕ) (x : Recv) (s : Bytes)
    → TakesOne x s
    → 0 < length s
    → ((r : Reader) → All Sound r.feed → IsLine (line_loop k (suc i + 1) r) k (stream r))
    → IsLine (round k (suc i) x) (suc k) s
round-IsLine k i (got t r) s (c, e, q, h) l ih = elim (Bool-cases (c == 10)) [
  | inl n ↦ rw (e, is_newline c, n, q) (newline-IsLine c k i r n h)
  | inr n ↦ rw (e, is_newline c, n, q) (put_char-IsLine c k _ (stream r) n (ih r h))
]
round-IsLine k i (closed r) s (e, q, h) l ih = absurd (ground arith)
round-IsLine k i (broken r) s h l ih = absurd (h refl)

stopped-IsLine :
    (k n : ℕ) (r : Reader)
    → All Sound r.feed
    → stream r ≡ []
    → IsLine (record { ret = pos (suc n); text = []; ends = true; left = r }) (suc k) []
unfolding first_line
stopped-IsLine k n r h q = record {
  text_eq = refl;
  left_eq = q;
  sound = h;
  ended = refl;
  count = (n, refl);
}

-- A round behind the first may also find the end.
later_round-IsLine :
    (k i : ℕ) (x : Recv) (s : Bytes)
    → TakesOne x s
    → ((r : Reader) → All Sound r.feed → IsLine (line_loop k (suc (suc i) + 1) r) k (stream r))
    → IsLine (round k (suc (suc i)) x) (suc k) s
later_round-IsLine k i (closed r) s (e, q, h) ih =
    let z : (suc (suc i) == 1) ≡ false = ground arith in rw (z, e) (stopped-IsLine k (suc i) r h q)
later_round-IsLine k i (got t r) s (c, e, q, h) ih =
    round-IsLine k (suc i) (got t r) s (c, e, q, h) (rw q (omega arith)) ih
later_round-IsLine k i (broken r) s h ih = absurd (h refl)

next_index : (i : ℕ) → suc i + 1 ≡ suc (suc i)
next_index i = omega arith

line_loop-IsLine :
    (k i : ℕ) (r : Reader) → All Sound r.feed → IsLine (line_loop k (suc (suc i)) r) k (stream r)
unfolding line_loop
line_loop-IsLine zero i r h = record {
  text_eq = unfold first_line in refl;
  left_eq = refl;
  sound = h;
  ended = refl;
  count = (i, ap pos (omega arith));
}
line_loop-IsLine (suc k) i r h =
    later_round-IsLine k i (recv 1 r.buffered r.feed) (stream r) (recv-TakesOne r.buffered r.feed h)
      (λ r' g. rw (next_index (suc i)) (line_loop-IsLine k (suc i) r' g))

-- ReadLine reads the first line of what is to come, if anything is.
pub read_line-IsLine :
    (k : ℕ) (r : Reader)
    → All Sound r.feed
    → 0 < length (stream r)
    → IsLine (read_line (suc (suc k)) r) (suc k) (stream r)
unfolding read_line line_loop
read_line-IsLine k r h l =
    let e : suc (suc k) - 1 ≡ suc k = omega arith in
    rw e (
      round-IsLine k 0 (recv 1 r.buffered r.feed) (stream r) (recv-TakesOne r.buffered r.feed h) l
        (λ r' g. rw (next_index 0) (line_loop-IsLine k 0 r' g)))
