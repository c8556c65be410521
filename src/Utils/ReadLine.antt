-- ===== src/Utils/ReadLine.antt =====
-- readLineExInit, readcEx and readLineEx (libspider/Utils.cpp): lines read through a buffer from a
-- descriptor.
use crowdspider.Base.{
  ℕ, zero, suc, ◌+◌, ◌-◌, ◌≡◌, refl, ap, ◌≢◌, inl, inr, true, false, Option, none, some, List, [],
  ◌∷◌, ◌++◌, ◌==◌, if◌then◌else◌, Bool-cases, length, drop, All, Bytes,
}

-- What a call of `read` gives: an interruption (EINTR), another error, or at least one byte. Where
-- the list of a descriptor's results runs out, the file has ended.
pub data Read : Type 0 where
  interrupted failed : Read
  chunk : ℕ → Bytes → Read

-- rline_t: the bytes of the buffer not yet taken, and what the descriptor will give
pub record Reader : Type 0 where
  pub buffered : Bytes
  pub feed : List Read

-- The results 1, 0 and -1 of readcEx.
pub data Taken : Type 0 where
  got : ℕ → Reader → Taken
  ended : Reader → Taken
  broken : Taken

-- readLineExInit
abbrev pub read_line_init : List Read → Reader
read_line_init feed = record { buffered = []; feed = feed }

-- A new read; an interrupted one is tried again.
unfoldable pub refill : List Read → Taken
refill [] = ended (record { buffered = []; feed = [] })
refill (interrupted ∷ feed) = refill feed
refill (failed ∷ feed) = broken
refill (chunk c cs ∷ feed) = got c (record { buffered = cs; feed = feed })

-- readcEx
unfoldable pub readc : Bytes → List Read → Taken
readc [] feed = refill feed
readc (c ∷ cs) feed = got c (record { buffered = cs; feed = feed })

-- What readLineEx returns, the bytes it writes, and the reader it leaves; -1 is `none`.
pub record Line : Type 0 where
  pub count : ℕ
  pub text : Bytes
  pub left : Reader

unfoldable pub push : ℕ → Option Line → Option Line
push c none = none
push c (some l) = some (record l { text = c ∷ l.text })

-- The loop, with `k` rounds left and its counter at `n`
unfoldable pub read_loop : ℕ → ℕ → Reader → Option Line
read_loop zero n r = some (record { count = n; text = []; left = r })
read_loop (suc k) n r = elim (readc r.buffered r.feed) [
  | got c r' ↦
      let rest = push c (read_loop k (n + 1) r') in
      if c == 10 then some (record { count = n; text = c ∷ []; left = r' }) else rest
  | ended r' ↦ some (record { count = if n == 1 then 0 else n; text = []; left = r' })
  | broken ↦ none
]

-- readLineEx, for a buffer of `maxlen` bytes that is not empty
unfoldable pub read_line_ex : ℕ → Reader → Option Line
read_line_ex maxlen r = read_loop (maxlen - 1) 1 r

-- Every byte that is still to come.
unfoldable pub feed_bytes : List Read → Bytes
feed_bytes [] = []
feed_bytes (chunk c cs ∷ feed) = (c ∷ cs) ++ feed_bytes feed
feed_bytes (_ ∷ feed) = feed_bytes feed

abbrev pub stream : Reader → Bytes
stream r = r.buffered ++ feed_bytes r.feed

abbrev pub Sound : Read → Type 0
Sound x = x ≢ failed

-- The first line of a text, of at most `k` bytes
unfoldable pub first_line : ℕ → Bytes → Bytes
first_line zero s = []
first_line (suc k) [] = []
first_line (suc k) (c ∷ s) = let rest = first_line k s in if c == 10 then c ∷ [] else c ∷ rest

-- A byte taken, or the end.
abbrev Takes : Taken → Bytes → Type 0
Takes t s = elim t [
  | got c r ↦ (s ≡ c ∷ stream r) × All Sound r.feed
  | ended r ↦ (s ≡ []) × (stream r ≡ [])
  | broken ↦ s ≢ s
]

refill-Takes : (feed : List Read) → All Sound feed → Takes (refill feed) (feed_bytes feed)
unfolding refill feed_bytes
refill-Takes [] h = (refl, refl)
refill-Takes (interrupted ∷ feed) h = refill-Takes feed h.1
refill-Takes (failed ∷ feed) h = absurd (h.0 refl)
refill-Takes (chunk c cs ∷ feed) h = (refl, h.1)

readc-Takes :
    (cs : Bytes) (feed : List Read) → All Sound feed → Takes (readc cs feed) (cs ++ feed_bytes feed)
unfolding readc
readc-Takes [] feed h = refill-Takes feed h
readc-Takes (c ∷ cs) feed h = (refl, h)

-- A line read with `k` rounds left
abbrev pub Reads : Option Line → ℕ → Bytes → Type 0
Reads o k s =
    (l : Line) × (o ≡ some l) × (l.text ≡ first_line k s) × (stream l.left ≡ drop (length l.text) s)

newline-Reads :
    (c k n : ℕ) (r : Reader)
    → (c == 10) ≡ true
    → Reads (some (record { count = n; text = c ∷ []; left = r })) (suc k) (c ∷ stream r)
unfolding first_line
newline-Reads c k n r e = (record { count = n; text = c ∷ []; left = r }, refl, (rw e refl), refl)

ended-Reads :
    (k n : ℕ) (r : Reader)
    → stream r ≡ []
    → Reads (some (record { count = n; text = []; left = r })) (suc k) []
unfolding first_line
ended-Reads k n r e = (record { count = n; text = []; left = r }, refl, refl, e)

push-Reads :
    (c k : ℕ) (o : Option Line) (s : Bytes)
    → (c == 10) ≡ false
    → Reads o k s
    → Reads (push c o) (suc k) (c ∷ s)
unfolding push first_line
push-Reads c k o s e (l, q, t, d) =
    (record l { text = c ∷ l.text }, (rw q refl), (rw e (ap (◌∷◌ c) t)), d)

-- One round, from what it takes and what the others read.
round-Reads :
    (k n : ℕ) (r : Reader) (t : Taken)
    → readc r.buffered r.feed ≡ t
    → Takes t (stream r)
    → ((r' : Reader) → All Sound r'.feed → Reads (read_loop k (n + 1) r') k (stream r'))
    → Reads (read_loop (suc k) n r) (suc k) (stream r)
unfolding read_loop
round-Reads k n r (got c r') q tk ih = elim (Bool-cases (c == 10)) [
  | inl e ↦ rw (q, e, tk.0, read_loop) (newline-Reads c k n r' e)
  | inr e ↦ rw (q, e, tk.0, read_loop) (push-Reads c k _ (stream r') e (ih r' tk.1))
]
round-Reads k n r (ended r') q tk ih = rw (q, tk.0, read_loop) (ended-Reads k _ r' tk.1)
round-Reads k n r broken q tk ih = absurd (tk refl)

read_loop-Reads : (k n : ℕ) (r : Reader) → All Sound r.feed → Reads (read_loop k n r) k (stream r)
unfolding read_loop
read_loop-Reads zero n r h =
    (record { count = n; text = []; left = r }, refl, (unfold first_line in refl), refl)
read_loop-Reads (suc k) n r h =
    round-Reads k n r (readc r.buffered r.feed) refl (readc-Takes r.buffered r.feed h)
      (λ r' g. read_loop-Reads k (n + 1) r' g)

-- Where no read fails, readLineEx returns a line: the bytes that are to come, as far as a newline or
-- to the buffer's end, however the reads cut them up; and the reader goes on right behind it.
pub read_line_ex-first_line :
    (maxlen : ℕ) (r : Reader)
    → All Sound r.feed
    → Reads (read_line_ex maxlen r) (maxlen - 1) (stream r)
unfolding read_line_ex
read_line_ex-first_line maxlen r h = read_loop-Reads (maxlen - 1) 1 r h
