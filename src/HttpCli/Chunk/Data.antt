-- ===== src/HttpCli/Chunk/Data.antt =====
-- A chunk's data (libspider/HttpCli.cpp): it is read when it is all there, and waited for without end
-- when it is not.
use crowdspider.Base.{
  ℕ, zero, suc, ◌+◌, ◌-◌, ◌≤◌, ◌<◌, ◌≡◌, refl, sym, ap, ◌∙◌, ◌≢◌, false, Option, none, some, List,
  [], ◌∷◌, ◌++◌, arith, ◌==◌, length, take, drop, All, length-append, length-take, Bytes,
}
use crowdspider.HttpCli.Chunk.{http_buf_size, chunk_data}
use crowdspider.HttpCli.Conn.{Recv, got, closed, broken, recv_feed, recv}
use crowdspider.Utils.ReadLine.{Read, interrupted, failed, chunk, Reader, feed_bytes, stream, Sound}
use Prim.Native.Nat.{min}
use mathlib.Core.List.{append_assoc, append-nil}

-- What a read of at most `n` bytes takes of the bytes `s` that are to come.
abbrev pub TakesUpTo : ℕ → Recv → Bytes → Type 0
TakesUpTo n x s = elim x [
  | got t r ↦ (t ++ stream r ≡ s) × (0 < length t) × (length t ≤ n) × All Sound r.feed
  | closed r ↦ (s ≡ []) × (stream r ≡ []) × All Sound r.feed
  | broken r ↦ s ≢ s
]

take-append-drop : (n : ℕ) (s : Bytes) → take n s ++ drop n s ≡ s
take-append-drop zero s = refl
take-append-drop (suc n) [] = refl
take-append-drop (suc n) (c ∷ s) = ap (◌∷◌ c) (take-append-drop n s)

cut :
    (n c : ℕ) (cs more : Bytes)
    → (take (suc n) (c ∷ cs) ++ (drop (suc n) (c ∷ cs) ++ more) ≡ (c ∷ cs) ++ more)
      × (0 < length (take (suc n) (c ∷ cs)))
      × (length (take (suc n) (c ∷ cs)) ≤ suc n)
cut n c cs more = (
  sym (append_assoc (take (suc n) (c ∷ cs)) (drop (suc n) (c ∷ cs)) more)
      ∙ ap (λ (x : Bytes). x ++ more) (take-append-drop (suc n) (c ∷ cs)),
  omega arith,
  omega (arith, length-take n cs),
)

recv_feed-TakesUpTo :
    (n : ℕ) (feed : List Read)
    → All Sound feed
    → TakesUpTo (suc n) (recv_feed (suc n) feed) (feed_bytes feed)
unfolding recv_feed feed_bytes
recv_feed-TakesUpTo n [] h = (refl, refl, tt)
recv_feed-TakesUpTo n (interrupted ∷ feed) h = recv_feed-TakesUpTo n feed h.1
recv_feed-TakesUpTo n (failed ∷ feed) h = absurd (h.0 refl)
recv_feed-TakesUpTo n (chunk c cs ∷ feed) h =
    let x = cut n c cs (feed_bytes feed) in (x.0, x.1, x.2, h.1)

pub recv-TakesUpTo :
    (n : ℕ) (cs : Bytes) (feed : List Read)
    → All Sound feed
    → TakesUpTo (suc n) (recv (suc n) cs feed) (cs ++ feed_bytes feed)
unfolding recv
recv-TakesUpTo n [] feed h = recv_feed-TakesUpTo n feed h
recv-TakesUpTo n (c ∷ cs) feed h = let x = cut n c cs (feed_bytes feed) in (x.0, x.1, x.2, h)

up_to : (m n : ℕ) (x : Recv) (s : Bytes) → m ≤ n → TakesUpTo (suc m) x s → TakesUpTo (suc n) x s
up_to m n (got t r) s l (a, b, c, d) = (a, b, (omega arith), d)
up_to m n (closed r) s l h = h
up_to m n (broken r) s l h = h

buffer_min :
    (size : ℕ) (cs : Bytes) (feed : List Read)
    → All Sound feed
    → TakesUpTo (suc size) (recv (min http_buf_size (suc size)) cs feed) (cs ++ feed_bytes feed)
buffer_min size cs feed h =
    let e : min http_buf_size (suc size) ≡ suc (min 8191 size) = omega arith in
    rw e (
      up_to (min 8191 size) size _ (cs ++ feed_bytes feed) (omega arith)
        (recv-TakesUpTo (min 8191 size) cs feed h))

pub take-append_le :
    (n : ℕ) (t s : Bytes) → length t ≤ n → take n (t ++ s) ≡ t ++ take (n - length t) s
take-append_le n [] s h = ap (λ k. take k s) (omega arith)
take-append_le zero (c ∷ t) s h = absurd (omega arith)
take-append_le (suc n) (c ∷ t) s h =
    let e : suc n - suc (length t) ≡ n - length t = omega arith in
    rw e (ap (◌∷◌ c) (take-append_le n t s (omega arith)))

pub drop-append_le : (n : ℕ) (t s : Bytes) → length t ≤ n → drop n (t ++ s) ≡ drop (n - length t) s
drop-append_le n [] s h = ap (λ k. drop k s) (omega arith)
drop-append_le zero (c ∷ t) s h = absurd (omega arith)
drop-append_le (suc n) (c ∷ t) s h =
    let e : suc n - suc (length t) ≡ n - length t = omega arith in
    rw e (drop-append_le n t s (omega arith))

-- The data of a chunk was read, and the connection stands behind it.
abbrev pub ReadsData : Option (Bytes × Reader) → Bytes → ℕ → Bytes → Type 0
ReadsData x content size s =
    (r : Reader) × (x ≡ some (content ++ take size s, r))
    × (stream r ≡ drop size s)
    × All Sound r.feed

abbrev data_round : ℕ → ℕ → Bytes → Recv → Option (Bytes × Reader)
data_round fuel size content x = elim x [
  | got t r' ↦ chunk_data fuel (size - length t) (content ++ t) r'
  | closed r' ↦ chunk_data fuel size content r'
  | broken r' ↦ chunk_data fuel size content r'
]

data_round-ReadsData :
    (fuel size : ℕ) (content : Bytes) (x : Recv) (s : Bytes)
    → TakesUpTo (suc size) x s
    → suc size ≤ length s
    → suc size < suc fuel
    → ((n : ℕ) (c : Bytes) (r : Reader)
        → All Sound r.feed
        → n ≤ length (stream r)
        → n < fuel
        → ReadsData (chunk_data fuel n c r) c n (stream r))
    → ReadsData (data_round fuel (suc size) content x) content (suc size) s
data_round-ReadsData fuel size content (got t r) s (e, p, l, h) q f ih =
    let n : length t + length (stream r) ≡ length s =
      sym (length-append {0} t (stream r)) ∙ ap length e in
    let (r', a, b, d) =
      ih (suc size - length t) (content ++ t) r h (omega (arith, n)) (omega (arith, p)) in
    (
      r',
      a
          ∙ ap (λ (y : Bytes). some (y, r'))
              (append_assoc content t (take (suc size - length t) (stream r))
                ∙ ap (λ (y : Bytes). content ++ y)
                    (sym (take-append_le (suc size) t (stream r) l) ∙ ap (take (suc size)) e)),
      b ∙ sym (drop-append_le (suc size) t (stream r) l) ∙ ap (drop (suc size)) e,
      d,
    )
data_round-ReadsData fuel size content (closed r) s (e, q, h) l f ih = absurd (ground (arith, e))
data_round-ReadsData fuel size content (broken r) s h l f ih = absurd (h refl)

-- A chunk whose bytes are all to come is read whole, and no byte behind it.
pub chunk_data-ReadsData :
    (fuel size : ℕ) (content : Bytes) (r : Reader)
    → All Sound r.feed
    → size ≤ length (stream r)
    → size < fuel
    → ReadsData (chunk_data fuel size content r) content size (stream r)
unfolding chunk_data
chunk_data-ReadsData zero size content r h l f = absurd (omega arith)
chunk_data-ReadsData (suc fuel) zero content r h l f =
    (r, ap (λ (y : Bytes). some (y, r)) (sym (append-nil content)), refl, h)
chunk_data-ReadsData (suc fuel) (suc size) content r h l f =
    let e : (suc size == 0) ≡ false = ground arith in
    rw e (
      data_round-ReadsData fuel size content _ (stream r) (buffer_min size r.buffered r.feed h) l f
        (chunk_data-ReadsData fuel))

data_round_waits :
    (fuel size : ℕ) (content : Bytes) (x : Recv) (s : Bytes)
    → TakesUpTo (suc size) x s
    → length s < suc size
    → ((n : ℕ) (c : Bytes) (r : Reader)
        → All Sound r.feed
        → length (stream r) < n
        → chunk_data fuel n c r ≡ none)
    → data_round fuel (suc size) content x ≡ none
data_round_waits fuel size content (got t r) s (e, p, l, h) q ih =
    let n : length t + length (stream r) ≡ length s =
      sym (length-append {0} t (stream r)) ∙ ap length e in
    ih (suc size - length t) (content ++ t) r h (omega (arith, n))
data_round_waits fuel size content (closed r) s (e, q, h) l ih =
    ih (suc size) content r h (rw q (omega arith))
data_round_waits fuel size content (broken r) s h l ih = absurd (h refl)

-- A chunk of which the connection has fewer bytes than its size is waited for without end: no fuel is
-- enough.
pub chunk_data_waits :
    (fuel size : ℕ) (content : Bytes) (r : Reader)
    → All Sound r.feed
    → length (stream r) < size
    → chunk_data fuel size content r ≡ none
unfolding chunk_data
chunk_data_waits zero size content r h l = refl
chunk_data_waits (suc fuel) zero content r h l = absurd (omega arith)
chunk_data_waits (suc fuel) (suc size) content r h l =
    let e : (suc size == 0) ≡ false = ground arith in
    rw e (
      data_round_waits fuel size content _ (stream r) (buffer_min size r.buffered r.feed h) l
        (chunk_data_waits fuel))
