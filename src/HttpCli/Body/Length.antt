-- ===== src/HttpCli/Body/Length.antt =====
-- A body with a length (libspider/HttpCli.cpp).
use crowdspider.Base.{
  ℕ, zero, suc, ◌+◌, ◌-◌, ◌≤◌, ◌<◌, ◌≡◌, refl, sym, ap, ◌∙◌, ◌⊎◌, inl, inr, false, Option, some, [],
  ◌++◌, arith, ◌==◌, length, All, length-append, Bytes,
}
use crowdspider.Base.Int.{pos, negsuc}
use crowdspider.HttpCli.Body.{Fetched, to_int, returned, fetch_len, fetch_body, fetch_html_file}
use crowdspider.HttpCli.Chunk.{http_buf_size}
use crowdspider.HttpCli.Chunk.Data.{TakesUpTo, recv-TakesUpTo}
use crowdspider.HttpCli.Conn.{Recv, got, closed, broken, recv}
use crowdspider.HttpCli.Hdrs.{get_content_len}
use crowdspider.HttpMsg.{HttpMsg}
use crowdspider.Utils.ReadLine.{Reader, stream, Sound}
use mathlib.Core.List.{append_assoc, append-nil}

abbrev len_round : ℕ → ℕ → Bytes → Recv → Option Fetched
len_round fuel size content x = elim x [
  | got t r' ↦ fetch_len fuel (size - length t) (content ++ t) r'
  | closed r' ↦ some (record { ret = negsuc 0; content = content; left = r' })
  | broken r' ↦ some (record { ret = negsuc 0; content = content; left = r' })
]

-- At least `size` bytes were gathered behind the content, and none is lost.
abbrev pub GathersLen : Option Fetched → ℕ → Bytes → Bytes → Type 0
GathersLen x size content s =
    (t : Bytes) × (r : Reader) × (x
      ≡ some (record { ret = pos (length (content ++ t)); content = content ++ t; left = r }))
    × (t ++ stream r ≡ s)
    × (size ≤ length t)

-- Or all of them were, and they are too few.
abbrev pub Ended : Option Fetched → Bytes → Bytes → Type 0
Ended x content s =
    (r : Reader) × (x ≡ some (record { ret = negsuc 0; content = content ++ s; left = r }))

abbrev pub LenResult : Option Fetched → ℕ → Bytes → Bytes → Type 0
LenResult x size content s =
    ((size ≤ length s) × GathersLen x size content s) ⊎ ((length s < size) × Ended x content s)

gathered_more :
    (x : Option Fetched) (size : ℕ) (content t s w : Bytes)
    → t ++ s ≡ w
    → LenResult x (size - length t) (content ++ t) s
    → LenResult x size content w
gathered_more x size content t s w e (inl (l, (u, r, a, b, c))) =
    let n : length t + length s ≡ length w = sym (length-append {0} t s) ∙ ap length e in
    inl (
      (omega (arith, n)),
      (
        t ++ u,
        r,
        a
            ∙ ap (λ (y : Bytes). some (record { ret = pos (length y); content = y; left = r }))
                (append_assoc content t u),
        append_assoc t u (stream r) ∙ ap (λ (y : Bytes). t ++ y) b ∙ e,
        omega (arith, length-append {0} t u, c),
      ),
    )
gathered_more x size content t s w e (inr (l, (r, a))) =
    let n : length t + length s ≡ length w = sym (length-append {0} t s) ∙ ap length e in
    inr (
      (omega (arith, n)),
      (
        r,
        a
            ∙ ap (λ (y : Bytes). some (record { ret = negsuc 0; content = y; left = r }))
                (append_assoc content t s ∙ ap (λ (y : Bytes). content ++ y) e),
      ),
    )

len_round-LenResult :
    (n fuel size : ℕ) (content : Bytes) (x : Recv) (s : Bytes)
    → TakesUpTo n x s
    → 0 < size
    → length s < suc fuel
    → ((k : ℕ) (c : Bytes) (r : Reader)
        → All Sound r.feed
        → length (stream r) < fuel
        → LenResult (fetch_len fuel k c r) k c (stream r))
    → LenResult (len_round fuel size content x) size content s
len_round-LenResult n fuel size content (got t r) s (e, p, l, h) z f ih =
    let m : length t + length (stream r) ≡ length s =
      sym (length-append {0} t (stream r)) ∙ ap length e in
    gathered_more _ size content t (stream r) s e
      (ih (size - length t) (content ++ t) r h (omega (arith, m, p)))
len_round-LenResult n fuel size content (closed r) s (e, q, h) z f ih = inr (
  (rw e (omega arith)),
  (
    r,
    ap (λ (y : Bytes). some (record { ret = negsuc 0; content = y; left = r }))
        (sym (append-nil content) ∙ ap (λ (y : Bytes). content ++ y) (sym e)),
  ),
)
len_round-LenResult n fuel size content (broken r) s h z f ih = absurd (h refl)

fetch_len-LenResult :
    (fuel size : ℕ) (content : Bytes) (r : Reader)
    → All Sound r.feed
    → length (stream r) < fuel
    → LenResult (fetch_len fuel size content r) size content (stream r)
unfolding fetch_len
fetch_len-LenResult zero size content r h f = absurd (omega arith)
fetch_len-LenResult (suc fuel) zero content r h f = inl (
  (omega arith),
  (
    [],
    r,
    ap (λ (y : Bytes). some (record { ret = pos (length y); content = y; left = r }))
        (sym (append-nil content)),
    refl,
    omega arith,
  ),
)
fetch_len-LenResult (suc fuel) (suc size) content r h f =
    let e : (suc size == 0) ≡ false = ground arith in
    rw e (
      len_round-LenResult 8192 fuel (suc size) content (recv http_buf_size r.buffered r.feed)
        (stream r) (recv-TakesUpTo 8191 r.buffered r.feed h) (omega arith) f
        (fetch_len-LenResult fuel))

-- What fetchHtmlFile makes of a body of `size` bytes: either that many come, and what it has gathered
-- is at least as long and followed by what is left, or all that comes is gathered and is too short.
abbrev pub FileResult : Option Fetched → ℕ → Bytes → Type 0
FileResult x size s =
    ((size ≤ length s)
      × (t : Bytes) × (r : Reader) × (x
          ≡ some (record { ret = to_int (pos (length t)); content = t; left = r }))
      × (t ++ stream r ≡ s)
      × (size ≤ length t))
    ⊎ ((length s < size)
        × (r : Reader) × (x ≡ some (record { ret = negsuc 0; content = s; left = r })))

returned-FileResult :
    (x : Option Fetched) (size : ℕ) (s : Bytes)
    → LenResult x size [] s
    → FileResult (returned x) size s
unfolding to_int
returned-FileResult x size s (inl (l, (t, r, a, b, c))) = inl (l, t, r, rw a refl, b, c)
returned-FileResult x size s (inr (l, (r, a))) = inr (l, r, rw a refl)

-- An answer with a length, over a connection that does not fail: where that many bytes come,
-- fetchHtmlFile gathers at least as many of them, loses none, and returns the number gathered, cut to
-- an int of 32 bits; where fewer come it gathers all of them and returns -1. Fuel above the number of
-- bytes to come is enough.
pub fetch_html_file-LenResult :
    (fuel n : ℕ) (response : HttpMsg) (r : Reader)
    → get_content_len response ≡ some (pos n)
    → All Sound r.feed
    → length (stream r) < fuel
    → FileResult (fetch_html_file fuel response r) n (stream r)
unfolding fetch_html_file fetch_body
fetch_html_file-LenResult fuel n response r e h f =
    rw (e, fetch_body)
      (returned-FileResult (fetch_len fuel n [] r) n (stream r)
        (fetch_len-LenResult fuel n [] r h f))
