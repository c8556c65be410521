-- ===== src/HttpCli/Body/Whole.antt =====
-- A body without a length (libspider/HttpCli.cpp).
use crowdspider.Base.{
  ℕ, zero, suc, ◌+◌, ◌<◌, ◌≡◌, refl, sym, ap, ◌∙◌, Option, some, [], ◌++◌, arith, length, All,
  length-append, Bytes,
}
use crowdspider.Base.Int.{pos, negsuc}
use crowdspider.HttpCli.Body.{Fetched, to_int, fetch_all, fetch_body, fetch_html_file}
use crowdspider.HttpCli.Chunk.{http_buf_size}
use crowdspider.HttpCli.Chunk.Data.{TakesUpTo, recv-TakesUpTo}
use crowdspider.HttpCli.Conn.{Recv, got, closed, broken, recv}
use crowdspider.HttpCli.Hdrs.{get_content_len}
use crowdspider.HttpMsg.{HttpMsg}
use crowdspider.Utils.ReadLine.{Reader, stream, Sound}
use mathlib.Core.List.{append_assoc, append-nil}

abbrev all_round : ℕ → Bytes → Recv → Option Fetched
all_round fuel content x = elim x [
  | got t r' ↦ fetch_all fuel (content ++ t) r'
  | closed r' ↦ some (record { ret = pos (length content); content = content; left = r' })
  | broken r' ↦ some (record { ret = negsuc 0; content = content; left = r' })
]

-- All bytes that are to come were gathered behind the content.
abbrev pub GathersAll : Option Fetched → Bytes → Bytes → Type 0
GathersAll x content s =
    (r : Reader) × (x
      ≡ some (record { ret = pos (length (content ++ s)); content = content ++ s; left = r }))
    × (stream r ≡ [])

all_round-GathersAll :
    (n fuel : ℕ) (content : Bytes) (x : Recv) (s : Bytes)
    → TakesUpTo n x s
    → length s < suc fuel
    → ((c : Bytes) (r : Reader)
        → All Sound r.feed
        → length (stream r) < fuel
        → GathersAll (fetch_all fuel c r) c (stream r))
    → GathersAll (all_round fuel content x) content s
all_round-GathersAll n fuel content (got t r) s (e, p, l, h) f ih =
    let m : length t + length (stream r) ≡ length s =
      sym (length-append {0} t (stream r)) ∙ ap length e in
    let (r', a, b) = ih (content ++ t) r h (omega (arith, m, p)) in
    let q : (content ++ t) ++ stream r ≡ content ++ s =
      append_assoc content t (stream r) ∙ ap (λ (y : Bytes). content ++ y) e in
    (
      r',
      a ∙ ap (λ (y : Bytes). some (record { ret = pos (length y); content = y; left = r' })) q,
      b,
    )
all_round-GathersAll n fuel content (closed r) s (e, q, h) f ih = (
  r,
  ap (λ (y : Bytes). some (record { ret = pos (length y); content = y; left = r }))
      (sym (append-nil content) ∙ ap (λ (y : Bytes). content ++ y) (sym e)),
  q,
)
all_round-GathersAll n fuel content (broken r) s h f ih = absurd (h refl)

fetch_all-GathersAll :
    (fuel : ℕ) (content : Bytes) (r : Reader)
    → All Sound r.feed
    → length (stream r) < fuel
    → GathersAll (fetch_all fuel content r) content (stream r)
unfolding fetch_all
fetch_all-GathersAll zero content r h f = absurd (omega arith)
fetch_all-GathersAll (suc fuel) content r h f =
    all_round-GathersAll 8192 fuel content (recv http_buf_size r.buffered r.feed) (stream r)
      (recv-TakesUpTo 8191 r.buffered r.feed h) f (fetch_all-GathersAll fuel)

-- An answer without a length, over a connection that does not fail: fetchHtmlFile gathers every byte
-- that comes until the connection closes, and returns their number, cut to an int of 32 bits, with fuel
-- above that number.
pub fetch_html_file-GathersAll :
    (fuel : ℕ) (response : HttpMsg) (r : Reader)
    → get_content_len response ≡ some (negsuc 0)
    → All Sound r.feed
    → length (stream r) < fuel
    → (left : Reader) × (fetch_html_file fuel response r
        ≡ some (record { ret = to_int (pos (length (stream r))); content = stream r; left = left }))
      × (stream left ≡ [])
unfolding fetch_html_file fetch_body
fetch_html_file-GathersAll fuel response r e h f =
    let (left, a, b) = fetch_all-GathersAll fuel [] r h f in (left, rw (e, fetch_body, a) refl, b)
