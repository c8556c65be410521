-- ===== src/HttpCli/Chunk/RoundTrip.antt =====
-- fetchHtmlChunk reads the chunks that a server writes (libspider/HttpCli.cpp).
use crowdspider.Base.{
  ℕ, zero, suc, ◌+◌, ◌≤◌, ◌<◌, ◌≡◌, refl, ap, ◌∙◌, false, Option, some, List, [], ◌∷◌, ◌++◌, arith,
  ◌==◌, length, take, drop, All, length-append, All-append, Bytes,
}
use crowdspider.Base.Int.{pos}
use crowdspider.HttpCli.Chunk.Data.{chunk_data-ReadsData}
use crowdspider.HttpCli.Chunk.{strtol_hex, chunk_data, size_of, chunk_loop, fetch_html_chunk}
use crowdspider.HttpCli.Conn.{LineRead, read_line, after}
use crowdspider.HttpCli.Request.Texts.{c_str-append}
use crowdspider.HttpCli.Response.{max_line_len}
use crowdspider.HttpCli.Response.RoundTrip.{All-map, LineChar}
use crowdspider.HttpCli.Response.Texts.{LineOf, read_line-LineOf}
use crowdspider.Utils.ReadLine.{Reader, stream, Sound}
use mathlib.Core.List.{append_assoc, append-nil}

-- A chunk: the text of its size line, as far as the newline, and its data.
pub record ChunkText : Type 0 where
  pub line : Bytes
  pub octets : Bytes

-- The line of a size: it fits the line buffer, and its number is read as the size.
pub record IsSizeLine (t : Bytes) (n : ℕ) : Type 0 where
  pub chars : All LineChar t
  pub fits : length t < 8191
  pub number : strtol_hex (t ++ (10 ∷ [])) ≡ pos n

abbrev pub IsChunk : ChunkText → Type 0
IsChunk c = IsSizeLine c.line (length c.octets) × (0 < length c.octets)

-- Chunks, the line of the last one, and what follows
abbrev pub chunks_text : List ChunkText → Bytes → Bytes → Bytes
chunks_text [] last tail = last ++ (10 ∷ tail)
chunks_text (c ∷ cs) last tail = c.line ++ (10 ∷ (c.octets ++ (13 ∷ 10 ∷ chunks_text cs last tail)))

abbrev pub all_data : List ChunkText → Bytes
all_data [] = []
all_data (c ∷ cs) = c.octets ++ all_data cs

-- The body was read, and the connection stands behind it.
abbrev pub ReadsBody : Option (Bytes × Reader) → Bytes → Bytes → Type 0
ReadsBody x content tail =
    (r : Reader) × (x ≡ some (content, r)) × (stream r ≡ tail) × All Sound r.feed

size_after :
    (l : LineRead) (t rest buf : Bytes) (n : ℕ)
    → LineOf l t rest
    → IsSizeLine t n
    → size_of (after l buf) ≡ pos n
unfolding after
size_after l t rest buf n x v =
    let chars : All (λ c. 0 < c) (t ++ (10 ∷ [])) =
      All-append (λ c. 0 < c) t (10 ∷ []) (All-map LineChar (λ c. 0 < c) (λ c y. y.0) t v.chars)
        ((omega arith), tt) in
    rw (x.ends, x.read) (ap strtol_hex (c_str-append (t ++ (10 ∷ [])) _ chars) ∙ v.number)

drop_data : (d s : Bytes) → drop (length d) (d ++ s) ≡ s
drop_data [] s = refl
drop_data (c ∷ d) s = drop_data d s

take_data : (d s : Bytes) → take (length d) (d ++ s) ≡ d
take_data [] s = refl
take_data (c ∷ d) s = ap (◌∷◌ c) (take_data d s)

abbrev second_line : Reader → LineRead
second_line r = read_line max_line_len (read_line max_line_len r).left

-- The data of a chunk, the end of its line, and the line of the next size.
record NextSize (fuel : ℕ) (buf content d rest : Bytes) (n : ℕ) (r : Reader) : Type 0 where
  pub read : Reader
  pub octets : chunk_data fuel (length d) content r ≡ some (content ++ d, read)
  pub line : size_of (after (second_line read) (after (read_line max_line_len read) buf)) ≡ pos n
  pub rest_eq : stream (second_line read).left ≡ rest
  pub sound : All Sound (second_line read).left.feed

next_size :
    (fuel : ℕ) (buf content d t rest : Bytes) (n : ℕ) (r : Reader)
    → All Sound r.feed
    → stream r ≡ d ++ (13 ∷ 10 ∷ (t ++ (10 ∷ rest)))
    → length d < fuel
    → IsSizeLine t n
    → NextSize fuel buf content d rest n r
next_size fuel buf content d t rest n r h e f v =
    let more = 13 ∷ 10 ∷ (t ++ (10 ∷ rest)) in
    let l : length d ≤ length (stream r) = omega (arith, ap length e, length-append {0} d more) in
    let (r1, q, s1, h1) = chunk_data-ReadsData fuel (length d) content r h l f in
    let e1 : stream r1 ≡ more = s1 ∙ ap (drop (length d)) e ∙ drop_data d more in
    let x = read_line-LineOf r1 (13 ∷ []) (t ++ (10 ∷ rest)) h1 e1 (refl, tt) (omega arith) in
    let y =
      read_line-LineOf (read_line max_line_len r1).left t rest x.sound x.rest_eq
        (All-map LineChar _ (λ c z. z.1) t v.chars) v.fits in
    record {
      read = r1;
      octets =
          q
          ∙ ap (λ (z : Bytes). some (content ++ z, r1)) (ap (take (length d)) e ∙ take_data d more);
      line = size_after _ t rest _ n y v;
      rest_eq = y.rest_eq;
      sound = y.sound;
    }

-- The loop, from a chunk's data on.
chunk_loop-ReadsBody :
    (fuel : ℕ) (buf content d last tail : Bytes) (cs : List ChunkText) (r : Reader)
    → All Sound r.feed
    → stream r ≡ d ++ (13 ∷ 10 ∷ chunks_text cs last tail)
    → length (stream r) < fuel
    → All IsChunk cs
    → IsSizeLine last 0
    → ReadsBody
        (chunk_loop fuel (pos (length d)) buf content r)
        (content ++ (d ++ all_data cs))
        tail
unfolding chunk_loop
chunk_loop-ReadsBody zero buf content d last tail cs r h e f v w = absurd (omega arith)
chunk_loop-ReadsBody (suc fuel) buf content d last tail [] r h e f v w =
    let l : length d < suc fuel =
      omega (arith, ap length e, length-append {0} d (13 ∷ 10 ∷ (last ++ (10 ∷ tail)))) in
    let x = next_size (suc fuel) buf content d last tail 0 r h e l w in
    ((second_line x.read).left, rw (x.octets, x.line, append-nil d) refl, x.rest_eq, x.sound)
chunk_loop-ReadsBody (suc fuel) buf content d last tail (c ∷ cs) r h e f v w =
    let rest = c.octets ++ (13 ∷ 10 ∷ chunks_text cs last tail) in
    let n : length (stream r) ≡ length d + suc (suc (length c.line + suc (length rest))) =
      ap length e
      ∙ omega (
        arith,
        length-append {0} d (13 ∷ 10 ∷ (c.line ++ (10 ∷ rest))),
        length-append {0} c.line (10 ∷ rest),
      ) in
    let x =
      next_size (suc fuel) buf content d c.line rest (length c.octets) r h e (omega (arith, n))
        v.0.0 in
    let z : (length c.octets == 0) ≡ false = ground (arith, v.0.1) in
    let left = (second_line x.read).left in
    let (r', a, b, g) =
      chunk_loop-ReadsBody fuel
        (after (second_line x.read) (after (read_line max_line_len x.read) buf)) (content ++ d)
        c.octets last tail cs left x.sound x.rest_eq (omega (arith, n, ap length x.rest_eq)) v.1
        w in
    (
      r',
      rw (x.octets, x.line, z) (a ∙ ap (λ (y : Bytes). some (y, r')) (append_assoc content d _)),
      b,
      g,
    )

-- A body of chunks that are not empty, over a connection that does not fail and is cut up in any way:
-- fetchHtmlChunk gathers the data of the chunks, in their order, and leaves what follows the last
-- chunk's line, with fuel above the number of bytes that are to come.
pub fetch_html_chunk-chunks_text :
    (fuel : ℕ) (buf last tail : Bytes) (c : ChunkText) (cs : List ChunkText) (r : Reader)
    → All Sound r.feed
    → stream r ≡ chunks_text (c ∷ cs) last tail
    → length (stream r) < fuel
    → All IsChunk (c ∷ cs)
    → IsSizeLine last 0
    → ReadsBody (fetch_html_chunk fuel buf r) (all_data (c ∷ cs)) tail
unfolding fetch_html_chunk
fetch_html_chunk-chunks_text fuel buf last tail c cs r h e f v w =
    let rest = c.octets ++ (13 ∷ 10 ∷ chunks_text cs last tail) in
    let y =
      read_line-LineOf r c.line rest h e (All-map LineChar _ (λ k z. z.1) c.line v.0.0.chars)
        v.0.0.fits in
    let n : length (stream r) ≡ length c.line + suc (length rest) =
      ap length e ∙ length-append {0} c.line (10 ∷ rest) in
    let s = size_after (read_line max_line_len r) c.line rest buf (length c.octets) y v.0.0 in
    rw s (
      chunk_loop-ReadsBody fuel (after (read_line max_line_len r) buf) [] c.octets last tail cs
        (read_line max_line_len r).left y.sound y.rest_eq (omega (arith, n, ap length y.rest_eq))
        v.1 w)
