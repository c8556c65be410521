-- ===== src/Tests/HttpCli.antt =====
-- Examples for the theorems about libspider/HttpCli.cpp.
use crowdspider.Base.{
  true, false, zero, suc, ◌<◌, ℕ, ◌≤◌, ◌<◌, ◌≡◌, refl, ◌∙◌, ◌≢◌, false, none, some, List, [], ◌∷◌,
  ◌++◌, arith, ◌==◌, if◌then◌else◌, replicate, All, Bytes, codes, bytes_eq, to_lower, is_digit,
  is_xdigit, case_eq,
}
use crowdspider.Base.Int.{ℤ, pos}
use crowdspider.HttpCli.Body.{fetch_html_file}
use crowdspider.HttpCli.Body.Length.{FileResult, fetch_html_file-LenResult}
use crowdspider.HttpCli.Chunk.{
  hex_value, hex_digits, signed_hex, strtol_hex, chunk_data, fetch_html_chunk,
}
use crowdspider.HttpCli.Chunk.Data.{chunk_data_waits}
use crowdspider.HttpCli.Chunk.RoundTrip.{
  ChunkText, IsSizeLine, IsChunk, ReadsBody, fetch_html_chunk-chunks_text,
}
use crowdspider.HttpCli.Hdrs.{get_content_len}
use crowdspider.HttpCli.Hdrs.ContentLen.{get_content_len-set_hdr}
use crowdspider.HttpCli.Page.{redirected, is_lost, body_ret, fetch_html_page}
use crowdspider.HttpCli.Page.Redirect.{fetch_html_page-sessions, fetch_html_page-redirected}
use crowdspider.HttpCli.Request.{UriParts, decimal, req_path, method_line}
use crowdspider.HttpCli.Request.Answered.{recv_hdrs-send_http_request}
use crowdspider.HttpCli.Request.Print.{IsSendable, send_http_request-get}
use crowdspider.HttpCli.Response.{from, recv_hdrs, recv_http_response}
use crowdspider.HttpCli.Response.Answer.{IsStatusLine, recv_http_response-ReadsAs}
use crowdspider.HttpCli.Response.RoundTrip.{IsHdr, set_all, ReadsAs}
use crowdspider.HttpCli.Total.{recv_http_response_total}
use crowdspider.HttpMsg.{HttpHdr, HttpMsg, new_msg, clear_all_hdr, set_hdr}
use crowdspider.Utils.ReadLine.{interrupted, failed, chunk, Reader, feed_bytes, stream, Sound}

-- A connection with a text that has arrived in two parts
abbrev conn : Bytes → ℕ → Bytes → Reader
conn s c cs = record { buffered = s; feed = interrupted ∷ chunk c cs ∷ [] }

conn-Sound : (c : ℕ) (cs : Bytes) → All Sound (interrupted ∷ chunk c cs ∷ [])
conn-Sound c cs = ((λ e. absurd (ground (arith, e))), ((λ e. absurd (ground (arith, e))), tt))

abbrev one_hdr : HttpHdr
one_hdr = record { key = codes "k"; val = codes "v" }

one_hdr-IsHdr : IsHdr one_hdr
one_hdr-IsHdr = record {
  key_chars = (((omega arith, refl, refl), refl), tt);
  val_chars = ((omega arith, refl, refl), tt);
  key_head = refl;
  val_head = refl;
  fits = omega arith;
}

status-IsStatusLine : IsStatusLine (codes "V") 4 0 4 (codes "R")
status-IsStatusLine = record {
  version_chars = ((omega arith, refl, refl), tt);
  version_words = (refl, tt);
  reason_chars = ((omega arith, refl, refl), tt);
  nonempty = omega arith;
  digits = (omega arith, omega arith, omega arith);
  fits = omega arith;
}

-- `V 404 R`, the header `k: v`, the empty line and one byte of a body
abbrev answer : Reader
answer = conn (codes "V 404 R") 13 (10 ∷ b'k' ∷ b':' ∷ b' ' ∷ b'v' ∷ 13 ∷ 10 ∷ 13 ∷ 10 ∷ b'!' ∷ [])

recv_http_response-ReadsAs_example :
    ReadsAs
      (recv_http_response 5 new_msg answer)
      (pos 404)
      (set_all (one_hdr ∷ []) (clear_all_hdr new_msg))
      (codes "!")
recv_http_response-ReadsAs_example =
    recv_http_response-ReadsAs 5 new_msg (codes "V") 4 0 4 (codes "R") (one_hdr ∷ []) (codes "!")
      answer status-IsStatusLine (one_hdr-IsHdr, tt) (omega arith) (conn-Sound _ _)
      (unfold feed_bytes in refl)

abbrev cut_off : Reader
cut_off = record { buffered = codes "V 4"; feed = failed ∷ [] }

recv_http_response_total_example : recv_http_response 4 new_msg cut_off ≢ none
recv_http_response_total_example =
    recv_http_response_total 4 new_msg cut_off (unfold feed_bytes in omega arith)

abbrev two_chunks : List ChunkText
two_chunks =
    record { line = 50 ∷ 13 ∷ []; octets = codes "ab" }
    ∷ record { line = 49 ∷ 13 ∷ []; octets = codes "c" }
    ∷ []

size_line :
    (c : ℕ) (n : ℕ)
    → 0 < c
    → (c == 10) ≡ false
    → strtol_hex (c ∷ 13 ∷ 10 ∷ []) ≡ pos n
    → IsSizeLine (c ∷ 13 ∷ []) n
size_line c n p q e = record {
  chars = ((p, q), ((omega arith, refl), tt));
  fits = omega arith;
  number = e;
}

two_chunks-IsChunk : All IsChunk two_chunks
unfolding strtol_hex from signed_hex hex_digits hex_value is_xdigit is_digit case_eq bytes_eq
    to_lower
two_chunks-IsChunk = (
  (size_line 50 2 (omega arith) refl refl, omega arith),
  ((size_line 49 1 (omega arith) refl refl, omega arith), tt),
)

last-IsSizeLine : IsSizeLine (48 ∷ 13 ∷ []) 0
unfolding strtol_hex from signed_hex hex_digits hex_value is_xdigit is_digit case_eq bytes_eq
    to_lower
last-IsSizeLine = size_line 48 0 (omega arith) refl refl

abbrev body : Reader
body =
    conn (50 ∷ 13 ∷ 10 ∷ b'a' ∷ []) b'b'
      (13 ∷ 10 ∷ 49 ∷ 13 ∷ 10 ∷ b'c' ∷ 13 ∷ 10 ∷ 48 ∷ 13 ∷ 10 ∷ 13 ∷ 10 ∷ [])

fetch_html_chunk-chunks_text_example :
    ReadsBody (fetch_html_chunk 40 [] body) (codes "abc") (13 ∷ 10 ∷ [])
fetch_html_chunk-chunks_text_example =
    fetch_html_chunk-chunks_text 40 [] (48 ∷ 13 ∷ []) (13 ∷ 10 ∷ [])
      (record { line = 50 ∷ 13 ∷ []; octets = codes "ab" })
      (record { line = 49 ∷ 13 ∷ []; octets = codes "c" } ∷ []) body (conn-Sound _ _)
      (unfold feed_bytes in refl) (unfold feed_bytes in omega arith) two_chunks-IsChunk
      last-IsSizeLine

chunk_data_waits_example : chunk_data 100 9 [] (conn (codes "ab") b'c' (codes "d")) ≡ none
chunk_data_waits_example =
    chunk_data_waits 100 9 [] (conn (codes "ab") b'c' (codes "d")) (conn-Sound _ _)
      (unfold feed_bytes in omega arith)

abbrev uri : UriParts
uri = record {
  unparsed = codes "http://h/";
  path = codes "/";
  query = some (codes "q");
  fragment = none;
  hostname = codes "h";
  port = 80;
  user = [];
  password = [];
}

abbrev one_msg : HttpMsg
one_msg = record { http_ver = 0; hdrs = one_hdr ∷ [] }

abbrev request_line : Bytes
request_line = codes "GET /?q HTTP/1.1" ++ (13 ∷ 10 ∷ [])

abbrev send_buf : Bytes
send_buf = replicate 64 7

line_chars : All (λ c. 0 < c) request_line
line_chars = (
  omega arith,
  (
    omega arith,
    (
      omega arith,
      (
        omega arith,
        (
          omega arith,
          (
            omega arith,
            (
              omega arith,
              (
                omega arith,
                (
                  omega arith,
                  (
                    omega arith,
                    (
                      omega arith,
                      (
                        omega arith,
                        (
                          omega arith,
                          (
                            omega arith,
                            (omega arith, (omega arith, (omega arith, (omega arith, tt)))),
                          ),
                        ),
                      ),
                    ),
                  ),
                ),
              ),
            ),
          ),
        ),
      ),
    ),
  ),
)

one_msg-IsSendable : IsSendable (method_line (codes "GET ") (req_path false uri)) one_msg send_buf
unfolding req_path
one_msg-IsSendable = record {
  line_chars = line_chars;
  line_fits = omega arith;
  counted = omega arith;
  hdrs = (one_hdr-IsHdr, tt);
  room = omega arith;
}

-- The connection on which the server finds the headers
abbrev server : Reader
server = conn (codes "k: ") b'v' (13 ∷ 10 ∷ 13 ∷ 10 ∷ [])

recv_hdrs-send_http_request_example :
    ReadsAs (recv_hdrs 2 (pos 0) (clear_all_hdr one_msg) server) (pos 0) one_msg []
unfolding req_path
recv_hdrs-send_http_request_example =
    recv_hdrs-send_http_request 2 (pos 0) false uri one_msg send_buf server refl one_msg-IsSendable
      (tt, tt) (omega arith) (conn-Sound _ _)
      (send_http_request-get false uri one_msg send_buf refl one_msg-IsSendable
        ∙ (unfold feed_bytes in refl))

abbrev sized_msg : HttpMsg
sized_msg = set_hdr new_msg (codes "Content-Length") (decimal 3)

fetch_html_file-LenResult_example :
    FileResult
      (fetch_html_file 9 sized_msg (conn (codes "ab") b'c' (codes "d")))
      3
      (stream (conn (codes "ab") b'c' (codes "d")))
fetch_html_file-LenResult_example =
    fetch_html_file-LenResult 9 3 sized_msg (conn (codes "ab") b'c' (codes "d"))
      (get_content_len-set_hdr new_msg 3 (omega arith)) (conn-Sound _ _)
      (unfold feed_bytes in omega arith)

-- A server that always redirects, and one that redirects to a page that is not there
abbrev always_moved : ℕ → ℤ
always_moved i = pos 301

abbrev moved_away : ℕ → ℤ
moved_away i = if i == 0 then pos 302 else pos 404

moved_once : (j : ℕ) → j < 1 → redirected (moved_away j) ≡ true
unfolding redirected
moved_once zero h = refl
moved_once (suc j) h = absurd (omega arith)

fetch_html_page-sessions_example : (fetch_html_page always_moved none (pos 0) (pos 5)).sessions ≤ 7
fetch_html_page-sessions_example = fetch_html_page-sessions always_moved none (pos 0) (pos 5)

fetch_html_page-redirected_example :
    fetch_html_page moved_away none (pos 0) (pos 5)
    ≡ record { ret = body_ret none (pos 0) (pos 5); sessions = 2 }
unfolding redirected is_lost
fetch_html_page-redirected_example =
    fetch_html_page-redirected moved_away none (pos 0) (pos 5) 1 (omega arith) (omega arith)
      moved_once refl refl

get_content_len-set_hdr_example :
    get_content_len (set_hdr one_msg (codes "Content-Length") (decimal 1024)) ≡ some (pos 1024)
get_content_len-set_hdr_example = get_content_len-set_hdr one_msg 1024 (omega arith)
