-- ===== src/HttpCli/Request/Print.antt =====
-- The text that sendHttpRequest sends (libspider/HttpCli.cpp).
use crowdspider.Base.{
  suc, ◌+◌, ◌<◌, ◌≡◌, refl, sym, ap, ◌∙◌, Bool, some, List, [], ◌∷◌, ◌++◌, arith, lt→ltb, length,
  drop, All, length-append, length-drop, All-append, Bytes, codes, c_str,
}
use crowdspider.HttpCli.Request.Texts.{write_at-append, c_str-append}
use crowdspider.HttpCli.Request.{
  Verb, get, UriParts, req_path, method_line, req_line, hdr_print, write_hdrs, write_request,
  send_http_request,
}
use crowdspider.HttpCli.Response.RoundTrip.{
  hdr_text, hdrs_text, ValChar, KeyChar, IsHdr, All-map, LineChar, hdr_text-LineChar,
  hdr_text-append,
}
use crowdspider.HttpCli.Response.Texts.{c_str_plain}
use crowdspider.HttpMsg.{HttpHdr, HttpMsg, get_hdr_count, hdr_len}
use mathlib.Core.List.{append_assoc}

hdr_print-hdr_text : (h : HttpHdr) → IsHdr h → hdr_print h ≡ hdr_text h ++ (10 ∷ [])
hdr_print-hdr_text h v =
    let k = c_str_plain h.key (All-map KeyChar (λ c. 0 < c) (λ c x. x.0.0) h.key v.key_chars) in
    let w = c_str_plain h.val (All-map ValChar (λ c. 0 < c) (λ c x. x.0) h.val v.val_chars) in
    rw (k, w, hdr_text-append h []) refl

length-hdr_print : (h : HttpHdr) → IsHdr h → length (hdr_text h ++ (10 ∷ [])) ≡ hdr_len h
length-hdr_print h v = omega (
  arith,
  length-append {0} (hdr_text h) (10 ∷ []),
  length-append {0} h.key (b':' ∷ b' ' ∷ (h.val ++ (13 ∷ []))),
  length-append {0} h.val (13 ∷ []),
)

hdrs_text-cons :
    (h : HttpHdr) (hs : List HttpHdr)
    → (hdr_text h ++ (10 ∷ [])) ++ hdrs_text hs [] ≡ hdrs_text (h ∷ hs) []
hdrs_text-cons h hs = append_assoc (hdr_text h) (10 ∷ []) (hdrs_text hs [])

-- The loop writes the headers and the empty line, one behind the other, behind what stands there.
write_hdrs-text :
    (hs : List HttpHdr) (t rest : Bytes)
    → All IsHdr hs
    → length (hdrs_text hs []) < length rest
    → (more : Bytes) × (write_hdrs hs (length t) (t ++ rest)
        ≡ some ((t ++ hdrs_text hs []) ++ (0 ∷ more)))
unfolding write_hdrs
write_hdrs-text [] t rest v l =
    (drop 3 rest, write_at-append 3 t (13 ∷ 10 ∷ []) rest (omega arith) l)
write_hdrs-text (h ∷ hs) t rest v l =
    let p = hdr_text h ++ (10 ∷ []) in
    let n = length-hdr_print h v.0 in
    let c : length p + length (hdrs_text hs []) ≡ length (hdrs_text (h ∷ hs) []) =
      sym (length-append {0} p (hdrs_text hs [])) ∙ ap length (hdrs_text-cons h hs) in
    let at : length t + hdr_len h ≡ length (t ++ p) = omega (arith, n, length-append {0} t p) in
    let rest' = 0 ∷ drop (suc (length p)) rest in
    let (more, q) =
      write_hdrs-text hs (t ++ p) rest' v.1
        (omega (arith, l, c, length-drop (suc (length p)) rest)) in
    (
      more,
      rw
          (
            hdr_print-hdr_text h v.0,
            write_at-append 8192 t p rest (omega (arith, n, v.0.fits)) (omega (arith, l, c)),
            at,
            q,
            append_assoc t p (hdrs_text hs []),
            hdrs_text-cons h hs,
          )
          refl,
    )

-- A request: a request line without NULs that fits 1024 bytes, some headers, and room for all of it.
pub record IsSendable (line : Bytes) (m : HttpMsg) (buf : Bytes) : Type 0 where
  pub line_chars : All (λ c. 0 < c) line
  pub line_fits : length line < 1024
  pub counted : 0 < get_hdr_count m
  pub hdrs : All IsHdr m.hdrs
  pub room : length line + length (hdrs_text m.hdrs []) < length buf

hdrs_text_chars : (hs : List HttpHdr) → All IsHdr hs → All (λ c. 0 < c) (hdrs_text hs [])
hdrs_text_chars [] v = ((omega arith), ((omega arith), tt))
hdrs_text_chars (h ∷ hs) v =
    All-append (λ c. 0 < c) (hdr_text h) (10 ∷ hdrs_text hs [])
      (All-map LineChar (λ c. 0 < c) (λ c x. x.0) (hdr_text h) (hdr_text-LineChar h v.0))
      ((omega arith), hdrs_text_chars hs v.1)

-- With a request line whose length is known, the text is the line, the headers and the empty line.
pub send_http_request-req_line :
    (verb : Verb) (use_proxy : Bool) (u : UriParts) (m : HttpMsg) (line buf : Bytes)
    → req_line verb use_proxy u ≡ some (line, length line)
    → IsSendable line m buf
    → send_http_request verb use_proxy u m buf ≡ some (line ++ hdrs_text m.hdrs [])
unfolding send_http_request write_request
send_http_request-req_line verb use_proxy u m line buf e v =
    let first = write_at-append 1024 [] line buf v.line_fits (omega (arith, v.room)) in
    let (more, q) =
      write_hdrs-text m.hdrs line (0 ∷ drop (suc (length line)) buf) v.hdrs
        (omega (arith, v.room, length-drop (suc (length line)) buf)) in
    let c = lt→ltb 0 (get_hdr_count m) v.counted in
    rw
      (
        e,
        c,
        write_request,
        first,
        q,
        c_str-append (line ++ hdrs_text m.hdrs []) more (
            All-append (λ c. 0 < c) line (hdrs_text m.hdrs []) v.line_chars
              (hdrs_text_chars m.hdrs v.hdrs)),
      )
      refl

length-method_line : (path : Bytes) → length (method_line (codes "GET ") path) ≡ 15 + length path
length-method_line path =
    omega (arith, length-append {0} path (codes " HTTP/1.1" ++ (13 ∷ 10 ∷ [])))

-- A GET request is sent as its line, the message's headers in their order, and the empty line, where the
-- path has no NUL, the line fits 1024 bytes and the whole text fits the buffer.
pub send_http_request-get :
    (use_proxy : Bool) (u : UriParts) (m : HttpMsg) (buf : Bytes)
    → c_str (req_path use_proxy u) ≡ req_path use_proxy u
    → IsSendable (method_line (codes "GET ") (req_path use_proxy u)) m buf
    → send_http_request get use_proxy u m buf
      ≡ some (method_line (codes "GET ") (req_path use_proxy u) ++ hdrs_text m.hdrs [])
unfolding req_line
send_http_request-get use_proxy u m buf e v =
    let path = req_path use_proxy u in
    send_http_request-req_line get use_proxy u m (method_line (codes "GET ") path) buf
      (rw (e, length-method_line path) refl) v
