-- ===== src/HttpCli/Request/Answered.antt =====
-- What a request's headers are to the reader of an answer's headers (libspider/HttpCli.cpp).
use crowdspider.Base.{
  ℕ, ◌<◌, ◌≡◌, refl, sym, ap, ◌∙◌, Bool, false, Option, none, some, List, [], ◌∷◌, ◌++◌, arith,
  length, drop, All, Bytes, codes, c_str, case_eq, case_eq_iff,
}
use crowdspider.Base.Int.{ℤ}
use crowdspider.HttpCli.Request.Print.{IsSendable, send_http_request-get}
use crowdspider.HttpCli.Request.{get, UriParts, req_path, method_line, send_http_request}
use crowdspider.HttpCli.Response.{recv_hdrs}
use crowdspider.HttpCli.Response.RoundTrip.{hdrs_text, set_all, ReadsAs, recv_hdrs-ReadsAs}
use crowdspider.HttpMsg.{HttpHdr, HttpMsg, clear_all_hdr}
use crowdspider.HttpMsg.Fresh.{set_hdr-append}
use crowdspider.HttpMsg.Lookup.{Fresh, UniqueKeys}
use crowdspider.Utils.ReadLine.{Reader, stream, Sound}
use mathlib.Core.List.{append_assoc, append-nil}

-- All keys of a list are new to another.
abbrev NewTo : List HttpHdr → List HttpHdr → Type 0
NewTo [] old = Unit
NewTo (h ∷ hs) old = Fresh h.key old × NewTo hs old

Fresh-snoc :
    (k : Bytes) (old : List HttpHdr) (h : HttpHdr)
    → Fresh k old
    → case_eq k h.key ≡ false
    → Fresh k (old ++ (h ∷ []))
Fresh-snoc k [] h f e = (e, tt)
Fresh-snoc k (x ∷ old) h f e = (f.0, Fresh-snoc k old h f.1 e)

case_eq_flip : (a b : Bytes) → case_eq a b ≡ false → case_eq b a ≡ false
case_eq_flip a b h = ground (arith, h, case_eq_iff a b, case_eq_iff b a)

NewTo-snoc :
    (hs old : List HttpHdr) (h : HttpHdr)
    → NewTo hs old
    → Fresh h.key hs
    → NewTo hs (old ++ (h ∷ []))
NewTo-snoc [] old h n f = tt
NewTo-snoc (x ∷ hs) old h n f =
    (Fresh-snoc x.key old h n.0 (case_eq_flip h.key x.key f.0), NewTo-snoc hs old h n.1 f.1)

set_all-hdrs :
    (hs old : List HttpHdr) (v : ℕ)
    → UniqueKeys hs
    → NewTo hs old
    → set_all hs (record { http_ver = v; hdrs = old }) ≡ record { http_ver = v; hdrs = old ++ hs }
set_all-hdrs [] old v u n = rw (append-nil old) refl
set_all-hdrs (h ∷ hs) old v u n =
    rw
      (
        set_hdr-append (record { http_ver = v; hdrs = old }) h.key h.val n.0,
        set_all-hdrs hs (old ++ (h ∷ [])) v u.1 (NewTo-snoc hs old h n.1 u.0),
        append_assoc old (h ∷ []) hs,
      )
      refl

fresh_keys_start : (hs : List HttpHdr) → NewTo hs []
fresh_keys_start [] = tt
fresh_keys_start (h ∷ hs) = (tt, fresh_keys_start hs)

bytes_of : Option Bytes → Bytes
bytes_of x = elim x [ none ↦ [] | some s ↦ s ]

same_tail : (t a b : Bytes) → t ++ a ≡ t ++ b → a ≡ b
same_tail [] a b e = e
same_tail (c ∷ t) a b e = same_tail t a b (ap (drop 1) e)

-- The headers of a GET request, sent to a connection that does not fail and read there by the loop that
-- reads an answer's headers into an emptied message, give that message back. There is at least one; the
-- keys are distinct up to case; keys and values have no CR, LF or NUL and do not begin with a blank, the
-- keys have no colon, and each header fits the line buffer; the path and the request line have no NUL,
-- the line fits 1024 bytes and the whole text the buffer. Fuel above the number of headers is enough.
pub recv_hdrs-send_http_request :
    (fuel : ℕ) (status : ℤ) (use_proxy : Bool) (u : UriParts) (m : HttpMsg) (buf : Bytes)
    (r : Reader)
    → c_str (req_path use_proxy u) ≡ req_path use_proxy u
    → IsSendable (method_line (codes "GET ") (req_path use_proxy u)) m buf
    → UniqueKeys m.hdrs
    → length m.hdrs < fuel
    → All Sound r.feed
    → send_http_request get use_proxy u m buf
      ≡ some (method_line (codes "GET ") (req_path use_proxy u) ++ stream r)
    → ReadsAs (recv_hdrs fuel status (clear_all_hdr m) r) status m []
unfolding clear_all_hdr bytes_of
recv_hdrs-send_http_request fuel status use_proxy u m buf r e v k f h sent =
    let line = method_line (codes "GET ") (req_path use_proxy u) in
    let both : line ++ stream r ≡ line ++ hdrs_text m.hdrs [] =
      ap bytes_of (sym sent ∙ send_http_request-get use_proxy u m buf e v) in
    let x =
      recv_hdrs-ReadsAs fuel status (clear_all_hdr m) m.hdrs [] r v.hdrs f h
        (same_tail line (stream r) (hdrs_text m.hdrs []) both) in
    let s : set_all m.hdrs (clear_all_hdr m) ≡ m =
      set_all-hdrs m.hdrs [] m.http_ver k (fresh_keys_start m.hdrs) in
    (x.0, x.1 ∙ ap (λ (z : HttpMsg). some (status, z, x.0)) s, x.2, x.3)
