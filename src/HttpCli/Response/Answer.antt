-- ===== src/HttpCli/Response/Answer.antt =====
-- recvHttpResponse reads a whole answer: its status line, its headers, and no byte of its body
-- (libspider/HttpCli.cpp).
use crowdspider.Base.{
  ℕ, ◌+◌, ◌*◌, ◌<◌, ◌≡◌, refl, ap, ◌∙◌, false, some, List, [], ◌∷◌, ◌++◌, arith, ◌==◌, length, All,
  length-append, All-append, Bytes, is_digit,
}
use crowdspider.Base.Int.{pos}
use crowdspider.HttpCli.Response.RoundTrip.{
  hdrs_text, ValChar, IsHdr, All-map, LineChar, val_line, set_all, ReadsAs, line_read,
  recv_hdrs-ReadsAs,
}
use crowdspider.HttpCli.Response.Texts.{Passes, from-append, from_Unspaced}
use crowdspider.HttpCli.Response.{
  max_line_len, from, not_space, ends_word, digits_value, signed_digits, atoi, status_text,
  recv_http_response,
}
use crowdspider.HttpCli.Conn.{read_line}
use crowdspider.HttpMsg.{HttpHdr, HttpMsg, clear_all_hdr}
use crowdspider.Utils.ReadLine.{Reader, stream, Sound}
use mathlib.Core.List.{append_assoc}

-- A status line: the version, three digits, and a reason.
pub record IsStatusLine (version : Bytes) (a b c : ℕ) (reason : Bytes) : Type 0 where
  pub version_chars : All ValChar version
  pub version_words : All (λ x. (x == b' ') ≡ false) version
  pub reason_chars : All ValChar reason
  pub nonempty : 0 < length version
  pub digits : (a < 10) × (b < 10) × (c < 10)
  pub fits : length version + length reason + 6 < 8191

abbrev pub status_line : Bytes → ℕ → ℕ → ℕ → Bytes → Bytes
status_line version a b c reason =
    version ++ (b' ' ∷ (b'0' + a) ∷ (b'0' + b) ∷ (b'0' + c) ∷ b' ' ∷ (reason ++ (13 ∷ [])))

atoi_three :
    (a b c : ℕ) (s : Bytes)
    → a < 10
    → b < 10
    → c < 10
    → atoi ((b'0' + a) ∷ (b'0' + b) ∷ (b'0' + c) ∷ b' ' ∷ s) ≡ pos (a * 100 + b * 10 + c)
unfolding atoi from signed_digits digits_value is_digit
atoi_three a b c s ha hb hc = ground arith

ends_line-digit :
    (a : ℕ) (s : Bytes) → a < 10 → from not_space (b' ' ∷ (b'0' + a) ∷ s) ≡ (b'0' + a) ∷ s
unfolding from
ends_line-digit a s h = ground arith

word_stop : (x : ℕ) → ValChar x → (x == b' ') ≡ false → ends_word x ≡ false
word_stop x v w = ground arith

version-Passes :
    (s : Bytes) → All ValChar s → All (λ x. (x == b' ') ≡ false) s → All (Passes ends_word) s
version-Passes [] v w = tt
version-Passes (x ∷ s) v w = (word_stop x v.0 w.0, version-Passes s v.1 w.1)

status_text-status_line :
    (x : ℕ) (version : Bytes) (a : ℕ) (s : Bytes)
    → All ValChar (x ∷ version)
    → All (λ x. (x == b' ') ≡ false) (x ∷ version)
    → a < 10
    → status_text ((x ∷ version) ++ (b' ' ∷ (b'0' + a) ∷ s)) ≡ some ((b'0' + a) ∷ s)
unfolding status_text
status_text-status_line x version a s v w h =
    rw
      (
        from_Unspaced x (version ++ (b' ' ∷ (b'0' + a) ∷ s)) w.0,
        from-append ends_word (x ∷ version) b' ' ((b'0' + a) ∷ s) (version-Passes (x ∷ version) v w)
            refl,
        ends_line-digit a s h,
      )
      refl

status_line-append :
    (version : Bytes) (a b c : ℕ) (reason s : Bytes)
    → status_line version a b c reason ++ s
      ≡ version ++ (b' ' ∷ (b'0' + a) ∷ (b'0' + b) ∷ (b'0' + c) ∷ b' ' ∷ (reason ++ (13 ∷ s)))
status_line-append version a b c reason s =
    append_assoc version _ s
    ∙ ap (λ (x : Bytes). version ++ (b' ' ∷ (b'0' + a) ∷ (b'0' + b) ∷ (b'0' + c) ∷ b' ' ∷ x))
        (append_assoc reason (13 ∷ []) s)

digit_line : (d : ℕ) → d < 10 → LineChar (b'0' + d)
digit_line d h = ground arith

status_line-LineChar :
    (version : Bytes) (a b c : ℕ) (reason : Bytes)
    → IsStatusLine version a b c reason
    → All LineChar (status_line version a b c reason)
status_line-LineChar version a b c reason v =
    All-append LineChar version _ (All-map ValChar LineChar val_line version v.version_chars) (
      (omega arith, refl),
      (
        digit_line a v.digits.0,
        (
          digit_line b v.digits.1,
          (
            digit_line c v.digits.2,
            (
              (omega arith, refl),
              All-append LineChar reason (13 ∷ [])
                  (All-map ValChar LineChar val_line reason v.reason_chars)
                  ((omega arith, refl), tt),
            ),
          ),
        ),
      ),
    )

length-status_line :
    (version : Bytes) (a b c : ℕ) (reason : Bytes)
    → length (status_line version a b c reason) ≡ length version + length reason + 6
length-status_line version a b c reason = omega (
  arith,
  length-append {0} version
      (b' ' ∷ (b'0' + a) ∷ (b'0' + b) ∷ (b'0' + c) ∷ b' ' ∷ (reason ++ (13 ∷ []))),
  length-append {0} reason (13 ∷ []),
)

status_of_line :
    (version : Bytes) (a b c : ℕ) (reason : Bytes)
    → IsStatusLine version a b c reason
    → (t : Bytes) × (status_text (status_line version a b c reason ++ (10 ∷ [])) ≡ some t)
      × (atoi t ≡ pos (a * 100 + b * 10 + c))
status_of_line [] a b c reason v = absurd (omega (arith, v.nonempty))
status_of_line (x ∷ version) a b c reason v =
    let s = reason ++ (13 ∷ 10 ∷ []) in
    (
      (b'0' + a) ∷ (b'0' + b) ∷ (b'0' + c) ∷ b' ' ∷ s,
      rw (status_line-append (x ∷ version) a b c reason (10 ∷ []))
          (status_text-status_line x version a _ v.version_chars v.version_words v.digits.0),
      atoi_three a b c s v.digits.0 v.digits.1 v.digits.2,
    )

-- An answer that comes in over a connection that does not fail, cut up in any way: recvHttpResponse
-- returns the status of its first line, sets its headers on the emptied message one after the other,
-- and leaves the bytes behind the blank line unread.
pub recv_http_response-ReadsAs :
    (fuel : ℕ) (m : HttpMsg) (version : Bytes) (a b c : ℕ) (reason : Bytes) (hs : List HttpHdr)
    (tail : Bytes) (r : Reader)
    → IsStatusLine version a b c reason
    → All IsHdr hs
    → length hs < fuel
    → All Sound r.feed
    → stream r ≡ status_line version a b c reason ++ (10 ∷ hdrs_text hs tail)
    → ReadsAs
        (recv_http_response fuel m r)
        (pos (a * 100 + b * 10 + c))
        (set_all hs (clear_all_hdr m))
        tail
unfolding recv_http_response
recv_http_response-ReadsAs fuel m version a b c reason hs tail r v vs f h e =
    let (x, k) =
      line_read r (status_line version a b c reason) (hdrs_text hs tail) h e
        (status_line-LineChar version a b c reason v)
        (omega (arith, length-status_line version a b c reason, v.fits)) in
    let (t, q, n) = status_of_line version a b c reason v in
    rw (x.taken, k, q, n, recv_http_response)
      (recv_hdrs-ReadsAs fuel (pos (a * 100 + b * 10 + c)) (clear_all_hdr m) hs tail
        (read_line max_line_len r).left vs f x.sound x.rest_eq)
