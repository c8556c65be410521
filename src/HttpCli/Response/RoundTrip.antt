-- ===== src/HttpCli/Response/RoundTrip.antt =====
-- recvHttpResponse reads the answers that a server writes (libspider/HttpCli.cpp).
use crowdspider.Base.{
  ℕ, zero, suc, ◌+◌, ◌<◌, ◌≡◌, refl, ap, ◌∙◌, false, some, List, [], ◌∷◌, ◌++◌, arith, ◌==◌, length,
  All, length-append, All-append, Bytes, c_str,
}
use crowdspider.Base.Int.{ℤ}
use crowdspider.HttpCli.Response.Texts.{
  Passes, before-append, from-append, Unspaced, from_text, c_str_plain, LineOf, read_line-LineOf,
}
use crowdspider.HttpCli.Response.{
  max_line_len, from, ends_line, ends_key, head_or_nul, blank, pair, hdr_line, Received, recv_hdrs,
}
use crowdspider.HttpCli.Conn.{read_line}
use crowdspider.HttpMsg.{HttpHdr, HttpMsg, set_hdr}
use crowdspider.Utils.ReadLine.{Reader, stream, Sound}
use mathlib.Core.List.{append_assoc}

-- A header as a line: `key: val` and a carriage return; the newline follows.
abbrev pub hdr_text : HttpHdr → Bytes
hdr_text h = h.key ++ (b':' ∷ b' ' ∷ (h.val ++ (13 ∷ [])))

-- The headers of an answer, the blank line, and what comes behind it.
abbrev pub hdrs_text : List HttpHdr → Bytes → Bytes
hdrs_text [] tail = 13 ∷ 10 ∷ tail
hdrs_text (h ∷ hs) tail = hdr_text h ++ (10 ∷ hdrs_text hs tail)

-- Characters of a value, and of a key.
abbrev pub ValChar : ℕ → Type 0
ValChar c = (0 < c) × ((c == 13) ≡ false) × ((c == 10) ≡ false)

abbrev pub KeyChar : ℕ → Type 0
KeyChar c = ValChar c × ((c == b':') ≡ false)

-- A header that fits a line, with neither key nor value behind a space.
pub record IsHdr (h : HttpHdr) : Type 0 where
  pub key_chars : All KeyChar h.key
  pub val_chars : All ValChar h.val
  pub key_head : Unspaced h.key
  pub val_head : Unspaced h.val
  pub fits : length h.key + length h.val + 3 < 8191

pub All-map {ℓ κ μ} :
    {A : Type ℓ} (P : A → Type κ) (Q : A → Type μ) (f : (a : A) → P a → Q a) (xs : List A)
    → All P xs
    → All Q xs
All-map P Q f [] h = tt
All-map P Q f (x ∷ xs) h = (f x h.0, All-map P Q f xs h.1)

key_stop : (c : ℕ) → KeyChar c → ends_key c ≡ false
key_stop c h = ground arith

val_stop : (c : ℕ) → ValChar c → ends_line c ≡ false
val_stop c h = ground arith

-- Any character of a header's line.
abbrev pub LineChar : ℕ → Type 0
LineChar c = (0 < c) × ((c == 10) ≡ false)

key_line : (c : ℕ) → KeyChar c → LineChar c
key_line c h = ground arith

pub val_line : (c : ℕ) → ValChar c → LineChar c
val_line c h = ground arith

pub hdr_text-LineChar : (h : HttpHdr) → IsHdr h → All LineChar (hdr_text h)
hdr_text-LineChar h v =
    All-append LineChar h.key _ (All-map KeyChar LineChar key_line h.key v.key_chars) (
      (omega arith, refl),
      (
        (omega arith, refl),
        All-append LineChar h.val (13 ∷ []) (All-map ValChar LineChar val_line h.val v.val_chars)
            ((omega arith, refl), tt),
      ),
    )

pub hdr_text-append :
    (h : HttpHdr) (s : Bytes)
    → hdr_text h ++ (10 ∷ s) ≡ h.key ++ (b':' ∷ b' ' ∷ (h.val ++ (13 ∷ 10 ∷ s)))
hdr_text-append h s =
    append_assoc h.key _ (10 ∷ s)
    ∙ ap (λ (x : Bytes). h.key ++ (b':' ∷ b' ' ∷ x)) (append_assoc h.val (13 ∷ []) (10 ∷ s))

key_first : (key s : Bytes) → All KeyChar key → ends_line (head_or_nul (key ++ (b':' ∷ s))) ≡ false
key_first [] s h = refl
key_first (c ∷ key) s h = ground arith

-- The line of a header is read as that header.
hdr_line-hdr_text : (h : HttpHdr) → IsHdr h → hdr_line (hdr_text h ++ (10 ∷ [])) ≡ pair h.key h.val
unfolding hdr_line
hdr_line-hdr_text h v =
    let value = h.val ++ (13 ∷ 10 ∷ []) in
    let keys = All-map KeyChar (Passes ends_key) key_stop h.key v.key_chars in
    rw
      (
        hdr_text-append h [],
        (from_text h.key b':' (b' ' ∷ value) v.key_head refl).0,
        key_first h.key (b' ' ∷ value) v.key_chars,
        from-append ends_key h.key b':' (b' ' ∷ value) keys refl,
        before-append ends_key h.key b':' (b' ' ∷ value) keys refl,
        (from_text h.val 13 (10 ∷ []) v.val_head refl).1,
        before-append ends_line h.val 13 (10 ∷ [])
            (All-map ValChar (Passes ends_line) val_stop h.val v.val_chars) refl,
      )
      refl

blank_line : hdr_line (13 ∷ 10 ∷ []) ≡ blank
unfolding hdr_line from
blank_line = refl

-- The headers set one after the other.
abbrev pub set_all : List HttpHdr → HttpMsg → HttpMsg
set_all [] m = m
set_all (h ∷ hs) m = set_all hs (set_hdr m h.key h.val)

-- The answer is read with this status and these headers, and the bytes `tail` are left.
abbrev pub ReadsAs : Received → ℤ → HttpMsg → Bytes → Type 0
ReadsAs x status m tail =
    (r : Reader) × (x ≡ some (status, m, r)) × (stream r ≡ tail) × All Sound r.feed

line_newline : (c : ℕ) → LineChar c → (c == 10) ≡ false
line_newline c h = h.1

line_nul : (c : ℕ) → LineChar c → 0 < c
line_nul c h = h.0

-- The text of a line as `c_str` shows it.
c_str_line : (t : Bytes) → All LineChar t → c_str (t ++ (10 ∷ [])) ≡ t ++ (10 ∷ [])
c_str_line t h = c_str_plain _ (
    All-append (λ c. 0 < c) t (10 ∷ []) (All-map LineChar (λ c. 0 < c) line_nul t h)
      (omega arith, tt))

length-hdr_text : (h : HttpHdr) → length (hdr_text h) ≡ length h.key + length h.val + 3
length-hdr_text h = omega (
  arith,
  length-append {0} h.key (b':' ∷ b' ' ∷ (h.val ++ (13 ∷ []))),
  length-append {0} h.val (13 ∷ []),
)

-- The line that ReadLine takes from the head of a connection, for a text of line characters.
pub line_read :
    (r : Reader) (t rest : Bytes)
    → All Sound r.feed
    → stream r ≡ t ++ (10 ∷ rest)
    → All LineChar t
    → length t < 8191
    → LineOf (read_line max_line_len r) t rest
      × (c_str (read_line max_line_len r).text ≡ t ++ (10 ∷ []))
line_read r t rest h e p l =
    let x = read_line-LineOf r t rest h e (All-map LineChar _ line_newline t p) l in
    (x, (ap c_str x.read ∙ c_str_line t p))

pub recv_hdrs-ReadsAs :
    (fuel : ℕ) (status : ℤ) (m : HttpMsg) (hs : List HttpHdr) (tail : Bytes) (r : Reader)
    → All IsHdr hs
    → length hs < fuel
    → All Sound r.feed
    → stream r ≡ hdrs_text hs tail
    → ReadsAs (recv_hdrs fuel status m r) status (set_all hs m) tail
unfolding recv_hdrs
recv_hdrs-ReadsAs zero status m hs tail r v f h e = absurd (omega arith)
recv_hdrs-ReadsAs (suc fuel) status m [] tail r v f h e =
    let (x, c) = line_read r (13 ∷ []) tail h e ((omega arith, refl), tt) (omega arith) in
    (
      (read_line max_line_len r).left,
      rw (x.taken, c, blank_line, recv_hdrs) refl,
      x.rest_eq,
      x.sound,
    )
recv_hdrs-ReadsAs (suc fuel) status m (k ∷ hs) tail r v f h e =
    let (x, c) =
      line_read r (hdr_text k) (hdrs_text hs tail) h e (hdr_text-LineChar k v.0)
        (omega (arith, length-hdr_text k, v.0.fits)) in
    let (r', e', t', s') =
      recv_hdrs-ReadsAs fuel status (set_hdr m k.key k.val) hs tail (read_line max_line_len r).left
        v.1 (omega arith) x.sound x.rest_eq in
    (r', rw (x.taken, c, hdr_line-hdr_text k v.0, recv_hdrs) e', t', s')
