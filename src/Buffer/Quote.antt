-- ===== src/Buffer/Quote.antt =====
-- TString::DeQuote (libspider/Buffer.cpp), and the escapes it undoes.
use crowdspider.Base.{
  ℕ, ◌+◌, ◌≤◌, ◌≡◌, refl, ap, ◌∙◌, inl, inr, false, Option, none, some, [], ◌∷◌, ◌++◌, arith, ◌==◌,
  if◌then◌else◌, Option-cases, length, drop, Bytes, c_str,
}

-- The byte that an escape's letter stands for; any other letter leaves the backslash.
unfoldable pub unescape : ℕ → Option ℕ
unescape c =
    if c == b'n'
    then some 10
    else if c == b'r'
    then some 13
    else if c == b't'
    then some 9
    else if c == b'"'
    then some b'"'
    else if c == b'\\'
    then some b'\\'
    else none

-- The loop of DeQuote, on the bytes before the NUL.
unfoldable pub dequote : Bytes → Bytes
dequote [] = []
dequote (c ∷ []) = c ∷ []
dequote (c ∷ d ∷ s) = elim (if c == b'\\' then unescape d else none) [
  | none ↦ c ∷ dequote (d ∷ s)
  | some e ↦ e ∷ dequote s
]

-- DeQuote in place: what the shorter text does not cover stays behind its NUL.
unfoldable pub dequote_block : Bytes → Bytes
dequote_block m = let text = dequote (c_str m) in text ++ 0 ∷ drop (length text + 1) m

-- The escapes, as the format defines them: the letter behind the backslash.
unfoldable pub escape : ℕ → Option ℕ
escape c =
    if c == 10
    then some b'n'
    else if c == 13
    then some b'r'
    else if c == 9
    then some b't'
    else if c == b'"'
    then some b'"'
    else if c == b'\\'
    then some b'\\'
    else none

unfoldable pub quote : Bytes → Bytes
quote [] = []
quote (c ∷ s) = elim (escape c) [ none ↦ c ∷ quote s | some d ↦ b'\\' ∷ d ∷ quote s ]

unescape-escape : (c d : ℕ) → escape c ≡ some d → unescape d ≡ some c
unfolding escape unescape
unescape-escape c d h = ground arith

escape-none : (c : ℕ) → escape c ≡ none → (c == b'\\') ≡ false
unfolding escape
escape-none c h = ground arith

dequote_plain : (c : ℕ) (s : Bytes) → (c == b'\\') ≡ false → dequote (c ∷ s) ≡ c ∷ dequote s
unfolding dequote
dequote_plain c [] h = refl
dequote_plain c (d ∷ s) h = rw (h, dequote) refl

dequote_escape :
    (c d : ℕ) (s : Bytes) → unescape d ≡ some c → dequote (b'\\' ∷ d ∷ s) ≡ c ∷ dequote s
unfolding dequote
dequote_escape c d s h = rw (h, dequote) refl

-- DeQuote undoes the escapes of every text.
pub dequote-quote : (s : Bytes) → dequote (quote s) ≡ s
unfolding quote
dequote-quote [] = unfold dequote in refl
dequote-quote (c ∷ s) =
    let ih = ap (◌∷◌ c) (dequote-quote s) in
    elim (Option-cases (escape c)) [
      | inl n ↦ rw (n, quote) (dequote_plain c (quote s) (escape-none c n) ∙ ih)
      | inr (d, e) ↦ rw (e, quote) (dequote_escape c d (quote s) (unescape-escape c d e) ∙ ih)
    ]

-- What DeQuote writes never overtakes what it reads: the result is no longer than the text.
pub length-dequote_le : (s : Bytes) → length (dequote s) ≤ length s
unfolding dequote
length-dequote_le [] = omega arith
length-dequote_le (c ∷ []) = omega arith
length-dequote_le (c ∷ d ∷ s) =
    let one = length-dequote_le (d ∷ s) in
    let two = length-dequote_le s in
    elim (Option-cases (if c == b'\\' then unescape d else none)) [
      | inl n ↦ rw (n, dequote) (omega arith)
      | inr (x, e) ↦ rw (e, dequote) (omega arith)
    ]
