-- ===== src/Utils/Url.antt =====
-- UrlEncode and UrlDecode (libspider/Utils.cpp), on the bytes before the NUL.
use crowdspider.Base.{
  ℕ, ◌+◌, ◌-◌, ◌*◌, ◌/◌, ◌%◌, ◌<◌, ◌≡◌, refl, ap, ◌∙◌, Bool, true, false, not, ◌&&◌, ◌||◌, [], ◌∷◌,
  length, get_or, All, arith, ltb, leb, ◌==◌, ==_iff, Bool-cases, inl, inr, if◌then◌else◌, Bytes,
  to_upper, is_xdigit,
}
use crowdspider.Base.Bits.{true_below, table_entry}

-- s_byUrlEscapeMap, from the character 0x20 on
abbrev pub url_escape_map : Bytes
url_escape_map =
    1 ∷ 0 ∷ 1 ∷ 1 ∷ 0 ∷ 1 ∷ 1 ∷ 0 ∷ 0 ∷ 0 ∷ 0 ∷ 0 ∷ 0 ∷ 0 ∷ 0 ∷ 1 ∷ 0 ∷ 0 ∷ 0 ∷ 0 ∷ 0 ∷ 0 ∷ 0 ∷ 0
    ∷ 0 ∷ 0 ∷ 1 ∷ 1 ∷ 1 ∷ 1 ∷ 1 ∷ 1 ∷ 1 ∷ 0 ∷ 0 ∷ 0 ∷ 0 ∷ 0 ∷ 0 ∷ 0 ∷ 0 ∷ 0 ∷ 0 ∷ 0 ∷ 0 ∷ 0 ∷ 0 ∷ 0
    ∷ 0 ∷ 0 ∷ 0 ∷ 0 ∷ 0 ∷ 0 ∷ 0 ∷ 0 ∷ 0 ∷ 0 ∷ 0 ∷ 1 ∷ 1 ∷ 1 ∷ 1 ∷ 0 ∷ 1 ∷ 0 ∷ 0 ∷ 0 ∷ 0 ∷ 0 ∷ 0 ∷ 0
    ∷ 0 ∷ 0 ∷ 0 ∷ 0 ∷ 0 ∷ 0 ∷ 0 ∷ 0 ∷ 0 ∷ 0 ∷ 0 ∷ 0 ∷ 0 ∷ 0 ∷ 0 ∷ 0 ∷ 0 ∷ 0 ∷ 0 ∷ 1 ∷ 1 ∷ 1 ∷ 1 ∷ 1
    ∷ []

-- `*pSrc >= 0x20 && *pSrc < 0x80 && s_byUrlEscapeMap[*pSrc - 0x20]`
unfoldable pub is_escaped : ℕ → Bool
is_escaped c = leb 0x20 c && ltb c 0x80 && not (get_or url_escape_map (c - 0x20) 0 == 0)

-- `'0' + d`, moved to 'A' behind '9'
unfoldable pub hex_char : ℕ → ℕ
hex_char d = if ltb b'9' (b'0' + d) then b'0' + d + 7 else b'0' + d

-- The first loop of UrlEncode: the length of the result.
unfoldable pub encoded_length : Bytes → ℕ
encoded_length [] = 0
encoded_length (c ∷ s) =
    (if leb 0x20 c && ltb c 0x80 then 1 + 2 * get_or url_escape_map (c - 0x20) 0 else 1)
    + encoded_length s

-- The second loop of UrlEncode.
unfoldable pub url_encode : Bytes → Bytes
url_encode [] = []
url_encode (c ∷ s) =
    let rest = url_encode s in
    if is_escaped c then b'%' ∷ hex_char (c / 16) ∷ hex_char (c % 16) ∷ rest else c ∷ rest

-- `toupper(c) - '0'`, less 7 if it is above 9, as a BYTE
unfoldable pub hex_value : ℕ → ℕ
hex_value c = let v = (to_upper c + 256 - b'0') % 256 in if ltb 9 v then (v + 256 - 7) % 256 else v

-- UrlDecode; a `%` that two hexadecimal digits do not follow stands for itself.
unfoldable pub url_decode : Bytes → Bytes
url_decode [] = []
url_decode (c ∷ []) = c ∷ []
url_decode (c ∷ a ∷ []) = c ∷ a ∷ []
url_decode (c ∷ a ∷ b ∷ s) = elim (c == b'%' && is_xdigit a && is_xdigit b) [
  | true ↦ ((hex_value a * 16 + hex_value b) % 256) ∷ url_decode s
  | false ↦ c ∷ url_decode (a ∷ b ∷ s)
]

-- Every byte that is escaped comes back from its two digits, which are hexadecimal.
abbrev comes_back : ℕ → Bool
comes_back c =
    not (is_escaped c)
    || is_xdigit (hex_char (c / 16))
      && is_xdigit (hex_char (c % 16))
      && (hex_value (hex_char (c / 16)) * 16 + hex_value (hex_char (c % 16))) % 256 == c

comes_back_table : true_below 256 comes_back ≡ true
unfolding true_below is_escaped hex_char hex_value is_xdigit to_upper
comes_back_table = refl

-- The percent sign is escaped.
percent-is_escaped : is_escaped b'%' ≡ true
unfolding is_escaped
percent-is_escaped = refl

url_decode_escaped :
    (c : ℕ) (s : Bytes)
    → c < 256
    → is_escaped c ≡ true
    → url_decode (b'%' ∷ hex_char (c / 16) ∷ hex_char (c % 16) ∷ s) ≡ c ∷ url_decode s
unfolding url_decode
url_decode_escaped c s h e = let t = table_entry 256 comes_back c comes_back_table h in ground arith

url_decode_plain :
    (c : ℕ) (s : Bytes) → is_escaped c ≡ false → url_decode (c ∷ s) ≡ c ∷ url_decode s
unfolding url_decode
url_decode_plain c [] e = refl
url_decode_plain c (a ∷ []) e = refl
url_decode_plain c (a ∷ b ∷ s) e = elim (Bool-cases (c == b'%')) [
  | inl p ↦ absurd (ground (arith, percent-is_escaped))
  | inr n ↦ rw (n, url_decode) refl
]

-- What UrlEncode counts for a byte is what it writes for it.
abbrev counts_right : ℕ → Bool
counts_right c =
    (if leb 0x20 c && ltb c 0x80 then 1 + 2 * get_or url_escape_map (c - 0x20) 0 else 1)
    == (if is_escaped c then 3 else 1)

counts_right_table : true_below 256 counts_right ≡ true
unfolding true_below is_escaped
counts_right_table = refl

encoded_length_cons :
    (c : ℕ) (s : Bytes)
    → c < 256
    → encoded_length (c ∷ s) ≡ (if is_escaped c then 3 else 1) + encoded_length s
unfolding encoded_length
encoded_length_cons c s h =
    ap (λ x. x + encoded_length s)
      ((==_iff _ _).0 (table_entry 256 counts_right c counts_right_table h))

-- Decoding an encoded text gives the text back, whatever bytes it holds, and the encoded text is as
-- long as the buffer that UrlEncode reserves for it.
pub url_decode-url_encode :
    (s : Bytes)
    → All (λ c. c < 256) s
    → (url_decode (url_encode s) ≡ s) × (length (url_encode s) ≡ encoded_length s)
unfolding url_encode
url_decode-url_encode [] h = ((unfold url_decode in refl), (unfold encoded_length in refl))
url_decode-url_encode (c ∷ s) h =
    let ih = url_decode-url_encode s h.1 in
    let count = encoded_length_cons c s h.0 in
    elim (Bool-cases (is_escaped c)) [
      | inl e ↦
          rw (count, e)
            (
              (url_decode_escaped c (url_encode s) h.0 e ∙ ap (λ t. c ∷ t) ih.0),
              (ground (arith, ih.1)),
            )
      | inr e ↦
          rw (count, e)
            ((url_decode_plain c (url_encode s) e ∙ ap (λ t. c ∷ t) ih.0), (ground (arith, ih.1)))
    ]
