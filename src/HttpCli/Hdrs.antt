-- ===== src/HttpCli/Hdrs.antt =====
-- The getters of THttpCli that read the answer's headers (libspider/HttpCli.cpp).
use crowdspider.Base.{
  ℕ, suc, ◌+◌, ◌-◌, ◌*◌, ◌^◌, ltb, is_digit, ◌>>=◌, Bool, not, ◌&&◌, ◌||◌, Option, none, some, [],
  ◌∷◌, ◌==◌, if◌then◌else◌, length, take, drop, Bytes, codes, c_str, case_eq,
}
use crowdspider.Base.Find.{find, contains}
use crowdspider.Base.Int.{ℤ, pos, negsuc}
use crowdspider.HttpMsg.{HttpMsg, get_hdr}
pub mod ContentLen

-- `for (Len = 0; isdigit(*ptr); ptr++) Len = 10 * Len + (*ptr - '0')` on an off_t, which is signed and
-- has 64 bits; `none` is its overflow.
unfoldable pub off_digits : ℕ → Bytes → Option ℕ
off_digits v [] = some v
off_digits v (c ∷ s) =
    let len = v * 10 + (c - b'0') in
    let more = off_digits len s in
    if is_digit c then (if ltb len (2 ^ 63) then more else none) else some v

-- -1 is `negsuc 0`.
unfoldable pub get_content_len : HttpMsg → Option ℤ
get_content_len response =
    let v = get_hdr response (codes "Content-Length") in
    if length v == 0 then some (negsuc 0) else (off_digits 0 (c_str v) >>= λ len. some (pos len))

unfoldable pub get_accept_ranges : HttpMsg → ℕ
get_accept_ranges response =
    let v = get_hdr response (codes "Accept-Ranges") in
    if not (length v == 0) && contains (codes "none") (c_str v) then 0 else 1

-- SkipLws
abbrev pub is_lws : ℕ → Bool
is_lws c = c == b' ' || c == 9 || c == 13 || c == 10

unfoldable pub skip_lws : Bytes → ℕ
skip_lws [] = 0
skip_lws (c ∷ s) = let more = suc (skip_lws s) in if is_lws c then more else 0

-- getContentRange: `strncasecmp(ptr, "Bytes", 5)` compares the first five characters.
unfoldable pub get_content_range : HttpMsg → Option ℤ
get_content_range response =
    let v = get_hdr response (codes "Content-Range") in
    let s = c_str v in
    let unit = drop 5 s in
    let rest = drop (skip_lws unit) unit in
    if length v == 0
    then some (negsuc 0)
    else if case_eq (take 5 s) (codes "Bytes")
    then (if length rest == 0
        then some (negsuc 0)
        else (off_digits 0 rest >>= λ len. some (pos len)))
    else (off_digits 0 s >>= λ len. some (pos len))

-- A header's text, or the null pointer where there is none. The pointer that the source returns is into
-- a string that is destroyed; here it is that string's text.
abbrev pub hdr_or_null : HttpMsg → Bytes → Option Bytes
hdr_or_null response key =
    let v = get_hdr response key in if length v == 0 then none else some (c_str v)

abbrev pub get_connection_state : HttpMsg → Option Bytes
get_connection_state response = hdr_or_null response (codes "Connection")

abbrev pub get_content_type : HttpMsg → Option Bytes
get_content_type response = hdr_or_null response (codes "Content-Type")

abbrev pub get_content_encoding : HttpMsg → Option Bytes
get_content_encoding response = hdr_or_null response (codes "Content-Encoding")

abbrev pub get_last_modified : HttpMsg → Option Bytes
get_last_modified response = hdr_or_null response (codes "Last-Modified")

abbrev pub get_transfer_encoding : HttpMsg → Option Bytes
get_transfer_encoding response = hdr_or_null response (codes "Transfer-Encoding")

-- getLocation never returns the null pointer.
abbrev pub get_location : HttpMsg → Bytes
get_location response = c_str (get_hdr response (codes "Location"))

-- `pos` is an unsigned int, so that npos cut to 32 bits is not npos: where no charset is named, the
-- text at offset 2^32 - 1 + 8 of the header is returned, outside of it (`none` within `some`).
unfoldable pub get_charset : HttpMsg → Option (Option Bytes)
get_charset response =
    let v = get_hdr response (codes "Content-Type") in
    let named : Option (Option Bytes) = elim (find (codes "charset=") v) [
      | none ↦ some none
      | some i ↦ some (some (c_str (drop (i + 8) v)))
    ] in
    if length v == 0 then none else named
