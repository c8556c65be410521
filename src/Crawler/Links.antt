-- ===== src/Crawler/Links.antt =====
-- TSpiderWorker::parseHyperlinks (libspider/Crawler.cpp): which links of a page are queued.
use crowdspider.Base.{
  c_str, take, List, ℕ, zero, suc, ◌+◌, ◌-◌, ◌%◌, ◌^◌, Bool, ◌||◌, Option, none, some, [], ◌∷◌,
  ◌++◌, length, drop, leb, ◌==◌, if◌then◌else◌, ◌>>=◌, Bytes, codes, bytes_eq, to_lower,
}
use crowdspider.Base.Find.{find_last}
use crowdspider.Crawler.Html.{Html}
use crowdspider.Crawler.State.{Crawler, Check, fresh, check_url}

-- std::string::npos
abbrev npos : ℕ
npos = 2 ^ 64 - 1

-- `unsigned int pos = s.find_last_of(c)`: the low 32 bits of the index, or of npos.
abbrev pub u32_pos : Option ℕ → ℕ
u32_pos none = npos % 2 ^ 32
u32_pos (some i) = i % 2 ^ 32

-- `s.substr(n)`, which throws past the end.
abbrev pub substr : Bytes → ℕ → Option Bytes
substr s n = if leb n (length s) then some (drop n s) else none

-- `strToLower(s, strlen(s.c_str()))`
unfoldable pub lower_c_str : Bytes → Bytes
lower_c_str [] = []
lower_c_str (zero ∷ s) = zero ∷ s
lower_c_str (suc c ∷ s) = to_lower (suc c) ∷ lower_c_str s

unfoldable pub is_html_ext : Bytes → Bool
is_html_ext ext =
    bytes_eq ext (codes "html") || bytes_eq ext (codes "shtml") || bytes_eq ext (codes "htm")

-- The part behind the last `c`, as `if (pos != string::npos) … s.substr(pos + 1)` takes it: `pos`
-- has 32 bits and npos has 64, so the test always passes; `none` in the inner place is its failure.
unfoldable pub after_last : ℕ → Bytes → Option (Option Bytes)
after_last c s =
    let pos = u32_pos (find_last c s) in
    if pos == npos then some none else (substr s ((pos + 1) % 2 ^ 32) >>= λ r. some (some r))

-- The answer of checkUrl decides whether the link is queued, one level deeper.
unfoldable pub enqueue : ℕ → Bytes → Check × Crawler → Crawler
enqueue depth href (fresh, c) = record c {
  uri_que = c.uri_que ++ (record { url = href; depth = depth + 1 } ∷ []);
}
enqueue depth href (_, c) = c

module _ (lib : Html) where
  open lib use {Uri, parse, hostname, path, unparse, hrefs}

  -- Only the extensions of HTML pages pass.
  unfoldable pub check_ext : Uri → Option Bytes → Option Uri
  check_ext u none = none
  check_ext u (some ext) = if is_html_ext (lower_c_str ext) then some u else none

  -- The file name at the end of the link's path; an empty one is skipped.
  unfoldable pub check_file : Uri → Option Bytes → Option (Option Uri)
  check_file u none = some none
  check_file u (some []) = some none
  check_file u (some (b ∷ file)) = after_last b'.' (b ∷ file) >>= λ ext. some (check_ext u ext)

  -- The URI that checkUrl is asked about, if the link is not passed over; `none` is an exception.
  unfoldable pub wanted : Bytes → Option (Option Uri)
  wanted href =
      if bytes_eq (take 4 href) (codes "http")
      then (parse (c_str href) >>= λ u. after_last b'/' (path u) >>= check_file u)
      else some none

  unfoldable pub ask : Crawler → ℕ → Bytes → Option Uri → Crawler
  ask c depth href none = c
  ask c depth href (some u) = enqueue depth href (check_url c (hostname u) (unparse u))

  -- One anchor.
  unfoldable pub consider : Crawler → ℕ → Bytes → Option Crawler
  consider c depth href = wanted href >>= λ u. some (ask c depth href u)

  unfoldable pub parse_links : Crawler → ℕ → List Bytes → Option Crawler
  parse_links c depth [] = some c
  parse_links c depth (href ∷ rest) = consider c depth href >>= λ c'. parse_links c' depth rest

  -- The whole page, in document order.
  unfoldable pub parse_hyperlinks : Crawler → ℕ → Bytes → Option Crawler
  parse_hyperlinks c depth html = parse_links c depth (hrefs html)
