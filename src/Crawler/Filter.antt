-- ===== src/Crawler/Filter.antt =====
-- TSpiderWorker::IsFilterLink (libspider/Crawler.cpp): which links are taken for spam.
use crowdspider.Base.{
  ℕ, zero, suc, ◌+◌, ◌<◌, ◌≤◌, ◌≡◌, ◌⊎◌, inl, inr, ◌↔◌, refl, Bool, true, false, ◌||◌, Option, none,
  some, List, [], ◌∷◌, arith, length, drop, get_elem?, ltb, if◌then◌else◌, Bytes, codes, map,
  to_lower, Bool-cases, Option-cases, map-to_lower_idem,
}
use crowdspider.Base.Find.{find, is_prefix, contains, find-some, find_first, find_total}
pub mod Spam

-- URL_LEN
abbrev pub url_len : ℕ
url_len = 256

-- `idx = tmp.find(p); if (idx != npos) { tmp = tmp.substr(idx + 1); if (tmp.find(q) != npos) … }`
unfoldable pub again : Bytes → Bytes → Bytes → Bool
again p q link = elim (find p link) [ none ↦ false | some idx ↦ contains q (drop (idx + 1) link) ]

-- The two patterns of each such test, in the source's order.
abbrev pub repeat_rules : List (Bytes × Bytes)
repeat_rules =
    (codes "?", codes "?")
    ∷ (codes "-", codes "+")
    ∷ (codes "&", codes "&")
    ∷ (codes "//", codes "//")
    ∷ (codes "http", codes "http")
    ∷ (codes "misc", codes "misc")
    ∷ (codes "ipb", codes "ipb")
    ∷ []

-- `filter_str`, row by row
abbrev pub filter_str : List Bytes
filter_str =
    codes "cgi-bin"
    ∷ codes "htbin"
    ∷ codes "linder"
    ∷ codes "srs5"
    ∷ codes "uin-cgi"
    ∷ codes "uhtbin"
    ∷ codes "snapshot"
    ∷ codes "=+"
    ∷ codes "=-"
    ∷ codes "script"
    ∷ codes "gate"
    ∷ codes "search"
    ∷ codes "clickfile"
    ∷ codes "data/scop"
    ∷ codes "names"
    ∷ codes "staff/"
    ∷ codes "enter"
    ∷ codes "user"
    ∷ codes "mail"
    ∷ codes "pst?"
    ∷ codes "find?"
    ∷ codes "ccc?"
    ∷ codes "fwd?"
    ∷ codes "tcon?"
    ∷ codes "&amp"
    ∷ codes "counter?"
    ∷ codes "forum"
    ∷ codes "cgisirsi"
    ∷ codes "{"
    ∷ codes "}"
    ∷ codes "proxy"
    ∷ codes "login"
    ∷ codes "00.pl?"
    ∷ codes "sciserv.pl"
    ∷ codes "sign.asp"
    ∷ codes "<"
    ∷ codes ">"
    ∷ codes "review.asp?"
    ∷ codes "result.asp?"
    ∷ codes "keyword"
    ∷ codes "\""
    ∷ codes "'"
    ∷ codes "php?s="
    ∷ codes "error"
    ∷ codes "showdate"
    ∷ codes "niceprot.pl?"
    ∷ codes "volue.asp?id"
    ∷ codes ".css"
    ∷ codes ".asp?month"
    ∷ codes "prot.pl?"
    ∷ codes "msg.asp"
    ∷ codes "register.asp"
    ∷ codes "database"
    ∷ codes "reg.asp"
    ∷ codes "qry?u"
    ∷ codes "p?msg"
    ∷ codes "tj_all.asp?page"
    ∷ codes ".plot."
    ∷ codes "comment.php"
    ∷ codes "nicezyme.pl?"
    ∷ codes "entr"
    ∷ codes "compute-map?"
    ∷ codes "view-pdb?"
    ∷ codes "list.cgi?"
    ∷ codes "lists.cgi?"
    ∷ codes "details.pl?"
    ∷ codes "aligner?"
    ∷ codes "raw.pl?"
    ∷ codes "interface.pl?"
    ∷ codes "memcp.php?"
    ∷ codes "member.php?"
    ∷ codes "post.php?"
    ∷ codes "thread.php"
    ∷ codes "bbs/"
    ∷ codes "/bbs"
    ∷ []

unfoldable pub repeats : List (Bytes × Bytes) → Bytes → Bool
repeats [] link = false
repeats (r ∷ rs) link = again r.0 r.1 link || repeats rs link

unfoldable pub contains_any : List Bytes → Bytes → Bool
contains_any [] link = false
contains_any (f ∷ fs) link = contains f link || contains_any fs link

unfoldable pub is_filter_link : Bytes → Bool
is_filter_link [] = true
is_filter_link (c ∷ s) =
    if ltb url_len (length (c ∷ s))
    then true
    else let link = map to_lower (c ∷ s) in
      repeats repeat_rules link || contains_any filter_str link
