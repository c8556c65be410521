-- ===== src/Crawler/State.antt =====
-- TCrawler's fields, and the methods that only touch them (libspider/Crawler.cpp).
use crowdspider.Base.{
  ℕ, zero, suc, ◌+◌, ◌-◌, ◌%◌, ◌^◌, Bool, true, false, ◌||◌, Option, none, some, List, [], ◌∷◌,
  ◌++◌, length, get_elem?, ltb, if◌then◌else◌, Bytes, bytes_eq,
}

-- uri_t
pub record UriEntry : Type 0 where
  pub url : Bytes
  pub depth : ℕ

-- The three vectors and their write positions are beside the lines of the files that they feed:
-- unreachhost.list, unvisited.url and visited.url.
pub record Crawler : Type 0 where
  pub running : Bool
  pub uri_que : List UriEntry
  pub unreached_hosts : List Bytes
  pub ur_pos : ℕ
  pub unvisited_urls : List Bytes
  pub uv_pos : ℕ
  pub visited_urls : List Bytes
  pub vu_pos : ℕ
  pub fseq : ℕ
  pub unreach_host_file : List Bytes
  pub unvisited_file : List Bytes
  pub visited_file : List Bytes

-- TCrawler::TCrawler, over the files as they are found, followed by the first half of
-- TCrawler::start: the start URL is queued at depth 0.
abbrev pub start : Bytes → List Bytes → List Bytes → List Bytes → Crawler
start url ur uv vu = record {
  running = true;
  uri_que = record { url = url; depth = 0 } ∷ [];
  unreached_hosts = [];
  ur_pos = 0;
  unvisited_urls = [];
  uv_pos = 0;
  visited_urls = [];
  vu_pos = 0;
  fseq = 0;
  unreach_host_file = ur;
  unvisited_file = uv;
  visited_file = vu;
}

-- TCrawler::stop
abbrev pub stop : Crawler → Crawler
stop c = record c { running = false }

unfoldable pub front : Crawler → List UriEntry → Option (UriEntry × Crawler)
front c [] = none
front c (e ∷ rest) = some (e, record c { uri_que = rest })

-- TCrawler::fetchUrl; `none` waits on the condition variable.
unfoldable pub fetch_url : Crawler → Option (UriEntry × Crawler)
unfolding front
fetch_url c = front c c.uri_que

-- TCrawler::getfileseq: `num = fseq++` on an unsigned int
abbrev pub getfileseq : Crawler → ℕ × Crawler
getfileseq c = (c.fseq, record c { fseq = (c.fseq + 1) % 2 ^ 32 })

-- TCrawler::saveUnreachHost, saveUnvisitedUrl, saveVisitedUrl: a line at the end of the file.
abbrev pub save_unreach_host : Crawler → Bytes → Crawler
save_unreach_host c host = record c { unreach_host_file = c.unreach_host_file ++ (host ∷ []) }

abbrev pub save_unvisited_url : Crawler → Bytes → Crawler
save_unvisited_url c url = record c { unvisited_file = c.unvisited_file ++ (url ∷ []) }

abbrev pub save_visited_url : Crawler → Bytes → Crawler
save_visited_url c url = record c { visited_file = c.visited_file ++ (url ∷ []) }

-- `while (pos < v.size()) file << v[pos++] << endl`, for the rounds that are left
unfoldable pub flush_loop : ℕ → List Bytes → ℕ → List Bytes → List Bytes × ℕ
flush_loop zero v pos file = (file, pos)
flush_loop (suc k) v pos file = elim (get_elem? v pos) [
  | none ↦ (file, pos)
  | some line ↦ flush_loop k v (pos + 1) (file ++ (line ∷ []))
]

-- A vector's unwritten lines go to its file, if there are any.
unfoldable pub flush : List Bytes → ℕ → List Bytes → List Bytes × ℕ
flush v pos file =
    if ltb pos (length v) then flush_loop (length v - pos) v pos file else (file, pos)

-- std::find on a vector of texts
unfoldable pub member : Bytes → List Bytes → Bool
member x [] = false
member x (y ∷ ys) = bytes_eq y x || member x ys

-- The results 0, -1, -2, -3 of checkUrl.
pub data Check : Type 0 where
  fresh unreached unvisited visited : Check

-- The three critical sections of checkUrl, each under its own mutex: whether the text was found, and
-- the crawler whose unwritten lines have gone to the file.
unfoldable pub check_ur : Crawler → Bytes → Bool × Crawler
check_ur c host =
    let (file, pos) = flush c.unreached_hosts c.ur_pos c.unreach_host_file in
    (member host c.unreached_hosts, record c { unreach_host_file = file; ur_pos = pos })

unfoldable pub check_uv : Crawler → Bytes → Bool × Crawler
check_uv c text =
    let (file, pos) = flush c.unvisited_urls c.uv_pos c.unvisited_file in
    (member text c.unvisited_urls, record c { unvisited_file = file; uv_pos = pos })

unfoldable pub check_vu : Crawler → Bytes → Bool × Crawler
check_vu c text =
    let (file, pos) = flush c.visited_urls c.vu_pos c.visited_file in
    (member text c.visited_urls, record c { visited_file = file; vu_pos = pos })

-- TCrawler::checkUrl, on the URI's host name and its text, where no other worker comes between its
-- sections.
unfoldable pub check_url : Crawler → Bytes → Bytes → Check × Crawler
unfolding check_ur check_uv check_vu
check_url c host text =
    let ur = check_ur c host in
    let uv = check_uv ur.1 text in
    let vu = check_vu uv.1 text in
    if ur.0
    then (unreached, ur.1)
    else if uv.0
    then (unvisited, uv.1)
    else if vu.0
    then (visited, vu.1)
    else (fresh, vu.1)
