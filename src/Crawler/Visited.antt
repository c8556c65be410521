-- ===== src/Crawler/Visited.antt =====
-- What checkUrl can refuse in a running crawl (libspider/Crawler.cpp).
use crowdspider.Base.{
  zero, suc, ℕ, ◌≡◌, refl, true, false, some, List, [], ◌∷◌, arith, Bool, Bytes, c_str,
}
use mathlib.Core.Path.{subst}
use crowdspider.Base.Int.{ℤ, pos, negsuc}
use crowdspider.Crawler.Html.{Html}
use crowdspider.Crawler.Links.{wanted, enqueue}
use crowdspider.Crawler.State.{
  Crawler, UriEntry, Check, front, fetch_url, member, fresh, unreached, unvisited, visited,
  check_ur, check_uv, check_vu, check_url,
}
use crowdspider.Crawler.Worker.{Job}
use crowdspider.Crawler.Threads.{
  Caller, round, link, Phase, loop_head, fetching, ended, taken, at_ur, at_uv, at_vu, answer, ready,
  loading, loaded, saved, linking, IfSome, IfSome-bind, found, answered, fetched, considered, act,
  World, Step, acted, popped, locked, downloaded, parsed, stopped, Reach, here, next, initial,
}

-- The three vectors are empty.
abbrev pub Unrecorded : Crawler → Type 0
Unrecorded c = (c.unreached_hosts ≡ []) × (c.unvisited_urls ≡ []) × (c.visited_urls ≡ [])

check_url-Unrecorded :
    (c : Crawler) (host text : Bytes) → Unrecorded c → (check_url c host text).0 ≡ fresh
unfolding check_url member
check_url-Unrecorded c host text h = rw (h.0, h.1, h.2) refl

sections-Unrecorded :
    (c : Crawler) (s : Bytes)
    → Unrecorded c
    → Unrecorded (check_ur c s).1 × Unrecorded (check_uv c s).1 × Unrecorded (check_vu c s).1
unfolding check_ur check_uv check_vu
sections-Unrecorded c s h = (h, h, h)

-- No section of checkUrl finds what it looks for.
abbrev pub NothingFound : Crawler → Bytes → Type 0
NothingFound c s =
    ((check_ur c s).0 ≡ false) × ((check_uv c s).0 ≡ false) × ((check_vu c s).0 ≡ false)

Unrecorded-NothingFound : (c : Crawler) (s : Bytes) → Unrecorded c → NothingFound c s
unfolding check_ur check_uv check_vu member
Unrecorded-NothingFound c s h = (rw h.0 refl, rw h.1 refl, rw h.2 refl)

fetch_url-Unrecorded :
    (c d : Crawler) (q : List UriEntry) (e : UriEntry)
    → front c q ≡ some (e, d)
    → Unrecorded c
    → Unrecorded d
unfolding front
fetch_url-Unrecorded c d [] e h u = absurd (cc)
fetch_url-Unrecorded c d (x ∷ q) e h u = ground arith

module _ (lib : Html) where
  open lib use {Uri, parse, hostname, unparse}

  found-Unrecorded :
      (r : Check) (k : Caller lib) (p : Phase lib) (x : Bool × Crawler)
      → Unrecorded x.1
      → Unrecorded (found lib r k p x).1
  unfolding found
  found-Unrecorded r k p (true, c) h = h
  found-Unrecorded r k p (false, c) h = h

  answered-Unrecorded :
      (c : Crawler) (r : Check) (k : Caller lib) → Unrecorded c → Unrecorded (answered lib c r k).1
  unfolding answered enqueue
  answered-Unrecorded c fresh (round e u) h = h
  answered-Unrecorded c unreached (round e u) h = h
  answered-Unrecorded c unvisited (round e u) h = h
  answered-Unrecorded c visited (round e u) h = h
  answered-Unrecorded c fresh (link job href rest) h = h
  answered-Unrecorded c unreached (link job href rest) h = h
  answered-Unrecorded c unvisited (link job href rest) h = h
  answered-Unrecorded c visited (link job href rest) h = h

  fetched-Unrecorded :
      (c : Crawler) (job : Job lib) (ret : ℤ) (html : Bytes)
      → Unrecorded c
      → Unrecorded (fetched lib c job ret html).1
  unfolding fetched
  fetched-Unrecorded c job (negsuc zero) html h = h
  fetched-Unrecorded c job (negsuc (suc zero)) html h = h
  fetched-Unrecorded c job (negsuc (suc (suc n))) html h = h
  fetched-Unrecorded c job (pos n) html h = h

  act-Unrecorded :
      (c : Crawler) (p : Phase lib)
      → Unrecorded c
      → IfSome (λ (r : Phase lib × Crawler). Unrecorded r.1) (act lib c p)
  unfolding act
  act-Unrecorded c loop_head h = h
  act-Unrecorded c fetching h = tt
  act-Unrecorded c ended h = tt
  act-Unrecorded c (taken e) h =
      IfSome-bind _ (parse (c_str e.url)) (λ u. (at_ur u (round e u), c)) (λ u. h)
  act-Unrecorded c (at_ur u k) h =
      found-Unrecorded unreached k _ _ (sections-Unrecorded c (hostname u) h).0
  act-Unrecorded c (at_uv u k) h =
      found-Unrecorded unvisited k _ _ (sections-Unrecorded c (unparse u) h).1
  act-Unrecorded c (at_vu u k) h =
      found-Unrecorded visited k _ _ (sections-Unrecorded c (unparse u) h).2
  act-Unrecorded c (answer r k) h = answered-Unrecorded c r k h
  act-Unrecorded c (ready job) h = tt
  act-Unrecorded c (loading job) h = tt
  act-Unrecorded c (loaded job ret html) h = fetched-Unrecorded c job ret html h
  act-Unrecorded c (saved job html) h = tt
  act-Unrecorded c (linking job []) h = h
  act-Unrecorded c (linking job (x ∷ hs)) h =
      IfSome-bind _ (wanted lib x) (λ u. (considered lib job x hs u, c)) (λ u. h)

  module _ (serves : Bytes → Bytes → Type 0) where
    Step-Unrecorded :
        {w v : World lib} → Step lib serves w v → Unrecorded w.crawler → Unrecorded v.crawler
    unfolding fetch_url
    Step-Unrecorded (acted w i p r busy a) h =
        subst (IfSome (λ (x : Phase lib × Crawler). Unrecorded x.1)) a
          (act-Unrecorded w.crawler p h)
    Step-Unrecorded (popped w i e c busy free a) h =
        fetch_url-Unrecorded w.crawler c w.crawler.uri_que e a h
    Step-Unrecorded (locked w i job busy free) h = h
    Step-Unrecorded (downloaded w i job ret html busy s) h = h
    Step-Unrecorded (parsed w i job html busy free) h = h
    Step-Unrecorded (stopped w) h = h

    Reach-Unrecorded :
        {s w : World lib} → Unrecorded s.crawler → Reach lib serves s w → Unrecorded w.crawler
    Reach-Unrecorded h here = h
    Reach-Unrecorded h (next r st) = Step-Unrecorded st (Reach-Unrecorded h r)

    -- In no state of a crawl does checkUrl refuse a URL, even one that has just been saved as visited,
    -- and none of its three sections finds anything, wherever other workers come between them: the
    -- vectors that it searches are never filled.
    pub crawl_never_refuses :
        (n : ℕ) (url : Bytes) (ur uv vu : List Bytes) (w : World lib) (host text : Bytes)
        → Reach lib serves (initial lib n url ur uv vu) w
        → ((check_url w.crawler host text).0 ≡ fresh)
          × ((check_ur w.crawler host).0 ≡ false)
          × ((check_uv w.crawler text).0 ≡ false)
          × ((check_vu w.crawler text).0 ≡ false)
    crawl_never_refuses n url ur uv vu w host text r =
        let h = Reach-Unrecorded (refl, refl, refl) r in
        (
          check_url-Unrecorded w.crawler host text h,
          (Unrecorded-NothingFound w.crawler host h).0,
          (Unrecorded-NothingFound w.crawler text h).1,
          (Unrecorded-NothingFound w.crawler text h).2,
        )
