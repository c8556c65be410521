-- ===== src/Crawler/Near.antt =====
-- How far a worker's entry and the queue are from the start URL, and what a worker's own steps keep of
-- it (libspider/Crawler.cpp).
use crowdspider.Base.{
  ℕ, zero, suc, ◌+◌, ◌≤◌, refl, true, false, Bool, Bool-cases, ltb, inl, inr, none, some, Option,
  List, [], ◌∷◌, All, All-append, arith, Bytes, c_str,
}
use crowdspider.Base.Int.{ℤ, pos, negsuc}
use crowdspider.Crawler.Html.{Html}
use crowdspider.Crawler.Links.{wanted, enqueue}
use crowdspider.Crawler.State.{
  Crawler, UriEntry, Check, fresh, unreached, unvisited, visited, check_ur, check_uv, check_vu,
}
use crowdspider.Crawler.Worker.{Job}
use crowdspider.Crawler.Threads.{
  Caller, round, link, Phase, loop_head, fetching, ended, taken, at_ur, at_uv, at_vu, answer, ready,
  loading, loaded, saved, linking, IfSome, IfSome-bind, found, answered, fetched, considered, act,
  Served,
}
use mathlib.Core.List.{Memᴰ}

All_of_mem {ℓ κ} :
    {A : Type ℓ} (P : A → Type κ) (xs : List A) → ((x : A) → Memᴰ x xs → P x) → All P xs
All_of_mem P [] h = tt
All_of_mem P (x ∷ xs) h = (h x (Memᴰ.head refl), All_of_mem P xs (λ y m. h y (Memᴰ.tail m)))

module _ (lib : Html) (serves : Bytes → Bytes → Type 0) (home : Bytes) where
  open lib use {Uri, parse, hostname, unparse, hrefs}

  -- A chain of that many links leads from the start URL to a URL, through pages that are served.
  pub data Away : ℕ → Bytes → Type 0 where
    root : Away 0 home
    follow :
        {n : ℕ} {url html href : Bytes}
        → Away n url
        → serves url html
        → Memᴰ href (hrefs html)
        → Away (n + 1) href

  -- An entry's depth is its distance along such a chain, and at most 4.
  pub record Near (e : UriEntry) : Type 0 where
    pub close : e.depth ≤ 4
    pub away : Away e.depth e.url

  -- The page of a job has not been too deep for its links, and these are one link further.
  pub record NearLinks (job : Job lib) (hs : List Bytes) : Type 0 where
    pub shallow : job.entry.depth ≤ 3
    pub further : All (Away (job.entry.depth + 1)) hs

  abbrev pub CallerNear : Caller lib → Type 0
  CallerNear (round e u) = Near e
  CallerNear (link job href rest) = NearLinks job (href ∷ rest)

  -- What is downloaded, or about to be.
  abbrev pub PhaseNear : Phase lib → Type 0
  PhaseNear (taken e) = Near e
  PhaseNear (at_ur u k) = CallerNear k
  PhaseNear (at_uv u k) = CallerNear k
  PhaseNear (at_vu u k) = CallerNear k
  PhaseNear (answer r k) = CallerNear k
  PhaseNear (ready job) = Near job.entry
  PhaseNear (loading job) = Near job.entry
  PhaseNear (loaded job ret html) = Near job.entry × Served lib serves ret job.entry.url html
  PhaseNear (saved job html) = NearLinks job (hrefs html)
  PhaseNear (linking job hs) = NearLinks job hs
  PhaseNear _ = Unit

  abbrev pub IsNear : Phase lib × Crawler → Type 0
  IsNear (p, c) = PhaseNear p × All Near c.uri_que

  found-IsNear :
      (r : Check) (k : Caller lib) (p : Phase lib) (x : Bool × Crawler)
      → CallerNear k
      → PhaseNear p
      → All Near x.1.uri_que
      → IsNear (found lib r k p x)
  unfolding found
  found-IsNear r k p (true, c) h g q = (h, q)
  found-IsNear r k p (false, c) h g q = (g, q)

  answered-IsNear :
      (c : Crawler) (r : Check) (k : Caller lib)
      → CallerNear k
      → All Near c.uri_que
      → IsNear (answered lib c r k)
  unfolding answered enqueue
  answered-IsNear c fresh (round e u) h q = (h, q)
  answered-IsNear c unreached (round e u) h q = (tt, q)
  answered-IsNear c unvisited (round e u) h q = (tt, q)
  answered-IsNear c visited (round e u) h q = (tt, q)
  answered-IsNear c fresh (link job href rest) h q =
      let entry : Near (record { url = href; depth = job.entry.depth + 1 }) = record {
        close = omega (arith, h.shallow);
        away = h.further.0;
      } in
      (
        record { shallow = h.shallow; further = h.further.1 },
        All-append Near c.uri_que (record { url = href; depth = job.entry.depth + 1 } ∷ []) q
            (entry, tt),
      )
  answered-IsNear c unreached (link job href rest) h q =
      (record { shallow = h.shallow; further = h.further.1 }, q)
  answered-IsNear c unvisited (link job href rest) h q =
      (record { shallow = h.shallow; further = h.further.1 }, q)
  answered-IsNear c visited (link job href rest) h q =
      (record { shallow = h.shallow; further = h.further.1 }, q)

  fetched-IsNear :
      (c : Crawler) (job : Job lib) (ret : ℤ) (html : Bytes)
      → Near job.entry
      → Served lib serves ret job.entry.url html
      → All Near c.uri_que
      → IsNear (fetched lib c job ret html)
  unfolding fetched
  fetched-IsNear c job (negsuc zero) html h s q = (tt, q)
  fetched-IsNear c job (negsuc (suc zero)) html h s q = (tt, q)
  fetched-IsNear c job (negsuc (suc (suc n))) html h s q = (tt, q)
  fetched-IsNear c job (pos n) html h s q = elim (Bool-cases (ltb 3 job.entry.depth)) [
    | inl far ↦ rw far (tt, q)
    | inr more ↦ rw more (
      record {
        shallow = ground arith;
        further = All_of_mem (Away (job.entry.depth + 1)) (hrefs html) (λ x m. follow h.away s m);
      },
      q,
    )
  ]

  considered-Near :
      (job : Job lib) (x : Bytes) (hs : List Bytes) (u : Option Uri)
      → NearLinks job (x ∷ hs)
      → PhaseNear (considered lib job x hs u)
  unfolding considered
  considered-Near job x hs none h = record { shallow = h.shallow; further = h.further.1 }
  considered-Near job x hs (some u) h = h

  pub act-IsNear :
      (c : Crawler) (p : Phase lib) → PhaseNear p → All Near c.uri_que → IfSome IsNear (act lib c p)
  unfolding act considered check_ur check_uv check_vu
  act-IsNear c loop_head h q = elim (Bool-cases c.running) [
    | inl e ↦ rw e (tt, q)
    | inr e ↦ rw e (tt, q)
  ]
  act-IsNear c fetching h q = tt
  act-IsNear c ended h q = tt
  act-IsNear c (taken e) h q =
      IfSome-bind IsNear (parse (c_str e.url)) (λ u. (at_ur u (round e u), c)) (λ u. (h, q))
  act-IsNear c (at_ur u k) h q = found-IsNear unreached k _ _ h h q
  act-IsNear c (at_uv u k) h q = found-IsNear unvisited k _ _ h h q
  act-IsNear c (at_vu u k) h q = found-IsNear visited k _ _ h h q
  act-IsNear c (answer r k) h q = answered-IsNear c r k h q
  act-IsNear c (ready job) h q = tt
  act-IsNear c (loading job) h q = tt
  act-IsNear c (loaded job ret html) h q = fetched-IsNear c job ret html h.0 h.1 q
  act-IsNear c (saved job html) h q = tt
  act-IsNear c (linking job []) h q = (tt, q)
  act-IsNear c (linking job (x ∷ hs)) h q =
      IfSome-bind IsNear (wanted lib x) (λ u. (considered lib job x hs u, c))
        (λ u. (considered-Near job x hs u h, q))
