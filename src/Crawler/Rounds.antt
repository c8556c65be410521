-- ===== src/Crawler/Rounds.antt =====
-- The rounds of Worker are runs of one worker among the steps of Threads (libspider/Crawler.cpp).
use crowdspider.Base.{
  ℕ, zero, suc, ◌≡◌, refl, false, Bool-cases, Option-cases, ltb, inl, inr, none, some, Option, All,
  arith, get_elem?, Bytes, c_str,
}
use crowdspider.Base.Int.{ℤ, pos, negsuc}
use crowdspider.Crawler.Alone.{Alone, hop, first_hop, check-Alone, parse_links-Alone, link-Alone}
use crowdspider.Crawler.Html.{Html}
use crowdspider.Crawler.Links.{parse_hyperlinks}
use crowdspider.Crawler.State.{
  Crawler, UriEntry, Check, fetch_url, fresh, unreached, unvisited, visited, check_url,
  save_visited_url,
}
use crowdspider.Crawler.Worker.{
  Job, Begun, downloads, skips, begin, finish, with_entry, with_uri, with_check, with_number,
}
use crowdspider.Crawler.Threads.{
  round, loop_head, fetching, taken, at_ur, answer, ready, loaded, saved, answered, fetched, act,
  holds_uq, World, moved, popped, Reach, here, next,
}

module _ (lib : Html) (serves : Bytes → Bytes → Type 0) (w : World lib) (i : ℕ) where
  -- Where the first part of a round leads to, if it neither waits nor throws.
  abbrev pub Leads : Begun lib → Type 0
  Leads (downloads job c) = Reach lib serves w (moved lib w i (ready job, c))
  Leads (skips c) = Reach lib serves w (moved lib w i (loop_head, c))
  Leads _ = Unit

module _ (lib : Html) (serves : Bytes → Bytes → Type 0) (w : World lib) (i : ℕ)
    (free : All (λ p. holds_uq lib p ≡ false) w.workers) where
  open lib use {Uri, parse, hostname, unparse, hrefs}

  pub finish-Reach :
      (c : Crawler) (job : Job lib) (ret : ℤ) (html : Bytes)
      → get_elem? w.workers i ≡ some (loaded job ret html)
      → finish lib w.crawler job ret html ≡ some c
      → Reach lib serves w (moved lib w i (loop_head, c))
  unfolding finish parse_hyperlinks fetched act
  finish-Reach c job (negsuc zero) html busy e =
      first_hop lib serves w i busy (loop_head, c) (ground arith)
  finish-Reach c job (negsuc (suc zero)) html busy e =
      first_hop lib serves w i busy (loop_head, c) (ground arith)
  finish-Reach c job (negsuc (suc (suc n))) html busy e =
      first_hop lib serves w i busy (loop_head, c) (ground arith)
  finish-Reach c job (pos n) html busy e = elim (Bool-cases (ltb 3 job.entry.depth)) [
    | inl far ↦ first_hop lib serves w i busy (loop_head, c) (ground arith)
    | inr more ↦
        let c' = save_visited_url w.crawler job.entry.url in
        let a = first_hop lib serves w i busy (saved job html, c') (rw more refl) in
        parse_links-Alone lib serves w i busy c' c job (hrefs html) (rw more at e)
          (link-Alone lib serves w i busy c' job html free a)
  ]

  with_check-Leads :
      (busy : get_elem? w.workers i ≡ some fetching) (e : UriEntry) (u : Uri) (r : Check × Crawler)
      → Alone lib serves w i busy (answer r.0 (round e u)) r.1
      → Leads lib serves w i (with_check lib e u r)
  unfolding with_check with_number answered act
  with_check-Leads busy e u (fresh, c) a =
      hop lib serves w i busy (answer fresh (round e u)) c _ refl a
  with_check-Leads busy e u (unreached, c) a =
      hop lib serves w i busy (answer unreached (round e u)) c _ refl a
  with_check-Leads busy e u (unvisited, c) a =
      hop lib serves w i busy (answer unvisited (round e u)) c _ refl a
  with_check-Leads busy e u (visited, c) a =
      hop lib serves w i busy (answer visited (round e u)) c _ refl a

  with_uri-Leads :
      (busy : get_elem? w.workers i ≡ some fetching) (e : UriEntry) (c : Crawler)
      → Alone lib serves w i busy (taken e) c
      → Leads lib serves w i (with_uri lib e c (parse (c_str e.url)))
  unfolding with_uri act
  with_uri-Leads busy e c a = elim (Option-cases (parse (c_str e.url))) [
    | inl n ↦ rw n tt
    | inr (u, x) ↦
        let b = hop lib serves w i busy (taken e) c (at_ur u (round e u), c) (rw x refl) a in
        rw x (
          with_check-Leads busy e u (check_url c (hostname u) (unparse u))
            (check-Alone lib serves w i busy c u (round e u) b))
  ]

  with_entry-Leads :
      (busy : get_elem? w.workers i ≡ some fetching) (x : Option (UriEntry × Crawler))
      → fetch_url w.crawler ≡ x
      → Leads lib serves w i (with_entry lib x)
  unfolding with_entry
  with_entry-Leads busy none f = tt
  with_entry-Leads busy (some (e, c)) f =
      with_uri-Leads busy e c (next here (popped w i e c busy free f))

  -- A worker in fetchUrl can reach what the first part of a round makes, the download that it numbers
  -- or the head of its loop, where no other worker comes between its steps and none holds uq_mutex.
  pub begin-Reach :
      get_elem? w.workers i ≡ some fetching → Leads lib serves w i (begin lib w.crawler)
  unfolding begin
  begin-Reach busy = with_entry-Leads busy (fetch_url w.crawler) refl
