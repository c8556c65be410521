-- ===== src/Crawler/Worker.antt =====
-- TSpiderWorker::Run (libspider/Crawler.cpp): one round of a worker in two parts, around the download,
-- where no other worker comes between its critical sections. Threads has the interleavings.
use crowdspider.Base.{zero, suc, ℕ, Option, none, some, ltb, if◌then◌else◌, Bytes, c_str}
use crowdspider.Base.Int.{ℤ, pos, negsuc}
use crowdspider.Crawler.Html.{Html}
use crowdspider.Crawler.State.{
  Crawler, UriEntry, Check, fresh, fetch_url, check_url, getfileseq, save_unreach_host,
  save_unvisited_url, save_visited_url,
}
use crowdspider.Crawler.FileName.{file_name}
use crowdspider.Crawler.Links.{parse_hyperlinks}

-- A download under way: the entry, its URI, the sequence number and the file name.
pub record Job (lib : Html) : Type 0 where
  pub entry : UriEntry
  pub uri : lib.Uri
  pub seq : ℕ
  pub savefile : Bytes

-- How the first part of a round ends: the queue is empty and the worker waits; the URI throws;
-- checkUrl sends it back to the loop's head; or a download begins.
pub data Begun (lib : Html) : Type 0 where
  waits throws : Begun lib
  skips : Crawler → Begun lib
  downloads : Job lib → Crawler → Begun lib

module _ (lib : Html) where
  open lib use {Uri, parse, hostname, unparse}

  unfoldable pub with_number : UriEntry → Uri → ℕ × Crawler → Begun lib
  with_number e u (num, c) =
      downloads (record { entry = e; uri = u; seq = num; savefile = file_name num }) c

  unfoldable pub with_check : UriEntry → Uri → Check × Crawler → Begun lib
  with_check e u (fresh, c) = with_number e u (getfileseq c)
  with_check e u (_, c) = skips c

  unfoldable pub with_uri : UriEntry → Crawler → Option Uri → Begun lib
  with_uri e c none = throws
  with_uri e c (some u) = with_check e u (check_url c (hostname u) (unparse u))

  unfoldable pub with_entry : Option (UriEntry × Crawler) → Begun lib
  with_entry none = waits
  with_entry (some (e, c)) = with_uri e c (parse (c_str e.url))

  -- From fetchUrl to the call of fetchHtmlPage.
  unfoldable pub begin : Crawler → Begun lib
  unfolding with_entry with_uri with_check with_number
  begin c = with_entry (fetch_url c)

  -- From the result of fetchHtmlPage to the end of the round; `none` is an exception.
  unfoldable pub finish : Crawler → Job lib → ℤ → Bytes → Option Crawler
  finish c job (negsuc zero) html = some (save_unreach_host c (hostname job.uri))
  finish c job (negsuc (suc zero)) html = some (save_unvisited_url c job.entry.url)
  finish c job (negsuc _) html = some c
  finish c job (pos n) html =
      let c' = save_visited_url c job.entry.url in
      if ltb 3 job.entry.depth then some c' else parse_hyperlinks lib c' job.entry.depth html
