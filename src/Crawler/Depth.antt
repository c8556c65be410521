-- ===== src/Crawler/Depth.antt =====
-- The depth of a queued URL is its distance from the start URL, and is bounded (libspider/Crawler.cpp).
use crowdspider.Base.{All, Bytes}
use crowdspider.Crawler.Html.{Html}
use crowdspider.Crawler.Near.{Near, PhaseNear}
use crowdspider.Crawler.State.{Crawler}
use crowdspider.Crawler.Threads.{World}

module _ (lib : Html) (serves : Bytes → Bytes → Type 0) (home : Bytes) where
  open lib use {hrefs}

  -- The URLs that are queued, and those that the workers have taken or have links of.
  pub record IsBounded (w : World lib) : Type 0 where
    pub queued : All (Near lib serves home) w.crawler.uri_que
    pub phases : All (PhaseNear lib serves home) w.workers
