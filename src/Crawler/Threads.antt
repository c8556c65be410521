-- ===== src/Crawler/Threads.antt =====
-- Any number of workers (TSpiderWorker::Run and parseHyperlinks, libspider/Crawler.cpp) as a step
-- relation. A worker's phase is the point that it has reached; each critical section is a step of its
-- own, and so is what a worker does between two of them.
use crowdspider.Base.{
  zero, suc, ℕ, ◌≡◌, Bool, true, false, Option, none, some, List, [], ◌∷◌, get_elem?, set,
  replicate, ltb, if◌then◌else◌, ◌>>=◌, All, Bytes, c_str,
}
use crowdspider.Base.Int.{ℤ, pos, negsuc}
use crowdspider.Crawler.Html.{Html}
use crowdspider.Crawler.State.{
  Crawler, UriEntry, Check, fresh, unreached, unvisited, visited, fetch_url, check_ur, check_uv,
  check_vu, getfileseq, save_unreach_host, save_unvisited_url, save_visited_url, start, stop,
}
use crowdspider.Crawler.FileName.{file_name}
use crowdspider.Crawler.Links.{wanted, enqueue}
use crowdspider.Crawler.Worker.{Job}

-- What holds of a result, if there is one.
abbrev pub IfSome {ℓ κ} : {A : Type ℓ} → (A → Type κ) → Option A → Type κ
IfSome P none = Unit
IfSome P (some x) = P x

pub IfSome-bind {ℓ κ μ} :
    {A : Type ℓ} {B : Type κ} (P : B → Type μ) (m : Option A) (f : A → B)
    → ((a : A) → P (f a))
    → IfSome P (m >>= λ a. some (f a))
IfSome-bind P none f h = tt
IfSome-bind P (some a) f h = h a

-- Where checkUrl was called: in the round on an entry, or for a link of the job's page, with the
-- links that come after it.
pub data Caller (lib : Html) : Type 0 where
  round : UriEntry → lib.Uri → Caller lib
  link : Job lib → Bytes → List Bytes → Caller lib

-- `fetching` is in fetchUrl, waiting or not; `at_ur`, `at_uv` and `at_vu` stand before the three
-- sections of checkUrl, and `answer` behind its return; `ready` waits for fetch_mutex and `loading`
-- holds it; `saved` waits for uq_mutex to queue the links of a page, and `linking` holds it.
pub data Phase (lib : Html) : Type 0 where
  loop_head fetching ended : Phase lib
  taken : UriEntry → Phase lib
  at_ur at_uv at_vu : lib.Uri → Caller lib → Phase lib
  answer : Check → Caller lib → Phase lib
  ready loading : Job lib → Phase lib
  loaded : Job lib → ℤ → Bytes → Phase lib
  saved : Job lib → Bytes → Phase lib
  linking : Job lib → List Bytes → Phase lib

module _ (lib : Html) where
  open lib use {Uri, parse, hostname, unparse, hrefs}

  -- A phase after a section of checkUrl, which has found the text or not.
  unfoldable pub found : Check → Caller lib → Phase lib → Bool × Crawler → Phase lib × Crawler
  found r k next (true, c) = (answer r k, c)
  found r k next (false, c) = (next, c)

  unfoldable pub numbered : UriEntry → Uri → ℕ × Crawler → Phase lib × Crawler
  numbered e u (num, c) =
      (ready (record { entry = e; uri = u; seq = num; savefile = file_name num }), c)

  -- What follows an answer of checkUrl.
  unfoldable pub answered : Crawler → Check → Caller lib → Phase lib × Crawler
  unfolding numbered
  answered c fresh (round e u) = numbered e u (getfileseq c)
  answered c r (round e u) = (loop_head, c)
  answered c r (link job href rest) = (linking job rest, enqueue job.entry.depth href (r, c))

  -- What follows the result of fetchHtmlPage.
  unfoldable pub fetched : Crawler → Job lib → ℤ → Bytes → Phase lib × Crawler
  fetched c job (negsuc zero) html = (loop_head, save_unreach_host c (hostname job.uri))
  fetched c job (negsuc (suc zero)) html = (loop_head, save_unvisited_url c job.entry.url)
  fetched c job (negsuc _) html = (loop_head, c)
  fetched c job (pos n) html = (
    (if ltb 3 job.entry.depth then loop_head else saved job html),
    save_visited_url c job.entry.url,
  )

  -- A link that is passed over, or whose URI goes to checkUrl.
  unfoldable pub considered : Job lib → Bytes → List Bytes → Option Uri → Phase lib
  considered job href rest none = linking job rest
  considered job href rest (some u) = at_ur u (link job href rest)

  -- The next step of a worker that waits for no mutex held across steps; `none` is an exception, or
  -- one of the phases that wait.
  unfoldable pub act : Crawler → Phase lib → Option (Phase lib × Crawler)
  unfolding found answered fetched considered
  act c loop_head = some ((if c.running then fetching else ended), c)
  act c (taken e) = parse (c_str e.url) >>= λ u. some (at_ur u (round e u), c)
  act c (at_ur u k) = some (found unreached k (at_uv u k) (check_ur c (hostname u)))
  act c (at_uv u k) = some (found unvisited k (at_vu u k) (check_uv c (unparse u)))
  act c (at_vu u k) = some (found visited k (answer fresh k) (check_vu c (unparse u)))
  act c (answer r k) = some (answered c r k)
  act c (loaded job ret html) = some (fetched c job ret html)
  act c (linking job []) = some (loop_head, c)
  act c (linking job (h ∷ hs)) = wanted lib h >>= λ u. some (considered job h hs u, c)
  act c _ = none

  unfoldable pub calls_uq : Caller lib → Bool
  calls_uq (round e u) = false
  calls_uq (link job href rest) = true

  -- uq_mutex is held while the links of a page are queued, across the calls of checkUrl.
  unfoldable pub holds_uq : Phase lib → Bool
  unfolding calls_uq
  holds_uq (linking job hs) = true
  holds_uq (at_ur u k) = calls_uq k
  holds_uq (at_uv u k) = calls_uq k
  holds_uq (at_vu u k) = calls_uq k
  holds_uq (answer r k) = calls_uq k
  holds_uq _ = false

  -- fetch_mutex is held during a download.
  unfoldable pub holds_fetch : Phase lib → Bool
  holds_fetch (loading job) = true
  holds_fetch _ = false

  -- The crawler and the phase of each worker.
  pub record World : Type 0 where
    pub crawler : Crawler
    pub workers : List (Phase lib)

  abbrev pub moved : World → ℕ → Phase lib × Crawler → World
  moved w i (p, c) = record { crawler = c; workers = set w.workers i p }

  module _ (serves : Bytes → Bytes → Type 0) where
    -- What a download that succeeds leaves behind is a page that the URL serves.
    abbrev pub Served : ℤ → Bytes → Bytes → Type 0
    Served (pos n) url html = serves url html
    Served (negsuc n) url html = Unit

    -- One step of one worker, or a call of TCrawler::stop.
    pub data Step : World → World → Type 0 where
      acted :
          (w : World) (i : ℕ) (p : Phase lib) (r : Phase lib × Crawler)
          → get_elem? w.workers i ≡ some p
          → act w.crawler p ≡ some r
          → Step w (moved w i r)
      popped :
          (w : World) (i : ℕ) (e : UriEntry) (c : Crawler)
          → get_elem? w.workers i ≡ some fetching
          → All (λ p. holds_uq p ≡ false) w.workers
          → fetch_url w.crawler ≡ some (e, c)
          → Step w (moved w i (taken e, c))
      locked :
          (w : World) (i : ℕ) (job : Job lib)
          → get_elem? w.workers i ≡ some (ready job)
          → All (λ p. holds_fetch p ≡ false) w.workers
          → Step w (moved w i (loading job, w.crawler))
      downloaded :
          (w : World) (i : ℕ) (job : Job lib) (ret : ℤ) (html : Bytes)
          → get_elem? w.workers i ≡ some (loading job)
          → Served ret job.entry.url html
          → Step w (moved w i (loaded job ret html, w.crawler))
      parsed :
          (w : World) (i : ℕ) (job : Job lib) (html : Bytes)
          → get_elem? w.workers i ≡ some (saved job html)
          → All (λ p. holds_uq p ≡ false) w.workers
          → Step w (moved w i (linking job (hrefs html), w.crawler))
      stopped : (w : World) → Step w (record w { crawler = stop w.crawler })

    pub data Reach (s : World) : World → Type 0 where
      here : Reach s s
      next : {t u : World} → Reach s t → Step t u → Reach s u

    pub Reach-trans : {s t u : World} → Reach s t → Reach t u → Reach s u
    Reach-trans a here = a
    Reach-trans a (next b st) = next (Reach-trans a b) st

  -- TCrawler::start with some number of workers
  abbrev pub initial : ℕ → Bytes → List Bytes → List Bytes → List Bytes → World
  initial n url ur uv vu = record { crawler = start url ur uv vu; workers = replicate n loop_head }
