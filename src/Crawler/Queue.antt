-- ===== src/Crawler/Queue.antt =====
-- What a round does to the queue of URLs (libspider/Crawler.cpp).
use crowdspider.Crawler.FileName.{file_name}
use crowdspider.Base.{
  ◌⊎◌, ◌≤◌, ◌^◌, ◌%◌, ap, sym, zero, ltb, ◌<◌, ◌+◌, ◌≡◌, refl, ◌∙◌, Option, none, some, List, [],
  ◌∷◌, ◌++◌, arith, ℕ, suc, All, All-append, Bytes, Bool-cases, inl, inr, Option-cases, c_str,
}
use mathlib.Core.List.{append-nil, append_assoc}
use crowdspider.Base.Int.{ℤ, pos, negsuc}
use crowdspider.Crawler.Html.{Html}
use crowdspider.Crawler.State.{
  save_visited_url, Crawler, UriEntry, Check, fresh, check_url, fetch_url, front,
}
use crowdspider.Crawler.Links.{enqueue, ask, wanted, consider, parse_links, parse_hyperlinks}
use crowdspider.Crawler.Worker.{
  with_uri, with_entry, with_number, with_check, Job, begin, finish, downloads,
}

-- checkUrl leaves the queue alone.
pub uri_que-check_url :
    (c : Crawler) (host text : Bytes) → (check_url c host text).1.uri_que ≡ c.uri_que
unfolding check_url
uri_que-check_url c host text = ground arith

-- The three vectors that checkUrl searches are the same.
abbrev pub SameVectors : Crawler → Crawler → Type 0
SameVectors c c' =
    (c'.unreached_hosts ≡ c.unreached_hosts)
    × (c'.unvisited_urls ≡ c.unvisited_urls)
    × (c'.visited_urls ≡ c.visited_urls)

pub check_url-SameVectors :
    (c : Crawler) (host text : Bytes) → SameVectors c (check_url c host text).1
unfolding check_url
check_url-SameVectors c host text = ground arith

-- `c'` has the queue of `c` with entries of one depth behind it, and the same vectors.
pub record Extends (depth : ℕ) (c c' : Crawler) : Type 0 where
  pub added : List UriEntry
  pub queue : c'.uri_que ≡ c.uri_que ++ added
  pub depths : All (λ (e : UriEntry). e.depth ≡ depth) added
  pub vectors : SameVectors c c'

Extends-refl :
    (depth : ℕ) (c c' : Crawler) → c'.uri_que ≡ c.uri_que → SameVectors c c' → Extends depth c c'
Extends-refl depth c c' e v = record {
  added = [];
  queue = e ∙ rw append-nil refl;
  depths = tt;
  vectors = v;
}

Extends-trans :
    (depth : ℕ) (a b c : Crawler) → Extends depth a b → Extends depth b c → Extends depth a c
Extends-trans depth a b c x y = record {
  added = x.added ++ y.added;
  queue = y.queue ∙ rw (x.queue, append_assoc) refl;
  depths = All-append _ x.added y.added x.depths y.depths;
  vectors = ground arith;
}

enqueue-Extends :
    (depth : ℕ) (href : Bytes) (c : Crawler) (r : Check × Crawler)
    → r.1.uri_que ≡ c.uri_que
    → SameVectors c r.1
    → Extends (depth + 1) c (enqueue depth href r)
unfolding enqueue
enqueue-Extends depth href c (fresh, c') e v = record {
  added = record { url = href; depth = depth + 1 } ∷ [];
  queue = rw e refl;
  depths = (refl, tt);
  vectors = v;
}
enqueue-Extends depth href c (_, c') e v = Extends-refl (depth + 1) c c' e v

module _ (lib : Html) where
  open lib use {Uri, parse, hostname, path, unparse, hrefs}

  ask-Extends :
      (c : Crawler) (depth : ℕ) (href : Bytes) (u : Option Uri)
      → Extends (depth + 1) c (ask lib c depth href u)
  unfolding ask
  ask-Extends c depth href none = Extends-refl (depth + 1) c c refl (refl, refl, refl)
  ask-Extends c depth href (some u) =
      enqueue-Extends depth href c _ (uri_que-check_url c (hostname u) (unparse u))
        (check_url-SameVectors c (hostname u) (unparse u))

  consider-Extends :
      (c c' : Crawler) (depth : ℕ) (href : Bytes)
      → consider lib c depth href ≡ some c'
      → Extends (depth + 1) c c'
  unfolding consider
  consider-Extends c c' depth href e = elim (Option-cases (wanted lib href)) [
    | inl n ↦ absurd (ground arith)
    | inr (u, x) ↦
        let same : ask lib c depth href u ≡ c' = ground arith in
        rw same at (ask-Extends c depth href u)
  ]

  parse_links-Extends :
      (c c' : Crawler) (depth : ℕ) (hs : List Bytes)
      → parse_links lib c depth hs ≡ some c'
      → Extends (depth + 1) c c'
  unfolding parse_links
  parse_links-Extends c c' depth [] e = Extends-refl (depth + 1) c c' (ground arith) (ground arith)
  parse_links-Extends c c' depth (h ∷ hs) e = elim (Option-cases (consider lib c depth h)) [
    | inl n ↦ absurd (ground arith)
    | inr (d, x) ↦
        Extends-trans (depth + 1) c d c' (consider-Extends c d depth h x)
          (parse_links-Extends d c' depth hs (ground arith))
  ]

  pub finish_lem :
      (c c' : Crawler) (job : Job lib) (ret : ℤ) (html : Bytes)
      → finish lib c job ret html ≡ some c'
      → Extends (job.entry.depth + 1) c c' × (3 < job.entry.depth → c'.uri_que ≡ c.uri_que)
  unfolding finish parse_hyperlinks
  finish_lem c c' job (negsuc zero) html e =
      (Extends-refl _ c c' (ground arith) (ground arith), λ h. ground arith)
  finish_lem c c' job (negsuc (suc zero)) html e =
      (Extends-refl _ c c' (ground arith) (ground arith), λ h. ground arith)
  finish_lem c c' job (negsuc (suc (suc n))) html e =
      (Extends-refl _ c c' (ground arith) (ground arith), λ h. ground arith)
  finish_lem c c' job (pos n) html e = elim (Bool-cases (ltb 3 job.entry.depth)) [
    | inl deep ↦ (Extends-refl _ c c' (ground arith) (ground arith), λ h. ground arith)
    | inr more ↦
        let x =
          parse_links-Extends (save_visited_url c job.entry.url) c' job.entry.depth (hrefs html)
            (rw more at e) in
        (
          record { added = x.added; queue = x.queue; depths = x.depths; vectors = x.vectors },
          λ h. absurd (ground arith),
        )
  ]

  -- The end of a round leaves every queued entry in its place and only adds entries behind them,
  -- each one level deeper than the page; a page below the third level adds none.
  pub finish-Extends :
      (c c' : Crawler) (job : Job lib) (ret : ℤ) (html : Bytes)
      → finish lib c job ret html ≡ some c'
      → Extends (job.entry.depth + 1) c c' × ((job.entry.depth ≤ 3) ⊎ (c'.uri_que ≡ c.uri_que))
  finish-Extends c c' job ret html e =
      let (x, deep) = finish_lem c c' job ret html e in
      elim (Bool-cases (ltb 3 job.entry.depth)) [
        | inl h ↦ (x, inr (deep (ground arith)))
        | inr h ↦ (x, inl (ground arith))
      ]

  fseq-check_url : (c : Crawler) (host text : Bytes) → (check_url c host text).1.fseq ≡ c.fseq
  unfolding check_url
  fseq-check_url c host text = ground arith

  -- What the first part of a round that begins a download took from the crawler.
  pub record Took (c : Crawler) (job : Job lib) (c' : Crawler) : Type 0 where
    pub rest : List UriEntry
    pub first : c.uri_que ≡ job.entry ∷ rest
    pub left : c'.uri_que ≡ rest
    pub number : job.seq ≡ c.fseq
    pub named : job.savefile ≡ file_name c.fseq
    pub counted : c'.fseq ≡ (c.fseq + 1) % 2 ^ 32
    pub vectors : SameVectors c c'

  with_check-Took :
      (c c' : Crawler) (e : UriEntry) (u : Uri) (rest : List UriEntry) (job : Job lib)
      (r : Check × Crawler)
      → c.uri_que ≡ e ∷ rest
      → r.1.uri_que ≡ rest
      → r.1.fseq ≡ c.fseq
      → SameVectors c r.1
      → with_check lib e u r ≡ downloads job c'
      → Took c job c'
  unfolding with_check with_number
  with_check-Took c c' e u rest job (fresh, d) q l f v h =
      let mine : Job lib = record {
        entry = e;
        uri = u;
        seq = d.fseq;
        savefile = file_name d.fseq;
      } in
      let same : mine ≡ job = cc in
      record {
        rest = rest;
        first = q ∙ ap (λ (j : Job lib). j.entry ∷ rest) same;
        left = ground arith;
        number = ap (λ (j : Job lib). j.seq) (sym same) ∙ f;
        named = ap (λ (j : Job lib). j.savefile) (sym same) ∙ ap file_name f;
        counted = ground arith;
        vectors = ground arith;
      }
  with_check-Took c c' e u rest job (_, d) q l f v h = absurd (ground arith)

  with_entry-Took :
      (c c' : Crawler) (job : Job lib) (q : List UriEntry)
      → c.uri_que ≡ q
      → with_entry lib (front c q) ≡ downloads job c'
      → Took c job c'
  unfolding with_entry with_uri front
  with_entry-Took c c' job [] e h = absurd (ground arith)
  with_entry-Took c c' job (x ∷ rest) e h = elim (Option-cases (parse (c_str x.url))) [
    | inl n ↦ absurd (ground arith)
    | inr (u, p) ↦
        let d = record c { uri_que = rest } in
        with_check-Took c c' x u rest job (check_url d (hostname u) (unparse u)) e
          (uri_que-check_url d (hostname u) (unparse u)) (fseq-check_url d (hostname u) (unparse u))
          (check_url-SameVectors d (hostname u) (unparse u)) (ground arith)
  ]

  -- A round that begins a download takes the entry at the head of the queue and nothing else, numbers
  -- it with the sequence counter, names its file after that number, and advances the counter.
  pub begin-Took : (c c' : Crawler) (job : Job lib) → begin lib c ≡ downloads job c' → Took c job c'
  unfolding begin fetch_url
  begin-Took c c' job h = with_entry-Took c c' job c.uri_que refl h
