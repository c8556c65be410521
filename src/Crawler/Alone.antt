-- ===== src/Crawler/Alone.antt =====
-- A worker that no other comes between runs its round as Worker has it (libspider/Crawler.cpp).
use crowdspider.Base.{
  ℕ, zero, suc, ◌≡◌, refl, ap, true, false, Bool, Bool-cases, Option-cases, inl, inr, none, some,
  List, [], ◌∷◌, All, All-set, arith, get_elem?, set, Bytes,
}
use crowdspider.Crawler.Html.{Html}
use crowdspider.Crawler.Links.{wanted, enqueue, ask, consider, parse_links}
use crowdspider.Crawler.State.{
  Crawler, Check, fresh, unreached, unvisited, visited, check_ur, check_uv, check_vu, check_url,
}
use crowdspider.Crawler.Worker.{Job}
use crowdspider.Crawler.Threads.{
  Caller, link, Phase, loop_head, at_ur, at_uv, at_vu, answer, saved, linking, found, answered,
  considered, act, holds_uq, World, moved, Step, acted, parsed, Reach, here, next,
}
use mathlib.Core.Path.{subst}

module _ {ℓ} {A : Type ℓ} where
  set-set : (xs : List A) (i : ℕ) (x y : A) → set (set xs i x) i y ≡ set xs i y
  set-set [] i x y = refl
  set-set (z ∷ xs) zero x y = refl
  set-set (z ∷ xs) (suc i) x y = ap (λ r. z ∷ r) (set-set xs i x y)

  get_elem?-set_self :
      (xs : List A) (i : ℕ) (x : A) {y : A}
      → get_elem? xs i ≡ some y
      → get_elem? (set xs i x) i ≡ some x
  get_elem?-set_self [] i x e = absurd (cc)
  get_elem?-set_self (z ∷ xs) zero x e = refl
  get_elem?-set_self (z ∷ xs) (suc i) x e = get_elem?-set_self xs i x e

module _ (lib : Html) (serves : Bytes → Bytes → Type 0) (w : World lib) (i : ℕ) {first : Phase lib}
    (busy : get_elem? w.workers i ≡ some first) where
  open lib use {Uri, parse, hostname, unparse, hrefs}

  -- The world that the worker has reached.
  abbrev pub Alone : Phase lib → Crawler → Type 0
  Alone p c = Reach lib serves w (moved lib w i (p, c))

  stands : (p : Phase lib) → get_elem? (set w.workers i p) i ≡ some p
  stands p = get_elem?-set_self w.workers i p busy

  again :
      (p : Phase lib) (c : Crawler) (r : Phase lib × Crawler)
      → Step lib serves (moved lib w i (p, c)) (moved lib (moved lib w i (p, c)) i r)
      → Alone p c
      → Alone r.0 r.1
  again p c (p', c') st a =
      subst (λ ws. Reach lib serves w (record { crawler = c'; workers = ws }))
        (set-set w.workers i p p') (next a st)

  pub hop :
      (p : Phase lib) (c : Crawler) (r : Phase lib × Crawler)
      → act lib c p ≡ some r
      → Alone p c
      → Alone r.0 r.1
  hop p c r e a = again p c r (acted (moved lib w i (p, c)) i p r (stands p) e) a

  pub first_hop : (r : Phase lib × Crawler) → act lib w.crawler first ≡ some r → Alone r.0 r.1
  first_hop (p, c) e = next here (acted w i first (p, c) busy e)

  found_yes :
      (r : Check) (k : Caller lib) (p : Phase lib) (x : Bool × Crawler)
      → x.0 ≡ true
      → found lib r k p x ≡ (answer r k, x.1)
  unfolding found
  found_yes r k p (true, c) h = refl
  found_yes r k p (false, c) h = absurd (cc)

  found_no :
      (r : Check) (k : Caller lib) (p : Phase lib) (x : Bool × Crawler)
      → x.0 ≡ false
      → found lib r k p x ≡ (p, x.1)
  unfolding found
  found_no r k p (true, c) h = absurd (cc)
  found_no r k p (false, c) h = refl

  -- The three sections, with none of other workers between them, are a call of checkUrl.
  pub check-Alone :
      (c : Crawler) (u : Uri) (k : Caller lib)
      → Alone (at_ur u k) c
      → let r = check_url c (hostname u) (unparse u) in Alone (answer r.0 k) r.1
  unfolding check_url act
  check-Alone c u k a =
      let ur = check_ur c (hostname u) in
      let uv = check_uv ur.1 (unparse u) in
      let vu = check_vu uv.1 (unparse u) in
      elim (Bool-cases ur.0) [
        | inl e ↦ rw e (hop (at_ur u k) c _ (ap some (found_yes unreached k _ ur e)) a)
        | inr e ↦
            let b = hop (at_ur u k) c _ (ap some (found_no unreached k (at_uv u k) ur e)) a in
            elim (Bool-cases uv.0) [
              | inl f ↦
                  rw (e, f) (hop (at_uv u k) ur.1 _ (ap some (found_yes unvisited k _ uv f)) b)
              | inr f ↦
                  let d =
                    hop (at_uv u k) ur.1 _ (ap some (found_no unvisited k (at_vu u k) uv f)) b in
                  elim (Bool-cases vu.0) [
                    | inl g ↦
                        rw (e, f, g)
                          (hop (at_vu u k) uv.1 _ (ap some (found_yes visited k _ vu g)) d)
                    | inr g ↦
                        rw (e, f, g)
                          (hop (at_vu u k) uv.1 _ (ap some (found_no visited k _ vu g)) d)
                  ]
            ]
      ]

  answered-link :
      (c : Crawler) (r : Check) (job : Job lib) (h : Bytes) (hs : List Bytes)
      → answered lib c r (link job h hs) ≡ (linking job hs, enqueue job.entry.depth h (r, c))
  unfolding answered
  answered-link c fresh job h hs = refl
  answered-link c unreached job h hs = refl
  answered-link c unvisited job h hs = refl
  answered-link c visited job h hs = refl

  consider-Alone :
      (c d : Crawler) (job : Job lib) (h : Bytes) (hs : List Bytes)
      → consider lib c job.entry.depth h ≡ some d
      → Alone (linking job (h ∷ hs)) c
      → Alone (linking job hs) d
  unfolding consider act considered
  consider-Alone c d job h hs e a = elim (Option-cases (wanted lib h)) [
    | inl n ↦ absurd (ground arith)
    | inr (none, x) ↦
        let same : c ≡ d = unfold ask in ground arith in
        subst (Alone (linking job hs)) same
          (hop (linking job (h ∷ hs)) c (linking job hs, c) (rw x refl) a)
    | inr (some u, x) ↦
        let k = link job h hs in
        let r = check_url c (hostname u) (unparse u) in
        let same : enqueue job.entry.depth h r ≡ d = unfold ask in ground arith in
        let b = hop (linking job (h ∷ hs)) c (at_ur u k, c) (rw x refl) a in
        subst (Alone (linking job hs)) same (
          hop (answer r.0 k) r.1 (linking job hs, enqueue job.entry.depth h r)
            (ap some (answered-link r.1 r.0 job h hs)) (check-Alone c u k b))
  ]

  pub parse_links-Alone :
      (c d : Crawler) (job : Job lib) (hs : List Bytes)
      → parse_links lib c job.entry.depth hs ≡ some d
      → Alone (linking job hs) c
      → Alone loop_head d
  unfolding parse_links
  parse_links-Alone c d job [] e a =
      let same : c ≡ d = cc in
      subst (Alone loop_head) same (hop (linking job []) c (loop_head, c) (unfold act in refl) a)
  parse_links-Alone c d job (h ∷ hs) e a = elim (Option-cases (consider lib c job.entry.depth h)) [
    | inl n ↦ absurd (ground arith)
    | inr (c', x) ↦ parse_links-Alone c' d job hs (ground arith) (consider-Alone c c' job h hs x a)
  ]

  -- The worker takes uq_mutex, if no other holds it.
  pub link-Alone :
      (c : Crawler) (job : Job lib) (html : Bytes)
      → All (λ p. holds_uq lib p ≡ false) w.workers
      → Alone (saved job html) c
      → Alone (linking job (hrefs html)) c
  unfolding holds_uq
  link-Alone c job html free a =
      again (saved job html) c (linking job (hrefs html), c)
        (parsed (moved lib w i (saved job html, c)) i job html (stands (saved job html))
          (All-set _ w.workers i (saved job html) free refl))
        a
