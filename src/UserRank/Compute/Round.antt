-- ===== src/UserRank/Compute/Round.antt =====
-- What a round of UserRank::computeUserRank (build/UserRank.cpp) gives each user.
use crowdspider.Base.{◌≡◌, refl, ap, ◌∙◌, some, List, [], ◌∷◌, if◌then◌else◌, bytes_eq, length, All}
use crowdspider.UserRank.{UserIdent, Map, find}
use crowdspider.UserRank.Build.{Num, init_map_rank, Ranks}
use crowdspider.UserRank.Compute.{value, grow, spread, spread_all, sum_zero, raise, round}
use crowdspider.UserRank.Compute.Known.{
  keys, In, Known, put_absent-In, keys-init_map_rank, find-init_map_rank, find-raise, keys-raise,
  keys-grow, find-grow,
}

module _ {V : Type 0} (num : Num V) where
  -- What the links of one user add to the rank of another
  unfoldable pub share : UserIdent → V → Map V → V → V
  share u w [] acc = acc
  share u w ((y, v) ∷ ls) acc = share u w ls (if bytes_eq y u then num.add acc w else acc)

  -- What all users who link to a user add to its rank: the damped part of each one's rank for one link
  unfoldable pub shares : UserIdent → V → Map V → Map (Map V) → V → V
  unfolding share value
  shares u alpha ranks [] acc = acc
  shares u alpha ranks ((x, ls) ∷ m) acc =
      let val = num.mul (num.div num.one (num.of_size (length ls))) alpha in
      shares u alpha ranks m (share u (num.mul (value num x ranks) val) ls acc)

  -- The damped ranks of the users without links
  unfoldable pub lost : V → Map V → Map V → V → V
  unfolding value
  lost alpha ranks [] sum = sum
  lost alpha ranks ((z, v) ∷ zs) sum =
      lost alpha ranks zs (num.add sum (num.mul (num.mul (value num z ranks) alpha) v))

  -- A pair of ranks after some loop: the old ones are as they were, and the new ones have the same users.
  abbrev Adds : List UserIdent → Map V → Map V → Map V × Map V → (UserIdent → V → V) → Type 0
  Adds ks prev cur s f =
      (s.0 ≡ prev)
      × (keys s.1 ≡ ks)
      × ((u : UserIdent) (c : V) → find u cur ≡ some c → find u s.1 ≡ some (f u c))

  spread_step :
      (x y : UserIdent) (val w : V) (ls prev cur : Map V)
      → In x (keys prev)
      → spread num x val ((y, w) ∷ ls) (prev, cur)
        ≡ spread num x val ls (prev, grow num y (num.mul (value num x prev) val) cur)
  unfolding spread
  spread_step x y val w ls prev cur i = rw (spread, put_absent-In x num.zero_rank prev i) refl

  spread-Adds :
      (ks : List UserIdent) (x : UserIdent) (val : V) (ls prev cur : Map V)
      → keys prev ≡ ks
      → keys cur ≡ ks
      → In x ks
      → All (λ (l : UserIdent × V). In l.0 ks) ls
      → Adds ks prev cur
          (spread num x val ls (prev, cur))
          (λ u. share u (num.mul (value num x prev) val) ls)
  unfolding spread share
  spread-Adds ks x val [] prev cur p c i all = (refl, c, λ u c e. e)
  spread-Adds ks x val ((y, w) ∷ ls) prev cur p c i (j, all) =
      let j' : In y (keys cur) = rw c j in
      let add = num.mul (value num x prev) val in
      let (a, b, found) =
        spread-Adds ks x val ls prev (grow num y add cur) p (keys-grow num y add cur j' ∙ c) i
          all in
      rw (spread_step x y val w ls prev cur (rw p i)) (
        a,
        b,
        λ u d e.
            found u (if bytes_eq y u then num.add d add else d) (find-grow num y u add d cur j' e),
      )

  spread_all-Adds :
      (ks : List UserIdent) (alpha : V) (m : Map (Map V)) (prev cur : Map V)
      → keys prev ≡ ks
      → keys cur ≡ ks
      → Known ks m
      → Adds ks prev cur (spread_all num alpha m (prev, cur)) (λ u. shares u alpha prev m)
  unfolding spread_all shares
  spread_all-Adds ks alpha [] prev cur p c all = (refl, c, λ u c e. e)
  spread_all-Adds ks alpha ((x, ls) ∷ m) prev cur p c ((i, links), all) =
      let val = num.mul (num.div num.one (num.of_size (length ls))) alpha in
      let s = spread num x val ls (prev, cur) in
      let (a, b, found) = spread-Adds ks x val ls prev cur p c i links in
      let (a', b', found') = spread_all-Adds ks alpha m prev s.1 p b all in
      let same : s ≡ (prev, s.1) = ap (λ q. (q, s.1)) a in
      let step : spread_all num alpha ((x, ls) ∷ m) (prev, cur)
          ≡ spread_all num alpha m (prev, s.1) =
        ap (λ q. spread_all num alpha m q) same in
      rw step
        (a', b', λ u d e. found' u (share u (num.mul (value num x prev) val) ls d) (found u d e))

  sum_zero-lost :
      (alpha : V) (zs prev : Map V) (sum : V)
      → All (λ (z : UserIdent × V). In z.0 (keys prev)) zs
      → sum_zero num alpha zs sum prev ≡ (lost alpha prev zs sum, prev)
  unfolding sum_zero lost
  sum_zero-lost alpha [] prev sum all = refl
  sum_zero-lost alpha ((z, v) ∷ zs) prev sum (i, all) =
      rw (put_absent-In z num.zero_rank prev i) (
        sum_zero-lost alpha zs prev (num.add sum (num.mul (num.mul (value num z prev) alpha) v))
          all)

  -- The rank of a user after a round
  abbrev pub ranked : Ranks V → Map V → Map V → UserIdent → V
  ranked r zeros old u =
      num.add (shares u r.alpha old r.links.matrix num.zero_rank)
        (num.mul r.beta (num.add (lost r.alpha old zeros num.zero_rank) (num.sub num.one r.alpha)))

  round_step :
      (r : Ranks V) (zeros prev cur : Map V)
      → (spread_all num r.alpha r.links.matrix (cur, init_map_rank prev num.zero_rank)).0 ≡ cur
      → All (λ (z : UserIdent × V). In z.0 (keys cur)) zeros
      → round num r zeros (prev, cur) ≡ (
        cur,
        raise num
            (num.mul r.beta
              (num.add (lost r.alpha cur zeros num.zero_rank) (num.sub num.one r.alpha)))
            (spread_all num r.alpha r.links.matrix (cur, init_map_rank prev num.zero_rank)).1,
      )
  unfolding round
  round_step r zeros prev cur a all =
      rw (round, a, sum_zero-lost r.alpha zeros cur num.zero_rank all) refl

  -- A round keeps the users of both lists of ranks, and the new rank of each is what the users who link to it
  -- add to 0 and a part that is the same for all.
  pub round-ranked :
      (r : Ranks V) (ks : List UserIdent) (zeros prev cur : Map V)
      → keys prev ≡ ks
      → keys cur ≡ ks
      → Known ks r.links.matrix
      → All (λ (z : UserIdent × V). In z.0 ks) zeros
      → ((round num r zeros (prev, cur)).0 ≡ cur)
        × (keys (round num r zeros (prev, cur)).1 ≡ ks)
        × ((u : UserIdent)
            → In u ks
            → find u (round num r zeros (prev, cur)).1 ≡ some (ranked r zeros cur u))
  round-ranked r ks zeros prev cur p c known all =
      let fresh = init_map_rank prev num.zero_rank in
      let s = spread_all num r.alpha r.links.matrix (cur, fresh) in
      let (a, b, found) =
        spread_all-Adds ks r.alpha r.links.matrix cur fresh c
          (keys-init_map_rank prev num.zero_rank ∙ p) known in
      let part =
        num.mul r.beta (num.add (lost r.alpha cur zeros num.zero_rank) (num.sub num.one r.alpha)) in
      rw (round_step r zeros prev cur a (rw c all)) (
        refl,
        keys-raise num part s.1 ∙ b,
        λ u i.
            find-raise num u part (shares u r.alpha cur r.links.matrix num.zero_rank) s.1
              (found u num.zero_rank (find-init_map_rank u num.zero_rank prev (rw p i))),
      )
