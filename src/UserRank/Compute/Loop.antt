-- ===== src/UserRank/Compute/Loop.antt =====
-- The loop of UserRank::computeUserRank (build/UserRank.cpp) over its rounds.
use crowdspider.Base.{
  ℕ, zero, suc, ◌<◌, ◌≡◌, refl, ap, ◌∙◌, Bool, true, false, some, List, [], ◌∷◌, arith, All,
  Option-cases, inl, inr, bytes_eq_refl,
}
use crowdspider.UserRank.{UserIdent, Map, find, put_absent, on_stack}
use crowdspider.UserRank.Build.{Num, Ranks}
use crowdspider.UserRank.Build.Users.{Linked, All-put_absent}
use crowdspider.UserRank.Compute.{
  Both, round, diff, rank_loop, start, all_zero, zeros_of, compute_user_rank,
}
use crowdspider.UserRank.Compute.Known.{keys, In, Known, keys-init_map_rank}
use crowdspider.UserRank.Compute.Round.{ranked, round-ranked}

module _ {V : Type 0} (num : Num V) where
  unfoldable pub rounds : ℕ → Ranks V → Map V → Both num → Both num
  rounds zero r zeros s = s
  rounds (suc n) r zeros s = rounds n r zeros (round num r zeros s)

  -- Whether the loop goes on after a round
  abbrev pub goes_on : Both num → Bool
  goes_on s = num.gt (diff num num.zero_rank s.0 s.1) num.eps

  rank_loop-rounds :
      (n fuel : ℕ) (r : Ranks V) (zeros : Map V) (s : Both num)
      → ((k : ℕ) → k < n → goes_on (rounds (suc k) r zeros s) ≡ true)
      → goes_on (rounds (suc n) r zeros s) ≡ false
      → n < fuel
      → rank_loop num fuel r zeros s ≡ some (rounds (suc n) r zeros s)
  unfolding rank_loop rounds
  rank_loop-rounds n zero r zeros s more last lt = absurd (omega arith)
  rank_loop-rounds zero (suc fuel) r zeros s more last lt = rw (rank_loop, last) refl
  rank_loop-rounds (suc n) (suc fuel) r zeros s more last lt =
      rw (rank_loop, more 0 (omega arith))
        (rank_loop-rounds n fuel r zeros (round num r zeros s) (λ k h. more (suc k) (omega arith))
          last (omega arith))

  rounds-suc :
      (n : ℕ) (r : Ranks V) (zeros : Map V) (s : Both num)
      → rounds (suc n) r zeros s ≡ round num r zeros (rounds n r zeros s)
  unfolding rounds
  rounds-suc zero r zeros s = refl
  rounds-suc (suc n) r zeros s = rounds-suc n r zeros (round num r zeros s)

  rounds-keys :
      (n : ℕ) (r : Ranks V) (ks : List UserIdent) (zeros : Map V) (s : Both num)
      → keys s.0 ≡ ks
      → keys s.1 ≡ ks
      → Known ks r.links.matrix
      → All (λ (z : UserIdent × V). In z.0 ks) zeros
      → (keys (rounds n r zeros s).0 ≡ ks) × (keys (rounds n r zeros s).1 ≡ ks)
  unfolding rounds
  rounds-keys zero r ks zeros s p c known all = (p, c)
  rounds-keys (suc n) r ks zeros s p c known all =
      let (a, b, found) = round-ranked num r ks zeros s.0 s.1 p c known all in
      rounds-keys n r ks zeros (round num r zeros s) (ap (λ m. keys m) a ∙ c) b known all

  users_In :
      (ks : List UserIdent) (m : Map V)
      → ((u : UserIdent) → In u (keys m) → In u ks)
      → All (λ (e : UserIdent × V). In e.0 ks) m
  unfolding keys on_stack
  users_In ks [] f = tt
  users_In ks ((k, v) ∷ m) f =
      (f k (ground (arith, bytes_eq_refl k)), users_In ks m (λ u i. f u (ground arith)))

  all_zero-In :
      (ks : List UserIdent) (matrix : Map (Map V)) (m acc : Map V)
      → All (λ (e : UserIdent × V). In e.0 ks) m
      → All (λ (e : UserIdent × V). In e.0 ks) acc
      → All (λ (e : UserIdent × V). In e.0 ks) (all_zero num matrix m acc)
  unfolding all_zero
  all_zero-In ks matrix [] acc all done = done
  all_zero-In ks matrix ((k, v) ∷ m) acc (i, all) done = elim (Option-cases (find k matrix)) [
    | inl e ↦
        rw (all_zero, e)
          (all_zero-In ks matrix m (put_absent k num.one acc) all
            (All-put_absent (λ e. In e.0 ks) k num.one acc i done))
    | inr (ls, e) ↦ rw (all_zero, e) (all_zero-In ks matrix m acc all done)
  ]

  zeros_of-In :
      (r : Ranks V) → All (λ (e : UserIdent × V). In e.0 (keys r.links.first_rank)) (zeros_of num r)
  unfolding zeros_of
  zeros_of-In r =
      all_zero-In (keys r.links.first_rank) r.links.matrix r.links.first_rank []
        (users_In (keys r.links.first_rank) r.links.first_rank (λ u i. i)) tt

  -- The ranks after so many rounds
  abbrev pub after : ℕ → Ranks V → Both num
  after n r = rounds n r (zeros_of num r) (start num r)

  -- Where the links are between users of firstMapRank and the ranks first change by no more than EPS after n more
  -- rounds than one, computeUserRank ends with these ranks: one for each user, made of the ranks of the round
  -- before.
  pub compute_user_rank-ranked :
      (r : Ranks V) (n fuel : ℕ)
      → Linked r.links
      → ((k : ℕ) → k < n → goes_on (after (suc k) r) ≡ true)
      → goes_on (after (suc n) r) ≡ false
      → n < fuel
      → (ranks : Map V) × (compute_user_rank num fuel r ≡ some ranks)
        × (keys ranks ≡ keys r.links.first_rank)
        × ((u : UserIdent)
            → In u (keys ranks)
            → find u ranks ≡ some (ranked num r (zeros_of num r) (after n r).1 u))
  unfolding compute_user_rank start
  compute_user_rank-ranked r n fuel linked more last lt =
      let ks = keys r.links.first_rank in
      let zeros = zeros_of num r in
      let all = zeros_of-In r in
      let s = after n r in
      let (p, c) =
        rounds-keys n r ks zeros (start num r) (keys-init_map_rank r.links.first_rank num.zero_rank)
          refl linked all in
      let (a, b, found) = round-ranked num r ks zeros s.0 s.1 p c linked all in
      let ended =
        rank_loop-rounds n fuel r zeros (start num r) more last lt
        ∙ ap some (rounds-suc n r zeros (start num r)) in
      ((round num r zeros s).1, rw (compute_user_rank, ended) refl, b, λ u i. found u (rw b at i))
