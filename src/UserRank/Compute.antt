-- ===== src/UserRank/Compute.antt =====
-- UserRank::computeUserRank (build/UserRank.cpp) up to the ranks that it prints. The numbers are those of Num.
use crowdspider.Base.{
  ℕ, zero, suc, ◌+◌, Bool, Option, none, some, List, [], ◌∷◌, if◌then◌else◌, length,
}
use crowdspider.UserRank.{UserIdent, Map, find, put_new, replace, put_absent, Links}
use crowdspider.UserRank.Build.{Num, init_map_rank, Ranks}
pub mod Known
pub mod Round
pub mod Loop

module _ {V : Type 0} (num : Num V) where
  -- The value of an entry
  unfoldable pub value : UserIdent → Map V → V
  unfolding find
  value k m = elim (find k m) [ none ↦ num.zero_rank | some v ↦ v ]

  -- `m[k] += v`, which makes the entry where it is not there
  unfoldable pub grow : UserIdent → V → Map V → Map V
  unfolding put_absent replace value
  grow k v m = let m1 = put_absent k num.zero_rank m in replace k (num.add (value k m1) v) m1

  -- prevRanks and curRanks
  abbrev pub Both : Type 0
  Both = Map V × Map V

  -- The loop over the links of a user
  unfoldable pub spread : UserIdent → V → Map V → Both → Both
  unfolding grow
  spread x val [] s = s
  spread x val ((y, w) ∷ links) (prev, cur) =
      let prev1 = put_absent x num.zero_rank prev in
      spread x val links (prev1, grow y (num.mul (value x prev1) val) cur)

  unfoldable pub spread_all : V → Map (Map V) → Both → Both
  spread_all alpha [] s = s
  spread_all alpha ((x, links) ∷ m) s =
      let val = num.mul (num.div num.one (num.of_size (length links))) alpha in
      spread_all alpha m (spread x val links s)

  -- allZeroMapRank: the users without an entry in matrix
  unfoldable pub all_zero : Map (Map V) → Map V → Map V → Map V
  unfolding find put_absent
  all_zero matrix [] acc = acc
  all_zero matrix ((k, v) ∷ m) acc = elim (find k matrix) [
    | none ↦ all_zero matrix m (put_absent k num.one acc)
    | some links ↦ all_zero matrix m acc
  ]

  unfoldable pub sum_zero : V → Map V → V → Map V → V × Map V
  unfolding value put_absent
  sum_zero alpha [] sum prev = (sum, prev)
  sum_zero alpha ((z, v) ∷ zs) sum prev =
      let prev1 = put_absent z num.zero_rank prev in
      sum_zero alpha zs (num.add sum (num.mul (num.mul (value z prev1) alpha) v)) prev1

  -- The last loop over curRanks
  unfoldable pub raise : V → Map V → Map V
  raise v [] = []
  raise v ((k, w) ∷ m) = (k, num.add w v) ∷ raise v m

  -- A round of the loop, which begins by swapping the two
  unfoldable pub round : Ranks V → Map V → Both → Both
  unfolding init_map_rank spread_all sum_zero raise
  round r zeros (prev, cur) =
      let s = spread_all r.alpha r.links.matrix (cur, init_map_rank prev num.zero_rank) in
      let t = sum_zero r.alpha zeros num.zero_rank s.0 in
      (t.1, raise (num.mul r.beta (num.add t.0 (num.sub num.one r.alpha))) s.1)

  -- UserRank::diff, with the sum so far
  unfoldable pub diff : V → Map V → Map V → V
  diff ret [] next = ret
  diff ret (p ∷ prev) [] = ret
  diff ret ((k, v) ∷ prev) ((j, w) ∷ next) =
      let d = num.sub w v in diff (num.add ret (num.mul d d)) prev next

  -- The loop; `none` is one that goes on.
  unfoldable pub rank_loop : ℕ → Ranks V → Map V → Both → Option Both
  unfolding round diff
  rank_loop zero r zeros s = none
  rank_loop (suc fuel) r zeros s =
      let t = round r zeros s in
      let rest = rank_loop fuel r zeros t in
      if num.gt (diff num.zero_rank t.0 t.1) num.eps then rest else some t

  unfoldable pub start : Ranks V → Both
  start r = (init_map_rank r.links.first_rank num.zero_rank, r.links.first_rank)

  unfoldable pub zeros_of : Ranks V → Map V
  unfolding all_zero
  zeros_of r = all_zero r.links.matrix r.links.first_rank []

  -- The ranks of UserRank::computeUserRank after its loop
  unfoldable pub compute_user_rank : ℕ → Ranks V → Option (Map V)
  unfolding rank_loop start zeros_of
  compute_user_rank fuel r = elim (rank_loop fuel r (zeros_of r) (start r)) [
    | none ↦ none
    | some s ↦ some s.1
  ]
