-- ===== src/UserRank/Build/Whole.antt =====
-- UserRank::buildMatrix (build/UserRank.cpp) on files that mention fewer than 2^31 users.
use crowdspider.Base.{
  ℕ, suc, ◌+◌, ◌^◌, ◌%◌, ◌<◌, ◌≤◌, ◌≡◌, refl, true, Option, some, List, [], ◌∷◌, ltb, Bytes, length,
  arith, All, Option-cases, inl, inr,
}
use crowdspider.UserRank.{UserIdent, Map, find, put_new, replace, add_link}
use crowdspider.UserRank.Build.{
  Num, source_of, friends, friends_part, count_up, init_map_rank, Ranks, add_friends, add_line,
  add_lines, build_matrix, new_ranks,
}
use crowdspider.UserRank.Build.Users.{
  All-weaken, All-put_new, All-replace, All-find, Linked, Linked-add_link,
}
use crowdspider.UserRank.Compute.Known.{keys-init_map_rank}

-- How many users the lines mention
unfoldable pub mentions_in : Bytes → ℕ
mentions_in [] = 0
mentions_in (c ∷ s) = suc (length (friends [] (friends_part (c ∷ s))))

unfoldable pub mentions : List Bytes → ℕ
mentions [] = 0
mentions (l ∷ ls) = mentions_in l + mentions ls

-- No count is above n.
abbrev Counts : ℕ → Map ℕ → Type 0
Counts n m = All (λ (e : UserIdent × ℕ). e.1 ≤ n) m

count_up-Counts :
    (k : UserIdent) (n : ℕ) (m : Map ℕ)
    → Counts n m
    → suc n < 2 ^ 31
    → (m1 : Map ℕ) × (count_up k m ≡ some m1) × Counts (suc n) m1
unfolding count_up
count_up-Counts k n m counts lt =
    let more : Counts (suc n) m = All-weaken (λ e (h : e.1 ≤ n). omega arith) m counts in
    elim (Option-cases (find k m)) [
      | inl e ↦ (
        put_new k 1 m,
        rw (count_up, e) refl,
        All-put_new (λ e. e.1 ≤ suc n) k 1 m (omega arith) more,
      )
      | inr (c, e) ↦
          let small : c ≤ n = All-find (λ e. e.1 ≤ n) k c m counts e in
          let fits : ltb (c + 1) (2 ^ 31) ≡ true = ground arith in
          (
            replace k (c + 1) m,
            rw (count_up, e, fits) refl,
            All-replace (λ e. e.1 ≤ suc n) k (c + 1) m (omega arith) more,
          )
    ]

module _ {V : Type 0} (num : Num V) where
  -- The state between lines, after so many mentions
  record Built (n : ℕ) (r : Ranks V) : Type 0 where
    linked : Linked r.links
    counts : Counts n r.indegree

  abbrev Gives : Option (Ranks V) → ℕ → Type 0
  Gives o n = (r : Ranks V) × (o ≡ some r) × Built n r

  add_friends-Built :
      (src : UserIdent) (ds : List UserIdent) (n : ℕ) (r : Ranks V)
      → Built n r
      → n + length ds < 2 ^ 31
      → Gives (add_friends num src ds r) (n + length ds)
  unfolding add_friends
  add_friends-Built src [] n r b lt = (r, refl, let sum : n + 0 ≡ n = omega arith in rw sum b)
  add_friends-Built src (d ∷ ds) n r b lt =
      let (m, e, counts) = count_up-Counts d n r.indegree b.counts (omega arith) in
      let (r1, e1, b1) =
        add_friends-Built src ds (suc n)
          (record r { indegree = m; links = add_link num.zero_rank r.links src d num.one })
          (record {
            linked = Linked-add_link num.zero_rank r.links src d num.one b.linked;
            counts = counts;
          })
          (omega arith) in
      let sum : n + suc (length ds) ≡ suc n + length ds = omega arith in
      rw (add_friends, e) (r1, e1, rw sum b1)

  add_line-Built :
      (l : Bytes) (n : ℕ) (r : Ranks V)
      → Built n r
      → n + mentions_in l < 2 ^ 31
      → Gives (add_line num l r) (n + mentions_in l)
  unfolding add_line mentions_in
  add_line-Built [] n r b lt = (r, refl, let sum : n + 0 ≡ n = omega arith in rw sum b)
  add_line-Built (c ∷ s) n r b lt =
      let ds = friends [] (friends_part (c ∷ s)) in
      let (m, e, counts) =
        count_up-Counts (source_of (c ∷ s)) n r.indegree b.counts (omega arith) in
      let (r1, e1, b1) =
        add_friends-Built (source_of (c ∷ s)) ds (suc n) (record r { indegree = m })
          (record { linked = b.linked; counts = counts }) (omega arith) in
      let sum : n + suc (length ds) ≡ suc n + length ds = omega arith in
      rw (add_line, e) (r1, e1, rw sum b1)

  add_lines-Built :
      (ls : List Bytes) (n : ℕ) (r : Ranks V)
      → Built n r
      → n + mentions ls < 2 ^ 31
      → Gives (add_lines num ls r) (n + mentions ls)
  unfolding add_lines mentions
  add_lines-Built [] n r b lt = (r, refl, let sum : n + 0 ≡ n = omega arith in rw sum b)
  add_lines-Built (l ∷ ls) n r b lt =
      let (r1, e, b1) = add_line-Built l n r b (omega arith) in
      let (r2, e2, b2) = add_lines-Built ls (n + mentions_in l) r1 b1 (omega arith) in
      let sum : n + (mentions_in l + mentions ls) ≡ n + mentions_in l + mentions ls = omega arith in
      rw (add_lines, e) (r2, e2, rw sum b2)

  -- buildMatrix on lines that mention fewer than 2^31 users meets no overflow, and the links that it makes are
  -- between users of firstMapRank.
  pub build_matrix-Linked :
      (lines : List Bytes) (d : V)
      → mentions lines < 2 ^ 31
      → (r : Ranks V) × (build_matrix num lines (new_ranks num d) ≡ some r) × Linked r.links
  unfolding build_matrix new_ranks
  build_matrix-Linked lines d lt =
      let (r, e, b) =
        add_lines-Built lines 0 (new_ranks num d) (record { linked = tt; counts = tt })
          (omega arith) in
      let n = length r.links.first_rank % 2 ^ 32 in
      let beta = num.div num.one (num.of_size n) in
      (
        record r {
          total_doc_num = n;
          beta = beta;
          links = record (r.links) { first_rank = init_map_rank (r.links.first_rank) beta };
        },
        rw (build_matrix, e) refl,
        rw (keys-init_map_rank r.links.first_rank beta) b.linked,
      )
