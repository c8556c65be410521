-- ===== src/Tests/UserRank.antt =====
-- The links between users: a closed chain, and instances of the theorems about the links and the ranks.
use crowdspider.Base.{
  ◌+◌, ◌-◌, ◌*◌, ltb, List, Bytes, ℕ, ◌≡◌, ◌⊎◌, inl, inr, refl, some, none, [], ◌∷◌, bytes_eq,
  codes, arith,
}
use crowdspider.UserRank.Build.{
  Num, add_lines, add_line, count_up, add_friends, source_of, friends, friends_part, Ranks,
  build_matrix, new_ranks,
}
use crowdspider.UserRank.Build.Lines.{print_friends, friends-print}
use crowdspider.UserRank.Build.Users.{Linked}
use crowdspider.UserRank.Build.Whole.{mentions, mentions_in, build_matrix-Linked}
use crowdspider.UserRank.Compute.{spread, round, diff, start, zeros_of, compute_user_rank}
use crowdspider.UserRank.Compute.Known.{keys, In}
use crowdspider.UserRank.Compute.Round.{ranked}
use crowdspider.UserRank.Compute.Loop.{rounds, after, compute_user_rank-ranked}
use crowdspider.UserRank.{
  on_stack, UserIdent, Map, find, only, next_of, add_link, cut_loops, check_matrix_self_loop,
}
use crowdspider.UserRank.Loops.{
  Ends, stops, goes, Hole, cut_loops-Ends, check_matrix_self_loop_fault,
}

abbrev ann : UserIdent
ann = codes "a"

abbrev bob : UserIdent
bob = codes "b"

-- Two users with a link to each other, and a third with a link to one of them
abbrev closed : Map (Map ℕ)
closed = (ann, (bob, 1) ∷ []) ∷ (bob, (ann, 1) ∷ []) ∷ (codes "c", (ann, 1) ∷ []) ∷ []

added :
    (add_link 0
      (add_link 0
        (add_link 0 (record { first_rank = []; matrix = [] }) (codes "c") ann 1)
        bob
        ann
        1)
      ann
      bob
      1).matrix
    ≡ closed
unfolding add_link bytes_eq
added = refl

ann_next : next_of closed ann ≡ some bob
unfolding next_of find only bytes_eq
ann_next = refl

bob_next : next_of closed bob ≡ some ann
unfolding next_of find only bytes_eq
bob_next = refl

closed_goes_on : (x : UserIdent) → Ends closed x → (x ≡ ann) ⊎ (x ≡ bob) → ⊥
closed_goes_on x (stops e) (inl p) = ground (arith, ann_next)
closed_goes_on x (stops e) (inr p) = ground (arith, bob_next)
closed_goes_on x (goes {y} e s) (inl p) = closed_goes_on y s (inr (ground (arith, ann_next)))
closed_goes_on x (goes {y} e s) (inr p) = closed_goes_on y s (inl (ground (arith, bob_next)))

cut_loops-Ends_example :
    (m1 : Map (Map ℕ)) × (cut_loops closed ≡ some m1)
    × ((x : UserIdent) → Ends m1 x)
    × ((m1 ≡ closed) ⊎ Hole m1)
cut_loops-Ends_example = cut_loops-Ends closed

check_matrix_self_loop_fault_example : check_matrix_self_loop closed ≡ none
check_matrix_self_loop_fault_example =
    check_matrix_self_loop_fault closed ann (λ s. closed_goes_on ann s (inl refl))

-- Numbers for the runs
abbrev nat_num : Num ℕ
nat_num = record {
  zero_rank = 0;
  one = 1;
  eps = 100;
  add = λ a b. a + b;
  sub = λ a b. a - b;
  mul = λ a b. a * b;
  div = λ a b. a;
  of_size = λ n. n;
  gt = λ a b. ltb b a;
}

friends-print_example :
    (source_of (codes "a:b cc d") ≡ codes "a")
    × (friends [] (friends_part (codes "a:b cc d")) ≡ codes "b" ∷ codes "cc" ∷ [])
unfolding print_friends
friends-print_example =
    friends-print (codes "a") (codes "b" ∷ codes "cc" ∷ []) (codes "d") (omega arith, tt)
      ((omega arith, tt), (((omega arith, (omega arith, tt))), tt)) (omega arith, tt)

abbrev lines : List Bytes
lines = codes "a:b c " ∷ codes "b:a " ∷ []

build_matrix-Linked_example :
    (r : Ranks ℕ) × (build_matrix nat_num lines (new_ranks nat_num 1) ≡ some r) × Linked r.links
unfolding mentions mentions_in friends friends_part
build_matrix-Linked_example = build_matrix-Linked nat_num lines 1 (omega arith)

-- The users of two lines, with the ranks that build_matrix gives them
abbrev three_users : Ranks ℕ
three_users = record {
  total_doc_num = 3;
  links = record {
    first_rank = (ann, 1) ∷ (bob, 1) ∷ (codes "c", 1) ∷ [];
    matrix = (ann, (bob, 1) ∷ (codes "c", 1) ∷ []) ∷ (bob, (ann, 1) ∷ []) ∷ [];
  };
  alpha = 1;
  beta = 1;
  indegree = (ann, 2) ∷ (bob, 2) ∷ (codes "c", 1) ∷ [];
}

built : build_matrix nat_num lines (new_ranks nat_num 1) ≡ some three_users
unfolding build_matrix bytes_eq add_lines add_line count_up new_ranks add_friends add_link
built = refl

compute_user_rank-ranked_example :
    (ranks : Map ℕ) × (compute_user_rank nat_num 5 three_users ≡ some ranks)
    × (keys ranks ≡ keys three_users.links.first_rank)
    × ((u : UserIdent)
        → In u (keys ranks)
        → find u ranks
          ≡ some (
              ranked nat_num three_users
                (zeros_of nat_num three_users)
                (after nat_num 0 three_users).1
                u))
unfolding keys on_stack diff rounds round start zeros_of bytes_eq spread
compute_user_rank-ranked_example =
    compute_user_rank-ranked nat_num three_users 0 5
      ((refl, (refl, (refl, tt))), ((refl, (refl, tt)), tt)) (λ k h. absurd (omega arith)) refl
      (omega arith)
