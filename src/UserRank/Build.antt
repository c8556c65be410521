-- ===== src/UserRank/Build.antt =====
-- UserRank::buildMatrix (build/UserRank.cpp), on the lines of the file of links. The numbers are those of Num.
use crowdspider.Base.{
  ℕ, zero, suc, ◌+◌, ◌^◌, ◌%◌, Bool, true, false, Option, none, some, List, [], ◌∷◌, ◌++◌, ◌==◌,
  ltb, if◌then◌else◌, ◌>>=◌, Bytes, length,
}
use crowdspider.UserRank.{
  UserIdent, Map, find, put_new, replace, put_absent, Links, link_in, add_link,
}
pub mod Lines
pub mod Users
pub mod Whole

-- What the code uses of double
pub record Num (V : Type 0) : Type 0 where
  pub zero_rank : V
  pub one : V
  pub eps : V
  pub add : V → V → V
  pub sub : V → V → V
  pub mul : V → V → V
  pub div : V → V → V
  pub of_size : ℕ → V
  pub gt : V → V → Bool

-- line.substr(0, pos1), the whole line where it has no ':'
unfoldable pub source_of : Bytes → Bytes
source_of [] = []
source_of (c ∷ s) = let rest = source_of s in if c == 58 then [] else c ∷ rest

-- What comes behind the first ':'
unfoldable pub behind_colon : Bytes → Option Bytes
behind_colon [] = none
behind_colon (c ∷ s) = let rest = behind_colon s in if c == 58 then some s else rest

-- Where the search for spaces starts: pos1 is -1 in a line without ':'.
unfoldable pub friends_part : Bytes → Bytes
unfolding behind_colon
friends_part line = elim (behind_colon line) [ none ↦ line | some rest ↦ rest ]

-- The texts that a space ends, with what has been read of the next one
unfoldable pub friends : Bytes → Bytes → List UserIdent
friends word [] = []
friends word (c ∷ s) =
    let next = friends [] s in
    let same = friends (word ++ c ∷ []) s in if c == 32 then word ∷ next else same

-- The counts are of type int; `none` is an overflow.
unfoldable pub count_up : UserIdent → Map ℕ → Option (Map ℕ)
unfolding find put_new replace
count_up k m = elim (find k m) [
  | none ↦ some (put_new k 1 m)
  | some n ↦ if ltb (n + 1) (2 ^ 31) then some (replace k (n + 1) m) else none
]

unfoldable pub init_map_rank : {V : Type 0} → Map V → V → Map V
init_map_rank [] val = []
init_map_rank ((k, v) ∷ m) val = (k, val) ∷ init_map_rank m val

-- The members of UserRank
pub record Ranks (V : Type 0) : Type 0 where
  pub total_doc_num : ℕ
  pub links : Links V
  pub alpha : V
  pub beta : V
  pub indegree : Map ℕ

module _ {V : Type 0} (num : Num V) where
  unfoldable pub add_friends : UserIdent → List UserIdent → Ranks V → Option (Ranks V)
  add_friends src [] r = some r
  add_friends src (dst ∷ ds) r = do
    indegree ← count_up dst r.indegree
    add_friends src ds
        (record r { indegree = indegree; links = add_link num.zero_rank r.links src dst num.one })

  unfoldable pub add_line : Bytes → Ranks V → Option (Ranks V)
  unfolding source_of friends_part friends
  add_line [] r = some r
  add_line (c ∷ s) r = do
    indegree ← count_up (source_of (c ∷ s)) r.indegree
    add_friends (source_of (c ∷ s)) (friends [] (friends_part (c ∷ s)))
        (record r { indegree = indegree })

  unfoldable pub add_lines : List Bytes → Ranks V → Option (Ranks V)
  add_lines [] r = some r
  add_lines (l ∷ ls) r = do r1 ← add_line l r; add_lines ls r1

  unfoldable pub build_matrix : List Bytes → Ranks V → Option (Ranks V)
  unfolding init_map_rank
  build_matrix lines r = do
    r1 ← add_lines lines r
    let n = length r1.links.first_rank % 2 ^ 32
    let beta = num.div num.one (num.of_size n)
    some (record r1 {
      total_doc_num = n;
      beta = beta;
      links = record (r1.links) { first_rank = init_map_rank (r1.links.first_rank) beta };
    })

  -- UserRank::UserRank
  unfoldable pub new_ranks : V → Ranks V
  new_ranks d = record {
    total_doc_num = 0;
    links = record { first_rank = []; matrix = [] };
    alpha = d;
    beta = num.zero_rank;
    indegree = [];
  }
