-- ===== src/UserRank.antt =====
-- The links between users in build/UserRank.cpp: addLink and checkMatrixSelfLoop. A std::map is the list of its
-- entries in the order of their keys. The type of the weights and the weight 0.0 are parameters, since the code
-- below only passes them on.
use crowdspider.Base.{
  ℕ, zero, suc, ◌+◌, Bool, true, false, ◌||◌, Option, none, some, List, [], ◌∷◌, ◌++◌,
  if◌then◌else◌, ◌>>=◌, Bytes, bytes_eq, length,
}
use crowdspider.IniFile.{precedes}
pub mod Loops
pub mod Build
pub mod Compute

abbrev pub UserIdent : Type 0
UserIdent = Bytes

abbrev pub Map : Type 0 → Type 0
Map V = List (UserIdent × V)

module _ {V : Type 0} where
  -- map::find
  unfoldable pub find : UserIdent → Map V → Option V
  find k [] = none
  find k ((j, v) ∷ m) = if bytes_eq j k then some v else find k m

  -- A new entry of a map that has none under its key
  unfoldable pub put_new : UserIdent → V → Map V → Map V
  unfolding precedes
  put_new k v [] = (k, v) ∷ []
  put_new k v ((j, w) ∷ m) = if precedes k j then (k, v) ∷ (j, w) ∷ m else (j, w) ∷ put_new k v m

  -- The value under a key is replaced where the key is there.
  unfoldable pub replace : UserIdent → V → Map V → Map V
  replace k v [] = []
  replace k v ((j, w) ∷ m) = if bytes_eq j k then (j, v) ∷ m else (j, w) ∷ replace k v m

  unfoldable pub put_absent : UserIdent → V → Map V → Map V
  unfolding find put_new
  put_absent k v m = elim (find k m) [ none ↦ put_new k v m | some w ↦ m ]

-- firstMapRank and matrix
pub record Links (V : Type 0) : Type 0 where
  pub first_rank : Map V
  pub matrix : Map (Map V)

-- The two entries of matrix that addLink reads and makes
unfoldable pub link_in : {V : Type 0} → Map (Map V) → UserIdent → UserIdent → V → Map (Map V)
unfolding find put_new replace put_absent
link_in m src dst similarity = elim (find src m) [
  | none ↦ put_new src ((dst, similarity) ∷ []) m
  | some links ↦ replace src (put_absent dst similarity links) m
]

-- UserRank::addLink
unfoldable pub add_link : {V : Type 0} → V → Links V → UserIdent → UserIdent → V → Links V
unfolding put_absent link_in
add_link zero_rank l src dst similarity =
    let ranks = put_absent dst zero_rank (put_absent src zero_rank l.first_rank) in
    if bytes_eq src dst
    then record l { first_rank = ranks }
    else record l { first_rank = ranks; matrix = link_in l.matrix src dst similarity }

-- The search of ustack
unfoldable pub on_stack : UserIdent → List UserIdent → Bool
on_stack x [] = false
on_stack x (y ∷ ys) = bytes_eq y x || on_stack x ys

module _ {V : Type 0} where
  -- The only link of a user who has just one
  unfoldable pub only : Map V → Option UserIdent
  only [] = none
  only ((k, v) ∷ []) = some k
  only (_ ∷ _ ∷ _) = none

  unfoldable pub next_of : Map (Map V) → UserIdent → Option UserIdent
  unfolding find only
  next_of m x = find x m >>= only

  -- The users with one link, in the order of the map
  unfoldable pub singles : Map (Map V) → List UserIdent
  unfolding only
  singles [] = []
  singles ((k, links) ∷ m) = elim (only links) [ none ↦ singles m | some y ↦ k ∷ singles m ]

  -- The inner loop of checkMatrixSelfLoop from a user: to a user without exactly one link, or to one whose link
  -- leads back to the way, which is cleared. `none` is a loop that goes on.
  unfoldable pub walk : ℕ → Map (Map V) → List UserIdent → UserIdent → Option (Map (Map V))
  walk zero m stack cur = none
  walk (suc fuel) m stack cur = elim (next_of m cur) [
    | none ↦ some m
    | some next ↦
        let rest = walk fuel m (stack ++ cur ∷ []) next in
        if on_stack next stack then some (replace cur [] m) else rest
  ]

  unfoldable pub walk_all : ℕ → List UserIdent → Map (Map V) → Option (Map (Map V))
  walk_all fuel [] m = some m
  walk_all fuel (x ∷ xs) m = do m1 ← walk fuel m [] x; walk_all fuel xs m1

  -- The last loop erases the empty entries, and goes on from the erased one, which is a fault.
  unfoldable pub erase_empty : Map (Map V) → Option (Map (Map V))
  erase_empty [] = some []
  erase_empty ((k, []) ∷ m) = none
  erase_empty ((k, l ∷ ls) ∷ m) = do m1 ← erase_empty m; some ((k, l ∷ ls) ∷ m1)

  -- UserRank::checkMatrixSelfLoop, its loops over the links and the whole
  unfoldable pub cut_loops : Map (Map V) → Option (Map (Map V))
  cut_loops m = walk_all (suc (length m)) (singles m) m

  unfoldable pub check_matrix_self_loop : Map (Map V) → Option (Map (Map V))
  check_matrix_self_loop m = cut_loops m >>= erase_empty
