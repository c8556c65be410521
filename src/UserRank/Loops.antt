-- ===== src/UserRank/Loops.antt =====
-- checkMatrixSelfLoop (build/UserRank.cpp) ends, and leaves no closed chain of users with one link each.
use crowdspider.Base.{
  ℕ, zero, suc, ◌+◌, ◌<◌, ◌≤◌, ◌≡◌, ◌⊎◌, refl, ◌∙◌, inl, inr, Bool, true, false, ◌||◌, Option, none,
  some, List, [], ◌∷◌, ◌++◌, if◌then◌else◌, bytes_eq, bytes_eq_iff, bytes_eq_refl, length, arith,
  Bool-cases, Option-cases, All,
}
use crowdspider.UserRank.{
  UserIdent, Map, find, replace, only, next_of, singles, on_stack, walk, walk_all, cut_loops,
  erase_empty, check_matrix_self_loop,
}

on_stack-append :
    (x : UserIdent) (xs : List UserIdent) (c : UserIdent)
    → on_stack x (xs ++ c ∷ []) ≡ (on_stack x xs || bytes_eq c x)
unfolding on_stack
on_stack-append x [] c = ground arith
on_stack-append x (y ∷ xs) c = ground (arith, on_stack-append x xs c)

if_none {ℓ} : {A : Type ℓ} (b : Bool) {o : Option A} → o ≡ none → (if b then none else o) ≡ none
if_none true e = refl
if_none false e = e

module _ {V : Type 0} where
  -- From a user the chain of only links comes to a user who has not exactly one.
  pub data Ends (m : Map (Map V)) : UserIdent → Type 0 where
    stops : {x : UserIdent} → next_of m x ≡ none → Ends m x
    goes : {x y : UserIdent} → next_of m x ≡ some y → Ends m y → Ends m x

  find-replace :
      (m : Map (Map V)) (c x : UserIdent)
      → next_of (replace c [] m) x ≡ (if bytes_eq c x then none else next_of m x)
  unfolding next_of find replace only
  find-replace [] c x = ground arith
  find-replace ((k, ls) ∷ m) c x =
      ground (arith, bytes_eq_iff k c, bytes_eq_iff k x, bytes_eq_iff c x, find-replace m c x)

  -- Clearing a user shortens chains at most.
  Ends-replace :
      {m : Map (Map V)} {x : UserIdent} (c : UserIdent) → Ends m x → Ends (replace c [] m) x
  Ends-replace {m} {x} c (stops e) = stops (find-replace m c x ∙ if_none (bytes_eq c x) e)
  Ends-replace {m} {x} c (goes {y} e s) = elim (Bool-cases (bytes_eq c x)) [
    | inl same ↦ stops (find-replace m c x ∙ rw same refl)
    | inr ne ↦ goes (find-replace m c x ∙ rw ne e) (Ends-replace c s)
  ]

  -- How many entries have keys that are not on the stack
  off : Map (Map V) → List UserIdent → ℕ
  off [] stack = 0
  off ((k, ls) ∷ m) stack = (if on_stack k stack then 0 else 1) + off m stack

  off-le :
      (m : Map (Map V)) (stack : List UserIdent) (c : UserIdent)
      → off m (stack ++ c ∷ []) ≤ off m stack
  unfolding off
  off-le [] stack c = omega arith
  off-le ((k, ls) ∷ m) stack c = ground (arith, on_stack-append k stack c, off-le m stack c)

  -- Pushing a user who is in the map and not on the stack makes them fewer.
  off-lt :
      (m : Map (Map V)) (stack : List UserIdent) (c y : UserIdent)
      → next_of m c ≡ some y
      → on_stack c stack ≡ false
      → off m (stack ++ c ∷ []) < off m stack
  unfolding off next_of find
  off-lt [] stack c y e out = ground arith
  off-lt ((k, ls) ∷ m) stack c y e out = ground (
    arith,
    bytes_eq_iff k c,
    bytes_eq_refl c,
    on_stack-append k stack c,
    off-le m stack c,
    off-lt m stack c y,
  )

  off-le-length : (m : Map (Map V)) (stack : List UserIdent) → off m stack ≤ length m
  unfolding off
  off-le-length [] stack = omega arith
  off-le-length ((k, ls) ∷ m) stack = ground (arith, off-le-length m stack)

  length-replace : (m : Map (Map V)) (c : UserIdent) → length (replace c [] m) ≡ length m
  unfolding replace
  length-replace [] c = refl
  length-replace ((k, ls) ∷ m) c = ground (arith, length-replace m c)

  -- The user is not on the stack, or the next one is.
  abbrev Fresh : Map (Map V) → List UserIdent → UserIdent → Type 0
  Fresh m stack x =
      (on_stack x stack ≡ false)
      ⊎ ((y : UserIdent) × (next_of m x ≡ some y) × (on_stack y stack ≡ true))

  not_Fresh :
      (m : Map (Map V)) (stack : List UserIdent) (x y : UserIdent)
      → Fresh m stack x
      → next_of m x ≡ some y
      → on_stack y stack ≡ false
      → on_stack x stack ≡ false
  not_Fresh m stack x y (inl a) e out = a
  not_Fresh m stack x y (inr (y', e', on)) e out = ground arith

  find-kept :
      (m : Map (Map V)) (x c : UserIdent) → find c m ≡ some [] → find c (replace x [] m) ≡ some []
  unfolding find replace
  find-kept [] x c e = ground arith
  find-kept ((k, ls) ∷ m) x c e =
      ground (arith, bytes_eq_iff k c, bytes_eq_iff k x, bytes_eq_iff x c, find-kept m x c)

  find-cleared :
      (m : Map (Map V)) (x y : UserIdent) → next_of m x ≡ some y → find x (replace x [] m) ≡ some []
  unfolding next_of find replace
  find-cleared [] x y e = ground arith
  find-cleared ((k, ls) ∷ m) x y e = ground (arith, find-cleared m x y)

  -- Some user's entry is empty.
  abbrev pub Hole : Map (Map V) → Type 0
  Hole m = (c : UserIdent) × (find c m ≡ some [])

  Hole-replace : (m : Map (Map V)) (x : UserIdent) → Hole m → Hole (replace x [] m)
  Hole-replace m x (c, e) = (c, find-kept m x c e)

  -- What a walk from a user leaves.
  record Walked (m m1 : Map (Map V)) (x : UserIdent) : Type 0 where
    ends : Ends m1 x
    keeps : (z : UserIdent) → Ends m z → Ends m1 z
    same_length : length m1 ≡ length m
    holes : (Hole m → Hole m1) × ((m1 ≡ m) ⊎ Hole m1)
    back : (z y : UserIdent) → next_of m z ≡ some y → Ends m1 y → Ends m1 z

  cleared-Walked :
      (m : Map (Map V)) (x y : UserIdent) → next_of m x ≡ some y → Walked m (replace x [] m) x
  cleared-Walked m x y e = record {
    ends = stops (find-replace m x x ∙ rw (bytes_eq_refl x) refl);
    keeps = λ z e. Ends-replace x e;
    same_length = length-replace m x;
    holes = (Hole-replace m x, inr (x, find-cleared m x y e));
    back = λ z y e s. elim (Bool-cases (bytes_eq x z)) [
      | inl same ↦ stops (find-replace m x z ∙ rw same refl)
      | inr ne ↦ goes (find-replace m x z ∙ rw ne e) s
    ];
  }

  Fresh-push :
      (m : Map (Map V)) (stack : List UserIdent) (x y : UserIdent)
      → next_of m x ≡ some y
      → on_stack y stack ≡ false
      → Fresh m (stack ++ x ∷ []) y
  Fresh-push m stack x y e out = elim (Bool-cases (bytes_eq x y)) [
    | inr ne ↦ inl (rw (on_stack-append y stack x, out, ne) refl)
    | inl same ↦
        let eq : x ≡ y = (bytes_eq_iff x y).0 same in
        inr (y, rw eq at e, rw (on_stack-append y stack x, out, same) refl)
  ]

  walk-Walked :
      (fuel : ℕ) (m : Map (Map V)) (stack : List UserIdent) (x : UserIdent)
      → off m stack < fuel
      → Fresh m stack x
      → (m1 : Map (Map V)) × (walk fuel m stack x ≡ some m1) × Walked m m1 x
  unfolding walk
  walk-Walked zero m stack x lt fresh = absurd (omega arith)
  walk-Walked (suc fuel) m stack x lt fresh = elim (Option-cases (next_of m x)) [
    | inl e ↦ (
      m,
      rw (e, walk) refl,
      record {
        ends = stops e;
        keeps = λ z s. s;
        same_length = refl;
        holes = ((λ h. h), inl refl);
        back = λ z y e s. goes e s;
      },
    )
    | inr (y, e) ↦ elim (Bool-cases (on_stack y stack)) [
      | inl on ↦ (replace x [] m, rw (e, walk, on) refl, cleared-Walked m x y e)
      | inr out ↦
          let first : on_stack x stack ≡ false = not_Fresh m stack x y fresh e out in
          let (m1, a, w) =
            walk-Walked fuel m (stack ++ x ∷ []) y (omega (arith, off-lt m stack x y e first))
              (Fresh-push m stack x y e out) in
          (
            m1,
            rw (e, walk, out) a,
            record {
              ends = w.back x y e w.ends;
              keeps = w.keeps;
              same_length = w.same_length;
              holes = w.holes;
              back = w.back;
            },
          )
    ]
  ]

  same_or_Hole :
      (m m1 m2 : Map (Map V)) → (m2 ≡ m1) ⊎ Hole m2 → (m1 ≡ m) ⊎ Hole m1 → (m2 ≡ m) ⊎ Hole m2
  same_or_Hole m m1 m2 (inl e) (inl e') = inl (e ∙ e')
  same_or_Hole m m1 m2 (inl e) (inr h) = inr (rw e h)
  same_or_Hole m m1 m2 (inr h) o = inr h

  walk_all-Ends :
      (fuel : ℕ) (xs : List UserIdent) (m : Map (Map V))
      → length m < fuel
      → (m1 : Map (Map V)) × (walk_all fuel xs m ≡ some m1)
        × All (Ends m1) xs
        × ((z : UserIdent) → Ends m z → Ends m1 z)
        × (Hole m → Hole m1)
        × ((m1 ≡ m) ⊎ Hole m1)
  unfolding walk_all on_stack
  walk_all-Ends fuel [] m lt = (m, refl, tt, (λ z s. s), (λ h. h), inl refl)
  walk_all-Ends fuel (x ∷ xs) m lt =
      let (m1, a, w) = walk-Walked fuel m [] x (omega (arith, off-le-length m [])) (inl refl) in
      let (m2, b, all, keeps, holes, fixed) =
        walk_all-Ends fuel xs m1 (omega (arith, w.same_length)) in
      (
        m2,
        rw a b,
        (keeps x w.ends, all),
        (λ z s. keeps z (w.keeps z s)),
        (λ h. holes (w.holes.0 h)),
        same_or_Hole m m1 m2 fixed w.holes.1,
      )

  -- A user with one link is among the singles.
  singles-All :
      (P : UserIdent → Type 0) (m : Map (Map V)) (x y : UserIdent)
      → All P (singles m)
      → next_of m x ≡ some y
      → P x
  unfolding singles next_of find
  singles-All P [] x y all e = absurd (ground arith)
  singles-All P ((k, ls) ∷ m) x y all e = elim (Bool-cases (bytes_eq k x)) [
    | inl same ↦
        let eq : k ≡ x = (bytes_eq_iff k x).0 same in
        let head : only ls ≡ some y = rw same at e in rw (← eq) ((rw (head, singles) at all).0)
    | inr ne ↦
        let e' = rw ne at e in
        elim (Option-cases (only ls)) [
          | inl n ↦ singles-All P m x y (rw (n, singles) at all) e'
          | inr (z, n) ↦ singles-All P m x y ((rw (n, singles) at all).1) e'
        ]
  ]

  -- The loops over the links end, and afterwards every chain of only links does.
  pub cut_loops-Ends :
      (m : Map (Map V))
      → (m1 : Map (Map V)) × (cut_loops m ≡ some m1)
        × ((x : UserIdent) → Ends m1 x)
        × ((m1 ≡ m) ⊎ Hole m1)
  unfolding cut_loops
  cut_loops-Ends m =
      let (m1, a, all, keeps, holes, fixed) =
        walk_all-Ends (suc (length m)) (singles m) m (omega arith) in
      (
        m1,
        a,
        (λ x. elim (Option-cases (next_of m x)) [
          | inl n ↦ keeps x (stops n)
          | inr (y, e) ↦ singles-All (Ends m1) m x y all e
        ]),
        fixed,
      )

  -- A map with an empty entry makes the last loop fault.
  erase_empty_fault : (m : Map (Map V)) (x : UserIdent) → find x m ≡ some [] → erase_empty m ≡ none
  unfolding erase_empty find
  erase_empty_fault [] x e = ground arith
  erase_empty_fault ((k, []) ∷ m) x e = refl
  erase_empty_fault ((k, l ∷ ls) ∷ m) x e = ground (arith, erase_empty_fault m x)

  -- Where a chain of only links is closed, checkMatrixSelfLoop goes on from an entry that it has erased.
  pub check_matrix_self_loop_fault :
      (m : Map (Map V)) (x : UserIdent) → ¬ Ends m x → check_matrix_self_loop m ≡ none
  unfolding check_matrix_self_loop
  check_matrix_self_loop_fault m x closed =
      let (m1, a, ends, fixed) = cut_loops-Ends m in
      elim fixed [
        | inl same ↦ absurd (closed (rw same at (ends x)))
        | inr (c, hole) ↦ rw a (erase_empty_fault m1 c hole)
      ]
