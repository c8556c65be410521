-- ===== src/UserRank/Compute/Known.antt =====
-- Maps that have the users they are asked for, in build/UserRank.cpp: there operator[] makes no entries.
use crowdspider.Base.{
  ◌≡◌, refl, ap, true, some, List, [], ◌∷◌, if◌then◌else◌, bytes_eq, bytes_eq_iff, arith, All,
  Bool-cases, inl, inr,
}
use crowdspider.UserRank.{UserIdent, Map, find, replace, put_absent, on_stack}
use crowdspider.UserRank.Build.{Num, init_map_rank}
use crowdspider.UserRank.Compute.{value, grow, raise}

unfoldable pub keys : {A : Type 0} → Map A → List UserIdent
keys [] = []
keys ((k, v) ∷ m) = k ∷ keys m

-- A user is among these.
abbrev pub In : UserIdent → List UserIdent → Type 0
In k ks = on_stack k ks ≡ true

-- The links of each user, and the users, are among these.
abbrev pub Known : {V : Type 0} → List UserIdent → Map (Map V) → Type 0
Known {V} ks m =
    All (λ (e : UserIdent × Map V). In e.0 ks × All (λ (l : UserIdent × V). In l.0 ks) e.1) m

module _ {V : Type 0} where
  pub keys-replace : (k : UserIdent) (v : V) (m : Map V) → keys (replace k v m) ≡ keys m
  unfolding keys replace
  keys-replace k v [] = refl
  keys-replace k v ((j, w) ∷ m) = ground (arith, keys-replace k v m)

  pub keys-init_map_rank : (m : Map V) (v : V) → keys (init_map_rank m v) ≡ keys m
  unfolding keys init_map_rank
  keys-init_map_rank [] v = refl
  keys-init_map_rank ((j, w) ∷ m) v = ap (◌∷◌ j) (keys-init_map_rank m v)

  pub find-In : (k : UserIdent) (m : Map V) → In k (keys m) → (v : V) × (find k m ≡ some v)
  unfolding find keys on_stack
  find-In k [] i = absurd (ground arith)
  find-In k ((j, w) ∷ m) i = elim (Bool-cases (bytes_eq j k)) [
    | inl same ↦ (w, rw same refl)
    | inr ne ↦ let (v, e) = find-In k m (rw ne at i) in (v, rw ne e)
  ]

  pub put_absent-In : (k : UserIdent) (v : V) (m : Map V) → In k (keys m) → put_absent k v m ≡ m
  unfolding put_absent
  put_absent-In k v m i = let (w, e) = find-In k m i in rw (put_absent, e) refl

  pub find-init_map_rank :
      (k : UserIdent) (v : V) (m : Map V) → In k (keys m) → find k (init_map_rank m v) ≡ some v
  unfolding find keys on_stack init_map_rank
  find-init_map_rank k v [] i = absurd (ground arith)
  find-init_map_rank k v ((j, w) ∷ m) i = ground (arith, find-init_map_rank k v m)

  find-replace :
      (k u : UserIdent) (w : V) (m : Map V)
      → In k (keys m)
      → find u (replace k w m) ≡ (if bytes_eq k u then some w else find u m)
  unfolding find keys on_stack replace
  find-replace k u w [] i = absurd (ground arith)
  find-replace k u w ((j, x) ∷ m) i =
      ground (arith, bytes_eq_iff j k, bytes_eq_iff j u, bytes_eq_iff k u, find-replace k u w m)

module _ {V : Type 0} (num : Num V) where
  pub find-raise :
      (u : UserIdent) (v c : V) (m : Map V)
      → find u m ≡ some c
      → find u (raise num v m) ≡ some (num.add c v)
  unfolding find raise
  find-raise u v c [] e = ground arith
  find-raise u v c ((j, x) ∷ m) e = ground (arith, find-raise u v c m)

  pub keys-raise : (v : V) (m : Map V) → keys (raise num v m) ≡ keys m
  unfolding keys raise
  keys-raise v [] = refl
  keys-raise v ((j, w) ∷ m) = ap (◌∷◌ j) (keys-raise v m)

  pub keys-grow :
      (k : UserIdent) (v : V) (m : Map V) → In k (keys m) → keys (grow num k v m) ≡ keys m
  unfolding grow
  keys-grow k v m i =
      rw (grow, put_absent-In k num.zero_rank m i) (keys-replace k (num.add (value num k m) v) m)

  pub find-grow :
      (k u : UserIdent) (v c : V) (m : Map V)
      → In k (keys m)
      → find u m ≡ some c
      → find u (grow num k v m) ≡ some (if bytes_eq k u then num.add c v else c)
  unfolding grow value
  find-grow k u v c m i e = elim (Bool-cases (bytes_eq k u)) [
    | inl same ↦
        let eq : k ≡ u = (bytes_eq_iff k u).0 same in
        let at_k : find k m ≡ some c = rw eq e in
        rw
          (
            grow,
            put_absent-In k num.zero_rank m i,
            find-replace k u (num.add (value num k m) v) m i,
            same,
            value,
            at_k,
          )
          refl
    | inr ne ↦
        rw
          (
            grow,
            put_absent-In k num.zero_rank m i,
            find-replace k u (num.add (value num k m) v) m i,
            ne,
          )
          e
  ]
