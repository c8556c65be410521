-- ===== src/UserRank/Build/Users.antt =====
-- The links that UserRank::buildMatrix (build/UserRank.cpp) makes are between users of firstMapRank.
use crowdspider.Base.{
  ◌≡◌, refl, ◌||◌, some, List, [], ◌∷◌, bytes_eq, bytes_eq_iff, arith, All, Bool-cases,
  Option-cases, inl, inr,
}
use crowdspider.IniFile.{precedes}
use crowdspider.UserRank.{
  UserIdent, Map, find, put_new, replace, put_absent, on_stack, Links, link_in, add_link,
}
use crowdspider.UserRank.Compute.Known.{keys, In, Known}

module _ {A : Type 0} where
  pub All-weaken : {P Q : A → Type 0} → ((x : A) → P x → Q x) → (xs : List A) → All P xs → All Q xs
  All-weaken f [] all = tt
  All-weaken f (x ∷ xs) (p, all) = (f x p, All-weaken f xs all)

module _ {V : Type 0} where
  In-find : (k : UserIdent) (v : V) (m : Map V) → find k m ≡ some v → In k (keys m)
  unfolding find keys on_stack
  In-find k v [] e = absurd (ground arith)
  In-find k v ((j, w) ∷ m) e = ground (arith, In-find k v m)

  on_stack-put_new :
      (u k : UserIdent) (v : V) (m : Map V)
      → on_stack u (keys (put_new k v m)) ≡ (bytes_eq k u || on_stack u (keys m))
  unfolding put_new keys on_stack
  on_stack-put_new u k v [] = refl
  on_stack-put_new u k v ((j, w) ∷ m) = ground (arith, on_stack-put_new u k v m)

  In-put_absent :
      (u k : UserIdent) (v : V) (m : Map V) → In u (keys m) → In u (keys (put_absent k v m))
  unfolding put_absent
  In-put_absent u k v m i = elim (Option-cases (find k m)) [
    | inl e ↦ rw (put_absent, e) (ground (arith, on_stack-put_new u k v m))
    | inr (w, e) ↦ rw (put_absent, e) i
  ]

  In-put_absent_same : (k : UserIdent) (v : V) (m : Map V) → In k (keys (put_absent k v m))
  unfolding put_absent
  In-put_absent_same k v m = elim (Option-cases (find k m)) [
    | inl e ↦ rw (put_absent, e) (ground (arith, bytes_eq_iff k k, on_stack-put_new k k v m))
    | inr (w, e) ↦ rw (put_absent, e) (In-find k w m e)
  ]

  pub All-put_new :
      (P : UserIdent × V → Type 0) (k : UserIdent) (v : V) (m : Map V)
      → P (k, v)
      → All P m
      → All P (put_new k v m)
  unfolding put_new
  All-put_new P k v [] p all = (p, tt)
  All-put_new P k v ((j, w) ∷ m) p (q, all) = elim (Bool-cases (precedes k j)) [
    | inl before ↦ rw (put_new, before) (p, (q, all))
    | inr after ↦ rw (put_new, after) (q, All-put_new P k v m p all)
  ]

  pub All-put_absent :
      (P : UserIdent × V → Type 0) (k : UserIdent) (v : V) (m : Map V)
      → P (k, v)
      → All P m
      → All P (put_absent k v m)
  unfolding put_absent
  All-put_absent P k v m p all = elim (Option-cases (find k m)) [
    | inl e ↦ rw (put_absent, e) (All-put_new P k v m p all)
    | inr (w, e) ↦ rw (put_absent, e) all
  ]

  pub All-replace :
      (P : UserIdent × V → Type 0) (k : UserIdent) (v : V) (m : Map V)
      → P (k, v)
      → All P m
      → All P (replace k v m)
  unfolding replace
  All-replace P k v [] p all = tt
  All-replace P k v ((j, w) ∷ m) p (q, all) = elim (Bool-cases (bytes_eq j k)) [
    | inl same ↦ rw (replace, same, (bytes_eq_iff j k).0 same) (p, all)
    | inr ne ↦ rw (replace, ne) (q, All-replace P k v m p all)
  ]

  pub All-find :
      (P : UserIdent × V → Type 0) (k : UserIdent) (v : V) (m : Map V)
      → All P m
      → find k m ≡ some v
      → P (k, v)
  unfolding find
  All-find P k v [] all e = absurd (ground arith)
  All-find P k v ((j, w) ∷ m) (q, all) e = elim (Bool-cases (bytes_eq j k)) [
    | inl same ↦
        let eq : j ≡ k = (bytes_eq_iff j k).0 same in
        let eq' : w ≡ v = ground arith in rw (← eq, ← eq') q
    | inr ne ↦ All-find P k v m all (rw ne at e)
  ]

module _ {V : Type 0} where
  abbrev Placed : List UserIdent → UserIdent × Map V → Type 0
  Placed ks e = In e.0 ks × All (λ (l : UserIdent × V). In l.0 ks) e.1

  Known-weaken :
      (ks ks' : List UserIdent)
      → ((u : UserIdent) → In u ks → In u ks')
      → (m : Map (Map V)) → Known ks m
      → Known ks' m
  Known-weaken ks ks' f m known =
      All-weaken (λ e p. (f e.0 p.0, All-weaken (λ l. f l.0) e.1 p.1)) m known

  Known-link_in :
      (ks : List UserIdent) (m : Map (Map V)) (src dst : UserIdent) (w : V)
      → Known ks m
      → In src ks
      → In dst ks
      → Known ks (link_in m src dst w)
  unfolding link_in
  Known-link_in ks m src dst w known i j = elim (Option-cases (find src m)) [
    | inl e ↦ rw (link_in, e) (All-put_new (Placed ks) src ((dst, w) ∷ []) m (i, (j, tt)) known)
    | inr (ls, e) ↦
        rw (link_in, e)
          (All-replace (Placed ks) src (put_absent dst w ls) m
            (
              i,
              All-put_absent (λ l. In l.0 ks) dst w ls j (All-find (Placed ks) src ls m known e).1,
            )
            known)
  ]

  -- The links are between users of firstMapRank.
  abbrev pub Linked : Links V → Type 0
  Linked l = Known (keys l.first_rank) l.matrix

  pub Linked-add_link :
      (z : V) (l : Links V) (src dst : UserIdent) (w : V)
      → Linked l
      → Linked (add_link z l src dst w)
  unfolding add_link
  Linked-add_link z l src dst w linked =
      let ranks1 = put_absent src z l.first_rank in
      let ranks = put_absent dst z ranks1 in
      let more : Known (keys ranks) l.matrix =
        Known-weaken (keys l.first_rank) (keys ranks)
          (λ u i. In-put_absent u dst z ranks1 (In-put_absent u src z l.first_rank i)) l.matrix
          linked in
      elim (Bool-cases (bytes_eq src dst)) [
        | inl same ↦ rw (add_link, same) more
        | inr ne ↦
            rw (add_link, ne)
              (Known-link_in (keys ranks) l.matrix src dst w more
                (In-put_absent src dst z ranks1 (In-put_absent_same src z l.first_rank))
                (In-put_absent_same dst z ranks1))
      ]
