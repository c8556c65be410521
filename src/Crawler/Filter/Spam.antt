-- ===== src/Crawler/Filter/Spam.antt =====
-- The filter on links against a description of spam (libspider/Crawler.cpp).
use crowdspider.Base.{
  lt→ltb, ◌∙◌, ltb→lt, ◌-◌, ap, ◌≢◌, All, ℕ, zero, suc, ◌+◌, ◌<◌, ◌≡◌, inl, inr, ◌↔◌, refl, true,
  some, List, [], ◌∷◌, arith, length, drop, get_elem?, ltb, Bytes, map, to_lower, Bool-cases,
  Option-cases,
}
use crowdspider.Base.Find.{
  Occurs-lt, Occurs, contains_sound, contains_complete, Occurs-drop, find, contains, find-some,
  find_first, find_total,
}
use crowdspider.Crawler.Filter.{
  url_len, again, repeat_rules, filter_str, repeats, contains_any, is_filter_link,
}

-- What makes a link spam: it is empty or too long, or its lower case form has some pattern of a
-- rule twice (`p` somewhere before `q`), or holds some text of the list.
pub data Spam (link : Bytes) : Type 0 where
  empty : link ≡ [] → Spam link
  long : url_len < length link → Spam link
  twice :
      (k i j : ℕ) (p q : Bytes)
      → get_elem? repeat_rules k ≡ some (p, q)
      → i < j
      → Occurs p (map to_lower link) i
      → Occurs q (map to_lower link) j
      → Spam link
  listed :
      (k i : ℕ) (f : Bytes)
      → get_elem? filter_str k ≡ some f
      → Occurs f (map to_lower link) i
      → Spam link

again_sound :
    (p q s : Bytes)
    → p ≢ []
    → again p q s ≡ true
    → (i : ℕ) × (j : ℕ) × (i < j) × Occurs p s i × Occurs q s j
unfolding again
again_sound p q s ne h = elim (Option-cases (find p s)) [
  | inl n ↦ absurd (ground arith)
  | inr (i, e) ↦
      let o = find-some p s i e in
      let (j, oj) = contains_sound q (drop (i + 1) s) (rw (e, again) at h) in
      let lt = Occurs-lt p s i ne o in
      (i, i + 1 + j, omega arith, o, (Occurs-drop q s (i + 1) j (omega arith)).0 oj)
]

again_complete :
    (p q s : Bytes) (i j : ℕ) → p ≢ [] → i < j → Occurs p s i → Occurs q s j → again p q s ≡ true
unfolding again
again_complete p q s i j ne h oi oj =
    let (k, e) = find_total p s i oi.1 oi.0 in
    let le = find_first p s k i oi.1 oi.0 e in
    let lt = Occurs-lt p s k ne (find-some p s k e) in
    let at_j : k + 1 + (j - (k + 1)) ≡ j = omega arith in
    rw (e, again)
      (contains_complete q (drop (k + 1) s) (j - (k + 1))
        ((Occurs-drop q s (k + 1) (j - (k + 1)) (omega arith)).1 (rw at_j oj)))

repeats_sound :
    (rs : List (Bytes × Bytes)) (s : Bytes)
    → All (λ r. r.0 ≢ []) rs
    → repeats rs s ≡ true
    → (k : ℕ) × (r : Bytes × Bytes) × (get_elem? rs k ≡ some r)
      × (i : ℕ) × (j : ℕ) × (i < j)
      × Occurs r.0 s i
      × Occurs r.1 s j
unfolding repeats
repeats_sound [] s ne h = absurd (ground arith)
repeats_sound (r ∷ rs) s ne h = elim (Bool-cases (again r.0 r.1 s)) [
  | inl e ↦ let (i, j, lt, oi, oj) = again_sound r.0 r.1 s ne.0 e in (0, r, refl, i, j, lt, oi, oj)
  | inr e ↦
      let (k, r', g, i, j, lt, oi, oj) = repeats_sound rs s ne.1 (rw (e, repeats) at h) in
      (suc k, r', g, i, j, lt, oi, oj)
]

repeats_complete :
    (rs : List (Bytes × Bytes)) (s : Bytes) (k i j : ℕ) (p q : Bytes)
    → All (λ r. r.0 ≢ []) rs
    → get_elem? rs k ≡ some (p, q)
    → i < j
    → Occurs p s i
    → Occurs q s j
    → repeats rs s ≡ true
unfolding repeats
repeats_complete [] s k i j p q ne g h oi oj = cc
repeats_complete (r ∷ rs) s zero i j p q ne g h oi oj =
    let same : r ≡ (p, q) = cc in
    let fst : r.0 ≡ p = ap (λ (t : Bytes × Bytes). t.0) same in
    let snd : r.1 ≡ q = ap (λ (t : Bytes × Bytes). t.1) same in
    let e : again p q s ≡ true = again_complete p q s i j (λ z. ne.0 (fst ∙ z)) h oi oj in
    rw (fst, snd, e) refl
repeats_complete (r ∷ rs) s (suc k) i j p q ne g h oi oj =
    ground (arith, repeats_complete rs s k i j p q ne.1 g h oi oj)

contains_any_sound :
    (fs : List Bytes) (s : Bytes)
    → contains_any fs s ≡ true
    → (k : ℕ) × (f : Bytes) × (get_elem? fs k ≡ some f) × (i : ℕ) × Occurs f s i
unfolding contains_any
contains_any_sound [] s h = absurd (ground arith)
contains_any_sound (f ∷ fs) s h = elim (Bool-cases (contains f s)) [
  | inl e ↦ let (i, o) = contains_sound f s e in (0, f, refl, i, o)
  | inr e ↦
      let (k, f', g, i, o) = contains_any_sound fs s (rw (e, contains_any) at h) in
      (suc k, f', g, i, o)
]

contains_any_complete :
    (fs : List Bytes) (s : Bytes) (k i : ℕ) (f : Bytes)
    → get_elem? fs k ≡ some f
    → Occurs f s i
    → contains_any fs s ≡ true
unfolding contains_any
contains_any_complete [] s k i f g o = cc
contains_any_complete (x ∷ fs) s zero i f g o = let e = contains_complete f s i o in ground arith
contains_any_complete (x ∷ fs) s (suc k) i f g o =
    ground (arith, contains_any_complete fs s k i f g o)

rules_nonempty : All (λ (r : Bytes × Bytes). r.0 ≢ []) repeat_rules
rules_nonempty =
    ((λ e. cc), ((λ e. cc), ((λ e. cc), ((λ e. cc), ((λ e. cc), ((λ e. cc), ((λ e. cc), tt)))))))

is_filter_link_sound : (c : ℕ) (s : Bytes) → is_filter_link (c ∷ s) ≡ true → Spam (c ∷ s)
unfolding is_filter_link
is_filter_link_sound c s h = elim (Bool-cases (ltb url_len (length (c ∷ s)))) [
  | inl e ↦ long (ltb→lt _ _ e)
  | inr e ↦ elim (Bool-cases (repeats repeat_rules (map to_lower (c ∷ s)))) [
    | inl r ↦
        let (k, (p, q), g, i, j, lt, oi, oj) =
          repeats_sound repeat_rules (map to_lower (c ∷ s)) rules_nonempty r in
        twice k i j p q g lt oi oj
    | inr r ↦
        let (k, f, g, i, o) =
          contains_any_sound filter_str (map to_lower (c ∷ s)) (rw (e, r) at h) in
        listed k i f g o
  ]
]

is_filter_link_complete : (link : Bytes) → Spam link → is_filter_link link ≡ true
unfolding is_filter_link
is_filter_link_complete [] spam = refl
is_filter_link_complete (c ∷ s) (empty e) = absurd (cc)
is_filter_link_complete (c ∷ s) (long h) = rw (lt→ltb _ _ h) refl
is_filter_link_complete (c ∷ s) (twice k i j p q g h oi oj) =
    elim (Bool-cases (ltb url_len (length (c ∷ s)))) [
      | inl e ↦ rw e refl
      | inr e ↦
          rw
            (
              e,
              repeats_complete repeat_rules (map to_lower (c ∷ s)) k i j p q rules_nonempty g h oi
                  oj,
            )
            refl
    ]
is_filter_link_complete (c ∷ s) (listed k i f g o) =
    elim (Bool-cases (ltb url_len (length (c ∷ s)))) [
      | inl e ↦ rw e refl
      | inr e ↦
          let any = contains_any_complete filter_str (map to_lower (c ∷ s)) k i f g o in
          elim (Bool-cases (repeats repeat_rules (map to_lower (c ∷ s)))) [
            | inl r ↦ rw (e, r) refl
            | inr r ↦ rw (e, r, any) refl
          ]
    ]

-- IsFilterLink answers true exactly on the links that are spam by the description above.
pub is_filter_link_iff_Spam : (link : Bytes) → (is_filter_link link ≡ true) ↔ Spam link
is_filter_link_iff_Spam [] = (λ h. empty refl, is_filter_link_complete [])
is_filter_link_iff_Spam (c ∷ s) = (is_filter_link_sound c s, is_filter_link_complete (c ∷ s))
