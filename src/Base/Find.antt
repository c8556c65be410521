-- ===== src/Base/Find.antt =====
-- std::string's searches.
use crowdspider.Base.{
  ◌<◌, ◌≢◌, refl, sym, ◌∙◌, length-drop, ap, ◌+◌, ◌↔◌, List, Bool-cases, Option-cases, zero, inl,
  inr, ◌≤◌, ℕ, suc, ◌≤◌, ◌≡◌, Bool, true, false, ◌&&◌, Option, none, some, [], ◌∷◌, arith, length,
  drop, Bytes, ◌==◌, if◌then◌else◌,
}

-- `pat` stands at the head of `s`.
unfoldable pub is_prefix : Bytes → Bytes → Bool
is_prefix [] s = true
is_prefix (p ∷ pat) [] = false
is_prefix (p ∷ pat) (c ∷ s) = p == c && is_prefix pat s

-- The index of the first occurrence; `none` is `npos`.
unfoldable pub find : Bytes → Bytes → Option ℕ
find pat [] = if is_prefix pat [] then some 0 else none
find pat (c ∷ s) =
    let later = find pat s in
    if is_prefix pat (c ∷ s) then some 0 else elim later [ none ↦ none | some i ↦ some (suc i) ]

abbrev pub found : Option ℕ → Bool
found none = false
found (some i) = true

unfoldable pub contains : Bytes → Bytes → Bool
contains pat s = found (find pat s)

-- `rfind` and `find_last_of` of one character
unfoldable pub find_last : ℕ → Bytes → Option ℕ
find_last c [] = none
find_last c (x ∷ s) = elim (find_last c s) [
  | some i ↦ some (suc i)
  | none ↦ if x == c then some 0 else none
]

-- An index that `find` returns is inside the text, and the pattern stands there.
pub find-some :
    (pat s : Bytes) (i : ℕ)
    → find pat s ≡ some i
    → (i ≤ length s) × (is_prefix pat (drop i s) ≡ true)
unfolding find
find-some pat [] i e = ground arith
find-some pat (c ∷ s) i e = elim (Bool-cases (is_prefix pat (c ∷ s))) [
  | inl h ↦ ground arith
  | inr h ↦ elim (Option-cases (find pat s)) [
    | inl n ↦ ground arith
    | inr (j, q) ↦ ground (arith, find-some pat s j q)
  ]
]

-- No occurrence stands before the index that `find` returns.
pub find_first :
    (pat s : Bytes) (i j : ℕ)
    → is_prefix pat (drop j s) ≡ true
    → j ≤ length s
    → find pat s ≡ some i
    → i ≤ j
unfolding find
find_first pat [] i zero p h e = ground arith
find_first pat [] i (suc j) p h e = absurd (omega arith)
find_first pat (c ∷ s) i zero p h e = ground arith
find_first pat (c ∷ s) i (suc j) p h e = elim (Option-cases (find pat s)) [
  | inl n ↦ ground arith
  | inr (k, q) ↦ ground (arith, find_first pat s k j p (omega arith) q)
]

-- Where the pattern stands somewhere, `find` returns an index.
pub find_total :
    (pat s : Bytes) (j : ℕ)
    → is_prefix pat (drop j s) ≡ true
    → j ≤ length s
    → (i : ℕ) × (find pat s ≡ some i)
unfolding find
find_total pat [] zero p h = (0, rw p)
find_total pat [] (suc j) p h = absurd (omega arith)
find_total pat (c ∷ s) zero p h = (0, rw p)
find_total pat (c ∷ s) (suc j) p h = elim (Bool-cases (is_prefix pat (c ∷ s))) [
  | inl q ↦ (0, rw q)
  | inr q ↦ let r = find_total pat s j p (omega arith) in (suc r.0, rw (q, r.1))
]

-- The pattern stands in the text at this index.
abbrev pub Occurs : Bytes → Bytes → ℕ → Type 0
Occurs p s i = (i ≤ length s) × (is_prefix p (drop i s) ≡ true)

pub contains_sound : (p s : Bytes) → contains p s ≡ true → (i : ℕ) × Occurs p s i
unfolding contains
contains_sound p s h = elim (Option-cases (find p s)) [
  | inl n ↦ absurd (ground arith)
  | inr (i, e) ↦ (i, find-some p s i e)
]

pub contains_complete : (p s : Bytes) (i : ℕ) → Occurs p s i → contains p s ≡ true
unfolding contains
contains_complete p s i o = let r = find_total p s i o.1 o.0 in rw (r.1) refl

drop_nil {ℓ} : {A : Type ℓ} (n : ℕ) → drop {A = A} n [] ≡ []
drop_nil zero = refl
drop_nil (suc n) = refl

drop-drop {ℓ} : {A : Type ℓ} (a b : ℕ) (s : List A) → drop a (drop b s) ≡ drop (b + a) s
drop-drop a zero s = ap (λ k. drop k s) {x = a} {y = 0 + a} (omega arith)
drop-drop a (suc b) [] = drop_nil a ∙ sym (drop_nil (suc b + a))
drop-drop a (suc b) (x ∷ s) =
    drop-drop a b s ∙ ap (λ k. drop k (x ∷ s)) {x = suc (b + a)} {y = suc b + a} (omega arith)

-- An occurrence after a cut is one further on in the whole text.
pub Occurs-drop :
    (q s : Bytes) (n j : ℕ) → n ≤ length s → Occurs q (drop n s) j ↔ Occurs q s (n + j)
Occurs-drop q s n j h = (
  λ o. (omega (arith, length-drop n s, o.0), rw (← drop-drop j n s) o.1),
  λ o. (omega (arith, length-drop n s, o.0), rw (drop-drop j n s) o.1),
)

-- A pattern that is not empty occurs inside the text.
pub Occurs-lt : (p s : Bytes) (i : ℕ) → p ≢ [] → Occurs p s i → i < length s
unfolding is_prefix
Occurs-lt [] s i ne o = absurd (ne refl)
Occurs-lt (c ∷ p) [] zero ne o = absurd (ground arith)
Occurs-lt (c ∷ p) [] (suc i) ne o = absurd (omega arith)
Occurs-lt (c ∷ p) (x ∷ s) zero ne o = omega arith
Occurs-lt (c ∷ p) (x ∷ s) (suc i) ne o =
    let ih : i < length s = Occurs-lt (c ∷ p) s i ne (omega arith, o.1) in omega arith
