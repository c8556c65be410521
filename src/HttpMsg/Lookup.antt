-- ===== src/HttpMsg/Lookup.antt =====
-- Headers by key: what GetHdr finds after SetHdr (libspider/HttpMsg.cpp).
use crowdspider.Base.{
  ◌||◌, Bool, ◌+◌, bytes_eq_iff, ◌≤◌, ◌∙◌, bytes_eq, ◌⊎◌, sym, length, false, ◌≡◌, refl, inl, inr,
  true, List, [], ◌∷◌, arith, Bool-cases, if◌then◌else◌, Bytes, case_eq, case_eq_iff,
}
use crowdspider.HttpMsg.{
  set_hdr_from, put_hdr_exact, get_hdr_count, HttpHdr, HttpMsg, hdr_val, put_hdr, get_hdr, set_hdr,
}

-- Keys equal up to case can stand for one another.
case_eq_cong : (a b c : Bytes) → case_eq a b ≡ true → case_eq c a ≡ case_eq c b
unfolding case_eq
case_eq_cong a b c h = rw ((case_eq_iff a b).0 h) refl

case_eq_sym : (a b : Bytes) → case_eq a b ≡ case_eq b a
case_eq_sym a b = ground (arith, case_eq_iff a b, case_eq_iff b a)

hdr_val-put_hdr :
    (key j val : Bytes) (hs : List HttpHdr)
    → hdr_val j (put_hdr key val hs) ≡ (if case_eq j key then val else hdr_val j hs)
unfolding hdr_val put_hdr
hdr_val-put_hdr key j val [] = refl
hdr_val-put_hdr key j val (h ∷ hs) = elim (Bool-cases (case_eq key h.key)) [
  | inl e ↦ rw (e, case_eq_cong key h.key j e) (ground arith)
  | inr e ↦ ground (
    arith,
    hdr_val-put_hdr key j val hs,
    case_eq_cong j h.key key,
    case_eq_cong j key h.key,
    case_eq_sym j key,
    case_eq_sym h.key j,
    case_eq_sym key h.key,
  )
]

-- Reading a header after writing one: the written value under every key that equals the written
-- one up to case, and the old value under every other key.
pub get_hdr-set_hdr :
    (m : HttpMsg) (key j val : Bytes)
    → get_hdr (set_hdr m key val) j ≡ (if case_eq j key then val else get_hdr m j)
unfolding get_hdr set_hdr
get_hdr-set_hdr m key j val = hdr_val-put_hdr key j val m.hdrs

-- No header of the list has this key, up to case.
abbrev pub Fresh : Bytes → List HttpHdr → Type 0
Fresh key [] = Unit
Fresh key (h ∷ hs) = (case_eq key h.key ≡ false) × Fresh key hs

-- No two headers have the same key, up to case.
abbrev pub UniqueKeys : List HttpHdr → Type 0
UniqueKeys [] = Unit
UniqueKeys (h ∷ hs) = Fresh h.key hs × UniqueKeys hs

Fresh-put_hdr :
    (k key val : Bytes) (hs : List HttpHdr)
    → case_eq k key ≡ false
    → Fresh k hs
    → Fresh k (put_hdr key val hs)
unfolding put_hdr
Fresh-put_hdr k key val [] e f = (e, tt)
Fresh-put_hdr k key val (h ∷ hs) e f = elim (Bool-cases (case_eq key h.key)) [
  | inl same ↦ rw same f
  | inr other ↦ rw other (f.0, Fresh-put_hdr k key val hs e f.1)
]

UniqueKeys-put_hdr :
    (key val : Bytes) (hs : List HttpHdr) → UniqueKeys hs → UniqueKeys (put_hdr key val hs)
unfolding put_hdr
UniqueKeys-put_hdr key val [] u = (tt, tt)
UniqueKeys-put_hdr key val (h ∷ hs) u = elim (Bool-cases (case_eq key h.key)) [
  | inl same ↦ rw same u
  | inr other ↦ rw other (
    Fresh-put_hdr h.key key val hs (sym (case_eq_sym key h.key) ∙ other) u.0,
    UniqueKeys-put_hdr key val hs u.1,
  )
]

length-put_hdr : (key val : Bytes) (hs : List HttpHdr) → length hs ≤ length (put_hdr key val hs)
unfolding put_hdr
length-put_hdr key val [] = omega arith
length-put_hdr key val (h ∷ hs) = ground (arith, length-put_hdr key val hs)

-- The message has a header under the key, up to case.
unfoldable pub has_key : Bytes → List HttpHdr → Bool
has_key key [] = false
has_key key (h ∷ hs) = case_eq key h.key || has_key key hs

counted-put_hdr :
    (key val : Bytes) (hs : List HttpHdr)
    → length (put_hdr key val hs) ≡ (if has_key key hs then length hs else length hs + 1)
unfolding put_hdr has_key
counted-put_hdr key val [] = omega arith
counted-put_hdr key val (h ∷ hs) =
    let ih = counted-put_hdr key val hs in
    elim (Bool-cases (case_eq key h.key)) [
      | inl e ↦ rw (e, put_hdr) refl
      | inr e ↦ rw (e, put_hdr) (ground arith)
    ]

-- SetHdr keeps the header keys distinct up to case, and adds exactly one header if the message has
-- none under that key and no header otherwise.
pub set_hdr-UniqueKeys :
    (m : HttpMsg) (key val : Bytes)
    → UniqueKeys m.hdrs
    → UniqueKeys (set_hdr m key val).hdrs
      × (get_hdr_count (set_hdr m key val)
          ≡ (if has_key key m.hdrs then get_hdr_count m else get_hdr_count m + 1))
unfolding set_hdr
set_hdr-UniqueKeys m key val u =
    (UniqueKeys-put_hdr key val m.hdrs u, counted-put_hdr key val m.hdrs)

-- Some header of the list has this key, up to case.
abbrev pub HasKey : Bytes → List HttpHdr → Type 0
HasKey key [] = ⊥
HasKey key (h ∷ hs) = (case_eq key h.key ≡ true) ⊎ HasKey key hs

-- Some header of the list has exactly this key.
abbrev pub HasExactKey : Bytes → List HttpHdr → Type 0
HasExactKey key [] = ⊥
HasExactKey key (h ∷ hs) = (key ≡ h.key) ⊎ HasExactKey key hs

hdr_val-put_hdr_exact :
    (new : HttpHdr) (hs : List HttpHdr)
    → ¬ HasExactKey new.key hs
    → HasKey new.key hs
    → hdr_val new.key (put_hdr_exact new hs) ≡ hdr_val new.key hs
unfolding hdr_val put_hdr_exact
hdr_val-put_hdr_exact new [] ne has = absurd has
hdr_val-put_hdr_exact new (h ∷ hs) ne has = elim (Bool-cases (bytes_eq new.key h.key)) [
  | inl same ↦ absurd (ne (inl ((bytes_eq_iff new.key h.key).0 same)))
  | inr other ↦ rw other (elim has [
    | inl e ↦ rw e
    | inr more ↦ let ih = hdr_val-put_hdr_exact new hs (λ e. ne (inr e)) more in ground arith
  ])
]

-- Setting a header object whose key differs only in case from one that the message has, and
-- equals none, is lost on GetHdr: the key reads as before.
pub set_hdr_from_hidden :
    (m : HttpMsg) (new : HttpHdr)
    → ¬ HasExactKey new.key m.hdrs
    → HasKey new.key m.hdrs
    → get_hdr (set_hdr_from m new) new.key ≡ get_hdr m new.key
unfolding get_hdr set_hdr_from
set_hdr_from_hidden m new ne has = hdr_val-put_hdr_exact new m.hdrs ne has
