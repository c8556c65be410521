-- ===== src/Buffer/Store.antt =====
-- TBuffer::operator= on objects that may be the same (libspider/Buffer.cpp).
use crowdspider.Base.{
  ℕ, ◌<◌, ◌≡◌, refl, sym, inl, inr, Option, some, List, [], arith, ◌==◌, if◌then◌else◌, ==_iff,
  Bool-cases, ◌>>=◌, length, get_elem?, get_or, set, All, length-set, get_elem?-get_or,
  get_or-set_self, get_or-set_ne, All-get_or,
}
use crowdspider.Buffer.Block.{Buffer, empty, copy, IsValid, contents, Holds}
use crowdspider.Buffer.Ops.{empty-IsValid, copy-Holds}

-- Objects by their index; `none` is an index that no object has.
abbrev pub Store : Type 0
Store = List Buffer

-- operator=: the left object is emptied before the right one, which may be the same, is looked at.
unfoldable pub assign : Store → ℕ → ℕ → Option Store
assign st i j =
    let cleared = set st i empty in
    get_elem? cleared j >>= λ other. copy other >>= λ b. some (set cleared i b)

-- Objects that are valid all together.
abbrev pub AllValid : Store → Type 0
AllValid st = All IsValid st

copy-empty-Holds : Holds (copy empty) []
copy-empty-Holds = (empty, (unfold copy empty in refl), empty-IsValid, (unfold empty in refl))

-- What the right object holds once the left one is emptied.
source-Holds :
    (st : Store) (i j : ℕ)
    → AllValid st
    → i < length st
    → j < length st
    → Holds
        (copy (get_or (set st i empty) j empty))
        (if i == j then [] else contents (get_or st j empty))
source-Holds st i j v hi hj = elim (Bool-cases (i == j)) [
  | inl e ↦ rw (e, sym ((==_iff i j).0 e), get_or-set_self st i empty empty hi) copy-empty-Holds
  | inr e ↦
      rw (e, get_or-set_ne st i j empty empty (ground arith))
        (copy-Holds (get_or st j empty) (All-get_or IsValid st j empty v empty-IsValid))
]

-- Assigning another object copies its bytes, but an object that is assigned to itself is emptied;
-- every other object holds what it held.
pub assign_lem :
    (st : Store) (i j k : ℕ)
    → AllValid st
    → i < length st
    → j < length st
    → (st' : Store) × (assign st i j ≡ some st')
      × (contents (get_or st' k empty) ≡ (
          if k == i
          then (if i == j then [] else contents (get_or st j empty))
          else contents (get_or st k empty)))
unfolding assign
assign_lem st i j k v hi hj =
    let cleared = set st i empty in
    let (b, e, w, c) = source-Holds st i j v hi hj in
    let read = get_elem?-get_or cleared j empty (omega (arith, length-set st i empty)) in
    let same = get_or-set_self cleared i b empty (omega (arith, length-set st i empty)) in
    (
      set cleared i b,
      rw (read, e) refl,
      elim (Bool-cases (k == i)) [
        | inl h ↦ rw (h, (==_iff k i).0 h, same) c
        | inr h ↦
            rw
              (
                h,
                get_or-set_ne cleared i k b empty (ground arith),
                get_or-set_ne st i k empty empty (ground arith),
              )
              refl
      ],
    )
