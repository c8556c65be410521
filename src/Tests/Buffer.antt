-- ===== src/Tests/Buffer.antt =====
-- Examples for the theorems about libspider/Buffer.cpp.
use crowdspider.Base.{
  ◌≡◌, refl, true, some, List, [], ◌∷◌, ◌++◌, arith, ◌==◌, if◌then◌else◌, get_or, Bytes, codes,
}
use crowdspider.Buffer.Block.{Cell, Buffer, empty, IsValid, contents}
use crowdspider.Buffer.Order.{strcmp, chars_lt}
use crowdspider.Buffer.Store.{Store, assign, assign_lem}

abbrev cells : List Cell
cells = some 1 ∷ some 2 ∷ some 3 ∷ []

abbrev held : Buffer
held = record { alloc = 3; len = 2; buf = cells }

held-IsValid : IsValid held
held-IsValid = record { sized = refl; fits = omega arith }

abbrev store : Store
store = held ∷ held ∷ []

assign_lem_example :
    (st' : Store) × (assign store 1 1 ≡ some st')
    × (contents (get_or st' 1 empty) ≡ (
        if 1 == 1
        then (if 1 == 1 then [] else contents (get_or store 1 empty))
        else contents (get_or store 1 empty)))
assign_lem_example =
    assign_lem store 1 1 1 (held-IsValid, (held-IsValid, tt)) (omega arith) (omega arith)

abbrev left_text : Bytes
left_text = codes "ab" ++ 0 ∷ []

-- `"a" < TString("a")` is true.
not_below_itself : chars_lt (codes "a") (codes "a") ≡ true
unfolding chars_lt strcmp
not_below_itself = refl
