-- ===== src/Buffer/Order.antt =====
-- Compare and the comparison operators of TString (libspider/Buffer.h, libspider/Buffer.cpp), on the
-- bytes before the NUL.
use crowdspider.Base.{◌≡◌, refl, Bool, true, false, not, [], ◌∷◌, arith, Bytes}
use Prim.Native.Nat.{Ordering, compare}

-- The sign of `strcmp`, which compares bytes without sign
unfoldable pub strcmp : Bytes → Bytes → Ordering
strcmp [] [] = Ordering.eq
strcmp [] (y ∷ ys) = Ordering.lt
strcmp (x ∷ xs) [] = Ordering.gt
strcmp (x ∷ xs) (y ∷ ys) = elim (compare x y) [
  | Ordering.lt ↦ Ordering.lt
  | Ordering.gt ↦ Ordering.gt
  | Ordering.eq ↦ strcmp xs ys
]

-- Tests on an `int`: `== 0`, `< 0`, `> 0`
abbrev pub is_zero : Ordering → Bool
is_zero o = elim o [ Ordering.eq ↦ true | _ ↦ false ]

abbrev pub is_negative : Ordering → Bool
is_negative o = elim o [ Ordering.lt ↦ true | _ ↦ false ]

abbrev pub is_positive : Ordering → Bool
is_positive o = elim o [ Ordering.gt ↦ true | _ ↦ false ]

-- The operators with a TString on the left and a TString or a pointer on the right
unfoldable pub string_eq : Bytes → Bytes → Bool
string_eq lhs rhs = is_zero (strcmp lhs rhs)

unfoldable pub string_le : Bytes → Bytes → Bool
string_le lhs rhs = not (is_positive (strcmp lhs rhs))

unfoldable pub string_ge : Bytes → Bytes → Bool
string_ge lhs rhs = not (is_negative (strcmp lhs rhs))

unfoldable pub string_lt : Bytes → Bytes → Bool
string_lt lhs rhs = is_negative (strcmp lhs rhs)

unfoldable pub string_gt : Bytes → Bytes → Bool
string_gt lhs rhs = is_positive (strcmp lhs rhs)

-- The operators with a pointer on the left and a TString on the right
unfoldable pub chars_eq : Bytes → Bytes → Bool
chars_eq lhs rhs = is_zero (strcmp rhs lhs)

unfoldable pub chars_le : Bytes → Bytes → Bool
chars_le lhs rhs = is_positive (strcmp rhs lhs)

unfoldable pub chars_ge : Bytes → Bytes → Bool
chars_ge lhs rhs = is_negative (strcmp rhs lhs)

unfoldable pub chars_lt : Bytes → Bytes → Bool
chars_lt lhs rhs = not (is_negative (strcmp rhs lhs))

unfoldable pub chars_gt : Bytes → Bytes → Bool
chars_gt lhs rhs = not (is_positive (strcmp rhs lhs))

strcmp_swap :
    (a b : Bytes)
    → (is_negative (strcmp b a) ≡ is_positive (strcmp a b))
      × (is_positive (strcmp b a) ≡ is_negative (strcmp a b))
      × (is_zero (strcmp b a) ≡ is_zero (strcmp a b))
unfolding strcmp
strcmp_swap [] [] = (refl, refl, refl)
strcmp_swap [] (y ∷ ys) = (refl, refl, refl)
strcmp_swap (x ∷ xs) [] = (refl, refl, refl)
strcmp_swap (x ∷ xs) (y ∷ ys) = ground (arith, strcmp_swap xs ys)

-- With a pointer on the left, equality is the one of two strings, but `<=` and `<` have changed
-- places, and so have `>=` and `>`.
pub chars_operators_lem :
    (lhs rhs : Bytes)
    → (chars_eq lhs rhs ≡ string_eq lhs rhs)
      × (chars_le lhs rhs ≡ string_lt lhs rhs)
      × (chars_lt lhs rhs ≡ string_le lhs rhs)
      × (chars_ge lhs rhs ≡ string_gt lhs rhs)
      × (chars_gt lhs rhs ≡ string_ge lhs rhs)
unfolding chars_eq chars_le chars_lt chars_ge chars_gt string_eq string_lt string_le string_gt
    string_ge
chars_operators_lem lhs rhs = ground (arith, strcmp_swap lhs rhs)
