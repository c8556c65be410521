-- ===== src/UserRank/Build/Lines.antt =====
-- The line of a user and what UserRank::buildMatrix (build/UserRank.cpp) reads from it.
use crowdspider.Base.{
  ℕ, ◌≡◌, ◌≢◌, refl, sym, ap, ◌∙◌, List, [], ◌∷◌, ◌++◌, ◌==◌, false, Bytes, All, arith, some,
}
use mathlib.Core.List.{append-nil, append_assoc}
use crowdspider.UserRank.{UserIdent}
use crowdspider.UserRank.Build.{source_of, behind_colon, friends_part, friends}

-- The text has no such byte.
abbrev pub Without : ℕ → Bytes → Type 0
Without b s = All (λ c. c ≢ b) s

-- Each friend with a space behind
unfoldable pub print_friends : List UserIdent → Bytes
print_friends [] = []
print_friends (f ∷ fs) = f ++ 32 ∷ print_friends fs

source_of-append : (src s : Bytes) → Without 58 src → source_of (src ++ 58 ∷ s) ≡ src
unfolding source_of
source_of-append [] s w = refl
source_of-append (c ∷ src) s (ne, w) = ground (arith, source_of-append src s w)

behind_colon-append : (src s : Bytes) → Without 58 src → behind_colon (src ++ 58 ∷ s) ≡ some s
unfolding behind_colon
behind_colon-append [] s w = refl
behind_colon-append (c ∷ src) s (ne, w) = ground (arith, behind_colon-append src s w)

friends-none : (word s : Bytes) → Without 32 s → friends word s ≡ []
unfolding friends
friends-none word [] w = refl
friends-none word (c ∷ s) (ne, w) = ground (arith, friends-none (word ++ c ∷ []) s w)

friends-append :
    (word f s : Bytes) → Without 32 f → friends word (f ++ 32 ∷ s) ≡ (word ++ f) ∷ friends [] s
unfolding friends
friends-append word [] s w = ap (λ x. x ∷ friends [] s) (sym (append-nil word))
friends-append word (c ∷ f) s (ne, w) =
    let c_ne : (c == 32) ≡ false = ground arith in
    rw (c_ne, friends-append (word ++ c ∷ []) f s w, append_assoc word (c ∷ []) f) refl

friends-print_friends :
    (fs : List UserIdent) (last : Bytes)
    → All (Without 32) fs
    → Without 32 last
    → friends [] (print_friends fs ++ last) ≡ fs
unfolding print_friends
friends-print_friends [] last ws w = friends-none [] last w
friends-print_friends (f ∷ fs) last (v, ws) w =
    ap (λ s. friends [] s) (append_assoc f (32 ∷ print_friends fs) last)
    ∙ friends-append [] f (print_friends fs ++ last) v
    ∙ ap (◌∷◌ f) (friends-print_friends fs last ws w)

-- Of a line with a user, a colon and friends who each have a space behind, the user and the friends are read,
-- whatever stands behind the last space: a last friend without a space is not.
pub friends-print :
    (src : UserIdent) (fs : List UserIdent) (last : Bytes)
    → Without 58 src
    → All (Without 32) fs
    → Without 32 last
    → (source_of (src ++ 58 ∷ (print_friends fs ++ last)) ≡ src)
      × (friends [] (friends_part (src ++ 58 ∷ (print_friends fs ++ last))) ≡ fs)
unfolding friends_part
friends-print src fs last v ws w = (
  source_of-append src (print_friends fs ++ last) v,
  rw (friends_part, behind_colon-append src (print_friends fs ++ last) v)
      (friends-print_friends fs last ws w),
)
