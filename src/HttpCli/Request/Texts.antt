-- ===== src/HttpCli/Request/Texts.antt =====
-- Writing into the request's buffer (libspider/HttpCli.cpp).
use crowdspider.Base.{
  ℕ, zero, suc, ◌+◌, ◌-◌, ◌<◌, ◌≡◌, refl, ap, true, some, [], ◌∷◌, ◌++◌, arith, ltb, lt→ltb, length,
  take, drop, All, length-append, take_all, Bytes, c_str,
}
use crowdspider.HttpCli.Request.{write_at}
use mathlib.Core.List.{append_assoc}

take_append : (t rest : Bytes) → take (length t) (t ++ rest) ≡ t
take_append [] rest = refl
take_append (c ∷ t) rest = ap (◌∷◌ c) (take_append t rest)

drop_append : (t rest : Bytes) (n : ℕ) → drop (suc (length t + n)) (t ++ rest) ≡ drop (suc n) rest
drop_append [] rest n = ap (λ k. drop (suc k) rest) (omega arith)
drop_append (c ∷ t) rest n =
    let e : suc (length t) + n ≡ suc (length t + n) = omega arith in rw e (drop_append t rest n)

-- A text that fits is written behind what the buffer holds, with a NUL behind it.
pub write_at-append :
    (n : ℕ) (t text rest : Bytes)
    → length text < n
    → length text < length rest
    → write_at n (length t) text (t ++ rest)
      ≡ some ((t ++ text) ++ (0 ∷ drop (suc (length text)) rest))
unfolding write_at
write_at-append n t text rest h l =
    let e : take (n - 1) text ≡ text = take_all (n - 1) text (omega arith) in
    let r : ltb (length t + length text) (length (t ++ rest)) ≡ true =
      lt→ltb _ _ (omega (arith, length-append {0} t rest)) in
    rw
      (
        e,
        r,
        take_append t rest,
        drop_append t rest (length text),
        append_assoc t text (0 ∷ drop (suc (length text)) rest),
      )
      refl

pub c_str-append : (t rest : Bytes) → All (λ c. 0 < c) t → c_str (t ++ (0 ∷ rest)) ≡ t
c_str-append [] rest h = refl
c_str-append (zero ∷ t) rest h = absurd (omega (arith, h.0))
c_str-append (suc c ∷ t) rest h = ap (◌∷◌ (suc c)) (c_str-append t rest h.1)
