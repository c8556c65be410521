-- ===== src/SockProxy/Append.antt =====
-- What the stretches of a packet append (libspider/SockProxy.cpp).
use crowdspider.Base.{
  ℕ, zero, suc, ◌+◌, ◌≤◌, ◌≡◌, sym, ap, false, List, [], ◌∷◌, ◌++◌, arith, leb, length, take, All,
  length-append, length-take, Bytes,
}
use crowdspider.SockProxy.{
  Stretch, values, loop, packed, append_values, append_loop, append, append_all,
}
use mathlib.Core.List.{append_assoc, append-nil}

abbrev pub taken : Stretch → Bytes
taken x = elim x [ values vs ↦ vs | loop n mem ↦ take n mem ]

abbrev pub taken_all : List Stretch → Bytes
taken_all [] = []
taken_all (x ∷ xs) = taken x ++ taken_all xs

abbrev pub Reaches : Stretch → Type 0
Reaches x = elim x [ values vs ↦ Unit | loop n mem ↦ n ≤ length mem ]

length-snoc : (out : Bytes) (v : ℕ) → length (out ++ (v ∷ [])) ≡ suc (length out)
length-snoc out v = omega (arith, length-append {0} out (v ∷ []))

room : (size n k : ℕ) → n + suc k ≤ size → leb size n ≡ false
room size n k h = ground arith

append_values-packed :
    (size : ℕ) (vs out : Bytes)
    → length out + length vs ≤ size
    → append_values size vs out ≡ packed (out ++ vs)
unfolding append_values
append_values-packed size [] out h = ap packed (sym (append-nil out))
append_values-packed size (v ∷ vs) out h =
    rw
      (
        room size (length out) (length vs) h,
        append_values-packed size vs (out ++ (v ∷ [])) (omega (arith, length-snoc out v)),
      )
      (ap packed (append_assoc out (v ∷ []) vs))

append_loop-packed :
    (size k : ℕ) (mem out : Bytes)
    → k ≤ length mem
    → length out + k ≤ size
    → append_loop size k mem out ≡ packed (out ++ take k mem)
unfolding append_loop
append_loop-packed size zero mem out l h = ap packed (sym (append-nil out))
append_loop-packed size (suc k) [] out l h = absurd (omega arith)
append_loop-packed size (suc k) (c ∷ mem) out l h =
    rw
      (
        room size (length out) k h,
        append_loop-packed size k mem (out ++ (c ∷ [])) (omega arith)
            (omega (arith, length-snoc out c)),
      )
      (ap packed (append_assoc out (c ∷ []) (take k mem)))

pub append-packed :
    (size : ℕ) (x : Stretch) (out : Bytes)
    → Reaches x
    → length out + length (taken x) ≤ size
    → append size x out ≡ packed (out ++ taken x)
unfolding append
append-packed size (values vs) out h l = append_values-packed size vs out l
append-packed size (loop n mem) out h l =
    append_loop-packed size n mem out h (omega (arith, length-take n mem))

pub append_all-packed :
    (size : ℕ) (xs : List Stretch) (out : Bytes)
    → All Reaches xs
    → length out + length (taken_all xs) ≤ size
    → append_all size xs out ≡ packed (out ++ taken_all xs)
unfolding append_all
append_all-packed size [] out h l = ap packed (sym (append-nil out))
append_all-packed size (x ∷ xs) out h l =
    rw
      (
        append-packed size x out h.0 (omega (arith, length-append {0} (taken x) (taken_all xs))),
        append_all-packed size xs (out ++ taken x) h.1 (
            omega
              (arith, length-append {0} (taken x) (taken_all xs), length-append {0} out (taken x))),
      )
      (ap packed (append_assoc out (taken x) (taken_all xs)))
