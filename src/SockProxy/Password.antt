-- ===== src/SockProxy/Password.antt =====
-- Send5PassReq (libspider/SockProxy.cpp): the password goes out with the user name's length.
use crowdspider.Base.{
  ℕ, zero, suc, ◌+◌, ◌%◌, ◌≤◌, ◌<◌, ◌≡◌, refl, sym, ap, ◌∙◌, ◌↔◌, ◌⊎◌, inl, inr, false, none, some,
  List, [], ◌∷◌, ◌++◌, arith, leb, length, take, length-append, take_all, length-take, Bytes, c_str,
}
use crowdspider.Base.Int.{pos, pos_part}
use crowdspider.SockProxy.Append.{taken_all, append-packed, append_all-packed}
use crowdspider.SockProxy.Send.{send5_pass_req}
use crowdspider.SockProxy.Wire.{wire, IsRequest, pack_get-wire}
use crowdspider.SockProxy.{
  array, strlen, SocksRequest, sock5pass, Stretch, values, loop, outside, append_loop, append,
  append_all, stretches, PackGot, pack_end, pack_get,
}

append_loop-outside :
    (size k : ℕ) (mem out : Bytes)
    → length mem < k
    → length out + length mem < size
    → append_loop size k mem out ≡ outside
unfolding append_loop
append_loop-outside size zero mem out h l = absurd (omega arith)
append_loop-outside size (suc k) [] out h l =
    let r : leb size (length out) ≡ false = ground arith in rw r refl
append_loop-outside size (suc k) (c ∷ mem) out h l =
    let r : leb size (length out) ≡ false = ground arith in
    rw
      (
        r,
        append_loop-outside size k mem (out ++ (c ∷ [])) (omega arith)
            (omega (arith, length-append {0} out (c ∷ []))),
      )
      refl

loop-outside :
    (size k : ℕ) (mem out : Bytes)
    → length mem < k
    → length out + length mem < size
    → append size (loop k mem) out ≡ outside
unfolding append
loop-outside size k mem out h l = append_loop-outside size k mem out h l

leb-cases : (a b : ℕ) → (a ≤ b) ⊎ (b < a)
leb-cases a b = ground arith

-- The packet that the user name and password protocol describes.
abbrev pub pass_packet : Bytes → Bytes → Bytes
pass_packet user pass = 1 ∷ length user ∷ (user ++ (length pass ∷ pass))

-- A text that an array holds: no NUL in it, and short enough for one byte of length.
pub record IsShort (s : Bytes) : Type 0 where
  pub chars : c_str s ≡ s
  pub length_fits : length s < 256

abbrev pub pass_size : Bytes → Bytes → ℕ
pass_size user pass = 4 + length user + length pass + 4

-- The request as Send5PassReq fills it
abbrev filled : Bytes → Bytes → SocksRequest
filled user pass =
    sock5pass
      (record { vers = 1; luser = length user; lpass = length pass; suser = user; spass = pass })

send5_pass_req-filled :
    (user pass : Bytes) → IsShort user → IsShort pass → send5_pass_req user pass ≡ filled user pass
send5_pass_req-filled user pass hu hp =
    let a : strlen user % 256 ≡ length user = rw hu.chars (omega (arith, hu.length_fits)) in
    let b : strlen pass % 256 ≡ length pass = rw hp.chars (omega (arith, hp.length_fits)) in
    rw (a, b) refl

abbrev filled_stretches : Bytes → Bytes → List Stretch
filled_stretches user pass =
    values (1 ∷ length user ∷ [])
    ∷ loop (length user) (array user)
    ∷ values (length pass ∷ [])
    ∷ loop (length user) (array pass)
    ∷ []

length-array : (s : Bytes) → length (array s) ≡ suc (length s)
length-array s = omega (arith, length-append {0} s (0 ∷ []))

length-take_le : (n : ℕ) (s : Bytes) → n ≤ length s → length (take n s) ≡ n
length-take_le n s h = omega (arith, length-take n s)

filled-length :
    (user pass : Bytes)
    → length user ≤ length pass + 1
    → length (taken_all (filled_stretches user pass)) ≡ 3 + length user + length user
filled-length user pass h =
    let u = length-take_le (length user) (array user) (omega (arith, length-array user)) in
    let p = length-take_le (length user) (array pass) (omega (arith, length-array pass)) in
    omega (
      arith,
      u,
      p,
      length-append {0} (take (length user) (array user))
          (length pass ∷ (take (length user) (array pass) ++ [])),
      length-append {0} (take (length user) (array pass)) [],
    )

-- The loop over the password stays in its array.
reaching :
    (user pass : Bytes)
    → length user ≤ length pass + 1
    → pack_get (pass_size user pass) (filled user pass)
      ≡ some (pos (3 + length user + length user), taken_all (filled_stretches user pass))
unfolding pack_get stretches pack_end
reaching user pass h =
    let n : length (taken_all (filled_stretches user pass)) ≡ 3 + length user + length user =
      filled-length user pass h in
    let l : leb (pass_size user pass) (3 + length user + length user) ≡ false = ground arith in
    rw
      (
        append_all-packed (pass_size user pass) (filled_stretches user pass) []
            (
              tt,
              ((omega (arith, length-array user)), (tt, ((omega (arith, length-array pass)), tt))),
            )
            (omega (arith, n)),
        pack_end,
        n,
        l,
      )
      refl

-- The loop over the password leaves its array.
leaving :
    (user pass : Bytes)
    → length pass + 1 < length user
    → pack_get (pass_size user pass) (filled user pass) ≡ none
unfolding pack_get stretches append_all pack_end
leaving user pass h =
    let size = pass_size user pass in
    let a = 1 ∷ length user ∷ [] in
    let b = a ++ take (length user) (array user) in
    let u = length-take_le (length user) (array user) (omega (arith, length-array user)) in
    let lb : length b ≡ 2 + length user =
      omega (arith, u, length-append {0} a (take (length user) (array user))) in
    let c = b ++ (length pass ∷ []) in
    let lc : length c ≡ 3 + length user =
      omega (arith, lb, length-append {0} b (length pass ∷ [])) in
    rw
      (
        append-packed size (values a) [] tt (omega arith),
        append-packed size (loop (length user) (array user)) a (omega (arith, length-array user))
            (omega (arith, u)),
        append-packed size (values (length pass ∷ [])) b tt (omega (arith, lb)),
        loop-outside size (length user) (array pass) c (omega (arith, length-array pass))
            (omega (arith, length-array pass, lc)),
      )
      refl

pos_inj : (a b : ℕ) → pos a ≡ pos b → a ≡ b
pos_inj a b e = ap pos_part e

fst_of : PackGot → ℕ
fst_of x = elim x [ none ↦ 0 | some y ↦ pos_part y.0 ]

same_length :
    (user pass : Bytes)
    → length user ≡ length pass
    → pack_get (pass_size user pass) (filled user pass)
      ≡ some (pos (3 + length user + length pass), pass_packet user pass)
unfolding IsRequest wire
same_length user pass e =
    let w : wire (filled user pass) ≡ pass_packet user pass =
      rw (take_all (length user) user (omega arith), take_all (length pass) pass (omega arith))
        refl in
    let l : length (pass_packet user pass) ≡ 3 + length user + length pass =
      omega (arith, length-append {0} user (length pass ∷ pass)) in
    let q =
      pack_get-wire (pass_size user pass) (filled user pass) (e, (omega arith), (omega arith))
        (omega (arith, l, ap length w)) in
    q ∙ ap some (λ i. (pos ((ap length w ∙ l) i), w i))

-- For a user name and a password without NULs that are shorter than 256 bytes, Send5PassReq packs the
-- packet of the protocol exactly when both have the same length.
pub pack_get-send5_pass_req_iff :
    (user pass : Bytes)
    → IsShort user
    → IsShort pass
    → (pack_get (pass_size user pass) (send5_pass_req user pass)
        ≡ some (pos (3 + length user + length pass), pass_packet user pass))
      ↔ (length user ≡ length pass)
unfolding fst_of
pack_get-send5_pass_req_iff user pass hu hp = rw (send5_pass_req-filled user pass hu hp) (
  (λ e. elim (leb-cases (length user) (length pass + 1)) [
    | inl l ↦
        let q : 3 + length user + length user ≡ 3 + length user + length pass =
          ap fst_of (sym (reaching user pass l) ∙ e) in
        omega (arith, q)
    | inr l ↦
        let q : 0 ≡ 3 + length user + length pass = ap fst_of (sym (leaving user pass l) ∙ e) in
        absurd (omega (arith, q))
  ]),
  (λ e. same_length user pass e),
)
