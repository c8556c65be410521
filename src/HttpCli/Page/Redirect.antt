-- ===== src/HttpCli/Page/Redirect.antt =====
-- Redirections of fetchHtmlPage (libspider/HttpCli.cpp).
use crowdspider.Base.{
  ap, ◌∙◌, ◌<◌, ℕ, zero, suc, ◌+◌, ◌≤◌, ◌≡◌, refl, inl, inr, Bool, true, false, Option, arith,
  if◌then◌else◌, Bool-cases, Bytes,
}
use native.Mathlib.Decide.{dec_lt}
use crowdspider.Base.Int.{ℤ, pos, negsuc}
use crowdspider.HttpCli.Page.{
  redirected, is_lost, is_error, PageEnd, retry, body_ret, fetch_html_page,
}

retry-le : (session : ℕ → ℤ) (more i : ℕ) → (retry session more i).1 ≤ i + more + 1
unfolding retry
retry-le session zero i = omega arith
retry-le session (suc more) i =
    let ih = retry-le session more (i + 1) in
    elim (Bool-cases (is_lost (session i))) [
      | inl e ↦ rw e (omega arith)
      | inr e ↦ elim (Bool-cases (redirected (session i))) [
        | inl d ↦ rw (e, d) (omega (arith, ih))
        | inr d ↦ rw (e, d) (omega arith)
      ]
    ]

abbrev page_of : ℤ × ℕ → Bool → ℤ → ℤ → PageEnd
page_of x b r q =
    if is_lost x.0
    then record { ret = negsuc 1; sessions = x.1 }
    else if b
    then record { ret = r; sessions = x.1 }
    else record { ret = q; sessions = x.1 }

tried_le : (x : ℤ × ℕ) (b : Bool) (r q : ℤ) → x.1 ≤ 7 → (page_of x b r q).sessions ≤ 7
tried_le x b r q h = elim (Bool-cases (is_lost x.0)) [
  | inl e ↦ rw e h
  | inr e ↦ elim (Bool-cases b) [ inl d ↦ rw (e, d) h | inr d ↦ rw (e, d) h ]
]

-- However the servers redirect, a page is given up or read after at most seven sessions.
pub fetch_html_page-sessions :
    (session : ℕ → ℤ) (encoding : Option Bytes) (chunk_ret file_ret : ℤ)
    → (fetch_html_page session encoding chunk_ret file_ret).sessions ≤ 7
unfolding fetch_html_page
fetch_html_page-sessions session encoding chunk_ret file_ret =
    let h = retry-le session 5 1 in
    elim (Bool-cases (is_lost (session 0))) [
      | inl e ↦ rw e (omega arith)
      | inr e ↦ elim (Bool-cases (redirected (session 0))) [
        | inl d ↦
            rw (e, d)
              (tried_le (retry session 5 1) (is_error (session 0)) (negsuc 3)
                (body_ret encoding chunk_ret file_ret) h)
        | inr d ↦
            rw (e, d)
              (tried_le (session 0, 1) (is_error (session 0)) (negsuc 3)
                (body_ret encoding chunk_ret file_ret) (omega arith))
      ]
    ]

redirected_no_error : (x : ℤ) → redirected x ≡ true → (is_error x ≡ false) × (is_lost x ≡ false)
unfolding redirected is_error is_lost
redirected_no_error (pos n) h = (ground (arith, h), refl)
redirected_no_error (negsuc n) h = absurd (ground (arith, h))

-- The loop ends at the first session that is not redirected, if the jumps reach it.
retry_ends :
    (session : ℕ → ℤ) (more i t : ℕ)
    → i ≤ t
    → t ≤ i + more
    → ((j : ℕ) → i ≤ j → j < t → redirected (session j) ≡ true)
    → redirected (session t) ≡ false
    → retry session more i ≡ (session t, t + 1)
unfolding retry
retry_ends session zero i t a b h e =
    ap (λ (j : ℕ). (session j, j + 1)) {x = i} {y = t} (omega arith)
retry_ends session (suc more) i t a b h e = elim (dec_lt i t) [
  | yes l ↦
      let d = h i (omega arith) l in
      rw ((redirected_no_error (session i) d).1, d)
        (retry_ends session more (i + 1) t (omega arith) (omega arith)
          (λ j p q. h j (omega arith) q) e)
  | no n ↦
      let same : i ≡ t = omega arith in
      let d : redirected (session i) ≡ false = ap (λ j. redirected (session j)) same ∙ e in
      elim (Bool-cases (is_lost (session i))) [
        | inl x ↦ rw x (ap (λ (j : ℕ). (session j, j + 1)) same)
        | inr x ↦ rw (x, d) (ap (λ (j : ℕ). (session j, j + 1)) same)
      ]
]

-- Where up to six answers in a row redirect and the session behind them is set up and does not, the
-- result is that of this session's body, whatever its status is, also where that is an error such as
-- 404; no further session is set up.
pub fetch_html_page-redirected :
    (session : ℕ → ℤ) (encoding : Option Bytes) (chunk_ret file_ret : ℤ) (t : ℕ)
    → 1 ≤ t
    → t ≤ 6
    → ((j : ℕ) → j < t → redirected (session j) ≡ true)
    → redirected (session t) ≡ false
    → is_lost (session t) ≡ false
    → fetch_html_page session encoding chunk_ret file_ret
      ≡ record { ret = body_ret encoding chunk_ret file_ret; sessions = t + 1 }
unfolding fetch_html_page
fetch_html_page-redirected session encoding chunk_ret file_ret t l m h e s =
    let d = h 0 (omega arith) in
    let (a, b) = redirected_no_error (session 0) d in
    let r = retry_ends session 5 1 t l (omega arith) (λ j p q. h j q) e in rw (d, a, b, r, s) refl
