-- ===== src/HttpCli/Page.antt =====
-- fetchHtmlPage (libspider/HttpCli.cpp): its sessions, and what it returns. The results of the sessions
-- and of the two readers of a body are values here.
use crowdspider.Base.{
  ℕ, zero, suc, ◌+◌, Bool, true, false, not, ◌||◌, Option, none, some, ◌==◌, if◌then◌else◌, Bytes,
  codes, case_eq,
}
use crowdspider.Base.Int.{ℤ, pos, negsuc}
pub mod Redirect

-- HTTP_MOVED_PERMANENTLY or HTTP_MOVED_TEMPORARILY
unfoldable pub redirected : ℤ → Bool
redirected (pos n) = n == 301 || n == 302
redirected (negsuc n) = false

unfoldable pub is_lost : ℤ → Bool
is_lost (pos n) = false
is_lost (negsuc n) = n == 0

-- The cases of the switch over the status
unfoldable pub is_error : ℤ → Bool
is_error (pos n) = n == 401 || n == 404 || n == 500 || n == 501 || n == 502 || n == 503 || n == 504
is_error (negsuc n) = false

-- A page's result, and how many sessions were set up for it.
pub record PageEnd : Type 0 where
  pub ret : ℤ
  pub sessions : ℕ

-- The jumps back to `retry`, of which `more` may follow; session `i` comes next. The status of the
-- last session, -1 where it was not set up, and the number of sessions.
unfoldable pub retry : (ℕ → ℤ) → ℕ → ℕ → ℤ × ℕ
retry session zero i = (session i, i + 1)
retry session (suc more) i =
    let again = retry session more (i + 1) in
    if is_lost (session i)
    then (session i, i + 1)
    else if redirected (session i)
    then again
    else (session i, i + 1)

-- The body's result, by the transfer encoding
unfoldable pub body_ret : Option Bytes → ℤ → ℤ → ℤ
body_ret none chunk_ret file_ret = if is_lost file_ret then negsuc 1 else file_ret
body_ret (some v) chunk_ret file_ret =
    let ret = if case_eq v (codes "chunked") then chunk_ret else pos 0 in
    if is_lost ret then negsuc 1 else ret

-- fetchHtmlPage: `status` is the first session's, also behind the loop, where the status is another
-- variable.
unfoldable pub fetch_html_page : (ℕ → ℤ) → Option Bytes → ℤ → ℤ → PageEnd
fetch_html_page session encoding chunk_ret file_ret =
    let status = session 0 in
    let tried = if redirected status then retry session 5 1 else (status, 1) in
    if is_lost status
    then record { ret = negsuc 1; sessions = 1 }
    else if is_lost tried.0
    then record { ret = negsuc 1; sessions = tried.1 }
    else if is_error status
    then record { ret = negsuc 3; sessions = tried.1 }
    else record { ret = body_ret encoding chunk_ret file_ret; sessions = tried.1 }
