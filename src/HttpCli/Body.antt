-- ===== src/HttpCli/Body.antt =====
-- fetchHtmlFile (libspider/HttpCli.cpp): the body of an answer with or without a length. The file that
-- the bytes are also written to takes them all.
use crowdspider.Base.{
  ℕ, zero, suc, ◌-◌, ◌%◌, ◌^◌, ltb, ◌>>=◌, Option, none, some, [], ◌++◌, ◌==◌, if◌then◌else◌,
  length, Bytes,
}
use crowdspider.Base.Int.{ℤ, pos, negsuc}
use crowdspider.HttpCli.Chunk.{http_buf_size}
use crowdspider.HttpCli.Conn.{got, closed, broken, recv}
use crowdspider.HttpCli.Hdrs.{get_content_len}
use crowdspider.HttpMsg.{HttpMsg}
use crowdspider.Utils.ReadLine.{Reader}
pub mod Whole
pub mod Length

-- What is returned, the content gathered, and the connection
pub record Fetched : Type 0 where
  pub ret : ℤ
  pub content : Bytes
  pub left : Reader

-- The loop without a length; totalBytes is the content's length.
unfoldable pub fetch_all : ℕ → Bytes → Reader → Option Fetched
fetch_all zero content r = none
fetch_all (suc fuel) content r = elim (recv http_buf_size r.buffered r.feed) [
  | got t r' ↦ fetch_all fuel (content ++ t) r'
  | closed r' ↦ some (record { ret = pos (length content); content = content; left = r' })
  | broken r' ↦ some (record { ret = negsuc 0; content = content; left = r' })
]

-- The two loops with a length, whose bodies are the same: `size` bytes are still wanted.
unfoldable pub fetch_len : ℕ → ℕ → Bytes → Reader → Option Fetched
fetch_len zero size content r = none
fetch_len (suc fuel) size content r =
    let rest = elim (recv http_buf_size r.buffered r.feed) as (λ x. Option Fetched) [
      | got t r' ↦ fetch_len fuel (size - length t) (content ++ t) r'
      | closed r' ↦ some (record { ret = negsuc 0; content = content; left = r' })
      | broken r' ↦ some (record { ret = negsuc 0; content = content; left = r' })
    ] in
    if size == 0
    then some (record { ret = pos (length content); content = content; left = r })
    else rest

unfoldable pub fetch_body : ℕ → ℤ → Reader → Option Fetched
fetch_body fuel (pos n) r = fetch_len fuel n [] r
fetch_body fuel (negsuc n) r = fetch_all fuel [] r

-- An off_t returned as an int of 32 bits
unfoldable pub to_int : ℤ → ℤ
to_int (pos n) = let m = n % 2 ^ 32 in if ltb m (2 ^ 31) then pos m else negsuc (2 ^ 32 - 1 - m)
to_int (negsuc n) = let m = n % 2 ^ 32 in if ltb m (2 ^ 31) then negsuc m else pos (2 ^ 32 - 1 - m)

abbrev pub returned : Option Fetched → Option Fetched
returned x = x >>= λ f. some (record f { ret = to_int f.ret })

-- fetchHtmlFile with the answer's headers; `none` is also an overflow in getContentLen.
unfoldable pub fetch_html_file : ℕ → HttpMsg → Reader → Option Fetched
fetch_html_file fuel response r =
    get_content_len response >>= λ len. returned (fetch_body fuel len r)
