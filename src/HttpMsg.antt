-- ===== src/HttpMsg.antt =====
-- libspider/HttpMsg.cpp and HttpMsg.h: one header (THttpHdr) and a message's header list (THttpMsg).
-- A std::list of pointers to headers that only the message holds is a list of headers here.
use crowdspider.Base.{
  ℕ, suc, ◌+◌, ◌-◌, ◌*◌, ◌/◌, ◌%◌, ◌^◌, Bool, ◌&&◌, Option, none, some, List, [], ◌∷◌, ◌++◌, length,
  get_elem?, ltb, if◌then◌else◌, ◌>>=◌, Bytes, bytes_eq, case_eq,
}
use Prim.Native.Nat.{bit_or}
pub mod Lookup
pub mod Fresh
pub mod Version

-- THttpHdr
pub record HttpHdr : Type 0 where
  pub key : Bytes
  pub val : Bytes

-- THttpMsg: `m_nHttpVer` is a 32-bit word.
pub record HttpMsg : Type 0 where
  pub http_ver : ℕ
  pub hdrs : List HttpHdr

-- THttpMsg::THttpMsg(void)
abbrev pub new_msg : HttpMsg
new_msg = record { http_ver = 0; hdrs = [] }

-- THttpMsg::THttpMsg(THttpMsg&) clones the headers and leaves `m_nHttpVer` as it lies in memory.
unfoldable pub copy_msg : ℕ → HttpMsg → HttpMsg
copy_msg garbage other = record { http_ver = garbage; hdrs = other.hdrs }

-- THttpHdr::SetVal
abbrev pub set_val : HttpHdr → Bytes → HttpHdr
set_val h v = record h { val = v }

-- THttpMsg::SetHttpVer; `none` is the failed assertion.
unfoldable pub set_http_ver : HttpMsg → ℕ → ℕ → Option HttpMsg
set_http_ver m major minor =
    if ltb major 10 && ltb minor 10
    then some (record m { http_ver = bit_or (major * 2 ^ 16 % 2 ^ 32) minor })
    else none

-- THttpMsg::GetHttpVer: HIWORD is `>> 16`, LOWORD is `& 0xffff`.
unfoldable pub get_http_ver : HttpMsg → ℕ × ℕ
get_http_ver m = (m.http_ver / 2 ^ 16, m.http_ver % 2 ^ 16)

-- THttpMsg::GetHdrCount
abbrev pub get_hdr_count : HttpMsg → ℕ
get_hdr_count m = length m.hdrs

-- the length of `key: val` and CRLF
abbrev pub hdr_len : HttpHdr → ℕ
hdr_len h = length h.key + 2 + length h.val + 2

all_hdr_len : List HttpHdr → ℕ
all_hdr_len [] = 0
all_hdr_len (h ∷ hs) = hdr_len h + all_hdr_len hs

-- THttpMsg::GetAllHdrLen
unfoldable pub get_all_hdr_len : HttpMsg → ℕ
unfolding all_hdr_len
get_all_hdr_len m = all_hdr_len m.hdrs

-- THttpMsg::ClearAllHdr
unfoldable pub clear_all_hdr : HttpMsg → HttpMsg
clear_all_hdr m = record m { hdrs = [] }

-- THttpMsg::GetHdr(unsigned): past the end the source dereferences `end()`, which is `none` here.
unfoldable pub get_hdr_at : HttpMsg → ℕ → Option HttpHdr
get_hdr_at m n = get_elem? m.hdrs n

-- An int of 32 bits that holds a length, as the size_t that it is returned as
abbrev pub int_size : ℕ → ℕ
int_size n = let m = n % 2 ^ 32 in if ltb m (2 ^ 31) then m else m + (2 ^ 64 - 2 ^ 32)

-- THttpMsg::GetHdrLen: -1 as a size_t where there is no header.
unfoldable pub get_hdr_len : HttpMsg → ℕ → ℕ
unfolding get_hdr_at
get_hdr_len m n = elim (get_hdr_at m n) [ none ↦ 2 ^ 64 - 1 | some h ↦ int_size (hdr_len h) ]

hdr_val : Bytes → List HttpHdr → Bytes
hdr_val key [] = []
hdr_val key (h ∷ hs) = if case_eq key h.key then h.val else hdr_val key hs

-- THttpMsg::GetHdr(const string&): the empty text where no header has the key.
unfoldable pub get_hdr : HttpMsg → Bytes → Bytes
unfolding hdr_val
get_hdr m key = hdr_val key m.hdrs

put_hdr : Bytes → Bytes → List HttpHdr → List HttpHdr
put_hdr key val [] = record { key = key; val = val } ∷ []
put_hdr key val (h ∷ hs) = if case_eq key h.key then set_val h val ∷ hs else h ∷ put_hdr key val hs

-- THttpMsg::SetHdr(const string&, const string&)
unfoldable pub set_hdr : HttpMsg → Bytes → Bytes → HttpMsg
unfolding put_hdr
set_hdr m key val = record m { hdrs = put_hdr key val m.hdrs }

put_hdr_exact : HttpHdr → List HttpHdr → List HttpHdr
put_hdr_exact new [] = new ∷ []
put_hdr_exact new (h ∷ hs) =
    if bytes_eq new.key h.key then set_val h new.val ∷ hs else h ∷ put_hdr_exact new hs

-- THttpMsg::SetHdr(const THttpHdr&), which compares the keys byte for byte.
unfoldable pub set_hdr_from : HttpMsg → HttpHdr → HttpMsg
unfolding put_hdr_exact
set_hdr_from m new = record m { hdrs = put_hdr_exact new m.hdrs }
