-- ===== src/Buffer/Block.antt =====
-- TBuffer (libspider/Buffer.cpp). A byte of the heap that nothing has written yet is `none`, and the
-- null pointer is the block with no bytes.
use crowdspider.Base.{
  ℕ, ◌≤◌, ◌≡◌, ◌||◌, Option, none, some, List, [], ◌++◌, ltb, ◌==◌, if◌then◌else◌, ◌>>=◌, length,
  get_elem?, take, drop, replicate,
}

abbrev pub Cell : Type 0
Cell = Option ℕ

abbrev pub unset : Cell
unset = none

pub record Buffer : Type 0 where
  pub alloc : ℕ
  pub len : ℕ
  pub buf : List Cell

-- The constructors; the one of a length leaves the bytes as they are in the heap.
unfoldable pub empty : Buffer
empty = record { alloc = 0; len = 0; buf = [] }

unfoldable pub of_len : ℕ → Buffer
of_len n = record { alloc = n; len = n; buf = replicate n unset }

-- `memcpy(dst, src, n)`; `none` reads or writes outside a block.
unfoldable pub memcpy : List Cell → List Cell → ℕ → Option (List Cell)
memcpy dst src n =
    if ltb (length src) n || ltb (length dst) n then none else some (take n src ++ drop n dst)

-- A new block of `n` bytes, with the first `k` taken from `src`
unfoldable pub renew : ℕ → List Cell → ℕ → Option Buffer
renew n src k = do
  block ← memcpy (replicate n unset) src k
  some (record { alloc = n; len = n; buf = block })

-- The first `n` bytes of the block overwritten, and the length set
unfoldable pub overwrite : Buffer → List Cell → ℕ → Option Buffer
overwrite b pbuf n = do
  block ← memcpy b.buf pbuf n
  some (record { alloc = b.alloc; len = n; buf = block })

-- TBuffer(pbuf, len)
unfoldable pub of_bytes : List Cell → ℕ → Option Buffer
of_bytes pbuf n = renew n pbuf n

-- The copy constructor, and the second half of operator=
unfoldable pub copy : Buffer → Option Buffer
copy other = if other.len == 0 then some empty else renew other.len other.buf other.len

-- Set, of bytes that are not the buffer's own
unfoldable pub set_bytes : Buffer → List Cell → ℕ → Option Buffer
set_bytes b pbuf n =
    if n == 0 then some empty else if ltb b.alloc n then renew n pbuf n else overwrite b pbuf n

-- SetSize
unfoldable pub set_size : Buffer → ℕ → Option Buffer
set_size b n =
    if n == 0
    then some empty
    else if ltb b.alloc n
    then renew n b.buf b.alloc
    else some (record { alloc = b.alloc; len = n; buf = b.buf })

-- SetBuffer
unfoldable pub set_buffer : Buffer → List Cell → Option Buffer
set_buffer b pbuf = overwrite b pbuf b.len

-- operator[], which does not look at the length
unfoldable pub get_at : Buffer → ℕ → Option Cell
get_at b n = get_elem? b.buf n

-- The block is as long as recorded, and the length fits.
pub record IsValid (b : Buffer) : Type 0 where
  pub sized : length b.buf ≡ b.alloc
  pub fits : b.len ≤ b.alloc

-- What a client sees: the first `len` bytes.
abbrev pub contents : Buffer → List Cell
contents b = take b.len b.buf

abbrev pub Holds : Option Buffer → List Cell → Type 0
Holds r cs = (b : Buffer) × (r ≡ some b) × IsValid b × (contents b ≡ cs)
