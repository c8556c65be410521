-- ===== src/HashTable.antt =====
-- libspider/HashTable.cpp and HashTable.h: the bit table that remembers which URLs and pages were seen.
-- `m_table` is a function from an index below `m_size` to a byte; an index out of range is `none`.
use Prim.Native.Nat.{bit_and, bit_or}
use crowdspider.Base.{
  ℕ, zero, suc, ◌+◌, ◌-◌, ◌*◌, ◌/◌, ◌%◌, ◌^◌, Bool, true, false, not, ◌&&◌, Option, none, some,
  List, [], ◌∷◌, ltb, ◌==◌, if◌then◌else◌, ◌>>=◌, Bytes, c_str, schar,
}
pub mod Codes
pub mod Seen
pub mod Backup

-- HASH_SIZE and SITE_NAME_LIST_SIZE
abbrev pub hash_size : ℕ
hash_size = 64_000_000

abbrev pub site_name_list_size : ℕ
site_name_list_size = 20_000

pub record HashTable : Type 0 where
  pub size : ℕ
  pub table : ℕ → ℕ

-- The constructor with `create`; hashtable.bak, where it is read, gives the bytes otherwise.
abbrev pub create : HashTable
create = record { size = hash_size / 8; table = λ pos. 0 }

-- What a hash code is taken of: a URI's host name, port and path.
pub record UriKey : Type 0 where
  pub hostname : Bytes
  pub port : ℕ
  pub path : Bytes

-- `while (s[i] != 0) { h = k * h + s[i]; i++; }` on a 32-bit `h`
unfoldable pub hash_loop : ℕ → ℕ → Bytes → ℕ
hash_loop k h [] = h
hash_loop k h (c ∷ s) = hash_loop k ((k * h + schar c) % 2 ^ 32) s

-- HashTable::hashCode, which reads the texts of hostname() and path() through pointers into strings that
-- are gone by then: these share their characters with the fields of Uri, as the copy-on-write strings of
-- GCC's older library do.
unfoldable pub hash_code : UriKey → ℕ
hash_code u = hash_loop 31 (hash_loop 31 u.port (c_str u.hostname)) (c_str u.path) % hash_size

-- HashTable::siteHashCode
unfoldable pub site_hash_code : Bytes → ℕ
site_hash_code host = hash_loop 37 0 (c_str host) % site_name_list_size

-- The loop of testSet(char *): only the characters strictly between 'A' and 'z' count.
unfoldable pub doc_loop : ℕ → ℕ → Bytes → ℕ
doc_loop size code [] = code
doc_loop size code (c ∷ doc) =
    doc_loop size (if ltb b'A' c && ltb c b'z' then (code * 23 + c) % 2 ^ 32 % size else code) doc

unfoldable pub doc_code : HashTable → Bytes → ℕ
doc_code t doc = doc_loop t.size 0 (c_str doc)

-- `m_table[code / 8] & (1 << (code % 8))` is not zero
unfoldable pub bit_at : HashTable → ℕ → Option Bool
bit_at t code =
    if ltb (code / 8) t.size
    then some (not (bit_and (t.table (code / 8)) (2 ^ (code % 8)) == 0))
    else none

update : (ℕ → ℕ) → ℕ → ℕ → ℕ → ℕ
update f i v j = if j == i then v else f j

-- `m_table[code / 8] |= 1 << (code % 8)`
unfoldable pub set_bit_at : HashTable → ℕ → Option HashTable
unfolding update
set_bit_at t code =
    if ltb (code / 8) t.size
    then some (record t {
      table = update t.table (code / 8) (bit_or (t.table (code / 8)) (2 ^ (code % 8)));
    })
    else none

test_set_at : HashTable → ℕ → Option (Bool × HashTable)
test_set_at t code = bit_at t code >>= λ res. set_bit_at t code >>= λ t'. some (not res, t')

-- HashTable::test
unfoldable pub test : HashTable → UriKey → Option Bool
test t u = bit_at t (hash_code u)

-- HashTable::set
unfoldable pub set : HashTable → UriKey → Option HashTable
set t u = set_bit_at t (hash_code u)

-- HashTable::testSet(Uri *)
unfoldable pub test_set : HashTable → UriKey → Option (Bool × HashTable)
unfolding test_set_at
test_set t u = test_set_at t (hash_code u)

-- HashTable::testSet(char *)
unfoldable pub test_set_doc : HashTable → Bytes → Option (Bool × HashTable)
unfolding test_set_at
test_set_doc t doc = test_set_at t (doc_code t doc)
