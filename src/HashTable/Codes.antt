-- ===== src/HashTable/Codes.antt =====
-- The hash codes of libspider/HashTable.cpp stay inside the table.
use crowdspider.Base.{
  ℕ, ◌/◌, ◌<◌, ◌*◌, ◌+◌, ◌%◌, ◌^◌, [], ◌∷◌, arith, Bytes, c_str, ltb, ◌&&◌, Bool-cases, inl, inr,
  if◌then◌else◌,
}
use crowdspider.HashTable.{
  HashTable, UriKey, hash_size, hash_code, site_name_list_size, site_hash_code, doc_loop, doc_code,
}

pub hash_code-lt : (u : UriKey) → hash_code u < hash_size
unfolding hash_code
hash_code-lt u = omega arith

-- The code of every URL has its byte inside the table, and the code of a host its place in the site
-- list.
pub hash_code_in_table :
    (u : UriKey) (host : Bytes)
    → (hash_code u / 8 < hash_size / 8) × (site_hash_code host < site_name_list_size)
unfolding hash_code site_hash_code
hash_code_in_table u host = omega arith

doc_loop-lt : (size code : ℕ) (doc : Bytes) → 0 < size → code < size → doc_loop size code doc < size
unfolding doc_loop
doc_loop-lt size code [] h p = p
doc_loop-lt size code (c ∷ doc) h p = elim (Bool-cases (ltb b'A' c && ltb c b'z')) [
  | inl e ↦
      doc_loop-lt size (if ltb b'A' c && ltb c b'z' then (code * 23 + c) % 2 ^ 32 % size else code)
        doc h (rw e (omega arith))
  | inr e ↦
      doc_loop-lt size (if ltb b'A' c && ltb c b'z' then (code * 23 + c) % 2 ^ 32 % size else code)
        doc h (rw e p)
]

-- The code of a page lies below the table's size in bytes, so its bit lies in the first eighth of a
-- table that is not empty.
pub doc_code-lt : (t : HashTable) (doc : Bytes) → 0 < t.size → doc_code t doc < t.size
unfolding doc_code
doc_code-lt t doc h = doc_loop-lt t.size 0 (c_str doc) h h
