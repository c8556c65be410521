-- ===== src/Tests/HashTable.antt =====
-- The bit table: runs and instances.
use crowdspider.Base.{◌+◌, List, none, arith, ◌≡◌, refl, some, true, false, [], ◌∷◌, codes}
use crowdspider.HashTable.{HashTable, UriKey, create, hash_code, test, bit_at, hash_loop}
use crowdspider.HashTable.Backup.{Files, Wrote, took, interrupted, Got, upto, save_to_file, load}
use crowdspider.HashTable.Backup.RoundTrip.{Holds, load-save_to_file}
use crowdspider.HashTable.Seen.{offer, first_seen, offer-first_seen}

abbrev page : UriKey
page = record { hostname = codes "h.org"; port = 80; path = codes "/a" }

abbrev other : UriKey
other = record { hostname = codes "h.org"; port = 80; path = codes "/b" }

offer-first_seen_example :
    (t' : HashTable) × (offer create (page ∷ other ∷ page ∷ [])
      ≡ some (first_seen [] (page ∷ other ∷ page ∷ []), t'))
offer-first_seen_example = offer-first_seen (page ∷ other ∷ page ∷ [])

fresh_page : test create page ≡ some false
unfolding test bit_at hash_code hash_loop
fresh_page = refl

-- A table of three bytes, written by two writes that are interrupted once, and read by two reads
abbrev three : HashTable
three = record { size = 3; table = λ i. i + 7 }

abbrev writes : List Wrote
writes = took 2 ∷ interrupted ∷ took 5 ∷ []

abbrev reads : List Got
reads = upto 1 ∷ upto 9 ∷ []

load-save_to_file_example :
    (gs : Files) × (save_to_file (record { bak = none; old = none }) true writes three ≡ some gs)
    × Holds (λ i. i + 7) 3 (load gs reads 3 (λ i. 0))
load-save_to_file_example =
    load-save_to_file (record { bak = none; old = none }) three writes reads (λ i. 0) refl
      (omega arith, (omega arith, refl))
