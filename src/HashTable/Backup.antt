-- ===== src/HashTable/Backup.antt =====
-- HashTable::saveToFile and the constructor that reads hashtable.bak (libspider/HashTable.cpp).
use crowdspider.Base.{
  ℕ, zero, suc, ◌+◌, ◌-◌, ◌<◌, ◌≤◌, ◌≡◌, ◌≢◌, refl, ap, sym, ◌∙◌, Bool, true, false, Option, none,
  some, List, [], ◌∷◌, ◌++◌, ◌==◌, ltb, leb, if◌then◌else◌, ◌>>=◌, ◌&&◌, Bytes, take, drop, length,
  arith, All, Bool-cases, Option-cases, inl, inr,
}
use crowdspider.HashTable.{HashTable}
pub mod RoundTrip

-- The bytes of a table from `pos` on
unfoldable pub slice : (ℕ → ℕ) → ℕ → ℕ → Bytes
slice f pos zero = []
slice f pos (suc n) = f pos ∷ slice f (pos + 1) n

-- What a call of `write` does: it takes at most so many bytes, is interrupted, or fails.
pub data Wrote : Type 0 where
  took : ℕ → Wrote
  interrupted failed : Wrote

abbrev pub at_most : ℕ → ℕ → ℕ
at_most n k = if ltb k n then k else n

-- The loop of saveToFile with the bytes written so far; `none` is a loop that waits for another write.
unfoldable pub save_loop : List Wrote → (ℕ → ℕ) → ℕ → ℕ → Bytes → Option Bytes
save_loop [] f count pos file = if ltb pos count then none else some file
save_loop (took n ∷ ws) f count pos file =
    let k = at_most n (count - pos) in
    let rest = save_loop ws f count (pos + k) (file ++ slice f pos k) in
    if ltb pos count then rest else some file
save_loop (interrupted ∷ ws) f count pos file =
    let rest = save_loop ws f count pos file in if ltb pos count then rest else some file
save_loop (failed ∷ ws) f count pos file = some file

-- hashtable.bak and hashtable.old, where they are
pub record Files : Type 0 where
  pub bak : Option Bytes
  pub old : Option Bytes

-- rename("hashtable.bak", "hashtable.old")
unfoldable pub rename_bak : Files → Files
rename_bak fs = elim (fs.bak) [ none ↦ fs | some b ↦ record { bak = none; old = some b } ]

-- HashTable::saveToFile, with whether creat succeeds and what the writes do
unfoldable pub save_to_file : Files → Bool → List Wrote → HashTable → Option Files
unfolding save_loop rename_bak
save_to_file fs false ws t = some (record (rename_bak fs) { old = none })
save_to_file fs true ws t = do
  file ← save_loop ws t.table t.size 0 []
  some (record { bak = some file; old = none })

-- What a call of `read` gives at most, or that it fails.
pub data Got : Type 0 where
  upto : ℕ → Got
  broken : Got

-- The table that the constructor leaves, or that it ends the program.
pub data Loaded : Type 0 where
  loaded : HashTable → Loaded
  exits : Loaded

unfoldable pub store : (ℕ → ℕ) → ℕ → Bytes → ℕ → ℕ
store f pos [] i = f i
store f pos (b ∷ bs) i = if i == pos then b else store f (pos + 1) bs i

-- The loop of the constructor over what is left of the file
unfoldable pub load_loop : List Got → Bytes → ℕ → ℕ → (ℕ → ℕ) → Option Loaded
load_loop [] file size len f =
    if ltb len size then none else some (loaded (record { size = size; table = f }))
load_loop (broken ∷ rs) file size len f =
    if ltb len size then some exits else some (loaded (record { size = size; table = f }))
load_loop (upto n ∷ rs) file size len f =
    let bytes = take (at_most n (size - len)) file in
    let rest =
      load_loop rs (drop (at_most n (size - len)) file) size (len + length bytes)
        (store f len bytes) in
    if ltb len size
    then (if length bytes == 0 then some exits else rest)
    else some (loaded (record { size = size; table = f }))

-- HashTable::HashTable where `create` is false; `f` is what new memory holds.
unfoldable pub load : Files → List Got → ℕ → (ℕ → ℕ) → Option Loaded
unfolding load_loop
load fs rs size f = elim (fs.bak) [
  | none ↦ some (loaded (record { size = size; table = λ i. 0 }))
  | some file ↦ load_loop rs file size 0 f
]

rename_bak_moves : (fs : Files) → (rename_bak fs).bak ≡ none
unfolding rename_bak
rename_bak_moves fs = elim (Option-cases fs.bak) [
  | inl n ↦ rw (n, rename_bak) n
  | inr (b, s) ↦ rw (s, rename_bak) refl
]

-- Where the new file cannot be made, no file is left, also if there was one, and the next start is on an empty
-- table.
pub save_to_file_lost :
    (fs : Files) (t : HashTable) (ws : List Wrote) (rs : List Got) (size : ℕ) (new : ℕ → ℕ)
    → (gs : Files) × (save_to_file fs false ws t ≡ some gs)
      × (gs ≡ record { bak = none; old = none })
      × (load gs rs size new ≡ some (loaded (record { size = size; table = λ i. 0 })))
unfolding save_to_file load
save_to_file_lost fs t ws rs size new =
    (record { bak = none; old = none }, rw (rename_bak_moves fs) refl, refl, refl)
