-- ===== src/HashTable/Backup/RoundTrip.antt =====
-- A bit table written to hashtable.bak by HashTable::saveToFile and read by the constructor of HashTable
-- (libspider/HashTable.cpp).
use crowdspider.Base.{
  ℕ, zero, suc, ◌+◌, ◌-◌, ◌<◌, ◌≤◌, ◌≡◌, refl, ap, sym, ◌∙◌, true, false, Option, none, some, List,
  [], ◌∷◌, ◌++◌, ◌==◌, ltb, leb, if◌then◌else◌, ◌&&◌, Bytes, take, drop, length, arith, Bool-cases,
  inl, inr,
}
use mathlib.Core.List.{append-nil, append_assoc}
use crowdspider.HashTable.{HashTable}
use crowdspider.HashTable.Backup.{
  slice, Wrote, took, interrupted, failed, save_loop, Files, save_to_file, Got, upto, broken,
  Loaded, loaded, at_most, store, load_loop, load,
}

-- How many bytes the writes take together, none failing, and the reads, each giving some.
abbrev pub Takes : List Wrote → ℕ → Type 0
Takes [] n = n ≡ 0
Takes (took k ∷ ws) n = Takes ws (n - k)
Takes (interrupted ∷ ws) n = Takes ws n
Takes (failed ∷ ws) n = ⊥

abbrev pub Gives : List Got → ℕ → Type 0
Gives [] n = n ≡ 0
Gives (upto k ∷ rs) n = (0 < k) × Gives rs (n - k)
Gives (broken ∷ rs) n = ⊥

slice-append :
    (f : ℕ → ℕ) (pos q k n m : ℕ)
    → q ≡ pos + k
    → m ≡ k + n
    → slice f pos m ≡ slice f pos k ++ slice f q n
unfolding slice
slice-append f pos q zero n m e e' =
    let p : q ≡ pos = omega arith in let p' : m ≡ n = omega arith in rw (p, p') refl
slice-append f pos q (suc k) n m e e' =
    let p' : m ≡ suc (k + n) = omega arith in
    rw p' (ap (◌∷◌ (f pos)) (slice-append f (pos + 1) q k n (k + n) (omega arith) refl))

save_loop-slice :
    (ws : List Wrote) (f : ℕ → ℕ) (count pos : ℕ) (file : Bytes)
    → Takes ws (count - pos)
    → save_loop ws f count pos file ≡ some (file ++ slice f pos (count - pos))
unfolding save_loop slice
save_loop-slice [] f count pos file t =
    let done : ltb pos count ≡ false = ground arith in rw (done, t, append-nil file) refl
save_loop-slice (took n ∷ ws) f count pos file t = elim (Bool-cases (ltb pos count)) [
  | inl more ↦
      let k = at_most n (count - pos) in
      let left : count - (pos + k) ≡ count - pos - n = ground arith in
      let joined =
        slice-append f pos (pos + k) k (count - (pos + k)) (count - pos) refl (ground arith) in
      rw more (
        save_loop-slice ws f count (pos + k) (file ++ slice f pos k) (rw left t)
        ∙ ap some (
            append_assoc file (slice f pos k) (slice f (pos + k) (count - (pos + k)))
            ∙ ap (λ s. file ++ s) (sym joined)))
  | inr done ↦ let e : count - pos ≡ 0 = ground arith in rw (done, e, append-nil file) refl
]
save_loop-slice (interrupted ∷ ws) f count pos file t = elim (Bool-cases (ltb pos count)) [
  | inl more ↦ rw more (save_loop-slice ws f count pos file t)
  | inr done ↦ let e : count - pos ≡ 0 = ground arith in rw (done, e, append-nil file) refl
]
save_loop-slice (failed ∷ ws) f count pos file t = absurd t

length-slice : (f : ℕ → ℕ) (pos n : ℕ) → length (slice f pos n) ≡ n
unfolding slice
length-slice f pos zero = refl
length-slice f pos (suc n) = omega (arith, length-slice f (pos + 1) n)

-- Storing a slice where it was taken from gives its bytes back.
store-slice :
    (g f : ℕ → ℕ) (pos n i : ℕ)
    → store g pos (slice f pos n) i ≡ (if leb pos i && ltb i (pos + n) then f i else g i)
unfolding store slice
store-slice g f pos zero i = ground arith
store-slice g f pos (suc n) i = ground (arith, store-slice g f (pos + 1) n i)

take-slice : (f : ℕ → ℕ) (pos k m : ℕ) → k ≤ m → take k (slice f pos m) ≡ slice f pos k
unfolding slice
take-slice f pos zero m h = refl
take-slice f pos (suc k) zero h = absurd (omega arith)
take-slice f pos (suc k) (suc m) h = ap (◌∷◌ (f pos)) (take-slice f (pos + 1) k m (omega arith))

drop-slice :
    (f : ℕ → ℕ) (pos q k m n : ℕ) → q ≡ pos + k → m ≡ k + n → drop k (slice f pos m) ≡ slice f q n
unfolding slice
drop-slice f pos q zero m n e e' =
    let p : q ≡ pos = omega arith in let p' : m ≡ n = omega arith in rw (p, p') refl
drop-slice f pos q (suc k) m n e e' =
    let p : m ≡ suc (k + n) = omega arith in
    rw p (drop-slice f (pos + 1) q k (k + n) n (omega arith) refl)

-- A table with these bytes
abbrev pub Holds : (ℕ → ℕ) → ℕ → Option Loaded → Type 0
Holds f size r =
    (g : ℕ → ℕ) × (r ≡ some (loaded (record { size = size; table = g })))
    × ((i : ℕ) → i < size → g i ≡ f i)

load_loop-Holds :
    (rs : List Got) (f g : ℕ → ℕ) (size len : ℕ)
    → Gives rs (size - len)
    → len ≤ size
    → ((i : ℕ) → i < len → g i ≡ f i)
    → Holds f size (load_loop rs (slice f len (size - len)) size len g)
unfolding load_loop
load_loop-Holds [] f g size len gives le same =
    let done : ltb len size ≡ false = ground arith in
    (g, rw done refl, λ i h. same i (omega (arith, gives)))
load_loop-Holds (broken ∷ rs) f g size len gives le same = absurd gives
load_loop-Holds (upto n ∷ rs) f g size len (pos_n, gives) le same =
    elim (Bool-cases (ltb len size)) [
      | inr done ↦ (g, rw done refl, λ i h. same i (ground arith))
      | inl more ↦
          let k = at_most n (size - len) in
          let left : size - (len + k) ≡ size - len - n = ground arith in
          let got = take-slice f len k (size - len) (ground arith) in
          let after =
            drop-slice f len (len + k) k (size - len) (size - (len + k)) refl (ground arith) in
          let some_got : (k == 0) ≡ false = ground arith in
          rw (more, got, after, length-slice f len k, some_got)
            (load_loop-Holds rs f (store g len (slice f len k)) size (len + k) (rw left gives)
              (ground arith) (λ i h. ground (arith, store-slice g f len k i, same i)))
    ]

-- A table saved over any files, by writes that are interrupted but do not fail and take all of its bytes, is
-- loaded as it was by reads that each give some.
pub load-save_to_file :
    (fs : Files) (t : HashTable) (ws : List Wrote) (rs : List Got) (new : ℕ → ℕ)
    → Takes ws t.size
    → Gives rs t.size
    → (gs : Files) × (save_to_file fs true ws t ≡ some gs)
      × Holds t.table t.size (load gs rs t.size new)
unfolding save_to_file load
load-save_to_file fs t ws rs new takes gives =
    let e : t.size - 0 ≡ t.size = omega arith in
    let saved = rw e at (save_loop-slice ws t.table t.size 0 [] (rw e takes)) in
    let held =
      rw e at
        (load_loop-Holds rs t.table new t.size 0 (rw e gives) (omega arith) (λ i h. elim h [ ])) in
    (record { bak = some (slice t.table 0 t.size); old = none }, rw saved refl, held)
