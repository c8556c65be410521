-- ===== src/Crawler/Flush.antt =====
-- Flushing a vector of lines to its file (libspider/Crawler.cpp).
use crowdspider.Base.{
  inr, ◌∙◌, inl, ap, ℕ, zero, suc, ◌+◌, ◌-◌, ◌≤◌, ◌<◌, ◌≡◌, refl, some, List, [], ◌∷◌, ◌++◌, arith,
  length, get_elem?, drop, ltb, Bytes, Bool-cases,
}
use mathlib.Core.List.{append-nil, append_assoc}
use crowdspider.Crawler.State.{flush, flush_loop}

drop_step :
    (v : List Bytes) (pos : ℕ)
    → pos < length v
    → (x : Bytes) × (get_elem? v pos ≡ some x) × (drop pos v ≡ x ∷ drop (suc pos) v)
drop_step [] pos h = absurd (omega arith)
drop_step (x ∷ v) zero h = (x, refl, refl)
drop_step (x ∷ v) (suc pos) h = drop_step v pos (omega arith)

drop_all : (v : List Bytes) → drop (length v) v ≡ []
drop_all [] = refl
drop_all (x ∷ v) = drop_all v

flush_loop_step :
    (k : ℕ) (v : List Bytes) (pos : ℕ) (file : List Bytes) {x : Bytes}
    → get_elem? v pos ≡ some x
    → flush_loop (suc k) v pos file ≡ flush_loop k v (pos + 1) (file ++ (x ∷ []))
unfolding flush_loop
flush_loop_step k v pos file g = ground arith

drop_add_one : (v : List Bytes) (pos : ℕ) → drop (pos + 1) v ≡ drop (suc pos) v
drop_add_one v pos = ap (λ k. drop k v) {x = pos + 1} {y = suc pos} (omega arith)

flush_loop_lem :
    (k : ℕ) (v : List Bytes) (pos : ℕ) (file : List Bytes)
    → k + pos ≡ length v
    → flush_loop k v pos file ≡ (file ++ drop pos v, length v)
flush_loop_lem zero v pos file h =
    let e : pos ≡ length v = omega arith in
    rw (e, drop_all v, append-nil) (unfold flush_loop in refl)
flush_loop_lem (suc k) v pos file h =
    let (x, g, d) = drop_step v pos (omega arith) in
    flush_loop_step k v pos file g
    ∙ flush_loop_lem k v (pos + 1) (file ++ (x ∷ [])) (omega arith)
    ∙ ap (λ (l : List Bytes). (l, length v))
        (append_assoc file (x ∷ []) (drop (pos + 1) v) ∙ rw (drop_add_one v pos, d) refl)

-- A flush appends exactly the lines that were not yet written, in order, and nothing when there
-- are none; afterwards all are written.
pub flush_lem :
    (v : List Bytes) (pos : ℕ) (file : List Bytes)
    → pos ≤ length v
    → flush v pos file ≡ (file ++ drop pos v, length v)
unfolding flush
flush_lem v pos file h = elim (Bool-cases (ltb pos (length v))) [
  | inl e ↦ rw e (flush_loop_lem (length v - pos) v pos file (ground arith))
  | inr e ↦ let q : pos ≡ length v = ground arith in rw (e, q, drop_all v, append-nil) refl
]
