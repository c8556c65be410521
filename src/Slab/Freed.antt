-- ===== src/Slab/Freed.antt =====
-- A slab that becomes empty at the end of the ring (freeObj and reclaim in libspider/Slab.cpp).
use crowdspider.Base.{
  ℕ, zero, suc, ◌+◌, ◌-◌, ◌<◌, ◌≡◌, refl, inl, inr, Bool, true, false, Option, none, some, List, [],
  ◌∷◌, ◌++◌, arith, ◌==◌, if◌then◌else◌, lt→ltb, ==_refl, Bool-cases, Option-cases, ◌>>=◌,
}
use crowdspider.Slab.Objects.{move_last, one_more_free, retire, free_obj}
use crowdspider.Slab.{
  Slab, Heap, obj_header, incr, excess, put_slab, put_obj, set_first, free_block, free_last,
  reclaim_loop, reset_first, reclaim,
}
use crowdspider.ListHead.{Ptr, Heads, get_prev, remove}
use crowdspider.ListHead.Ring.{Ring, Ring-last}

remove-live : (h : Heads) (x : Ptr) (g : Heads) → remove h x ≡ some g → g.live ≡ h.live
unfolding remove
remove-live h x g e = ground arith

remove_dead : (h : Heads) (x : Ptr) → h.live x ≡ false → remove h x ≡ none
unfolding remove
remove_dead h x e = rw e refl

-- What holds of the heap of a result, if there is one.
abbrev Ensures : (Heap → Type 0) → Option (ℕ × Heap) → Type 0
Ensures P none = Unit
Ensures P (some r) = P r.1

abbrev Dead : Ptr → Heap → Type 0
Dead q h = h.heads.live q ≡ false

heads-if-set_first :
    (b : Bool) (h : Heap) (self p : Ptr) → (if b then set_first h self p else h).heads ≡ h.heads
heads-if-set_first true h self p = refl
heads-if-set_first false h self p = refl

free_last-Dead :
    (h : Heap) (self p q : Ptr) (g : Heap)
    → h.heads.live q ≡ false
    → free_last h self p ≡ some g
    → Dead q g
unfolding free_last free_block
free_last-Dead h self p q g d e = elim (Option-cases (get_prev h.heads p)) [
  | inl n ↦ cc (rw n at e)
  | inr (b, s) ↦
      let same = heads-if-set_first ((h.caches self).first_not_full == p) h self b in
      let e' = rw (s, same) at e in
      elim (Option-cases (remove h.heads p)) [
        | inl n ↦ cc (rw n at e')
        | inr (k, r) ↦ ground (arith, rw r at e', remove-live h.heads p k r)
      ]
]

counted :
    (P : Heap → Type 0) (r : Option (ℕ × Heap))
    → Ensures P r
    → Ensures P (r >>= λ (i, h2). some (i + 1, h2))
counted P none e = tt
counted P (some r) e = e

reclaim_loop-Dead :
    (left : ℕ) (self : Ptr) (h : Heap) (q : Ptr)
    → Dead q h
    → Ensures (Dead q) (reclaim_loop left self h)
unfolding reclaim_loop
reclaim_loop-Dead zero self h q d = d
reclaim_loop-Dead (suc left) self h q d =
    elim (Option-cases (get_prev h.heads (h.caches self).slab_list)) [
      | inl n ↦ rw n tt
      | inr (p, e) ↦ rw e (elim (Bool-cases (p == (h.caches self).slab_list)) [
        | inl t ↦ rw t d
        | inr f ↦ rw f (elim (Option-cases (h.slabs p)) [
          | inl n ↦ rw n tt
          | inr (slab, e) ↦ rw e (elim (Bool-cases (slab.inuse == 0)) [
            | inr t ↦ rw t d
            | inl f ↦ rw f (elim (Option-cases (free_last h self p)) [
              | inl n ↦ rw n tt
              | inr (g, e) ↦ rw e (
                  counted (Dead q) (reclaim_loop left self g)
                    (reclaim_loop-Dead left self g q (free_last-Dead h self p q g d e)))
            ])
          ])
        ])
      ])
    ]

reset_first-heads :
    (h : Heap) (self t : Ptr) (g : Heap) → reset_first h self t ≡ some g → g.heads ≡ h.heads
unfolding reset_first
reset_first-heads h self t g e = ground arith

free_last-kills : (h : Heap) (self p : Ptr) (g : Heap) → free_last h self p ≡ some g → Dead p g
unfolding free_last free_block
free_last-kills h self p g e = elim (Option-cases (get_prev h.heads p)) [
  | inl n ↦ cc (rw n at e)
  | inr (b, s) ↦
      let same = heads-if-set_first ((h.caches self).first_not_full == p) h self b in
      let e' = rw (s, same) at e in
      elim (Option-cases (remove h.heads p)) [
        | inl n ↦ cc (rw n at e')
        | inr (k, r) ↦ ground (arith, rw r at e')
      ]
]

move_last-Dead : (h : Heap) (self q : Ptr) → Dead q h → move_last h self q ≡ none
unfolding move_last
move_last-Dead h self q d = elim (Option-cases (get_prev h.heads (h.caches self).first_not_full)) [
  | inl n ↦ rw n refl
  | inr (t, e) ↦ rw (e, remove_dead h.heads q d) refl
]

module _ (h : Heap) (self : Ptr) where
  reclaim-Dead :
      (n : ℕ) (q : Ptr)
      → Ensures (Dead q) (reclaim_loop n self h)
      → Ensures (Dead q) (reclaim h self n)
  unfolding reclaim
  reclaim-Dead n q d = elim (Option-cases (reclaim_loop n self h)) [
    | inl e ↦ rw e tt
    | inr ((i, g), e) ↦
        let d' : Dead q g = rw e at d in
        rw e (elim (Option-cases (reset_first g self (h.caches self).first_not_full)) [
          | inl n ↦ rw n tt
          | inr (k, s) ↦ rw s (rw (reset_first-heads g self (h.caches self).first_not_full k s) d')
        ])
  ]

  -- An empty slab at the end of the ring is the first to be freed.
  reclaim-last :
      (n : ℕ) (xs : List Ptr) (q : Ptr) (s : Slab)
      → 0 < n
      → Ring h.heads (h.caches self).slab_list (xs ++ q ∷ [])
      → h.slabs q ≡ some s
      → (s.inuse == 0) ≡ true
      → Ensures (Dead q) (reclaim_loop n self h)
  unfolding reclaim_loop
  reclaim-last zero xs q s pos_n ring at_q empty = absurd (omega arith)
  reclaim-last (suc left) xs q s pos_n ring at_q empty =
      let (last, ne) = Ring-last xs q ring in
      rw (last, ne, at_q, empty)
        (elim (Option-cases (free_last h self q)) [
          | inl n ↦ rw n tt
          | inr (g, e) ↦ rw e (
              counted (Dead q) (reclaim_loop left self g)
                (reclaim_loop-Dead left self g q (free_last-kills h self q g e)))
        ])

  -- Where reclaim frees the slab that retire is about to move, the move is a fault.
  retire-Dead :
      (q : Ptr) (n : ℕ)
      → n ≡ excess (incr (h.caches self).num_free_slabs)
      → 0 < n
      → Ensures (Dead q) (reclaim (one_more_free h self) self n)
      → retire h self q ≡ none
  unfolding retire
  retire-Dead q n e many d =
      rw (← e, lt→ltb 0 n many)
        (elim (Option-cases (reclaim (one_more_free h self) self n)) [
          | inl f ↦ rw f refl
          | inr ((i, g), f) ↦ rw f (move_last-Dead g self q (rw f at d))
        ])

-- The object `p` is the only one in use of its slab, which is the last of the ring, as it is where no slab is empty.
pub record LastOne (h : Heap) (self p slab : Ptr) (xs : List Ptr) : Type 0 where
  pub ring : Ring h.heads (h.caches self).slab_list (xs ++ slab ∷ [])
  pub obj_next : Ptr
  pub obj : h.objs (p - obj_header) ≡ some (record { next = obj_next; slab = slab })
  pub slab_free : Ptr
  pub slab_used : h.slabs slab ≡ some (record { inuse = 1; free = slab_free })
  pub many_objs : (1 == (h.caches self).num_objs) ≡ false

-- freeObj of the only object in use of the last slab of the ring, where the counter of empty slabs has
-- reached its limit, moves the slab after reclaim has freed it, which is a fault.
pub free_obj-LastOne :
    {h : Heap} {self p slab : Ptr} {xs : List Ptr}
    → LastOne h self p slab xs
    → 0 < excess (incr (h.caches self).num_free_slabs)
    → free_obj h self p ≡ none
unfolding free_obj
free_obj-LastOne {h} {self} {p} {slab} {xs} l many =
    let h1 : Heap =
      put_slab (put_obj h (p - obj_header) (record { next = l.slab_free; slab = slab })) slab
        (record { inuse = 0; free = p - obj_header }) in
    let n = excess (incr (h.caches self).num_free_slabs) in
    let h2 : Heap = one_more_free h1 self in
    let ring' : Ring h.heads (h2.caches self).slab_list (xs ++ slab ∷ []) =
      rw (==_refl self) l.ring in
    rw (l.obj, l.slab_used, l.many_objs)
      (retire-Dead h1 self slab n refl many (
        reclaim-Dead h2 self n slab (
          reclaim-last h2 self n xs slab (record { inuse = 0; free = p - obj_header }) many ring'
            (rw (==_refl slab) refl) refl)))
