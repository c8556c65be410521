-- ===== src/Slab/Fresh.antt =====
-- The objects that allocObj takes from a new slab (libspider/Slab.cpp).
use crowdspider.Base.{
  ℕ, zero, suc, ◌+◌, ◌%◌, ◌^◌, ◌<◌, ◌≡◌, refl, ◌∙◌, true, false, Option, some, List, [], ◌∷◌, arith,
  ◌==◌, ==_refl, ◌>>=◌,
}
use crowdspider.Slab.Objects.{link_objs, take_obj, alloc_obj}
use crowdspider.Slab.{Obj, Slab, Heap, obj_header, put_slab, put_obj, set_first}
use crowdspider.ListHead.{Ptr, get_next}
use crowdspider.ListHead.Ring.{Ring}
pub mod NewSlab

-- From `obj` on, `left` and one objects are linked in the order of their addresses.
abbrev pub ObjsFrom : (Ptr → Option Obj) → Ptr → ℕ → Ptr → ℕ → Type 0
ObjsFrom objs slab size obj zero = objs obj ≡ some (record { next = 0; slab = slab })
ObjsFrom objs slab size obj (suc left) =
    (objs obj ≡ some (record { next = obj + size; slab = slab }))
    × ObjsFrom objs slab size (obj + size) left

link_objs-below :
    (left : ℕ) (obj slab : Ptr) (size : ℕ) (h : Heap) (a : Ptr)
    → a < obj
    → (link_objs left obj slab size h).objs a ≡ h.objs a
unfolding link_objs
link_objs-below zero obj slab size h a lt = ground arith
link_objs-below (suc left) obj slab size h a lt = ground (
  arith,
  link_objs-below left (obj + size) slab size
      (put_obj h obj (record { next = obj + size; slab = slab })) a,
)

pub link_objs-ObjsFrom :
    (left : ℕ) (obj slab : Ptr) (size : ℕ) (h : Heap)
    → 0 < size
    → ObjsFrom ((link_objs left obj slab size h).objs) slab size obj left
unfolding link_objs
link_objs-ObjsFrom zero obj slab size h s = ground arith
link_objs-ObjsFrom (suc left) obj slab size h s =
    let g : Heap = put_obj h obj (record { next = obj + size; slab = slab }) in
    (
      ground (arith, link_objs-below left (obj + size) slab size g obj),
      link_objs-ObjsFrom left (obj + size) slab size g s,
    )

-- link_objs writes objects only.
pub link_objs_rest :
    (left : ℕ) (obj slab : Ptr) (size : ℕ) (h : Heap)
    → link_objs left obj slab size h ≡ record h { objs = (link_objs left obj slab size h).objs }
unfolding link_objs
link_objs_rest zero obj slab size h = refl
link_objs_rest (suc left) obj slab size h =
    link_objs_rest left (obj + size) slab size
      (put_obj h obj (record { next = obj + size; slab = slab }))

-- alloc_obj called as often as there is a number, and what it returned
unfoldable pub alloc_many : ℕ → Heap → Ptr → Option (List Ptr × Heap)
unfolding alloc_obj
alloc_many zero h self = some ([], h)
alloc_many (suc n) h self = do
  (p, h) ← alloc_obj h self
  (ps, h) ← alloc_many n h self
  some (p ∷ ps, h)

pub alloc_many-suc :
    (n : ℕ) (h : Heap) (self : Ptr) {g k : Heap} {p : Ptr} {ps : List Ptr}
    → alloc_obj h self ≡ some (p, g)
    → alloc_many n g self ≡ some (ps, k)
    → alloc_many (suc n) h self ≡ some (p ∷ ps, k)
unfolding alloc_many
alloc_many-suc n h self a b = rw (a, b) refl

-- The first `n` objects from one on, as their user sees them
unfoldable pub objects : ℕ → Ptr → ℕ → List Ptr
objects zero obj size = []
objects (suc n) obj size = (obj + obj_header) ∷ objects n (obj + size) size

-- The slab has given away some objects, and `obj` is the next.
pub record Filling (h : Heap) (self slab obj : Ptr) (used left : ℕ) : Type 0 where
  pub slab_at : h.slabs slab ≡ some (record { inuse = used; free = obj })
  pub objs : ObjsFrom h.objs slab (h.caches self).obj_size obj left
  pub first : (h.caches self).first_not_full ≡ slab
  pub list_ne : (slab == (h.caches self).slab_list) ≡ false
  pub ne_null : (slab == 0) ≡ false
  pub ring : Ring h.heads (h.caches self).slab_list (slab ∷ [])
  pub some_used : 0 < used
  pub fits : used + suc left < 2 ^ 32
  pub sized : 0 < (h.caches self).obj_size

-- All of its objects are given away, and no slab is left that has some.
pub record Filled (h : Heap) (self slab : Ptr) (used : ℕ) : Type 0 where
  pub slab_at : h.slabs slab ≡ some (record { inuse = used; free = 0 })
  pub first : (h.caches self).first_not_full ≡ (h.caches self).slab_list
  pub ring : Ring h.heads (h.caches self).slab_list (slab ∷ [])

alloc_obj-take_obj :
    (h : Heap) (self slab : Ptr) (s : Slab)
    → (h.caches self).first_not_full ≡ slab
    → (slab == (h.caches self).slab_list) ≡ false
    → h.slabs slab ≡ some s
    → 0 < s.inuse
    → (slab == 0) ≡ false
    → alloc_obj h self ≡ take_obj h self slab
unfolding alloc_obj
alloc_obj-take_obj h self slab s first ne at_slab used ok =
    let at_first : ((h.caches self).first_not_full == (h.caches self).slab_list) ≡ false =
      rw first ne in
    let some_used : (s.inuse == 0) ≡ false = ground arith in
    rw (at_first, first, at_slab, some_used, ok) refl

module _ (h : Heap) (self slab : Ptr) (used obj : ℕ)
    (at_slab : h.slabs slab ≡ some (record { inuse = used; free = obj }))
    (fits : suc used < 2 ^ 32) where
  pub take_obj_lem :
      (next : Ptr)
      → h.objs obj ≡ some (record { next = next; slab = slab })
      → 0 < next
      → take_obj h self slab
        ≡ some (obj + obj_header, put_slab h slab (record { inuse = suc used; free = next }))
  unfolding take_obj
  take_obj_lem next o n =
      let e : (used + 1) % 2 ^ 32 ≡ suc used = omega arith in
      let ne : (next == 0) ≡ false = ground arith in rw (at_slab, o, ne, e) refl

  pub take_obj_last :
      (h.objs obj ≡ some (record { next = 0; slab = slab }))
      → h.heads.live slab ≡ true
      → take_obj h self slab
        ≡ some (
          obj + obj_header,
          set_first
              (put_slab h slab (record { inuse = suc used; free = 0 }))
              self
              (h.heads.next slab),
        )
  unfolding take_obj get_next
  take_obj_last o l =
      let e : (used + 1) % 2 ^ 32 ≡ suc used = omega arith in rw (at_slab, o, l, e) refl

module _ {h : Heap} {self slab obj : Ptr} {used : ℕ} where
  alloc_obj-Filling :
      {left : ℕ}
      → Filling h self slab obj used (suc left)
      → (g : Heap) × (alloc_obj h self ≡ some (obj + obj_header, g))
        × Filling g self slab (obj + (h.caches self).obj_size) (suc used) left
        × (g.caches ≡ h.caches)
  alloc_obj-Filling {left} f =
      let next = obj + (h.caches self).obj_size in
      (
        put_slab h slab (record { inuse = suc used; free = next }),
        alloc_obj-take_obj h self slab _ f.first f.list_ne f.slab_at f.some_used f.ne_null
            ∙ take_obj_lem h self slab used obj f.slab_at (omega (arith, f.fits)) next f.objs.0
                (omega (arith, f.sized)),
        record {
          slab_at = ground arith;
          objs = f.objs.1;
          first = f.first;
          list_ne = f.list_ne;
          ne_null = f.ne_null;
          ring = f.ring;
          some_used = omega arith;
          fits = omega (arith, f.fits);
          sized = f.sized;
        },
        refl,
      )

  alloc_obj-Filled :
      Filling h self slab obj used zero
      → (g : Heap) × (alloc_obj h self ≡ some (obj + obj_header, g)) × Filled g self slab (suc used)
  alloc_obj-Filled f = (
    set_first (put_slab h slab (record { inuse = suc used; free = 0 })) self (h.heads.next slab),
    alloc_obj-take_obj h self slab _ f.first f.list_ne f.slab_at f.some_used f.ne_null
        ∙ take_obj_last h self slab used obj f.slab_at (omega (arith, f.fits)) f.objs
            f.ring.live.1.0,
    record {
      slab_at = ground arith;
      first = ground (arith, f.ring.linked.2.0);
      ring = rw (==_refl self) f.ring;
    },
  )

pub alloc_many-Filling :
    (left : ℕ) (h : Heap) (self slab obj : Ptr) (used size n : ℕ)
    → Filling h self slab obj used left
    → (h.caches self).obj_size ≡ size
    → n ≡ used + suc left
    → (g : Heap) × (alloc_many (suc left) h self ≡ some (objects (suc left) obj size, g))
      × Filled g self slab n
unfolding alloc_many objects
alloc_many-Filling zero h self slab obj used size n f s e =
    let (g, a, d) = alloc_obj-Filled f in
    let e' : n ≡ suc used = omega arith in (g, rw a refl, rw e' d)
alloc_many-Filling (suc left) h self slab obj used size n f s e =
    let (g, a, f', c) = alloc_obj-Filling f in
    let (g', a', d) =
      alloc_many-Filling left g self slab (obj + (h.caches self).obj_size) (suc used) size n f'
        (rw c s) (omega arith) in
    (g', rw (a, a', s) refl, d)
