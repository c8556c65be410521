-- ===== src/Slab/Fresh/NewSlab.antt =====
-- newSlab (libspider/Slab.cpp) on a cache without slabs, and all that allocObj then takes from the new slab.
use crowdspider.Base.{
  ℕ, zero, suc, ◌+◌, ◌^◌, ◌<◌, ◌≡◌, refl, ap, ◌∙◌, true, false, Option, some, List, [], ◌∷◌, arith,
  ◌==◌, ==_refl,
}
use crowdspider.Slab.Fresh.{
  link_objs-ObjsFrom, link_objs_rest, alloc_many, alloc_many-suc, objects, Filling, Filled,
  take_obj_lem, take_obj_last, alloc_many-Filling,
}
use crowdspider.Slab.Objects.{
  link_objs, first_objs, init_slab, new_slab, take_obj, pick_slab, alloc_obj,
}
use crowdspider.Slab.{Obj, Heap, slab_header, with_heads, put_slab, set_first, malloc}
use crowdspider.ListHead.{Ptr, update, Heads, add}
use crowdspider.ListHead.Ring.{Ring, add-Ring}
use crowdspider.ListHead.Segment.{has}

first_objs_lem :
    (left n : ℕ) (slab : Ptr) (size : ℕ) (h : Heap)
    → n ≡ suc left
    → first_objs n slab size h
      ≡ some (record h { objs = (link_objs left (slab + slab_header) slab size h).objs })
unfolding first_objs
first_objs_lem left n slab size h e =
    rw e (ap some (link_objs_rest left (slab + slab_header) slab size h))

init_slab_lem :
    (left : ℕ) (h : Heap) (self slab : Ptr) (g : Heads)
    → (h.caches self).num_objs ≡ suc left
    → add h.heads (h.caches self).slab_list slab ≡ some g
    → init_slab h self slab ≡ (
        let h1 = put_slab h slab (record { inuse = 0; free = slab + slab_header }) in
        let objs = (link_objs left (slab + slab_header) slab (h.caches self).obj_size h1).objs in
        some (slab, set_first (with_heads (record h1 { objs = objs }) g) self slab))
unfolding init_slab
init_slab_lem left h self slab g n a =
    let h1 = put_slab h slab (record { inuse = 0; free = slab + slab_header }) in
    rw (first_objs_lem left (h.caches self).num_objs slab (h.caches self).obj_size h1 n, a) refl

-- A cache with no slabs, and memory for one.
pub record Empty (h : Heap) (self slab : Ptr) (left : ℕ) (rest : List Ptr) : Type 0 where
  pub ring : Ring h.heads (h.caches self).slab_list []
  pub first : (h.caches self).first_not_full ≡ (h.caches self).slab_list
  pub num : (h.caches self).num_objs ≡ suc left
  pub mallocs : h.mallocs ≡ slab ∷ rest
  pub ne_null : (slab == 0) ≡ false
  pub list_ne : (slab == (h.caches self).slab_list) ≡ false
  pub sized : 0 < (h.caches self).obj_size
  pub fits : suc (suc left) < 2 ^ 32

-- The heads after malloc.
abbrev with_live : Heads → Ptr → Heads
with_live h p = record h { live = update h.live p true }

module _ {h : Heap} {self slab : Ptr} {left : ℕ} {rest : List Ptr}
    (e : Empty h self slab left rest) where
  abbrev made : Heap
  made =
      put_slab (record h { heads = with_live h.heads slab; mallocs = rest }) slab
        (record { inuse = 0; free = slab + slab_header })

  abbrev made_objs : Ptr → Option Obj
  made_objs = (link_objs left (slab + slab_header) slab (h.caches self).obj_size made).objs

  Ring-made : Ring (with_live h.heads slab) (h.caches self).slab_list []
  Ring-made = record {
    linked = e.ring.linked;
    live = (ground (arith, e.ring.live.0), tt);
    distinct = e.ring.distinct;
  }

  added-Ring :
      (g : Heads) × (add (with_live h.heads slab) (h.caches self).slab_list slab ≡ some g)
      × Ring g (h.caches self).slab_list (slab ∷ [])
      × (g.live ≡ update h.heads.live slab true)
  unfolding has
  added-Ring = add-Ring Ring-made (ground arith) (ground (arith, e.list_ne))

  malloc_lem : malloc h ≡ (slab, record h { heads = with_live h.heads slab; mallocs = rest })
  unfolding malloc
  malloc_lem = rw (e.mallocs, e.ne_null) refl

  alloc_obj-new :
      (g : Heads)
      → add (with_live h.heads slab) (h.caches self).slab_list slab ≡ some g
      → alloc_obj h self
        ≡ take_obj (set_first (with_heads (record made { objs = made_objs }) g) self slab) self slab
  unfolding alloc_obj pick_slab new_slab
  alloc_obj-new g a =
      let at_list : ((h.caches self).first_not_full == (h.caches self).slab_list) ≡ true =
        rw (e.first) (==_refl (h.caches self).slab_list) in
      rw
        (
          at_list,
          malloc_lem,
          e.ne_null,
          init_slab_lem left (record h { heads = with_live h.heads slab; mallocs = rest }) self slab
              g e.num a,
          e.ne_null,
        )
        refl

-- On a cache without slabs, with memory for one, allocObj gives the objects of the new slab in the order of their
-- addresses until all are given away, and then the slab is full.
pub alloc_many-Empty :
    (h : Heap) (self slab : Ptr) (left : ℕ) (rest : List Ptr)
    → Empty h self slab left rest
    → (g : Heap) × (alloc_many (suc left) h self
        ≡ some (objects (suc left) (slab + slab_header) (h.caches self).obj_size, g))
      × Filled g self slab (suc left)
unfolding alloc_many objects
alloc_many-Empty h self slab zero rest e =
    let (k, a, r, l) = added-Ring e in
    let h1 = set_first (with_heads (record (made e) { objs = made_objs e }) k) self slab in
    let o =
      link_objs-ObjsFrom zero (slab + slab_header) slab (h.caches self).obj_size (made e) e.sized in
    (
      set_first (put_slab h1 slab (record { inuse = 1; free = 0 })) self (k.next slab),
      rw
          (
            alloc_obj-new e k a,
            take_obj_last h1 self slab 0 (slab + slab_header) (ground arith) (omega arith) o
                (ground (arith, l)),
          )
          refl,
      record {
        slab_at = ground arith;
        first = ground (arith, r.linked.2.0);
        ring = rw (==_refl self) r;
      },
    )
alloc_many-Empty h self slab (suc left) rest e =
    let (k, a, r, l) = added-Ring e in
    let size = (h.caches self).obj_size in
    let h1 = set_first (with_heads (record (made e) { objs = made_objs e }) k) self slab in
    let o = link_objs-ObjsFrom (suc left) (slab + slab_header) slab size (made e) e.sized in
    let next = slab + slab_header + size in
    let h2 = put_slab h1 slab (record { inuse = 1; free = next }) in
    let f : Filling h2 self slab next 1 left = record {
      slab_at = ground arith;
      objs = rw (==_refl self) o.1;
      first = ground arith;
      list_ne = rw (==_refl self) e.list_ne;
      ne_null = e.ne_null;
      ring = rw (==_refl self) r;
      some_used = omega arith;
      fits = omega (arith, e.fits);
      sized = rw (==_refl self) e.sized;
    } in
    let (g, b, d) =
      alloc_many-Filling left h2 self slab next 1 size (suc (suc left)) f (rw (==_refl self) refl)
        (omega arith) in
    (
      g,
      alloc_many-suc (suc left) h self
          (alloc_obj-new e k a
            ∙ take_obj_lem h1 self slab 0 (slab + slab_header) (ground arith) (omega arith) next o.0
                (omega (arith, e.sized)))
          b,
      d,
    )
