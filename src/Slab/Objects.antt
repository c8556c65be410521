-- ===== src/Slab/Objects.antt =====
-- Cache::newSlab, allocObj, freeObj and ~Cache (libspider/Slab.cpp).
use crowdspider.Base.{
  ℕ, zero, suc, ◌+◌, ◌-◌, ◌%◌, ◌^◌, not, Option, none, some, ltb, ◌==◌, if◌then◌else◌, ◌>>=◌,
}
use crowdspider.Slab.{
  Heap, obj_header, slab_header, incr, decr, excess, with_heads, put_slab, put_obj, put_cache,
  set_first, malloc, free_block, reclaim, reclaim_all,
}
use crowdspider.ListHead.{Ptr, get_next, get_prev, is_empty, remove, remove_head, add}

-- The objects of a new slab, linked in the order of their addresses; `left` more come after this one.
unfoldable pub link_objs : ℕ → Ptr → Ptr → ℕ → Heap → Heap
link_objs zero obj slab size h = put_obj h obj (record { next = 0; slab = slab })
link_objs (suc left) obj slab size h =
    link_objs left (obj + size) slab size
      (put_obj h obj (record { next = obj + size; slab = slab }))

-- The objects have to be in the block; a cache of no objects writes one behind it.
unfoldable pub first_objs : ℕ → Ptr → ℕ → Heap → Option Heap
unfolding link_objs
first_objs zero slab size h = none
first_objs (suc left) slab size h = some (link_objs left (slab + slab_header) slab size h)

unfoldable pub init_slab : Heap → Ptr → Ptr → Option (Ptr × Heap)
init_slab h self slab = do
  h ←
      first_objs (h.caches self).num_objs slab (h.caches self).obj_size
        (put_slab h slab (record { inuse = 0; free = slab + slab_header }))
  g ← add h.heads (h.caches self).slab_list slab
  some (slab, set_first (with_heads h g) self slab)

-- malloc failed: the empty slabs of all caches are given back, and it is tried once more. Where none
-- was given back, the null pointer is written through.
unfoldable pub retry_slab : Heap → Ptr → Option (Ptr × Heap)
unfolding init_slab malloc
retry_slab h self = do
  (freed, h1) ← reclaim_all h
  if freed == 0
      then none
      else do let (slab, h2) = malloc h1; if slab == 0 then some (0, h2) else init_slab h2 self slab

-- Cache::newSlab; 0 is NULL.
unfoldable pub new_slab : Heap → Ptr → Option (Ptr × Heap)
unfolding malloc init_slab retry_slab
new_slab h self = do
  let (slab, h1) = malloc h
  if slab == 0 then retry_slab h1 self else init_slab h1 self slab

-- The object taken from a slab.
unfoldable pub take_obj : Heap → Ptr → Ptr → Option (Ptr × Heap)
take_obj h self slab = do
  s ← h.slabs slab
  o ← h.objs s.free
  let h1 = put_slab h slab (record { inuse = (s.inuse + 1) % 2 ^ 32; free = o.next })
  if not (o.next == 0)
      then some (s.free + obj_header, h1)
      else do n ← get_next h1.heads slab; some (s.free + obj_header, set_first h1 self n)

-- The slab to take from, 0 where there is no memory.
unfoldable pub pick_slab : Heap → Ptr → Option (Ptr × Heap)
unfolding new_slab
pick_slab h self = do
  let c = h.caches self
  if c.first_not_full == c.slab_list then new_slab h self else do
    s ← h.slabs c.first_not_full
    some (
      c.first_not_full,
      if s.inuse == 0
          then put_cache h self (record c { num_free_slabs = decr c.num_free_slabs })
          else h,
    )

-- Cache::allocObj; 0 is NULL.
unfoldable pub alloc_obj : Heap → Ptr → Option (Ptr × Heap)
unfolding pick_slab
alloc_obj h self = do
  (slab, h1) ← pick_slab h self
  if slab == 0 then some (0, h1) else take_obj h1 self slab

-- A full slab has an object again: it goes in front of the first that is not full.
unfoldable pub unfill : Heap → Ptr → Ptr → Option Heap
unfill h self slab = do
  let t = (h.caches self).first_not_full
  let h1 = set_first h self slab
  n ← get_next h1.heads slab
  if n == t then some h1 else do g ← remove h1.heads slab; g ← add g t slab; some (with_heads h1 g)

-- An empty slab goes to the end of the ring.
unfoldable pub move_last : Heap → Ptr → Ptr → Option Heap
move_last h self slab = do
  t ← get_prev h.heads (h.caches self).first_not_full
  g ← remove h.heads slab
  g ← add g (h.caches self).slab_list slab
  let h1 = with_heads h g
  if not ((h1.caches self).first_not_full == slab)
      then some h1
      else do n ← get_next h1.heads t; some (set_first h1 self n)

abbrev pub one_more_free : Heap → Ptr → Heap
one_more_free h self =
    put_cache h self
      (record (h.caches self) { num_free_slabs = incr (h.caches self).num_free_slabs })

-- A slab has become empty: where there are too many such, some are given back before it is moved.
unfoldable pub retire : Heap → Ptr → Ptr → Option Heap
unfolding move_last
retire h self slab = do
  let n = excess (incr (h.caches self).num_free_slabs)
  (freed, h1) ←
      if ltb 0 n then reclaim (one_more_free h self) self n else some (0, one_more_free h self)
  move_last h1 self slab

-- Cache::freeObj
unfoldable pub free_obj : Heap → Ptr → Ptr → Option Heap
unfolding unfill retire
free_obj h self p = do
  o ← h.objs (p - obj_header)
  s ← h.slabs o.slab
  let inuse = (s.inuse + 2 ^ 32 - 1) % 2 ^ 32
  let h1 = put_obj h (p - obj_header) (record o { next = s.free })
  let h2 = put_slab h1 o.slab (record { inuse = inuse; free = p - obj_header })
  if s.inuse == (h.caches self).num_objs
      then unfill h2 self o.slab
      else if inuse == 0
      then retire h2 self o.slab
      else some h2

-- Cache::~Cache, with fuel for the slabs
unfoldable pub destroy : ℕ → Heap → Ptr → Option Heap
destroy zero h self = none
destroy (suc fuel) h self = do
  done ← is_empty h.heads (h.caches self).slab_list
  let rest = λ (h : Heap). destroy fuel h self
  if done then some h else do
    (slab, g) ← remove_head h.heads (h.caches self).slab_list
    rest (free_block (with_heads h g) slab (h.caches self).slab_size)
