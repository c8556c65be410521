-- ===== src/Slab.antt =====
-- Cache (libspider/Slab.cpp, libspider/Slab.h): objects of one size in slabs, on a heap with the ring of slabs.
-- `none` is an access outside of what is allocated.
use crowdspider.Base.{
  ℕ, zero, suc, ◌+◌, ◌-◌, ◌*◌, true, false, not, ◌&&◌, ◌||◌, Option, none, some, List, [], ◌∷◌, ltb,
  leb, ◌==◌, if◌then◌else◌, ◌>>=◌,
}
use crowdspider.Base.Int.{ℤ, pos, negsuc}
use crowdspider.ListHead.{Ptr, update, Heads, get_prev, remove}
pub mod Objects
pub mod Freed
pub mod Fresh

-- OBJ and SLAB; a slab's item is its first member, so that both have one address.
pub record Obj : Type 0 where
  pub next : Ptr
  pub slab : Ptr

-- `inuse` is the bit pattern of an int.
pub record Slab : Type 0 where
  pub inuse : ℕ
  pub free : Ptr

-- The members of Cache; `slab_list` is the address of slabList.
pub record Cache : Type 0 where
  pub slab_list : Ptr
  pub first_not_full : Ptr
  pub obj_size : ℕ
  pub num_objs : ℕ
  pub num_free_slabs : ℤ
  pub slab_size : ℕ

-- All memory: heads, slabs, objects and caches by address, the chain from cacheList on, and what malloc
-- gives next, 0 for NULL.
pub record Heap : Type 0 where
  pub heads : Heads
  pub slabs : Ptr → Option Slab
  pub objs : Ptr → Option Obj
  pub caches : Ptr → Cache
  pub chain : List Ptr
  pub mallocs : List Ptr

-- sizeof(OBJ), sizeof(SLAB), MAX_FREE_SLABS
abbrev pub obj_header : ℕ
obj_header = 16

abbrev pub slab_header : ℕ
slab_header = 32

abbrev pub max_free_slabs : ℕ
max_free_slabs = 8

abbrev pub incr : ℤ → ℤ
incr (pos n) = pos (n + 1)
incr (negsuc zero) = pos 0
incr (negsuc (suc n)) = negsuc n

abbrev pub decr : ℤ → ℤ
decr (pos zero) = negsuc 0
decr (pos (suc n)) = pos n
decr (negsuc n) = negsuc (n + 1)

abbrev pub add_count : ℤ → ℕ → ℤ
add_count z zero = z
add_count z (suc i) = incr (add_count z i)

-- `n - MAX_FREE_SLABS` where that is positive
abbrev pub excess : ℤ → ℕ
excess (pos n) = n - max_free_slabs
excess (negsuc n) = 0

-- Cache::Cache, for a cache whose members have these addresses
unfoldable pub construct : Heap → Ptr → Ptr → ℕ → ℕ → Heap
construct h self slab_list size n = record h {
  caches = update h.caches self (record {
    slab_list = slab_list;
    first_not_full = slab_list;
    obj_size = size + obj_header;
    num_objs = n;
    num_free_slabs = pos 0;
    slab_size = slab_header + (size + obj_header) * n;
  });
  chain = self ∷ h.chain;
}

abbrev pub with_heads : Heap → Heads → Heap
with_heads h g = record h { heads = g }

abbrev pub put_slab : Heap → Ptr → Slab → Heap
put_slab h p s = record h { slabs = update h.slabs p (some s) }

abbrev pub put_obj : Heap → Ptr → Obj → Heap
put_obj h p o = record h { objs = update h.objs p (some o) }

abbrev pub put_cache : Heap → Ptr → Cache → Heap
put_cache h self c = record h { caches = update h.caches self c }

abbrev pub set_first : Heap → Ptr → Ptr → Heap
set_first h self p = put_cache h self (record (h.caches self) { first_not_full = p })

-- malloc of a slab: 0 is NULL, and new memory has a head and no slab or objects yet.
unfoldable pub malloc : Heap → Ptr × Heap
malloc h = elim h.mallocs [
  | [] ↦ (0, h)
  | p ∷ ps ↦ (
    p,
    record h {
      mallocs = ps;
      heads = record (h.heads) {
        live = if p == 0 then h.heads.live else update h.heads.live p true;
      };
    },
  )
]

-- free(slab): the head, the slab and the objects in its block are gone.
unfoldable pub free_block : Heap → Ptr → ℕ → Heap
free_block h p size = record h {
  heads = record (h.heads) { live = update h.heads.live p false };
  slabs = update h.slabs p none;
  objs = λ a. if leb p a && ltb a (p + size) then none else h.objs a;
}

-- The last slab is taken out of the ring and freed.
unfoldable pub free_last : Heap → Ptr → Ptr → Option Heap
free_last h self p = do
  before ← get_prev h.heads p
  let h1 = if (h.caches self).first_not_full == p then set_first h self before else h
  g ← remove h1.heads p
  some (free_block (with_heads h1 g) p (h.caches self).slab_size)

-- The loop of reclaim with the rounds that `n` leaves, and the number of slabs freed.
unfoldable pub reclaim_loop : ℕ → Ptr → Heap → Option (ℕ × Heap)
unfolding free_last
reclaim_loop zero self h = some (0, h)
reclaim_loop (suc left) self h = do
  p ← get_prev h.heads (h.caches self).slab_list
  if p == (h.caches self).slab_list then some (0, h) else do
    slab ← h.slabs p
    if not (slab.inuse == 0)
        then some (0, h)
        else do h1 ← free_last h self p; (i, h2) ← reclaim_loop left self h1; some (i + 1, h2)

unfoldable pub reset_first : Heap → Ptr → Ptr → Option Heap
reset_first h self t =
    if (h.caches self).first_not_full == t
      || (h.caches self).first_not_full == (h.caches self).slab_list
    then some h
    else do
      slab ← h.slabs (h.caches self).first_not_full
      some (
          if slab.inuse == (h.caches self).num_objs
          then set_first h self (h.caches self).slab_list
          else h)

-- Cache::reclaim
unfoldable pub reclaim : Heap → Ptr → ℕ → Option (ℕ × Heap)
unfolding reclaim_loop reset_first
reclaim h self n = do
  (i, h1) ← reclaim_loop n self h
  h2 ← reset_first h1 self (h.caches self).first_not_full
  let c = h2.caches self
  some (i, put_cache h2 self (record c { num_free_slabs = add_count c.num_free_slabs i }))

unfoldable pub reclaim_chain : List Ptr → Heap → Option (ℕ × Heap)
unfolding reclaim
reclaim_chain [] h = some (0, h)
reclaim_chain (p ∷ ps) h = do
  (i, h1) ← reclaim h p 0xffff
  (j, h2) ← reclaim_chain ps h1
  some (i + j, h2)

-- Cache::reclaimAll
unfoldable pub reclaim_all : Heap → Option (ℕ × Heap)
unfolding reclaim_chain
reclaim_all h = reclaim_chain h.chain h
