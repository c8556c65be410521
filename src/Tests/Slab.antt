-- ===== src/Tests/Slab.antt =====
-- Runs of the slab allocator and of the rings of heads, and examples for the theorems about them.
use crowdspider.Base.{
  ℕ, ◌≡◌, refl, ◌==◌, ◌||◌, Option, none, some, List, [], ◌∷◌, arith, ◌>>=◌, if◌then◌else◌,
}
use crowdspider.Base.Int.{pos}
use crowdspider.ListHead.{Ptr, Heads, get_next, add, remove}
use crowdspider.ListHead.Segment.{has}
use crowdspider.ListHead.Ring.{Ring, add-Ring, remove-Ring}
use crowdspider.Slab.{Heap, construct, free_block, reclaim}
use crowdspider.Slab.Objects.{take_obj, first_objs, free_obj}
use crowdspider.Slab.Freed.{LastOne, free_obj-LastOne}
use crowdspider.Slab.Fresh.{alloc_many, objects, Filled}
use crowdspider.Slab.Fresh.NewSlab.{Empty, alloc_many-Empty}

-- The head 2 with the items 5 and 7, and the head 9 alone.
abbrev pair : Heads
pair = record {
  live = λ p. p == 2 || p == 5 || p == 7 || p == 9;
  prev = λ p. if p == 2 then 7 else if p == 5 then 2 else if p == 7 then 5 else p;
  next = λ p. if p == 2 then 5 else if p == 5 then 7 else if p == 7 then 2 else p;
}

pair-Ring : Ring pair 2 (5 ∷ 7 ∷ [])
unfolding has
pair-Ring = record {
  linked = (refl, refl, (refl, refl, (refl, refl)));
  live = (refl, (refl, (refl, tt)));
  distinct = (refl, (refl, (refl, tt)));
}

add-Ring_example :
    (g : Heads) × (add pair 2 9 ≡ some g) × Ring g 2 (5 ∷ 7 ∷ 9 ∷ []) × (g.live ≡ pair.live)
unfolding has
add-Ring_example = add-Ring pair-Ring refl refl

remove-Ring_example :
    (g : Heads) × (remove pair 5 ≡ some g)
    × Ring g 2 (7 ∷ [])
    × (g.next 5 ≡ 5)
    × (g.prev 5 ≡ 5)
    × (g.live ≡ pair.live)
remove-Ring_example = remove-Ring [] 5 (7 ∷ []) pair-Ring

-- One cache at 1 with its ring at 2, for two objects of 8 bytes in a slab, and memory for some slabs.
abbrev empty : List Ptr → Heap
empty mallocs =
    construct
      (record {
        heads = record { live = λ p. p == 2; prev = λ p. p; next = λ p. p };
        slabs = λ p. none;
        objs = λ p. none;
        caches = λ p. record {
          slab_list = 0;
          first_not_full = 0;
          obj_size = 0;
          num_objs = 0;
          num_free_slabs = pos 0;
          slab_size = 0;
        };
        chain = [];
        mallocs = mallocs;
      })
      1 2 8 2

abbrev memory : List Ptr
memory =
    1000 ∷ 2000 ∷ 3000 ∷ 4000 ∷ 5000 ∷ 6000 ∷ 7000 ∷ 8000 ∷ 9000 ∷ 10000 ∷ 11000 ∷ 12000 ∷ 13000
    ∷ 14000 ∷ []

frees : List Ptr → Heap → Option Heap
frees [] h = some h
frees (p ∷ ps) h = do h ← free_obj h 1 p; frees ps h

-- Objects are taken, given back in the order in which they came, and taken again.
again : ℕ → Option (List Ptr)
unfolding alloc_many take_obj first_objs free_obj frees construct
again n = do
  (ps, h) ← alloc_many n (empty memory) 1
  h ← frees ps h
  (qs, h) ← alloc_many n h 1
  some qs

again_five : again 5 ≡ some (1072 ∷ 1048 ∷ 2072 ∷ 2048 ∷ 3048 ∷ [])
unfolding again add get_next remove
again_five = refl

-- With fourteen slabs the objects cannot be given back: the third time that empty slabs are given back, the
-- slab that has just become empty is among them.
again_fault : again 28 ≡ none
unfolding again add get_next remove reclaim free_block
again_fault = refl

empty-Empty : Empty (empty (1000 ∷ [])) 1 1000 1 []
unfolding construct has
empty-Empty = record {
  ring = record { linked = (refl, refl); live = (refl, tt); distinct = (refl, tt) };
  first = refl;
  num = refl;
  mallocs = refl;
  ne_null = refl;
  list_ne = refl;
  sized = omega arith;
  fits = omega arith;
}

alloc_many-Empty_example :
    (g : Heap) × (alloc_many 2 (empty (1000 ∷ [])) 1 ≡ some (1048 ∷ 1072 ∷ [], g))
    × Filled g 1 1000 2
unfolding construct objects
alloc_many-Empty_example = alloc_many-Empty (empty (1000 ∷ [])) 1 1000 1 [] empty-Empty

-- One slab with one object in use, after eight empty slabs were counted.
abbrev last_one : Heap
last_one = record {
  heads = record {
    live = λ p. p == 2 || p == 1000;
    prev = λ p. if p == 2 then 1000 else 2;
    next = λ p. if p == 2 then 1000 else 2;
  };
  slabs = λ p. if p == 1000 then some (record { inuse = 1; free = 1056 }) else none;
  objs = λ p. if p == 1032 then some (record { next = 1056; slab = 1000 }) else none;
  caches = λ p. record {
    slab_list = 2;
    first_not_full = 1000;
    obj_size = 24;
    num_objs = 2;
    num_free_slabs = pos 8;
    slab_size = 80;
  };
  chain = 1 ∷ [];
  mallocs = [];
}

last_one-LastOne : LastOne last_one 1 1048 1000 []
unfolding has
last_one-LastOne = record {
  ring = record {
    linked = (refl, refl, (refl, refl));
    live = (refl, (refl, tt));
    distinct = (refl, (refl, tt));
  };
  obj_next = 1056;
  obj = refl;
  slab_free = 1056;
  slab_used = refl;
  many_objs = refl;
}

free_obj-LastOne_example : free_obj last_one 1 1048 ≡ none
free_obj-LastOne_example = free_obj-LastOne last_one-LastOne (omega arith)
