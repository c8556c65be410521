-- ===== src/ListHead/Ring.antt =====
-- What a ring of heads stands for (libspider/List.cpp): the list of its items, and what each operation does to
-- that list.
-- The ring of `head` has these items, in this order.
use crowdspider.Base.{◌≡◌, refl, true, false, some, List, [], ◌∷◌, ◌++◌, arith, ◌==◌}
use crowdspider.ListHead.Segment.{
  has, Distinct, Live, Linked, last_of, first_of, has-append, has-last_of, prev-last_of,
  next-first_of, Live-has, Distinct-snoc, Live-snoc, added, added_head, Linked-added, has-first_of,
  Linked-behind, removed, Linked-without, Linked-split, Live-without, Distinct-without,
  last_of-snoc,
}
use crowdspider.ListHead.{Ptr, Heads, get_prev, remove, remove_head, add, add_head}

pub record Ring (h : Heads) (head : Ptr) (xs : List Ptr) : Type 0 where
  pub linked : Linked h head xs head
  pub live : Live h (head ∷ xs)
  pub distinct : Distinct (head ∷ xs)

add-added :
    (h : Heads) (self item : Ptr)
    → h.live self ≡ true
    → h.live item ≡ true
    → h.live (h.prev self) ≡ true
    → (self == item) ≡ false
    → add h self item ≡ some (added h self item)
unfolding add
add-added h self item l m k ne = ground arith

add_head-added_head :
    (h : Heads) (self item : Ptr)
    → h.live self ≡ true
    → h.live item ≡ true
    → h.live (h.next self) ≡ true
    → (self == item) ≡ false
    → add_head h self item ≡ some (added_head h self item)
unfolding add_head
add_head-added_head h self item l m k ne = ground arith

module _ {h : Heads} {head : Ptr} {xs : List Ptr} (r : Ring h head xs) {item : Ptr}
    (l : h.live item ≡ true) (new : has item (head ∷ xs) ≡ false) where
  -- add appends a live item that the list does not have to the list's end.
  pub add-Ring :
      (g : Heads) × (add h head item ≡ some g) × Ring g head (xs ++ item ∷ []) × (g.live ≡ h.live)
  unfolding has
  add-Ring =
      let at_end : h.prev head ≡ last_of head xs = prev-last_of h head xs head r.linked in
      let live_end : h.live (h.prev head) ≡ true =
        rw at_end (Live-has h (head ∷ xs) _ r.live (has-last_of head xs)) in
      (
        added h head item,
        add-added h head item r.live.0 l live_end (ground arith),
        record {
          linked =
              Linked-added h head xs head item (added h head item) r.linked r.distinct r.distinct.0
                new (ground arith) (λ p. ground arith) (λ p. ground arith);
          live = Live-snoc (added h head item) (head ∷ xs) item r.live l;
          distinct = Distinct-snoc (head ∷ xs) item r.distinct new;
        },
        refl,
      )

  -- addHead puts it in front.
  pub add_head-Ring :
      (g : Heads) × (add_head h head item ≡ some g) × Ring g head (item ∷ xs) × (g.live ≡ h.live)
  unfolding has first_of
  add_head-Ring =
      let at_front : h.next head ≡ first_of xs head = next-first_of h head xs head r.linked in
      let live_front : h.live (h.next head) ≡ true =
        rw at_front (Live-has h (head ∷ xs) _ r.live (has-first_of head xs)) in
      (
        added_head h head item,
        add_head-added_head h head item r.live.0 l live_front (ground arith),
        record {
          linked =
              (ground arith, ground arith, Linked-behind h head xs item r.linked r.distinct new);
          live = (r.live.0, (l, r.live.1));
          distinct = (ground arith, (ground arith, r.distinct.1));
        },
        refl,
      )

remove-removed :
    (h : Heads) (x : Ptr)
    → h.live x ≡ true
    → h.live (h.prev x) ≡ true
    → h.live (h.next x) ≡ true
    → (h.prev x == x) ≡ false
    → remove h x ≡ some (removed h x)
unfolding remove
remove-removed h x l m k ne = ground arith

Ring-neighbours :
    {h : Heads} {head : Ptr} (xs : List Ptr) (x : Ptr) (ys : List Ptr)
    → Ring h head (xs ++ x ∷ ys)
    → (h.prev x ≡ last_of head xs) × (h.next x ≡ first_of ys head)
Ring-neighbours {h} {head} xs x ys r =
    let (front, back) = Linked-split h head xs x ys head r.linked in
    (prev-last_of h head xs x front, next-first_of h x ys head back)

Ring-live :
    {h : Heads} {head : Ptr} (xs : List Ptr) (x : Ptr) (ys : List Ptr)
    → Ring h head (xs ++ x ∷ ys)
    → (h.live x ≡ true) × (h.live (last_of head xs) ≡ true) × (h.live (first_of ys head) ≡ true)
unfolding has
Ring-live {h} {head} xs x ys r = (
  Live-has h (head ∷ xs ++ x ∷ ys) x r.live (ground (arith, has-append x xs (x ∷ ys))),
  Live-has h (head ∷ xs ++ x ∷ ys) (last_of head xs) r.live
      (ground (arith, has-last_of head xs, has-append (last_of head xs) xs (x ∷ ys))),
  Live-has h (head ∷ xs ++ x ∷ ys) (first_of ys head) r.live
      (ground (arith, has-first_of head ys, has-append (first_of ys head) xs (x ∷ ys))),
)

Ring-apart :
    {h : Heads} {head : Ptr} (xs : List Ptr) (x : Ptr) (ys : List Ptr)
    → Ring h head (xs ++ x ∷ ys)
    → (last_of head xs == x) ≡ false
unfolding has last_of
Ring-apart {head} xs x ys r = apart head xs r.distinct
  where
    apart : (a : Ptr) (xs : List Ptr) → Distinct (a ∷ xs ++ x ∷ ys) → (last_of a xs == x) ≡ false
    apart a [] d = ground arith
    apart a (z ∷ xs) d = apart z xs d.1

module _ {h : Heads} {head : Ptr} (xs : List Ptr) (x : Ptr) (ys : List Ptr)
    (r : Ring h head (xs ++ x ∷ ys)) where
  -- remove takes a live item out of the ring that it stands in, wherever it stands, and leaves it a
  -- ring of its own.
  pub remove-Ring :
      (g : Heads) × (remove h x ≡ some g)
      × Ring g head (xs ++ ys)
      × (g.next x ≡ x)
      × (g.prev x ≡ x)
      × (g.live ≡ h.live)
  unfolding has
  remove-Ring =
      let (p, n) = Ring-neighbours xs x ys r in
      let (l, lp, ln) = Ring-live xs x ys r in
      (
        removed h x,
        remove-removed h x l (rw p lp) (rw n ln) (rw p (Ring-apart xs x ys r)),
        record {
          linked =
              Linked-without h (removed h x) head xs x ys head r.linked r.distinct r.distinct.0
                (λ q. ground arith) (λ q. ground arith);
          live = Live-without h (head ∷ xs) x ys r.live;
          distinct = Distinct-without (head ∷ xs) x ys r.distinct;
        },
        ground arith,
        ground arith,
        refl,
      )

-- removeHead takes the first item.
pub remove_head-Ring :
    {h : Heads} {head x : Ptr} {ys : List Ptr}
    → Ring h head (x ∷ ys)
    → (g : Heads) × (remove_head h head ≡ some (x, g)) × Ring g head ys
unfolding remove_head
remove_head-Ring {h} {head} {x} {ys} r =
    let (g, e, s, n, p, l) = remove-Ring [] x ys r in (g, ground arith, s)

-- What the head's `prev` shows of a ring that is not empty.
pub Ring-last :
    {h : Heads} {head : Ptr} (xs : List Ptr) (x : Ptr)
    → Ring h head (xs ++ x ∷ [])
    → (get_prev h head ≡ some x) × ((x == head) ≡ false)
unfolding get_prev has
Ring-last {h} {head} xs x r =
    let p = prev-last_of h head (xs ++ x ∷ []) head r.linked in
    (
      ground (arith, r.live.0, p, last_of-snoc head xs x),
      ground (arith, r.distinct.0, has-append head xs (x ∷ [])),
    )
