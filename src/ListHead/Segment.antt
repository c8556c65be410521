-- ===== src/ListHead/Segment.antt =====
-- Runs of heads that are linked both ways (libspider/List.cpp), and what becomes of them where one head is put
-- in or taken out.
use crowdspider.Base.{◌≡◌, refl, Bool, true, false, ◌||◌, List, [], ◌∷◌, ◌++◌, arith, ◌==◌}
use crowdspider.ListHead.{Ptr, update, Heads}

unfoldable pub has : Ptr → List Ptr → Bool
has a [] = false
has a (x ∷ xs) = a == x || has a xs

abbrev pub Distinct : List Ptr → Type 0
Distinct [] = Unit
Distinct (x ∷ xs) = (has x xs ≡ false) × Distinct xs

abbrev pub Live : Heads → List Ptr → Type 0
Live h [] = Unit
Live h (x ∷ xs) = (h.live x ≡ true) × Live h xs

-- From `a` the heads are linked both ways through `xs` to `b`.
abbrev pub Linked : Heads → Ptr → List Ptr → Ptr → Type 0
Linked h a [] b = (h.next a ≡ b) × (h.prev b ≡ a)
Linked h a (x ∷ xs) b = (h.next a ≡ x) × (h.prev x ≡ a) × Linked h x xs b

-- A part of a ring survives what spares the fields that link it.
pub Linked-frame :
    (h g : Heads) (a : Ptr) (xs : List Ptr) (b : Ptr)
    → ((p : Ptr) → has p (a ∷ xs) ≡ true → g.next p ≡ h.next p)
    → ((p : Ptr) → has p (b ∷ xs) ≡ true → g.prev p ≡ h.prev p)
    → Linked h a xs b
    → Linked g a xs b
unfolding has
Linked-frame h g a [] b n p l = ground (arith, n a, p b)
Linked-frame h g a (x ∷ xs) b n p l = (
  ground (arith, n a),
  ground (arith, p x),
  Linked-frame h g x xs b (λ q m. n q (ground arith)) (λ q m. p q (ground arith)) l.2,
)

-- The item before the end of a segment, and the first one.
unfoldable pub last_of : Ptr → List Ptr → Ptr
last_of a [] = a
last_of a (x ∷ xs) = last_of x xs

unfoldable pub first_of : List Ptr → Ptr → Ptr
first_of [] b = b
first_of (x ∷ xs) b = x

pub has-append : (p : Ptr) (xs ys : List Ptr) → has p (xs ++ ys) ≡ (has p xs || has p ys)
unfolding has
has-append p [] ys = refl
has-append p (x ∷ xs) ys = ground (arith, has-append p xs ys)

pub has-last_of : (a : Ptr) (xs : List Ptr) → has (last_of a xs) (a ∷ xs) ≡ true
unfolding has last_of
has-last_of a [] = ground arith
has-last_of a (x ∷ xs) = ground (arith, has-last_of x xs)

pub prev-last_of :
    (h : Heads) (a : Ptr) (xs : List Ptr) (b : Ptr) → Linked h a xs b → h.prev b ≡ last_of a xs
unfolding last_of
prev-last_of h a [] b l = l.1
prev-last_of h a (x ∷ xs) b l = prev-last_of h x xs b l.2

pub next-first_of :
    (h : Heads) (a : Ptr) (xs : List Ptr) (b : Ptr) → Linked h a xs b → h.next a ≡ first_of xs b
unfolding first_of
next-first_of h a [] b l = l.0
next-first_of h a (x ∷ xs) b l = l.0

pub Live-has : (h : Heads) (xs : List Ptr) (p : Ptr) → Live h xs → has p xs ≡ true → h.live p ≡ true
unfolding has
Live-has h [] p l m = ground arith
Live-has h (x ∷ xs) p l m = ground (arith, Live-has h xs p)

pub Distinct-snoc :
    (xs : List Ptr) (p : Ptr) → Distinct xs → has p xs ≡ false → Distinct (xs ++ p ∷ [])
unfolding has
Distinct-snoc [] p d m = (refl, tt)
Distinct-snoc (x ∷ xs) p d m =
    (ground (arith, has-append x xs (p ∷ [])), Distinct-snoc xs p d.1 (ground arith))

pub Live-snoc :
    (h : Heads) (xs : List Ptr) (p : Ptr) → Live h xs → h.live p ≡ true → Live h (xs ++ p ∷ [])
Live-snoc h [] p l e = (e, tt)
Live-snoc h (x ∷ xs) p l e = (l.0, Live-snoc h xs p l.1 e)

-- The heads after `add` and `add_head`, and after `remove`.
abbrev pub added : Heads → Ptr → Ptr → Heads
added h self item = record h {
  prev = update (update h.prev item (h.prev self)) self item;
  next = update (update h.next item self) (h.prev self) item;
}

abbrev pub added_head : Heads → Ptr → Ptr → Heads
added_head h self item = record h {
  prev = update (update h.prev item self) (h.next self) item;
  next = update (update h.next item (h.next self)) self item;
}

pub Linked-added :
    (h : Heads) (a : Ptr) (xs : List Ptr) (b item : Ptr) (g : Heads)
    → Linked h a xs b
    → Distinct (a ∷ xs)
    → has b xs ≡ false
    → has item (a ∷ xs) ≡ false
    → (item == b) ≡ false
    → ((p : Ptr) → g.next p ≡ update (update h.next item b) (last_of a xs) item p)
    → ((p : Ptr) → g.prev p ≡ update (update h.prev item (last_of a xs)) b item p)
    → Linked g a (xs ++ item ∷ []) b
unfolding has last_of
Linked-added h a [] b item g l d o i j n p =
    (ground (arith, n a), ground (arith, p item), (ground (arith, n item), ground (arith, p b)))
Linked-added h a (x ∷ xs) b item g l d o i j n p = (
  ground (arith, n a, has-last_of x xs),
  ground (arith, p x),
  Linked-added h x xs b item g l.2 d.1 (ground arith) (ground arith) j n p,
)

pub has-first_of : (a : Ptr) (xs : List Ptr) → has (first_of xs a) (a ∷ xs) ≡ true
unfolding has first_of
has-first_of a [] = ground arith
has-first_of a (x ∷ xs) = ground arith

pub Linked-behind :
    (h : Heads) (head : Ptr) (xs : List Ptr) (item : Ptr)
    → Linked h head xs head
    → Distinct (head ∷ xs)
    → has item (head ∷ xs) ≡ false
    → Linked (added_head h head item) item xs head
unfolding has
Linked-behind h head [] item l d o = (ground arith, ground arith)
Linked-behind h head (x ∷ xs) item l d o = (
  ground arith,
  ground arith,
  Linked-frame h (added_head h head item) x xs head (λ p m. ground arith) (λ p m. ground arith) l.2,
)

-- The heads after `remove`.
abbrev pub removed : Heads → Ptr → Heads
removed h x = record h {
  prev = update (update h.prev (h.next x) (h.prev x)) x x;
  next = update (update h.next (h.prev x) (h.next x)) x x;
}

-- Taking `x` out from between two parts joins them.
pub Linked-without :
    (h g : Heads) (a : Ptr) (xs : List Ptr) (x : Ptr) (ys : List Ptr) (b : Ptr)
    → Linked h a (xs ++ x ∷ ys) b
    → Distinct (a ∷ xs ++ x ∷ ys)
    → has b (xs ++ x ∷ ys) ≡ false
    → ((p : Ptr) → g.next p ≡ update (update h.next (last_of a xs) (first_of ys b)) x x p)
    → ((p : Ptr) → g.prev p ≡ update (update h.prev (first_of ys b) (last_of a xs)) x x p)
    → Linked g a (xs ++ ys) b
unfolding has last_of first_of
Linked-without h g a [] x [] b l d o n p = (ground (arith, n a), ground (arith, p b))
Linked-without h g a [] x (y ∷ ys) b l d o n p = (
  ground (arith, n a),
  ground (arith, p y),
  Linked-frame h g y ys b (λ q m. ground (arith, n q)) (λ q m. ground (arith, p q)) l.2.2,
)
Linked-without h g a (z ∷ xs) x ys b l d o n p = (
  ground (
    arith,
    n a,
    has-last_of z xs,
    has-append (last_of z xs) xs (x ∷ ys),
    has-append a xs (x ∷ ys),
  ),
  ground (
    arith,
    p z,
    has-first_of b ys,
    has-append (first_of ys b) xs (x ∷ ys),
    has-append z xs (x ∷ ys),
    has-append b xs (x ∷ ys),
  ),
  Linked-without h g z xs x ys b l.2 d.1 (ground arith) n p,
)

pub Linked-split :
    (h : Heads) (a : Ptr) (xs : List Ptr) (x : Ptr) (ys : List Ptr) (b : Ptr)
    → Linked h a (xs ++ x ∷ ys) b
    → Linked h a xs x × Linked h x ys b
Linked-split h a [] x ys b l = (((l.0, l.1)), l.2)
Linked-split h a (z ∷ xs) x ys b l =
    let (front, back) = Linked-split h z xs x ys b l.2 in ((l.0, l.1, front), back)

pub Live-without :
    (h : Heads) (xs : List Ptr) (x : Ptr) (ys : List Ptr)
    → Live h (xs ++ x ∷ ys)
    → Live h (xs ++ ys)
Live-without h [] x ys l = l.1
Live-without h (z ∷ xs) x ys l = (l.0, Live-without h xs x ys l.1)

pub Distinct-without :
    (xs : List Ptr) (x : Ptr) (ys : List Ptr) → Distinct (xs ++ x ∷ ys) → Distinct (xs ++ ys)
unfolding has
Distinct-without [] x ys d = d.1
Distinct-without (z ∷ xs) x ys d =
    (ground (arith, has-append z xs (x ∷ ys), has-append z xs ys), Distinct-without xs x ys d.1)

pub last_of-snoc : (a : Ptr) (xs : List Ptr) (x : Ptr) → last_of a (xs ++ x ∷ []) ≡ x
unfolding last_of
last_of-snoc a [] x = refl
last_of-snoc a (z ∷ xs) x = last_of-snoc z xs x
