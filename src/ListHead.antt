-- ===== src/ListHead.antt =====
-- ListHead (libspider/List.cpp, libspider/List.h): the heads of circular lists, linked both ways, at
-- addresses. `none` is an access to a head that is not live.
use crowdspider.Base.{
  ℕ, Bool, true, Option, none, some, List, [], ◌∷◌, ◌||◌, ◌==◌, if◌then◌else◌, ◌>>=◌,
}
pub mod Segment
pub mod Ring

abbrev pub Ptr : Type 0
Ptr = ℕ

abbrev pub update {ℓ} : {A : Type ℓ} → (Ptr → A) → Ptr → A → Ptr → A
update f p v a = if a == p then v else f a

-- The live addresses, and the two fields of each.
pub record Heads : Type 0 where
  pub live : Ptr → Bool
  pub prev : Ptr → Ptr
  pub next : Ptr → Ptr

-- `p->next`, `p->prev`, and writes to them
unfoldable pub get_next : Heads → Ptr → Option Ptr
get_next h p = if h.live p then some (h.next p) else none

unfoldable pub get_prev : Heads → Ptr → Option Ptr
get_prev h p = if h.live p then some (h.prev p) else none

unfoldable pub set_next : Heads → Ptr → Ptr → Option Heads
set_next h p v = if h.live p then some (record h { next = update h.next p v }) else none

unfoldable pub set_prev : Heads → Ptr → Ptr → Option Heads
set_prev h p v = if h.live p then some (record h { prev = update h.prev p v }) else none

-- ListHead::ListHead
unfoldable pub init : Heads → Ptr → Option Heads
unfolding set_next set_prev
init h self = do h ← set_next h self self; set_prev h self self

unfoldable pub is_empty : Heads → Ptr → Option Bool
unfolding get_next
is_empty h self = do n ← get_next h self; some (n == self)

-- ListHead::remove; each statement reads the fields again.
unfoldable pub remove : Heads → Ptr → Option Heads
unfolding get_next get_prev set_next set_prev
remove h self = do
  p ← get_prev h self
  n ← get_next h self
  h ← set_next h p n
  n ← get_next h self
  p ← get_prev h self
  h ← set_prev h n p
  h ← set_next h self self
  set_prev h self self

unfoldable pub remove_head : Heads → Ptr → Option (Ptr × Heads)
unfolding get_next remove
remove_head h self = do t ← get_next h self; h ← remove h t; some (t, h)

-- ListHead::add: before the head, which is the list's end.
unfoldable pub add : Heads → Ptr → Ptr → Option Heads
unfolding get_prev set_next set_prev
add h self item = do
  p ← get_prev h self
  h ← set_prev h item p
  h ← set_next h item self
  p ← get_prev h self
  h ← set_next h p item
  set_prev h self item

-- ListHead::addHead: behind the head
unfoldable pub add_head : Heads → Ptr → Ptr → Option Heads
unfolding get_next set_next set_prev
add_head h self item = do
  h ← set_prev h item self
  n ← get_next h self
  h ← set_next h item n
  n ← get_next h self
  h ← set_prev h n item
  set_next h self item
