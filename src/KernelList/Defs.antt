-- ===== src/KernelList/Defs.antt =====
-- The functions of pintos lib/kernel/list.c. A `struct list` is the two addresses of its header
-- elements. `less` is the caller's comparison with its auxiliary data, a function of two elements
-- that does not read their links. `fuel` bounds the rounds of a walk.
use jungle_data_structures.Prelude.{
  ℕ, zero, suc, ◌+◌, Bool, false, not, ◌&&◌, ◌||◌, ◌==◌, if◌then◌else◌, Option, none, some,
}
use jungle_data_structures.Prelude.Run.{done, give_up, assert, ◌>>=◌, ◌>>◌}
use jungle_data_structures.KernelList.Store.{Ptr, null, Act, load, set_prev, set_next}

pub record KernelList : Type 0 where
  pub head : Ptr
  pub tail : Ptr

unfoldable pub is_head : Ptr → Act Bool
is_head elem =
    if elem == null
    then done false
    else do n ← load elem; done ((n.prev == null) && not (n.next == null))

unfoldable pub is_interior : Ptr → Act Bool
is_interior elem =
    if elem == null
    then done false
    else do n ← load elem; done (not (n.prev == null) && not (n.next == null))

unfoldable pub is_tail : Ptr → Act Bool
is_tail elem =
    if elem == null
    then done false
    else do n ← load elem; done (not (n.prev == null) && (n.next == null))

unfoldable pub list_init : KernelList → Act (Unit {0})
list_init list = do
  set_prev list.head null
  set_next list.head list.tail
  set_prev list.tail list.head
  set_next list.tail null

unfoldable pub list_begin : KernelList → Act Ptr
list_begin list = do n ← load list.head; done n.next

unfoldable pub list_next : Ptr → Act Ptr
list_next elem = do
  a ← is_head elem
  b ← is_interior elem
  assert (a || b)
  n ← load elem
  done n.next

abbrev pub list_end : KernelList → Ptr
list_end list = list.tail

unfoldable pub list_rbegin : KernelList → Act Ptr
list_rbegin list = do n ← load list.tail; done n.prev

unfoldable pub list_prev : Ptr → Act Ptr
list_prev elem = do
  a ← is_interior elem
  b ← is_tail elem
  assert (a || b)
  n ← load elem
  done n.prev

abbrev pub list_rend : KernelList → Ptr
list_rend list = list.head

abbrev pub list_head : KernelList → Ptr
list_head list = list.head

abbrev pub list_tail : KernelList → Ptr
list_tail list = list.tail

-- The four writes of `list_insert`.
unfoldable pub link : (before elem : Ptr) → Act (Unit {0})
link before elem = do
  b ← load before
  set_prev elem b.prev
  set_next elem before
  c ← load before
  set_next c.prev elem
  set_prev before elem

unfoldable pub list_insert : (before elem : Ptr) → Act (Unit {0})
list_insert before elem = do
  a ← is_interior before
  b ← is_tail before
  assert (a || b)
  assert (not (elem == null))
  link before elem

unfoldable pub list_push_front : KernelList → Ptr → Act (Unit {0})
list_push_front list elem = do b ← list_begin list; list_insert b elem

unfoldable pub list_push_back : KernelList → Ptr → Act (Unit {0})
list_push_back list elem = list_insert (list_end list) elem

unfoldable pub list_remove : Ptr → Act Ptr
list_remove elem = do
  a ← is_interior elem
  assert a
  n ← load elem
  set_next n.prev n.next
  m ← load elem
  set_prev m.next m.prev
  k ← load elem
  done k.next

unfoldable pub list_empty : KernelList → Act Bool
list_empty list = do b ← list_begin list; done (b == list_end list)

unfoldable pub list_front : KernelList → Act Ptr
list_front list = do t ← list_empty list; assert (not t); n ← load list.head; done n.next

unfoldable pub list_back : KernelList → Act Ptr
list_back list = do t ← list_empty list; assert (not t); n ← load list.tail; done n.prev

unfoldable pub list_pop_front : KernelList → Act Ptr
list_pop_front list = do front ← list_front list; after ← list_remove front; done front

unfoldable pub list_pop_back : KernelList → Act Ptr
list_pop_back list = do back ← list_back list; after ← list_remove back; done back

unfoldable pub size_loop : ℕ → KernelList → (e : Ptr) → (cnt : ℕ) → Act ℕ
size_loop zero list e cnt = give_up
size_loop (suc fuel) list e cnt =
    if e == list_end list then done cnt else do n ← list_next e; size_loop fuel list n (cnt + 1)

unfoldable pub list_size : ℕ → KernelList → Act ℕ
list_size fuel list = do b ← list_begin list; size_loop fuel list b 0

-- `list_remove (next)`, and `list_push_back` of it if `duplicates` is not `NULL`.
unfoldable pub set_aside : Option KernelList → Ptr → Act (Unit {0})
set_aside none next = do after ← list_remove next; done tt
set_aside (some duplicates) next = do after ← list_remove next; list_push_back duplicates next

module _ (less : Ptr → Ptr → Bool) where
  -- The element before which `list_insert_ordered` inserts.
  unfoldable pub ordered_loop : ℕ → KernelList → (elem e : Ptr) → Act Ptr
  ordered_loop zero list elem e = give_up
  ordered_loop (suc fuel) list elem e =
      if e == list_end list
      then done e
      else (if less elem e then done e else do n ← list_next e; ordered_loop fuel list elem n)

  unfoldable pub list_insert_ordered : ℕ → KernelList → Ptr → Act (Unit {0})
  list_insert_ordered fuel list elem = do
    assert (not (elem == null))
    b ← list_begin list
    e ← ordered_loop fuel list elem b
    list_insert e elem

  unfoldable pub max_loop : ℕ → KernelList → (max e : Ptr) → Act Ptr
  max_loop zero list max e = give_up
  max_loop (suc fuel) list max e =
      if e == list_end list
      then done max
      else do n ← list_next e; max_loop fuel list (if less max e then e else max) n

  unfoldable pub list_max : ℕ → KernelList → Act Ptr
  list_max fuel list = do
    max ← list_begin list
    if max == list_end list then done max else do e ← list_next max; max_loop fuel list max e

  unfoldable pub min_loop : ℕ → KernelList → (min e : Ptr) → Act Ptr
  min_loop zero list min e = give_up
  min_loop (suc fuel) list min e =
      if e == list_end list
      then done min
      else do n ← list_next e; min_loop fuel list (if less e min then e else min) n

  unfoldable pub list_min : ℕ → KernelList → Act Ptr
  list_min fuel list = do
    min ← list_begin list
    if min == list_end list then done min else do e ← list_next min; min_loop fuel list min e

  -- `duplicates` is `none` for `NULL`.
  unfoldable pub unique_loop : ℕ → KernelList → Option KernelList → (elem : Ptr) → Act (Unit {0})
  unique_loop zero list duplicates elem = give_up
  unique_loop (suc fuel) list duplicates elem = do
    next ← list_next elem
    if next == list_end list
        then done tt
        else (if not (less elem next) && not (less next elem)
            then (set_aside duplicates next >> unique_loop fuel list duplicates elem)
            else unique_loop fuel list duplicates next)

  unfoldable pub list_unique : ℕ → KernelList → Option KernelList → Act (Unit {0})
  list_unique fuel list duplicates = do
    t ← list_empty list
    if t then done tt else (list_begin list >>= unique_loop fuel list duplicates)

-- `swap (&e->prev, &e->next)`
unfoldable pub swap_links : Ptr → Act (Unit {0})
swap_links e = do n ← load e; set_prev e n.next; set_next e n.prev

unfoldable pub reverse_loop : ℕ → KernelList → Ptr → Act (Unit {0})
reverse_loop zero list e = give_up
reverse_loop (suc fuel) list e =
    if e == list_end list
    then done tt
    else do swap_links e; n ← load e; reverse_loop fuel list n.prev

-- The last two calls of `swap` in `list_reverse`.
unfoldable pub swap_ends : KernelList → Act (Unit {0})
swap_ends list = do
  h ← load list.head
  t ← load list.tail
  set_next list.head t.prev
  set_prev list.tail h.next
  a ← load t.prev
  b ← load h.next
  set_prev t.prev b.next
  set_next h.next a.prev

unfoldable pub list_reverse : ℕ → KernelList → Act (Unit {0})
list_reverse fuel list = do
  empty ← list_empty list
  if empty then done tt else do e ← list_begin list; reverse_loop fuel list e; swap_ends list
