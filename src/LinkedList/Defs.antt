-- ===== src/LinkedList/Defs.antt =====
-- The list functions of Data-Structures/Linked_List/Q1_A_LL.c. A `LinkedList *` argument is the
-- structure that it points to, or `none` for `NULL`, and a function that changes the structure
-- returns it. An `int` is an integer; `size` counts allocated nodes, so its bound is not modelled.
use jungle_data_structures.Prelude.{
  ℕ, zero, suc, ◌+◌, ◌-◌, Option, none, some, List, [], ◌∷◌, ◌||◌, ltb, leb, ◌==◌, if◌then◌else◌,
}
use jungle_data_structures.Prelude.Int.{ℤ, pos, negsuc, minus_one}
use jungle_data_structures.Prelude.Run.{done, give_up, ◌>>=◌, ◌>>◌}
use jungle_data_structures.LinkedList.Store.{
  Ptr, null, Block, Action, load, set_next, set_item, free, malloc,
}

pub record LinkedList : Type 0 where
  pub size : ℕ
  pub head : Ptr

abbrev pub linked_list : ℕ → Ptr → LinkedList
linked_list n p = record { size = n; head = p }

-- The `while (index > 0)` of `findNode`.
unfoldable pub find_loop : ℕ → Ptr → Action Ptr
find_loop zero temp = done temp
find_loop (suc index) temp = do
  n ← load temp
  if n.next == null then done null else find_loop index n.next

unfoldable pub find_node : Option LinkedList → ℤ → Action Ptr
find_node none index = done null
find_node (some ll) (negsuc k) = done null
find_node (some ll) (pos index) =
    if leb ll.size index
    then done null
    else if ll.head == null
    then done null
    else find_loop index ll.head

-- `malloc`, `item = value` and `next = cur` for the node that `attach` hangs into the list.
unfoldable pub new_node : Block → (attach : Ptr → Action (Unit {0})) → ℤ → (cur : Ptr) → Action Ptr
new_node b attach value cur = do p ← malloc b; attach p; set_item p value; set_next p cur; done p

-- The branch of `insertNode` for a node in front, and the one for a node behind `pre`.
unfoldable pub insert_front : Block → LinkedList → ℤ → Action (Option LinkedList × ℤ)
insert_front b ll value = do
  p ← new_node b (λ p. done tt) value ll.head
  done (some (linked_list (ll.size + 1) p), pos 0)

unfoldable pub insert_after : Block → LinkedList → Ptr → ℤ → Action (Option LinkedList × ℤ)
insert_after b ll pre value = if pre == null then done (some ll, minus_one) else do
  n ← load pre
  new_node b (set_next pre) value n.next
  done (some (linked_list (ll.size + 1) ll.head), pos 0)

-- `b` is what `malloc` hands out, if it is called.
unfoldable pub insert_node : Block → Option LinkedList → ℤ → ℤ → Action (Option LinkedList × ℤ)
insert_node b none index value = done (none, minus_one)
insert_node b (some ll) (negsuc k) value = done (some ll, minus_one)
insert_node b (some ll) (pos index) value =
    if ltb (ll.size + 1) index
    then done (some ll, minus_one)
    else if ll.head == null || index == 0
    then insert_front b ll value
    else (do pre ← find_node (some ll) (pos (index - 1)); insert_after b ll pre value)

-- The branch of `removeNode` for the first node, and the one for the node behind `pre`.
unfoldable pub remove_front : LinkedList → Action (Option LinkedList × ℤ)
remove_front ll = do
  n ← load ll.head
  free ll.head
  done (some (linked_list (ll.size - 1) n.next), pos 0)

unfoldable pub remove_after : LinkedList → Ptr → Action (Option LinkedList × ℤ)
remove_after ll pre = if pre == null then done (some ll, minus_one) else do
  n ← load pre
  if n.next == null then done (some ll, minus_one) else do
    cur ← load n.next
    set_next pre cur.next
    free n.next
    done (some (linked_list (ll.size - 1) ll.head), pos 0)

unfoldable pub remove_node : Option LinkedList → ℤ → Action (Option LinkedList × ℤ)
remove_node none index = done (none, minus_one)
remove_node (some ll) (negsuc k) = done (some ll, minus_one)
remove_node (some ll) (pos index) =
    if leb ll.size index
    then done (some ll, minus_one)
    else if index == 0
    then remove_front ll
    else (do pre ← find_node (some ll) (pos (index - 1)); remove_after ll pre)

unfoldable pub free_loop : ℕ → Ptr → Action (Unit {0})
free_loop zero cur = give_up
free_loop (suc fuel) cur =
    if cur == null then done tt else (do n ← load cur; free cur; free_loop fuel n.next)

-- `fuel` bounds the rounds of the loop.
unfoldable pub remove_all_items : ℕ → LinkedList → Action LinkedList
remove_all_items fuel ll = do free_loop fuel ll.head; done (linked_list 0 null)

-- The items that `printList` prints, in order.
unfoldable pub print_loop : ℕ → Ptr → Action (List ℤ)
print_loop zero cur = give_up
print_loop (suc fuel) cur =
    if cur == null
    then done []
    else (do n ← load cur; rest ← print_loop fuel n.next; done (n.item ∷ rest))
