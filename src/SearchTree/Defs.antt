-- ===== src/SearchTree/Defs.antt =====
-- The functions of Data-Structures/tests/binary_search_tree.c. The nodes of a stack are reached
-- through the stack alone: a stack is the list of the tree nodes that it holds, the top first, and
-- `room` says of each stack whether `malloc` finds memory for one node more. `deep` bounds the
-- rounds of an inner loop, `fuel` those of an outer loop or the depth of a recursion. What a
-- function prints is the list that it returns.
use jungle_data_structures.Prelude.{
  ℕ, zero, suc, Bool, true, false, not, ◌&&◌, Option, none, some, List, [], ◌∷◌, ◌==◌,
  if◌then◌else◌,
}
use jungle_data_structures.Prelude.Int.{ℤ, ltb_ℤ}
use jungle_data_structures.Prelude.Run.{done, give_up, ◌>>=◌, ◌>>◌}
use jungle_data_structures.BinaryTree.Store.{
  Ptr, null, Act, bt_node, write, load, set_left, set_right, set_item, free,
}

abbrev pub Stack : Type 0
Stack = List Ptr

abbrev pub is_empty_stack : Stack → Bool
is_empty_stack [] = true
is_empty_stack (x ∷ s) = false

-- Nothing is pushed when `malloc` fails.
abbrev pub push : (Stack → Bool) → Stack → Ptr → Stack
push room s node = if room s then node ∷ s else s

-- The node on top, or `NULL`, and the stack that is left.
abbrev pub pop : Stack → Ptr × Stack
pop [] = (null, [])
pop (x ∷ s) = (x, s)

abbrev pub peek : Stack → Ptr
peek [] = null
peek (x ∷ s) = x

-- The second loop of `postOrderIterativeS2`, which empties the stack.
unfoldable pub print_stack : Stack → Act (List ℤ)
print_stack [] = done []
print_stack (node ∷ s) = do n ← load node; rest ← print_stack s; done (n.item ∷ rest)

module _ (room : Stack → Bool) where
  -- `while (cur != NULL) { push(&s, cur); cur = cur->left; }`
  unfoldable pub push_left : ℕ → (cur : Ptr) → Stack → Act Stack
  push_left zero cur s = give_up
  push_left (suc deep) cur s =
      if cur == null then done s else (do n ← load cur; push_left deep n.left (push room s cur))

  unfoldable pub inorder_loop : (deep fuel : ℕ) → (cur : Ptr) → Stack → Act (List ℤ)
  inorder_loop deep zero cur s = give_up
  inorder_loop deep (suc fuel) cur s = if (cur == null) && is_empty_stack s then done [] else do
    s ← push_left deep cur s
    let node = (pop s).0
    n ← load node
    rest ← inorder_loop deep fuel n.right (pop s).1
    done (n.item ∷ rest)

  unfoldable pub in_order_iterative : (deep fuel : ℕ) → (root : Ptr) → Act (List ℤ)
  in_order_iterative deep fuel root =
      if root == null then done [] else inorder_loop deep fuel root []

  -- The loop is the one of `inOrderIterative`, word by word.
  unfoldable pub pre_order_iterative : (deep fuel : ℕ) → (root : Ptr) → Act (List ℤ)
  pre_order_iterative deep fuel root =
      if root == null then done [] else inorder_loop deep fuel root []

  unfoldable pub postorder_loop : (deep fuel : ℕ) → (cur last_visited : Ptr) → Stack → Act (List ℤ)
  postorder_loop deep zero cur last_visited s = give_up
  postorder_loop deep (suc fuel) cur last_visited s =
      if (cur == null) && is_empty_stack s then done [] else do
        s ← push_left deep cur s
        let p = peek s
        n ← load p
        if not (n.right == null) && not (last_visited == n.right)
            then postorder_loop deep fuel n.right last_visited s
            else (do
              m ← load (pop s).0
              rest ← postorder_loop deep fuel null (pop s).0 (pop s).1
              done (m.item ∷ rest))

  unfoldable pub post_order_iterative_s1 : (deep fuel : ℕ) → (root : Ptr) → Act (List ℤ)
  post_order_iterative_s1 deep fuel root =
      if root == null then done [] else postorder_loop deep fuel root null []

  -- The first loop, from the stack `s1` to the stack `s2`.
  unfoldable pub collect_loop : ℕ → (s1 s2 : Stack) → Act Stack
  collect_loop zero s1 s2 = give_up
  collect_loop (suc fuel) s1 s2 = if is_empty_stack s1 then done s2 else do
    let node = (pop s1).0
    let rest = (pop s1).1
    let s2' = push room s2 node
    n ← load node
    let s1' = if n.left == null then rest else push room rest n.left
    collect_loop fuel (if n.right == null then s1' else push room s1' n.right) s2'

  unfoldable pub post_order_iterative_s2 : ℕ → (root : Ptr) → Act (List ℤ)
  post_order_iterative_s2 fuel root =
      if root == null
      then done []
      else do s2 ← collect_loop fuel (push room [] root) []; print_stack s2

-- `createBTNode` and the first branch of `insertBSTNode`.
unfoldable pub new_node : Option Ptr → ℤ → Act Ptr
new_node none value h = done null h
new_node (some p) value h = done p (write h p (some (bt_node value null null)))

-- `b` is what `malloc` hands out, if it is called: the address, or none for `NULL`. The pointer that
-- the code writes through `node` is returned.
unfoldable pub insert_bst_node : ℕ → Option Ptr → (node : Ptr) → ℤ → Act Ptr
insert_bst_node zero b node value = give_up
insert_bst_node (suc fuel) b node value = if node == null then new_node b value else (do
  n ← load node
  if ltb_ℤ value n.item
      then (do l ← insert_bst_node fuel b n.left value; set_left node l; done node)
      else (if ltb_ℤ n.item value
          then (do r ← insert_bst_node fuel b n.right value; set_right node r; done node)
          else done node))

-- `while (succ->left != NULL) succ = succ->left;`
unfoldable pub successor_loop : ℕ → (succ : Ptr) → Act Ptr
successor_loop zero succ = give_up
successor_loop (suc fuel) succ = do
  n ← load succ
  if n.left == null then done succ else successor_loop fuel n.left

unfoldable pub remove_node_from_tree : ℕ → (root : Ptr) → ℤ → Act Ptr
remove_node_from_tree zero root value = give_up
remove_node_from_tree (suc fuel) root value = if root == null then done null else do
  n ← load root
  if ltb_ℤ value n.item
      then (do l ← remove_node_from_tree fuel n.left value; set_left root l; done root)
      else (if ltb_ℤ n.item value
          then (do r ← remove_node_from_tree fuel n.right value; set_right root r; done root)
          else (if (n.left == null) && (n.right == null)
              then (do free root; done null)
              else (if not (n.left == null) && not (n.right == null)
                  then (do
                    succ ← successor_loop fuel n.right
                    m ← load succ
                    set_item root m.item
                    r ← remove_node_from_tree fuel n.right m.item
                    set_right root r
                    done root)
                  else (if not (n.left == null)
                      then (do free root; done n.left)
                      else (do free root; done n.right)))))
