-- ===== src/SearchTree/Queue.antt =====
-- `levelOrderTraversal` and the queue of Data-Structures/tests/binary_search_tree.c. The nodes of a
-- queue are reached through the queue alone: a queue is the list of the tree nodes that it holds, its
-- head first. `room` says of each queue whether `malloc` finds memory for one node more, and `fuel`
-- bounds the number of levels. The list that is returned are the items that are printed.
use jungle_data_structures.Prelude.{
  ℕ, zero, suc, Bool, true, false, List, [], ◌∷◌, ◌++◌, ◌==◌, if◌then◌else◌, length,
}
use jungle_data_structures.Prelude.Int.{ℤ}
use jungle_data_structures.Prelude.Run.{done, fault, give_up, ◌>>=◌}
use jungle_data_structures.BinaryTree.Store.{Ptr, null, Act, load}

abbrev pub Queue : Type 0
Queue = List Ptr

abbrev pub is_empty : Queue → Bool
is_empty [] = true
is_empty (x ∷ q) = false

-- `findLengthQueue`
abbrev pub find_length_queue : Queue → ℕ
find_length_queue q = length q

-- Nothing is inserted when `malloc` fails.
abbrev pub enqueue : (Queue → Bool) → Queue → Ptr → Queue
enqueue room q node = if room q then q ++ node ∷ [] else q

-- The head is followed also when there is none.
unfoldable pub dequeue : Queue → Act (Ptr × Queue)
dequeue [] h = fault
dequeue (x ∷ q) h = done (x, q) h

module _ (room : Queue → Bool) where
  -- The `for` loop, over one level.
  unfoldable pub level_round : (size : ℕ) → Queue → Act (List ℤ × Queue)
  level_round zero q = done ([], q)
  level_round (suc size) q = do
    k ← dequeue q
    n ← load k.0
    let q' = if n.left == null then k.1 else enqueue room k.1 n.left
    r ← level_round size (if n.right == null then q' else enqueue room q' n.right)
    done (n.item ∷ r.0, r.1)

  unfoldable pub level_loop : ℕ → Queue → Act (List ℤ)
  level_loop zero q = give_up
  level_loop (suc fuel) q = if is_empty q then done [] else do
    r ← level_round (find_length_queue q) q
    rest ← level_loop fuel r.1
    done (r.0 ++ rest)

  unfoldable pub level_order_traversal : ℕ → (root : Ptr) → Act (List ℤ)
  level_order_traversal fuel root =
      if root == null then done [] else level_loop fuel (enqueue room [] root)
