-- ===== src/Tests/BinaryTrees.antt =====
-- The functions of Data-Structures/tests/binary_tree.c and binary_search_tree.c on the items 2, 5
-- and 8 at the addresses 1, 2 and 3.
use jungle_data_structures.Prelude.{
  ◌≡◌, refl, Bool, true, ◌↔◌, none, some, [], ◌∷◌, ◌==◌, if◌then◌else◌, arith,
}
use jungle_data_structures.Prelude.Int.{pos}
use jungle_data_structures.Prelude.Run.{done}
use jungle_data_structures.BinaryTree.Store.{Store, bt_node}
use jungle_data_structures.BinaryTree.Trees.{
  Tree, leaf, branch, items, inorder, top, IsTree, SameOutside,
}
use jungle_data_structures.BinaryTree.Defs.{identical, mirror_tree}
use jungle_data_structures.BinaryTree.Same.{identical-eq}
use jungle_data_structures.BinaryTree.Mirror.{mirror_tree-mirror}
use jungle_data_structures.SearchTree.Defs.{
  Stack, in_order_iterative, post_order_iterative_s1, post_order_iterative_s2, insert_bst_node,
  remove_node_from_tree,
}
use jungle_data_structures.SearchTree.Inorder.{in_order_iterative-inorder}
use jungle_data_structures.SearchTree.Postorder.{post_order_iterative_s1-postorder}
use jungle_data_structures.SearchTree.Queue.{level_order_traversal}
use jungle_data_structures.SearchTree.LevelOrder.{level_order_traversal-levels}
use jungle_data_structures.SearchTree.TwoStacks.{post_order_iterative_s2-postorder}
use jungle_data_structures.SearchTree.Sorted.{Increasing}
use jungle_data_structures.SearchTree.Insert.{insert_bst_node-insert_sorted}
use jungle_data_structures.SearchTree.RemoveRun.{remove_node_from_tree-without}

abbrev memory : Store
memory a =
    if a == 1
    then some (bt_node (pos 2) 0 0)
    else if a == 2
    then some (bt_node (pos 5) 1 3)
    else if a == 3
    then some (bt_node (pos 8) 0 0)
    else none

abbrev left_part : Tree
left_part = branch leaf 1 (pos 2) leaf

abbrev right_part : Tree
right_part = branch leaf 3 (pos 8) leaf

abbrev shape : Tree
shape = branch left_part 2 (pos 5) right_part

shape-IsTree : IsTree memory shape
shape-IsTree = (omega arith, refl, (omega arith, refl, tt, tt), (omega arith, refl, tt, tt))

-- `malloc` always finds memory for the stack.
abbrev room : Stack → Bool
room s = true

identical-eq_example :
    (b : Bool) × (identical 3 2 2 memory ≡ done b memory)
    × ((b ≡ true) ↔ (items shape ≡ items shape))
identical-eq_example = identical-eq memory 3 shape shape shape-IsTree shape-IsTree (omega arith)

mirror_tree-mirror_example :
    (g : Store) × (mirror_tree 3 2 memory ≡ done tt g)
    × IsTree g (branch right_part 2 (pos 5) left_part)
    × SameOutside (2 ∷ 1 ∷ 3 ∷ []) memory g
mirror_tree-mirror_example =
    mirror_tree-mirror 3 memory shape shape-IsTree (refl, (refl, (refl, tt))) (omega arith)

in_order_iterative-inorder_example :
    in_order_iterative room 3 4 2 memory ≡ done (pos 2 ∷ pos 5 ∷ pos 8 ∷ []) memory
in_order_iterative-inorder_example =
    in_order_iterative-inorder room (λ s. refl) memory 3 4 shape shape-IsTree (omega arith)
      (omega arith)

post_order_iterative_s1-postorder_example :
    post_order_iterative_s1 room 3 7 2 memory ≡ done (pos 2 ∷ pos 8 ∷ pos 5 ∷ []) memory
post_order_iterative_s1-postorder_example =
    post_order_iterative_s1-postorder room (λ s. refl) memory 3 7 shape shape-IsTree
      (refl, (refl, (refl, tt))) refl (omega arith) (omega arith)

post_order_iterative_s2-postorder_example :
    post_order_iterative_s2 room 4 2 memory ≡ done (pos 2 ∷ pos 8 ∷ pos 5 ∷ []) memory
post_order_iterative_s2-postorder_example =
    post_order_iterative_s2-postorder room (λ s. refl) memory 4 shape shape-IsTree (omega arith)

insert_bst_node-insert_sorted_example :
    (u : Tree) × (g : Store) × (insert_bst_node 3 (some 7) 2 (pos 6) memory ≡ done (top u) g)
    × IsTree g u
    × (inorder u ≡ pos 2 ∷ pos 5 ∷ pos 6 ∷ pos 8 ∷ [])
    × Increasing (inorder u)
    × SameOutside (7 ∷ 2 ∷ 1 ∷ 3 ∷ []) memory g
insert_bst_node-insert_sorted_example =
    insert_bst_node-insert_sorted 7 (pos 6) (omega arith) 3 memory shape shape-IsTree
      (refl, (refl, (refl, tt))) ((refl, (refl, tt)), ((refl, tt), (tt, tt))) refl (omega arith)

remove_node_from_tree-without_example :
    (u : Tree) × (g : Store) × (remove_node_from_tree 3 2 (pos 5) memory ≡ done (top u) g)
    × IsTree g u
    × (inorder u ≡ pos 2 ∷ pos 8 ∷ [])
    × Increasing (inorder u)
    × SameOutside (2 ∷ 1 ∷ 3 ∷ []) memory g
remove_node_from_tree-without_example =
    remove_node_from_tree-without 3 (pos 5) memory shape shape-IsTree (refl, (refl, (refl, tt)))
      ((refl, (refl, tt)), ((refl, tt), (tt, tt))) (omega arith)

level_order_traversal-levels_example :
    level_order_traversal room 3 2 memory ≡ done (pos 5 ∷ pos 2 ∷ pos 8 ∷ []) memory
level_order_traversal-levels_example =
    level_order_traversal-levels room (λ q. refl) memory 3 shape shape-IsTree (omega arith)
