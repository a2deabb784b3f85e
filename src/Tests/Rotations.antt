-- ===== src/Tests/Rotations.antt =====
-- The functions of rbtree-lab/src/rbtree.c that change a tree, on the keys 5 and 7 with the
-- sentinel 1.
use jungle_data_structures.Prelude.{
  ◌≡◌, ◌≤◌, ◌+◌, ◌*◌, ◌^◌, ℕ, refl, none, some, [], ◌∷◌, length, ◌==◌, if◌then◌else◌, arith,
}
use jungle_data_structures.Prelude.Int.{pos}
use jungle_data_structures.Prelude.Run.{Ends}
use jungle_data_structures.RbTree.Store.{red, black, RbNode, rb_node, Store}
use jungle_data_structures.RbTree.Trees.{Tree, leaf, branch, height, IsOrdered}
use jungle_data_structures.RbTree.Change.{left_side, heap, left_rotate, rbtree_insert}
use jungle_data_structures.RbTree.Focus.{Focus, items, rotate-Focus}
use jungle_data_structures.RbTree.FixupLoop.{Balanced}
use jungle_data_structures.RbTree.Insert.{rbtree_insert-IsOrdered, rbtree_insert-height}

abbrev sentinel : RbNode
sentinel = rb_node black (pos 0) 1 1 1

abbrev memory : Store
memory a =
    if a == 2
    then some (rb_node black (pos 5) 1 1 3)
    else if a == 3
    then some (rb_node red (pos 7) 2 1 1)
    else if a == 1
    then some sentinel
    else none

abbrev tree : Tree
tree = branch leaf 2 (pos 5) black (branch leaf 3 (pos 7) red leaf)

memory-Focus : Focus 1 sentinel (heap memory 2) [] tree
memory-Focus = record {
  path = refl;
  tree = (omega arith, omega arith, refl, tt, (omega arith, omega arith, refl, tt, tt));
  apart = λ q. ground arith;
  sentinel = refl;
}

tree-IsOrdered : IsOrdered tree
tree-IsOrdered = omega arith

rotate-Focus_example :
    Ends
      (λ _.
        λ g. Focus 1 sentinel g [] (branch (branch leaf 2 (pos 5) black leaf) 3 (pos 7) red leaf))
      (left_rotate 1 2 (heap memory 2))
rotate-Focus_example =
    rotate-Focus left_side 2 3 (pos 5) (pos 7) black red leaf leaf leaf memory-Focus

-- The new node 4 comes between its parent and its grandparent: both rotations are needed.
rbtree_insert-IsOrdered_example :
    Ends
      (λ p m.
        (p ≡ 4)
        × (w : Balanced 1 sentinel ((2, pos 5) ∷ (4, pos 6) ∷ (3, pos 7) ∷ []) m) × IsOrdered
            w.tree)
      (rbtree_insert 3 1 4 (pos 6) (heap memory 2))
rbtree_insert-IsOrdered_example =
    rbtree_insert-IsOrdered 1 sentinel 4 (pos 6) (omega arith) (omega arith) refl 3 1 tree
      (heap memory 2) memory-Focus ((refl), (refl, refl, refl, refl)) refl tree-IsOrdered refl
      (omega arith)

rbtree_insert-height_example :
    Ends
      (λ p m.
        (t : Tree) × (b : ℕ) × Focus 1 sentinel m [] t
        × (height t ≤ 2 * b)
        × (2 ^ b ≤ length (items tree) + 2))
      (rbtree_insert 3 1 4 (pos 6) (heap memory 2))
rbtree_insert-height_example =
    rbtree_insert-height 1 sentinel 4 (pos 6) (omega arith) (omega arith) refl 3 1 tree
      (heap memory 2) memory-Focus ((refl), (refl, refl, refl, refl)) refl tree-IsOrdered refl
      (omega arith)
