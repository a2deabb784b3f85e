-- ===== src/Tests/Erase.antt =====
-- `rbtree_erase` of rbtree-lab/src/rbtree.c on the keys 1 to 5 with the sentinel 9; the node of a key
-- stands at the address that is the key.
use jungle_data_structures.Prelude.{
  ℕ, ◌≡◌, refl, inr, Option, none, some, List, [], ◌∷◌, ◌==◌, if◌then◌else◌, arith,
}
use jungle_data_structures.Prelude.Int.{ℤ, pos}
use jungle_data_structures.Prelude.Run.{Outcome, Ends, done, fault, panic, out_of_fuel}
use jungle_data_structures.RbTree.Store.{Ptr, red, black, RbNode, rb_node, Store, write}
use jungle_data_structures.RbTree.Change.{left_side, Heap, heap, get, change, rotate, take_place}
use jungle_data_structures.RbTree.Erase.{
  release, rbtree_transplant, tree_minimum, sibling_again, dark_sibling, black_children,
  delete_turn, delete_round, delete_loop, rbtree_delete_fixup, replace_node, unlink_node,
  rbtree_erase,
}
use jungle_data_structures.RbTree.Trees.{Tree, leaf, branch}
use jungle_data_structures.RbTree.Zipper.{Trail, frame}
use jungle_data_structures.RbTree.Focus.{Focus}
use jungle_data_structures.RbTree.FixupLoop.{Balanced}
use jungle_data_structures.RbTree.Settled.{Less}
use jungle_data_structures.RbTree.Erased.{rbtree_erase-Balanced}

-- The node 2 with 1 and the red node 4 below it, which has 3 and 5.
abbrev memory : Store
memory a =
    if a == 1
    then some (rb_node black (pos 1) 2 9 9)
    else if a == 2
    then some (rb_node black (pos 2) 9 1 4)
    else if a == 3
    then some (rb_node black (pos 3) 4 9 9)
    else if a == 4
    then some (rb_node red (pos 4) 2 3 5)
    else if a == 5
    then some (rb_node black (pos 5) 4 9 9)
    else if a == 9
    then some (rb_node black (pos 0) 9 9 9)
    else none

-- What stands at an address after a run.
abbrev seen : Outcome Heap ℕ → Ptr → Option RbNode
seen (done r m) a = m.nodes a
seen fault a = none
seen panic a = none
seen out_of_fuel a = none

-- Below 2, the node 1 has a red sibling, 4. When it has been rotated to the root, the fixup takes the
-- right child of the sentinel for the new sibling, and colours the sentinel red.
erase_left : seen (rbtree_erase 5 9 1 (heap memory 2)) 9 ≡ some (rb_node red (pos 0) 2 9 9)
unfolding rbtree_erase unlink_node replace_node rbtree_delete_fixup delete_loop delete_round
    delete_turn black_children dark_sibling sibling_again tree_minimum rbtree_transplant release
    rotate take_place get change write
erase_left = refl

-- The tree after it: below 4 there are two black nodes on the way to 3 and one on the way to 5.
erase_left_rest :
    (seen (rbtree_erase 5 9 1 (heap memory 2)) 4 ≡ some (rb_node black (pos 4) 9 2 5))
    × (seen (rbtree_erase 5 9 1 (heap memory 2)) 2 ≡ some (rb_node black (pos 2) 4 9 3))
    × (seen (rbtree_erase 5 9 1 (heap memory 2)) 3 ≡ some (rb_node black (pos 3) 2 9 9))
unfolding rbtree_erase unlink_node replace_node rbtree_delete_fixup delete_loop delete_round
    delete_turn black_children dark_sibling sibling_again tree_minimum rbtree_transplant release
    rotate take_place get change write
erase_left_rest = (refl, refl, refl)

-- The node 5 has a black sibling.
erase_right :
    (seen (rbtree_erase 5 9 5 (heap memory 2)) 4 ≡ some (rb_node black (pos 4) 2 3 9))
    × (seen (rbtree_erase 5 9 5 (heap memory 2)) 3 ≡ some (rb_node red (pos 3) 4 9 9))
    × (seen (rbtree_erase 5 9 5 (heap memory 2)) 5 ≡ none)
unfolding rbtree_erase unlink_node replace_node rbtree_delete_fixup delete_loop delete_round
    delete_turn black_children dark_sibling sibling_again tree_minimum rbtree_transplant release
    rotate take_place get change write
erase_right = (refl, refl, refl)

-- The node 2 with the black nodes 1 and 4, and the red node 3 at the right of 1.
abbrev slim : Store
slim a =
    if a == 1
    then some (rb_node black (pos 1) 2 9 3)
    else if a == 2
    then some (rb_node black (pos 5) 9 1 4)
    else if a == 3
    then some (rb_node red (pos 2) 1 9 9)
    else if a == 4
    then some (rb_node black (pos 8) 2 9 9)
    else if a == 9
    then some (rb_node black (pos 0) 9 9 9)
    else none

abbrev slim_child : Tree
slim_child = branch leaf 3 (pos 2) red leaf

abbrev slim_path : Trail
slim_path = frame left_side 2 (pos 5) black (branch leaf 4 (pos 8) black leaf) ∷ []

slim-Focus :
    Focus 9
      (rb_node black (pos 0) 9 9 9)
      (heap slim 2)
      slim_path
      (branch leaf 1 (pos 1) black slim_child)
slim-Focus = record {
  path = (omega arith, omega arith, refl, (omega arith, omega arith, refl, tt, tt), refl);
  tree = (omega arith, omega arith, refl, tt, (omega arith, omega arith, refl, tt, tt));
  apart = λ q. ground arith;
  sentinel = refl;
}

rbtree_erase-Balanced_example :
    Ends
      (λ r g.
        (r ≡ 0)
        × (g.nodes 1 ≡ none)
        × (sn : RbNode) × (sn.color ≡ black)
        × (ks : List (Ptr × ℤ)) × Less
            (1, pos 1)
            ((1, pos 1) ∷ (3, pos 2) ∷ (2, pos 5) ∷ (4, pos 8) ∷ [])
            ks
        × Balanced 9 sn ks g)
      (rbtree_erase 1 9 1 (heap slim 2))
rbtree_erase-Balanced_example =
    rbtree_erase-Balanced 9 1 (pos 1) (rb_node black (pos 0) 9 9 9) (omega arith) slim_path
      left_side black slim_child 0 1 (heap slim 2) (inr refl) slim-Focus
      (refl, (refl, refl, refl, refl)) ((refl, refl), tt)
