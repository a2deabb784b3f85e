-- ===== src/Tests/RbTrees.antt =====
-- The functions of rbtree-lab/src/rbtree.c on the keys 3, 5, 8 with the sentinel 9.
use jungle_data_structures.Prelude.{◌≡◌, refl, none, some, [], ◌∷◌, ◌==◌, if◌then◌else◌, arith}
use jungle_data_structures.Prelude.Int.{pos}
use jungle_data_structures.Prelude.Run.{done, fault}
use jungle_data_structures.RbTree.Store.{Ptr, red, black, rb_node, Store}
use jungle_data_structures.RbTree.Defs.{RbTree, rbtree_find, rbtree_to_array, delete_rbtree}
use jungle_data_structures.RbTree.Trees.{Tree, leaf, branch, IsOrdered, Holds}
use jungle_data_structures.RbTree.Find.{Answer, rbtree_find-Answer}
use jungle_data_structures.RbTree.Delete.{Without, delete_rbtree-Without}
use jungle_data_structures.RbTree.Traversal.{target, rbtree_to_array-keys, rbtree_to_array-fault}

abbrev tree : RbTree
tree = record { root = 2; nil = 9 }

abbrev memory : Store
memory a =
    if a == 1
    then some (rb_node red (pos 3) 2 9 9)
    else if a == 2
    then some (rb_node black (pos 5) 9 1 3)
    else if a == 3
    then some (rb_node red (pos 8) 2 9 9)
    else if a == 9
    then some (rb_node black (pos 0) 9 9 9)
    else none

abbrev left_part : Tree
left_part = branch leaf 1 (pos 3) red leaf

abbrev right_part : Tree
right_part = branch leaf 3 (pos 8) red leaf

abbrev shape : Tree
shape = branch left_part 2 (pos 5) black right_part

memory-Holds : Holds memory tree shape
memory-Holds = record {
  root = refl;
  nodes = (
    omega arith,
    omega arith,
    refl,
    (omega arith, omega arith, refl, tt, tt),
    (omega arith, omega arith, refl, tt, tt),
  );
}

shape-IsOrdered : IsOrdered shape
shape-IsOrdered = omega arith

rbtree_find-Answer_example :
    (y : Ptr) × (rbtree_find 3 (some tree) (pos 8) memory ≡ done y memory)
    × Answer tree shape (pos 8) y
rbtree_find-Answer_example =
    rbtree_find-Answer memory tree (pos 8) 3 shape memory-Holds shape-IsOrdered (omega arith)

rbtree_to_array-keys_example :
    rbtree_to_array 3 memory tree (pos 7 ∷ pos 7 ∷ pos 7 ∷ pos 7 ∷ []) 4
    ≡ done 3 (target (pos 3 ∷ pos 5 ∷ pos 8 ∷ pos 7 ∷ []) 3)
rbtree_to_array-keys_example =
    rbtree_to_array-keys memory tree 3 shape (pos 7 ∷ pos 7 ∷ pos 7 ∷ pos 7 ∷ []) 4 memory-Holds
      (omega arith) (omega arith)

rbtree_to_array-fault_example : rbtree_to_array 3 memory tree (pos 7 ∷ []) 1 ≡ fault
rbtree_to_array-fault_example =
    rbtree_to_array-fault memory tree 3 shape (pos 7 ∷ []) 1 memory-Holds (omega arith)
      (omega arith)

delete_rbtree-Without_example :
    (delete_rbtree 3 none memory ≡ done tt memory)
    × (g : Store) × (delete_rbtree 3 (some tree) memory ≡ done tt g)
    × Without (9 ∷ 2 ∷ 1 ∷ 3 ∷ []) memory g
delete_rbtree-Without_example =
    delete_rbtree-Without 9 3 memory 2 shape (rb_node black (pos 0) 9 9 9) memory-Holds
      (refl, (refl, (refl, (refl, tt)))) refl (omega arith)
