-- ===== src/BinaryTree/Defs.antt =====
-- The functions of Data-Structures/tests/binary_tree.c. `fuel` bounds the depth of a recursion. An
-- `int` is an integer of any size, one that is only ever 0 or 1 is a Boolean, and what a function
-- prints is a list of integers that it returns.
use jungle_data_structures.Prelude.{
  ℕ, zero, suc, ◌+◌, ◌%◌, Bool, true, false, not, ◌&&◌, ◌||◌, List, [], ◌∷◌, ◌++◌, ◌==◌,
  if◌then◌else◌,
}
use jungle_data_structures.Prelude.Int.{ℤ, pos, minus_one, pos_part, neg_part, ltb_ℤ, eqb_ℤ, ◌+ℤ◌}
use jungle_data_structures.Prelude.Run.{done, give_up, ◌>>=◌, ◌>>◌}
use jungle_data_structures.BinaryTree.Store.{Ptr, null, Act, load, set_left, set_right, free}

unfoldable pub identical : ℕ → (tree1 tree2 : Ptr) → Act Bool
identical zero tree1 tree2 = give_up
identical (suc fuel) tree1 tree2 =
    if tree1 == null && tree2 == null
    then done true
    else (if tree1 == null || tree2 == null then done false else do
      a ← load tree1
      b ← load tree2
      if not (eqb_ℤ a.item b.item) then done false else do
        t ← identical fuel a.left b.left
        if t then identical fuel a.right b.right else done false)

abbrev pub max_int : ℤ → ℤ → ℤ
max_int a b = if ltb_ℤ b a then a else b

abbrev pub min_int : ℤ → ℤ → ℤ
min_int a b = if ltb_ℤ b a then b else a

unfoldable pub max_height : ℕ → (node : Ptr) → Act ℤ
max_height zero node = give_up
max_height (suc fuel) node = if node == null then done minus_one else do
  n ← load node
  l ← max_height fuel n.left
  r ← max_height fuel n.right
  done (max_int l r +ℤ pos 1)

unfoldable pub count_one_child_nodes : ℕ → (node : Ptr) → Act ℕ
count_one_child_nodes zero node = give_up
count_one_child_nodes (suc fuel) node = if node == null then done 0 else do
  n ← load node
  let left = count_one_child_nodes fuel n.left
  let right = count_one_child_nodes fuel n.right
  if (n.left == null) && not (n.right == null)
      then (do c ← right; done (c + 1))
      else (if (n.right == null) && not (n.left == null)
          then (do c ← left; done (c + 1))
          else (if not (n.right == null) && not (n.left == null)
              then (do a ← left; b ← right; done (a + b))
              else done 0))

-- `item % 2 != 0`; the remainder of a negative number is not positive.
abbrev pub is_odd : ℤ → Bool
is_odd v = not ((pos_part v + neg_part v) % 2 == 0)

unfoldable pub sum_of_odd_nodes : ℕ → (node : Ptr) → Act ℤ
sum_of_odd_nodes zero node = give_up
sum_of_odd_nodes (suc fuel) node = if node == null then done (pos 0) else do
  n ← load node
  let odd = if is_odd n.item then n.item else pos 0
  let left = sum_of_odd_nodes fuel n.left
  let right = sum_of_odd_nodes fuel n.right
  if not (n.left == null) && not (n.right == null)
      then (do a ← left; b ← right; done (odd +ℤ a +ℤ b))
      else (if n.left == null
          then (do b ← right; done (odd +ℤ b))
          else (if n.right == null then (do a ← left; done (odd +ℤ a)) else done odd))

unfoldable pub mirror_tree : ℕ → (node : Ptr) → Act (Unit {0})
mirror_tree zero node = give_up
mirror_tree (suc fuel) node = if node == null then done tt else do
  n ← load node
  set_left node n.right
  set_right node n.left
  m ← load node
  if m.left == null
      then mirror_tree fuel m.right
      else (if m.right == null
          then mirror_tree fuel m.left
          else (mirror_tree fuel m.left >> mirror_tree fuel m.right))

unfoldable pub print_smaller_values : ℕ → (node : Ptr) → ℤ → Act (List ℤ)
print_smaller_values zero node m = give_up
print_smaller_values (suc fuel) node m = if node == null then done [] else do
  n ← load node
  l ← (if n.left == null then done [] else print_smaller_values fuel n.left m)
  r ← (if n.right == null then done [] else print_smaller_values fuel n.right m)
  done ((if ltb_ℤ n.item m then n.item ∷ [] else []) ++ (l ++ r))

unfoldable pub smallest_value : ℕ → (node : Ptr) → Act ℤ
smallest_value zero node = give_up
smallest_value (suc fuel) node = if node == null then done (pos 1000000) else do
  n ← load node
  left ←
      (if n.left == null
        then done n.item
        else (do v ← smallest_value fuel n.left; done (min_int v n.item)))
  right ←
      (if n.right == null
        then done n.item
        else (do v ← smallest_value fuel n.right; done (min_int n.item v)))
  done (min_int left right)

-- The number that is returned, and the items that are printed.
unfoldable pub has_great_grandchild : ℕ → (node : Ptr) → Act (ℕ × List ℤ)
has_great_grandchild zero node = give_up
has_great_grandchild (suc fuel) node = if node == null then done (0, []) else do
  n ← load node
  (ld, l) ← has_great_grandchild fuel n.left
  (rd, r) ← has_great_grandchild fuel n.right
  depth ← max_height (suc fuel) node
  if ltb_ℤ depth (pos 3)
      then done (ld + rd, l ++ r)
      else done (ld + rd + 1, l ++ (r ++ (n.item ∷ [])))

unfoldable pub print_tree : ℕ → (node : Ptr) → Act (List ℤ)
print_tree zero node = give_up
print_tree (suc fuel) node = if node == null then done [] else do
  n ← load node
  l ← print_tree fuel n.left
  r ← print_tree fuel n.right
  done (l ++ (n.item ∷ r))

-- The recursive calls set the links that they are handed to `NULL`; the last write, to `*node`, is
-- the value that is returned.
unfoldable pub remove_all : ℕ → (node : Ptr) → Act Ptr
remove_all zero node = give_up
remove_all (suc fuel) node = if node == null then done node else do
  n ← load node
  l ← remove_all fuel n.left
  set_left node l
  m ← load node
  r ← remove_all fuel m.right
  set_right node r
  free node
  done null
