-- ===== src/BinaryTree/Measure.antt =====
-- `maxHeight`, `countOneChildNodes`, `sumOfOddNodes` and `smallestValue` of
-- Data-Structures/tests/binary_tree.c.
use jungle_data_structures.Prelude.{
  ℕ, zero, suc, ◌+◌, ◌<◌, ◌≡◌, refl, sym, ap, Bool, true, false, ne→==, max, if◌then◌else◌, arith,
}
use jungle_data_structures.Prelude.Int.{ℤ, pos, sub_ℕ, ◌+ℤ◌, int_laws}
use jungle_data_structures.Prelude.Run.{done}
use jungle_data_structures.BinaryTree.Store.{null, bt_node, Store, load-done}
use jungle_data_structures.BinaryTree.Trees.{Tree, leaf, branch, height, top, IsTree}
use jungle_data_structures.BinaryTree.Defs.{
  max_int, max_height, count_one_child_nodes, is_odd, sum_of_odd_nodes,
}

max_int-suc : (m n : ℕ) → max_int (sub_ℕ m 1) (sub_ℕ n 1) +ℤ pos 1 ≡ sub_ℕ (suc (max m n)) 1
unfolding ◌+ℤ◌
max_int-suc m n = ground arith

-- `maxHeight` returns the number of edges on the longest way down, and -1 for an empty tree; one
-- round more than there are nodes on that way is enough.
pub max_height-height :
    (fuel : ℕ) (h : Store) (s : Tree)
    → IsTree h s
    → height s < fuel
    → max_height fuel (top s) h ≡ done (sub_ℕ (height s) 1) h
unfolding max_height
max_height-height zero h s w lt = ground arith
max_height-height (suc fuel) h leaf w lt = refl
max_height-height (suc fuel) h (branch l x v r) (nx, e, wl, wr) lt =
    rw
      (
        ne→== x null nx,
        load-done h x (bt_node v (top l) (top r)) nx e,
        max_height-height fuel h l wl (omega arith),
        max_height-height fuel h r wr (omega arith),
      )
      (ap (λ z. done z h) (max_int-suc (height l) (height r)))

-- The number of nodes with one child.
abbrev pub is_leaf : Tree → Bool
is_leaf leaf = true
is_leaf (branch l x v r) = false

abbrev pub one_child : Bool → Bool → ℕ
one_child true false = 1
one_child false true = 1
one_child true true = 0
one_child false false = 0

abbrev pub one_child_nodes : Tree → ℕ
one_child_nodes leaf = 0
one_child_nodes (branch l x v r) =
    one_child (is_leaf l) (is_leaf r) + one_child_nodes l + one_child_nodes r

-- `countOneChildNodes` counts the nodes that have one child; one round more than the tree is high
-- is enough.
pub count_one_child_nodes-lem :
    (fuel : ℕ) (h : Store) (s : Tree)
    → IsTree h s
    → height s < fuel
    → count_one_child_nodes fuel (top s) h ≡ done (one_child_nodes s) h
unfolding count_one_child_nodes
count_one_child_nodes-lem zero h s w lt = ground arith
count_one_child_nodes-lem (suc fuel) h leaf w lt = refl
count_one_child_nodes-lem (suc fuel) h (branch leaf x v leaf) (nx, e, wl, wr) lt =
    rw (ne→== x null nx, load-done h x (bt_node v null null) nx e) refl
count_one_child_nodes-lem (suc fuel) h (branch leaf x v (branch c q j d))
      (nx, e, wl, (nq, eq, wc, wd)) lt =
    rw
      (
        ne→== x null nx,
        load-done h x (bt_node v null q) nx e,
        ne→== q null nq,
        count_one_child_nodes-lem fuel h (branch c q j d) (nq, eq, wc, wd) (omega arith),
      )
      (ap (λ c. done c h) (omega arith))
count_one_child_nodes-lem (suc fuel) h (branch (branch a p i b) x v leaf)
      (nx, e, (np, ep, wa, wb), wr) lt =
    rw
      (
        ne→== x null nx,
        load-done h x (bt_node v p null) nx e,
        ne→== p null np,
        count_one_child_nodes-lem fuel h (branch a p i b) (np, ep, wa, wb) (omega arith),
      )
      (ap (λ c. done c h) (omega arith))
count_one_child_nodes-lem (suc fuel) h (branch (branch a p i b) x v (branch c q j d))
      (nx, e, (np, ep, wa, wb), (nq, eq, wc, wd)) lt =
    rw
      (
        ne→== x null nx,
        load-done h x (bt_node v p q) nx e,
        ne→== p null np,
        ne→== q null nq,
        count_one_child_nodes-lem fuel h (branch a p i b) (np, ep, wa, wb) (omega arith),
        count_one_child_nodes-lem fuel h (branch c q j d) (nq, eq, wc, wd) (omega arith),
      )
      (ap (λ c. done c h) (omega arith))

-- The sum of the odd items.
abbrev pub sum_odd : Tree → ℤ
sum_odd leaf = pos 0
sum_odd (branch l x v r) = (if is_odd v then v else pos 0) +ℤ sum_odd l +ℤ sum_odd r

plus_zero : (a : ℤ) → a +ℤ pos 0 ≡ a
plus_zero a = grind int_laws

-- `sumOfOddNodes` returns the sum of the odd items; one round more than the tree is high is enough.
pub sum_of_odd_nodes-sum_odd :
    (fuel : ℕ) (h : Store) (s : Tree)
    → IsTree h s
    → height s < fuel
    → sum_of_odd_nodes fuel (top s) h ≡ done (sum_odd s) h
unfolding sum_of_odd_nodes
sum_of_odd_nodes-sum_odd zero h s w lt = ground arith
sum_of_odd_nodes-sum_odd (suc fuel) h leaf w lt = refl
sum_of_odd_nodes-sum_odd (suc fuel) h (branch leaf x v leaf) (nx, e, wl, wr) lt =
    rw
      (
        ne→== x null nx,
        load-done h x (bt_node v null null) nx e,
        sum_of_odd_nodes-sum_odd fuel h leaf wr (omega arith),
      )
      (ap (λ z. done z h) (sym (plus_zero _)))
sum_of_odd_nodes-sum_odd (suc fuel) h (branch leaf x v (branch c q j d))
      (nx, e, wl, (nq, eq, wc, wd)) lt =
    rw
      (
        ne→== x null nx,
        load-done h x (bt_node v null q) nx e,
        sum_of_odd_nodes-sum_odd fuel h (branch c q j d) (nq, eq, wc, wd) (omega arith),
      )
      (ap (λ z. done z h) (ap (λ t. t +ℤ sum_odd (branch c q j d)) (sym (plus_zero _))))
sum_of_odd_nodes-sum_odd (suc fuel) h (branch (branch a p i b) x v leaf)
      (nx, e, (np, ep, wa, wb), wr) lt =
    rw
      (
        ne→== x null nx,
        load-done h x (bt_node v p null) nx e,
        ne→== p null np,
        sum_of_odd_nodes-sum_odd fuel h (branch a p i b) (np, ep, wa, wb) (omega arith),
      )
      (ap (λ z. done z h) (sym (plus_zero _)))
sum_of_odd_nodes-sum_odd (suc fuel) h (branch (branch a p i b) x v (branch c q j d))
      (nx, e, (np, ep, wa, wb), (nq, eq, wc, wd)) lt =
    rw
      (
        ne→== x null nx,
        load-done h x (bt_node v p q) nx e,
        ne→== p null np,
        ne→== q null nq,
        sum_of_odd_nodes-sum_odd fuel h (branch a p i b) (np, ep, wa, wb) (omega arith),
        sum_of_odd_nodes-sum_odd fuel h (branch c q j d) (nq, eq, wc, wd) (omega arith),
      )
      (ap (λ z. done z h) (refl))
