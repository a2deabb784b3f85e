-- ===== src/BinaryTree/Printing.antt =====
-- What `printTree`, `printSmallerValues` and `hasGreatGrandchild` of
-- Data-Structures/tests/binary_tree.c print.
use jungle_data_structures.Prelude.{
  ℕ, zero, suc, ◌<◌, ◌≡◌, refl, sym, ap, ◌∙◌, inl, inr, Bool-cases, List, [], ◌∷◌, ◌++◌, ◌==◌,
  ne→==, max, ltb, if◌then◌else◌, arith, length, length-append,
}
use mathlib.Core.List.{append_assoc, append-nil}
use jungle_data_structures.Prelude.Int.{ℤ, pos, sub_ℕ, ltb_ℤ}
use jungle_data_structures.Prelude.Run.{done}
use jungle_data_structures.BinaryTree.Store.{null, bt_node, Store, load-done}
use jungle_data_structures.BinaryTree.Trees.{
  Tree, leaf, branch, height, top, inorder, preorder, IsTree,
}
use jungle_data_structures.BinaryTree.Defs.{print_tree, print_smaller_values, has_great_grandchild}
use jungle_data_structures.BinaryTree.Measure.{max_height-height}

-- `printTree` prints the items from left to right; one round more than the tree is high is enough.
pub print_tree-inorder :
    (fuel : ℕ) (h : Store) (s : Tree)
    → IsTree h s
    → height s < fuel
    → print_tree fuel (top s) h ≡ done (inorder s) h
unfolding print_tree
print_tree-inorder zero h s w lt = ground arith
print_tree-inorder (suc fuel) h leaf w lt = refl
print_tree-inorder (suc fuel) h (branch l x v r) (nx, e, wl, wr) lt =
    rw
      (
        ne→== x null nx,
        load-done h x (bt_node v (top l) (top r)) nx e,
        print_tree-inorder fuel h l wl (omega arith),
        print_tree-inorder fuel h r wr (omega arith),
      )
      refl

-- The items below `m`, in their order.
abbrev pub below : ℤ → List ℤ → List ℤ
below m [] = []
below m (v ∷ vs) = (if ltb_ℤ v m then v ∷ [] else []) ++ below m vs

below-append : (m : ℤ) (xs ys : List ℤ) → below m (xs ++ ys) ≡ below m xs ++ below m ys
below-append m [] ys = refl
below-append m (v ∷ vs) ys =
    ap (λ t. (if ltb_ℤ v m then v ∷ [] else []) ++ t) (below-append m vs ys)
    ∙ sym (append_assoc (if ltb_ℤ v m then v ∷ [] else []) (below m vs) (below m ys))

-- `printSmallerValues` prints the items below `m`, each node before the nodes under it; one round
-- more than the tree is high is enough.
pub print_smaller_values-below :
    (fuel : ℕ) (h : Store) (m : ℤ) (s : Tree)
    → IsTree h s
    → height s < fuel
    → print_smaller_values fuel (top s) m h ≡ done (below m (preorder s)) h
unfolding print_smaller_values
print_smaller_values-below zero h m s w lt = ground arith
print_smaller_values-below (suc fuel) h m leaf w lt = refl
print_smaller_values-below (suc fuel) h m (branch l x v r) (nx, e, wl, wr) lt =
    rw
      (
        ne→== x null nx,
        load-done h x (bt_node v (top l) (top r)) nx e,
        side l wl (print_smaller_values-below fuel h m l wl (omega arith)),
        side r wr (print_smaller_values-below fuel h m r wr (omega arith)),
        below-append m (preorder l) (preorder r),
      )
      refl
  where
    side :
        (t : Tree)
        → IsTree h t
        → print_smaller_values fuel (top t) m h ≡ done (below m (preorder t)) h
        → (if top t == null then done [] else print_smaller_values fuel (top t) m) h
          ≡ done (below m (preorder t)) h
    side leaf w run = refl
    side (branch a y u b) w run = rw (ne→== y null w.0) run

-- The items of the nodes with a great grandchild, each behind those under it.
abbrev pub great : Tree → List ℤ
great leaf = []
great (branch l x v r) =
    great l ++ (great r ++ (if ltb (height (branch l x v r)) 4 then [] else v ∷ []))

deep : (n : ℕ) → ltb_ℤ (sub_ℕ (suc n) 1) (pos 3) ≡ ltb (suc n) 4
deep n = ground arith

-- `hasGreatGrandchild` prints the items of the nodes below which there are three more, each behind
-- those under it, and returns their number; one round more than the tree is high is enough.
pub has_great_grandchild-great :
    (fuel : ℕ) (h : Store) (s : Tree)
    → IsTree h s
    → height s < fuel
    → has_great_grandchild fuel (top s) h ≡ done (length (great s), great s) h
unfolding has_great_grandchild
has_great_grandchild-great zero h s w lt = ground arith
has_great_grandchild-great (suc fuel) h leaf w lt = refl
has_great_grandchild-great (suc fuel) h (branch l x v r) (nx, e, wl, wr) lt =
    let depth = max_height-height (suc fuel) h (branch l x v r) (nx, e, wl, wr) lt in
    rw
      (
        ne→== x null nx,
        load-done h x (bt_node v (top l) (top r)) nx e,
        has_great_grandchild-great fuel h l wl (omega arith),
        has_great_grandchild-great fuel h r wr (omega arith),
        depth,
        deep (max (height l) (height r)),
      )
      (elim (Bool-cases (ltb (height (branch l x v r)) 4)) [
        | inl t ↦ rw t (
            rw (append-nil (great r))
              (ap (λ c. done (c, great l ++ great r) h) (sym (length-append (great l) (great r)))))
        | inr f ↦ rw f (
            let a = length-append (great l) (great r ++ v ∷ []) in
            let b = length-append (great r) (v ∷ []) in
            ap (λ c. done (c, great l ++ (great r ++ v ∷ [])) h) (omega arith))
      ])
