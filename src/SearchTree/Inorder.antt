-- ===== src/SearchTree/Inorder.antt =====
-- `inOrderIterative` and `preOrderIterative` of Data-Structures/tests/binary_search_tree.c.
use jungle_data_structures.Prelude.{
  ℕ, zero, suc, ◌+◌, ◌-◌, ◌<◌, ◌≡◌, ◌≢◌, refl, sym, ap, ◌∙◌, Bool, true, false, ◌&&◌, some, List,
  [], ◌∷◌, ◌++◌, ◌==◌, ne→==, arith,
}
use mathlib.Core.List.{append_assoc, append-nil}
use jungle_data_structures.Prelude.Int.{ℤ}
use jungle_data_structures.Prelude.Run.{Outcome, done, fault, panic, out_of_fuel, continue}
use jungle_data_structures.BinaryTree.Store.{Ptr, null, bt_node, Store, load-done}
use jungle_data_structures.BinaryTree.Trees.{Tree, leaf, branch, height, top, inorder, IsTree}
use jungle_data_structures.SearchTree.Defs.{
  Stack, push_left, inorder_loop, in_order_iterative, pre_order_iterative,
}

-- The number of nodes.
abbrev pub size : Tree → ℕ
size leaf = 0
size (branch l x v r) = suc (size l + size r)

-- A run that prints these items first.
abbrev pub prepend : List ℤ → Outcome Store (List ℤ) → Outcome Store (List ℤ)
prepend xs (done ys h) = done (xs ++ ys) h
prepend xs fault = fault
prepend xs panic = panic
prepend xs out_of_fuel = out_of_fuel

pub prepend-nil : (o : Outcome Store (List ℤ)) → prepend [] o ≡ o
prepend-nil (done ys h) = refl
prepend-nil fault = refl
prepend-nil panic = refl
prepend-nil out_of_fuel = refl

pub prepend-append :
    (xs ys : List ℤ) (o : Outcome Store (List ℤ)) → prepend xs (prepend ys o) ≡ prepend (xs ++ ys) o
prepend-append xs ys (done zs h) = ap (λ t. done t h) (sym (append_assoc xs ys zs))
prepend-append xs ys fault = refl
prepend-append xs ys panic = refl
prepend-append xs ys out_of_fuel = refl

pub prepend-continue :
    (v : ℤ) (o : Outcome Store (List ℤ))
    → continue o (λ rest. λ h. done (v ∷ rest) h) ≡ prepend (v ∷ []) o
prepend-continue v (done ys h) = refl
prepend-continue v fault = refl
prepend-continue v panic = refl
prepend-continue v out_of_fuel = refl

module _ (room : Stack → Bool) (ok : (s : Stack) → room s ≡ true) (h : Store) where
  -- The stack with a node and those down to its left.
  abbrev pub lefts : Tree → Stack → Stack
  lefts leaf s = s
  lefts (branch l x v r) s = lefts l (x ∷ s)

  pub push_left-lefts :
      (deep : ℕ) (t : Tree) (s : Stack)
      → IsTree h t
      → height t < deep
      → push_left room deep (top t) s h ≡ done (lefts t s) h
  unfolding push_left
  push_left-lefts zero t s w lt = ground arith
  push_left-lefts (suc deep) leaf s w lt = refl
  push_left-lefts (suc deep) (branch l x v r) s (nx, e, wl, wr) lt =
      rw (ne→== x null nx, load-done h x (bt_node v (top l) (top r)) nx e, ok s)
        (push_left-lefts deep l (x ∷ s) wl (omega arith))

  -- A node that is to be visited may as well stand on the stack already.
  inorder_loop-push :
      (deep k : ℕ) (l : Tree) (x : Ptr) (v : ℤ) (r : Tree) (s : Stack)
      → IsTree h (branch l x v r)
      → height (branch l x v r) < deep
      → inorder_loop room deep k x s h ≡ inorder_loop room deep k (top l) (x ∷ s) h
  unfolding inorder_loop
  inorder_loop-push deep zero l x v r s w lt = refl
  inorder_loop-push deep (suc k) l x v r s w lt =
      rw
        (
          ne→== x null w.0,
          push_left-lefts deep (branch l x v r) s w lt,
          and_false (top l == null),
          push_left-lefts deep l (x ∷ s) w.2 (omega arith),
        )
        refl
    where
      and_false : (b : Bool) → (b && false) ≡ false
      and_false b = ground arith

  inorder_loop-pop :
      (deep k : ℕ) (x p q : Ptr) (v : ℤ) (s : Stack)
      → x ≢ null
      → h x ≡ some (bt_node v p q)
      → 0 < deep
      → inorder_loop room deep (suc k) null (x ∷ s) h
        ≡ prepend (v ∷ []) (inorder_loop room deep k q s h)
  unfolding inorder_loop push_left
  inorder_loop-pop zero k x p q v s nx e lt = ground arith
  inorder_loop-pop (suc deep) k x p q v s nx e lt =
      rw (load-done h x (bt_node v p q) nx e)
        (prepend-continue v (inorder_loop room (suc deep) k q s h))

  inorder_loop-inorder :
      (deep k : ℕ) (t : Tree) (s : Stack)
      → IsTree h t
      → height t < deep
      → inorder_loop room deep (size t + k) (top t) s h
        ≡ prepend (inorder t) (inorder_loop room deep k null s h)
  inorder_loop-inorder deep k leaf s w lt =
      ap (λ f. inorder_loop room deep f null s h) (omega arith)
      ∙ sym (prepend-nil (inorder_loop room deep k null s h))
  inorder_loop-inorder deep k (branch l x v r) s (nx, e, wl, wr) lt =
      inorder_loop-push deep (suc (size l + size r) + k) l x v r s (nx, e, wl, wr) lt
      ∙ ap (λ f. inorder_loop room deep f (top l) (x ∷ s) h) (omega arith)
      ∙ inorder_loop-inorder deep (suc (size r + k)) l (x ∷ s) wl (omega arith)
      ∙ ap (prepend (inorder l)) (
          inorder_loop-pop deep (size r + k) x (top l) (top r) v s nx e (omega arith)
          ∙ ap (prepend (v ∷ [])) (inorder_loop-inorder deep k r s wr (omega arith))
          ∙ prepend-append (v ∷ []) (inorder r) (inorder_loop room deep k null s h))
      ∙ prepend-append (inorder l) (v ∷ inorder r) (inorder_loop room deep k null s h)

  inorder_loop-end :
      (deep fuel : ℕ) (t : Tree)
      → IsTree h t
      → height t < deep
      → size t < fuel
      → inorder_loop room deep fuel (top t) [] h ≡ done (inorder t) h
  unfolding inorder_loop
  inorder_loop-end deep fuel t w lt enough =
      let k : ℕ = fuel - size t - 1 in
      ap (λ f. inorder_loop room deep f (top t) [] h) (omega arith)
      ∙ inorder_loop-inorder deep (suc k) t [] w lt
      ∙ ap (λ r. done r h) (append-nil (inorder t))

  -- With memory for the stack `inOrderIterative` prints the items from left to right. One round
  -- more than there are nodes is enough for the outer loop, and one more than the tree is high for
  -- the inner.
  pub in_order_iterative-inorder :
      (deep fuel : ℕ) (t : Tree)
      → IsTree h t
      → height t < deep
      → size t < fuel
      → in_order_iterative room deep fuel (top t) h ≡ done (inorder t) h
  unfolding in_order_iterative
  in_order_iterative-inorder deep fuel leaf w lt enough = refl
  in_order_iterative-inorder deep fuel (branch l x v r) w lt enough =
      rw (ne→== x null w.0) (inorder_loop-end deep fuel (branch l x v r) w lt enough)

  -- `preOrderIterative` prints the items from left to right as well, under the same conditions.
  pre_order_iterative-inorder :
      (deep fuel : ℕ) (t : Tree)
      → IsTree h t
      → height t < deep
      → size t < fuel
      → pre_order_iterative room deep fuel (top t) h ≡ done (inorder t) h
  unfolding pre_order_iterative in_order_iterative
  pre_order_iterative-inorder deep fuel t w lt enough =
      in_order_iterative-inorder deep fuel t w lt enough
