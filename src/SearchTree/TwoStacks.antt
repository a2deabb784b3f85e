-- ===== src/SearchTree/TwoStacks.antt =====
-- `postOrderIterativeS2` of Data-Structures/tests/binary_search_tree.c.
use jungle_data_structures.Prelude.{
  ℕ, suc, ◌+◌, ◌-◌, ◌<◌, ◌≡◌, ◌≢◌, refl, sym, ap, ◌∙◌, Bool, true, some, List, [], ◌∷◌, ◌++◌, ne→==,
  arith,
}
use mathlib.Core.List.{append_assoc, append-nil}
use jungle_data_structures.Prelude.Int.{ℤ}
use jungle_data_structures.Prelude.Run.{done}
use jungle_data_structures.BinaryTree.Store.{Ptr, null, bt_node, Store, load-done}
use jungle_data_structures.BinaryTree.Trees.{Tree, leaf, branch, top, postorder, IsTree}
use jungle_data_structures.SearchTree.Defs.{
  Stack, collect_loop, print_stack, post_order_iterative_s2,
}
use jungle_data_structures.SearchTree.Inorder.{size}

-- The nodes, each behind those of both of its sides.
abbrev pub post_nodes : Tree → Stack
post_nodes leaf = []
post_nodes (branch l x v r) = post_nodes l ++ (post_nodes r ++ (x ∷ []))

-- A tree waits on the stack, if it has nodes.
abbrev waiting : Tree → Stack → Stack
waiting leaf s = s
waiting (branch l x v r) s = x ∷ s

module _ (room : Stack → Bool) (ok : (s : Stack) → room s ≡ true) (h : Store) where
  collect_loop-step :
      (k : ℕ) (l : Tree) (x : Ptr) (v : ℤ) (r : Tree) (s1 s2 : Stack)
      → IsTree h (branch l x v r)
      → collect_loop room (suc k) (x ∷ s1) s2 h
        ≡ collect_loop room k (waiting r (waiting l s1)) (x ∷ s2) h
  unfolding collect_loop
  collect_loop-step k leaf x v leaf s1 s2 (nx, e, wl, wr) =
      rw (load-done h x (bt_node v null null) nx e, ok s2) refl
  collect_loop-step k leaf x v (branch c y j d) s1 s2 (nx, e, wl, wr) =
      rw (load-done h x (bt_node v null y) nx e, ok s2, ne→== y null wr.0, ok s1) refl
  collect_loop-step k (branch a z u b) x v leaf s1 s2 (nx, e, wl, wr) =
      rw (load-done h x (bt_node v z null) nx e, ok s2, ne→== z null wl.0, ok s1) refl
  collect_loop-step k (branch a z u b) x v (branch c y j d) s1 s2 (nx, e, wl, wr) =
      rw
        (
          load-done h x (bt_node v z y) nx e,
          ok s2,
          ne→== z null wl.0,
          ne→== y null wr.0,
          ok s1,
          ok (z ∷ s1),
        )
        refl

  collect_loop-post_nodes :
      (k : ℕ) (t : Tree) (s1 s2 : Stack)
      → IsTree h t
      → collect_loop room (size t + k) (waiting t s1) s2 h
        ≡ collect_loop room k s1 (post_nodes t ++ s2) h
  collect_loop-post_nodes k leaf s1 s2 w = ap (λ f. collect_loop room f s1 s2 h) (omega arith)
  collect_loop-post_nodes k (branch l x v r) s1 s2 (nx, e, wl, wr) =
      ap (λ f. collect_loop room f (x ∷ s1) s2 h) (omega arith)
      ∙ collect_loop-step (size r + (size l + k)) l x v r s1 s2 (nx, e, wl, wr)
      ∙ collect_loop-post_nodes (size l + k) r (waiting l s1) (x ∷ s2) wr
      ∙ collect_loop-post_nodes k l s1 (post_nodes r ++ (x ∷ s2)) wl
      ∙ ap (λ s. collect_loop room k s1 s h)
          (ap (λ s. post_nodes l ++ s) (sym (append_assoc (post_nodes r) (x ∷ []) s2))
            ∙ sym (append_assoc (post_nodes l) (post_nodes r ++ (x ∷ [])) s2))

  print_stack-cons :
      (x p q : Ptr) (v : ℤ) (u : Stack) (ys : List ℤ)
      → x ≢ null
      → h x ≡ some (bt_node v p q)
      → print_stack u h ≡ done ys h
      → print_stack (x ∷ u) h ≡ done (v ∷ ys) h
  unfolding print_stack
  print_stack-cons x p q v u ys nx e run = rw (load-done h x (bt_node v p q) nx e, run) refl

  print_stack-post_nodes :
      (t : Tree) (u : Stack) (ys : List ℤ)
      → IsTree h t
      → print_stack u h ≡ done ys h
      → print_stack (post_nodes t ++ u) h ≡ done (postorder t ++ ys) h
  print_stack-post_nodes leaf u ys w run = run
  print_stack-post_nodes (branch l x v r) u ys (nx, e, wl, wr) run =
      let here = print_stack-cons x (top l) (top r) v u ys nx e run in
      let right = print_stack-post_nodes r (x ∷ u) (v ∷ ys) wr here in
      let left =
        print_stack-post_nodes l (post_nodes r ++ (x ∷ u)) (postorder r ++ (v ∷ ys)) wl right in
      ap (λ s. print_stack s h)
        (append_assoc (post_nodes l) (post_nodes r ++ (x ∷ [])) u
          ∙ ap (λ s. post_nodes l ++ s) (append_assoc (post_nodes r) (x ∷ []) u))
      ∙ left
      ∙ ap (λ s. done s h)
          (ap (λ s. postorder l ++ s) (sym (append_assoc (postorder r) (v ∷ []) ys))
            ∙ sym (append_assoc (postorder l) (postorder r ++ (v ∷ [])) ys))

  print_stack-nil : print_stack [] h ≡ done [] h
  unfolding print_stack
  print_stack-nil = refl

  collect_loop-end : (k : ℕ) (s2 : Stack) → collect_loop room (suc k) [] s2 h ≡ done s2 h
  unfolding collect_loop
  collect_loop-end k s2 = refl

  -- With memory for the stacks `postOrderIterativeS2` prints each item behind those of both sides
  -- of its node; one round more than there are nodes is enough.
  pub post_order_iterative_s2-postorder :
      (fuel : ℕ) (t : Tree)
      → IsTree h t
      → size t < fuel
      → post_order_iterative_s2 room fuel (top t) h ≡ done (postorder t) h
  unfolding post_order_iterative_s2
  post_order_iterative_s2-postorder fuel leaf w enough = refl
  post_order_iterative_s2-postorder fuel (branch l x v r) w enough =
      let t : Tree = branch l x v r in
      let k : ℕ = fuel - size t - 1 in
      let collect : collect_loop room fuel (x ∷ []) [] h ≡ done (post_nodes t ++ []) h =
        ap (λ f. collect_loop room f (x ∷ []) [] h) (omega arith)
        ∙ collect_loop-post_nodes (suc k) t [] [] w
        ∙ collect_loop-end k (post_nodes t ++ []) in
      rw (ne→== x null w.0, ok [], collect)
        (print_stack-post_nodes t [] [] w print_stack-nil
          ∙ ap (λ s. done s h) (append-nil (postorder t)))
