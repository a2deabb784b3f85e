-- ===== src/SearchTree/Postorder.antt =====
-- `postOrderIterativeS1` of Data-Structures/tests/binary_search_tree.c.
use jungle_data_structures.Prelude.{
  ℕ, zero, suc, ◌+◌, ◌-◌, ◌*◌, ◌≤◌, ◌<◌, ◌≡◌, ◌≢◌, refl, sym, ap, ◌∙◌, Bool, true, false, not, ◌&&◌,
  some, List, [], ◌∷◌, ◌++◌, ◌==◌, eq→==, ne→==, if◌then◌else◌, arith,
}
use mathlib.Core.List.{append-nil}
use jungle_data_structures.Prelude.Int.{ℤ}
use jungle_data_structures.Prelude.Distinct.{has, Distinct, outside_parts, Distinct-append}
use jungle_data_structures.Prelude.Run.{done}
use jungle_data_structures.BinaryTree.Store.{Ptr, null, bt_node, Store, load-done}
use jungle_data_structures.BinaryTree.Trees.{
  Tree, leaf, branch, height, top, addresses, postorder, IsTree,
}
use jungle_data_structures.SearchTree.Defs.{Stack, postorder_loop, post_order_iterative_s1}
use jungle_data_structures.SearchTree.Inorder.{
  size, prepend, prepend-nil, prepend-append, prepend-continue, push_left-lefts,
}

-- The rounds that a tree takes: one to go right from a node, and one to visit it.
abbrev pub rounds : Tree → ℕ
rounds leaf = 0
rounds (branch l x v leaf) = suc (rounds l)
rounds (branch l x v (branch a y u b)) = suc (suc (rounds l + rounds (branch a y u b)))

rounds-le : (t : Tree) → rounds t ≤ 2 * size t
rounds-le leaf = omega arith
rounds-le (branch l x v leaf) = omega (arith, rounds-le l)
rounds-le (branch l x v (branch a y u b)) = omega (arith, rounds-le l, rounds-le (branch a y u b))

-- The node that was visited last.
abbrev latest : Tree → Ptr → Ptr
latest leaf last = last
latest (branch l x v r) last = x

and_false : (b : Bool) → (b && false) ≡ false
and_false b = ground arith

stays : (b c : Bool) → (if b then true else c) ≡ true → (not b && not c) ≡ false
stays b c e = ground arith

ne_of_outside : (a x : Ptr) (xs : List Ptr) → has a (x ∷ xs) ≡ false → a ≢ x
ne_of_outside a x xs o e = ground (arith, e, o)

rest_outside : (a x : Ptr) (xs : List Ptr) → has a (x ∷ xs) ≡ false → has a xs ≡ false
rest_outside a x xs o = ground arith

latest-outside :
    (l : Tree) (last : Ptr) (ys : List Ptr)
    → has last ys ≡ false
    → ((a : Ptr) → has a ys ≡ true → has a (addresses l) ≡ false)
    → has (latest l last) ys ≡ false
latest-outside leaf last ys o apart = o
latest-outside (branch a x v b) last ys o apart = ground (arith, apart x)

module _ (room : Stack → Bool) (ok : (s : Stack) → room s ≡ true) (h : Store) where
  postorder_loop-push :
      (deep k : ℕ) (l : Tree) (x : Ptr) (v : ℤ) (r : Tree) (last : Ptr) (s : Stack)
      → IsTree h (branch l x v r)
      → height (branch l x v r) < deep
      → postorder_loop room deep k x last s h ≡ postorder_loop room deep k (top l) last (x ∷ s) h
  unfolding postorder_loop
  postorder_loop-push deep zero l x v r last s w lt = refl
  postorder_loop-push deep (suc k) l x v r last s w lt =
      rw
        (
          ne→== x null w.0,
          push_left-lefts room ok h deep (branch l x v r) s w lt,
          and_false (top l == null),
          push_left-lefts room ok h deep l (x ∷ s) w.2 (omega arith),
        )
        refl

  module _ (deep k : ℕ) (x p : Ptr) (v : ℤ) (s : Stack) (nx : x ≢ null) (lt : 0 < deep) where
    -- A node whose right side is empty or has been visited is visited.
    postorder_loop-visit :
        (q last : Ptr)
        → h x ≡ some (bt_node v p q)
        → (if q == null then true else last == q) ≡ true
        → postorder_loop room deep (suc k) null last (x ∷ s) h
          ≡ prepend (v ∷ []) (postorder_loop room deep k null x s h)
    unfolding postorder_loop
    postorder_loop-visit q last e seen =
        rw
          (
            push_left-lefts room ok h deep leaf (x ∷ s) tt lt,
            load-done h x (bt_node v p q) nx e,
            stays (q == null) (last == q) seen,
            load-done h x (bt_node v p q) nx e,
          )
          (prepend-continue v (postorder_loop room deep k null x s h))

    -- The right side comes first.
    postorder_loop-right :
        (q last : Ptr)
        → h x ≡ some (bt_node v p q)
        → q ≢ null
        → last ≢ q
        → postorder_loop room deep (suc k) null last (x ∷ s) h
          ≡ postorder_loop room deep k q last (x ∷ s) h
    unfolding postorder_loop
    postorder_loop-right q last e nq nl =
        rw
          (
            push_left-lefts room ok h deep leaf (x ∷ s) tt lt,
            load-done h x (bt_node v p q) nx e,
            ne→== q null nq,
            ne→== last q nl,
          )
          refl

  postorder_loop-end :
      (deep k : ℕ) (last : Ptr) → postorder_loop room deep (suc k) null last [] h ≡ done [] h
  unfolding postorder_loop
  postorder_loop-end deep k last = refl

  postorder_loop-postorder :
      (deep k : ℕ) (t : Tree) (last : Ptr) (s : Stack)
      → IsTree h t
      → Distinct (addresses t)
      → has last (addresses t) ≡ false
      → height t < deep
      → postorder_loop room deep (rounds t + k) (top t) last s h
        ≡ prepend (postorder t) (postorder_loop room deep k null (latest t last) s h)
  postorder_loop-postorder deep k leaf last s w d o lt =
      ap (λ f. postorder_loop room deep f null last s h) (omega arith)
      ∙ sym (prepend-nil (postorder_loop room deep k null last s h))
  postorder_loop-postorder deep k (branch l x v leaf) last s (nx, e, wl, wr) (dx, d) o lt =
      let (dl, dr, apart) = Distinct-append (addresses l) [] d in
      let (ol, or) =
        outside_parts last (addresses l) [] (rest_outside last x (addresses l ++ []) o) in
      postorder_loop-push deep (suc (rounds l) + k) l x v leaf last s (nx, e, wl, wr) lt
      ∙ ap (λ f. postorder_loop room deep f (top l) last (x ∷ s) h) (omega arith)
      ∙ postorder_loop-postorder deep (suc k) l last (x ∷ s) wl dl ol (omega arith)
      ∙ ap (prepend (postorder l))
          (postorder_loop-visit deep k x (top l) v s nx (omega arith) null (latest l last) e refl)
      ∙ prepend-append (postorder l) (v ∷ []) (postorder_loop room deep k null x s h)
  postorder_loop-postorder deep k (branch l x v (branch a y u b)) last s (nx, e, wl, wr) (dx, d) o
        lt =
      let r : Tree = branch a y u b in
      let (dl, dr, apart) = Distinct-append (addresses l) (addresses r) d in
      let (ol, or) =
        outside_parts last (addresses l) (addresses r)
          (rest_outside last x (addresses l ++ addresses r) o) in
      let ov = latest-outside l last (addresses r) or apart in
      postorder_loop-push deep (suc (suc (rounds l + rounds r)) + k) l x v r last s (nx, e, wl, wr)
        lt
      ∙ ap (λ f. postorder_loop room deep f (top l) last (x ∷ s) h) (omega arith)
      ∙ postorder_loop-postorder deep (suc (rounds r + suc k)) l last (x ∷ s) wl dl ol (omega arith)
      ∙ ap (prepend (postorder l)) (
          postorder_loop-right deep (rounds r + suc k) x (top l) v s nx (omega arith) y
            (latest l last) e wr.0 (ne_of_outside (latest l last) y (addresses a ++ addresses b) ov)
          ∙ postorder_loop-postorder deep (suc k) (branch a y u b) (latest l last) (x ∷ s) wr dr ov
              (omega arith)
          ∙ ap (prepend (postorder r)) (
              postorder_loop-visit deep k x (top l) v s nx (omega arith) y y e
                (rw (ne→== y null wr.0) (eq→== y y refl)))
          ∙ prepend-append (postorder r) (v ∷ []) (postorder_loop room deep k null x s h))
      ∙ prepend-append (postorder l) (postorder r ++ (v ∷ []))
          (postorder_loop room deep k null x s h)

  -- With memory for the stack `postOrderIterativeS1` prints each item behind those of both sides
  -- of its node. Twice as many rounds as there are nodes and one more are enough for the outer loop,
  -- and one more than the tree is high for the inner.
  pub post_order_iterative_s1-postorder :
      (deep fuel : ℕ) (t : Tree)
      → IsTree h t
      → Distinct (addresses t)
      → has null (addresses t) ≡ false
      → height t < deep
      → 2 * size t < fuel
      → post_order_iterative_s1 room deep fuel (top t) h ≡ done (postorder t) h
  unfolding post_order_iterative_s1
  post_order_iterative_s1-postorder deep fuel leaf w d o lt enough = refl
  post_order_iterative_s1-postorder deep fuel (branch l x v r) w d o lt enough =
      let t : Tree = branch l x v r in
      let k : ℕ = fuel - rounds t - 1 in
      let le = rounds-le t in
      rw (ne→== x null w.0) (
        ap (λ f. postorder_loop room deep f x null [] h) (omega arith)
        ∙ postorder_loop-postorder deep (suc k) (branch l x v r) null [] w d o lt
        ∙ ap (prepend (postorder t)) (postorder_loop-end deep k x)
        ∙ ap (λ r. done r h) (append-nil (postorder t)))
