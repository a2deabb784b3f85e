-- ===== src/SearchTree/Insert.antt =====
-- `insertBSTNode` of Data-Structures/tests/binary_search_tree.c.
use jungle_data_structures.Prelude.{
  ℕ, zero, suc, ◌<◌, ◌≡◌, ◌≢◌, refl, sym, ap, ◌∙◌, subst, false, inl, inr, Bool-cases, some, List,
  [], ◌++◌, ◌∷◌, ne→==, if◌then◌else◌, arith,
}
use jungle_data_structures.Prelude.Int.{ℤ, ltb_ℤ}
use jungle_data_structures.Prelude.Distinct.{has, Distinct, outside_parts, Distinct-append}
use jungle_data_structures.Prelude.Run.{done}
use jungle_data_structures.BinaryTree.Store.{
  Ptr, null, BtNode, bt_node, Store, write, load-done, set_left-done, set_right-done, write_self,
  write_ne,
}
use jungle_data_structures.BinaryTree.Trees.{
  Tree, leaf, branch, height, top, addresses, inorder, IsTree, SameOutside,
}
use jungle_data_structures.SearchTree.Defs.{new_node, insert_bst_node}
use jungle_data_structures.SearchTree.Attach.{
  ne_of_has, head_outside, rest_outside, cons_outside, append_outside, apart_sym, attach_changed,
  attach_other, attach_outside,
}
use jungle_data_structures.SearchTree.Sorted.{
  Increasing, insert_sorted, Increasing-append, insert_sorted-left, insert_sorted-right,
  insert_sorted-same, insert_sorted-Increasing,
}

-- The tree with one node more, unless the value is there.
abbrev pub with_node : Ptr → ℤ → Tree → Tree
with_node p v leaf = branch leaf p v leaf
with_node p v (branch l x k r) =
    let low = with_node p v l in
    let high = with_node p v r in
    if ltb_ℤ v k
    then branch low x k r
    else (if ltb_ℤ k v then branch l x k high else branch l x k r)

inorder-with_node :
    (p : Ptr) (v : ℤ) (t : Tree)
    → Increasing (inorder t)
    → inorder (with_node p v t) ≡ insert_sorted v (inorder t)
inorder-with_node p v leaf w = refl
inorder-with_node p v (branch l x k r) w =
    let (il, below, above, ir) = Increasing-append (inorder l) k (inorder r) w in
    elim (Bool-cases (ltb_ℤ v k)) [
      | inl t ↦ rw t (
          ap (λ s. s ++ k ∷ inorder r) (inorder-with_node p v l il)
          ∙ sym (insert_sorted-left v k (inorder r) (inorder l) t))
      | inr f ↦ elim (Bool-cases (ltb_ℤ k v)) [
        | inl t ↦
            rw (f, t)
              (ap (λ s. inorder l ++ k ∷ s) (inorder-with_node p v r ir)
                ∙ sym (insert_sorted-right v k (inorder r) (inorder l) below t))
        | inr g ↦ rw (f, g) (sym (insert_sorted-same v k (inorder r) (inorder l) below f g))
      ]
    ]

-- The new tree has the old nodes and perhaps the new one.
outside-with_node :
    (a p : Ptr) (v : ℤ) (t : Tree)
    → a ≢ p
    → has a (addresses t) ≡ false
    → has a (addresses (with_node p v t)) ≡ false
outside-with_node a p v leaf ne o = cons_outside a p [] ne o
outside-with_node a p v (branch l x k r) ne o =
    let nx = head_outside a x (addresses l ++ addresses r) o in
    let (ol, or) =
      outside_parts a (addresses l) (addresses r)
        (rest_outside a x (addresses l ++ addresses r) o) in
    let low =
      append_outside a (addresses (with_node p v l)) (addresses r) (outside-with_node a p v l ne ol)
        or in
    let high =
      append_outside a (addresses l) (addresses (with_node p v r)) ol
        (outside-with_node a p v r ne or) in
    elim (Bool-cases (ltb_ℤ v k)) [
      | inl t ↦ rw t (cons_outside a x _ nx low)
      | inr f ↦ elim (Bool-cases (ltb_ℤ k v)) [
        | inl t ↦ rw (f, t) (cons_outside a x _ nx high)
        | inr g ↦ rw (f, g) o
      ]
    ]

outside_both :
    (a p x : Ptr) (xs ys : List Ptr)
    → has a (p ∷ x ∷ xs ++ ys) ≡ false
    → (a ≢ x) × (has a (p ∷ xs) ≡ false) × (has a (p ∷ ys) ≡ false)
outside_both a p x xs ys o =
    let np = head_outside a p (x ∷ xs ++ ys) o in
    let o2 = rest_outside a p (x ∷ xs ++ ys) o in
    let (ox, oy) = outside_parts a xs ys (rest_outside a x (xs ++ ys) o2) in
    (head_outside a x (xs ++ ys) o2, cons_outside a p xs np ox, cons_outside a p ys np oy)

module _ (p : Ptr) (v : ℤ) (np : p ≢ null) where
  insert_bst_node-with_node :
      (fuel : ℕ) (h : Store) (t : Tree)
      → IsTree h t
      → Distinct (addresses t)
      → has p (addresses t) ≡ false
      → height t < fuel
      → (g : Store) × (insert_bst_node fuel (some p) (top t) v h ≡ done (top (with_node p v t)) g)
        × IsTree g (with_node p v t)
        × SameOutside (p ∷ addresses t) h g
  unfolding insert_bst_node new_node
  insert_bst_node-with_node zero h t w d o lt = ground arith
  insert_bst_node-with_node (suc fuel) h leaf w d o lt =
      let n : BtNode = bt_node v null null in
      (
        write h p (some n),
        refl,
        (np, write_self h p (some n), tt, tt),
        λ a q. write_ne h p a (some n) (λ e. ground (arith, e, q)),
      )
  insert_bst_node-with_node (suc fuel) h (branch l x k r) (nx, e, wl, wr) (dx, d) o lt =
      let (xl, xr) = outside_parts x (addresses l) (addresses r) dx in
      let (dl, dr, apart) = Distinct-append (addresses l) (addresses r) d in
      let (pl, pr) =
        outside_parts p (addresses l) (addresses r)
          (rest_outside p x (addresses l ++ addresses r) o) in
      let xp : x ≢ p = λ q. head_outside p x (addresses l ++ addresses r) o (sym q) in
      let old : BtNode = bt_node k (top l) (top r) in
      elim (Bool-cases (ltb_ℤ v k)) [
        | inl t ↦
            let (g, run, u, same) = insert_bst_node-with_node fuel h l wl dl pl (omega arith) in
            let low = with_node p v l in
            let n : BtNode = bt_node k (top low) (top r) in
            let e1 = same x (cons_outside x p (addresses l) xp xl) ∙ e in
            (
              write g x (some n),
              rw
                  (
                    ne→== x null nx,
                    load-done h x old nx e,
                    t,
                    run,
                    set_left-done g x old nx e1 (top low),
                  )
                  refl,
              rw t (
                nx,
                write_self g x (some n),
                attach_changed h g x (some n) (p ∷ addresses l) same low u
                    (outside-with_node x p v l xp xl),
                attach_other h g x (some n) (p ∷ addresses l) same r wr xr (λ a i.
                    cons_outside a p (addresses l) (ne_of_has a p (addresses r) i pr) (apart a i)),
              ),
              attach_outside h g x (some n) (p ∷ addresses l) same
                  (p ∷ x ∷ addresses l ++ addresses r)
                  (λ a q.
                    let (ne, ol, or) = outside_both a p x (addresses l) (addresses r) q in
                    (ne, ol)),
            )
        | inr f ↦ elim (Bool-cases (ltb_ℤ k v)) [
          | inl t ↦
              let (g, run, u, same) = insert_bst_node-with_node fuel h r wr dr pr (omega arith) in
              let high = with_node p v r in
              let n : BtNode = bt_node k (top l) (top high) in
              let e1 = same x (cons_outside x p (addresses r) xp xr) ∙ e in
              (
                write g x (some n),
                rw
                    (
                      ne→== x null nx,
                      load-done h x old nx e,
                      f,
                      t,
                      run,
                      set_right-done g x old nx e1 (top high),
                    )
                    refl,
                rw (f, t)
                    (
                      nx,
                      write_self g x (some n),
                      attach_other h g x (some n) (p ∷ addresses r) same l wl xl (λ a i.
                          cons_outside a p (addresses r) (ne_of_has a p (addresses l) i pl)
                            (apart_sym (addresses l) (addresses r) apart a i)),
                      attach_changed h g x (some n) (p ∷ addresses r) same high u
                          (outside-with_node x p v r xp xr),
                    ),
                attach_outside h g x (some n) (p ∷ addresses r) same
                    (p ∷ x ∷ addresses l ++ addresses r)
                    (λ a q.
                      let (ne, ol, or) = outside_both a p x (addresses l) (addresses r) q in
                      (ne, or)),
              )
          | inr g ↦ (
            h,
            rw (ne→== x null nx, load-done h x (bt_node k (top l) (top r)) nx e, f, g) refl,
            rw (f, g) (nx, e, wl, wr),
            λ a q. refl,
          )
        ]
      ]

  -- With a working `malloc` `insertBSTNode` keeps the items of a search tree increasing from left to
  -- right, with the value among them exactly once, and changes nothing outside of the tree and the
  -- new node; one round more than the tree is high is enough.
  pub insert_bst_node-insert_sorted :
      (fuel : ℕ) (h : Store) (t : Tree)
      → IsTree h t
      → Distinct (addresses t)
      → Increasing (inorder t)
      → has p (addresses t) ≡ false
      → height t < fuel
      → (u : Tree) × (g : Store) × (insert_bst_node fuel (some p) (top t) v h ≡ done (top u) g)
        × IsTree g u
        × (inorder u ≡ insert_sorted v (inorder t))
        × Increasing (inorder u)
        × SameOutside (p ∷ addresses t) h g
  insert_bst_node-insert_sorted fuel h t w d inc o lt =
      let (g, run, z, same) = insert_bst_node-with_node fuel h t w d o lt in
      let e = inorder-with_node p v t inc in
      (
        with_node p v t,
        g,
        run,
        z,
        e,
        subst Increasing (sym e) (insert_sorted-Increasing v (inorder t) inc),
        same,
      )
