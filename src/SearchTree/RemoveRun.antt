-- ===== src/SearchTree/RemoveRun.antt =====
-- Runs of `removeNodeFromTree` of Data-Structures/tests/binary_search_tree.c.
use jungle_data_structures.Prelude.{
  ℕ, zero, suc, ◌<◌, ◌≡◌, ◌≢◌, refl, sym, ◌∙◌, subst, true, false, inl, inr, Bool-cases, none, some,
  List, [], ◌++◌, ◌∷◌, ne→==, arith,
}
use jungle_data_structures.Prelude.Int.{ℤ, ltb_ℤ}
use jungle_data_structures.Prelude.Distinct.{has, Distinct, outside_parts, Distinct-append}
use jungle_data_structures.Prelude.Run.{done}
use jungle_data_structures.BinaryTree.Store.{
  Ptr, null, BtNode, bt_node, Store, write, load-done, set_left-done, set_right-done, set_item-done,
  free-done, write_self, write_ne,
}
use jungle_data_structures.BinaryTree.Trees.{
  Tree, leaf, branch, height, top, addresses, inorder, IsTree, SameOutside, IsTree-frame,
}
use jungle_data_structures.SearchTree.Defs.{successor_loop, remove_node_from_tree}
use jungle_data_structures.SearchTree.Attach.{
  ne_of_has, head_outside, rest_outside, apart_sym, attach_changed, attach_other, attach_outside,
}
use jungle_data_structures.SearchTree.Remove.{
  least, taken, removed, inorder-removed, outside-removed, successor_loop-least,
}
use jungle_data_structures.SearchTree.Sorted.{Increasing, without, without-Increasing}

outside_both :
    (a x : Ptr) (xs ys : List Ptr)
    → has a (x ∷ xs ++ ys) ≡ false
    → (a ≢ x) × (has a xs ≡ false) × (has a ys ≡ false)
outside_both a x xs ys o =
    let (ox, oy) = outside_parts a xs ys (rest_outside a x (xs ++ ys) o) in
    (head_outside a x (xs ++ ys) o, ox, oy)

-- What the code comes to on a tree.
abbrev Removes : ℕ → Store → ℤ → Tree → Tree → Type 0
Removes fuel h v t u =
    (g : Store) × (remove_node_from_tree fuel (top t) v h ≡ done (top u) g)
    × IsTree g u
    × SameOutside (addresses t) h g

module _ (fuel : ℕ) (v : ℤ) (h : Store) (l : Tree) (x : Ptr) (k : ℤ) (r : Tree) (nx : x ≢ null)
    (e : h x ≡ some (bt_node k (top l) (top r))) (wl : IsTree h l) (wr : IsTree h r)
    (xl : has x (addresses l) ≡ false) (xr : has x (addresses r) ≡ false)
    (apart : (a : Ptr) → has a (addresses r) ≡ true → has a (addresses l) ≡ false) where
  old : BtNode
  old = bt_node k (top l) (top r)

  remove_left :
      ltb_ℤ v k ≡ true
      → Removes fuel h v l (removed v l)
      → Removes (suc fuel) h v (branch l x k r) (branch (removed v l) x k r)
  unfolding remove_node_from_tree old
  remove_left t (g, run, u, same) =
      let low = removed v l in
      let n : BtNode = bt_node k (top low) (top r) in
      let e1 = same x xl ∙ e in
      (
        write g x (some n),
        rw (ne→== x null nx, load-done h x old nx e, t, run, set_left-done g x old nx e1 (top low))
            refl,
        (
          nx,
          write_self g x (some n),
          attach_changed h g x (some n) (addresses l) same low u (outside-removed x v l xl),
          attach_other h g x (some n) (addresses l) same r wr xr apart,
        ),
        attach_outside h g x (some n) (addresses l) same (x ∷ addresses l ++ addresses r)
            (λ a q. let (ne, ol, or) = outside_both a x (addresses l) (addresses r) q in (ne, ol)),
      )

  remove_right :
      ltb_ℤ v k ≡ false
      → ltb_ℤ k v ≡ true
      → Removes fuel h v r (removed v r)
      → Removes (suc fuel) h v (branch l x k r) (branch l x k (removed v r))
  unfolding remove_node_from_tree old
  remove_right f t (g, run, u, same) =
      let high = removed v r in
      let n : BtNode = bt_node k (top l) (top high) in
      let e1 = same x xr ∙ e in
      (
        write g x (some n),
        rw
            (
              ne→== x null nx,
              load-done h x old nx e,
              f,
              t,
              run,
              set_right-done g x old nx e1 (top high),
            )
            refl,
        (
          nx,
          write_self g x (some n),
          attach_other h g x (some n) (addresses r) same l wl xl
              (apart_sym (addresses l) (addresses r) apart),
          attach_changed h g x (some n) (addresses r) same high u (outside-removed x v r xr),
        ),
        attach_outside h g x (some n) (addresses r) same (x ∷ addresses l ++ addresses r)
            (λ a q. let (ne, ol, or) = outside_both a x (addresses l) (addresses r) q in (ne, or)),
      )

-- A node with at most one side is freed, and that side takes its place.
module _ (fuel : ℕ) (v : ℤ) (h : Store) (x : Ptr) (k : ℤ) (nx : x ≢ null) (f : ltb_ℤ v k ≡ false)
    (g : ltb_ℤ k v ≡ false) where
  freed_outside :
      (xs : List Ptr) → ((a : Ptr) → has a xs ≡ false → a ≢ x) → SameOutside xs h (write h x none)
  freed_outside xs ne a o = write_ne h x a none (ne a o)

  remove_above_right :
      (r : Tree)
      → h x ≡ some (bt_node k null (top r))
      → IsTree h r
      → has x (addresses r) ≡ false
      → Removes (suc fuel) h v (branch leaf x k r) r
  unfolding remove_node_from_tree
  remove_above_right leaf e w o = (
    write h x none,
    rw
        (
          ne→== x null nx,
          load-done h x (bt_node k null null) nx e,
          f,
          g,
          free-done h x (bt_node k null null) e,
        )
        refl,
    tt,
    freed_outside (x ∷ []) (λ a q. head_outside a x [] q),
  )
  remove_above_right (branch c z j d) e w o =
      let n : BtNode = bt_node k null z in
      let r : Tree = branch c z j d in
      (
        write h x none,
        rw (ne→== x null nx, load-done h x n nx e, f, g, ne→== z null w.0, free-done h x n e) refl,
        IsTree-frame h (write h x none) r w
            (λ a i. write_ne h x a none (ne_of_has a x (addresses r) i o)),
        freed_outside (x ∷ addresses r) (λ a q. head_outside a x (addresses r) q),
      )

  remove_above_left :
      (a : Tree) (y : Ptr) (u : ℤ) (b : Tree)
      → h x ≡ some (bt_node k y null)
      → IsTree h (branch a y u b)
      → has x (addresses (branch a y u b)) ≡ false
      → Removes (suc fuel) h v (branch (branch a y u b) x k leaf) (branch a y u b)
  unfolding remove_node_from_tree
  remove_above_left a y u b e w o =
      let n : BtNode = bt_node k y null in
      let l : Tree = branch a y u b in
      (
        write h x none,
        rw (ne→== x null nx, load-done h x n nx e, f, g, ne→== y null w.0, free-done h x n e) refl,
        IsTree-frame h (write h x none) l w
            (λ c i. write_ne h x c none (ne_of_has c x (addresses l) i o)),
        freed_outside (x ∷ addresses l ++ []) (λ c q. head_outside c x (addresses l ++ []) q),
      )

-- A node with two sides takes the item of its successor.
module _ (fuel : ℕ) (v : ℤ) (h : Store) (l : Tree) (x : Ptr) (k : ℤ) (r : Tree) (nx : x ≢ null)
    (e : h x ≡ some (bt_node k (top l) (top r))) (wl : IsTree h l) (wr : IsTree h r)
    (xl : has x (addresses l) ≡ false) (xr : has x (addresses r) ≡ false)
    (apart : (a : Ptr) → has a (addresses r) ≡ true → has a (addresses l) ≡ false)
    (f : ltb_ℤ v k ≡ false) (g : ltb_ℤ k v ≡ false) (nl : top l ≢ null) (nr : top r ≢ null) where
  renamed : ℤ → Store
  renamed m = write h x (some (bt_node m (top l) (top r)))

  renamed-IsTree :
      (m : ℤ) (t : Tree) → IsTree h t → has x (addresses t) ≡ false → IsTree (renamed m) t
  unfolding renamed
  renamed-IsTree m t w o =
      IsTree-frame h (renamed m) t w
        (λ a i. write_ne h x a (some (bt_node m (top l) (top r))) (ne_of_has a x (addresses t) i o))

  remove_both :
      (s : Ptr) (n : BtNode) (m : ℤ)
      → successor_loop fuel (top r) h ≡ done s h
      → s ≢ null
      → h s ≡ some n
      → n.item ≡ m
      → Removes fuel (renamed m) m r (removed m r)
      → Removes (suc fuel) h v (branch l x k r) (branch l x m (removed m r))
  unfolding remove_node_from_tree renamed
  remove_both s n m find ns es em (q, run, u, same) =
      let old : BtNode = bt_node k (top l) (top r) in
      let mid : BtNode = bt_node m (top l) (top r) in
      let high = removed m r in
      let last : BtNode = bt_node m (top l) (top high) in
      let e1 = same x xr ∙ write_self h x (some mid) in
      (
        write q x (some last),
        rw
            (
              ne→== x null nx,
              load-done h x old nx e,
              f,
              g,
              ne→== (top l) null nl,
              ne→== (top r) null nr,
              find,
              load-done h s n ns es,
              em,
              set_item-done h x old nx e m,
              run,
              set_right-done q x mid nx e1 (top high),
            )
            refl,
        (
          nx,
          write_self q x (some last),
          attach_other (renamed m) q x (some last) (addresses r) same l (renamed-IsTree m l wl xl)
              xl (apart_sym (addresses l) (addresses r) apart),
          attach_changed (renamed m) q x (some last) (addresses r) same high u
              (outside-removed x m r xr),
        ),
        λ a o.
            let (ne, ol, or) = outside_both a x (addresses l) (addresses r) o in
            write_ne q x a (some last) ne ∙ same a or ∙ write_ne h x a (some mid) ne,
      )

remove_node_from_tree-removed :
    (fuel : ℕ) (v : ℤ) (h : Store) (t : Tree)
    → IsTree h t
    → Distinct (addresses t)
    → height t < fuel
    → Removes fuel h v t (removed v t)
remove_node_from_tree-removed zero v h t w d lt = ground arith
remove_node_from_tree-removed (suc fuel) v h leaf w d lt =
    unfold remove_node_from_tree in (h, refl, tt, λ a o. refl)
remove_node_from_tree-removed (suc fuel) v h (branch l x k r) (nx, e, wl, wr) (dx, d) lt =
    let (xl, xr) = outside_parts x (addresses l) (addresses r) dx in
    let (dl, dr, apart) = Distinct-append (addresses l) (addresses r) d in
    elim (Bool-cases (ltb_ℤ v k)) [
      | inl t ↦ rw t (
          remove_left fuel v h l x k r nx e wl wr xl xr apart t
            (remove_node_from_tree-removed fuel v h l wl dl (omega arith)))
      | inr f ↦ elim (Bool-cases (ltb_ℤ k v)) [
        | inl t ↦
            rw (f, t)
              (remove_right fuel v h l x k r nx e wl wr xl xr apart f t
                (remove_node_from_tree-removed fuel v h r wr dr (omega arith)))
        | inr g ↦
            rw (f, g)
              (here l r e wl wr xl xr apart f g
                (λ m q z. remove_node_from_tree-removed fuel m q r z dr (omega arith))
                (omega arith))
      ]
    ]
  where
    here :
        (l r : Tree)
        → h x ≡ some (bt_node k (top l) (top r))
        → IsTree h l
        → IsTree h r
        → has x (addresses l) ≡ false
        → has x (addresses r) ≡ false
        → ((a : Ptr) → has a (addresses r) ≡ true → has a (addresses l) ≡ false)
        → ltb_ℤ v k ≡ false
        → ltb_ℤ k v ≡ false
        → ((m : ℤ) (q : Store) → IsTree q r → Removes fuel q m r (removed m r))
        → height r < fuel
        → Removes (suc fuel) h v (branch l x k r) (taken l x (least k r) r (removed (least k r) r))
    here leaf r e wl wr xl xr apart f g ih lt = remove_above_right fuel v h x k nx f g r e wr xr
    here (branch a y u b) leaf e wl wr xl xr apart f g ih lt =
        remove_above_left fuel v h x k nx f g a y u b e wl xl
    here (branch a y u b) (branch c z j d) e wl wr xl xr apart f g ih lt =
        let r : Tree = branch c z j d in
        let m = least j c in
        let (s, n, find, ns, es, em) = successor_loop-least fuel h c z j d wr (omega arith) in
        remove_both fuel v h (branch a y u b) x k r nx e wl wr xl xr apart f g wl.0 wr.0 s n m find
          ns es em
          (ih m _ (
            renamed-IsTree fuel v h (branch a y u b) x k r nx e wl wr xl xr apart f g wl.0 wr.0 m r
              wr xr))

-- `removeNodeFromTree` keeps the items of a search tree increasing from left to right, with all but
-- the value as before, and changes nothing outside of the tree; one round more than the tree is
-- high is enough.
pub remove_node_from_tree-without :
    (fuel : ℕ) (v : ℤ) (h : Store) (t : Tree)
    → IsTree h t
    → Distinct (addresses t)
    → Increasing (inorder t)
    → height t < fuel
    → (u : Tree) × (g : Store) × (remove_node_from_tree fuel (top t) v h ≡ done (top u) g)
      × IsTree g u
      × (inorder u ≡ without v (inorder t))
      × Increasing (inorder u)
      × SameOutside (addresses t) h g
remove_node_from_tree-without fuel v h t w d inc lt =
    let (g, run, z, same) = remove_node_from_tree-removed fuel v h t w d lt in
    let e = inorder-removed v t inc in
    (
      removed v t,
      g,
      run,
      z,
      e,
      subst Increasing (sym e) (without-Increasing v (inorder t) inc),
      same,
    )
