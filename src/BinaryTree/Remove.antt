-- ===== src/BinaryTree/Remove.antt =====
-- `removeAll` of Data-Structures/tests/binary_tree.c.
use jungle_data_structures.Prelude.{
  ℕ, zero, suc, ◌<◌, ◌≡◌, ◌≢◌, refl, ◌∙◌, true, false, none, some, List, ◌++◌, ◌∷◌, ne→==, arith,
}
use jungle_data_structures.Prelude.Distinct.{
  has, Distinct, has-append, outside_parts, Distinct-append,
}
use jungle_data_structures.Prelude.Run.{done}
use jungle_data_structures.BinaryTree.Store.{
  Ptr, null, BtNode, bt_node, Store, write, load-done, set_left-done, set_right-done, free-done,
  write_self, write_ne,
}
use jungle_data_structures.BinaryTree.Trees.{
  Tree, leaf, branch, height, top, addresses, IsTree, Without, IsTree-frame,
}
use jungle_data_structures.BinaryTree.Defs.{remove_all}

kept : (h g : Store) (xs : List Ptr) (a : Ptr) → Without xs h g → has a xs ≡ false → g a ≡ h a
kept h g xs a w o = w a ∙ rw o refl

ne_of_has : (a x : Ptr) (xs : List Ptr) → has a xs ≡ true → has x xs ≡ false → a ≢ x
ne_of_has a x xs i o e = ground (arith, e, i, o)

-- The left part is gone, then the right, and the node between was written before it was freed.
Without-branch :
    (h g k : Store) (x : Ptr) (m n : BtNode) (xs ys : List Ptr)
    → Without xs h g
    → Without ys (write g x (some m)) k
    → Without (x ∷ xs ++ ys) h (write (write k x (some n)) x none)
unfolding write
Without-branch h g k x m n xs ys w v a = ground (arith, w a, v a, has-append a xs ys)

-- `removeAll` frees every node of the tree once, follows no bad pointer, changes nothing else, and
-- leaves `NULL` as the root; one round more than the tree is high is enough.
pub remove_all-Without :
    (fuel : ℕ) (h : Store) (s : Tree)
    → IsTree h s
    → Distinct (addresses s)
    → height s < fuel
    → (g : Store) × (remove_all fuel (top s) h ≡ done null g) × Without (addresses s) h g
unfolding remove_all
remove_all-Without zero h s w d lt = ground arith
remove_all-Without (suc fuel) h leaf w d lt = (h, refl, λ a. refl)
remove_all-Without (suc fuel) h (branch l x v r) (nx, e, wl, wr) (dx, d) lt =
    let (xl, xr) = outside_parts x (addresses l) (addresses r) dx in
    let (dl, dr, apart) = Distinct-append (addresses l) (addresses r) d in
    let (g, left, vl) = remove_all-Without fuel h l wl dl (omega arith) in
    let m : BtNode = bt_node v null (top r) in
    let n : BtNode = bt_node v null null in
    let e1 : g x ≡ some (bt_node v (top l) (top r)) = kept h g (addresses l) x vl xl ∙ e in
    let g1 : Store = write g x (some m) in
    let e2 : g1 x ≡ some m = write_self g x (some m) in
    let wr1 = IsTree-frame h g1 r wr (λ a i.
      write_ne g x a (some m) (ne_of_has a x (addresses r) i xr)
      ∙ kept h g (addresses l) a vl (apart a i)) in
    let (k, right, vr) = remove_all-Without fuel g1 r wr1 dr (omega arith) in
    let e3 : k x ≡ some m = kept g1 k (addresses r) x vr xr ∙ e2 in
    let k1 : Store = write k x (some n) in
    (
      write k1 x none,
      rw
          (
            ne→== x null nx,
            load-done h x (bt_node v (top l) (top r)) nx e,
            left,
            set_left-done g x (bt_node v (top l) (top r)) nx e1 null,
            load-done g1 x m nx e2,
            right,
            set_right-done k x m nx e3 null,
            free-done k1 x n (write_self k x (some n)),
          )
          refl,
      Without-branch h g k x m n (addresses l) (addresses r) vl vr,
    )
