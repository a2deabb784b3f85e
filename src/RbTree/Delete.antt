-- ===== src/RbTree/Delete.antt =====
-- `delete_rbtree` of rbtree-lab/src/rbtree.c.
use jungle_data_structures.Prelude.{
  ℕ, zero, suc, ◌<◌, ◌≡◌, refl, sym, ◌∙◌, subst, true, false, none, some, List, [], ◌∷◌, ◌++◌,
  if◌then◌else◌, ne→==, eq→==, arith,
}
use jungle_data_structures.Prelude.Distinct.{
  has, Distinct, has-append, outside_parts, Distinct-append,
}
use jungle_data_structures.Prelude.Run.{done}
use jungle_data_structures.RbTree.Store.{
  Ptr, null, RbNode, rb_node, Store, write, load-done, free-done,
}
use jungle_data_structures.RbTree.Defs.{delete_rbtree_rec, delete_rbtree}
use jungle_data_structures.RbTree.Trees.{Tree, leaf, branch, height, top, IsTree, Holds}

-- The addresses of the nodes.
abbrev pub addresses : Tree → List Ptr
addresses leaf = []
addresses (branch l x k c r) = x ∷ addresses l ++ addresses r

-- `g` is `h` less the nodes at `xs`.
abbrev pub Without : List Ptr → Store → Store → Type 0
Without xs h g = (a : Ptr) → g a ≡ (if has a xs then none else h a)

IsTree-frame :
    (h g : Store) (nil p : Ptr) (s : Tree)
    → IsTree h nil p s
    → ((a : Ptr) → has a (addresses s) ≡ true → g a ≡ h a)
    → IsTree g nil p s
IsTree-frame h g nil p leaf w same = tt
IsTree-frame h g nil p (branch l x k c r) (nn, nx, e, wl, wr) same = (
  nn,
  nx,
  same x (ground arith) ∙ e,
  IsTree-frame h g nil x l wl
      (λ a i. same a (ground (arith, has-append a (addresses l) (addresses r)))),
  IsTree-frame h g nil x r wr
      (λ a i. same a (ground (arith, has-append a (addresses l) (addresses r)))),
)

kept : (h g : Store) (xs : List Ptr) (a : Ptr) → Without xs h g → has a xs ≡ false → g a ≡ h a
kept h g xs a w o = w a ∙ rw o refl

Without-branch :
    (h g k : Store) (x : Ptr) (xs ys : List Ptr)
    → Without xs h g
    → Without ys g k
    → Without (x ∷ xs ++ ys) h (write k x none)
unfolding write
Without-branch h g k x xs ys w v a = ground (arith, w a, v a, has-append a xs ys)

module _ (nil : Ptr) where
  Without-nil :
      (h g : Store) (xs : List Ptr) → Without xs h g → Without (nil ∷ xs) h (write g nil none)
  unfolding write
  Without-nil h g xs v a = ground (arith, v a)

  delete_rbtree_rec-Without :
      (fuel : ℕ) (h : Store) (p : Ptr) (s : Tree)
      → IsTree h nil p s
      → Distinct (addresses s)
      → height s < fuel
      → (g : Store) × (delete_rbtree_rec fuel (top nil s) nil h ≡ done tt g)
        × Without (addresses s) h g
  unfolding delete_rbtree_rec
  delete_rbtree_rec-Without zero h p s w d lt = ground arith
  delete_rbtree_rec-Without (suc fuel) h p leaf w d lt =
      (h, rw (eq→== nil nil refl) refl, λ a. refl)
  delete_rbtree_rec-Without (suc fuel) h p (branch l x k c r) (nn, nx, e, wl, wr) (dx, d) lt =
      let n : RbNode = rb_node c k p (top nil l) (top nil r) in
      let (dl, dr, apart) = Distinct-append (addresses l) (addresses r) d in
      let (g, left, vl) = delete_rbtree_rec-Without fuel h x l wl dl (omega arith) in
      let (xl, xr) = outside_parts x (addresses l) (addresses r) dx in
      let e1 : g x ≡ some n = kept h g (addresses l) x vl xl ∙ e in
      let w1 = IsTree-frame h g nil x r wr (λ a i. kept h g (addresses l) a vl (apart a i)) in
      let (m, right, vr) = delete_rbtree_rec-Without fuel g x r w1 dr (omega arith) in
      let e2 : m x ≡ some n = kept g m (addresses r) x vr xr ∙ e1 in
      (
        write m x none,
        rw
            (
              ne→== x nil nn,
              ne→== x null nx,
              load-done h x n nx e,
              left,
              load-done g x n nx e1,
              right,
            )
            (free-done m x n e2),
        Without-branch h g m x (addresses l) (addresses r) vl vr,
      )

  -- `delete_rbtree` frees each node of a tree once, then the sentinel, follows no bad pointer, and
  -- changes nothing else; with `NULL` it does nothing. One round more than the tree is high is
  -- enough.
  pub delete_rbtree-Without :
      (fuel : ℕ) (h : Store) (root : Ptr) (s : Tree) (n : RbNode)
      → Holds h (record { root = root; nil = nil }) s
      → Distinct (nil ∷ addresses s)
      → h nil ≡ some n
      → height s < fuel
      → (delete_rbtree fuel none h ≡ done tt h)
        × (g : Store) × (delete_rbtree fuel (some (record { root = root; nil = nil })) h
            ≡ done tt g)
        × Without (nil ∷ addresses s) h g
  unfolding delete_rbtree
  delete_rbtree-Without fuel h root s n w (dn, d) e lt =
      let (g, run, v) = delete_rbtree_rec-Without fuel h nil s w.nodes d lt in
      let run2 : delete_rbtree_rec fuel root nil h ≡ done tt g =
        subst (λ q. delete_rbtree_rec fuel q nil h ≡ done tt g) (sym w.root) run in
      (
        refl,
        write g nil none,
        rw run2 (free-done g nil n (kept h g (addresses s) nil v dn ∙ e)),
        Without-nil h g (addresses s) v,
      )
