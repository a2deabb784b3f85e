-- ===== src/RbTree/Transplant.antt =====
-- `rbtree_transplant` of rbtree-lab/src/rbtree.c for a node with at most one child.
use jungle_data_structures.Prelude.{
  ◌≡◌, ◌≢◌, refl, sym, subst, ◌∙◌, ◌+◌, ◌≤◌, ◌==◌, if◌then◌else◌, some, [], ◌∷◌, arith,
}
use jungle_data_structures.Prelude.Int.{ℤ}
use jungle_data_structures.Prelude.Run.{Ends, Ends-done, Ends-continue, ◌>>=◌}
use jungle_data_structures.RbTree.Store.{Ptr, null, Color, RbNode, rb_node, Store, write}
use jungle_data_structures.RbTree.Trees.{Tree, leaf, branch, top, IsTree}
use jungle_data_structures.RbTree.Change.{
  Side, left_side, right_side, Heap, heap, Edit, get_child, set_child, set_root, set_parent,
  with_parent,
}
use jungle_data_structures.RbTree.Erase.{rbtree_transplant}
use jungle_data_structures.RbTree.Steps.{
  cell, cell_parent, get_then, change_last, write_here, write_ne, same_eq, ne_eq,
}
use jungle_data_structures.RbTree.Zipper.{
  Trail, frame, above, join, here, count, count_path, count-join, IsPath, IsTree-parts, top-join,
  here_self, ne_here, top_ne, IsTree-write, IsPath-write, IsPath-nil,
}
use jungle_data_structures.RbTree.Focus.{Focus}

-- The link to `z` below `p`, or the root, becomes `v`.
abbrev relink : (nil z v p : Ptr) → Edit (Unit {0})
relink nil z v p = if p == nil then set_root v else do
  l ← get_child left_side p
  if z == l then set_child left_side p v else set_child right_side p v

module _ (nil z : Ptr) (k : ℤ) (c : Color) (s : Side) (t : Tree) (n : RbNode) where
  -- The node `z` still has its links, and the path leads to `t`.
  pub record Handed (up : Trail) (m : Heap) : Type 0 where
    pub at_z : m.nodes z ≡ some (cell s c k (above nil up) nil (top nil t))
    pub tree : IsTree m.nodes nil z t
    pub path : IsPath nil m.nodes m.root (top nil t) up
    pub sentinel : m.nodes nil ≡ some n

  relink_child :
      (h : Store) (root g : Ptr) (gz : g ≢ null) (d : Color) (kg : ℤ) (p u : Ptr)
      → u ≢ z
      → (r : Side) {Q : Unit {0} → Heap → Type 0} → h g ≡ some (cell r d kg p z u)
      → Q tt (heap (write h g (some (cell r d kg p (top nil t) u))) root)
      → Ends Q (
          (get_child left_side g >>= λ l.
          if z == l then set_child left_side g (top nil t) else set_child right_side g (top nil t))
            (heap h root))
  relink_child h root g gz d kg p u ne left_side e w =
      get_then h root g gz _ e _ _ z refl
        (rw (same_eq z z refl) (change_last h root g gz _ e _ _ refl w))
  relink_child h root g gz d kg p u ne right_side e w =
      get_then h root g gz _ e _ _ u refl
        (rw (ne_eq z u (λ q. ne (sym q))) (change_last h root g gz _ e _ _ refl w))

  relink-Handed :
      (up : Trail) (m : Heap)
      → Focus nil n m up (join s leaf z k c t)
      → Ends (λ _ g. Handed up g) (relink nil z (top nil t) (above nil up) m)
  relink-Handed [] m w =
      let (zn, zz, at, i, j) = IsTree-parts m.nodes nil nil leaf z k c t s w.tree in
      rw (same_eq nil nil refl)
        (Ends-done (record { at_z = at; tree = j; path = refl; sentinel = w.sentinel }))
  relink-Handed (frame r g kg d u ∷ up) m w =
      let (zn, zz, at, i, j) = IsTree-parts m.nodes nil g leaf z k c t s w.tree in
      let (gn, gz, at_g, tu, path) = w.path in
      let once = parts g (w.apart g) in
      let z_out = parts_z (w.apart z) in
      rw (ne_eq g nil gn) (
        relink_child m.nodes m.root g gz d kg (above nil up) (top nil u)
          (top_ne nil z u zn (omega (arith, z_out))) r
          (subst (λ q. m.nodes g ≡ some (cell r d kg (above nil up) q (top nil u)))
            (top-join m.nodes nil g leaf z k c t s) at_g)
          (record {
            at_z =
                write_ne m.nodes g z _ (λ e. ne_here z g (omega (arith, once, here_self g)) (sym e))
                ∙ at;
            tree = IsTree-write m.nodes nil g _ z t (omega (arith, once, here_self g)) j;
            path = (
              gn,
              gz,
              write_here m.nodes g _,
              IsTree-write m.nodes nil g _ g u (omega (arith, once, here_self g)) tu,
              IsPath-write m.nodes nil g _ m.root g up (omega (arith, once, here_self g)) path,
            );
            sentinel = write_ne m.nodes g nil _ (λ e. gn (sym e)) ∙ w.sentinel;
          }))
    where
      parts :
          (q : Ptr)
          → count q (join s leaf z k c t) + (here g q + (count q u + count_path q up)) ≤ 1
          → (here z q + count q t) + (here g q + (count q u + count_path q up)) ≤ 1
      parts q l = omega (arith, l, count-join q s leaf z k c t)

      parts_z :
          count z (join s leaf z k c t) + (here g z + (count z u + count_path z up)) ≤ 1
          → 1 + count z t + (here g z + (count z u + count_path z up)) ≤ 1
      parts_z l = omega (arith, l, count-join z s leaf z k c t, here_self z)

  -- The parent of the part that was handed over; that of the sentinel too, if it is empty.
  pub record Transplanted (up : Trail) (z_cell : RbNode) (g : Heap) : Type 0 where
    pub sentinel_node : RbNode
    pub same_color : sentinel_node.color ≡ n.color
    pub focus : Focus nil sentinel_node g up t
    pub at_z : g.nodes z ≡ some z_cell

module _ (nil z : Ptr) (k : ℤ) (c : Color) (s : Side) (n : RbNode) (nn : nil ≢ null) (zn : z ≢ nil)
    (up : Trail) where
  reparent-Transplanted :
      (t : Tree) (m : Heap)
      → ((q : Ptr) → here z q + count q t + count_path q up ≤ 1)
      → Handed nil z k c s t n up m
      → Ends
          (λ _ g. Transplanted nil z k c s t n up (cell s c k (above nil up) nil (top nil t)) g)
          (set_parent (top nil t) (above nil up) m)
  reparent-Transplanted leaf m apart w =
      change_last m.nodes m.root nil nn n w.sentinel _ (with_parent (above nil up) n) refl (record {
        sentinel_node = with_parent (above nil up) n;
        same_color = refl;
        focus = record {
          path =
              IsPath-write m.nodes nil nil _ m.root nil up
                (IsPath-nil m.nodes nil m.root nil up w.path) w.path;
          tree = tt;
          apart = λ q. omega (arith, apart q);
          sentinel = write_here m.nodes nil _;
        };
        at_z = write_ne m.nodes nil z _ zn ∙ w.at_z;
      })
  reparent-Transplanted (branch l y ky d r) m apart w =
      let (yn, yz, at, i, j) = w.tree in
      let once = apart y in
      change_last m.nodes m.root y yz _ at _ (rb_node d ky (above nil up) (top nil l) (top nil r))
        refl
        (record {
          sentinel_node = n;
          same_color = refl;
          focus = record {
            path =
                IsPath-write m.nodes nil y _ m.root y up (omega (arith, once, here_self y)) w.path;
            tree = (
              yn,
              yz,
              write_here m.nodes y _,
              IsTree-write m.nodes nil y _ y l (omega (arith, once, here_self y)) i,
              IsTree-write m.nodes nil y _ y r (omega (arith, once, here_self y)) j,
            );
            apart = λ q. omega (arith, apart q);
            sentinel = write_ne m.nodes y nil _ (λ e. yn (sym e)) ∙ w.sentinel;
          };
          at_z =
              write_ne m.nodes y z _ (λ e. ne_here z y (omega (arith, once, here_self y)) (sym e))
              ∙ w.at_z;
        })

  -- With a sentinel that is not null, `rbtree_transplant` hands the place of a node with a missing
  -- child to the other child: the link to the node leads there, and the links of the node stay. The
  -- parent of the sentinel changes if it is what is handed over.
  pub rbtree_transplant-Transplanted :
      (t : Tree) (m : Heap)
      → Focus nil n m up (join s leaf z k c t)
      → Ends
          (λ _ g. Transplanted nil z k c s t n up (cell s c k (above nil up) nil (top nil t)) g)
          (rbtree_transplant nil z (top nil t) m)
  unfolding rbtree_transplant
  rbtree_transplant-Transplanted t m w =
      let (zn, zz, at, i, j) = IsTree-parts m.nodes nil (above nil up) leaf z k c t s w.tree in
      let parent = cell_parent c k (above nil up) nil (top nil t) s in
      get_then m.nodes m.root z zz _ at _ _ (above nil up) parent (
        Ends-continue (relink-Handed nil z k c s t n up m w) (λ _ g v.
          get_then g.nodes g.root z zz _ v.at_z _ _ (above nil up) parent
            (reparent-Transplanted t g (λ q. at_once q (w.apart q)) v)))
    where
      at_once :
          (q : Ptr)
          → count q (join s leaf z k c t) + count_path q up ≤ 1
          → here z q + count q t + count_path q up ≤ 1
      at_once q l = omega (arith, l, count-join q s leaf z k c t)
