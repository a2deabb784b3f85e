-- ===== src/RbTree/Erased.antt =====
-- `rbtree_erase` of rbtree-lab/src/rbtree.c for a node with at most one child, where it or its child
-- is red.
use jungle_data_structures.Prelude.{
  ℕ, suc, ◌+◌, ◌≤◌, ◌≡◌, ◌≢◌, ◌⊎◌, inl, inr, refl, sym, subst, ◌∙◌, Bool-cases, ◌==◌, if◌then◌else◌,
  none, some, List, arith,
}
use jungle_data_structures.Prelude.Int.{ℤ}
use jungle_data_structures.Prelude.Run.{
  done, Ends, Ends-done, Ends-map, Ends-continue, exact_then, ◌>>◌,
}
use jungle_data_structures.RbTree.Store.{Ptr, null, Color, red, black, RbNode, Store, write}
use jungle_data_structures.RbTree.Trees.{Tree, leaf, branch, top}
use jungle_data_structures.RbTree.Change.{
  Side, left_side, right_side, Heap, heap, Edit, is_red, with_color,
}
use jungle_data_structures.RbTree.Erase.{
  release, unlink_node, delete_loop, rbtree_delete_fixup, rbtree_erase,
}
use jungle_data_structures.RbTree.Steps.{
  cell, get_step, get_then, change_last, write_here, write_ne, same_eq, ne_eq,
}
use jungle_data_structures.RbTree.Zipper.{
  Trail, above, plug, join, here, count, count_path, count-join, IsTree-parts, here_self,
  IsTree-set, IsPath-set, ne_here,
}
use jungle_data_structures.RbTree.RedBlack.{tone, IsRb, IsRbPath, IsRb-plug}
use jungle_data_structures.RbTree.Focus.{Focus, items, recolor}
use jungle_data_structures.RbTree.Fixup.{move_top}
use jungle_data_structures.RbTree.FixupLoop.{Balanced}
use jungle_data_structures.RbTree.Transplant.{Transplanted, rbtree_transplant-Transplanted}
use jungle_data_structures.RbTree.Settled.{
  settled, Less, Less-join, not_red, settled-IsRb, count-settled,
}

release-done :
    (h : Store) (root z : Ptr) (n : RbNode)
    → h z ≡ some n
    → release z (heap h root) ≡ done tt (heap (write h z none) root)
unfolding release
release-done h root z n e = ground arith

-- What `rbtree_erase` does after `unlink_node`.
abbrev after_unlink : ℕ → (nil z : Ptr) → Ptr × Color → Edit ℕ
after_unlink fuel nil z (x, lost) = do
  (if is_red lost then done tt else rbtree_delete_fixup (suc fuel) nil x)
  release z
  done 0

delete_loop-red :
    (fuel : ℕ) (nil y : Ptr) (g : Heap) (m : RbNode)
    → y ≢ null
    → g.nodes y ≡ some m
    → m.color ≡ red
    → delete_loop (suc fuel) nil y g ≡ done y g
unfolding delete_loop
delete_loop-red fuel nil y g m yz at e = elim (Bool-cases (y == g.root)) [
  | inl same ↦ rw same refl
  | inr other ↦ rw other (get_step g.nodes g.root y yz m at _ _ red e)
]

module _ (nil z : Ptr) (k : ℤ) (n : RbNode) (nn : nil ≢ null) (up : Trail) where
  abbrev z_cell : Side → Color → Tree → RbNode
  z_cell s c t = cell s c k (above nil up) nil (top nil t)

  -- The node has been replaced by its child, and its colour kept for later.
  abbrev Unlinked : Side → Color → Tree → Ptr × Color → Heap → Type 0
  Unlinked s c t r g = (r ≡ (top nil t, c)) × Transplanted nil z k c s t n up (z_cell s c t) g

  unlink_node-Unlinked :
      (s : Side) (c : Color) (t : Tree) (fuel : ℕ) (m : Heap)
      → Focus nil n m up (join s leaf z k c t)
      → Ends (Unlinked s c t) (unlink_node fuel nil z m)
  unfolding unlink_node
  unlink_node-Unlinked left_side c t fuel m w =
      let (zn, zz, at, i, j) = w.tree in
      get_then m.nodes m.root z zz _ at _ _ c refl (
        get_then m.nodes m.root z zz _ at _ _ nil refl (
          get_then m.nodes m.root z zz _ at _ _ (top nil t) refl (
            rw (same_eq nil nil refl) (
              Ends-continue (rbtree_transplant-Transplanted nil z k c left_side n nn zn up t m w)
                (λ _ g v. Ends-done (refl, v))))))
  unlink_node-Unlinked right_side c leaf fuel m w =
      let (zn, zz, at, i, j) = w.tree in
      get_then m.nodes m.root z zz _ at _ _ c refl (
        get_then m.nodes m.root z zz _ at _ _ nil refl (
          get_then m.nodes m.root z zz _ at _ _ nil refl (
            rw (same_eq nil nil refl) (
              Ends-continue
                (rbtree_transplant-Transplanted nil z k c right_side n nn zn up leaf m w)
                (λ _ g v. Ends-done (refl, v))))))
  unlink_node-Unlinked right_side c (branch l y ky d r) fuel m w =
      let t : Tree = branch l y ky d r in
      let (zn, zz, at, i, j) = w.tree in
      get_then m.nodes m.root z zz _ at _ _ c refl (
        get_then m.nodes m.root z zz _ at _ _ y refl (
          get_then m.nodes m.root z zz _ at _ _ nil refl (
            rw (ne_eq y nil i.0, same_eq nil nil refl)
              (Ends-continue (rbtree_transplant-Transplanted nil z k c right_side n nn zn up t m w)
                (λ _ g v. Ends-done (refl, v))))))

  -- The child has the colour that the place needs.
  abbrev Settled : Side → Color → Tree → Heap → Type 0
  Settled s c t g =
      (sn : RbNode) × (sn.color ≡ n.color)
      × Focus nil sn g up (settled c t)
      × (g.nodes z ≡ some (z_cell s c t))

  settle-Settled :
      (s : Side) (c : Color) (t : Tree) (fuel : ℕ) (g : Heap)
      → (c ≡ red) ⊎ (tone t ≡ red)
      → ((q : Ptr) → here z q + count q t ≤ 1)
      → Transplanted nil z k c s t n up (z_cell s c t) g
      → Ends
          (λ _ g. Settled s c t g)
          ((if is_red c then done tt else rbtree_delete_fixup (suc fuel) nil (top nil t)) g)
  unfolding rbtree_delete_fixup
  settle-Settled s red t fuel g i apart v =
      Ends-done (v.sentinel_node, v.same_color, v.focus, v.at_z)
  settle-Settled s black leaf fuel g i apart v = absurd (not_red i)
  settle-Settled s black (branch l y ky black r) fuel g i apart v = absurd (not_red i)
  settle-Settled s black (branch l y ky red r) fuel g i apart v =
      let (yn, yz, at, u, w) = v.focus.tree in
      exact_then _ (delete_loop-red fuel nil y g _ yz at refl) (
        change_last g.nodes g.root y yz _ at (with_color black) _ refl (
          v.sentinel_node,
          v.same_color,
          recolor left_side y ky red black l r v.focus,
          write_ne g.nodes y z _ (λ e. ne_here z y (omega (arith, apart y, here_self y)) (sym e))
              ∙ v.at_z,
        ))

  module _ (s : Side) (c : Color) (t : Tree) where
    -- The node is gone, and nothing else.
    abbrev Gone : ℕ → Heap → Type 0
    Gone r g =
        (r ≡ 0)
        × (g.nodes z ≡ none)
        × (sn : RbNode) × (sn.color ≡ n.color)
        × Focus nil sn g up (settled c t)

    release-Gone :
        (g : Heap)
        → z ≢ nil
        → ((q : Ptr) → here z q + count q t + count_path q up ≤ 1)
        → Settled s c t g
        → Ends Gone ((release z >> done 0) g)
    release-Gone g zn apart (sn, e, w, at) = exact_then _ (release-done g.nodes g.root z _ at) (
        Ends-done (
          refl,
          write_here g.nodes z none,
          sn,
          e,
          record {
            path =
                IsPath-set g.nodes nil z none g.root (top nil (settled c t)) up
                  (omega (arith, apart z, here_self z)) w.path;
            tree =
                IsTree-set g.nodes nil z none (above nil up) (settled c t)
                  (omega (arith, apart z, here_self z, count-settled z c t)) w.tree;
            apart = w.apart;
            sentinel = write_ne g.nodes z nil none (λ e. zn (sym e)) ∙ w.sentinel;
          },
        ))

    rbtree_erase-Gone :
        (fuel : ℕ) (m : Heap)
        → (c ≡ red) ⊎ (tone t ≡ red)
        → Focus nil n m up (join s leaf z k c t)
        → Ends Gone (rbtree_erase (suc fuel) nil z m)
    unfolding rbtree_erase
    rbtree_erase-Gone fuel m i w =
        let (zn, zz, at, _, _) = IsTree-parts m.nodes nil (above nil up) leaf z k c t s w.tree in
        Ends-continue (unlink_node-Unlinked s c t (suc fuel) m w) (λ r g (e, v).
          subst (λ r. Ends Gone (after_unlink fuel nil z r g)) (sym e)
            (Ends-continue
              (settle-Settled s c t fuel g i (λ q. omega (arith, at_once q (w.apart q))) v)
              (λ _ g v. release-Gone g zn (λ q. at_once q (w.apart q)) v)))
      where
        at_once :
            (q : Ptr)
            → count q (join s leaf z k c t) + count_path q up ≤ 1
            → here z q + count q t + count_path q up ≤ 1
        at_once q l = omega (arith, l, count-join q s leaf z k c t)

    -- With a sentinel that is not null, `rbtree_erase` of a node of a red-black tree that has at most
    -- one child, where the node or that child is red, returns 0. The node is freed, the other nodes
    -- keep their order and keys, the tree is again a red-black tree, and the sentinel keeps its colour.
    -- One round is enough.
    pub rbtree_erase-Balanced :
        (fuel h : ℕ) (m : Heap)
        → (c ≡ red) ⊎ (tone t ≡ red)
        → Focus nil n m up (join s leaf z k c t)
        → IsRb h (join s leaf z k c t)
        → IsRbPath h up
        → Ends
            (λ r g.
              (r ≡ 0)
              × (g.nodes z ≡ none)
              × (sn : RbNode) × (sn.color ≡ n.color)
              × (ks : List (Ptr × ℤ)) × Less (z, k) (items (plug up (join s leaf z k c t))) ks
              × Balanced nil sn ks g)
            (rbtree_erase (suc fuel) nil z m)
    rbtree_erase-Balanced fuel h m i w sound around =
        let (b, j) = settled-IsRb s z k c t h i sound in
        let (height, dark, sound) = IsRb-plug up h (settled c t) around b j in
        Ends-map (rbtree_erase-Gone fuel m i w) (λ r g (e, gone, sn, same, v). (
          e,
          gone,
          sn,
          same,
          items (plug up (settled c t)),
          Less-join s z k c t up,
          record {
            height = height;
            tree = plug up (settled c t);
            focus = move_top up (settled c t) v;
            sound = sound;
            dark_root = dark;
            same = refl;
          },
        ))
