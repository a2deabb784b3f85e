-- ===== src/RbTree/Insert.antt =====
-- `rbtree_insert` of rbtree-lab/src/rbtree.c.
use jungle_data_structures.Prelude.{
  ap, ℕ, ◌≡◌, ◌≢◌, refl, sym, subst, ◌∙◌, inl, ◌+◌, ◌*◌, ◌^◌, ◌≤◌, ◌<◌, none, some, [], length,
  arith,
}
use jungle_data_structures.Prelude.Int.{ℤ}
use jungle_data_structures.Prelude.Run.{
  done, Ends, Ends-done, Ends-continue, Ends-map, Ends-exact, exact_then,
}
use jungle_data_structures.RbTree.Store.{Ptr, null, red, black, RbNode, rb_node, write}
use jungle_data_structures.RbTree.Trees.{Tree, leaf, height, IsOrdered}
use jungle_data_structures.RbTree.Change.{
  left_side, Heap, heap, new_node, create, descend, rbtree_insert,
}
use jungle_data_structures.RbTree.Steps.{change_then, write_here, ne_eq}
use jungle_data_structures.RbTree.Zipper.{above, count, count_path}
use jungle_data_structures.RbTree.Focus.{Focus, items}
use jungle_data_structures.RbTree.RedBlack.{tone, IsRb}
use jungle_data_structures.RbTree.FixupLoop.{Balanced, rbtree_fixup-Balanced}
use jungle_data_structures.RbTree.Ascending.{
  Ascending, items-Ascending, Ascending-IsOrdered, insert_item-Ascending,
}
use jungle_data_structures.RbTree.Bounds.{IsRb-length, height-black, length-insert_item}
use jungle_data_structures.RbTree.Way.{
  way, insert_item, way-IsAimed, length-way, plug-way, way-Focus, way-IsRbPath, items-put_node,
  count-way, insert_item-some,
}
use jungle_data_structures.RbTree.Attach.{
  unallocated, fresh, Focus-write, descend-Ends, attach-Focus,
}

module _ (nil : Ptr) (n : RbNode) where
  module _ (z : Ptr) (key : ℤ) (z_null : z ≢ null) where
    module _ (nil_null : nil ≢ null) (dark : n.color ≡ black) where
      pub rbtree_insert-Balanced :
          (fuel h : ℕ) (s : Tree) (m : Heap)
          → Focus nil n m [] s
          → IsRb h s
          → tone s ≡ black
          → IsOrdered s
          → m.nodes z ≡ none
          → height s < fuel
          → Ends
              (λ p m. (p ≡ z) × Balanced nil n (insert_item z key (items s)) m)
              (rbtree_insert fuel nil z key m)
      unfolding rbtree_insert new_node create
      rbtree_insert-Balanced fuel h s m w sound dark_root ordered unused lt =
          let zn : z ≢ nil = unallocated nil n m.nodes z nil n unused w.sentinel in
          let out : count z s ≡ 0 = fresh nil n m.nodes z nil s unused w.tree in
          let up = way key s [] in
          let first = rb_node red key nil nil nil in
          let second = rb_node red key (above nil up) nil nil in
          let g = write m.nodes z (some first) in
          let off : count_path z up ≡ 0 = omega (arith, out, count-way key z s []) in
          let w1 = Focus-write nil n m.nodes m.root z first [] s zn (omega (arith, out)) w in
          let w2 =
            Focus-write nil n g m.root z second up leaf zn (omega (arith, off))
              (way-Focus key s [] w1) in
          rw (ne_eq z null z_null) (
            exact_then _
              (subst
                (λ x.
                  descend fuel nil z x nil (heap g m.root) ≡ done (above nil up) (heap g m.root))
                (sym w.path)
                (Ends-exact (
                  descend-Ends nil n z key z_null fuel s [] g m.root first refl
                    (write_here m.nodes z _) w1.tree lt)))
              (change_then g m.root z z_null first (write_here m.nodes z _) _ _ second refl (
                Ends-continue
                  (attach-Focus nil n z key z_null up _ m.root zn off (way-IsAimed key s [] tt)
                    (write_here g z _) w2)
                  (λ _ m3 w3.
                    Ends-continue
                      (rbtree_fixup-Balanced nil n nil_null dark (insert_item z key (items s)) fuel
                        0 up z m3 (insert_item-some key z (items s))
                        (record {
                          side = left_side;
                          near = leaf;
                          far = leaf;
                          key = key;
                          focus = w3;
                          sound = (refl, refl, refl, refl);
                          around = way-IsRbPath key s h [] sound tt (inl dark_root);
                          same = ap items (plug-way key z s []) ∙ items-put_node key z s ordered;
                        })
                        (omega (arith, length-way key s [], lt)))
                      (λ _ m4 b. Ends-done (refl, b))))))

      -- With a black sentinel that is not null, a node that is neither null nor in use is added to a
      -- red-black tree that is a search tree, and its address is returned. It comes behind the nodes
      -- whose keys are not greater, in the order from left to right; the other nodes keep their order
      -- and keys, the tree is again a red-black tree and a search tree, and the sentinel is as before.
      -- One round more than the tree is high is enough.
      pub rbtree_insert-IsOrdered :
          (fuel h : ℕ) (s : Tree) (m : Heap)
          → Focus nil n m [] s
          → IsRb h s
          → tone s ≡ black
          → IsOrdered s
          → m.nodes z ≡ none
          → height s < fuel
          → Ends
              (λ p m.
                (p ≡ z) × (w : Balanced nil n (insert_item z key (items s)) m) × IsOrdered w.tree)
              (rbtree_insert fuel nil z key m)
      rbtree_insert-IsOrdered fuel h s m w sound dark_root ordered unused lt =
          Ends-map (rbtree_insert-Balanced fuel h s m w sound dark_root ordered unused lt)
            (λ p m (e, b). (
              e,
              b,
              Ascending-IsOrdered b.tree (
                  subst Ascending (sym b.same)
                    (insert_item-Ascending z key (items s) (items-Ascending s ordered))),
            ))

      -- With a black sentinel that is not null, after the insertion of a node that is neither null nor
      -- in use into a red-black tree with `n` nodes that is a search tree, the tree is at most `2 * b`
      -- high, where `2 ^ b` is at most `n + 2`. One round more than the tree was high is enough.
      pub rbtree_insert-height :
          (fuel h : ℕ) (s : Tree) (m : Heap)
          → Focus nil n m [] s
          → IsRb h s
          → tone s ≡ black
          → IsOrdered s
          → m.nodes z ≡ none
          → height s < fuel
          → Ends
              (λ p m.
                (t : Tree) × (b : ℕ) × Focus nil n m [] t
                × (height t ≤ 2 * b)
                × (2 ^ b ≤ length (items s) + 2))
              (rbtree_insert fuel nil z key m)
      rbtree_insert-height fuel h s m w sound dark_root ordered unused lt =
          Ends-map (rbtree_insert-Balanced fuel h s m w sound dark_root ordered unused lt)
            (λ p m (e, b). (
              b.tree,
              b.height,
              b.focus,
              height-black b.tree b.height b.sound b.dark_root,
              omega (
                arith,
                IsRb-length b.tree b.height b.sound,
                ap length b.same,
                length-insert_item z key (items s),
              ),
            ))
