-- ===== src/RbTree/Rotate.antt =====
-- `left_rotate` and `right_rotate` of rbtree-lab/src/rbtree.c.
use jungle_data_structures.Prelude.{
  ◌≡◌, ◌≢◌, refl, ◌==◌, if◌then◌else◌, some, Option, [], ◌∷◌, arith,
}
use jungle_data_structures.Prelude.Int.{ℤ}
use jungle_data_structures.Prelude.Run.{Ends, Ends-done, Ends-continue, continue, ◌>>=◌}
use jungle_data_structures.RbTree.Store.{Ptr, null, Color, RbNode, Store, write}
use jungle_data_structures.RbTree.Trees.{Tree, top}
use jungle_data_structures.RbTree.Change.{
  Side, left_side, right_side, other, Heap, heap, take_place, get_child, set_child, rotate,
  set_parent,
}
use jungle_data_structures.RbTree.Steps.{
  cell, child_near, child_far, cell_parent, with_near, with_far, with_parent_lem, get_then,
  change_then, change_last, write_here, same_eq, ne_eq,
}
use jungle_data_structures.RbTree.Zipper.{
  Trail, frame, above, here_self, IsTree-write, IsPath-write, top_ne,
}
use jungle_data_structures.RbTree.Parts.{IsApart, Parts, write_x, write_y, write_else, set_b_then}

-- `y` takes the place of `x` below `g`, at whichever side that is.
module _ (h : Store) (root g : Ptr) (g_null : g ≢ null) (c : Color) (k : ℤ) (p x y u : Ptr)
    (ne : u ≢ x) where
  place_near :
      (t s : Side) {Q : Unit {0} → Heap → Type 0}
      → h g ≡ some (cell t c k p x u)
      → Q tt (heap (write h g (some (cell t c k p y u))) root)
      → Ends Q (
          (get_child s g >>= λ v. if v == x then set_child s g y else set_child (other s) g y)
            (heap h root))
  place_near left_side left_side e w =
      get_then h root g g_null _ e _ _ x refl
        (rw (same_eq x x refl) (change_last h root g g_null _ e _ _ refl w))
  place_near right_side right_side e w =
      get_then h root g g_null _ e _ _ x refl
        (rw (same_eq x x refl) (change_last h root g g_null _ e _ _ refl w))
  place_near left_side right_side e w =
      get_then h root g g_null _ e _ _ u refl
        (rw (ne_eq u x ne) (change_last h root g g_null _ e _ _ refl w))
  place_near right_side left_side e w =
      get_then h root g g_null _ e _ _ u refl
        (rw (ne_eq u x ne) (change_last h root g g_null _ e _ _ refl w))

module _ (nil : Ptr) (sn : Option RbNode) (s : Side) (x y : Ptr) (kx ky : ℤ) (cx cy : Color)
    (a b e : Tree) where
  take_place-Parts :
      (up : Trail)
      → IsApart nil sn s x y kx ky cx cy a b e up
      → x ≢ nil
      → x ≢ null
      → y ≢ nil
      → y ≢ null
      → (rx ly pb : Ptr) (h : Store) (root : Ptr)
      → Parts nil sn s x y kx ky cx cy a b e up (above nil up) rx (above nil up) ly pb x h root
      → Ends
          (λ _. λ m.
            Parts nil sn s x y kx ky cx cy a b e up
              (above nil up)
              rx
              (above nil up)
              ly
              pb
              y
              m.nodes
              m.root)
          (take_place s nil x y (heap h root))
  unfolding take_place
  take_place-Parts [] apart xn xz yn yz rx ly pb h root w =
      get_then h root y yz _ w.at_y _ _ nil (cell_parent cy ky nil ly (top nil e) s) (
        rw (same_eq nil nil refl) (
          Ends-done (record {
            at_x = w.at_x;
            at_y = w.at_y;
            tree_a = w.tree_a;
            tree_b = w.tree_b;
            tree_e = w.tree_e;
            path = refl;
            sentinel = w.sentinel;
          })))
  take_place-Parts (frame t g k c u ∷ up) apart xn xz yn yz rx ly pb h root w =
      let (gn, gz, at, i, j) = w.path in
      get_then h root y yz _ w.at_y _ _ g (cell_parent cy ky g ly (top nil e) s) (
        rw (ne_eq g nil gn) (
          get_then h root x xz _ w.at_x _ _ g (cell_parent cx kx g (top nil a) rx s) (
            place_near h root g gz c k (above nil up) x y (top nil u)
              (top_ne nil x u xn (omega (arith, apart x, here_self x))) t s at
              (write_else nil sn s x y kx ky cx cy a b e (frame t g k c u ∷ up) apart xn xz yn yz g
                rx g ly pb x h root w g _ pb y gn (omega (arith, here_self g))
                (IsTree-write h nil g _ pb b (omega (arith, apart g, here_self g)) w.tree_b)
                (
                  gn,
                  gz,
                  write_here h g _,
                  IsTree-write h nil g _ g u (omega (arith, apart g, here_self g)) i,
                  IsPath-write h nil g _ root g up (omega (arith, apart g, here_self g)) j,
                )))))

  module _ (up : Trail) (apart : IsApart nil sn s x y kx ky cx cy a b e up) (xn : x ≢ nil)
      (xz : x ≢ null) (yn : y ≢ nil) (yz : y ≢ null) where
    abbrev Here : (px rx py ly pb q : Ptr) → Store → Ptr → Type 0
    Here = Parts nil sn s x y kx ky cx cy a b e up

    -- The last two writes, `x_right->left = x` and `x->parent = x_right`.
    rotate_end :
        (m : Heap)
        → Here (above nil up) (top nil b) (above nil up) (top nil b) x y m.nodes m.root
        → Ends
            (λ _. λ m. Here y (top nil b) (above nil up) x x y m.nodes m.root)
            (continue (set_child s y x m) (λ _. set_parent x y))
    rotate_end m w = change_then m.nodes m.root y yz _ w.at_y _ _ _ (with_near cy ky _ _ _ s x) (
        let v =
          write_y nil sn s x y kx ky cx cy a b e up apart xn xz yn yz _ _ _ _ _ _ m.nodes m.root w
            (above nil up) x in
        change_last _ m.root x xz _ v.at_x _ _ (with_parent_lem cx kx _ _ _ s y) (
          write_x nil sn s x y kx ky cx cy a b e up apart xn xz yn yz _ _ _ _ _ _ _ m.root v y
            (top nil b)))

    pub rotate-Parts :
        (h : Store) (root : Ptr)
        → Here (above nil up) y x (top nil b) y x h root
        → Ends
            (λ _. λ m. Here y (top nil b) (above nil up) x x y m.nodes m.root)
            (rotate s nil x (heap h root))
    unfolding rotate
    rotate-Parts h root w = rw (ne_eq x null xz) (
        get_then h root x xz _ w.at_x _ _ y (child_far cx kx _ _ y s) (
          rw (ne_eq y nil yn) (
            get_then h root y yz _ w.at_y _ _ (top nil b) (child_near cy ky x _ _ s) (
              change_then h root x xz _ w.at_x _ _ _ (with_far cx kx _ _ y s (top nil b)) (
                let v = moved_x h w in
                get_then _ root y yz _ v.at_y _ _ (top nil b) (child_near cy ky x _ _ s) (
                  set_b_then nil sn s x y kx ky cx cy a b e up apart xn xz yn yz _ _ _ _ _ _ root v
                    _
                    (λ g u.
                      get_then g root x xz _ u.at_x _ _ (above nil up) (cell_parent cx kx _ _ _ s) (
                        change_then g root y yz _ u.at_y _ _ _
                          (with_parent_lem cy ky _ _ _ s (above nil up))
                          (Ends-continue
                            (take_place-Parts up apart xn xz yn yz _ _ x _ root (moved_y g u))
                            (λ _ m z. rotate_end m z))))))))))
      where
        moved_x :
            (h : Store) (w : Here (above nil up) y x (top nil b) y x h root)
            → Here
                (above nil up)
                (top nil b)
                x
                (top nil b)
                y
                x
                (write h x (some (cell s cx kx (above nil up) (top nil a) (top nil b))))
                root
        moved_x h w =
            write_x nil sn s x y kx ky cx cy a b e up apart xn xz yn yz _ _ _ _ _ _ h root w
              (above nil up) (top nil b)

        moved_y :
            (g : Store) (u : Here (above nil up) (top nil b) x (top nil b) x x g root)
            → Here
                (above nil up)
                (top nil b)
                (above nil up)
                (top nil b)
                x
                x
                (write g y (some (cell s cy ky (above nil up) (top nil b) (top nil e))))
                root
        moved_y g u =
            write_y nil sn s x y kx ky cx cy a b e up apart xn xz yn yz _ _ _ _ _ _ g root u
              (above nil up) (top nil b)
