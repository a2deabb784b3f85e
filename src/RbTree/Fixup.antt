-- ===== src/RbTree/Fixup.antt =====
-- `rbtree_fixup` of rbtree-lab/src/rbtree.c.
use jungle_data_structures.Prelude.{
  ℕ, suc, ◌≡◌, ◌≢◌, refl, sym, subst, ◌+◌, List, [], ◌∷◌, length, some, ◌==◌, if◌then◌else◌,
}
use jungle_data_structures.Prelude.Int.{ℤ}
use jungle_data_structures.Prelude.Run.{Outcome, done, continue, Ends, Ends-map, ◌>>◌}
use jungle_data_structures.RbTree.Store.{Ptr, null, Color, red, black, RbNode, Store}
use jungle_data_structures.RbTree.Trees.{Tree, leaf, branch, top}
use jungle_data_structures.RbTree.Change.{
  Side, left_side, right_side, Heap, heap, is_red, get_child, set_color, fixup_turn, fixup_round,
}
use jungle_data_structures.RbTree.Steps.{cell, cell_parent, child_far, get_then, same_eq, ne_eq}
use jungle_data_structures.RbTree.Zipper.{Trail, frame, plug, join, IsTree-parts}
use jungle_data_structures.RbTree.Focus.{Focus, items, move_up, tone_then}
use jungle_data_structures.RbTree.RedBlack.{tone, IsRb, IsRbPath}
use jungle_data_structures.RbTree.Round.{rejoin, red_uncle}
use jungle_data_structures.RbTree.Ready.{Ready, Next, after_red, turn_outer, turn_inner}

-- The whole tree is in memory, and only its root may be red below the root's missing parent.
pub record Fixed (nil : Ptr) (n : RbNode) (ks : List (Ptr × ℤ)) (m : Heap) : Type 0 where
  pub height : ℕ
  pub tree : Tree
  pub focus : Focus nil n m [] tree
  pub sound : IsRb height tree
  pub same : items tree ≡ ks

-- The place is the whole tree.
pub move_top :
    {nil : Ptr} {n : RbNode} {m : Heap} (up : Trail) (t : Tree)
    → Focus nil n m up t
    → Focus nil n m [] (plug up t)
move_top [] t w = w
move_top (frame s x k c b ∷ up) t w = move_top up (join s t x k c b) (move_up s x k c w)

module _ {B : Type 0} {Q : B → Heap → Type 0} (h : Store) (root g : Ptr) (g_null : g ≢ null)
    (c : Color) (k : ℤ) (q p u : Ptr) (ne : u ≢ p) (f : Side → Heap → Outcome Heap B) where
  -- `z->parent == z->parent->parent->left`.
  pub side_then :
      (s : Side)
      → h g ≡ some (cell s c k q p u)
      → Ends Q (f s (heap h root))
      → Ends Q (
          continue
            (get_child left_side g (heap h root))
            (λ l. f (if p == l then left_side else right_side)))
  side_then left_side e w = get_then h root g g_null _ e _ _ p refl (rw (same_eq p p refl) w)
  side_then right_side e w =
      get_then h root g g_null _ e _ _ u refl (rw (ne_eq p u (λ e. ne (sym e))) w)

module _ (nil : Ptr) (n : RbNode) (nil_null : nil ≢ null) (dark : n.color ≡ black)
    (ks : List (Ptr × ℤ)) where
  module _ (h : ℕ) (p g : Ptr) (kp kg : ℤ) (v : Tree) (up : Trail) (tone_v : tone v ≡ black)
      (sound_v : IsRb h v) (around : IsRbPath (suc h) up) (z : Ptr) (m : Heap) where
    turn_sides :
        (r s : Side) (kz : ℤ) (a b u : Tree)
        → tone u ≡ black
        → IsRb h u
        → IsRb h (join s a z kz red b)
        → Focus nil n m (frame r p kp red v ∷ frame s g kg black u ∷ up) (join s a z kz red b)
        → items (plug up (join s (join r (join s a z kz red b) p kp red v) g kg black u)) ≡ ks
        → Ends (λ q m. Next nil n ks (2 + length up) q m) (fixup_turn s nil z p m)
    turn_sides left_side left_side kz a b u tu su i =
        turn_outer nil n ks h left_side p g kp kg v up tone_v sound_v z kz a b u tu su i around m
    turn_sides right_side right_side kz a b u tu su i =
        turn_outer nil n ks h right_side p g kp kg v up tone_v sound_v z kz a b u tu su i around m
    turn_sides left_side right_side kz a b u tu su i =
        turn_inner nil n ks h right_side p g kp kg v up tone_v sound_v z kz a b u tu su i around m
    turn_sides right_side left_side kz a b u tu su i =
        turn_inner nil n ks h left_side p g kp kg v up tone_v sound_v z kz a b u tu su i around m

    turn_any :
        (r s : Side) (u : Tree)
        → tone u ≡ black
        → IsRb h u
        → Ready nil n ks h (frame r p kp red v ∷ frame s g kg black u ∷ up) z m
        → Ends (λ q m. Next nil n ks (2 + length up) q m) (fixup_turn s nil z p m)
    turn_any r s u tu su w =
        let (a, b, e) = rejoin s w.side w.near z w.key red w.far in
        turn_sides r s w.key a b u tu su (subst (IsRb h) e w.sound)
          (subst (Focus nil n m (frame r p kp red v ∷ frame s g kg black u ∷ up)) e w.focus)
          (subst (λ t. items (plug up (join s (join r t p kp red v) g kg black u)) ≡ ks) e w.same)

    uncle_end :
        (r s : Side) (u : Tree)
        → IsRb h u
        → Ready nil n ks h (frame r p kp red v ∷ frame s g kg black u ∷ up) z m
        → Ends
            (λ q m. Next nil n ks (2 + length up) q m)
            ((if is_red (tone u)
                then (set_color p black
                    >> (set_color (top nil u) black >> (set_color g red >> done g)))
                else fixup_turn s nil z p)
              m)
    uncle_end r s leaf su w = turn_any r s leaf refl su w
    uncle_end r s (branch ul y ky black ur) su w = turn_any r s (branch ul y ky black ur) refl su w
    uncle_end r s (branch ul y ky red ur) su w =
        Ends-map
          (red_uncle nil n s p g kp kg v up m r (join w.side w.near z w.key red w.far) ul y ky ur
            w.focus)
          (λ q m1.
            after_red nil n ks h s p g kp kg v up tone_v sound_v r ul y ky ur
              (join w.side w.near z w.key red w.far) q m1 w.sound su around w.same)

    pub fixup_round-Next :
        (r s : Side) (u : Tree)
        → IsRb h u
        → Ready nil n ks h (frame r p kp red v ∷ frame s g kg black u ∷ up) z m
        → Ends (λ q m. Next nil n ks (2 + length up) q m) (fixup_round s nil z m)
    unfolding fixup_round
    fixup_round-Next r s u su w =
        let (zn, zz, at_z, _, _) =
          IsTree-parts m.nodes nil p w.near z w.key red w.far w.side w.focus.tree in
        let (pn, pz, at_p, _, (gn, gz, at_g, tree_u, _)) = w.focus.path in
        get_then m.nodes m.root z zz _ at_z _ _ p (cell_parent red w.key p _ _ w.side) (
          get_then m.nodes m.root p pz _ at_p _ _ g (cell_parent red kp g _ _ r) (
            get_then m.nodes m.root g gz _ at_g _ _ (top nil u) (child_far black kg _ p _ s)
              (tone_then g u tree_u nil_null w.focus.sentinel dark _ (uncle_end r s u su w))))
