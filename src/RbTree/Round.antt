-- ===== src/RbTree/Round.antt =====
-- One round of the loop of `rbtree_fixup` in rbtree-lab/src/rbtree.c.
use jungle_data_structures.Prelude.{◌≡◌, refl, sym, subst, ap₂, ◌∷◌, ◌++◌}
use mathlib.Core.List.{append_assoc}
use jungle_data_structures.Prelude.Int.{ℤ}
use jungle_data_structures.Prelude.Run.{done, Ends, Ends-done, Ends-continue, ◌>>=◌, ◌>>◌}
use jungle_data_structures.RbTree.Store.{Ptr, Color, red, black, RbNode}
use jungle_data_structures.RbTree.Trees.{Tree, branch}
use jungle_data_structures.RbTree.Change.{
  Side, left_side, right_side, other, Heap, get_parent, set_color, rotate, Edit,
}
use jungle_data_structures.RbTree.Steps.{cell_parent, get_then}
use jungle_data_structures.RbTree.Zipper.{Trail, frame, join, IsTree-parts}
use jungle_data_structures.RbTree.Focus.{
  Focus, items, join-other, move_up, move_down, recolor_then, rotate-Focus,
}

pub items-join :
    (s : Side) (x : Ptr) (k : ℤ) (c d : Color) (a b e f : Tree)
    → items a ≡ items e
    → items b ≡ items f
    → items (join s a x k c b) ≡ items (join s e x k d f)
items-join left_side x k c d a b e f p q = ap₂ (λ u v. u ++ (x, k) ∷ v) p q
items-join right_side x k c d a b e f p q = ap₂ (λ u v. u ++ (x, k) ∷ v) q p

pub items-turn :
    (s : Side) (x y : Ptr) (k l : ℤ) (c d v w : Color) (a b e : Tree)
    → items (join s (join s a x k c b) y l d e) ≡ items (join s a x k v (join s b y l w e))
items-turn left_side x y k l c d v w a b e =
    append_assoc (items a) ((x, k) ∷ items b) ((y, l) ∷ items e)
items-turn right_side x y k l c d v w a b e =
    sym (append_assoc (items e) ((y, l) ∷ items b) ((x, k) ∷ items a))

-- A tree with its root's children named from the other side.
pub rejoin :
    (s r : Side) (a : Tree) (x : Ptr) (k : ℤ) (c : Color) (b : Tree)
    → (e : Tree) × (f : Tree) × (join r a x k c b ≡ join s e x k c f)
rejoin left_side left_side a x k c b = (a, b, refl)
rejoin left_side right_side a x k c b = (b, a, refl)
rejoin right_side left_side a x k c b = (b, a, refl)
rejoin right_side right_side a x k c b = (a, b, refl)

module _ (nil : Ptr) (n : RbNode) (s : Side) (p g : Ptr) (kp kg : ℤ) (v : Tree) (up : Trail) where
  -- A red uncle: the colours move up by two.
  pub red_uncle :
      (m : Heap) (r : Side) (t ul : Tree) (y : Ptr) (ky : ℤ) (ur : Tree)
      → Focus nil n m (frame r p kp red v ∷ frame s g kg black (branch ul y ky red ur) ∷ up) t
      → Ends
          (λ z m.
            (z ≡ g)
            × Focus nil n m up (join s (join r t p kp black v) g kg red (branch ul y ky black ur)))
          ((set_color p black >> (set_color y black >> (set_color g red >> done g))) m)
  red_uncle m r t ul y ky ur w =
      recolor_then r p kp red black t v (move_up r p kp red w) _ (λ m1 w1.
        let pt = join r t p kp black v in
        let w2 =
          subst (Focus nil n m1 up) (sym (join-other s (branch ul y ky red ur) g kg black pt))
            (move_up s g kg black w1) in
        recolor_then left_side y ky red black ul ur (move_down (other s) g kg black w2) _ (λ m2 w3.
          let w4 =
            subst (Focus nil n m2 up) (join-other s (branch ul y ky black ur) g kg black pt)
              (move_up (other s) g kg black w3) in
          recolor_then s g kg black red pt (branch ul y ky black ur) w4 _
            (λ m3 w5. Ends-done (refl, w5))))

  abbrev turn_tail : Ptr → Edit Ptr
  turn_tail z = get_parent z >>= λ p.
      set_color p black
      >> (get_parent p >>= λ g. set_color g red >> (rotate (other s) nil g >> done z))

  -- A black uncle, and `z` at the same side as its parent.
  pub outer_uncle :
      (m : Heap) (r : Side) (a : Tree) (z : Ptr) (kz : ℤ) (b u : Tree)
      → Focus nil n m (frame s p kp red v ∷ frame s g kg black u ∷ up) (join r a z kz red b)
      → Ends
          (λ q m.
            (q ≡ z)
            × Focus nil n m (frame s p kp black (join s v g kg red u) ∷ up) (join r a z kz red b))
          (turn_tail z m)
  outer_uncle m r a z kz b u w =
      let t = join r a z kz red b in
      let (zn, zz, at_z, i, j) = IsTree-parts m.nodes nil p a z kz red b r w.tree in
      get_then m.nodes m.root z zz _ at_z _ _ p (cell_parent red kz p _ _ r) (
        recolor_then s p kp red black t v (move_up s p kp red w) _ (λ m1 w1.
          let (pn, pz, at_p, k, l) = IsTree-parts m1.nodes nil g t p kp black v s w1.tree in
          get_then m1.nodes m1.root p pz _ at_p _ _ g (cell_parent black kp g _ _ s) (
            recolor_then s g kg black red (join s t p kp black v) u (move_up s g kg black w1) _
              (λ m2 w2.
                Ends-continue (rotate-Focus (other s) g p kg kp red black u v t (turned m2 w2))
                  (λ _ m3 w3. Ends-done (refl, move_down s p kp black (back m3 w3)))))))
    where
      turned :
          (m : Heap)
          → Focus nil n m up (join s (join s (join r a z kz red b) p kp black v) g kg red u)
          → Focus nil n m up
              (join (other s) u g kg red (join (other s) v p kp black (join r a z kz red b)))
      turned m w =
          subst (λ t. Focus nil n m up (join (other s) u g kg red t))
            (sym (join-other s v p kp black (join r a z kz red b)))
            (subst (Focus nil n m up)
              (sym (join-other s u g kg red (join s (join r a z kz red b) p kp black v))) w)

      back :
          (m : Heap)
          → Focus nil n m up
              (join (other s) (join (other s) u g kg red v) p kp black (join r a z kz red b))
          → Focus nil n m up (join s (join r a z kz red b) p kp black (join s v g kg red u))
      back m w =
          subst (λ t. Focus nil n m up (join s (join r a z kz red b) p kp black t))
            (join-other s u g kg red v)
            (subst (Focus nil n m up)
              (join-other s (join (other s) u g kg red v) p kp black (join r a z kz red b)) w)

  -- The same from a pointer that is known to be `z`.
  pub outer_from :
      (m : Heap) (r : Side) (a : Tree) (z : Ptr) (kz : ℤ) (b u : Tree) (q : Ptr)
      → q ≡ z
      → Focus nil n m (frame s p kp red v ∷ frame s g kg black u ∷ up) (join r a z kz red b)
      → Ends
          (λ q m.
            (q ≡ z)
            × Focus nil n m (frame s p kp black (join s v g kg red u) ∷ up) (join r a z kz red b))
          (turn_tail q m)
  outer_from m r a z kz b u q e w =
      subst
        (λ q.
          Ends
            (λ q m.
              (q ≡ z)
              × Focus nil n m (frame s p kp black (join s v g kg red u) ∷ up) (join r a z kz red b))
            (turn_tail q m))
        (sym e) (outer_uncle m r a z kz b u w)

  -- `z` at the side away from its parent: a rotation puts the parent at its place.
  pub inner_turn :
      (m : Heap) (a : Tree) (z : Ptr) (kz : ℤ) (b u : Tree)
      → Focus nil n m (frame (other s) p kp red v ∷ frame s g kg black u ∷ up) (join s a z kz red b)
      → Ends
          (λ q m.
            (q ≡ p)
            × Focus nil n m (frame s z kz red b ∷ frame s g kg black u ∷ up) (join s v p kp red a))
          ((rotate s nil p >> done p) m)
  inner_turn m a z kz b u w =
      Ends-continue
        (rotate-Focus s p z kp kz red red v a b (
          subst (Focus nil n m (frame s g kg black u ∷ up))
            (join-other s (join s a z kz red b) p kp red v) (move_up (other s) p kp red w)))
        (λ _ m1 w1. Ends-done (refl, move_down s z kz red w1))
