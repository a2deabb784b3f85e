-- ===== src/RbTree/Ready.antt =====
-- What holds at the head of the loop of `rbtree_fixup` in rbtree-lab/src/rbtree.c, and after a round.
use jungle_data_structures.Prelude.{
  ap, ℕ, suc, ◌≡◌, refl, sym, subst, ◌∙◌, ◌+◌, ◌<◌, List, ◌∷◌, length, arith,
}
use jungle_data_structures.Prelude.Int.{ℤ}
use jungle_data_structures.Prelude.Run.{Ends, Ends-map, Ends-continue}
use jungle_data_structures.RbTree.Store.{Ptr, red, black, RbNode}
use jungle_data_structures.RbTree.Trees.{Tree, branch, top}
use jungle_data_structures.RbTree.Change.{Side, other, Heap, fixup_turn}
use jungle_data_structures.RbTree.Steps.{child_near, child_far, get_then, same_eq, ne_eq}
use jungle_data_structures.RbTree.Zipper.{
  Trail, frame, plug, join, count, count-join, here_self, IsTree-parts, top-join, top_ne,
}
use jungle_data_structures.RbTree.Focus.{Focus, items, items-plug, join-other}
use jungle_data_structures.RbTree.RedBlack.{
  tone, IsRb, IsRbPath, IsRb-black, IsRb-red, IsRb-parts, tone-join,
}
use jungle_data_structures.RbTree.Round.{
  items-join, items-turn, outer_uncle, outer_from, inner_turn,
}

-- The red node `z` may stand below a red node; all else is balanced. `ks` are the nodes of the tree.
pub record Ready (nil : Ptr) (n : RbNode) (ks : List (Ptr × ℤ)) (h : ℕ) (up : Trail) (z : Ptr)
    (m : Heap) : Type 0 where
  pub side : Side
  pub near : Tree
  pub far : Tree
  pub key : ℤ
  pub focus : Focus nil n m up (join side near z key red far)
  pub sound : IsRb h (join side near z key red far)
  pub around : IsRbPath h up
  pub same : items (plug up (join side near z key red far)) ≡ ks

-- `z` is higher by at least one node than `bound`.
pub record Next (nil : Ptr) (n : RbNode) (ks : List (Ptr × ℤ)) (bound : ℕ) (z : Ptr) (m : Heap)
    : Type 0 where
  pub height : ℕ
  pub trail : Trail
  pub ready : Ready nil n ks height trail z m
  pub higher : length trail < bound

module _ (nil : Ptr) (n : RbNode) (ks : List (Ptr × ℤ)) (h : ℕ) (s : Side) (p g : Ptr) (kp kg : ℤ)
    (v : Tree) (up : Trail) (tone_v : tone v ≡ black) (sound_v : IsRb h v) where
  pub after_red :
      (r : Side) (ul : Tree) (y : Ptr) (ky : ℤ) (ur : Tree) (t : Tree) (z : Ptr) (m : Heap)
      → IsRb h t
      → IsRb h (branch ul y ky red ur)
      → IsRbPath (suc h) up
      → items (plug (frame r p kp red v ∷ frame s g kg black (branch ul y ky red ur) ∷ up) t) ≡ ks
      → (z ≡ g)
        × Focus nil n m up (join s (join r t p kp black v) g kg red (branch ul y ky black ur))
      → Next nil n ks (2 + length up) z m
  after_red r ul y ky ur t z m i (_, _, j, k) around same (e, w) =
      subst (λ z. Next nil n ks (2 + length up) z m) (sym e)
        (record {
          height = suc h;
          trail = up;
          ready = record {
            side = s;
            near = join r t p kp black v;
            far = branch ul y ky black ur;
            key = kg;
            focus = w;
            sound =
                IsRb-red g kg (join r t p kp black v) (branch ul y ky black ur) s (suc h)
                  (tone-join p kp t v r black) refl (IsRb-black p kp t v r h i sound_v) (j, k);
            around = around;
            same =
                items-plug up _ _ (
                  items-join s g kg red black (join r t p kp black v) (branch ul y ky black ur)
                    (join r t p kp red v) (branch ul y ky red ur)
                    (items-join r p kp black red t v t v refl refl) refl)
                ∙ same;
          };
          higher = omega arith;
        })

  after_outer :
      (u : Tree) (r : Side) (a b : Tree) (z : Ptr) (kz : ℤ) (q : Ptr) (m : Heap)
      → tone u ≡ black
      → IsRb h u
      → IsRb h (join r a z kz red b)
      → IsRbPath (suc h) up
      → items (plug up (join s (join s (join r a z kz red b) p kp red v) g kg black u)) ≡ ks
      → (q ≡ z)
        × Focus nil n m (frame s p kp black (join s v g kg red u) ∷ up) (join r a z kz red b)
      → Next nil n ks (2 + length up) q m
  after_outer u r a b z kz q m tone_u sound_u i around same (e, w) =
      subst (λ z. Next nil n ks (2 + length up) z m) (sym e)
        (record {
          height = h;
          trail = frame s p kp black (join s v g kg red u) ∷ up;
          ready = record {
            side = r;
            near = a;
            far = b;
            key = kz;
            focus = w;
            sound = i;
            around = (IsRb-red g kg v u s h tone_v tone_u sound_v sound_u, around);
            same =
                items-plug up _ _
                  (sym (items-turn s p g kp kg red black black red (join r a z kz red b) v u))
                ∙ same;
          };
          higher = omega arith;
        })

module _ (nil : Ptr) (n : RbNode) (ks : List (Ptr × ℤ)) (h : ℕ) (s : Side) (p g : Ptr) (kp kg : ℤ)
    (v : Tree) (up : Trail) (tone_v : tone v ≡ black) (sound_v : IsRb h v) (z : Ptr) (kz : ℤ)
    (a b u : Tree) (tone_u : tone u ≡ black) (sound_u : IsRb h u)
    (sound : IsRb h (join s a z kz red b)) (around : IsRbPath (suc h) up) (m : Heap) where
  pub turn_outer :
      Focus nil n m (frame s p kp red v ∷ frame s g kg black u ∷ up) (join s a z kz red b)
      → items (plug up (join s (join s (join s a z kz red b) p kp red v) g kg black u)) ≡ ks
      → Ends (λ q m. Next nil n ks (2 + length up) q m) (fixup_turn s nil z p m)
  unfolding fixup_turn
  turn_outer w same =
      let (pn, pz, at_p, _, _) = w.path in
      let (zn, _, _, _, _) = IsTree-parts m.nodes nil p a z kz red b s w.tree in
      get_then m.nodes m.root p pz _ at_p _ _ (top nil v) (child_far red kp g _ _ s) (
        rw (ne_eq z (top nil v) (λ e. top_ne nil z v zn (apart_z w) (sym e))) (
          Ends-map (outer_uncle nil n s p g kp kg v up m s a z kz b u w) (λ q m.
            after_outer nil n ks h s p g kp kg v up tone_v sound_v u s a b z kz q m tone_u sound_u
              sound around same)))
    where
      apart_z :
          Focus nil n m (frame s p kp red v ∷ frame s g kg black u ∷ up) (join s a z kz red b)
          → count z v ≡ 0
      apart_z w = omega (arith, w.apart z, count-join z s a z kz red b, here_self z)

  pub turn_inner :
      Focus nil n m (frame (other s) p kp red v ∷ frame s g kg black u ∷ up) (join s a z kz red b)
      → items (plug up (join s (join (other s) (join s a z kz red b) p kp red v) g kg black u)) ≡ ks
      → Ends (λ q m. Next nil n ks (2 + length up) q m) (fixup_turn s nil z p m)
  unfolding fixup_turn
  turn_inner w same =
      let (pn, pz, at_p, _, _) = w.path in
      let (tone_a, tone_b, sound_a, sound_b) = IsRb-parts z kz a b s h sound in
      get_then m.nodes m.root p pz _ at_p _ _ z
        (child_near red kp g _ _ (other s) ∙ top-join m.nodes nil z a z kz red b s)
        (rw (same_eq z z refl) (
          Ends-continue (inner_turn nil n s p g kp kg v up m a z kz b u w) (λ q m1 (e, w1).
            Ends-map (outer_from nil n s z g kz kg b up m1 s v p kp a u q e w1) (λ q m.
              after_outer nil n ks h s z g kz kg b up tone_b sound_b u s v a p kp q m tone_u sound_u
                (IsRb-red p kp v a s h tone_v tone_a sound_v sound_a) around (same_nodes ∙ same)))))
    where
      same_nodes :
          items (plug up (join s (join s (join s v p kp red a) z kz red b) g kg black u))
          ≡ items (plug up (join s (join (other s) (join s a z kz red b) p kp red v) g kg black u))
      same_nodes = items-plug up _ _ (
          items-join s g kg black black _ _ _ _
            (items-turn s p z kp kz red red red red v a b
              ∙ ap items (sym (join-other s (join s a z kz red b) p kp red v)))
            refl)
