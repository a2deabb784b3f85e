-- ===== src/RbTree/FixupLoop.antt =====
-- The loop of `rbtree_fixup` of rbtree-lab/src/rbtree.c, and the root that it makes black.
use jungle_data_structures.Prelude.{
  ℕ, zero, suc, ◌≡◌, ◌≢◌, refl, sym, subst, ◌<◌, List, [], ◌∷◌, length, arith,
}
use jungle_data_structures.Prelude.Int.{ℤ}
use jungle_data_structures.Prelude.Run.{Ends, Ends-done, Ends-continue, ◌>>=◌}
use jungle_data_structures.RbTree.Store.{Ptr, null, Color, red, black, RbNode}
use jungle_data_structures.RbTree.Trees.{Tree, leaf, branch, top}
use jungle_data_structures.RbTree.Change.{
  left_side, Heap, set_color, fixup_round, fixup_loop, rbtree_fixup,
}
use jungle_data_structures.RbTree.Steps.{cell_parent, cell_color, get_then, change_last}
use jungle_data_structures.RbTree.Zipper.{
  Trail, frame, above, plug, join, here_self, IsTree-parts, top_ne,
}
use jungle_data_structures.RbTree.Focus.{Focus, items, recolor}
use jungle_data_structures.RbTree.RedBlack.{
  tone, IsRb, IsRb-black, IsRb-plug, tone-join, red_not_black,
}
use jungle_data_structures.RbTree.Ready.{Ready}
use jungle_data_structures.RbTree.Fixup.{Fixed, move_top, side_then, fixup_round-Next}

-- A red-black tree in memory whose nodes are `ks`.
pub record Balanced (nil : Ptr) (n : RbNode) (ks : List (Ptr × ℤ)) (m : Heap) : Type 0 where
  pub height : ℕ
  pub tree : Tree
  pub focus : Focus nil n m [] tree
  pub sound : IsRb height tree
  pub dark_root : tone tree ≡ black
  pub same : items tree ≡ ks

module _ (nil : Ptr) (n : RbNode) (nil_null : nil ≢ null) (dark : n.color ≡ black)
    (ks : List (Ptr × ℤ)) where
  fixup_loop-Fixed :
      (fuel h : ℕ) (up : Trail) (z : Ptr) (m : Heap)
      → Ready nil n ks h up z m
      → length up < fuel
      → Ends (λ _. λ m. Fixed nil n ks m) (fixup_loop fuel nil z m)
  unfolding fixup_loop
  fixup_loop-Fixed zero h up z m w lt = elim (no_fuel lt) [ ]
    where
      no_fuel : {k : ℕ} → k < 0 → ⊥
      no_fuel l = omega (arith, l)
  fixup_loop-Fixed (suc fuel) h [] z m w lt =
      let (zn, zz, at_z, _, _) =
        IsTree-parts m.nodes nil nil w.near z w.key red w.far w.side w.focus.tree in
      get_then m.nodes m.root z zz _ at_z _ _ nil (cell_parent red w.key nil _ _ w.side) (
        get_then m.nodes m.root nil nil_null n w.focus.sentinel _ _ black dark (
          Ends-done (record {
            height = h;
            tree = join w.side w.near z w.key red w.far;
            focus = w.focus;
            sound = w.sound;
            same = w.same;
          })))
  fixup_loop-Fixed (suc fuel) h (frame s p k black b ∷ up) z m w lt =
      let t = join w.side w.near z w.key red w.far in
      let (zn, zz, at_z, _, _) =
        IsTree-parts m.nodes nil p w.near z w.key red w.far w.side w.focus.tree in
      let (pn, pz, at_p, _, _) = w.focus.path in
      let (sound_b, around) = w.around in
      let (height, _, sound) =
        IsRb-plug up (suc h) (join s t p k black b) around (tone-join p k t b s black)
          (IsRb-black p k t b s h w.sound sound_b) in
      get_then m.nodes m.root z zz _ at_z _ _ p (cell_parent red w.key p _ _ w.side) (
        get_then m.nodes m.root p pz _ at_p _ _ black (cell_color black k _ _ _ s) (
          Ends-done (record {
            height = height;
            tree = plug (frame s p k black b ∷ up) t;
            focus = move_top (frame s p k black b ∷ up) t w.focus;
            sound = sound;
            same = w.same;
          })))
  fixup_loop-Fixed (suc fuel) h (frame r p k red v ∷ []) z m w lt =
      let (_, _, e, _) = w.around in elim (red_not_black e) [ ]
  fixup_loop-Fixed (suc fuel) h (frame r p k red v ∷ frame s g l red u ∷ up) z m w lt =
      let (_, _, e, _) = w.around in elim (red_not_black e) [ ]
  fixup_loop-Fixed (suc fuel) h (frame r p k red v ∷ frame s g l black u ∷ up) z m w lt =
      let (zn, zz, at_z, _, _) =
        IsTree-parts m.nodes nil p w.near z w.key red w.far w.side w.focus.tree in
      let (pn, pz, at_p, _, (gn, gz, at_g, _, _)) = w.focus.path in
      let (tone_v, sound_v, _, (sound_u, around)) = w.around in
      get_then m.nodes m.root z zz _ at_z _ _ p (cell_parent red w.key p _ _ w.side) (
        get_then m.nodes m.root p pz _ at_p _ _ red (cell_color red k _ _ _ r) (
          get_then m.nodes m.root p pz _ at_p _ _ g (cell_parent red k g _ _ r) (
            side_then m.nodes m.root g gz black l (above nil up) p (top nil u)
              (top_ne nil p u pn (omega (arith, w.focus.apart p, here_self p)))
              (λ s. fixup_round s nil z >>= λ z. fixup_loop fuel nil z) s at_g
              (Ends-continue
                (fixup_round-Next nil n nil_null dark ks h p g k l v up tone_v sound_v around z m r
                  s u sound_u w)
                (λ z m next.
                  fixup_loop-Fixed fuel next.height next.trail z m next.ready
                    (omega (arith, next.higher, lt)))))))

  module _ (m : Heap) (x : Ptr) (k : ℤ) (l r : Tree) where
    blackened :
        (h : ℕ) (c : Color)
        → Focus nil n m [] (branch l x k c r)
        → IsRb h (branch l x k c r)
        → items (branch l x k c r) ≡ ks
        → Ends (λ _. λ m. Balanced nil n ks m) (set_color m.root black m)
    blackened h c w sound same =
        let (xn, xz, at, _, _) = w.tree in
        subst (λ p. Ends (λ _. λ m. Balanced nil n ks m) (set_color p black m)) (sym w.path)
          (change_last m.nodes m.root x xz _ at _ _ refl
            (now (blacken h c sound) (recolor left_side x k c black l r w)))
      where
        blacken :
            (h : ℕ) (c : Color)
            → IsRb h (branch l x k c r)
            → (i : ℕ) × IsRb i (branch l x k black r)
        blacken (suc h) black i = (suc h, i)
        blacken zero black i = elim i [ ]
        blacken h red (_, _, i, j) = (suc h, (i, j))

        now :
            {m : Heap}
            → (i : ℕ) × IsRb i (branch l x k black r)
            → Focus nil n m [] (branch l x k black r)
            → Balanced nil n ks m
        now (i, j) f = record {
          height = i;
          tree = branch l x k black r;
          focus = f;
          sound = j;
          dark_root = refl;
          same = same;
        }

  pub rbtree_fixup-Balanced :
      (fuel h : ℕ) (up : Trail) (z : Ptr) (m : Heap)
      → [] ≢ ks
      → Ready nil n ks h up z m
      → length up < fuel
      → Ends (λ _. λ m. Balanced nil n ks m) (rbtree_fixup fuel nil z m)
  unfolding rbtree_fixup
  rbtree_fixup-Balanced fuel h up z m some_node w lt =
      Ends-continue (fixup_loop-Fixed fuel h up z m w lt)
        (λ _ m v. end m v.height v.tree v.focus v.sound v.same)
    where
      end :
          (m : Heap) (h : ℕ) (t : Tree)
          → Focus nil n m [] t
          → IsRb h t
          → items t ≡ ks
          → Ends (λ _. λ m. Balanced nil n ks m) (set_color m.root black m)
      end m h leaf f i e = elim (some_node e) [ ]
      end m h (branch l x k c r) f i e = blackened m x k l r h c f i e
