-- ===== src/RbTree/Attach.antt =====
-- The descent of `rbtree_insert` in rbtree-lab/src/rbtree.c, and the link to the new node.
use jungle_data_structures.Prelude.{
  ℕ, zero, suc, ◌≡◌, ◌≢◌, refl, sym, subst, ◌∙◌, inl, inr, Bool-cases, ◌+◌, ◌≤◌, ◌<◌, none, some,
  [], ◌∷◌, arith,
}
use native.Mathlib.Decide.{ℕ_discrete}
use jungle_data_structures.Prelude.Int.{ℤ, ltb_ℤ}
use jungle_data_structures.Prelude.Run.{Ends, Ends-done}
use jungle_data_structures.RbTree.Store.{Ptr, null, red, RbNode, rb_node, Store, write}
use jungle_data_structures.RbTree.Trees.{Tree, leaf, branch, top, height, IsTree}
use jungle_data_structures.RbTree.Change.{left_side, right_side, heap, descend, attach}
use jungle_data_structures.RbTree.Steps.{
  cell_key, with_near, get_then, change_last, write_here, write_ne, same_eq, ne_eq,
}
use jungle_data_structures.RbTree.Zipper.{
  Trail, frame, above, here, count, count_path, here_self, here_ne, ne_here, IsTree-write,
  IsPath-write,
}
use jungle_data_structures.RbTree.Focus.{Focus}
use jungle_data_structures.RbTree.Way.{way, IsAimed}

module _ (nil : Ptr) (n : RbNode) where
  pub unallocated : (h : Store) (z x : Ptr) (d : RbNode) → h z ≡ none → h x ≡ some d → z ≢ x
  unallocated h z x d e at q = cc

  -- No node of the tree stands at an address where nothing is allocated.
  pub fresh : (h : Store) (z p : Ptr) (s : Tree) → h z ≡ none → IsTree h nil p s → count z s ≡ 0
  fresh h z p leaf e w = refl
  fresh h z p (branch l x k c r) e (_, _, at, i, j) =
      omega (arith, fresh h z x l e i, fresh h z x r e j, here_ne x z (unallocated h z x _ e at))

  -- A write at a node that is not in the tree.
  pub Focus-write :
      (h : Store) (r z : Ptr) (c : RbNode) (up : Trail) (t : Tree)
      → z ≢ nil
      → count z t + count_path z up ≡ 0
      → Focus nil n (heap h r) up t
      → Focus nil n (heap (write h z (some c)) r) up t
  Focus-write h r z c up t zn o w = record {
    path = IsPath-write h nil z c r (top nil t) up (omega (arith, o)) w.path;
    tree = IsTree-write h nil z c (above nil up) t (omega (arith, o)) w.tree;
    apart = w.apart;
    sentinel = write_ne h z nil _ (λ e. zn (sym e)) ∙ w.sentinel;
  }

  module _ (z : Ptr) (key : ℤ) (z_null : z ≢ null) where
    pub descend-Ends :
        (fuel : ℕ) (s : Tree) (up : Trail) (h : Store) (r : Ptr) (c : RbNode)
        → c.key ≡ key
        → h z ≡ some c
        → IsTree h nil (above nil up) s
        → height s < fuel
        → Ends
            (λ y m. (y ≡ above nil (way key s up)) × (m ≡ heap h r))
            (descend fuel nil z (top nil s) (above nil up) (heap h r))
    unfolding descend
    descend-Ends zero s up h r c e at w lt = elim (no_fuel lt) [ ]
      where
        no_fuel : {k : ℕ} → k < 0 → ⊥
        no_fuel l = omega (arith, l)
    descend-Ends (suc fuel) leaf up h r c e at w lt =
        rw (same_eq nil nil refl) (Ends-done (refl, refl))
    descend-Ends (suc fuel) (branch a x k d b) up h r c e at (xn, xz, ax, i, j) lt =
        rw (ne_eq x nil xn) (
          get_then h r z z_null c at _ _ key e (
            get_then h r x xz _ ax _ _ k refl (elim (Bool-cases (ltb_ℤ key k)) [
              | inl t ↦ rw t (
                  get_then h r x xz _ ax _ _ (top nil a) refl (
                    descend-Ends fuel a (frame left_side x k d b ∷ up) h r c e at i
                      (omega (arith, lt))))
              | inr f ↦ rw f (
                  get_then h r x xz _ ax _ _ (top nil b) refl (
                    descend-Ends fuel b (frame right_side x k d a ∷ up) h r c e at j
                      (omega (arith, lt))))
            ])))

    -- The new node at the place; its cell is already in memory.
    abbrev IsNew : Store → Trail → Type 0
    IsNew h up = h z ≡ some (rb_node red key (above nil up) nil nil)

    pub attach-Focus :
        (up : Trail) (h : Store) (r : Ptr)
        → z ≢ nil
        → count_path z up ≡ 0
        → IsAimed key up
        → IsNew h up
        → Focus nil n (heap h r) up leaf
        → Ends
            (λ _. λ m. Focus nil n m up (branch leaf z key red leaf))
            (attach nil z (above nil up) (heap h r))
    unfolding attach
    attach-Focus [] h r zn o a new w = rw (same_eq nil nil refl) (
        Ends-done (record {
          path = refl;
          tree = (zn, z_null, new, tt, tt);
          apart = λ q. ground arith;
          sentinel = w.sentinel;
        }))
    attach-Focus (frame s x k c b ∷ up) h r zn o a new w =
        let (xn, xz, at, i, j) = w.path in
        let zx : z ≢ x = ne_here x z (omega (arith, o)) in
        rw (ne_eq x nil xn) (
          get_then h r z z_null _ new _ _ key refl (
            get_then h r x xz _ at _ _ k (cell_key c k _ _ _ s) (
              rw a (
                change_last h r x xz _ at _ _ (with_near c k _ _ _ s z) (record {
                  path = (
                    xn,
                    xz,
                    write_here h x _,
                    IsTree-write h nil x _ x b (omega (arith, w.apart x, here_self x)) i,
                    IsPath-write h nil x _ r x up (omega (arith, w.apart x, here_self x)) j,
                  );
                  tree = (zn, z_null, write_ne h x z _ zx ∙ new, tt, tt);
                  apart = λ q. omega (arith, once q (omega (arith, w.apart q)) o);
                  sentinel = write_ne h x nil _ (λ e. xn (sym e)) ∙ w.sentinel;
                })))))
      where
        once :
            (q : Ptr)
            → count_path q (frame s x k c b ∷ up) ≤ 1
            → count_path z (frame s x k c b ∷ up) ≡ 0
            → here z q + count_path q (frame s x k c b ∷ up) ≤ 1
        once q l o = elim (ℕ_discrete q z) [
          | yes e ↦
              subst (λ q. here z q + count_path q (frame s x k c b ∷ up) ≤ 1) (sym e)
                (omega (arith, here_self z, o))
          | no ne ↦ omega (arith, here_ne z q ne, l)
        ]
