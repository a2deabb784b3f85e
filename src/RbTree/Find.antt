-- ===== src/RbTree/Find.antt =====
-- `rbtree_find` of rbtree-lab/src/rbtree.c.
use jungle_data_structures.Prelude.{
  ℕ, zero, suc, ◌<◌, ◌≡◌, refl, sym, ◌∙◌, subst, true, false, ◌⊎◌, inl, inr, Bool-cases, some,
  ne→==, eq→==, arith,
}
use jungle_data_structures.Prelude.Int.{ℤ, ◌≤ℤ◌, ltb_ℤ, eqb_ℤ, eqb_ℤ→eq}
use jungle_data_structures.Prelude.Run.{done}
use jungle_data_structures.RbTree.Store.{Ptr, Color, rb_node, Store, load-done}
use jungle_data_structures.RbTree.Defs.{RbTree, find_loop, rbtree_find}
use jungle_data_structures.RbTree.Trees.{
  Tree, leaf, branch, height, top, IsTree, Holds, All, IsOrdered, HasNode, All-map,
}

-- The answer to a search: a node with the key, or `t->nil` where no node has it.
abbrev pub Answer : RbTree → Tree → ℤ → Ptr → Type 0
Answer t s key y = HasNode y key s ⊎ ((y ≡ t.nil) × All (λ a. eqb_ℤ a key ≡ false) s)

ne_right : (key k a : ℤ) → ltb_ℤ key k ≡ true → k ≤ℤ a → eqb_ℤ a key ≡ false
ne_right key k a p q = ground arith

ne_left : (key k a : ℤ) → ltb_ℤ key k ≡ false → eqb_ℤ k key ≡ false → a ≤ℤ k → eqb_ℤ a key ≡ false
ne_left key k a p o q = ground arith

module _ (t : RbTree) (key : ℤ) (l r : Tree) (x : Ptr) (k : ℤ) (c : Color) (y : Ptr) where
  Answer-left :
      eqb_ℤ k key ≡ false
      → ltb_ℤ key k ≡ true
      → All (λ a. k ≤ℤ a) r
      → Answer t l key y
      → Answer t (branch l x k c r) key y
  Answer-left o b br (inl i) = inl (inl i)
  Answer-left o b br (inr (e, out)) = inr (e, (o, out, All-map r (λ a q. ne_right key k a b q) br))

  Answer-right :
      eqb_ℤ k key ≡ false
      → ltb_ℤ key k ≡ false
      → All (λ a. a ≤ℤ k) l
      → Answer t r key y
      → Answer t (branch l x k c r) key y
  Answer-right o b bl (inl i) = inl (inr (inr i))
  Answer-right o b bl (inr (e, out)) =
      inr (e, (o, All-map l (λ a q. ne_left key k a b o q) bl, out))

module _ (h : Store) (t : RbTree) (key : ℤ) where
  find_loop-Answer :
      (fuel : ℕ) (p : Ptr) (s : Tree)
      → IsTree h t.nil p s
      → IsOrdered s
      → height s < fuel
      → (y : Ptr) × (find_loop fuel t key (top t.nil s) h ≡ done y h) × Answer t s key y
  unfolding find_loop
  find_loop-Answer zero p s w o lt = ground arith
  find_loop-Answer (suc fuel) p leaf w o lt =
      (t.nil, rw (eq→== t.nil t.nil refl) refl, inr (refl, tt))
  find_loop-Answer (suc fuel) p (branch l x k c r) (nn, nx, e, wl, wr) (bl, br, ol, or) lt =
      elim (Bool-cases (eqb_ℤ k key)) [
        | inl same ↦ (
          x,
          rw
              (
                ne→== x t.nil nn,
                load-done h x (rb_node c k p (top t.nil l) (top t.nil r)) nx e,
                same,
              )
              refl,
          inl (inr (inl (refl, sym (eqb_ℤ→eq k key same)))),
        )
        | inr other ↦ elim (Bool-cases (ltb_ℤ key k)) [
          | inl below ↦
              let (y, run, a) = find_loop-Answer fuel x l wl ol (omega arith) in
              (
                y,
                rw
                    (
                      ne→== x t.nil nn,
                      load-done h x (rb_node c k p (top t.nil l) (top t.nil r)) nx e,
                      other,
                      below,
                    )
                    run,
                Answer-left t key l r x k c y other below br a,
              )
          | inr above ↦
              let (y, run, a) = find_loop-Answer fuel x r wr or (omega arith) in
              (
                y,
                rw
                    (
                      ne→== x t.nil nn,
                      load-done h x (rb_node c k p (top t.nil l) (top t.nil r)) nx e,
                      other,
                      above,
                    )
                    run,
                Answer-right t key l r x k c y other above bl a,
              )
        ]
      ]

  -- In an ordered tree `rbtree_find` returns a node with the key, or `t->nil` if no node has it;
  -- one round more than the tree is high is enough.
  pub rbtree_find-Answer :
      (fuel : ℕ) (s : Tree)
      → Holds h t s
      → IsOrdered s
      → height s < fuel
      → (y : Ptr) × (rbtree_find fuel (some t) key h ≡ done y h) × Answer t s key y
  unfolding rbtree_find
  rbtree_find-Answer fuel leaf w o lt = (t.nil, rw (eq→== t.root t.nil w.root) refl, inr (refl, tt))
  rbtree_find-Answer fuel (branch l x k c r) w o lt =
      let (y, run, a) = find_loop-Answer fuel t.nil (branch l x k c r) w.nodes o lt in
      let below : find_loop fuel t key t.root h ≡ done y h =
        subst (λ q. find_loop fuel t key q h ≡ done y h) (sym w.root) run in
      (y, rw (ne→== t.root t.nil (λ e. w.nodes.0 (sym w.root ∙ e))) below, a)
