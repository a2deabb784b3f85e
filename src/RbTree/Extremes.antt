-- ===== src/RbTree/Extremes.antt =====
-- `rbtree_min` and `rbtree_max` of rbtree-lab/src/rbtree.c.
use jungle_data_structures.Prelude.{
  ℕ, zero, suc, ◌<◌, ◌≡◌, ◌≢◌, refl, sym, ◌∙◌, subst, inl, inr, some, ne→==, eq→==, arith,
}
use jungle_data_structures.Prelude.Int.{ℤ, ◌≤ℤ◌}
use jungle_data_structures.Prelude.Run.{done}
use jungle_data_structures.RbTree.Store.{Ptr, Color, rb_node, Store, load-done}
use jungle_data_structures.RbTree.Defs.{RbTree, min_loop, rbtree_min, max_loop, rbtree_max}
use jungle_data_structures.RbTree.Trees.{
  Tree, leaf, branch, height, top, IsTree, Holds, All, IsOrdered, HasNode, All-map,
}

-- A node of the tree with a key that is not above any other, or not below any other.
abbrev pub Least : Tree → Ptr → Type 0
Least s y = (k : ℤ) × HasNode y k s × All (λ a. k ≤ℤ a) s

abbrev pub Greatest : Tree → Ptr → Type 0
Greatest s y = (k : ℤ) × HasNode y k s × All (λ a. a ≤ℤ k) s

refl_ℤ : (a : ℤ) → a ≤ℤ a
refl_ℤ a = omega arith

trans_ℤ : (a b c : ℤ) → a ≤ℤ b → b ≤ℤ c → a ≤ℤ c
trans_ℤ a b c p q = omega arith

-- A key of a part of a tree is bounded as all keys of it are.
All-HasNode : (P : ℤ → Type 0) (s : Tree) (y : Ptr) (k : ℤ) → All P s → HasNode y k s → P k
All-HasNode P leaf y k a i = elim i [ ]
All-HasNode P (branch l x m c r) y k (p, al, ar) (inl i) = All-HasNode P l y k al i
All-HasNode P (branch l x m c r) y k (p, al, ar) (inr (inl (e, q))) = subst P (sym q) p
All-HasNode P (branch l x m c r) y k (p, al, ar) (inr (inr i)) = All-HasNode P r y k ar i

module _ (h : Store) (t : RbTree) where
  min_loop-Least :
      (fuel : ℕ) (p : Ptr) (l r : Tree) (x : Ptr) (k : ℤ) (c : Color)
      → IsTree h t.nil p (branch l x k c r)
      → IsOrdered (branch l x k c r)
      → height l < fuel
      → (y : Ptr) × (min_loop fuel t x h ≡ done y h) × Least (branch l x k c r) y
  unfolding min_loop
  min_loop-Least zero p l r x k c w o lt = ground arith
  min_loop-Least (suc fuel) p leaf r x k c (nn, nx, e, wl, wr) (bl, br, ol, or) lt = (
    x,
    rw (load-done h x (rb_node c k p t.nil (top t.nil r)) nx e, eq→== t.nil t.nil refl) refl,
    (k, inr (inl (refl, refl)), (refl_ℤ k, tt, br)),
  )
  min_loop-Least (suc fuel) p (branch a z m d b) r x k c (nn, nx, e, wl, wr) (bl, br, ol, or) lt =
      let (y, run, (n, i, low)) = min_loop-Least fuel x a b z m d wl ol (omega arith) in
      let nk : n ≤ℤ k = All-HasNode (λ q. q ≤ℤ k) (branch a z m d b) y n bl i in
      (
        y,
        rw (load-done h x (rb_node c k p z (top t.nil r)) nx e, ne→== z t.nil wl.0) run,
        (n, inl i, (nk, low, All-map r (λ q s. trans_ℤ n k q nk s) br)),
      )

  max_loop-Greatest :
      (fuel : ℕ) (p : Ptr) (r l : Tree) (x : Ptr) (k : ℤ) (c : Color)
      → IsTree h t.nil p (branch l x k c r)
      → IsOrdered (branch l x k c r)
      → height r < fuel
      → (y : Ptr) × (max_loop fuel t x h ≡ done y h) × Greatest (branch l x k c r) y
  unfolding max_loop
  max_loop-Greatest zero p r l x k c w o lt = ground arith
  max_loop-Greatest (suc fuel) p leaf l x k c (nn, nx, e, wl, wr) (bl, br, ol, or) lt = (
    x,
    rw (load-done h x (rb_node c k p (top t.nil l) t.nil) nx e, eq→== t.nil t.nil refl) refl,
    (k, inr (inl (refl, refl)), (refl_ℤ k, bl, tt)),
  )
  max_loop-Greatest (suc fuel) p (branch a z m d b) l x k c (nn, nx, e, wl, wr) (bl, br, ol, or)
        lt =
      let (y, run, (n, i, up)) = max_loop-Greatest fuel x b a z m d wr or (omega arith) in
      let kn : k ≤ℤ n = All-HasNode (λ q. k ≤ℤ q) (branch a z m d b) y n br i in
      (
        y,
        rw (load-done h x (rb_node c k p (top t.nil l) z) nx e, ne→== z t.nil wr.0) run,
        (n, inr (inr i), (kn, All-map l (λ q s. trans_ℤ q k n s kn) bl, up)),
      )

  module _ (fuel : ℕ) (l r : Tree) (x : Ptr) (k : ℤ) (c : Color) (w : Holds h t (branch l x k c r))
      (o : IsOrdered (branch l x k c r)) (lt : height (branch l x k c r) < fuel) where
    not_nil : t.root ≢ t.nil
    not_nil = λ e. w.nodes.0 (sym w.root ∙ e)

    -- In an ordered tree with nodes `rbtree_min` returns one with a least key, and `rbtree_max` one
    -- with a greatest; one round more than the tree is high is enough.
    pub rbtree_min-Least :
        ((y : Ptr) × (rbtree_min fuel (some t) h ≡ done y h) × Least (branch l x k c r) y)
        × ((z : Ptr) × (rbtree_max fuel (some t) h ≡ done z h) × Greatest (branch l x k c r) z)
    unfolding rbtree_min rbtree_max
    rbtree_min-Least =
        let (y, low, a) = min_loop-Least fuel t.nil l r x k c w.nodes o (omega arith) in
        let (z, up, b) = max_loop-Greatest fuel t.nil r l x k c w.nodes o (omega arith) in
        let low2 : min_loop fuel t t.root h ≡ done y h =
          subst (λ q. min_loop fuel t q h ≡ done y h) (sym w.root) low in
        let up2 : max_loop fuel t t.root h ≡ done z h =
          subst (λ q. max_loop fuel t q h ≡ done z h) (sym w.root) up in
        ((y, rw (ne→== t.root t.nil not_nil) low2, a), (z, rw (ne→== t.root t.nil not_nil) up2, b))
