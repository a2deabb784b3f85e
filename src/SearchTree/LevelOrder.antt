-- ===== src/SearchTree/LevelOrder.antt =====
-- `levelOrderTraversal` of Data-Structures/tests/binary_search_tree.c.
use jungle_data_structures.Prelude.{
  ℕ, zero, suc, ◌≤◌, ◌<◌, ◌≡◌, ◌⊎◌, inl, inr, refl, sym, ap, ◌∙◌, Bool, true, false, List, [], ◌∷◌,
  ◌++◌, ◌==◌, if◌then◌else◌, ne→==, length, max, arith,
}
use mathlib.Core.List.{append_assoc, append-nil}
use jungle_data_structures.Prelude.Int.{ℤ}
use jungle_data_structures.Prelude.Run.{done}
use jungle_data_structures.BinaryTree.Store.{Ptr, null, bt_node, Store, load-done}
use jungle_data_structures.BinaryTree.Trees.{Tree, leaf, branch, top, height, IsTree}
use jungle_data_structures.SearchTree.Queue.{
  Queue, is_empty, enqueue, dequeue, level_round, level_loop, level_order_traversal,
}

-- The items of one level, from left to right.
abbrev pub level : (depth : ℕ) → Tree → List ℤ
level d leaf = []
level zero (branch l x v r) = v ∷ []
level (suc d) (branch l x v r) = level d l ++ level d r

-- Those of `n` levels from a depth on.
abbrev pub levels : (n depth : ℕ) → Tree → List ℤ
levels zero d t = []
levels (suc n) d t = level d t ++ levels n (suc d) t

-- The nodes and the items at the top of each tree, and the trees below.
abbrev tops : List Tree → Queue
tops [] = []
tops (leaf ∷ ts) = tops ts
tops (branch l x v r ∷ ts) = x ∷ tops ts

abbrev below : List Tree → List Tree
below [] = []
below (leaf ∷ ts) = below ts
below (branch l x v r ∷ ts) = l ∷ r ∷ below ts

abbrev level_all : (depth : ℕ) → List Tree → List ℤ
level_all d [] = []
level_all d (t ∷ ts) = level d t ++ level_all d ts

abbrev levels_all : (n depth : ℕ) → List Tree → List ℤ
levels_all zero d ts = []
levels_all (suc n) d ts = level_all d ts ++ levels_all n (suc d) ts

abbrev AreTrees : Store → List Tree → Type 0
AreTrees h [] = Unit
AreTrees h (t ∷ ts) = IsTree h t × AreTrees h ts

abbrev Within : ℕ → List Tree → Type 0
Within n [] = Unit
Within n (t ∷ ts) = (height t ≤ n) × Within n ts

level_all-below : (d : ℕ) (ts : List Tree) → level_all d (below ts) ≡ level_all (suc d) ts
level_all-below d [] = refl
level_all-below d (leaf ∷ ts) = level_all-below d ts
level_all-below d (branch l x v r ∷ ts) =
    ap (λ ys. level d l ++ (level d r ++ ys)) (level_all-below d ts)
    ∙ sym (append_assoc (level d l) (level d r) (level_all (suc d) ts))

levels_all-below : (n d : ℕ) (ts : List Tree) → levels_all n d (below ts) ≡ levels_all n (suc d) ts
levels_all-below zero d ts = refl
levels_all-below (suc n) d ts =
    ap (λ ys. ys ++ levels_all n (suc d) (below ts)) (level_all-below d ts)
    ∙ ap (λ ys. level_all (suc d) ts ++ ys) (levels_all-below n (suc d) ts)

AreTrees-below : (h : Store) (ts : List Tree) → AreTrees h ts → AreTrees h (below ts)
AreTrees-below h [] w = tt
AreTrees-below h (leaf ∷ ts) (wt, w) = AreTrees-below h ts w
AreTrees-below h (branch l x v r ∷ ts) ((nx, e, wl, wr), w) = (wl, (wr, AreTrees-below h ts w))

Within-below : (n : ℕ) (ts : List Tree) → Within (suc n) ts → Within n (below ts)
Within-below n [] w = tt
Within-below n (leaf ∷ ts) (b, w) = Within-below n ts w
Within-below n (branch l x v r ∷ ts) (b, w) =
    let (p, q) = sides (height l) (height r) n b in (p, (q, Within-below n ts w))
  where
    sides : (a b n : ℕ) → suc (max a b) ≤ suc n → (a ≤ n) × (b ≤ n)
    sides a b n le = ground (arith, le)

-- Nothing is printed of trees without nodes.
no_items : (n d : ℕ) (ts : List Tree) → tops ts ≡ [] → levels_all n d ts ≡ []
no_items zero d ts e = refl
no_items (suc n) d ts e =
    ap (λ ys. ys ++ levels_all n (suc d) ts) (none_here d ts e) ∙ no_items n (suc d) ts e
  where
    none_here : (d : ℕ) (ts : List Tree) → tops ts ≡ [] → level_all d ts ≡ []
    none_here d [] e = refl
    none_here d (leaf ∷ ts) e = none_here d ts e
    none_here d (branch l x v r ∷ ts) e = absurd (cc)

no_nodes : (ts : List Tree) → Within 0 ts → tops ts ≡ []
no_nodes [] w = refl
no_nodes (leaf ∷ ts) (b, w) = no_nodes ts w
no_nodes (branch l x v r ∷ ts) (b, w) = absurd (omega (arith, b))

tops-cons : (t : Tree) (ts : List Tree) → tops (t ∷ ts) ≡ tops (t ∷ []) ++ tops ts
tops-cons leaf ts = refl
tops-cons (branch l x v r) ts = refl

module _ (room : Queue → Bool) (ok : (q : Queue) → room q ≡ true) (h : Store) where
  -- A side of a node is put at the end of the queue, if it has nodes.
  abbrev with_side : Queue → Ptr → Queue
  with_side q p = if p == null then q else enqueue room q p

  with_side-tops : (q : Queue) (t : Tree) → IsTree h t → with_side q (top t) ≡ q ++ tops (t ∷ [])
  with_side-tops q leaf w = sym (append-nil q)
  with_side-tops q (branch l x v r) (nx, e, wl, wr) = rw (ne→== x null nx, ok q) refl

  both_sides :
      (l r : Tree) (ts : List Tree) (q : Queue)
      → IsTree h l
      → IsTree h r
      → with_side (with_side (tops ts ++ q) (top l)) (top r)
        ≡ tops ts ++ (q ++ (tops (l ∷ []) ++ tops (r ∷ [])))
  both_sides l r ts q wl wr =
      ap (λ s. with_side s (top r)) (with_side-tops (tops ts ++ q) l wl)
      ∙ with_side-tops ((tops ts ++ q) ++ tops (l ∷ [])) r wr
      ∙ append_assoc (tops ts ++ q) (tops (l ∷ [])) (tops (r ∷ []))
      ∙ append_assoc (tops ts) q (tops (l ∷ []) ++ tops (r ∷ []))

  level_round-tops :
      (ts : List Tree) (q : Queue)
      → AreTrees h ts
      → level_round room (length (tops ts)) (tops ts ++ q) h
        ≡ done (level_all 0 ts, q ++ tops (below ts)) h
  unfolding level_round dequeue
  level_round-tops [] q w = ap (λ s. done ([], s) h) (sym (append-nil q))
  level_round-tops (leaf ∷ ts) q (wt, w) = level_round-tops ts q w
  level_round-tops (branch l x v r ∷ ts) q ((nx, e, wl, wr), w) =
      let kids = tops (l ∷ []) ++ tops (r ∷ []) in
      rw
        (
          load-done h x (bt_node v (top l) (top r)) nx e,
          both_sides l r ts q wl wr,
          level_round-tops ts (q ++ kids) w,
        )
        (ap (λ s. done (v ∷ level_all 0 ts, s) h)
          (append_assoc q kids (tops (below ts))
            ∙ ap (λ s. q ++ s)
                (append_assoc (tops (l ∷ [])) (tops (r ∷ [])) (tops (below ts))
                  ∙ ap (λ s. tops (l ∷ []) ++ s) (sym (tops-cons r (below ts)))
                  ∙ sym (tops-cons l (r ∷ below ts)))))

  level_loop-levels_all :
      (fuel n : ℕ) (ts : List Tree)
      → AreTrees h ts
      → Within n ts
      → n < fuel
      → level_loop room fuel (tops ts) h ≡ done (levels_all n 0 ts) h
  unfolding level_loop
  level_loop-levels_all zero n ts w b lt = absurd (omega (arith, lt))
  level_loop-levels_all (suc fuel) zero ts w b lt = rw (no_nodes ts b) refl
  level_loop-levels_all (suc fuel) (suc n) ts w b lt = elim (nodes_or_none (tops ts)) [
    | inl e ↦ rw (e, no_items (suc n) 0 ts e) refl
    | inr full ↦
        rw
          (
            full,
            whole,
            level_loop-levels_all fuel n (below ts) (AreTrees-below h ts w) (Within-below n ts b)
                (omega (arith, lt)),
          )
          (ap (λ ys. done (level_all 0 ts ++ ys) h) (levels_all-below n 0 ts))
  ]
    where
      nodes_or_none : (q : Queue) → (q ≡ []) ⊎ (is_empty q ≡ false)
      nodes_or_none [] = inl refl
      nodes_or_none (x ∷ q) = inr refl

      whole :
          level_round room (length (tops ts)) (tops ts) h ≡ done (level_all 0 ts, tops (below ts)) h
      whole =
          ap (λ q. level_round room (length (tops ts)) q h) (sym (append-nil (tops ts)))
          ∙ level_round-tops ts [] w

  -- With memory for the queue `levelOrderTraversal` prints the items level by level, each level from
  -- left to right; one round more than the tree is high is enough.
  pub level_order_traversal-levels :
      (fuel : ℕ) (t : Tree)
      → IsTree h t
      → height t < fuel
      → level_order_traversal room fuel (top t) h ≡ done (levels (height t) 0 t) h
  unfolding level_order_traversal
  level_order_traversal-levels fuel leaf w lt = refl
  level_order_traversal-levels fuel (branch l x v r) w lt =
      let t : Tree = branch l x v r in
      rw (ne→== x null w.0, ok [])
        (level_loop-levels_all fuel (height t) (t ∷ []) (w, tt) (omega arith, tt) lt
          ∙ ap (λ ys. done ys h) (one_tree (height t) 0 t))
    where
      one_tree : (n d : ℕ) (t : Tree) → levels_all n d (t ∷ []) ≡ levels n d t
      one_tree zero d t = refl
      one_tree (suc n) d t =
          ap (λ ys. ys ++ levels_all n (suc d) (t ∷ [])) (append-nil (level d t))
          ∙ ap (λ ys. level d t ++ ys) (one_tree n (suc d) t)
