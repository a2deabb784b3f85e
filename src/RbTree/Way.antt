-- ===== src/RbTree/Way.antt =====
-- The way that `rbtree_insert` of rbtree-lab/src/rbtree.c goes down, and the tree with one node more.
use jungle_data_structures.Prelude.{
  ℕ, zero, suc, ◌≡◌, ◌≢◌, ◌⊎◌, inl, inr, refl, sym, subst, ◌∙◌, ap, true, false, Bool-cases,
  if◌then◌else◌, ◌+◌, ◌≤◌, List, [], ◌∷◌, ◌++◌, length, arith,
}
use mathlib.Core.List.{append_assoc}
use jungle_data_structures.Prelude.Int.{ℤ, ltb_ℤ, ◌≤ℤ◌}
use jungle_data_structures.RbTree.Store.{Ptr, Color, red, black, RbNode}
use jungle_data_structures.RbTree.Trees.{Tree, leaf, branch, height, IsOrdered, All}
use jungle_data_structures.RbTree.Change.{left_side, right_side, Heap}
use jungle_data_structures.RbTree.Zipper.{Trail, frame, plug, count, count_path}
use jungle_data_structures.RbTree.Focus.{Focus, items, move_down}
use jungle_data_structures.RbTree.RedBlack.{tone, hue, IsRb, IsRbPath}

-- The path down to the place of a new key.
abbrev pub way : ℤ → Tree → Trail → Trail
way key leaf up = up
way key (branch l x k c r) up =
    let low = way key l (frame left_side x k c r ∷ up) in
    let high = way key r (frame right_side x k c l ∷ up) in if ltb_ℤ key k then low else high

-- The tree with a red node at that place.
abbrev pub put_node : Ptr → ℤ → Tree → Tree
put_node z key leaf = branch leaf z key red leaf
put_node z key (branch l x k c r) =
    let low = put_node z key l in
    let high = put_node z key r in if ltb_ℤ key k then branch low x k c r else branch l x k c high

-- One item more, before the first one with a greater key.
abbrev pub insert_item : Ptr → ℤ → List (Ptr × ℤ) → List (Ptr × ℤ)
insert_item z key [] = (z, key) ∷ []
insert_item z key ((x, k) ∷ xs) =
    let rest = insert_item z key xs in if ltb_ℤ key k then (z, key) ∷ (x, k) ∷ xs else (x, k) ∷ rest

-- The node above the place has it at the side to which `key` belongs.
abbrev pub IsAimed : ℤ → Trail → Type 0
IsAimed key [] = Unit
IsAimed key (frame s x k c b ∷ up) = (if ltb_ℤ key k then left_side else right_side) ≡ s

module _ (key : ℤ) where
  pub way-IsAimed : (s : Tree) (up : Trail) → IsAimed key up → IsAimed key (way key s up)
  way-IsAimed leaf up a = a
  way-IsAimed (branch l x k c r) up a = elim (Bool-cases (ltb_ℤ key k)) [
    | inl t ↦ rw t (way-IsAimed l (frame left_side x k c r ∷ up) (rw t refl))
    | inr f ↦ rw f (way-IsAimed r (frame right_side x k c l ∷ up) (rw f refl))
  ]

  pub length-way : (s : Tree) (up : Trail) → length (way key s up) ≤ height s + length up
  length-way leaf up = omega arith
  length-way (branch l x k c r) up = elim (Bool-cases (ltb_ℤ key k)) [
    | inl t ↦ rw t (omega (arith, length-way l (frame left_side x k c r ∷ up)))
    | inr f ↦ rw f (omega (arith, length-way r (frame right_side x k c l ∷ up)))
  ]

  pub plug-way :
      (z : Ptr) (s : Tree) (up : Trail)
      → plug (way key s up) (branch leaf z key red leaf) ≡ plug up (put_node z key s)
  plug-way z leaf up = refl
  plug-way z (branch l x k c r) up = elim (Bool-cases (ltb_ℤ key k)) [
    | inl t ↦ rw t (plug-way z l (frame left_side x k c r ∷ up))
    | inr f ↦ rw f (plug-way z r (frame right_side x k c l ∷ up))
  ]

  pub count-way :
      (q : Ptr) (s : Tree) (up : Trail) → count_path q (way key s up) ≡ count q s + count_path q up
  count-way q leaf up = omega arith
  count-way q (branch l x k c r) up = elim (Bool-cases (ltb_ℤ key k)) [
    | inl t ↦ rw t (omega (arith, count-way q l (frame left_side x k c r ∷ up)))
    | inr f ↦ rw f (omega (arith, count-way q r (frame right_side x k c l ∷ up)))
  ]

  pub way-Focus :
      {nil : Ptr} {n : RbNode} {m : Heap} (s : Tree) (up : Trail)
      → Focus nil n m up s
      → Focus nil n m (way key s up) leaf
  way-Focus leaf up w = w
  way-Focus (branch l x k c r) up w = elim (Bool-cases (ltb_ℤ key k)) [
    | inl t ↦ rw t (way-Focus l (frame left_side x k c r ∷ up) (move_down left_side x k c w))
    | inr f ↦ rw f (way-Focus r (frame right_side x k c l ∷ up) (move_down right_side x k c w))
  ]

  -- A red node may stand at the place, but for a red parent.
  pub way-IsRbPath :
      (s : Tree) (h : ℕ) (up : Trail)
      → IsRb h s
      → IsRbPath h up
      → (tone s ≡ black) ⊎ (hue up ≡ black)
      → IsRbPath 0 (way key s up)
  way-IsRbPath leaf h up e w b = subst (λ h. IsRbPath h up) e w
  way-IsRbPath (branch l x k black r) zero up i w b = elim i [ ]
  way-IsRbPath (branch l x k black r) (suc h) up (i, j) w b = elim (Bool-cases (ltb_ℤ key k)) [
    | inl t ↦ rw t (way-IsRbPath l h (frame left_side x k black r ∷ up) i (j, w) (inr refl))
    | inr f ↦ rw f (way-IsRbPath r h (frame right_side x k black l ∷ up) j (i, w) (inr refl))
  ]
  way-IsRbPath (branch l x k red r) h up (p, q, i, j) w (inl e) = elim (red_not e) [ ]
    where
      red_not : ◌≡◌ {A = Color} red black → ⊥
      red_not e = subst (λ c. elim c [ red ↦ Unit {0} | black ↦ ⊥ ]) e tt
  way-IsRbPath (branch l x k red r) h up (p, q, i, j) w (inr e) = elim (Bool-cases (ltb_ℤ key k)) [
    | inl t ↦ rw t (way-IsRbPath l h (frame left_side x k red r ∷ up) i (q, j, e, w) (inl p))
    | inr f ↦ rw f (way-IsRbPath r h (frame right_side x k red l ∷ up) j (p, i, e, w) (inl q))
  ]

  pub insert_item-some : (z : Ptr) (xs : List (Ptr × ℤ)) → [] ≢ insert_item z key xs
  insert_item-some z [] = λ e. cc
  insert_item-some z ((x, k) ∷ xs) = elim (Bool-cases (ltb_ℤ key k)) [
    | inl t ↦ rw t (λ e. cc)
    | inr f ↦ rw f (λ e. cc)
  ]

  insert_item-left :
      (z x : Ptr) (k : ℤ) (xs ys : List (Ptr × ℤ))
      → ltb_ℤ key k ≡ true
      → insert_item z key (xs ++ (x, k) ∷ ys) ≡ insert_item z key xs ++ (x, k) ∷ ys
  insert_item-left z x k [] ys t = rw t refl
  insert_item-left z x k ((y, j) ∷ xs) ys t = elim (Bool-cases (ltb_ℤ key j)) [
    | inl u ↦ rw u refl
    | inr f ↦ rw f (ap (λ r. (y, j) ∷ r) (insert_item-left z x k xs ys t))
  ]

  insert_item-right :
      (z : Ptr) (b : Tree) (k : ℤ) (ys : List (Ptr × ℤ))
      → All (λ a. a ≤ℤ k) b
      → ltb_ℤ key k ≡ false
      → insert_item z key (items b ++ ys) ≡ items b ++ insert_item z key ys
  insert_item-right z leaf k ys a f = refl
  insert_item-right z (branch l x j c r) k ys (p, a, b) f =
      ap (insert_item z key) (append_assoc (items l) ((x, j) ∷ items r) ys)
      ∙ insert_item-right z l k ((x, j) ∷ items r ++ ys) a f
      ∙ ap (λ e. items l ++ e)
          (rw (below k j p f) (ap (λ e. (x, j) ∷ e) (insert_item-right z r k ys b f)))
      ∙ sym (append_assoc (items l) ((x, j) ∷ items r) (insert_item z key ys))
    where
      below : (k j : ℤ) → j ≤ℤ k → ltb_ℤ key k ≡ false → ltb_ℤ key j ≡ false
      below k j p f = ground (arith, p, f)

  pub items-put_node :
      (z : Ptr) (s : Tree) → IsOrdered s → items (put_node z key s) ≡ insert_item z key (items s)
  items-put_node z leaf w = refl
  items-put_node z (branch l x k c r) (a, b, p, q) = elim (Bool-cases (ltb_ℤ key k)) [
    | inl t ↦ rw t (
        ap (λ e. e ++ (x, k) ∷ items r) (items-put_node z l p)
        ∙ sym (insert_item-left z x k (items l) (items r) t))
    | inr f ↦ rw f (
        ap (λ e. items l ++ (x, k) ∷ e) (items-put_node z r q)
        ∙ sym (insert_item-right z l k ((x, k) ∷ items r) a f ∙ ap (λ e. items l ++ e) (rw f refl)))
  ]
