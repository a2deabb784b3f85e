-- ===== src/RbTree/RedBlack.antt =====
-- The balance that rbtree-lab/src/rbtree.c keeps: as many black nodes on each way down, and no red
-- node below another.
use jungle_data_structures.Prelude.{ℕ, suc, zero, ◌≡◌, ◌≢◌, refl, subst, [], ◌∷◌}
use jungle_data_structures.Prelude.Int.{ℤ}
use jungle_data_structures.RbTree.Store.{Ptr, Color, red, black}
use jungle_data_structures.RbTree.Trees.{Tree, leaf, branch}
use jungle_data_structures.RbTree.Change.{Side, left_side, right_side}
use jungle_data_structures.RbTree.Zipper.{Trail, frame, plug, join}

-- The sentinel is black.
abbrev pub tone : Tree → Color
tone leaf = black
tone (branch l x k c r) = c

-- `h` black nodes on each way down. Only the root of the tree may be red below a red node.
abbrev pub IsRb : ℕ → Tree → Type 0
IsRb h leaf = h ≡ 0
IsRb h (branch l x k red r) = (tone l ≡ black) × (tone r ≡ black) × IsRb h l × IsRb h r
IsRb zero (branch l x k black r) = ⊥
IsRb (suc h) (branch l x k black r) = IsRb h l × IsRb h r

-- The colour above a place. Above the root it is red, since no red node may be left there.
abbrev pub hue : Trail → Color
hue [] = red
hue (frame s x k c b ∷ up) = c

-- A tree with `h` black nodes on each way down fits at the place.
abbrev pub IsRbPath : ℕ → Trail → Type 0
IsRbPath h [] = Unit
IsRbPath h (frame s x k red b ∷ up) = (tone b ≡ black) × IsRb h b × (hue up ≡ black) × IsRbPath h up
IsRbPath h (frame s x k black b ∷ up) = IsRb h b × IsRbPath (suc h) up

module _ (x : Ptr) (k : ℤ) (a b : Tree) where
  pub IsRb-black : (s : Side) (h : ℕ) → IsRb h a → IsRb h b → IsRb (suc h) (join s a x k black b)
  IsRb-black left_side h i j = (i, j)
  IsRb-black right_side h i j = (j, i)

  pub IsRb-red :
      (s : Side) (h : ℕ)
      → tone a ≡ black
      → tone b ≡ black
      → IsRb h a
      → IsRb h b
      → IsRb h (join s a x k red b)
  IsRb-red left_side h p q i j = (p, q, i, j)
  IsRb-red right_side h p q i j = (q, p, j, i)

  pub tone-join : (s : Side) (c : Color) → tone (join s a x k c b) ≡ c
  tone-join left_side c = refl
  tone-join right_side c = refl

  -- The parts of a tree with a red root.
  pub IsRb-parts :
      (s : Side) (h : ℕ)
      → IsRb h (join s a x k red b)
      → (tone a ≡ black) × (tone b ≡ black) × IsRb h a × IsRb h b
  IsRb-parts left_side h w = w
  IsRb-parts right_side h (p, q, i, j) = (q, p, j, i)

pub red_not_black : red ≢ black
red_not_black e = subst (λ c. elim c [ red ↦ Unit {0} | black ↦ ⊥ ]) e tt

-- A tree with a black root makes the whole balanced.
pub IsRb-plug :
    (up : Trail) (h : ℕ) (t : Tree)
    → IsRbPath h up
    → tone t ≡ black
    → IsRb h t
    → (n : ℕ) × (tone (plug up t) ≡ black) × IsRb n (plug up t)
IsRb-plug [] h t w b i = (h, b, i)
IsRb-plug (frame s x k black u ∷ up) h t (j, w) b i =
    IsRb-plug up (suc h) (join s t x k black u) w (tone-join x k t u s black)
      (IsRb-black x k t u s h i j)
IsRb-plug (frame s x k red u ∷ frame r y l black v ∷ up) h t (p, j, e, (m, w)) b i =
    IsRb-plug up (suc h) (join r (join s t x k red u) y l black v) w
      (tone-join y l (join s t x k red u) v r black)
      (IsRb-black y l (join s t x k red u) v r h (IsRb-red x k t u s h b p i j) m)
IsRb-plug (frame s x k red u ∷ frame r y l red v ∷ up) h t (p, j, e, w) b i =
    elim (red_not_black e) [ ]
IsRb-plug (frame s x k red u ∷ []) h t (p, j, e, w) b i = elim (red_not_black e) [ ]
