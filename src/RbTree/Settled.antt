-- ===== src/RbTree/Settled.antt =====
-- What `rbtree_erase` of rbtree-lab/src/rbtree.c leaves at the place of a node with at most one child,
-- where the node or that child is red.
use jungle_data_structures.Prelude.{
  ℕ, zero, suc, ◌≡◌, ◌⊎◌, inl, inr, refl, sym, ap, ◌∙◌, List, [], ◌∷◌, ◌++◌,
}
use mathlib.Core.List.{append_assoc, append-nil}
use jungle_data_structures.Prelude.Int.{ℤ}
use jungle_data_structures.RbTree.Store.{Ptr, Color, red, black}
use jungle_data_structures.RbTree.Trees.{Tree, leaf, branch}
use jungle_data_structures.RbTree.Change.{Side, left_side, right_side}
use jungle_data_structures.RbTree.Zipper.{Trail, frame, plug, join, count}
use jungle_data_structures.RbTree.RedBlack.{tone, IsRb, IsRb-parts}
use jungle_data_structures.RbTree.Focus.{items}

-- What is left at the place of a node with the colour `c` and the child `t`.
abbrev pub settled : Color → Tree → Tree
settled red t = t
settled black leaf = leaf
settled black (branch l y k d r) = branch l y k black r

-- The items around a place.
items-plug_split :
    (up : Trail)
    → (ps : List (Ptr × ℤ)) × (ss : List (Ptr × ℤ)) × ((u : Tree)
        → items (plug up u) ≡ ps ++ (items u ++ ss))
items-plug_split [] = ([], [], λ u. sym (append-nil (items u)))
items-plug_split (frame left_side x k c b ∷ up) =
    let (ps, ss, e) = items-plug_split up in
    (
      ps,
      (x, k) ∷ items b ++ ss,
      λ u. e (branch u x k c b) ∙ ap (λ r. ps ++ r) (append_assoc (items u) ((x, k) ∷ items b) ss),
    )
items-plug_split (frame right_side x k c b ∷ up) =
    let (ps, ss, e) = items-plug_split up in
    (
      ps ++ (items b ++ (x, k) ∷ []),
      ss,
      λ u.
          e (branch b x k c u)
          ∙ ap (λ r. ps ++ r)
              (append_assoc (items b) ((x, k) ∷ items u) ss
                ∙ sym (append_assoc (items b) ((x, k) ∷ []) (items u ++ ss)))
          ∙ sym (append_assoc ps (items b ++ (x, k) ∷ []) (items u ++ ss)),
    )

items-settled : (c : Color) (t : Tree) → items (settled c t) ≡ items t
items-settled red t = refl
items-settled black leaf = refl
items-settled black (branch l y k d r) = refl

-- One item less.
abbrev pub Less : (Ptr × ℤ) → (before after : List (Ptr × ℤ)) → Type 0
Less i before after =
    (ps : List (Ptr × ℤ)) × (ss : List (Ptr × ℤ)) × (before ≡ ps ++ i ∷ ss) × (after ≡ ps ++ ss)

pub Less-join :
    (s : Side) (z : Ptr) (k : ℤ) (c : Color) (t : Tree) (up : Trail)
    → Less (z, k) (items (plug up (join s leaf z k c t))) (items (plug up (settled c t)))
Less-join left_side z k c t up =
    let (ps, ss, e) = items-plug_split up in
    (
      ps,
      items t ++ ss,
      e (branch leaf z k c t),
      e (settled c t) ∙ ap (λ r. ps ++ (r ++ ss)) (items-settled c t),
    )
Less-join right_side z k c t up =
    let (ps, ss, e) = items-plug_split up in
    (
      ps ++ items t,
      ss,
      e (branch t z k c leaf)
          ∙ ap (λ r. ps ++ r) (append_assoc (items t) ((z, k) ∷ []) ss)
          ∙ sym (append_assoc ps (items t) ((z, k) ∷ ss)),
      e (settled c t)
          ∙ ap (λ r. ps ++ (r ++ ss)) (items-settled c t)
          ∙ sym (append_assoc ps (items t) ss),
    )

pub not_red : (black ≡ red) ⊎ (black ≡ red) → ⊥
not_red (inl e) = cc
not_red (inr e) = cc

-- The balance at the place.
pub settled-IsRb :
    (s : Side) (z : Ptr) (k : ℤ) (c : Color) (t : Tree) (h : ℕ)
    → (c ≡ red) ⊎ (tone t ≡ red)
    → IsRb h (join s leaf z k c t)
    → (tone (settled c t) ≡ black) × IsRb h (settled c t)
settled-IsRb s z k red t h i w = let (_, b, _, j) = IsRb-parts z k leaf t s h w in (b, j)
settled-IsRb s z k black leaf h i w = absurd (not_red i)
settled-IsRb s z k black (branch l y ky black r) h i w = absurd (not_red i)
settled-IsRb left_side z k black (branch l y ky red r) zero i w = elim w [ ]
settled-IsRb right_side z k black (branch l y ky red r) zero i w = elim w [ ]
settled-IsRb left_side z k black (branch l y ky red r) (suc h) i (_, (_, _, u, v)) = (refl, (u, v))
settled-IsRb right_side z k black (branch l y ky red r) (suc h) i ((_, _, u, v), _) = (refl, (u, v))

pub count-settled : (q : Ptr) (c : Color) (t : Tree) → count q (settled c t) ≡ count q t
count-settled q red t = refl
count-settled q black leaf = refl
count-settled q black (branch l y k d r) = refl
