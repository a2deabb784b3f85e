-- ===== src/RbTree/Bounds.antt =====
-- How high a red-black tree of rbtree-lab/src/rbtree.c can be.
use native.Mathlib.Nat.{pow-suc}
use jungle_data_structures.Prelude.{
  ℕ, zero, suc, ◌≡◌, refl, sym, subst, ap, inl, inr, Bool-cases, ◌+◌, ◌*◌, ◌^◌, ◌≤◌, List, [], ◌∷◌,
  length, length-append, arith,
}
use jungle_data_structures.Prelude.Int.{ℤ, ltb_ℤ}
use jungle_data_structures.RbTree.Store.{Ptr, Color, red, black}
use jungle_data_structures.RbTree.Trees.{Tree, leaf, branch, height}
use jungle_data_structures.RbTree.Focus.{items}
use jungle_data_structures.RbTree.RedBlack.{tone, IsRb}
use jungle_data_structures.RbTree.Way.{insert_item}

-- A tree with `h` black nodes on each way down has at least `2 ^ h - 1` nodes.
pub IsRb-length : (t : Tree) (h : ℕ) → IsRb h t → 2 ^ h ≤ suc (length (items t))
IsRb-length leaf h e = subst (λ h. 2 ^ h ≤ 1) (sym e) (omega arith)
IsRb-length (branch l x k black r) zero w = elim w [ ]
IsRb-length (branch l x k black r) (suc h) (i, j) = omega (
  arith,
  IsRb-length l h i,
  IsRb-length r h j,
  length-append (items l) ((x, k) ∷ items r),
  pow-suc 2 h,
)
IsRb-length (branch l x k red r) h (_, _, i, j) =
    omega (arith, IsRb-length l h i, length-append (items l) ((x, k) ∷ items r))

abbrev bump : Color → ℕ
bump red = 1
bump black = 0

IsRb-height : (t : Tree) (h : ℕ) → IsRb h t → height t ≤ 2 * h + bump (tone t)
IsRb-height leaf h e = omega arith
IsRb-height (branch l x k black r) zero w = elim w [ ]
IsRb-height (branch l x k black r) (suc h) (i, j) =
    omega (arith, IsRb-height l h i, IsRb-height r h j, bump-le (tone l), bump-le (tone r))
  where
    bump-le : (c : Color) → bump c ≤ 1
    bump-le red = omega arith
    bump-le black = omega arith
IsRb-height (branch l x k red r) h (p, q, i, j) =
    omega (arith, IsRb-height l h i, IsRb-height r h j, ap bump p, ap bump q)

pub height-black : (t : Tree) (h : ℕ) → IsRb h t → tone t ≡ black → height t ≤ 2 * h
height-black t h w e = omega (arith, IsRb-height t h w, ap bump e)

pub length-insert_item :
    (z : Ptr) (key : ℤ) (xs : List (Ptr × ℤ)) → length (insert_item z key xs) ≡ suc (length xs)
length-insert_item z key [] = refl
length-insert_item z key ((x, k) ∷ xs) = elim (Bool-cases (ltb_ℤ key k)) [
  | inl t ↦ rw t (omega arith)
  | inr f ↦ rw f (omega (arith, length-insert_item z key xs))
]
