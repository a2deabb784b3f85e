-- ===== src/RbTree/Zipper.antt =====
-- A tree with a place in it that is looked at: the part below, and the path above up to the root.
use jungle_data_structures.Prelude.{
  ℕ, ◌≡◌, ◌≢◌, refl, sym, ◌∙◌, Option, some, List, [], ◌∷◌, ◌+◌, ◌==◌, if◌then◌else◌, arith,
}
use jungle_data_structures.Prelude.Int.{ℤ}
use jungle_data_structures.RbTree.Store.{Ptr, null, Color, RbNode, Store, write}
use jungle_data_structures.RbTree.Trees.{Tree, leaf, branch, top, IsTree}
use jungle_data_structures.RbTree.Change.{Side, left_side, right_side}
use jungle_data_structures.RbTree.Steps.{cell, write_ne}

-- A tree with `a` at the side `s` of its root.
abbrev pub join : Side → Tree → Ptr → ℤ → Color → Tree → Tree
join left_side a x k c b = branch a x k c b
join right_side a x k c b = branch b x k c a

-- A node above the place, which is at its side `s`; the tree is its other child.
pub data Frame : Type 0 where
  frame : Side → Ptr → ℤ → Color → Tree → Frame

-- The nearest node first.
abbrev pub Trail : Type 0
Trail = List Frame

abbrev pub above : Ptr → Trail → Ptr
above nil [] = nil
above nil (frame s x k c b ∷ up) = x

abbrev pub plug : Trail → Tree → Tree
plug [] t = t
plug (frame s x k c b ∷ up) t = plug up (join s t x k c b)

-- How often an address stands in a tree, and on a path.
abbrev pub here : Ptr → Ptr → ℕ
here x q = if q == x then 1 else 0

abbrev pub count : Ptr → Tree → ℕ
count q leaf = 0
count q (branch l x k c r) = count q l + (here x q + count q r)

abbrev pub count_path : Ptr → Trail → ℕ
count_path q [] = 0
count_path q (frame s x k c b ∷ up) = here x q + (count q b + count_path q up)

-- The path stands in memory, with `p` at the place.
abbrev pub IsPath : (nil : Ptr) → Store → (root p : Ptr) → Trail → Type 0
IsPath nil h root p [] = root ≡ p
IsPath nil h root p (frame s x k c b ∷ up) =
    (x ≢ nil)
    × (x ≢ null)
    × (h x ≡ some (cell s c k (above nil up) p (top nil b)))
    × IsTree h nil x b
    × IsPath nil h root x up

pub count-join :
    (q : Ptr) (s : Side) (a : Tree) (x : Ptr) (k : ℤ) (c : Color) (b : Tree)
    → count q (join s a x k c b) ≡ here x q + (count q a + count q b)
count-join q left_side a x k c b = omega arith
count-join q right_side a x k c b = omega arith

pub here_self : (x : Ptr) → here x x ≡ 1
here_self x = ground arith

pub here_ne : (x q : Ptr) → q ≢ x → here x q ≡ 0
here_ne x q ne = ground arith

pub ne_here : (x q : Ptr) → here x q ≡ 0 → q ≢ x
ne_here x q z e = ground (arith, e, z)

abbrev pub IsJoin : Store → (nil p : Ptr) → Side → Tree → Ptr → ℤ → Color → Tree → Type 0
IsJoin h nil p s a x k c b =
    (x ≢ nil)
    × (x ≢ null)
    × (h x ≡ some (cell s c k p (top nil a) (top nil b)))
    × IsTree h nil x a
    × IsTree h nil x b

module _ (h : Store) (nil p : Ptr) (a : Tree) (x : Ptr) (k : ℤ) (c : Color) (b : Tree) where
  pub IsTree-parts : (s : Side) → IsTree h nil p (join s a x k c b) → IsJoin h nil p s a x k c b
  IsTree-parts left_side w = w
  IsTree-parts right_side (u, v, e, l, r) = (u, v, e, r, l)

  pub IsTree-join : (s : Side) → IsJoin h nil p s a x k c b → IsTree h nil p (join s a x k c b)
  IsTree-join left_side w = w
  IsTree-join right_side (u, v, e, l, r) = (u, v, e, r, l)

  pub top-join : (s : Side) → top nil (join s a x k c b) ≡ x
  top-join left_side = refl
  top-join right_side = refl

-- A write beside the tree.
module _ (h : Store) (nil w : Ptr) (o : Option RbNode) where
  pub IsTree-set :
      (p : Ptr) (t : Tree) → count w t ≡ 0 → IsTree h nil p t → IsTree (write h w o) nil p t
  IsTree-set p leaf z i = tt
  IsTree-set p (branch l x k c r) z (u, v, e, i, j) = (
    u,
    v,
    write_ne h w x o (ne_other z) ∙ e,
    IsTree-set x l (omega (arith, z)) i,
    IsTree-set x r (omega (arith, z)) j,
  )
    where
      ne_other : count w l + (here x w + count w r) ≡ 0 → x ≢ w
      ne_other z e = ne_here x w (omega (arith, z)) (sym e)

  pub IsPath-set :
      (root p : Ptr) (up : Trail)
      → count_path w up ≡ 0
      → IsPath nil h root p up
      → IsPath nil (write h w o) root p up
  IsPath-set root p [] z i = i
  IsPath-set root p (frame s x k c b ∷ up) z (u, v, e, i, j) = (
    u,
    v,
    write_ne h w x o (ne_other z) ∙ e,
    IsTree-set x b (omega (arith, z)) i,
    IsPath-set root x up (omega (arith, z)) j,
  )
    where
      ne_other : here x w + (count w b + count_path w up) ≡ 0 → x ≢ w
      ne_other z e = ne_here x w (omega (arith, z)) (sym e)

module _ (h : Store) (nil w : Ptr) (m : RbNode) where
  pub IsTree-write :
      (p : Ptr) (t : Tree) → count w t ≡ 0 → IsTree h nil p t → IsTree (write h w (some m)) nil p t
  IsTree-write = IsTree-set h nil w (some m)

  pub IsPath-write :
      (root p : Ptr) (up : Trail)
      → count_path w up ≡ 0
      → IsPath nil h root p up
      → IsPath nil (write h w (some m)) root p up
  IsPath-write = IsPath-set h nil w (some m)

-- The sentinel is not a node.
pub IsTree-nil : (h : Store) (nil p : Ptr) (t : Tree) → IsTree h nil p t → count nil t ≡ 0
IsTree-nil h nil p leaf w = refl
IsTree-nil h nil p (branch l x k c r) (u, v, e, i, j) =
    omega (arith, here_ne x nil (λ d. u (sym d)), IsTree-nil h nil x l i, IsTree-nil h nil x r j)

pub IsPath-nil :
    (h : Store) (nil root p : Ptr) (up : Trail) → IsPath nil h root p up → count_path nil up ≡ 0
IsPath-nil h nil root p [] w = refl
IsPath-nil h nil root p (frame s x k c b ∷ up) (u, v, e, i, j) =
    omega
      (arith, here_ne x nil (λ d. u (sym d)), IsTree-nil h nil x b i, IsPath-nil h nil root x up j)

pub top_ne : (nil x : Ptr) (t : Tree) → x ≢ nil → count x t ≡ 0 → top nil t ≢ x
top_ne nil x leaf ne z e = ne (sym e)
top_ne nil x (branch l y k c r) ne z e = ne_here y x (omega (arith, z)) (sym e)
