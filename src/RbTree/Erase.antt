-- ===== src/RbTree/Erase.antt =====
-- The functions of rbtree-lab/src/rbtree.c that take a node out of a tree: `rbtree_transplant`,
-- `tree_minimum`, `rbtree_delete_fixup` and `rbtree_erase`. The two branches of the fixup are one
-- definition with a side, but for the step in which the source differs (`sibling_again`).
use jungle_data_structures.Prelude.{ℕ, zero, suc, none, some, Bool, false, ◌==◌, not, if◌then◌else◌}
use jungle_data_structures.Prelude.Run.{done, fault, give_up, ◌>>=◌, ◌>>◌}
use jungle_data_structures.RbTree.Store.{Ptr, Color, red, black, write}
use jungle_data_structures.RbTree.Change.{
  Side, left_side, right_side, other, heap, Edit, is_red, get_child, get_parent, get_color,
  set_child, set_parent, set_color, set_root, get_root, rotate,
}

-- `free`, a fault for a pointer that was not handed out.
unfoldable pub release : Ptr → Edit (Unit {0})
release p s = elim (s.nodes p) [
  | none ↦ fault
  | some n ↦ done tt (heap (write s.nodes p none) s.root)
]

unfoldable pub rbtree_transplant : (nil u v : Ptr) → Edit (Unit {0})
rbtree_transplant nil u v = do
  p ← get_parent u
  (if p == nil then set_root v else do
    l ← get_child left_side p
    if u == l then set_child left_side p v else set_child right_side p v)
  p ← get_parent u
  set_parent v p

unfoldable pub tree_minimum : ℕ → (nil x : Ptr) → Edit Ptr
tree_minimum zero nil x = give_up
tree_minimum (suc fuel) nil x = do
  l ← get_child left_side x
  if l == nil then done x else tree_minimum fuel nil l

-- The sibling after a rotation: `w = w->parent->right` on the left, `w = x->parent->left` on the right.
unfoldable pub sibling_again : Side → (x w : Ptr) → Edit Ptr
sibling_again left_side x w = do p ← get_parent w; get_child right_side p
sibling_again right_side x w = do p ← get_parent x; get_child left_side p

-- A red sibling is rotated away.
unfoldable pub dark_sibling : Side → (nil x w : Ptr) → Edit Ptr
dark_sibling s nil x w = do
  c ← get_color w
  if is_red c
      then (do
        set_color w black
        p ← get_parent x
        set_color p red
        rotate s nil p
        sibling_again s x w)
      else done w

-- The color of the child at the side away from `s` is read only when the other one is black.
unfoldable pub black_children : Side → (w : Ptr) → Edit Bool
black_children s w = do
  a ← get_child s w
  c ← get_color a
  if is_red c
      then done false
      else (do b ← get_child (other s) w; d ← get_color b; done (not (is_red d)))

-- The last case: one or two rotations, and `x = t->root`.
unfoldable pub delete_turn : Side → (nil x w : Ptr) → Edit Ptr
delete_turn s nil x w = do
  far ← get_child (other s) w
  c ← get_color far
  w ←
      (if is_red c then done w else (do
        near ← get_child s w
        set_color near black
        set_color w red
        rotate (other s) nil w
        p ← get_parent x
        get_child (other s) p))
  p ← get_parent x
  c ← get_color p
  set_color w c
  set_color p black
  far ← get_child (other s) w
  set_color far black
  rotate s nil p
  get_root

-- The body of the loop for a node at the side `s` of its parent; the new `x` is returned.
unfoldable pub delete_round : Side → (nil x : Ptr) → Edit Ptr
delete_round s nil x = do
  p ← get_parent x
  w ← get_child (other s) p
  w ← dark_sibling s nil x w
  b ← black_children s w
  if b then (do set_color w red; get_parent x) else delete_turn s nil x w

unfoldable pub delete_loop : ℕ → (nil x : Ptr) → Edit Ptr
delete_loop zero nil x = give_up
delete_loop (suc fuel) nil x = do
  root ← get_root
  if x == root then done x else (do
    c ← get_color x
    if is_red c then done x else (do
      p ← get_parent x
      l ← get_child left_side p
      x ← delete_round (if x == l then left_side else right_side) nil x
      delete_loop fuel nil x))

unfoldable pub rbtree_delete_fixup : ℕ → (nil x : Ptr) → Edit (Unit {0})
rbtree_delete_fixup fuel nil x = do x ← delete_loop fuel nil x; set_color x black

-- A node with both children is replaced by the next one, `y`. What is returned is `x`, and the colour
-- that the place of `x` has lost.
unfoldable pub replace_node : ℕ → (nil z : Ptr) → Edit (Ptr × Color)
replace_node fuel nil z = do
  r ← get_child right_side z
  y ← tree_minimum fuel nil r
  lost ← get_color y
  x ← get_child right_side y
  (if y == r then set_parent x y else (do
    rbtree_transplant nil y x
    r ← get_child right_side z
    set_child right_side y r
    set_parent r y))
  rbtree_transplant nil z y
  l ← get_child left_side z
  set_child left_side y l
  set_parent l y
  c ← get_color z
  set_color y c
  done (x, lost)

unfoldable pub unlink_node : ℕ → (nil z : Ptr) → Edit (Ptr × Color)
unlink_node fuel nil z = do
  lost ← get_color z
  l ← get_child left_side z
  r ← get_child right_side z
  if l == nil
      then (do rbtree_transplant nil z r; done (r, lost))
      else (if r == nil
          then (do rbtree_transplant nil z l; done (l, lost))
          else replace_node fuel nil z)

unfoldable pub rbtree_erase : ℕ → (nil z : Ptr) → Edit ℕ
rbtree_erase fuel nil z = do
  (x, lost) ← unlink_node fuel nil z
  (if is_red lost then done tt else rbtree_delete_fixup fuel nil x)
  release z
  done 0
