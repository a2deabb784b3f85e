-- ===== src/RbTree/Change.antt =====
-- The functions of rbtree-lab/src/rbtree.c that build a tree and keep it balanced: `new_rbtree`,
-- `newNode`, `left_rotate`, `right_rotate`, `rbtree_fixup` and `rbtree_insert`. What the source
-- writes out twice, with right and left exchanged, is here one definition with a side. Each read
-- `p->f` is a step of its own. `t->nil` is a parameter, since no function changes it after
-- `new_rbtree`, and a result of `malloc` is an argument.
use jungle_data_structures.Prelude.{
  ℕ, zero, suc, none, some, Bool, ◌==◌, if◌then◌else◌, true, false,
}
use jungle_data_structures.Prelude.Int.{ℤ, ltb_ℤ, pos}
use jungle_data_structures.Prelude.Run.{Outcome, done, fault, give_up, ◌>>=◌, ◌>>◌}
use jungle_data_structures.RbTree.Store.{
  Ptr, null, Color, red, black, RbNode, rb_node, Store, write,
}

pub data Side : Type 0 where
  left_side : Side
  right_side : Side

abbrev pub other : Side → Side
other left_side = right_side
other right_side = left_side

abbrev pub child : Side → RbNode → Ptr
child left_side n = n.left
child right_side n = n.right

abbrev pub with_child : Side → Ptr → RbNode → RbNode
with_child left_side q n = rb_node n.color n.key n.parent q n.right
with_child right_side q n = rb_node n.color n.key n.parent n.left q

abbrev pub with_parent : Ptr → RbNode → RbNode
with_parent q n = rb_node n.color n.key q n.left n.right

abbrev pub with_color : Color → RbNode → RbNode
with_color c n = rb_node c n.key n.parent n.left n.right

abbrev pub is_red : Color → Bool
is_red red = true
is_red black = false

-- The nodes, and the field `t->root`.
pub record Heap : Type 0 where
  pub nodes : Store
  pub root : Ptr

abbrev pub heap : Store → Ptr → Heap
heap h r = record { nodes = h; root = r }

abbrev pub Edit : Type 0 → Type 0
Edit A = Heap → Outcome Heap A

unfoldable pub get : {A : Type 0} → Ptr → (RbNode → A) → Edit A
get p f s = if p == null then fault else elim (s.nodes p) [ none ↦ fault | some n ↦ done (f n) s ]

unfoldable pub change : Ptr → (RbNode → RbNode) → Edit (Unit {0})
change p f s = if p == null then fault else elim (s.nodes p) [
  | none ↦ fault
  | some n ↦ done tt (heap (write s.nodes p (some (f n))) s.root)
]

abbrev pub get_child : Side → Ptr → Edit Ptr
get_child s p = get p (child s)

abbrev pub get_parent : Ptr → Edit Ptr
get_parent p = get p (λ n. n.parent)

abbrev pub get_color : Ptr → Edit Color
get_color p = get p (λ n. n.color)

abbrev pub get_key : Ptr → Edit ℤ
get_key p = get p (λ n. n.key)

abbrev pub set_child : Side → Ptr → Ptr → Edit (Unit {0})
set_child s p q = change p (with_child s q)

abbrev pub set_parent : Ptr → Ptr → Edit (Unit {0})
set_parent p q = change p (with_parent q)

abbrev pub set_color : Ptr → Color → Edit (Unit {0})
set_color p c = change p (with_color c)

abbrev pub set_root : Ptr → Edit (Unit {0})
set_root p s = done tt (heap s.nodes p)

abbrev pub get_root : Edit Ptr
get_root s = done s.root s

-- All the fields of a node that `malloc` gave, at once.
unfoldable pub create : Ptr → RbNode → Edit (Unit {0})
create p n s = if p == null then fault else done tt (heap (write s.nodes p (some n)) s.root)

-- What `new_rbtree` leaves in memory; the sentinel's key is 0 from `calloc`.
unfoldable pub new_rbtree : (nil : Ptr) → Edit (Unit {0})
new_rbtree nil = do create nil (rb_node black (pos 0) nil nil nil); set_root nil

unfoldable pub new_node : (nil z : Ptr) → (key : ℤ) → Edit (Unit {0})
new_node nil z key = create z (rb_node red key nil nil nil)

-- `if (y->parent == t->nil) t->root = y; else ...`: `y` takes the place of `x` below the parent.
unfoldable pub take_place : Side → (nil x y : Ptr) → Edit (Unit {0})
take_place s nil x y = do
  p ← get_parent y
  if p == nil then set_root y else do
    p ← get_parent x
    u ← get_child s p
    if u == x then set_child s p y else set_child (other s) p y

-- `left_rotate` with the left side, `right_rotate` with the right one.
unfoldable pub rotate : Side → (nil x : Ptr) → Edit (Unit {0})
rotate s nil x = if x == null then done tt else do
  y ← get_child (other s) x
  if y == nil then done tt else do
    b ← get_child s y
    set_child (other s) x b
    b ← get_child s y
    (if b == nil then done tt else set_parent b x)
    p ← get_parent x
    set_parent y p
    take_place s nil x y
    set_child s y x
    set_parent x y

abbrev pub left_rotate : (nil x : Ptr) → Edit (Unit {0})
left_rotate = rotate left_side

abbrev pub right_rotate : (nil y : Ptr) → Edit (Unit {0})
right_rotate = rotate right_side

-- Cases 2 and 3 of the loop: the uncle is black.
unfoldable pub fixup_turn : Side → (nil z p : Ptr) → Edit Ptr
fixup_turn s nil z p = do
  q ← get_child (other s) p
  z ← (if z == q then (do rotate s nil p; done p) else done z)
  p ← get_parent z
  set_color p black
  g ← get_parent p
  set_color g red
  rotate (other s) nil g
  done z

-- The body of the loop for a parent at the side `s` of the grandparent; the new `z` is returned.
unfoldable pub fixup_round : Side → (nil z : Ptr) → Edit Ptr
fixup_round s nil z = do
  p ← get_parent z
  g ← get_parent p
  uncle ← get_child (other s) g
  c ← get_color uncle
  if is_red c
      then (do set_color p black; set_color uncle black; set_color g red; done g)
      else fixup_turn s nil z p

unfoldable pub fixup_loop : ℕ → (nil z : Ptr) → Edit (Unit {0})
fixup_loop zero nil z = give_up
fixup_loop (suc fuel) nil z = do
  p ← get_parent z
  c ← get_color p
  if is_red c
      then (do
        g ← get_parent p
        l ← get_child left_side g
        z ← fixup_round (if p == l then left_side else right_side) nil z
        fixup_loop fuel nil z)
      else done tt

unfoldable pub rbtree_fixup : ℕ → (nil z : Ptr) → Edit (Unit {0})
rbtree_fixup fuel nil z = do fixup_loop fuel nil z; r ← get_root; set_color r black

-- `while (x != t->nil)`, which ends with `y`.
unfoldable pub descend : ℕ → (nil z x y : Ptr) → Edit Ptr
descend zero nil z x y = give_up
descend (suc fuel) nil z x y = if x == nil then done y else do
  key ← get_key z
  k ← get_key x
  next ← get_child (if ltb_ℤ key k then left_side else right_side) x
  descend fuel nil z next x

-- `z` becomes the root, or a child of `y`.
unfoldable pub attach : (nil z y : Ptr) → Edit (Unit {0})
attach nil z y = if y == nil then set_root z else do
  key ← get_key z
  k ← get_key y
  set_child (if ltb_ℤ key k then left_side else right_side) y z

unfoldable pub rbtree_insert : ℕ → (nil z : Ptr) → (key : ℤ) → Edit Ptr
rbtree_insert fuel nil z key = do
  x ← get_root
  new_node nil z key
  y ← descend fuel nil z x nil
  set_parent z y
  attach nil z y
  rbtree_fixup fuel nil z
  done z
