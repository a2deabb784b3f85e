-- ===== src/RbTree/Defs.antt =====
-- The functions of rbtree-lab/src/rbtree.c that look into a tree, in the build with `SENTINEL`. A
-- `const rbtree *` argument is the structure that it points to, or `none` for `NULL`. `fuel` bounds
-- the rounds of a loop and the depth of a recursion.
use jungle_data_structures.Prelude.{
  ◌||◌, ℕ, zero, suc, ◌+◌, Option, none, some, List, length, set, ltb, ◌==◌, if◌then◌else◌,
}
use jungle_data_structures.Prelude.Int.{ℤ, ltb_ℤ, eqb_ℤ}
use jungle_data_structures.Prelude.Run.{Outcome, done, fault, give_up, ◌>>=◌, ◌>>◌}
use jungle_data_structures.RbTree.Store.{Ptr, null, Store, Act, RbNode, free, load}

pub record RbTree : Type 0 where
  pub root : Ptr
  pub nil : Ptr

-- The `while (node != t->nil)` of `rbtree_find`.
unfoldable pub find_loop : ℕ → RbTree → ℤ → (node : Ptr) → Act Ptr
find_loop zero t key node = give_up
find_loop (suc fuel) t key node = if node == t.nil then done t.nil else do
  n ← load node
  if eqb_ℤ n.key key
      then done node
      else find_loop fuel t key (if ltb_ℤ key n.key then n.left else n.right)

-- With `NULL` the code follows it to return `t->nil`.
unfoldable pub rbtree_find : ℕ → Option RbTree → ℤ → Act Ptr
rbtree_find fuel none key = λ h. fault
rbtree_find fuel (some t) key = if t.root == t.nil then done t.nil else find_loop fuel t key t.root

-- `while (node->left != t->nil)`, of `rbtree_min` and `tree_minimum`.
unfoldable pub min_loop : ℕ → RbTree → (node : Ptr) → Act Ptr
min_loop zero t node = give_up
min_loop (suc fuel) t node = do
  n ← load node
  if n.left == t.nil then done node else min_loop fuel t n.left

unfoldable pub rbtree_min : ℕ → Option RbTree → Act Ptr
rbtree_min fuel none = λ h. fault
rbtree_min fuel (some t) = if t.root == t.nil then done t.nil else min_loop fuel t t.root

unfoldable pub max_loop : ℕ → RbTree → (node : Ptr) → Act Ptr
max_loop zero t node = give_up
max_loop (suc fuel) t node = do
  n ← load node
  if n.right == t.nil then done node else max_loop fuel t n.right

unfoldable pub rbtree_max : ℕ → Option RbTree → Act Ptr
rbtree_max fuel none = λ h. fault
rbtree_max fuel (some t) = if t.root == t.nil then done t.nil else max_loop fuel t t.root

-- The caller's array, and the index that the traversal counts up.
pub record Target : Type 0 where
  pub arr : List ℤ
  pub index : ℕ

abbrev pub Fill : Type 0
Fill = Target → Outcome Target (Unit {0})

-- `arr[(*index)++] = key`, a fault beyond the array.
unfoldable pub put : ℤ → Fill
put key s =
    if ltb s.index (length s.arr)
    then done tt (record { arr = set s.arr s.index key; index = s.index + 1 })
    else fault

-- The node that is read, in a memory that the traversal does not change.
unfoldable pub with_node : Store → Ptr → (RbNode → Fill) → Fill
with_node h node k s =
    if node == null then fault else elim (h node) [ none ↦ fault | some n ↦ k n s ]

unfoldable pub inorder_traversal : ℕ → Store → RbTree → (node : Ptr) → Fill
inorder_traversal zero h t node = give_up
inorder_traversal (suc fuel) h t node =
    if node == t.nil
    then done tt
    else with_node h node
        (λ n. inorder_traversal fuel h t n.left >> put n.key >> inorder_traversal fuel h t n.right)

-- The index that is returned, with the array; the code does not look at `n`.
unfoldable pub rbtree_to_array : ℕ → Store → RbTree → (arr : List ℤ) → (n : ℕ) → Outcome Target ℕ
rbtree_to_array fuel h t arr n =
    (inorder_traversal fuel h t t.root >>= λ _. λ s. done s.index s)
      (record { arr = arr; index = 0 })

unfoldable pub delete_rbtree_rec : ℕ → (root nil : Ptr) → Act (Unit {0})
delete_rbtree_rec zero root nil = give_up
delete_rbtree_rec (suc fuel) root nil = if root == nil || root == null then done tt else do
  n ← load root
  delete_rbtree_rec fuel n.left nil
  m ← load root
  delete_rbtree_rec fuel m.right nil
  free root

-- The nodes and the sentinel are freed; the last call, which frees the structure itself, is left out.
unfoldable pub delete_rbtree : ℕ → Option RbTree → Act (Unit {0})
delete_rbtree fuel none = done tt
delete_rbtree fuel (some t) = do delete_rbtree_rec fuel t.root t.nil; free t.nil
