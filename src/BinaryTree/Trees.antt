-- ===== src/BinaryTree/Trees.antt =====
-- What a binary tree in memory stands for.
use jungle_data_structures.Prelude.{
  ℕ, suc, ◌≡◌, ◌≢◌, ◌∙◌, true, false, none, some, List, [], ◌∷◌, ◌++◌, max, if◌then◌else◌, arith,
}
use jungle_data_structures.Prelude.Int.{ℤ}
use jungle_data_structures.Prelude.Distinct.{has, has-append}
use jungle_data_structures.BinaryTree.Store.{Ptr, null, bt_node, Store}

-- A tree of addresses and items.
pub data Tree : Type 0 where
  leaf : Tree
  branch : Tree → Ptr → ℤ → Tree → Tree

-- The items alone.
pub data Items : Type 0 where
  nothing : Items
  item : Items → ℤ → Items → Items

abbrev pub items : Tree → Items
items leaf = nothing
items (branch l x v r) = item (items l) v (items r)

abbrev pub height : Tree → ℕ
height leaf = 0
height (branch l x v r) = suc (max (height l) (height r))

abbrev pub top : Tree → Ptr
top leaf = null
top (branch l x v r) = x

abbrev pub addresses : Tree → List Ptr
addresses leaf = []
addresses (branch l x v r) = x ∷ addresses l ++ addresses r

-- The three orders of the items.
abbrev pub inorder : Tree → List ℤ
inorder leaf = []
inorder (branch l x v r) = inorder l ++ (v ∷ inorder r)

abbrev pub preorder : Tree → List ℤ
preorder leaf = []
preorder (branch l x v r) = v ∷ (preorder l ++ preorder r)

abbrev pub postorder : Tree → List ℤ
postorder leaf = []
postorder (branch l x v r) = postorder l ++ (postorder r ++ (v ∷ []))

-- The nodes of the tree stand in memory with these links.
abbrev pub IsTree : Store → Tree → Type 0
IsTree h leaf = Unit
IsTree h (branch l x v r) =
    (x ≢ null) × (h x ≡ some (bt_node v (top l) (top r))) × IsTree h l × IsTree h r

-- `g` is `h` less the nodes at `xs`.
abbrev pub Without : List Ptr → Store → Store → Type 0
Without xs h g = (a : Ptr) → g a ≡ (if has a xs then none else h a)

-- `g` is `h` outside of `xs`.
abbrev pub SameOutside : List Ptr → Store → Store → Type 0
SameOutside xs h g = (a : Ptr) → has a xs ≡ false → g a ≡ h a

pub IsTree-frame :
    (h g : Store) (s : Tree)
    → IsTree h s
    → ((a : Ptr) → has a (addresses s) ≡ true → g a ≡ h a)
    → IsTree g s
IsTree-frame h g leaf w same = tt
IsTree-frame h g (branch l x v r) (nx, e, wl, wr) same = (
  nx,
  same x (ground arith) ∙ e,
  IsTree-frame h g l wl (λ a i. same a (ground (arith, has-append a (addresses l) (addresses r)))),
  IsTree-frame h g r wr (λ a i. same a (ground (arith, has-append a (addresses l) (addresses r)))),
)
