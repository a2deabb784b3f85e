-- ===== src/RbTree/Trees.antt =====
-- What a tree in memory stands for: a binary tree of addresses, keys and colours.
use jungle_data_structures.Prelude.{ℕ, suc, ◌≡◌, ◌≢◌, ◌⊎◌, some, List, [], ◌∷◌, ◌++◌, max}
use jungle_data_structures.Prelude.Int.{ℤ, ◌≤ℤ◌}
use jungle_data_structures.RbTree.Store.{Ptr, null, Color, rb_node, Store}
use jungle_data_structures.RbTree.Defs.{RbTree}

pub data Tree : Type 0 where
  leaf : Tree
  branch : Tree → Ptr → ℤ → Color → Tree → Tree

-- The keys from left to right.
abbrev pub keys : Tree → List ℤ
keys leaf = []
keys (branch l x k c r) = keys l ++ (k ∷ keys r)

abbrev pub height : Tree → ℕ
height leaf = 0
height (branch l x k c r) = suc (max (height l) (height r))

abbrev pub top : Ptr → Tree → Ptr
top nil leaf = nil
top nil (branch l x k c r) = x

-- The nodes of the tree stand in memory with these links, below the node `p`.
abbrev pub IsTree : Store → (nil p : Ptr) → Tree → Type 0
IsTree h nil p leaf = Unit
IsTree h nil p (branch l x k c r) =
    (x ≢ nil)
    × (x ≢ null)
    × (h x ≡ some (rb_node c k p (top nil l) (top nil r)))
    × IsTree h nil x l
    × IsTree h nil x r

-- The structure `t` holds the tree `s`.
pub record Holds (h : Store) (t : RbTree) (s : Tree) : Type 0 where
  pub root : t.root ≡ top t.nil s
  pub nodes : IsTree h t.nil t.nil s

abbrev pub All : (ℤ → Type 0) → Tree → Type 0
All P leaf = Unit
All P (branch l x k c r) = P k × All P l × All P r

-- No key is below one to its left.
abbrev pub IsOrdered : Tree → Type 0
IsOrdered leaf = Unit
IsOrdered (branch l x k c r) = All (λ a. a ≤ℤ k) l × All (λ a. k ≤ℤ a) r × IsOrdered l × IsOrdered r

-- The node `x` is in the tree, with this key.
abbrev pub HasNode : Ptr → ℤ → Tree → Type 0
HasNode y key leaf = ⊥
HasNode y key (branch l x k c r) = HasNode y key l ⊎ (((y ≡ x) × (key ≡ k)) ⊎ HasNode y key r)

pub All-map : {P Q : ℤ → Type 0} (t : Tree) → ((a : ℤ) → P a → Q a) → All P t → All Q t
All-map leaf f a = tt
All-map (branch l x k c r) f (p, a, b) = (f k p, All-map l f a, All-map r f b)
