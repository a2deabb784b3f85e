-- ===== src/SearchTree/Attach.antt =====
-- Hanging a part that has changed back under its node.
use jungle_data_structures.Prelude.{◌≡◌, ◌≢◌, ◌∙◌, true, false, Option, List, ◌++◌, ◌∷◌, arith}
use jungle_data_structures.Prelude.Distinct.{has, has-append}
use jungle_data_structures.BinaryTree.Store.{Ptr, BtNode, Store, write, write_ne}
use jungle_data_structures.BinaryTree.Trees.{Tree, addresses, IsTree, SameOutside, IsTree-frame}

pub ne_of_has : (a x : Ptr) (xs : List Ptr) → has a xs ≡ true → has x xs ≡ false → a ≢ x
ne_of_has a x xs i o e = ground (arith, e, i, o)

pub head_outside : (a x : Ptr) (xs : List Ptr) → has a (x ∷ xs) ≡ false → a ≢ x
head_outside a x xs o e = ground (arith, e, o)

pub rest_outside : (a x : Ptr) (xs : List Ptr) → has a (x ∷ xs) ≡ false → has a xs ≡ false
rest_outside a x xs o = ground arith

pub cons_outside : (a x : Ptr) (xs : List Ptr) → a ≢ x → has a xs ≡ false → has a (x ∷ xs) ≡ false
cons_outside a x xs ne o = ground (arith, ne, o)

pub append_outside :
    (a : Ptr) (xs ys : List Ptr) → has a xs ≡ false → has a ys ≡ false → has a (xs ++ ys) ≡ false
append_outside a xs ys o p = ground (arith, has-append a xs ys)

pub apart_sym :
    (xs ys : List Ptr)
    → ((a : Ptr) → has a ys ≡ true → has a xs ≡ false)
    → (a : Ptr) → has a xs ≡ true
    → has a ys ≡ false
apart_sym xs ys apart a i = ground (arith, apart a)

-- `g` differs from `h` in the nodes `ys` of one part, which is now the tree `u`; the other part `t`
-- and the node `x` above both are as they were.
module _ (h g : Store) (x : Ptr) (c : Option BtNode) (ys : List Ptr)
    (same : SameOutside ys h g) where
  pub attach_changed :
      (u : Tree) → IsTree g u → has x (addresses u) ≡ false → IsTree (write g x c) u
  attach_changed u w o =
      IsTree-frame g (write g x c) u w (λ a i. write_ne g x a c (ne_of_has a x (addresses u) i o))

  pub attach_other :
      (t : Tree)
      → IsTree h t
      → has x (addresses t) ≡ false
      → ((a : Ptr) → has a (addresses t) ≡ true → has a ys ≡ false)
      → IsTree (write g x c) t
  attach_other t w o apart =
      IsTree-frame h (write g x c) t w
        (λ a i. write_ne g x a c (ne_of_has a x (addresses t) i o) ∙ same a (apart a i))

  pub attach_outside :
      (zs : List Ptr)
      → ((a : Ptr) → has a zs ≡ false → (a ≢ x) × (has a ys ≡ false))
      → SameOutside zs h (write g x c)
  attach_outside zs sub a o = let (ne, p) = sub a o in write_ne g x a c ne ∙ same a p
