-- ===== src/RbTree/Ascending.antt =====
-- Search trees and ascending lists of keys, equal keys included.
use jungle_data_structures.Prelude.{
  ◌≡◌, inl, inr, Bool-cases, true, false, List, [], ◌∷◌, ◌++◌, arith,
}
use jungle_data_structures.Prelude.Int.{ℤ, ltb_ℤ, ◌≤ℤ◌}
use jungle_data_structures.RbTree.Store.{Ptr}
use jungle_data_structures.RbTree.Trees.{Tree, leaf, branch, IsOrdered, All}
use jungle_data_structures.RbTree.Focus.{items}
use jungle_data_structures.RbTree.Way.{insert_item}

abbrev pub Each : (ℤ → Type 0) → List (Ptr × ℤ) → Type 0
Each P [] = Unit
Each P ((x, k) ∷ xs) = P k × Each P xs

abbrev pub Ascending : List (Ptr × ℤ) → Type 0
Ascending [] = Unit
Ascending ((x, k) ∷ xs) = Each (λ a. k ≤ℤ a) xs × Ascending xs

trans_le : (a b c : ℤ) → a ≤ℤ b → b ≤ℤ c → a ≤ℤ c
trans_le a b c p q = omega (arith, p, q)

lt_le : (a b : ℤ) → ltb_ℤ a b ≡ true → a ≤ℤ b
lt_le a b t = ground (arith, t)

ge_le : (a b : ℤ) → ltb_ℤ a b ≡ false → b ≤ℤ a
ge_le a b t = ground (arith, t)

Each-map : {P Q : ℤ → Type 0} (xs : List (Ptr × ℤ)) → ((a : ℤ) → P a → Q a) → Each P xs → Each Q xs
Each-map [] f w = tt
Each-map ((x, k) ∷ xs) f (p, w) = (f k p, Each-map xs f w)

Each-append : (P : ℤ → Type 0) (xs ys : List (Ptr × ℤ)) → Each P xs → Each P ys → Each P (xs ++ ys)
Each-append P [] ys u w = w
Each-append P ((x, k) ∷ xs) ys (p, u) w = (p, Each-append _ xs ys u w)

Each-parts : (P : ℤ → Type 0) (xs ys : List (Ptr × ℤ)) → Each P (xs ++ ys) → Each P xs × Each P ys
Each-parts P [] ys w = (tt, w)
Each-parts P ((x, k) ∷ xs) ys (p, w) = let (u, v) = Each-parts _ xs ys w in ((p, u), v)

Each-items : (P : ℤ → Type 0) (t : Tree) → All P t → Each P (items t)
Each-items P leaf w = tt
Each-items P (branch l x k c r) (p, u, v) =
    Each-append _ (items l) ((x, k) ∷ items r) (Each-items _ l u) (p, Each-items _ r v)

All-items : (P : ℤ → Type 0) (t : Tree) → Each P (items t) → All P t
All-items P leaf w = tt
All-items P (branch l x k c r) w =
    let (u, (p, v)) = Each-parts _ (items l) ((x, k) ∷ items r) w in
    (p, All-items _ l u, All-items _ r v)

module _ (x : Ptr) (k : ℤ) (ys : List (Ptr × ℤ)) where
  Ascending-join :
      (xs : List (Ptr × ℤ))
      → Ascending xs
      → Each (λ a. a ≤ℤ k) xs
      → Each (λ a. k ≤ℤ a) ys
      → Ascending ys
      → Ascending (xs ++ (x, k) ∷ ys)
  Ascending-join [] u p q w = (q, w)
  Ascending-join ((y, j) ∷ xs) (v, u) (p, r) q w = (
    Each-append _ xs ((x, k) ∷ ys) v (p, Each-map ys (λ a. trans_le j k a p) q),
    Ascending-join xs u r q w,
  )

  Ascending-parts :
      (xs : List (Ptr × ℤ))
      → Ascending (xs ++ (x, k) ∷ ys)
      → Ascending xs × Each (λ a. a ≤ℤ k) xs × Each (λ a. k ≤ℤ a) ys × Ascending ys
  Ascending-parts [] (q, w) = (tt, tt, q, w)
  Ascending-parts ((y, j) ∷ xs) (v, u) =
      let (a, b, c, d) = Ascending-parts xs u in
      let (e, (p, _)) = Each-parts _ xs ((x, k) ∷ ys) v in ((e, a), (p, b), c, d)

pub items-Ascending : (t : Tree) → IsOrdered t → Ascending (items t)
items-Ascending leaf w = tt
items-Ascending (branch l x k c r) (a, b, p, q) =
    Ascending-join x k (items r) (items l) (items-Ascending l p) (Each-items _ l a)
      (Each-items _ r b) (items-Ascending r q)

pub Ascending-IsOrdered : (t : Tree) → Ascending (items t) → IsOrdered t
Ascending-IsOrdered leaf w = tt
Ascending-IsOrdered (branch l x k c r) w =
    let (a, b, c, d) = Ascending-parts x k (items r) (items l) w in
    (All-items _ l b, All-items _ r c, Ascending-IsOrdered l a, Ascending-IsOrdered r d)

module _ (z : Ptr) (key : ℤ) where
  insert_item-Each :
      (P : ℤ → Type 0) (xs : List (Ptr × ℤ)) → P key → Each P xs → Each P (insert_item z key xs)
  insert_item-Each P [] p w = (p, tt)
  insert_item-Each P ((x, k) ∷ xs) p (q, w) = elim (Bool-cases (ltb_ℤ key k)) [
    | inl t ↦ rw t (p, (q, w))
    | inr f ↦ rw f (q, insert_item-Each _ xs p w)
  ]

  pub insert_item-Ascending :
      (xs : List (Ptr × ℤ)) → Ascending xs → Ascending (insert_item z key xs)
  insert_item-Ascending [] w = (tt, tt)
  insert_item-Ascending ((x, k) ∷ xs) (p, w) = elim (Bool-cases (ltb_ℤ key k)) [
    | inl t ↦ rw t ((lt_le key k t, Each-map xs (λ a. trans_le key k a (lt_le key k t)) p), (p, w))
    | inr f ↦ rw f (insert_item-Each _ xs (ge_le key k f) p, insert_item-Ascending xs w)
  ]
