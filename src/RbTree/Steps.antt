-- ===== src/RbTree/Steps.antt =====
-- Single reads and writes of rbtree-lab/src/rbtree.c at a node that is known.
use jungle_data_structures.Prelude.{
  ◌≡◌, ◌≢◌, refl, sym, subst, true, false, ◌==◌, Option, some, ◌∙◌, ap, arith,
}
use jungle_data_structures.Prelude.Int.{ℤ}
use jungle_data_structures.Prelude.Run.{Outcome, done, Ends, Ends-done, continue}
use jungle_data_structures.RbTree.Store.{Ptr, null, Color, RbNode, rb_node, Store, write}
use jungle_data_structures.RbTree.Change.{
  Side, left_side, right_side, other, child, with_child, Heap, heap, get, change, with_parent,
  with_color,
}

-- A node whose child at the side `s` is `a`, and whose other child is `b`.
abbrev pub cell : Side → Color → ℤ → (parent a b : Ptr) → RbNode
cell left_side c k p a b = rb_node c k p a b
cell right_side c k p a b = rb_node c k p b a

module _ (c : Color) (k : ℤ) (p a b : Ptr) where
  pub child_near : (s : Side) → child s (cell s c k p a b) ≡ a
  child_near left_side = refl
  child_near right_side = refl

  pub child_far : (s : Side) → child (other s) (cell s c k p a b) ≡ b
  child_far left_side = refl
  child_far right_side = refl

  pub cell_parent : (s : Side) → (cell s c k p a b).parent ≡ p
  cell_parent left_side = refl
  cell_parent right_side = refl

  pub cell_color : (s : Side) → (cell s c k p a b).color ≡ c
  cell_color left_side = refl
  cell_color right_side = refl

  pub cell_key : (s : Side) → (cell s c k p a b).key ≡ k
  cell_key left_side = refl
  cell_key right_side = refl

  pub with_near : (s : Side) (q : Ptr) → with_child s q (cell s c k p a b) ≡ cell s c k p q b
  with_near left_side q = refl
  with_near right_side q = refl

  pub with_far : (s : Side) (q : Ptr) → with_child (other s) q (cell s c k p a b) ≡ cell s c k p a q
  with_far left_side q = refl
  with_far right_side q = refl

  pub with_parent_lem : (s : Side) (q : Ptr) → with_parent q (cell s c k p a b) ≡ cell s c k q a b
  with_parent_lem left_side q = refl
  with_parent_lem right_side q = refl

  pub with_color_lem : (s : Side) (d : Color) → with_color d (cell s c k p a b) ≡ cell s d k p a b
  with_color_lem left_side d = refl
  with_color_lem right_side d = refl

pub write_here : (h : Store) (p : Ptr) (c : Option RbNode) → write h p c p ≡ c
unfolding write
write_here h p c = ground arith

pub write_ne : (h : Store) (p a : Ptr) (c : Option RbNode) → a ≢ p → write h p c a ≡ h a
unfolding write
write_ne h p a c ne = ground arith

module _ (h : Store) (r p : Ptr) (ne : p ≢ null) (n : RbNode) (e : h p ≡ some n) where
  get-done : {A : Type 0} (f : RbNode → A) → get p f (heap h r) ≡ done (f n) (heap h r)
  unfolding get
  get-done f = ground arith

  change-done :
      (f : RbNode → RbNode) → change p f (heap h r) ≡ done tt (heap (write h p (some (f n))) r)
  unfolding change
  change-done f = ground arith

  pub get_step :
      {A B : Type 0} (f : RbNode → A) (k : A → Heap → Outcome Heap B) (v : A)
      → f n ≡ v
      → continue (get p f (heap h r)) k ≡ k v (heap h r)
  get_step f k v fv = ap (λ o. continue o k) (get-done f ∙ ap (λ u. done u (heap h r)) fv)

  module _ {B : Type 0} {Q : B → Heap → Type 0} where
    pub get_then :
        {A : Type 0} (f : RbNode → A) (k : A → Heap → Outcome Heap B) (v : A)
        → f n ≡ v
        → Ends Q (k v (heap h r))
        → Ends Q (continue (get p f (heap h r)) k)
    get_then f k v fv w = subst (Ends Q) (sym (get_step f k v fv)) w

    pub change_then :
        (f : RbNode → RbNode) (k : Unit {0} → Heap → Outcome Heap B) (m : RbNode)
        → f n ≡ m
        → Ends Q (k tt (heap (write h p (some m)) r))
        → Ends Q (continue (change p f (heap h r)) k)
    change_then f k m fm w =
        subst (Ends Q)
          (sym (
            ap (λ o. continue o k)
              (change-done f ∙ ap (λ u. done tt (heap (write h p (some u)) r)) fm)))
          w

  -- The last step of a function.
  pub change_last :
      {Q : Unit {0} → Heap → Type 0} (f : RbNode → RbNode) (m : RbNode)
      → f n ≡ m
      → Q tt (heap (write h p (some m)) r)
      → Ends Q (change p f (heap h r))
  change_last {Q} f m fm w =
      subst (Ends Q) (sym (change-done f ∙ ap (λ u. done tt (heap (write h p (some u)) r)) fm))
        (Ends-done w)

pub same_eq : (p q : Ptr) → p ≡ q → (p == q) ≡ true
same_eq p q e = ground arith

pub ne_eq : (p q : Ptr) → p ≢ q → (p == q) ≡ false
ne_eq p q e = ground arith
