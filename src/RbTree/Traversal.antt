-- ===== src/RbTree/Traversal.antt =====
-- `inorder_traversal` and `rbtree_to_array` of rbtree-lab/src/rbtree.c.
use jungle_data_structures.Prelude.{
  ℕ, zero, suc, ◌+◌, ◌<◌, ◌≤◌, ◌≡◌, ◌≢◌, ◌⊎◌, refl, sym, ap, ap₂, ◌∙◌, subst, inl, inr, some, List,
  [], ◌∷◌, ◌++◌, length, length-append, set, lt→ltb, ne→==, eq→==, arith,
}
use mathlib.Core.List.{append_assoc}
use jungle_data_structures.Prelude.Int.{ℤ}
use jungle_data_structures.Prelude.Run.{Outcome, done, fault}
use jungle_data_structures.RbTree.Store.{Ptr, null, rb_node, RbNode, Store}
use jungle_data_structures.RbTree.Defs.{
  RbTree, Target, Fill, put, with_node, inorder_traversal, rbtree_to_array,
}
use jungle_data_structures.RbTree.Trees.{Tree, leaf, branch, keys, height, top, IsTree, Holds}

abbrev pub target : List ℤ → ℕ → Target
target arr i = record { arr = arr; index = i }

-- An array after keys have been written from an index on.
abbrev filled : List ℤ → ℕ → List ℤ → List ℤ
filled arr i [] = arr
filled arr i (k ∷ ks) = filled (set arr i k) (i + 1) ks

length-set : (arr : List ℤ) (i : ℕ) (k : ℤ) → length (set arr i k) ≡ length arr
length-set [] i k = refl
length-set (x ∷ arr) zero k = refl
length-set (x ∷ arr) (suc i) k = ap suc (length-set arr i k)

length-filled : (arr : List ℤ) (i : ℕ) (ks : List ℤ) → length (filled arr i ks) ≡ length arr
length-filled arr i [] = refl
length-filled arr i (k ∷ ks) = length-filled (set arr i k) (i + 1) ks ∙ length-set arr i k

filled-append :
    (arr : List ℤ) (i : ℕ) (ks ms : List ℤ)
    → filled arr i (ks ++ ms) ≡ filled (filled arr i ks) (i + length ks) ms
filled-append arr i [] ms = ap (λ j. filled arr j ms) (omega arith)
filled-append arr i (k ∷ ks) ms =
    filled-append (set arr i k) (i + 1) ks ms
    ∙ ap (λ j. filled (filled (set arr i k) (i + 1) ks) j ms) (omega arith)

lt-or-le : (a b : ℕ) → (a < b) ⊎ (b ≤ a)
lt-or-le a b = omega arith

with_node-done :
    (h : Store) (x : Ptr) (n : RbNode) (k : RbNode → Fill) (s : Target)
    → x ≢ null
    → h x ≡ some n
    → with_node h x k s ≡ k n s
unfolding with_node
with_node-done h x n k s ne e = rw (ne→== x null ne, e) refl

put-done :
    (k : ℤ) (arr : List ℤ) (i : ℕ)
    → i < length arr
    → put k (target arr i) ≡ done tt (target (set arr i k) (i + 1))
unfolding put
put-done k arr i lt = rw (lt→ltb i (length arr) lt) refl

put-fault : (k : ℤ) (arr : List ℤ) (i : ℕ) → length arr ≤ i → put k (target arr i) ≡ fault
unfolding put
put-fault k arr i le = ground arith

module _ (h : Store) (t : RbTree) where
  inorder_traversal-filled :
      (fuel : ℕ) (p : Ptr) (s : Tree) (arr : List ℤ) (i : ℕ)
      → IsTree h t.nil p s
      → height s < fuel
      → i + length (keys s) ≤ length arr
      → inorder_traversal fuel h t (top t.nil s) (target arr i)
        ≡ done tt (target (filled arr i (keys s)) (i + length (keys s)))
  unfolding inorder_traversal
  inorder_traversal-filled zero p s arr i w lt room = ground arith
  inorder_traversal-filled (suc fuel) p leaf arr i w lt room =
      rw (eq→== t.nil t.nil refl) (ap (λ j. done tt (target arr j)) (omega arith))
  inorder_traversal-filled (suc fuel) p (branch l x k c r) arr i (nn, nx, e, wl, wr) lt room =
      let n : RbNode = rb_node c k p (top t.nil l) (top t.nil r) in
      let size = length-append (keys l) (k ∷ keys r) in
      let a1 : List ℤ = filled arr i (keys l) in
      let i1 : ℕ = i + length (keys l) in
      let l1 : length a1 ≡ length arr = length-filled arr i (keys l) in
      let l2 : length (set a1 i1 k) ≡ length a1 = length-set a1 i1 k in
      rw (ne→== x t.nil nn) (
        with_node-done h x n _ (target arr i) nx e
        ∙ (rw
            (
              inorder_traversal-filled fuel x l arr i wl (omega arith) (omega arith),
              put-done k a1 i1 (omega arith),
              inorder_traversal-filled fuel x r (set a1 i1 k) (i1 + 1) wr (omega arith)
                  (omega arith),
            )
            (ap₂ (λ a j. done tt (target a j)) (sym (filled-append arr i (keys l) (k ∷ keys r)))
              (omega arith))))

  -- An array that is too short is overrun.
  inorder_traversal-fault :
      (fuel : ℕ) (p : Ptr) (s : Tree) (arr : List ℤ) (i : ℕ)
      → IsTree h t.nil p s
      → height s < fuel
      → i ≤ length arr
      → length arr < i + length (keys s)
      → inorder_traversal fuel h t (top t.nil s) (target arr i) ≡ fault
  unfolding inorder_traversal
  inorder_traversal-fault zero p s arr i w lt le over = ground arith
  inorder_traversal-fault (suc fuel) p leaf arr i w lt le over = ground arith
  inorder_traversal-fault (suc fuel) p (branch l x k c r) arr i (nn, nx, e, wl, wr) lt le over =
      let n : RbNode = rb_node c k p (top t.nil l) (top t.nil r) in
      let size = length-append (keys l) (k ∷ keys r) in
      let a1 : List ℤ = filled arr i (keys l) in
      let i1 : ℕ = i + length (keys l) in
      let l1 : length a1 ≡ length arr = length-filled arr i (keys l) in
      let l2 : length (set a1 i1 k) ≡ length a1 = length-set a1 i1 k in
      rw (ne→== x t.nil nn) (
        with_node-done h x n _ (target arr i) nx e ∙ elim (lt-or-le (length arr) i1) [
          | inl short ↦ rw (inorder_traversal-fault fuel x l arr i wl (omega arith) le short) refl
          | inr fits ↦ elim (lt-or-le i1 (length arr)) [
            | inl room ↦
                rw
                  (
                    inorder_traversal-filled fuel x l arr i wl (omega arith) (omega arith),
                    put-done k a1 i1 (omega arith),
                    inorder_traversal-fault fuel x r (set a1 i1 k) (i1 + 1) wr (omega arith)
                        (omega arith) (omega arith),
                  )
                  refl
            | inr full ↦
                rw
                  (
                    inorder_traversal-filled fuel x l arr i wl (omega arith) (omega arith),
                    put-fault k a1 i1 (omega arith),
                  )
                  refl
          ]
        ])

abbrev pub drop : ℕ → List ℤ → List ℤ
drop zero xs = xs
drop (suc n) [] = []
drop (suc n) (x ∷ xs) = drop n xs

set_at_length : (pre arr : List ℤ) (x k : ℤ) → set (pre ++ x ∷ arr) (length pre) k ≡ pre ++ k ∷ arr
set_at_length [] arr x k = refl
set_at_length (y ∷ pre) arr x k = ap (λ r. y ∷ r) (set_at_length pre arr x k)

filled-drop :
    (pre arr ks : List ℤ)
    → length ks ≤ length arr
    → filled (pre ++ arr) (length pre) ks ≡ pre ++ (ks ++ drop (length ks) arr)
filled-drop pre arr [] le = refl
filled-drop pre [] (k ∷ ks) le = ground arith
filled-drop pre (x ∷ arr) (k ∷ ks) le =
    let size = length-append pre (k ∷ []) in
    ap (λ a. filled a (length pre + 1) ks)
      (set_at_length pre arr x k ∙ sym (append_assoc pre (k ∷ []) arr))
    ∙ ap (λ j. filled ((pre ++ k ∷ []) ++ arr) j ks) (omega arith)
    ∙ filled-drop (pre ++ k ∷ []) arr ks (omega arith)
    ∙ append_assoc pre (k ∷ []) (ks ++ drop (length ks) arr)

module _ (h : Store) (t : RbTree) (fuel : ℕ) (s : Tree) (arr : List ℤ) (n : ℕ) (w : Holds h t s)
    (lt : height s < fuel) where
  traverse :
      (r : Outcome Target (Unit {0}))
      → inorder_traversal fuel h t (top t.nil s) (target arr 0) ≡ r
      → inorder_traversal fuel h t t.root (target arr 0) ≡ r
  traverse r e = subst (λ q. inorder_traversal fuel h t q (target arr 0) ≡ r) (sym w.root) e

  -- `rbtree_to_array` writes the keys in order to the front of an array that has room for them,
  -- leaves the rest of it, and returns how many there are; one round more than the tree is high is
  -- enough.
  pub rbtree_to_array-keys :
      length (keys s) ≤ length arr
      → rbtree_to_array fuel h t arr n
        ≡ done (length (keys s)) (target (keys s ++ drop (length (keys s)) arr) (length (keys s)))
  unfolding rbtree_to_array
  rbtree_to_array-keys room =
      rw (traverse _ (inorder_traversal-filled h t fuel t.nil s arr 0 w.nodes lt (omega arith)))
        (ap₂ (λ a j. done j (target a j)) (filled-drop [] arr (keys s) room) (omega arith))

  -- `rbtree_to_array` overruns an array with fewer elements than there are keys, whatever `n` says.
  pub rbtree_to_array-fault : length arr < length (keys s) → rbtree_to_array fuel h t arr n ≡ fault
  unfolding rbtree_to_array
  rbtree_to_array-fault over =
      rw
        (traverse fault
          (inorder_traversal-fault h t fuel t.nil s arr 0 w.nodes lt (omega arith) (omega arith)))
        refl
