-- ===== src/SearchTree/Remove.antt =====
-- `removeNodeFromTree` of Data-Structures/tests/binary_search_tree.c.
use jungle_data_structures.Prelude.{
  ℕ, zero, suc, ◌<◌, ◌≡◌, ◌≢◌, refl, sym, ap, ◌∙◌, subst, false, inl, inr, Bool-cases, some, List,
  ◌++◌, ◌∷◌, ne→==, if◌then◌else◌, arith,
}
use mathlib.Core.List.{append-nil}
use jungle_data_structures.Prelude.Int.{ℤ, ltb_ℤ}
use jungle_data_structures.Prelude.Distinct.{has, outside_parts}
use jungle_data_structures.Prelude.Run.{done}
use jungle_data_structures.BinaryTree.Store.{Ptr, null, BtNode, bt_node, Store, load-done}
use jungle_data_structures.BinaryTree.Trees.{
  Tree, leaf, branch, height, top, addresses, inorder, IsTree,
}
use jungle_data_structures.SearchTree.Defs.{successor_loop}
use jungle_data_structures.SearchTree.Attach.{
  head_outside, rest_outside, cons_outside, append_outside,
}
use jungle_data_structures.SearchTree.Sorted.{
  Increasing, without, Increasing-append, without-left, without-right, without-same, without_first,
}

-- The item of the leftmost node, or `k` where there is none.
abbrev pub least : ℤ → Tree → ℤ
least k leaf = k
least k (branch l x v r) = least v l

-- A node is taken out of the tree: one with two sides stays and gets the next larger item, which is
-- taken out of its right side.
abbrev pub taken : Tree → Ptr → ℤ → Tree → Tree → Tree
taken leaf x m r r' = r
taken (branch a y u b) x m leaf r' = branch a y u b
taken (branch a y u b) x m (branch c z j d) r' = branch (branch a y u b) x m r'

abbrev pub removed : ℤ → Tree → Tree
removed v leaf = leaf
removed v (branch l x k r) =
    let low = removed v l in
    let high = removed v r in
    let rest = removed (least k r) r in
    if ltb_ℤ v k
    then branch low x k r
    else (if ltb_ℤ k v then branch l x k high else taken l x (least k r) r rest)

least-first :
    (k : ℤ) (a : Tree) (y : Ptr) (b : Tree)
    → (rest : List ℤ) × (inorder (branch a y k b) ≡ least k a ∷ rest)
least-first k leaf y b = (inorder b, refl)
least-first k (branch c z j d) y b =
    let (rest, e) = least-first j c z d in (rest ++ k ∷ inorder b, ap (λ s. s ++ k ∷ inorder b) e)

inorder-taken :
    (l : Tree) (x : Ptr) (k : ℤ) (r : Tree)
    → Increasing (inorder r)
    → inorder (removed (least k r) r) ≡ without (least k r) (inorder r)
    → inorder (taken l x (least k r) r (removed (least k r) r)) ≡ inorder l ++ inorder r
inorder-taken leaf x k r inc e = refl
inorder-taken (branch a y u b) x k leaf inc e = sym (append-nil (inorder (branch a y u b)))
inorder-taken (branch a y u b) x k (branch c z j d) inc e =
    let (rest, first) = least-first j c z d in
    ap (λ s. inorder (branch a y u b) ++ s)
      (ap (λ s. least j c ∷ s)
          (e
            ∙ ap (without (least j c)) first
            ∙ without_first (least j c) rest (subst Increasing first inc))
        ∙ sym first)

pub inorder-removed :
    (v : ℤ) (t : Tree) → Increasing (inorder t) → inorder (removed v t) ≡ without v (inorder t)
inorder-removed v leaf w = refl
inorder-removed v (branch l x k r) w =
    let (il, below, above, ir) = Increasing-append (inorder l) k (inorder r) w in
    elim (Bool-cases (ltb_ℤ v k)) [
      | inl t ↦ rw t (
          ap (λ s. s ++ k ∷ inorder r) (inorder-removed v l il)
          ∙ sym (without-left v k (inorder l) (inorder r) below above t))
      | inr f ↦ elim (Bool-cases (ltb_ℤ k v)) [
        | inl t ↦
            rw (f, t)
              (ap (λ s. inorder l ++ k ∷ s) (inorder-removed v r ir)
                ∙ sym (without-right v k (inorder l) (inorder r) below above t))
        | inr g ↦
            rw (f, g)
              (inorder-taken l x k r ir (inorder-removed (least k r) r ir)
                ∙ sym (without-same v k (inorder l) (inorder r) below above f g))
      ]
    ]

outside-taken :
    (a : Ptr) (l : Tree) (x : Ptr) (m : ℤ) (r r' : Tree)
    → a ≢ x
    → has a (addresses l) ≡ false
    → has a (addresses r) ≡ false
    → has a (addresses r') ≡ false
    → has a (addresses (taken l x m r r')) ≡ false
outside-taken a leaf x m r r' nx ol or or' = or
outside-taken a (branch c y u b) x m leaf r' nx ol or or' = ol
outside-taken a (branch c y u b) x m (branch e z j d) r' nx ol or or' =
    cons_outside a x (addresses (branch c y u b) ++ addresses r') nx
      (append_outside a (addresses (branch c y u b)) (addresses r') ol or')

pub outside-removed :
    (a : Ptr) (v : ℤ) (t : Tree)
    → has a (addresses t) ≡ false
    → has a (addresses (removed v t)) ≡ false
outside-removed a v leaf o = refl
outside-removed a v (branch l x k r) o =
    let nx = head_outside a x (addresses l ++ addresses r) o in
    let (ol, or) =
      outside_parts a (addresses l) (addresses r)
        (rest_outside a x (addresses l ++ addresses r) o) in
    elim (Bool-cases (ltb_ℤ v k)) [
      | inl t ↦ rw t (
          cons_outside a x (addresses (removed v l) ++ addresses r) nx (
            append_outside a (addresses (removed v l)) (addresses r) (outside-removed a v l ol) or))
      | inr f ↦ elim (Bool-cases (ltb_ℤ k v)) [
        | inl t ↦
            rw (f, t)
              (cons_outside a x (addresses l ++ addresses (removed v r)) nx (
                append_outside a (addresses l) (addresses (removed v r)) ol
                  (outside-removed a v r or)))
        | inr g ↦
            rw (f, g)
              (outside-taken a l x (least k r) r (removed (least k r) r) nx ol or
                (outside-removed a (least k r) r or))
      ]
    ]

-- `while (succ->left != NULL)` ends at the node with the least item.
pub successor_loop-least :
    (fuel : ℕ) (h : Store) (l : Tree) (x : Ptr) (v : ℤ) (r : Tree)
    → IsTree h (branch l x v r)
    → height l < fuel
    → (y : Ptr) × (n : BtNode) × (successor_loop fuel x h ≡ done y h)
      × (y ≢ null)
      × (h y ≡ some n)
      × (n.item ≡ least v l)
unfolding successor_loop
successor_loop-least zero h l x v r w lt = ground arith
successor_loop-least (suc fuel) h leaf x v r (nx, e, wl, wr) lt =
    let n : BtNode = bt_node v null (top r) in (x, n, rw (load-done h x n nx e) refl, nx, e, refl)
successor_loop-least (suc fuel) h (branch a y u b) x v r (nx, e, wl, wr) lt =
    let (z, m, run, nz, ez, em) = successor_loop-least fuel h a y u b wl (omega arith) in
    (z, m, rw (load-done h x (bt_node v y (top r)) nx e, ne→== y null wl.0) run, nz, ez, em)
