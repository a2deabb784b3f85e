-- ===== src/BinaryTree/Mirror.antt =====
-- `mirrorTree` of Data-Structures/tests/binary_tree.c.
use jungle_data_structures.Prelude.{
  ℕ, zero, suc, ◌<◌, ◌≡◌, ◌≢◌, refl, sym, ap₂, ◌∙◌, subst, true, false, some, List, ◌++◌, ◌∷◌, ◌==◌,
  ne→==, if◌then◌else◌, arith,
}
use jungle_data_structures.Prelude.Int.{ℤ}
use jungle_data_structures.Prelude.Distinct.{
  has, Distinct, has-append, outside_parts, Distinct-append,
}
use jungle_data_structures.Prelude.Run.{Outcome, done, ◌>>◌}
use jungle_data_structures.BinaryTree.Store.{
  Ptr, null, bt_node, Store, write, load-done, set_left-done, set_right-done, write_self,
}
use jungle_data_structures.BinaryTree.Trees.{
  Tree, leaf, branch, height, top, addresses, IsTree, SameOutside, IsTree-frame,
}
use jungle_data_structures.BinaryTree.Defs.{mirror_tree}

abbrev pub mirror : Tree → Tree
mirror leaf = leaf
mirror (branch l x v r) = branch (mirror r) x v (mirror l)

top-mirror : (s : Tree) → top (mirror s) ≡ top s
top-mirror leaf = refl
top-mirror (branch l x v r) = refl

has-mirror : (a : Ptr) (s : Tree) → has a (addresses (mirror s)) ≡ has a (addresses s)
has-mirror a leaf = refl
has-mirror a (branch l x v r) = ground (
  arith,
  has-mirror a l,
  has-mirror a r,
  has-append a (addresses l) (addresses r),
  has-append a (addresses (mirror r)) (addresses (mirror l)),
)

swapped : Store → (x l r : Ptr) → ℤ → Store
swapped h x l r v = write (write h x (some (bt_node v r r))) x (some (bt_node v r l))

mirror_tree-null : (fuel : ℕ) (h : Store) → mirror_tree (suc fuel) null h ≡ done tt h
unfolding mirror_tree
mirror_tree-null fuel h = refl

done_state :
    {A : Type 0} {a b : A} {h k : Store} → ◌≡◌ {A = Outcome Store A} (done a h) (done b k) → h ≡ k
done_state e = cc

apart_other :
    (a : Ptr) (l r : Tree)
    → ((b : Ptr) → has b (addresses r) ≡ true → has b (addresses l) ≡ false)
    → has a (addresses l) ≡ true
    → has a (addresses r) ≡ false
apart_other a l r apart i = ground (arith, apart a)

-- The calls on the two sides; a side without nodes is left out, which comes to the same.
both :
    (fuel : ℕ) (h g k : Store) (l r : Tree)
    → IsTree h l
    → IsTree h r
    → mirror_tree (suc fuel) (top r) h ≡ done tt g
    → mirror_tree (suc fuel) (top l) g ≡ done tt k
    → (if top r == null
          then mirror_tree (suc fuel) (top l)
          else (if top l == null
              then mirror_tree (suc fuel) (top r)
              else (mirror_tree (suc fuel) (top r) >> mirror_tree (suc fuel) (top l))))
        h
      ≡ done tt k
both fuel h g k l leaf w z p q =
    let e : h ≡ g = done_state (sym (mirror_tree-null fuel h) ∙ p) in
    subst (λ t. mirror_tree (suc fuel) (top l) t ≡ done tt k) (sym e) q
both fuel h g k leaf (branch c y j d) w z p q =
    rw (ne→== y null z.0) (p ∙ sym (mirror_tree-null fuel g) ∙ q)
both fuel h g k (branch a x v b) (branch c y j d) w z p q =
    rw (ne→== y null z.0, ne→== x null w.0, p) q

-- The two writes at the node, and then the sides.
mirror_tree-step :
    (fuel : ℕ) (h : Store) (x l r : Ptr) (v : ℤ)
    → x ≢ null
    → h x ≡ some (bt_node v l r)
    → mirror_tree (suc fuel) x h
      ≡ (if r == null
            then mirror_tree fuel l
            else (if l == null
                then mirror_tree fuel r
                else (mirror_tree fuel r >> mirror_tree fuel l)))
          (swapped h x l r v)
unfolding mirror_tree swapped
mirror_tree-step fuel h x l r v nx e =
    let h1 : Store = write h x (some (bt_node v r r)) in
    let h2 : Store = write h1 x (some (bt_node v r l)) in
    let e1 : h1 x ≡ some (bt_node v r r) = write_self h x (some (bt_node v r r)) in
    let e2 : h2 x ≡ some (bt_node v r l) = write_self h1 x (some (bt_node v r l)) in
    rw
      (
        ne→== x null nx,
        load-done h x (bt_node v l r) nx e,
        set_left-done h x (bt_node v l r) nx e r,
        set_right-done h1 x (bt_node v r r) nx e1 l,
        load-done h2 x (bt_node v r l) nx e2,
      )
      refl

swapped_self : (h : Store) (x l r : Ptr) (v : ℤ) → swapped h x l r v x ≡ some (bt_node v r l)
unfolding swapped write
swapped_self h x l r v = ground arith

swapped_other : (h : Store) (x l r a : Ptr) (v : ℤ) → a ≢ x → swapped h x l r v a ≡ h a
unfolding swapped write
swapped_other h x l r a v ne = ground arith

ne_of_has : (a x : Ptr) (xs : List Ptr) → has a xs ≡ true → has x xs ≡ false → a ≢ x
ne_of_has a x xs i o e = ground (arith, e, i, o)

ne_of_outside : (a x : Ptr) (xs : List Ptr) → has a (x ∷ xs) ≡ false → a ≢ x
ne_of_outside a x xs o e = ground (arith, e, o)

rest_outside : (a x : Ptr) (xs : List Ptr) → has a (x ∷ xs) ≡ false → has a xs ≡ false
rest_outside a x xs o = ground arith

-- `mirrorTree` exchanges the sides of every node and changes nothing outside of the tree; one round
-- more than the tree is high is enough.
pub mirror_tree-mirror :
    (fuel : ℕ) (h : Store) (s : Tree)
    → IsTree h s
    → Distinct (addresses s)
    → height s < fuel
    → (g : Store) × (mirror_tree fuel (top s) h ≡ done tt g)
      × IsTree g (mirror s)
      × SameOutside (addresses s) h g
mirror_tree-mirror zero h s w d lt = ground arith
mirror_tree-mirror (suc fuel) h leaf w d lt = (h, mirror_tree-null fuel h, tt, λ a o. refl)
mirror_tree-mirror (suc zero) h (branch l x v r) w d lt = ground arith
mirror_tree-mirror (suc (suc fuel)) h (branch l x v r) (nx, e, wl, wr) (dx, d) lt =
    let (xl, xr) = outside_parts x (addresses l) (addresses r) dx in
    let (dl, dr, apart) = Distinct-append (addresses l) (addresses r) d in
    let h1 : Store = swapped h x (top l) (top r) v in
    let wl1 =
      IsTree-frame h h1 l wl
        (λ a i. swapped_other h x (top l) (top r) a v (ne_of_has a x (addresses l) i xl)) in
    let wr1 =
      IsTree-frame h h1 r wr
        (λ a i. swapped_other h x (top l) (top r) a v (ne_of_has a x (addresses r) i xr)) in
    let (g, right, wg, sg) = mirror_tree-mirror (suc fuel) h1 r wr1 dr (omega arith) in
    let wl2 = IsTree-frame h1 g l wl1 (λ a i. sg a (apart_other a l r apart i)) in
    let (k, left, wk, sk) = mirror_tree-mirror (suc fuel) g l wl2 dl (omega arith) in
    let wr2 = IsTree-frame g k (mirror r) wg (λ a i. sk a (apart a (sym (has-mirror a r) ∙ i))) in
    (
      k,
      mirror_tree-step (suc fuel) h x (top l) (top r) v nx e
          ∙ both fuel h1 g k l r wl1 wr1 right left,
      (
        nx,
        sk x xl
            ∙ sg x xr
            ∙ swapped_self h x (top l) (top r) v
            ∙ ap₂ (λ a b. some (bt_node v a b)) (sym (top-mirror r)) (sym (top-mirror l)),
        wr2,
        wk,
      ),
      λ a o.
          let (ol, or) =
            outside_parts a (addresses l) (addresses r)
              (rest_outside a x (addresses l ++ addresses r) o) in
          sk a ol
          ∙ sg a or
          ∙ swapped_other h x (top l) (top r) a v
              (ne_of_outside a x (addresses l ++ addresses r) o),
    )
