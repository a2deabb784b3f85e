-- ===== src/RbTree/Parts.antt =====
-- The five parts of the memory that a rotation works on (rbtree-lab/src/rbtree.c): the two nodes
-- `x` and `y`, the trees below them and the path above, while their links are not those of a tree.
use jungle_data_structures.Prelude.{
  ◌≡◌, ◌≢◌, refl, sym, ◌∙◌, ◌+◌, ◌≤◌, ◌==◌, if◌then◌else◌, some, Option, arith,
}
use jungle_data_structures.Prelude.Int.{ℤ}
use jungle_data_structures.Prelude.Run.{Outcome, done, Ends, continue}
use jungle_data_structures.RbTree.Store.{Ptr, null, Color, RbNode, Store, write}
use jungle_data_structures.RbTree.Trees.{Tree, leaf, branch, top, IsTree}
use jungle_data_structures.RbTree.Change.{Side, Heap, heap, set_parent}
use jungle_data_structures.RbTree.Steps.{cell, change_then, write_here, write_ne, same_eq, ne_eq}
use jungle_data_structures.RbTree.Zipper.{
  Trail, here, count, count_path, IsPath, here_self, ne_here, IsTree-write, IsPath-write,
}

module _ (nil : Ptr) (sn : Option RbNode) (s : Side) (x y : Ptr) (kx ky : ℤ) (cx cy : Color)
    (a b e : Tree) (up : Trail) where
  -- No address stands twice.
  abbrev pub IsApart : Type 0
  IsApart =
      (q : Ptr)
      → here x q + (here y q + (count q a + (count q b + (count q e + count_path q up)))) ≤ 1

  pub record Parts (px rx py ly pb q : Ptr) (h : Store) (root : Ptr) : Type 0 where
    pub at_x : h x ≡ some (cell s cx kx px (top nil a) rx)
    pub at_y : h y ≡ some (cell s cy ky py ly (top nil e))
    pub tree_a : IsTree h nil x a
    pub tree_b : IsTree h nil pb b
    pub tree_e : IsTree h nil y e
    pub path : IsPath nil h root q up
    pub sentinel : h nil ≡ sn

  module _ (apart : IsApart) (x_nil : x ≢ nil) (x_null : x ≢ null) (y_nil : y ≢ nil)
      (y_null : y ≢ null) where
    x_ne : x ≢ y
    x_ne = ne_here y x (omega (arith, apart x, here_self x))

    module _ (px rx py ly pb q : Ptr) (h : Store) (root : Ptr)
        (w : Parts px rx py ly pb q h root) where
      pub write_x :
          (p r : Ptr) → Parts p r py ly pb q (write h x (some (cell s cx kx p (top nil a) r))) root
      write_x p r = record {
        at_x = write_here h x _;
        at_y = write_ne h x y _ (λ e. x_ne (sym e)) ∙ w.at_y;
        tree_a = IsTree-write h nil x _ x a (omega (arith, apart x, here_self x)) w.tree_a;
        tree_b = IsTree-write h nil x _ pb b (omega (arith, apart x, here_self x)) w.tree_b;
        tree_e = IsTree-write h nil x _ y e (omega (arith, apart x, here_self x)) w.tree_e;
        path = IsPath-write h nil x _ root q up (omega (arith, apart x, here_self x)) w.path;
        sentinel = write_ne h x nil _ (λ e. x_nil (sym e)) ∙ w.sentinel;
      }

      pub write_y :
          (p l : Ptr) → Parts px rx p l pb q (write h y (some (cell s cy ky p l (top nil e)))) root
      write_y p l = record {
        at_x = write_ne h y x _ x_ne ∙ w.at_x;
        at_y = write_here h y _;
        tree_a = IsTree-write h nil y _ x a (omega (arith, apart y, here_self y)) w.tree_a;
        tree_b = IsTree-write h nil y _ pb b (omega (arith, apart y, here_self y)) w.tree_b;
        tree_e = IsTree-write h nil y _ y e (omega (arith, apart y, here_self y)) w.tree_e;
        path = IsPath-write h nil y _ root q up (omega (arith, apart y, here_self y)) w.path;
        sentinel = write_ne h y nil _ (λ e. y_nil (sym e)) ∙ w.sentinel;
      }

      -- A write at a node of `b` or of the path.
      pub write_else :
          (z : Ptr) (m : RbNode) (pc qc : Ptr)
          → z ≢ nil
          → 1 ≤ count z b + count_path z up
          → IsTree (write h z (some m)) nil pc b
          → IsPath nil (write h z (some m)) root qc up
          → Parts px rx py ly pc qc (write h z (some m)) root
      write_else z m pc qc z_nil z_in i j = record {
        at_x = write_ne h z x _ (ne_inside z x (omega (arith, apart z))) ∙ w.at_x;
        at_y = write_ne h z y _ (ne_inside z y (omega (arith, apart z))) ∙ w.at_y;
        tree_a = IsTree-write h nil z _ x a (omega (arith, apart z)) w.tree_a;
        tree_b = i;
        tree_e = IsTree-write h nil z _ y e (omega (arith, apart z)) w.tree_e;
        path = j;
        sentinel = write_ne h z nil _ (λ e. z_nil (sym e)) ∙ w.sentinel;
      }
        where
          ne_inside : (z x : Ptr) → here x z ≡ 0 → x ≢ z
          ne_inside z x o e = ne_here x z o (sym e)

module _ (nil : Ptr) (sn : Option RbNode) (s : Side) (x y : Ptr) (kx ky : ℤ) (cx cy : Color)
    (a : Tree) where
  -- `if (x_right->left != t->nil) x_right->left->parent = x`.
  pub set_b_then :
      (b e : Tree) (up : Trail)
      → IsApart nil sn s x y kx ky cx cy a b e up
      → x ≢ nil
      → x ≢ null
      → y ≢ nil
      → y ≢ null
      → (px rx py ly q : Ptr) (h : Store) (root : Ptr)
      → Parts nil sn s x y kx ky cx cy a b e up px rx py ly y q h root
      → {B : Type 0} {Q : B → Heap → Type 0} (k : Unit {0} → Heap → Outcome Heap B)
      → ((g : Store)
          → Parts nil sn s x y kx ky cx cy a b e up px rx py ly x q g root
          → Ends Q (k tt (heap g root)))
      → Ends Q (
          continue
            ((if top nil b == nil then done tt else set_parent (top nil b) x) (heap h root))
            k)
  set_b_then leaf e up apart xn xz yn yz px rx py ly q h root w k f = rw (same_eq nil nil refl) (
      f h (record {
        at_x = w.at_x;
        at_y = w.at_y;
        tree_a = w.tree_a;
        tree_b = tt;
        tree_e = w.tree_e;
        path = w.path;
        sentinel = w.sentinel;
      }))
  set_b_then (branch l z kz c r) e up apart xn xz yn yz px rx py ly q h root w k f =
      let (zn, zz, at, i, j) = w.tree_b in
      rw (ne_eq z nil zn) (
        change_then h root z zz _ at _ k _ refl (
          f _ (
            write_else nil sn s x y kx ky cx cy a (branch l z kz c r) e up apart xn xz yn yz px rx
              py ly y q h root w z _ x q zn (omega (arith, here_self z))
              (
                zn,
                zz,
                write_here h z _,
                IsTree-write h nil z _ z l (omega (arith, apart z, here_self z)) i,
                IsTree-write h nil z _ z r (omega (arith, apart z, here_self z)) j,
              )
              (IsPath-write h nil z _ root q up (omega (arith, apart z, here_self z)) w.path))))
