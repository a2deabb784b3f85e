-- ===== src/RbTree/Focus.antt =====
-- A tree of rbtree-lab/src/rbtree.c in memory, seen from one of its places: how the place moves, and
-- what a new colour and a rotation do there.
use jungle_data_structures.Prelude.{
  ◌≡◌, ◌≢◌, refl, sym, subst, ◌∙◌, ap, ◌+◌, ◌≤◌, some, List, [], ◌∷◌, ◌++◌, arith,
}
use jungle_data_structures.Prelude.Int.{ℤ}
use jungle_data_structures.Prelude.Run.{Outcome, continue, Ends, Ends-map}
use jungle_data_structures.RbTree.RedBlack.{tone}
use jungle_data_structures.RbTree.Store.{Ptr, null, Color, black, RbNode, write}
use jungle_data_structures.RbTree.Trees.{Tree, leaf, branch, top, IsTree}
use jungle_data_structures.RbTree.Change.{
  Side, left_side, right_side, other, Heap, heap, rotate, set_color, get_color,
}
use jungle_data_structures.RbTree.Steps.{
  cell, write_here, write_ne, with_color_lem, change_then, get_then,
}
use jungle_data_structures.RbTree.Zipper.{
  Trail, frame, above, plug, join, here, count, count_path, count-join, IsPath, IsTree-parts,
  IsTree-join, top-join, here_self, IsTree-write, IsPath-write,
}
use jungle_data_structures.RbTree.Rotate.{rotate-Parts}

-- The nodes from left to right, each with its key.
abbrev pub items : Tree → List (Ptr × ℤ)
items leaf = []
items (branch l x k c r) = items l ++ ((x, k) ∷ items r)

pub items-plug :
    (up : Trail) (t u : Tree) → items t ≡ items u → items (plug up t) ≡ items (plug up u)
items-plug [] t u e = e
items-plug (frame left_side x k c b ∷ up) t u e =
    items-plug up (branch t x k c b) (branch u x k c b) (ap (λ r. r ++ (x, k) ∷ items b) e)
items-plug (frame right_side x k c b ∷ up) t u e =
    items-plug up (branch b x k c t) (branch b x k c u) (ap (λ r. items b ++ (x, k) ∷ r) e)

-- The tree below the place is `t`; `n` is the sentinel.
pub record Focus (nil : Ptr) (n : RbNode) (m : Heap) (up : Trail) (t : Tree) : Type 0 where
  pub path : IsPath nil m.nodes m.root (top nil t) up
  pub tree : IsTree m.nodes nil (above nil up) t
  pub apart : (q : Ptr) → count q t + count_path q up ≤ 1
  pub sentinel : m.nodes nil ≡ some n

pub join-other :
    (s : Side) (a : Tree) (x : Ptr) (k : ℤ) (c : Color) (b : Tree)
    → join (other s) a x k c b ≡ join s b x k c a
join-other left_side a x k c b = refl
join-other right_side a x k c b = refl

module _ {nil : Ptr} {n : RbNode} {m : Heap} {up : Trail} (s : Side) (x : Ptr) (k : ℤ)
    (c : Color) where
  pub move_up :
      {t b : Tree} → Focus nil n m (frame s x k c b ∷ up) t → Focus nil n m up (join s t x k c b)
  move_up {t} {b} w =
      let (xn, xz, at, i, j) = w.path in
      record {
        path =
            subst (λ p. IsPath nil m.nodes m.root p up) (sym (top-join m.nodes nil x t x k c b s))
              j;
        tree = IsTree-join m.nodes nil (above nil up) t x k c b s (xn, xz, at, w.tree, i);
        apart = λ q. omega (arith, w.apart q, count-join q s t x k c b);
        sentinel = w.sentinel;
      }

  pub move_down :
      {t b : Tree} → Focus nil n m up (join s t x k c b) → Focus nil n m (frame s x k c b ∷ up) t
  move_down {t} {b} w =
      let (xn, xz, at, i, j) = IsTree-parts m.nodes nil (above nil up) t x k c b s w.tree in
      record {
        path = (
          xn,
          xz,
          at,
          j,
          subst (λ p. IsPath nil m.nodes m.root p up) (top-join m.nodes nil x t x k c b s) w.path,
        );
        tree = i;
        apart = λ q. omega (arith, w.apart q, count-join q s t x k c b);
        sentinel = w.sentinel;
      }

  pub recolor :
      (d : Color) (t b : Tree)
      → Focus nil n m up (join s t x k c b)
      → Focus nil n
          (heap (write m.nodes x (some (cell s d k (above nil up) (top nil t) (top nil b)))) m.root)
          up
          (join s t x k d b)
  recolor d t b w =
      let new = cell s d k (above nil up) (top nil t) (top nil b) in
      let g = write m.nodes x (some new) in
      let (xn, xz, at, i, j) = IsTree-parts m.nodes nil (above nil up) t x k c b s w.tree in
      let z : (1 ≤ 1 + count x t + count x b) × (count x t + (count x b + count_path x up) ≤ 0) =
        (omega arith, omega (arith, w.apart x, count-join x s t x k c b, here_self x)) in
      record {
        path =
            subst (λ p. IsPath nil g m.root p up) (sym (top-join m.nodes nil x t x k d b s))
              (IsPath-write m.nodes nil x new m.root x up (omega (arith, z.1)) (
                subst (λ p. IsPath nil m.nodes m.root p up) (top-join m.nodes nil x t x k c b s)
                  w.path));
        tree = IsTree-join g nil (above nil up) t x k d b s (
          xn,
          xz,
          write_here m.nodes x _,
          IsTree-write m.nodes nil x new x t (omega (arith, z.1)) i,
          IsTree-write m.nodes nil x new x b (omega (arith, z.1)) j,
        );
        apart = λ q. omega (arith, w.apart q, count-join q s t x k c b, count-join q s t x k d b);
        sentinel = write_ne m.nodes x nil _ (λ e. xn (sym e)) ∙ w.sentinel;
      }

module _ {nil : Ptr} {n : RbNode} {m : Heap} {up : Trail} (s : Side) (x y : Ptr) (kx ky : ℤ)
    (cx cy : Color) (a b e : Tree) where
  -- A rotation at the node `x` of a tree, towards the side `s`, where `x` has a child `y` at the
  -- other side: `y` takes the place of `x`, `x` becomes the child of `y` at the side `s`, and the tree
  -- between them goes from `y` to `x`. All other links, the colours and the sentinel stay.
  pub rotate-Focus :
      Focus nil n m up (join s a x kx cx (join s b y ky cy e))
      → Ends (λ _. λ g. Focus nil n g up (join s (join s a x kx cx b) y ky cy e)) (rotate s nil x m)
  rotate-Focus w =
      let (xn, xz, at_x, i, j) =
        IsTree-parts m.nodes nil (above nil up) a x kx cx (join s b y ky cy e) s w.tree in
      let (yn, yz, at_y, k, l) = IsTree-parts m.nodes nil x b y ky cy e s j in
      Ends-map
        (rotate-Parts nil (some n) s x y kx ky cx cy a b e up (λ q. same_nodes q (w.apart q)) xn xz
          yn yz m.nodes m.root
          (record {
            at_x =
                subst (λ p. m.nodes x ≡ some (cell s cx kx (above nil up) (top nil a) p))
                  (top-join m.nodes nil x b y ky cy e s) at_x;
            at_y = at_y;
            tree_a = i;
            tree_b = k;
            tree_e = l;
            path =
                subst (λ p. IsPath nil m.nodes m.root p up)
                  (top-join m.nodes nil x a x kx cx (join s b y ky cy e) s) w.path;
            sentinel = w.sentinel;
          }))
        (λ _ g v. record {
          path =
              subst (λ p. IsPath nil g.nodes g.root p up)
                (sym (top-join m.nodes nil x (join s a x kx cx b) y ky cy e s)) v.path;
          tree = IsTree-join g.nodes nil (above nil up) (join s a x kx cx b) y ky cy e s (
            yn,
            yz,
            subst (λ p. g.nodes y ≡ some (cell s cy ky (above nil up) p (top nil e)))
                (sym (top-join m.nodes nil x a x kx cx b s)) v.at_y,
            IsTree-join g.nodes nil y a x kx cx b s (xn, xz, v.at_x, v.tree_a, v.tree_b),
            v.tree_e,
          );
          apart = λ q. turned_nodes q (w.apart q);
          sentinel = v.sentinel;
        })
    where
      same_nodes :
          (q : Ptr)
          → count q (join s a x kx cx (join s b y ky cy e)) + count_path q up ≤ 1
          → here x q + (here y q + (count q a + (count q b + (count q e + count_path q up)))) ≤ 1
      same_nodes q l =
          omega
            (arith, l, count-join q s a x kx cx (join s b y ky cy e), count-join q s b y ky cy e)

      turned_nodes :
          (q : Ptr)
          → count q (join s a x kx cx (join s b y ky cy e)) + count_path q up ≤ 1
          → count q (join s (join s a x kx cx b) y ky cy e) + count_path q up ≤ 1
      turned_nodes q l = omega (
        arith,
        l,
        same_nodes q l,
        count-join q s (join s a x kx cx b) y ky cy e,
        count-join q s a x kx cx b,
      )

module _ {nil : Ptr} {n : RbNode} {m : Heap} where
  -- `p->color = d` at the node of the place.
  pub recolor_then :
      {up : Trail} (s : Side) (x : Ptr) (k : ℤ) (c d : Color) (t b : Tree)
      → Focus nil n m up (join s t x k c b)
      → {B : Type 0} {Q : B → Heap → Type 0} (f : Unit {0} → Heap → Outcome Heap B)
      → ((g : Heap) → Focus nil n g up (join s t x k d b) → Ends Q (f tt g))
      → Ends Q (continue (set_color x d m) f)
  recolor_then {up} s x k c d t b w f next =
      let (xn, xz, at, i, j) = IsTree-parts m.nodes nil (above nil up) t x k c b s w.tree in
      change_then m.nodes m.root x xz _ at _ f _ (with_color_lem c k _ _ _ s d)
        (next _ (recolor s x k c d t b w))

  -- `p->color` where `p` is the root of the part below, or the sentinel.
  pub tone_then :
      (p : Ptr) (t : Tree)
      → IsTree m.nodes nil p t
      → nil ≢ null
      → m.nodes nil ≡ some n
      → n.color ≡ black
      → {B : Type 0} {Q : B → Heap → Type 0} (f : Color → Heap → Outcome Heap B)
      → Ends Q (f (tone t) m)
      → Ends Q (continue (get_color (top nil t) m) f)
  tone_then p leaf w z e dark f next = get_then m.nodes m.root nil z n e _ f black dark next
  tone_then p (branch l x k c r) (xn, xz, at, i, j) z e dark f next =
      get_then m.nodes m.root x xz _ at _ f c refl next
