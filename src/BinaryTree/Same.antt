-- ===== src/BinaryTree/Same.antt =====
-- `identical` of Data-Structures/tests/binary_tree.c.
use jungle_data_structures.Prelude.{
  ℕ, zero, suc, ◌<◌, ◌≡◌, refl, sym, Bool, true, false, ◌&&◌, ◌↔◌, inl, inr, Bool-cases, ne→==,
  arith,
}
use jungle_data_structures.Prelude.Int.{ℤ, eqb_ℤ, eqb_ℤ→eq}
use jungle_data_structures.Prelude.Run.{done}
use jungle_data_structures.BinaryTree.Store.{null, bt_node, Store, load-done}
use jungle_data_structures.BinaryTree.Trees.{
  Tree, leaf, branch, Items, nothing, item, items, height, top, IsTree,
}
use jungle_data_structures.BinaryTree.Defs.{identical}

abbrev same : Items → Items → Bool
same nothing nothing = true
same nothing (item a v b) = false
same (item a v b) nothing = false
same (item a v b) (item c w d) = eqb_ℤ v w && (same a c && same b d)

eqb_ℤ_self : (v : ℤ) → eqb_ℤ v v ≡ true
eqb_ℤ_self v = ground arith

same_self : (a : Items) → same a a ≡ true
same_self nothing = refl
same_self (item a v b) = ground (arith, same_self a, same_self b, eqb_ℤ_self v)

and_true : (a b : Bool) → (a && b) ≡ true → (a ≡ true) × (b ≡ true)
and_true a b e = (ground arith, ground arith)

same→eq : (a b : Items) → same a b ≡ true → a ≡ b
same→eq nothing nothing e = refl
same→eq nothing (item c w d) e = ground arith
same→eq (item a v b) nothing e = ground arith
same→eq (item a v b) (item c w d) e =
    let (p, q) = and_true (eqb_ℤ v w) (same a c && same b d) e in
    let (r, t) = and_true (same a c) (same b d) q in
    cc (same→eq a c r, same→eq b d t, eqb_ℤ→eq v w p)

module _ (h : Store) where
  identical-same :
      (fuel : ℕ) (s u : Tree)
      → IsTree h s
      → IsTree h u
      → height s < fuel
      → identical fuel (top s) (top u) h ≡ done (same (items s) (items u)) h
  unfolding identical
  identical-same zero s u w z lt = ground arith
  identical-same (suc fuel) leaf leaf w z lt = refl
  identical-same (suc fuel) leaf (branch c y j d) w z lt = rw (ne→== y null z.0) refl
  identical-same (suc fuel) (branch l x v r) leaf w z lt = rw (ne→== x null w.0) refl
  identical-same (suc fuel) (branch l x v r) (branch c y j d) (nx, e, wl, wr) (ny, k, zc, zd) lt =
      let left = identical-same fuel l c wl zc (omega arith) in
      let right = identical-same fuel r d wr zd (omega arith) in
      rw
        (
          ne→== x null nx,
          ne→== y null ny,
          load-done h x (bt_node v (top l) (top r)) nx e,
          load-done h y (bt_node j (top c) (top d)) ny k,
        )
        (elim (Bool-cases (eqb_ℤ v j)) [
          | inr f ↦ rw f refl
          | inl t ↦ elim (Bool-cases (same (items l) (items c))) [
            | inl a ↦ rw (t, left, a, right) refl
            | inr b ↦ rw (t, left, b) refl
          ]
        ])

  -- `identical` returns 1 exactly when the two trees have the same shape and items, and 0 otherwise;
  -- one round more than the first is high is enough.
  pub identical-eq :
      (fuel : ℕ) (s u : Tree)
      → IsTree h s
      → IsTree h u
      → height s < fuel
      → (b : Bool) × (identical fuel (top s) (top u) h ≡ done b h)
        × ((b ≡ true) ↔ (items s ≡ items u))
  identical-eq fuel s u w z lt = (
    same (items s) (items u),
    identical-same fuel s u w z lt,
    (same→eq (items s) (items u), λ e. rw (sym e) (same_self (items s))),
  )
