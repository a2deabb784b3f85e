-- ===== src/BinaryTree/Smallest.antt =====
-- `smallestValue` of Data-Structures/tests/binary_tree.c.
use jungle_data_structures.Prelude.{
  ℕ, zero, suc, ◌<◌, ◌≡◌, ◌≢◌, refl, sym, ◌∙◌, subst, Bool, true, false, ◌⊎◌, inl, inr, some, ◌==◌,
  ne→==, if◌then◌else◌, arith,
}
use jungle_data_structures.Prelude.Int.{ℤ, ◌≤ℤ◌}
use jungle_data_structures.Prelude.Run.{done, ◌>>=◌}
use jungle_data_structures.BinaryTree.Store.{Ptr, null, bt_node, Store, Act, load-done}
use jungle_data_structures.BinaryTree.Trees.{Tree, leaf, branch, height, top, IsTree}
use jungle_data_structures.BinaryTree.Defs.{min_int, smallest_value}

abbrev pub HasItem : ℤ → Tree → Type 0
HasItem v leaf = ⊥
HasItem v (branch l x w r) = HasItem v l ⊎ ((v ≡ w) ⊎ HasItem v r)

abbrev pub AllItems : (ℤ → Type 0) → Tree → Type 0
AllItems P leaf = Unit
AllItems P (branch l x w r) = P w × AllItems P l × AllItems P r

AllItems-map : {P Q : ℤ → Type 0} (s : Tree) → ((a : ℤ) → P a → Q a) → AllItems P s → AllItems Q s
AllItems-map leaf f a = tt
AllItems-map (branch l x w r) f (p, a, b) = (f w p, AllItems-map l f a, AllItems-map r f b)

-- `m` is an item and no item is below it.
abbrev pub IsSmallest : ℤ → Tree → Type 0
IsSmallest m s = HasItem m s × AllItems (λ a. m ≤ℤ a) s

min_int-le : (a b : ℤ) → (min_int a b ≤ℤ a) × (min_int a b ≤ℤ b)
min_int-le a b = (ground arith, ground arith)

min_int-or : (a b : ℤ) → (min_int a b ≡ a) ⊎ (min_int a b ≡ b)
min_int-or a b = ground arith

trans_ℤ : (a b c : ℤ) → a ≤ℤ b → b ≤ℤ c → a ≤ℤ c
trans_ℤ a b c p q = omega arith

-- The smaller of the item of a node and the items on one side.
abbrev Side : ℤ → Tree → ℤ → Type 0
Side v l m = ((m ≡ v) ⊎ HasItem m l) × (m ≤ℤ v) × AllItems (λ a. m ≤ℤ a) l

Side-min : (v m : ℤ) (l : Tree) → IsSmallest m l → Side v l (min_int m v) × Side v l (min_int v m)
Side-min v m l (i, low) =
    let (a, b) = min_int-le m v in
    let (c, d) = min_int-le v m in
    (
      (
        elim (min_int-or m v) [ inl e ↦ inr (subst (λ z. HasItem z l) (sym e) i) | inr e ↦ inl e ],
        b,
        AllItems-map l (λ z q. trans_ℤ (min_int m v) m z a q) low,
      ),
      (
        elim (min_int-or v m) [ inl e ↦ inl e | inr e ↦ inr (subst (λ z. HasItem z l) (sym e) i) ],
        c,
        AllItems-map l (λ z q. trans_ℤ (min_int v m) m z d q) low,
      ),
    )

refl_ℤ : (a : ℤ) → a ≤ℤ a
refl_ℤ a = omega arith

IsSmallest-branch :
    (l : Tree) (x : Ptr) (v : ℤ) (r : Tree) (a b : ℤ)
    → Side v l a
    → Side v r b
    → IsSmallest (min_int a b) (branch l x v r)
IsSmallest-branch l x v r a b (i, av, al) (j, bv, br) =
    let (p, q) = min_int-le a b in
    (
      elim (min_int-or a b) [
        | inl e ↦
            subst (λ z. HasItem z (branch l x v r)) (sym e)
              (elim i [ inl t ↦ inr (inl t) | inr t ↦ inl t ])
        | inr e ↦
            subst (λ z. HasItem z (branch l x v r)) (sym e)
              (elim j [ inl t ↦ inr (inl t) | inr t ↦ inr (inr t) ])
      ],
      (
        trans_ℤ (min_int a b) a v p av,
        AllItems-map l (λ z t. trans_ℤ (min_int a b) a z p t) al,
        AllItems-map r (λ z t. trans_ℤ (min_int a b) b z q t) br,
      ),
    )

-- What the code does on one side of a node.
unfoldable side_value : (first : Bool) → ℕ → Ptr → ℤ → Act ℤ
side_value first fuel p v =
    if p == null
    then done v
    else (do m ← smallest_value fuel p; done (if first then min_int m v else min_int v m))

smallest_value-step :
    (fuel : ℕ) (h : Store) (x l r : Ptr) (v : ℤ)
    → x ≢ null
    → h x ≡ some (bt_node v l r)
    → smallest_value (suc fuel) x h
      ≡ (side_value true fuel l v >>= λ a. side_value false fuel r v >>= λ b. done (min_int a b)) h
unfolding smallest_value side_value
smallest_value-step fuel h x l r v nx e =
    rw (ne→== x null nx, load-done h x (bt_node v l r) nx e) refl

-- What is to be shown of a tree.
abbrev Finds : ℕ → Store → Tree → Type 0
Finds fuel h s = (m : ℤ) × (smallest_value fuel (top s) h ≡ done m h) × IsSmallest m s

side_value-Side :
    (first : Bool) (fuel : ℕ) (h : Store) (v : ℤ)
    → ((l : Tree) (x : Ptr) (u : ℤ) (r : Tree)
        → IsTree h (branch l x u r)
        → height (branch l x u r) < fuel
        → Finds fuel h (branch l x u r))
    → (s : Tree) → IsTree h s
    → height s < fuel
    → (m : ℤ) × (side_value first fuel (top s) v h ≡ done m h) × Side v s m
unfolding side_value
side_value-Side first fuel h v ih leaf w lt = (v, refl, (inl refl, refl_ℤ v, tt))
side_value-Side true fuel h v ih (branch l x u r) w lt =
    let (m, run, q) = ih l x u r w lt in
    (min_int m v, rw (ne→== x null w.0, run) refl, (Side-min v m (branch l x u r) q).0)
side_value-Side false fuel h v ih (branch l x u r) w lt =
    let (m, run, q) = ih l x u r w lt in
    (min_int v m, rw (ne→== x null w.0, run) refl, (Side-min v m (branch l x u r) q).1)

-- `smallestValue` of a tree with nodes returns a smallest item; one round more than the tree is
-- high is enough.
pub smallest_value-IsSmallest :
    (fuel : ℕ) (h : Store) (l : Tree) (x : Ptr) (v : ℤ) (r : Tree)
    → IsTree h (branch l x v r)
    → height (branch l x v r) < fuel
    → (m : ℤ) × (smallest_value fuel x h ≡ done m h) × IsSmallest m (branch l x v r)
smallest_value-IsSmallest zero h l x v r w lt = ground arith
smallest_value-IsSmallest (suc fuel) h l x v r (nx, e, wl, wr) lt =
    let ih = smallest_value-IsSmallest fuel h in
    let (a, left, p) = side_value-Side true fuel h v ih l wl (omega arith) in
    let (b, right, q) = side_value-Side false fuel h v ih r wr (omega arith) in
    (
      min_int a b,
      smallest_value-step fuel h x (top l) (top r) v nx e ∙ (rw (left, right) refl),
      IsSmallest-branch l x v r a b p q,
    )
