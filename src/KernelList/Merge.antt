-- ===== src/KernelList/Merge.antt =====
-- Runs of elements in nondecreasing order and their merging, for `list_sort` of pintos
-- lib/kernel/list.c.
use jungle_data_structures.Prelude.{
  ℕ, suc, ◌≤◌, ◌≡◌, refl, sym, ap, ◌∙◌, Bool, false, ◌||◌, List, [], ◌∷◌, ◌++◌, ◌==◌, if◌then◌else◌,
  Bool-cases, inl, inr, length, arith,
}
use mathlib.Core.List.{Permᴰ}
use mathlib.Core.List.Permᴰ
use jungle_data_structures.KernelList.Store.{Ptr, Store}
use jungle_data_structures.KernelList.Defs.{KernelList}
use jungle_data_structures.KernelList.Links.{has, ring, IsKernelList}
use jungle_data_structures.KernelList.Order.{IsStrictWeak}
use jungle_data_structures.KernelList.Ordered.{Starts, IsSorted, asym}

module _ (less : Ptr → Ptr → Bool) where
  -- The first elements of `xs` that go on with a run whose last element is `e`, and the others.
  abbrev pub run_of : Ptr → List Ptr → List Ptr
  run_of e [] = []
  run_of e (x ∷ xs) = if less x e then [] else x ∷ run_of x xs

  abbrev pub rest_of : Ptr → List Ptr → List Ptr
  rest_of e [] = []
  rest_of e (x ∷ xs) = if less x e then x ∷ xs else rest_of x xs

  abbrev pub merge : List Ptr → List Ptr → List Ptr
  merge [] bs = bs
  merge (a ∷ us) [] = a ∷ us
  merge (a ∷ us) (b ∷ bs) = if less b a then b ∷ merge (a ∷ us) bs else a ∷ merge us (b ∷ bs)

  -- The number of runs.
  abbrev runs_from : Ptr → List Ptr → ℕ
  runs_from e [] = 1
  runs_from e (x ∷ xs) = if less x e then suc (runs_from x xs) else runs_from x xs

  abbrev pub runs : List Ptr → ℕ
  runs [] = 0
  runs (x ∷ xs) = runs_from x xs

  pub run-rest : (e : Ptr) (xs : List Ptr) → run_of e xs ++ rest_of e xs ≡ xs
  run-rest e [] = refl
  run-rest e (x ∷ xs) = elim (Bool-cases (less x e)) [
    | inl t ↦ rw t refl
    | inr f ↦ rw f (ap (λ (r : List Ptr). x ∷ r) (run-rest x xs))
  ]

  pub run-IsSorted : (e : Ptr) (xs : List Ptr) → IsSorted less (e ∷ run_of e xs)
  run-IsSorted e [] = (tt, tt)
  run-IsSorted e (x ∷ xs) = elim (Bool-cases (less x e)) [
    | inl t ↦ rw t (tt, tt)
    | inr f ↦ rw f (f, run-IsSorted x xs)
  ]

  pub runs-rest : (e : Ptr) (xs : List Ptr) → runs (e ∷ xs) ≡ suc (runs (rest_of e xs))
  runs-rest e [] = refl
  runs-rest e (x ∷ xs) = elim (Bool-cases (less x e)) [
    | inl t ↦ rw t refl
    | inr f ↦ rw f (runs-rest x xs)
  ]

  pub runs-append : (ms zs : List Ptr) → IsSorted less ms → runs (ms ++ zs) ≤ suc (runs zs)
  runs-append [] zs s = omega arith
  runs-append (e ∷ []) [] s = omega arith
  runs-append (e ∷ []) (z ∷ zs) s = ground arith
  runs-append (e ∷ m ∷ ms) zs (f, s) = rw f (runs-append (m ∷ ms) zs s)

  pub runs-le-length : (xs : List Ptr) → runs xs ≤ length xs
  runs-le-length [] = omega arith
  runs-le-length (e ∷ []) = omega arith
  runs-le-length (e ∷ x ∷ xs) = ground (arith, runs-le-length (x ∷ xs))

  pub one_run-IsSorted : (xs : List Ptr) → runs xs ≤ 1 → IsSorted less xs
  one_run-IsSorted [] l = tt
  one_run-IsSorted (e ∷ []) l = (tt, tt)
  one_run-IsSorted (e ∷ x ∷ xs) l = elim (Bool-cases (less x e)) [
    | inl t ↦ absurd (ground (arith, t, l, runs-rest x xs))
    | inr f ↦ (f, one_run-IsSorted (x ∷ xs) (ground (arith, f, l)))
  ]

  module _ (order : IsStrictWeak less) where
    Starts-merge :
        (e : Ptr) (us bs : List Ptr)
        → Starts less e us
        → Starts less e bs
        → Starts less e (merge us bs)
    Starts-merge e [] bs p q = q
    Starts-merge e (a ∷ us) [] p q = p
    Starts-merge e (a ∷ us) (b ∷ bs) p q = elim (Bool-cases (less b a)) [
      | inl t ↦ rw t q
      | inr f ↦ rw f p
    ]

    pub merge-IsSorted :
        (us bs : List Ptr) → IsSorted less us → IsSorted less bs → IsSorted less (merge us bs)
    merge-IsSorted [] bs p q = q
    merge-IsSorted (a ∷ us) [] p q = p
    merge-IsSorted (a ∷ us) (b ∷ bs) (x, p) (y, q) = elim (Bool-cases (less b a)) [
      | inl t ↦ rw t (
        Starts-merge b (a ∷ us) bs (asym less order b a t) y,
        merge-IsSorted (a ∷ us) bs (x, p) q,
      )
      | inr f ↦ rw f (Starts-merge a us (b ∷ bs) x f, merge-IsSorted us (b ∷ bs) p (y, q))
    ]

has-perm : (a : Ptr) {xs ys : List Ptr} → Permᴰ xs ys → has a xs ≡ has a ys
has-perm a Permᴰ.nil = refl
has-perm a (Permᴰ.cons e p) = ground (arith, e, has-perm a p)
has-perm a (Permᴰ.swap e f) = ground (arith, e, f)
has-perm a (Permᴰ.trans p q) = has-perm a p ∙ has-perm a q

pub length-perm : {xs ys : List Ptr} → Permᴰ xs ys → length xs ≡ length ys
length-perm Permᴰ.nil = refl
length-perm (Permᴰ.cons e p) = omega (arith, length-perm p)
length-perm (Permᴰ.swap e f) = refl
length-perm (Permᴰ.trans p q) = length-perm p ∙ length-perm q

-- The list `l`, which held `xs`, holds the same elements in the order `ys`, and nothing outside of
-- it has changed.
pub record Moved (h g : Store) (l : KernelList) (xs ys : List Ptr) : Type 0 where
  pub holds : IsKernelList g l ys
  pub perm : Permᴰ xs ys
  pub outside : (a : Ptr) → has a (ring l xs) ≡ false → g a ≡ h a

has-ring-perm :
    (a : Ptr) (l : KernelList) {xs ys : List Ptr}
    → Permᴰ xs ys
    → has a (ring l xs) ≡ has a (ring l ys)
has-ring-perm a l p = ap (λ b. (a == l.head) || b) (has-perm a (Permᴰ.append_right (l.tail ∷ []) p))

pub Moved-refl :
    (h : Store) (l : KernelList) (xs : List Ptr) → IsKernelList h l xs → Moved h h l xs xs
Moved-refl h l xs w = record { holds = w; perm = Permᴰ.refl xs; outside = λ a o. refl }

pub Moved-trans :
    {h g k : Store} {l : KernelList} {xs ys zs : List Ptr}
    → Moved h g l xs ys
    → Moved g k l ys zs
    → Moved h k l xs zs
Moved-trans {l} v u = record {
  holds = u.holds;
  perm = Permᴰ.trans v.perm u.perm;
  outside = λ a o. u.outside a (sym (has-ring-perm a l v.perm) ∙ o) ∙ v.outside a o;
}
