-- ===== src/KernelList/Unique.antt =====
-- `list_unique` of pintos lib/kernel/list.c.
use jungle_data_structures.Prelude.{
  ◌≡◌, ◌≢◌, refl, ap, ◌∙◌, subst, Bool, true, false, ◌||◌, Option, none, some, List, [], ◌∷◌, ◌++◌,
  ◌==◌, ne→==, arith,
}
use mathlib.Core.List.{append-nil}
use jungle_data_structures.Prelude.Run.{done}
use jungle_data_structures.KernelList.Store.{Ptr, null, ListElem, elem_of, Store}
use jungle_data_structures.KernelList.Defs.{KernelList, set_aside}
use jungle_data_structures.KernelList.Links.{
  has, has-append, first, Distinct, Distinct-remove, Run, Run-second, Run-frame, ring, IsKernelList,
}
use jungle_data_structures.KernelList.Edit.{ring_at, list_remove-Edited, list_push_back-Edited}

-- The list of duplicates, if there is one, holds `ys`, and shares no element with the list `zs`.
abbrev pub Aside : Store → KernelList → List Ptr → Option KernelList → List Ptr → Type 0
Aside h l zs none ys = Unit
Aside h l zs (some d) ys =
    IsKernelList h d ys × ((a : Ptr) → has a (ring l zs) ≡ true → has a (ring d ys) ≡ false)

IsKernelList-frame :
    (h g : Store) (l : KernelList) (xs : List Ptr)
    → IsKernelList h l xs
    → ((a : Ptr) → has a (ring l xs) ≡ true → g a ≡ h a)
    → IsKernelList g l xs
IsKernelList-frame h g l xs w same = record {
  linked = Run-frame h g null (ring l xs) null w.linked same;
  distinct = w.distinct;
}

-- The elements of a list without one of them.
pub has-ring :
    (a x : Ptr) (l : KernelList) (cs bs : List Ptr)
    → has a (ring l (cs ++ x ∷ bs)) ≡ (has a (ring l (cs ++ bs)) || (a == x))
has-ring a x l cs bs = ground (
  arith,
  has-append a (cs ++ x ∷ bs) (l.tail ∷ []),
  has-append a (cs ++ bs) (l.tail ∷ []),
  has-append a cs (x ∷ bs),
  has-append a cs bs,
)

apart_sym :
    (f g : Ptr → Bool)
    → ((a : Ptr) → f a ≡ true → g a ≡ false)
    → (a : Ptr) → g a ≡ true
    → f a ≡ false
apart_sym f g apart a i = ground (arith, apart a)

or_equal : (b : Bool) (x : Ptr) → (b || (x == x)) ≡ true
or_equal b x = ground arith

has-ne : (a x : Ptr) (xs : List Ptr) → has a xs ≡ true → has x xs ≡ false → (a == x) ≡ false
has-ne a x xs i o = ne→== a x (λ e. ground (arith, e, i, o))

false_or : (b c : Bool) → b ≡ false → c ≡ false → (b || c) ≡ false
false_or b c p q = ground arith

module _ (l : KernelList) (cs bs : List Ptr) (x : Ptr) where
  in_whole : (a : Ptr) → has a (ring l (cs ++ bs)) ≡ true → has a (ring l (cs ++ x ∷ bs)) ≡ true
  in_whole a i = has-ring a x l cs bs ∙ ap (λ b. b || (a == x)) i

  pub element :
      (h : Store)
      → IsKernelList h l (cs ++ x ∷ bs)
      → (has x (ring l (cs ++ bs)) ≡ false) × (x ≢ null) × (n : ListElem) × (h x ≡ some n)
  element h w =
      let (ds, y, split) = ring_at l.head l.tail cs in
      let q = subst (λ r. Run h null r null) (split (x ∷ bs)) w.linked in
      let (ne, e) = Run-second h y x (bs ++ l.tail ∷ []) null ds null q in
      let (dr, out) =
        Distinct-remove x y ds (bs ++ l.tail ∷ []) (subst Distinct (split (x ∷ bs)) w.distinct) in
      (ap (has x) (split bs) ∙ out, ne, elem_of y (first (bs ++ l.tail ∷ []) null), e)

  -- `list_unique` moves the element `x` from its list to the end of the list of duplicates.
  pub set_aside-Aside :
      (h : Store) (dup : Option KernelList) (ys : List Ptr)
      → IsKernelList h l (cs ++ x ∷ bs)
      → Aside h l (cs ++ x ∷ bs) dup ys
      → (g : Store) × (set_aside dup x h ≡ done tt g)
        × IsKernelList g l (cs ++ bs)
        × Aside g l (cs ++ bs) dup (ys ++ x ∷ [])
  unfolding set_aside
  set_aside-Aside h none ys w s =
      let (g, run, v) = list_remove-Edited h l cs bs x w in (g, rw run refl, v.holds, tt)
  set_aside-Aside h (some d) ys w (wd, apart) =
      let (g, run, v) = list_remove-Edited h l cs bs x w in
      let (out, nx, n, hx) = element h w in
      let outd = apart x (has-ring x x l cs bs ∙ or_equal (has x (ring l (cs ++ bs))) x) in
      let small : (a : Ptr) → has a (ring l (cs ++ bs)) ≡ true → has a (ring d ys) ≡ false =
        λ a i. apart a (in_whole a i) in
      let wd2 : IsKernelList g d ys = IsKernelList-frame h g d ys wd (λ a i.
        v.outside a
          (apart_sym (λ b. has b (ring l (cs ++ bs))) (λ b. has b (ring d ys)) small a i)) in
      let (k, push, u) = list_push_back-Edited g d x n ys wd2 outd nx (v.outside x out ∙ hx) in
      let apart2 : (a : Ptr)
          → has a (ring l (cs ++ bs)) ≡ true
          → has a (ring d (ys ++ x ∷ [])) ≡ false =
        λ a i.
          has-ring a x d ys []
          ∙ false_or (has a (ring d (ys ++ []))) (a == x)
              (ap (λ (r : List Ptr). has a (ring d r)) (append-nil ys) ∙ small a i)
              (has-ne a x (ring l (cs ++ bs)) i out) in
      (
        k,
        rw (run, push) refl,
        IsKernelList-frame g k l (cs ++ bs) v.holds (λ a i. u.outside a (apart2 a i)),
        (u.holds, apart2),
      )
