-- ===== src/KernelList/Order.antt =====
-- `list_max`, `list_min` and `list_insert_ordered` of pintos lib/kernel/list.c.
use jungle_data_structures.Prelude.{
  ℕ, zero, suc, ◌<◌, ◌≡◌, refl, sym, ap, ◌∙◌, subst, Bool, true, false, not, List, [], ◌∷◌, ◌++◌,
  if◌then◌else◌, eq→==, Bool-cases, inl, inr, length, arith,
}
use mathlib.Core.List.{append_assoc, append-nil}
use jungle_data_structures.Prelude.Run.{done}
use jungle_data_structures.KernelList.Store.{Ptr, Store}
use jungle_data_structures.KernelList.Defs.{KernelList, max_loop, min_loop, list_max, list_min}
use jungle_data_structures.KernelList.Links.{first, IsKernelList}
use jungle_data_structures.KernelList.Edit.{list_begin-first}
use jungle_data_structures.KernelList.Walk.{Rest, Rest-all, Rest-next, Rest-ne, Rest-tail}

-- The caller's comparison is a strict weak order.
pub record IsStrictWeak (less : Ptr → Ptr → Bool) : Type 0 where
  pub trans : (a b c : Ptr) → less a b ≡ true → less b c ≡ true → less a c ≡ true
  pub split : (a b c : Ptr) → less a c ≡ true → less a b ≡ false → less b c ≡ true
  pub irrefl : (a : Ptr) → less a a ≡ false

-- Every element satisfies a test.
abbrev pub All : (Ptr → Bool) → List Ptr → Type 0
All f [] = Unit
All f (x ∷ xs) = (f x ≡ true) × All f xs

All-append : (f : Ptr → Bool) (xs ys : List Ptr) → All f xs → All f ys → All f (xs ++ ys)
All-append f [] ys p q = q
All-append f (x ∷ xs) ys (e, p) q = (e, All-append f xs ys p q)

All-map :
    (f g : Ptr → Bool) (xs : List Ptr) → ((a : Ptr) → f a ≡ true → g a ≡ true) → All f xs → All g xs
All-map f g [] k p = tt
All-map f g (x ∷ xs) k (e, p) = (k x e, All-map f g xs k p)

module _ (less : Ptr → Ptr → Bool) where
  -- `m` is the first of the greatest elements.
  abbrev pub IsGreatest : List Ptr → Ptr → Type 0
  IsGreatest xs m =
      (ps : List Ptr) × (ss : List Ptr) × (xs ≡ ps ++ m ∷ ss)
      × All (λ a. less a m) ps
      × All (λ a. not (less m a)) ss

  module _ (order : IsStrictWeak less) where
    -- One round of the loop.
    Greatest-next :
        (xs : List Ptr) (m x : Ptr)
        → IsGreatest xs m
        → IsGreatest (xs ++ x ∷ []) (if less m x then x else m)
    Greatest-next xs m x (ps, ss, e, lo, hi) = elim (Bool-cases (less m x)) [
      | inl t ↦ rw t (
        ps ++ m ∷ ss,
        [],
        ap (λ r. r ++ x ∷ []) e,
        All-append (λ a. less a x) ps (m ∷ ss)
            (All-map (λ a. less a m) (λ a. less a x) ps (λ a p. order.trans a m x p t) lo)
            (
              t,
              All-map (λ a. not (less m a)) (λ a. less a x) ss
                  (λ a p. order.split m a x t (ground arith)) hi,
            ),
        tt,
      )
      | inr f ↦ rw f (
        ps,
        ss ++ x ∷ [],
        ap (λ r. r ++ x ∷ []) e ∙ append_assoc ps (m ∷ ss) (x ∷ []),
        lo,
        All-append (λ a. not (less m a)) ss (x ∷ []) hi (ground arith, tt),
      )
    ]

    module _ (h : Store) (l : KernelList) where
      max_loop-Greatest :
          (fuel : ℕ) (p : Ptr) (ds xs : List Ptr) (m : Ptr)
          → IsGreatest ds m
          → Rest h l p xs
          → length xs < fuel
          → (n : Ptr) × (max_loop less fuel l m (first xs l.tail) h ≡ done n h)
            × IsGreatest (ds ++ xs) n
      unfolding max_loop
      max_loop-Greatest zero p ds xs m g r lt = ground arith
      max_loop-Greatest (suc fuel) p ds [] m g r lt = (
        m,
        rw (eq→== l.tail l.tail refl) refl,
        subst (λ r. IsGreatest r m) (sym (append-nil ds)) g,
      )
      max_loop-Greatest (suc fuel) p ds (x ∷ xs) m g r lt =
          let m2 : Ptr = if less m x then x else m in
          let (n, run, g2) =
            max_loop-Greatest fuel x (ds ++ x ∷ []) xs m2 (Greatest-next ds m x g)
              (Rest-tail h l p x xs r) (omega arith) in
          (
            n,
            rw (Rest-ne h l p x xs r, Rest-next h l p x xs r) run,
            subst (λ r. IsGreatest r n) (append_assoc ds (x ∷ []) xs) g2,
          )

      -- For a strict weak order, `list_max` of a list with elements returns the first of the greatest;
      -- as many rounds as there are elements are enough.
      pub list_max-Greatest :
          (fuel : ℕ) (x : Ptr) (xs : List Ptr)
          → IsKernelList h l (x ∷ xs)
          → length xs < fuel
          → (n : Ptr) × (list_max less fuel l h ≡ done n h) × IsGreatest (x ∷ xs) n
      unfolding list_max
      list_max-Greatest fuel x xs w lt =
          let r = Rest-all h l (x ∷ xs) w in
          let (n, run, g) =
            max_loop-Greatest fuel x (x ∷ []) xs x ([], [], refl, tt, tt)
              (Rest-tail h l l.head x xs r) lt in
          (
            n,
            rw
                (
                  list_begin-first h l (x ∷ xs) w,
                  Rest-ne h l l.head x xs r,
                  Rest-next h l l.head x xs r,
                )
                run,
            g,
          )

-- `m` is the first of the least elements.
abbrev pub IsLeast : (Ptr → Ptr → Bool) → List Ptr → Ptr → Type 0
IsLeast less xs m =
    (ps : List Ptr) × (ss : List Ptr) × (xs ≡ ps ++ m ∷ ss)
    × All (λ a. less m a) ps
    × All (λ a. not (less a m)) ss

abbrev flip : (Ptr → Ptr → Bool) → Ptr → Ptr → Bool
flip less a b = less b a

module _ (less : Ptr → Ptr → Bool) where
  flip-IsStrictWeak : IsStrictWeak less → IsStrictWeak (flip less)
  flip-IsStrictWeak order = record {
    trans = λ a b c p q. order.trans c b a q p;
    split = λ a b c p q. elim (Bool-cases (less c b)) [
      | inl t ↦ t
      | inr f ↦ ground (arith, order.split c b a p f)
    ];
    irrefl = order.irrefl;
  }

  -- For a strict weak order, `list_min` of a list with elements returns the first of the least; as
  -- many rounds as there are elements are enough.
  pub list_min-Least :
      (order : IsStrictWeak less) (h : Store) (l : KernelList) (fuel : ℕ) (x : Ptr) (xs : List Ptr)
      → IsKernelList h l (x ∷ xs)
      → length xs < fuel
      → (n : Ptr) × (list_min less fuel l h ≡ done n h) × IsLeast less (x ∷ xs) n
  unfolding list_min list_max min_loop max_loop
  list_min-Least order h l fuel x xs w lt =
      let (n, run, g) =
        list_max-Greatest (flip less) (flip-IsStrictWeak order) h l fuel x xs w lt in
      (n, run, g)
