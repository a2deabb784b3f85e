-- ===== src/KernelList/Ordered.antt =====
-- `list_insert_ordered` of pintos lib/kernel/list.c.
use jungle_data_structures.Prelude.{
  ℕ, zero, suc, ◌<◌, ◌≡◌, ◌≢◌, refl, sym, ap, ◌∙◌, subst, Bool, true, false, not, some, List, [],
  ◌∷◌, ◌++◌, ne→==, eq→==, Bool-cases, inl, inr, length, arith,
}
use jungle_data_structures.Prelude.Run.{done}
use jungle_data_structures.KernelList.Store.{Ptr, null, ListElem, Store}
use jungle_data_structures.KernelList.Defs.{KernelList, ordered_loop, list_insert_ordered}
use jungle_data_structures.KernelList.Links.{has, first, ring, IsKernelList}
use jungle_data_structures.KernelList.Edit.{Edited, list_insert-Edited, list_begin-first}
use jungle_data_structures.KernelList.Walk.{Rest, Rest-all, Rest-next, Rest-ne, Rest-tail}
use jungle_data_structures.KernelList.Order.{IsStrictWeak, All}

module _ (less : Ptr → Ptr → Bool) where
  -- No element is less than `e` at the front.
  abbrev pub Starts : Ptr → List Ptr → Type 0
  Starts e [] = Unit
  Starts e (x ∷ xs) = less x e ≡ false

  -- No element is less than the one before it.
  abbrev pub IsSorted : List Ptr → Type 0
  IsSorted [] = Unit
  IsSorted (x ∷ xs) = Starts x xs × IsSorted xs

  -- `e` belongs behind `ps` and before `ss`.
  abbrev pub Belongs : Ptr → List Ptr → List Ptr → Type 0
  Belongs e ps [] = All (λ a. not (less e a)) ps
  Belongs e ps (s ∷ ss) = All (λ a. not (less e a)) ps × (less e s ≡ true)

  Belongs-next :
      (e x : Ptr) (ps ss : List Ptr) → less e x ≡ false → Belongs e ps ss → Belongs e (x ∷ ps) ss
  Belongs-next e x ps [] f b = (ground arith, b)
  Belongs-next e x ps (s ∷ ss) f (b, t) = ((ground arith, b), t)

  module _ (order : IsStrictWeak less) where
    pub asym : (a b : Ptr) → less a b ≡ true → less b a ≡ false
    asym a b t = ground (arith, order.irrefl a, order.trans a b a t)

    IsSorted-insert :
        (e : Ptr) (ps ss : List Ptr)
        → IsSorted (ps ++ ss)
        → Belongs e ps ss
        → IsSorted (ps ++ e ∷ ss)
    IsSorted-insert e [] [] s b = (tt, tt)
    IsSorted-insert e [] (x ∷ ss) s (b, t) = (asym e x t, s)
    IsSorted-insert e (p ∷ []) [] s (f, b) = (ground arith, (tt, tt))
    IsSorted-insert e (p ∷ []) (x ∷ ss) (u, s) ((f, b), t) = (ground arith, (asym e x t, s))
    IsSorted-insert e (p ∷ r ∷ ps) [] (u, s) (f, b) = (u, IsSorted-insert e (r ∷ ps) [] s b)
    IsSorted-insert e (p ∷ r ∷ ps) (x ∷ ss) (u, s) ((f, b), t) =
        (u, IsSorted-insert e (r ∷ ps) (x ∷ ss) s (b, t))

  module _ (h : Store) (l : KernelList) (e : Ptr) where
    ordered_loop-Belongs :
        (fuel : ℕ) (p : Ptr) (xs : List Ptr)
        → Rest h l p xs
        → length xs < fuel
        → (ps : List Ptr) × (ss : List Ptr) × (xs ≡ ps ++ ss)
          × (ordered_loop less fuel l e (first xs l.tail) h ≡ done (first ss l.tail) h)
          × Belongs e ps ss
    unfolding ordered_loop
    ordered_loop-Belongs zero p xs r lt = ground arith
    ordered_loop-Belongs (suc fuel) p [] r lt =
        ([], [], refl, rw (eq→== l.tail l.tail refl) refl, tt)
    ordered_loop-Belongs (suc fuel) p (x ∷ xs) r lt = elim (Bool-cases (less e x)) [
      | inl t ↦ ([], x ∷ xs, refl, rw (Rest-ne h l p x xs r, t) refl, (tt, t))
      | inr f ↦
          let (ps, ss, q, run, b) =
            ordered_loop-Belongs fuel x xs (Rest-tail h l p x xs r) (omega arith) in
          (
            x ∷ ps,
            ss,
            ap (λ (r : List Ptr). x ∷ r) q,
            rw (Rest-ne h l p x xs r, f, Rest-next h l p x xs r) run,
            Belongs-next e x ps ss f b,
          )
    ]

    -- `list_insert_ordered` of an allocated element outside of a sorted list puts it behind elements
    -- that it is not less than and before one that it is less than, or at the end, and leaves the
    -- list sorted and all outside of it as it was; one round more than there are elements is enough.
    pub list_insert_ordered-Sorted :
        IsStrictWeak less
        → (fuel : ℕ) (xs : List Ptr) (n : ListElem) → IsKernelList h l xs
        → IsSorted xs
        → length xs < fuel
        → has e (ring l xs) ≡ false
        → e ≢ null
        → h e ≡ some n
        → (ps : List Ptr) × (ss : List Ptr) × (g : Store) × (xs ≡ ps ++ ss)
          × (list_insert_ordered less fuel l e h ≡ done tt g)
          × Edited h g l (ps ++ e ∷ ss) (ps ++ e ∷ ss)
          × Belongs e ps ss
          × IsSorted (ps ++ e ∷ ss)
    unfolding list_insert_ordered
    list_insert_ordered-Sorted order fuel xs n w sorted lt out ne he =
        let (ps, ss, q, run, b) = ordered_loop-Belongs fuel l.head xs (Rest-all h l xs w) lt in
        let (g, ins, v) =
          list_insert-Edited h l ps ss e n (subst (IsKernelList h l) q w)
            (ap (λ (r : List Ptr). has e (ring l r)) (sym q) ∙ out) ne he in
        (
          ps,
          ss,
          g,
          q,
          rw (ne→== e null ne, list_begin-first h l xs w, run) ins,
          v,
          b,
          IsSorted-insert order e ps ss (subst IsSorted q sorted) b,
        )
