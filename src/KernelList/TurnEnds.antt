-- ===== src/KernelList/TurnEnds.antt =====
-- The last step of `list_reverse` of pintos lib/kernel/list.c: the ends of a run that is turned.
use jungle_data_structures.Prelude.{
  ◌≡◌, ◌≢◌, refl, sym, subst, ap, ◌∙◌, true, Option, some, List, [], ◌∷◌, ◌++◌, arith,
}
use jungle_data_structures.Prelude.Run.{Ends, Ends-done, Ends-map, exact_then}
use jungle_data_structures.KernelList.Store.{
  Ptr, null, ListElem, elem_of, Store, write, load-done, set_prev-done, set_next-done, write_self,
  write_ne,
}
use jungle_data_structures.KernelList.Defs.{KernelList, swap_ends}
use jungle_data_structures.KernelList.Links.{ring, has, first, last, Run, Run-node}
use jungle_data_structures.KernelList.Edit.{first_of_snoc}

pub Run-join :
    (g : Store) (t : Ptr) (xs : List Ptr) (p : Ptr)
    → t ≢ null
    → Run g p xs t
    → g t ≡ some (elem_of (last xs p) null)
    → Run g p (xs ++ t ∷ []) null
Run-join g t [] p tn r e = (tn, e, tt)
Run-join g t (x ∷ xs) p tn (xn, ex, r) e =
    (xn, ex ∙ ap (λ q. some (elem_of p q)) (sym (first_of_snoc xs t)), Run-join g t xs x tn r e)

pub Run-front :
    (h : Store) (t : Ptr) (xs : List Ptr) (p : Ptr)
    → Run h p (xs ++ t ∷ []) null
    → Run h p xs t × (t ≢ null) × (h t ≡ some (elem_of (last xs p) null))
Run-front h t [] p (tn, e, _) = (tt, tn, e)
Run-front h t (x ∷ xs) p (xn, ex, r) =
    let (a, b, c) = Run-front h t xs x r in
    ((xn, ex ∙ ap (λ q. some (elem_of p q)) (first_of_snoc xs t), a), b, c)

first_same : (z q t : Ptr) (ms : List Ptr) → first (ms ++ z ∷ []) q ≡ first (ms ++ z ∷ []) t
first_same z q t [] = refl
first_same z q t (c ∷ cs) = refl

-- Another element behind the last one, `z`.
Run-close :
    (k g : Store) (z q t : Ptr) (ms : List Ptr) (p : Ptr)
    → Run k p (ms ++ z ∷ []) q
    → ((a : Ptr) → has a ms ≡ true → g a ≡ k a)
    → ((n : ListElem) → k z ≡ some n → g z ≡ some (elem_of n.prev t))
    → Run g p (ms ++ z ∷ []) t
Run-close k g z q t [] p (zn, ez, _) same gz = (zn, gz (elem_of p q) ez, tt)
Run-close k g z q t (m ∷ ms) p (mn, em, r) same gz = (
  mn,
  same m (self m ms) ∙ em ∙ ap (λ r. some (elem_of p r)) (first_same z q t ms),
  Run-close k g z q t ms m r (λ a i. same a (more a i)) gz,
)
  where
    self : (m : Ptr) (ms : List Ptr) → has m (m ∷ ms) ≡ true
    self m ms = ground arith

    more : (a : Ptr) → has a ms ≡ true → has a (m ∷ ms) ≡ true
    more a i = ground (arith, i)

-- The headers with their new links.
abbrev two_ends : KernelList → Store → (y z : Ptr) → Store
two_ends l k y z = write (write k l.head (elem_of null y)) l.tail (elem_of z null)

module _ (l : KernelList) (k : Store) (y z : Ptr) (hn : l.head ≢ null) (tn : l.tail ≢ null)
    (yn : y ≢ null) (zn : z ≢ null) (ht : l.tail ≢ l.head) (hy : y ≢ l.head) (hz : z ≢ l.head)
    (ty : y ≢ l.tail) (tz : z ≢ l.tail) (at_head : k l.head ≡ some (elem_of null z))
    (at_tail : k l.tail ≡ some (elem_of y null)) where
  at_other : (a : Ptr) → a ≢ l.head → a ≢ l.tail → two_ends l k y z a ≡ k a
  at_other a p q = write_ne _ l.tail a _ q ∙ write_ne k l.head a _ p

  swap_ends-Ends :
      (u v : Ptr)
      → k y ≡ some (elem_of l.tail u)
      → k z ≡ some (elem_of v l.head)
      → (w : Ptr) → write (two_ends l k y z) y (elem_of l.head u) z ≡ some (elem_of w l.head)
      → Ends
          (λ _. λ g. g ≡ write (write (two_ends l k y z) y (elem_of l.head u)) z (elem_of w l.tail))
          (swap_ends l k)
  unfolding swap_ends
  swap_ends-Ends u v ey ez w ew =
      let k1 = write k l.head (elem_of null y) in
      exact_then _ (load-done k l.head _ hn at_head) (
        exact_then _ (load-done k l.tail _ tn at_tail) (
          exact_then _ (set_next-done k l.head _ y hn at_head) (
            exact_then _
              (set_prev-done k1 l.tail (elem_of y null) z tn
                (write_ne k l.head l.tail _ ht ∙ at_tail))
              (exact_then _ (load-done (two_ends l k y z) y _ yn (at_other y hy ty ∙ ey)) (
                exact_then _ (load-done (two_ends l k y z) z _ zn (at_other z hz tz ∙ ez)) (
                  exact_then _
                    (set_prev-done (two_ends l k y z) y _ l.head yn (at_other y hy ty ∙ ey))
                    (subst
                      (Ends (λ _. λ g.
                        g
                        ≡ write (write (two_ends l k y z) y (elem_of l.head u)) z
                            (elem_of w l.tail)))
                      (sym (
                        set_next-done (write (two_ends l k y z) y (elem_of l.head u)) z _ l.tail zn
                          ew))
                      (Ends-done refl))))))))

prev_same :
    (c : Option ListElem) (n : ListElem) (v q : Ptr)
    → c ≡ some n
    → c ≡ some (elem_of v q)
    → v ≡ n.prev
prev_same c n v q e f = let s : elem_of v q ≡ n = cc in ap (λ (m : ListElem). m.prev) s

module _ (l : KernelList) (k : Store) (hn : l.head ≢ null) (tn : l.tail ≢ null)
    (ht : l.tail ≢ l.head) where
  ring-Run :
      (g : Store) (ys : List Ptr)
      → g l.head ≡ some (elem_of null (first ys l.tail))
      → g l.tail ≡ some (elem_of (last ys l.head) null)
      → Run g l.head ys l.tail
      → Run g null (ring l ys) null
  ring-Run g ys e f r = (
    hn,
    e ∙ ap (λ q. some (elem_of null q)) (sym (first_of_snoc ys l.tail)),
    Run-join g l.tail ys l.head tn r f,
  )

  pub turn_one :
      (y : Ptr)
      → y ≢ l.head
      → y ≢ l.tail
      → k l.head ≡ some (elem_of null y)
      → k l.tail ≡ some (elem_of y null)
      → Run k l.tail (y ∷ []) l.head
      → Ends (λ _. λ g. Run g null (ring l (y ∷ [])) null) (swap_ends l k)
  turn_one y hy ty at_head at_tail (yn, ey, _) =
      let g =
        write (write (two_ends l k y y) y (elem_of l.head l.head)) y (elem_of l.head l.tail) in
      Ends-map
        (swap_ends-Ends l k y y hn tn yn yn ht hy hy ty ty at_head at_tail l.head l.tail ey ey
          l.head (write_self _ y _))
        (λ _ m e.
          subst (λ g. Run g null (ring l (y ∷ [])) null) (sym e)
            (ring-Run g (y ∷ [])
              (write_ne _ y l.head _ (λ e. hy (sym e))
                ∙ write_ne _ y l.head _ (λ e. hy (sym e))
                ∙ write_ne _ l.tail l.head _ (λ e. ht (sym e))
                ∙ write_self _ l.head _)
              (write_ne _ y l.tail _ (λ e. ty (sym e))
                ∙ write_ne _ y l.tail _ (λ e. ty (sym e))
                ∙ write_self _ l.tail _)
              (yn, write_self _ y _, tt)))

  pub turn_more :
      (y z : Ptr) (ms : List Ptr)
      → y ≢ l.head
      → y ≢ l.tail
      → z ≢ l.head
      → z ≢ l.tail
      → y ≢ z
      → ((a : Ptr) → has a ms ≡ true → (a ≢ l.head) × (a ≢ l.tail) × (a ≢ y) × (a ≢ z))
      → k l.head ≡ some (elem_of null z)
      → k l.tail ≡ some (elem_of y null)
      → Run k l.tail (y ∷ ms ++ z ∷ []) l.head
      → last (y ∷ ms ++ z ∷ []) l.head ≡ z
      → Ends (λ _. λ g. Run g null (ring l (y ∷ ms ++ z ∷ [])) null) (swap_ends l k)
  turn_more y z ms hy ty hz tz yz inner at_head at_tail (yn, ey, r) at_last =
      let (zn, ez) = Run-node k z [] l.head ms y r in
      let u = first (ms ++ z ∷ []) l.head in
      let g =
        write (write (two_ends l k y z) y (elem_of l.head u)) z (elem_of (last ms y) l.tail) in
      Ends-map
        (swap_ends-Ends l k y z hn tn yn zn ht hy hz ty tz at_head at_tail u (last ms y) ey ez
          (last ms y)
          (write_ne _ y z _ (λ e. yz (sym e))
            ∙ write_ne _ l.tail z _ tz
            ∙ write_ne _ l.head z _ hz
            ∙ ez))
        (λ _ m e.
          subst (λ g. Run g null (ring l (y ∷ ms ++ z ∷ [])) null) (sym e)
            (ring-Run g (y ∷ ms ++ z ∷ [])
              (write_ne _ z l.head _ (λ e. hz (sym e))
                ∙ write_ne _ y l.head _ (λ e. hy (sym e))
                ∙ write_ne _ l.tail l.head _ (λ e. ht (sym e))
                ∙ write_self _ l.head _)
              (write_ne _ z l.tail _ (λ e. tz (sym e))
                ∙ write_ne _ y l.tail _ (λ e. ty (sym e))
                ∙ write_self _ l.tail _
                ∙ ap (λ q. some (elem_of q null)) (sym at_last))
              (
                yn,
                write_ne _ z y _ yz
                    ∙ write_self _ y _
                    ∙ ap (λ q. some (elem_of l.head q)) (first_same z l.head l.tail ms),
                Run-close k g z l.head l.tail ms y r
                    (λ a i.
                      let (p, q, u, v) = inner a i in
                      write_ne _ z a _ v
                      ∙ write_ne _ y a _ u
                      ∙ write_ne _ l.tail a _ q
                      ∙ write_ne k l.head a _ p)
                    (λ n en.
                      write_self _ z _
                      ∙ ap (λ q. some (elem_of q l.tail))
                          (prev_same (k z) n (last ms y) l.head en ez)),
              )))
