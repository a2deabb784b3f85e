-- ===== src/Malloc/SkipFront.antt =====
-- The first half of `remove_from_free_list` of malloc-lab/mm.c.
use jungle_data_structures.Prelude.{
  ℕ, ◌+◌, ◌≡◌, ◌≤◌, ◌<◌, inl, refl, sym, subst, ap, ◌∙◌, ◌==◌, ne→==, if◌then◌else◌, List, [], ◌∷◌,
  ◌++◌, arith,
}
use jungle_data_structures.Prelude.Run.{Ends, Ends-done, Ends-map, ◌>>=◌}
use jungle_data_structures.Malloc.Store.{Ptr, null, Arena, Act, set_free_listp}
use jungle_data_structures.Malloc.Defs.{next_free, set_next_free}
use jungle_data_structures.Malloc.Words.{
  IsPtr, write_ptr, write_ptr-IsPtr, IsPtr-write_ptr, InHeap, get_ptr_then, put_ptr_last,
}
use jungle_data_structures.Malloc.Links.{
  here, occurs, here_self, occurs-append, first, last, Linked, Linked-parts, Linked-join,
  Linked-write_ptr, SameBut, first_of_snoc, last_of_snoc, snoc_view, Space,
}
use jungle_data_structures.Malloc.LinkWords.{arena, word0, word4, write_ptr-SameBut, Apart-half}

-- The first part of the removal: the block before, or `free_listp`, goes on to the block behind.
abbrev pub skip_front : (bp pv : Ptr) → Act (Unit {0})
skip_front bp pv =
    if pv == null
    then (next_free bp >>= λ n. set_free_listp n)
    else (next_free bp >>= λ n. set_next_free pv n)

module _ (s : Arena) (m : Ptr → ℕ) (bp nx : Ptr) (nx_small : nx < 18446744073709551616) where
  module _ (at_bp : IsPtr m bp nx) (bp0 : InHeap s.mem_start_brk s.mem_brk bp)
      (bp4 : InHeap s.mem_start_brk s.mem_brk (bp + 4)) where
    front_none : (f : Ptr) → Ends (λ _. λ g. g ≡ arena s m nx) (skip_front bp null (arena s m f))
    front_none f =
        get_ptr_then (record s { free_listp = f }) m bp bp0 bp4 _ nx at_bp (Ends-done refl)

    front_some :
        (f p : Ptr)
        → 0 < p
        → InHeap s.mem_start_brk s.mem_brk p
        → InHeap s.mem_start_brk s.mem_brk (p + 4)
        → Ends (λ _. λ g. g ≡ arena s (write_ptr m p nx) f) (skip_front bp p (arena s m f))
    front_some f p pos p0 p4 = rw (ne→== p null (λ e. omega (arith, e, pos))) (
        get_ptr_then (record s { free_listp = f }) m bp bp0 bp4 _ nx at_bp
          (put_ptr_last (record s { free_listp = f }) m p p0 p4 nx nx_small refl))

    pub front-Linked :
        (xs fl : List Ptr) (f : Ptr)
        → f ≡ first xs bp
        → Linked m null xs bp
        → Space s.mem_start_brk s.mem_brk fl
        → ((q : Ptr) → occurs q xs ≤ occurs q fl)
        → Ends
            (λ _. λ g.
              (m1 : Ptr → ℕ) × (g ≡ arena s m1 (first xs nx))
              × Linked m1 null xs nx
              × SameBut xs m m1)
            (skip_front bp (last xs null) (arena s m f))
    front-Linked [] fl f e l w sub = Ends-map (front_none f) (λ _ g r. (m, r, tt, λ a o. refl))
    front-Linked (x ∷ xs) fl f e l w sub =
        let (ds, p, ex) = snoc_view x xs in subst Front (sym ex) (front_snoc ds p) f e l sub
      where
        Front : List Ptr → Type 0
        Front ys =
            (f : Ptr)
            → f ≡ first ys bp
            → Linked m null ys bp
            → ((q : Ptr) → occurs q ys ≤ occurs q fl)
            → Ends
                (λ _. λ g.
                  (m1 : Ptr → ℕ) × (g ≡ arena s m1 (first ys nx))
                  × Linked m1 null ys nx
                  × SameBut ys m m1)
                (skip_front bp (last ys null) (arena s m f))

        twice :
            (ds : List Ptr) (p a : Ptr)
            → p ≡ a
            → occurs p ds + here p p ≤ occurs p fl
            → 1 ≤ occurs a ds
            → ⊥
        twice ds p a e l o =
            let o2 = subst (λ a. 1 ≤ occurs a ds) (sym e) o in
            omega (arith, l, o2, here_self p, w.once p)

        front_snoc : (ds : List Ptr) (p : Ptr) → Front (ds ++ p ∷ [])
        front_snoc ds p f e l sub =
            let (l1, (l2, l3, _)) = Linked-parts m null ds (p ∷ []) bp l in
            let in_ds : (q : Ptr) → occurs q ds + here p q ≤ occurs q fl =
              λ q. omega (arith, sub q, occurs-append q ds (p ∷ [])) in
            let i : 1 ≤ occurs p fl = omega (arith, in_ds p, here_self p) in
            subst
              (λ r.
                Ends
                  (λ _. λ g.
                    (m1 : Ptr → ℕ) × (g ≡ arena s m1 (first (ds ++ p ∷ []) nx))
                    × Linked m1 null (ds ++ p ∷ []) nx
                    × SameBut (ds ++ p ∷ []) m m1)
                  (skip_front bp r (arena s m f)))
              (sym (last_of_snoc ds p null))
              (Ends-map (front_some f p (w.positive p i) (word0 _ _ fl w p i) (word4 _ _ fl w p i))
                (λ _ g r. (
                  write_ptr m p nx,
                  r ∙ ap (λ f. arena s (write_ptr m p nx) f) (e ∙ first_of_snoc ds p bp nx),
                  Linked-join _ null ds (p ∷ []) nx
                      (Linked-write_ptr m p nx null ds p
                        (λ a o. Apart-half p a (
                          w.apart p a i (omega (arith, in_ds a, o))
                            (λ t. twice ds p a t (in_ds p) o)))
                        l1)
                      (
                        write_ptr-IsPtr m p nx,
                        IsPtr-write_ptr m p nx (p + 8) (last ds null) (inl (omega arith)) l3,
                        tt,
                      ),
                  write_ptr-SameBut m p p nx (ds ++ p ∷ [])
                      (omega (arith, occurs-append p ds (p ∷ []), here_self p)) (omega arith)
                      (omega arith),
                )))
