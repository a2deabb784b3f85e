-- ===== src/Malloc/AddFree.antt =====
-- `add_to_free_list` of malloc-lab/mm.c.
use jungle_data_structures.Prelude.{
  ℕ, ◌+◌, ◌≡◌, ◌≢◌, ◌≤◌, inl, inr, refl, sym, subst, ◌∙◌, ◌==◌, ne→==, if◌then◌else◌, List, [], ◌∷◌,
  arith,
}
use jungle_data_structures.Prelude.Run.{done, Ends, Ends-done, ◌>>◌}
use jungle_data_structures.Malloc.Store.{Ptr, null, Arena, Act, set_free_listp}
use jungle_data_structures.Malloc.Defs.{set_prev_free, add_to_free_list}
use jungle_data_structures.Malloc.Words.{
  Apart, IsPtr, write_ptr, write_ptr-IsPtr, IsPtr-write_ptr, put_ptr_then,
}
use jungle_data_structures.Malloc.Links.{
  occurs, here_self, first, Linked, Linked-write_ptr, SameBut, Space,
}
use jungle_data_structures.Malloc.LinkWords.{
  arena, word0, word4, word8, word12, small_ptr, write_ptr-SameBut, Apart-half, Apart-upper,
}
use jungle_data_structures.Malloc.FreeList.{first-small}

module _ (s : Arena) (m : Ptr → ℕ) (bp : Ptr) (fl : List Ptr)
    (w : Space s.mem_start_brk s.mem_brk (bp ∷ fl)) where
  abbrev pub Added : Unit {0} → Arena → Type 0
  Added _ g =
      (m1 : Ptr → ℕ) × (g ≡ arena s m1 bp) × Linked m1 null (bp ∷ fl) null × SameBut (bp ∷ fl) m m1

  in_list : 1 ≤ occurs bp (bp ∷ fl)
  in_list = omega (arith, here_self bp)

  bp_other : (a : Ptr) → 1 ≤ occurs a fl → bp ≢ a
  bp_other a o e =
      let o2 = subst (λ a. 1 ≤ occurs a fl) (sym e) o in omega (arith, o2, w.once bp, here_self bp)

  -- The memory with the links of `bp`.
  headed : Ptr → ℕ
  headed = write_ptr (write_ptr m bp (first fl null)) (bp + 8) null

  headed-SameBut : SameBut (bp ∷ fl) m headed
  unfolding headed
  headed-SameBut a o =
      write_ptr-SameBut (write_ptr m bp (first fl null)) bp (bp + 8) null (bp ∷ fl) in_list
        (omega arith) (omega arith) a o
      ∙ write_ptr-SameBut m bp bp (first fl null) (bp ∷ fl) in_list (omega arith) (omega arith) a o

  headed-next : IsPtr headed bp (first fl null)
  unfolding headed
  headed-next = IsPtr-write_ptr _ (bp + 8) null bp _ (inr (omega arith)) (write_ptr-IsPtr m bp _)

  headed-Linked : (p : Ptr) → Linked m p fl null → Linked headed p fl null
  unfolding headed
  headed-Linked p l =
      Linked-write_ptr _ (bp + 8) null p fl null (λ a o. Apart-upper bp a (apart a o))
        (Linked-write_ptr m bp (first fl null) p fl null (λ a o. Apart-half bp a (apart a o)) l)
    where
      apart : (a : Ptr) → 1 ≤ occurs a fl → Apart bp 16 a 16
      apart a o = w.apart bp a in_list (omega (arith, o)) (bp_other a o)

-- The block that was first goes back to the new one.
abbrev link_first : (l bp : Ptr) → Act (Unit {0})
link_first l bp = (if l == null then done tt else set_prev_free l bp) >> set_free_listp bp

module _ (s : Arena) (m : Ptr → ℕ) (bp : Ptr) where
  link_first-Added :
      (fl : List Ptr) (w : Space s.mem_start_brk s.mem_brk (bp ∷ fl)) (f : Ptr)
      → Linked m null fl null
      → Ends (Added s m bp fl w) (link_first (first fl null) bp (arena s (headed s m bp fl w) f))
  unfolding headed
  link_first-Added [] w f l = Ends-done (
    headed s m bp [] w,
    refl,
    (headed-next s m bp [] w, write_ptr-IsPtr _ (bp + 8) null, tt),
    headed-SameBut s m bp [] w,
  )
  link_first-Added (x ∷ fl) w f l =
      let ix : 1 ≤ occurs x (bp ∷ x ∷ fl) = omega (arith, here_self x) in
      let pos = w.positive x ix in
      let g = headed s m bp (x ∷ fl) w in
      let ne = bp_other s m bp (x ∷ fl) w x (omega (arith, here_self x)) in
      let (k0, k1, k2) = headed-Linked s m bp (x ∷ fl) w null l in
      let ax = w.apart x bp ix (in_list s m bp (x ∷ fl) w) (λ e. ne (sym e)) in
      rw (ne→== x null (λ e. omega (arith, e, pos))) (
        put_ptr_then (record s { free_listp = f }) g (x + 8) (word8 _ _ _ w x ix)
          (word12 _ _ _ w x ix) _ bp (small_ptr _ _ _ w bp (in_list s m bp (x ∷ fl) w))
          (Ends-done (
            write_ptr g (x + 8) bp,
            refl,
            (
              IsPtr-write_ptr g (x + 8) bp bp x (low_half ax) (headed-next s m bp (x ∷ fl) w),
              IsPtr-write_ptr g (x + 8) bp (bp + 8) null (high_half ax)
                  (write_ptr-IsPtr _ (bp + 8) null),
              (
                IsPtr-write_ptr g (x + 8) bp x (first fl null) (inr (omega arith)) k0,
                write_ptr-IsPtr g (x + 8) bp,
                Linked-write_ptr g (x + 8) bp x fl null
                    (λ a o.
                      Apart-upper x a (w.apart x a ix (omega (arith, o)) (λ e. twice w a e o)))
                    k2,
              ),
            ),
            λ a o.
                write_ptr-SameBut g x (x + 8) bp (bp ∷ x ∷ fl) ix (omega arith) (omega arith) a o
                ∙ headed-SameBut s m bp (x ∷ fl) w a o,
          )))
    where
      low_half : Apart x 16 bp 16 → Apart (x + 8) 8 bp 8
      low_half (inl d) = inl (omega (arith, d))
      low_half (inr d) = inr (omega (arith, d))

      high_half : Apart x 16 bp 16 → Apart (x + 8) 8 (bp + 8) 8
      high_half (inl d) = inl (omega (arith, d))
      high_half (inr d) = inr (omega (arith, d))

      twice :
          Space s.mem_start_brk s.mem_brk (bp ∷ x ∷ fl) → (a : Ptr) → x ≡ a → 1 ≤ occurs a fl → ⊥
      twice w a e o =
          let o2 = subst (λ a. 1 ≤ occurs a fl) (sym e) o in
          omega (arith, o2, w.once x, here_self x)

  -- A block becomes the first of the free list, and only links of the blocks change.
  pub add_to_free_list-Linked :
      (fl : List Ptr) (w : Space s.mem_start_brk s.mem_brk (bp ∷ fl))
      → Linked m null fl null
      → Ends (Added s m bp fl w) (add_to_free_list bp (arena s m (first fl null)))
  unfolding add_to_free_list headed
  add_to_free_list-Linked fl w l =
      let i = in_list s m bp fl w in
      let f = first fl null in
      put_ptr_then (record s { free_listp = f }) m bp (word0 _ _ _ w bp i) (word4 _ _ _ w bp i) _ f
        (first-small fl (λ q o. small_ptr _ _ _ w q (omega (arith, o))))
        (put_ptr_then (record s { free_listp = f }) (write_ptr m bp f) (bp + 8) (word8 _ _ _ w bp i)
          (word12 _ _ _ w bp i) _ null (omega arith) (link_first-Added fl w f l))
