-- ===== src/Malloc/SkipBack.antt =====
-- The second half of `remove_from_free_list` of malloc-lab/mm.c.
use jungle_data_structures.Prelude.{
  ℕ, ◌+◌, ◌≡◌, ◌≤◌, ◌<◌, inr, refl, sym, subst, ◌==◌, ne→==, if◌then◌else◌, List, [], ◌∷◌, arith,
}
use jungle_data_structures.Prelude.Run.{done, Ends, Ends-done, ◌>>=◌}
use jungle_data_structures.Malloc.Store.{Ptr, null, Arena, Act}
use jungle_data_structures.Malloc.Defs.{next_free, prev_free, set_prev_free}
use jungle_data_structures.Malloc.Words.{
  write_ptr, write_ptr-IsPtr, IsPtr-write_ptr, get_ptr_then, put_ptr_last,
}
use jungle_data_structures.Malloc.Links.{
  here, occurs, here_self, first, Linked, Linked-write_ptr, SameBut, Space,
}
use jungle_data_structures.Malloc.LinkWords.{
  arena, word0, word4, word8, word12, write_ptr-SameBut, Apart-upper,
}

-- The second part: the block behind goes back to the block before.
abbrev pub skip_back : Ptr → Act (Unit {0})
skip_back bp =
    next_free bp >>= λ n. if n == null then done tt else (prev_free bp >>= λ p. set_prev_free n p)

module _ (s : Arena) (m : Ptr → ℕ) (bp pv : Ptr) (pv_small : pv < 18446744073709551616)
    (fl : List Ptr) (w : Space s.mem_start_brk s.mem_brk fl) (in_fl : 1 ≤ occurs bp fl) where
  pub back-Linked :
      (xs : List Ptr) (f : Ptr)
      → Linked m pv (bp ∷ xs) null
      → ((q : Ptr) → occurs q xs ≤ occurs q fl)
      → Ends
          (λ _. λ g. (m1 : Ptr → ℕ) × (g ≡ arena s m1 f) × Linked m1 pv xs null × SameBut xs m m1)
          (skip_back bp (arena s m f))
  back-Linked [] f (l0, l1, l) sub =
      get_ptr_then (record s { free_listp = f }) m bp (word0 _ _ fl w bp in_fl)
        (word4 _ _ fl w bp in_fl) _ null l0 (Ends-done (m, refl, tt, λ a o. refl))
  back-Linked (n ∷ xs) f (l0, l1, (l2, l3, l)) sub =
      let i : 1 ≤ occurs n fl = omega (arith, sub n, here_self n) in
      let pos = w.positive n i in
      get_ptr_then (record s { free_listp = f }) m bp (word0 _ _ fl w bp in_fl)
        (word4 _ _ fl w bp in_fl) _ n l0
        (rw (ne→== n null (λ e. omega (arith, e, pos))) (
          get_ptr_then (record s { free_listp = f }) m (bp + 8) (word8 _ _ fl w bp in_fl)
            (word12 _ _ fl w bp in_fl) _ pv l1
            (put_ptr_last (record s { free_listp = f }) m (n + 8) (word8 _ _ fl w n i)
              (word12 _ _ fl w n i) pv pv_small
              (
                write_ptr m (n + 8) pv,
                refl,
                (
                  IsPtr-write_ptr m (n + 8) pv n (first xs null) (inr (omega arith)) l2,
                  write_ptr-IsPtr m (n + 8) pv,
                  Linked-write_ptr m (n + 8) pv n xs null
                      (λ a o.
                        Apart-upper n a
                          (w.apart n a i (omega (arith, sub a, o)) (λ t. twice n a t (sub n) o)))
                      l,
                ),
                write_ptr-SameBut m n (n + 8) pv (n ∷ xs) (omega (arith, here_self n)) (omega arith)
                    (omega arith),
              ))))
    where
      twice : (n a : Ptr) → n ≡ a → here n n + occurs n xs ≤ occurs n fl → 1 ≤ occurs a xs → ⊥
      twice n a e l o =
          let o2 = subst (λ a. 1 ≤ occurs a xs) (sym e) o in
          omega (arith, l, o2, here_self n, w.once n)
