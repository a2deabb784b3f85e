-- ===== src/Malloc/FreeList.antt =====
-- `remove_from_free_list` of malloc-lab/mm.c.
use jungle_data_structures.Prelude.{
  ℕ, ◌+◌, ◌≡◌, ◌≤◌, ◌<◌, inl, inr, sym, subst, ap, ◌∙◌, List, [], ◌∷◌, ◌++◌, arith,
}
use jungle_data_structures.Prelude.Run.{Ends, Ends-map, Ends-continue}
use jungle_data_structures.Malloc.Store.{Ptr, null, Arena}
use jungle_data_structures.Malloc.Defs.{remove_from_free_list}
use jungle_data_structures.Malloc.Words.{Apart, get_ptr_then}
use jungle_data_structures.Malloc.Links.{
  occurs, here_self, occurs-append, first, last, Linked, Linked-parts, Linked-join, Linked-same,
  Out, SameBut, first-append, Space,
}
use jungle_data_structures.Malloc.LinkWords.{arena, word0, word4, word8, word12, small_ptr}
use jungle_data_structures.Malloc.SkipFront.{front-Linked}
use jungle_data_structures.Malloc.SkipBack.{skip_back, back-Linked}

-- Links of blocks that are no neighbours of a change.
pub Linked-SameBut :
    (a b : Ptr) (fl : List Ptr) (w : Space a b fl) (m g : Ptr → ℕ) (p q : Ptr) (xs ys : List Ptr)
    → SameBut ys m g
    → ((c : Ptr) → occurs c xs + occurs c ys ≤ occurs c fl)
    → Linked m p xs q
    → Linked g p xs q
Linked-SameBut a b fl w m g p q xs ys same sub = Linked-same m g p xs q (λ c i k l.
    same (c + k) (λ r o. out c k r l (
      w.apart c r (omega (arith, i, sub c)) (omega (arith, o, sub r))
        (λ t. twice c r t (sub c) (w.once c) i o))))
  where
    twice :
        (c r : Ptr)
        → c ≡ r
        → occurs c xs + occurs c ys ≤ occurs c fl
        → occurs c fl ≤ 1
        → 1 ≤ occurs c xs
        → 1 ≤ occurs r ys
        → ⊥
    twice c r e l u i o =
        let o2 = subst (λ r. 1 ≤ occurs r ys) (sym e) o in omega (arith, l, u, i, o2)

    out : (c k r : Ptr) → k < 16 → Apart c 16 r 16 → Out (c + k) r
    out c k r l (inl d) = inl (omega (arith, l, d))
    out c k r l (inr d) = inr (omega (arith, l, d))

pub first-small :
    (ys : List Ptr)
    → ((q : Ptr) → 1 ≤ occurs q ys → q < 18446744073709551616)
    → first ys null < 18446744073709551616
first-small [] f = omega arith
first-small (y ∷ ys) f = f y (omega (arith, here_self y))

last-small :
    (xs : List Ptr) (p : Ptr)
    → p < 18446744073709551616
    → ((q : Ptr) → 1 ≤ occurs q xs → q < 18446744073709551616)
    → last xs p < 18446744073709551616
last-small [] p l f = l
last-small (x ∷ xs) p l f =
    last-small xs x (f x (omega (arith, here_self x))) (λ q o. f q (omega (arith, o)))

module _ (s : Arena) (m : Ptr → ℕ) (bp : Ptr) (xs ys : List Ptr)
    (w : Space s.mem_start_brk s.mem_brk (xs ++ bp ∷ ys)) where
  abbrev pub Removed : Unit {0} → Arena → Type 0
  Removed _ g =
      (m1 : Ptr → ℕ) × (g ≡ arena s m1 (first (xs ++ ys) null))
      × Linked m1 null (xs ++ ys) null
      × SameBut (xs ++ bp ∷ ys) m m1

  -- `remove_from_free_list` of a block of the free list, whose blocks lie apart in the heap, leaves the
  -- others linked in their order, and no word outside of the links of these blocks changes.
  pub remove_from_free_list-Linked :
      (f : Ptr)
      → f ≡ first (xs ++ bp ∷ ys) null
      → Linked m null (xs ++ bp ∷ ys) null
      → Ends Removed (remove_from_free_list bp (arena s m f))
  unfolding remove_from_free_list
  remove_from_free_list-Linked f e l =
      let fl = xs ++ bp ∷ ys in
      let i : 1 ≤ occurs bp fl = omega (arith, occurs-append bp xs (bp ∷ ys), here_self bp) in
      let (l1, (l2, l3, l4)) = Linked-parts m null xs (bp ∷ ys) null l in
      let nx = first ys null in
      get_ptr_then (record s { free_listp = f }) m (bp + 8) (word8 _ _ fl w bp i)
        (word12 _ _ fl w bp i) _ (last xs null) l3
        (Ends-continue
          (front-Linked s m bp nx
            (first-small ys
              (λ q o. small_ptr _ _ fl w q (omega (arith, o, occurs-append q xs (bp ∷ ys)))))
            l2 (word0 _ _ fl w bp i) (word4 _ _ fl w bp i) xs fl f
            (e ∙ first-append xs (bp ∷ ys) null) l1 w
            (λ q. omega (arith, occurs-append q xs (bp ∷ ys))))
          (λ _ g (m1, r, k1, same1).
            subst (λ g. Ends Removed (skip_back bp g)) (sym r)
              (Ends-map
                (back-Linked s m1 bp (last xs null)
                  (last-small xs null (omega arith)
                    (λ q o. small_ptr _ _ fl w q (omega (arith, o, occurs-append q xs (bp ∷ ys)))))
                  fl w i ys (first xs nx)
                  (Linked-SameBut _ _ fl w m m1 (last xs null) null (bp ∷ ys) xs same1
                    (λ c. omega (arith, occurs-append c xs (bp ∷ ys))) (l2, l3, l4))
                  (λ q. omega (arith, occurs-append q xs (bp ∷ ys))))
                (λ _ g (m2, r2, k2, same2). (
                  m2,
                  r2 ∙ ap (λ f. arena s m2 f) (sym (first-append xs ys null)),
                  Linked-join m2 null xs ys null
                      (Linked-SameBut _ _ fl w m1 m2 null nx xs ys same2
                        (λ c. omega (arith, occurs-append c xs (bp ∷ ys))) k1)
                      k2,
                  λ a o.
                      same2 a (λ q p. o q (omega (arith, p, occurs-append q xs (bp ∷ ys))))
                      ∙ same1 a (λ q p. o q (omega (arith, p, occurs-append q xs (bp ∷ ys)))),
                )))))
