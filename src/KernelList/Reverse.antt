-- ===== src/KernelList/Reverse.antt =====
-- `list_reverse` of pintos lib/kernel/list.c.
use jungle_data_structures.Prelude.{
  ℕ, zero, suc, ◌<◌, ◌≡◌, ◌≢◌, refl, ◌∙◌, true, false, some, List, [], ◌∷◌, ◌==◌, eq→==, length,
  arith,
}
use jungle_data_structures.Prelude.Run.{done, Ends, Ends-done, Ends-map, exact_then}
use jungle_data_structures.KernelList.Store.{
  Ptr, null, elem_of, Store, write, load-done, set_prev-done, set_next-done, write_self, write_ne,
}
use jungle_data_structures.KernelList.Defs.{KernelList, swap_links, reverse_loop}
use jungle_data_structures.KernelList.Links.{has, Distinct, first, Run, Run-frame}

-- The elements in the opposite order, followed by `acc`.
abbrev pub rev_onto : List Ptr → List Ptr → List Ptr
rev_onto [] acc = acc
rev_onto (x ∷ xs) acc = rev_onto xs (x ∷ acc)

-- A swap at one element, whose new links are `q` and `p`.
swap_links-done :
    (h : Store) (x p q : Ptr)
    → x ≢ null
    → h x ≡ some (elem_of p q)
    → swap_links x h ≡ done tt (write (write h x (elem_of q q)) x (elem_of q p))
unfolding swap_links
swap_links-done h x p q ne e =
    rw
      (
        load-done h x (elem_of p q) ne e,
        set_prev-done h x (elem_of p q) q ne e,
        set_next-done (write h x (elem_of q q)) x (elem_of q q) p ne (write_self h x (elem_of q q)),
      )
      refl

module _ (l : KernelList) where
  pub reverse_loop-Run :
      (fuel : ℕ) (rest acc : List Ptr) (h : Store)
      → Run h (first rest l.tail) acc l.head
      → Run h (first acc l.head) rest l.tail
      → Distinct rest
      → ((a : Ptr) → has a rest ≡ true → has a acc ≡ false)
      → has l.tail rest ≡ false
      → length rest < fuel
      → Ends
          (λ _. λ g.
            Run g l.tail (rev_onto rest acc) l.head × ((a : Ptr) → has a rest ≡ false → g a ≡ h a))
          (reverse_loop fuel l (first rest l.tail) h)
  unfolding reverse_loop
  reverse_loop-Run zero rest acc h r s d apart out lt = elim (no_fuel lt) [ ]
    where
      no_fuel : {k : ℕ} → k < 0 → ⊥
      no_fuel l = omega (arith, l)
  reverse_loop-Run (suc fuel) [] acc h r s d apart out lt =
      rw (eq→== l.tail l.tail refl) (Ends-done (r, λ a o. refl))
  reverse_loop-Run (suc fuel) (x ∷ rest) acc h r (nx, ex, s) (dx, d) apart out lt =
      let p = first acc l.head in
      let q = first rest l.tail in
      let g = write (write h x (elem_of q q)) x (elem_of q p) in
      rw (at_tail x rest out) (
        exact_then _ (swap_links-done h x p q nx ex) (
          exact_then _ (load-done g x (elem_of q p) nx (write_self _ x (elem_of q p))) (
            Ends-map
              (reverse_loop-Run fuel rest (x ∷ acc) g
                (
                  nx,
                  write_self _ x (elem_of q p),
                  Run-frame h g x acc l.head r
                      (λ a i. same p q a (ne_in a x acc i (apart x (self x rest)))),
                )
                (Run-frame h g x rest l.tail s (λ a i. same p q a (ne_in a x rest i dx))) d
                (λ a i. not_there a (ne_in a x rest i dx) (apart a (more a x rest i)))
                (less_out x rest out) (omega arith))
              (λ _ k (w, keep).
                (w, λ a o. keep a (rest_out a x rest o) ∙ same p q a (head_out a x rest o))))))
    where
      at_tail : (x : Ptr) (rest : List Ptr) → has l.tail (x ∷ rest) ≡ false → (x == l.tail) ≡ false
      at_tail x rest o = ground (arith, o)

      less_out :
          (x : Ptr) (rest : List Ptr) → has l.tail (x ∷ rest) ≡ false → has l.tail rest ≡ false
      less_out x rest o = ground (arith, o)

      rest_out : (a x : Ptr) (rest : List Ptr) → has a (x ∷ rest) ≡ false → has a rest ≡ false
      rest_out a x rest o = ground (arith, o)

      head_out : (a x : Ptr) (rest : List Ptr) → has a (x ∷ rest) ≡ false → a ≢ x
      head_out a x rest o e = ground (arith, o, e)

      self : (x : Ptr) (rest : List Ptr) → has x (x ∷ rest) ≡ true
      self x rest = ground arith

      more : (a x : Ptr) (rest : List Ptr) → has a rest ≡ true → has a (x ∷ rest) ≡ true
      more a x rest i = ground (arith, i)

      ne_in : (a x : Ptr) (xs : List Ptr) → has a xs ≡ true → has x xs ≡ false → a ≢ x
      ne_in a x xs i o e = ground (arith, e, i, o)

      not_there : (a : Ptr) → a ≢ x → has a acc ≡ false → has a (x ∷ acc) ≡ false
      not_there a ne o = ground (arith, ne, o)

      same : (p q a : Ptr) → a ≢ x → write (write h x (elem_of q q)) x (elem_of q p) a ≡ h a
      same p q a ne = write_ne _ x a _ ne ∙ write_ne h x a _ ne
