-- ===== src/KernelList/Sorting.antt =====
-- `list_sort` of pintos lib/kernel/list.c.
use jungle_data_structures.Prelude.{
  le_or_lt, le→ltb, lt→ltb, ℕ, zero, suc, ◌+◌, ◌^◌, ◌≤◌, ◌<◌, ◌≡◌, ◌⊎◌, refl, sym, ap, ◌∙◌, subst,
  Bool, true, List, [], ◌∷◌, ◌++◌, eq→==, inl, inr, length, length-append, arith,
}
use mathlib.Core.List.{append_assoc, append-nil}
use native.Mathlib.Nat.{pow-suc}
use jungle_data_structures.Prelude.Run.{Outcome, done}
use jungle_data_structures.KernelList.Store.{Ptr, Store}
use jungle_data_structures.KernelList.Defs.{KernelList}
use jungle_data_structures.KernelList.Sort.{is_sorted, pass_loop, sort_loop, list_sort}
use jungle_data_structures.KernelList.Links.{first, IsKernelList}
use jungle_data_structures.KernelList.Edit.{list_begin-first}
use jungle_data_structures.KernelList.Order.{IsStrictWeak}
use jungle_data_structures.KernelList.Ordered.{IsSorted}
use jungle_data_structures.KernelList.Merge.{
  merge, run_of, rest_of, runs, run-rest, run-IsSorted, runs-rest, runs-append, runs-le-length,
  one_run-IsSorted, merge-IsSorted, length-perm, Moved, Moved-refl, Moved-trans,
}
use jungle_data_structures.KernelList.Merging.{
  tail_ne, is_sorted-true, find_end_of_run-rest, inplace_merge-Moved,
}

-- A list is empty, or has a first element.
first_or_none : (xs : List Ptr) → (xs ≡ []) ⊎ ((y : Ptr) × (ys : List Ptr) × (xs ≡ y ∷ ys))
first_or_none [] = inl refl
first_or_none (y ∷ ys) = inr (y, ys, refl)

counted : {r : Outcome Store ℕ} (n : ℕ) {g : Store} → r ≡ done (0 + n) g → r ≡ done n g
counted n {g} e = e ∙ ap (λ c. done c g) (omega arith)

module _ (less : Ptr → Ptr → Bool) where
  -- The first two runs of a list and what follows them.
  two_runs :
      (x : Ptr) (xs : List Ptr) (y : Ptr) (ys : List Ptr)
      → rest_of less x xs ≡ y ∷ ys
      → x ∷ run_of less x xs ++ (y ∷ run_of less y ys ++ rest_of less y ys) ≡ x ∷ xs
  two_runs x xs y ys e =
      ap (λ (r : List Ptr). x ∷ run_of less x xs ++ (y ∷ r)) (run-rest less y ys)
      ∙ ap (λ (r : List Ptr). x ∷ run_of less x xs ++ r) (sym e)
      ∙ ap (λ (r : List Ptr). x ∷ r) (run-rest less x xs)

  module _ (order : IsStrictWeak less) (l : KernelList) where
    -- A pass makes half as many runs, and counts those that it makes.
    abbrev Passed : Store → (cs xs : List Ptr) → (cnt : ℕ) → (fuel : ℕ) → Type 0
    Passed h cs xs cnt fuel =
        (g : Store) × (zs : List Ptr) × (n : ℕ) × (pass_loop less fuel l (first xs l.tail) cnt h
          ≡ done (cnt + n) g)
        × Moved h g l (cs ++ xs) (cs ++ zs)
        × (runs less zs ≤ n)
        × (n + n ≤ suc (runs less xs))

    pass_loop-Passed :
        (fuel : ℕ) (h : Store) (cs xs : List Ptr) (cnt : ℕ)
        → IsKernelList h l (cs ++ xs)
        → length xs < fuel
        → Passed h cs xs cnt fuel
    unfolding pass_loop
    pass_loop-Passed zero h cs xs cnt w lt = absurd (omega (arith, lt))
    pass_loop-Passed (suc fuel) h cs [] cnt w lt = (
      h,
      [],
      0,
      rw (eq→== l.tail l.tail refl) (ap (λ c. done c h) (omega arith)),
      Moved-refl h l (cs ++ []) w,
      omega arith,
      omega arith,
    )
    pass_loop-Passed (suc fuel) h cs (x ∷ xs) cnt w lt =
        let us = run_of less x xs in
        let run1 = find_end_of_run-rest l less h (suc fuel) cs x xs w (omega (arith, lt)) in
        elim (first_or_none (rest_of less x xs)) [
          | inl e ↦ (
            h,
            x ∷ xs,
            1,
            rw
                (
                  tail_ne l h cs xs x w,
                  run1 ∙ ap (λ r. done (first r l.tail) h) e,
                  eq→== l.tail l.tail refl,
                )
                refl,
            Moved-refl h l (cs ++ x ∷ xs) w,
            omega (arith, runs-rest less x xs, ap (runs less) e),
            omega (arith, runs-rest less x xs, ap (runs less) e),
          )
          | inr (y, ys, e) ↦
              let bs = run_of less y ys in
              let ds = rest_of less y ys in
              let ms = merge less (x ∷ us) (y ∷ bs) in
              let whole = two_runs x xs y ys e in
              let v = subst (λ z. IsKernelList h l (cs ++ z)) (sym whole) w in
              let v1 =
                subst (λ (r : List Ptr). IsKernelList h l ((cs ++ x ∷ us) ++ y ∷ r))
                  (run-rest less y ys)
                  (subst (IsKernelList h l) (sym (append_assoc cs (x ∷ us) (y ∷ bs ++ ds))) v) in
              let long = pieces (x ∷ us) (y ∷ bs) ds (x ∷ xs) whole in
              let part = sym (length-append bs ds) ∙ ap length (run-rest less y ys) in
              let run2 =
                find_end_of_run-rest l less h (suc fuel) (cs ++ x ∷ us) y ys v1
                  (omega (arith, long, part, lt)) in
              let (g, run3, m) =
                inplace_merge-Moved l less (suc fuel) h cs x us y bs ds v (run-IsSorted less x xs)
                  (run-IsSorted less y ys) (omega (arith, long, lt)) in
              let (k, zs, n, run4, m4, few, half) =
                pass_loop-Passed fuel g (cs ++ ms) ds (cnt + 1)
                  (subst (IsKernelList g l) (sym (append_assoc cs ms ds)) m.holds)
                  (omega (arith, long, lt)) in
              (
                k,
                ms ++ zs,
                suc n,
                rw
                    (
                      tail_ne l h cs xs x w,
                      run1 ∙ ap (λ r. done (first r l.tail) h) e,
                      tail_ne l h (cs ++ x ∷ us) ys y v1,
                      run2,
                      run3,
                    )
                    (run4 ∙ ap (λ c. done c k) (omega arith)),
                Moved-trans (subst (λ z. Moved h g l (cs ++ z) (cs ++ (ms ++ ds))) whole m) (
                    subst (λ z. Moved g k l z (cs ++ (ms ++ zs))) (append_assoc cs ms ds)
                      (subst (λ z. Moved g k l ((cs ++ ms) ++ ds) z) (append_assoc cs ms zs) m4)),
                omega (
                  arith,
                  few,
                  runs-append less ms zs (
                      merge-IsSorted less order (x ∷ us) (y ∷ bs) (run-IsSorted less x xs)
                        (run-IsSorted less y ys)),
                ),
                omega (arith, half, runs-rest less x xs, ap (runs less) e, runs-rest less y ys),
              )
        ]
      where
        pieces :
            (us bs ds xs : List Ptr)
            → us ++ (bs ++ ds) ≡ xs
            → length us + (length bs + length ds) ≡ length xs
        pieces us bs ds xs e =
            omega (arith, length-append us (bs ++ ds), length-append bs ds, ap length e)

    sort_loop-Sorted :
        (passes fuel : ℕ) (h : Store) (xs : List Ptr)
        → IsKernelList h l xs
        → length xs < fuel
        → runs less xs ≤ 2 ^ suc passes
        → (g : Store) × (zs : List Ptr) × (sort_loop less (suc passes) fuel l h ≡ done tt g)
          × Moved h g l xs zs
          × IsSorted less zs
    unfolding sort_loop
    sort_loop-Sorted zero fuel h xs w lt few =
        let (g, zs, n, run, m, r, half) = pass_loop-Passed fuel h [] xs 0 w lt in
        let l1 : n ≤ 1 = omega (arith, half, few) in
        (
          g,
          zs,
          rw (list_begin-first h l xs w, counted n run, le→ltb 1 n l1) refl,
          m,
          one_run-IsSorted less zs (omega (arith, r, l1)),
        )
    sort_loop-Sorted (suc passes) fuel h xs w lt few =
        let (g, zs, n, run, m, r, half) = pass_loop-Passed fuel h [] xs 0 w lt in
        let start = list_begin-first h l xs w in
        elim (le_or_lt n 1) [
          | inl l1 ↦ (
            g,
            zs,
            rw (start, counted n run, le→ltb 1 n l1) refl,
            m,
            one_run-IsSorted less zs (omega (arith, r, l1)),
          )
          | inr l2 ↦
              let (k, ys, again, m2, s) =
                sort_loop-Sorted passes fuel g zs m.holds (omega (arith, length-perm m.perm, lt))
                  (omega (arith, r, half, few, pow-suc 2 (suc passes))) in
              (k, ys, rw (start, counted n run, lt→ltb 1 n l2) again, Moved-trans m m2, s)
        ]

    -- The last check of `list_sort`.
    check_sorted :
        (fuel : ℕ) (g : Store) (zs : List Ptr)
        → IsKernelList g l zs
        → IsSorted less zs
        → length zs < fuel
        → is_sorted less fuel (first zs l.tail) l.tail g ≡ done true g
    unfolding is_sorted
    check_sorted fuel g [] w s lt = rw (eq→== l.tail l.tail refl) refl
    check_sorted fuel g (x ∷ xs) w s lt =
        is_sorted-true l less g fuel [] x xs []
          (subst (λ (r : List Ptr). IsKernelList g l (x ∷ r)) (sym (append-nil xs)) w) s
          (omega (arith, lt))

    -- `list_sort` leaves the elements of a list in an order in which none is less than the one before
    -- it, changes nothing outside of the list, and fails none of its checks; one round more than there
    -- are elements is enough for the inner loops, and `passes + 1` passes are enough for up to
    -- `2 ^ (passes + 1)` elements.
    pub list_sort-Sorted :
        (passes fuel : ℕ) (h : Store) (xs : List Ptr)
        → IsKernelList h l xs
        → length xs < fuel
        → length xs ≤ 2 ^ suc passes
        → (g : Store) × (zs : List Ptr) × (list_sort less (suc passes) fuel l h ≡ done tt g)
          × Moved h g l xs zs
          × IsSorted less zs
    unfolding list_sort
    list_sort-Sorted passes fuel h xs w lt few =
        let (g, zs, run, m, s) =
          sort_loop-Sorted passes fuel h xs w lt (omega (arith, runs-le-length less xs, few)) in
        (
          g,
          zs,
          rw
              (
                run,
                list_begin-first g l zs m.holds,
                check_sorted fuel g zs m.holds s (omega (arith, length-perm m.perm, lt)),
              )
              refl,
          m,
          s,
        )
