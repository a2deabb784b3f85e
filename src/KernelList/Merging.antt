-- ===== src/KernelList/Merging.antt =====
-- `is_sorted`, `find_end_of_run` and `inplace_merge` of pintos lib/kernel/list.c.
use jungle_data_structures.Prelude.{
  ℕ, zero, suc, ◌+◌, ◌<◌, ◌≡◌, ◌≢◌, refl, sym, ap, ◌∙◌, subst, Bool, true, false, List, [], ◌∷◌,
  ◌++◌, ◌==◌, eq→==, ne→==, Bool-cases, inl, inr, length, arith,
}
use mathlib.Core.List.{append_assoc, append-nil}
use mathlib.Core.List.Permᴰ
use jungle_data_structures.Prelude.Run.{done}
use jungle_data_structures.KernelList.Store.{Ptr, null, Store}
use jungle_data_structures.KernelList.Defs.{KernelList}
use jungle_data_structures.KernelList.Sort.{
  sorted_loop, is_sorted, end_loop, find_end_of_run, merge_loop, inplace_merge,
}
use jungle_data_structures.KernelList.Links.{first, Run, Run-second, IsKernelList}
use jungle_data_structures.KernelList.Edit.{ring_at, rest_at, Edited}
use jungle_data_structures.KernelList.Ordered.{IsSorted}
use jungle_data_structures.KernelList.Splice.{
  list_next-at, list_prev-at, later_ne, list_splice-Edited,
}
use jungle_data_structures.KernelList.Merge.{merge, rest_of, Moved, Moved-refl, Moved-trans}

module _ (l : KernelList) where
  -- The place behind an element.
  step_over :
      (h : Store) (cs : List Ptr) (x : Ptr) (xs : List Ptr)
      → IsKernelList h l (cs ++ x ∷ xs)
      → IsKernelList h l ((cs ++ x ∷ []) ++ xs)
  step_over h cs x xs w = subst (IsKernelList h l) (sym (append_assoc cs (x ∷ []) xs)) w

  pub place_ne :
      (h : Store) (cs ds : List Ptr) → IsKernelList h l (cs ++ ds) → first ds l.tail ≢ null
  place_ne h cs ds w =
      let (es, x, split) = ring_at l.head l.tail cs in
      let (rs, rest) = rest_at l.tail ds in
      (Run-second h x (first ds l.tail) rs null es null (
        subst (λ r. Run h null r null) (split ds ∙ ap (λ (r : List Ptr). es ++ x ∷ r) rest)
          w.linked)).0

  pub tail_ne :
      (h : Store) (cs xs : List Ptr) (x : Ptr)
      → IsKernelList h l (cs ++ x ∷ xs)
      → (x == l.tail) ≡ false
  tail_ne h cs xs x w =
      later_ne h l cs xs [] x
        (subst (λ (r : List Ptr). IsKernelList h l (cs ++ x ∷ r)) (sym (append-nil xs)) w)

  module _ (less : Ptr → Ptr → Bool) (h : Store) where
    sorted_loop-true :
        (fuel : ℕ) (cs : List Ptr) (x : Ptr) (xs ds : List Ptr)
        → IsKernelList h l (cs ++ (x ∷ xs ++ ds))
        → IsSorted less (x ∷ xs)
        → length xs < fuel
        → sorted_loop less fuel x (first ds l.tail) h ≡ done true h
    unfolding sorted_loop
    sorted_loop-true zero cs x xs ds w s lt = ground arith
    sorted_loop-true (suc fuel) cs x [] ds w s lt =
        rw (list_next-at h l cs ds x w, eq→== (first ds l.tail) (first ds l.tail) refl) refl
    sorted_loop-true (suc fuel) cs x (y ∷ ys) ds w (f, s) lt =
        let v = step_over h cs x (y ∷ ys ++ ds) w in
        rw
          (
            list_next-at h l cs (y ∷ ys ++ ds) x w,
            later_ne h l (cs ++ x ∷ []) ys ds y v,
            list_prev-at h l cs (y ∷ ys ++ ds) x w,
            f,
          )
          (sorted_loop-true fuel (cs ++ x ∷ []) y ys ds v s (omega arith))

    pub is_sorted-true :
        (fuel : ℕ) (cs : List Ptr) (x : Ptr) (xs ds : List Ptr)
        → IsKernelList h l (cs ++ (x ∷ xs ++ ds))
        → IsSorted less (x ∷ xs)
        → length xs < fuel
        → is_sorted less fuel x (first ds l.tail) h ≡ done true h
    unfolding is_sorted
    is_sorted-true fuel cs x xs ds w s lt =
        rw (later_ne h l cs xs ds x w) (sorted_loop-true fuel cs x xs ds w s lt)

    end_loop-rest :
        (fuel : ℕ) (cs : List Ptr) (x : Ptr) (xs : List Ptr)
        → IsKernelList h l (cs ++ x ∷ xs)
        → length xs < fuel
        → end_loop less fuel x l.tail h ≡ done (first (rest_of less x xs) l.tail) h
    unfolding end_loop
    end_loop-rest zero cs x xs w lt = ground arith
    end_loop-rest (suc fuel) cs x [] w lt =
        rw (list_next-at h l cs [] x w, eq→== l.tail l.tail refl) refl
    end_loop-rest (suc fuel) cs x (y ∷ ys) w lt =
        let v = step_over h cs x (y ∷ ys) w in
        let to_next = list_next-at h l cs (y ∷ ys) x w in
        let ne = tail_ne h (cs ++ x ∷ []) ys y v in
        let back = list_prev-at h l cs (y ∷ ys) x w in
        elim (Bool-cases (less y x)) [
          | inl t ↦ rw (to_next, ne, back, t) refl
          | inr f ↦
              rw (to_next, ne, back, f) (end_loop-rest fuel (cs ++ x ∷ []) y ys v (omega arith))
        ]

    pub find_end_of_run-rest :
        (fuel : ℕ) (cs : List Ptr) (x : Ptr) (xs : List Ptr)
        → IsKernelList h l (cs ++ x ∷ xs)
        → length xs < fuel
        → find_end_of_run less fuel x l.tail h ≡ done (first (rest_of less x xs) l.tail) h
    unfolding find_end_of_run
    find_end_of_run-rest fuel cs x xs w lt =
        rw
          (
            ne→== x null (place_ne h cs (x ∷ xs) w),
            ne→== l.tail null (
                place_ne h (cs ++ x ∷ xs) []
                  (subst (IsKernelList h l) (sym (append-nil (cs ++ x ∷ xs))) w)),
            tail_ne h cs xs x w,
          )
          (end_loop-rest fuel cs x xs w lt)

  module _ (less : Ptr → Ptr → Bool) where
    -- An element moved before those that it is less than.
    splice-Moved :
        (h : Store) (cs us bs : List Ptr) (a b : Ptr) {g : Store}
        → Edited h g l (cs ++ (b ∷ a ∷ us ++ bs)) (cs ++ (a ∷ us ++ b ∷ bs))
        → Moved h g l (cs ++ (a ∷ us ++ b ∷ bs)) (cs ++ (b ∷ a ∷ us ++ bs))
    splice-Moved h cs us bs a b v = record {
      holds = v.holds;
      perm = Permᴰ.append_left cs (Permᴰ.middle b (a ∷ us) bs);
      outside = v.outside;
    }

    merge_loop-Moved :
        (fuel : ℕ) (h : Store) (cs us bs ds : List Ptr)
        → IsKernelList h l (cs ++ (us ++ (bs ++ ds)))
        → length us + length bs < fuel
        → (g : Store) × (merge_loop less fuel
              (first (us ++ (bs ++ ds)) l.tail)
              (first (bs ++ ds) l.tail)
              (first ds l.tail)
              h
            ≡ done tt g)
          × Moved h g l (cs ++ (us ++ (bs ++ ds))) (cs ++ (merge less us bs ++ ds))
    unfolding merge_loop
    merge_loop-Moved zero h cs us bs ds w lt = ground arith
    merge_loop-Moved (suc fuel) h cs [] bs ds w lt = (
      h,
      rw (eq→== (first (bs ++ ds) l.tail) (first (bs ++ ds) l.tail) refl) refl,
      Moved-refl h l (cs ++ (bs ++ ds)) w,
    )
    merge_loop-Moved (suc fuel) h cs (a ∷ us) [] ds w lt = (
      h,
      rw (later_ne h l cs us ds a w, eq→== (first ds l.tail) (first ds l.tail) refl) refl,
      Moved-refl h l (cs ++ (a ∷ us ++ ds)) w,
    )
    merge_loop-Moved (suc fuel) h cs (a ∷ us) (b ∷ bs) ds w lt =
        let v = subst (IsKernelList h l) (sym (append_assoc cs (a ∷ us) (b ∷ bs ++ ds))) w in
        let ab = later_ne h l cs us (b ∷ bs ++ ds) a w in
        let bd = later_ne h l (cs ++ a ∷ us) bs ds b v in
        elim (Bool-cases (less b a)) [
          | inl t ↦
              let (g, run, u) = list_splice-Edited h l cs us (bs ++ ds) a b w in
              let (k, rest, m) =
                merge_loop-Moved fuel g (cs ++ b ∷ []) (a ∷ us) bs ds
                  (step_over g cs b (a ∷ us ++ (bs ++ ds)) u.holds) (omega arith) in
              (
                k,
                rw
                    (
                      ab,
                      bd,
                      t,
                      list_next-at h l (cs ++ a ∷ us) (bs ++ ds) b v,
                      list_prev-at h l (cs ++ a ∷ us) (bs ++ ds) b v,
                      run,
                    )
                    rest,
                rw t (
                    Moved-trans (splice-Moved h cs us (bs ++ ds) a b u)
                      (rejoin g k cs b (a ∷ us ++ (bs ++ ds)) (merge less (a ∷ us) bs ++ ds) m)),
              )
          | inr f ↦
              let (k, rest, m) =
                merge_loop-Moved fuel h (cs ++ a ∷ []) us (b ∷ bs) ds
                  (step_over h cs a (us ++ (b ∷ bs ++ ds)) w) (omega arith) in
              (
                k,
                rw (ab, bd, f, list_next-at h l cs (us ++ (b ∷ bs ++ ds)) a w) rest,
                rw f (rejoin h k cs a (us ++ (b ∷ bs ++ ds)) (merge less us (b ∷ bs) ++ ds) m),
              )
        ]
      where
        rejoin :
            (h k : Store) (cs : List Ptr) (x : Ptr) (xs ys : List Ptr)
            → Moved h k l ((cs ++ x ∷ []) ++ xs) ((cs ++ x ∷ []) ++ ys)
            → Moved h k l (cs ++ x ∷ xs) (cs ++ x ∷ ys)
        rejoin h k cs x xs ys m =
            subst (λ z. Moved h k l z (cs ++ x ∷ ys)) (append_assoc cs (x ∷ []) xs)
              (subst (λ z. Moved h k l ((cs ++ x ∷ []) ++ xs) z) (append_assoc cs (x ∷ []) ys) m)

    -- `inplace_merge` of two runs of a list that follow one another puts their elements in order;
    -- one round more than there are elements is enough.
    pub inplace_merge-Moved :
        (fuel : ℕ) (h : Store) (cs : List Ptr) (a : Ptr) (us : List Ptr) (b : Ptr)
        (bs ds : List Ptr)
        → IsKernelList h l (cs ++ (a ∷ us ++ (b ∷ bs ++ ds)))
        → IsSorted less (a ∷ us)
        → IsSorted less (b ∷ bs)
        → length (a ∷ us) + length (b ∷ bs) < fuel
        → (g : Store) × (inplace_merge less fuel a b (first ds l.tail) h ≡ done tt g)
          × Moved h g l
              (cs ++ (a ∷ us ++ (b ∷ bs ++ ds)))
              (cs ++ (merge less (a ∷ us) (b ∷ bs) ++ ds))
    unfolding inplace_merge
    inplace_merge-Moved fuel h cs a us b bs ds w p q lt =
        let v = subst (IsKernelList h l) (sym (append_assoc cs (a ∷ us) (b ∷ bs ++ ds))) w in
        let u = subst (IsKernelList h l) (sym (append_assoc (cs ++ a ∷ us) (b ∷ bs) ds)) v in
        let (g, run, m) = merge_loop-Moved fuel h cs (a ∷ us) (b ∷ bs) ds w lt in
        (
          g,
          rw
              (
                ne→== a null (place_ne h cs (a ∷ us ++ (b ∷ bs ++ ds)) w),
                ne→== b null (place_ne h (cs ++ a ∷ us) (b ∷ bs ++ ds) v),
                ne→== (first ds l.tail) null (place_ne h ((cs ++ a ∷ us) ++ b ∷ bs) ds u),
                is_sorted-true less h fuel cs a us (b ∷ bs ++ ds) w p (omega arith),
                is_sorted-true less h fuel (cs ++ a ∷ us) b bs ds v q (omega arith),
              )
              run,
          m,
        )
