-- ===== src/Malloc/JoinBoth.antt =====
-- Case 4 of `coalesce` of malloc-lab/mm.c: both neighbours are free.
use jungle_data_structures.Prelude.{
  ℕ, ◌+◌, ◌-◌, ◌*◌, ◌≡◌, ◌≤◌, ◌<◌, refl, sym, subst, ap, ◌∙◌, List, ◌∷◌, arith,
}
use jungle_data_structures.Prelude.Run.{done, Ends, Ends-continue, exact_then, ◌>>=◌, ◌>>◌}
use jungle_data_structures.Malloc.Store.{Ptr, null, Arena, Act, put, write}
use jungle_data_structures.Malloc.Defs.{
  pack, hdrp, get_size, ftrp, next_blkp, prev_blkp, remove_from_free_list, add_to_free_list,
  coalesce_both,
}
use jungle_data_structures.Malloc.Words.{put-done, write_ne}
use jungle_data_structures.Malloc.Links.{first}
use jungle_data_structures.Malloc.LinkWords.{arena}
use jungle_data_structures.Malloc.Blocks.{Block, free, place, place-le}
use jungle_data_structures.Malloc.Gap.{Limits, Gap}
use jungle_data_structures.Malloc.Fill.{
  write_ends-IsTagged, Gap-write_ends, Behind-SameBut, Ahead-SameBut,
}
use jungle_data_structures.Malloc.Reads.{
  pack_three, get_size-done, next_blkp-done, ftrp-done, prev_blkp-done,
}
use jungle_data_structures.Malloc.Around.{gap_word4, gap_word8, gap_small, gap_same}
use jungle_data_structures.Malloc.Close.{Closed, remove_next, remove_prev, close_add}
use jungle_data_structures.Malloc.JoinOne.{plain}

-- What follows the removals.
abbrev after_both : (bp : Ptr) → (size : ℕ) → Act Ptr
after_both bp size = do
  prev ← prev_blkp bp
  before ← get_size (hdrp prev)
  next ← next_blkp bp
  f ← ftrp next
  behind ← get_size f
  prev ← prev_blkp bp
  put (hdrp prev) (pack (size + (before + behind)) 0)
  next ← next_blkp bp
  f ← ftrp next
  put f (pack (size + (before + behind)) 0)
  prev ← prev_blkp bp
  add_to_free_list prev
  done prev

abbrev after_first : (bp : Ptr) → (size : ℕ) → Act Ptr
after_first bp size = do prev ← prev_blkp bp; remove_from_free_list prev; after_both bp size

module _ (s : Arena) (lim : Limits s.mem_start_brk s.mem_brk) where
  module _ (m : Ptr → ℕ) (rs : List Block) (k n j : ℕ) (bs : List Block) (fl : List Ptr) where
    after_both-Closed :
        Gap s.mem_start_brk s.mem_brk m rs (k + (n + j)) bs fl
        → 3 ≤ k
        → 3 ≤ n
        → 3 ≤ j
        → m (place s.mem_start_brk rs - 4) ≡ 8 * k
        → m (place s.mem_start_brk rs + 8 * k - 8) ≡ 8 * k
        → m (place s.mem_start_brk rs + 8 * k - 4) ≡ 8 * n
        → m (place s.mem_start_brk rs + 8 * k + 8 * n - 4) ≡ 8 * j
        → m (place s.mem_start_brk rs + 8 * k + 8 * n + 8 * j - 8) ≡ 8 * j
        → Ends
            (Closed s lim rs (k + (n + j)) bs)
            (after_both (place s.mem_start_brk rs + 8 * k) (8 * n) (arena s m (first fl null)))
    after_both-Closed w k3 n3 j3 ek fk en ej fj =
        let q = place s.mem_start_brk rs in
        let p = q + 8 * k in
        let z = q + 8 * (k + (n + j)) - 8 in
        let f = first fl null in
        let ge = place-le s.mem_start_brk rs in
        let x = 8 * (k + (n + j)) in
        let m1 = write m (q - 4) x in
        let m2 = write m1 z x in
        let small : x < 4294967296 = omega (arith, gap_small lim w) in
        let i = gap_word4 lim w 0 (q - 4) (omega arith) (omega (arith, ge)) in
        let b = gap_word8 lim w k (p - 8) (omega arith) (omega (arith, ge)) in
        let c = gap_word4 lim w k (p - 4) (omega arith) (omega (arith, ge)) in
        let d = gap_word4 lim w (k + n) (p + 8 * n - 4) (omega arith) (omega (arith, ge)) in
        let g =
          gap_word8 lim w (k + (n + j)) (p + 8 * n + 8 * j - 8) (omega arith) (omega (arith, ge)) in
        let end : p + 8 * n + 8 * j - 8 ≡ z = omega arith in
        let fk1 : m1 (p - 8) ≡ 8 * k = write_ne m (q - 4) (p - 8) x (λ t. low8 q ge t k3) ∙ fk in
        let fk2 : m2 (p - 8) ≡ 8 * k = write_ne m1 z (p - 8) x (λ t. high8 q ge t n3) ∙ fk1 in
        let en1 : m1 (p - 4) ≡ 8 * n = write_ne m (q - 4) (p - 4) x (λ t. low4 q ge t k3) ∙ en in
        let ej1 : m1 (p + 8 * n - 4) ≡ 8 * j =
          write_ne m (q - 4) (p + 8 * n - 4) x (λ t. low_next q ge t k3) ∙ ej in
        let t = write_ends-IsTagged m q (k + (n + j)) x (omega (arith, k3)) (omega (arith, ge)) in
        exact_then _ (prev_blkp-done s m f p k 0 q b (plain _ k fk) (omega arith) refl) (
          exact_then _ (get_size-done s m f (q - 4) k 0 i (plain _ k ek) (omega arith)) (
            exact_then _ (next_blkp-done s m f p n 0 c (plain _ n en) (omega arith)) (
              exact_then _ (ftrp-done s m f (p + 8 * n) j 0 d (plain _ j ej) (omega arith)) (
                exact_then _
                  (get_size-done s m f (p + 8 * n + 8 * j - 8) j 0 g (plain _ j fj) (omega arith))
                  (exact_then _ (prev_blkp-done s m f p k 0 q b (plain _ k fk) (omega arith) refl) (
                    rw (pack_three n k j) (
                      exact_then _ (put-done (record s { free_listp = f }) m (q - 4) x i small) (
                        exact_then _ (next_blkp-done s m1 f p n 0 c (plain _ n en1) (omega arith)) (
                          exact_then _
                            (ftrp-done s m1 f (p + 8 * n) j 0 d (plain _ j ej1) (omega arith)
                              ∙ ap (λ a. done a (arena s m1 f)) end)
                            (exact_then _
                              (put-done (record s { free_listp = f }) m1 z x
                                (gap_word8 lim w (k + (n + j)) z (omega arith) (omega (arith, ge)))
                                small)
                              (exact_then _
                                (prev_blkp-done s m2 f p k 0 q b (plain _ k fk2) (omega arith) refl)
                                (close_add s lim (Gap-write_ends lim w x (omega (arith, k3)))
                                  (omega (arith, k3)) t))))))))))))
      where
        low8 : (q : Ptr) → s.mem_start_brk + 16 ≤ q → q + 8 * k - 8 ≡ q - 4 → 3 ≤ k → ⊥
        low8 q ge t l = omega (arith, t, l, ge)

        low4 : (q : Ptr) → s.mem_start_brk + 16 ≤ q → q + 8 * k - 4 ≡ q - 4 → 3 ≤ k → ⊥
        low4 q ge t l = omega (arith, t, l, ge)

        low_next : (q : Ptr) → s.mem_start_brk + 16 ≤ q → q + 8 * k + 8 * n - 4 ≡ q - 4 → 3 ≤ k → ⊥
        low_next q ge t l = omega (arith, t, l, ge)

        high8 :
            (q : Ptr)
            → s.mem_start_brk + 16 ≤ q
            → q + 8 * k - 8 ≡ q + 8 * (k + (n + j)) - 8
            → 3 ≤ n
            → ⊥
        high8 q ge t l = omega (arith, t, l, ge)

  module _ (m : Ptr → ℕ) (rs : List Block) (k n j : ℕ) (bs : List Block) (fl : List Ptr) where
    after_first-Closed :
        Gap s.mem_start_brk s.mem_brk m (free k ∷ rs) (n + j) bs fl
        → 3 ≤ n
        → 3 ≤ j
        → m (place s.mem_start_brk rs + 8 * k - 4) ≡ 8 * n
        → m (place s.mem_start_brk rs + 8 * k + 8 * n - 4) ≡ 8 * j
        → m (place s.mem_start_brk rs + 8 * k + 8 * n + 8 * j - 8) ≡ 8 * j
        → Ends
            (Closed s lim rs (k + (n + j)) bs)
            (after_first (place s.mem_start_brk rs + 8 * k) (8 * n) (arena s m (first fl null)))
    after_first-Closed w n3 j3 en ej fj =
        let q = place s.mem_start_brk rs in
        let p = q + 8 * k in
        let ge = place-le s.mem_start_brk rs in
        let (k3, _, h, _, _) = w.behind in
        exact_then _
          (prev_blkp-done s m (first fl null) p k 0 q
            (gap_word8 lim w 0 (p - 8) (omega arith) (omega (arith, ge))) (plain _ k h)
            (omega arith) refl)
          (Ends-continue (remove_prev s lim k w) (λ _ g (m1, fl1, r, same, w1).
            let (_, ek, fk, _, _) = Behind-SameBut lim w m1 same in
            subst (λ g. Ends (Closed s lim rs (k + (n + j)) bs) (after_both p (8 * n) g)) (sym r)
              (after_both-Closed m1 rs k n j bs fl1 w1 k3 n3 j3 ek fk
                (gap_same lim w m1 (p - 4) same (omega arith) (omega (arith, ge, n3)) ∙ en)
                (gap_same lim w m1 (p + 8 * n - 4) same (omega arith) (omega (arith, ge)) ∙ ej)
                (gap_same lim w m1 (p + 8 * n + 8 * j - 8) same (omega (arith, j3))
                    (omega (arith, ge, j3))
                  ∙ fj))))

  module _ (m : Ptr → ℕ) (rs : List Block) (k n j : ℕ) (bs : List Block) (fl : List Ptr) where
    -- Case 4.
    pub coalesce_both-Closed :
        Gap s.mem_start_brk s.mem_brk m (free k ∷ rs) n (free j ∷ bs) fl
        → 3 ≤ n
        → m (place s.mem_start_brk rs + 8 * k - 4) ≡ 8 * n
        → Ends
            (Closed s lim rs (k + (n + j)) bs)
            (coalesce_both (place s.mem_start_brk rs + 8 * k) (8 * n) (arena s m (first fl null)))
    unfolding coalesce_both
    coalesce_both-Closed w n3 en =
        let p = place s.mem_start_brk rs + 8 * k in
        let ge = place-le s.mem_start_brk rs in
        let (j3, _, _, _, _) = w.ahead in
        exact_then _
          (next_blkp-done s m (first fl null) p n 0
            (gap_word4 lim w 0 (p - 4) (omega arith) (omega (arith, ge))) (plain _ n en)
            (omega arith))
          (Ends-continue (remove_next s lim j w) (λ _ g (m1, fl1, r, same, w1).
            let (_, ej, fj, _, _) = Ahead-SameBut lim w m1 same in
            subst (λ g. Ends (Closed s lim rs (k + (n + j)) bs) (after_first p (8 * n) g)) (sym r)
              (after_first-Closed m1 rs k n j bs fl1 w1 n3 j3
                (gap_same lim w m1 (p - 4) same (omega arith) (omega (arith, ge, n3)) ∙ en) ej fj)))
