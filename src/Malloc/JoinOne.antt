-- ===== src/Malloc/JoinOne.antt =====
-- Cases 2 and 3 of `coalesce` of malloc-lab/mm.c: one neighbour is free.
use jungle_data_structures.Prelude.{
  ℕ, ◌+◌, ◌-◌, ◌*◌, ◌≡◌, ◌≤◌, refl, sym, subst, ◌∙◌, List, ◌∷◌, arith,
}
use jungle_data_structures.Prelude.Run.{done, Ends, Ends-continue, exact_then, ◌>>=◌, ◌>>◌}
use jungle_data_structures.Malloc.Store.{Ptr, null, Arena, Act, put, write}
use jungle_data_structures.Malloc.Defs.{
  pack, hdrp, get_size, ftrp, next_blkp, prev_blkp, put_both, add_to_free_list, coalesce_next,
  coalesce_prev,
}
use jungle_data_structures.Malloc.Words.{put-done, write_here, write_ne}
use jungle_data_structures.Malloc.Links.{first}
use jungle_data_structures.Malloc.LinkWords.{arena}
use jungle_data_structures.Malloc.Blocks.{Block, free, place, place-le}
use jungle_data_structures.Malloc.Gap.{Limits, Gap}
use jungle_data_structures.Malloc.Fill.{write_ends-IsTagged, Gap-write_ends, Behind-SameBut}
use jungle_data_structures.Malloc.Reads.{
  pack_sum, get_size-done, next_blkp-done, ftrp-done, prev_blkp-done, put_both-done,
}
use jungle_data_structures.Malloc.Around.{gap_word4, gap_word8, gap_small, gap_same}
use jungle_data_structures.Malloc.Close.{Closed, remove_next, remove_prev, close_add}

pub plain : (v u : ℕ) → v ≡ 8 * u → v ≡ 8 * u + 0
plain v u e = omega (arith, e)

-- What follows the removal in case 2.
abbrev after_next : (bp : Ptr) → (size : ℕ) → Act Ptr
after_next bp size = do
  next ← next_blkp bp
  more ← get_size (hdrp next)
  put_both bp (pack (size + more) 0)
  add_to_free_list bp
  done bp

module _ (s : Arena) (lim : Limits s.mem_start_brk s.mem_brk) where
  module _ (m : Ptr → ℕ) (rs : List Block) (n k : ℕ) (bs : List Block) (fl : List Ptr) where
    after_next-Closed :
        Gap s.mem_start_brk s.mem_brk m rs (n + k) bs fl
        → 3 ≤ n
        → m (place s.mem_start_brk rs - 4) ≡ 8 * n
        → m (place s.mem_start_brk rs + 8 * n - 4) ≡ 8 * k
        → Ends
            (Closed s lim rs (n + k) bs)
            (after_next (place s.mem_start_brk rs) (8 * n) (arena s m (first fl null)))
    after_next-Closed w l e h =
        let p = place s.mem_start_brk rs in
        let f = first fl null in
        let ge = place-le s.mem_start_brk rs in
        let i = gap_word4 lim w 0 (p - 4) (omega arith) (omega (arith, ge)) in
        let t =
          write_ends-IsTagged m p (n + k) (8 * (n + k)) (omega (arith, l)) (omega (arith, ge)) in
        exact_then _ (next_blkp-done s m f p n 0 i (plain _ n e) (omega arith)) (
          exact_then _
            (get_size-done s m f (p + 8 * n - 4) k 0
              (gap_word4 lim w n (p + 8 * n - 4) (omega arith) (omega (arith, ge))) (plain _ k h)
              (omega arith))
            (rw (pack_sum n k) (
              exact_then _
                (put_both-done s m f p (n + k) 0 (8 * (n + k)) i
                  (gap_word8 lim w (n + k) (p + 8 * (n + k) - 8) (omega arith) (omega (arith, ge)))
                  (omega arith) (omega arith) (omega (arith, gap_small lim w)))
                (close_add s lim (Gap-write_ends lim w (8 * (n + k)) (omega (arith, l)))
                  (omega (arith, l)) t))))

  module _ (m : Ptr → ℕ) (rs : List Block) (n k : ℕ) (bs : List Block) (fl : List Ptr) where
    -- Case 2.
    pub coalesce_next-Closed :
        Gap s.mem_start_brk s.mem_brk m rs n (free k ∷ bs) fl
        → 3 ≤ n
        → m (place s.mem_start_brk rs - 4) ≡ 8 * n
        → Ends
            (Closed s lim rs (n + k) bs)
            (coalesce_next (place s.mem_start_brk rs) (8 * n) (arena s m (first fl null)))
    unfolding coalesce_next
    coalesce_next-Closed w l e =
        let p = place s.mem_start_brk rs in
        let ge = place-le s.mem_start_brk rs in
        let (_, h, _, _, _) = w.ahead in
        exact_then _
          (next_blkp-done s m (first fl null) p n 0
            (gap_word4 lim w 0 (p - 4) (omega arith) (omega (arith, ge))) (plain _ n e)
            (omega arith))
          (Ends-continue (remove_next s lim k w) (λ _ g (m1, fl1, r, same, w1).
            subst (λ g. Ends (Closed s lim rs (n + k) bs) (after_next p (8 * n) g)) (sym r)
              (after_next-Closed m1 rs n k bs fl1 w1 l
                (gap_same lim w m1 (p - 4) same (omega arith) (omega (arith, ge)) ∙ e)
                (gap_same lim w m1 (p + 8 * n - 4) same (omega arith) (omega (arith, ge)) ∙ h))))

-- What follows the removal in case 3.
abbrev after_prev : (bp : Ptr) → (size : ℕ) → Act Ptr
after_prev bp size = do
  prev ← prev_blkp bp
  more ← get_size (hdrp prev)
  prev ← prev_blkp bp
  put (hdrp prev) (pack (size + more) 0)
  prev ← prev_blkp bp
  f ← ftrp prev
  put f (pack (size + more) 0)
  prev ← prev_blkp bp
  add_to_free_list prev
  done prev

module _ (s : Arena) (lim : Limits s.mem_start_brk s.mem_brk) where
  module _ (m : Ptr → ℕ) (rs : List Block) (k n : ℕ) (bs : List Block) (fl : List Ptr) where
    after_prev-Closed :
        Gap s.mem_start_brk s.mem_brk m rs (k + n) bs fl
        → 3 ≤ k
        → 1 ≤ n
        → m (place s.mem_start_brk rs - 4) ≡ 8 * k
        → m (place s.mem_start_brk rs + 8 * k - 8) ≡ 8 * k
        → Ends
            (Closed s lim rs (k + n) bs)
            (after_prev (place s.mem_start_brk rs + 8 * k) (8 * n) (arena s m (first fl null)))
    after_prev-Closed w l n1 e h =
        let q = place s.mem_start_brk rs in
        let f = first fl null in
        let ge = place-le s.mem_start_brk rs in
        let x = 8 * (k + n) in
        let m1 = write m (q - 4) x in
        let m2 = write m1 (q + 8 * (k + n) - 8) x in
        let i = gap_word4 lim w 0 (q - 4) (omega arith) (omega (arith, ge)) in
        let b = gap_word8 lim w k (q + 8 * k - 8) (omega arith) (omega (arith, ge)) in
        let z = gap_word8 lim w (k + n) (q + 8 * (k + n) - 8) (omega arith) (omega (arith, ge)) in
        let h1 : m1 (q + 8 * k - 8) ≡ 8 * k =
          write_ne m (q - 4) (q + 8 * k - 8) x (λ t. past q ge t l) ∙ h in
        let h2 : m2 (q + 8 * k - 8) ≡ 8 * k =
          write_ne m1 (q + 8 * (k + n) - 8) (q + 8 * k - 8) x (λ t. short q ge t n1) ∙ h1 in
        let t = write_ends-IsTagged m q (k + n) x (omega (arith, l)) (omega (arith, ge)) in
        exact_then _ (prev_blkp-done s m f (q + 8 * k) k 0 q b (plain _ k h) (omega arith) refl) (
          exact_then _ (get_size-done s m f (q - 4) k 0 i (plain _ k e) (omega arith)) (
            exact_then _ (prev_blkp-done s m f (q + 8 * k) k 0 q b (plain _ k h) (omega arith) refl)
              (rw (pack_sum n k ∙ swap) (
                exact_then _
                  (put-done (record s { free_listp = f }) m (q - 4) x i
                    (omega (arith, gap_small lim w)))
                  (exact_then _
                    (prev_blkp-done s m1 f (q + 8 * k) k 0 q b (plain _ k h1) (omega arith) refl)
                    (exact_then _
                      (ftrp-done s m1 f q (k + n) 0 i (plain _ (k + n) (write_here m (q - 4) x))
                        (omega arith))
                      (exact_then _
                        (put-done (record s { free_listp = f }) m1 (q + 8 * (k + n) - 8) x z
                          (omega (arith, gap_small lim w)))
                        (exact_then _
                          (prev_blkp-done s m2 f (q + 8 * k) k 0 q b (plain _ k h2) (omega arith)
                            refl)
                          (close_add s lim (Gap-write_ends lim w x (omega (arith, l)))
                            (omega (arith, l)) t)))))))))
      where
        swap : 8 * (n + k) ≡ 8 * (k + n)
        swap = omega arith

        past : (q : Ptr) → s.mem_start_brk + 16 ≤ q → q + 8 * k - 8 ≡ q - 4 → 3 ≤ k → ⊥
        past q ge t l = omega (arith, t, l, ge)

        short :
            (q : Ptr) → s.mem_start_brk + 16 ≤ q → q + 8 * k - 8 ≡ q + 8 * (k + n) - 8 → 1 ≤ n → ⊥
        short q ge t l = omega (arith, t, l, ge)

  module _ (m : Ptr → ℕ) (rs : List Block) (k n : ℕ) (bs : List Block) (fl : List Ptr) where
    -- Case 3.
    pub coalesce_prev-Closed :
        Gap s.mem_start_brk s.mem_brk m (free k ∷ rs) n bs fl
        → 3 ≤ n
        → Ends
            (Closed s lim rs (k + n) bs)
            (coalesce_prev (place s.mem_start_brk rs + 8 * k) (8 * n) (arena s m (first fl null)))
    unfolding coalesce_prev
    coalesce_prev-Closed w l =
        let q = place s.mem_start_brk rs in
        let ge = place-le s.mem_start_brk rs in
        let (k3, _, h, _, _) = w.behind in
        exact_then _
          (prev_blkp-done s m (first fl null) (q + 8 * k) k 0 q
            (gap_word8 lim w 0 (q + 8 * k - 8) (omega arith) (omega (arith, ge))) (plain _ k h)
            (omega arith) refl)
          (Ends-continue (remove_prev s lim k w) (λ _ g (m1, fl1, r, same, w1).
            let (_, e1, h1, _, _) = Behind-SameBut lim w m1 same in
            subst (λ g. Ends (Closed s lim rs (k + n) bs) (after_prev (q + 8 * k) (8 * n) g))
              (sym r) (after_prev-Closed m1 rs k n bs fl1 w1 k3 (omega (arith, l)) e1 h1)))
