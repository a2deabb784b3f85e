-- ===== src/Malloc/Coalesce.antt =====
-- `coalesce` and `mm_free` of malloc-lab/mm.c.
use jungle_data_structures.Prelude.{
  ℕ, ◌+◌, ◌-◌, ◌*◌, ◌≡◌, ◌≤◌, sym, subst, ap, ◌∙◌, ◌==◌, if◌then◌else◌, List, [], ◌∷◌, arith,
}
use jungle_data_structures.Prelude.Run.{
  Outcome, done, Ends, Ends-done, Ends-continue, exact_then, ◌>>◌,
}
use jungle_data_structures.Malloc.Store.{Ptr, null, Arena, Act}
use jungle_data_structures.Malloc.Defs.{
  add_to_free_list, coalesce_next, coalesce_prev, coalesce_both, coalesce,
}
use jungle_data_structures.Malloc.Words.{InHeap}
use jungle_data_structures.Malloc.Links.{first}
use jungle_data_structures.Malloc.LinkWords.{arena}
use jungle_data_structures.Malloc.Blocks.{Block, used, free, place, place-le}
use jungle_data_structures.Malloc.Gap.{Limits, Gap}
use jungle_data_structures.Malloc.Fill.{write_ends, IsTagged, write_ends-IsTagged, Gap-write_ends}
use jungle_data_structures.Malloc.Reads.{
  get_size-done, get_alloc-done, next_blkp-done, ftrp-done, prev_blkp-done, put_both-done,
}
use jungle_data_structures.Malloc.Around.{
  free_units, past_free, bit_of, bit_of-lt, bit_of-parity, prev_at, prev_units, next_units, gap_brk,
  gap_word4, gap_word8, gap_small, prev_footer, prev_header, next_header, prev-place, prev_at-le,
  prev_at-even,
}
use jungle_data_structures.Malloc.Close.{Closed, close_add}
use jungle_data_structures.Malloc.Alloc.{mm_free}
use jungle_data_structures.Malloc.Reads.{pack_free}
use jungle_data_structures.Malloc.Open.{open_used}
use jungle_data_structures.Malloc.JoinOne.{plain, coalesce_next-Closed, coalesce_prev-Closed}
use jungle_data_structures.Malloc.JoinBoth.{coalesce_both-Closed}

-- The four cases of `coalesce`.
abbrev cases : (bp : Ptr) → (prev_alloc next_alloc size : ℕ) → Act Ptr
cases bp prev_alloc next_alloc size =
    if prev_alloc == 0
    then (if next_alloc == 0 then coalesce_both bp size else coalesce_prev bp size)
    else (if next_alloc == 0 then coalesce_next bp size else (do add_to_free_list bp; done bp))

module _ (s : Arena) (lim : Limits s.mem_start_brk s.mem_brk) where
  -- The gap became one free block with the free blocks at both sides.
  abbrev pub Coalesced : List Block → ℕ → List Block → Ptr → Arena → Type 0
  Coalesced rs n bs =
      Closed s lim (past_free rs) (free_units rs + (n + free_units bs)) (past_free bs)

  module _ (m : Ptr → ℕ) (n : ℕ) (fl : List Ptr) (l : 3 ≤ n) where
    resize :
        (rs bs : List Block) (r : Outcome Arena Ptr) (a b : ℕ)
        → a ≡ b
        → Ends (Closed s lim rs a bs) r
        → Ends (Closed s lim rs b bs) r
    resize rs bs r a b e w = subst (λ a. Ends (Closed s lim rs a bs) r) e w

    alone :
        (rs bs : List Block)
        → Gap s.mem_start_brk s.mem_brk m rs n bs fl
        → IsTagged m (place s.mem_start_brk rs) n (8 * n)
        → Ends
            (Closed s lim rs (0 + (n + 0)) bs)
            (cases (place s.mem_start_brk rs) 1 1 (8 * n) (arena s m (first fl null)))
    alone rs bs w t = resize rs bs _ n (0 + (n + 0)) (omega arith) (close_add s lim w l t)

    with_next :
        (rs : List Block) (j : ℕ) (bs : List Block)
        → Gap s.mem_start_brk s.mem_brk m rs n (free j ∷ bs) fl
        → IsTagged m (place s.mem_start_brk rs) n (8 * n)
        → Ends
            (Closed s lim rs (0 + (n + j)) bs)
            (cases (place s.mem_start_brk rs) 1 0 (8 * n) (arena s m (first fl null)))
    with_next rs j bs w (e, _) =
        resize rs bs _ (n + j) (0 + (n + j)) (omega arith)
          (coalesce_next-Closed s lim m rs n j bs fl w l e)

    with_prev :
        (k : ℕ) (rs bs : List Block)
        → Gap s.mem_start_brk s.mem_brk m (free k ∷ rs) n bs fl
        → Ends
            (Closed s lim rs (k + (n + 0)) bs)
            (cases (place s.mem_start_brk (free k ∷ rs)) 0 1 (8 * n) (arena s m (first fl null)))
    with_prev k rs bs w =
        resize rs bs _ (k + n) (k + (n + 0)) (omega arith)
          (coalesce_prev-Closed s lim m rs k n bs fl w l)

    cases-Coalesced :
        (rs bs : List Block)
        → Gap s.mem_start_brk s.mem_brk m rs n bs fl
        → IsTagged m (place s.mem_start_brk rs) n (8 * n)
        → Ends (Coalesced rs n bs) (
            cases
              (place s.mem_start_brk rs)
              (bit_of rs)
              (bit_of bs)
              (8 * n)
              (arena s m (first fl null)))
    cases-Coalesced [] [] w t = alone [] [] w t
    cases-Coalesced [] (used j d ∷ bs) w t = alone [] (used j d ∷ bs) w t
    cases-Coalesced [] (free j ∷ bs) w t = with_next [] j bs w t
    cases-Coalesced (used k c ∷ rs) [] w t = alone (used k c ∷ rs) [] w t
    cases-Coalesced (used k c ∷ rs) (used j d ∷ bs) w t = alone (used k c ∷ rs) (used j d ∷ bs) w t
    cases-Coalesced (used k c ∷ rs) (free j ∷ bs) w t = with_next (used k c ∷ rs) j bs w t
    cases-Coalesced (free k ∷ rs) [] w t = with_prev k rs [] w
    cases-Coalesced (free k ∷ rs) (used j d ∷ bs) w t = with_prev k rs (used j d ∷ bs) w
    cases-Coalesced (free k ∷ rs) (free j ∷ bs) w (e, _) =
        coalesce_both-Closed s lim m rs k n j bs fl w l e

    prev_word :
        (rs bs : List Block)
        → Gap s.mem_start_brk s.mem_brk m rs n bs fl
        → InHeap s.mem_start_brk s.mem_brk (prev_at s.mem_start_brk rs - 4)
    prev_word rs bs w =
        let le = prev_at-le s.mem_start_brk rs in
        record {
          low = omega (arith, le);
          high = omega (arith, prev-place s.mem_start_brk rs, gap_brk lim w, l, le);
          even = omega (arith, prev_at-even s.mem_start_brk rs lim.even, le);
        }

  -- The bytes between two stretches of blocks, written as a free block, are coalesced.
  pub coalesce-Coalesced :
      (m : Ptr → ℕ) (n : ℕ) (fl : List Ptr) (rs bs : List Block)
      → Gap s.mem_start_brk s.mem_brk m rs n bs fl
      → 3 ≤ n
      → IsTagged m (place s.mem_start_brk rs) n (8 * n)
      → Ends (Coalesced rs n bs) (coalesce (place s.mem_start_brk rs) (arena s m (first fl null)))
  unfolding coalesce
  coalesce-Coalesced m n fl rs bs w l t =
      let p = place s.mem_start_brk rs in
      let f = first fl null in
      let ge = place-le s.mem_start_brk rs in
      let at = prev-place s.mem_start_brk rs in
      let foot = prev_footer s.mem_start_brk m rs w.behind in
      let i8 = gap_word8 lim w 0 (p - 8) (omega arith) (omega (arith, ge)) in
      let i4 = gap_word4 lim w 0 (p - 4) (omega arith) (omega (arith, ge)) in
      exact_then _
        (prev_blkp-done s m f p (prev_units rs) (bit_of rs) (prev_at s.mem_start_brk rs) i8 foot
          (bit_of-lt rs) at)
        (exact_then _
          (ftrp-done s m f (prev_at s.mem_start_brk rs) (prev_units rs) (bit_of rs)
              (prev_word m n fl l rs bs w) (prev_header s.mem_start_brk m rs w.behind)
              (bit_of-lt rs)
            ∙ ap (λ a. done (a - 8) (arena s m f)) (sym at))
          (exact_then _
            (get_alloc-done s m f (p - 8) (8 * prev_units rs + bit_of rs) (bit_of rs) i8 foot
              (bit_of-parity (prev_units rs) rs))
            (exact_then _ (next_blkp-done s m f p n 0 i4 (plain _ n t.0) (omega arith)) (
              exact_then _
                (get_alloc-done s m f (p + 8 * n - 4) (8 * next_units bs + bit_of bs) (bit_of bs)
                  (gap_word4 lim w n (p + 8 * n - 4) (omega arith) (omega (arith, ge)))
                  (next_header m (p + 8 * n) bs s.mem_brk w.ahead)
                  (bit_of-parity (next_units bs) bs))
                (exact_then _ (get_size-done s m f (p - 4) n 0 i4 (plain _ n t.0) (omega arith))
                  (cases-Coalesced m n fl l rs bs w t))))))

  -- In a heap of blocks all whose free ones are in the free list, `mm_free` of a block in use makes
  -- one free block of it and the free blocks next to it, the first of the free list; the sequence of
  -- the blocks is otherwise the same, the payloads of those in use included, and its free blocks are
  -- in the free list.
  pub mm_free-Coalesced :
      (m : Ptr → ℕ) (n : ℕ) (c : ℕ → ℕ) (fl : List Ptr) (rs bs : List Block)
      → Gap s.mem_start_brk s.mem_brk m rs 0 (used n c ∷ bs) fl
      → Ends
          (λ _ g. Coalesced rs n bs (place s.mem_start_brk (past_free rs)) g)
          (mm_free (place s.mem_start_brk rs) (arena s m (first fl null)))
  unfolding mm_free
  mm_free-Coalesced m n c fl rs bs w0 =
      let p = place s.mem_start_brk rs in
      let f = first fl null in
      let ge = place-le s.mem_start_brk rs in
      let (l, e, _, _, _) = w0.ahead in
      let w =
        subst (λ k. Gap s.mem_start_brk s.mem_brk m rs k bs fl) zero_plus (open_used lim n c w0) in
      let i = gap_word4 lim w 0 (p - 4) (omega arith) (omega (arith, ge)) in
      exact_then _
        (get_size-done s m f (p - 4) n 1 i (subst (λ a. m (a - 4) ≡ 8 * n + 1) zero_more e)
          (omega arith))
        (rw (pack_free n) (
          exact_then _
            (put_both-done s m f p n 0 (8 * n) i
              (gap_word8 lim w n (p + 8 * n - 8) (omega arith) (omega (arith, ge, l))) (omega arith)
              (omega arith) (omega (arith, gap_small lim w)))
            (Ends-continue
              (coalesce-Coalesced (write_ends m p n (8 * n)) n fl rs bs
                (Gap-write_ends lim w (8 * n) (omega (arith, l))) l
                (write_ends-IsTagged m p n (8 * n) (omega (arith, l)) (omega (arith, ge))))
              (λ b g x. Ends-done (subst (λ b. Coalesced rs n bs b g) x.0 x)))))
    where
      zero_plus : 0 + n ≡ n
      zero_plus = omega arith

      zero_more : place s.mem_start_brk rs + 8 * 0 ≡ place s.mem_start_brk rs
      zero_more = omega arith
