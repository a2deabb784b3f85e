-- ===== src/Malloc/Realloc.antt =====
-- `mm_realloc` of malloc-lab/mm.c where a block can stay where it is.
use jungle_data_structures.Prelude.{
  le_or_lt, le→leb, lt→leb, ℕ, ◌+◌, ◌-◌, ◌*◌, ◌≡◌, ◌≤◌, ◌<◌, ◌⊎◌, inl, inr, refl, subst, ◌∙◌, ne→==,
  List, ◌∷◌, arith,
}
use jungle_data_structures.Prelude.Bits.{or_even_one}
use jungle_data_structures.Prelude.Run.{Ends, Ends-done, Ends-map, Ends-continue, exact_then}
use jungle_data_structures.Malloc.Store.{Ptr, null, Arena, Act}
use jungle_data_structures.Malloc.Defs.{pack}
use jungle_data_structures.Malloc.Alloc.{aligned, extend_forward, mm_realloc}
use jungle_data_structures.Malloc.Links.{first}
use jungle_data_structures.Malloc.LinkWords.{arena}
use jungle_data_structures.Malloc.Blocks.{Block, used, free, Holds, place, place-le}
use jungle_data_structures.Malloc.Gap.{Limits, Gap}
use jungle_data_structures.Malloc.Open.{open_used}
use jungle_data_structures.Malloc.Reads.{get_size-done, get_alloc-done, next_blkp-done}
use jungle_data_structures.Malloc.Around.{gap_word4, gap_same}
use jungle_data_structures.Malloc.Close.{remove_next}
use jungle_data_structures.Malloc.JoinOne.{plain}
use jungle_data_structures.Malloc.Place.{Whole, put_both-Whole}

-- The first payload words, of a block of `n` units, agree.
abbrev pub Keeps : (n : ℕ) → (c d : ℕ → ℕ) → Type 0
Keeps n c d = (i : ℕ) → i + 3 ≤ 2 * n → d i ≡ c i

module _ (memcpy : (dst src : Ptr) → (n : ℕ) → Act (Unit {0})) (s : Arena)
    (lim : Limits s.mem_start_brk s.mem_brk) (m : Ptr → ℕ) (rs : List Block) (n k : ℕ)
    (bs : List Block) (fl : List Ptr) where
  extend_forward-Whole :
      (fuel size : ℕ)
      → Gap s.mem_start_brk s.mem_brk m rs n (free k ∷ bs) fl
      → 3 ≤ n
      → m (place s.mem_start_brk rs - 4) ≡ 8 * n + 1
      → aligned size ≤ 8 * n + 8 * k
      → (c : ℕ → ℕ) → Holds m (place s.mem_start_brk rs) (used n c)
      → Ends
          (λ q g.
            (d : ℕ → ℕ) × Keeps n c d
            × (q ≡ place s.mem_start_brk rs)
            × Whole s lim rs (used (n + k) d ∷ bs) g)
          (extend_forward memcpy fuel
            (place s.mem_start_brk rs)
            size
            (8 * n)
            (aligned size)
            (arena s m (first fl null)))
  unfolding extend_forward
  extend_forward-Whole fuel size w n3 e fits c hd =
      let p = place s.mem_start_brk rs in
      let f = first fl null in
      let ge = place-le s.mem_start_brk rs in
      let (k3, h, _, _, _) = w.ahead in
      let j = gap_word4 lim w n (p + 8 * n - 4) (omega arith) (omega (arith, ge)) in
      exact_then _
        (next_blkp-done s m f p n 1 (gap_word4 lim w 0 (p - 4) (omega arith) (omega (arith, ge))) e
          (omega arith))
        (exact_then _ (get_alloc-done s m f (p + 8 * n - 4) (8 * k) 0 j h (omega arith)) (
          exact_then _ (get_size-done s m f (p + 8 * n - 4) k 0 j (plain _ k h) (omega arith)) (
            rw
              (
                ne→== (8 * k) 0 (λ t. omega (arith, t, k3)),
                le→leb (aligned size) (8 * n + 8 * k) fits,
                pack_grown n k,
              )
              (Ends-continue (remove_next s lim k w) (λ _ g (m1, fl1, r, same, w1). rw r (
                Ends-continue
                  (put_both-Whole s lim m1 rs bs fl1 (n + k) (λ i. m1 (p + 4 * i))
                    (omega (arith, n3)) w1 (λ i l. refl))
                  (λ _ g v. Ends-done (
                    λ i. m1 (p + 4 * i),
                    λ i l.
                        gap_same lim w m1 (p + 4 * i) same (omega arith) (omega (arith, l))
                        ∙ hd i l,
                    refl,
                    v,
                  ))))))))
    where
      pack_grown : (n k : ℕ) → pack (8 * n + 8 * k) 1 ≡ 8 * (n + k) + 1
      pack_grown n k = or_even_one (8 * n + 8 * k) (omega arith) ∙ omega arith

module _ (memcpy : (dst src : Ptr) → (n : ℕ) → Act (Unit {0})) (s : Arena)
    (lim : Limits s.mem_start_brk s.mem_brk) (m : Ptr → ℕ) (rs : List Block) (n k : ℕ)
    (bs : List Block) (fl : List Ptr) where
  -- The block was large enough alone, and nothing has changed, or it has grown.
  abbrev pub Regrown : (asize : ℕ) → (c : ℕ → ℕ) → Ptr → Arena → Type 0
  Regrown asize c q g =
      (q ≡ place s.mem_start_brk rs)
      × (((asize ≤ 8 * n)
            × (g ≡ arena s m (first fl null))
            × Whole s lim rs (used n c ∷ free k ∷ bs) g)
          ⊎ ((8 * n < asize) × (d : ℕ → ℕ) × Keeps n c d × Whole s lim rs (used (n + k) d ∷ bs) g))

  -- `mm_realloc` to a size above 0, of a block in use that is large enough together with the free
  -- block that follows, returns its address. If the block is large enough alone, the memory is the
  -- same; otherwise the two become one block in use whose payload starts with that of the block. The
  -- sequence of the blocks is otherwise the same, the payloads of those in use included, and its free
  -- blocks are in the free list.
  pub mm_realloc-Whole :
      (fuel size : ℕ) (c : ℕ → ℕ)
      → 0 < size
      → Gap s.mem_start_brk s.mem_brk m rs 0 (used n c ∷ free k ∷ bs) fl
      → aligned size ≤ 8 * n + 8 * k
      → Ends
          (Regrown (aligned size) c)
          (mm_realloc memcpy fuel (place s.mem_start_brk rs) size (arena s m (first fl null)))
  unfolding mm_realloc
  mm_realloc-Whole fuel size c pos w fits =
      let p = place s.mem_start_brk rs in
      let f = first fl null in
      let ge = place-le s.mem_start_brk rs in
      let (n3, e0, _, hd0, _) = w.ahead in
      let e = subst (λ a. m (a - 4) ≡ 8 * n + 1) zero_more e0 in
      let hd = subst (λ a. Holds m a (used n c)) zero_more hd0 in
      let v =
        subst (λ j. Gap s.mem_start_brk s.mem_brk m rs j (free k ∷ bs) fl) zero_plus
          (open_used lim n c w) in
      rw (ne→== p null (λ t. omega (arith, t, ge)), ne→== size 0 (λ t. omega (arith, t, pos)))
        (exact_then _
          (get_size-done s m f (p - 4) n 1
            (gap_word4 lim v 0 (p - 4) (omega arith) (omega (arith, ge))) e (omega arith))
          (elim (le_or_lt (aligned size) (8 * n)) [
            | inl l ↦
                rw (le→leb (aligned size) (8 * n) l)
                  (Ends-done (refl, inl (l, refl, (m, fl, refl, w))))
            | inr l ↦ rw (lt→leb (aligned size) (8 * n) l) (
                Ends-map
                  (extend_forward-Whole memcpy s lim m rs n k bs fl fuel size v n3 e fits c hd)
                  (λ q g (d, kept, r, u). (r, inr (l, d, kept, u))))
          ]))
    where
      zero_plus : 0 + n ≡ n
      zero_plus = omega arith

      zero_more : place s.mem_start_brk rs + 8 * 0 ≡ place s.mem_start_brk rs
      zero_more = omega arith
