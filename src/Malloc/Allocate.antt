-- ===== src/Malloc/Allocate.antt =====
-- `mm_malloc` of malloc-lab/mm.c.
use jungle_data_structures.Prelude.{
  ℕ, ◌+◌, ◌-◌, ◌*◌, ◌/◌, ◌≡◌, ◌≤◌, ◌<◌, ◌⊎◌, inl, inr, refl, sym, subst, ◌∙◌, not, ◌==◌, ne→==,
  if◌then◌else◌, List, [], ◌∷◌, arith,
}
use jungle_data_structures.Prelude.Run.{done, Ends, Ends-done, Ends-map, Ends-continue, ◌>>=◌, ◌>>◌}
use jungle_data_structures.Malloc.Store.{Ptr, null, Arena, Act}
use jungle_data_structures.Malloc.Defs.{extend_heap}
use jungle_data_structures.Malloc.Alloc.{adjusted, extension, place, mm_malloc}
use jungle_data_structures.Malloc.Words.{InHeap}
use jungle_data_structures.Malloc.Links.{first, occurs}
use jungle_data_structures.Malloc.LinkWords.{arena}
use jungle_data_structures.Malloc.Blocks.{Block, used, free, place-le}
use jungle_data_structures.Malloc.Blocks
use jungle_data_structures.Malloc.Gap.{Limits, Gap, list_Space, listed_in}
use jungle_data_structures.Malloc.Around.{free_units, past_free}
use jungle_data_structures.Malloc.Focus.{heap_blocks, find_listed, unwind}
use jungle_data_structures.Malloc.Best.{size_at, count, best_fit-IsBest}
use jungle_data_structures.Malloc.Place.{Cut, place-Whole}
use jungle_data_structures.Malloc.Extend.{Limits-less, longer, lim_longer, extend_heap-Extended}
use jungle_data_structures.Malloc.Sizes.{
  wanted, extra, adjusted-wanted, wanted-ge, extra-ge, extra-large, extra-small,
}

-- What follows the search.
abbrev serve : (asize : ℕ) → (bp : Ptr) → Act Ptr
serve asize bp = if not (bp == null) then (do place bp asize; done bp) else (do
  bp ← extend_heap (extension asize / 2)
  if bp == null then done null else (do place bp asize; done bp))

module _ (s : Arena) (lim : Limits s.mem_start_brk s.mem_brk) (m : Ptr → ℕ) (rs : List Block)
    (k a : ℕ) (bs : List Block) (fl : List Ptr) where
  -- A free block is placed, and its address is the result.
  placed-Whole :
      (q asize : ℕ)
      → q ≡ Blocks.place s.mem_start_brk rs
      → asize ≡ 8 * a
      → 3 ≤ a
      → a ≤ k
      → Gap s.mem_start_brk s.mem_brk m rs 0 (free k ∷ bs) fl
      → Ends
          (λ p g. (p ≡ Blocks.place s.mem_start_brk rs) × Cut s lim rs k a bs g)
          ((place q asize >> done q) (arena s m (first fl null)))
  placed-Whole q asize e z l h w =
      subst
        (λ q.
          Ends (λ p g. (p ≡ Blocks.place s.mem_start_brk rs) × Cut s lim rs k a bs g)
            ((place q asize >> done q) (arena s m (first fl null))))
        (sym e)
        (subst
          (λ x.
            Ends (λ p g. (p ≡ Blocks.place s.mem_start_brk rs) × Cut s lim rs k a bs g)
              ((place (Blocks.place s.mem_start_brk rs) x >> done (Blocks.place s.mem_start_brk rs))
                (arena s m (first fl null))))
          (sym z)
          (Ends-continue (place-Whole s lim m rs bs fl k a l h w) (λ _ g v. Ends-done (refl, v))))

module _ (s : Arena) (top : Limits s.mem_start_brk s.mem_max_addr)
    (below : s.mem_brk ≤ s.mem_max_addr) (size : ℕ) (large : 8 < size) (small : size < 536870912)
    (m : Ptr → ℕ) (bs : List Block) (fl : List Ptr) where
  abbrev limits : Limits s.mem_start_brk s.mem_brk
  limits = Limits-less s.mem_start_brk s.mem_max_addr s.mem_brk top below

  -- The smallest free block that is large enough is taken.
  abbrev pub Fits : Ptr → Arena → Type 0
  Fits q g =
      (rs : List Block) × (k : ℕ) × (cs : List Block) × (heap_blocks rs (free k ∷ cs) ≡ bs)
      × (q ≡ Blocks.place s.mem_start_brk rs)
      × (wanted size ≤ k)
      × ((r : Ptr) → 1 ≤ occurs r fl → adjusted size ≤ size_at m r → 8 * k ≤ size_at m r)
      × Cut s limits rs k (wanted size) cs g

  -- No block is large enough, and the heap cannot be extended.
  abbrev pub Full : Ptr → Arena → Type 0
  Full q g =
      (s.mem_max_addr < s.mem_brk + 8 * extra size) × (q ≡ null) × (g ≡ arena s m (first fl null))

  -- No block is large enough, and the heap is extended.
  abbrev pub Extends : Ptr → Arena → Type 0
  Extends q g =
      (h : s.mem_brk + 8 * extra size ≤ s.mem_max_addr) × (rs : List Block) × (heap_blocks rs []
        ≡ bs)
      × (q ≡ Blocks.place s.mem_start_brk (past_free rs))
      × Cut (longer s (extra size))
          (lim_longer s top (extra size) (extra-large size large small)
            (extra-small size large small) h)
          (past_free rs) (free_units rs + (extra size + 0)) (wanted size) [] g

  abbrev pub Allocated : Ptr → Arena → Type 0
  Allocated q g =
      Fits q g
      ⊎ (((r : Ptr) → 1 ≤ occurs r fl → size_at m r < adjusted size) × (Full q g ⊎ Extends q g))

  three : 3 ≤ wanted size
  three = omega (arith, wanted-ge size large small, large)

  module _ (w : Gap s.mem_start_brk s.mem_brk m [] 0 bs fl) where
    serve_fit :
        (q : Ptr)
        → 1 ≤ occurs q fl
        → adjusted size ≤ size_at m q
        → ((r : Ptr) → 1 ≤ occurs r fl → adjusted size ≤ size_at m r → size_at m q ≤ size_at m r)
        → Ends Allocated (serve (adjusted size) q (arena s m (first fl null)))
    serve_fit q i j h =
        let (rs, k, cs, e, t, v) = find_listed q bs w i in
        let (_, hd, _, _, _) = v.ahead in
        let z : size_at m q ≡ 8 * k = size_of q k (at_q q rs k e hd) in
        let (x, _, _) = listed_in limits w q i in
        rw (ne→== q null (λ e. omega (arith, e, x))) (
          Ends-map
            (placed-Whole s limits m rs k (wanted size) cs fl q (adjusted size) e adj three
              (omega (arith, z, j, adj)) v)
            (λ p g (pe, u).
              inl (
                rs,
                k,
                cs,
                t,
                pe,
                omega (arith, z, j, adj),
                λ r o l. omega (arith, h r o l, z),
                u,
              )))
      where
        adj : adjusted size ≡ 8 * wanted size
        adj = adjusted-wanted size large small

        size_of : (q k : ℕ) → m (q - 4) ≡ 8 * k → size_at m q ≡ 8 * k
        size_of q k e = omega (arith, e)

        at_q :
            (q : Ptr) (rs : List Block) (k : ℕ)
            → q ≡ Blocks.place s.mem_start_brk rs
            → m (Blocks.place s.mem_start_brk rs + 8 * 0 - 4) ≡ 8 * k
            → m (q - 4) ≡ 8 * k
        at_q q rs k t e =
            subst (λ a. m (a - 4) ≡ 8 * k) (zero_less (Blocks.place s.mem_start_brk rs) ∙ sym t) e
          where
            zero_less : (p : ℕ) → p + 8 * 0 ≡ p
            zero_less p = omega arith

    serve_extended :
        ((r : Ptr) → 1 ≤ occurs r fl → size_at m r < adjusted size)
        → Ends Allocated (serve (adjusted size) null (arena s m (first fl null)))
    serve_extended none_fits =
        let (rs, e, v) = unwind [] bs w in
        let n3 = extra-large size large small in
        let n_small = extra-small size large small in
        Ends-continue
          (extend_heap-Extended s top (extra size) n3 n_small m rs fl v
            (extension (adjusted size) / 2) refl)
          (λ q g x. elim x [
            | inl (h, z, r) ↦ rw (z, r) (Ends-done (inr (none_fits, inl (h, refl, refl))))
            | inr (h, (z, m1, fl1, r, u)) ↦
                rw
                  (
                    r,
                    ne→== q null
                        (λ t. omega (arith, t, z, place-le s.mem_start_brk (past_free rs))),
                  )
                  (Ends-map
                    (placed-Whole (longer s (extra size))
                      (lim_longer s top (extra size) n3 n_small h) m1 (past_free rs)
                      (free_units rs + (extra size + 0)) (wanted size) [] (q ∷ fl1) q
                      (adjusted size) z (adjusted-wanted size large small) three
                      (omega (arith, extra-ge size large small)) u)
                    (λ p g (pe, y). inr (none_fits, inr (h, rs, e, pe, y))))
          ])

    -- In a heap of blocks all whose free ones are in the free list, `mm_malloc` of more than 8 and less
    -- than 2 ^ 29 bytes takes the smallest free block that is large enough, and cuts it if 24 bytes or
    -- more are left. When there is none, the heap is extended by a free block, which is joined with a
    -- free one before it, taken and cut; or, with no room for that, the result is `NULL` and nothing
    -- changes. The other blocks, and the payloads of those in use, are as before. One round more than
    -- there are free blocks is enough.
    pub mm_malloc-Allocated :
        (fuel : ℕ)
        → count fl < fuel
        → Ends Allocated (mm_malloc fuel size (arena s m (first fl null)))
    unfolding mm_malloc
    mm_malloc-Allocated fuel l = rw (ne→== size 0 (λ e. omega (arith, e, large))) (
        Ends-continue
          (best_fit-IsBest s m (first fl null) (adjusted size) fl (list_Space limits w) header fuel
            l refl w.linked)
          (λ b g (best, r).
            subst (λ g. Ends Allocated (serve (adjusted size) b g)) (sym r)
              (elim best [
                | inl (z, h) ↦
                    subst
                      (λ b. Ends Allocated (serve (adjusted size) b (arena s m (first fl null))))
                      (sym z) (serve_extended (λ r o. h r o refl))
                | inr (i, j, h) ↦ serve_fit b i j (λ r o. h r o refl)
              ])))
      where
        header : (q : Ptr) → 1 ≤ occurs q fl → InHeap s.mem_start_brk s.mem_brk (q - 4)
        header q i =
            let (x, y, z) = listed_in limits w q i in
            record {
              low = omega (arith, x);
              high = omega (arith, x, y);
              even = omega (arith, x, z);
            }
