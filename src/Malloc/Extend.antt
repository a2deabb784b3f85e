-- ===== src/Malloc/Extend.antt =====
-- `extend_heap` of malloc-lab/mm.c.
use jungle_data_structures.Prelude.{
  le_or_lt, lt→leb, le→ltb, lt→ltb, ℕ, ◌+◌, ◌-◌, ◌*◌, ◌/◌, ◌%◌, ◌≡◌, ◌≤◌, ◌<◌, ◌⊎◌, inl, inr, refl,
  sym, subst, ap, ◌∙◌, ◌==◌, if◌then◌else◌, none, some, List, [], arith,
}
use jungle_data_structures.Prelude.Run.{done, Ends, Ends-done, Ends-map, exact_then, ◌>>=◌, ◌>>◌}
use jungle_data_structures.Malloc.Store.{Ptr, null, Arena, Act, put, write, mem_sbrk}
use jungle_data_structures.Malloc.Defs.{pack, hdrp, next_blkp, put_both, coalesce, extend_heap}
use jungle_data_structures.Malloc.Words.{put-done, write_here, write_ne}
use jungle_data_structures.Malloc.Links.{first, occurs, Linked, Linked-write}
use jungle_data_structures.Malloc.LinkWords.{arena}
use jungle_data_structures.Malloc.Blocks.{Block, place, place-le, Behind}
use jungle_data_structures.Malloc.Ends.{EndBehind-le, Behind-same}
use jungle_data_structures.Malloc.Gap.{Limits, Gap, listed_side}
use jungle_data_structures.Malloc.Fill.{write_ends, IsTagged, write_ends-IsTagged}
use jungle_data_structures.Malloc.Reads.{pack_free, next_blkp-done, put_both-done}
use jungle_data_structures.Malloc.Around.{gap_word4, gap_word8}
use jungle_data_structures.Malloc.JoinOne.{plain}
use jungle_data_structures.Malloc.Coalesce.{Coalesced, coalesce-Coalesced}

-- The memory with a new block behind the old end, and the end marker behind that.
abbrev grown : (Ptr → ℕ) → (p : Ptr) → (n : ℕ) → Ptr → ℕ
grown m p n = write (write_ends m p n (8 * n)) (p + 8 * n - 4) 1

-- A smaller heap within the same limits.
pub Limits-less : (start top brk : Ptr) → Limits start top → brk ≤ top → Limits start brk
Limits-less start top brk lim l = record {
  even = lim.even;
  positive = lim.positive;
  small = omega (arith, lim.small, l);
  narrow = omega (arith, lim.narrow, l);
}

module _ (start brk : Ptr) (m : Ptr → ℕ) (rs : List Block) (n : ℕ) (fl : List Ptr)
    (lim : Limits start brk) (w : Gap start brk m rs 0 [] fl) (l : 3 ≤ n) where
  listed_below : (q : Ptr) → 1 ≤ occurs q fl → q + 24 ≤ place start rs
  listed_below q i = elim (listed_side lim w q i) [
    | inl (j, x, y) ↦ y
    | inr (j, x, y) ↦ absurd (omega (arith, j))
  ]

  grown-Behind : Behind start (grown m (place start rs) n) rs
  grown-Behind =
      Behind-same m (grown m (place start rs) n) start rs
        (λ a e.
          let h = EndBehind-le m start a rs w.behind e in
          write_ne _ (place start rs + 8 * n - 4) a 1 (λ t. ne_last a t h)
          ∙ write_ne _ (place start rs + 8 * n - 8) a _ (λ t. ne_foot a t h)
          ∙ write_ne m (place start rs - 4) a _ (λ t. ne_head a t h))
        w.behind
    where
      ne_last : (a : Ptr) → a ≡ place start rs + 8 * n - 4 → a + 8 ≤ place start rs → ⊥
      ne_last a t h = omega (arith, t, h, l)

      ne_foot : (a : Ptr) → a ≡ place start rs + 8 * n - 8 → a + 8 ≤ place start rs → ⊥
      ne_foot a t h = omega (arith, t, h, l)

      ne_head : (a : Ptr) → a ≡ place start rs - 4 → a + 8 ≤ place start rs → ⊥
      ne_head a t h = omega (arith, t, h)

  grown-Linked : Linked (grown m (place start rs) n) null fl null
  grown-Linked =
      let p = place start rs in
      Linked-write _ (p + 8 * n - 4) 1 null fl null
        (λ q i. inr (omega (arith, listed_below q i, l)))
        (Linked-write _ (p + 8 * n - 8) _ null fl null
          (λ q i. inr (omega (arith, listed_below q i, l)))
          (Linked-write m (p - 4) _ null fl null (λ q i. inr (omega (arith, listed_below q i)))
            w.linked))

  grown-Gap : Gap start (brk + 8 * n) (grown m (place start rs) n) rs n [] fl
  grown-Gap = record {
    behind = grown-Behind;
    ahead = (omega (arith, w.ahead.0), write_here _ (place start rs + 8 * n - 4) 1);
    linked = grown-Linked;
    listed = w.listed;
  }

  grown-IsTagged : IsTagged (grown m (place start rs) n) (place start rs) n (8 * n)
  grown-IsTagged =
      let p = place start rs in
      let ge = place-le start rs in
      let (e, f) = write_ends-IsTagged m p n (8 * n) (omega (arith, l)) (omega (arith, ge)) in
      (
        write_ne _ (p + 8 * n - 4) (p - 4) 1 (λ t. low p ge t) ∙ e,
        write_ne _ (p + 8 * n - 4) (p + 8 * n - 8) 1 (λ t. high p t) ∙ f,
      )
    where
      low : (p : Ptr) → start + 16 ≤ p → p - 4 ≡ p + 8 * n - 4 → ⊥
      low p ge t = omega (arith, ge, t, l)

      high : (p : Ptr) → p + 8 * n - 8 ≡ p + 8 * n - 4 → ⊥
      high p t = omega (arith, t, l)

size_words :
    (words n : ℕ)
    → (words + 1) / 2 ≡ n
    → 8 * n < 2147483648
    → (if words % 2 == 0
        then words * 4 % 18446744073709551616
        else (words + 1) * 4 % 18446744073709551616)
      ≡ 8 * n
size_words words n e l = ground (arith, e, l)

-- What follows the call of `mem_sbrk`.
abbrev after_sbrk : (bp : Ptr) → (size : ℕ) → Act Ptr
after_sbrk bp size = do
  put_both bp (pack size 0)
  next ← next_blkp bp
  put (hdrp next) (pack 0 1)
  coalesce bp

abbrev with_size : (size : ℕ) → Act Ptr
with_size size = do r ← mem_sbrk size; elim r [ none ↦ done null | some bp ↦ after_sbrk bp size ]

-- The heap after `mem_sbrk`.
abbrev pub longer : Arena → ℕ → Arena
longer s n = record s { mem_brk = s.mem_brk + 8 * n }

module _ (s : Arena) (n : ℕ) (small : 8 * n < 2147483648) where
  pub sbrk_full :
      (m : Ptr → ℕ) (f : Ptr)
      → s.mem_max_addr < s.mem_brk + 8 * n
      → mem_sbrk (8 * n) (arena s m f) ≡ done none (arena s m f)
  unfolding mem_sbrk
  sbrk_full m f h =
      rw (unchanged, lt→leb 2147483648 (8 * n) small, lt→ltb s.mem_max_addr (s.mem_brk + 8 * n) h)
        refl
    where
      unchanged : 8 * n % 4294967296 ≡ 8 * n
      unchanged = omega (arith, small)

  pub sbrk_room :
      (m : Ptr → ℕ) (f : Ptr)
      → s.mem_brk + 8 * n ≤ s.mem_max_addr
      → mem_sbrk (8 * n) (arena s m f) ≡ done (some s.mem_brk) (arena (longer s n) m f)
  unfolding mem_sbrk
  sbrk_room m f h =
      rw (unchanged, lt→leb 2147483648 (8 * n) small, le→ltb s.mem_max_addr (s.mem_brk + 8 * n) h)
        refl
    where
      unchanged : 8 * n % 4294967296 ≡ 8 * n
      unchanged = omega (arith, small)

module _ (s : Arena) (top : Limits s.mem_start_brk s.mem_max_addr) (n : ℕ) (l : 3 ≤ n)
    (small : 8 * n < 2147483648) where
  abbrev pub lim_longer :
      s.mem_brk + 8 * n ≤ s.mem_max_addr → Limits s.mem_start_brk (s.mem_brk + 8 * n)
  lim_longer h = Limits-less s.mem_start_brk s.mem_max_addr (s.mem_brk + 8 * n) top h

  -- There is no room, or the heap is longer by a free block, which is coalesced.
  abbrev pub Extended : (Ptr → ℕ) → List Block → List Ptr → Ptr → Arena → Type 0
  Extended m rs fl q g =
      ((s.mem_max_addr < s.mem_brk + 8 * n) × (q ≡ null) × (g ≡ arena s m (first fl null)))
      ⊎ ((h : s.mem_brk + 8 * n ≤ s.mem_max_addr) × Coalesced (longer s n) (lim_longer h) rs n [] q
            g)

  module _ (m : Ptr → ℕ) (rs : List Block) (fl : List Ptr)
      (w : Gap s.mem_start_brk s.mem_brk m rs 0 [] fl) where
    after_sbrk-Coalesced :
        (h : s.mem_brk + 8 * n ≤ s.mem_max_addr)
        → Ends
            (Coalesced (longer s n) (lim_longer h) rs n [])
            (after_sbrk (place s.mem_start_brk rs) (8 * n) (arena (longer s n) m (first fl null)))
    after_sbrk-Coalesced h =
        let p = place s.mem_start_brk rs in
        let f = first fl null in
        let t = longer s n in
        let ge = place-le s.mem_start_brk rs in
        let lim0 = Limits-less s.mem_start_brk s.mem_max_addr s.mem_brk top (omega (arith, h)) in
        let v = grown-Gap s.mem_start_brk s.mem_brk m rs n fl lim0 w l in
        let tg = grown-IsTagged s.mem_start_brk s.mem_brk m rs n fl lim0 w l in
        let lim = lim_longer h in
        let i = gap_word4 lim v 0 (p - 4) (omega arith) (omega (arith, ge)) in
        let m1 = write_ends m p n (8 * n) in
        exact_then _
          (ap (λ x. put_both p x (arena t m f)) (pack_free n)
            ∙ put_both-done t m f p n 0 (8 * n) i
                (gap_word8 lim v n (p + 8 * n - 8) (omega arith) (omega (arith, ge))) (omega arith)
                (omega arith) (omega (arith, small)))
          (exact_then _
            (next_blkp-done t m1 f p n 0 i
              (plain _ n
                ((write_ends-IsTagged m p n (8 * n) (omega (arith, l)) (omega (arith, ge))).0))
              (omega arith))
            (exact_then _
              (put-done (record t { free_listp = f }) m1 (p + 8 * n - 4) 1
                (gap_word4 lim v n (p + 8 * n - 4) (omega arith) (omega (arith, ge))) (omega arith))
              (coalesce-Coalesced t lim (grown m p n) n fl rs [] v l tg)))

  pub extend_heap-Extended :
      (m : Ptr → ℕ) (rs : List Block) (fl : List Ptr)
      → Gap s.mem_start_brk s.mem_brk m rs 0 [] fl
      → (words : ℕ) → (words + 1) / 2 ≡ n
      → Ends (Extended m rs fl) (extend_heap words (arena s m (first fl null)))
  unfolding extend_heap
  extend_heap-Extended m rs fl w words e =
      let f = first fl null in
      subst (λ size. Ends (Extended m rs fl) (with_size size (arena s m f)))
        (sym (size_words words n e small))
        (elim (le_or_lt (s.mem_brk + 8 * n) s.mem_max_addr) [
          | inl h ↦
              exact_then _
                (sbrk_room s n small m f h
                  ∙ ap (λ b. done (some b) (arena (longer s n) m f)) (sym place_brk))
                (Ends-map (after_sbrk-Coalesced m rs fl w h) (λ q g c. inr (h, c)))
          | inr h ↦ exact_then _ (sbrk_full s n small m f h) (Ends-done (inl (h, refl, refl)))
        ])
    where
      place_brk : place s.mem_start_brk rs ≡ s.mem_brk
      place_brk = omega (arith, w.ahead.0)
