-- ===== src/Palloc/Give.antt =====
-- `palloc_get_multiple` of pintos threads/palloc.c, and what freeing the pages gives.
use jungle_data_structures.Prelude.{
  ℕ, ◌+◌, ◌*◌, ◌%◌, ◌^◌, ◌≡◌, ◌<◌, ◌⊎◌, inl, inr, refl, sym, subst, ap, ◌∙◌, Bool, true, false,
  ◌==◌, eq→==, ne→==, if◌then◌else◌, arith,
}
use jungle_data_structures.Prelude.Run.{Ends, Ends-done, Ends-map, exact_then}
use jungle_data_structures.Bitmap.Defs.{Bitmap, bitmap_error, bitmap_scan_and_flip}
use jungle_data_structures.Bitmap.View.{view, IsBitmap}
use jungle_data_structures.Bitmap.Range.{in_range}
use jungle_data_structures.Bitmap.Scan.{FirstGroup, NoGroup, bitmap_scan_and_flip-Flipped}
use jungle_data_structures.Str.Bytes.{Mem, Owns}
use jungle_data_structures.Str.Defs.{memset}
use jungle_data_structures.Palloc.Defs.{
  Kernel, pool, set_map, set_memory, hand_out, get_from, has_flag, palloc_get_multiple,
}
use jungle_data_structures.Palloc.Fill.{SameOwned, memset-done, Owns-part}
use jungle_data_structures.Palloc.Pages.{IsPool, IsKernel, pool-IsPool, on_map-done, on_memory-done}

hand_out-pages :
    (zero asserted : Bool) (pages cnt : ℕ) (h : Kernel)
    → 0 < pages
    → Owns h.memory pages (4096 * cnt)
    → Ends
        (λ p g. (p ≡ pages) × (k : Mem) × (g ≡ set_memory k h) × SameOwned h.memory k)
        (hand_out zero asserted pages cnt h)
unfolding hand_out
hand_out-pages true asserted pages cnt h pos o =
    let (k, r, same) = memset-done h.memory pages 0 (4096 * cnt) pos o in
    rw (ne→== pages 0 (λ e. omega (arith, e, pos))) (
      exact_then _ (on_memory-done (memset pages 0 (4096 * cnt)) h pages k r)
        (Ends-done (refl, k, refl, same)))
hand_out-pages false asserted pages cnt h pos o =
    rw (ne→== pages 0 (λ e. omega (arith, e, pos))) (Ends-done (refl, h.memory, refl, λ a n o. o))

base-set_map :
    (u : Bool) (b : Bitmap) (h : Kernel) → (pool u (set_map u b h)).base ≡ (pool u h).base
base-set_map true b h = refl
base-set_map false b h = refl

memory-set_map : (u : Bool) (b : Bitmap) (h : Kernel) → (set_map u b h).memory ≡ h.memory
memory-set_map true b h = refl
memory-set_map false b h = refl

set_map_same : (u : Bool) (h : Kernel) → set_map u (pool u h).used_map h ≡ h
set_map_same true h = refl
set_map_same false h = refl

module _ (u zero : Bool) (cnt : ℕ) (g : Kernel) (w : IsKernel g) where
  -- The first free group of pages is handed out and marked as used, or there is none.
  abbrev pub Found : ℕ → Kernel → Type 0
  Found p g1 =
      (r : ℕ) × (b : Bitmap) × (k : Mem) × (p ≡ (pool u g).base + 4096 * r)
      × FirstGroup (pool u g).used_map 0 cnt false r
      × IsBitmap b
      × (b.bit_cnt ≡ (pool u g).used_map.bit_cnt)
      × ((j : ℕ) → view b j ≡ (if in_range r cnt j then true else view (pool u g).used_map j))
      × (g1 ≡ set_memory k (set_map u b g))
      × SameOwned g.memory k

  abbrev pub Got : ℕ → Kernel → Type 0
  Got p g1 = Found p g1 ⊎ (NoGroup (pool u g).used_map 0 cnt false × (p ≡ 0) × (g1 ≡ g))

  found-Got :
      (r : ℕ) (b : Bitmap)
      → FirstGroup (pool u g).used_map 0 cnt false r
      → IsBitmap b
      → b.bit_cnt ≡ (pool u g).used_map.bit_cnt
      → ((j : ℕ) → view b j ≡ (if in_range r cnt j then true else view (pool u g).used_map j))
      → Ends Got (
          hand_out zero false
            (if r == bitmap_error then 0 else ((pool u (set_map u b g)).base + 4096 * r) % 2 ^ 64)
            cnt
            (set_map u b g))
  found-Got r b group v e bits =
      let wp = pool-IsPool u g w in
      let base = (pool u g).base in
      let h = set_map u b g in
      rw
        (
          ne→== r bitmap_error (λ t. omega (arith, t, group.1, wp.map.small)),
          base-set_map u b g,
          unwrapped group wp,
        )
        (Ends-map
          (hand_out-pages zero false (base + 4096 * r) cnt h (omega (arith, wp.positive)) (
            subst (λ m. Owns m (base + 4096 * r) (4096 * cnt)) (sym (memory-set_map u b g))
              (Owns-part g.memory base (4096 * (pool u g).used_map.bit_cnt) (base + 4096 * r)
                (4096 * cnt) wp.owned (omega arith) (omega (arith, group.1)))))
          (λ p g1 (t, k, z, same). inl (
            r,
            b,
            k,
            t,
            group,
            v,
            e,
            bits,
            z,
            subst (λ m. SameOwned m k) (memory-set_map u b g) same,
          )))
    where
      unwrapped :
          FirstGroup (pool u g).used_map 0 cnt false r
          → IsPool (pool u g) g.memory
          → ((pool u g).base + 4096 * r) % 2 ^ 64 ≡ (pool u g).base + 4096 * r
      unwrapped group wp = omega (arith, group.1, wp.narrow, wp.map.small)

  none-Got :
      (r : ℕ) (b : Bitmap)
      → r ≡ bitmap_error
      → NoGroup (pool u g).used_map 0 cnt false
      → b ≡ (pool u g).used_map
      → Ends Got (
          hand_out zero false
            (if r == bitmap_error then 0 else ((pool u (set_map u b g)).base + 4096 * r) % 2 ^ 64)
            cnt
            (set_map u b g))
  unfolding hand_out
  none-Got r b e none t =
      rw (eq→== r bitmap_error e)
        (Ends-done (inr (none, refl, ap (λ b. set_map u b g) t ∙ set_map_same u g)))

  get_from-Got : Ends Got (get_from u zero false cnt g)
  unfolding get_from
  get_from-Got =
      let b0 = (pool u g).used_map in
      let (r, b, run, found) =
        bitmap_scan_and_flip-Flipped b0 cnt false (pool-IsPool u g w).map 0 (omega arith) in
      exact_then _ (on_map-done u (bitmap_scan_and_flip 0 cnt false) g r b run) (elim found [
        | inl (group, v, e, bits) ↦ found-Got r b group v e bits
        | inr (e, none, same) ↦ none-Got r b e none same
      ])

module _ (cnt : ℕ) (g : Kernel) (w : IsKernel g) where
  -- In a kernel whose pools are set up and do not overlap, `palloc_get_multiple` without `PAL_ASSERT`
  -- hands out the first group of free pages of its pool and marks exactly those as used, or returns
  -- `NULL` and changes nothing if there is no such group.
  pub palloc_get_multiple-Got :
      (flags : ℕ)
      → has_flag flags 1 ≡ false
      → Ends (Got (has_flag flags 4) (has_flag flags 2) cnt g w) (palloc_get_multiple flags cnt g)
  unfolding palloc_get_multiple
  palloc_get_multiple-Got flags e =
      subst
        (λ t.
          Ends (Got (has_flag flags 4) (has_flag flags 2) cnt g w)
            (get_from (has_flag flags 4) (has_flag flags 2) t cnt g))
        (sym e) (get_from-Got (has_flag flags 4) (has_flag flags 2) cnt g w)
