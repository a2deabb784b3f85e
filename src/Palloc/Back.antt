-- ===== src/Palloc/Back.antt =====
-- Freeing the pages that `palloc_get_multiple` of pintos threads/palloc.c handed out.
use jungle_data_structures.Prelude.{
  le→leb, lt→ltb, ℕ, ◌+◌, ◌*◌, ◌≡◌, ◌≤◌, ◌<◌, ◌⊎◌, inl, inr, refl, sym, subst, ap, ◌∙◌, Bool, true,
  false, if◌then◌else◌, arith, Bool-cases,
}
use jungle_data_structures.Prelude.Run.{Ends, Ends-done, Ends-map, Ends-continue, ◌>>=◌}
use jungle_data_structures.Bitmap.Defs.{Bitmap}
use jungle_data_structures.Bitmap.View.{view, IsBitmap}
use jungle_data_structures.Bitmap.Range.{Clear, in_range}
use jungle_data_structures.Bitmap.Scan.{FirstGroup}
use jungle_data_structures.Str.Bytes.{Mem, Owns}
use jungle_data_structures.Palloc.Defs.{
  Pool, Kernel, pool, set_map, set_memory, has_flag, palloc_get_multiple, palloc_free_multiple,
}
use jungle_data_structures.Palloc.Fill.{SameOwned}
use jungle_data_structures.Palloc.Pages.{IsPool, IsKernel, pool-IsPool, find_pool, free_in-Freed}
use jungle_data_structures.Palloc.Give.{Got, palloc_get_multiple-Got}

IsPool-map :
    (p : Pool) (m k : Mem) (b : Bitmap)
    → IsPool p m
    → IsBitmap b
    → b.bit_cnt ≡ p.used_map.bit_cnt
    → SameOwned m k
    → IsPool (record p { used_map = b }) k
IsPool-map p m k b w v e same = record {
  map = v;
  aligned = w.aligned;
  positive = w.positive;
  narrow = omega (arith, w.narrow, e);
  owned = same p.base (4096 * b.bit_cnt) (subst (λ c. Owns m p.base (4096 * c)) (sym e) w.owned);
}

IsPool-memory : (p : Pool) (m k : Mem) → IsPool p m → SameOwned m k → IsPool p k
IsPool-memory p m k w same = record {
  map = w.map;
  aligned = w.aligned;
  positive = w.positive;
  narrow = w.narrow;
  owned = same p.base (4096 * p.used_map.bit_cnt) w.owned;
}

-- The state after pages were handed out.
abbrev after : Bool → Bitmap → Mem → Kernel → Kernel
after u b k g = set_memory k (set_map u b g)

IsKernel-after :
    (u : Bool) (b : Bitmap) (k : Mem) (g : Kernel)
    → IsKernel g
    → IsBitmap b
    → b.bit_cnt ≡ (pool u g).used_map.bit_cnt
    → SameOwned g.memory k
    → IsKernel (after u b k g)
IsKernel-after true b k g w v e same = record {
  kernel = IsPool-memory g.kernel_pool g.memory k w.kernel same;
  user = IsPool-map g.user_pool g.memory k b w.user v e same;
  apart = still w.apart;
}
  where
    still :
        (g.kernel_pool.base + 4096 * g.kernel_pool.used_map.bit_cnt ≤ g.user_pool.base)
          ⊎ (g.user_pool.base + 4096 * g.user_pool.used_map.bit_cnt ≤ g.kernel_pool.base)
        → (g.kernel_pool.base + 4096 * g.kernel_pool.used_map.bit_cnt ≤ g.user_pool.base)
          ⊎ (g.user_pool.base + 4096 * b.bit_cnt ≤ g.kernel_pool.base)
    still (inl l) = inl l
    still (inr l) = inr (omega (arith, l, e))
IsKernel-after false b k g w v e same = record {
  kernel = IsPool-map g.kernel_pool g.memory k b w.kernel v e same;
  user = IsPool-memory g.user_pool g.memory k w.user same;
  apart = still w.apart;
}
  where
    still :
        (g.kernel_pool.base + 4096 * g.kernel_pool.used_map.bit_cnt ≤ g.user_pool.base)
          ⊎ (g.user_pool.base + 4096 * g.user_pool.used_map.bit_cnt ≤ g.kernel_pool.base)
        → (g.kernel_pool.base + 4096 * b.bit_cnt ≤ g.user_pool.base)
          ⊎ (g.user_pool.base + 4096 * g.user_pool.used_map.bit_cnt ≤ g.kernel_pool.base)
    still (inl l) = inl (omega (arith, l, e))
    still (inr l) = inr l

map-after : (u : Bool) (b : Bitmap) (k : Mem) (g : Kernel) → (pool u (after u b k g)).used_map ≡ b
map-after true b k g = refl
map-after false b k g = refl

base-after :
    (u : Bool) (b : Bitmap) (k : Mem) (g : Kernel) → (pool u (after u b k g)).base ≡ (pool u g).base
base-after true b k g = refl
base-after false b k g = refl

-- The map of every pool says what it said before.
abbrev pub Restored : Kernel → Unit {0} → Kernel → Type 0
Restored g _ g1 = (v : Bool) (j : ℕ) → view (pool v g1).used_map j ≡ view (pool v g).used_map j

restored :
    (u : Bool) (b b2 : Bitmap) (k k2 : Mem) (g : Kernel)
    → ((j : ℕ) → view b2 j ≡ view (pool u g).used_map j)
    → Restored g tt (set_map u b2 (set_memory k2 (after u b k g)))
restored true b b2 k k2 g f true j = f j
restored true b b2 k k2 g f false j = refl
restored false b b2 k k2 g f true j = refl
restored false b b2 k k2 g f false j = f j

in_range-true : (r cnt j : ℕ) → r ≤ j → j < r + cnt → in_range r cnt j ≡ true
in_range-true r cnt j l h = rw (le→leb r j l, lt→ltb j (r + cnt) h) refl

in_range-bounds : (r cnt j : ℕ) → in_range r cnt j ≡ true → (r ≤ j) × (j < r + cnt)
in_range-bounds r cnt j e = (ground (arith, e), ground (arith, e))

module _ (cnt : ℕ) (pos : 0 < cnt) (g : Kernel) (w : IsKernel g) where
  module _ (u : Bool) (r : ℕ) (b : Bitmap) (k : Mem)
      (group : FirstGroup (pool u g).used_map 0 cnt false r)
      (bits : (j : ℕ)
        → view b j ≡ (if in_range r cnt j then true else view (pool u g).used_map j)) where
    marked : Clear b true r cnt
    marked j l h =
        bits j
        ∙ ap (λ t. if t then true else view (pool u g).used_map j) (in_range-true r cnt j l h)

    unmarked :
        (b2 : Bitmap)
        → ((j : ℕ) → view b2 j ≡ (if in_range r cnt j then false else view b j))
        → (j : ℕ) → view b2 j ≡ view (pool u g).used_map j
    unmarked b2 bits2 j = elim (Bool-cases (in_range r cnt j)) [
      | inl t ↦
          let (l, h) = in_range-bounds r cnt j t in
          bits2 j ∙ ap (λ t. if t then false else view b j) t ∙ sym (group.2 j l h)
      | inr t ↦
          bits2 j
          ∙ ap (λ t. if t then false else view b j) t
          ∙ bits j
          ∙ ap (λ t. if t then true else view (pool u g).used_map j) t
    ]

  free-Restored :
      (u zero : Bool) (p : ℕ) (g1 : Kernel)
      → Got u zero cnt g w p g1
      → Ends (Restored g) (palloc_free_multiple p cnt g1)
  unfolding palloc_free_multiple
  free-Restored u zero p g1 (inr (none, z, same)) = rw (z, same) (Ends-done (λ v j. refl))
  free-Restored u zero p g1 (inl (r, b, k, e, group, v, bc, bits, z, same)) =
      let h = after u b k g in
      let wh = IsKernel-after u b k g w v bc same in
      let at : p ≡ (pool u h).base + 4096 * r = omega (arith, e, base-after u b k g) in
      let le : r + cnt ≤ (pool u h).used_map.bit_cnt =
        omega (arith, group.1, bc, ap (λ m. m.bit_cnt) (map-after u b k g)) in
      subst (λ g1. Ends (Restored g) (palloc_free_multiple p cnt g1)) (sym z)
        (subst (Ends (Restored g)) (sym (find_pool h wh r cnt pos u p at le)) (
          Ends-map
            (free_in-Freed u h r cnt (pool-IsPool u h wh) le
              (subst (λ m. Clear m true r cnt) (sym (map-after u b k g))
                (marked u r b k group bits))
              p at)
            (λ _ g2 (b2, k2, z2, bits2). subst (Restored g tt) (sym z2) (
              restored u b b2 k k2 g (
                unmarked u r b k group bits b2 (
                  subst (λ m. (j : ℕ) → view b2 j ≡ (if in_range r cnt j then false else view m j))
                    (map-after u b k g) bits2))))))

  -- In a kernel whose pools are set up and do not overlap, pages that `palloc_get_multiple` hands out
  -- without `PAL_ASSERT` and that are freed at once leave every page free or used as it was.
  pub palloc_get_multiple-Restored :
      (flags : ℕ)
      → has_flag flags 1 ≡ false
      → Ends (Restored g) ((palloc_get_multiple flags cnt >>= λ p. palloc_free_multiple p cnt) g)
  palloc_get_multiple-Restored flags e =
      Ends-continue (palloc_get_multiple-Got cnt g w flags e)
        (λ p g1 got. free-Restored (has_flag flags 4) (has_flag flags 2) p g1 got)
