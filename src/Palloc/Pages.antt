-- ===== src/Palloc/Pages.antt =====
-- Pages that are handed out by pintos threads/palloc.c, and given back.
use jungle_data_structures.Prelude.{
  le→leb, lt→leb, lt→ltb, le→ltb, ℕ, ◌+◌, ◌-◌, ◌*◌, ◌/◌, ◌%◌, ◌^◌, ◌≡◌, ◌≤◌, ◌<◌, ◌⊎◌, inl, inr,
  refl, sym, subst, ap, ◌∙◌, Bool, true, false, ◌&&◌, eq→==, ne→==, leb, ltb, if◌then◌else◌, arith,
}
use jungle_data_structures.Prelude.Run.{
  Outcome, done, assert, Ends, Ends-done, exact_then, ◌>>=◌, ◌>>◌,
}
use jungle_data_structures.Bitmap.Defs.{Bitmap, bitmap_all, bitmap_set_multiple}
use jungle_data_structures.Bitmap.View.{view, IsBitmap}
use jungle_data_structures.Bitmap.Range.{
  Clear, in_range, bitmap_contains-lem, bitmap_set_multiple-WritesRange,
}
use jungle_data_structures.Str.Bytes.{Mem, Owns}
use jungle_data_structures.Str.Defs.{memset}
use jungle_data_structures.Palloc.Defs.{
  Pool, Kernel, Act, pool, set_map, set_memory, into, on_map, on_memory, free_in,
  palloc_free_multiple,
}
use jungle_data_structures.Palloc.Fill.{memset-done, Owns-part}

-- A pool that is set up, in memory that the kernel owns.
pub record IsPool (p : Pool) (m : Mem) : Type 0 where
  pub map : IsBitmap p.used_map
  pub aligned : p.base % 4096 ≡ 0
  pub positive : 0 < p.base
  pub narrow : p.base + 4096 * p.used_map.bit_cnt < 2 ^ 64
  pub owned : Owns m p.base (4096 * p.used_map.bit_cnt)

pub pool-set_memory : (u : Bool) (k : Mem) (h : Kernel) → pool u (set_memory k h) ≡ pool u h
pool-set_memory true k h = refl
pool-set_memory false k h = refl

pub on_map-done :
    {A : Type 0} (u : Bool) (act : Bitmap → Outcome Bitmap A) (h : Kernel) (a : A) (b : Bitmap)
    → act (pool u h).used_map ≡ done a b
    → on_map u act h ≡ done a (set_map u b h)
on_map-done u act h a b e = ap (into (λ b. set_map u b h)) e

pub on_memory-done :
    {A : Type 0} (act : Mem → Outcome Mem A) (h : Kernel) (a : A) (k : Mem)
    → act h.memory ≡ done a k
    → on_memory act h ≡ done a (set_memory k h)
on_memory-done act h a k e = ap (into (λ m. set_memory m h)) e

-- All bits of a range have the value.
bitmap_all-Clear :
    (b : Bitmap) (r cnt : ℕ)
    → IsBitmap b
    → r + cnt ≤ b.bit_cnt
    → Clear b true r cnt
    → bitmap_all r cnt b ≡ done true b
unfolding bitmap_all
bitmap_all-Clear b r cnt v le c = elim (bitmap_contains-lem b r cnt v false le) [
  | inl (e, (k, x, y, z)) ↦ absurd (differ (view b k) (c k x y) z)
  | inr (e, _) ↦ rw e refl
]
  where
    differ : (t : Bool) → t ≡ true → t ≡ false → ⊥
    differ t e f = ground arith

pub pool-set_map : (u : Bool) (b : Bitmap) (h : Kernel) → (pool u (set_map u b h)).used_map ≡ b
pool-set_map true b h = refl
pool-set_map false b h = refl

pub set_map_twice :
    (u : Bool) (b c : Bitmap) (h : Kernel) → set_map u b (set_map u c h) ≡ set_map u b h
set_map_twice true b c h = refl
set_map_twice false b c h = refl

-- `free_in` once the number of the first page is known.
abbrev freeing : (user : Bool) → (page_idx pages page_cnt : ℕ) → Act (Unit {0})
freeing user page_idx pages page_cnt = do
  on_memory (memset pages 204 (4096 * page_cnt))
  all ← on_map user (bitmap_all page_idx page_cnt)
  assert all
  on_map user (bitmap_set_multiple page_idx page_cnt false)

module _ (u : Bool) (h : Kernel) (r cnt : ℕ) (w : IsPool (pool u h) h.memory)
    (le : r + cnt ≤ (pool u h).used_map.bit_cnt) (c : Clear (pool u h).used_map true r cnt) where
  -- The pages of the range are free, and the state is otherwise the same.
  abbrev pub Freed : Unit {0} → Kernel → Type 0
  Freed _ g =
      (b : Bitmap) × (k : Mem) × (g ≡ set_map u b (set_memory k h))
      × ((j : ℕ) → view b j ≡ (if in_range r cnt j then false else view (pool u h).used_map j))

  pub free_in-Freed :
      (pages : ℕ) → pages ≡ (pool u h).base + 4096 * r → Ends Freed (free_in u pages cnt h)
  unfolding free_in
  free_in-Freed pages e =
      let b = (pool u h).used_map in
      let (k, mr, _) = memset-done h.memory pages 204 (4096 * cnt) (omega (arith, e, w.positive)) (
        Owns-part h.memory (pool u h).base (4096 * b.bit_cnt) pages (4096 * cnt) w.owned
          (omega (arith, e)) (omega (arith, e, le))) in
      let h1 = set_memory k h in
      let (b1, run, _, _, bits) = bitmap_set_multiple-WritesRange b r cnt w.map false le in
      let same : (pool u h1).used_map ≡ b = ap (λ p. p.used_map) (pool-set_memory u k h) in
      subst (λ i. Ends Freed (freeing u i pages cnt h)) (sym (index pages e))
        (exact_then _ (on_memory-done (memset pages 204 (4096 * cnt)) h pages k mr) (
          exact_then _
            (on_map-done u (bitmap_all r cnt) h1 true b
              (ap (bitmap_all r cnt) same ∙ bitmap_all-Clear b r cnt w.map le c))
            (subst (Ends Freed)
              (sym (
                on_map-done u (bitmap_set_multiple r cnt false) (set_map u b h1) tt b1
                  (ap (bitmap_set_multiple r cnt false) (pool-set_map u b h1) ∙ run)))
              (Ends-done (b1, k, set_map_twice u b1 b h1, bits)))))
    where
      index :
          (pages : ℕ)
          → pages ≡ (pool u h).base + 4096 * r
          → pages / 4096 - (pool u h).base / 4096 ≡ r
      index pages e = omega (arith, e, w.aligned)

-- The pools do not overlap.
pub record IsKernel (g : Kernel) : Type 0 where
  pub kernel : IsPool g.kernel_pool g.memory
  pub user : IsPool g.user_pool g.memory
  pub apart :
      (g.kernel_pool.base + 4096 * g.kernel_pool.used_map.bit_cnt ≤ g.user_pool.base)
      ⊎ (g.user_pool.base + 4096 * g.user_pool.used_map.bit_cnt ≤ g.kernel_pool.base)

abbrev pub pool-IsPool : (u : Bool) (g : Kernel) → IsKernel g → IsPool (pool u g) g.memory
pool-IsPool true g w = w.user
pool-IsPool false g w = w.kernel

page_in :
    (base cnt page r k : ℕ)
    → base % 4096 ≡ 0
    → page ≡ base + 4096 * r
    → r + k ≤ cnt
    → 0 < k
    → leb (base / 4096) (page / 4096) && ltb (page / 4096) (base / 4096 + cnt) ≡ true
page_in base cnt page r k z e l p =
    rw
      (
        le→leb (base / 4096) (page / 4096) (omega (arith, e)),
        lt→ltb (page / 4096) (base / 4096 + cnt) (omega (arith, e, z, l, p)),
      )
      refl

page_out :
    (base cnt page : ℕ)
    → base % 4096 ≡ 0
    → page % 4096 ≡ 0
    → (page < base) ⊎ (base + 4096 * cnt ≤ page)
    → leb (base / 4096) (page / 4096) && ltb (page / 4096) (base / 4096 + cnt) ≡ false
page_out base cnt page z y (inl l) =
    rw (lt→leb (base / 4096) (page / 4096) (omega (arith, l, z, y))) refl
page_out base cnt page z y (inr l) =
    rw
      (
        le→leb (base / 4096) (page / 4096) (omega (arith, l)),
        le→ltb (page / 4096) (base / 4096 + cnt) (omega (arith, l, z)),
      )
      refl

module _ (h : Kernel) (w : IsKernel h) (r cnt : ℕ) (pos : 0 < cnt) where
  -- `palloc_free_multiple` finds the pool of the pages.
  pub find_pool :
      (u : Bool) (pages : ℕ)
      → pages ≡ (pool u h).base + 4096 * r
      → r + cnt ≤ (pool u h).used_map.bit_cnt
      → palloc_free_multiple pages cnt h ≡ free_in u pages cnt h
  unfolding palloc_free_multiple
  find_pool false pages e le =
      rw
        (
          eq→== (pages % 4096) 0 (omega (arith, e, w.kernel.aligned)),
          ne→== pages 0 (λ t. omega (arith, t, e, w.kernel.positive)),
          ne→== cnt 0 (λ t. omega (arith, t, pos)),
          page_in h.kernel_pool.base h.kernel_pool.used_map.bit_cnt pages r cnt w.kernel.aligned e
              le pos,
        )
        refl
  find_pool true pages e le =
      rw
        (
          eq→== (pages % 4096) 0 (omega (arith, e, w.user.aligned)),
          ne→== pages 0 (λ t. omega (arith, t, e, w.user.positive)),
          ne→== cnt 0 (λ t. omega (arith, t, pos)),
          page_out h.kernel_pool.base h.kernel_pool.used_map.bit_cnt pages w.kernel.aligned
              (omega (arith, e, w.user.aligned)) (other w.apart),
          page_in h.user_pool.base h.user_pool.used_map.bit_cnt pages r cnt w.user.aligned e le pos,
        )
        refl
    where
      other :
          (h.kernel_pool.base + 4096 * h.kernel_pool.used_map.bit_cnt ≤ h.user_pool.base)
            ⊎ (h.user_pool.base + 4096 * h.user_pool.used_map.bit_cnt ≤ h.kernel_pool.base)
          → (pages < h.kernel_pool.base)
            ⊎ (h.kernel_pool.base + 4096 * h.kernel_pool.used_map.bit_cnt ≤ pages)
      other (inl l) = inr (omega (arith, l, e))
      other (inr l) = inl (omega (arith, l, e, le, pos))
